-- ===== src/Prelude/Maps.antt =====
-- Hash maps and hash sets with text keys, as the functions that look a key up.
use Prim.Native.String.{String}
use mathlib.Core.Bool.{Bool, true, false}
use mathlib.Core.Option.{Option, none, some}
use text.Mathlib.Text.{◌==◌}
use opencaw.Prelude.Tests.{if◌then◌else◌}

-- `HashSet<String>`: what `contains` answers.
abbrev pub StrSet : Type 0
StrSet = String → Bool

-- `HashMap<String, V>`: what `get` answers.
abbrev pub StrMap : Type 0 → Type 0
StrMap V = String → Option V

abbrev pub no_keys : StrSet
no_keys j = false

abbrev pub add_key : String → StrSet → StrSet
add_key k s j = if k == j then true else s j

abbrev pub remove_key : String → StrSet → StrSet
remove_key k s j = if k == j then false else s j

module _ {V : Type 0} where
  abbrev pub no_entries : StrMap V
  no_entries j = none

  abbrev pub put_entry : String → V → StrMap V → StrMap V
  put_entry k v m j = if k == j then some v else m j

  abbrev pub remove_entry : String → StrMap V → StrMap V
  remove_entry k m j = if k == j then none else m j

  abbrev pub entry_or : V → Option V → V
  entry_or d none = d
  entry_or d (some v) = v
