-- ===== src/Prelude/Keys.antt =====
-- Lists of keys without duplicates, beside the set of the same keys.
use Prim.Native.String.{String}
use mathlib.Core.Path.{◌≡◌, refl, ◌∙◌}
use mathlib.Core.Bool.{Bool, false}
use mathlib.Core.List.{List, [], ◌∷◌, ◌++◌}
use native.Mathlib.Omega.{arith}
use text.Mathlib.Text.{◌==◌ as str_eq}
use text.Mathlib.TextEquality.{eq_iff}
use text.Mathlib.TextPositions.{eq_refl}
use opencaw.Prelude.Lists.{any_b}
use opencaw.Prelude.Maps.{add_key}

abbrev pub has_key : String → List String → Bool
has_key k = any_b (λ j. str_eq j k)

-- No key is twice in the list.
unfoldable pub IsDistinct : List String → Type 0
IsDistinct [] = Unit
IsDistinct (k ∷ ks) = (has_key k ks ≡ false) × IsDistinct ks

pub has_key-snoc :
    (j k : String) (ks : List String) → has_key j (ks ++ (k ∷ [])) ≡ add_key k (λ i. has_key i ks) j
has_key-snoc j k [] = refl
has_key-snoc j k (i ∷ ks) = ground (arith, has_key-snoc j k ks)

pub str_eq-sym : (a b : String) → str_eq a b ≡ false → str_eq b a ≡ false
str_eq-sym a b h = ground (arith, eq_iff a b, eq_iff b a, eq_refl a)

pub IsDistinct-snoc :
    (ks : List String) (k : String)
    → has_key k ks ≡ false
    → IsDistinct ks
    → IsDistinct (ks ++ (k ∷ []))
unfolding IsDistinct
IsDistinct-snoc [] k h d = (refl, _)
IsDistinct-snoc (i ∷ ks) k h (d, ds) =
    (has_key-snoc i k ks ∙ ground (arith, str_eq-sym i k), IsDistinct-snoc ks k (ground arith) ds)
