-- ===== src/Text.antt =====
-- The operations of `str` that the code uses, on the bytes of a text. `slice` is total: where Rust
-- would panic (a range that runs backwards or past the end, or one that cuts a code point) the model
-- returns a shorter list, so the theorems that rule a panic out are about the ends of the ranges.
pub mod Bounds
pub mod Search
pub mod Find
pub mod Utf8
pub mod Format
pub mod Decimal
use Prim.Native.Char.{code}
use Prim.Native.String.{String}
use Prim.Native.String
use opencaw.Prelude.{
  ℕ, zero, suc, ◌+◌, ◌-◌, Bool, true, false, not, ◌&&◌, Option, none, some, List, [], ◌∷◌, ◌++◌,
  ltb, leb, ◌==◌, if◌then◌else◌, length, get_elem?, take, drop,
}
use opencaw.Core.{Text}

-- The bytes of an ASCII text.
abbrev pub ascii : String → Text
ascii String.[] = []
ascii (String.◌∷◌ c s) = code c ∷ ascii s

-- `&s[a..b]`
abbrev pub slice : Text → ℕ → ℕ → Text
slice s a b = take (b - a) (drop a s)

abbrev pub concat_text : List Text → Text
concat_text [] = []
concat_text (t ∷ ts) = t ++ concat_text ts

abbrev pub newline : ℕ
newline = 10

abbrev pub shift : Option ℕ → Option ℕ
shift none = none
shift (some i) = some (suc i)

-- `s.find(c)` for an ASCII character.
unfoldable pub find_byte : ℕ → Text → Option ℕ
find_byte c [] = none
find_byte c (b ∷ bs) = let later = shift (find_byte c bs) in if b == c then some 0 else later

-- `s.rfind(c)` for an ASCII character.
abbrev last_of : Bool → Option ℕ → Option ℕ
last_of here (some i) = some (suc i)
last_of here none = if here then some 0 else none

unfoldable pub rfind_byte : ℕ → Text → Option ℕ
rfind_byte c [] = none
rfind_byte c (b ∷ bs) = last_of (b == c) (rfind_byte c bs)

-- A byte that does not begin a code point.
abbrev pub is_continuation : ℕ → Bool
is_continuation b = leb 128 b && ltb b 192

-- `s.is_char_boundary(i)`
abbrev boundary_at : Option ℕ → Bool
boundary_at none = false
boundary_at (some b) = not (is_continuation b)

unfoldable pub is_char_boundary : Text → ℕ → Bool
is_char_boundary s zero = true
is_char_boundary s (suc i) = if suc i == length s then true else boundary_at (get_elem? s (suc i))

-- `s.starts_with(p)`
unfoldable pub starts_with : Text → Text → Bool
starts_with s [] = true
starts_with [] (c ∷ p) = false
starts_with (b ∷ s) (c ∷ p) = let rest = starts_with s p in if b == c then rest else false

-- `s.contains(p)`
unfoldable pub contains : Text → Text → Bool
unfolding starts_with
contains [] p = starts_with [] p
contains (b ∷ s) p = let later = contains s p in if starts_with (b ∷ s) p then true else later

-- `s.find(p)`
unfoldable pub find : Text → Text → Option ℕ
unfolding starts_with
find p [] = if starts_with [] p then some 0 else none
find p (b ∷ s) = let later = shift (find p s) in if starts_with (b ∷ s) p then some 0 else later

-- `s.rfind(p)`
unfoldable pub rfind : Text → Text → Option ℕ
unfolding starts_with
rfind p [] = if starts_with [] p then some 0 else none
rfind p (b ∷ s) = last_of (starts_with (b ∷ s) p) (rfind p s)

-- `s.strip_prefix(p)`
unfoldable pub strip_prefix : Text → Text → Option Text
strip_prefix [] s = some s
strip_prefix (c ∷ p) [] = none
strip_prefix (c ∷ p) (b ∷ s) = let rest = strip_prefix p s in if b == c then rest else none

-- `s.split(p)`. With no more fuel than the length of `s` the text is taken apart to its end.
abbrev before_and : Text → Option ℕ → (ℕ → List Text) → List Text
before_and s none rest = s ∷ []
before_and s (some i) rest = take i s ∷ rest i

unfoldable pub split_from : ℕ → Text → Text → List Text
unfolding find
split_from zero p s = s ∷ []
split_from (suc fuel) p s = before_and s (find p s) (λ i. split_from fuel p (drop (i + length p) s))

unfoldable pub split : Text → Text → List Text
unfolding split_from
split p s = split_from (length s) p s

-- `s.ends_with(p)`
unfoldable pub ends_with : Text → Text → Bool
unfolding starts_with
ends_with [] p = starts_with [] p
ends_with (b ∷ s) p =
    let later = ends_with s p in
    if (length p == suc (length s)) && starts_with (b ∷ s) p then true else later

-- `s.ends_with(c)` for an ASCII character.
unfoldable pub ends_with_byte : ℕ → Text → Bool
ends_with_byte c [] = false
ends_with_byte c (b ∷ []) = b == c
ends_with_byte c (b ∷ d ∷ s) = ends_with_byte c (d ∷ s)

-- The part of `s` before its first line feed, and the rest behind it, if there is a line feed.
pub split_line : Text → Text × Option Text
split_line [] = ([], none)
split_line (b ∷ s) =
    let (line, rest) = split_line s in if b == newline then ([], some s) else (b ∷ line, rest)

-- A line without the carriage return at its end.
pub strip_cr : Text → Text
strip_cr [] = []
strip_cr (b ∷ []) = if b == 13 then [] else b ∷ []
strip_cr (b ∷ d ∷ s) = b ∷ strip_cr (d ∷ s)

-- `s.lines().next()`. A carriage return counts only before a line feed.
unfoldable pub first_line : Text → Option Text
unfolding split_line strip_cr
first_line [] = none
first_line (b ∷ s) =
    let (line, rest) = split_line (b ∷ s) in
    elim rest [ none ↦ some line | some _ ↦ some (strip_cr line) ]

-- `s.lines()`. With no more fuel than the length of `s` the text is taken apart to its end.
lines_from : ℕ → Text → List Text
unfolding split_line strip_cr
lines_from zero s = []
lines_from (suc fuel) [] = []
lines_from (suc fuel) (b ∷ s) =
    let (line, rest) = split_line (b ∷ s) in
    elim rest [ none ↦ line ∷ [] | some behind ↦ strip_cr line ∷ lines_from fuel behind ]

unfoldable pub lines : Text → List Text
unfolding lines_from
lines s = lines_from (length s) s

-- `parts.join(separator)`
unfoldable pub join : Text → List Text → Text
join separator [] = []
join separator (t ∷ []) = t
join separator (t ∷ u ∷ ts) = t ++ (separator ++ join separator (u ∷ ts))

-- `s.split(c)` for an ASCII character.
abbrev in_front : ℕ → List Text → List Text
in_front b [] = (b ∷ []) ∷ []
in_front b (t ∷ ts) = (b ∷ t) ∷ ts

unfoldable pub split_byte : ℕ → Text → List Text
split_byte c [] = [] ∷ []
split_byte c (b ∷ s) = let parts = split_byte c s in if b == c then [] ∷ parts else in_front b parts

-- `s.split_once(c)` for an ASCII character.
abbrev in_front_once : ℕ → Option (Text × Text) → Option (Text × Text)
in_front_once b none = none
in_front_once b (some (t, u)) = some (b ∷ t, u)

unfoldable pub split_once : ℕ → Text → Option (Text × Text)
split_once c [] = none
split_once c (b ∷ s) =
    let later = split_once c s in if b == c then some ([], s) else in_front_once b later

-- `s.chars().filter(...)` by bytes, for ASCII: `s.replace(c, "")`.
unfoldable pub remove_byte : ℕ → Text → Text
remove_byte c [] = []
remove_byte c (b ∷ s) = let rest = remove_byte c s in if b == c then rest else b ∷ rest

-- `to_ascii_lowercase` of a byte.
abbrev pub lower_byte : ℕ → ℕ
lower_byte b = if leb 65 b && leb b 90 then b + 32 else b

-- `s.eq_ignore_ascii_case(t)`
unfoldable pub eq_ignore_ascii_case : Text → Text → Bool
eq_ignore_ascii_case [] [] = true
eq_ignore_ascii_case [] (c ∷ t) = false
eq_ignore_ascii_case (b ∷ s) [] = false
eq_ignore_ascii_case (b ∷ s) (c ∷ t) =
    let rest = eq_ignore_ascii_case s t in if lower_byte b == lower_byte c then rest else false

-- `==` on texts.
unfoldable pub eq_text : Text → Text → Bool
eq_text [] [] = true
eq_text [] (c ∷ t) = false
eq_text (b ∷ s) [] = false
eq_text (b ∷ s) (c ∷ t) = let rest = eq_text s t in if b == c then rest else false
