-- ===== src/Text/Format.antt =====
-- What the code uses of `format!`, `chars` and `trim_end`, on the bytes of a text.
pub mod Trim
use opencaw.Prelude.{
  ℕ, zero, suc, ◌+◌, ◌≤◌, ◌≡◌, arith, length, ◌/◌, ◌%◌, Bool, ◌&&◌, ◌||◌, List, [], ◌∷◌, ◌++◌, ltb,
  leb, ◌==◌, if◌then◌else◌,
}
use opencaw.Core.{Text}
use opencaw.Text.{is_continuation}

-- The decimal digits of a number; the fuel is the number, which has no more digits than one more.
unfoldable pub decimal_loop : ℕ → ℕ → Text
decimal_loop zero n = (n % 10 + 48) ∷ []
decimal_loop (suc fuel) n =
    let front = decimal_loop fuel (n / 10) in
    if ltb n 10 then (n + 48) ∷ [] else front ++ ((n % 10 + 48) ∷ [])

abbrev pub decimal : ℕ → Text
decimal n = decimal_loop n n

-- `chars().take(n).collect()`: up to `n` bytes that begin a code point, each with those that follow.
unfoldable pub take_chars : ℕ → Text → Text
take_chars n [] = []
take_chars zero (b ∷ s) = if is_continuation b then b ∷ take_chars zero s else []
take_chars (suc n) (b ∷ s) =
    let inside = take_chars (suc n) s in
    let next = take_chars n s in if is_continuation b then b ∷ inside else b ∷ next

-- The white space of Unicode in UTF-8, of one, two and three bytes.
abbrev is_space1 : ℕ → Bool
is_space1 a = (leb 9 a && leb a 13) || (a == 32)

abbrev is_space2 : ℕ → ℕ → Bool
is_space2 a b = (a == 194) && ((b == 133) || (b == 160))

abbrev is_space3 : ℕ → ℕ → ℕ → Bool
is_space3 a b c =
    ((a == 225) && (b == 154) && (c == 128))
    || ((a == 226)
        && (b == 128)
        && ((leb 128 c && leb c 138) || (c == 168) || (c == 169) || (c == 175)))
    || ((a == 226) && (b == 129) && (c == 159))
    || ((a == 227) && (b == 128) && (c == 128))

-- The loop runs over the bytes from the last to the first.
trim_loop : Text → Text
trim_loop [] = []
trim_loop (a ∷ []) = if is_space1 a then [] else a ∷ []
trim_loop (b ∷ a ∷ []) =
    let shorter = trim_loop (a ∷ []) in
    if is_space1 b then shorter else if is_space2 a b then [] else b ∷ a ∷ []
trim_loop (c ∷ b ∷ a ∷ s) =
    let without1 = trim_loop (b ∷ a ∷ s) in
    let without2 = trim_loop (a ∷ s) in
    let without3 = trim_loop s in
    if is_space1 c
    then without1
    else if is_space2 b c
    then without2
    else if is_space3 a b c
    then without3
    else c ∷ b ∷ a ∷ s

reverse_onto : Text → Text → Text
reverse_onto [] r = r
reverse_onto (b ∷ s) r = reverse_onto s (b ∷ r)

-- `trim_end()`
unfoldable pub trim_end : Text → Text
unfolding trim_loop reverse_onto
trim_end s = reverse_onto (trim_loop (reverse_onto s [])) []

-- How many bytes the white space at the front has, 0 if there is none.
unfoldable pub space_length : Text → ℕ
space_length [] = 0
space_length (a ∷ []) = if is_space1 a then 1 else 0
space_length (a ∷ b ∷ []) = if is_space1 a then 1 else if is_space2 a b then 2 else 0
space_length (a ∷ b ∷ c ∷ s) =
    if is_space1 a then 1 else if is_space2 a b then 2 else if is_space3 a b c then 3 else 0

-- `skip` bytes of a white space are still to be dropped.
trim_start_from : ℕ → Text → Text
unfolding space_length
trim_start_from skip [] = []
trim_start_from (suc skip) (b ∷ s) = trim_start_from skip s
trim_start_from zero (b ∷ s) = elim (space_length (b ∷ s)) [
  | zero ↦ b ∷ s
  | suc more ↦ trim_start_from more s
]

-- `trim_start()`
unfoldable pub trim_start : Text → Text
unfolding trim_start_from
trim_start s = trim_start_from 0 s

-- `trim()`
unfoldable pub trim : Text → Text
unfolding trim_start trim_end
trim s = trim_end (trim_start s)

length-trim_loop : (s : Text) → length (trim_loop s) ≤ length s
unfolding trim_loop
length-trim_loop [] = omega arith
length-trim_loop (a ∷ []) = ground arith
length-trim_loop (b ∷ a ∷ []) = ground (arith, length-trim_loop (a ∷ []))
length-trim_loop (c ∷ b ∷ a ∷ s) =
    ground (arith, length-trim_loop (b ∷ a ∷ s), length-trim_loop (a ∷ s), length-trim_loop s)

length-reverse_onto : (s r : Text) → length (reverse_onto s r) ≡ length s + length r
unfolding reverse_onto
length-reverse_onto [] r = omega arith
length-reverse_onto (b ∷ s) r = omega (arith, length-reverse_onto s (b ∷ r))

pub trim_end-length_le : (s : Text) → length (trim_end s) ≤ length s
unfolding trim_end
trim_end-length_le s = omega (
  arith,
  length-reverse_onto (trim_loop (reverse_onto s [])) [],
  length-trim_loop (reverse_onto s []),
  length-reverse_onto s [],
)

-- `split_whitespace`, with the word so far; `skip` bytes of a white space are left.
unfoldable pub words_from : ℕ → Text → Text → List Text
words_from skip word [] = if length word == 0 then [] else word ∷ []
words_from (suc skip) word (b ∷ s) = words_from skip word s
words_from zero word (b ∷ s) = elim (space_length (b ∷ s)) [
  | zero ↦ words_from zero (word ++ (b ∷ [])) s
  | suc more ↦ let rest = words_from more [] s in if length word == 0 then rest else word ∷ rest
]
