-- ===== src/Ranges/RoundTrip.antt =====
-- `parse` reads what `to_locator_string` prints.
use mathlib.Core.Path.{ap₂}
use opencaw.Prelude.{
  ℕ, ◌^◌, ◌<◌, ◌≡◌, ◌≢◌, ◌∙◌, ◌⊎◌, refl, sym, ap, inl, inr, false, none, some, List, [], ◌∷◌, ◌++◌,
  map, arith, ◌==◌, All, All-append, All-imp,
}
use opencaw.Core.{Text}
use opencaw.Text.{
  ascii, starts_with, strip_prefix, join, split_byte, split_once, eq_ignore_ascii_case,
}
use opencaw.Text.Format.{decimal, trim}
use opencaw.Text.Format.Trim.{IsVisible, trim-visible}
use opencaw.Text.Decimal.{IsDigit, decimal_loop-IsDigit, decimal_loop-cons, split_once-digits}
use opencaw.Ranges.{
  Range, full, lines_of, heading, tokens_of, custom, parse, parse_trimmed, parse_lines, both,
  to_locator_string,
}
use opencaw.Ranges.Digits.{parse_usize-decimal}

-- A part of a heading's path: trimmed, and without a slash.
abbrev pub IsPart : Text → Type 0
IsPart t = (trim t ≡ t) × All (λ b. (b == 47) ≡ false) t

-- A range that its text stands for: numbers of 64 bits, and the parts of a path.
abbrev pub IsCanonical : Range → Type 0
IsCanonical full = Unit
IsCanonical (lines_of start end) = (start < 2 ^ 64) × (end < 2 ^ 64)
IsCanonical (heading path) =
    (path ≢ [])
    × (trim (to_locator_string (heading path)) ≡ to_locator_string (heading path))
    × All IsPart path
IsCanonical (tokens_of start count) = (start < 2 ^ 64) × (count < 2 ^ 64)
IsCanonical (custom s) = parse s ≡ custom s

digits-IsVisible : (n : ℕ) → All IsVisible (decimal n)
digits-IsVisible n =
    All-imp (λ c h. (omega arith, omega arith)) (decimal n) (decimal_loop-IsDigit n n)

-- Two numbers around a mark that is visible are trimmed.
around-IsVisible : (m n c : ℕ) → IsVisible c → All IsVisible (decimal m ++ (c ∷ decimal n))
around-IsVisible m n c h =
    All-append IsVisible (decimal m) (c ∷ decimal n) (digits-IsVisible m) (h, digits-IsVisible n)

both-decimal :
    (m n c : ℕ)
    → (c < 48) ⊎ (57 < c)
    → m < 2 ^ 64
    → n < 2 ^ 64
    → both (split_once c (decimal m ++ (c ∷ decimal n))) ≡ some (m, n)
both-decimal m n c out hm hn =
    rw
      (
        both,
        split_once-digits c (decimal m) (decimal n) out (decimal_loop-IsDigit m m),
        parse_usize-decimal m hm,
        parse_usize-decimal n hn,
      )
      refl

-- The tests on the first byte.
not_full : (c : ℕ) (s : Text) → c < 65 → eq_ignore_ascii_case (c ∷ s) (ascii "full") ≡ false
unfolding eq_ignore_ascii_case
not_full c s h = ground arith

no_mark : (c m : ℕ) (s : Text) → (c == m) ≡ false → strip_prefix (m ∷ []) (c ∷ s) ≡ none
unfolding strip_prefix
no_mark c m s h = rw (strip_prefix, h) refl

no_start : (c m : ℕ) (s : Text) → (c == m) ≡ false → starts_with (c ∷ s) (m ∷ []) ≡ false
unfolding starts_with
no_start c m s h = rw (starts_with, h) refl

parse_trimmed-digit :
    (c : ℕ) (s : Text) (m n : ℕ)
    → IsDigit c
    → both (split_once 45 (c ∷ s)) ≡ some (m, n)
    → parse_trimmed (c ∷ s) ≡ lines_of m n
unfolding parse_trimmed parse_lines
parse_trimmed-digit c s m n h numbers =
    rw
      (
        parse_trimmed,
        parse_lines,
        not_full c s (omega arith),
        no_mark c 35 s (ground arith),
        no_mark c 84 s (ground arith),
        no_start c 76 s (ground arith),
        numbers,
      )
      refl

parse_trimmed-lines :
    (m n : ℕ)
    → m < 2 ^ 64
    → n < 2 ^ 64
    → parse_trimmed (decimal m ++ (45 ∷ decimal n)) ≡ lines_of m n
parse_trimmed-lines m n hm hn =
    let (c, s, e, digit, _) = decimal_loop-cons m m in
    let numbers : both (split_once 45 (c ∷ (s ++ (45 ∷ decimal n)))) ≡ some (m, n) =
      ap (λ d. both (split_once 45 (d ++ (45 ∷ decimal n)))) (sym e)
      ∙ both-decimal m n 45 (inl (omega arith)) hm hn in
    ap (λ d. parse_trimmed (d ++ (45 ∷ decimal n))) e
    ∙ parse_trimmed-digit c (s ++ (45 ∷ decimal n)) m n digit numbers

parse_trimmed-tokens :
    (m n : ℕ)
    → m < 2 ^ 64
    → n < 2 ^ 64
    → parse_trimmed (84 ∷ (decimal m ++ (58 ∷ decimal n))) ≡ tokens_of m n
unfolding parse_trimmed eq_ignore_ascii_case strip_prefix
parse_trimmed-tokens m n hm hn =
    rw (parse_trimmed, both-decimal m n 58 (inr (omega arith)) hm hn) refl

-- A part in front of a slash, and the last one.
split_byte-part :
    (t s : Text)
    → All (λ b. (b == 47) ≡ false) t
    → split_byte 47 (t ++ (47 ∷ s)) ≡ t ∷ split_byte 47 s
unfolding split_byte
split_byte-part [] s h = refl
split_byte-part (b ∷ t) s (h, hs) = rw (split_byte, h, split_byte-part t s hs) refl

split_byte-last : (t : Text) → All (λ b. (b == 47) ≡ false) t → split_byte 47 t ≡ t ∷ []
unfolding split_byte
split_byte-last [] h = refl
split_byte-last (b ∷ t) (h, hs) = rw (split_byte, h, split_byte-last t hs) refl

split_byte-join :
    (path : List Text)
    → path ≢ []
    → All IsPart path
    → map trim (split_byte 47 (join (ascii "/") path)) ≡ path
unfolding join
split_byte-join [] filled parts = absurd (filled refl)
split_byte-join (t ∷ []) filled ((trimmed, whole), _) =
    rw (split_byte-last t whole) (ap (λ u. u ∷ []) trimmed)
split_byte-join (t ∷ u ∷ ts) filled ((trimmed, whole), parts) =
    rw (split_byte-part t (join (ascii "/") (u ∷ ts)) whole)
      (ap₂ ◌∷◌ trimmed (split_byte-join (u ∷ ts) (λ e. cc) parts))

parse_trimmed-heading :
    (path : List Text)
    → path ≢ []
    → All IsPart path
    → parse_trimmed (35 ∷ join (ascii "/") path) ≡ heading path
unfolding parse_trimmed eq_ignore_ascii_case strip_prefix
parse_trimmed-heading path filled parts = ap heading (split_byte-join path filled parts)

-- `parse` reads back the text of a range that `to_locator_string` prints, if its numbers have 64
-- bits, or the parts of its path are trimmed and have no slash, and a custom range is one that
-- `parse` gives.
pub parse-to_locator_string : (r : Range) → IsCanonical r → parse (to_locator_string r) ≡ r
unfolding parse to_locator_string
parse-to_locator_string full h = unfold parse_trimmed eq_ignore_ascii_case trim in refl
parse-to_locator_string (lines_of m n) (hm, hn) =
    ap parse_trimmed (trim-visible _ (around-IsVisible m n 45 (omega arith, omega arith)))
    ∙ parse_trimmed-lines m n hm hn
parse-to_locator_string (heading path) (filled, trimmed, parts) =
    ap parse_trimmed trimmed ∙ parse_trimmed-heading path filled parts
parse-to_locator_string (tokens_of m n) (hm, hn) =
    ap parse_trimmed (
      trim-visible _
        ((omega arith, omega arith), around-IsVisible m n 58 (omega arith, omega arith)))
    ∙ parse_trimmed-tokens m n hm hn
parse-to_locator_string (custom s) h = h
