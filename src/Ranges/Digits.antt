-- ===== src/Ranges/Digits.antt =====
-- `parse_usize` reads what `decimal` prints, up to the largest `usize`.
use mathlib.Core.List.{append_assoc, append-nil}
use opencaw.Prelude.{
  ℕ, zero, suc, ◌+◌, ◌/◌, ◌%◌, ◌^◌, ◌≤◌, ◌<◌, ◌≡◌, ◌∙◌, refl, sym, ap, inl, inr, some, [], ◌∷◌,
  ◌++◌, arith, ltb, Bool-cases, ltb→lt, ltb→le,
}
use opencaw.Core.{Text}
use opencaw.Text.Format.{decimal, decimal_loop}
use opencaw.Text.Decimal.{decimal_loop-cons}
use opencaw.Ranges.{digit_step, digits_from, digits, without_plus, parse_usize}

digit_step-digit : (n : ℕ) → n < 2 ^ 64 → digit_step (n / 10) (n % 10 + 48) ≡ some n
unfolding digit_step
digit_step-digit n h = ground arith

digit_step-first : (n : ℕ) → n < 10 → digit_step 0 (n + 48) ≡ some n
unfolding digit_step
digit_step-first n h = ground arith

-- The digits of a number in front of others.
digits_from-decimal_loop :
    (fuel n : ℕ) (s : Text)
    → n ≤ fuel
    → n < 2 ^ 64
    → digits_from 0 (decimal_loop fuel n ++ s) ≡ digits_from n s
unfolding digits_from decimal_loop
digits_from-decimal_loop zero n s enough small =
    let none_left : n ≡ 0 = omega arith in rw (digits_from, none_left) refl
digits_from-decimal_loop (suc fuel) n s enough small = elim (Bool-cases (ltb n 10)) [
  | inl e ↦ rw (decimal_loop, e, digits_from, digit_step-first n (ltb→lt n 10 e)) refl
  | inr e ↦
      let ten = ltb→le n 10 e in
      rw (decimal_loop, e)
        (ap (digits_from 0) (append_assoc (decimal_loop fuel (n / 10)) ((n % 10 + 48) ∷ []) s)
          ∙ digits_from-decimal_loop fuel (n / 10) ((n % 10 + 48) ∷ s) (omega arith) (omega arith)
          ∙ rw (digits_from, digit_step-digit n small) refl)
]

digits-decimal : (n : ℕ) → n < 2 ^ 64 → digits (decimal n) ≡ some n
unfolding digits digits_from
digits-decimal n h =
    let (c, s, e, _, _) = decimal_loop-cons n n in
    let filled : digits (decimal n) ≡ digits_from 0 (decimal n) = rw e refl in
    filled
    ∙ ap (digits_from 0) (sym (append-nil (decimal n)))
    ∙ digits_from-decimal_loop n n [] (omega arith) h

-- A number that fits a `usize` is read back.
pub parse_usize-decimal : (n : ℕ) → n < 2 ^ 64 → parse_usize (decimal n) ≡ some n
unfolding parse_usize
parse_usize-decimal n h =
    let (c, s, e, digit, _) = decimal_loop-cons n n in
    let no_plus : without_plus (decimal n) ≡ decimal n = rw e (ground arith) in
    ap digits no_plus ∙ digits-decimal n h
