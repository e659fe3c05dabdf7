-- ===== src/Text/Decimal.antt =====
-- The digits that `decimal` prints.
use opencaw.Prelude.{
  ℕ, zero, suc, ◌+◌, ◌/◌, ◌%◌, ◌≤◌, ◌<◌, ◌≡◌, refl, ap, inl, inr, ◌⊎◌, some, [], ◌∷◌, ◌++◌, arith,
  ltb, All, All-append, Bool-cases,
}
use opencaw.Core.{Text}
use opencaw.Text.{contains, starts_with, split_once}
use opencaw.Text.Format.{decimal_loop}

abbrev pub IsDigit : ℕ → Type 0
IsDigit c = (48 ≤ c) × (c ≤ 57)

pub decimal_loop-IsDigit : (fuel n : ℕ) → All IsDigit (decimal_loop fuel n)
unfolding decimal_loop
decimal_loop-IsDigit zero n = ((omega arith, omega arith), tt)
decimal_loop-IsDigit (suc fuel) n = elim (Bool-cases (ltb n 10)) [
  | inl e ↦ rw (decimal_loop, e) (ground arith, tt)
  | inr e ↦
      rw (decimal_loop, e)
        (All-append IsDigit (decimal_loop fuel (n / 10)) ((n % 10 + 48) ∷ [])
          (decimal_loop-IsDigit fuel (n / 10)) ((omega arith, omega arith), tt))
]

first_digit : (fuel n : ℕ) → (c : ℕ) × (s : Text) × (decimal_loop fuel n ≡ c ∷ s)
unfolding decimal_loop
first_digit zero n = (n % 10 + 48, [], refl)
first_digit (suc fuel) n = elim (Bool-cases (ltb n 10)) [
  | inl e ↦ (n + 48, [], rw (decimal_loop, e) refl)
  | inr e ↦
      let (c, s, same) = first_digit fuel (n / 10) in
      (
        c,
        s ++ ((n % 10 + 48) ∷ []),
        rw (decimal_loop, e) (ap (λ d. d ++ ((n % 10 + 48) ∷ [])) same),
      )
]

-- There is a first digit.
pub decimal_loop-cons :
    (fuel n : ℕ) → (c : ℕ) × (s : Text) × (decimal_loop fuel n ≡ c ∷ s) × IsDigit c × All IsDigit s
decimal_loop-cons fuel n =
    let (c, s, e) = first_digit fuel n in
    let (h, hs) = rw e at (decimal_loop-IsDigit fuel n) in (c, s, e, h, hs)

-- Digits do not begin a mark.
pub contains-digits :
    (d s p : Text) (c : ℕ) → All IsDigit d → 58 ≤ c → contains (d ++ s) (c ∷ p) ≡ contains s (c ∷ p)
unfolding contains starts_with
contains-digits [] s p c h k = refl
contains-digits (b ∷ d) s p c (h, hs) k = ground (arith, contains-digits d s p c hs k)

-- The text is split behind digits.
pub split_once-digits :
    (c : ℕ) (d s : Text)
    → (c < 48) ⊎ (57 < c)
    → All IsDigit d
    → split_once c (d ++ (c ∷ s)) ≡ some (d, s)
unfolding split_once
split_once-digits c [] s h ds = ground arith
split_once-digits c (b ∷ d) s h (k, ks) = ground (arith, split_once-digits c d s h ks)
