-- ===== src/Text/Find.antt =====
-- What `find`, `contains` and `split` see of a text that is put together.
use mathlib.Core.Path.{ap₂}
use mathlib.Core.List.{append_assoc}
use opencaw.Prelude.{
  ℕ, zero, suc, ◌+◌, ◌≤◌, ◌≡◌, ◌≢◌, ◌∙◌, refl, sym, ap, inl, inr, true, false, Option, none, some,
  [], ◌∷◌, ◌++◌, arith, length, length-append, take, drop, Bool-cases,
}
use opencaw.Core.{Text}
use opencaw.Text.{shift, starts_with, contains, find, split_from}

starts_with-append : (s t p : Text) → length p ≤ length s → starts_with (s ++ t) p ≡ starts_with s p
unfolding starts_with
starts_with-append s t [] h = refl
starts_with-append [] t (c ∷ p) h = absurd (omega arith)
starts_with-append (b ∷ s) t (c ∷ p) h = ground (arith, starts_with-append s t p)

true-ne-false : true ≢ false
true-ne-false h = cc

starts_with-true : (s t p : Text) → starts_with s p ≡ true → starts_with (s ++ t) p ≡ true
unfolding starts_with
starts_with-true s t [] h = refl
starts_with-true [] t (c ∷ p) h = absurd (true-ne-false (sym h))
starts_with-true (b ∷ s) t (c ∷ p) h = ground (arith, starts_with-true s t p)

starts_with-own : (p t : Text) → starts_with (p ++ t) p ≡ true
unfolding starts_with
starts_with-own [] t = refl
starts_with-own (c ∷ p) t = ground (arith, starts_with-own p t)

contains-head : (s p : Text) → contains s p ≡ false → starts_with s p ≡ false
unfolding contains
contains-head [] p h = h
contains-head (b ∷ s) p h = ground arith

contains-tail : (b : ℕ) (s p : Text) → contains (b ∷ s) p ≡ false → contains s p ≡ false
unfolding contains
contains-tail b s p h = ground arith

contains-nil : (s : Text) → contains s [] ≡ true
unfolding contains starts_with
contains-nil [] = refl
contains-nil (b ∷ s) = refl

-- A beginning of a text without the pattern is without it.
pub contains-append : (s t p : Text) → contains (s ++ t) p ≡ false → contains s p ≡ false
unfolding contains starts_with
contains-append [] t [] h = sym (contains-nil t) ∙ h
contains-append [] t (c ∷ p) h = refl
contains-append (b ∷ s) t p h = elim (Bool-cases (starts_with (b ∷ s) p)) [
  | inl e ↦
      absurd
        (true-ne-false (sym (starts_with-true (b ∷ s) t p e) ∙ contains-head (b ∷ (s ++ t)) p h))
  | inr e ↦ rw (contains, e) (contains-append s t p (contains-tail b (s ++ t) p h))
]

abbrev pub shift_by : ℕ → Option ℕ → Option ℕ
shift_by n none = none
shift_by n (some i) = some (n + i)

shift_by-zero : (o : Option ℕ) → o ≡ shift_by 0 o
shift_by-zero none = refl
shift_by-zero (some i) = ap some (omega arith)

pub find-none : (s p : Text) → contains s p ≡ false → find p s ≡ none
unfolding contains find
find-none [] p h = ground arith
find-none (b ∷ s) p h = ground (arith, find-none s p)

shift-shift_by : (n : ℕ) (o : Option ℕ) → shift (shift_by n o) ≡ shift_by (suc n) o
shift-shift_by n none = refl
shift-shift_by n (some i) = ap some (omega arith)

-- Where the pattern does not begin in `s`, the search goes on behind it. A match that began in `s`
-- would lie in `s` and the beginning `h` of what follows.
pub find-skip :
    (s h r p : Text)
    → length p ≤ suc (length h)
    → contains (s ++ h) p ≡ false
    → find p (s ++ (h ++ r)) ≡ shift_by (length s) (find p (h ++ r))
unfolding find
find-skip [] h r p short out = shift_by-zero (find p (h ++ r))
find-skip (b ∷ s) h r p short out =
    let apart : starts_with (b ∷ (s ++ (h ++ r))) p ≡ false =
      ap (λ t. starts_with (b ∷ t) p) (sym (append_assoc s h r))
      ∙ starts_with-append (b ∷ (s ++ h)) r p (omega (arith, length-append s h))
      ∙ contains-head (b ∷ (s ++ h)) p out in
    let later = find-skip s h r p short (contains-tail b (s ++ h) p out) in
    rw (find, apart, later) (shift-shift_by (length s) (find p (h ++ r)))

pub find-here : (p t : Text) → find p (p ++ t) ≡ some 0
unfolding find starts_with
find-here [] [] = refl
find-here [] (b ∷ t) = refl
find-here (c ∷ p) t = rw (find, starts_with-own (c ∷ p) t) refl

-- The search finds the first place of the pattern `q ++ (last ∷ [])`.
pub find-append :
    (s q t : Text) (last : ℕ)
    → contains (s ++ q) (q ++ (last ∷ [])) ≡ false
    → find (q ++ (last ∷ [])) (s ++ (q ++ (last ∷ t))) ≡ some (length s)
find-append s q t last out =
    let p = q ++ (last ∷ []) in
    let behind : q ++ (last ∷ t) ≡ p ++ t = sym (append_assoc q (last ∷ []) t) in
    let there : find p (q ++ (last ∷ t)) ≡ some 0 = ap (find p) behind ∙ find-here p t in
    find-skip s q (last ∷ t) p (omega (arith, length-append q (last ∷ []))) out
    ∙ ap (shift_by (length s)) there
    ∙ ap some (omega arith)

pub take-append : (s t : Text) → take (length s) (s ++ t) ≡ s
take-append [] t = refl
take-append (b ∷ s) t = ap (◌∷◌ b) (take-append s t)

pub drop-append : (s t : Text) (n : ℕ) → drop (length s + n) (s ++ t) ≡ drop n t
drop-append [] t n = ap (λ m. drop m t) (omega arith)
drop-append (b ∷ s) t n =
    let step : suc (length s) + n ≡ suc (length s + n) = omega arith in rw step (drop-append s t n)

drop-length : (p t : Text) → drop (length p) (p ++ t) ≡ t
drop-length p t =
    let same : length p ≡ length p + 0 = omega arith in
    ap (λ n. drop n (p ++ t)) same ∙ drop-append p t 0

-- The text behind the first place of a pattern.
pub drop-found :
    (s q t : Text) (last : ℕ)
    → drop (length s + length (q ++ (last ∷ []))) (s ++ (q ++ (last ∷ t))) ≡ t
drop-found s q t last =
    let p = q ++ (last ∷ []) in
    drop-append s (q ++ (last ∷ t)) (length p)
    ∙ ap (drop (length p)) (sym (append_assoc q (last ∷ []) t))
    ∙ drop-length p t

pub split_from-append :
    (fuel : ℕ) (s q t : Text) (last : ℕ)
    → contains (s ++ q) (q ++ (last ∷ [])) ≡ false
    → split_from (suc fuel) (q ++ (last ∷ [])) (s ++ (q ++ (last ∷ t)))
      ≡ s ∷ split_from fuel (q ++ (last ∷ [])) t
unfolding split_from
split_from-append fuel s q t last out =
    rw (split_from, find-append s q t last out)
      (ap₂ ◌∷◌ (take-append s (q ++ (last ∷ t)))
        (ap (split_from fuel (q ++ (last ∷ []))) (drop-found s q t last)))

pub split_from-whole : (fuel : ℕ) (s p : Text) → contains s p ≡ false → split_from fuel p s ≡ s ∷ []
unfolding split_from
split_from-whole zero s p out = refl
split_from-whole (suc fuel) s p out = rw (split_from, find-none s p out) refl
