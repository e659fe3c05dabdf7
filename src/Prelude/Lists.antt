-- ===== src/Prelude/Lists.antt =====
-- Lists measured and indexed by native numbers, sums, and predicates by recursion on a list.
use Prim.Native.Nat.{ℕ, zero, suc, ◌+◌, ◌-◌, min}
use mathlib.Core.Path.{◌≡◌, refl, ap}
use mathlib.Core.List.{List, [], ◌∷◌, ◌++◌}
use mathlib.Core.Bool.{Bool, true, false}
use mathlib.Core.Option.{Option, none, some}
use native.Mathlib.Omega.{arith}
use opencaw.Prelude.Tests.{if◌then◌else◌}

module _ {ℓ} {A : Type ℓ} where
  abbrev pub length : List A → ℕ
  length [] = 0
  length (x ∷ xs) = suc (length xs)

  abbrev pub get_elem? : List A → ℕ → Option A
  get_elem? [] i = none
  get_elem? (x ∷ xs) zero = some x
  get_elem? (x ∷ xs) (suc i) = get_elem? xs i

  abbrev pub take : ℕ → List A → List A
  take zero xs = []
  take (suc n) [] = []
  take (suc n) (x ∷ xs) = x ∷ take n xs

  abbrev pub drop : ℕ → List A → List A
  drop zero xs = xs
  drop (suc n) [] = []
  drop (suc n) (x ∷ xs) = drop n xs

  -- `iter().filter(keep).collect()`
  abbrev pub filter_b : (A → Bool) → List A → List A
  filter_b keep [] = []
  filter_b keep (x ∷ xs) = let rest = filter_b keep xs in if keep x then x ∷ rest else rest

  -- `iter().any(test)`
  abbrev pub any_b : (A → Bool) → List A → Bool
  any_b test [] = false
  any_b test (x ∷ xs) = if test x then true else any_b test xs

  -- `iter().map(weight).sum()`
  abbrev pub sum_of : (A → ℕ) → List A → ℕ
  sum_of weight [] = 0
  sum_of weight (x ∷ xs) = weight x + sum_of weight xs

  abbrev pub All {κ} : (A → Type κ) → List A → Type κ
  All P [] = Unit
  All P (x ∷ xs) = P x × All P xs

  pub length-append : (xs ys : List A) → length (xs ++ ys) ≡ length xs + length ys
  length-append [] ys = omega arith
  length-append (x ∷ xs) ys = omega (arith, length-append xs ys)

  pub sum_of-append :
      (weight : A → ℕ) (xs ys : List A)
      → sum_of weight (xs ++ ys) ≡ sum_of weight xs + sum_of weight ys
  sum_of-append weight [] ys = omega arith
  sum_of-append weight (x ∷ xs) ys = omega (arith, sum_of-append weight xs ys)

  pub length-take : (n : ℕ) (xs : List A) → length (take n xs) ≡ min n (length xs)
  length-take zero xs = omega arith
  length-take (suc n) [] = omega arith
  length-take (suc n) (x ∷ xs) = omega (arith, length-take n xs)

  pub length-drop : (n : ℕ) (xs : List A) → length (drop n xs) ≡ length xs - n
  length-drop zero xs = omega arith
  length-drop (suc n) [] = omega arith
  length-drop (suc n) (x ∷ xs) = omega (arith, length-drop n xs)

  pub take-append-drop : (n : ℕ) (xs : List A) → take n xs ++ drop n xs ≡ xs
  take-append-drop zero xs = refl
  take-append-drop (suc n) [] = refl
  take-append-drop (suc n) (x ∷ xs) = ap (◌∷◌ x) (take-append-drop n xs)

-- `zip` stops at the end of the shorter list.
abbrev pub zip {ℓ κ} : {A : Type ℓ} {B : Type κ} → List A → List B → List (A × B)
zip [] ys = []
zip (x ∷ xs) [] = []
zip (x ∷ xs) (y ∷ ys) = (x, y) ∷ zip xs ys

module _ {ℓ κ} {A : Type ℓ} (P : A → Type κ) where
  pub All-append : (xs ys : List A) → All P xs → All P ys → All P (xs ++ ys)
  All-append [] ys _ q = q
  All-append (x ∷ xs) ys (p, ps) q = (p, All-append xs ys ps q)

  pub All-append_left : (xs ys : List A) → All P (xs ++ ys) → All P xs
  All-append_left [] ys h = tt
  All-append_left (x ∷ xs) ys h = (h.0, All-append_left xs ys h.1)

  pub All-append_right : (xs ys : List A) → All P (xs ++ ys) → All P ys
  All-append_right [] ys h = h
  All-append_right (x ∷ xs) ys h = All-append_right xs ys h.1

  pub All-of_All : ((x : A) → P x) → (xs : List A) → All P xs
  All-of_All h [] = tt
  All-of_All h (x ∷ xs) = (h x, All-of_All h xs)

module _ {ℓ κ μ} {A : Type ℓ} {P : A → Type κ} {Q : A → Type μ} where
  pub All-imp : ((x : A) → P x → Q x) → (xs : List A) → All P xs → All Q xs
  All-imp h [] _ = tt
  All-imp h (x ∷ xs) (p, ps) = (h x p, All-imp h xs ps)

module _ {ℓ κ μ ν} {A : Type ℓ} {P : A → Type κ} {Q : A → Type μ} {R : A → Type ν} where
  pub All-imp_both : ((x : A) → P x → Q x → R x) → (xs : List A) → All P xs → All Q xs → All R xs
  All-imp_both h [] _ _ = tt
  All-imp_both h (x ∷ xs) (p, ps) (q, qs) = (h x p q, All-imp_both h xs ps qs)

module _ {ℓ} {A : Type ℓ} (test : A → Bool) where
  pub filter_b-eq-nil : (xs : List A) → All (λ x. test x ≡ false) xs → filter_b test xs ≡ []
  filter_b-eq-nil [] h = refl
  filter_b-eq-nil (x ∷ xs) (h, hs) = ground (arith, filter_b-eq-nil xs hs)

  pub filter_b-eq_self : (xs : List A) → All (λ x. test x ≡ true) xs → filter_b test xs ≡ xs
  filter_b-eq_self [] h = refl
  filter_b-eq_self (x ∷ xs) (h, hs) = rw h (ap (◌∷◌ x) (filter_b-eq_self xs hs))

  pub All-filter_b : (xs : List A) → All (λ x. test x ≡ true) (filter_b test xs)
  All-filter_b [] = tt
  All-filter_b (x ∷ xs) = ground (arith, All-filter_b xs)
