-- ===== src/Prelude/Sort.antt =====
-- `sort_by` as a stable insertion sort with a Boolean test, and lists in order.
use Prim.Native.Nat.{ℕ, zero, suc, ◌+◌, ◌<◌, ◌≤◌}
use mathlib.Core.Path.{◌≡◌, refl, sym, subst}
use mathlib.Core.Logic.{◌⊎◌, inl, inr}
use mathlib.Core.Bool.{Bool, true}
use mathlib.Core.List.{List, [], ◌∷◌, Memᴰ}
use native.Mathlib.Omega.{arith}
use opencaw.Prelude.Tests.{leb, ◌==◌, if◌then◌else◌, Bool-cases}
use opencaw.Prelude.Lists.{sum_of, take, All, All-imp}

module _ {ℓ} {A : Type ℓ} (le : A → A → Bool) where
  -- In front of the first element that is no smaller, so that equals keep their order.
  pub insert_by : A → List A → List A
  insert_by x [] = x ∷ []
  insert_by x (y ∷ ys) = let later = insert_by x ys in if le x y then x ∷ y ∷ ys else y ∷ later

  unfoldable pub sort_by : List A → List A
  unfolding insert_by
  sort_by [] = []
  sort_by (x ∷ xs) = insert_by x (sort_by xs)

  abbrev pub IsAscending : List A → Type ℓ
  IsAscending [] = Unit
  IsAscending (x ∷ xs) = All (λ y. le x y ≡ true) xs × IsAscending xs

  insert_by-sum_of :
      (weight : A → ℕ) (x : A) (xs : List A)
      → sum_of weight (insert_by x xs) ≡ weight x + sum_of weight xs
  unfolding insert_by
  insert_by-sum_of weight x [] = refl
  insert_by-sum_of weight x (y ∷ ys) = ground (arith, insert_by-sum_of weight x ys)

  -- A sum over a list does not see its order.
  pub sort_by-sum_of :
      (weight : A → ℕ) (xs : List A) → sum_of weight (sort_by xs) ≡ sum_of weight xs
  unfolding sort_by
  sort_by-sum_of weight [] = refl
  sort_by-sum_of weight (x ∷ xs) =
      omega (arith, insert_by-sum_of weight x (sort_by xs), sort_by-sum_of weight xs)

  module _ {κ} (P : A → Type κ) where
    All-insert_by : (x : A) (xs : List A) → P x → All P xs → All P (insert_by x xs)
    unfolding insert_by
    All-insert_by x [] p _ = (p, tt)
    All-insert_by x (y ∷ ys) p (q, qs) = elim (Bool-cases (le x y)) [
      | inl e ↦ rw e (p, (q, qs))
      | inr e ↦ rw e (q, All-insert_by x ys p qs)
    ]

    pub All-sort_by : (xs : List A) → All P xs → All P (sort_by xs)
    unfolding sort_by
    All-sort_by [] _ = tt
    All-sort_by (x ∷ xs) (p, ps) = All-insert_by x (sort_by xs) p (All-sort_by xs ps)

  module _ (total : (x y : A) → (le x y ≡ true) ⊎ (le y x ≡ true))
      (trans : (x y z : A) → le x y ≡ true → le y z ≡ true → le x z ≡ true) where
    insert_by-IsAscending : (x : A) (xs : List A) → IsAscending xs → IsAscending (insert_by x xs)
    unfolding insert_by
    insert_by-IsAscending x [] s = (tt, tt)
    insert_by-IsAscending x (y ∷ ys) (below, s) = elim (Bool-cases (le x y)) [
      | inl e ↦ rw e ((e, All-imp (λ z. trans x y z e) ys below), (below, s))
      | inr e ↦
          let other : le y x ≡ true = ground (arith, total x y) in
          rw e (All-insert_by (λ z. le y z ≡ true) x ys other below, insert_by-IsAscending x ys s)
    ]

    pub sort_by-IsAscending : (xs : List A) → IsAscending (sort_by xs)
    unfolding sort_by
    sort_by-IsAscending [] = tt
    sort_by-IsAscending (x ∷ xs) = insert_by-IsAscending x (sort_by xs) (sort_by-IsAscending xs)

module _ {A : Type 0} where
  pub All-take : (P : A → Type 0) (n : ℕ) (xs : List A) → All P xs → All P (take n xs)
  All-take P zero xs h = tt
  All-take P (suc n) [] h = tt
  All-take P (suc n) (x ∷ xs) (h, hs) = (h, All-take P n xs hs)

  pub All-Memᴰ : (xs : List A) → All (λ x. Memᴰ x xs) xs
  All-Memᴰ [] = tt
  All-Memᴰ (x ∷ xs) = (Memᴰ.head refl, All-imp (λ y h. Memᴰ.tail h) xs (All-Memᴰ xs))

  pub All-at : (P : A → Type 0) (xs : List A) (x : A) → All P xs → Memᴰ x xs → P x
  All-at P [] x h m = elim m [ ]
  All-at P (y ∷ ys) x (h, hs) (Memᴰ.head e) = subst P (sym e) h
  All-at P (y ∷ ys) x (h, hs) (Memᴰ.tail m) = All-at P ys x hs m

  pub IsAscending-imp :
      {le le' : A → A → Bool}
      → ((x y : A) → le x y ≡ true → le' x y ≡ true)
      → (xs : List A) → IsAscending le xs
      → IsAscending le' xs
  IsAscending-imp f [] h = tt
  IsAscending-imp f (x ∷ xs) (h, hs) = (All-imp (λ y e. f x y e) xs h, IsAscending-imp f xs hs)

  pub IsAscending-take :
      (le : A → A → Bool) (n : ℕ) (xs : List A) → IsAscending le xs → IsAscending le (take n xs)
  IsAscending-take le zero xs h = tt
  IsAscending-take le (suc n) [] h = tt
  IsAscending-take le (suc n) (x ∷ xs) (below, h) =
      (All-take (λ y. le x y ≡ true) n xs below, IsAscending-take le n xs h)

  pub sum_of-take_le :
      (weight : A → ℕ) (n : ℕ) (xs : List A) → sum_of weight (take n xs) ≤ sum_of weight xs
  sum_of-take_le weight zero xs = omega arith
  sum_of-take_le weight (suc n) [] = omega arith
  sum_of-take_le weight (suc n) (x ∷ xs) = omega (arith, sum_of-take_le weight n xs)

  insert_by-adds : (le : A → A → Bool) (x : A) (xs : List A) → Memᴰ x (insert_by le x xs)
  unfolding insert_by
  insert_by-adds le x [] = Memᴰ.head refl
  insert_by-adds le x (z ∷ zs) = elim (Bool-cases (le x z)) [
    | inl e ↦ rw e (Memᴰ.head refl)
    | inr e ↦ rw e (Memᴰ.tail (insert_by-adds le x zs))
  ]

  insert_by-keeps :
      (le : A → A → Bool) (x : A) (xs : List A) (y : A) → Memᴰ y xs → Memᴰ y (insert_by le x xs)
  unfolding insert_by
  insert_by-keeps le x [] y m = elim m [ ]
  insert_by-keeps le x (z ∷ zs) y (Memᴰ.head h) = elim (Bool-cases (le x z)) [
    | inl e ↦ rw e (Memᴰ.tail (Memᴰ.head h))
    | inr e ↦ rw e (Memᴰ.head h)
  ]
  insert_by-keeps le x (z ∷ zs) y (Memᴰ.tail m) = elim (Bool-cases (le x z)) [
    | inl e ↦ rw e (Memᴰ.tail (Memᴰ.tail m))
    | inr e ↦ rw e (Memᴰ.tail (insert_by-keeps le x zs y m))
  ]

  pub Memᴰ-sort_by : (le : A → A → Bool) (xs : List A) (y : A) → Memᴰ y xs → Memᴰ y (sort_by le xs)
  unfolding sort_by
  Memᴰ-sort_by le [] y m = elim m [ ]
  Memᴰ-sort_by le (x ∷ xs) y (Memᴰ.head e) =
      subst (λ z. Memᴰ z (insert_by le x (sort_by le xs))) (sym e)
        (insert_by-adds le x (sort_by le xs))
  Memᴰ-sort_by le (x ∷ xs) y (Memᴰ.tail m) =
      insert_by-keeps le x (sort_by le xs) y (Memᴰ-sort_by le xs y m)

  -- What is cut off from a list in order is no better than what is kept.
  pub take-Memᴰ :
      (le : A → A → Bool) (n : ℕ) (xs : List A) (x : A)
      → IsAscending le xs
      → Memᴰ x xs
      → Memᴰ x (take n xs) ⊎ All (λ y. le y x ≡ true) (take n xs)
  take-Memᴰ le zero xs x s m = inr tt
  take-Memᴰ le (suc n) [] x s m = elim m [ ]
  take-Memᴰ le (suc n) (y ∷ ys) x s (Memᴰ.head e) = inl (Memᴰ.head e)
  take-Memᴰ le (suc n) (y ∷ ys) x (below, s) (Memᴰ.tail m) = elim (take-Memᴰ le n ys x s m) [
    | inl k ↦ inl (Memᴰ.tail k)
    | inr h ↦ inr (All-at (λ z. le y z ≡ true) ys x below m, h)
  ]

-- `sort_unstable_by(|a, b| b.cmp(a))`
abbrev pub geb : ℕ → ℕ → Bool
geb a b = leb b a

-- How often a number is in the list.
abbrev pub count_num : ℕ → List ℕ → ℕ
count_num n = sum_of (λ m. if m == n then 1 else 0)

abbrev pub IsDescending : List ℕ → Type 0
IsDescending [] = Unit
IsDescending (n ∷ ns) = All (λ m. m < n) ns × IsDescending ns

strictly_below :
    (n : ℕ) (ns : List ℕ) → count_num n ns ≡ 0 → All (λ m. geb n m ≡ true) ns → All (λ m. m < n) ns
strictly_below n [] c h = tt
strictly_below n (m ∷ ns) c (h, hs) = (ground arith, strictly_below n ns (ground arith) hs)

IsDescending-of_IsAscending :
    (ns : List ℕ) → ((n : ℕ) → count_num n ns ≤ 1) → IsAscending geb ns → IsDescending ns
IsDescending-of_IsAscending [] c s = tt
IsDescending-of_IsAscending (n ∷ ns) c (below, s) = (
  strictly_below n ns (ground (arith, c n)) below,
  IsDescending-of_IsAscending ns (λ m. ground (arith, c m)) s,
)

-- Numbers without duplicates are strictly descending when they are sorted downwards.
pub sort_by-IsDescending :
    (ns : List ℕ) → ((n : ℕ) → count_num n ns ≤ 1) → IsDescending (sort_by geb ns)
sort_by-IsDescending ns c =
    IsDescending-of_IsAscending (sort_by geb ns)
      (λ n. omega (arith, c n, sort_by-sum_of geb (λ m. if m == n then 1 else 0) ns))
      (sort_by-IsAscending geb (λ x y. ground arith) (λ x y z h k. ground arith) ns)
