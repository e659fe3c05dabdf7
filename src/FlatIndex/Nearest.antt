-- ===== src/FlatIndex/Nearest.antt =====
-- What a search of the flat index returns.
use mathlib.Core.List.{Memᴰ}
use mathlib.Core.Path.{subst, fun_ext}
use opencaw.Prelude.{
  ℕ, ◌≤◌, min, ◌≡◌, refl, sym, ap, ◌⊎◌, inl, inr, Bool, true, ◌||◌, String, List, [], ◌∷◌, map, zip,
  arith, ◌==◌, length, take, length-take, sum_of, All, All-imp, Bool-cases,
}
use opencaw.Prelude.Float.{Float, IsIeee}
use opencaw.Prelude.Sort.{
  sort_by, IsAscending, sort_by-sum_of, sort_by-IsAscending, All-Memᴰ, IsAscending-take,
  sum_of-take_le, Memᴰ-sort_by, take-Memᴰ,
}
use opencaw.FlatIndex.{FlatVectorIndex, dot_loop, scored, closer, search_index}

module _ {A : Type 0} {B : Type 0} where
  sum_of-map :
      (weight : B → ℕ) (f : A → B) (xs : List A)
      → sum_of weight (map f xs) ≡ sum_of (λ x. weight (f x)) xs
  sum_of-map weight f [] = refl
  sum_of-map weight f (x ∷ xs) = omega (arith, sum_of-map weight f xs)

  All-of_map : (P : B → Type 0) (f : A → B) (xs : List A) → All P (map f xs) → All (λ x. P (f x)) xs
  All-of_map P f [] h = tt
  All-of_map P f (x ∷ xs) (h, hs) = (h, All-of_map P f xs hs)

module _ {A : Type 0} where
  sum_of-one : (xs : List A) → sum_of (λ x. 1) xs ≡ length xs
  sum_of-one [] = refl
  sum_of-one (x ∷ xs) = omega (arith, sum_of-one xs)

  nil-of_length : (xs : List A) → length xs ≡ 0 → [] ≡ xs
  nil-of_length [] h = refl
  nil-of_length (x ∷ xs) h = absurd (omega arith)

module _ {F : Type 0} ⦃fl : Float F⦄ where
  abbrev pub sum_of_floats : F → List F → F
  sum_of_floats acc [] = acc
  sum_of_floats acc (x ∷ xs) = sum_of_floats (fl.add acc x) xs

  abbrev pub products : List F → List F → List F
  products xs ys = map (λ c. fl.mul c.0 c.1) (zip xs ys)

  -- A point with its score.
  abbrev pub hit_of : List F → String × List F → String × F
  hit_of query p = (p.0, sum_of_floats (fl.lit 0 1) (products p.1 query))

  dot_loop-products :
      (sum : F) (emb query : List F)
      → dot_loop sum emb query ≡ sum_of_floats sum (products emb query)
  unfolding dot_loop
  dot_loop-products sum [] query = refl
  dot_loop-products sum (a ∷ emb) [] = refl
  dot_loop-products sum (a ∷ emb) (b ∷ query) =
      dot_loop-products (fl.add sum (fl.mul a b)) emb query

  scored-hit_of : (query : List F) (p : String × List F) → scored query p ≡ hit_of query p
  unfolding scored
  scored-hit_of query (id, emb) = ap (λ s. (id, s)) (dot_loop-products (fl.lit 0 1) emb query)

module _ {F : Type 0} ⦃fl : Float F⦄ (is_num : F → Bool) (ieee : IsIeee fl is_num) (query : List F)
    (top_k : ℕ) (self : FlatVectorIndex F) where
  abbrev hits : List (String × F)
  hits = map {B = String × F} (scored query) self.points

  abbrev sorted : List (String × F)
  sorted = sort_by closer hits

  length-sorted : length sorted ≡ length self.points
  length-sorted = omega (
    arith,
    sum_of-one sorted,
    sort_by-sum_of closer (λ h. 1) hits,
    sum_of-map (λ h. 1) (scored query) self.points,
    sum_of-one self.points,
  )

  search_index-take : search_index query top_k self ≡ take top_k sorted
  unfolding search_index
  search_index-take = elim (Bool-cases ((length self.points == 0) || (top_k == 0))) [
    | inl e ↦
        let none_kept : length (take top_k sorted) ≡ 0 =
          ground (arith, length-take top_k sorted, length-sorted) in
        rw (search_index, e) (nil-of_length (take top_k sorted) none_kept)
    | inr e ↦ rw (search_index, e) refl
  ]

  sorted-IsAscending : IsAscending closer sorted
  unfolding closer
  sorted-IsAscending =
      sort_by-IsAscending closer (λ a b. ieee.total b.1 a.1)
        (λ a b c h k. ieee.trans c.1 b.1 a.1 k h) hits

  -- As many hits as asked for, or one for each point, in descending order of the scores, no point
  -- more often than it was added, and each point is a hit or scores no higher than any hit.
  abbrev pub IsNearest : (String × List F → String × F) → List (String × F) → Type 0
  IsNearest hit_of found =
      (length found ≡ min top_k (length self.points))
      × IsAscending (λ a b. fl.total_le b.1 a.1) found
      × ((weight : String × F → ℕ)
          → sum_of weight found ≤ sum_of (λ p. weight (hit_of p)) self.points)
      × All (λ p. Memᴰ (hit_of p) found ⊎ All (λ hit. fl.total_le (hit_of p).1 hit.1 ≡ true) found)
          self.points

  take-IsNearest : IsNearest (scored query) (take top_k sorted)
  unfolding closer
  take-IsNearest = (
    omega (arith, length-take top_k sorted, length-sorted),
    IsAscending-take closer top_k sorted sorted-IsAscending,
    λ weight. omega (
      arith,
      sum_of-take_le weight top_k sorted,
      sort_by-sum_of closer weight hits,
      sum_of-map weight (scored query) self.points,
    ),
    All-of_map
        (λ h. Memᴰ h (take top_k sorted) ⊎ All (λ hit. closer hit h ≡ true) (take top_k sorted))
        (scored query) self.points
        (All-imp
          (λ h m. take-Memᴰ closer top_k sorted h sorted-IsAscending (Memᴰ-sort_by closer hits h m))
          hits (All-Memᴰ hits)),
  )

  -- With a `total_cmp` that is a total order, a search returns `top_k` hits, or as many as there are
  -- points, in descending order of their scores and no point more often than it was added, and each
  -- point is among the hits or its score is no higher than that of any hit. The score of a point is
  -- the sum, from the left, of the products of its coordinates and the query's.
  pub search_index-IsNearest : IsNearest (hit_of query) (search_index query top_k self)
  search_index-IsNearest =
      subst (λ by. IsNearest by (search_index query top_k self)) (fun_ext (scored-hit_of query))
        (subst (IsNearest (scored query)) (sym search_index-take) take-IsNearest)
