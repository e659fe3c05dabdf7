-- ===== src/Expansion/Whole.antt =====
-- What `plan_expansion` admits, whatever the order in which the hash map yields its values.
use mathlib.Core.Path.{subst}
use mathlib.Core.List.{Memᴰ, Permᴰ}
use opencaw.Prelude.{
  ℕ, zero, suc, ◌≤◌, ◌≡◌, ◌∙◌, refl, sym, ap, ◌⊎◌, inl, inr, Bool, true, not, none, some, String,
  List, [], ◌∷◌, arith, ◌==◌, if◌then◌else◌, sum_of, length, length-take, take, All, All-imp, any_b,
  StrMap, no_entries, Bool-cases,
}
use opencaw.Prelude.Float.{Float}
use opencaw.Prelude.Sort.{
  sort_by, IsAscending, sort_by-sum_of, All-sort_by, sort_by-IsAscending, All-take, All-Memᴰ,
  All-at, IsAscending-take, IsAscending-imp, sum_of-take_le,
}
use opencaw.Expansion.{
  NeighborEdge, PlannedNeighbor, ExpansionConfig, seed_scores, candidate_of, expand_loop,
  higher_first, plan_expansion,
}
use opencaw.Expansion.Best.{
  count_id, IsOnce, reaches, expand_loop-All, expand_loop-IsOnce, expand_loop-reaches,
}

module _ {A : Type 0} where
  Permᴰ-sum_of :
      (weight : A → ℕ) {xs ys : List A} → Permᴰ xs ys → sum_of weight ys ≡ sum_of weight xs
  Permᴰ-sum_of weight Permᴰ.nil = refl
  Permᴰ-sum_of weight (Permᴰ.cons e d) = omega (arith, Permᴰ-sum_of weight d, ap weight e)
  Permᴰ-sum_of weight (Permᴰ.swap e d) = omega (arith, ap weight e, ap weight d)
  Permᴰ-sum_of weight (Permᴰ.trans d e) =
      omega (arith, Permᴰ-sum_of weight d, Permᴰ-sum_of weight e)

  Permᴰ-All : (P : A → Type 0) {xs ys : List A} → Permᴰ xs ys → All P xs → All P ys
  Permᴰ-All P Permᴰ.nil h = tt
  Permᴰ-All P (Permᴰ.cons e d) (h, hs) = (subst P e h, Permᴰ-All P d hs)
  Permᴰ-All P (Permᴰ.swap e d) (h, (k, hs)) = (subst P d k, (subst P e h, hs))
  Permᴰ-All P (Permᴰ.trans d e) h = Permᴰ-All P e (Permᴰ-All P d h)

  -- Whether a list has an element that passes is a sum.
  any_b-of_sum_of :
      (test : A → Bool) (xs ys : List A)
      → sum_of (λ x. if test x then 1 else 0) xs ≤ sum_of (λ x. if test x then 1 else 0) ys
      → any_b test xs ≡ true
      → any_b test ys ≡ true
  any_b-of_sum_of test [] ys h a = absurd (ground arith)
  any_b-of_sum_of test (x ∷ xs) [] h a = ground (arith, any_b-of_sum_of test xs [])
  any_b-of_sum_of test (x ∷ xs) (y ∷ ys) h a = elim (Bool-cases (test y)) [
    | inl e ↦ ground arith
    | inr e ↦ ground (arith, any_b-of_sum_of test (x ∷ xs) ys)
  ]

-- The scores are no NaN, so that their comparison is a total order.
pub record IsOrdered {F : Type 0} (fl : Float F) : Type 0 where
  pub total : (a b : F) → (fl.le a b ≡ true) ⊎ (fl.le b a ≡ true)
  pub trans : (a b c : F) → fl.le a b ≡ true → fl.le b c ≡ true → fl.le a c ≡ true
  pub lt_not_le : (a b : F) → fl.lt a b ≡ not (fl.le b a)

module _ {F : Type 0} ⦃fl : Float F⦄ (ordered : IsOrdered fl) where
  higher_first_total :
      (p q : PlannedNeighbor F) → (higher_first p q ≡ true) ⊎ (higher_first q p ≡ true)
  unfolding higher_first
  higher_first_total p q = ground (
    arith,
    ordered.lt_not_le p.score q.score,
    ordered.lt_not_le q.score p.score,
    ordered.total p.score q.score,
  )

  higher_first_trans :
      (p q r : PlannedNeighbor F)
      → higher_first p q ≡ true
      → higher_first q r ≡ true
      → higher_first p r ≡ true
  unfolding higher_first
  higher_first_trans p q r h k = ground (
    arith,
    ordered.lt_not_le p.score q.score,
    ordered.lt_not_le q.score r.score,
    ordered.lt_not_le p.score r.score,
    ordered.trans r.score q.score p.score,
  )

  no_lower : (p q : PlannedNeighbor F) → higher_first p q ≡ true → fl.le q.score p.score ≡ true
  unfolding higher_first
  no_lower p q h = ground (arith, ordered.lt_not_le p.score q.score)

  le-of_reaches :
      (p : PlannedNeighbor F) (ps : List (PlannedNeighbor F)) (id : String) (s : F)
      → All (λ q. higher_first p q ≡ true) ps
      → any_b (reaches id s) ps ≡ true
      → fl.le s p.score ≡ true
  unfolding higher_first
  le-of_reaches p [] id s h a = absurd (ground arith)
  le-of_reaches p (q ∷ qs) id s (h, hs) a = ground (
    arith,
    le-of_reaches p qs id s hs,
    ordered.lt_not_le p.score q.score,
    ordered.trans s q.score p.score,
  )

  -- The id is planned with this score at least, or the plan is full of scores no lower.
  abbrev pub IsServed : ℕ → String → F → List (PlannedNeighbor F) → Type 0
  IsServed n id s ps =
      (any_b (reaches id s) ps ≡ true) ⊎ ((length ps ≡ n) × All (λ p. fl.le s p.score ≡ true) ps)

  take-IsServed :
      (n : ℕ) (ps : List (PlannedNeighbor F)) (id : String) (s : F)
      → IsAscending higher_first ps
      → any_b (reaches id s) ps ≡ true
      → IsServed n id s (take n ps)
  take-IsServed zero ps id s h a = inr (refl, tt)
  take-IsServed (suc n) [] id s h a = absurd (ground arith)
  take-IsServed (suc n) (p ∷ ps) id s (below, h) a = elim (Bool-cases (reaches id s p)) [
    | inl e ↦ inl (ground arith)
    | inr e ↦
        let later : any_b (reaches id s) ps ≡ true = ground arith in
        elim (take-IsServed n ps id s h later) [
          | inl b ↦ inl (ground arith)
          | inr (l, b) ↦ inr (ap suc l, (le-of_reaches p ps id s below later, b))
        ]
  ]

module _ {F : Type 0} ⦃fl : Float F⦄ where
  -- The neighbor belongs to an edge from a seed to another stub than the seeds, and its score is the
  -- product of the seed's score, the discount and the edge's weight.
  abbrev pub IsCandidate :
      ExpansionConfig F → StrMap F → List (NeighborEdge F) → PlannedNeighbor F → Type 0
  IsCandidate cfg scores edges p =
      (ne : NeighborEdge F) × (base : F) × Memᴰ ne edges
      × (scores ne.neighbor ≡ none)
      × (scores ne.seed ≡ some base)
      × (p.id ≡ ne.neighbor)
      × (p.score ≡ fl.mul (fl.mul base cfg.discount) ne.weight)
      × (p.via_seed ≡ ne.seed)
      × (p.via_relation ≡ ne.relation)

  expand_loop-IsCandidate :
      (cfg : ExpansionConfig F) (scores : StrMap F) (edges : List (NeighborEdge F))
      → All (IsCandidate cfg scores edges) (expand_loop cfg scores edges [])
  unfolding candidate_of
  expand_loop-IsCandidate cfg scores edges =
      expand_loop-All (IsCandidate cfg scores edges) cfg scores edges []
        (All-imp (λ ne m base e b. (ne, base, m, e, b, refl, refl, refl, refl)) edges
          (All-Memᴰ edges))
        tt

  module _ (into_values : List (PlannedNeighbor F) → List (PlannedNeighbor F))
      (seeds : List (String × F)) (edges : List (NeighborEdge F)) (cfg : ExpansionConfig F) where
    abbrev best : List (PlannedNeighbor F)
    best = expand_loop cfg (seed_scores seeds no_entries) edges []

    plan_expansion-take :
        plan_expansion into_values seeds edges cfg
        ≡ take cfg.max_neighbors (sort_by higher_first (into_values best))
    unfolding plan_expansion
    plan_expansion-take = elim (Bool-cases (cfg.max_neighbors == 0)) [
      | inl e ↦
          let none_left : cfg.max_neighbors ≡ 0 = ground arith in
          rw (plan_expansion, none_left) refl
      | inr e ↦ rw (plan_expansion, e) refl
    ]

    -- At most as many neighbors as allowed, each once, the highest scores first, and each for an edge.
    abbrev pub IsPlan : List (PlannedNeighbor F) → Type 0
    IsPlan planned =
        (length planned ≤ cfg.max_neighbors)
        × IsOnce planned
        × IsAscending (λ p q. fl.le q.score p.score) planned
        × All (IsCandidate cfg (seed_scores seeds no_entries) edges) planned

    module _ (ordered : IsOrdered fl)
        (permutes : (ps : List (PlannedNeighbor F)) → Permᴰ ps (into_values ps)) where
      abbrev sorted : List (PlannedNeighbor F)
      sorted = sort_by higher_first (into_values best)

      sorted-IsAscending : IsAscending higher_first sorted
      sorted-IsAscending =
          sort_by-IsAscending higher_first (higher_first_total ordered) (higher_first_trans ordered)
            (into_values best)

      sum_of-sorted : (weight : PlannedNeighbor F → ℕ) → sum_of weight sorted ≡ sum_of weight best
      sum_of-sorted weight =
          sort_by-sum_of higher_first weight (into_values best)
          ∙ Permᴰ-sum_of weight (permutes best)

      take-IsPlan : IsPlan (take cfg.max_neighbors sorted)
      take-IsPlan =
          let once : IsOnce best =
            expand_loop-IsOnce cfg (seed_scores seeds no_entries) edges [] (λ id. omega arith) in
          (
            omega (arith, length-take cfg.max_neighbors sorted),
            λ id. omega (
              arith,
              sum_of-take_le (count_id id) cfg.max_neighbors sorted,
              sum_of-sorted (count_id id),
              once id,
            ),
            IsAscending-imp (no_lower ordered) (take cfg.max_neighbors sorted)
                (IsAscending-take higher_first cfg.max_neighbors sorted sorted-IsAscending),
            All-take (IsCandidate cfg (seed_scores seeds no_entries) edges) cfg.max_neighbors sorted
                (All-sort_by higher_first (IsCandidate cfg (seed_scores seeds no_entries) edges)
                  (into_values best)
                  (Permᴰ-All (IsCandidate cfg (seed_scores seeds no_entries) edges) (permutes best)
                    (expand_loop-IsCandidate cfg (seed_scores seeds no_entries) edges))),
          )

      -- When no score is NaN and the hash map yields its values in some order, `plan_expansion` plans
      -- at most `max_neighbors` neighbors, none of them twice, with descending scores, and each is the
      -- neighbor of an edge from a seed to a stub that is no seed, with the product of the seed's
      -- score, the discount and the edge's weight as its score.
      pub plan_expansion-IsPlan : IsPlan (plan_expansion into_values seeds edges cfg)
      plan_expansion-IsPlan = subst IsPlan (sym plan_expansion-take) take-IsPlan

      -- When no score is NaN and the hash map yields its values in some order, an edge from a seed to
      -- a stub that is no seed has its neighbor planned with the edge's score or a higher one, unless
      -- `max_neighbors` neighbors are planned whose scores are all as high as the edge's.
      pub plan_expansion-IsServed :
          (ne : NeighborEdge F) (base : F)
          → Memᴰ ne edges
          → seed_scores seeds no_entries ne.neighbor ≡ none
          → seed_scores seeds no_entries ne.seed ≡ some base
          → IsServed ordered cfg.max_neighbors ne.neighbor
              (candidate_of cfg base ne).score
              (plan_expansion into_values seeds edges cfg)
      plan_expansion-IsServed ne base m e b =
          let scores : StrMap F = seed_scores seeds no_entries in
          let s : F = (candidate_of cfg base ne).score in
          let reached : any_b (reaches ne.neighbor s) best ≡ true =
            All-at _ edges ne (expand_loop-reaches cfg scores ordered.total ordered.trans edges [])
              m base e b in
          let kept : any_b (reaches ne.neighbor s) sorted ≡ true =
            any_b-of_sum_of (reaches ne.neighbor s) best sorted
              (omega (arith, sum_of-sorted (λ p. if reaches ne.neighbor s p then 1 else 0)))
              reached in
          subst (IsServed ordered cfg.max_neighbors ne.neighbor s) (sym plan_expansion-take)
            (take-IsServed ordered cfg.max_neighbors sorted ne.neighbor s sorted-IsAscending kept)
