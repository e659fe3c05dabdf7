-- ===== src/Expansion/Best.antt =====
-- The best neighbors after a list of edges.
use opencaw.Prelude.{
  ℕ, ◌≤◌, ◌≡◌, ◌⊎◌, inl, inr, Bool, true, false, none, some, String, List, [], ◌∷◌, arith, str_eq,
  eq_iff, eq_refl, if◌then◌else◌, sum_of, All, any_b, StrMap, Bool-cases, Option-cases,
}
use opencaw.Prelude.Float.{Float}
use opencaw.Expansion.{
  NeighborEdge, PlannedNeighbor, ExpansionConfig, candidate_of, keep_best, expand_step, expand_loop,
}

module _ {F : Type 0} where
  -- How often an id is planned.
  abbrev pub count_id : String → PlannedNeighbor F → ℕ
  count_id id p = if str_eq p.id id then 1 else 0

  abbrev pub IsOnce : List (PlannedNeighbor F) → Type 0
  IsOnce ps = (id : String) → sum_of (count_id id) ps ≤ 1

module _ {F : Type 0} ⦃fl : Float F⦄ where
  -- The id is planned with at least this score.
  abbrev pub reaches : String → F → PlannedNeighbor F → Bool
  reaches id score p = if str_eq p.id id then fl.le score p.score else false

  keep_best-other :
      (c : PlannedNeighbor F) (ps : List (PlannedNeighbor F)) (id : String)
      → str_eq c.id id ≡ false
      → sum_of (count_id id) (keep_best c ps) ≡ sum_of (count_id id) ps
  unfolding keep_best
  keep_best-other c [] id h = ground arith
  keep_best-other c (p ∷ ps) id h = ground (arith, keep_best-other c ps id h, eq_iff p.id c.id)

  keep_best-IsOnce :
      (c : PlannedNeighbor F) (ps : List (PlannedNeighbor F)) → IsOnce ps → IsOnce (keep_best c ps)
  unfolding keep_best
  keep_best-IsOnce c [] once id = ground arith
  keep_best-IsOnce c (p ∷ ps) once id =
      let tail : IsOnce ps = λ j. ground (arith, once j) in
      ground (
        arith,
        once id,
        keep_best-IsOnce c ps tail id,
        keep_best-other c ps id,
        eq_iff p.id c.id,
        eq_iff p.id id,
        eq_iff c.id id,
        eq_refl id,
      )

  keep_best-All :
      (P : PlannedNeighbor F → Type 0) (c : PlannedNeighbor F) (ps : List (PlannedNeighbor F))
      → P c
      → All P ps
      → All P (keep_best c ps)
  unfolding keep_best
  keep_best-All P c [] h hs = (h, tt)
  keep_best-All P c (p ∷ ps) h (k, ks) = elim (Bool-cases (str_eq p.id c.id)) [
    | inl e ↦ elim (Bool-cases (fl.le c.score p.score)) [
      | inl l ↦ rw (keep_best, e, l) (k, ks)
      | inr l ↦ rw (keep_best, e, l) (h, ks)
    ]
    | inr e ↦ rw (keep_best, e) (k, keep_best-All P c ps h ks)
  ]

  module _ (total : (a b : F) → (fl.le a b ≡ true) ⊎ (fl.le b a ≡ true))
      (trans : (a b c : F) → fl.le a b ≡ true → fl.le b c ≡ true → fl.le a c ≡ true) where
    keep_best-own :
        (c : PlannedNeighbor F) (ps : List (PlannedNeighbor F))
        → any_b (reaches c.id c.score) (keep_best c ps) ≡ true
    unfolding keep_best
    keep_best-own c [] = ground (arith, eq_refl c.id, total c.score c.score)
    keep_best-own c (p ∷ ps) =
        ground (arith, keep_best-own c ps, eq_refl c.id, total c.score c.score)

    keep_best-reaches :
        (c : PlannedNeighbor F) (ps : List (PlannedNeighbor F)) (id : String) (s : F)
        → any_b (reaches id s) ps ≡ true
        → any_b (reaches id s) (keep_best c ps) ≡ true
    unfolding keep_best
    keep_best-reaches c [] id s h = absurd (ground arith)
    keep_best-reaches c (p ∷ ps) id s h = ground (
      arith,
      keep_best-reaches c ps id s,
      eq_iff p.id c.id,
      total c.score p.score,
      trans s p.score c.score,
    )

  module _ (P : PlannedNeighbor F → Type 0) (cfg : ExpansionConfig F) (scores : StrMap F) where
    -- Every candidate that an edge yields has the property.
    abbrev pub Yields : NeighborEdge F → Type 0
    Yields ne =
        (base : F)
        → scores ne.neighbor ≡ none
        → scores ne.seed ≡ some base
        → P (candidate_of cfg base ne)

    expand_step-All :
        (ne : NeighborEdge F) (ps : List (PlannedNeighbor F))
        → Yields ne
        → All P ps
        → All P (expand_step cfg scores ne ps)
    unfolding expand_step
    expand_step-All ne ps h hs = elim (Option-cases (scores ne.neighbor)) [
      | inl e ↦ elim (Option-cases (scores ne.seed)) [
        | inl b ↦ rw (expand_step, e, b) hs
        | inr (base, b) ↦
            rw (expand_step, e, b) (keep_best-All P (candidate_of cfg base ne) ps (h base e b) hs)
      ]
      | inr (s, e) ↦ rw (expand_step, e) hs
    ]

    pub expand_loop-All :
        (edges : List (NeighborEdge F)) (ps : List (PlannedNeighbor F))
        → All Yields edges
        → All P ps
        → All P (expand_loop cfg scores edges ps)
    unfolding expand_loop
    expand_loop-All [] ps h hs = hs
    expand_loop-All (ne ∷ edges) ps (h, k) hs =
        expand_loop-All edges (expand_step cfg scores ne ps) k (expand_step-All ne ps h hs)

  module _ (cfg : ExpansionConfig F) (scores : StrMap F) where
    expand_step-IsOnce :
        (ne : NeighborEdge F) (ps : List (PlannedNeighbor F))
        → IsOnce ps
        → IsOnce (expand_step cfg scores ne ps)
    unfolding expand_step
    expand_step-IsOnce ne ps h = elim (Option-cases (scores ne.neighbor)) [
      | inl e ↦ elim (Option-cases (scores ne.seed)) [
        | inl b ↦ rw (expand_step, e, b) h
        | inr (base, b) ↦ rw (expand_step, e, b) (keep_best-IsOnce (candidate_of cfg base ne) ps h)
      ]
      | inr (s, e) ↦ rw (expand_step, e) h
    ]

    pub expand_loop-IsOnce :
        (edges : List (NeighborEdge F)) (ps : List (PlannedNeighbor F))
        → IsOnce ps
        → IsOnce (expand_loop cfg scores edges ps)
    unfolding expand_loop
    expand_loop-IsOnce [] ps h = h
    expand_loop-IsOnce (ne ∷ edges) ps h =
        expand_loop-IsOnce edges (expand_step cfg scores ne ps) (expand_step-IsOnce ne ps h)

    module _ (total : (a b : F) → (fl.le a b ≡ true) ⊎ (fl.le b a ≡ true))
        (trans : (a b c : F) → fl.le a b ≡ true → fl.le b c ≡ true → fl.le a c ≡ true) where
      expand_step-reaches :
          (ne : NeighborEdge F) (ps : List (PlannedNeighbor F)) (id : String) (s : F)
          → any_b (reaches id s) ps ≡ true
          → any_b (reaches id s) (expand_step cfg scores ne ps) ≡ true
      unfolding expand_step
      expand_step-reaches ne ps id s h = elim (Option-cases (scores ne.neighbor)) [
        | inl e ↦ elim (Option-cases (scores ne.seed)) [
          | inl b ↦ rw (expand_step, e, b) h
          | inr (base, b) ↦
              rw (expand_step, e, b)
                (keep_best-reaches total trans (candidate_of cfg base ne) ps id s h)
        ]
        | inr (t, e) ↦ rw (expand_step, e) h
      ]

      expand_loop-keeps :
          (edges : List (NeighborEdge F)) (ps : List (PlannedNeighbor F)) (id : String) (s : F)
          → any_b (reaches id s) ps ≡ true
          → any_b (reaches id s) (expand_loop cfg scores edges ps) ≡ true
      unfolding expand_loop
      expand_loop-keeps [] ps id s h = h
      expand_loop-keeps (ne ∷ edges) ps id s h =
          expand_loop-keeps edges (expand_step cfg scores ne ps) id s
            (expand_step-reaches ne ps id s h)

      -- The edge's candidate is among the best neighbors, or a better one with its id is.
      abbrev pub IsReached : List (PlannedNeighbor F) → NeighborEdge F → Type 0
      IsReached ps ne =
          (base : F)
          → scores ne.neighbor ≡ none
          → scores ne.seed ≡ some base
          → any_b (reaches ne.neighbor (candidate_of cfg base ne).score) ps ≡ true

      pub expand_loop-reaches :
          (edges : List (NeighborEdge F)) (ps : List (PlannedNeighbor F))
          → All (IsReached (expand_loop cfg scores edges ps)) edges
      unfolding expand_loop
      expand_loop-reaches [] ps = tt
      expand_loop-reaches (ne ∷ edges) ps =
          let after = expand_step cfg scores ne ps in
          (
            λ base e b.
                let own : any_b (reaches ne.neighbor (candidate_of cfg base ne).score) after
                    ≡ true =
                  rw (expand_step, e, b)
                    (keep_best-own total trans (candidate_of cfg base ne) ps) in
                expand_loop-keeps edges after ne.neighbor (candidate_of cfg base ne).score own,
            expand_loop-reaches edges after,
          )
