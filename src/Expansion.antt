-- ===== src/Expansion.antt =====
-- `plan_expansion` of crates/caw-index/src/graph_edges.rs: which neighbors of the seeds are admitted.
-- Of a seed only the id and the score are read. The hash map of the best neighbors is a list without
-- duplicates, and the order in which it yields its values is a parameter.
pub mod Best
pub mod Geometry
pub mod Whole
pub mod Tests
use opencaw.Prelude.{
  ℕ, Bool, not, none, some, String, List, [], ◌∷◌, ◌==◌, if◌then◌else◌, take, str_eq, StrMap,
  put_entry, no_entries,
}
use opencaw.Prelude.Float.{Float}
use opencaw.Prelude.Sort.{sort_by}

pub record NeighborEdge (F : Type 0) : Type 0 where
  pub seed : String
  pub neighbor : String
  pub relation : String
  pub weight : F

pub record PlannedNeighbor (F : Type 0) : Type 0 where
  pub id : String
  pub score : F
  pub via_seed : String
  pub via_relation : String

pub record ExpansionConfig (F : Type 0) : Type 0 where
  pub relations : List String
  pub discount : F
  pub max_neighbors : ℕ

module _ {F : Type 0} ⦃fl : Float F⦄ where
  -- `collect()` into a map: the last score of an id stays.
  pub seed_scores : List (String × F) → StrMap F → StrMap F
  seed_scores [] scores = scores
  seed_scores ((id, score) ∷ seeds) scores = seed_scores seeds (put_entry id score scores)

  pub candidate_of : ExpansionConfig F → F → NeighborEdge F → PlannedNeighbor F
  candidate_of cfg base ne = record {
    id = ne.neighbor;
    score = fl.mul (fl.mul base cfg.discount) ne.weight;
    via_seed = ne.seed;
    via_relation = ne.relation;
  }

  -- What the match on `best.get` comes to.
  pub keep_best : PlannedNeighbor F → List (PlannedNeighbor F) → List (PlannedNeighbor F)
  keep_best c [] = c ∷ []
  keep_best c (p ∷ ps) =
      let later = keep_best c ps in
      if str_eq p.id c.id then (if fl.le c.score p.score then p ∷ ps else c ∷ ps) else p ∷ later

  -- The best neighbors with one more edge.
  pub expand_step :
      ExpansionConfig F
      → StrMap F
      → NeighborEdge F
      → List (PlannedNeighbor F)
      → List (PlannedNeighbor F)
  unfolding candidate_of keep_best
  expand_step cfg scores ne best = elim (scores ne.neighbor) [
    | some s ↦ best
    | none ↦ elim (scores ne.seed) [
      | none ↦ best
      | some base ↦ keep_best (candidate_of cfg base ne) best
    ]
  ]

  pub expand_loop :
      ExpansionConfig F
      → StrMap F
      → List (NeighborEdge F)
      → List (PlannedNeighbor F)
      → List (PlannedNeighbor F)
  unfolding expand_step
  expand_loop cfg scores [] best = best
  expand_loop cfg scores (ne ∷ edges) best =
      expand_loop cfg scores edges (expand_step cfg scores ne best)

  -- `b.score.partial_cmp(&a.score)` is not `Greater`.
  pub higher_first : PlannedNeighbor F → PlannedNeighbor F → Bool
  higher_first a b = not (fl.lt a.score b.score)

  pub plan_expansion :
      (List (PlannedNeighbor F) → List (PlannedNeighbor F))
      → List (String × F)
      → List (NeighborEdge F)
      → ExpansionConfig F
      → List (PlannedNeighbor F)
  unfolding seed_scores expand_loop higher_first
  plan_expansion into_values seeds neighbors cfg =
      let best = expand_loop cfg (seed_scores seeds no_entries) neighbors [] in
      if cfg.max_neighbors == 0
      then []
      else take cfg.max_neighbors (sort_by higher_first (into_values best))
