-- ===== src/Expansion/Tests.antt =====
-- Two seeds, one of them the neighbor of the other, with scores in hundredths.
use mathlib.Core.List.{Memᴰ}
use mathlib.Core.List.Permᴰ
use opencaw.Prelude.{ℕ, ◌≡◌, refl, arith, String, none, some, List, [], ◌∷◌, no_entries}
use opencaw.Prelude.Float.{hundredths}
use opencaw.Prelude.Sort.{sort_by}
use opencaw.Expansion.{
  NeighborEdge, PlannedNeighbor, ExpansionConfig, seed_scores, candidate_of, keep_best, expand_step,
  expand_loop, higher_first, plan_expansion,
}
use opencaw.Expansion.Whole.{
  IsOrdered, IsPlan, IsServed, plan_expansion-IsPlan, plan_expansion-IsServed,
}

abbrev seeds : List (String × ℕ)
seeds = ("a", 80) ∷ ("b", 50) ∷ []

abbrev edge : String → String → ℕ → NeighborEdge ℕ
edge from to weight = record {
  seed = from;
  neighbor = to;
  relation = "references";
  weight = weight;
}

abbrev edges : List (NeighborEdge ℕ)
edges =
    edge "a" "x" 50 ∷ edge "b" "x" 100 ∷ edge "a" "b" 100 ∷ edge "c" "y" 100 ∷ edge "a" "z" 100 ∷ []

abbrev config : ExpansionConfig ℕ
config = record { relations = []; discount = 50; max_neighbors = 2 }

abbrev as_they_are : List (PlannedNeighbor ℕ) → List (PlannedNeighbor ℕ)
as_they_are ps = ps

abbrev planned : String → ℕ → String → PlannedNeighbor ℕ
planned id score via = record {
  id = id;
  score = score;
  via_seed = via;
  via_relation = "references";
}

expansion_lem :
    plan_expansion as_they_are seeds edges config ≡ planned "z" 40 "a" ∷ planned "x" 25 "b" ∷ []
unfolding plan_expansion expand_loop expand_step keep_best candidate_of seed_scores higher_first
    sort_by
expansion_lem = refl

ordered : IsOrdered hundredths
ordered = record {
  total = λ a b. ground arith;
  trans = λ a b c h k. ground arith;
  lt_not_le = λ a b. ground arith;
}

plan_expansion-IsPlan_example :
    IsPlan as_they_are seeds edges config (plan_expansion as_they_are seeds edges config)
plan_expansion-IsPlan_example =
    plan_expansion-IsPlan as_they_are seeds edges config ordered (λ ps. Permᴰ.refl ps)

neighbor_x-none : seed_scores seeds no_entries "x" ≡ none
unfolding seed_scores
neighbor_x-none = refl

seed_a-some : seed_scores seeds no_entries "a" ≡ some 80
unfolding seed_scores
seed_a-some = refl

plan_expansion-IsServed_example :
    IsServed ordered 2 "x"
      (candidate_of config 80 (edge "a" "x" 50)).score
      (plan_expansion as_they_are seeds edges config)
plan_expansion-IsServed_example =
    plan_expansion-IsServed as_they_are seeds edges config ordered (λ ps. Permᴰ.refl ps)
      (edge "a" "x" 50) 80 (Memᴰ.head refl) neighbor_x-none seed_a-some
