-- ===== src/Intent.antt =====
-- `QueryIntent` of crates/caw-core/src/lib.rs: the merge of votes, and what is asked of an intent. The
-- values of `extra` are JSON values of a library, a parameter. The prompts, the parser of a
-- classifier's response and the texts of guidance are not modelled.
pub mod Majority
pub mod Tests
use opencaw.Prelude.{
  ℕ, ◌+◌, ◌/◌, Bool, true, false, not, ◌&&◌, ◌||◌, Option, none, some, String, List, [], ◌∷◌, leb,
  length, filter_b, if◌then◌else◌, StrMap, StrSet, no_entries,
}
use opencaw.Prelude.Float.{Float}

-- `serde_json::Value`, as far as it is looked at: `Bool(true)`, and the test for it.
pub record Json (V : Type 0) : Type 0 where
  pub bool_true : V
  pub is_true : V → Bool

pub record QueryIntent (F V : Type 0) : Type 0 where
  pub is_inventory_request : Bool
  pub is_results_request : Bool
  pub is_status_request : Bool
  pub is_next_step_request : Bool
  pub wants_exact_names_or_paths : Bool
  pub wants_numeric_values : Bool
  pub wants_latest_run_only : Bool
  pub wants_comparison : Bool
  pub wants_explanation : Bool
  pub wants_completion_state : Bool
  pub wants_recommended_actions : Bool
  pub needs_grounded_evidence_only : Bool
  pub abstain : Bool
  pub confidence : Option F
  pub extra : StrMap V

pub record AugmentationSignals : Type 0 where
  pub is_inventory_request : Bool
  pub is_results_request : Bool
  pub is_status_request : Bool
  pub is_next_step_request : Bool
  pub wants_latest_run_only : Bool
  pub wants_explanation : Bool
  pub extra_hints : StrSet

abbrev pub default_intent : {F V : Type 0} → QueryIntent F V
default_intent = record {
  is_inventory_request = false;
  is_results_request = false;
  is_status_request = false;
  is_next_step_request = false;
  wants_exact_names_or_paths = false;
  wants_numeric_values = false;
  wants_latest_run_only = false;
  wants_comparison = false;
  wants_explanation = false;
  wants_completion_state = false;
  wants_recommended_actions = false;
  needs_grounded_evidence_only = false;
  abstain = false;
  confidence = none;
  extra = no_entries;
}

module _ {V : Type 0} (json : Json V) where
  abbrev pub holds : Option V → Bool
  holds none = false
  holds (some v) = json.is_true v

module _ {F V : Type 0} ⦃fl : Float F⦄ (json : Json V) where
  -- The keys whose value is `Bool(true)`, in no order.
  pub augmentation_signals : QueryIntent F V → AugmentationSignals
  augmentation_signals self = record {
    is_inventory_request = self.is_inventory_request;
    is_results_request = self.is_results_request;
    is_status_request = self.is_status_request;
    is_next_step_request = self.is_next_step_request;
    wants_latest_run_only = self.wants_latest_run_only;
    wants_explanation = self.wants_explanation;
    extra_hints = λ k. holds json (self.extra k);
  }

  -- `votes.iter().filter(|v| f(v)).count() >= threshold`
  abbrev pub agree : ℕ → List (QueryIntent F V) → (QueryIntent F V → Bool) → Bool
  agree threshold votes f = leb threshold (length (filter_b f votes))

  confidences : List (QueryIntent F V) → List F
  confidences [] = []
  confidences (v ∷ votes) =
      let later = confidences votes in elim v.confidence [ none ↦ later | some c ↦ c ∷ later ]

  -- `iter().sum::<f32>()` starts at 0.
  sum_from : F → List F → F
  sum_from acc [] = acc
  sum_from acc (c ∷ cs) = sum_from (fl.add acc c) cs

  average : List F → Option F
  unfolding sum_from
  average [] = none
  average (c ∷ cs) = some (fl.div (sum_from (fl.lit 0 1) (c ∷ cs)) (fl.of_ℕ (length (c ∷ cs))))

  pub merge_votes : ℕ → List (QueryIntent F V) → QueryIntent F V
  unfolding average confidences
  merge_votes threshold votes = record {
    is_inventory_request = agree threshold votes (λ v. v.is_inventory_request);
    is_results_request = agree threshold votes (λ v. v.is_results_request);
    is_status_request = agree threshold votes (λ v. v.is_status_request);
    is_next_step_request = agree threshold votes (λ v. v.is_next_step_request);
    wants_exact_names_or_paths = agree threshold votes (λ v. v.wants_exact_names_or_paths);
    wants_numeric_values = agree threshold votes (λ v. v.wants_numeric_values);
    wants_latest_run_only = agree threshold votes (λ v. v.wants_latest_run_only);
    wants_comparison = agree threshold votes (λ v. v.wants_comparison);
    wants_explanation = agree threshold votes (λ v. v.wants_explanation);
    wants_completion_state = agree threshold votes (λ v. v.wants_completion_state);
    wants_recommended_actions = agree threshold votes (λ v. v.wants_recommended_actions);
    needs_grounded_evidence_only = agree threshold votes (λ v. v.needs_grounded_evidence_only);
    abstain = agree threshold votes (λ v. v.abstain);
    confidence = average (confidences votes);
    extra = λ k.
        if agree threshold votes (λ v. holds json (v.extra k)) then some json.bool_true else none;
  }

  pub majority_vote : List (QueryIntent F V) → QueryIntent F V
  unfolding merge_votes
  majority_vote [] = default_intent
  majority_vote (v ∷ []) = v
  majority_vote (v ∷ w ∷ votes) = merge_votes (length (v ∷ w ∷ votes) / 2 + 1) (v ∷ w ∷ votes)

  -- The comparison is false of NaN.
  pub is_actionable : F → QueryIntent F V → Bool
  is_actionable min_confidence self =
      not self.abstain && elim self.confidence [ none ↦ true | some c ↦ fl.le min_confidence c ]
