-- ===== src/Intent/Majority.antt =====
-- The merge of votes is the strict majority, field by field.
use opencaw.Prelude.{
  ℕ, ◌+◌, ◌*◌, ◌/◌, ◌≡◌, ◌∙◌, refl, inl, inr, Bool, true, false, none, some, String, List, [], ◌∷◌,
  arith, ltb, leb, length, filter_b, if◌then◌else◌, Bool-cases,
}
use opencaw.Prelude.Float.{Float}
use opencaw.Intent.{default_intent, Json, QueryIntent, holds, merge_votes, majority_vote}

-- The flags of an intent, and the keys of `extra` as further ones.
pub data Flag : Type 0 where
  inventory results status next_step exact_names numeric_values latest_run : Flag
  comparison explanation completion actions grounded abstains : Flag
  extra_key : String → Flag

if_holds :
    {V : Type 0} (json : Json V) (b : Bool)
    → json.is_true json.bool_true ≡ true
    → holds json (if b then some json.bool_true else none) ≡ b
if_holds json true h = h
if_holds json false h = refl

module _ {F V : Type 0} (json : Json V) where
  pub flag : Flag → QueryIntent F V → Bool
  flag inventory v = v.is_inventory_request
  flag results v = v.is_results_request
  flag status v = v.is_status_request
  flag next_step v = v.is_next_step_request
  flag exact_names v = v.wants_exact_names_or_paths
  flag numeric_values v = v.wants_numeric_values
  flag latest_run v = v.wants_latest_run_only
  flag comparison v = v.wants_comparison
  flag explanation v = v.wants_explanation
  flag completion v = v.wants_completion_state
  flag actions v = v.wants_recommended_actions
  flag grounded v = v.needs_grounded_evidence_only
  flag abstains v = v.abstain
  flag (extra_key k) v = holds json (v.extra k)

  -- More than half of the votes.
  abbrev pub has_majority : Flag → List (QueryIntent F V) → Bool
  has_majority x votes = ltb (length votes) (2 * length (filter_b (flag x) votes))

  threshold_majority :
      (x : Flag) (votes : List (QueryIntent F V))
      → leb (length votes / 2 + 1) (length (filter_b (flag x) votes)) ≡ has_majority x votes
  threshold_majority x votes = ground arith

flag-default :
    (F : Type 0) {V : Type 0} (json : Json V) (x : Flag)
    → flag json x (default_intent {F = F}) ≡ false
unfolding flag
flag-default F json (extra_key k) = refl
flag-default F json _ = refl

module _ {F V : Type 0} ⦃fl : Float F⦄ (json : Json V) where
  flag-merge_votes :
      (x : Flag) (n : ℕ) (votes : List (QueryIntent F V))
      → json.is_true json.bool_true ≡ true
      → flag json x (merge_votes json n votes) ≡ leb n (length (filter_b (flag json x) votes))
  unfolding flag merge_votes
  flag-merge_votes (extra_key k) n votes h = if_holds json _ h
  flag-merge_votes _ n votes h = refl

  -- A flag of the merged intent is set exactly if more than half of the votes set it, for every
  -- number of votes; so is each key of `extra`, if the test for `Bool(true)` accepts it.
  pub flag-majority_vote :
      (x : Flag) (votes : List (QueryIntent F V))
      → json.is_true json.bool_true ≡ true
      → flag json x (majority_vote json votes) ≡ has_majority json x votes
  unfolding majority_vote
  flag-majority_vote x [] h = flag-default F json x
  flag-majority_vote x (v ∷ []) h = elim (Bool-cases (flag json x v)) [
    | inl e ↦ rw e refl
    | inr e ↦ rw e refl
  ]
  flag-majority_vote x (v ∷ w ∷ votes) h =
      flag-merge_votes x _ (v ∷ w ∷ votes) h ∙ threshold_majority json x (v ∷ w ∷ votes)
