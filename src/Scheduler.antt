-- ===== src/Scheduler.antt =====
-- crates/caw-core/src/scheduler.rs: the greedy budget scheduler. `loaded_scores` is the state that it
-- keeps between calls; `schedule` returns the new state beside the decision.
pub mod Budget
pub mod Decision
pub mod Stable
pub mod Interface
pub mod Tests
use opencaw.Prelude.{
  ℕ, ◌+◌, String, Bool, not, ◌&&◌, List, [], ◌∷◌, ◌++◌, map, leb, any_b, filter_b, str_eq, zip,
  if◌then◌else◌, StrMap, no_entries, put_entry, remove_entry, entry_or,
}
use opencaw.Prelude.Float.{Float}
use opencaw.Core.{
  RecallFragment, RecallThresholds, SchedulerInput, SchedulerDecision, available_for_workspace,
}

pub record GreedyBudgetScheduler (F : Type 0) : Type 0 where
  pub thresholds : RecallThresholds F
  pub loaded_scores : StrMap F

abbrev pub new : {F : Type 0} → RecallThresholds F → GreedyBudgetScheduler F
new thresholds = record { thresholds = thresholds; loaded_scores = no_entries }

-- The locals of `schedule` that its two loops change.
pub record Pass (F : Type 0) : Type 0 where
  pub selected : List RecallFragment
  pub used : ℕ
  pub admitted : List RecallFragment
  pub loaded_scores : StrMap F

-- `ids.contains(&id)`
abbrev pub contains_id : String → List String → Bool
contains_id id = any_b (λ j. str_eq j id)

abbrev pub ids_of : List RecallFragment → List String
ids_of = map (λ f. f.stub_id)

module _ {F : Type 0} ⦃fl : Float F⦄ where
  abbrev pub score_of : StrMap F → RecallFragment → F
  score_of scores frag = entry_or (fl.lit 1 1) (scores frag.stub_id)

  pub keep_step : RecallThresholds F → ℕ → RecallFragment → Pass F → Pass F
  keep_step thresholds budget frag p =
      if fl.le thresholds.unload (score_of p.loaded_scores frag)
        && leb (p.used + frag.tokens) budget
      then record p { selected = p.selected ++ (frag ∷ []); used = p.used + frag.tokens }
      else p

  -- Keep the loaded fragments that pass the unload threshold.
  pub keep_loop : RecallThresholds F → ℕ → List RecallFragment → Pass F → Pass F
  keep_loop thresholds budget [] p = p
  keep_loop thresholds budget (frag ∷ rest) p =
      keep_loop thresholds budget rest (keep_step thresholds budget frag p)

  pub admit_step : RecallThresholds F → ℕ → List String → RecallFragment → F → Pass F → Pass F
  admit_step thresholds budget loaded_ids candidate score p =
      if contains_id candidate.stub_id loaded_ids
      then p
      else if fl.le thresholds.load score && leb (p.used + candidate.tokens) budget
      then record {
        selected = p.selected ++ (candidate ∷ []);
        used = p.used + candidate.tokens;
        admitted = p.admitted ++ (candidate ∷ []);
        loaded_scores = put_entry candidate.stub_id score p.loaded_scores;
      }
      else p

  pub admit_loop :
      RecallThresholds F → ℕ → List String → List (RecallFragment × F) → Pass F → Pass F
  admit_loop thresholds budget loaded_ids [] p = p
  admit_loop thresholds budget loaded_ids ((candidate, score) ∷ rest) p =
      admit_loop thresholds budget loaded_ids rest
        (admit_step thresholds budget loaded_ids candidate score p)

  -- Forget the scores of what is evicted.
  pub forget_loop : List RecallFragment → StrMap F → StrMap F
  forget_loop [] scores = scores
  forget_loop (frag ∷ rest) scores = forget_loop rest (remove_entry frag.stub_id scores)

  -- The locals before the first loop.
  abbrev pub start_pass : GreedyBudgetScheduler F → Pass F
  start_pass self = record {
    selected = [];
    used = 0;
    admitted = [];
    loaded_scores = self.loaded_scores;
  }

  -- The state of the locals after both loops.
  final_pass : GreedyBudgetScheduler F → SchedulerInput F → Pass F
  unfolding keep_loop admit_loop
  final_pass self input =
      let budget = available_for_workspace input.budget in
      admit_loop self.thresholds budget (ids_of input.currently_loaded)
        (zip input.candidates input.candidate_scores)
        (keep_loop self.thresholds budget input.currently_loaded (start_pass self))

  pub schedule :
      GreedyBudgetScheduler F → SchedulerInput F → SchedulerDecision × GreedyBudgetScheduler F
  unfolding final_pass forget_loop
  schedule self input =
      let p = final_pass self input in
      let selected_ids = ids_of p.selected in
      let evicted =
        filter_b (λ frag. not (contains_id frag.stub_id selected_ids)) input.currently_loaded in
      (
        record { keep = p.selected; evicted = evicted; admitted = p.admitted },
        record self { loaded_scores = forget_loop evicted p.loaded_scores },
      )
