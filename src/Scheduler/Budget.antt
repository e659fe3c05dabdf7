-- ===== src/Scheduler/Budget.antt =====
-- The token budget of `GreedyBudgetScheduler::schedule`.
use opencaw.Prelude.{ℕ, ◌≤◌, ◌≡◌, List, [], ◌∷◌, String, arith, sum_of-append, zip}
use opencaw.Prelude.Float.{Float}
use opencaw.Core.{
  RecallFragment, RecallThresholds, SchedulerInput, available_for_workspace, total_tokens,
}
use opencaw.Scheduler.{
  GreedyBudgetScheduler, Pass, keep_step, keep_loop, admit_step, admit_loop, final_pass, schedule,
  ids_of,
}

abbrev IsWithin : {F : Type 0} → ℕ → Pass F → Type 0
IsWithin budget p = (p.used ≡ total_tokens p.selected) × (p.used ≤ budget)

module _ {F : Type 0} ⦃fl : Float F⦄ where
  keep_step-IsWithin :
      (t : RecallThresholds F) (budget : ℕ) (frag : RecallFragment) (p : Pass F)
      → IsWithin budget p
      → IsWithin budget (keep_step t budget frag p)
  unfolding keep_step
  keep_step-IsWithin t budget frag p h =
      ground (arith, sum_of-append (λ f. f.tokens) p.selected (frag ∷ []))

  keep_loop-IsWithin :
      (t : RecallThresholds F) (budget : ℕ) (frags : List RecallFragment) (p : Pass F)
      → IsWithin budget p
      → IsWithin budget (keep_loop t budget frags p)
  unfolding keep_loop
  keep_loop-IsWithin t budget [] p h = h
  keep_loop-IsWithin t budget (frag ∷ rest) p h =
      keep_loop-IsWithin t budget rest (keep_step t budget frag p)
        (keep_step-IsWithin t budget frag p h)

  admit_step-IsWithin :
      (t : RecallThresholds F) (budget : ℕ) (ids : List String) (frag : RecallFragment) (score : F)
      (p : Pass F)
      → IsWithin budget p
      → IsWithin budget (admit_step t budget ids frag score p)
  unfolding admit_step
  admit_step-IsWithin t budget ids frag score p h =
      ground (arith, sum_of-append (λ f. f.tokens) p.selected (frag ∷ []))

  admit_loop-IsWithin :
      (t : RecallThresholds F) (budget : ℕ) (ids : List String) (cs : List (RecallFragment × F))
      (p : Pass F)
      → IsWithin budget p
      → IsWithin budget (admit_loop t budget ids cs p)
  unfolding admit_loop
  admit_loop-IsWithin t budget ids [] p h = h
  admit_loop-IsWithin t budget ids ((frag, score) ∷ rest) p h =
      admit_loop-IsWithin t budget ids rest (admit_step t budget ids frag score p)
        (admit_step-IsWithin t budget ids frag score p h)

  final_pass-IsWithin :
      (self : GreedyBudgetScheduler F) (input : SchedulerInput F)
      → IsWithin (available_for_workspace input.budget) (final_pass self input)
  unfolding final_pass
  final_pass-IsWithin self input =
      let budget = available_for_workspace input.budget in
      admit_loop-IsWithin self.thresholds budget (ids_of input.currently_loaded)
        (zip input.candidates input.candidate_scores) _
        (keep_loop-IsWithin self.thresholds budget input.currently_loaded _ (omega arith))

  -- Whatever is loaded and whatever the candidates and their scores are, the fragments that
  -- `schedule` keeps have together no more tokens than the budget leaves for the workspace.
  pub schedule-fits :
      (self : GreedyBudgetScheduler F) (input : SchedulerInput F)
      → total_tokens (schedule self input).0.keep ≤ available_for_workspace input.budget
  unfolding schedule
  schedule-fits self input = omega (arith, final_pass-IsWithin self input)
