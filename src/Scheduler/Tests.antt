-- ===== src/Scheduler/Tests.antt =====
-- Runs of the scheduler, with scores in hundredths.
use opencaw.Prelude.{
  ℕ, ◌≤◌, ◌≡◌, refl, List, [], ◌∷◌, String, arith, All, false, filter_b, not, ◌++◌,
}
use opencaw.Prelude.Float.{hundredths}
use opencaw.Core.{RecallFragment, SchedulerInput, available_for_workspace, total_tokens, has_id}
use mathlib.Core.List.{Sublistᴰ}
use opencaw.Scheduler.{GreedyBudgetScheduler, schedule, new, keep_step, admit_step}
use opencaw.Scheduler.Budget.{schedule-fits}
use opencaw.Scheduler.Decision.{schedule-partition}
use opencaw.Scheduler.Stable.{schedule_stable}

abbrev fragment : String → ℕ → RecallFragment
fragment id tokens = record {
  stub_id = id;
  content = [];
  locator = record { source = "a.md"; locator = "0:10" };
  tokens = tokens;
  mtime_unix_secs = 0;
}

abbrev scheduler : GreedyBudgetScheduler ℕ
scheduler = new (record { load = 50; unload = 30 })

abbrev input : SchedulerInput ℕ
input = record {
  currently_loaded = fragment "a" 30 ∷ fragment "b" 50 ∷ [];
  candidates = fragment "b" 10 ∷ fragment "c" 20 ∷ fragment "d" 20 ∷ fragment "e" 15 ∷ [];
  budget = record { max_total = 100; reserved_for_prompt = 20; reserved_for_answer = 12 };
  candidate_scores = 90 ∷ 60 ∷ 40 ∷ 80 ∷ [];
}

-- "b" does not fit behind "a", "d" is under the load threshold.
schedule_kept :
    (schedule scheduler input).0.keep ≡ fragment "a" 30 ∷ fragment "c" 20 ∷ fragment "e" 15 ∷ []
unfolding schedule keep_step admit_step
schedule_kept = refl

schedule_evicted : (schedule scheduler input).0.evicted ≡ fragment "b" 50 ∷ []
unfolding schedule keep_step admit_step
schedule_evicted = refl

schedule-fits_example :
    total_tokens (schedule scheduler input).0.keep ≤ available_for_workspace input.budget
schedule-fits_example = schedule-fits scheduler input

schedule-partition_example :
    let d = (schedule scheduler input).0 in
    (kept : List RecallFragment) × (d.keep ≡ kept ++ d.admitted)
    × Sublistᴰ kept input.currently_loaded
    × Sublistᴰ d.admitted input.candidates
    × All (λ f. has_id f.stub_id input.currently_loaded ≡ false) d.admitted
    × (d.evicted ≡ filter_b (λ f. not (has_id f.stub_id d.keep)) input.currently_loaded)
schedule-partition_example = schedule-partition scheduler input

schedule_stable_example :
    let (d, self') = schedule scheduler input in
    let again =
      (schedule self'
        (record input { currently_loaded = d.keep; candidates = []; candidate_scores = [] })).0 in
    (again.keep ≡ d.keep) × (again.evicted ≡ []) × (again.admitted ≡ [])
schedule_stable_example = schedule_stable scheduler input (λ s h. ground arith)
