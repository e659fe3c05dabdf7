-- ===== src/Scheduler/Interface.antt =====
-- `BudgetScheduler` of crates/caw-core/src/lib.rs, with the laws that its clients need, and the greedy
-- scheduler as one. `S` is the state that a scheduler keeps between its calls.
use mathlib.Core.List.{Sublistᴰ}
use opencaw.Prelude.{◌≤◌, ◌≡◌, List, ◌++◌}
use opencaw.Prelude.Float.{Float}
use opencaw.Core.{
  RecallFragment, SchedulerInput, SchedulerDecision, available_for_workspace, total_tokens,
}
use opencaw.Scheduler.{GreedyBudgetScheduler, schedule}
use opencaw.Scheduler.Budget.{schedule-fits}
use opencaw.Scheduler.Decision.{schedule-partition}

-- What is kept is a part of what was loaded, and what is admitted, which is a part of the candidates.
abbrev pub IsPart : {F : Type 0} → SchedulerInput F → SchedulerDecision → Type 0
IsPart input d =
    (kept : List RecallFragment) × (d.keep ≡ kept ++ d.admitted)
    × Sublistᴰ kept input.currently_loaded
    × Sublistᴰ d.admitted input.candidates

pub record BudgetScheduler (F S : Type 0) : Type 0 where
  pub schedule : S → SchedulerInput F → SchedulerDecision × S
  pub fits :
      (self : S) (input : SchedulerInput F)
      → total_tokens (schedule self input).0.keep ≤ available_for_workspace input.budget
  pub part : (self : S) (input : SchedulerInput F) → IsPart input (schedule self input).0

abbrev pub greedy : {F : Type 0} ⦃fl : Float F⦄ → BudgetScheduler F (GreedyBudgetScheduler F)
greedy = record {
  schedule = schedule;
  fits = schedule-fits;
  part = λ self input.
      let (kept, e, old, new, apart, evicted) = schedule-partition self input in
      (kept, e, old, new);
}
