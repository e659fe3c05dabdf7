-- ===== src/Scheduler/Stable.antt =====
-- Hysteresis of the scheduler: what one call keeps, the next call keeps.
use mathlib.Core.List.{append_assoc, append-nil}
use opencaw.Prelude.{
  ℕ, ◌+◌, ◌≤◌, ◌≡◌, refl, sym, ap, ◌∙◌, true, false, not, none, List, [], ◌∷◌, ◌++◌, String, arith,
  eq_iff, eq_refl, filter_b, filter_b-eq-nil, All, All-append, All-imp, All-imp_both, zip, inl, inr,
  if◌then◌else◌, StrMap, remove_entry,
}
use opencaw.Prelude.Float.{Float}
use opencaw.Core.{
  RecallFragment, RecallThresholds, SchedulerInput, available_for_workspace, has_id, total_tokens,
}
use opencaw.Scheduler.{
  GreedyBudgetScheduler, Pass, score_of, keep_step, keep_loop, admit_loop, forget_loop, start_pass,
  final_pass, schedule, contains_id, ids_of,
}
use opencaw.Scheduler.Budget.{schedule-fits}
use opencaw.Scheduler.Decision.{contains_id-ids_of, admit_step-cases, admitted_pass, kept_pass}

contains_own : (frags : List RecallFragment) → All (λ f. has_id f.stub_id frags ≡ true) frags
contains_own [] = tt
contains_own (f ∷ fs) =
    (ground (arith, eq_refl f.stub_id), All-imp (λ g h. ground arith) fs (contains_own fs))

not_evicted :
    (keep loaded : List RecallFragment) (f : RecallFragment)
    → has_id f.stub_id keep ≡ true
    → has_id f.stub_id (filter_b (λ g. not (contains_id g.stub_id (ids_of keep))) loaded) ≡ false
not_evicted keep [] f h = refl
not_evicted keep (g ∷ loaded) f h = ground (
  arith,
  not_evicted keep loaded f h,
  contains_id-ids_of g.stub_id keep,
  eq_iff g.stub_id f.stub_id,
)

module _ {F : Type 0} ⦃fl : Float F⦄ where
  -- The fragment's score is no lower than the unload threshold.
  abbrev Passes : RecallThresholds F → StrMap F → RecallFragment → Type 0
  Passes t scores f = fl.le t.unload (score_of scores f) ≡ true

  abbrev AllPass : RecallThresholds F → Pass F → Type 0
  AllPass t p = All (Passes t p.loaded_scores) p.selected

  keep_step-AllPass :
      (t : RecallThresholds F) (budget : ℕ) (f : RecallFragment) (p : Pass F)
      → AllPass t p
      → AllPass t (keep_step t budget f p)
  unfolding keep_step
  keep_step-AllPass t budget f p h =
      ground (arith, All-append (Passes t p.loaded_scores) p.selected (f ∷ []) h)

  keep_loop-AllPass :
      (t : RecallThresholds F) (budget : ℕ) (frags : List RecallFragment) (p : Pass F)
      → AllPass t p
      → AllPass t (keep_loop t budget frags p)
  unfolding keep_loop
  keep_loop-AllPass t budget [] p h = h
  keep_loop-AllPass t budget (f ∷ rest) p h =
      keep_loop-AllPass t budget rest (keep_step t budget f p) (keep_step-AllPass t budget f p h)

  module _ (t : RecallThresholds F)
      (lower : (s : F) → fl.le t.load s ≡ true → fl.le t.unload s ≡ true) where
    admitted_pass-AllPass :
        (c : RecallFragment) (score : F) (p : Pass F)
        → fl.le t.load score ≡ true
        → AllPass t p
        → AllPass t (admitted_pass c score p)
    admitted_pass-AllPass c score p high h =
        All-append (Passes t (admitted_pass c score p).loaded_scores) p.selected (c ∷ [])
          (All-imp (λ f k. ground (arith, lower score)) p.selected h)
          (ground (arith, lower score, eq_refl c.stub_id), tt)

    admit_loop-AllPass :
        (budget : ℕ) (ids : List String) (cs : List (RecallFragment × F)) (p : Pass F)
        → AllPass t p
        → AllPass t (admit_loop t budget ids cs p)
    unfolding admit_loop
    admit_loop-AllPass budget ids [] p h = h
    admit_loop-AllPass budget ids ((c, score) ∷ cs) p h =
        elim (admit_step-cases t budget ids c score p) [
          | inl (_, high, e) ↦
              rw (e, admit_loop)
                (admit_loop-AllPass budget ids cs (admitted_pass c score p)
                  (admitted_pass-AllPass c score p high h))
          | inr e ↦ rw (e, admit_loop) (admit_loop-AllPass budget ids cs p h)
        ]

  pub forget_loop-lookup :
      (frags : List RecallFragment) (scores : StrMap F) (id : String)
      → forget_loop frags scores id ≡ (if has_id id frags then none else scores id)
  unfolding forget_loop
  forget_loop-lookup [] scores id = refl
  forget_loop-lookup (f ∷ fs) scores id =
      forget_loop-lookup fs (remove_entry f.stub_id scores) id ∙ ground arith

  Passes-forget_loop :
      (t : RecallThresholds F) (evicted : List RecallFragment) (scores : StrMap F)
      (f : RecallFragment)
      → has_id f.stub_id evicted ≡ false
      → Passes t scores f
      → Passes t (forget_loop evicted scores) f
  Passes-forget_loop t evicted scores f out pass =
      rw (forget_loop-lookup evicted scores f.stub_id) (rw out pass)

  -- If every fragment passes and all fit, the first loop keeps them all.
  keep_loop-All :
      (t : RecallThresholds F) (budget : ℕ) (frags : List RecallFragment) (p : Pass F)
      → All (Passes t p.loaded_scores) frags
      → p.used + total_tokens frags ≤ budget
      → (keep_loop t budget frags p).selected ≡ p.selected ++ frags
  unfolding keep_loop
  keep_loop-All t budget [] p h fits = sym (append-nil p.selected)
  keep_loop-All t budget (f ∷ rest) p (h, hs) fits =
      rw (kept, keep_loop)
        (keep_loop-All t budget rest (kept_pass f p) hs (omega arith)
          ∙ append_assoc p.selected (f ∷ []) rest)
    where
      kept : keep_step t budget f p ≡ kept_pass f p
      kept = unfold keep_step in ground arith

  keep_loop-admitted :
      (t : RecallThresholds F) (budget : ℕ) (frags : List RecallFragment) (p : Pass F)
      → (keep_loop t budget frags p).admitted ≡ p.admitted
  unfolding keep_loop keep_step
  keep_loop-admitted t budget [] p = refl
  keep_loop-admitted t budget (f ∷ rest) p =
      ground (
        arith,
        keep_loop-admitted t budget rest p,
        keep_loop-admitted t budget rest (kept_pass f p),
      )

  -- The scores that `schedule` leaves behind pass for every fragment that it keeps.
  schedule-AllPass :
      (self : GreedyBudgetScheduler F) (input : SchedulerInput F)
      → ((s : F) → fl.le self.thresholds.load s ≡ true → fl.le self.thresholds.unload s ≡ true)
      → All
          (Passes self.thresholds (schedule self input).1.loaded_scores)
          (schedule self input).0.keep
  unfolding schedule final_pass
  schedule-AllPass self input lower =
      let p = final_pass self input in
      let budget = available_for_workspace input.budget in
      All-imp_both
        (λ f pass own.
          Passes-forget_loop self.thresholds _ p.loaded_scores f
            (not_evicted p.selected input.currently_loaded f own) pass)
        p.selected
        (admit_loop-AllPass self.thresholds lower budget (ids_of input.currently_loaded)
          (zip input.candidates input.candidate_scores)
          (keep_loop self.thresholds budget input.currently_loaded (start_pass self))
          (keep_loop-AllPass self.thresholds budget input.currently_loaded (start_pass self) tt))
        (contains_own p.selected)

  -- What passes and fits is kept whole by a call with no candidates.
  schedule-All :
      (self : GreedyBudgetScheduler F) (input : SchedulerInput F) (keep : List RecallFragment)
      → All (Passes self.thresholds self.loaded_scores) keep
      → total_tokens keep ≤ available_for_workspace input.budget
      → let again =
          (schedule self
            (record input { currently_loaded = keep; candidates = []; candidate_scores = [] })).0 in
        (again.keep ≡ keep) × (again.evicted ≡ []) × (again.admitted ≡ [])
  unfolding schedule final_pass admit_loop
  schedule-All self input keep pass fits =
      let whole =
        keep_loop-All self.thresholds (available_for_workspace input.budget) keep _ pass
          (omega arith) in
      (
        whole,
        filter_b-eq-nil _ keep (
            All-imp (λ f own. rw whole (ap not (contains_id-ids_of f.stub_id keep ∙ own))) keep
              (contains_own keep)),
        keep_loop-admitted self.thresholds _ keep _,
      )

  -- If the unload threshold is no higher than the load threshold, then to schedule once more what
  -- `schedule` kept, with the same budget and no new candidates, keeps it all and evicts nothing.
  pub schedule_stable :
      (self : GreedyBudgetScheduler F) (input : SchedulerInput F)
      → ((s : F) → fl.le self.thresholds.load s ≡ true → fl.le self.thresholds.unload s ≡ true)
      → let (d, self') = schedule self input in
        let again =
          (schedule self' (record input {
            currently_loaded = d.keep;
            candidates = [];
            candidate_scores = [];
          })).0 in
        (again.keep ≡ d.keep) × (again.evicted ≡ []) × (again.admitted ≡ [])
  unfolding schedule
  schedule_stable self input lower =
      schedule-All (schedule self input).1 input (schedule self input).0.keep
        (schedule-AllPass self input lower) (schedule-fits self input)
