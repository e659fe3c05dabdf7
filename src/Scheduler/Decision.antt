-- ===== src/Scheduler/Decision.antt =====
-- What `GreedyBudgetScheduler::schedule` keeps, admits and evicts.
use mathlib.Core.Path.{fun_ext}
use mathlib.Core.List.{Sublistᴰ, append_assoc, append-nil}
use opencaw.Prelude.{
  ℕ, ◌+◌, ◌≡◌, refl, sym, ap, ◌∙◌, true, false, not, List, [], ◌∷◌, ◌++◌, String, arith, filter_b,
  All, All-imp, zip, ◌⊎◌, inl, inr, put_entry,
}
use opencaw.Prelude.Float.{Float}
use opencaw.Core.{RecallFragment, RecallThresholds, SchedulerInput, available_for_workspace, has_id}
use opencaw.Scheduler.{
  GreedyBudgetScheduler, Pass, keep_step, keep_loop, admit_step, admit_loop, final_pass, schedule,
  contains_id, ids_of,
}

pub contains_id-ids_of :
    (id : String) (frags : List RecallFragment) → contains_id id (ids_of frags) ≡ has_id id frags
contains_id-ids_of id [] = refl
contains_id-ids_of id (f ∷ fs) = ground (arith, contains_id-ids_of id fs)

nil-Sublistᴰ : (frags : List RecallFragment) → Sublistᴰ [] frags
nil-Sublistᴰ [] = Sublistᴰ.slnil
nil-Sublistᴰ (f ∷ fs) = Sublistᴰ.cons (nil-Sublistᴰ fs)

module _ {F : Type 0} ⦃fl : Float F⦄ where
  -- What the first loop does: it appends a part of the loaded fragments, in their order.
  record Kept (frags : List RecallFragment) (p q : Pass F) : Type 0 where
    kept : List RecallFragment
    selected : q.selected ≡ p.selected ++ kept
    part : Sublistᴰ kept frags
    admitted : q.admitted ≡ p.admitted

  -- The locals after a fragment is kept.
  abbrev pub kept_pass : RecallFragment → Pass F → Pass F
  kept_pass frag p = record p { selected = p.selected ++ (frag ∷ []); used = p.used + frag.tokens }

  Kept-cons :
      (frag : RecallFragment) (rest : List RecallFragment) (p q : Pass F)
      → Kept rest (kept_pass frag p) q
      → Kept (frag ∷ rest) p q
  Kept-cons frag rest p q k = record {
    kept = frag ∷ k.kept;
    selected = k.selected ∙ append_assoc p.selected (frag ∷ []) k.kept;
    part = Sublistᴰ.cons-cons refl k.part;
    admitted = k.admitted;
  }

  Kept-skip :
      (frag : RecallFragment) (rest : List RecallFragment) (p q : Pass F)
      → Kept rest p q
      → Kept (frag ∷ rest) p q
  Kept-skip frag rest p q k = record {
    kept = k.kept;
    selected = k.selected;
    part = Sublistᴰ.cons k.part;
    admitted = k.admitted;
  }

  keep_step-cases :
      (t : RecallThresholds F) (budget : ℕ) (frag : RecallFragment) (p : Pass F)
      → (keep_step t budget frag p ≡ kept_pass frag p) ⊎ (keep_step t budget frag p ≡ p)
  unfolding keep_step
  keep_step-cases t budget frag p = ground arith

  keep_loop-Kept :
      (t : RecallThresholds F) (budget : ℕ) (frags : List RecallFragment) (p : Pass F)
      → Kept frags p (keep_loop t budget frags p)
  unfolding keep_loop
  keep_loop-Kept t budget [] p = record {
    kept = [];
    selected = sym (append-nil p.selected);
    part = Sublistᴰ.slnil;
    admitted = refl;
  }
  keep_loop-Kept t budget (frag ∷ rest) p = elim (keep_step-cases t budget frag p) [
    | inl e ↦
        rw (e, keep_loop)
          (Kept-cons frag rest p _ (keep_loop-Kept t budget rest (kept_pass frag p)))
    | inr e ↦ rw (e, keep_loop) (Kept-skip frag rest p _ (keep_loop-Kept t budget rest p))
  ]

  -- What the second loop does: it appends a part of the candidates, none of them loaded already,
  -- to what is selected and to what is admitted.
  record Admitted (ids : List String) (cs : List RecallFragment) (p q : Pass F) : Type 0 where
    new : List RecallFragment
    selected : q.selected ≡ p.selected ++ new
    admitted : q.admitted ≡ p.admitted ++ new
    part : Sublistᴰ new cs
    apart : All (λ f. contains_id f.stub_id ids ≡ false) new

  Admitted-none : (ids : List String) (cs : List RecallFragment) (p : Pass F) → Admitted ids cs p p
  Admitted-none ids cs p = record {
    new = [];
    selected = sym (append-nil _);
    admitted = sym (append-nil _);
    part = nil-Sublistᴰ cs;
    apart = tt;
  }

  Admitted-skip :
      (ids : List String) (c : RecallFragment) (cs : List RecallFragment) (p q : Pass F)
      → Admitted ids cs p q
      → Admitted ids (c ∷ cs) p q
  Admitted-skip ids c cs p q a = record {
    new = a.new;
    selected = a.selected;
    admitted = a.admitted;
    part = Sublistᴰ.cons a.part;
    apart = a.apart;
  }

  -- The locals after a candidate is admitted.
  abbrev pub admitted_pass : RecallFragment → F → Pass F → Pass F
  admitted_pass c score p = record {
    selected = p.selected ++ (c ∷ []);
    used = p.used + c.tokens;
    admitted = p.admitted ++ (c ∷ []);
    loaded_scores = put_entry c.stub_id score p.loaded_scores;
  }

  Admitted-cons :
      (ids : List String) (c : RecallFragment) (cs : List RecallFragment) (score : F) (p q : Pass F)
      → contains_id c.stub_id ids ≡ false
      → Admitted ids cs (admitted_pass c score p) q
      → Admitted ids (c ∷ cs) p q
  Admitted-cons ids c cs score p q h a = record {
    new = c ∷ a.new;
    selected = a.selected ∙ append_assoc p.selected (c ∷ []) a.new;
    admitted = a.admitted ∙ append_assoc p.admitted (c ∷ []) a.new;
    part = Sublistᴰ.cons-cons refl a.part;
    apart = (h, a.apart);
  }

  pub admit_step-cases :
      (t : RecallThresholds F) (budget : ℕ) (ids : List String) (c : RecallFragment) (score : F)
      (p : Pass F)
      → ((contains_id c.stub_id ids ≡ false)
          × (fl.le t.load score ≡ true)
          × (admit_step t budget ids c score p ≡ admitted_pass c score p))
        ⊎ (admit_step t budget ids c score p ≡ p)
  unfolding admit_step
  admit_step-cases t budget ids c score p = ground arith

  admit_loop-Admitted :
      (t : RecallThresholds F) (budget : ℕ) (ids : List String) (cs : List RecallFragment)
      (scores : List F) (p : Pass F)
      → Admitted ids cs p (admit_loop t budget ids (zip cs scores) p)
  unfolding admit_loop
  admit_loop-Admitted t budget ids [] scores p = Admitted-none ids [] p
  admit_loop-Admitted t budget ids (c ∷ cs) [] p = Admitted-none ids (c ∷ cs) p
  admit_loop-Admitted t budget ids (c ∷ cs) (score ∷ scores) p =
      elim (admit_step-cases t budget ids c score p) [
        | inl (apart, _, e) ↦
            rw (e, admit_loop)
              (Admitted-cons ids c cs score p _ apart
                (admit_loop-Admitted t budget ids cs scores (admitted_pass c score p)))
        | inr e ↦
            rw (e, admit_loop)
              (Admitted-skip ids c cs p _ (admit_loop-Admitted t budget ids cs scores p))
      ]

  -- What `schedule` keeps is, in this order, a part of what was loaded and what it admits; it
  -- admits a part of the candidates, none with the id of a loaded fragment; and a loaded fragment
  -- is evicted exactly if no kept fragment has its id.
  pub schedule-partition :
      (self : GreedyBudgetScheduler F) (input : SchedulerInput F)
      → let d = (schedule self input).0 in
        (kept : List RecallFragment) × (d.keep ≡ kept ++ d.admitted)
        × Sublistᴰ kept input.currently_loaded
        × Sublistᴰ d.admitted input.candidates
        × All (λ f. has_id f.stub_id input.currently_loaded ≡ false) d.admitted
        × (d.evicted ≡ filter_b (λ f. not (has_id f.stub_id d.keep)) input.currently_loaded)
  unfolding schedule final_pass
  schedule-partition self input =
      let budget = available_for_workspace input.budget in
      let loaded = input.currently_loaded in
      let k = keep_loop-Kept self.thresholds budget loaded _ in
      let a =
        admit_loop-Admitted self.thresholds budget (ids_of loaded) input.candidates
          input.candidate_scores _ in
      let all_new : (final_pass self input).admitted ≡ a.new =
        a.admitted ∙ ap (λ l. l ++ a.new) k.admitted in
      (
        k.kept,
        a.selected ∙ ap (λ l. l ++ a.new) k.selected ∙ ap (λ l. k.kept ++ l) (sym all_new),
        k.part,
        rw all_new a.part,
        rw all_new (All-imp (λ f h. sym (contains_id-ids_of f.stub_id loaded) ∙ h) a.new a.apart),
        ap (λ g. filter_b g loaded) (fun_ext (λ f. ap not (contains_id-ids_of f.stub_id _))),
      )
