-- ===== src/Dynamic/Load/Steps.antt =====
-- Sequences of operations on the workspace, evictions among them, keep its invariant.
use mathlib.Core.Path.{subst}
use opencaw.Prelude.{
  ◌≡◌, ◌∙◌, refl, sym, ap, false, Bool, String, Option, none, some, List, [], ◌∷◌, arith, length,
  All, All-imp, entry_or, true,
}
use opencaw.Prelude.Float.{Float}
use opencaw.Prelude.Keys.{has_key, IsDistinct}
use opencaw.Core.{Text, RecallFragment, total_tokens}
use opencaw.Dynamic.{Orchestrator, DynamicRecallConfig, Services, LoadMode, new}
use opencaw.Dynamic.Load.{load_fragments, decay_relevance_scores, reset_session}
use opencaw.Dynamic.Load.Invariant.{
  ids_of, count_from, HasScore, HasOrigin, IsRetriever, IsWorkspace, IsScored,
}
use opencaw.Dynamic.Evict.{Consolidator, evict_stale_fragments}
use opencaw.Dynamic.Evict.Whole.{evict_stale_fragments-keeps}
use opencaw.Dynamic.Load.Whole.{load_fragments-IsWorkspace}

-- A step of the orchestrator on its workspace.
pub data Step (F : Type 0) : Type 0 where
  load_step : List (String × F) → LoadMode → Step F
  evict_step : Text → Bool → Step F
  decay_step reset_step : Step F

module _ {F : Type 0} ⦃fl : Float F⦄ where
  -- `none` is a panic.
  unfoldable pub run_step :
      Services → Consolidator F → Step F → Orchestrator F → Option (Orchestrator F)
  run_step sv co (load_step hits mode) self = some (load_fragments sv hits mode self).1
  run_step sv co (evict_step query wants_latest) self =
      evict_stale_fragments sv co query wants_latest self
  run_step sv co decay_step self = some (decay_relevance_scores self)
  run_step sv co reset_step self = some (reset_session self)

  -- The latest step first.
  unfoldable pub after_steps :
      Services → Consolidator F → List (Step F) → Orchestrator F → Option (Orchestrator F)
  after_steps sv co [] self = some self
  after_steps sv co (step ∷ older) self = elim (after_steps sv co older self) [
    | none ↦ none
    | some before ↦ run_step sv co step before
  ]

module _ {F : Type 0} ⦃fl : Float F⦄ (lax : Bool) (source_of : String → String) where
  pub empty-IsWorkspace :
      (self : Orchestrator F)
      → self.loaded ≡ []
      → ((id : String) → self.loaded_ids id ≡ false)
      → ((source : String) → self.loaded_source_counts source ≡ none)
      → IsWorkspace lax source_of self
  unfolding IsDistinct
  empty-IsWorkspace self e no_ids no_counts = record {
    ids = λ id. no_ids id ∙ ap (λ fs. has_key id (ids_of fs)) (sym e);
    distinct = subst (λ fs. IsDistinct (ids_of fs)) (sym e) _;
    scored = subst (All (IsScored lax self.relevance_scores)) (sym e) _;
    origin = subst (All (HasOrigin source_of)) (sym e) _;
    budget = omega (arith, ap total_tokens e);
    few = omega (arith, ap (λ fs. length fs) e);
    counts = λ source. ap (entry_or 0) (no_counts source) ∙ ap (count_from source) (sym e);
    capped = λ source h. omega (arith, ap (count_from source) e);
  }

  decayed-HasScore :
      (self : Orchestrator F) (f : RecallFragment)
      → HasScore self.relevance_scores f
      → HasScore (decay_relevance_scores self).relevance_scores f
  unfolding decay_relevance_scores
  decayed-HasScore self f (s, h) =
      rw (decay_relevance_scores, h) (fl.mul s self.config.relevance_decay_rate, refl)

  decayed-IsScored :
      (self : Orchestrator F) (f : RecallFragment)
      → IsScored lax self.relevance_scores f
      → IsScored lax (decay_relevance_scores self).relevance_scores f
  decayed-IsScored self f = decayed lax
    where
      decayed :
          (b : Bool)
          → IsScored b self.relevance_scores f
          → IsScored b (decay_relevance_scores self).relevance_scores f
      decayed true h = tt
      decayed false h = decayed-HasScore self f h

  pub decay-IsWorkspace :
      (self : Orchestrator F)
      → IsWorkspace lax source_of self
      → IsWorkspace lax source_of (decay_relevance_scores self)
  unfolding decay_relevance_scores
  decay-IsWorkspace self w = record {
    ids = w.ids;
    distinct = w.distinct;
    scored = All-imp (decayed-IsScored self) self.loaded w.scored;
    origin = w.origin;
    budget = w.budget;
    few = w.few;
    counts = w.counts;
    capped = w.capped;
  }

  step-IsWorkspace :
      (sv : Services) (co : Consolidator F) (step : Step F) (self : Orchestrator F)
      → IsRetriever sv source_of
      → IsWorkspace lax source_of self
      → (after : Orchestrator F) × (run_step sv co step self ≡ some after)
        × IsWorkspace lax source_of after
  unfolding run_step reset_session
  step-IsWorkspace sv co (load_step hits mode) self r w =
      (_, refl, load_fragments-IsWorkspace lax source_of sv hits mode self r w)
  step-IsWorkspace sv co (evict_step query wants_latest) self r w =
      evict_stale_fragments-keeps lax source_of sv co query wants_latest self w
  step-IsWorkspace sv co decay_step self r w = (_, refl, decay-IsWorkspace self w)
  step-IsWorkspace sv co reset_step self r w =
      (_, refl, empty-IsWorkspace _ refl (λ id. refl) (λ source. refl))

  -- From a new orchestrator, every sequence of loads, evictions, decays and resets runs without a
  -- panic and leads to a workspace with the invariant, if the retriever answers with the fragment
  -- that it is asked for, from the one source of that stub. A line reference, which admits without a
  -- score and above the cap of a source, is none of these steps.
  pub after_steps-IsWorkspace :
      (sv : Services) (co : Consolidator F) (config : DynamicRecallConfig F) (steps : List (Step F))
      → IsRetriever sv source_of
      → (after : Orchestrator F) × (after_steps sv co steps (new config) ≡ some after)
        × IsWorkspace lax source_of after
  unfolding after_steps
  after_steps-IsWorkspace sv co config [] r =
      (new config, refl, empty-IsWorkspace (new config) refl (λ id. refl) (λ source. refl))
  after_steps-IsWorkspace sv co config (step ∷ older) r =
      let (before, eq, w) = after_steps-IsWorkspace sv co config older r in
      let (after, done, w') = step-IsWorkspace sv co step before r w in
      (after, rw (after_steps, eq) done, w')
