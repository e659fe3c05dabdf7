-- ===== src/Dynamic/Evict/Whole.antt =====
-- What `evict_stale_fragments` leaves in the workspace.
use opencaw.Prelude.{◌≤◌, ◌≡◌, ◌∙◌, true, Bool, String, some, filter_b, All}
use opencaw.Prelude.Float.{Float, IsIeee}
use opencaw.Prelude.Sort.{sort_by, geb}
use opencaw.Core.{Text, total_tokens}
use opencaw.Dynamic.{Orchestrator, Services}
use opencaw.Dynamic.Load.Invariant.{IsWorkspace}
use opencaw.Dynamic.Evict.{Consolidator, score_of, evict_stale_fragments}
use opencaw.Dynamic.Evict.Pick.{sorted_scores-IsPicked, sorted_scores_pick}
use opencaw.Dynamic.Evict.Loop.{IsAccounted, evict_loop_lem, evict_loop-IsWorkspace}
use opencaw.Dynamic.Evict.Remaining.{
  passes, sorted_in_range, sorted-IsDescending, descending, remaining_fits, remaining_passes,
  remaining-eq-filter_b,
}

module _ {F : Type 0} ⦃fl : Float F⦄ where
  module _ (self after : Orchestrator F) where
    pub record IsEvicted : Type 0 where
      -- the workspace is within its budget
      pub fits : total_tokens after.loaded ≤ self.config.max_workspace_tokens
      -- and what is left passes
      pub passing : All (λ f. passes self f ≡ true) after.loaded
      -- what went has one note each under its id, and was told to the evaluator by its id
      pub accounted : IsAccounted self after

  -- Whatever the scores are, `evict_stale_fragments` does not panic and keeps the invariant.
  pub evict_stale_fragments-keeps :
      (lax : Bool) (source_of : String → String) (sv : Services) (co : Consolidator F)
      (query : Text) (wants_latest : Bool) (self : Orchestrator F)
      → IsWorkspace lax source_of self
      → (after : Orchestrator F) × (evict_stale_fragments sv co query wants_latest self
          ≡ some after)
        × IsWorkspace lax source_of after
  unfolding evict_stale_fragments
  evict_stale_fragments-keeps lax source_of sv co query wants_latest self w =
      let (picked, eq, apart) = sorted_scores_pick wants_latest self in
      let (after, done, _, _) =
        evict_loop_lem sv co query (sort_by geb picked) self
          (sorted-IsDescending wants_latest self picked apart)
          (sorted_in_range wants_latest self picked apart) in
      (
        after,
        rw (evict_stale_fragments, eq) done,
        evict_loop-IsWorkspace lax source_of sv co query (sort_by geb picked) self after done w,
      )

  module _ {is_num : F → Bool} (ieee : IsIeee fl is_num) (sv : Services) (co : Consolidator F)
      (query : Text) (wants_latest : Bool) (self : Orchestrator F)
      (nums : All (λ f. is_num (score_of self.relevance_scores f) ≡ true) self.loaded) where
    -- If no relevance score is NaN, `evict_stale_fragments` does not panic. Afterwards the workspace
    -- is within its token budget, even if it was not before, and no loaded fragment has a score below the
    -- unload threshold. The fragments that are gone and those that are left are together those that
    -- were loaded, and each that is gone has left one note of its eviction under its id and was
    -- recorded as evicted once by its id.
    pub evict_stale_fragments-IsEvicted :
        (after : Orchestrator F) × (evict_stale_fragments sv co query wants_latest self
          ≡ some after)
        × IsEvicted self after
    unfolding evict_stale_fragments
    evict_stale_fragments-IsEvicted =
        let (picked, eq, p) = sorted_scores-IsPicked ieee wants_latest self nums in
        let (after, done, loaded, accounted) =
          evict_loop_lem sv co query (sort_by geb picked) self
            (descending wants_latest self picked p)
            (sorted_in_range wants_latest self picked p.apart) in
        (
          after,
          rw (evict_stale_fragments, eq) done,
          record {
            fits = rw loaded (remaining_fits wants_latest self picked p);
            passing = rw loaded (remaining_passes wants_latest self picked p);
            accounted = accounted;
          },
        )

    -- If no relevance score is NaN and the workspace has its invariant, then `evict_stale_fragments`
    -- does not panic, keeps the invariant, and keeps exactly the fragments whose score is not below
    -- the unload threshold, in their order. That holds of a lax workspace and its invariant too.
    pub evict_stale_fragments-IsWorkspace :
        (lax : Bool) (source_of : String → String)
        → IsWorkspace lax source_of self
        → (after : Orchestrator F) × (evict_stale_fragments sv co query wants_latest self
            ≡ some after)
          × (after.loaded ≡ filter_b (passes self) self.loaded)
          × IsWorkspace lax source_of after
    unfolding evict_stale_fragments
    evict_stale_fragments-IsWorkspace lax source_of w =
        let (picked, eq, p) = sorted_scores-IsPicked ieee wants_latest self nums in
        let (after, done, loaded, accounted) =
          evict_loop_lem sv co query (sort_by geb picked) self
            (descending wants_latest self picked p)
            (sorted_in_range wants_latest self picked p.apart) in
        (
          after,
          rw (evict_stale_fragments, eq) done,
          loaded ∙ remaining-eq-filter_b wants_latest self picked p w.budget,
          evict_loop-IsWorkspace lax source_of sv co query (sort_by geb picked) self after done w,
        )
