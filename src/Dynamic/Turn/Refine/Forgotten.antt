-- ===== src/Dynamic/Turn/Refine/Forgotten.antt =====
-- What a line reference loads is evicted before the model can be asked again.
use opencaw.Prelude.{
  ◌≡◌, ◌∙◌, refl, ap, inl, inr, Bool, true, some, List, String, arith, All, All-imp, All-of_All,
  StrMap, entry_or, Option-cases,
}
use opencaw.Prelude.Float.{Float, IsIeee}
use opencaw.Core.{Text, CawResult, ok, err, RecallFragment, has_id}
use opencaw.Dynamic.{Orchestrator, DynamicRecallConfig}
use opencaw.Dynamic.Load.Invariant.{HasScore, IsRetriever}
use opencaw.Dynamic.Evict.{score_of}
use opencaw.Dynamic.Evict.Remaining.{passes}
use opencaw.Dynamic.Evict.Whole.{evict_stale_fragments-IsEvicted}
use opencaw.Dynamic.Turn.Models.{Turn, Models}
use opencaw.Dynamic.Turn.Monad.{TurnResult, panics, done, modify, ◌>>◌, Ends, bind-Ends}
use opencaw.Dynamic.Turn.Signals.{process_line_references, process_annotations}
use opencaw.Dynamic.Turn.Signals.Known.{
  ReadsRanges, IsUnscored, Unscored, process_line_references-Unscored, process_annotations-Unscored,
}
use opencaw.Dynamic.Turn.Refine.{Query, evict}

module _ {F : Type 0} ⦃fl : Float F⦄ {is_num : F → Bool} (ieee : IsIeee fl is_num)
    (nums : (x : F) → is_num x ≡ true) (source_of : String → String) (md : Models F)
    (r : IsRetriever md.services source_of) (reads : ReadsRanges md) (q : Query) where
  -- All that is loaded had a score.
  abbrev pub HadScores : StrMap F → CawResult {0} Unit → Turn F → Type 0
  HadScores before (ok u) t = All (HasScore before) t.self.loaded
  HadScores before (err e) t = Unit

  -- A fragment without a score has the score 0, which does not pass.
  passing-HasScore :
      (before : StrMap F) (config : DynamicRecallConfig F) (self : Orchestrator F)
      (f : RecallFragment)
      → IsUnscored before config self
      → fl.lt (fl.lit 0 1) config.thresholds.unload ≡ true
      → passes self f ≡ true
      → HasScore before f
  passing-HasScore before config self f w low h = elim (Option-cases (before f.stub_id)) [
    | inr (score, e) ↦ (score, e)
    | inl e ↦
        let zero : score_of self.relevance_scores f ≡ fl.lit 0 1 =
          ap (entry_or (fl.lit 0 1)) (w.scores f.stub_id e) in
        let gone : fl.lt (score_of self.relevance_scores f) self.config.thresholds.unload ≡ true =
          ap (λ s. fl.lt s self.config.thresholds.unload) zero
          ∙ ap (λ c. fl.lt (fl.lit 0 1) c.thresholds.unload) w.same
          ∙ low in
        absurd (ground arith)
  ]

  evict-HadScores :
      (before : StrMap F) (config : DynamicRecallConfig F) (t : Turn F)
      → IsUnscored before config t.self
      → fl.lt (fl.lit 0 1) config.thresholds.unload ≡ true
      → Ends (HadScores before) (evict md q t)
  unfolding evict
  evict-HadScores before config t w low =
      let (after, e, evicted) =
        evict_stale_fragments-IsEvicted ieee md.services md.consolidator q.user q.wants_latest
          t.self
          (All-of_All (λ f. is_num (score_of t.self.relevance_scores f) ≡ true)
            (λ f. nums (score_of t.self.relevance_scores f)) t.self.loaded) in
      rw (evict, e)
        (All-imp (λ f. passing-HasScore before config t.self f w low) after.loaded evicted.passing)

  -- The id of what is loaded is that of one of these fragments.
  abbrev pub WereLoaded : List RecallFragment → CawResult {0} Unit → Turn F → Type 0
  WereLoaded before (ok u) t = All (λ f. has_id f.stub_id before ≡ true) t.self.loaded
  WereLoaded before (err e) t = Unit

  HadScores-WereLoaded :
      (before : StrMap F) (loaded : List RecallFragment)
      → ((id : String) (score : F) → before id ≡ some score → has_id id loaded ≡ true)
      → (o : TurnResult F (Unit {0})) → Ends (HadScores before) o
      → Ends (WereLoaded loaded) o
  HadScores-WereLoaded before loaded only panics h = h
  HadScores-WereLoaded before loaded only (done (err e) t) h = tt
  HadScores-WereLoaded before loaded only (done (ok u) t) h =
      All-imp (λ f s. only f.stub_id s.0 s.1) t.self.loaded h

  scores_left :
      (text output : Text) (t : Turn F)
      → All (HasScore t.self.relevance_scores) t.self.loaded
      → fl.lt (fl.lit 0 1) t.self.config.thresholds.unload ≡ true
      → Ends (HadScores t.self.relevance_scores) (
          (process_line_references md text >> modify (process_annotations md output) >> evict md q)
            t)
  scores_left text output t scored low =
      bind-Ends (λ o. Unscored source_of md r reads t.self.relevance_scores t.self.config)
        (HadScores t.self.relevance_scores)
        ((process_line_references md text >> modify (process_annotations md output)) t)
        (λ u. evict md q)
        (bind-Ends (λ o. Unscored source_of md r reads t.self.relevance_scores t.self.config)
          (λ o. Unscored source_of md r reads t.self.relevance_scores t.self.config)
          (process_line_references md text t) (λ u. modify (process_annotations md output))
          (process_line_references-Unscored source_of md r reads t.self.relevance_scores
            t.self.config text t
            (record {
              scores = λ id e. e;
              stubs = All-imp (λ f h. inr h) t.self.loaded scored;
              same = refl;
            }))
          (λ u t'.
            process_annotations-Unscored source_of md r reads t.self.relevance_scores t.self.config
              output t')
          (λ e t' w. w))
        (λ u t' w. evict-HadScores t.self.relevance_scores t.self.config t' w low) (λ e t' w. tt)

  -- If every loaded fragment has a relevance score and no other id has one, no score is NaN and the
  -- unload threshold is above 0, then after the line references of an answer are processed, and the
  -- annotations and the eviction that follow, each loaded fragment has the id of one that was loaded
  -- before: what a line reference added under another id is gone before the next completion. The
  -- retriever must answer with the fragment that it is asked for, and a range of lines is not shown
  -- as a stub.
  pub line_references-WereLoaded :
      (text output : Text) (t : Turn F)
      → All (HasScore t.self.relevance_scores) t.self.loaded
      → ((id : String) (score : F)
          → t.self.relevance_scores id ≡ some score
          → has_id id t.self.loaded ≡ true)
      → fl.lt (fl.lit 0 1) t.self.config.thresholds.unload ≡ true
      → Ends (WereLoaded t.self.loaded) (
          (process_line_references md text >> modify (process_annotations md output) >> evict md q)
            t)
  line_references-WereLoaded text output t scored only low =
      HadScores-WereLoaded t.self.relevance_scores t.self.loaded only _
        (scores_left text output t scored low)
