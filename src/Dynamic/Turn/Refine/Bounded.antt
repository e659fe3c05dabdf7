-- ===== src/Dynamic/Turn/Refine/Bounded.antt =====
-- The refinement does not panic and keeps the invariant of the workspace, in its lax form.
use opencaw.Prelude.{
  ℕ, zero, suc, ◌-◌, ◌≡◌, refl, length, Bool, true, false, String, Option, none, some, ltb,
}
use opencaw.Prelude.Float.{Float}
use opencaw.Core.{Text, CawError, ok, total_tokens}
use opencaw.Dynamic.{Orchestrator}
use opencaw.Dynamic.Load.{decay_relevance_scores}
use opencaw.Dynamic.Load.Invariant.{IsRetriever, IsWorkspace}
use opencaw.Dynamic.Load.Steps.{decay-IsWorkspace}
use opencaw.Dynamic.Evict.Whole.{evict_stale_fragments-keeps}
use opencaw.Dynamic.Turn.Models.{CompletionResponse, Turn, Models}
use opencaw.Dynamic.Turn.Monad.{done, Action, ◌>>◌, ◌>>=◌, Keeps, bind-Keeps}
use opencaw.Dynamic.Turn.Scores.{refresh_relevance_scores}
use opencaw.Dynamic.Turn.Retry.Bounded.{IsBounded, carried-IsWorkspace, complete_with_retry-Keeps}
use opencaw.Dynamic.Turn.Signals.{process_thinking_trace, process_probes}
use opencaw.Dynamic.Turn.Signals.Bounded.{
  process_thinking_trace-Keeps, process_probes-Keeps, process_line_references-Keeps,
  process_annotations-IsBounded,
}
use opencaw.Dynamic.Turn.Refine.{
  Query, Answers, whole_text, trace_of, when, evict, auto_recall_enabled, recall_from, gather,
  judged, debug_line, complete_again, unless_converged, iterate, refine,
}

module _ {F : Type 0} ⦃fl : Float F⦄ (source_of : String → String) where
  refreshed-IsWorkspace :
      (md : Models F) (query response : Text) (self : Orchestrator F)
      → IsWorkspace true source_of self
      → IsWorkspace true source_of (refresh_relevance_scores md query response self)
  unfolding refresh_relevance_scores
  refreshed-IsWorkspace md query response self w =
      carried-IsWorkspace source_of self _ self.session_content self.consolidations w

  pub when-Keeps :
      (b : Bool) (m : Action F (Unit {0}))
      → Keeps (IsBounded source_of) m
      → Keeps (IsBounded source_of) (when b m)
  when-Keeps true m h t w = h t w
  when-Keeps false m h t w = w

  module _ (md : Models F) (q : Query) (r : IsRetriever md.services source_of) where
    pub evict-Keeps : Keeps (IsBounded source_of) (evict md q)
    unfolding evict
    evict-Keeps t w =
        let (after, e, kept) =
          evict_stale_fragments-keeps true source_of md.services md.consolidator q.user
            q.wants_latest t.self w in
        rw (evict, e) kept

    recall_from-Keeps : (a : CompletionResponse) → Keeps (IsBounded source_of) (recall_from md q a)
    unfolding recall_from
    recall_from-Keeps a t w =
        bind-Keeps (IsBounded source_of)
          (when t.self.config.enable_thinking_trace_recall (process_thinking_trace md (trace_of a)))
          _ (when-Keeps _ _ (process_thinking_trace-Keeps source_of md r (trace_of a)))
          (λ u.
            bind-Keeps (IsBounded source_of)
              (when t.self.config.enable_probe_recall (process_probes md a.answer)) _
              (when-Keeps _ _ (process_probes-Keeps source_of md r a.answer))
              (λ u.
                when-Keeps t.self.config.enable_line_reference_recall _
                  (process_line_references-Keeps source_of md r (whole_text a))))
          t w

    pub gather-Keeps : (a : CompletionResponse) → Keeps (IsBounded source_of) (gather md q a)
    unfolding gather
    gather-Keeps a t w =
        let decayed : Turn F = record t { self = decay_relevance_scores t.self } in
        let fresh : Turn F = record decayed {
          self = refresh_relevance_scores md q.user a.answer decayed.self;
        } in
        bind-Keeps (IsBounded source_of)
          (when (auto_recall_enabled md q fresh) (recall_from md q a)) _
          (when-Keeps (auto_recall_enabled md q fresh) (recall_from md q a) (recall_from-Keeps a))
          (λ u t w. evict-Keeps _ (process_annotations-IsBounded source_of md r a.answer t w)) fresh
          (refreshed-IsWorkspace md q.user a.answer decayed.self
            (decay-IsWorkspace true source_of t.self w))

    pub complete_again-Keeps : Keeps (IsBounded source_of) (complete_again md q)
    unfolding complete_again
    complete_again-Keeps t w = complete_with_retry-Keeps source_of md r _ false t w

    -- No debug line panics where none is evaluated.
    pub debug_line_quiet :
        md.checks_debug_lines ≡ false → (n : ℕ) (t : Turn F) → debug_line md q n t ≡ done (ok tt) t
    unfolding debug_line
    debug_line_quiet quiet n t = rw (debug_line, quiet) refl

    judged-Keeps :
        (a : Answers) (rest : Answers → Action F Answers) (o : CompletionResponse × Option CawError)
        → ((b : Answers) → Keeps (IsBounded source_of) (rest b))
        → Keeps (IsBounded source_of) (judged md q a rest o)
    judged-Keeps a rest (resp, some e) h t w = w
    judged-Keeps a rest (resp, none) h t w = h _ t w

    unless_converged-Keeps :
        (b : Bool) (a : Answers) (next : Action F Answers)
        → Keeps (IsBounded source_of) next
        → Keeps (IsBounded source_of) (unless_converged md q b a next)
    unless_converged-Keeps true a next h t w = w
    unless_converged-Keeps false a next h t w = h t w

    iterate-Keeps :
        md.checks_debug_lines ≡ false
        → (left : ℕ) (a : Answers) → Keeps (IsBounded source_of) (iterate md q left a)
    unfolding iterate
    iterate-Keeps quiet zero a t w = w
    iterate-Keeps quiet (suc left) a t w =
        bind-Keeps (IsBounded source_of) (gather md q a.last_response) _
          (gather-Keeps a.last_response)
          (λ u t' w'.
            unless_converged-Keeps
              (ltb (total_tokens t'.self.loaded - total_tokens t.self.loaded)
                t'.self.config.convergence_min_new_tokens)
              a
              (debug_line md q (length t.self.loaded)
                >> (complete_again md q >>= judged md q a (iterate md q left)))
              (bind-Keeps (IsBounded source_of) (debug_line md q (length t.self.loaded)) _
                (λ t w. rw (debug_line_quiet quiet _ t) w)
                (λ u.
                  bind-Keeps (IsBounded source_of) (complete_again md q) _ complete_again-Keeps
                    (λ o. judged-Keeps a (iterate md q left) o (iterate-Keeps quiet left))))
              t' w')
          t w

    pub refine-Keeps :
        md.checks_debug_lines ≡ false
        → (last : CompletionResponse) (degenerate : Option CawError)
        → Keeps (IsBounded source_of) (refine md q last degenerate)
    unfolding refine
    refine-Keeps quiet last (some e) t w = w
    refine-Keeps quiet last none t w =
        bind-Keeps (IsBounded source_of)
          (iterate md q t.self.config.max_recall_iterations
            (record { last_response = last; best_response = last; degenerate_err = none }))
          _ (iterate-Keeps quiet t.self.config.max_recall_iterations _) (λ a t w. w) t w
