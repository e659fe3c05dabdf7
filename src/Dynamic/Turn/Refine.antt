-- ===== src/Dynamic/Turn/Refine.antt =====
-- Phase 2 of `run_turn` of crates/caw-orchestrator/src/dynamic.rs: the refinement of an answer.
pub mod Bounded
pub mod Best
pub mod Forgotten
use opencaw.Prelude.{
  ℕ, zero, suc, ◌+◌, ◌-◌, Bool, true, false, Option, none, some, List, ◌∷◌, ◌++◌, ◌&&◌, ltb, ◌==◌,
  if◌then◌else◌, length,
}
use opencaw.Prelude.Float.{Float}
use opencaw.Core.{Text, CawError, ok, total_tokens}
use opencaw.Text.{newline}
use opencaw.Degradation.{should_auto_recall}
use opencaw.Dynamic.{Orchestrator}
use opencaw.Dynamic.Load.{decay_relevance_scores}
use opencaw.Dynamic.Evict.{evict_stale_fragments}
use opencaw.Dynamic.Turn.Models.{CompletionRequest, CompletionResponse, Turn, Models}
use opencaw.Dynamic.Turn.Monad.{
  TurnResult, panics, done, Action, pure, gets, modify, on_self, ◌>>=◌, ◌>>◌,
}
use opencaw.Dynamic.Turn.Scores.{refresh_relevance_scores, answer_quality_score}
use opencaw.Dynamic.Turn.Retry.{complete_with_retry}
use opencaw.Dynamic.Turn.Signals.{
  process_thinking_trace, process_probes, process_line_references, process_annotations,
}

-- The arguments of a turn, with the system prompt that was built.
pub record Query : Type 0 where
  pub system_prompt : Text
  pub user : Text
  pub guidance : List Text
  pub wants_latest : Bool

-- The locals that an iteration changes.
pub record Answers : Type 0 where
  pub last_response : CompletionResponse
  pub best_response : CompletionResponse
  pub degenerate_err : Option CawError

-- The reasoning and the answer, if there is a reasoning.
abbrev pub whole_text : CompletionResponse → Text
whole_text r = elim r.thinking [ none ↦ r.answer | some t ↦ t ++ (newline ∷ r.answer) ]

abbrev pub trace_of : CompletionResponse → Text
trace_of r = elim r.thinking [ none ↦ r.answer | some t ↦ t ]

abbrev pub when : {F : Type 0} → Bool → Action F (Unit {0}) → Action F (Unit {0})
when b m = if b then m else pure tt

module _ {F : Type 0} ⦃fl : Float F⦄ (md : Models F) (q : Query) where
  -- A panic of the eviction is one of the turn.
  abbrev evicted : Turn F → Option (Orchestrator F) → TurnResult F (Unit {0})
  evicted t none = panics
  evicted t (some self) = done (ok tt) (record t { self = self })

  pub evict : Action F (Unit {0})
  evict t =
      evicted t (evict_stale_fragments md.services md.consolidator q.user q.wants_latest t.self)

  abbrev pub auto_recall_enabled : Turn F → Bool
  auto_recall_enabled t = elim t.degradation_monitor [ none ↦ true | some m ↦ should_auto_recall m ]

  pub recall_from : CompletionResponse → Action F (Unit {0})
  recall_from r = do
    config ← gets (λ t. t.self.config)
    when config.enable_thinking_trace_recall (process_thinking_trace md (trace_of r))
    when config.enable_probe_recall (process_probes md r.answer)
    when config.enable_line_reference_recall (process_line_references md (whole_text r))

  -- The part of an iteration before its completion.
  pub gather : CompletionResponse → Action F (Unit {0})
  unfolding evict recall_from
  gather r = do
    on_self decay_relevance_scores
    on_self (refresh_relevance_scores md q.user r.answer)
    recalls ← gets auto_recall_enabled
    when recalls (recall_from r)
    modify (process_annotations md r.answer)
    evict

  pub request_of : Text → Turn F → CompletionRequest
  request_of system t = record {
    system = system;
    user = q.user;
    workspace_fragments = t.self.loaded;
    workspace_guidance = q.guidance;
  }

  abbrev enriched : Text → Text
  enriched warnings =
      if length warnings == 0
      then q.system_prompt
      else q.system_prompt ++ (newline ∷ newline ∷ warnings)

  -- A later answer replaces the best one if it is no worse.
  abbrev pub better : CompletionResponse → CompletionResponse → CompletionResponse
  better new best =
      if fl.le (answer_quality_score md best.answer) (answer_quality_score md new.answer)
      then new
      else best

  -- `rest` is the iterations that follow.
  abbrev pub judged :
      Answers
      → (Answers → Action F Answers)
      → CompletionResponse × Option CawError
      → Action F Answers
  judged a rest (resp, some e) = pure (record a { degenerate_err = some e })
  judged a rest (resp, none) =
      rest (record a { last_response = resp; best_response = better resp a.best_response })

  pub complete_again : Action F (CompletionResponse × Option CawError)
  unfolding request_of
  complete_again t =
      complete_with_retry md
        (request_of (enriched (md.format_overlap_warnings t.self.provenance)) t) false t

  abbrev pub unless_converged : Bool → Answers → Action F Answers → Action F Answers
  unless_converged converged a next = if converged then pure a else next

  -- The number of new fragments in the debug line, `self.loaded.len() - loaded_before`.
  pub debug_line : ℕ → Action F (Unit {0})
  debug_line loaded_before t =
      if md.checks_debug_lines && ltb (length t.self.loaded) loaded_before
      then panics
      else done (ok tt) t

  pub iterate : ℕ → Answers → Action F Answers
  unfolding gather debug_line complete_again
  iterate zero a = pure a
  iterate (suc left) a = do
    loaded_before ← gets (λ t. length t.self.loaded)
    tokens_before ← gets (λ t. total_tokens t.self.loaded)
    gather a.last_response
    tokens_now ← gets (λ t. total_tokens t.self.loaded)
    minimum ← gets (λ t. t.self.config.convergence_min_new_tokens)
    unless_converged (ltb (tokens_now - tokens_before) minimum) a
        (debug_line loaded_before >> (complete_again >>= judged a (iterate left)))

  -- The answers after the refinement, with the best one as the last one unless it is degenerate.
  abbrev pub chosen : Answers → Answers
  chosen a = elim a.degenerate_err [
    | none ↦ record a { last_response = a.best_response }
    | some e ↦ a
  ]

  pub refine : CompletionResponse → Option CawError → Action F Answers
  unfolding iterate
  refine last (some e) t =
      pure (record { last_response = last; best_response = last; degenerate_err = some e }) t
  refine last none t =
      (iterate t.self.config.max_recall_iterations
            (record { last_response = last; best_response = last; degenerate_err = none })
          >>= λ a. pure (chosen a))
        t
