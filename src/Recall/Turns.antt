-- ===== src/Recall/Turns.antt =====
-- `ProbeRecallOrchestrator` of crates/caw-orchestrator/src/probe_recall.rs and
-- `ThinkingTraceOrchestrator` of thinking_trace.rs, and the turns of all three orchestrators.
use opencaw.Prelude.{ℕ, zero, suc, Bool, false, ◌||◌, List, [], ◌∷◌, ◌++◌, if◌then◌else◌, no_keys}
use opencaw.Prelude.Float.{Float}
use opencaw.Core.{Text}
use opencaw.Text.{ascii}
use opencaw.Scheduler.Interface.{BudgetScheduler}
use opencaw.Dynamic.Turn.Models.{CompletionResponse}
use opencaw.Recall.{
  RecallConfig, Assistant, Workspace, Action, then_do, ◌>>=◌, pure, ask, search_for,
  schedule_candidates, run_turn,
}

-- The three orchestrators.
pub data Kind : Type 0 where
  plain with_probes with_recall : Kind

abbrev pub continued : Text → Text → Text
continued user answer =
    user
    ++ ascii "\n\nAssistant (partial): "
    ++ answer
    ++ ascii "\n\nUser: Content has been loaded. Please continue."

module _ {F : Type 0} ⦃fl : Float F⦄ (md : Assistant F) (config : RecallConfig F) {S : Type 0}
    (sch : BudgetScheduler F S) where
  -- `recall_for_probe` and `recall_for_query`, which do not look at what was seen. The result is
  -- whether anything was admitted.
  unfoldable pub recall_for_query : Text → Action S Bool
  unfolding search_for schedule_candidates
  recall_for_query query w =
      then_do (search_for md config no_keys query, w) (schedule_candidates md config sch)

  -- Whether one of the probes recalled anything.
  unfoldable pub recall_probes : List Text → Action S Bool
  unfolding recall_for_query
  recall_probes [] = pure false
  recall_probes (probe ∷ probes) =
      recall_for_query probe >>= λ new. recall_probes probes >>= λ more. pure (new || more)

  -- `again` is the round that follows if anything was recalled.
  abbrev pub answered :
      Action S CompletionResponse → List Text → CompletionResponse → Action S CompletionResponse
  answered again [] resp = pure resp
  answered again (probe ∷ probes) resp =
      recall_probes (probe ∷ probes) >>= λ new. if new then again else pure resp

  unfoldable pub probe_loop : ℕ → Text → Text → Action S CompletionResponse
  unfolding ask recall_probes
  probe_loop zero system user = ask md system user
  probe_loop (suc left) system user = ask md system user >>= λ resp.
      answered (probe_loop left system (continued user resp.answer)) (md.extract_probes resp.answer)
        resp

  unfoldable pub run_turn_with_probes : Text → Text → Action S CompletionResponse
  unfolding probe_loop
  run_turn_with_probes = probe_loop config.max_iterations

  unfoldable pub run_turn_with_recall : Text → Text → Action S CompletionResponse
  unfolding recall_for_query ask
  run_turn_with_recall system user = recall_for_query user >>= λ new. ask md system user

  -- A turn of the orchestrator of a kind.
  unfoldable pub turn : Kind → Text → Text → Action S CompletionResponse
  unfolding run_turn run_turn_with_probes run_turn_with_recall
  turn plain = run_turn md config sch
  turn with_probes = run_turn_with_probes
  turn with_recall = run_turn_with_recall

  -- The latest turn first, whether it returns an answer or an error.
  unfoldable pub after_turns : Kind → List (Text × Text) → Workspace S → Workspace S
  unfolding turn
  after_turns kind [] w = w
  after_turns kind ((system, user) ∷ older) w = (turn kind system user (after_turns kind older w)).1
