-- ===== src/Recall.antt =====
-- crates/caw-orchestrator/src/lib.rs: `RecallOrchestrator`, which recalls through a budget scheduler,
-- and what the orchestrators in Turns share with it. Logging is left out. The loop over restarts
-- recurses on the restarts that the configuration leaves.
pub mod Turns
pub mod Admitted
pub mod Bounded
pub mod Once
pub mod Calls
mod Tests
use opencaw.Prelude.{
  ℕ, zero, suc, ◌+◌, Bool, false, not, ◌&&◌, ◌||◌, String, List, [], ◌∷◌, ◌++◌, map, ◌==◌,
  if◌then◌else◌, length, StrSet, no_keys, add_key,
}
use opencaw.Prelude.Float.{Float}
use opencaw.Core.{
  Text, CawResult, ok, err, RecallFragment, RecallThresholds, TokenBudget, SchedulerInput,
  SchedulerDecision,
}
use opencaw.Scheduler.Interface.{BudgetScheduler}
use opencaw.Dynamic.Turn.Models.{ScoredStub, CompletionRequest, CompletionResponse}

-- The fields that the three configurations share, and the bound on restarts or on probes.
pub record RecallConfig (F : Type 0) : Type 0 where
  pub max_candidates : ℕ
  pub thresholds : RecallThresholds F
  pub default_range : String
  pub budget : TokenBudget
  pub max_iterations : ℕ

-- A stream of reasoning that shows its steps and is told whether to go on: `thinking_with_steps`.
pub data Thinking : Type 0 where
  finished : CawResult CompletionResponse → Thinking
  shows : Text → (CawResult Bool → Thinking) → Thinking

-- The retriever and the model, which is told how often it was asked before.
pub record Assistant (F : Type 0) : Type 0 where
  pub search : Text → ℕ → CawResult (List (ScoredStub F))
  pub read_range : String → String → CawResult RecallFragment
  pub complete : ℕ → CompletionRequest → CawResult CompletionResponse
  pub thinking_with_steps : ℕ → CompletionRequest → Thinking
  pub supports_visible_reasoning : Bool
  pub extract_probes : Text → List Text

-- The state. `seen` is the local `seen_this_turn`.
pub record Workspace (S : Type 0) : Type 0 where
  pub loaded : List RecallFragment
  pub provenance : List RecallFragment
  pub scheduler : S
  pub seen : StrSet
  pub calls : ℕ

-- `new`: nothing is loaded.
abbrev pub new_workspace : {S : Type 0} → S → Workspace S
new_workspace scheduler = record {
  loaded = [];
  provenance = [];
  scheduler = scheduler;
  seen = no_keys;
  calls = 0;
}

abbrev pub Action : Type 0 → Type 0 → Type 0
Action S A = Workspace S → CawResult A × Workspace S

abbrev pub then_do :
    {S : Type 0} {A : Type 0} {B : Type 0}
    → CawResult A × Workspace S
    → (A → Action S B)
    → CawResult B × Workspace S
then_do (ok a, w) f = f a w
then_do (err e, w) f = (err e, w)

infixl 5 ◌>>=◌
abbrev pub ◌>>=◌ :
    {S : Type 0} {A : Type 0} {B : Type 0} → Action S A → (A → Action S B) → Action S B
◌>>=◌ m f w = then_do (m w) f

abbrev pub pure : {S : Type 0} {A : Type 0} → A → Action S A
pure a w = (ok a, w)

abbrev pub request : Text → Text → List RecallFragment → CompletionRequest
request system user loaded = record {
  system = system;
  user = user;
  workspace_fragments = loaded;
  workspace_guidance = [];
}

abbrev pub asked : {S : Type 0} → Workspace S → Workspace S
asked w = record w { calls = w.calls + 1 }

-- `on_step` is told to go on unless something was admitted.
abbrev pub go_on : CawResult Bool → CawResult Bool
go_on (ok new) = ok (not new)
go_on (err e) = err e

abbrev pub is_new : CawResult Bool → Bool
is_new (ok new) = new
is_new (err e) = false

module _ {S : Type 0} where
  -- What is admitted is seen and recorded.
  pub record_admitted : List RecallFragment → Workspace S → Workspace S
  record_admitted [] w = w
  record_admitted (f ∷ fs) w =
      record_admitted fs
        (record w { seen = add_key f.stub_id w.seen; provenance = w.provenance ++ (f ∷ []) })

  abbrev pub decided : SchedulerDecision × S → Workspace S → Workspace S
  decided (d, scheduler) w = record (record_admitted d.admitted w) {
    loaded = d.keep;
    scheduler = scheduler;
  }

  -- `again` is the restarts that follow.
  abbrev pub restarted :
      Action S (Unit {0})
      → (CawResult CompletionResponse × Bool) × Workspace S
      → CawResult {0} Unit × Workspace S
  restarted again ((err e, any), w) = (err e, w)
  restarted again ((ok resp, any), w) = (if any then again else pure tt) w

abbrev pub when : {S : Type 0} → Bool → Action S (Unit {0}) → Action S (Unit {0})
when b m = if b then m else pure tt

module _ {F : Type 0} {S : Type 0} (md : Assistant F) where
  pub ask : Text → Text → Action S CompletionResponse
  ask system user w = (md.complete w.calls (request system user w.loaded), asked w)

abbrev pub with_score :
    {F : Type 0}
    → F
    → CawResult RecallFragment
    → CawResult (List (RecallFragment × F))
    → CawResult (List (RecallFragment × F))
with_score score (err e) rest = err e
with_score score (ok f) (err e) = err e
with_score score (ok f) (ok rest) = ok ((f, score) ∷ rest)

module _ {F : Type 0} ⦃fl : Float F⦄ (md : Assistant F) (config : RecallConfig F) where
  -- The hits above the threshold that were not seen, with what is read of them.
  pub candidates_of : StrSet → List (ScoredStub F) → CawResult (List (RecallFragment × F))
  candidates_of seen [] = ok []
  candidates_of seen (h ∷ hits) =
      let rest = candidates_of seen hits in
      if fl.le config.thresholds.load h.score && not (seen h.stub.id)
      then with_score h.score (md.read_range h.stub.id config.default_range) rest
      else rest

  pub search_for : StrSet → Text → CawResult (List (RecallFragment × F))
  unfolding candidates_of
  search_for seen query = elim (md.search query config.max_candidates) [
    | err e ↦ err e
    | ok hits ↦ candidates_of seen hits
  ]

  module _ {S : Type 0} (sch : BudgetScheduler F S) where
    abbrev pub input_of : List (RecallFragment × F) → Workspace S → SchedulerInput F
    input_of cs w = record {
      currently_loaded = w.loaded;
      candidates = map (λ c. c.0) cs;
      budget = config.budget;
      candidate_scores = map (λ c. c.1) cs;
    }

    -- Whether anything is admitted.
    pub schedule_candidates : List (RecallFragment × F) → Action S Bool
    unfolding record_admitted
    schedule_candidates cs w =
        let decision = sch.schedule w.scheduler (input_of cs w) in
        (ok (not (length decision.0.admitted == 0)), decided decision w)

    abbrev pub some_candidates : List (RecallFragment × F) → Action S Bool
    some_candidates [] w = (ok false, w)
    some_candidates (c ∷ cs) w = schedule_candidates (c ∷ cs) w

    pub do_recall : Text → Action S Bool
    unfolding search_for schedule_candidates
    do_recall query w = then_do (search_for w.seen query, w) some_candidates

    -- The result of the stream, and `admitted_any`.
    pub think : Thinking → Bool → Workspace S → (CawResult CompletionResponse × Bool) × Workspace S
    unfolding do_recall
    think (finished r) any w = ((r, any), w)
    think (shows step continue) any w =
        let (r, recalled) = do_recall step w in
        think (continue (go_on r)) (any || is_new r) recalled

    pub think_loop : ℕ → Text → Text → Action S (Unit {0})
    unfolding think
    think_loop zero system user w = pure tt w
    think_loop (suc left) system user w =
        restarted (think_loop left system user)
          (think (md.thinking_with_steps w.calls (request system user w.loaded)) false (asked w))

    -- `RecallOrchestrator::run_turn`
    pub run_turn : Text → Text → Action S CompletionResponse
    unfolding do_recall think_loop ask
    run_turn system user w =
        (do_recall user
            >>= (λ new.
                when md.supports_visible_reasoning (think_loop config.max_iterations system user))
            >>= (λ u. ask md system user))
          (record w { seen = no_keys })
