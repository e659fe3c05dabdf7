-- ===== src/Dynamic/Turn/Retry.antt =====
-- `complete_with_retry` of crates/caw-orchestrator/src/dynamic.rs, and `run_with_passive_injection`,
-- which loads what was injected while the model generated.
pub mod Bounded
pub mod Attempts
use opencaw.Prelude.{
  ℕ, zero, suc, ◌+◌, ◌-◌, Bool, ◌||◌, String, Option, none, some, List, [], ◌∷◌, ◌++◌, ltb, ◌==◌,
  if◌then◌else◌, any_b, str_eq,
}
use opencaw.Prelude.Float.{Float}
use opencaw.Core.{
  Text, CawError, CawResult, ok, err, degenerate_output, RecallFragment, total_tokens,
}
use opencaw.Text.{ascii, newline}
use opencaw.Text.Format.{take_chars}
use opencaw.Dynamic.{Orchestrator, LoadMode, stub}
use opencaw.Dynamic.Load.{load_fragments}
use opencaw.Dynamic.Turn.Models.{
  ScoredStub, CompletionRequest, CompletionResponse, Generation, finished, shows, Turn, Models,
}
use opencaw.Dynamic.Turn.Monad.{done, Action, pure, fail, try_catch, ◌>>=◌, ◌>>◌}

-- The locals that the callback changes.
pub record Injection (F : Type 0) : Type 0 where
  pub injected : List (String × F)
  pub remaining_budget : ℕ

abbrev pub with_answer : Text → CompletionResponse
with_answer answer = record { answer = answer; thinking = none; usage = none }

module _ {F : Type 0} where
  abbrev pub asked : Turn F → Turn F
  asked t = record t { calls = t.calls + 1 }

  abbrev pub injection_of : Turn F → Injection F
  injection_of t = record {
    injected = [];
    remaining_budget = t.self.config.max_workspace_tokens - total_tokens t.self.loaded;
  }

module _ {F : Type 0} ⦃fl : Float F⦄ (md : Models F) where
  pub load : List (String × F) → LoadMode → Action F (Unit {0})
  load hits mode t =
      let (r, self) = load_fragments md.services hits mode t.self in
      done r (record t { self = self })

  abbrev skips : Orchestrator F → ScoredStub F → Injection F → Bool
  skips self hit inj =
      self.loaded_ids hit.stub.id
      || any_b (λ e. str_eq e.0 hit.stub.id) inj.injected
      || ltb inj.remaining_budget hit.stub.token_estimate

  -- The fragment of the first hit that is neither loaded nor injected, and fits.
  abbrev inject :
      ScoredStub F → Injection F → CawResult RecallFragment → CawResult (Option Text) × Injection F
  inject hit inj (err e) = (err e, inj)
  inject hit inj (ok f) = (
    ok (
        some (
          ascii "\n[recalled from "
          ++ md.services.bytes f.locator.source
          ++ ascii "]\n"
          ++ f.content
          ++ (newline ∷ []))),
    record {
      injected = inj.injected ++ ((hit.stub.id, hit.score) ∷ []);
      remaining_budget = inj.remaining_budget - f.tokens;
    },
  )

  inject_loop :
      Orchestrator F → List (ScoredStub F) → Injection F → CawResult (Option Text) × Injection F
  inject_loop self [] inj = (ok none, inj)
  inject_loop self (hit ∷ hits) inj =
      let later = inject_loop self hits inj in
      if fl.lt hit.score self.config.thresholds.load
      then (ok none, inj)
      else if skips self hit inj
      then later
      else inject hit inj (md.services.read_range hit.stub.id "full")

  on_window : Orchestrator F → Text → Injection F → CawResult (Option Text) × Injection F
  unfolding inject_loop
  on_window self text inj = elim (md.search text self.config.max_candidates) [
    | err e ↦ (err e, inj)
    | ok hits ↦ inject_loop self hits inj
  ]

  generate : Orchestrator F → Generation → Injection F → CawResult CompletionResponse × Injection F
  unfolding on_window
  generate self (finished r) inj = (r, inj)
  generate self (shows text continue) inj =
      let (told, next) = on_window self text inj in generate self (continue told) next

  -- The fragments that were injected are loaded one by one.
  pub load_injected : List (String × F) → Action F (Unit {0})
  unfolding load
  load_injected [] = pure tt
  load_injected (hit ∷ hits) = load (hit ∷ []) stub >> load_injected hits

  after_generation : CawResult CompletionResponse × Injection F → Action F CompletionResponse
  unfolding load_injected
  after_generation (err e, inj) = fail e
  after_generation (ok resp, inj) = load_injected inj.injected >> pure resp

  pub run_with_passive_injection : CompletionRequest → Action F CompletionResponse
  unfolding generate after_generation
  run_with_passive_injection req t =
      after_generation (generate t.self (md.generate_passive t.calls req) (injection_of t))
        (asked t)

  pub complete : CompletionRequest → Action F CompletionResponse
  complete req t = done (md.complete t.calls req) (asked t)

  pub ask : CompletionRequest → Bool → Action F CompletionResponse
  unfolding run_with_passive_injection complete
  ask req passive = if passive then run_with_passive_injection req else complete req

  -- The last answer with the error, once no attempt is left.
  abbrev pub give_up : Option CompletionResponse → CompletionResponse × Option CawError
  give_up none = (with_answer [], some (degenerate_output md.model_name (md.text_of [])))
  give_up (some resp) =
      (resp, some (degenerate_output md.model_name (md.text_of (take_chars 120 resp.answer))))

  -- What a result leads to: an end, or the next attempt.
  abbrev pub judge :
      (Option CompletionResponse → Action F (CompletionResponse × Option CawError))
      → CawResult CompletionResponse
      → Action F (CompletionResponse × Option CawError)
  judge retry (ok resp) =
      if md.count_fake_recall_markers resp.answer == 0 then pure (resp, none) else retry (some resp)
  judge retry (err (degenerate_output m sample)) =
      retry (some (with_answer (md.services.bytes sample)))
  judge retry (err e) = fail e

  pub retry_loop :
      ℕ
      → CompletionRequest
      → Bool
      → Option CompletionResponse
      → Action F (CompletionResponse × Option CawError)
  unfolding ask
  retry_loop zero req passive last = pure (give_up last)
  retry_loop (suc left) req passive last =
      try_catch (ask req passive) >>= judge (retry_loop left req passive)

  pub complete_with_retry :
      CompletionRequest → Bool → Action F (CompletionResponse × Option CawError)
  unfolding retry_loop
  complete_with_retry req passive t =
      retry_loop (t.self.config.max_degenerate_retries + 1) req passive none t
