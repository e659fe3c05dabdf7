-- ===== src/Dynamic/Turn/Retry/Bounded.antt =====
-- Asking the model keeps the invariant of the workspace, in its lax form, also when fragments are
-- injected while it generates.
use opencaw.Prelude.{
  ℕ, zero, suc, inl, inr, Bool, true, false, String, Option, none, some, List, [], ◌∷◌, ◌==◌,
  StrMap, Bool-cases,
}
use opencaw.Prelude.Float.{Float}
use opencaw.Core.{
  Text, CawError, CawResult, ok, err, ConsolidationNote, not_found, invalid_input, embedding,
  vector_store, io, stale_stub, degenerate_output, external,
}
use opencaw.Dynamic.{Orchestrator, LoadMode, stub}
use opencaw.Dynamic.Load.Invariant.{IsRetriever, IsWorkspace}
use opencaw.Dynamic.Load.Whole.{load_fragments-IsWorkspace}
use opencaw.Dynamic.Turn.Models.{CompletionRequest, CompletionResponse, Turn, Models}
use opencaw.Dynamic.Turn.Monad.{Action, try_catch, Keeps, bind-Keeps, try-Keeps}
use opencaw.Dynamic.Turn.Retry.{
  Injection, generate, injection_of, asked, load, load_injected, after_generation,
  run_with_passive_injection, complete, ask, judge, retry_loop, complete_with_retry,
}

module _ {F : Type 0} ⦃fl : Float F⦄ (source_of : String → String) where
  -- The invariant of the workspace in a turn.
  abbrev pub IsBounded : Turn F → Type 0
  IsBounded t = IsWorkspace true source_of t.self

  -- What the invariant does not speak of may change.
  pub carried-IsWorkspace :
      (self : Orchestrator F) (scores : StrMap F) (content : StrMap Text)
      (notes : List (String × ConsolidationNote))
      → IsWorkspace true source_of self
      → IsWorkspace true source_of (record self {
        relevance_scores = scores;
        session_content = content;
        consolidations = notes;
      })
  carried-IsWorkspace self scores content notes w = record {
    ids = w.ids;
    distinct = w.distinct;
    scored = w.scored;
    origin = w.origin;
    budget = w.budget;
    few = w.few;
    counts = w.counts;
    capped = w.capped;
  }

  module _ (md : Models F) (r : IsRetriever md.services source_of) where
    pub load-Keeps :
        (hits : List (String × F)) (mode : LoadMode) → Keeps IsBounded (load md hits mode)
    unfolding load
    load-Keeps hits mode t w =
        load_fragments-IsWorkspace true source_of md.services hits mode t.self r w

    load_injected-Keeps : (hits : List (String × F)) → Keeps IsBounded (load_injected md hits)
    unfolding load_injected
    load_injected-Keeps [] t w = w
    load_injected-Keeps (hit ∷ hits) t w =
        bind-Keeps IsBounded (load md (hit ∷ []) stub) _ (load-Keeps (hit ∷ []) stub)
          (λ u. load_injected-Keeps hits) t w

    after_generation-Keeps :
        (o : CawResult CompletionResponse × Injection F) → Keeps IsBounded (after_generation md o)
    unfolding after_generation
    after_generation-Keeps (err e, inj) t w = w
    after_generation-Keeps (ok resp, inj) t w =
        bind-Keeps IsBounded (load_injected md inj.injected) _ (load_injected-Keeps inj.injected)
          (λ u t w. w) t w

    pub complete-Keeps : (req : CompletionRequest) → Keeps IsBounded (complete md req)
    unfolding complete
    complete-Keeps req t w = w

    ask-Keeps : (req : CompletionRequest) (passive : Bool) → Keeps IsBounded (ask md req passive)
    unfolding ask run_with_passive_injection complete
    ask-Keeps req true t w =
        after_generation-Keeps
          (generate md t.self (md.generate_passive t.calls req) (injection_of t)) (asked t) w
    ask-Keeps req false t w = w

    judge-Keeps :
        (retry : Option CompletionResponse → Action F (CompletionResponse × Option CawError))
        (o : CawResult CompletionResponse)
        → ((last : Option CompletionResponse) → Keeps IsBounded (retry last))
        → Keeps IsBounded (judge md retry o)
    judge-Keeps retry (ok resp) h t w =
        elim (Bool-cases (md.count_fake_recall_markers resp.answer == 0)) [
          | inl e ↦ rw e w
          | inr e ↦ rw e (h (some resp) t w)
        ]
    judge-Keeps retry (err (degenerate_output m s)) h t w = h _ t w
    judge-Keeps retry (err (not_found m)) h t w = w
    judge-Keeps retry (err (invalid_input m)) h t w = w
    judge-Keeps retry (err (embedding m)) h t w = w
    judge-Keeps retry (err (vector_store m)) h t w = w
    judge-Keeps retry (err (io m)) h t w = w
    judge-Keeps retry (err (stale_stub m)) h t w = w
    judge-Keeps retry (err (external m)) h t w = w

    retry_loop-Keeps :
        (left : ℕ) (req : CompletionRequest) (passive : Bool) (last : Option CompletionResponse)
        → Keeps IsBounded (retry_loop md left req passive last)
    unfolding retry_loop
    retry_loop-Keeps zero req passive last t w = w
    retry_loop-Keeps (suc left) req passive last t w =
        bind-Keeps IsBounded (try_catch (ask md req passive)) _
          (try-Keeps IsBounded (ask md req passive) (ask-Keeps req passive))
          (λ o. judge-Keeps (retry_loop md left req passive) o (retry_loop-Keeps left req passive))
          t w

    pub complete_with_retry-Keeps :
        (req : CompletionRequest) (passive : Bool)
        → Keeps IsBounded (complete_with_retry md req passive)
    unfolding complete_with_retry
    complete_with_retry-Keeps req passive t w = retry_loop-Keeps _ req passive none t w
