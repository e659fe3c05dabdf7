-- ===== src/Dynamic/Turn/Retry/Attempts.antt =====
-- How often `complete_with_retry` asks, and what it then returns.
use opencaw.Prelude.{
  String, ℕ, zero, suc, ◌+◌, ◌≤◌, ◌≡◌, refl, sym, inl, inr, Bool, true, false, Option, none, some,
  List, [], ◌∷◌, arith, ◌==◌, Bool-cases,
}
use opencaw.Prelude.Float.{Float}
use opencaw.Core.{
  CawError, CawResult, ok, err, not_found, invalid_input, embedding, vector_store, io, stale_stub,
  degenerate_output, external,
}
use opencaw.Dynamic.{stub}
use opencaw.Dynamic.Turn.Models.{CompletionRequest, CompletionResponse, Turn, Models}
use opencaw.Dynamic.Turn.Monad.{
  TurnResult, panics, done, Action, try_catch, Ends, bind-Ends, try-Ends, Keeps, bind-Keeps,
}
use opencaw.Dynamic.Turn.Retry.{
  Injection, generate, injection_of, asked, load, load_injected, after_generation,
  run_with_passive_injection, complete, ask, give_up, judge, retry_loop, complete_with_retry,
}

abbrev pub is_degenerate : CawError → Bool
is_degenerate (degenerate_output m s) = true
is_degenerate (not_found m) = false
is_degenerate (invalid_input m) = false
is_degenerate (embedding m) = false
is_degenerate (vector_store m) = false
is_degenerate (io m) = false
is_degenerate (stale_stub m) = false
is_degenerate (external m) = false

module _ {F : Type 0} ⦃fl : Float F⦄ (md : Models F) where
  -- The model was asked so often.
  abbrev Asked : ℕ → Turn F → Type 0
  Asked n t = t.calls ≡ n

  -- A caught result is no error.
  abbrev Tried : ℕ → CawResult (CawResult CompletionResponse) → Turn F → Type 0
  Tried n (ok r) t = Asked n t
  Tried n (err e) t = ⊥

  load_injected-Asked : (n : ℕ) (hits : List (String × F)) → Keeps (Asked n) (load_injected md hits)
  unfolding load_injected load
  load_injected-Asked n [] t h = h
  load_injected-Asked n (hit ∷ hits) t h =
      bind-Keeps (Asked n) (load md (hit ∷ []) stub) (λ u. load_injected md hits) (λ t h. h)
        (λ u. load_injected-Asked n hits) t h

  after_generation-Asked :
      (n : ℕ) (o : CawResult CompletionResponse × Injection F)
      → Keeps (Asked n) (after_generation md o)
  unfolding after_generation
  after_generation-Asked n (err e, inj) t h = h
  after_generation-Asked n (ok resp, inj) t h =
      bind-Keeps (Asked n) (load_injected md inj.injected) _ (load_injected-Asked n inj.injected)
        (λ u t h. h) t h

  ask-Asked :
      (req : CompletionRequest) (passive : Bool) (t : Turn F)
      → Ends (λ r. Asked (t.calls + 1)) (ask md req passive t)
  unfolding ask run_with_passive_injection complete
  ask-Asked req true t =
      after_generation-Asked (t.calls + 1)
        (generate md t.self (md.generate_passive t.calls req) (injection_of t)) (asked t) refl
  ask-Asked req false t = refl

  -- A clean answer was asked for at most `limit` times. A degenerate one comes with its error after
  -- all of them, and another error ends the attempts.
  abbrev pub IsAnswered : ℕ → ℕ → CawResult (CompletionResponse × Option CawError) → Turn F → Type 0
  IsAnswered before limit (ok (resp, none)) after =
      (md.count_fake_recall_markers resp.answer ≡ 0)
      × (before + 1 ≤ after.calls)
      × (after.calls ≤ before + limit)
  IsAnswered before limit (ok (resp, some e)) after =
      (is_degenerate e ≡ true) × (after.calls ≡ before + limit)
  IsAnswered before limit (err e) after =
      (is_degenerate e ≡ false) × (before + 1 ≤ after.calls) × (after.calls ≤ before + limit)

  -- One attempt more before.
  later-IsAnswered :
      (before left : ℕ) (r : CawResult (CompletionResponse × Option CawError)) (t : Turn F)
      → IsAnswered (before + 1) left r t
      → IsAnswered before (suc left) r t
  later-IsAnswered before left (ok (resp, none)) t (c, l, u) = (c, omega arith, omega arith)
  later-IsAnswered before left (ok (resp, some e)) t (d, u) = (d, omega arith)
  later-IsAnswered before left (err e) t (d, l, u) = (d, omega arith, omega arith)

  later-Ends :
      (before left : ℕ) (o : TurnResult F (CompletionResponse × Option CawError))
      → Ends (IsAnswered (before + 1) left) o
      → Ends (IsAnswered before (suc left)) o
  later-Ends before left panics h = h
  later-Ends before left (done r t) h = later-IsAnswered before left r t h

  judge-IsAnswered :
      (before left : ℕ)
      (retry : Option CompletionResponse → Action F (CompletionResponse × Option CawError))
      (o : CawResult CompletionResponse) (t : Turn F)
      → Asked (before + 1) t
      → ((last : Option CompletionResponse) → Ends (IsAnswered before (suc left)) (retry last t))
      → Ends (IsAnswered before (suc left)) (judge md retry o t)
  judge-IsAnswered before left retry (ok resp) t a h =
      elim (Bool-cases (md.count_fake_recall_markers resp.answer == 0)) [
        | inl e ↦ rw e (ground arith, omega arith, omega arith)
        | inr e ↦ rw e (h (some resp))
      ]
  judge-IsAnswered before left retry (err (degenerate_output m s)) t a h = h _
  judge-IsAnswered before left retry (err (not_found m)) t a h = (refl, omega arith, omega arith)
  judge-IsAnswered before left retry (err (invalid_input m)) t a h =
      (refl, omega arith, omega arith)
  judge-IsAnswered before left retry (err (embedding m)) t a h = (refl, omega arith, omega arith)
  judge-IsAnswered before left retry (err (vector_store m)) t a h = (refl, omega arith, omega arith)
  judge-IsAnswered before left retry (err (io m)) t a h = (refl, omega arith, omega arith)
  judge-IsAnswered before left retry (err (stale_stub m)) t a h = (refl, omega arith, omega arith)
  judge-IsAnswered before left retry (err (external m)) t a h = (refl, omega arith, omega arith)

  give_up-IsAnswered :
      (last : Option CompletionResponse) (t : Turn F)
      → IsAnswered t.calls 0 (ok (give_up md last)) t
  give_up-IsAnswered none t = (refl, omega arith)
  give_up-IsAnswered (some resp) t = (refl, omega arith)

  retry_loop-IsAnswered :
      (left before : ℕ) (req : CompletionRequest) (passive : Bool)
      (last : Option CompletionResponse) (t : Turn F)
      → t.calls ≡ before
      → Ends (IsAnswered before left) (retry_loop md left req passive last t)
  unfolding retry_loop
  retry_loop-IsAnswered zero before req passive last t e = rw (sym e) (give_up-IsAnswered last t)
  retry_loop-IsAnswered (suc left) before req passive last t e =
      bind-Ends (Tried (before + 1)) (IsAnswered before (suc left))
        (try_catch (ask md req passive) t) (judge md (retry_loop md left req passive))
        (try-Ends (λ r. Asked (t.calls + 1)) (Tried (before + 1)) (ask md req passive t)
          (ask-Asked req passive t) (λ r t h. omega arith))
        (λ o t' a. judge-IsAnswered before left (retry_loop md left req passive) o t' a (λ last.
          later-Ends before left (retry_loop md left req passive last t')
            (retry_loop-IsAnswered left (before + 1) req passive last t' a)))
        (λ e t' impossible. absurd impossible)

  -- `complete_with_retry` asks the model at least once and at most once more often than
  -- `max_degenerate_retries`. It returns an answer without an error only if no marker of the recall
  -- scaffold is in it, an answer with an error only after all attempts, and that error is degenerate
  -- output, and it fails only with another error.
  pub complete_with_retry-IsAnswered :
      (req : CompletionRequest) (passive : Bool) (t : Turn F)
      → Ends
          (IsAnswered t.calls (t.self.config.max_degenerate_retries + 1))
          (complete_with_retry md req passive t)
  unfolding complete_with_retry
  complete_with_retry-IsAnswered req passive t =
      retry_loop-IsAnswered (t.self.config.max_degenerate_retries + 1) t.calls req passive none t
        refl
