-- ===== src/Recall/Calls.antt =====
-- How often a turn of the recall orchestrators asks the model.
use opencaw.Prelude.{
  ℕ, zero, suc, ◌+◌, ◌≡◌, refl, ◌∙◌, ◌≤◌, Bool, true, false, ◌||◌, List, [], ◌∷◌, arith,
  if◌then◌else◌, no_keys,
}
use opencaw.Prelude.Float.{Float}
use opencaw.Core.{Text, CawResult, ok, err, RecallFragment}
use opencaw.Scheduler.Interface.{BudgetScheduler}
use opencaw.Dynamic.Turn.Models.{CompletionResponse}
use opencaw.Recall.{
  RecallConfig, Thinking, finished, shows, Assistant, Workspace, Action, then_do, ◌>>=◌, pure,
  asked, request, record_admitted, input_of, schedule_candidates, search_for, some_candidates,
  do_recall, go_on, is_new, think, restarted, think_loop, ask, when, run_turn,
}
use opencaw.Recall.Turns.{
  continued, recall_for_query, recall_probes, answered, probe_loop, run_turn_with_probes,
  run_turn_with_recall, Kind, plain, with_probes, with_recall, turn,
}

-- From `n` calls on: at most `high` more, and with an answer at least `low` more.
pub IsCounted : {S A : Type 0} → (n low high : ℕ) → CawResult A × Workspace S → Type 0
IsCounted n low high (ok a, w) = (n + low ≤ w.calls) × (w.calls ≤ n + high)
IsCounted n low high (err e, w) = w.calls ≤ n + high

abbrev Counts : {S A : Type 0} → (low high : ℕ) → Action S A → Type 0
Counts {S} low high m = (w : Workspace S) → IsCounted w.calls low high (m w)

-- The bound on the calls of a turn.
abbrev pub calls_of : {F : Type 0} → RecallConfig F → Kind → ℕ
calls_of config plain = config.max_iterations + 1
calls_of config with_probes = config.max_iterations + 1
calls_of config with_recall = 1

module _ {S : Type 0} where
  -- Nothing is asked.
  IsCounted-none :
      {A : Type 0} (n : ℕ) (o : CawResult A × Workspace S) → o.1.calls ≡ n → IsCounted n 0 0 o
  unfolding IsCounted
  IsCounted-none n (ok a, w) e = omega arith
  IsCounted-none n (err x, w) e = omega arith

  IsCounted-weaken :
      {A : Type 0} (n less low high more : ℕ) (o : CawResult A × Workspace S)
      → less ≤ low
      → high ≤ more
      → IsCounted n low high o
      → IsCounted n less more o
  unfolding IsCounted
  IsCounted-weaken n less low high more (ok a, w) l h c = omega arith
  IsCounted-weaken n less low high more (err x, w) l h c = omega arith

  then_do-IsCounted :
      {A B : Type 0} (n low high low' high' less more : ℕ) (o : CawResult A × Workspace S)
      (f : A → Action S B)
      → less ≤ low + low'
      → high + high' ≤ more
      → IsCounted n low high o
      → ((a : A) → Counts low' high' (f a))
      → IsCounted n less more (then_do o f)
  unfolding IsCounted
  then_do-IsCounted {A} {B} n low high low' high' less more (ok a, w) f below above (l, h) k =
      shifted (f a w) (k a w)
    where
      shifted :
          (p : CawResult B × Workspace S) → IsCounted w.calls low' high' p → IsCounted n less more p
      shifted (ok b, after) c = omega arith
      shifted (err e, after) c = omega arith
  then_do-IsCounted n low high low' high' less more (err e, w) f below above c k = omega arith

  when-Counts :
      (b : Bool) (high : ℕ) (m : Action S (Unit {0})) → Counts 0 high m → Counts 0 high (when b m)
  unfolding IsCounted
  when-Counts true high m h w = h w
  when-Counts false high m h w = omega arith

  record_admitted-calls :
      (fs : List RecallFragment) (w : Workspace S) → (record_admitted fs w).calls ≡ w.calls
  unfolding record_admitted
  record_admitted-calls [] w = refl
  record_admitted-calls (f ∷ fs) w = record_admitted-calls fs _

module _ {F : Type 0} ⦃fl : Float F⦄ (md : Assistant F) (config : RecallConfig F) {S : Type 0}
    (sch : BudgetScheduler F S) where
  schedule_candidates-calls :
      (cs : List (RecallFragment × F)) (w : Workspace S)
      → (schedule_candidates md config sch cs w).1.calls ≡ w.calls
  unfolding schedule_candidates
  schedule_candidates-calls cs w =
      record_admitted-calls (sch.schedule w.scheduler (input_of md config sch cs w)).0.admitted w

  some_candidates-calls :
      (r : CawResult (List (RecallFragment × F))) (w : Workspace S)
      → (then_do (r, w) (some_candidates md config sch)).1.calls ≡ w.calls
  some_candidates-calls (err e) w = refl
  some_candidates-calls (ok []) w = refl
  some_candidates-calls (ok (c ∷ cs)) w = schedule_candidates-calls (c ∷ cs) w

  all_candidates-calls :
      (r : CawResult (List (RecallFragment × F))) (w : Workspace S)
      → (then_do (r, w) (schedule_candidates md config sch)).1.calls ≡ w.calls
  all_candidates-calls (err e) w = refl
  all_candidates-calls (ok cs) w = schedule_candidates-calls cs w

  do_recall-calls :
      (query : Text) (w : Workspace S) → (do_recall md config sch query w).1.calls ≡ w.calls
  unfolding do_recall
  do_recall-calls query w = some_candidates-calls (search_for md config w.seen query) w

  think-calls :
      (stream : Thinking) (any : Bool) (w : Workspace S)
      → (think md config sch stream any w).1.calls ≡ w.calls
  unfolding think
  think-calls (finished r) any w = refl
  think-calls (shows step continue) any w =
      let (r, after) = do_recall md config sch step w in
      think-calls (continue (go_on r)) (any || is_new r) after ∙ do_recall-calls step w

  restarted-IsCounted :
      (n left : ℕ) (again : Action S (Unit {0}))
      (o : (CawResult CompletionResponse × Bool) × Workspace S)
      → o.1.calls ≡ n + 1
      → Counts 0 left again
      → IsCounted n 0 (suc left) (restarted again o)
  unfolding IsCounted
  restarted-IsCounted n left again ((err e, any), w) c h = omega arith
  restarted-IsCounted n left again ((ok resp, false), w) c h = omega arith
  restarted-IsCounted n left again ((ok resp, true), w) c h =
      then_do-IsCounted n 0 1 0 left 0 (suc left) (ok tt, w) (λ u. again) (omega arith)
        (omega arith) (omega arith) (λ u. h)

  think_loop-Counts :
      (left : ℕ) (system user : Text) → Counts 0 left (think_loop md config sch left system user)
  unfolding think_loop IsCounted
  think_loop-Counts zero system user w = omega arith
  think_loop-Counts (suc left) system user w =
      let stream = md.thinking_with_steps w.calls (request system user w.loaded) in
      restarted-IsCounted w.calls left (think_loop md config sch left system user)
        (think md config sch stream false (asked w)) (think-calls stream false (asked w))
        (think_loop-Counts left system user)

  ask-Counts : (system user : Text) → Counts {S = S} 1 1 (ask md system user)
  unfolding ask IsCounted
  ask-Counts system user w = answer-IsCounted (md.complete w.calls (request system user w.loaded))
    where
      answer-IsCounted : (r : CawResult CompletionResponse) → IsCounted w.calls 1 1 (r, asked w)
      answer-IsCounted (ok resp) = omega arith
      answer-IsCounted (err e) = omega arith

  recall_for_query-Counts : (query : Text) → Counts 0 0 (recall_for_query md config sch query)
  unfolding recall_for_query
  recall_for_query-Counts query w =
      IsCounted-none w.calls _ (all_candidates-calls (search_for md config no_keys query) w)

  recall_probes-Counts : (probes : List Text) → Counts 0 0 (recall_probes md config sch probes)
  unfolding recall_probes
  recall_probes-Counts [] w = IsCounted-none w.calls (ok false, w) refl
  recall_probes-Counts (probe ∷ probes) w =
      then_do-IsCounted w.calls 0 0 0 0 0 0 (recall_for_query md config sch probe w) _ (omega arith)
        (omega arith) (recall_for_query-Counts probe w)
        (λ new v.
          then_do-IsCounted v.calls 0 0 0 0 0 0 (recall_probes md config sch probes v) _
            (omega arith) (omega arith) (recall_probes-Counts probes v)
            (λ more u. IsCounted-none u.calls (ok (new || more), u) refl))

  again-Counts :
      (b : Bool) (left : ℕ) (again : Action S CompletionResponse) (resp : CompletionResponse)
      → Counts 0 left again
      → Counts 0 left (if b then again else pure resp)
  again-Counts true left again resp h w = h w
  again-Counts false left again resp h w =
      IsCounted-weaken w.calls 0 0 0 left (ok resp, w) (omega arith) (omega arith)
        (IsCounted-none w.calls (ok resp, w) refl)

  answered-Counts :
      (left : ℕ) (again : Action S CompletionResponse) (probes : List Text)
      (resp : CompletionResponse)
      → Counts 0 left again
      → Counts 0 left (answered md config sch again probes resp)
  answered-Counts left again [] resp h w = again-Counts false left again resp h w
  answered-Counts left again (probe ∷ probes) resp h w =
      then_do-IsCounted w.calls 0 0 0 left 0 left (recall_probes md config sch (probe ∷ probes) w) _
        (omega arith) (omega arith) (recall_probes-Counts (probe ∷ probes) w)
        (λ new. again-Counts new left again resp h)

  probe_loop-Counts :
      (left : ℕ) (system user : Text)
      → Counts 1 (left + 1) (probe_loop md config sch left system user)
  unfolding probe_loop
  probe_loop-Counts zero system user w = ask-Counts system user w
  probe_loop-Counts (suc left) system user w =
      then_do-IsCounted w.calls 1 1 0 (left + 1) 1 (suc left + 1) (ask md system user w) _
        (omega arith) (omega arith) (ask-Counts system user w)
        (λ resp.
          let again = probe_loop md config sch left system (continued user resp.answer) in
          answered-Counts (left + 1) again (md.extract_probes resp.answer) resp (λ v.
            IsCounted-weaken v.calls 0 1 (left + 1) (left + 1) (again v) (omega arith) (omega arith)
              (probe_loop-Counts left system (continued user resp.answer) v)))

  run_turn-Counts :
      (system user : Text)
      → Counts 1 (config.max_iterations + 1) (run_turn md config sch system user)
  unfolding run_turn
  run_turn-Counts system user w =
      then_do-IsCounted w.calls 0 config.max_iterations 1 1 1 (config.max_iterations + 1)
        ((do_recall md config sch user >>= λ new.
            when md.supports_visible_reasoning
              (think_loop md config sch config.max_iterations system user))
          (record w { seen = no_keys }))
        _ (omega arith) (omega arith)
        (then_do-IsCounted w.calls 0 0 0 config.max_iterations 0 config.max_iterations
          (do_recall md config sch user (record w { seen = no_keys })) _ (omega arith) (omega arith)
          (IsCounted-none w.calls _ (do_recall-calls user (record w { seen = no_keys })))
          (λ new.
            when-Counts md.supports_visible_reasoning config.max_iterations _
              (think_loop-Counts config.max_iterations system user)))
        (λ u. ask-Counts system user)

  -- A turn of any of the three orchestrators asks the model at most once more often than the bound on
  -- restarts or probes, whatever the model answers, and at least once if the turn has an answer. The
  -- orchestrator of thinking traces asks at most once.
  pub turn-IsCounted :
      (kind : Kind) (system user : Text) (w : Workspace S)
      → IsCounted w.calls 1 (calls_of config kind) (turn md config sch kind system user w)
  unfolding turn run_turn_with_probes run_turn_with_recall
  turn-IsCounted plain system user w = run_turn-Counts system user w
  turn-IsCounted with_probes system user w = probe_loop-Counts config.max_iterations system user w
  turn-IsCounted with_recall system user w =
      then_do-IsCounted w.calls 0 0 1 1 1 1 (recall_for_query md config sch user w) _ (omega arith)
        (omega arith) (recall_for_query-Counts user w) (λ new. ask-Counts system user)
