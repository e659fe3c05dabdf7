-- ===== src/Recall/Bounded.antt =====
-- What a turn of the recall orchestrators keeps: the token budget, and the provenance of what is
-- loaded.
use mathlib.Core.Path.{subst}
use mathlib.Core.List.{Memᴰ, Sublistᴰ, append_assoc, append-nil}
use mathlib.Core.List.Memᴰ
use opencaw.Prelude.{
  ℕ, zero, suc, ◌≡◌, sym, ◌∙◌, ◌≤◌, Bool, true, false, ◌||◌, List, [], ◌∷◌, ◌++◌, All, All-imp,
  All-append, no_keys, arith, if◌then◌else◌,
}
use opencaw.Prelude.Float.{Float}
use opencaw.Prelude.Sort.{All-Memᴰ}
use opencaw.Core.{Text, CawResult, ok, err, RecallFragment, available_for_workspace, total_tokens}
use opencaw.Scheduler.Interface.{BudgetScheduler}
use opencaw.Dynamic.Turn.Models.{CompletionResponse}
use opencaw.Recall.{
  RecallConfig, Thinking, finished, shows, Assistant, Workspace, Action, then_do, ◌>>=◌, asked,
  request, record_admitted, input_of, schedule_candidates, search_for, some_candidates, do_recall,
  go_on, is_new, think, restarted, think_loop, ask, when, run_turn, pure, new_workspace,
}
use opencaw.Recall.Turns.{
  recall_for_query, recall_probes, answered, probe_loop, run_turn_with_probes, run_turn_with_recall,
  continued, Kind, plain, with_probes, with_recall, turn, after_turns,
}

pub Sublistᴰ-All :
    {A : Type 0} (P : A → Type 0) (xs ys : List A) → Sublistᴰ xs ys → All P ys → All P xs
Sublistᴰ-All P [] ys s h = tt
Sublistᴰ-All P (x ∷ xs) [] s h = elim s [ ]
Sublistᴰ-All P (x ∷ xs) (y ∷ ys) (Sublistᴰ.cons s) (h, hs) = Sublistᴰ-All P (x ∷ xs) ys s hs
Sublistᴰ-All P (x ∷ xs) (y ∷ ys) (Sublistᴰ.cons-cons e s) (h, hs) =
    (subst P (sym e) h, Sublistᴰ-All P xs ys s hs)

-- A condition on the state is kept, also by an error.
abbrev pub Keeps : {S A : Type 0} → (Workspace S → Type 0) → Action S A → Type 0
Keeps {S} Inv m = (w : Workspace S) → Inv w → Inv (m w).1

pub bind-Keeps :
    {S A B : Type 0} (Inv : Workspace S → Type 0) (m : Action S A) (f : A → Action S B)
    → Keeps Inv m
    → ((a : A) → Keeps Inv (f a))
    → Keeps Inv (m >>= f)
bind-Keeps {S} {A} {B} Inv m f h k w i = split_result (m w) (h w i)
  where
    split_result : (o : CawResult A × Workspace S) → Inv o.1 → Inv (then_do o f).1
    split_result (ok a, after) j = k a after j
    split_result (err e, after) j = j

module _ {S : Type 0} where
  pub record_admitted-provenance :
      (fs : List RecallFragment) (w : Workspace S)
      → (record_admitted fs w).provenance ≡ w.provenance ++ fs
  unfolding record_admitted
  record_admitted-provenance [] w = sym (append-nil w.provenance)
  record_admitted-provenance (f ∷ fs) w =
      record_admitted-provenance fs _ ∙ append_assoc w.provenance (f ∷ []) fs

module _ {F : Type 0} ⦃fl : Float F⦄ (md : Assistant F) (config : RecallConfig F) {S : Type 0}
    (sch : BudgetScheduler F S) where
  -- The budget, and that what is loaded is in the provenance.
  pub record IsRecalled (w : Workspace S) : Type 0 where
    pub fits : total_tokens w.loaded ≤ available_for_workspace config.budget
    pub known : All (λ f. Memᴰ f w.provenance) w.loaded

  schedule_candidates-Keeps :
      (cs : List (RecallFragment × F)) → Keeps IsRecalled (schedule_candidates md config sch cs)
  unfolding schedule_candidates
  schedule_candidates-Keeps cs w i =
      let (kept, e, old, new) = sch.part w.scheduler (input_of md config sch cs w) in
      record {
        fits = sch.fits w.scheduler (input_of md config sch cs w);
        known =
            rw (e, record_admitted-provenance)
              (All-append _ kept _
                (All-imp (λ f. Memᴰ.append_left _) kept (Sublistᴰ-All _ kept w.loaded old i.known))
                (All-imp (λ f. Memᴰ.append_right w.provenance) _ (All-Memᴰ _)));
      }

  do_recall-Keeps : (query : Text) → Keeps IsRecalled (do_recall md config sch query)
  unfolding do_recall
  do_recall-Keeps query w i = from_search (search_for md config w.seen query)
    where
      from_search :
          (r : CawResult (List (RecallFragment × F)))
          → IsRecalled (then_do (r, w) (some_candidates md config sch)).1
      from_search (err e) = i
      from_search (ok []) = i
      from_search (ok (c ∷ cs)) = schedule_candidates-Keeps (c ∷ cs) w i

  think-Keeps :
      (stream : Thinking) (any : Bool) (w : Workspace S)
      → IsRecalled w
      → IsRecalled (think md config sch stream any w).1
  unfolding think
  think-Keeps (finished r) any w i = i
  think-Keeps (shows step continue) any w i =
      let (r, after) = do_recall md config sch step w in
      think-Keeps (continue (go_on r)) (any || is_new r) after (do_recall-Keeps step w i)

  restarted-Keeps :
      (again : Action S (Unit {0})) (o : (CawResult CompletionResponse × Bool) × Workspace S)
      → Keeps IsRecalled again
      → IsRecalled o.1
      → IsRecalled (restarted again o).1
  restarted-Keeps again ((err e, any), w) h i = i
  restarted-Keeps again ((ok resp, true), w) h i = h w i
  restarted-Keeps again ((ok resp, false), w) h i = i

  asked-IsRecalled : (w : Workspace S) → IsRecalled w → IsRecalled (asked w)
  asked-IsRecalled w i = record { fits = i.fits; known = i.known }

  think_loop-Keeps :
      (left : ℕ) (system user : Text) → Keeps IsRecalled (think_loop md config sch left system user)
  unfolding think_loop
  think_loop-Keeps zero system user w i = i
  think_loop-Keeps (suc left) system user w i =
      restarted-Keeps (think_loop md config sch left system user)
        (think md config sch (md.thinking_with_steps w.calls (request system user w.loaded)) false
          (asked w))
        (think_loop-Keeps left system user)
        (think-Keeps (md.thinking_with_steps w.calls (request system user w.loaded)) false (asked w)
          (asked-IsRecalled w i))

  ask-Keeps : (system user : Text) → Keeps IsRecalled (ask md system user)
  unfolding ask
  ask-Keeps system user w i = asked-IsRecalled w i

  when-Keeps :
      (b : Bool) (m : Action S (Unit {0})) → Keeps IsRecalled m → Keeps IsRecalled (when b m)
  when-Keeps true m h w i = h w i
  when-Keeps false m h w i = i

  run_turn-Keeps : (system user : Text) → Keeps IsRecalled (run_turn md config sch system user)
  unfolding run_turn
  run_turn-Keeps system user w i =
      bind-Keeps IsRecalled (do_recall md config sch user >>= _) _
        (bind-Keeps IsRecalled (do_recall md config sch user) _ (do_recall-Keeps user) (λ new.
          when-Keeps md.supports_visible_reasoning _
            (think_loop-Keeps config.max_iterations system user)))
        (λ u. ask-Keeps system user) (record w { seen = no_keys })
        (record { fits = i.fits; known = i.known })

  recall_for_query-Keeps : (query : Text) → Keeps IsRecalled (recall_for_query md config sch query)
  unfolding recall_for_query
  recall_for_query-Keeps query w i = from_search (search_for md config no_keys query)
    where
      from_search :
          (r : CawResult (List (RecallFragment × F)))
          → IsRecalled (then_do (r, w) (schedule_candidates md config sch)).1
      from_search (err e) = i
      from_search (ok cs) = schedule_candidates-Keeps cs w i

  recall_probes-Keeps : (probes : List Text) → Keeps IsRecalled (recall_probes md config sch probes)
  unfolding recall_probes
  recall_probes-Keeps [] w i = i
  recall_probes-Keeps (probe ∷ probes) w i =
      bind-Keeps IsRecalled (recall_for_query md config sch probe) _ (recall_for_query-Keeps probe)
        (λ new.
          bind-Keeps IsRecalled (recall_probes md config sch probes) _ (recall_probes-Keeps probes)
            (λ more w i. i))
        w i

  again-Keeps :
      (b : Bool) (m k : Action S CompletionResponse)
      → Keeps IsRecalled m
      → Keeps IsRecalled k
      → Keeps IsRecalled (if b then m else k)
  again-Keeps true m k h l = h
  again-Keeps false m k h l = l

  answered-Keeps :
      (again : Action S CompletionResponse) (probes : List Text) (resp : CompletionResponse)
      → Keeps IsRecalled again
      → Keeps IsRecalled (answered md config sch again probes resp)
  answered-Keeps again [] resp h w i = i
  answered-Keeps again (probe ∷ probes) resp h w i =
      bind-Keeps IsRecalled (recall_probes md config sch (probe ∷ probes)) _
        (recall_probes-Keeps (probe ∷ probes))
        (λ new. again-Keeps new again (pure resp) h (λ w i. i)) w i

  probe_loop-Keeps :
      (left : ℕ) (system user : Text) → Keeps IsRecalled (probe_loop md config sch left system user)
  unfolding probe_loop
  probe_loop-Keeps zero system user = ask-Keeps system user
  probe_loop-Keeps (suc left) system user =
      bind-Keeps IsRecalled (ask md system user) _ (ask-Keeps system user) (λ resp.
        answered-Keeps _ (md.extract_probes resp.answer) resp
          (probe_loop-Keeps left system (continued user resp.answer)))

  turn-Keeps :
      (kind : Kind) (system user : Text) → Keeps IsRecalled (turn md config sch kind system user)
  unfolding turn run_turn_with_probes run_turn_with_recall
  turn-Keeps plain system user = run_turn-Keeps system user
  turn-Keeps with_probes system user = probe_loop-Keeps config.max_iterations system user
  turn-Keeps with_recall system user =
      bind-Keeps IsRecalled (recall_for_query md config sch user) _ (recall_for_query-Keeps user)
        (λ new. ask-Keeps system user)

  -- Whatever is asked in whichever order, and whatever the retriever and the model answer, errors
  -- included: after any turns of one of the three orchestrators, which starts with nothing loaded,
  -- the loaded fragments fit what the budget leaves for the workspace, and each of them is recorded
  -- in the provenance. This holds for every scheduler with the laws of the interface, the greedy one
  -- among them.
  pub after_turns-IsRecalled :
      (kind : Kind) (turns : List (Text × Text)) (scheduler : S)
      → IsRecalled (after_turns md config sch kind turns (new_workspace scheduler))
  unfolding after_turns
  after_turns-IsRecalled kind [] scheduler = record { fits = omega arith; known = tt }
  after_turns-IsRecalled kind ((system, user) ∷ older) scheduler =
      turn-Keeps kind system user _ (after_turns-IsRecalled kind older scheduler)
