-- ===== src/Recall/Once.antt =====
-- What `seen_this_turn` is for, in crates/caw-orchestrator/src/lib.rs: a stub is not admitted again in
-- a turn.
use mathlib.Core.List.{append-nil}
use opencaw.Prelude.{
  ℕ, zero, suc, ◌≡◌, refl, sym, inl, inr, Bool, true, false, not, ◌&&◌, ◌||◌, List, [], ◌∷◌, map,
  String, StrSet, Bool-cases, arith, no_keys,
}
use opencaw.Prelude.Float.{Float}
use opencaw.Prelude.Keys.{has_key, IsDistinct}
use opencaw.Core.{Text, CawResult, ok, err, RecallFragment, CawResult-cases}
use opencaw.Scheduler.{ids_of}
use opencaw.Scheduler.Interface.{BudgetScheduler}
use opencaw.Dynamic.Turn.Models.{ScoredStub, CompletionResponse}
use opencaw.Recall.{
  RecallConfig, Thinking, finished, shows, Assistant, Workspace, Action, then_do, ◌>>=◌, asked,
  request, candidates_of, input_of, schedule_candidates, search_for, with_score, some_candidates,
  do_recall, go_on, is_new, think, restarted, think_loop, ask, when, run_turn,
}
use opencaw.Recall.Admitted.{part-IsDistinct, has_key-cons, Unseen, IsOnce, record_admitted-IsOnce}
use opencaw.Recall.Bounded.{Sublistᴰ-All, Keeps, bind-Keeps}

abbrev hit_ids : {F : Type 0} → List (ScoredStub F) → List String
hit_ids = map (λ h. h.stub.id)

-- A search returns a stub at most once, and what is read of a stub is of that stub.
pub record IsSearch {F : Type 0} (md : Assistant F) : Type 0 where
  pub distinct :
      (query : Text) (k : ℕ) (hits : List (ScoredStub F))
      → md.search query k ≡ ok hits
      → IsDistinct (hit_ids hits)
  pub reads :
      (id range : String) (f : RecallFragment) → md.read_range id range ≡ ok f → f.stub_id ≡ id

module _ {F : Type 0} ⦃fl : Float F⦄ (md : Assistant F) (r : IsSearch md)
    (config : RecallConfig F) where
  abbrev read : List (RecallFragment × F) → List RecallFragment
  read = map (λ c. c.0)

  -- What is read of the hits, if all of it can be read.
  AreCandidates : StrSet → List (ScoredStub F) → CawResult (List (RecallFragment × F)) → Type 0
  AreCandidates seen hits (err e) = Unit
  AreCandidates seen hits (ok cs) =
      IsDistinct (ids_of (read cs))
      × Unseen seen (read cs)
      × ((k : String) → has_key k (hit_ids hits) ≡ false → has_key k (ids_of (read cs)) ≡ false)

  with_score-AreCandidates :
      (seen : StrSet) (h : ScoredStub F) (hits : List (ScoredStub F))
      (rest : CawResult (List (RecallFragment × F)))
      → has_key h.stub.id (hit_ids hits) ≡ false
      → seen h.stub.id ≡ false
      → AreCandidates seen hits rest
      → AreCandidates seen
          (h ∷ hits)
          (with_score h.score (md.read_range h.stub.id config.default_range) rest)
  unfolding AreCandidates IsDistinct
  with_score-AreCandidates seen h hits (err e) apart unseen a =
      elim (CawResult-cases (md.read_range h.stub.id config.default_range)) [
        | inl (f, e) ↦ rw e tt
        | inr (x, e) ↦ rw e tt
      ]
  with_score-AreCandidates seen h hits (ok cs) apart unseen (d, u, within) =
      elim (CawResult-cases (md.read_range h.stub.id config.default_range)) [
        | inl (f, e) ↦
            let same : f.stub_id ≡ h.stub.id = r.reads h.stub.id config.default_range f e in
            rw e (
              rw same (
                (within h.stub.id apart, d),
                (unseen, u),
                λ k. has_key-cons h.stub.id k (hit_ids hits) (ids_of (read cs)) (within k),
              ))
        | inr (x, e) ↦ rw e tt
      ]

  skipped-AreCandidates :
      (seen : StrSet) (h : ScoredStub F) (hits : List (ScoredStub F))
      (rest : CawResult (List (RecallFragment × F)))
      → AreCandidates seen hits rest
      → AreCandidates seen (h ∷ hits) rest
  unfolding AreCandidates
  skipped-AreCandidates seen h hits (err e) a = tt
  skipped-AreCandidates seen h hits (ok cs) (d, u, within) =
      (d, u, λ k absent. within k (ground arith))

  candidates_of-AreCandidates :
      (seen : StrSet) (hits : List (ScoredStub F))
      → IsDistinct (hit_ids hits)
      → AreCandidates seen hits (candidates_of md config seen hits)
  unfolding candidates_of AreCandidates IsDistinct
  candidates_of-AreCandidates seen [] d = (tt, tt, λ k h. refl)
  candidates_of-AreCandidates seen (h ∷ hits) (apart, d) =
      let rest = candidates_of-AreCandidates seen hits d in
      elim (Bool-cases (fl.le config.thresholds.load h.score && not (seen h.stub.id))) [
        | inl e ↦ rw e (
            with_score-AreCandidates seen h hits (candidates_of md config seen hits) apart
              (ground arith) rest)
        | inr e ↦ rw e (skipped-AreCandidates seen h hits (candidates_of md config seen hits) rest)
      ]

  module _ {S : Type 0} (sch : BudgetScheduler F S) (before : List RecallFragment) where
    schedule_candidates-IsOnce :
        (cs : List (RecallFragment × F)) (w : Workspace S)
        → IsDistinct (ids_of (read cs))
        → Unseen w.seen (read cs)
        → IsOnce before w
        → IsOnce before (schedule_candidates md config sch cs w).1
    unfolding schedule_candidates
    schedule_candidates-IsOnce cs w d u o =
        let (kept, e, old, new) = sch.part w.scheduler (input_of md config sch cs w) in
        let done =
          record_admitted-IsOnce before _ w (part-IsDistinct _ (read cs) new d)
            (Sublistᴰ-All _ _ (read cs) new u) o in
        record {
          new = done.new;
          recorded = done.recorded;
          distinct = done.distinct;
          seen = done.seen;
        }

    from_search :
        (hits : List (ScoredStub F)) (w : Workspace S) (a : CawResult (List (RecallFragment × F)))
        → AreCandidates w.seen hits a
        → IsOnce before w
        → IsOnce before (then_do (a, w) (some_candidates md config sch)).1
    unfolding AreCandidates
    from_search hits w (err e) a o = o
    from_search hits w (ok []) a o = o
    from_search hits w (ok (c ∷ cs)) (d, u, within) o = schedule_candidates-IsOnce (c ∷ cs) w d u o

    do_recall-IsOnce :
        (query : Text) (w : Workspace S)
        → IsOnce before w
        → IsOnce before (do_recall md config sch query w).1
    unfolding do_recall search_for
    do_recall-IsOnce query w o = elim (CawResult-cases (md.search query config.max_candidates)) [
      | inl (hits, e) ↦
          rw (do_recall, search_for, e)
            (from_search hits w (candidates_of md config w.seen hits)
              (candidates_of-AreCandidates w.seen hits
                (r.distinct query config.max_candidates hits e))
              o)
      | inr (x, e) ↦ rw (do_recall, search_for, e) o
    ]

    think-IsOnce :
        (stream : Thinking) (any : Bool) (w : Workspace S)
        → IsOnce before w
        → IsOnce before (think md config sch stream any w).1
    unfolding think
    think-IsOnce (finished res) any w o = o
    think-IsOnce (shows step continue) any w o =
        let (res, after) = do_recall md config sch step w in
        think-IsOnce (continue (go_on res)) (any || is_new res) after (do_recall-IsOnce step w o)

    asked-IsOnce : (w : Workspace S) → IsOnce before w → IsOnce before (asked w)
    asked-IsOnce w o = record {
      new = o.new;
      recorded = o.recorded;
      distinct = o.distinct;
      seen = o.seen;
    }

    restarted-IsOnce :
        (again : Action S (Unit {0})) (a : (CawResult CompletionResponse × Bool) × Workspace S)
        → Keeps (IsOnce before) again
        → IsOnce before a.1
        → IsOnce before (restarted again a).1
    restarted-IsOnce again ((err e, any), w) h o = o
    restarted-IsOnce again ((ok resp, true), w) h o = h w o
    restarted-IsOnce again ((ok resp, false), w) h o = o

    think_loop-IsOnce :
        (left : ℕ) (system user : Text)
        → Keeps (IsOnce before) (think_loop md config sch left system user)
    unfolding think_loop
    think_loop-IsOnce zero system user w o = o
    think_loop-IsOnce (suc left) system user w o =
        let stream = md.thinking_with_steps w.calls (request system user w.loaded) in
        restarted-IsOnce (think_loop md config sch left system user)
          (think md config sch stream false (asked w)) (think_loop-IsOnce left system user)
          (think-IsOnce stream false (asked w) (asked-IsOnce w o))

    when-IsOnce :
        (b : Bool) (m : Action S (Unit {0}))
        → Keeps (IsOnce before) m
        → Keeps (IsOnce before) (when b m)
    when-IsOnce true m h w o = h w o
    when-IsOnce false m h w o = o

  -- If a search returns a stub at most once, and what is read of a stub is of that stub, then a turn
  -- of `RecallOrchestrator` admits no stub twice, also over its restarts, when the scheduler evicts a
  -- stub in between, and when the turn ends with an error: the provenance grows by fragments with
  -- distinct ids, and these ids are what was seen.
  pub run_turn-IsOnce :
      {S : Type 0} (sch : BudgetScheduler F S) (system user : Text) (w : Workspace S)
      → IsOnce w.provenance (run_turn md config sch system user w).1
  unfolding run_turn ask IsDistinct
  run_turn-IsOnce sch system user w =
      bind-Keeps (IsOnce w.provenance) (do_recall md config sch user >>= _) _
        (bind-Keeps (IsOnce w.provenance) (do_recall md config sch user) _
          (do_recall-IsOnce sch w.provenance user)
          (λ new.
            when-IsOnce sch w.provenance md.supports_visible_reasoning _
              (think_loop-IsOnce sch w.provenance config.max_iterations system user)))
        (λ u. asked-IsOnce sch w.provenance) (record w { seen = no_keys })
        (record { new = []; recorded = sym (append-nil _); distinct = tt; seen = λ id. refl })
