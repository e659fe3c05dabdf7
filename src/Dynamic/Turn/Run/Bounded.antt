-- ===== src/Dynamic/Turn/Run/Bounded.antt =====
-- A whole turn does not panic and keeps the invariant of the workspace, in its lax form.
use opencaw.Prelude.{
  ℕ, ◌+◌, ◌≡◌, refl, inl, inr, true, false, not, String, Option, none, some, List, [], ◌∷◌, ◌==◌,
  length, Bool-cases, Option-cases,
}
use opencaw.Prelude.Float.{Float}
use opencaw.Core.{Text, CawError, CawResult, ok, err}
use opencaw.Degradation.{DegradationMonitor}
use opencaw.Dynamic.{DynamicRecallConfig, new, stub, full}
use opencaw.Dynamic.Load.{decay_relevance_scores, coverage_first_order}
use opencaw.Dynamic.Load.Invariant.{IsRetriever, IsWorkspace}
use opencaw.Dynamic.Load.Steps.{decay-IsWorkspace, empty-IsWorkspace}
use opencaw.Intent.{AugmentationSignals}
use opencaw.Dynamic.Turn.Models.{ScoredStub, CompletionResponse, Turn, Models}
use opencaw.Dynamic.Turn.Monad.{
  TurnResult, panics, done, Action, pure, from_result, on_self, ◌>>=◌, ◌>>◌, Ends, Keeps,
  bind-Keeps,
}
use opencaw.Dynamic.Turn.Retry.{load, complete_with_retry}
use opencaw.Dynamic.Turn.Retry.Bounded.{
  IsBounded, carried-IsWorkspace, load-Keeps, complete-Keeps, complete_with_retry-Keeps,
}
use opencaw.Dynamic.Turn.Signals.{trim_dot_slash, hits_of}
use opencaw.Dynamic.Turn.Hits.{weigh_hits, mentioned_in}
use opencaw.Dynamic.Turn.Refine.{Query, Answers, whole_text, evict, request_of, refine}
use opencaw.Dynamic.Turn.Refine.Bounded.{when-Keeps, evict-Keeps, refine-Keeps}
use opencaw.Dynamic.Turn.Run.{
  retrieval_query, shows_listing, history_hits, or_none, recall_session, first_recall,
  first_request, or_first, second_answer, ground_answer, TurnInput, state_of, new_turn, after_turns,
  finish, prepare, first_answer, augmented_turn, stub_generation_enabled, run_turn,
}
use opencaw.Dynamic.Turn.Journal.{session_text, indexed, if_written, record_session}

module _ {F : Type 0} ⦃fl : Float F⦄ (source_of : String → String) (md : Models F)
    (r : IsRetriever md.services source_of) (quiet : md.checks_debug_lines ≡ false) where
  module _ (q : Query) (signals : Option AugmentationSignals) where
    recall_session-Keeps : Keeps (IsBounded source_of) (recall_session md q signals)
    unfolding recall_session
    recall_session-Keeps t w =
        let hits : List (String × F) =
          history_hits md q signals (or_none md q signals (md.embed_query q.user).1) t in
        elim (Bool-cases (length hits == 0)) [
          | inl e ↦ rw (recall_session, e) w
          | inr e ↦ rw (recall_session, e) (load-Keeps source_of md r hits stub t w)
        ]

    first_recall-Keeps :
        (hits : List (ScoredStub F)) → Keeps (IsBounded source_of) (first_recall md q signals hits)
    unfolding first_recall
    first_recall-Keeps hits t w =
        elim (Bool-cases (shows_listing md q signals t.self.config hits)) [
          | inl e ↦ rw (first_recall, e) w
          | inr e ↦
              let ordered = hits_of (coverage_first_order (λ h. h.stub.path) hits) in
              rw (first_recall, e)
                (bind-Keeps (IsBounded source_of) (load md ordered stub)
                  (λ u. pure {A = List (ScoredStub F)} []) (load-Keeps source_of md r ordered stub)
                  (λ u t w. w) t w)
        ]

    second_answer-Keeps :
        (first : CompletionResponse) (hits : List (ScoredStub F))
        → Keeps (IsBounded source_of) (second_answer md q signals first hits)
    second_answer-Keeps first [] t w = w
    second_answer-Keeps first (h ∷ hits) t w =
        let loads = load md (hits_of (h ∷ hits)) full in
        let asks_again : Action F (CompletionResponse × Option CawError) =
          λ t. complete_with_retry md (request_of md q q.system_prompt t) false t in
        bind-Keeps (IsBounded source_of) (loads >> asks_again)
          (λ o. pure (or_first md q signals first o))
          (bind-Keeps (IsBounded source_of) loads (λ u. asks_again)
            (load-Keeps source_of md r (hits_of (h ∷ hits)) full)
            (λ u t w. complete_with_retry-Keeps source_of md r _ false t w))
          (λ o t w. w) t w

    ground_answer-Keeps :
        (listed : List (ScoredStub F)) (o : CompletionResponse × Option CawError)
        → Keeps (IsBounded source_of) (ground_answer md q signals listed o)
    unfolding ground_answer
    ground_answer-Keeps listed (first, some e) t w = w
    ground_answer-Keeps listed (first, none) t w =
        second_answer-Keeps first
          (mentioned_in md trim_dot_slash (whole_text first) t.self.config.thresholds.load listed) t
          w

    indexed-IsBounded :
        (path : Text) (turn : ℕ) (embedded : CawResult (List (List F))) (t : Turn F)
        → IsBounded source_of t
        → IsBounded source_of (indexed md q path turn embedded t)
    indexed-IsBounded path turn (err e) t w = w
    indexed-IsBounded path turn (ok []) t w = w
    indexed-IsBounded path turn (ok (embedding ∷ rest)) t w =
        carried-IsWorkspace source_of t.self t.self.relevance_scores _ t.self.consolidations w

    written-IsBounded :
        (o : CawResult {0} Unit) (failed written : Turn F)
        → IsBounded source_of failed
        → IsBounded source_of written
        → IsBounded source_of (if_written md q o failed written)
    written-IsBounded (err e) failed written f w = f
    written-IsBounded (ok u) failed written f w = w

    record_session-IsBounded :
        (a : Answers) (answer : Text) (t : Turn F)
        → IsBounded source_of t
        → IsBounded source_of (record_session md q a answer t)
    unfolding record_session
    record_session-IsBounded a answer t w = elim (Option-cases md.session_path) [
      | inl e ↦ rw (record_session, e) w
      | inr (path, e) ↦
          let turn = t.session_turn + 1 in
          let text = session_text md q a turn answer in
          let counted : Turn F = record t { session_turn = turn } in
          rw (record_session, e)
            (written-IsBounded (md.append_to_session text) counted
              (indexed md q path turn (md.embed_document text) counted) w
              (indexed-IsBounded path turn (md.embed_document text) counted w))
    ]

    finish-Keeps : (a : Answers) → Keeps (IsBounded source_of) (finish md q signals a)
    unfolding finish
    finish-Keeps a t w =
        let answer = md.strip_markers a.last_response.answer in
        let recorded = record_session-IsBounded a answer t w in
        elim (Option-cases a.degenerate_err) [
          | inl e ↦ rw (finish, e) recorded
          | inr (failure, e) ↦ rw (finish, e) recorded
        ]

    prepare-Keeps : Keeps (IsBounded source_of) (prepare md q signals)
    unfolding prepare
    prepare-Keeps t w =
        when-Keeps source_of (not (length t.self.loaded == 0))
          (on_self decay_relevance_scores >> evict md q)
          (λ t w. evict-Keeps source_of md q r _ (decay-IsWorkspace true source_of t.self w)) t w

    first_answer-Keeps :
        (hits : List (ScoredStub F)) → Keeps (IsBounded source_of) (first_answer md q signals hits)
    unfolding first_answer
    first_answer-Keeps hits t w =
        bind-Keeps (IsBounded source_of) (recall_session md q signals) _ recall_session-Keeps
          (λ u.
            bind-Keeps (IsBounded source_of) (first_recall md q signals hits) _
              (first_recall-Keeps hits)
              (λ listed t w.
                bind-Keeps (IsBounded source_of)
                  (complete_with_retry md (first_request md q signals hits t)
                    md.capabilities.supports_passive_injection)
                  _ (complete_with_retry-Keeps source_of md r _ _) (ground_answer-Keeps listed) t
                  w))
          t w

    answered-Keeps :
        (hits : List (ScoredStub F))
        → Keeps (IsBounded source_of) (
            first_answer md q signals (weigh_hits md signals q.user hits) >>= λ first.
            refine md q first.0 first.1 >>= finish md q signals)
    answered-Keeps hits =
        bind-Keeps (IsBounded source_of) _ _
          (first_answer-Keeps (weigh_hits md signals q.user hits))
          (λ first.
            bind-Keeps (IsBounded source_of) (refine md q first.0 first.1) (finish md q signals)
              (refine-Keeps source_of md q r quiet first.0 first.1) finish-Keeps)

    augmented_turn-Keeps : Keeps (IsBounded source_of) (augmented_turn md q signals)
    unfolding augmented_turn
    augmented_turn-Keeps t w =
        bind-Keeps (IsBounded source_of) (prepare md q signals) _ prepare-Keeps
          (λ u t w.
            searched (md.search (retrieval_query md q signals) t.self.config.max_candidates) t w)
          t w
      where
        searched :
            (o : CawResult (List (ScoredStub F))) (t : Turn F)
            → IsBounded source_of t
            → Ends
                (λ r. IsBounded source_of)
                ((from_result o >>= λ hits.
                    first_answer md q signals (weigh_hits md signals q.user hits) >>= λ first.
                    refine md q first.0 first.1 >>= finish md q signals)
                  t)
        searched (err e) t w = w
        searched (ok hits) t w = answered-Keeps hits t w

  run_turn-Keeps :
      (system user : Text) (guidance : List Text) (signals : Option AugmentationSignals)
      → Keeps (IsBounded source_of) (run_turn md system user guidance signals)
  unfolding run_turn
  run_turn-Keeps system user guidance signals t w =
      elim (Bool-cases (stub_generation_enabled md t)) [
        | inl e ↦ rw (run_turn, e) (augmented_turn-Keeps _ signals t w)
        | inr e ↦ rw (run_turn, e) (complete-Keeps source_of md r _ t w)
      ]

  state-IsBounded :
      (o : TurnResult F CompletionResponse)
      → Ends (λ a. IsBounded source_of) o
      → (after : Turn F) × (state_of o ≡ some after) × IsBounded source_of after
  state-IsBounded panics h = absurd h
  state-IsBounded (done a t) h = (t, refl, h)

  -- From a new orchestrator, with a monitor of degradation or without, every sequence of turns runs
  -- without a panic, whatever the model answers and whichever turns return an error. Afterwards the
  -- workspace is within its token budget and its number of fragments, the set of ids is that of the
  -- loaded fragments, which are distinct, and the map counts the fragments of each source. The
  -- retriever must answer with the fragment that it is asked for, from the one source of that stub,
  -- and the program must not run as a build that panics on overflow and evaluates its debug lines,
  -- one of which subtracts the numbers of fragments.
  pub after_turns-IsBounded :
      (turns : List TurnInput) (config : DynamicRecallConfig F)
      (monitor : Option (DegradationMonitor F))
      → (after : Turn F) × (after_turns md turns (new_turn config monitor) ≡ some after)
        × IsWorkspace true source_of after.self
  unfolding after_turns
  after_turns-IsBounded [] config monitor = (
    new_turn config monitor,
    refl,
    empty-IsWorkspace true source_of (new config) refl (λ id. refl) (λ source. refl),
  )
  after_turns-IsBounded (input ∷ older) config monitor =
      let (before, e, w) = after_turns-IsBounded older config monitor in
      let (after, e', w') =
        state-IsBounded (run_turn md input.system input.user input.guidance input.signals before)
          (run_turn-Keeps input.system input.user input.guidance input.signals before w) in
      (after, rw (after_turns, e) e', w')
