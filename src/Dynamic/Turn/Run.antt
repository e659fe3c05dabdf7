-- ===== src/Dynamic/Turn/Run.antt =====
-- `run_turn` of crates/caw-orchestrator/src/dynamic.rs.
pub mod Bounded
use opencaw.Prelude.{
  ◌+◌, Bool, true, false, not, ◌&&◌, ◌||◌, String, Option, none, some, List, [], ◌∷◌, ◌++◌, ltb,
  ◌==◌, if◌then◌else◌, length, filter_b,
}
use opencaw.Prelude.Float.{Float}
use opencaw.Core.{Text, CawError, CawResult, ok, err, RecallFragment}
use opencaw.Text.{ascii}
use opencaw.Degradation.{DegradationMonitor, should_generate_stubs}
use opencaw.Dynamic.{new, DynamicRecallConfig, stub, full}
use opencaw.Dynamic.Load.{decay_relevance_scores, coverage_first_order}
use opencaw.Intent.{AugmentationSignals}
use opencaw.Dynamic.Turn.Models.{ScoredStub, CompletionRequest, CompletionResponse, Turn, Models}
use opencaw.Dynamic.Turn.Monad.{
  TurnResult, panics, done, Action, pure, fail, from_result, gets, on_self, ◌>>=◌, ◌>>◌,
}
use opencaw.Dynamic.Turn.Retry.{load, complete, complete_with_retry}
use opencaw.Dynamic.Turn.Signals.{trim_dot_slash, hits_of}
use opencaw.Dynamic.Turn.Hits.{
  asks, weigh_hits, above_threshold, distinct_above, candidate_list_fragment, mentioned_in,
}
use opencaw.Dynamic.Turn.Journal.{record_session}
use opencaw.Dynamic.Turn.Refine.{Query, Answers, whole_text, when, evict, request_of, refine}

module _ {F : Type 0} ⦃fl : Float F⦄ (md : Models F) where
  module _ (q : Query) (signals : Option AugmentationSignals) where
    abbrev pub retrieval_query : Text
    retrieval_query =
        if asks (λ s. s.is_inventory_request) signals
        then q.user ++ ascii " files paths artifacts names list"
        else q.user

    -- Many hits above a threshold, so that a list of the candidates is shown.
    pub shows_listing : DynamicRecallConfig F → List (ScoredStub F) → Bool
    shows_listing config hits =
        not (asks (λ s. s.wants_explanation) signals)
        && (ltb config.max_initial_fragments (above_threshold config.thresholds.load hits)
            || ltb config.max_initial_fragments (distinct_above config.thresholds.unload hits))

    abbrev list_threshold : DynamicRecallConfig F → List (ScoredStub F) → F
    list_threshold config hits =
        if ltb config.max_initial_fragments (above_threshold config.thresholds.load hits)
        then config.thresholds.load
        else config.thresholds.unload

    abbrev pub history_hits : List (List F) → Turn F → List (String × F)
    history_hits [] t = []
    history_hits (embedding ∷ rest) t =
        filter_b (λ h. elim (t.self.session_content h.0) [ none ↦ false | some c ↦ true ])
          (md.search_index t.index embedding t.self.config.max_candidates)

    abbrev or_none : {A : Type 0} → CawResult (List A) → List A
    or_none (ok xs) = xs
    or_none (err e) = []

    -- An embedding that fails is passed over. A session without contents has no hits.
    pub recall_session : Action F (Unit {0})
    recall_session t =
        let hits = history_hits (or_none (md.embed_query q.user).1) t in
        if length hits == 0 then pure tt t else load md hits stub t

    -- The candidates that are listed, or none after their fragments were loaded.
    pub first_recall : List (ScoredStub F) → Action F (List (ScoredStub F))
    first_recall hits t =
        if shows_listing t.self.config hits
        then pure hits t
        else (load md (hits_of (coverage_first_order (λ h. h.stub.path) hits)) stub >> pure []) t

    abbrev extra_fragment : List (ScoredStub F) → Turn F → List RecallFragment
    extra_fragment hits t =
        if shows_listing t.self.config hits
        then candidate_list_fragment md hits (list_threshold t.self.config hits) ∷ []
        else []

    first_request : List (ScoredStub F) → Turn F → CompletionRequest
    first_request hits t = record {
      system = q.system_prompt;
      user = q.user;
      workspace_fragments = t.self.loaded ++ extra_fragment hits t;
      workspace_guidance = q.guidance;
    }

    -- A degenerate second answer leaves the first one.
    abbrev or_first :
        CompletionResponse
        → CompletionResponse × Option CawError
        → CompletionResponse × Option CawError
    or_first first (resp, none) = (resp, none)
    or_first first (resp, some e) = (first, some e)

    abbrev second_answer :
        CompletionResponse → List (ScoredStub F) → Action F (CompletionResponse × Option CawError)
    second_answer first [] t = pure (first, none) t
    second_answer first (h ∷ hits) t =
        (load md (hits_of (h ∷ hits)) full
            >> (λ t. complete_with_retry md (request_of md q q.system_prompt t) false t)
            >>= λ r. pure (or_first first r))
          t

    -- The files that the answer mentions are loaded, and the model is asked again.
    pub ground_answer :
        List (ScoredStub F)
        → CompletionResponse × Option CawError
        → Action F (CompletionResponse × Option CawError)
    ground_answer listed (first, some e) t = pure (first, some e) t
    ground_answer listed (first, none) t =
        second_answer first
          (mentioned_in md trim_dot_slash (whole_text first) t.self.config.thresholds.load listed) t

    -- The turn is recorded also when its answer is degenerate.
    pub finish : Answers → Action F CompletionResponse
    unfolding record_session
    finish a t =
        let answer = md.strip_markers a.last_response.answer in
        let recorded = record_session md q a answer t in
        let told = record recorded {
          told_turns = recorded.told_turns ++ (md.services.count_tokens answer ∷ []);
        } in
        elim a.degenerate_err [
          | none ↦ pure (record a.last_response { answer = answer }) told
          | some e ↦ fail e told
        ]

    -- The two steps before the first retrieval.
    pub prepare : Action F (Unit {0})
    prepare = do
      resident ← gets (λ t. not (length t.self.loaded == 0))
      when resident (on_self decay_relevance_scores >> evict md q)

    -- The first completion, with the hits that were weighed.
    pub first_answer : List (ScoredStub F) → Action F (CompletionResponse × Option CawError)
    unfolding first_recall first_request ground_answer
    first_answer hits = do
      recall_session
      listed ← first_recall hits
      req ← gets (first_request hits)
      first ← complete_with_retry md req md.capabilities.supports_passive_injection
      ground_answer listed first

    pub augmented_turn : Action F CompletionResponse
    unfolding prepare first_answer finish
    augmented_turn = do
      prepare
      k ← gets (λ t. t.self.config.max_candidates)
      hits ← from_result (md.search retrieval_query k)
      first ← first_answer (weigh_hits md signals q.user hits)
      answers ← refine md q first.0 first.1
      finish answers

  abbrev stub_generation_enabled : Turn F → Bool
  stub_generation_enabled t = elim t.degradation_monitor [
    | none ↦ true
    | some m ↦ should_generate_stubs m
  ]

  pub run_turn : Text → Text → List Text → Option AugmentationSignals → Action F CompletionResponse
  unfolding augmented_turn
  run_turn system user guidance signals t =
      if stub_generation_enabled t
      then augmented_turn
          (record {
            system_prompt = md.system_prompt system;
            user = user;
            guidance = guidance;
            wants_latest = asks (λ s. s.wants_latest_run_only) signals;
          })
          signals t
      else complete md
          (record {
            system = system;
            user = user;
            workspace_fragments = [];
            workspace_guidance = guidance;
          })
          t

-- The arguments of `run_turn`.
pub record TurnInput : Type 0 where
  pub system : Text
  pub user : Text
  pub guidance : List Text
  pub signals : Option AugmentationSignals

abbrev pub new_turn : {F : Type 0} → DynamicRecallConfig F → Option (DegradationMonitor F) → Turn F
new_turn config monitor = record {
  self = new config;
  degradation_monitor = monitor;
  index = [];
  session_turn = 0;
  calls = 0;
  told_probes = [];
  told_annotations = [];
  told_turns = [];
}

-- `none` is a panic.
abbrev pub state_of : {F : Type 0} {A : Type 0} → TurnResult F A → Option (Turn F)
state_of panics = none
state_of (done r t) = some t

module _ {F : Type 0} ⦃fl : Float F⦄ (md : Models F) where
  -- The latest turn first. A turn that returns an error is followed by the next one.
  pub after_turns : List TurnInput → Turn F → Option (Turn F)
  unfolding run_turn
  after_turns [] t = some t
  after_turns (input ∷ older) t = elim (after_turns older t) [
    | none ↦ none
    | some before ↦
        state_of (run_turn md input.system input.user input.guidance input.signals before)
  ]
