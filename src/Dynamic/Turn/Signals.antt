-- ===== src/Dynamic/Turn/Signals.antt =====
-- What a turn reads out of an answer, in crates/caw-orchestrator/src/dynamic.rs:
-- `process_thinking_trace`, `process_probes`, `process_line_references` and `process_annotations`.
pub mod Bounded
pub mod Known
use opencaw.Prelude.{
  ℕ, ◌+◌, Bool, true, false, ◌&&◌, ◌||◌, String, Option, none, some, List, [], ◌∷◌, ◌++◌, map, ltb,
  leb, ◌==◌, if◌then◌else◌, length, any_b, add_key, put_entry,
}
use opencaw.Prelude.Float.{Float}
use opencaw.Core.{Text, CawResult, ok, err, RecallFragment, model_annotation, total_tokens}
use opencaw.Text.{ascii, ends_with}
use opencaw.Text.Format.{decimal}
use opencaw.Degradation.{
  DegradationMonitor, monitor_probe_at, record_embedding_call, should_auto_recall,
}
use opencaw.Dynamic.{Orchestrator, stub, full, is_history}
use opencaw.Dynamic.Load.{count_of, is_stub_of, upgrade_stub_to_body}
use opencaw.Dynamic.Turn.Models.{ScoredStub, LineReference, ModelAnnotation, Turn, Models}
use opencaw.Dynamic.Turn.Monad.{done, Action, pure, from_result, gets, modify, on_self, ◌>>=◌, ◌>>◌}
use opencaw.Dynamic.Turn.Retry.{load}

-- `s.trim_start_matches("./")`
pub trim_dot_slash : Text → Text
trim_dot_slash [] = []
trim_dot_slash (b ∷ []) = b ∷ []
trim_dot_slash (b ∷ c ∷ s) =
    let rest = trim_dot_slash s in if (b == 46) && (c == 47) then rest else b ∷ c ∷ s

-- One of the two is the end of the other.
abbrev pub names_source : Text → Text → Bool
names_source hint path = let src = trim_dot_slash path in ends_with src hint || ends_with hint src

abbrev pub hits_of : {F : Type 0} → List (ScoredStub F) → List (String × F)
hits_of {F} = map {B = String × F} (λ h. (h.stub.id, h.score))

module _ {F : Type 0} ⦃fl : Float F⦄ (md : Models F) where
  -- The turn's history: `vector_index.search(embedding)` for the first embedding, if there is one.
  abbrev search_history : List (List F) → Action F (Unit {0})
  search_history [] t = pure tt t
  search_history (embedding ∷ rest) t =
      load md (md.search_index t.index embedding t.self.config.max_candidates) stub t

  abbrev pub monitored : (DegradationMonitor F → DegradationMonitor F) → Turn F → Turn F
  monitored f t = record t {
    degradation_monitor = elim t.degradation_monitor [ none ↦ none | some m ↦ some (f m) ];
  }

  abbrev is_ok : {A : Type 0} → CawResult A → Bool
  is_ok (ok a) = true
  is_ok (err e) = false

  embed_history : Text → Action F (List (List F))
  embed_history content =
      let (latency_ms, embedded) = md.embed_query content in
      modify (monitored (record_embedding_call latency_ms (is_ok embedded))) >> from_result embedded

  recall_history : Text → Action F (Unit {0})
  unfolding embed_history
  recall_history content t =
      if length t.index == 0 then pure tt t else (embed_history content >>= search_history) t

  -- Of one step that is no shorter than 20 bytes.
  recall_step : Text → Action F (Unit {0})
  unfolding recall_history
  recall_step content = do
    k ← gets (λ t. t.self.config.max_candidates)
    hits ← from_result (md.search content k)
    load md (hits_of hits) stub
    recall_history content

  pub process_steps : List Text → Action F (Unit {0})
  unfolding recall_step
  process_steps [] = pure tt
  process_steps (content ∷ steps) =
      let rest = process_steps steps in
      if ltb (length content) 20 then rest else recall_step content >> rest

  pub process_thinking_trace : Text → Action F (Unit {0})
  unfolding process_steps
  process_thinking_trace output = process_steps (md.extract_thinking_steps output)

  -- Without a monitor every probe is seen to.
  abbrev pub still_recalls : Turn F → Bool
  still_recalls t = elim t.degradation_monitor [ none ↦ true | some m ↦ should_auto_recall m ]

  recall_probe : Text → Action F (Unit {0})
  recall_probe content = do
    loaded_before ← gets (λ t. length t.self.loaded)
    k ← gets (λ t. t.self.config.max_candidates)
    hits ← from_result (md.search content k)
    load md (hits_of hits) full
    modify λ t. record t {
      told_probes = t.told_probes ++ ((content, ltb loaded_before (length t.self.loaded)) ∷ []);
    }

  -- `count` is how many probes were recorded before.
  pub probe_loop : ℕ → List Text → Action F (Unit {0})
  unfolding recall_probe
  probe_loop count [] = pure tt
  probe_loop count (content ∷ probes) =
      let rest = probe_loop (count + 1) probes in
      modify (monitored (monitor_probe_at (md.clock count)))
      >> (λ t. if still_recalls t then (recall_probe content >> rest) t else pure tt t)

  pub process_probes : Text → Action F (Unit {0})
  unfolding probe_loop
  process_probes output t = probe_loop (length t.told_probes) (md.extract_probes output) t

  -- The id that a reference is resolved to.
  pub find_loaded : Text → List RecallFragment → Option String
  find_loaded hint [] = none
  find_loaded hint (f ∷ fs) =
      let later = find_loaded hint fs in
      if names_source hint (md.services.bytes f.locator.source) then some f.stub_id else later

  pub find_hit : Text → List (ScoredStub F) → Option String
  find_hit hint [] = none
  find_hit hint (h ∷ hits) =
      let later = find_hit hint hits in
      if names_source hint (md.services.bytes h.stub.path) then some h.stub.id else later

  pub resolve : Text → Action F (Option String)
  unfolding find_loaded find_hit
  resolve hint t = elim (find_loaded hint t.self.loaded) [
    | some id ↦ pure (some id) t
    | none ↦ elim (md.search hint 5) [
      | err e ↦ done (err e) t
      | ok hits ↦ pure (find_hit hint hits) t
    ]
  ]

  abbrev pub line_range : LineReference → String
  line_range r =
      md.text_of (
        if r.start == r.end then decimal r.start else decimal r.start ++ ascii "-" ++ decimal r.end)

  -- A range that was read. It gets no relevance score.
  pub admit_range : String → CawResult RecallFragment → Orchestrator F → Orchestrator F
  admit_range id (err e) self = self
  admit_range id (ok f) self =
      let source = f.locator.source in
      if leb (total_tokens self.loaded + f.tokens) self.config.max_workspace_tokens
      then record self {
        loaded_ids = add_key id self.loaded_ids;
        loaded_source_counts =
            if is_history f
            then self.loaded_source_counts
            else put_entry source (count_of self source + 1) self.loaded_source_counts;
        provenance = self.provenance ++ (f ∷ []);
        loaded = self.loaded ++ (f ∷ []);
      }
      else self

  pub upgrade_if_stub : String → String → Orchestrator F → Orchestrator F
  upgrade_if_stub id range self =
      if any_b (is_stub_of id) self.loaded
      then upgrade_stub_to_body md.services id range self.config.thresholds.load self
      else self

  -- `rest` is the references that follow, which are left out when the workspace is full.
  pub place_reference : String → String → Action F (Unit {0}) → Action F (Unit {0})
  unfolding admit_range upgrade_if_stub
  place_reference id range rest t =
      if t.self.loaded_ids id
      then (on_self (upgrade_if_stub id range) >> rest) t
      else if leb t.self.config.max_loaded_fragments (length t.self.loaded)
      then pure tt t
      else (on_self (admit_range id (md.services.read_range id range)) >> rest) t

  abbrev pub if_found : Option String → String → Action F (Unit {0}) → Action F (Unit {0})
  if_found none range rest = rest
  if_found (some id) range rest = place_reference id range rest

  pub reference_loop : List LineReference → Action F (Unit {0})
  unfolding resolve place_reference
  reference_loop [] = pure tt
  reference_loop (r ∷ refs) =
      let rest = reference_loop refs in
      resolve r.source_hint >>= (λ id. if_found id (line_range r) rest)

  pub process_line_references : Text → Action F (Unit {0})
  unfolding reference_loop
  process_line_references text = reference_loop (md.extract_line_references text)

  -- The evaluator is told, and the note is persisted.
  pub annotate : ModelAnnotation → Turn F → Turn F
  annotate ann t = record t {
    told_annotations = t.told_annotations ++ ((ann.stub_id, ann.content) ∷ []);
    self = record t.self {
      consolidations =
          t.self.consolidations
          ++ ((
            ann.stub_id,
            record {
              content = ann.content;
              source = model_annotation;
              created_at_secs = md.consolidator.timestamp (length t.self.consolidations);
            },
          )
              ∷ []);
    };
  }

  pub annotate_all : List ModelAnnotation → Turn F → Turn F
  unfolding annotate
  annotate_all [] t = t
  annotate_all (ann ∷ anns) t = annotate_all anns (annotate ann t)

  pub process_annotations : Text → Turn F → Turn F
  unfolding annotate_all
  process_annotations output t = annotate_all (md.extract_annotations output) t
