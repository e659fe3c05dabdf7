-- ===== src/Dynamic/Turn/Signals/Bounded.antt =====
-- What a turn reads out of an answer keeps the invariant of the workspace, in its lax form: a fragment
-- of a line reference has no score, and does not respect the cap of its source.
use opencaw.Prelude.{
  ℕ, ◌+◌, ◌<◌, ◌≡◌, ◌∙◌, refl, sym, ap, inl, inr, true, false, String, Option, none, some, List, [],
  ◌∷◌, ◌++◌, arith, ltb, leb, ◌==◌, length, any_b, Bool-cases, Option-cases,
}
use opencaw.Prelude.Float.{Float}
use opencaw.Core.{Text, CawResult, ok, err, total_tokens, CawResult-cases}
use opencaw.Degradation.{monitor_probe_at}
use opencaw.Dynamic.{Orchestrator, stub, full}
use opencaw.Dynamic.Load.{is_stub_of, admit}
use opencaw.Dynamic.Load.Invariant.{IsRetriever, IsWorkspace}
use opencaw.Dynamic.Load.Upgrade.{upgrade-IsWorkspace}
use opencaw.Dynamic.Load.Admission.{admit-IsWorkspace}
use opencaw.Dynamic.Turn.Models.{ScoredStub, LineReference, ModelAnnotation, Turn, Models}
use opencaw.Dynamic.Turn.Monad.{Action, modify, from_result, ◌>>=◌, ◌>>◌, Ends, Keeps, bind-Keeps}
use opencaw.Dynamic.Turn.Retry.{load}
use opencaw.Dynamic.Turn.Retry.Bounded.{IsBounded, carried-IsWorkspace, load-Keeps}
use opencaw.Dynamic.Turn.Signals.{
  hits_of, search_history, embed_history, recall_history, recall_step, process_steps,
  process_thinking_trace, recall_probe, probe_loop, process_probes, resolve, find_loaded,
  line_range, admit_range, upgrade_if_stub, place_reference, if_found, monitored, still_recalls,
  reference_loop, process_line_references, annotate, annotate_all, process_annotations,
}

module _ {F : Type 0} ⦃fl : Float F⦄ (source_of : String → String) where
  module _ (md : Models F) (r : IsRetriever md.services source_of) where
    admit_range-IsWorkspace :
        (id range : String) (self : Orchestrator F)
        → IsWorkspace true source_of self
        → self.loaded_ids id ≡ false
        → length self.loaded < self.config.max_loaded_fragments
        → IsWorkspace true source_of (admit_range md id (md.services.read_range id range) self)
    unfolding admit_range
    admit_range-IsWorkspace id range self w absent room =
        elim (CawResult-cases (md.services.read_range id range)) [
          | inr (e, eq) ↦ rw (admit_range, eq) w
          | inl (f, eq) ↦
              let (own, from) = r id range f eq in
              elim (Bool-cases
                (leb (total_tokens self.loaded + f.tokens) self.config.max_workspace_tokens)) [
                  | inr large ↦ rw (admit_range, eq, large) w
                  | inl fits ↦
                      let admitted =
                        admit-IsWorkspace true source_of
                          (record { self = self; history_tokens = 0 }) id (fl.lit 0 1) f w absent
                          own (λ e. from ∙ ap source_of (sym own)) refl (ground arith) room in
                      rw (admit_range, eq, fits)
                        (unfold admit in
                          record {
                            ids = admitted.ids;
                            distinct = admitted.distinct;
                            scored = admitted.scored;
                            origin = admitted.origin;
                            budget = admitted.budget;
                            few = admitted.few;
                            counts = admitted.counts;
                            capped = admitted.capped;
                          })
                ]
        ]

    upgrade_if_stub-IsWorkspace :
        (id range : String) (self : Orchestrator F)
        → IsWorkspace true source_of self
        → IsWorkspace true source_of (upgrade_if_stub md id range self)
    unfolding upgrade_if_stub
    upgrade_if_stub-IsWorkspace id range self w =
        elim (Bool-cases (any_b (is_stub_of id) self.loaded)) [
          | inl there ↦
              rw (upgrade_if_stub, there)
                (upgrade-IsWorkspace true source_of md.services id range self.config.thresholds.load
                  self r w there)
          | inr away ↦ rw (upgrade_if_stub, away) w
        ]

    search_history-Keeps :
        (embeddings : List (List F)) → Keeps (IsBounded source_of) (search_history md embeddings)
    search_history-Keeps [] t w = w
    search_history-Keeps (e ∷ es) t w = load-Keeps source_of md r _ stub t w

    embed_history-Keeps : (content : Text) → Keeps (IsBounded source_of) (embed_history md content)
    unfolding embed_history
    embed_history-Keeps content t w = w

    recall_history-Keeps :
        (content : Text) → Keeps (IsBounded source_of) (recall_history md content)
    unfolding recall_history
    recall_history-Keeps content t w = elim (Bool-cases (length t.index == 0)) [
      | inl e ↦ rw (recall_history, e) w
      | inr e ↦
          rw (recall_history, e)
            (bind-Keeps (IsBounded source_of) (embed_history md content) (search_history md)
              (embed_history-Keeps content) search_history-Keeps t w)
    ]

    recall_step-Keeps : (content : Text) → Keeps (IsBounded source_of) (recall_step md content)
    unfolding recall_step
    recall_step-Keeps content t w = found (md.search content t.self.config.max_candidates)
      where
        found :
            (o : CawResult (List (ScoredStub F)))
            → Ends
                (λ r. IsBounded source_of)
                ((from_result o
                    >>= (λ hits. load md (hits_of hits) stub >> recall_history md content))
                  t)
        found (err e) = w
        found (ok hits) =
            bind-Keeps (IsBounded source_of) (load md (hits_of hits) stub) _
              (load-Keeps source_of md r (hits_of hits) stub) (λ u. recall_history-Keeps content) t
              w

    process_steps-Keeps : (steps : List Text) → Keeps (IsBounded source_of) (process_steps md steps)
    unfolding process_steps
    process_steps-Keeps [] t w = w
    process_steps-Keeps (content ∷ steps) t w = elim (Bool-cases (ltb (length content) 20)) [
      | inl e ↦ rw (process_steps, e) (process_steps-Keeps steps t w)
      | inr e ↦
          rw (process_steps, e)
            (bind-Keeps (IsBounded source_of) (recall_step md content) (λ u. process_steps md steps)
              (recall_step-Keeps content) (λ u. process_steps-Keeps steps) t w)
    ]

    pub process_thinking_trace-Keeps :
        (output : Text) → Keeps (IsBounded source_of) (process_thinking_trace md output)
    unfolding process_thinking_trace
    process_thinking_trace-Keeps output = process_steps-Keeps (md.extract_thinking_steps output)

    recall_probe-Keeps : (content : Text) → Keeps (IsBounded source_of) (recall_probe md content)
    unfolding recall_probe
    recall_probe-Keeps content t w = found (md.search content t.self.config.max_candidates)
      where
        told : ℕ → Turn F → Turn F
        told before t = record t {
          told_probes = t.told_probes ++ ((content, ltb before (length t.self.loaded)) ∷ []);
        }

        found :
            (o : CawResult (List (ScoredStub F)))
            → Ends
                (λ r. IsBounded source_of)
                ((from_result o >>= (λ hits.
                    load md (hits_of hits) full >> modify (told (length t.self.loaded))))
                  t)
        found (err e) = w
        found (ok hits) =
            bind-Keeps (IsBounded source_of) (load md (hits_of hits) full) _
              (load-Keeps source_of md r (hits_of hits) full) (λ u t w. w) t w

    probe_loop-Keeps :
        (count : ℕ) (probes : List Text) → Keeps (IsBounded source_of) (probe_loop md count probes)
    unfolding probe_loop
    probe_loop-Keeps count [] t w = w
    probe_loop-Keeps count (content ∷ probes) t w =
        let probed = monitored md (monitor_probe_at (md.clock count)) t in
        elim (Bool-cases (still_recalls md probed)) [
          | inl e ↦
              rw (probe_loop, e)
                (bind-Keeps (IsBounded source_of) (recall_probe md content)
                  (λ u. probe_loop md (count + 1) probes) (recall_probe-Keeps content)
                  (λ u. probe_loop-Keeps (count + 1) probes) probed w)
          | inr e ↦ rw (probe_loop, e) w
        ]

    pub process_probes-Keeps :
        (output : Text) → Keeps (IsBounded source_of) (process_probes md output)
    unfolding process_probes
    process_probes-Keeps output t w =
        probe_loop-Keeps (length t.told_probes) (md.extract_probes output) t w

    resolve-Keeps : (hint : Text) → Keeps (IsBounded source_of) (resolve md hint)
    unfolding resolve
    resolve-Keeps hint t w = elim (Option-cases (find_loaded md hint t.self.loaded)) [
      | inr (id, e) ↦ rw (resolve, e) w
      | inl e ↦ elim (CawResult-cases (md.search hint 5)) [
        | inl (hits, e') ↦ rw (resolve, e, e') w
        | inr (failure, e') ↦ rw (resolve, e, e') w
      ]
    ]

    place_reference-Keeps :
        (id range : String) (rest : Action F (Unit {0}))
        → Keeps (IsBounded source_of) rest
        → Keeps (IsBounded source_of) (place_reference md id range rest)
    unfolding place_reference
    place_reference-Keeps id range rest h t w = elim (Bool-cases (t.self.loaded_ids id)) [
      | inl there ↦
          rw (place_reference, there) (h _ (upgrade_if_stub-IsWorkspace id range t.self w))
      | inr away ↦
          elim (Bool-cases (leb t.self.config.max_loaded_fragments (length t.self.loaded))) [
            | inl many ↦ rw (place_reference, away, many) w
            | inr few ↦
                rw (place_reference, away, few)
                  (h _ (admit_range-IsWorkspace id range t.self w away (ground arith)))
          ]
    ]

    if_found-Keeps :
        (found : Option String) (range : String) (rest : Action F (Unit {0}))
        → Keeps (IsBounded source_of) rest
        → Keeps (IsBounded source_of) (if_found md found range rest)
    if_found-Keeps none range rest h = h
    if_found-Keeps (some id) range rest h = place_reference-Keeps id range rest h

    reference_loop-Keeps :
        (refs : List LineReference) → Keeps (IsBounded source_of) (reference_loop md refs)
    unfolding reference_loop
    reference_loop-Keeps [] t w = w
    reference_loop-Keeps (ref ∷ refs) t w =
        bind-Keeps (IsBounded source_of) (resolve md ref.source_hint) _
          (resolve-Keeps ref.source_hint)
          (λ found.
            if_found-Keeps found (line_range md ref) (reference_loop md refs)
              (reference_loop-Keeps refs))
          t w

    pub process_line_references-Keeps :
        (text : Text) → Keeps (IsBounded source_of) (process_line_references md text)
    unfolding process_line_references
    process_line_references-Keeps text = reference_loop-Keeps (md.extract_line_references text)

    annotate_all-IsBounded :
        (anns : List ModelAnnotation) (t : Turn F)
        → IsBounded source_of t
        → IsBounded source_of (annotate_all md anns t)
    unfolding annotate_all annotate
    annotate_all-IsBounded [] t w = w
    annotate_all-IsBounded (ann ∷ anns) t w =
        annotate_all-IsBounded anns (annotate md ann t)
          (carried-IsWorkspace source_of t.self t.self.relevance_scores t.self.session_content _ w)

    pub process_annotations-IsBounded :
        (output : Text) (t : Turn F)
        → IsBounded source_of t
        → IsBounded source_of (process_annotations md output t)
    unfolding process_annotations
    process_annotations-IsBounded output t w =
        annotate_all-IsBounded (md.extract_annotations output) t w
