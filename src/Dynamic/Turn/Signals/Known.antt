-- ===== src/Dynamic/Turn/Signals/Known.antt =====
-- Line references give no fragment a score that had none.
use opencaw.Prelude.{
  ◌+◌, ◌≡◌, ◌∙◌, sym, ap, ◌⊎◌, inl, inr, true, false, String, Option, none, some, List, [], ◌∷◌,
  arith, leb, length, any_b, str_eq, eq_iff, All, All-append, StrMap, Bool-cases, Option-cases,
}
use opencaw.Prelude.Float.{Float}
use opencaw.Core.{Text, ok, RecallFragment, total_tokens, CawResult-cases}
use opencaw.Dynamic.{DynamicRecallConfig, Orchestrator}
use opencaw.Dynamic.Load.{is_stub_of}
use opencaw.Dynamic.Load.Invariant.{HasScore, IsRetriever, replace_first-All}
use opencaw.Dynamic.Load.Upgrade.{with_body, upgrade_cases}
use opencaw.Dynamic.Turn.Models.{LineReference, ModelAnnotation, Turn, Models}
use opencaw.Dynamic.Turn.Monad.{Action, Keeps, bind-Keeps}
use opencaw.Dynamic.Turn.Signals.{
  find_loaded, resolve, line_range, admit_range, upgrade_if_stub, place_reference, if_found,
  reference_loop, process_line_references, annotate, annotate_all, process_annotations,
}

-- The fragment is no stub, or its id had a score.
abbrev pub IsKnown : {F : Type 0} → StrMap F → RecallFragment → Type 0
IsKnown before f = (str_eq f.locator.locator "stub" ≡ false) ⊎ HasScore before f

-- What a retriever answers for lines is not shown as a stub.
module _ {F : Type 0} ⦃fl : Float F⦄ (md : Models F) where
  abbrev pub ReadsRanges : Type 0
  ReadsRanges =
      (id : String) (ref : LineReference) (f : RecallFragment)
      → md.services.read_range id (line_range md ref) ≡ ok f
      → str_eq f.locator.locator "stub" ≡ false

-- No id has a score that had none before.
pub record IsUnscored {F : Type 0} (before : StrMap F) (config : DynamicRecallConfig F)
    (self : Orchestrator F) : Type 0 where
  pub scores : (id : String) → before id ≡ none → self.relevance_scores id ≡ none
  pub stubs : All (IsKnown before) self.loaded
  pub same : self.config ≡ config

known_stub :
    {F : Type 0} (before : StrMap F) (id : String) (fs : List RecallFragment)
    → any_b (is_stub_of id) fs ≡ true
    → All (IsKnown before) fs
    → (score : F) × (before id ≡ some score)
unfolding is_stub_of
known_stub before id [] h k = absurd (ground arith)
known_stub before id (f ∷ fs) h (k, ks) = elim (Bool-cases (is_stub_of id f)) [
  | inl e ↦ elim k [
    | inl plain ↦ absurd (ground arith)
    | inr (score, p) ↦
        let own : str_eq f.stub_id id ≡ true = ground arith in
        (score, ap before (sym ((eq_iff f.stub_id id).0 own)) ∙ p)
  ]
  | inr e ↦ known_stub before id fs (ground arith) ks
]

module _ {F : Type 0} ⦃fl : Float F⦄ (source_of : String → String) (md : Models F)
    (r : IsRetriever md.services source_of) (reads : ReadsRanges md) (before : StrMap F)
    (config : DynamicRecallConfig F) where
  abbrev pub Unscored : Turn F → Type 0
  Unscored t = IsUnscored before config t.self

  with_body-IsUnscored :
      (self : Orchestrator F) (id : String) (body : RecallFragment) (score held : F)
      → body.stub_id ≡ id
      → before id ≡ some held
      → IsUnscored before config self
      → IsUnscored before config (with_body id body score self)
  with_body-IsUnscored self id body score held own h w = record {
    scores = λ j e. elim (Bool-cases (str_eq id j)) [
      | inl same ↦ absurd (ground (arith, eq_iff id j, h, e))
      | inr other ↦ rw other (w.scores j e)
    ];
    stubs =
        replace_first-All id body own (IsKnown before) self.loaded (inr (held, ap before own ∙ h))
          w.stubs;
    same = w.same;
  }

  upgrade_if_stub-IsUnscored :
      (id range : String) (self : Orchestrator F)
      → IsUnscored before config self
      → IsUnscored before config (upgrade_if_stub md id range self)
  unfolding upgrade_if_stub
  upgrade_if_stub-IsUnscored id range self w =
      elim (Bool-cases (any_b (is_stub_of id) self.loaded)) [
        | inr away ↦ rw (upgrade_if_stub, away) w
        | inl there ↦
            let (held, h) = known_stub before id self.loaded there w.stubs in
            elim (upgrade_cases md.services source_of id range self.config.thresholds.load self r) [
              | inl e ↦ rw (upgrade_if_stub, there, e) w
              | inr (body, given, own, e) ↦
                  rw (upgrade_if_stub, there, e)
                    (with_body-IsUnscored self id body given held own h w)
            ]
      ]

  admit_range-IsUnscored :
      (id : String) (ref : LineReference) (self : Orchestrator F)
      → IsUnscored before config self
      → IsUnscored before config
          (admit_range md id (md.services.read_range id (line_range md ref)) self)
  unfolding admit_range
  admit_range-IsUnscored id ref self w =
      elim (CawResult-cases (md.services.read_range id (line_range md ref))) [
        | inr (failure, e) ↦ rw (admit_range, e) w
        | inl (f, e) ↦
            elim (Bool-cases
              (leb (total_tokens self.loaded + f.tokens) self.config.max_workspace_tokens)) [
                | inr large ↦ rw (admit_range, e, large) w
                | inl fits ↦
                    rw (admit_range, e, fits)
                      (record {
                        scores = w.scores;
                        stubs =
                            All-append (IsKnown before) self.loaded (f ∷ []) w.stubs
                              (inl (reads id ref f e), tt);
                        same = w.same;
                      })
              ]
      ]

  resolve-Unscored : (hint : Text) → Keeps Unscored (resolve md hint)
  unfolding resolve
  resolve-Unscored hint t w = elim (Option-cases (find_loaded md hint t.self.loaded)) [
    | inr (id, e) ↦ rw (resolve, e) w
    | inl e ↦ elim (CawResult-cases (md.search hint 5)) [
      | inl (hits, e') ↦ rw (resolve, e, e') w
      | inr (failure, e') ↦ rw (resolve, e, e') w
    ]
  ]

  if_found-Unscored :
      (found : Option String) (ref : LineReference) (rest : Action F (Unit {0}))
      → Keeps Unscored rest
      → Keeps Unscored (if_found md found (line_range md ref) rest)
  unfolding place_reference
  if_found-Unscored none ref rest h t w = h t w
  if_found-Unscored (some id) ref rest h t w = elim (Bool-cases (t.self.loaded_ids id)) [
    | inl there ↦
        rw (place_reference, there)
          (h _ (upgrade_if_stub-IsUnscored id (line_range md ref) t.self w))
    | inr away ↦ elim (Bool-cases (leb t.self.config.max_loaded_fragments (length t.self.loaded))) [
      | inl many ↦ rw (place_reference, away, many) w
      | inr few ↦ rw (place_reference, away, few) (h _ (admit_range-IsUnscored id ref t.self w))
    ]
  ]

  reference_loop-Unscored : (refs : List LineReference) → Keeps Unscored (reference_loop md refs)
  unfolding reference_loop
  reference_loop-Unscored [] t w = w
  reference_loop-Unscored (ref ∷ refs) t w =
      bind-Keeps Unscored (resolve md ref.source_hint) _ (resolve-Unscored ref.source_hint)
        (λ found.
          if_found-Unscored found ref (reference_loop md refs) (reference_loop-Unscored refs))
        t w

  pub process_line_references-Unscored :
      (text : Text) → Keeps Unscored (process_line_references md text)
  unfolding process_line_references
  process_line_references-Unscored text = reference_loop-Unscored (md.extract_line_references text)

  annotate_all-Unscored :
      (anns : List ModelAnnotation) (t : Turn F) → Unscored t → Unscored (annotate_all md anns t)
  unfolding annotate_all annotate
  annotate_all-Unscored [] t w = w
  annotate_all-Unscored (ann ∷ anns) t w =
      annotate_all-Unscored anns (annotate md ann t)
        (record { scores = w.scores; stubs = w.stubs; same = w.same })

  pub process_annotations-Unscored :
      (output : Text) (t : Turn F) → Unscored t → Unscored (process_annotations md output t)
  unfolding process_annotations
  process_annotations-Unscored output t w =
      annotate_all-Unscored (md.extract_annotations output) t w
