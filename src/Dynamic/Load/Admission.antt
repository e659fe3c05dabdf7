-- ===== src/Dynamic/Load/Admission.antt =====
-- What is fetched for a hit, and that admitting it keeps the invariant of the workspace.
use opencaw.Prelude.{
  not, ◌&&◌, ℕ, ◌+◌, ◌≤◌, ◌<◌, ◌≡◌, ◌∙◌, refl, sym, ap, inl, inr, true, false, String, Option, none,
  some, List, [], ◌∷◌, ◌++◌, arith, length, ltb, str_eq, eq_iff, if◌then◌else◌, sum_of-append,
  length-append, All-append, All-imp, StrMap, put_entry, entry_or, add_key, Bool-cases,
  Option-cases, Bool, ◌||◌,
}
use opencaw.Prelude.Float.{Float}
use opencaw.Prelude.Keys.{has_key, has_key-snoc, IsDistinct-snoc}
use opencaw.Core.{
  CawError, ok, err, stale_stub, not_found, invalid_input, embedding, vector_store, io,
  degenerate_output, external, RecallFragment, total_tokens, Text, CawResult-cases,
}
use opencaw.Dynamic.{
  Orchestrator, Services, LoadMode, Fetched, fetched, skipped, failed, fetch, fetched_read,
  with_notes, history_fragment, range_of, is_history,
}
use opencaw.Dynamic.Load.{Loading, count_of, source_is_full, admit}
use opencaw.Dynamic.Load.Invariant.{
  ids_of, from_source, count_from, HasOrigin, IsRetriever, IsWorkspace, IsScored-put, IsScored-own,
  IsScored,
}

-- What is fetched for an id has this id, and its origin.
abbrev pub IsFor : (String → String) → String → Fetched → Type 0
IsFor source_of id (fetched f) = (f.stub_id ≡ id) × HasOrigin source_of f
IsFor source_of id skipped = Unit
IsFor source_of id (failed e) = Unit

with_notes-own :
    (sv : Services) (notes : List Text) (f : RecallFragment)
    → ((with_notes sv notes f).stub_id ≡ f.stub_id) × ((with_notes sv notes f).locator ≡ f.locator)
unfolding with_notes
with_notes-own sv [] f = (refl, refl)
with_notes-own sv (n ∷ notes) f = (refl, refl)

fetched_ok-IsFor :
    (sv : Services) (source_of : String → String) (id : String) (f : RecallFragment)
    → f.stub_id ≡ id
    → f.locator.source ≡ source_of id
    → IsFor source_of id (fetched_read sv id (ok f))
unfolding fetched_read
fetched_ok-IsFor sv source_of id f own from = elim (Option-cases (sv.load_notes id)) [
  | inl e ↦ rw (IsFor, e) (own, λ h. from ∙ ap source_of (sym own))
  | inr (notes, e) ↦
      let (same, place) = with_notes-own sv notes f in
      rw (IsFor, e)
        (same ∙ own, λ h. ap (λ l. l.source) place ∙ from ∙ ap source_of (sym (same ∙ own)))
]

fetched_err-IsFor :
    (sv : Services) (source_of : String → String) (id : String) (e : CawError)
    → IsFor source_of id (fetched_read sv id (err e))
unfolding fetched_read
fetched_err-IsFor sv source_of id (not_found m) = _
fetched_err-IsFor sv source_of id (invalid_input m) = _
fetched_err-IsFor sv source_of id (embedding m) = _
fetched_err-IsFor sv source_of id (vector_store m) = _
fetched_err-IsFor sv source_of id (io m) = _
fetched_err-IsFor sv source_of id (stale_stub path) = _
fetched_err-IsFor sv source_of id (degenerate_output m n) = _
fetched_err-IsFor sv source_of id (external m) = _

pub fetch-IsFor :
    (sv : Services) (source_of : String → String) (budget tokens : ℕ) (mode : LoadMode)
    (id : String) (content : Option Text)
    → IsRetriever sv source_of
    → IsFor source_of id (fetch sv budget tokens mode id content)
unfolding fetch history_fragment
fetch-IsFor sv source_of budget tokens mode id (some content) r =
    elim (Bool-cases (ltb budget (tokens + sv.count_tokens content))) [
      | inl e ↦ rw e _
      | inr e ↦ rw e (refl, λ h. absurd (ground arith))
    ]
fetch-IsFor sv source_of budget tokens mode id none r =
    elim (CawResult-cases (sv.read_range id (range_of mode))) [
      | inl (f, e) ↦
          let (own, from) = r id (range_of mode) f e in
          rw e (fetched_ok-IsFor sv source_of id f own from)
      | inr (failure, e) ↦ rw e (fetched_err-IsFor sv source_of id failure)
    ]

count-snoc :
    (source : String) (fs : List RecallFragment) (f : RecallFragment)
    → count_from source (fs ++ (f ∷ [])) ≡ count_from source fs + from_source source f
count-snoc source fs f = sum_of-append (from_source source) fs (f ∷ []) ∙ omega arith

ids_of-snoc :
    (fs : List RecallFragment) (f : RecallFragment)
    → ids_of (fs ++ (f ∷ [])) ≡ ids_of fs ++ (f.stub_id ∷ [])
ids_of-snoc [] f = refl
ids_of-snoc (g ∷ fs) f = ap (◌∷◌ g.stub_id) (ids_of-snoc fs f)

module _ {F : Type 0} ⦃fl : Float F⦄ (lax : Bool) (source_of : String → String) where
  abbrev pub IsLoading : Loading F → Type 0
  IsLoading l = IsWorkspace lax source_of l.self

  -- The counts after a fragment is admitted.
  new_counts : Orchestrator F → RecallFragment → StrMap ℕ
  new_counts self f =
      if is_history f
      then self.loaded_source_counts
      else put_entry f.locator.source (count_of self f.locator.source + 1) self.loaded_source_counts

  new_counts-count :
      (self : Orchestrator F) (f : RecallFragment) (source : String)
      → IsWorkspace lax source_of self
      → entry_or 0 (new_counts self f source) ≡ count_from source self.loaded + from_source source f
  unfolding new_counts
  new_counts-count self f source w = elim (Bool-cases (is_history f)) [
    | inl history ↦ rw history (w.counts source ∙ ground arith)
    | inr corpus ↦ elim (Bool-cases (str_eq f.locator.source source)) [
      | inl e ↦
          let same = (eq_iff f.locator.source source).0 e in
          rw (corpus, e) (ap (λ n. n + 1) (ap (count_of self) same ∙ w.counts source))
      | inr e ↦ rw (corpus, e) (w.counts source ∙ ground arith)
    ]
  ]

  -- A source that is not exempt has room for one more fragment, unless it is full. Where the
  -- workspace is lax, it need not have room.
  capped_after :
      (self : Orchestrator F) (f : RecallFragment) (source : String)
      → IsWorkspace lax source_of self
      → not lax && source_is_full self f ≡ false
      → lax || self.cap_exempt_sources source ≡ false
      → count_from source self.loaded + from_source source f ≤ self.config.max_chunks_per_source
  capped_after self f source w room open_source =
      let before = w.capped source open_source in
      elim (Bool-cases (str_eq f.locator.source source)) [
        | inl e ↦
            let same = (eq_iff f.locator.source source).0 e in
            let counted : count_of self f.locator.source ≡ count_from source self.loaded =
              ap (count_of self) same ∙ w.counts source in
            let closed : self.cap_exempt_sources source ≡ false = ground arith in
            let open_f : self.cap_exempt_sources f.locator.source ≡ false =
              ap self.cap_exempt_sources same ∙ closed in
            ground arith
        | inr e ↦ ground arith
      ]

  pub admit-IsWorkspace :
      (l : Loading F) (id : String) (score : F) (f : RecallFragment)
      → IsLoading l
      → l.self.loaded_ids id ≡ false
      → f.stub_id ≡ id
      → HasOrigin source_of f
      → not lax && source_is_full l.self f ≡ false
      → total_tokens l.self.loaded + f.tokens ≤ l.self.config.max_workspace_tokens
      → length l.self.loaded < l.self.config.max_loaded_fragments
      → IsLoading (admit id score f l)
  unfolding admit
  admit-IsWorkspace l id score f w new_id own from room fits few =
      let self = l.self in
      let keys = ids_of-snoc self.loaded f in
      let absent : has_key f.stub_id (ids_of self.loaded) ≡ false =
        ap (λ i. has_key i (ids_of self.loaded)) own ∙ sym (w.ids id) ∙ new_id in
      record {
        ids = λ j.
            ap (λ b. if str_eq id j then true else b) (w.ids j)
            ∙ ap (λ i. add_key i (λ k. has_key k (ids_of self.loaded)) j) (sym own)
            ∙ sym (has_key-snoc j f.stub_id (ids_of self.loaded))
            ∙ ap (has_key j) (sym keys);
        distinct = rw keys (IsDistinct-snoc (ids_of self.loaded) f.stub_id absent w.distinct);
        scored =
            All-append (IsScored lax (put_entry id score self.relevance_scores)) self.loaded
              (f ∷ [])
              (All-imp (λ g h. IsScored-put lax id score self.relevance_scores g h) self.loaded
                w.scored)
              (IsScored-own lax id score self.relevance_scores f own, _);
        origin = All-append (HasOrigin source_of) self.loaded (f ∷ []) w.origin (from, _);
        budget = omega (arith, sum_of-append (λ g. g.tokens) self.loaded (f ∷ []));
        few = omega (arith, length-append self.loaded (f ∷ []));
        counts = λ source.
            unfold new_counts in
            (new_counts-count self f source w ∙ sym (count-snoc source self.loaded f));
        capped = λ source e.
            omega (arith, count-snoc source self.loaded f, capped_after self f source w room e);
      }
