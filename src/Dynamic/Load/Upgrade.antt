-- ===== src/Dynamic/Load/Upgrade.antt =====
-- A hit on a fragment that is loaded keeps the invariant, also when its stub becomes a body.
use opencaw.Prelude.{
  ◌⊎◌, ℕ, ◌+◌, ◌-◌, ◌≤◌, ◌≡◌, ◌∙◌, refl, sym, ap, inl, inr, true, String, Option, none, some, arith,
  any_b, ltb, All-imp, put_entry, Bool-cases, Bool,
}
use opencaw.Prelude.Float.{Float}
use opencaw.Prelude.Keys.{has_key}
use opencaw.Core.{CawResult-cases, RecallFragment, total_tokens}
use opencaw.Dynamic.{Orchestrator, Services, LoadMode, stub, full}
use opencaw.Dynamic.Load.{
  tokens_of, replace_first, is_stub_of, truncate_body, place_body, upgrade_stub_to_body, reload,
  refreshed, set_entry, pinned, max_float,
}
use opencaw.Dynamic.Load.Invariant.{
  count_from, HasOrigin, IsRetriever, IsWorkspace, IsScored-put, IsScored-own, replace_first-ids,
  replace_first-length, replace_first-tokens, replace_first-All, tokens_of-le, replace_first-count,
  IsScored,
}

truncate_body-own :
    (sv : Services) (n : ℕ) (body : RecallFragment)
    → ((truncate_body sv n body).stub_id ≡ body.stub_id)
      × ((truncate_body sv n body).locator ≡ body.locator)
unfolding truncate_body
truncate_body-own sv n body = elim (Bool-cases (ltb n body.tokens)) [
  | inl e ↦ rw e (refl, refl)
  | inr e ↦ rw e (refl, refl)
]

module _ {F : Type 0} ⦃fl : Float F⦄ where
  -- The workspace with a body in place of a stub.
  abbrev pub with_body : String → RecallFragment → F → Orchestrator F → Orchestrator F
  with_body id body score self = record self {
    loaded = replace_first id body self.loaded;
    relevance_scores = put_entry id score self.relevance_scores;
  }

  -- Nothing changes, or a fragment of the id is put in place.
  pub upgrade_cases :
      (sv : Services) (source_of : String → String) (id range : String) (score : F)
      (self : Orchestrator F)
      → IsRetriever sv source_of
      → (upgrade_stub_to_body sv id range score self ≡ self)
        ⊎ ((body : RecallFragment) × (given : F) × (body.stub_id ≡ id)
            × (upgrade_stub_to_body sv id range score self ≡ with_body id body given self))
  unfolding upgrade_stub_to_body place_body
  upgrade_cases sv source_of id range score self r =
      elim (CawResult-cases (sv.read_range id range)) [
        | inr (failure, e) ↦ inl (rw (upgrade_stub_to_body, e) refl)
        | inl (body, e) ↦
            let short = truncate_body sv self.config.max_inline_body_tokens body in
            let (own, from) = r id range body e in
            let (same, place) = truncate_body-own sv self.config.max_inline_body_tokens body in
            let floor = fl.add self.config.thresholds.unload fl.epsilon in
            let given = pinned floor (max_float score floor) (self.relevance_scores id) in
            elim (Bool-cases (
              ltb self.config.max_workspace_tokens
                (total_tokens self.loaded - tokens_of id self.loaded + short.tokens))) [
                  | inl large ↦ inl (rw (upgrade_stub_to_body, e, place_body, large) refl)
                  | inr fits ↦ inr (
                    short,
                    given,
                    same ∙ own,
                    rw (upgrade_stub_to_body, e, place_body, fits) refl,
                  )
                ]
      ]

module _ {F : Type 0} ⦃fl : Float F⦄ (lax : Bool) (source_of : String → String) where
  placed-IsWorkspace :
      (self : Orchestrator F) (id : String) (body : RecallFragment) (score : F)
      → IsWorkspace lax source_of self
      → body.stub_id ≡ id
      → body.locator.source ≡ source_of id
      → any_b (is_stub_of id) self.loaded ≡ true
      → total_tokens self.loaded - tokens_of id self.loaded + body.tokens
        ≤ self.config.max_workspace_tokens
      → IsWorkspace lax source_of (record self {
        loaded = replace_first id body self.loaded;
        relevance_scores = put_entry id score self.relevance_scores;
      })
  placed-IsWorkspace self id body score w own from there fits =
      let same = replace_first-ids id body own self.loaded in
      let counted : (source : String)
          → count_from source (replace_first id body self.loaded) ≡ count_from source self.loaded =
        λ source.
          replace_first-count source_of id body source self.loaded from there w.distinct w.origin in
      record {
        ids = λ j. w.ids j ∙ ap (has_key j) (sym same);
        distinct = rw same w.distinct;
        scored =
            replace_first-All id body own (IsScored lax (put_entry id score self.relevance_scores))
              self.loaded (IsScored-own lax id score self.relevance_scores body own)
              (All-imp (λ f h. IsScored-put lax id score self.relevance_scores f h) self.loaded
                w.scored);
        origin =
            replace_first-All id body own (HasOrigin source_of) self.loaded
              (λ e. from ∙ ap source_of (sym own)) w.origin;
        budget =
            omega
              (arith, replace_first-tokens id body own self.loaded, tokens_of-le id self.loaded);
        few = omega (arith, replace_first-length id body own self.loaded, w.few);
        counts = λ source. w.counts source ∙ sym (counted source);
        capped = λ source e. omega (arith, counted source, w.capped source e);
      }

  place_body-IsWorkspace :
      (self : Orchestrator F) (id : String) (body : RecallFragment) (score : F)
      → IsWorkspace lax source_of self
      → body.stub_id ≡ id
      → body.locator.source ≡ source_of id
      → any_b (is_stub_of id) self.loaded ≡ true
      → IsWorkspace lax source_of (place_body self id body score)
  unfolding place_body
  place_body-IsWorkspace self id body score w own from there =
      let after = total_tokens self.loaded - tokens_of id self.loaded + body.tokens in
      elim (Bool-cases (ltb self.config.max_workspace_tokens after)) [
        | inl large ↦ rw large w
        | inr fits ↦ rw fits (placed-IsWorkspace self id body _ w own from there (ground arith))
      ]

  pub upgrade-IsWorkspace :
      (sv : Services) (id range : String) (score : F) (self : Orchestrator F)
      → IsRetriever sv source_of
      → IsWorkspace lax source_of self
      → any_b (is_stub_of id) self.loaded ≡ true
      → IsWorkspace lax source_of (upgrade_stub_to_body sv id range score self)
  unfolding upgrade_stub_to_body
  upgrade-IsWorkspace sv id range score self r w there =
      elim (CawResult-cases (sv.read_range id range)) [
        | inl (body, e) ↦
            let (own, from) = r id range body e in
            let (same, place) = truncate_body-own sv self.config.max_inline_body_tokens body in
            rw (upgrade_stub_to_body, e)
              (place_body-IsWorkspace self id _ score w (same ∙ own)
                (ap (λ l. l.source) place ∙ from) there)
        | inr (failure, e) ↦ rw (upgrade_stub_to_body, e) w
      ]

  set_entry-IsWorkspace :
      (self : Orchestrator F) (id : String) (entry : Option F)
      → IsWorkspace lax source_of self
      → IsWorkspace lax source_of
          (record self { relevance_scores = set_entry id entry self.relevance_scores })
  set_entry-IsWorkspace self id none w = w
  set_entry-IsWorkspace self id (some score) w = record {
    ids = w.ids;
    distinct = w.distinct;
    scored =
        All-imp (λ f h. IsScored-put lax id score self.relevance_scores f h) self.loaded w.scored;
    origin = w.origin;
    budget = w.budget;
    few = w.few;
    counts = w.counts;
    capped = w.capped;
  }

  pub reload-IsWorkspace :
      (sv : Services) (mode : LoadMode) (id : String) (score : F) (self : Orchestrator F)
      → IsRetriever sv source_of
      → IsWorkspace lax source_of self
      → IsWorkspace lax source_of (reload sv mode id score self)
  unfolding reload
  reload-IsWorkspace sv stub id score self r w =
      set_entry-IsWorkspace self id (refreshed score (self.relevance_scores id)) w
  reload-IsWorkspace sv full id score self r w =
      let fresh = set_entry-IsWorkspace self id (refreshed score (self.relevance_scores id)) w in
      elim (Bool-cases (any_b (is_stub_of id) self.loaded)) [
        | inl there ↦ rw there (upgrade-IsWorkspace sv id "full" score _ r fresh there)
        | inr away ↦ rw away fresh
      ]
