-- ===== src/Dynamic/Evict/Remaining.antt =====
-- What is left when the picked indices are removed.
use opencaw.Prelude.{
  ℕ, ◌≤◌, ◌<◌, ◌≡◌, ◌∙◌, sym, ap, true, false, not, Bool, some, List, [], ◌∷◌, ◌==◌, ltb, arith,
  length, get_elem?, filter_b, filter_b-eq_self, if◌then◌else◌, sum_of, All, All-imp,
}
use opencaw.Prelude.Float.{Float}
use opencaw.Prelude.Sort.{
  sort_by, sort_by-sum_of, All-sort_by, IsDescending, sort_by-IsDescending, count_num, geb,
}
use opencaw.Core.{RecallFragment, total_tokens}
use opencaw.Dynamic.{Orchestrator}
use opencaw.Dynamic.Evict.{score_of, sorted_scores}
use opencaw.Dynamic.Evict.Entries.{tokens_at, has_idx, sorted_scores-has_idx}
use opencaw.Dynamic.Evict.Pick.{IsPicked, AtIdx}
use opencaw.Dynamic.Evict.Removal.{
  remove_all, remove_all-tokens, remove_all-All, remove_all-filter_b,
}
use opencaw.Dynamic.Evict.Forget.{get_elem?-length}

in_range :
    (n : ℕ) (is : List ℕ)
    → ((j : ℕ) → count_num j is ≤ (if ltb j n then 1 else 0))
    → All (λ i. i < n) is
in_range n [] h = tt
in_range n (i ∷ is) h = (ground (arith, h i), in_range n is λ j. ground (arith, h j))

count_sorted : (picked : List ℕ) (j : ℕ) → count_num j (sort_by geb picked) ≡ count_num j picked
count_sorted picked j = sort_by-sum_of geb (λ m. if m == j then 1 else 0) picked

module _ {F : Type 0} ⦃fl : Float F⦄ where
  -- The fragment's score is no lower than the threshold.
  abbrev pub passes : Orchestrator F → RecallFragment → Bool
  passes self f = not (fl.lt (score_of self.relevance_scores f) self.config.thresholds.unload)

  abbrev pub EvictedIndices : Bool → Orchestrator F → List ℕ → Type 0
  EvictedIndices wants_latest self picked =
      IsPicked self.config.thresholds.unload self.config.max_workspace_tokens self.relevance_scores
        self.loaded (sorted_scores wants_latest self) (total_tokens self.loaded) picked

  AtIdx-score :
      (self : Orchestrator F) (b : Bool) (j : ℕ) (f : RecallFragment)
      → get_elem? self.loaded j ≡ some f
      → AtIdx
          (λ e. fl.lt e.score self.config.thresholds.unload ≡ b)
          self.loaded
          self.relevance_scores
          j
      → passes self f ≡ not b
  AtIdx-score self b j f at (e, same, ((g, at', own), q)) =
      let found : g ≡ f = cc (sym at' ∙ ap (get_elem? self.loaded) same ∙ at) in
      let score : e.score ≡ score_of self.relevance_scores f =
        own ∙ ap (score_of self.relevance_scores) found in
      ap not (ap (λ s. fl.lt s self.config.thresholds.unload) (sym score) ∙ q)

  abbrev IsStaleAt : Orchestrator F → ℕ → Type 0
  IsStaleAt self i =
      (f : RecallFragment) × (get_elem? self.loaded i ≡ some f) × (passes self f ≡ false)

  stale_at :
      (self : Orchestrator F) (i : ℕ)
      → AtIdx
          (λ e. fl.lt e.score self.config.thresholds.unload ≡ true)
          self.loaded
          self.relevance_scores
          i
      → IsStaleAt self i
  stale_at self i (e, same, ((g, at', own), q)) =
      let at : get_elem? self.loaded i ≡ some g = ap (get_elem? self.loaded) (sym same) ∙ at' in
      (g, at, AtIdx-score self true i g at (e, same, ((g, at', own), q)))

  module _ (wants_latest : Bool) (self : Orchestrator F) (picked : List ℕ)
      (apart : (j : ℕ)
        → count_num j picked ≤ sum_of (has_idx j) (sorted_scores wants_latest self)) where
    pub sorted_in_range : All (λ i. i < length self.loaded) (sort_by geb picked)
    sorted_in_range = in_range (length self.loaded) (sort_by geb picked) λ j.
        omega (arith, count_sorted picked j, apart j, sorted_scores-has_idx wants_latest self j)

    pub sorted-IsDescending : IsDescending (sort_by geb picked)
    sorted-IsDescending =
        sort_by-IsDescending picked
          λ j. ground (arith, apart j, sorted_scores-has_idx wants_latest self j)

  module _ (wants_latest : Bool) (self : Orchestrator F) (picked : List ℕ)
      (p : EvictedIndices wants_latest self picked) where
    pub descending : IsDescending (sort_by geb picked)
    descending = sorted-IsDescending wants_latest self picked p.apart

    pub remaining_fits :
        total_tokens (remove_all (sort_by geb picked) self.loaded)
        ≤ self.config.max_workspace_tokens
    remaining_fits = omega (
      arith,
      p.fits,
      sort_by-sum_of geb (tokens_at self.loaded) picked,
      remove_all-tokens (sort_by geb picked) self.loaded descending
          (sorted_in_range wants_latest self picked p.apart),
    )

    pub remaining_passes :
        All (λ f. passes self f ≡ true) (remove_all (sort_by geb picked) self.loaded)
    remaining_passes =
        remove_all-All (λ f. passes self f ≡ true) (sort_by geb picked) self.loaded descending
          λ j f c at. AtIdx-score self false j f at (
            p.kept j (sym (count_sorted picked j) ∙ c) (
              ground (
                arith,
                get_elem?-length j self.loaded f at,
                sorted_scores-has_idx wants_latest self j,
              )))

    pub remaining-eq-filter_b :
        total_tokens self.loaded ≤ self.config.max_workspace_tokens
        → remove_all (sort_by geb picked) self.loaded ≡ filter_b (passes self) self.loaded
    remaining-eq-filter_b h =
        sym (filter_b-eq_self (passes self) _ remaining_passes)
        ∙ remove_all-filter_b (passes self) (sort_by geb picked) self.loaded descending (
            All-sort_by geb (IsStaleAt self) picked
              (All-imp (λ i a. stale_at self i a) picked (p.stale h)))
