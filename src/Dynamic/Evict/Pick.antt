-- ===== src/Dynamic/Evict/Pick.antt =====
-- Which indices `evict_stale_fragments` picks: a beginning of the sorted list, without duplicates,
-- whose removal brings the workspace under its budget and above the threshold.
use opencaw.Prelude.{
  ℕ, ◌+◌, ◌-◌, ◌≤◌, ◌≡◌, ◌∙◌, refl, sym, ap, ◌⊎◌, inl, inr, Bool, true, false, not, ◌&&◌, some,
  List, [], ◌∷◌, arith, ltb, ◌==◌, get_elem?, sum_of, All, All-imp, StrMap, Bool-cases,
}
use opencaw.Prelude.Float.{Float, IsIeee}
use opencaw.Prelude.Sort.{
  sort_by, IsAscending, All-sort_by, sort_by-sum_of, sort_by-IsAscending, count_num,
}
use opencaw.Core.{RecallFragment, total_tokens}
use opencaw.Dynamic.{Orchestrator}
use opencaw.Dynamic.Evict.{Scored, score_of, scored_from, evict_before, pick_loop, sorted_scores}
use opencaw.Dynamic.Evict.Entries.{
  tokens_or_zero, tokens_at, Describes, has_idx, scored_from-sum_of, scored_from-All,
  sorted_scores-Describes, zero_idx,
}

module _ {F : Type 0} ⦃fl : Float F⦄ where
  -- The entry's score is no lower than the threshold.
  abbrev pub IsKept : F → Scored F → Type 0
  IsKept unload e = fl.lt e.score unload ≡ false

  -- An entry of the index with the property.
  abbrev pub AtIdx : (Scored F → Type 0) → List RecallFragment → StrMap F → ℕ → Type 0
  AtIdx P loaded scores i = (e : Scored F) × (e.idx ≡ i) × (Describes scores loaded e × P e)

  pub record IsPicked (unload : F) (budget : ℕ) (scores : StrMap F) (loaded : List RecallFragment)
      (es : List (Scored F)) (tokens : ℕ) (picked : List ℕ) : Type 0 where
    -- no index is picked that is not there, and none more often
    pub apart : (j : ℕ) → count_num j picked ≤ sum_of (has_idx j) es
    -- what is left fits
    pub fits : tokens ≤ budget + sum_of (tokens_at loaded) picked
    pub inside : sum_of (tokens_at loaded) picked ≤ tokens
    -- what is not picked passes the threshold
    pub kept :
        (j : ℕ)
        → count_num j picked ≡ 0
        → 1 ≤ sum_of (has_idx j) es
        → AtIdx (IsKept unload) loaded scores j
    -- a workspace within its budget only loses what does not
    pub stale :
        tokens ≤ budget → All (AtIdx (λ e. fl.lt e.score unload ≡ true) loaded scores) picked

  at_idx :
      (P : Scored F → Type 0) (scores : StrMap F) (loaded : List RecallFragment) (j : ℕ)
      (es : List (Scored F))
      → All P es
      → All (Describes scores loaded) es
      → 1 ≤ sum_of (has_idx j) es
      → AtIdx P loaded scores j
  at_idx P scores loaded j [] h d some_j = absurd (omega arith)
  at_idx P scores loaded j (e ∷ es) (h, hs) (d, ds) some_j = elim (Bool-cases (e.idx == j)) [
    | inl same ↦ (e, ground arith, (d, h))
    | inr other ↦ at_idx P scores loaded j es hs ds (ground arith)
  ]

  IsPicked-cons :
      (unload : F) (budget : ℕ) (scores : StrMap F) (loaded : List RecallFragment) (e : Scored F)
      (es : List (Scored F)) (f : RecallFragment) (tokens : ℕ) (picked : List ℕ)
      → get_elem? loaded e.idx ≡ some f
      → e.score ≡ score_of scores f
      → (not (fl.lt e.score unload) && not (ltb budget tokens)) ≡ false
      → f.tokens ≤ tokens
      → IsPicked unload budget scores loaded es (tokens - f.tokens) picked
      → IsPicked unload budget scores loaded (e ∷ es) tokens (e.idx ∷ picked)
  IsPicked-cons unload budget scores loaded e es f tokens picked at own go le ih =
      let w : tokens_at loaded e.idx ≡ f.tokens = ap tokens_or_zero at in
      record {
        apart = λ j. omega (arith, ih.apart j);
        fits = omega (arith, ih.fits, w);
        inside = omega (arith, ih.inside, w);
        kept = λ j c h. ih.kept j (ground arith) (ground arith);
        stale = λ h. ((e, refl, ((f, at, own), ground arith)), ih.stale (omega arith));
      }

  module _ {is_num : F → Bool} (ieee : IsIeee fl is_num) (wants_latest : Bool) where
    pub evict_before_total :
        (x y : Scored F)
        → (evict_before wants_latest x y ≡ true) ⊎ (evict_before wants_latest y x ≡ true)
    unfolding evict_before
    evict_before_total x y = ground (arith, ieee.total x.score y.score)

    pub evict_before_trans :
        (x y z : Scored F)
        → evict_before wants_latest x y ≡ true
        → evict_before wants_latest y z ≡ true
        → evict_before wants_latest x z ≡ true
    unfolding evict_before
    evict_before_trans x y z h k = ground (
      arith,
      ieee.trans x.score y.score z.score,
      ieee.trans y.score z.score x.score,
      ieee.trans z.score x.score y.score,
    )

    IsKept-after :
        (unload : F) (e : Scored F) (es : List (Scored F))
        → is_num e.score ≡ true
        → fl.lt e.score unload ≡ false
        → All (λ x. evict_before wants_latest e x ≡ true) es
        → All (IsKept unload) es
    unfolding evict_before
    IsKept-after unload e es num high =
        All-imp (λ x le. ground (arith, ieee.lt_of_total e.score x.score unload num)) es

    module _ (unload : F) (budget : ℕ) (scores : StrMap F) (loaded : List RecallFragment) where
      pub pick_loop-IsPicked :
          (es : List (Scored F)) (tokens : ℕ)
          → All (Describes scores loaded) es
          → All (λ e. is_num e.score ≡ true) es
          → IsAscending (evict_before wants_latest) es
          → tokens ≡ sum_of (λ e. tokens_at loaded e.idx) es
          → (picked : List ℕ) × (pick_loop unload budget loaded es tokens ≡ some picked)
            × IsPicked unload budget scores loaded es tokens picked
      unfolding pick_loop
      pick_loop-IsPicked [] tokens ds ns s sum = (
        [],
        refl,
        record {
          apart = λ j. omega arith;
          fits = omega (arith, sum);
          inside = omega arith;
          kept = λ j c h. absurd (omega arith);
          stale = λ h. tt;
        },
      )
      pick_loop-IsPicked (e ∷ es) tokens ((f, at, own), ds) (n, ns) (below, s) sum =
          elim (Bool-cases (not (fl.lt e.score unload) && not (ltb budget tokens))) [
            | inl stop ↦ ([], rw stop refl, stopped stop)
            | inr go ↦
                let (picked, eq, ih) =
                  pick_loop-IsPicked es (tokens - f.tokens) ds ns s (ground (arith, at, sum)) in
                (
                  e.idx ∷ picked,
                  rw (go, at, eq) refl,
                  IsPicked-cons unload budget scores loaded e es f tokens picked at own go
                      (ground (arith, at, sum)) ih,
                )
          ]
        where
          high :
              not (fl.lt e.score unload) && not (ltb budget tokens) ≡ true
              → fl.lt e.score unload ≡ false
          high stop = ground arith

          stopped :
              not (fl.lt e.score unload) && not (ltb budget tokens) ≡ true
              → IsPicked unload budget scores loaded (e ∷ es) tokens []
          stopped stop = record {
            apart = λ j. omega arith;
            fits = ground arith;
            inside = omega arith;
            kept = λ j c.
                at_idx (IsKept unload) scores loaded j (e ∷ es)
                  (high stop, IsKept-after unload e es n (high stop) below) ((f, at, own), ds);
            stale = λ h. tt;
          }

  -- If no score is NaN, the pass over the sorted scores ends with the indices to evict.
  pub sorted_scores-IsPicked :
      {is_num : F → Bool} (ieee : IsIeee fl is_num) (wants_latest : Bool) (self : Orchestrator F)
      → All (λ f. is_num (score_of self.relevance_scores f) ≡ true) self.loaded
      → (picked : List ℕ) × (pick_loop self.config.thresholds.unload
            self.config.max_workspace_tokens self.loaded
            (sorted_scores wants_latest self)
            (total_tokens self.loaded)
          ≡ some picked)
        × IsPicked self.config.thresholds.unload self.config.max_workspace_tokens
            self.relevance_scores self.loaded
            (sorted_scores wants_latest self)
            (total_tokens self.loaded)
            picked
  unfolding sorted_scores
  sorted_scores-IsPicked {is_num} ieee wants_latest self nums =
      let scores = self.relevance_scores in
      let entries = scored_from scores 0 self.loaded in
      let before = evict_before wants_latest in
      pick_loop-IsPicked ieee wants_latest self.config.thresholds.unload
        self.config.max_workspace_tokens scores self.loaded (sort_by before entries)
        (total_tokens self.loaded) (sorted_scores-Describes wants_latest self)
        (All-sort_by before (λ e. is_num e.score ≡ true) entries
          (scored_from-All scores (λ s. is_num s ≡ true) 0 self.loaded nums))
        (sort_by-IsAscending before (evict_before_total ieee wants_latest)
          (evict_before_trans ieee wants_latest) entries)
        (sym (
          sort_by-sum_of before (λ e. tokens_at self.loaded e.idx) entries
          ∙ scored_from-sum_of scores (tokens_at self.loaded) 0 self.loaded
              λ i. ap (tokens_at self.loaded) (zero_idx i)))

  pick_loop_apart :
      (unload : F) (budget : ℕ) (scores : StrMap F) (loaded : List RecallFragment)
      (es : List (Scored F)) (tokens : ℕ)
      → All (Describes scores loaded) es
      → (picked : List ℕ) × (pick_loop unload budget loaded es tokens ≡ some picked)
        × ((j : ℕ) → count_num j picked ≤ sum_of (has_idx j) es)
  unfolding pick_loop
  pick_loop_apart unload budget scores loaded [] tokens ds = ([], refl, λ j. omega arith)
  pick_loop_apart unload budget scores loaded (e ∷ es) tokens ((f, at, own), ds) =
      elim (Bool-cases (not (fl.lt e.score unload) && not (ltb budget tokens))) [
        | inl stop ↦ ([], rw stop refl, λ j. omega arith)
        | inr go ↦
            let (picked, eq, ih) =
              pick_loop_apart unload budget scores loaded es (tokens - f.tokens) ds in
            (e.idx ∷ picked, rw (go, at, eq) refl, λ j. omega (arith, ih j))
      ]

  -- The pass does not panic, and picks no index twice.
  pub sorted_scores_pick :
      (wants_latest : Bool) (self : Orchestrator F)
      → (picked : List ℕ) × (pick_loop self.config.thresholds.unload
            self.config.max_workspace_tokens self.loaded
            (sorted_scores wants_latest self)
            (total_tokens self.loaded)
          ≡ some picked)
        × ((j : ℕ) → count_num j picked ≤ sum_of (has_idx j) (sorted_scores wants_latest self))
  sorted_scores_pick wants_latest self =
      pick_loop_apart self.config.thresholds.unload self.config.max_workspace_tokens
        self.relevance_scores self.loaded (sorted_scores wants_latest self)
        (total_tokens self.loaded) (sorted_scores-Describes wants_latest self)
