-- ===== src/Dynamic/Evict/Entries.antt =====
-- The list that `evict_stale_fragments` sorts: one entry per loaded fragment.
use opencaw.Prelude.{
  ℕ, suc, ◌+◌, ◌≡◌, ◌∙◌, refl, ap, Bool, ◌&&◌, Option, none, some, List, [], ◌∷◌, arith, ltb, leb,
  ◌==◌, length, get_elem?, if◌then◌else◌, sum_of, All, StrMap,
}
use opencaw.Prelude.Float.{Float}
use opencaw.Prelude.Sort.{All-sort_by, sort_by-sum_of}
use opencaw.Core.{RecallFragment, total_tokens}
use opencaw.Dynamic.{Orchestrator}
use opencaw.Dynamic.Evict.{Scored, score_of, scored_from, evict_before, sorted_scores}

-- The tokens of the fragment at an index.
abbrev pub tokens_or_zero : Option RecallFragment → ℕ
tokens_or_zero none = 0
tokens_or_zero (some f) = f.tokens

abbrev pub tokens_at : List RecallFragment → ℕ → ℕ
tokens_at loaded i = tokens_or_zero (get_elem? loaded i)

pub zero_idx : (i : ℕ) → 0 + i ≡ i
zero_idx i = omega arith

step_idx : (n i : ℕ) → n + 1 + i ≡ n + suc i
step_idx n i = omega arith

module _ {F : Type 0} ⦃fl : Float F⦄ where
  -- An entry is about the fragment at its index.
  abbrev pub Describes : StrMap F → List RecallFragment → Scored F → Type 0
  Describes scores loaded e =
      (f : RecallFragment) × (get_elem? loaded e.idx ≡ some f) × (e.score ≡ score_of scores f)

  abbrev pub has_idx : ℕ → Scored F → ℕ
  has_idx n e = if e.idx == n then 1 else 0

  -- What the sum of a number per entry says of the list of entries from index n on.
  pub scored_from-sum_of :
      (scores : StrMap F) (w : ℕ → ℕ) (n : ℕ) (fs : List RecallFragment)
      → ((i : ℕ) → w (n + i) ≡ tokens_at fs i)
      → sum_of (λ e. w e.idx) (scored_from scores n fs) ≡ total_tokens fs
  unfolding scored_from
  scored_from-sum_of scores w n [] h = refl
  scored_from-sum_of scores w n (f ∷ fs) h =
      let same : n ≡ n + 0 = omega arith in
      omega (
        arith,
        ap w same ∙ h 0,
        scored_from-sum_of scores w (n + 1) fs λ i. ap w (step_idx n i) ∙ h (suc i),
      )

  scored_from-has_idx :
      (scores : StrMap F) (n : ℕ) (fs : List RecallFragment) (j : ℕ)
      → sum_of (has_idx j) (scored_from scores n fs)
        ≡ (if leb n j && ltb j (n + length fs) then 1 else 0)
  unfolding scored_from
  scored_from-has_idx scores n [] j = ground arith
  scored_from-has_idx scores n (f ∷ fs) j = ground (arith, scored_from-has_idx scores (n + 1) fs j)

  pub scored_from-All :
      (scores : StrMap F) (P : F → Type 0) (n : ℕ) (fs : List RecallFragment)
      → All (λ f. P (score_of scores f)) fs
      → All (λ e. P e.score) (scored_from scores n fs)
  unfolding scored_from
  scored_from-All scores P n [] h = tt
  scored_from-All scores P n (f ∷ fs) (h, hs) = (h, scored_from-All scores P (n + 1) fs hs)

  scored_from-Describes :
      (scores : StrMap F) (whole : List RecallFragment) (n : ℕ) (fs : List RecallFragment)
      → ((i : ℕ) → get_elem? whole (n + i) ≡ get_elem? fs i)
      → All (Describes scores whole) (scored_from scores n fs)
  unfolding scored_from
  scored_from-Describes scores whole n [] h = tt
  scored_from-Describes scores whole n (f ∷ fs) h =
      let here : get_elem? whole n ≡ some f = ap (get_elem? whole) (omega arith) ∙ h 0 in
      (
        (f, here, refl),
        scored_from-Describes scores whole (n + 1) fs
            λ i. ap (get_elem? whole) (step_idx n i) ∙ h (suc i),
      )

  pub sorted_scores-has_idx :
      (wants_latest : Bool) (self : Orchestrator F) (j : ℕ)
      → sum_of (has_idx j) (sorted_scores wants_latest self)
        ≡ (if ltb j (length self.loaded) then 1 else 0)
  unfolding sorted_scores
  sorted_scores-has_idx wants_latest self j =
      let entries = scored_from self.relevance_scores 0 self.loaded in
      ground (
        arith,
        sort_by-sum_of (evict_before wants_latest) (has_idx j) entries,
        scored_from-has_idx self.relevance_scores 0 self.loaded j,
      )

  pub sorted_scores-Describes :
      (wants_latest : Bool) (self : Orchestrator F)
      → All (Describes self.relevance_scores self.loaded) (sorted_scores wants_latest self)
  unfolding sorted_scores
  sorted_scores-Describes wants_latest self =
      let scores = self.relevance_scores in
      All-sort_by (evict_before wants_latest) (Describes scores self.loaded)
        (scored_from scores 0 self.loaded)
        (scored_from-Describes scores self.loaded 0 self.loaded
          λ i. ap (get_elem? self.loaded) (zero_idx i))
