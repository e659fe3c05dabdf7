-- ===== src/Dynamic/Evict/Removal.antt =====
-- Removing elements from the highest index down.
use opencaw.Prelude.{
  ℕ, zero, suc, ◌+◌, ◌≤◌, ◌<◌, ◌≡◌, ◌∙◌, refl, sym, inl, inr, Bool, false, some, List, [], ◌∷◌,
  arith, ltb, length, get_elem?, filter_b, sum_of, All, All-imp, All-imp_both, Bool-cases,
}
use opencaw.Prelude.Sort.{IsDescending, count_num}
use opencaw.Core.{RecallFragment, total_tokens}
use opencaw.Dynamic.Evict.{remove_at}
use opencaw.Dynamic.Evict.Entries.{tokens_at}

pub remove_at-length :
    (i : ℕ) (fs : List RecallFragment) → i < length fs → length (remove_at i fs) + 1 ≡ length fs
unfolding remove_at
remove_at-length i [] h = absurd (omega arith)
remove_at-length zero (f ∷ fs) h = omega arith
remove_at-length (suc i) (f ∷ fs) h = omega (arith, remove_at-length i fs (omega arith))

pub remove_at-low :
    (i : ℕ) (fs : List RecallFragment) (j : ℕ)
    → j < i
    → get_elem? (remove_at i fs) j ≡ get_elem? fs j
unfolding remove_at
remove_at-low i [] j h = refl
remove_at-low zero (f ∷ fs) j h = absurd (omega arith)
remove_at-low (suc i) (f ∷ fs) zero h = refl
remove_at-low (suc i) (f ∷ fs) (suc j) h = remove_at-low i fs j (omega arith)

remove_at-high :
    (i : ℕ) (fs : List RecallFragment) (j : ℕ)
    → i ≤ j
    → get_elem? (remove_at i fs) j ≡ get_elem? fs (suc j)
unfolding remove_at
remove_at-high i [] j h = refl
remove_at-high zero (f ∷ fs) j h = refl
remove_at-high (suc i) (f ∷ fs) zero h = absurd (omega arith)
remove_at-high (suc i) (f ∷ fs) (suc j) h = remove_at-high i fs j (omega arith)

pub remove_at-sum_of :
    (w : RecallFragment → ℕ) (i : ℕ) (fs : List RecallFragment) (f : RecallFragment)
    → get_elem? fs i ≡ some f
    → sum_of w (remove_at i fs) + w f ≡ sum_of w fs
unfolding remove_at
remove_at-sum_of w i [] f h = cc
remove_at-sum_of w zero (g ∷ fs) f h = ground arith
remove_at-sum_of w (suc i) (g ∷ fs) f h = omega (arith, remove_at-sum_of w i fs f h)

pub remove_at-All {κ} :
    (P : RecallFragment → Type κ) (i : ℕ) (fs : List RecallFragment)
    → All P fs
    → All P (remove_at i fs)
unfolding remove_at
remove_at-All P i [] h = tt
remove_at-All P zero (f ∷ fs) (h, hs) = hs
remove_at-All P (suc i) (f ∷ fs) (h, hs) = (h, remove_at-All P i fs hs)

pub remove_at-filter_b :
    (keep : RecallFragment → Bool) (i : ℕ) (fs : List RecallFragment) (f : RecallFragment)
    → get_elem? fs i ≡ some f
    → keep f ≡ false
    → filter_b keep (remove_at i fs) ≡ filter_b keep fs
unfolding remove_at
remove_at-filter_b keep i [] f h k = refl
remove_at-filter_b keep zero (g ∷ fs) f h k = ground arith
remove_at-filter_b keep (suc i) (g ∷ fs) f h k = ground (arith, remove_at-filter_b keep i fs f h k)

pub get_elem?-lt :
    (fs : List RecallFragment) (i : ℕ)
    → i < length fs
    → (f : RecallFragment) × (get_elem? fs i ≡ some f)
get_elem?-lt [] i h = absurd (omega arith)
get_elem?-lt (f ∷ fs) zero h = (f, refl)
get_elem?-lt (f ∷ fs) (suc i) h = get_elem?-lt fs i (omega arith)

pub All-get_elem? {κ} :
    (P : RecallFragment → Type κ) (fs : List RecallFragment)
    → ((j : ℕ) (f : RecallFragment) → get_elem? fs j ≡ some f → P f)
    → All P fs
All-get_elem? P [] h = tt
All-get_elem? P (f ∷ fs) h = (h 0 f refl, All-get_elem? P fs λ j. h (suc j))

unfoldable pub remove_all : List ℕ → List RecallFragment → List RecallFragment
remove_all [] fs = fs
remove_all (i ∷ is) fs = remove_all is (remove_at i fs)

tokens_at-low :
    (i : ℕ) (fs : List RecallFragment) (is : List ℕ)
    → All (λ j. j < i) is
    → sum_of (tokens_at (remove_at i fs)) is ≡ sum_of (tokens_at fs) is
tokens_at-low i fs [] h = refl
tokens_at-low i fs (j ∷ is) (h, hs) = rw (remove_at-low i fs j h, tokens_at-low i fs is hs)

pub remove_all-tokens :
    (is : List ℕ) (fs : List RecallFragment)
    → IsDescending is
    → All (λ i. i < length fs) is
    → total_tokens (remove_all is fs) + sum_of (tokens_at fs) is ≡ total_tokens fs
unfolding remove_all
remove_all-tokens [] fs d h = omega arith
remove_all-tokens (i ∷ is) fs (below, d) (h, hs) =
    let (f, at) = get_elem?-lt fs i h in
    let len = remove_at-length i fs h in
    let here : tokens_at fs i ≡ f.tokens = rw at refl in
    omega (
      arith,
      here,
      tokens_at-low i fs is below,
      remove_at-sum_of (λ g. g.tokens) i fs f at,
      remove_all-tokens is (remove_at i fs) d (All-imp (λ j lt. omega arith) is below),
    )

count_below : (i j : ℕ) (is : List ℕ) → All (λ k. k < i) is → i ≤ j → count_num j is ≡ 0
count_below i j [] h le = refl
count_below i j (k ∷ is) (h, hs) le = ground (arith, count_below i j is hs le)

-- What holds at every index that is not removed holds of all that is left.
pub remove_all-All :
    (P : RecallFragment → Type 0) (is : List ℕ) (fs : List RecallFragment)
    → IsDescending is
    → ((j : ℕ) (f : RecallFragment) → count_num j is ≡ 0 → get_elem? fs j ≡ some f → P f)
    → All P (remove_all is fs)
unfolding remove_all
remove_all-All P [] fs d h = All-get_elem? P fs λ j f. h j f refl
remove_all-All P (i ∷ is) fs (below, d) h = remove_all-All P is (remove_at i fs) d λ j f c at.
    elim (Bool-cases (ltb j i)) [
      | inl low ↦
          let lt : j < i = ground arith in h j f (ground arith) (sym (remove_at-low i fs j lt) ∙ at)
      | inr high ↦
          let le : i ≤ j = ground arith in
          h (suc j) f (ground (arith, count_below i (suc j) is below (omega arith)))
            (sym (remove_at-high i fs j le) ∙ at)
    ]

-- To remove what the test refuses does not change what the test keeps.
pub remove_all-filter_b :
    (keep : RecallFragment → Bool) (is : List ℕ) (fs : List RecallFragment)
    → IsDescending is
    → All (λ i. (f : RecallFragment) × (get_elem? fs i ≡ some f) × (keep f ≡ false)) is
    → filter_b keep (remove_all is fs) ≡ filter_b keep fs
unfolding remove_all
remove_all-filter_b keep [] fs d h = refl
remove_all-filter_b keep (i ∷ is) fs (below, d) ((f, at, out), hs) =
    remove_all-filter_b keep is (remove_at i fs) d
      (All-imp_both (λ j lt (g, at', out'). (g, remove_at-low i fs j lt ∙ at', out')) is below hs)
    ∙ remove_at-filter_b keep i fs f at out
