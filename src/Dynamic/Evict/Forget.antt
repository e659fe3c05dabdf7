-- ===== src/Dynamic/Evict/Forget.antt =====
-- Evicting one fragment keeps the invariant of the workspace.
use opencaw.Prelude.{
  ℕ, zero, suc, ◌+◌, ◌-◌, ◌≤◌, ◌≡◌, ◌∙◌, refl, sym, ap, inl, inr, true, false, String, none, some,
  List, [], ◌∷◌, arith, length, get_elem?, str_eq, eq_iff, eq_refl, if◌then◌else◌, All,
  All-imp_both, StrMap, remove_entry, entry_or, Bool-cases, Option-cases, Bool,
}
use opencaw.Prelude.Float.{Float}
use opencaw.Prelude.Keys.{has_key, IsDistinct}
use opencaw.Core.{Text, RecallFragment}
use opencaw.Dynamic.{Orchestrator, Services, is_history}
use opencaw.Dynamic.Load.Invariant.{
  ids_of, from_source, count_from, HasScore, HasOrigin, IsWorkspace, IsScored,
}
use opencaw.Dynamic.Evict.{Consolidator, remove_at, decremented, evict_fragment}
use opencaw.Dynamic.Evict.Removal.{remove_at-length, remove_at-sum_of, remove_at-All}

has_key-get_elem? :
    (i : ℕ) (fs : List RecallFragment) (f : RecallFragment)
    → get_elem? fs i ≡ some f
    → has_key f.stub_id (ids_of fs) ≡ true
has_key-get_elem? i [] f h = cc
has_key-get_elem? zero (g ∷ fs) f h =
    let same : g.stub_id ≡ f.stub_id = cc h in ground (arith, eq_iff g.stub_id f.stub_id)
has_key-get_elem? (suc i) (g ∷ fs) f h = ground (arith, has_key-get_elem? i fs f h)

pub get_elem?-length :
    (i : ℕ) (fs : List RecallFragment) (f : RecallFragment)
    → get_elem? fs i ≡ some f
    → i + 1 ≤ length fs
get_elem?-length i [] f h = cc
get_elem?-length zero (g ∷ fs) f h = omega arith
get_elem?-length (suc i) (g ∷ fs) f h = omega (arith, get_elem?-length i fs f h)

has_key-remove_at :
    (i : ℕ) (fs : List RecallFragment) (j : String)
    → has_key j (ids_of fs) ≡ false
    → has_key j (ids_of (remove_at i fs)) ≡ false
unfolding remove_at
has_key-remove_at i [] j h = h
has_key-remove_at zero (g ∷ fs) j h = ground arith
has_key-remove_at (suc i) (g ∷ fs) j h = ground (arith, has_key-remove_at i fs j)

remove_at-IsDistinct :
    (i : ℕ) (fs : List RecallFragment)
    → IsDistinct (ids_of fs)
    → IsDistinct (ids_of (remove_at i fs))
unfolding remove_at IsDistinct
remove_at-IsDistinct i [] d = d
remove_at-IsDistinct zero (g ∷ fs) (h, d) = d
remove_at-IsDistinct (suc i) (g ∷ fs) (h, d) =
    (has_key-remove_at i fs g.stub_id h, remove_at-IsDistinct i fs d)

-- With distinct ids, exactly the id of the fragment is gone.
remove_at-has_key :
    (i : ℕ) (fs : List RecallFragment) (f : RecallFragment) (j : String)
    → get_elem? fs i ≡ some f
    → IsDistinct (ids_of fs)
    → has_key j (ids_of (remove_at i fs))
      ≡ (if str_eq f.stub_id j then false else has_key j (ids_of fs))
unfolding remove_at IsDistinct
remove_at-has_key i [] f j h d = cc
remove_at-has_key zero (g ∷ fs) f j h (apart, d) =
    let same : g.stub_id ≡ f.stub_id = cc h in
    elim (Bool-cases (str_eq f.stub_id j)) [
      | inl e ↦ let own : g.stub_id ≡ j = same ∙ (eq_iff f.stub_id j).0 e in rw e (rw own at apart)
      | inr e ↦
          let other : str_eq g.stub_id j ≡ false = ap (λ s. str_eq s j) same ∙ e in
          rw (e, other) refl
    ]
remove_at-has_key (suc i) (g ∷ fs) f j h (apart, d) = elim (Bool-cases (str_eq g.stub_id j)) [
  | inl e ↦
      let own = (eq_iff g.stub_id j).0 e in
      let apart' : has_key j (ids_of fs) ≡ false = rw own at apart in
      ground (arith, has_key-get_elem? i fs f h, eq_iff f.stub_id j)
  | inr e ↦ rw e (remove_at-has_key i fs f j h d)
]

All-has_key :
    (j : String) (fs : List RecallFragment)
    → has_key j (ids_of fs) ≡ false
    → All (λ g. str_eq g.stub_id j ≡ false) fs
All-has_key j [] h = tt
All-has_key j (g ∷ fs) h = (ground arith, All-has_key j fs (ground arith))

HasScore-remove_entry :
    {F : Type 0} (j : String) (scores : StrMap F) (g : RecallFragment)
    → str_eq g.stub_id j ≡ false
    → HasScore scores g
    → HasScore (remove_entry j scores) g
HasScore-remove_entry j scores g apart (s, h) =
    let apart' : str_eq j g.stub_id ≡ false =
      ground (arith, eq_iff g.stub_id j, eq_iff j g.stub_id) in
    rw apart' (s, h)

IsScored-remove_entry :
    {F : Type 0} (lax : Bool) (j : String) (scores : StrMap F) (g : RecallFragment)
    → str_eq g.stub_id j ≡ false
    → IsScored lax scores g
    → IsScored lax (remove_entry j scores) g
IsScored-remove_entry true j scores g apart h = tt
IsScored-remove_entry false j scores g apart h = HasScore-remove_entry j scores g apart h

-- The counts after a fragment is evicted.
abbrev counts_without : StrMap ℕ → RecallFragment → StrMap ℕ
counts_without counts f =
    if is_history f then counts else decremented f.locator.source (counts f.locator.source) counts

decremented-count :
    (counts : StrMap ℕ) (s source : String) (n : ℕ)
    → entry_or 0 (counts source) ≡ n
    → entry_or 0 (decremented s (counts s) counts source) ≡ n - (if str_eq s source then 1 else 0)
decremented-count counts s source n h = elim (Option-cases (counts s)) [
  | inl e ↦ elim (Bool-cases (str_eq s source)) [
    | inl same ↦
        let gone : counts source ≡ none = ap counts (sym ((eq_iff s source).0 same)) ∙ e in
        rw (e, same) (h ∙ ground (arith, h, gone))
    | inr other ↦ rw (e, other) (h ∙ omega arith)
  ]
  | inr (count, e) ↦ elim (Bool-cases (str_eq s source)) [
    | inl same ↦
        let held : counts source ≡ some count = ap counts (sym ((eq_iff s source).0 same)) ∙ e in
        rw (e, same) (ground (arith, h, held))
    | inr other ↦ rw (e, other) (ground (arith, h))
  ]
]

module _ {F : Type 0} ⦃fl : Float F⦄ (lax : Bool) (source_of : String → String) where
  counts_without-count :
      (self : Orchestrator F) (i : ℕ) (f : RecallFragment) (source : String)
      → get_elem? self.loaded i ≡ some f
      → IsWorkspace lax source_of self
      → entry_or 0 (counts_without self.loaded_source_counts f source)
        ≡ count_from source (remove_at i self.loaded)
  counts_without-count self i f source at w =
      let less = remove_at-sum_of (from_source source) i self.loaded f at in
      elim (Bool-cases (is_history f)) [
        | inl history ↦ rw history (w.counts source ∙ ground arith)
        | inr corpus ↦ rw corpus (
            decremented-count self.loaded_source_counts f.locator.source source _ (w.counts source)
            ∙ ground arith)
      ]

  pub evict_fragment-IsWorkspace :
      (sv : Services) (co : Consolidator F) (query : Text) (i : ℕ) (f : RecallFragment)
      (self : Orchestrator F)
      → get_elem? self.loaded i ≡ some f
      → IsWorkspace lax source_of self
      → IsWorkspace lax source_of (evict_fragment sv co query i f self)
  unfolding evict_fragment
  evict_fragment-IsWorkspace sv co query i f self at w = record {
    ids = λ j. rw (remove_at-has_key i self.loaded f j at w.distinct, w.ids j) refl;
    distinct = remove_at-IsDistinct i self.loaded w.distinct;
    scored =
        All-imp_both (IsScored-remove_entry lax f.stub_id self.relevance_scores)
          (remove_at i self.loaded)
          (All-has_key f.stub_id (remove_at i self.loaded) (
            rw (remove_at-has_key i self.loaded f f.stub_id at w.distinct, eq_refl f.stub_id) refl))
          (remove_at-All (IsScored lax self.relevance_scores) i self.loaded w.scored);
    origin = remove_at-All (HasOrigin source_of) i self.loaded w.origin;
    budget = omega (arith, w.budget, remove_at-sum_of (λ g. g.tokens) i self.loaded f at);
    few = omega (
      arith,
      w.few,
      remove_at-length i self.loaded (omega (arith, get_elem?-length i self.loaded f at)),
    );
    counts = λ source. counts_without-count self i f source at w;
    capped = λ source open_source. omega (
      arith,
      w.capped source open_source,
      remove_at-sum_of (from_source source) i self.loaded f at,
    );
  }
