-- ===== src/Dynamic/Evict/Loop.antt =====
-- The loop of `evict_stale_fragments` that removes: it does not panic on indices in range.
use mathlib.Core.Path.{subst}
use mathlib.Core.Option.{none-ne-some, map as map_option}
use mathlib.Core.List.{append_assoc, append-nil}
use opencaw.Prelude.{
  ℕ, zero, suc, sym, ap, ◌++◌, map, sum_of, entry_or, ◌+◌, ◌<◌, ◌≡◌, ◌∙◌, refl, inl, inr, String,
  some, List, [], ◌∷◌, arith, length, get_elem?, All, All-imp, Option-cases, Bool,
}
use opencaw.Prelude.Float.{Float}
use opencaw.Prelude.Sort.{IsDescending}
use opencaw.Core.{Text, RecallFragment, ConsolidationNote, eviction}
use opencaw.Dynamic.{Orchestrator, Services}
use opencaw.Dynamic.Load.Invariant.{IsWorkspace}
use opencaw.Dynamic.Evict.{Consolidator, remove_at, evict_fragment, evict_loop}
use opencaw.Dynamic.Evict.Removal.{remove_at-length, remove_all, get_elem?-lt}
use opencaw.Dynamic.Evict.Forget.{evict_fragment-IsWorkspace}

remove_at-sum_of :
    (weight : RecallFragment → ℕ) (i : ℕ) (fs : List RecallFragment) (f : RecallFragment)
    → get_elem? fs i ≡ some f
    → sum_of weight fs ≡ weight f + sum_of weight (remove_at i fs)
unfolding remove_at
remove_at-sum_of weight i [] f e = absurd (ground arith)
remove_at-sum_of weight zero (g ∷ fs) f e =
    let same : weight g ≡ weight f = ap (λ o. entry_or 0 (map_option weight o)) e in
    omega (arith, same)
remove_at-sum_of weight (suc i) (g ∷ fs) f e = omega (arith, remove_at-sum_of weight i fs f e)

module _ {F : Type 0} ⦃fl : Float F⦄ where
  -- The fragments that are gone: with those that are left they are the fragments that were loaded,
  -- and each of them, in the same order, is told to the evaluator and has a note of an eviction.
  pub record IsAccounted (self after : Orchestrator F) : Type 0 where
    pub gone : List RecallFragment
    pub split :
        (weight : RecallFragment → ℕ)
        → sum_of weight self.loaded ≡ sum_of weight gone + sum_of weight after.loaded
    pub told : after.evictions ≡ self.evictions ++ map (λ f. f.stub_id) gone
    pub notes : List (String × ConsolidationNote)
    pub noted : after.consolidations ≡ self.consolidations ++ notes
    pub named : map (λ n. n.0) notes ≡ map (λ f. f.stub_id) gone
    pub evictions_only : All (λ n. n.1.source ≡ eviction) notes

  evict_fragment-IsAccounted :
      (sv : Services) (co : Consolidator F) (query : Text) (i : ℕ) (f : RecallFragment)
      (self after : Orchestrator F)
      → get_elem? self.loaded i ≡ some f
      → IsAccounted (evict_fragment sv co query i f self) after
      → IsAccounted self after
  unfolding evict_fragment
  evict_fragment-IsAccounted sv co query i f self after at rest = record {
    gone = f ∷ rest.gone;
    split = λ weight. omega (arith, rest.split weight, remove_at-sum_of weight i self.loaded f at);
    told =
        rest.told ∙ append_assoc self.evictions (f.stub_id ∷ []) (map (λ g. g.stub_id) rest.gone);
    notes = _ ∷ rest.notes;
    noted = rest.noted ∙ append_assoc self.consolidations (_ ∷ []) rest.notes;
    named = ap (λ ids. f.stub_id ∷ ids) rest.named;
    evictions_only = (refl, rest.evictions_only);
  }

  pub evict_loop_lem :
      (sv : Services) (co : Consolidator F) (query : Text) (is : List ℕ) (self : Orchestrator F)
      → IsDescending is
      → All (λ i. i < length self.loaded) is
      → (after : Orchestrator F) × (evict_loop sv co query is self ≡ some after)
        × (after.loaded ≡ remove_all is self.loaded)
        × IsAccounted self after
  unfolding evict_loop remove_all
  evict_loop_lem sv co query [] self d h = (
    self,
    refl,
    refl,
    record {
      gone = [];
      split = λ weight. omega arith;
      told = sym (append-nil self.evictions);
      notes = [];
      noted = sym (append-nil self.consolidations);
      named = refl;
      evictions_only = tt;
    },
  )
  evict_loop_lem sv co query (i ∷ is) self (below, d) (h, hs) =
      let (f, at) = get_elem?-lt self.loaded i h in
      let next = evict_fragment sv co query i f self in
      let len = remove_at-length i self.loaded h in
      let (after, eq, loaded, accounted) =
        evict_loop_lem sv co query is next d
          (unfold evict_fragment in All-imp (λ j lt. omega arith) is below) in
      (
        after,
        rw (evict_loop, at) eq,
        loaded ∙ unfold evict_fragment in refl,
        evict_fragment-IsAccounted sv co query i f self after at accounted,
      )

  pub evict_loop-IsWorkspace :
      (lax : Bool) (source_of : String → String) (sv : Services) (co : Consolidator F)
      (query : Text) (is : List ℕ) (self after : Orchestrator F)
      → evict_loop sv co query is self ≡ some after
      → IsWorkspace lax source_of self
      → IsWorkspace lax source_of after
  unfolding evict_loop
  evict_loop-IsWorkspace lax source_of sv co query [] self after eq w =
      subst (IsWorkspace lax source_of) (cc eq) w
  evict_loop-IsWorkspace lax source_of sv co query (i ∷ is) self after eq w =
      elim (Option-cases (get_elem? self.loaded i)) [
        | inl e ↦ absurd (none-ne-some _ (rw (evict_loop, e) at eq))
        | inr (f, e) ↦
            evict_loop-IsWorkspace lax source_of sv co query is
              (evict_fragment sv co query i f self) after (rw (evict_loop, e) at eq)
              (evict_fragment-IsWorkspace lax source_of sv co query i f self e w)
      ]
