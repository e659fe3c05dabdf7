-- ===== src/Dynamic/Load/Coverage.antt =====
-- What `coverage_first_order` puts first.
use opencaw.Prelude.{
  ◌≡◌, ◌∙◌, refl, sym, ap, ◌⊎◌, inl, inr, true, false, String, List, [], ◌∷◌, ◌++◌, map, arith,
  str_eq, eq_iff, All, All-imp, All-of_All, filter_b, filter_b-eq_self, Bool, not, ◌&&◌, StrSet,
  no_keys, add_key, Bool-cases,
}
use opencaw.Prelude.Keys.{has_key, IsDistinct, str_eq-sym}
use opencaw.Dynamic.Load.{split_seen, coverage_first_order}

-- The list is put together from the two others, which keep their order.
unfoldable pub IsMerge : {T : Type 0} → List T → List T → List T → Type 0
IsMerge [] xs ys = (xs ≡ []) × (ys ≡ [])
IsMerge {T} (h ∷ hs) xs ys =
    ((rest : List T) × (xs ≡ h ∷ rest) × IsMerge hs rest ys)
    ⊎ ((rest : List T) × (ys ≡ h ∷ rest) × IsMerge hs xs rest)

module _ {T : Type 0} (source_of : T → String) where
  -- Of each source its first hit.
  unfoldable pub first_hits : List T → List T
  first_hits [] = []
  first_hits (h ∷ hs) = h ∷ filter_b (λ g. not (str_eq (source_of h) (source_of g))) (first_hits hs)

  -- A filter of a filter, where the two tests together are a third.
  filter_b-filter_b :
      (p q r : T → Bool)
      → ((x : T) → (q x && p x) ≡ r x)
      → (xs : List T) → filter_b p (filter_b q xs) ≡ filter_b r xs
  filter_b-filter_b p q r same [] = refl
  filter_b-filter_b p q r same (x ∷ xs) =
      let rest = filter_b-filter_b p q r same xs in
      elim (Bool-cases (q x)) [
        | inl e ↦ elim (Bool-cases (p x)) [
          | inl d ↦
              let both : r x ≡ true = sym (same x) ∙ ground arith in
              rw (e, both) (rw d (ap (◌∷◌ x) rest))
          | inr d ↦ let one : r x ≡ false = sym (same x) ∙ ground arith in rw (e, one) (rw d rest)
        ]
        | inr e ↦ let one : r x ≡ false = sym (same x) ∙ ground arith in rw (e, one) rest
      ]

  not_seen : StrSet → T → Bool
  not_seen seen g = not (seen (source_of g))

  split_seen-first_hits :
      (seen : StrSet) (hits : List T)
      → (split_seen source_of seen hits).0 ≡ filter_b (not_seen seen) (first_hits hits)
  unfolding split_seen first_hits not_seen
  split_seen-first_hits seen [] = refl
  split_seen-first_hits seen (h ∷ hits) =
      let k = source_of h in
      let rest = split_seen-first_hits (add_key k seen) hits in
      let apart : T → Bool = λ g. not (str_eq k (source_of g)) in
      let fused : filter_b (not_seen seen) (filter_b apart (first_hits hits))
          ≡ filter_b (not_seen (add_key k seen)) (first_hits hits) =
        filter_b-filter_b (not_seen seen) apart (not_seen (add_key k seen)) (λ g. ground arith)
          (first_hits hits) in
      elim (Bool-cases (seen k)) [
        | inl e ↦ rw (split_seen, e) (rest ∙ sym fused)
        | inr e ↦ rw (split_seen, e) (ap (◌∷◌ h) (rest ∙ sym fused))
      ]

  -- The first hits of the sources that are not yet seen, and the others.
  pub record IsSplitSeen (seen : StrSet) (hits first rest : List T) : Type 0 where
    pub merged : IsMerge hits first rest
    pub distinct : IsDistinct (map source_of first)
    pub unseen : All (λ h. seen (source_of h) ≡ false) first
    pub covered :
        All
          (λ h. (seen (source_of h) ≡ true) ⊎ (has_key (source_of h) (map source_of first) ≡ true))
          rest

  not_in :
      (k : String) (seen : StrSet) (hits : List T)
      → All (λ h. add_key k seen (source_of h) ≡ false) hits
      → has_key k (map source_of hits) ≡ false
  not_in k seen [] h = refl
  not_in k seen (x ∷ xs) (h, hs) = ground (arith, not_in k seen xs hs, str_eq-sym k (source_of x))

  unseen_before : (k s : String) (seen : StrSet) → add_key k seen s ≡ false → seen s ≡ false
  unseen_before k s seen h = ground arith

  seen_again :
      (k s : String) (seen : StrSet) → seen k ≡ true → add_key k seen s ≡ true → seen s ≡ true
  seen_again k s seen there h = elim (Bool-cases (str_eq k s)) [
    | inl e ↦ ap seen (sym ((eq_iff k s).0 e)) ∙ there
    | inr e ↦ rw e at h
  ]

  seen_or_first :
      (k s : String) (seen : StrSet) (keys : List String)
      → (add_key k seen s ≡ true) ⊎ (has_key s keys ≡ true)
      → (seen s ≡ true) ⊎ (has_key s (k ∷ keys) ≡ true)
  seen_or_first k s seen keys (inl h) = elim (Bool-cases (str_eq k s)) [
    | inl e ↦ inr (rw e refl)
    | inr e ↦ inl (rw e at h)
  ]
  seen_or_first k s seen keys (inr h) = inr (ground arith)

  split_seen-IsSplitSeen :
      (seen : StrSet) (hits : List T)
      → IsSplitSeen seen hits (split_seen source_of seen hits).0 (split_seen source_of seen hits).1
  unfolding split_seen IsMerge IsDistinct
  split_seen-IsSplitSeen seen [] = record {
    merged = (refl, refl);
    distinct = _;
    unseen = _;
    covered = _;
  }
  split_seen-IsSplitSeen seen (h ∷ hits) =
      let k = source_of h in
      let s = split_seen-IsSplitSeen (add_key k seen) hits in
      let first = (split_seen source_of (add_key k seen) hits).0 in
      let rest = (split_seen source_of (add_key k seen) hits).1 in
      elim (Bool-cases (seen k)) [
        | inl there ↦
            rw (split_seen, there)
              (record {
                merged = inr (rest, refl, s.merged);
                distinct = s.distinct;
                unseen =
                    All-imp {P = λ g. add_key k seen (source_of g) ≡ false}
                      (λ g u. unseen_before k (source_of g) seen u) first s.unseen;
                covered = (
                  inl there,
                  All-imp
                      (λ g c. elim c [
                        | inl u ↦ inl (seen_again k (source_of g) seen there u)
                        | inr u ↦ inr u
                      ])
                      rest s.covered,
                );
              })
        | inr new ↦
            rw (split_seen, new)
              (record {
                merged = inl (first, refl, s.merged);
                distinct = (not_in k seen first s.unseen, s.distinct);
                unseen = (
                  new,
                  All-imp {P = λ g. add_key k seen (source_of g) ≡ false}
                      (λ g u. unseen_before k (source_of g) seen u) first s.unseen,
                );
                covered =
                    All-imp (λ g c. seen_or_first k (source_of g) seen (map source_of first) c) rest
                      s.covered;
              })
      ]

  -- Coverage first: the first hit of each source, then the others.
  pub record IsCovered (hits out : List T) : Type 0 where
    pub first : List T
    pub rest : List T
    pub parts : out ≡ first ++ rest
    pub firsts : first ≡ first_hits hits
    pub merged : IsMerge hits first rest
    pub distinct : IsDistinct (map source_of first)
    pub covered : All (λ h. has_key (source_of h) (map source_of first) ≡ true) rest

  -- The reordered hits are a first part with the first hit of each source and no other, and then
  -- all others; together they are the hits, and both parts keep the order of the hits.
  pub coverage_first_order-IsCovered :
      (hits : List T) → IsCovered hits (coverage_first_order source_of hits)
  unfolding coverage_first_order not_seen
  coverage_first_order-IsCovered hits =
      let s = split_seen-IsSplitSeen no_keys hits in
      record {
        first = (split_seen source_of no_keys hits).0;
        rest = (split_seen source_of no_keys hits).1;
        parts = refl;
        firsts =
            split_seen-first_hits no_keys hits
            ∙ filter_b-eq_self (not_seen no_keys) (first_hits hits)
                (All-of_All (λ g. not_seen no_keys g ≡ true) (λ g. refl) (first_hits hits));
        merged = s.merged;
        distinct = s.distinct;
        covered =
            All-imp (λ g c. elim c [ inl u ↦ absurd (ground arith) | inr u ↦ u ])
              (split_seen source_of no_keys hits).1 s.covered;
      }
