-- ===== src/Recall/Admitted.antt =====
-- `record_admitted` and the ids that were seen, for crates/caw-orchestrator/src/lib.rs.
use mathlib.Core.List.{Sublistᴰ, append_assoc}
use opencaw.Prelude.{
  ◌≡◌, refl, sym, ap, ◌∙◌, true, false, List, [], ◌∷◌, ◌++◌, All, String, StrSet, if◌then◌else◌,
  arith, str_eq, add_key,
}
use opencaw.Prelude.Keys.{has_key, IsDistinct, has_key-snoc, str_eq-sym, IsDistinct-snoc}
use opencaw.Core.{RecallFragment}
use opencaw.Scheduler.{ids_of}
use opencaw.Recall.{Workspace, record_admitted}

part-has_key :
    (k : String) (xs ys : List RecallFragment)
    → Sublistᴰ xs ys
    → has_key k (ids_of ys) ≡ false
    → has_key k (ids_of xs) ≡ false
part-has_key k [] ys s h = refl
part-has_key k (x ∷ xs) [] s h = elim s [ ]
part-has_key k (x ∷ xs) (y ∷ ys) (Sublistᴰ.cons s) h = part-has_key k (x ∷ xs) ys s (ground arith)
part-has_key k (x ∷ xs) (y ∷ ys) (Sublistᴰ.cons-cons e s) h =
    rw e (ground (arith, part-has_key k xs ys s))

pub part-IsDistinct :
    (xs ys : List RecallFragment) → Sublistᴰ xs ys → IsDistinct (ids_of ys) → IsDistinct (ids_of xs)
unfolding IsDistinct
part-IsDistinct [] ys s d = tt
part-IsDistinct (x ∷ xs) [] s d = elim s [ ]
part-IsDistinct (x ∷ xs) (y ∷ ys) (Sublistᴰ.cons s) (h, d) = part-IsDistinct (x ∷ xs) ys s d
part-IsDistinct (x ∷ xs) (y ∷ ys) (Sublistᴰ.cons-cons e s) (h, d) =
    (part-has_key x.stub_id xs ys s (rw e h), part-IsDistinct xs ys s d)

-- None of the fragments was seen.
abbrev pub Unseen : StrSet → List RecallFragment → Type 0
Unseen seen = All (λ f. seen f.stub_id ≡ false)

Unseen-add_key :
    (k : String) (seen : StrSet) (fs : List RecallFragment)
    → has_key k (ids_of fs) ≡ false
    → Unseen seen fs
    → Unseen (add_key k seen) fs
Unseen-add_key k seen [] h u = tt
Unseen-add_key k seen (f ∷ fs) h (u, us) =
    (ground (arith, str_eq-sym f.stub_id k), Unseen-add_key k seen fs (ground arith) us)

pub has_key-cons :
    (j k : String) (xs ys : List String)
    → (has_key k xs ≡ false → has_key k ys ≡ false)
    → has_key k (j ∷ xs) ≡ false
    → has_key k (j ∷ ys) ≡ false
has_key-cons j k xs ys f h = ground (arith, f (ground arith))

ids_of-snoc :
    (fs : List RecallFragment) (f : RecallFragment)
    → ids_of (fs ++ (f ∷ [])) ≡ ids_of fs ++ (f.stub_id ∷ [])
ids_of-snoc [] f = refl
ids_of-snoc (g ∷ fs) f = ap (λ ids. g.stub_id ∷ ids) (ids_of-snoc fs f)

module _ {S : Type 0} (before : List RecallFragment) where
  -- What was admitted in this turn has distinct ids, and they are what was seen.
  pub record IsOnce (w : Workspace S) : Type 0 where
    pub new : List RecallFragment
    pub recorded : w.provenance ≡ before ++ new
    pub distinct : IsDistinct (ids_of new)
    pub seen : (id : String) → w.seen id ≡ has_key id (ids_of new)

  pub record_admitted-IsOnce :
      (fs : List RecallFragment) (w : Workspace S)
      → IsDistinct (ids_of fs)
      → Unseen w.seen fs
      → IsOnce w
      → IsOnce (record_admitted fs w)
  unfolding record_admitted IsDistinct
  record_admitted-IsOnce [] w d u o = o
  record_admitted-IsOnce (f ∷ fs) w (apart, d) (unseen, u) o =
      record_admitted-IsOnce fs _ d (Unseen-add_key f.stub_id w.seen fs apart u) (record {
        new = o.new ++ (f ∷ []);
        recorded = ap (λ fs. fs ++ (f ∷ [])) o.recorded ∙ append_assoc before o.new (f ∷ []);
        distinct =
            rw ids_of-snoc (
              IsDistinct-snoc (ids_of o.new) f.stub_id (sym (o.seen f.stub_id) ∙ unseen)
                o.distinct);
        seen = λ id.
            rw (ids_of-snoc o.new f, has_key-snoc id f.stub_id (ids_of o.new))
              (ap (λ b. if str_eq f.stub_id id then true else b) (o.seen id));
      })
