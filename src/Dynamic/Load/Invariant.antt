-- ===== src/Dynamic/Load/Invariant.antt =====
-- The invariant of the workspace, and how replacing a fragment keeps what it speaks of.
use opencaw.Prelude.{
  ℕ, ◌+◌, ◌≤◌, ◌≡◌, ◌∙◌, refl, sym, ap, inl, inr, Bool, true, false, not, ◌&&◌, ◌||◌, String, some,
  List, [], ◌∷◌, map, arith, length, any_b, str_eq, eq_iff, eq_refl, if◌then◌else◌, sum_of, All,
  StrMap, put_entry, entry_or, Bool-cases,
}
use opencaw.Prelude.Keys.{has_key, IsDistinct}
use opencaw.Core.{ok, RecallFragment, total_tokens}
use opencaw.Dynamic.{Orchestrator, Services, is_history}
use opencaw.Dynamic.Load.{tokens_of, replace_first, is_stub_of}

abbrev pub ids_of : List RecallFragment → List String
ids_of = map (λ f. f.stub_id)

-- How many of the fragments count for the source: session history counts for none.
abbrev pub from_source : String → RecallFragment → ℕ
from_source source f = if str_eq f.locator.source source && not (is_history f) then 1 else 0

abbrev pub count_from : String → List RecallFragment → ℕ
count_from source = sum_of (from_source source)

abbrev pub HasScore : {F : Type 0} → StrMap F → RecallFragment → Type 0
HasScore {F} scores f = (score : F) × (scores f.stub_id ≡ some score)

-- A lax workspace may hold fragments without a score.
abbrev pub IsScored : {F : Type 0} → Bool → StrMap F → RecallFragment → Type 0
IsScored true scores f = Unit
IsScored false scores f = HasScore scores f

-- A retriever answers with the fragment that it is asked for, and a stub has one source.
abbrev pub IsRetriever : Services → (String → String) → Type 0
IsRetriever sv source_of =
    (id range : String) (f : RecallFragment)
    → sv.read_range id range ≡ ok f
    → (f.stub_id ≡ id) × (f.locator.source ≡ source_of id)

-- A fragment that is shown as a stub comes from the stub's source.
abbrev pub HasOrigin : (String → String) → RecallFragment → Type 0
HasOrigin source_of f =
    str_eq f.locator.locator "stub" ≡ true → f.locator.source ≡ source_of f.stub_id

-- A lax workspace may also exceed the cap of a source.
module _ {F : Type 0} (lax : Bool) (source_of : String → String) where
  pub record IsWorkspace (self : Orchestrator F) : Type 0 where
    -- the set is the ids of the loaded fragments, which are distinct
    pub ids : (id : String) → self.loaded_ids id ≡ has_key id (ids_of self.loaded)
    pub distinct : IsDistinct (ids_of self.loaded)
    -- every loaded fragment has a score
    pub scored : All (IsScored lax self.relevance_scores) self.loaded
    pub origin : All (HasOrigin source_of) self.loaded
    -- the workspace keeps its budget and its number of fragments
    pub budget : total_tokens self.loaded ≤ self.config.max_workspace_tokens
    pub few : length self.loaded ≤ self.config.max_loaded_fragments
    -- the map counts the fragments of each source, and these keep the cap
    pub counts :
        (source : String)
        → entry_or 0 (self.loaded_source_counts source) ≡ count_from source self.loaded
    pub capped :
        (source : String)
        → lax || self.cap_exempt_sources source ≡ false
        → count_from source self.loaded ≤ self.config.max_chunks_per_source

pub HasScore-put :
    {F : Type 0}
    → (id : String) (score : F) (scores : StrMap F) (f : RecallFragment) → HasScore scores f
    → HasScore (put_entry id score scores) f
HasScore-put id score scores f (s, h) = elim (Bool-cases (str_eq id f.stub_id)) [
  | inl e ↦ rw e (score, refl)
  | inr e ↦ rw e (s, h)
]

pub HasScore-own :
    {F : Type 0}
    → (id : String) (score : F) (scores : StrMap F) (f : RecallFragment) → f.stub_id ≡ id
    → HasScore (put_entry id score scores) f
HasScore-own id score scores f h =
    let e : str_eq id f.stub_id ≡ true = rw h (eq_refl id) in rw e (score, refl)

pub IsScored-put :
    {F : Type 0}
    → (lax : Bool) (id : String) (score : F) (scores : StrMap F) (f : RecallFragment)
    → IsScored lax scores f
    → IsScored lax (put_entry id score scores) f
IsScored-put true id score scores f h = tt
IsScored-put false id score scores f h = HasScore-put id score scores f h

pub IsScored-own :
    {F : Type 0}
    → (lax : Bool) (id : String) (score : F) (scores : StrMap F) (f : RecallFragment)
    → f.stub_id ≡ id
    → IsScored lax (put_entry id score scores) f
IsScored-own true id score scores f h = tt
IsScored-own false id score scores f h = HasScore-own id score scores f h

module _ (id : String) (body : RecallFragment) (own : body.stub_id ≡ id) where
  pub replace_first-ids : (fs : List RecallFragment) → ids_of (replace_first id body fs) ≡ ids_of fs
  unfolding replace_first
  replace_first-ids [] = refl
  replace_first-ids (f ∷ fs) = elim (Bool-cases (str_eq f.stub_id id)) [
    | inl e ↦
        let same : body.stub_id ≡ f.stub_id = own ∙ sym ((eq_iff f.stub_id id).0 e) in
        rw e (ap (λ i. i ∷ ids_of fs) same)
    | inr e ↦ rw e (ap (◌∷◌ f.stub_id) (replace_first-ids fs))
  ]

  pub replace_first-length :
      (fs : List RecallFragment) → length (replace_first id body fs) ≡ length fs
  unfolding replace_first
  replace_first-length [] = refl
  replace_first-length (f ∷ fs) = ground (arith, replace_first-length fs)

  pub replace_first-tokens :
      (fs : List RecallFragment)
      → total_tokens (replace_first id body fs) + tokens_of id fs ≤ total_tokens fs + body.tokens
  unfolding replace_first tokens_of
  replace_first-tokens [] = omega arith
  replace_first-tokens (f ∷ fs) = ground (arith, replace_first-tokens fs)

  pub replace_first-All :
      (P : RecallFragment → Type 0) (fs : List RecallFragment)
      → P body
      → All P fs
      → All P (replace_first id body fs)
  unfolding replace_first
  replace_first-All P [] b h = _
  replace_first-All P (f ∷ fs) b (h, hs) = elim (Bool-cases (str_eq f.stub_id id)) [
    | inl e ↦ rw e (b, hs)
    | inr e ↦ rw e (h, replace_first-All P fs b hs)
  ]

pub tokens_of-le : (id : String) (fs : List RecallFragment) → tokens_of id fs ≤ total_tokens fs
unfolding tokens_of
tokens_of-le id [] = omega arith
tokens_of-le id (f ∷ fs) = ground (arith, tokens_of-le id fs)

stub_has_key :
    (id : String) (fs : List RecallFragment)
    → any_b (is_stub_of id) fs ≡ true
    → has_key id (ids_of fs) ≡ true
unfolding is_stub_of
stub_has_key id [] h = h
stub_has_key id (f ∷ fs) h = ground (arith, stub_has_key id fs)

-- With distinct ids, the fragment that is found by its id is the stub.
first_is_stub :
    (id : String) (f : RecallFragment) (fs : List RecallFragment)
    → str_eq f.stub_id id ≡ true
    → has_key f.stub_id (ids_of fs) ≡ false
    → any_b (is_stub_of id) (f ∷ fs) ≡ true
    → is_stub_of id f ≡ true
first_is_stub id f fs e apart h =
    let same = (eq_iff f.stub_id id).0 e in
    let apart' : has_key id (ids_of fs) ≡ false = rw same at apart in
    ground (arith, stub_has_key id fs)

from_source-same :
    (source : String) (f g : RecallFragment)
    → f.locator.source ≡ g.locator.source
    → from_source source f ≡ from_source source g
from_source-same source f g e =
    ap (λ s. if str_eq s source && not (str_eq s "session history") then 1 else 0) e

pub replace_first-count :
    (source_of : String → String) (id : String) (body : RecallFragment) (source : String)
    (fs : List RecallFragment)
    → body.locator.source ≡ source_of id
    → any_b (is_stub_of id) fs ≡ true
    → IsDistinct (ids_of fs)
    → All (HasOrigin source_of) fs
    → count_from source (replace_first id body fs) ≡ count_from source fs
unfolding replace_first IsDistinct is_stub_of
replace_first-count source_of id body source [] b h d o = refl
replace_first-count source_of id body source (f ∷ fs) b h (d, ds) (o, os) =
    elim (Bool-cases (str_eq f.stub_id id)) [
      | inl e ↦
          let stub = first_is_stub id f fs e d h in
          let place : f.locator.source ≡ source_of id =
            o (ground arith) ∙ ap source_of ((eq_iff f.stub_id id).0 e) in
          rw e (ap (λ n. n + count_from source fs) (from_source-same source body f (b ∙ sym place)))
      | inr e ↦ rw e (
          ap (λ n. from_source source f + n)
            (replace_first-count source_of id body source fs b (ground arith) ds os))
    ]
