-- ===== src/Expansion/Geometry.antt =====
-- `stub_for_byte` of crates/caw-index/src/graph_edges.rs: the chunk of a file that a byte belongs to.
pub mod Tests
use mathlib.Core.List.{Memᴰ}
use mathlib.Core.Path.{subst}
use opencaw.Prelude.{
  ℕ, ◌+◌, ◌<◌, ◌≤◌, ◌≡◌, refl, sym, ap, ◌⊎◌, inl, inr, Bool, true, false, ◌&&◌, Option, none, some,
  String, List, [], ◌∷◌, arith, leb, ltb, if◌then◌else◌, filter_b, All, All-imp, All-imp_both,
  Bool-cases,
}

pub record StubGeometry : Type 0 where
  pub id : String
  pub byte_offset : ℕ
  pub byte_length : ℕ

pub covers : ℕ → StubGeometry → Bool
covers byte g = leb g.byte_offset byte && ltb byte (g.byte_offset + g.byte_length)

pub covering : ℕ → List StubGeometry → Option StubGeometry
unfolding covers
covering byte [] = none
covering byte (g ∷ geom) = if covers byte g then some g else covering byte geom

-- `max_by_key` gives the last one of those with the highest key.
pub last_max : StubGeometry → List StubGeometry → StubGeometry
last_max best [] = best
last_max best (g ∷ geom) = last_max (if leb best.byte_offset g.byte_offset then g else best) geom

pub max_by_offset : List StubGeometry → Option StubGeometry
unfolding last_max
max_by_offset [] = none
max_by_offset (g ∷ geom) = some (last_max g geom)

-- The first loop returns early.
abbrev pub returned_or : Option StubGeometry → Option StubGeometry → Option StubGeometry
returned_or (some g) otherwise = some g
returned_or none otherwise = otherwise

abbrev pub id_of : Option StubGeometry → Option String
id_of none = none
id_of (some g) = some g.id

pub stub_for_byte : List StubGeometry → ℕ → Option String
unfolding covering max_by_offset
stub_for_byte geom byte =
    id_of (
      returned_or (covering byte geom)
        (max_by_offset (filter_b (λ g. leb g.byte_offset byte) geom)))

-- The byte is one of the chunk's bytes.
abbrev pub Holds : ℕ → StubGeometry → Type 0
Holds byte g = (g.byte_offset ≤ byte) × (byte < g.byte_offset + g.byte_length)

-- The byte is before the chunk or behind it.
abbrev pub Misses : ℕ → StubGeometry → Type 0
Misses byte g = (byte < g.byte_offset) ⊎ (g.byte_offset + g.byte_length ≤ byte)

Holds-of_covers : (byte : ℕ) (g : StubGeometry) → covers byte g ≡ true → Holds byte g
unfolding covers
Holds-of_covers byte g e = (ground arith, ground arith)

Misses-of_covers : (byte : ℕ) (g : StubGeometry) → covers byte g ≡ false → Misses byte g
unfolding covers
Misses-of_covers byte g e = ground arith

-- No chunk that covers the byte, or that begins behind `start` and not behind the byte.
abbrev IsLatest : ℕ → ℕ → List StubGeometry → Type 0
IsLatest byte start = All (λ h. Misses byte h × ((byte < h.byte_offset) ⊎ (h.byte_offset ≤ start)))

-- A chunk that covers the byte, or the last one that begins before it when none does.
abbrev pub IsChunkOf : ℕ → List StubGeometry → StubGeometry → Type 0
IsChunkOf byte geom g =
    Memᴰ g geom × (Holds byte g ⊎ ((g.byte_offset ≤ byte) × IsLatest byte g.byte_offset geom))

-- With no chunk, all begin behind the byte.
abbrev pub IsFound : ℕ → List StubGeometry → Option String → Type 0
IsFound byte geom none = All (λ h. byte < h.byte_offset) geom
IsFound byte geom (some id) = (g : StubGeometry) × IsChunkOf byte geom g × (g.id ≡ id)

-- What the search for a covering chunk finds.
abbrev IsCovering : ℕ → List StubGeometry → Option StubGeometry → Type 0
IsCovering byte geom none = All (Misses byte) geom
IsCovering byte geom (some g) = Memᴰ g geom × Holds byte g

covering-IsCovering :
    (byte : ℕ) (geom : List StubGeometry) → IsCovering byte geom (covering byte geom)
unfolding covering
covering-IsCovering byte [] = tt
covering-IsCovering byte (g ∷ geom) = elim (Bool-cases (covers byte g)) [
  | inl e ↦ rw (covering, e) (Memᴰ.head refl, Holds-of_covers byte g e)
  | inr e ↦ rw (covering, e) (behind (covering byte geom) (covering-IsCovering byte geom) e)
]
  where
    behind :
        (o : Option StubGeometry)
        → IsCovering byte geom o
        → covers byte g ≡ false
        → IsCovering byte (g ∷ geom) o
    behind none h e = (Misses-of_covers byte g e, h)
    behind (some c) (m, k) e = (Memᴰ.tail m, k)

-- The last of the highest: a member of the list, and as high as any.
abbrev IsMax : List StubGeometry → StubGeometry → Type 0
IsMax geom g = Memᴰ g geom × All (λ h. h.byte_offset ≤ g.byte_offset) geom

last_max-IsMax :
    (best : StubGeometry) (geom : List StubGeometry) → IsMax (best ∷ geom) (last_max best geom)
unfolding last_max
last_max-IsMax best [] = (Memᴰ.head refl, (omega arith, tt))
last_max-IsMax best (g ∷ geom) = elim (Bool-cases (leb best.byte_offset g.byte_offset)) [
  | inl e ↦
      let le : best.byte_offset ≤ g.byte_offset = ground arith in
      let step : last_max best (g ∷ geom) ≡ last_max g geom = rw (last_max, e) refl in
      subst (IsMax (best ∷ g ∷ geom)) (sym step)
        (newer le (last_max g geom) (last_max-IsMax g geom))
  | inr e ↦
      let le : g.byte_offset ≤ best.byte_offset = ground arith in
      let step : last_max best (g ∷ geom) ≡ last_max best geom = rw (last_max, e) refl in
      subst (IsMax (best ∷ g ∷ geom)) (sym step)
        (older le (last_max best geom) (last_max-IsMax best geom))
]
  where
    newer :
        best.byte_offset ≤ g.byte_offset
        → (r : StubGeometry) → IsMax (g ∷ geom) r
        → IsMax (best ∷ g ∷ geom) r
    newer le r (m, (h, hs)) = (Memᴰ.tail m, (omega arith, (h, hs)))

    older :
        g.byte_offset ≤ best.byte_offset
        → (r : StubGeometry) → IsMax (best ∷ geom) r
        → IsMax (best ∷ g ∷ geom) r
    older le r (Memᴰ.head e, (h, hs)) = (Memᴰ.head e, (h, (omega arith, hs)))
    older le r (Memᴰ.tail m, (h, hs)) = (Memᴰ.tail (Memᴰ.tail m), (h, (omega arith, hs)))

module _ (byte : ℕ) where
  abbrev before : List StubGeometry → List StubGeometry
  before = filter_b (λ g. leb g.byte_offset byte)

  Memᴰ-before :
      (geom : List StubGeometry) (g : StubGeometry)
      → Memᴰ g (before geom)
      → Memᴰ g geom × (g.byte_offset ≤ byte)
  Memᴰ-before [] g m = elim m [ ]
  Memᴰ-before (h ∷ geom) g m = elim (Bool-cases (leb h.byte_offset byte)) [
    | inl e ↦ kept (Memᴰ-before geom g) (rw e at m) (ground arith)
    | inr e ↦ let (k, le) = Memᴰ-before geom g (rw e at m) in (Memᴰ.tail k, le)
  ]
    where
      kept :
          (Memᴰ g (before geom) → Memᴰ g geom × (g.byte_offset ≤ byte))
          → Memᴰ g (h ∷ before geom)
          → h.byte_offset ≤ byte
          → Memᴰ g (h ∷ geom) × (g.byte_offset ≤ byte)
      kept rest (Memᴰ.head e) le = (Memᴰ.head e, omega (arith, ap (λ x. x.byte_offset) e))
      kept rest (Memᴰ.tail k) le = let (there, below) = rest k in (Memᴰ.tail there, below)

  -- What holds of the chunks that begin before the byte.
  All-before :
      (P : StubGeometry → Type 0) (geom : List StubGeometry)
      → All P (before geom)
      → All (λ h. (byte < h.byte_offset) ⊎ P h) geom
  All-before P [] h = tt
  All-before P (g ∷ geom) h = elim (Bool-cases (leb g.byte_offset byte)) [
    | inl e ↦ let (k, ks) = rw e at h in (inr k, All-before P geom ks)
    | inr e ↦ (inl (ground arith), All-before P geom (rw e at h))
  ]

  max_by_offset-IsLatest :
      (geom : List StubGeometry)
      → All (Misses byte) geom
      → (near : List StubGeometry) → near ≡ before geom
      → IsFound byte geom (id_of (max_by_offset near))
  unfolding max_by_offset covers
  max_by_offset-IsLatest geom none_covers [] e =
      All-imp (λ h b. elim b [ inl l ↦ l | inr x ↦ absurd x ]) geom
        (All-before (λ h. ⊥) geom (subst (All (λ h. ⊥)) e tt))
  max_by_offset-IsLatest geom none_covers (g ∷ near) e =
      let (m, hs) = last_max-IsMax g near in
      let (there, le) = Memᴰ-before geom (last_max g near) (subst (Memᴰ (last_max g near)) e m) in
      let later : All
          (λ h. (byte < h.byte_offset) ⊎ (h.byte_offset ≤ (last_max g near).byte_offset)) geom =
        All-before (λ h. h.byte_offset ≤ (last_max g near).byte_offset) geom
          (subst (All (λ h. h.byte_offset ≤ (last_max g near).byte_offset)) e hs) in
      (
        last_max g near,
        (there, inr (le, All-imp_both (λ h c l. (c, l)) geom none_covers later)),
        refl,
      )

-- `stub_for_byte` returns the id of a chunk of the file. The chunk covers the byte, or none does and
-- of the chunks that begin at or before the byte this one begins last. It returns nothing only if all
-- chunks begin behind the byte.
pub stub_for_byte-IsFound :
    (geom : List StubGeometry) (byte : ℕ) → IsFound byte geom (stub_for_byte geom byte)
unfolding stub_for_byte
stub_for_byte-IsFound geom byte = found (covering byte geom) (covering-IsCovering byte geom)
  where
    found :
        (o : Option StubGeometry)
        → IsCovering byte geom o
        → IsFound byte geom (id_of (returned_or o (max_by_offset (before byte geom))))
    found none h = max_by_offset-IsLatest byte geom h (before byte geom) refl
    found (some g) (m, e) = (g, (m, inl e), refl)
