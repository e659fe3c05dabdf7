-- ===== src/Text/Utf8.antt =====
-- What a Rust text guarantees of its bytes, and the code point boundaries in it.
use mathlib.Core.Path.{subst}
use opencaw.Prelude.{
  ℕ, zero, suc, ◌+◌, ◌-◌, ◌≤◌, ◌<◌, ◌≡◌, refl, sym, ap, ◌∙◌, Bool, true, false, dec_lt, dec_le,
  some, [], ◌∷◌, arith, leb, length, get_elem?, All, if◌then◌else◌,
}
use opencaw.Core.{Text}
use opencaw.Text.{slice, is_char_boundary, boundary_at}
use opencaw.Text.Search.{get_elem?-slice, get_elem?-slice_lt, get_elem?-lt}
use opencaw.Text.Bounds.{length-slice}

-- `i` is a position of `s`, its end included, at which no code point is cut.
abbrev pub Boundary : Text → ℕ → Type 0
Boundary s i = (i ≤ length s) × (is_char_boundary s i ≡ true)

-- Two consequences of UTF-8: an ASCII byte is a whole code point, and a code point has at most
-- four bytes.
pub record IsUtf8 (s : Text) : Type 0 where
  pub after_ascii : (i b : ℕ) → get_elem? s i ≡ some b → b < 128 → Boundary s (suc i)
  pub next : (i : ℕ) → Boundary s i → i < length s → (j : ℕ) × (i < j) × (j ≤ i + 4) × Boundary s j

pub Boundary-zero : (s : Text) → Boundary s 0
unfolding is_char_boundary
Boundary-zero s = (omega arith, refl)

pub Boundary-length : (s : Text) → Boundary s (length s)
unfolding is_char_boundary
Boundary-length [] = (omega arith, refl)
Boundary-length (b ∷ s) = (omega arith, ground arith)

boundary_at-ascii :
    (s : Text) (i : ℕ) → All (λ b. b < 128) s → i < length s → boundary_at (get_elem? s i) ≡ true
boundary_at-ascii [] i h l = absurd (omega arith)
boundary_at-ascii (b ∷ s) zero (h, hs) l = ground arith
boundary_at-ascii (b ∷ s) (suc i) (h, hs) l = boundary_at-ascii s i hs (omega arith)

Boundary-ascii : (s : Text) (i : ℕ) → All (λ b. b < 128) s → i ≤ length s → Boundary s i
unfolding is_char_boundary
Boundary-ascii s zero h l = (omega arith, refl)
Boundary-ascii s (suc i) h l = (l, ground (arith, boundary_at-ascii s (suc i) h))

abbrev pub is_ascii : Text → Bool
is_ascii [] = true
is_ascii (b ∷ s) = let rest = is_ascii s in if leb 128 b then false else rest

pub is_ascii-All : (s : Text) → is_ascii s ≡ true → All (λ b. b < 128) s
is_ascii-All [] h = _
is_ascii-All (b ∷ s) h = (ground arith, is_ascii-All s (ground arith))

-- Every ASCII text is one.
pub ascii-IsUtf8 : (s : Text) → All (λ b. b < 128) s → IsUtf8 s
ascii-IsUtf8 s h = record {
  after_ascii = λ i b e l. Boundary-ascii s (suc i) h (get_elem?-lt s i b e);
  next = λ i p l. (suc i, omega arith, omega arith, Boundary-ascii s (suc i) h l);
}

-- Between two boundaries the boundaries are those of the slice.
Boundary-slice-suc :
    (s : Text) (a b i : ℕ)
    → Boundary s b
    → suc (a + i) ≤ b
    → is_char_boundary (slice s a b) (suc i) ≡ is_char_boundary s (suc (a + i))
Boundary-slice-suc s a b i q l = elim (dec_lt (suc (a + i)) b) [
  | yes inside ↦
      let e : a + suc i ≡ suc (a + i) = omega arith in
      let g = get_elem?-slice_lt s a b (suc i) (omega arith) in
      unfold is_char_boundary in ground (arith, length-slice s a b, ap (λ n. get_elem? s n) e)
  | no outside ↦
      let e : suc (a + i) ≡ b = omega arith in
      rw (e, q.1) (unfold is_char_boundary in ground (arith, length-slice s a b))
]

Boundary-slice' :
    (s : Text) (a b i : ℕ)
    → Boundary s a
    → Boundary s b
    → a + i ≤ b
    → is_char_boundary (slice s a b) i ≡ is_char_boundary s (a + i)
Boundary-slice' s a b zero p q l =
    let e : a + 0 ≡ a = omega arith in rw e ((Boundary-zero (slice s a b)).1 ∙ sym p.1)
Boundary-slice' s a b (suc i) p q l =
    let e : a + suc i ≡ suc (a + i) = omega arith in
    rw e (Boundary-slice-suc s a b i q (omega arith))

pub Boundary-of_slice :
    (s : Text) (a b i : ℕ)
    → Boundary s a
    → Boundary s b
    → a ≤ b
    → Boundary (slice s a b) i
    → Boundary s (a + i)
Boundary-of_slice s a b i p q l h =
    let inside : a + i ≤ b = omega (arith, length-slice s a b) in
    (omega arith, sym (Boundary-slice' s a b i p q inside) ∙ h.1)

pub Boundary-slice :
    (s : Text) (a b i : ℕ)
    → Boundary s a
    → Boundary s b
    → Boundary s (a + i)
    → a + i ≤ b
    → Boundary (slice s a b) i
Boundary-slice s a b i p q h l =
    (omega (arith, length-slice s a b), Boundary-slice' s a b i p q l ∙ h.1)

-- A slice between boundaries is a text again.
pub slice-IsUtf8 :
    (s : Text) (a b : ℕ) → IsUtf8 s → Boundary s a → Boundary s b → a ≤ b → IsUtf8 (slice s a b)
slice-IsUtf8 s a b u p q l = record { after_ascii = ascii; next = later }
  where
    ascii :
        (i c : ℕ) → get_elem? (slice s a b) i ≡ some c → c < 128 → Boundary (slice s a b) (suc i)
    ascii i c e small =
        let (e', inside) = get_elem?-slice s a b i c e in
        let n : suc (a + i) ≡ a + suc i = omega arith in
        Boundary-slice s a b (suc i) p q (rw n at (u.after_ascii (a + i) c e' small)) (omega arith)

    later :
        (i : ℕ)
        → Boundary (slice s a b) i
        → i < length (slice s a b)
        → (j : ℕ) × (i < j) × (j ≤ i + 4) × Boundary (slice s a b) j
    later i h inside =
        let (j, above, near, at) =
          u.next (a + i) (Boundary-of_slice s a b i p q l h) (omega (arith, length-slice s a b)) in
        elim (dec_le j b) [
          | yes short ↦
              let e : j ≡ a + (j - a) = omega arith in
              (
                j - a,
                omega arith,
                omega arith,
                Boundary-slice s a b (j - a) p q (subst (Boundary s) e at) (omega arith),
              )
          | no long ↦
              let e : b ≡ a + (b - a) = omega arith in
              (
                b - a,
                omega (arith, length-slice s a b),
                omega arith,
                Boundary-slice s a b (b - a) p q (subst (Boundary s) e q) (omega arith),
              )
        ]
