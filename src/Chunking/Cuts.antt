-- ===== src/Chunking/Cuts.antt =====
-- Where `chunk_by_lines` cuts: between code points, further on, and within the cap.
use mathlib.Core.Path.{subst}
use opencaw.Prelude.{
  ℕ, zero, suc, ◌+◌, ◌≤◌, ◌<◌, min, max, ◌≡◌, sym, inl, inr, true, some, arith, leb, length,
  get_elem?, Option-cases, Bool-cases,
}
use opencaw.Core.{Text}
use opencaw.Text.{slice, newline, find_byte, rfind_byte, is_char_boundary}
use opencaw.Text.Search.{find_byte-get, rfind_byte-get, get_elem?-slice}
use opencaw.Text.Utf8.{Boundary, IsUtf8, Boundary-zero, Boundary-length}
use opencaw.Chunking.{ChunkingConfig, floor_from, floor_char_boundary, cap_of, target_of, cut_at}

floor_from-le : (s : Text) (i : ℕ) → floor_from s i ≤ i
unfolding floor_from
floor_from-le s zero = omega arith
floor_from-le s (suc i) = ground (arith, floor_from-le s i)

floor_from-boundary : (s : Text) (i : ℕ) → is_char_boundary s (floor_from s i) ≡ true
unfolding floor_from
floor_from-boundary s zero = (Boundary-zero s).1
floor_from-boundary s (suc i) = ground (arith, floor_from-boundary s i)

-- No boundary up to `i` lies above the one that is found.
floor_from_max : (s : Text) (i j : ℕ) → j ≤ i → is_char_boundary s j ≡ true → j ≤ floor_from s i
unfolding floor_from
floor_from_max s zero j l h = l
floor_from_max s (suc i) j l h = ground (arith, floor_from_max s i j)

pub floor_char_boundary-le : (s : Text) (i : ℕ) → floor_char_boundary s i ≤ i
unfolding floor_char_boundary
floor_char_boundary-le s i = ground (arith, floor_from-le s i)

-- The offset that `floor_char_boundary` returns is a boundary.
pub floor_char_boundary-Boundary : (s : Text) (i : ℕ) → Boundary s (floor_char_boundary s i)
unfolding floor_char_boundary
floor_char_boundary-Boundary s i = elim (Bool-cases (leb (length s) i)) [
  | inl e ↦ rw e (Boundary-length s)
  | inr e ↦ rw e (ground (arith, floor_from-le s i), floor_from-boundary s i)
]

pub floor_char_boundary_max :
    (s : Text) (i j : ℕ) → j ≤ i → Boundary s j → j ≤ floor_char_boundary s i
unfolding floor_char_boundary
floor_char_boundary_max s i j l h = ground (arith, floor_from_max s i j)

-- The position behind a line feed is a boundary.
after_newline :
    (s : Text) (a b i : ℕ)
    → IsUtf8 s
    → get_elem? (slice s a b) i ≡ some newline
    → Boundary s (a + i + 1) × (a + i < b)
after_newline s a b i u h =
    let (e, l) = get_elem?-slice s a b i newline h in
    let n : a + i + 1 ≡ suc (a + i) = omega arith in
    (rw n (u.after_ascii (a + i) newline e (omega arith)), l)

-- What the theorems below show of a cut.
pub record IsCut (content : Text) (config : ChunkingConfig) (start cut : ℕ) : Type 0 where
  pub progress : start < cut
  pub near : cut ≤ start + cap_of config
  pub boundary : Boundary content cut

module _ (content : Text) (config : ChunkingConfig) (u : IsUtf8 content) (wide : 4 ≤ cap_of config)
    (start : ℕ) (at : Boundary content start) (more : start < length content) where
  abbrev ideal : ℕ
  ideal = floor_char_boundary content (min (start + target_of config) (length content))

  abbrev hard : ℕ
  hard = floor_char_boundary content (min (start + cap_of config) (length content))

  start-le-ideal : start ≤ ideal
  start-le-ideal = floor_char_boundary_max content _ start (omega arith) at

  hard-le : hard ≤ start + cap_of config
  hard-le =
      omega (arith, floor_char_boundary-le content (min (start + cap_of config) (length content)))

  start-lt-hard : start < hard
  start-lt-hard =
      let (j, above, near, b) = u.next start at more in
      let up : j ≤ hard = floor_char_boundary_max content _ j (omega arith) b in omega arith

  IsCut-at_newline :
      (a i : ℕ)
      → start ≤ a
      → get_elem? (slice content a hard) i ≡ some newline
      → IsCut content config start (a + i + 1)
  IsCut-at_newline a i above h =
      let (b, l) = after_newline content a hard i u h in
      record { progress = omega arith; near = omega (arith, hard-le); boundary = b }

  IsCut-at_hard : IsCut content config start hard
  IsCut-at_hard = record {
    progress = start-lt-hard;
    near = hard-le;
    boundary = floor_char_boundary-Boundary content _;
  }

  -- A cut makes progress, is at most the cap away, and cuts no code point.
  pub cut_at-IsCut : IsCut content config start (cut_at content config start)
  unfolding cut_at
  cut_at-IsCut = elim (Option-cases (find_byte newline (slice content ideal hard))) [
    | inl missed ↦ elim (Option-cases (rfind_byte newline (slice content start hard))) [
      | inl none_at_all ↦
          let e : max hard (start + 1) ≡ hard = omega (arith, start-lt-hard) in
          rw (cut_at, missed, none_at_all)
            (subst (IsCut content config start) (sym e) IsCut-at_hard)
      | inr (pos, found) ↦
          rw (cut_at, missed, found)
            (IsCut-at_newline start pos (omega arith) (rfind_byte-get _ _ _ found))
    ]
    | inr (rel, found) ↦
        rw (cut_at, found) (IsCut-at_newline ideal rel start-le-ideal (find_byte-get _ _ _ found))
  ]
