-- ===== src/Chunking/Tiling.antt =====
-- `chunk_by_lines` tiles the text: the bodies follow one another without a gap from its first byte
-- to its last.
use opencaw.Prelude.{
  ℕ, zero, suc, ◌+◌, ◌-◌, ◌*◌, ◌≤◌, ◌<◌, ◌≡◌, inl, inr, refl, Bool, true, false, List, [], ◌∷◌,
  ◌++◌, arith, leb, ◌==◌, length, All, Bool-cases,
}
use opencaw.Core.{Text}
use opencaw.Text.{slice}
use opencaw.Text.Bounds.{slice-append-slice}
use opencaw.Text.Utf8.{Boundary, IsUtf8, Boundary-zero, Boundary-length, slice-IsUtf8}
use opencaw.Chunking.{
  ChunkingConfig, Piece, cap_of, overlap_of, cut_at, piece_of, lines_loop, chunk_by_lines,
  prepend_line_overlap,
}
use opencaw.Chunking.Cuts.{IsCut, cut_at-IsCut}
use opencaw.Chunking.Overlap.{prepend_line_overlap-length}

-- The bodies are not empty, each begins where the one before it ends, and they cover `a` to `b`.
unfoldable pub Tiles : ℕ → ℕ → List Piece → Type 0
Tiles a b [] = a ≡ b
Tiles a b (p ∷ ps) = (p.body_start ≡ a) × (a < p.body_end) × Tiles p.body_end b ps

-- A chunk's body cuts no code point, and the text to embed is the body behind a bounded prefix.
pub record IsPiece (content : Text) (cap overlap : ℕ) (p : Piece) : Type 0 where
  pub starts : Boundary content p.body_start
  pub ends : Boundary content p.body_end
  pub prefix : Text
  pub reads : p.text ≡ prefix ++ slice content p.body_start p.body_end
  pub bounded : length prefix ≤ overlap
  pub near : p.body_end ≤ p.body_start + cap

-- The longest prefix that `chunk_by_lines` puts before a body.
abbrev pub prefix_cap : ChunkingConfig → ℕ
prefix_cap config = 2 * overlap_of config + 7

piece_of-IsPiece :
    (content : Text) (config : ChunkingConfig) (is_first : Bool) (start cut : ℕ)
    → IsUtf8 content
    → Boundary content start
    → Boundary content cut
    → cut ≤ start + cap_of config
    → IsPiece content
        (cap_of config)
        (prefix_cap config)
        (piece_of content config is_first start cut)
unfolding piece_of
piece_of-IsPiece content config is_first start cut u p q near = record {
  starts = p;
  ends = q;
  prefix = prepend_line_overlap [] (slice content 0 start) (overlap_of config) is_first;
  reads = refl;
  bounded =
      prepend_line_overlap-length (slice content 0 start) (overlap_of config) is_first
        (slice-IsUtf8 content 0 start u (Boundary-zero content) p (omega arith));
  near = near;
}

-- What is shown of the chunks from `start` on.
pub record IsTiled (content : Text) (config : ChunkingConfig) (start : ℕ) (ps : List Piece)
    : Type 0 where
  pub tiles : Tiles start (length content) ps
  pub pieces : All (IsPiece content (cap_of config) (prefix_cap config)) ps

module _ (content : Text) (config : ChunkingConfig) (u : IsUtf8 content)
    (wide : 4 ≤ cap_of config) where
  IsTiled-cons :
      (is_first : Bool) (start cut : ℕ) (rest : List Piece)
      → Boundary content start
      → IsCut content config start cut
      → IsTiled content config cut rest
      → IsTiled content config start (piece_of content config is_first start cut ∷ rest)
  unfolding Tiles piece_of
  IsTiled-cons is_first start cut rest p c t = record {
    tiles = (refl, c.progress, t.tiles);
    pieces = (piece_of-IsPiece content config is_first start cut u p c.boundary c.near, t.pieces);
  }

  IsTiled-end : (start : ℕ) → start ≡ length content → IsTiled content config start []
  unfolding Tiles
  IsTiled-end start e = record { tiles = e; pieces = _ }

  last-IsCut :
      (start : ℕ)
      → start < length content
      → length content - start ≤ cap_of config
      → IsCut content config start (length content)
  last-IsCut start more fits = record {
    progress = more;
    near = omega arith;
    boundary = Boundary-length content;
  }

  lines_loop-IsTiled :
      (fuel : ℕ) (is_first : Bool) (start : ℕ)
      → Boundary content start
      → length content - start ≤ fuel
      → IsTiled content config start (lines_loop fuel content config is_first start)
  unfolding lines_loop
  lines_loop-IsTiled zero is_first start p enough = IsTiled-end start (omega (arith, p.0))
  lines_loop-IsTiled (suc fuel) is_first start p enough =
      elim (Bool-cases (leb (length content) start)) [
        | inl done ↦ rw (lines_loop, done) (IsTiled-end start (ground (arith, p.0)))
        | inr more ↦ elim (Bool-cases (leb (length content - start) (cap_of config))) [
          | inl whole ↦
              rw (lines_loop, more, whole)
                (IsTiled-cons is_first start (length content) [] p
                  (last-IsCut start (ground arith) (ground arith))
                  (IsTiled-end (length content) refl))
          | inr long ↦
              let c = cut_at-IsCut content config u wide start p (ground arith) in
              rw (lines_loop, more, long)
                (IsTiled-cons is_first start (cut_at content config start) _ p c (
                  lines_loop-IsTiled fuel false (cut_at content config start) c.boundary
                    (omega (arith, c.progress))))
        ]
      ]

  -- If the text is UTF-8 and the cap holds a code point, the chunks of `chunk_by_lines` tile the
  -- text from its first byte to its last, no body cuts a code point or is longer than the cap, and
  -- the text to embed is the body behind an overlap of at most twice the configured one and seven
  -- bytes.
  pub chunk_by_lines-IsTiled : IsTiled content config 0 (chunk_by_lines content config)
  unfolding chunk_by_lines
  chunk_by_lines-IsTiled = elim (Bool-cases (length content == 0)) [
    | inl empty ↦ rw empty (IsTiled-end 0 (ground arith))
    | inr full ↦
        rw full (lines_loop-IsTiled (length content) true 0 (Boundary-zero content) (omega arith))
  ]

-- The bodies of the chunks, joined.
unfoldable pub joined : Text → List Piece → Text
joined content [] = []
joined content (p ∷ ps) = slice content p.body_start p.body_end ++ joined content ps

Tiles-le : (a b : ℕ) (ps : List Piece) → Tiles a b ps → a ≤ b
unfolding Tiles
Tiles-le a b [] e = omega arith
Tiles-le a b (p ∷ ps) (e, l, rest) = omega (arith, Tiles-le p.body_end b ps rest)

-- The bodies of chunks that tile a range of the text are that range, when they are joined.
pub joined-Tiles :
    (content : Text) (a b : ℕ) (ps : List Piece)
    → Tiles a b ps
    → joined content ps ≡ slice content a b
unfolding Tiles joined
joined-Tiles content a b [] e = let n : b - a ≡ 0 = omega arith in rw n refl
joined-Tiles content a b (p ∷ ps) (e, l, rest) =
    rw (e, joined-Tiles content p.body_end b ps rest)
      (slice-append-slice content a p.body_end b (omega arith) (Tiles-le p.body_end b ps rest))
