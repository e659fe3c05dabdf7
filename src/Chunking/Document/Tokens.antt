-- ===== src/Chunking/Document/Tokens.antt =====
-- The safety pass of `chunk_document`: after three halvings a chunk fits the embedder's limit, if
-- the tokenizer makes at most one token of a byte.
use opencaw.Prelude.{
  ℕ, zero, suc, ◌+◌, ◌-◌, ◌*◌, ◌≤◌, max, ◌≡◌, refl, inl, inr, ◌&&◌, Option, none, some, List, [],
  ◌∷◌, arith, leb, ◌==◌, length, All, All-append, Bool-cases,
}
use opencaw.Core.{Text}
use opencaw.Text.{slice}
use opencaw.Text.Bounds.{length-slice, slice_all}
use opencaw.Chunking.Document.Boundaries.{InText, spans_of, item_cuts-Chain, windows_loop-All}
use opencaw.Text.Utf8.{
  Boundary, IsUtf8, Boundary-of_slice, slice-IsUtf8, Boundary-length, Boundary-zero,
}
use opencaw.Chunking.{ChunkingConfig, Piece, max_safe_body_tokens, cap_of, chunk_by_lines}
use opencaw.Chunking.Tiling.{Tiles, IsPiece, chunk_by_lines-IsTiled, prefix_cap}
use opencaw.Chunking.Document.{
  Counted, ItemSpan, tightened, moved, whole_range, split_oversized, count_or_split, prepend,
  prepend_first, build_item_header, tile_chunks, chunk_by_items, safe_chunks,
}

-- The tokens of the chunk's text are counted, and the embedder takes them.
abbrev pub IsSafe : (Text → ℕ) → Counted → Type 0
IsSafe count_tokens c =
    (c.count ≡ count_tokens c.piece.text) × (count_tokens c.piece.text ≤ max_safe_body_tokens)

-- `max_safe_body_tokens`, doubled for each halving that is left.
unfoldable pub limit : ℕ → ℕ
limit zero = max_safe_body_tokens
limit (suc levels) = 2 * limit levels

limit-le : (levels : ℕ) → max_safe_body_tokens ≤ limit levels
unfolding limit
limit-le zero = omega arith
limit-le (suc levels) = omega (arith, limit-le levels)

-- The cap of a configuration is within the limit.
abbrev pub Within : ℕ → ChunkingConfig → Type 0
Within levels config = cap_of config ≤ limit levels

tightened-Within :
    (levels : ℕ) (config : ChunkingConfig)
    → Within (suc levels) config
    → Within levels (tightened config)
unfolding limit
tightened-Within levels config h = ground (arith, limit-le levels)

-- No token without a byte, but the text without bytes may count as one token.
abbrev pub TokensInBytes : (Text → ℕ) → Type 0
TokensInBytes count_tokens = (t : Text) → count_tokens t ≤ max 1 (length t)

-- A chunk in the text that is short enough to be split in `levels` rounds.
pub record IsShort (content : Text) (levels : ℕ) (p : Piece) : Type 0 where
  pub starts : Boundary content p.body_start
  pub ends : Boundary content p.body_end
  pub ordered : p.body_start ≤ p.body_end
  pub near : p.body_end ≤ p.body_start + limit levels

module _ (count_tokens : Text → ℕ) (in_bytes : TokensInBytes count_tokens) (content : Text) where
  count_or_split-IsSafe :
      (split : Piece → List Counted) (levels base : ℕ) (ps : List Piece)
      → ((p : Piece) → IsShort content levels p → All (IsSafe count_tokens) (split p))
      → All (λ p. IsShort content levels (moved base p)) ps
      → All (IsSafe count_tokens) (count_or_split count_tokens split base ps)
  unfolding count_or_split
  count_or_split-IsSafe split levels base [] good h = _
  count_or_split-IsSafe split levels base (p ∷ ps) good (h, hs) =
      let rest = count_or_split-IsSafe split levels base ps good hs in
      elim (Bool-cases (leb (count_tokens p.text) max_safe_body_tokens)) [
        | inl fits ↦ rw fits ((refl, ground arith), rest)
        | inr hot ↦ rw hot (All-append (IsSafe count_tokens) _ _ (good (moved base p) h) rest)
      ]

  All-IsShort :
      (levels a b s e room overlap : ℕ) (ps : List Piece)
      → Boundary content a
      → Boundary content b
      → a ≤ b
      → room ≤ limit levels
      → Tiles s e ps
      → All (IsPiece (slice content a b) room overlap) ps
      → All (λ p. IsShort content levels (moved a p)) ps
  unfolding Tiles
  All-IsShort levels a b s e room overlap [] low high l small t h = _
  All-IsShort levels a b s e room overlap (p ∷ ps) low high l small (at, more, t) (h, hs) = (
    record {
      starts = Boundary-of_slice content a b p.body_start low high l h.starts;
      ends = Boundary-of_slice content a b p.body_end low high l h.ends;
      ordered = omega arith;
      near = omega (arith, h.near);
    },
    All-IsShort levels a b p.body_end e room overlap ps low high l small t hs,
  )

  module _ (u : IsUtf8 content) where
    lines-IsShort :
        (levels : ℕ) (config : ChunkingConfig) (a b : ℕ)
        → Within levels config
        → 4 ≤ cap_of config
        → Boundary content a
        → Boundary content b
        → a ≤ b
        → All (λ p. IsShort content levels (moved a p)) (chunk_by_lines (slice content a b) config)
    lines-IsShort levels config a b small wide low high l =
        let t =
          chunk_by_lines-IsTiled (slice content a b) config (slice-IsUtf8 content a b u low high l)
            wide in
        All-IsShort levels a b 0 _ (cap_of config) (prefix_cap config) _ low high l small t.tiles
          t.pieces

    whole_range-IsSafe :
        (p : Piece)
        → IsShort content 0 p
        → All (IsSafe count_tokens) (whole_range count_tokens content p.body_start p.body_end ∷ [])
    unfolding limit
    whole_range-IsSafe p h =
        let n = length-slice content p.body_start p.body_end h.ends.0 in
        ((refl, omega (arith, in_bytes (slice content p.body_start p.body_end), n, h.near)), _)

    empty_range-IsSafe :
        (p : Piece)
        → length (slice content p.body_start p.body_end) ≡ 0
        → All (IsSafe count_tokens) (whole_range count_tokens content p.body_start p.body_end ∷ [])
    empty_range-IsSafe p e =
        ((refl, omega (arith, in_bytes (slice content p.body_start p.body_end), e)), _)

    split_oversized-IsSafe :
        (levels : ℕ) (config : ChunkingConfig) (p : Piece)
        → Within levels config
        → IsShort content levels p
        → All (IsSafe count_tokens) (split_oversized levels count_tokens content config p)
    unfolding split_oversized
    split_oversized-IsSafe zero config p small h = whole_range-IsSafe p h
    split_oversized-IsSafe (suc levels) config p small h =
        let within = tightened-Within levels config small in
        elim (Bool-cases (length (slice content p.body_start p.body_end) == 0)) [
          | inl empty ↦ rw empty (empty_range-IsSafe p (ground arith))
          | inr full ↦ rw full (
              count_or_split-IsSafe (split_oversized levels count_tokens content (tightened config))
                levels p.body_start _
                (λ q. split_oversized-IsSafe levels (tightened config) q within)
                (lines-IsShort levels (tightened config) p.body_start p.body_end within
                  (omega arith) h.starts h.ends h.ordered))
        ]

    module _ (config : ChunkingConfig) (small : Within 3 config) (wide : 4 ≤ cap_of config) where
      lines-IsSafe :
          (a b : ℕ)
          → Boundary content a
          → Boundary content b
          → a ≤ b
          → All (IsSafe count_tokens) (
              count_or_split count_tokens
                (split_oversized 3 count_tokens content config)
                a
                (chunk_by_lines (slice content a b) config))
      lines-IsSafe a b low high l =
          count_or_split-IsSafe (split_oversized 3 count_tokens content config) 3 a _
            (λ p. split_oversized-IsSafe 3 config p small)
            (lines-IsShort 3 config a b small wide low high l)

      prepend_first-IsShort :
          (header : Text) (a : ℕ) (ps : List Piece)
          → All (λ p. IsShort content 3 (moved a p)) ps
          → All (λ p. IsShort content 3 (moved a p)) (prepend_first header ps)
      prepend_first-IsShort header a [] h = h
      prepend_first-IsShort header a (p ∷ ps) (h, hs) =
          (record { starts = h.starts; ends = h.ends; ordered = h.ordered; near = h.near }, hs)

      tile_chunks-IsSafe :
          (spans : List ItemSpan) (a b : ℕ)
          → Boundary content a
          → Boundary content b
          → All (IsSafe count_tokens) (tile_chunks count_tokens content spans config a b)
      unfolding tile_chunks
      tile_chunks-IsSafe spans a b low high =
          let header = build_item_header spans a b in
          let embed = prepend header (slice content a b) in
          let fast = leb (b - a) (cap_of config) && leb (count_tokens embed) max_safe_body_tokens in
          elim (Bool-cases (leb b a)) [
            | inl none_left ↦ rw none_left _
            | inr some_left ↦ elim (Bool-cases fast) [
              | inl whole ↦ rw (some_left, whole) ((refl, ground arith), _)
              | inr slow ↦
                  rw (some_left, slow)
                    (count_or_split-IsSafe (split_oversized 3 count_tokens content config) 3 a _
                      (λ p. split_oversized-IsSafe 3 config p small)
                      (prepend_first-IsShort header a _
                        (lines-IsShort 3 config a b small wide low high (ground arith))))
            ]
          ]

      chunk_by_items-IsSafe :
          (spans : List ItemSpan)
          → All (InText content) spans
          → All (IsSafe count_tokens) (chunk_by_items count_tokens content spans config)
      unfolding chunk_by_items
      chunk_by_items-IsSafe spans h =
          windows_loop-All content (IsSafe count_tokens)
            (tile_chunks count_tokens content spans config) 0 _ (tile_chunks-IsSafe spans)
            (Boundary-zero content) (item_cuts-Chain content config spans 0 h (omega arith))

      All-lines-IsSafe : All (IsSafe count_tokens) (
          count_or_split count_tokens
            (split_oversized 3 count_tokens content config)
            0
            (chunk_by_lines content config))
      All-lines-IsSafe = rw (slice_all content) at (
          lines-IsSafe 0 (length content) (Boundary-zero content) (Boundary-length content)
            (omega arith))

      -- No chunk behind the safety pass has more tokens than the embedder takes.
      pub safe_chunks-IsSafe :
          (item_spans : Option (List ItemSpan))
          → All (InText content) (spans_of item_spans)
          → All (IsSafe count_tokens) (safe_chunks count_tokens content item_spans config)
      unfolding safe_chunks
      safe_chunks-IsSafe none h = All-lines-IsSafe
      safe_chunks-IsSafe (some []) h = All-lines-IsSafe
      safe_chunks-IsSafe (some (sp ∷ sps)) h = chunk_by_items-IsSafe (sp ∷ sps) h
