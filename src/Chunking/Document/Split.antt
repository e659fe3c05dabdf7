-- ===== src/Chunking/Document/Split.antt =====
-- What the chunks with counted tokens keep of the text: they tile it, read it, and are counted
-- right, also behind `split_oversized`.
use mathlib.Core.Path.{subst}
use opencaw.Prelude.{
  ℕ, zero, suc, ◌+◌, ◌≤◌, ◌<◌, ◌≡◌, inl, inr, refl, ap, ◌∙◌, List, [], ◌∷◌, ◌++◌, map, arith, leb,
  ◌==◌, length, All, All-append, Bool-cases,
}
use opencaw.Core.{Text}
use opencaw.Text.{slice}
use opencaw.Text.Bounds.{slice-slice, length-slice}
use opencaw.Text.Utf8.{Boundary, IsUtf8, Boundary-of_slice, slice-IsUtf8}
use opencaw.Chunking.{ChunkingConfig, Piece, max_safe_body_tokens, cap_of, chunk_by_lines}
use opencaw.Chunking.Tiling.{Tiles, IsPiece, prefix_cap, chunk_by_lines-IsTiled}
use opencaw.Chunking.Document.{
  Counted, tightened, moved, count_or_split, whole_range, split_oversized,
}

-- A chunk is cut between code points, its text is its body behind some prefix, and its count is
-- the tokenizer's.
pub record IsChunk (count_tokens : Text → ℕ) (content : Text) (c : Counted) : Type 0 where
  pub starts : Boundary content c.piece.body_start
  pub ends : Boundary content c.piece.body_end
  pub prefix : Text
  pub reads : c.piece.text ≡ prefix ++ slice content c.piece.body_start c.piece.body_end
  pub counted : c.count ≡ count_tokens c.piece.text

pub record IsSplit (count_tokens : Text → ℕ) (content : Text) (a b : ℕ) (cs : List Counted)
    : Type 0 where
  pub tiles : Tiles a b (map (λ c. c.piece) cs)
  pub chunks : All (IsChunk count_tokens content) cs

-- A chunk of the range that begins at `base`, not yet moved there.
pub record IsMoved (content : Text) (base : ℕ) (p : Piece) : Type 0 where
  pub starts : Boundary content (base + p.body_start)
  pub ends : Boundary content (base + p.body_end)
  pub prefix : Text
  pub reads : p.text ≡ prefix ++ slice content (base + p.body_start) (base + p.body_end)

pub Tiles-append :
    (a b c : ℕ) (ps qs : List Piece) → Tiles a b ps → Tiles b c qs → Tiles a c (ps ++ qs)
unfolding Tiles
Tiles-append a b c [] qs e t = rw e t
Tiles-append a b c (p ∷ ps) qs (e, l, rest) t = (e, l, Tiles-append p.body_end b c ps qs rest t)

map-append :
    (cs ds : List Counted)
    → map (λ c. c.piece) (cs ++ ds) ≡ map (λ c. c.piece) cs ++ map (λ c. c.piece) ds
map-append [] ds = refl
map-append (c ∷ cs) ds = ap (◌∷◌ c.piece) (map-append cs ds)

module _ (count_tokens : Text → ℕ) (content : Text) where
  pub IsSplit-nil : (a : ℕ) → IsSplit count_tokens content a a []
  unfolding Tiles
  IsSplit-nil a = record { tiles = refl; chunks = _ }

  pub IsSplit-append :
      (a b c : ℕ) (cs ds : List Counted)
      → IsSplit count_tokens content a b cs
      → IsSplit count_tokens content b c ds
      → IsSplit count_tokens content a c (cs ++ ds)
  IsSplit-append a b c cs ds s t = record {
    tiles = rw (map-append cs ds) (Tiles-append a b c _ _ s.tiles t.tiles);
    chunks = All-append (IsChunk count_tokens content) cs ds s.chunks t.chunks;
  }

  pub IsSplit-one :
      (c : Counted)
      → IsChunk count_tokens content c
      → c.piece.body_start < c.piece.body_end
      → IsSplit count_tokens content c.piece.body_start c.piece.body_end (c ∷ [])
  unfolding Tiles
  IsSplit-one c h l = record { tiles = (refl, l, refl); chunks = (h, _) }

  -- What a function that splits one chunk has to do.
  abbrev pub Splits : (Piece → List Counted) → Type 0
  Splits split =
      (p : Piece)
      → Boundary content p.body_start
      → Boundary content p.body_end
      → p.body_start < p.body_end
      → IsSplit count_tokens content p.body_start p.body_end (split p)

  pub count_or_split-IsSplit :
      (split : Piece → List Counted) (base a b : ℕ) (ps : List Piece)
      → Splits split
      → Tiles a b ps
      → All (IsMoved content base) ps
      → IsSplit count_tokens content
          (base + a)
          (base + b)
          (count_or_split count_tokens split base ps)
  unfolding count_or_split Tiles
  count_or_split-IsSplit split base a b [] good e h = rw e (IsSplit-nil (base + b))
  count_or_split-IsSplit split base a b (p ∷ ps) good (e, l, tiled) (h, hs) =
      let rest = count_or_split-IsSplit split base p.body_end b ps good tiled hs in
      let from_p : base + p.body_start < base + p.body_end = omega arith in
      let at : base + p.body_start ≡ base + a = ap (λ n. base + n) e in
      elim (Bool-cases (leb (count_tokens p.text) max_safe_body_tokens)) [
        | inl fits ↦
            let c : Counted = record { piece = moved base p; count = count_tokens p.text } in
            rw fits (
              subst
                (λ n.
                  IsSplit count_tokens content n (base + b)
                    (c ∷ count_or_split count_tokens split base ps))
                at
                (IsSplit-append (base + p.body_start) (base + p.body_end) (base + b) (c ∷ []) _
                  (IsSplit-one c
                    (record {
                      starts = h.starts;
                      ends = h.ends;
                      prefix = h.prefix;
                      reads = h.reads;
                      counted = refl;
                    })
                    from_p)
                  rest))
        | inr hot ↦ rw hot (
            subst
              (λ n.
                IsSplit count_tokens content n (base + b)
                  (split (moved base p) ++ count_or_split count_tokens split base ps))
              at
              (IsSplit-append (base + p.body_start) (base + p.body_end) (base + b) _ _
                (good (moved base p) h.starts h.ends from_p) rest))
      ]

  -- The chunks of a slice, moved to where the slice begins.
  pub IsPiece-IsMoved :
      (a b room overlap : ℕ) (p : Piece)
      → Boundary content a
      → Boundary content b
      → a ≤ b
      → p.body_start ≤ p.body_end
      → IsPiece (slice content a b) room overlap p
      → IsMoved content a p
  IsPiece-IsMoved a b room overlap p low high l ordered h =
      let inside : a + p.body_end ≤ b = omega (arith, h.ends.0, length-slice content a b high.0) in
      record {
        starts = Boundary-of_slice content a b p.body_start low high l h.starts;
        ends = Boundary-of_slice content a b p.body_end low high l h.ends;
        prefix = h.prefix;
        reads =
            h.reads
            ∙ ap (λ t. h.prefix ++ t)
                (slice-slice content a b p.body_start p.body_end ordered inside);
      }

  pub All-IsMoved :
      (a b room overlap s e : ℕ) (ps : List Piece)
      → Boundary content a
      → Boundary content b
      → a ≤ b
      → Tiles s e ps
      → All (IsPiece (slice content a b) room overlap) ps
      → All (IsMoved content a) ps
  unfolding Tiles
  All-IsMoved a b room overlap s e [] low high l tiled hs = _
  All-IsMoved a b room overlap s e (p ∷ ps) low high l (at, more, tiled) (h, hs) = (
    IsPiece-IsMoved a b room overlap p low high l (omega arith) h,
    All-IsMoved a b room overlap p.body_end e ps low high l tiled hs,
  )

  -- `chunk_by_lines` on the range from `a` to `b`, its chunks counted or split.
  pub lines-IsSplit :
      (split : Piece → List Counted) (config : ChunkingConfig) (a b : ℕ)
      → IsUtf8 content
      → 4 ≤ cap_of config
      → Boundary content a
      → Boundary content b
      → a ≤ b
      → Splits split
      → IsSplit count_tokens content a b
          (count_or_split count_tokens split a (chunk_by_lines (slice content a b) config))
  lines-IsSplit split config a b u wide low high l good =
      let t =
        chunk_by_lines-IsTiled (slice content a b) config (slice-IsUtf8 content a b u low high l)
          wide in
      let start : a + 0 ≡ a = omega arith in
      let end : a + length (slice content a b) ≡ b =
        omega (arith, length-slice content a b high.0) in
      let ps = chunk_by_lines (slice content a b) config in
      rw (start, end) at
        (count_or_split-IsSplit split a 0 (length (slice content a b)) ps good t.tiles
          (All-IsMoved a b (cap_of config) (prefix_cap config) 0 _ ps low high l t.tiles t.pieces))

  whole_range-IsSplit :
      (a b : ℕ)
      → Boundary content a
      → Boundary content b
      → a < b
      → IsSplit count_tokens content a b (whole_range count_tokens content a b ∷ [])
  whole_range-IsSplit a b low high l =
      IsSplit-one (whole_range count_tokens content a b)
        (record { starts = low; ends = high; prefix = []; reads = refl; counted = refl }) l

  -- At every depth, the chunks of `split_oversized` tile the range, read it and are counted right.
  pub split_oversized-IsSplit :
      (levels : ℕ) (config : ChunkingConfig)
      → IsUtf8 content
      → Splits (split_oversized levels count_tokens content config)
  unfolding split_oversized
  split_oversized-IsSplit zero config u p low high l =
      whole_range-IsSplit p.body_start p.body_end low high l
  split_oversized-IsSplit (suc levels) config u p low high l =
      elim (Bool-cases (length (slice content p.body_start p.body_end) == 0)) [
        | inl empty ↦ rw empty (whole_range-IsSplit p.body_start p.body_end low high l)
        | inr full ↦ rw full (
            lines-IsSplit (split_oversized levels count_tokens content (tightened config))
              (tightened config) p.body_start p.body_end u (omega arith) low high (omega arith)
              (split_oversized-IsSplit levels (tightened config) u))
      ]
