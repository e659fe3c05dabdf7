-- ===== src/Chunking/Document/Items.antt =====
-- `chunk_by_items` tiles the text too: on the starts of the items of the outline.
use mathlib.Core.Path.{subst}
use mathlib.Core.List.{append_assoc}
use opencaw.Prelude.{
  ℕ, ◌+◌, ◌-◌, ◌≤◌, ◌≡◌, inl, inr, refl, sym, ap, ◌∙◌, ◌&&◌, List, [], ◌∷◌, ◌++◌, arith, leb, ◌==◌,
  length, All, Bool-cases,
}
use opencaw.Core.{Text}
use opencaw.Text.{slice, newline}
use opencaw.Text.Bounds.{length-slice}
use opencaw.Text.Utf8.{Boundary, IsUtf8, Boundary-zero, slice-IsUtf8}
use opencaw.Chunking.{ChunkingConfig, Piece, max_safe_body_tokens, cap_of, chunk_by_lines}
use opencaw.Chunking.Tiling.{Tiles, chunk_by_lines-IsTiled, prefix_cap}
use opencaw.Chunking.Document.{
  ItemSpan, split_oversized, count_or_split, build_item_header, dedup_from, prepend, prepend_first,
  tile_chunks, windows_loop, chunk_by_items,
}
use opencaw.Chunking.Document.Boundaries.{InText, Chain, dedup_from-head, item_cuts-Chain}
use opencaw.Chunking.Document.Split.{
  IsSplit, IsMoved, IsSplit-nil, IsSplit-one, IsSplit-append, split_oversized-IsSplit,
  count_or_split-IsSplit, All-IsMoved,
}

prepend-reads :
    (header prefix body : Text)
    → (longer : Text) × (prepend header (prefix ++ body) ≡ longer ++ body)
prepend-reads header prefix body = elim (Bool-cases (length header == 0)) [
  | inl e ↦ rw e (prefix, refl)
  | inr e ↦ rw e (
    header ++ (newline ∷ newline ∷ prefix),
    sym (append_assoc header (newline ∷ newline ∷ prefix) body),
  )
]

prepend_first-Tiles :
    (header : Text) (a b : ℕ) (ps : List Piece) → Tiles a b ps → Tiles a b (prepend_first header ps)
unfolding Tiles
prepend_first-Tiles header a b [] t = t
prepend_first-Tiles header a b (p ∷ ps) t = t

prepend_first-IsMoved :
    (header content : Text) (base : ℕ) (ps : List Piece)
    → All (IsMoved content base) ps
    → All (IsMoved content base) (prepend_first header ps)
prepend_first-IsMoved header content base [] h = h
prepend_first-IsMoved header content base (p ∷ ps) (h, hs) =
    let (longer, e) =
      prepend-reads header h.prefix (slice content (base + p.body_start) (base + p.body_end)) in
    (
      record {
        starts = h.starts;
        ends = h.ends;
        prefix = longer;
        reads = ap (prepend header) h.reads ∙ e;
      },
      hs,
    )

module _ (count_tokens : Text → ℕ) (content : Text) (spans : List ItemSpan)
    (config : ChunkingConfig) (u : IsUtf8 content) (wide : 4 ≤ cap_of config) where
  tile_lines-IsSplit :
      (header : Text) (a b : ℕ)
      → Boundary content a
      → Boundary content b
      → a ≤ b
      → IsSplit count_tokens content a b (
          count_or_split count_tokens
            (split_oversized 3 count_tokens content config)
            a
            (prepend_first header (chunk_by_lines (slice content a b) config)))
  tile_lines-IsSplit header a b low high l =
      let t =
        chunk_by_lines-IsTiled (slice content a b) config (slice-IsUtf8 content a b u low high l)
          wide in
      let start : a + 0 ≡ a = omega arith in
      let end : a + length (slice content a b) ≡ b =
        omega (arith, length-slice content a b high.0) in
      let ps = chunk_by_lines (slice content a b) config in
      rw (start, end) at
        (count_or_split-IsSplit count_tokens content (split_oversized 3 count_tokens content config)
          a 0 (length (slice content a b)) (prepend_first header ps)
          (split_oversized-IsSplit count_tokens content 3 config u)
          (prepend_first-Tiles header 0 _ ps t.tiles)
          (prepend_first-IsMoved header content a ps (
            All-IsMoved count_tokens content a b (cap_of config) (prefix_cap config) 0 _ ps low high
              l t.tiles t.pieces)))

  tile_chunks-IsSplit :
      (a b : ℕ)
      → Boundary content a
      → Boundary content b
      → a ≤ b
      → IsSplit count_tokens content a b (tile_chunks count_tokens content spans config a b)
  unfolding tile_chunks
  tile_chunks-IsSplit a b low high l =
      let header = build_item_header spans a b in
      let embed = prepend header (slice content a b) in
      let fast = leb (b - a) (cap_of config) && leb (count_tokens embed) max_safe_body_tokens in
      elim (Bool-cases (leb b a)) [
        | inl none_left ↦
            let e : a ≡ b = ground arith in
            rw none_left (
              subst (λ n. IsSplit count_tokens content a n []) e
                (IsSplit-nil count_tokens content a))
        | inr some_left ↦ elim (Bool-cases fast) [
          | inl whole ↦
              let (longer, e) = prepend-reads header [] (slice content a b) in
              rw (some_left, whole)
                (IsSplit-one count_tokens content
                  (record {
                    piece = record { body_start = a; body_end = b; text = embed };
                    count = count_tokens embed;
                  })
                  (record { starts = low; ends = high; prefix = longer; reads = e; counted = refl })
                  (ground arith))
          | inr slow ↦ rw (some_left, slow) (tile_lines-IsSplit header a b low high l)
        ]
      ]

  windows-IsSplit :
      (a : ℕ) (bs : List ℕ)
      → Boundary content a
      → Chain content a bs
      → IsSplit count_tokens content a
          (length content)
          (windows_loop (tile_chunks count_tokens content spans config) (dedup_from a bs))
  unfolding windows_loop dedup_from Chain
  windows-IsSplit a [] low e =
      subst (λ n. IsSplit count_tokens content a n []) e (IsSplit-nil count_tokens content a)
  windows-IsSplit a (b ∷ bs) low (l, high, chain) =
      let later = windows-IsSplit b bs high chain in
      let (rest, e) = dedup_from-head b bs in
      elim (Bool-cases (a == b)) [
        | inl same ↦
            let b_is : b ≡ a = ground arith in
            rw same (
              subst
                (λ n.
                  IsSplit count_tokens content n (length content) (
                    windows_loop (tile_chunks count_tokens content spans config) (dedup_from b bs)))
                b_is later)
        | inr other ↦
            rw (other, e)
              (IsSplit-append count_tokens content a b (length content)
                (tile_chunks count_tokens content spans config a b) _
                (tile_chunks-IsSplit a b low high l) (rw e at later))
      ]

  -- The chunks of `chunk_by_items` tile the text, read it and are counted right.
  pub chunk_by_items-IsSplit :
      All (InText content) spans
      → IsSplit count_tokens content 0
          (length content)
          (chunk_by_items count_tokens content spans config)
  unfolding chunk_by_items
  chunk_by_items-IsSplit h =
      windows-IsSplit 0 _ (Boundary-zero content)
        (item_cuts-Chain content config spans 0 h (omega arith))
