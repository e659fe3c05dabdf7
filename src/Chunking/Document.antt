-- ===== src/Chunking/Document.antt =====
-- crates/caw-ingest/src/chunking.rs: the splitting of a chunk that has too many tokens, the chunks
-- of a document with an outline of items, and `chunk_document` over all of it. `split_oversized`
-- is at depth `3 - levels`. The content kind, which the code does not use, is left out.
pub mod Split
pub mod Boundaries
pub mod Items
pub mod Tokens
pub mod Whole
pub mod Tests
use opencaw.Prelude.{
  ℕ, zero, suc, ◌+◌, ◌-◌, ◌/◌, min, max, not, ◌&&◌, Option, none, some, List, [], ◌∷◌, ◌++◌, ltb,
  leb, ◌==◌, if◌then◌else◌, length, filter_b,
}
use opencaw.Core.{Text}
use opencaw.Text.{slice, newline, contains, first_line}
use opencaw.Chunking.{
  ChunkingConfig, Piece, Chunk, max_safe_body_tokens, cap_of, target_of, chunk_by_lines,
}

-- `(body_start, body_end, embed_text, token_count)`
pub record Counted : Type 0 where
  pub piece : Piece
  pub count : ℕ

abbrev pub tightened : ChunkingConfig → ChunkingConfig
tightened config = record {
  token_threshold = config.token_threshold;
  target_chunk_tokens = config.target_chunk_tokens;
  overlap_tokens = config.overlap_tokens;
  target_chunk_chars = max (config.target_chunk_chars / 2) 200;
  max_chunk_chars = max (config.max_chunk_chars / 2) 300;
  overlap_chars = max (config.overlap_chars / 2) 80;
}

abbrev pub moved : ℕ → Piece → Piece
moved base p = record {
  body_start = base + p.body_start;
  body_end = base + p.body_end;
  text = p.text;
}

-- The loop over the chunks of a range that begins at `base`.
pub count_or_split : (Text → ℕ) → (Piece → List Counted) → ℕ → List Piece → List Counted
count_or_split count_tokens split base [] = []
count_or_split count_tokens split base (p ∷ ps) =
    let rest = count_or_split count_tokens split base ps in
    if leb (count_tokens p.text) max_safe_body_tokens
    then record { piece = moved base p; count = count_tokens p.text } ∷ rest
    else split (moved base p) ++ rest

abbrev pub whole_range : (Text → ℕ) → Text → ℕ → ℕ → Counted
whole_range count_tokens content a b = record {
  piece = record { body_start = a; body_end = b; text = slice content a b };
  count = count_tokens (slice content a b);
}

pub split_oversized : ℕ → (Text → ℕ) → Text → ChunkingConfig → Piece → List Counted
split_oversized zero count_tokens content config p =
    whole_range count_tokens content p.body_start p.body_end ∷ []
split_oversized (suc levels) count_tokens content config p =
    let body = slice content p.body_start p.body_end in
    let sub =
      count_or_split count_tokens (split_oversized levels count_tokens content (tightened config))
        p.body_start (chunk_by_lines body (tightened config)) in
    if length body == 0 then whole_range count_tokens content p.body_start p.body_end ∷ [] else sub

-- An item of the outline, `start` and `end` in bytes.
pub record ItemSpan : Type 0 where
  pub start : ℕ
  pub end : ℕ
  pub signature : Text
  pub doc : Text

-- `"{} — {}"` in UTF-8.
abbrev span_line : ItemSpan → Text
span_line sp =
    if length sp.doc == 0
    then sp.signature
    else sp.signature ++ (32 ∷ 226 ∷ 128 ∷ 148 ∷ 32 ∷ []) ++ sp.doc

abbrev pub max_header_chars : ℕ
max_header_chars = 400

pub header_loop : Text → List ItemSpan → Text
header_loop header [] = header
header_loop header (sp ∷ sps) =
    let line = span_line sp in
    let opened = if length header == 0 then header else header ++ (newline ∷ []) in
    let rest = header_loop (opened ++ line) sps in
    if not (length header == 0) && ltb max_header_chars (length header + length line)
    then header
    else rest

pub build_item_header : List ItemSpan → ℕ → ℕ → Text
unfolding header_loop
build_item_header spans a b =
    header_loop [] (filter_b (λ sp. leb a sp.start && ltb sp.start b) spans)

-- The item starts at which `chunk_by_items` opens a chunk.
pub item_cuts : List ItemSpan → ℕ → ℕ → ℕ → List ℕ
item_cuts [] target total cur_start = []
item_cuts (sp ∷ sps) target total cur_start =
    let opens = ltb target (min sp.end total - cur_start) && ltb cur_start sp.start in
    let next = if opens then sp.start else cur_start in
    let rest = item_cuts sps target total next in if opens then sp.start ∷ rest else rest

-- `Vec::dedup`: of equal neighbours one is left.
pub dedup_from : ℕ → List ℕ → List ℕ
dedup_from a [] = a ∷ []
dedup_from a (b ∷ bs) = let rest = dedup_from b bs in if a == b then rest else a ∷ rest

abbrev pub prepend : Text → Text → Text
prepend header text = if length header == 0 then text else header ++ (newline ∷ newline ∷ text)

-- Only the first of the chunks of a tile has the header.
abbrev pub prepend_first : Text → List Piece → List Piece
prepend_first header [] = []
prepend_first header (p ∷ ps) =
    record { body_start = p.body_start; body_end = p.body_end; text = prepend header p.text } ∷ ps

-- The chunks of the tile from `a` to `b`, the body of the loop over the windows.
pub tile_chunks : (Text → ℕ) → Text → List ItemSpan → ChunkingConfig → ℕ → ℕ → List Counted
tile_chunks count_tokens content spans config a b =
    let header = build_item_header spans a b in
    let body = slice content a b in
    let embed = prepend header body in
    let subs = chunk_by_lines body config in
    if leb b a
    then []
    else if leb (b - a) (cap_of config) && leb (count_tokens embed) max_safe_body_tokens
    then record {
      piece = record { body_start = a; body_end = b; text = embed };
      count = count_tokens embed;
    }
      ∷ []
    else count_or_split count_tokens (split_oversized 3 count_tokens content config) a
        (prepend_first header subs)

-- `boundaries.windows(2)`
pub windows_loop : (ℕ → ℕ → List Counted) → List ℕ → List Counted
windows_loop chunks [] = []
windows_loop chunks (a ∷ []) = []
windows_loop chunks (a ∷ b ∷ bs) = chunks a b ++ windows_loop chunks (b ∷ bs)

pub chunk_by_items : (Text → ℕ) → Text → List ItemSpan → ChunkingConfig → List Counted
chunk_by_items count_tokens content spans config =
    let total = length content in
    windows_loop (tile_chunks count_tokens content spans config)
      (dedup_from 0 (item_cuts spans (target_of config) total 0 ++ (total ∷ [])))

pub outline_entries_for_chunk : Text → List Text → List Text
unfolding contains first_line
outline_entries_for_chunk chunk_text outline =
    filter_b
      (λ entry. contains chunk_text (elim (first_line entry) [ none ↦ entry | some line ↦ line ]))
      outline

pub safe_chunks : (Text → ℕ) → Text → Option (List ItemSpan) → ChunkingConfig → List Counted
safe_chunks count_tokens content (some (sp ∷ sps)) config =
    chunk_by_items count_tokens content (sp ∷ sps) config
safe_chunks count_tokens content (some []) config =
    count_or_split count_tokens (split_oversized 3 count_tokens content config) 0
      (chunk_by_lines content config)
safe_chunks count_tokens content none config =
    count_or_split count_tokens (split_oversized 3 count_tokens content config) 0
      (chunk_by_lines content config)

-- The numbered chunks, from the index `i` on.
pub number_chunks : List Text → ℕ → ℕ → List Counted → List Chunk
number_chunks outline total i [] = []
number_chunks outline total i (c ∷ cs) =
    record {
      content = c.piece.text;
      index = i;
      total_chunks = total;
      body_start = c.piece.body_start;
      body_end = c.piece.body_end;
      outline_entries = outline_entries_for_chunk c.piece.text outline;
      token_count = c.count;
    }
    ∷ number_chunks outline total (suc i) cs

pub chunk_document :
    (Text → ℕ) → Text → List Text → Option (List ItemSpan) → ChunkingConfig → List Chunk
chunk_document count_tokens content outline item_spans config =
    let upper_bound = length content / 3 in
    let safe = safe_chunks count_tokens content item_spans config in
    if leb upper_bound config.token_threshold
    then record {
      content = content;
      index = 0;
      total_chunks = 1;
      body_start = 0;
      body_end = length content;
      outline_entries = outline;
      token_count = upper_bound;
    }
      ∷ []
    else number_chunks outline (length safe) 0 safe
