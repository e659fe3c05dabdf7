-- ===== src/Chunking.antt =====
-- crates/caw-ingest/src/chunking.rs: a document is cut into chunks that tile it. The tokenizer
-- is the parameter `count_tokens`, the trait method that counts the tokens of a text. A loop that
-- takes fuel is given the length of the text, and each of its rounds cuts off at least one byte.
pub mod Cuts
pub mod Overlap
pub mod Tiling
pub mod Document
pub mod Tests
use opencaw.Prelude.{
  ℕ, zero, suc, ◌+◌, ◌-◌, min, max, Bool, true, false, ◌||◌, none, some, List, [], ◌∷◌, ◌++◌, leb,
  ◌==◌, if◌then◌else◌, length,
}
use opencaw.Core.{Text}
use opencaw.Text.{slice, newline, find_byte, rfind_byte, is_char_boundary, ends_with_byte}

pub record ChunkingConfig : Type 0 where
  pub token_threshold : ℕ
  pub target_chunk_tokens : ℕ
  pub overlap_tokens : ℕ
  pub target_chunk_chars : ℕ
  pub max_chunk_chars : ℕ
  pub overlap_chars : ℕ

abbrev pub default_config : ChunkingConfig
default_config = record {
  token_threshold = 500;
  target_chunk_tokens = 400;
  overlap_tokens = 80;
  target_chunk_chars = 1400;
  max_chunk_chars = 1800;
  overlap_chars = 280;
}

abbrev pub max_safe_body_tokens : ℕ
max_safe_body_tokens = 500

pub record Chunk : Type 0 where
  pub content : Text
  pub index : ℕ
  pub total_chunks : ℕ
  pub body_start : ℕ
  pub body_end : ℕ
  pub outline_entries : List Text
  pub token_count : ℕ

-- `while idx > 0 && !s.is_char_boundary(idx) { idx -= 1 }`
floor_from : Text → ℕ → ℕ
unfolding is_char_boundary
floor_from s zero = zero
floor_from s (suc idx) =
    let below = floor_from s idx in if is_char_boundary s (suc idx) then suc idx else below

pub floor_char_boundary : Text → ℕ → ℕ
unfolding floor_from
floor_char_boundary s idx = if leb (length s) idx then length s else floor_from s idx

-- `(body_start, body_end, embed_text)`
pub record Piece : Type 0 where
  pub body_start : ℕ
  pub body_end : ℕ
  pub text : Text

-- `config.target_chunk_chars.max(1)`, `config.max_chunk_chars.max(target)` and the overlap.
abbrev pub target_of : ChunkingConfig → ℕ
target_of config = max config.target_chunk_chars 1

abbrev pub cap_of : ChunkingConfig → ℕ
cap_of config = max config.max_chunk_chars (target_of config)

abbrev pub overlap_of : ChunkingConfig → ℕ
overlap_of config = min config.overlap_chars (cap_of config - 1)

-- Where a line begins that ends at the end of the text.
abbrev after_last_newline : Text → ℕ
after_last_newline s = elim (rfind_byte newline s) [ none ↦ 0 | some p ↦ p + 1 ]

abbrev with_newline : Text → Text
with_newline s = if ends_with_byte newline s then s else s ++ (newline ∷ [])

pub prepend_line_overlap : Text → Text → ℕ → Bool → Text
unfolding floor_char_boundary ends_with_byte rfind_byte
prepend_line_overlap dst preceding overlap_chars is_first =
    if is_first || (overlap_chars == 0) || (length preceding == 0)
    then dst
    else let start_byte = floor_char_boundary preceding (length preceding - overlap_chars) in
      let snap = after_last_newline (slice preceding 0 start_byte) in
      let final_start = max snap (floor_char_boundary preceding (start_byte - overlap_chars)) in
      with_newline (dst ++ slice preceding final_start (length preceding))

-- The end of the chunk that begins at `start`, if the remainder does not fit whole.
pub cut_at : Text → ChunkingConfig → ℕ → ℕ
unfolding floor_char_boundary
cut_at content config start =
    let total = length content in
    let ideal = floor_char_boundary content (min (start + target_of config) total) in
    let hard = floor_char_boundary content (min (start + cap_of config) total) in
    elim (find_byte newline (slice content ideal hard)) [
      | some rel ↦ ideal + rel + 1
      | none ↦ elim (rfind_byte newline (slice content start hard)) [
        | some pos ↦ start + pos + 1
        | none ↦ max hard (start + 1)
      ]
    ]

-- The chunk with the body `content[start..cut]`.
pub piece_of : Text → ChunkingConfig → Bool → ℕ → ℕ → Piece
unfolding prepend_line_overlap
piece_of content config is_first start cut = record {
  body_start = start;
  body_end = cut;
  text =
      prepend_line_overlap [] (slice content 0 start) (overlap_of config) is_first
      ++ slice content start cut;
}

pub lines_loop : ℕ → Text → ChunkingConfig → Bool → ℕ → List Piece
unfolding piece_of cut_at
lines_loop zero content config is_first start = []
lines_loop (suc fuel) content config is_first start =
    let total = length content in
    let cut = cut_at content config start in
    let rest = lines_loop fuel content config false cut in
    if leb total start
    then []
    else if leb (total - start) (cap_of config)
    then piece_of content config is_first start total ∷ []
    else piece_of content config is_first start cut ∷ rest

pub chunk_by_lines : Text → ChunkingConfig → List Piece
unfolding lines_loop
chunk_by_lines content config =
    if length content == 0 then [] else lines_loop (length content) content config true 0
