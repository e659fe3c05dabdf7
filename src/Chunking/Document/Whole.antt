-- ===== src/Chunking/Document/Whole.antt =====
-- `chunk_document` over all of it: what it returns for a whole document.
use mathlib.Core.List.{append-nil}
use opencaw.Prelude.{
  ℕ, suc, ◌/◌, ◌≤◌, ◌<◌, ◌≡◌, ◌⊎◌, inl, inr, refl, sym, ap, ◌∙◌, Option, none, some, List, [], ◌∷◌,
  ◌++◌, map, arith, leb, length, All, Bool-cases,
}
use opencaw.Core.{Text}
use opencaw.Text.{slice}
use opencaw.Text.Bounds.{slice_all}
use opencaw.Text.Utf8.{Boundary, IsUtf8, Boundary-zero, Boundary-length}
use opencaw.Chunking.{ChunkingConfig, Piece, Chunk, max_safe_body_tokens, cap_of, chunk_by_lines}
use opencaw.Chunking.Tiling.{Tiles, joined, joined-Tiles}
use opencaw.Chunking.Document.{
  Counted, ItemSpan, split_oversized, count_or_split, safe_chunks, number_chunks, chunk_document,
}
use opencaw.Chunking.Document.Boundaries.{InText, spans_of}
use opencaw.Chunking.Document.Split.{IsChunk, IsSplit, lines-IsSplit, split_oversized-IsSplit}
use opencaw.Chunking.Document.Items.{chunk_by_items-IsSplit}
use opencaw.Chunking.Document.Tokens.{IsSafe, TokensInBytes, Within, safe_chunks-IsSafe}

-- The range of a chunk and the text to embed for it.
abbrev pub piece_of_chunk : Chunk → Piece
piece_of_chunk c = record { body_start = c.body_start; body_end = c.body_end; text = c.content }

-- The chunks are numbered from `i` on, each knows how many there are.
unfoldable pub IsNumbered : ℕ → ℕ → List Chunk → Type 0
IsNumbered total i [] = Unit
IsNumbered total i (c ∷ cs) = (c.index ≡ i) × (c.total_chunks ≡ total) × IsNumbered total (suc i) cs

-- The body of the chunk cuts no code point, and ends the text to embed.
pub record IsExcerpt (content : Text) (c : Chunk) : Type 0 where
  pub starts : Boundary content c.body_start
  pub ends : Boundary content c.body_end
  pub prefix : Text
  pub reads : c.content ≡ prefix ++ slice content c.body_start c.body_end

-- The chunks of a document: they tile it, they are numbered, and each shows its part.
pub record IsChunked (content : Text) (cs : List Chunk) : Type 0 where
  pub tiles : Tiles 0 (length content) (map piece_of_chunk cs)
  pub whole : joined content (map piece_of_chunk cs) ≡ content
  pub numbered : IsNumbered (length cs) 0 cs
  pub excerpts : All (IsExcerpt content) cs

number_chunks-pieces :
    (outline : List Text) (total i : ℕ) (cs : List Counted)
    → map piece_of_chunk (number_chunks outline total i cs) ≡ map (λ c. c.piece) cs
unfolding number_chunks
number_chunks-pieces outline total i [] = refl
number_chunks-pieces outline total i (c ∷ cs) =
    ap (◌∷◌ c.piece) (number_chunks-pieces outline total (suc i) cs)

number_chunks-length :
    (outline : List Text) (total i : ℕ) (cs : List Counted)
    → length (number_chunks outline total i cs) ≡ length cs
unfolding number_chunks
number_chunks-length outline total i [] = refl
number_chunks-length outline total i (c ∷ cs) =
    ap suc (number_chunks-length outline total (suc i) cs)

number_chunks-IsNumbered :
    (outline : List Text) (total i : ℕ) (cs : List Counted)
    → IsNumbered total i (number_chunks outline total i cs)
unfolding number_chunks IsNumbered
number_chunks-IsNumbered outline total i [] = _
number_chunks-IsNumbered outline total i (c ∷ cs) =
    (refl, refl, number_chunks-IsNumbered outline total (suc i) cs)

number_chunks-IsExcerpt :
    (count_tokens : Text → ℕ) (content : Text) (outline : List Text) (total i : ℕ)
    (cs : List Counted)
    → All (IsChunk count_tokens content) cs
    → All (IsExcerpt content) (number_chunks outline total i cs)
unfolding number_chunks
number_chunks-IsExcerpt count_tokens content outline total i [] h = _
number_chunks-IsExcerpt count_tokens content outline total i (c ∷ cs) (h, hs) = (
  record { starts = h.starts; ends = h.ends; prefix = h.prefix; reads = h.reads },
  number_chunks-IsExcerpt count_tokens content outline total (suc i) cs hs,
)

lines-Whole :
    (count_tokens : Text → ℕ) (content : Text) (config : ChunkingConfig)
    → IsUtf8 content
    → 4 ≤ cap_of config
    → IsSplit count_tokens content 0 (length content) (
        count_or_split count_tokens
          (split_oversized 3 count_tokens content config)
          0
          (chunk_by_lines content config))
lines-Whole count_tokens content config u wide = rw (slice_all content) at (
    lines-IsSplit count_tokens content (split_oversized 3 count_tokens content config) config 0
      (length content) u wide (Boundary-zero content) (Boundary-length content) (omega arith)
      (split_oversized-IsSplit count_tokens content 3 config u))

safe_chunks-IsSplit :
    (count_tokens : Text → ℕ) (content : Text) (item_spans : Option (List ItemSpan))
    (config : ChunkingConfig)
    → IsUtf8 content
    → 4 ≤ cap_of config
    → All (InText content) (spans_of item_spans)
    → IsSplit count_tokens content 0
        (length content)
        (safe_chunks count_tokens content item_spans config)
unfolding safe_chunks
safe_chunks-IsSplit count_tokens content none config u wide h =
    lines-Whole count_tokens content config u wide
safe_chunks-IsSplit count_tokens content (some []) config u wide h =
    lines-Whole count_tokens content config u wide
safe_chunks-IsSplit count_tokens content (some (sp ∷ sps)) config u wide h =
    chunk_by_items-IsSplit count_tokens content (sp ∷ sps) config u wide h

numbered-IsChunked :
    (count_tokens : Text → ℕ) (content : Text) (outline : List Text) (cs : List Counted)
    → IsSplit count_tokens content 0 (length content) cs
    → IsChunked content (number_chunks outline (length cs) 0 cs)
numbered-IsChunked count_tokens content outline cs s =
    let e = number_chunks-pieces outline (length cs) 0 cs in
    record {
      tiles = rw e s.tiles;
      whole = rw e (joined-Tiles content 0 (length content) _ s.tiles ∙ slice_all content);
      numbered =
          rw (number_chunks-length outline (length cs) 0 cs)
            (number_chunks-IsNumbered outline (length cs) 0 cs);
      excerpts = number_chunks-IsExcerpt count_tokens content outline (length cs) 0 cs s.chunks;
    }

-- The chunks of a document that is not empty tile it: their bodies follow one another without a
-- gap or an overlap, and joined they are the document. They are numbered from 0 on and know their
-- number, no body cuts a code point, and each text to embed ends in its body. This holds with and
-- without an outline, if the document is UTF-8, the cap holds a code point, and the outline's
-- items begin in the document, between code points.
pub chunk_document-IsChunked :
    (count_tokens : Text → ℕ) (content : Text) (outline : List Text)
    (item_spans : Option (List ItemSpan)) (config : ChunkingConfig)
    → IsUtf8 content
    → 4 ≤ cap_of config
    → 0 < length content
    → All (InText content) (spans_of item_spans)
    → IsChunked content (chunk_document count_tokens content outline item_spans config)
unfolding chunk_document Tiles joined IsNumbered
chunk_document-IsChunked count_tokens content outline item_spans config u wide some_text h =
    elim (Bool-cases (leb (length content / 3) config.token_threshold)) [
      | inl small ↦ rw small (record {
        tiles = (refl, some_text, refl);
        whole = append-nil (slice content 0 (length content)) ∙ slice_all content;
        numbered = (refl, refl, _);
        excerpts = (
          record {
            starts = Boundary-zero content;
            ends = Boundary-length content;
            prefix = [];
            reads = sym (slice_all content);
          },
          _,
        );
      })
      | inr large ↦ rw large (
          numbered-IsChunked count_tokens content outline
            (safe_chunks count_tokens content item_spans config)
            (safe_chunks-IsSplit count_tokens content item_spans config u wide h))
    ]

-- The count of the chunk is that of its text's tokens, and the embedder takes them.
abbrev pub IsCounted : (Text → ℕ) → Chunk → Type 0
IsCounted count_tokens c =
    (c.token_count ≡ count_tokens c.content) × (count_tokens c.content ≤ max_safe_body_tokens)

number_chunks-token_count :
    (count_tokens : Text → ℕ) (outline : List Text) (total i : ℕ) (cs : List Counted)
    → All (IsSafe count_tokens) cs
    → All (IsCounted count_tokens) (number_chunks outline total i cs)
unfolding number_chunks
number_chunks-token_count count_tokens outline total i [] h = _
number_chunks-token_count count_tokens outline total i (c ∷ cs) (h, hs) =
    (h, number_chunks-token_count count_tokens outline total (suc i) cs hs)

-- A third of the text's bytes is within the threshold, and the one chunk has it as its count; or it
-- is above, and each chunk has the number of its text's tokens as its count.
abbrev pub IsMeasured : (Text → ℕ) → Text → ChunkingConfig → List Chunk → Type 0
IsMeasured count_tokens content config chunks =
    ((length content / 3 ≤ config.token_threshold)
      × (map (λ c. c.token_count) chunks ≡ length content / 3 ∷ []))
    ⊎ ((config.token_threshold < length content / 3) × All (IsCounted count_tokens) chunks)

-- If a third of the document's bytes is more than the threshold, no text to embed has more than
-- `max_safe_body_tokens` tokens, and each chunk records the number of its tokens. Otherwise there is
-- one chunk, which records that third as its estimate. The tokenizer must make at most one token of a
-- byte (the empty text may count as one), and the cap be at most eight times `max_safe_body_tokens`:
-- three halvings are then enough. The document must be UTF-8, the cap hold a code point, and the
-- outline's items begin in the document, between code points.
pub chunk_document-token_count :
    (count_tokens : Text → ℕ) (content : Text) (outline : List Text)
    (item_spans : Option (List ItemSpan)) (config : ChunkingConfig)
    → TokensInBytes count_tokens
    → IsUtf8 content
    → 4 ≤ cap_of config
    → Within 3 config
    → All (InText content) (spans_of item_spans)
    → IsMeasured count_tokens content config
        (chunk_document count_tokens content outline item_spans config)
unfolding chunk_document
chunk_document-token_count count_tokens content outline item_spans config in_bytes u wide small h =
    elim (Bool-cases (leb (length content / 3) config.token_threshold)) [
      | inl fits ↦ rw fits (inl (ground arith, refl))
      | inr large ↦ rw large (
          inr (
            ground arith,
            number_chunks-token_count count_tokens outline _ 0 _
                (safe_chunks-IsSafe count_tokens in_bytes content u config small wide item_spans h),
          ))
    ]
