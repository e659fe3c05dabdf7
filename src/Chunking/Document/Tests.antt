-- ===== src/Chunking/Document/Tests.antt =====
-- Chunks of a short document with two items.
use opencaw.Prelude.{ℕ, ◌≡◌, refl, List, [], ◌∷◌, some, arith, length, map, All}
use opencaw.Core.{Text}
use opencaw.Chunking.{chunk_by_lines, cut_at}
use opencaw.Chunking.Tests.{small_config, sample, sample-IsUtf8, ranges}
use opencaw.Text.{find_byte, rfind_byte, is_char_boundary}
use opencaw.Chunking.Document.{
  ItemSpan, chunk_document, chunk_by_items, build_item_header, tile_chunks, windows_loop,
  dedup_from, item_cuts, count_or_split, build_item_header,
}
use opencaw.Chunking.Document.Boundaries.{InText}
use opencaw.Chunking.Document.Tokens.{Within, limit, TokensInBytes}
use opencaw.Chunking.Document.Whole.{
  IsMeasured, IsChunked, chunk_document-IsChunked, chunk_document-token_count,
}

-- A token for each byte.
abbrev byte_tokens : Text → ℕ
byte_tokens t = length t

abbrev items : List ItemSpan
items =
    record { start = 0; end = 6; signature = 97 ∷ []; doc = [] }
    ∷ record { start = 7; end = 13; signature = 102 ∷ []; doc = 103 ∷ [] }
    ∷ []

items-InText : All (InText sample) items
unfolding is_char_boundary
items-InText = ((omega arith, refl), ((omega arith, refl), _))

document_ranges :
    ranges (map (λ c. c.piece) (chunk_by_items byte_tokens sample items small_config))
    ≡ (0, 3) ∷ (3, 7) ∷ (7, 11) ∷ (11, 13) ∷ []
unfolding chunk_by_items windows_loop dedup_from item_cuts tile_chunks count_or_split chunk_by_lines
    cut_at find_byte rfind_byte build_item_header
document_ranges = refl

chunk_document-IsChunked_example :
    IsChunked sample (chunk_document byte_tokens sample [] (some items) small_config)
chunk_document-IsChunked_example =
    chunk_document-IsChunked byte_tokens sample [] (some items) small_config sample-IsUtf8
      (omega arith) (omega arith) items-InText

byte_tokens-TokensInBytes : TokensInBytes byte_tokens
byte_tokens-TokensInBytes t = omega arith

small_config-Within : Within 3 small_config
unfolding limit
small_config-Within = omega arith

chunk_document-token_count_example :
    IsMeasured byte_tokens sample small_config
      (chunk_document byte_tokens sample [] (some items) small_config)
chunk_document-token_count_example =
    chunk_document-token_count byte_tokens sample [] (some items) small_config
      byte_tokens-TokensInBytes sample-IsUtf8 (omega arith) small_config-Within items-InText
