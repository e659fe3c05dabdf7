-- ===== src/Chunking/Tests.antt =====
-- Chunks of a short text, with bounds that are small enough to cut it.
use opencaw.Prelude.{ℕ, ◌≡◌, refl, List, [], ◌∷◌, arith, map}
use opencaw.Core.{Text}
use opencaw.Text.Utf8.{IsUtf8, ascii-IsUtf8, is_ascii-All}
use opencaw.Chunking.{ChunkingConfig, Piece, chunk_by_lines, cut_at}
use opencaw.Chunking.Tiling.{IsTiled, chunk_by_lines-IsTiled}
use opencaw.Text.{find_byte, rfind_byte}

abbrev pub small_config : ChunkingConfig
small_config = record {
  token_threshold = 1;
  target_chunk_tokens = 2;
  overlap_tokens = 1;
  target_chunk_chars = 3;
  max_chunk_chars = 5;
  overlap_chars = 2;
}

-- "ab\ncde\nfgh\nij"
abbrev pub sample : Text
sample = 97 ∷ 98 ∷ 10 ∷ 99 ∷ 100 ∷ 101 ∷ 10 ∷ 102 ∷ 103 ∷ 104 ∷ 10 ∷ 105 ∷ 106 ∷ []

pub sample-IsUtf8 : IsUtf8 sample
sample-IsUtf8 = ascii-IsUtf8 sample (is_ascii-All sample refl)

abbrev pub ranges : List Piece → List (ℕ × ℕ)
ranges = map (λ p. (p.body_start, p.body_end))

sample-ranges :
    ranges (chunk_by_lines sample small_config) ≡ (0, 3) ∷ (3, 7) ∷ (7, 11) ∷ (11, 13) ∷ []
unfolding chunk_by_lines cut_at find_byte rfind_byte
sample-ranges = refl

chunk_by_lines-IsTiled_example : IsTiled sample small_config 0 (chunk_by_lines sample small_config)
chunk_by_lines-IsTiled_example =
    chunk_by_lines-IsTiled sample small_config sample-IsUtf8 (omega arith)
