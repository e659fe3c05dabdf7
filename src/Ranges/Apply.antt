-- ===== src/Ranges/Apply.antt =====
-- When `Range::apply` panics.
use opencaw.Prelude.{
  ℕ, ◌+◌, ◌-◌, ◌^◌, ◌<◌, ◌≡◌, ◌∙◌, refl, inl, inr, Bool, true, false, not, ◌&&◌, ◌||◌, Option, none,
  some, List, arith, ltb, leb, length, Bool-cases,
}
use opencaw.Core.{Text}
use opencaw.Text.{lines}
use opencaw.Ranges.{
  Range, full, lines_of, heading, tokens_of, custom, Bpe, slice_tokens, decode_range,
  extract_token_range, apply, apply_lines,
}

abbrev pub is_some : Option Text → Bool
is_some none = false
is_some (some t) = true

-- A range of tokens whose end does not fit into 64 bits; where that wraps around, it must start
-- inside the text.
abbrev pub overflows : Option Bpe → ℕ → ℕ → Text → Bool
overflows none start count content = false
overflows (some bpe) start count content =
    leb (2 ^ 64) (start + count) && (bpe.checks_overflow || ltb start (length (bpe.encode content)))

-- A range of lines that ends before it starts, and starts inside the text, or such a range of tokens.
abbrev pub runs_backwards : Option Bpe → Range → Text → Bool
runs_backwards cl100k (lines_of start end) content =
    ltb (start - 1) (length (lines content)) && ltb end (start - 1)
runs_backwards cl100k full content = false
runs_backwards cl100k (heading path) content = false
runs_backwards cl100k (tokens_of start count) content = overflows cl100k start count content
runs_backwards cl100k (custom s) content = false

-- The numbers of a range are `usize`.
abbrev pub HasSizes : Range → Type 0
HasSizes (tokens_of start count) = (start < 2 ^ 64) × (count < 2 ^ 64)
HasSizes full = Unit
HasSizes (lines_of start end) = Unit
HasSizes (heading path) = Unit
HasSizes (custom s) = Unit

apply_lines_total :
    (start end : ℕ) (ls : List Text)
    → is_some (apply_lines start end ls) ≡ not (ltb (start - 1) (length ls) && ltb end (start - 1))
unfolding apply_lines
apply_lines_total start end ls = ground arith

slice_tokens_total :
    (bpe : Bpe) (tokens : List ℕ) (start count : ℕ)
    → start < 2 ^ 64
    → count < 2 ^ 64
    → is_some (slice_tokens bpe tokens start count)
      ≡ not (leb (2 ^ 64) (start + count) && ltb start (length tokens))
unfolding slice_tokens
slice_tokens_total bpe tokens start count s c = ground arith

decode_range_total :
    (bpe : Bpe) (content : Text) (start count : ℕ)
    → start < 2 ^ 64
    → count < 2 ^ 64
    → is_some (decode_range bpe content start count)
      ≡ not (overflows (some bpe) start count content)
unfolding decode_range
decode_range_total bpe content start count s c =
    let slice = slice_tokens_total bpe (bpe.encode content) start count s c in
    elim (Bool-cases (bpe.checks_overflow && leb (2 ^ 64) (start + count))) [
      | inl e ↦ rw (decode_range, e) (ground arith)
      | inr e ↦ rw (decode_range, e) (slice ∙ ground arith)
    ]

-- `Range::apply` panics exactly on a line range that ends at least two lines before it starts, and
-- starts inside the text, and on a token range whose start and count add up to more than 64 bits
-- hold: in a build that checks overflow always, in another if it starts inside the tokens of the
-- text. When the tokenizer could not be loaded, no token range panics.
pub apply_total :
    (cl100k : Option Bpe) (r : Range) (content : Text)
    → HasSizes r
    → is_some (apply cl100k r content) ≡ not (runs_backwards cl100k r content)
unfolding apply extract_token_range
apply_total cl100k full content h = refl
apply_total cl100k (lines_of start end) content h = apply_lines_total start end (lines content)
apply_total cl100k (heading path) content h = refl
apply_total none (tokens_of start count) content h = refl
apply_total (some bpe) (tokens_of start count) content (s, c) =
    decode_range_total bpe content start count s c
apply_total cl100k (custom s) content h = refl
