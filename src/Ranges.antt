-- ===== src/Ranges.antt =====
-- `Range` of crates/caw-core/src/lib.rs: how a range is read and printed, and what it selects. The
-- token range is cut as in crates/caw-core/src/tokenizer.rs, with the tokenizer of a library as a
-- parameter, the record Bpe. A `usize` has 64 bits.
pub mod Digits
pub mod RoundTrip
pub mod Apply
pub mod Tests
use opencaw.Prelude.{
  ℕ, suc, ◌+◌, ◌-◌, ◌*◌, ◌%◌, ◌^◌, min, Bool, true, false, ◌&&◌, ◌||◌, Option, none, some, List, [],
  ◌∷◌, ◌++◌, map, ltb, leb, ◌==◌, if◌then◌else◌, length, take, drop,
}
use opencaw.Core.{Text}
use opencaw.Text.{
  ascii, starts_with, strip_prefix, newline, lines, join, split_byte, split_once, remove_byte,
  eq_ignore_ascii_case, eq_text,
}
use opencaw.Text.Format.{decimal, trim, trim_start, words_from}

pub data Range : Type 0 where
  full : Range
  lines_of : ℕ → ℕ → Range
  heading : List Text → Range
  tokens_of : ℕ → ℕ → Range
  custom : Text → Range

-- `parse::<usize>()`: digits, with a plus sign in front or not, below 2 ^ 64.
pub digit_step : ℕ → ℕ → Option ℕ
digit_step n c =
    if (leb 48 c && leb c 57) && ltb (n * 10 + (c - 48)) (2 ^ 64)
    then some (n * 10 + (c - 48))
    else none

pub digits_from : ℕ → Text → Option ℕ
unfolding digit_step
digits_from n [] = some n
digits_from n (c ∷ s) = elim (digit_step n c) [ none ↦ none | some m ↦ digits_from m s ]

abbrev pub without_plus : Text → Text
without_plus [] = []
without_plus (c ∷ s) = if c == 43 then s else c ∷ s

pub digits : Text → Option ℕ
unfolding digits_from
digits [] = none
digits (c ∷ s) = digits_from 0 (c ∷ s)

pub parse_usize : Text → Option ℕ
unfolding digits
parse_usize s = digits (without_plus s)

-- Both parts as numbers.
abbrev pub both : Option (Text × Text) → Option (ℕ × ℕ)
both none = none
both (some (start, end)) = elim (parse_usize start) [
  | none ↦ none
  | some s ↦ elim (parse_usize end) [ none ↦ none | some e ↦ some (s, e) ]
]

abbrev plain_lines : Text → Option (ℕ × ℕ) → Range
plain_lines s none = custom s
plain_lines s (some (start, end)) = lines_of start end

-- `L5-L15`, and otherwise the plain line range.
abbrev marked_lines : Text → Option (ℕ × ℕ) → Range
marked_lines s none = plain_lines s (both (split_once 45 s))
marked_lines s (some (start, end)) = lines_of start end

pub parse_lines : Text → Range
parse_lines s =
    marked_lines s
      (if starts_with s (ascii "L") then both (split_once 45 (remove_byte 76 s)) else none)

abbrev token_range : Text → Option (ℕ × ℕ) → Range
token_range s none = parse_lines s
token_range s (some (start, count)) = tokens_of start count

abbrev pub token_parts : Option Text → Option (ℕ × ℕ)
token_parts none = none
token_parts (some rest) = both (split_once 58 rest)

abbrev pub unless_heading : Text → Option Text → Range
unless_heading s none = token_range s (token_parts (strip_prefix (ascii "T") s))
unless_heading s (some path) = heading (map trim (split_byte 47 path))

abbrev is_empty : Text → Bool
is_empty [] = true
is_empty (c ∷ s) = false

pub parse_trimmed : Text → Range
unfolding parse_usize parse_lines
parse_trimmed s =
    if eq_ignore_ascii_case s (ascii "full") || is_empty s
    then full
    else unless_heading s (strip_prefix (ascii "#") s)

pub parse : Text → Range
unfolding parse_trimmed
parse s = parse_trimmed (trim s)

pub to_locator_string : Range → Text
to_locator_string full = ascii "full"
to_locator_string (lines_of start end) = decimal start ++ (45 ∷ decimal end)
to_locator_string (heading path) = 35 ∷ join (ascii "/") path
to_locator_string (tokens_of start count) = 84 ∷ (decimal start ++ (58 ∷ decimal count))
to_locator_string (custom s) = s

-- How many bytes of the mark the text begins with, and the text behind them.
abbrev pub hash_level : Text → ℕ
hash_level [] = 0
hash_level (b ∷ s) = let rest = hash_level s in if b == 35 then suc rest else 0

abbrev pub trim_hashes : Text → Text
trim_hashes [] = []
trim_hashes (b ∷ s) = let rest = trim_hashes s in if b == 35 then rest else b ∷ s

-- What a line is to the section: its level, if it is a heading, and whether it is the target.
abbrev pub heading_of : Text → Option Text → Option (ℕ × Text)
heading_of trimmed none = none
heading_of trimmed (some after) = some (hash_level trimmed, trim (trim_hashes after))

-- The lines of the section, with `section_level` if the loop is in it.
section_loop : Text → Option ℕ → List Text → List Text
section_loop target inside [] = []
section_loop target none (line ∷ rest) =
    elim (heading_of (trim_start line) (strip_prefix (ascii "#") (trim_start line))) [
      | none ↦ section_loop target none rest
      | some found ↦ elim (eq_text found.1 target) [
        | true ↦ line ∷ section_loop target (some found.0) rest
        | false ↦ section_loop target none rest
      ]
    ]
section_loop target (some level) (line ∷ rest) =
    elim (heading_of (trim_start line) (strip_prefix (ascii "#") (trim_start line))) [
      | none ↦ line ∷ section_loop target (some level) rest
      | some found ↦ elim (leb found.0 level) [
        | true ↦ []
        | false ↦ line ∷ section_loop target (some level) rest
      ]
    ]

abbrev last_part : Text → List Text → Text
last_part t [] = t
last_part t (u ∷ ts) = last_part u ts

pub extract_heading_section : Text → List Text → Text
unfolding section_loop
extract_heading_section content [] = content
extract_heading_section content (t ∷ ts) =
    join (newline ∷ []) (section_loop (last_part t ts) none (lines content))

-- `none` is a panic, at a slice of lines that runs backwards.
pub apply_lines : ℕ → ℕ → List Text → Option Text
apply_lines start end ls =
    let start_idx = start - 1 in
    let end_idx = min end (length ls) in
    if leb (length ls) start_idx
    then some []
    else if ltb end_idx start_idx
    then none
    else some (join (newline ∷ []) (take (end_idx - start_idx) (drop start_idx ls)))

-- The tokenizer of a library: its tokens, and the text of tokens, if they have one. Whether a sum
-- that overflows panics depends on the build.
pub record Bpe : Type 0 where
  pub encode : Text → List ℕ
  pub decode : List ℕ → Option Text
  pub checks_overflow : Bool

abbrev pub or_empty : Option Text → Text
or_empty none = []
or_empty (some t) = t

-- The slice of the tokens, whose end wraps around where that does not panic.
pub slice_tokens : Bpe → List ℕ → ℕ → ℕ → Option Text
slice_tokens bpe tokens start count =
    let end = min ((start + count) % 2 ^ 64) (length tokens) in
    if leb (length tokens) start
    then some []
    else if ltb end start
    then none
    else some (or_empty (bpe.decode (take (end - start) (drop start tokens))))

pub decode_range : Bpe → Text → ℕ → ℕ → Option Text
unfolding slice_tokens
decode_range bpe text start count =
    if bpe.checks_overflow && leb (2 ^ 64) (start + count)
    then none
    else slice_tokens bpe (bpe.encode text) start count

-- With the tokenizer, if it could be loaded.
pub extract_token_range : Option Bpe → Text → ℕ → ℕ → Option Text
unfolding decode_range words_from
extract_token_range none text start count =
    some (join (32 ∷ []) (take count (drop start (words_from 0 [] text))))
extract_token_range (some bpe) text start count = decode_range bpe text start count

pub apply : Option Bpe → Range → Text → Option Text
unfolding apply_lines extract_heading_section extract_token_range
apply cl100k full content = some content
apply cl100k (lines_of start end) content = apply_lines start end (lines content)
apply cl100k (heading path) content = some (extract_heading_section content path)
apply cl100k (tokens_of start count) content = extract_token_range cl100k content start count
apply cl100k (custom s) content = some content
