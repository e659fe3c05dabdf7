-- ===== src/Response.antt =====
-- What crates/caw-core/src/lib.rs does with the text of a model's response: the end of the answer,
-- recall blocks that the model made up, the thinking in front of the answer, and a JSON object in
-- prose. `detect_loop` is not modelled.
pub mod Json
pub mod Blocks
pub mod Thinking
pub mod Tests
use opencaw.Prelude.{
  ℕ, zero, suc, ◌+◌, ◌-◌, Bool, true, false, Option, none, some, List, [], ◌∷◌, ◌++◌, ltb, ◌==◌,
  if◌then◌else◌, length, take, drop,
}
use opencaw.Core.{Text}
use opencaw.Text.{ascii, slice, find}
use opencaw.Text.Format.{trim, trim_end}

abbrev cut_before : Text → Option ℕ → Text → Text
cut_before text none otherwise = otherwise
cut_before text (some pos) otherwise = trim_end (take pos text)

pub truncate_at_chat_boundary : Text → Text
truncate_at_chat_boundary text =
    cut_before text (find (ascii "<|im_start|>") text)
      (cut_before text (find (ascii "<|im_end|>") text) text)

-- One round of the loop: the text in front of a block and the text behind it, or the whole text at
-- the end.
pub data Round : Type 0 where
  next : Text → Text → Round
  ends : Text → Round

abbrev closed_at : Text → ℕ → Option ℕ → Round
closed_at remaining start none = ends remaining
closed_at remaining start (some end_rel) =
    next (take start remaining) (drop (start + end_rel + length (ascii "[end recall]")) remaining)

abbrev opened_at : Text → Option ℕ → Round
opened_at remaining none = ends remaining
opened_at remaining (some start) =
    closed_at remaining start (find (ascii "[end recall]") (drop start remaining))

pub strip_round : Text → Round
strip_round remaining = opened_at remaining (find (ascii "[recalled from ") remaining)

-- Each block has bytes, so that the bytes of the text are enough fuel.
pub strip_loop : ℕ → Text → Text
unfolding strip_round
strip_loop zero remaining = remaining
strip_loop (suc fuel) remaining = elim (strip_round remaining) [
  | ends rest ↦ rest
  | next front behind ↦ front ++ strip_loop fuel behind
]

pub strip_fake_recall_blocks : Text → Text
unfolding strip_loop
strip_fake_recall_blocks text = strip_loop (length text) text

abbrev pub is_empty : Text → Bool
is_empty [] = true
is_empty (c ∷ s) = false

abbrev open_thinking : Text → ℕ → Option Text × Text
open_thinking raw o = (some (trim (drop (o + length (ascii "<think>")) raw)), trim (take o raw))

abbrev closed_thinking : Text → ℕ → ℕ → Option Text × Text
closed_thinking raw o c =
    let thinking = trim (slice raw (o + length (ascii "<think>")) c) in
    let answer = trim (drop (c + length (ascii "</think>")) raw) in
    if is_empty thinking then (none, answer) else (some thinking, answer)

abbrev thinking_at : Text → Option ℕ → Option ℕ → Option Text × Text
thinking_at raw none close = (none, raw)
thinking_at raw (some o) none = open_thinking raw o
thinking_at raw (some o) (some c) = if ltb o c then closed_thinking raw o c else open_thinking raw o

pub split_thinking : Text → Option Text × Text
split_thinking raw = thinking_at raw (find (ascii "<think>") raw) (find (ascii "</think>") raw)

-- The locals of `extract_json_object`.
pub record Scan : Type 0 where
  pub start : Option ℕ
  pub depth : ℕ
  pub in_string : Bool
  pub escaped : Bool

-- How a round ends: on to the next character, or with the object's first and last byte.
pub data Outcome : Type 0 where
  goes : Scan → Outcome
  found : Option (ℕ × ℕ) → Outcome

abbrev first_or : ℕ → Option ℕ → Option ℕ
first_or idx none = some idx
first_or idx (some i) = some i

abbrev closing : ℕ → Option ℕ → Option (ℕ × ℕ)
closing idx none = none
closing idx (some begin) = some (begin, idx)

-- The characters that matter are ASCII, so that the loop over the bytes sees the same ones.
pub scan_step : ℕ → ℕ → Scan → Outcome
scan_step idx c st =
    if st.in_string
    then (if st.escaped
        then goes (record st { escaped = false })
        else if c == 92
        then goes (record st { escaped = true })
        else if c == 34
        then goes (record st { in_string = false })
        else goes st)
    else if c == 34
    then goes (record st { in_string = true })
    else if c == 123
    then goes (record st { start = first_or idx st.start; depth = st.depth + 1 })
    else if c == 125
    then (if st.depth == 0
        then goes st
        else if st.depth - 1 == 0
        then found (closing idx st.start)
        else goes (record st { depth = st.depth - 1 }))
    else goes st

pub scan_loop : ℕ → Scan → Text → Option (ℕ × ℕ)
unfolding scan_step
scan_loop idx st [] = none
scan_loop idx st (c ∷ s) = elim (scan_step idx c st) [
  | goes st' ↦ scan_loop (idx + 1) st' s
  | found range ↦ range
]

abbrev pub start_scan : Scan
start_scan = record { start = none; depth = 0; in_string = false; escaped = false }

abbrev object_at : Text → Option (ℕ × ℕ) → Option Text
object_at raw none = none
object_at raw (some (begin, idx)) = some (slice raw begin (idx + 1))

pub extract_json_object : Text → Option Text
unfolding scan_loop
extract_json_object raw = object_at raw (scan_loop 0 start_scan raw)
