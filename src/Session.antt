-- ===== src/Session.antt =====
-- crates/caw-orchestrator/src/session.rs: the text of a turn in the session file, and how it is read
-- back; the compression of an answer, and the date in a file's name. The file, the directory and the
-- clock are not modelled: `write_text` appends what is returned here.
pub mod Turns
pub mod RoundTrip
pub mod Compress
pub mod Dates
pub mod Tests
use opencaw.Prelude.{
  ℕ, zero, suc, ◌+◌, ◌-◌, ◌/◌, ◌%◌, min, Bool, true, false, not, ◌&&◌, ◌||◌, Option, none, some,
  List, [], ◌∷◌, ◌++◌, ltb, leb, ◌==◌, if◌then◌else◌, length, take, drop,
}
use opencaw.Core.{Text}
use opencaw.Text.{ascii, find, rfind, split, starts_with, is_char_boundary}
use opencaw.Text.Format.{decimal, trim, trim_end}

pub write_turn : ℕ → Text → Text → Text
write_turn turn user answer =
    ascii "## Turn "
    ++ (decimal turn
        ++ (ascii "\n\n[User]: "
            ++ (user ++ (ascii "\n\n[Assistant]: " ++ (answer ++ ascii "\n\n---\n\n")))))

pub write_degenerate_turn : ℕ → Text → Text → Text
unfolding write_turn
write_degenerate_turn turn user sample = write_turn turn user (ascii "[DEGENERATE] " ++ sample)

abbrev pub min_end : Text → Option ℕ → Option ℕ → ℕ
min_end rest none none = length rest
min_end rest (some i) none = i
min_end rest none (some j) = j
min_end rest (some i) (some j) = min i j

abbrev field_of : Text → Text
field_of rest =
    trim (take (min_end rest (find (ascii "\n\n---") rest) (find (ascii "\n\n[") rest)) rest)

abbrev field_at : Text → Text → Option ℕ → Text
field_at section marker none = []
field_at section marker (some i) = field_of (drop (i + length marker) section)

pub extract_field : Text → Text → Text
extract_field section marker = field_at section marker (find marker section)

abbrev pub starts_with_digit : Text → Bool
starts_with_digit [] = false
starts_with_digit (c ∷ s) = leb 48 c && leb c 57

abbrev pub is_empty : Text → Bool
is_empty [] = true
is_empty (c ∷ s) = false

pub assistant_of : Text → Option Text
assistant_of raw =
    if starts_with raw (ascii "[DEGENERATE] ")
    then none
    else if is_empty raw
    then none
    else some raw

-- A section that is not a turn, or has no user, is left out.
pub parse_sections : List Text → List (Text × Option Text)
unfolding extract_field assistant_of
parse_sections [] = []
parse_sections (section ∷ sections) =
    let turns = parse_sections sections in
    let user = extract_field section (ascii "[User]: ") in
    if not (starts_with_digit section)
    then turns
    else if is_empty user
    then turns
    else (user, assistant_of (extract_field section (ascii "[Assistant]: "))) ∷ turns

pub parse_session_turns : Text → List (Text × Option Text)
unfolding parse_sections
parse_session_turns content = parse_sections (split (ascii "\n## Turn ") content)

abbrev pub max_prior_assistant_chars : ℕ
max_prior_assistant_chars = 300

abbrev cut_point : ℕ → Option ℕ → ℕ
cut_point budget none = budget
cut_point budget (some i) = i + 1

-- `none` is a panic: the slice of the first 299 bytes cuts a code point.
pub compress_assistant : Text → Option Text
unfolding rfind
compress_assistant text =
    let budget = max_prior_assistant_chars - 1 in
    let cut = min budget (length text) in
    let point = cut_point cut (rfind (ascii ". ") (take cut text)) in
    if leb (length text) max_prior_assistant_chars
    then some text
    else if is_char_boundary text cut && is_char_boundary text point
    then some (trim_end (take point text) ++ (226 ∷ 128 ∷ 166 ∷ []))
    else none

pub is_leap : ℕ → Bool
is_leap y = ((y % 4 == 0) && not (y % 100 == 0)) || (y % 400 == 0)

pub days_in_year : ℕ → ℕ
unfolding is_leap
days_in_year y = if is_leap y then 366 else 365

-- The year of the loop, and the days that are left of it. A year has more days than none, so that
-- the days are enough fuel.
pub year_loop : ℕ → ℕ → ℕ → ℕ × ℕ
unfolding days_in_year
year_loop zero y rem = (y, rem)
year_loop (suc fuel) y rem =
    let later = year_loop fuel (y + 1) (rem - days_in_year y) in
    if ltb rem (days_in_year y) then (y, rem) else later

pub months_of : ℕ → List ℕ
unfolding is_leap
months_of y =
    31 ∷ (if is_leap y then 29 else 28) ∷ 31 ∷ 30 ∷ 31 ∷ 30 ∷ 31 ∷ 31 ∷ 30 ∷ 31 ∷ 30 ∷ 31 ∷ []

pub month_loop : List ℕ → ℕ → ℕ → ℕ × ℕ
month_loop [] mo rem = (mo, rem)
month_loop (dm ∷ months) mo rem =
    let later = month_loop months (mo + 1) (rem - dm) in if ltb rem dm then (mo, rem) else later

pub days_to_ymd : ℕ → ℕ × (ℕ × ℕ)
unfolding year_loop months_of month_loop
days_to_ymd days =
    let (y, rem) = year_loop days 1970 days in
    let (mo, d) = month_loop (months_of y) 1 rem in (y, (mo, d + 1))

-- (year, month, day, hour, minute, second)
pub timestamp_fields : ℕ → (ℕ × (ℕ × ℕ)) × (ℕ × (ℕ × ℕ))
unfolding days_to_ymd
timestamp_fields s = (days_to_ymd (s / 86400), (s / 3600 % 24, (s / 60 % 60, s % 60)))
