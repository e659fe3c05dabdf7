-- ===== src/Session/Tests.antt =====
-- A session of two turns and a degenerate one, and dates.
use opencaw.Prelude.{
  ℕ, zero, suc, ◌≤◌, ◌≡◌, ◌||◌, leb, length, refl, true, false, Option, none, some, [], ◌∷◌, ◌++◌,
  map,
}
use opencaw.Core.{Text}
use opencaw.Text.{ascii, contains, starts_with, rfind, split, is_char_boundary}
use opencaw.Text.Format.{decimal_loop, trim}
use opencaw.Session.{
  write_turn, write_degenerate_turn, parse_session_turns, compress_assistant, days_to_ymd,
}
use opencaw.Session.Turns.{Turn, read_turn, session_text, IsWritten}
use opencaw.Session.RoundTrip.{parse_session_turns-session_text}
use opencaw.Session.Compress.{is_some, length_or_zero, compress_assistant_total}
use opencaw.Session.Dates.{IsDateOf, days_to_ymd-IsDateOf}

abbrev first : Turn
first = record { number = 1; user = ascii "hi"; answer = ascii "yes"; degenerate = false }

abbrev second : Turn
second = record {
  number = 12;
  user = ascii "why?\nreally?";
  answer = ascii "because\n\nso";
  degenerate = false;
}

abbrev third : Turn
third = record { number = 13; user = ascii "how?"; answer = ascii "we we we"; degenerate = true }

first-IsWritten : IsWritten first
unfolding contains trim starts_with decimal_loop
first-IsWritten = record {
  asked = refl;
  user_field = record { no_rule = refl; no_role = refl; trimmed = refl };
  answer_field = record { no_rule = refl; no_role = refl; trimmed = refl };
  no_assistant = refl;
  no_heading = refl;
  answered = λ e. (refl, refl);
}

second-IsWritten : IsWritten second
unfolding contains trim starts_with decimal_loop
second-IsWritten = record {
  asked = refl;
  user_field = record { no_rule = refl; no_role = refl; trimmed = refl };
  answer_field = record { no_rule = refl; no_role = refl; trimmed = refl };
  no_assistant = refl;
  no_heading = refl;
  answered = λ e. (refl, refl);
}

third-IsWritten : IsWritten third
unfolding contains trim starts_with decimal_loop
third-IsWritten = record {
  asked = refl;
  user_field = record { no_rule = refl; no_role = refl; trimmed = refl };
  answer_field = record { no_rule = refl; no_role = refl; trimmed = refl };
  no_assistant = refl;
  no_heading = refl;
  answered = λ e. (refl, refl);
}

session_read :
    parse_session_turns (session_text (first ∷ second ∷ third ∷ []))
    ≡ (ascii "why?\nreally?", some (ascii "because\n\nso")) ∷ (ascii "how?", none) ∷ []
unfolding parse_session_turns split write_turn write_degenerate_turn decimal_loop trim
session_read = refl

parse_session_turns-session_text_example :
    parse_session_turns (session_text (first ∷ second ∷ third ∷ []))
    ≡ map {B = Text × Option Text} read_turn (second ∷ third ∷ [])
parse_session_turns-session_text_example =
    parse_session_turns-session_text first (second ∷ third ∷ []) first-IsWritten
      (second-IsWritten, (third-IsWritten, tt))

leap_day : days_to_ymd 19782 ≡ (2024, (2, 29))
unfolding days_to_ymd
leap_day = refl

days_to_ymd-IsDateOf_example : IsDateOf 19782 2024 2 29
unfolding days_to_ymd
days_to_ymd-IsDateOf_example = days_to_ymd-IsDateOf 19782

abbrev repeat : ℕ → ℕ → Text
repeat zero b = []
repeat (suc n) b = b ∷ repeat n b

-- 298 letters and an e with an acute accent twice.
abbrev accented : Text
accented = repeat 298 97 ++ (195 ∷ 169 ∷ 195 ∷ 169 ∷ [])

accented_panics : compress_assistant accented ≡ none
unfolding compress_assistant is_char_boundary rfind
accented_panics = refl

compress_assistant_total_example :
    (is_some (compress_assistant accented)
      ≡ (leb (length accented) 300 || is_char_boundary accented 299))
    × (length_or_zero (compress_assistant accented) ≤ 302)
compress_assistant_total_example = compress_assistant_total accented
