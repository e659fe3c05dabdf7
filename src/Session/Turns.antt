-- ===== src/Session/Turns.antt =====
-- What is read of one turn in a session file.
use mathlib.Core.List.{append_assoc}
use opencaw.Prelude.{
  ℕ, zero, suc, ◌+◌, ◌/◌, ◌%◌, ◌≤◌, ◌≡◌, ◌∙◌, refl, sym, ap, inl, inr, ◌⊎◌, Bool, true, false,
  Option, none, some, List, [], ◌∷◌, ◌++◌, map, arith, ltb, length, if◌then◌else◌, All, All-append,
  Bool-cases,
}
use opencaw.Core.{Text}
use opencaw.Text.{ascii, concat_text, contains, starts_with, find, newline}
use opencaw.Text.Format.{decimal, decimal_loop, trim}
use opencaw.Text.Find.{shift_by, find-skip, find-append, find-here, drop-found, take-append}
use opencaw.Session.{
  write_turn, write_degenerate_turn, min_end, field_of, extract_field, starts_with_digit, is_empty,
}

-- A turn that is written: an answer, or the sample of a degenerate one.
pub record Turn : Type 0 where
  pub number : ℕ
  pub user : Text
  pub answer : Text
  pub degenerate : Bool

abbrev pub written : Turn → Text
written t =
    if t.degenerate
    then write_degenerate_turn t.number t.user t.answer
    else write_turn t.number t.user t.answer

-- What the turn comes to when it is read.
abbrev pub read_turn : Turn → Text × Option Text
read_turn t = (t.user, if t.degenerate then none else some t.answer)

abbrev pub session_text : List Turn → Text
session_text ts = concat_text (map written ts)

-- The text that stands as the answer.
abbrev pub raw_answer : Turn → Text
raw_answer t = if t.degenerate then ascii "[DEGENERATE] " ++ t.answer else t.answer

abbrev pub rule : Text
rule = ascii "\n\n---"

abbrev pub role : Text
role = ascii "\n\n["

-- A field that ends where it should: at the blank line behind it, before the bytes x and y.
pub record IsField (x y : ℕ) (body : Text) : Type 0 where
  pub no_rule : contains (body ++ (newline ∷ newline ∷ x ∷ y ∷ [])) rule ≡ false
  pub no_role : contains (body ++ (newline ∷ newline ∷ [])) role ≡ false
  pub trimmed : trim body ≡ body

-- The section of the turn: its text without the heading's first bytes and the last line feed.
abbrev pub section_of : Turn → Text → Text
section_of t end =
    decimal t.number
    ++ (ascii "\n\n[User]: "
        ++ (t.user ++ (ascii "\n\n[Assistant]: " ++ (raw_answer t ++ (ascii "\n\n---\n" ++ end)))))

-- No part of the turn looks like the marks around it.
pub record IsWritten (t : Turn) : Type 0 where
  pub asked : is_empty t.user ≡ false
  pub user_field : IsField 91 65 t.user
  pub answer_field : IsField 45 45 (raw_answer t)
  pub no_assistant : contains (t.user ++ ascii "\n\n[Assistant]:") (ascii "[Assistant]: ") ≡ false
  pub no_heading : contains (section_of t [] ++ ascii "\n## Turn") (ascii "\n## Turn ") ≡ false
  pub answered :
      t.degenerate ≡ false
      → (starts_with t.answer (ascii "[DEGENERATE] ") ≡ false) × (is_empty t.answer ≡ false)

abbrev IsDigit : ℕ → Type 0
IsDigit c = (48 ≤ c) × (c ≤ 57)

decimal_loop-IsDigit : (fuel n : ℕ) → All IsDigit (decimal_loop fuel n)
unfolding decimal_loop
decimal_loop-IsDigit zero n = ((omega arith, omega arith), tt)
decimal_loop-IsDigit (suc fuel) n = elim (Bool-cases (ltb n 10)) [
  | inl e ↦ rw (decimal_loop, e) (ground arith, tt)
  | inr e ↦
      rw (decimal_loop, e)
        (All-append IsDigit (decimal_loop fuel (n / 10)) ((n % 10 + 48) ∷ [])
          (decimal_loop-IsDigit fuel (n / 10)) ((omega arith, omega arith), tt))
]

pub decimal_loop-starts_with_digit :
    (fuel n : ℕ) (s : Text) → starts_with_digit (decimal_loop fuel n ++ s) ≡ true
unfolding decimal_loop
decimal_loop-starts_with_digit zero n s = ground arith
decimal_loop-starts_with_digit (suc fuel) n s = elim (Bool-cases (ltb n 10)) [
  | inl e ↦ rw (decimal_loop, e) (ground arith)
  | inr e ↦
      rw (decimal_loop, e)
        (ap starts_with_digit (append_assoc (decimal_loop fuel (n / 10)) ((n % 10 + 48) ∷ []) s)
          ∙ decimal_loop-starts_with_digit fuel (n / 10) ((n % 10 + 48) ∷ s))
]

-- Digits do not begin a mark.
contains-digits :
    (d s p : Text) (c : ℕ) → All IsDigit d → 58 ≤ c → contains (d ++ s) (c ∷ p) ≡ contains s (c ∷ p)
unfolding contains starts_with
contains-digits [] s p c h k = refl
contains-digits (b ∷ d) s p c (h, hs) k = ground (arith, contains-digits d s p c hs k)

min_end-role :
    (s rest : Text) (o : Option ℕ)
    → min_end rest (shift_by (length s) o) (some (length s + 0)) ≡ length s
min_end-role s rest none = omega arith
min_end-role s rest (some i) = omega arith

min_end-rule :
    (s rest : Text) (o : Option ℕ)
    → min_end rest (some (length s + 0)) (shift_by (length s) o) ≡ length s
min_end-rule s rest none = omega arith
min_end-rule s rest (some i) = omega arith

field_of-IsField :
    (x y : ℕ) (body r : Text)
    → IsField x y body
    → let next = newline ∷ newline ∷ x ∷ y ∷ r in
      (find rule next ≡ some 0) ⊎ (find role next ≡ some 0) → field_of (body ++ next) ≡ body
field_of-IsField x y body r f ends =
    let next = newline ∷ newline ∷ x ∷ y ∷ r in
    let a = find-skip body (newline ∷ newline ∷ x ∷ y ∷ []) r rule (omega arith) f.no_rule in
    let b = find-skip body (newline ∷ newline ∷ []) (x ∷ y ∷ r) role (omega arith) f.no_role in
    let cut : min_end (body ++ next) (find rule (body ++ next)) (find role (body ++ next))
        ≡ length body =
      elim ends [
        | inl e ↦ rw (a, b, e) (min_end-rule body (body ++ next) (find role next))
        | inr e ↦ rw (a, b, e) (min_end-role body (body ++ next) (find rule next))
      ] in
    rw cut (ap trim (take-append body next) ∙ f.trimmed)

extract_field-append :
    (pre q body : Text) (last : ℕ)
    → contains (pre ++ q) (q ++ (last ∷ [])) ≡ false
    → extract_field (pre ++ (q ++ (last ∷ body))) (q ++ (last ∷ [])) ≡ field_of body
unfolding extract_field
extract_field-append pre q body last out =
    rw (extract_field, find-append pre q body last out) (ap field_of (drop-found pre q body last))

abbrev blank : Text
blank = newline ∷ newline ∷ []

-- The text behind the user's field.
abbrev pub answer_part : Turn → Text → Text
answer_part t end = raw_answer t ++ (ascii "\n\n---\n" ++ end)

pub section_of-user :
    (t : Turn) (end : Text)
    → IsWritten t
    → extract_field (section_of t end) (ascii "[User]: ") ≡ t.user
unfolding contains starts_with
section_of-user t end w =
    let d = decimal t.number in
    let rest = t.user ++ (ascii "\n\n[Assistant]: " ++ answer_part t end) in
    let out : contains ((d ++ blank) ++ ascii "[User]:") (ascii "[User]: ") ≡ false =
      ap (λ s. contains s (ascii "[User]: ")) (append_assoc d blank (ascii "[User]:"))
      ∙ contains-digits d (blank ++ ascii "[User]:") (ascii "User]: ") 91
          (decimal_loop-IsDigit t.number t.number) (omega arith) in
    ap (λ s. extract_field s (ascii "[User]: "))
      (sym (append_assoc d blank (ascii "[User]: " ++ rest)))
    ∙ extract_field-append (d ++ blank) (ascii "[User]:") rest 32 out
    ∙ field_of-IsField 91 65 t.user (ascii "ssistant]: " ++ answer_part t end) w.user_field
        (inr (find-here role (ascii "Assistant]: " ++ answer_part t end)))

pub section_of-answer :
    (t : Turn) (end : Text)
    → IsWritten t
    → extract_field (section_of t end) (ascii "[Assistant]: ") ≡ raw_answer t
unfolding contains starts_with
section_of-answer t end w =
    let d = decimal t.number in
    let mark = ascii "[Assistant]:" in
    let middle = ascii "\n\n[User]: " ++ (t.user ++ blank) in
    let out : contains ((d ++ middle) ++ mark) (ascii "[Assistant]: ") ≡ false =
      ap (λ s. contains s (ascii "[Assistant]: ")) (append_assoc d middle mark)
      ∙ contains-digits d (middle ++ mark) (ascii "Assistant]: ") 91
          (decimal_loop-IsDigit t.number t.number) (omega arith)
      ∙ ap (λ s. contains s (ascii "[Assistant]: ")) (append_assoc t.user blank mark)
      ∙ w.no_assistant in
    let shape : (d ++ middle) ++ (ascii "[Assistant]: " ++ answer_part t end) ≡ section_of t end =
      append_assoc d middle (ascii "[Assistant]: " ++ answer_part t end)
      ∙ ap (λ s. d ++ (ascii "\n\n[User]: " ++ s))
          (append_assoc t.user blank (ascii "[Assistant]: " ++ answer_part t end)) in
    ap (λ s. extract_field s (ascii "[Assistant]: ")) (sym shape)
    ∙ extract_field-append (d ++ middle) mark (answer_part t end) 32 out
    ∙ field_of-IsField 45 45 (raw_answer t) (45 ∷ newline ∷ end) w.answer_field
        (inl (find-here rule (newline ∷ end)))
