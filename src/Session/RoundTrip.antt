-- ===== src/Session/RoundTrip.antt =====
-- What `parse_session_turns` reads of a session file.
use mathlib.Core.List.{append_assoc, append-nil}
use opencaw.Prelude.{
  ℕ, zero, suc, ◌≤◌, ◌≡◌, ◌∙◌, refl, sym, ap, inl, inr, false, none, some, List, [], ◌∷◌, ◌++◌, map,
  arith, length, length-append, if◌then◌else◌, All, Bool-cases,
}
use opencaw.Core.{Text}
use opencaw.Text.{ascii, contains, starts_with, split, split_from, newline}
use opencaw.Text.Format.{decimal}
use opencaw.Text.Find.{contains-append, split_from-append, split_from-whole}
use opencaw.Session.{
  write_turn, write_degenerate_turn, assistant_of, parse_sections, parse_session_turns,
}
use opencaw.Session.Turns.{
  Turn, written, read_turn, session_text, raw_answer, answer_part, section_of, IsWritten,
  section_of-user, section_of-answer, decimal_loop-starts_with_digit,
}

assistant_of-raw_answer :
    (t : Turn)
    → IsWritten t
    → assistant_of (raw_answer t) ≡ (if t.degenerate then none else some t.answer)
unfolding assistant_of starts_with
assistant_of-raw_answer t w = elim (Bool-cases t.degenerate) [
  | inl e ↦ rw e refl
  | inr e ↦ let (sound, filled) = w.answered e in rw (assistant_of, e, sound, filled) refl
]

parse_sections-section_of :
    (t : Turn) (end : Text) (sections : List Text)
    → IsWritten t
    → parse_sections (section_of t end ∷ sections) ≡ read_turn t ∷ parse_sections sections
unfolding parse_sections
parse_sections-section_of t end sections w =
    rw
      (
        parse_sections,
        section_of-user t end w,
        section_of-answer t end w,
        decimal_loop-starts_with_digit t.number t.number
            (ascii "\n\n[User]: " ++ (t.user ++ (ascii "\n\n[Assistant]: " ++ answer_part t end))),
        w.asked,
        assistant_of-raw_answer t w,
      )
      refl

written-shape : (t : Turn) → written t ≡ ascii "## Turn " ++ section_of t (newline ∷ [])
unfolding write_turn write_degenerate_turn
written-shape t = elim (Bool-cases t.degenerate) [ inl e ↦ rw e refl | inr e ↦ rw e refl ]

section_of-append : (t : Turn) (end s : Text) → section_of t end ++ s ≡ section_of t (end ++ s)
section_of-append t end s =
    append_assoc (decimal t.number) _ s
    ∙ ap (λ x. decimal t.number ++ (ascii "\n\n[User]: " ++ x))
        (append_assoc t.user _ s
          ∙ ap (λ x. t.user ++ (ascii "\n\n[Assistant]: " ++ x)) (append_assoc (raw_answer t) _ s))

abbrev heading : Text
heading = ascii "\n## Turn "

abbrev almost_heading : Text
almost_heading = ascii "\n## Turn"

-- The text before a section does not hide a heading.
abbrev IsApart : Text → Turn → Type 0
IsApart pre t = contains ((pre ++ section_of t []) ++ almost_heading) heading ≡ false

split_step :
    (fuel : ℕ) (pre : Text) (t u : Turn) (us : List Turn)
    → IsApart pre t
    → split_from (suc fuel) heading (pre ++ (section_of t (newline ∷ []) ++ session_text (u ∷ us)))
      ≡ (pre ++ section_of t [])
        ∷ split_from fuel heading (section_of u (newline ∷ []) ++ session_text us)
split_step fuel pre t u us out =
    let more = section_of u (newline ∷ []) ++ session_text us in
    let joined : section_of t (newline ∷ []) ++ (written u ++ session_text us)
        ≡ section_of t [] ++ (heading ++ more) =
      ap (λ s. section_of t (newline ∷ []) ++ (s ++ session_text us)) (written-shape u)
      ∙ section_of-append t (newline ∷ []) (ascii "## Turn " ++ more)
      ∙ sym (section_of-append t [] (heading ++ more)) in
    ap (split_from (suc fuel) heading)
      (ap (λ s. pre ++ s) joined ∙ sym (append_assoc pre (section_of t []) (heading ++ more)))
    ∙ split_from-append fuel (pre ++ section_of t []) almost_heading more 32 out

split_last :
    (fuel : ℕ) (pre : Text) (t : Turn)
    → IsApart pre t
    → split_from fuel heading (pre ++ (section_of t (newline ∷ []) ++ []))
      ≡ (pre ++ section_of t (newline ∷ [])) ∷ []
split_last fuel pre t out =
    let s = pre ++ section_of t [] in
    let end : s ++ (newline ∷ []) ≡ pre ++ section_of t (newline ∷ []) =
      append_assoc pre (section_of t []) (newline ∷ [])
      ∙ ap (λ x. pre ++ x) (section_of-append t [] (newline ∷ [])) in
    let without : contains (pre ++ section_of t (newline ∷ [])) heading ≡ false =
      ap (λ x. contains x heading) (sym end)
      ∙ contains-append (s ++ (newline ∷ [])) (ascii "## Turn") heading
          (ap (λ x. contains x heading) (append_assoc s (newline ∷ []) (ascii "## Turn")) ∙ out) in
    ap (λ x. split_from fuel heading (pre ++ x)) (append-nil (section_of t (newline ∷ [])))
    ∙ split_from-whole fuel (pre ++ section_of t (newline ∷ [])) heading without

parse_sections-nil : parse_sections [] ≡ []
unfolding parse_sections
parse_sections-nil = refl

parse_rest :
    (fuel : ℕ) (t : Turn) (us : List Turn)
    → length us ≤ fuel
    → IsWritten t
    → All IsWritten us
    → parse_sections (split_from fuel heading (section_of t (newline ∷ []) ++ session_text us))
      ≡ map read_turn (t ∷ us)
parse_rest fuel t [] enough w ws =
    ap parse_sections (split_last fuel [] t w.no_heading)
    ∙ parse_sections-section_of t (newline ∷ []) [] w
    ∙ ap (λ turns. read_turn t ∷ turns) parse_sections-nil
parse_rest zero t (u ∷ us) enough w ws = absurd (omega arith)
parse_rest (suc fuel) t (u ∷ us) enough w (w', ws) =
    ap parse_sections (split_step fuel [] t u us w.no_heading)
    ∙ parse_sections-section_of t [] _ w
    ∙ ap (λ turns. read_turn t ∷ turns) (parse_rest fuel u us (omega arith) w' ws)

length-session_text : (us : List Turn) → length us ≤ length (session_text us)
length-session_text [] = omega arith
length-session_text (u ∷ us) = omega (
  arith,
  length-append (written u) (session_text us),
  ap (λ s. length s) (written-shape u),
  length-session_text us,
)

-- A section that begins with the heading's own bytes is no turn.
parse_sections-heading :
    (s : Text) (sections : List Text)
    → parse_sections ((ascii "## Turn " ++ s) ∷ sections) ≡ parse_sections sections
unfolding parse_sections
parse_sections-heading s sections = refl

first-IsApart : (t : Turn) → IsWritten t → IsApart (ascii "## Turn ") t
unfolding contains starts_with
first-IsApart t w = w.no_heading

parse_first :
    (fuel : ℕ) (t : Turn) (us : List Turn)
    → length us ≤ fuel
    → IsWritten t
    → All IsWritten us
    → parse_sections (
        split_from fuel heading
          (ascii "## Turn " ++ (section_of t (newline ∷ []) ++ session_text us)))
      ≡ map read_turn us
parse_first fuel t [] enough w ws =
    ap parse_sections (split_last fuel (ascii "## Turn ") t (first-IsApart t w))
    ∙ parse_sections-heading (section_of t (newline ∷ [])) []
    ∙ parse_sections-nil
parse_first zero t (u ∷ us) enough w ws = absurd (omega arith)
parse_first (suc fuel) t (u ∷ us) enough w (w', ws) =
    ap parse_sections (split_step fuel (ascii "## Turn ") t u us (first-IsApart t w))
    ∙ parse_sections-heading (section_of t []) _
    ∙ parse_rest fuel u us (omega arith) w' ws

-- `parse_session_turns` reads back every turn of a session file but the first: with its user's text
-- and its answer, or without an answer if it was written as degenerate. This holds if no part of a
-- turn looks like the marks around it, and the texts are trimmed.
pub parse_session_turns-session_text :
    (t : Turn) (us : List Turn)
    → IsWritten t
    → All IsWritten us
    → parse_session_turns (session_text (t ∷ us)) ≡ map read_turn us
unfolding parse_session_turns split
parse_session_turns-session_text t us w ws =
    let shape : session_text (t ∷ us)
        ≡ ascii "## Turn " ++ (section_of t (newline ∷ []) ++ session_text us) =
      ap (λ s. s ++ session_text us) (written-shape t) in
    ap (λ s. parse_sections (split_from (length (session_text (t ∷ us))) heading s)) shape
    ∙ parse_first (length (session_text (t ∷ us))) t us
        (omega (arith, length-session_text us, length-append (written t) (session_text us))) w ws
