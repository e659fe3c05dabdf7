-- ===== src/Response/Thinking.antt =====
-- `split_thinking` takes a response apart at its block of thinking.
use opencaw.Prelude.{
  ◌+◌, ◌-◌, ◌≡◌, ◌∙◌, refl, ap, Bool, true, false, Option, none, some, ◌++◌, arith, ltb, length,
  take, drop, if◌then◌else◌,
}
use opencaw.Core.{Text}
use opencaw.Text.{ascii, contains, find, starts_with, slice}
use opencaw.Text.Format.{trim}
use opencaw.Text.Find.{find-append, find-here, drop-found, take-append}
use opencaw.Response.{is_empty, split_thinking}

ite_pair :
    (b : Bool) (t u : Text)
    → ◌≡◌ {A = Option Text × Text}
        (if b then (none, u) else (some t, u))
        ((if b then none else some t), u)
ite_pair true t u = refl
ite_pair false t u = refl

-- The response is split into its thinking and its answer, each trimmed: a block without thinking is
-- left out, and nothing in the thinking ends the block before its end.
pub split_thinking-block :
    (thinking answer : Text)
    → contains (thinking ++ ascii "</think") (ascii "</think>") ≡ false
    → split_thinking (ascii "<think>" ++ (thinking ++ (ascii "</think>" ++ answer)))
      ≡ ((if is_empty (trim thinking) then none else some (trim thinking)), trim answer)
unfolding split_thinking contains starts_with
split_thinking-block thinking answer out =
    let start = ascii "<think>" in
    let raw = start ++ (thinking ++ (ascii "</think>" ++ answer)) in
    let opened : find start raw ≡ some 0 =
      find-here start (thinking ++ (ascii "</think>" ++ answer)) in
    let c = length (start ++ thinking) in
    let closed : find (ascii "</think>") raw ≡ some c =
      find-append (start ++ thinking) (ascii "</think") answer 62 out in
    let later : ltb 0 c ≡ true = ground arith in
    let size : c - 7 ≡ length thinking = omega arith in
    let inner : slice raw 7 c ≡ thinking =
      ap (λ n. take n (thinking ++ (ascii "</think>" ++ answer))) size
      ∙ take-append thinking (ascii "</think>" ++ answer) in
    let behind : drop (c + 8) raw ≡ answer =
      drop-found (start ++ thinking) (ascii "</think") answer 62 in
    rw (split_thinking, opened, closed, later, inner, behind)
      (ite_pair (is_empty (trim thinking)) (trim thinking) (trim answer))
