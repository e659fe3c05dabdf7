-- ===== src/Response/Blocks.antt =====
-- `strip_fake_recall_blocks` removes every block and keeps the text around them.
use opencaw.Prelude.{
  ℕ, zero, suc, ◌+◌, ◌≤◌, ◌≡◌, ◌∙◌, refl, ap, false, some, List, [], ◌∷◌, ◌++◌, arith, length,
  length-append, drop, All,
}
use opencaw.Core.{Text}
use opencaw.Text.{ascii, contains, find, starts_with}
use opencaw.Text.Find.{
  find-append, find-none, drop-append, drop-found, take-append, contains-append,
}
use opencaw.Response.{next, ends, strip_round, strip_loop, strip_fake_recall_blocks}

abbrev pub open_mark : Text
open_mark = ascii "[recalled from "

abbrev pub close_mark : Text
close_mark = ascii "[end recall]"

-- A block, and the text behind it.
pub record Block : Type 0 where
  pub body : Text
  pub after : Text

abbrev pub with_blocks : Text → List Block → Text
with_blocks front [] = front
with_blocks front (b ∷ bs) =
    front ++ (open_mark ++ (b.body ++ (close_mark ++ with_blocks b.after bs)))

abbrev pub without_blocks : Text → List Block → Text
without_blocks front [] = front
without_blocks front (b ∷ bs) = front ++ without_blocks b.after bs

-- No mark begins in the text.
abbrev pub IsPlain : Text → Type 0
IsPlain t = contains (t ++ ascii "[recalled from") open_mark ≡ false

abbrev pub IsBlock : Block → Type 0
IsBlock b = (contains (b.body ++ ascii "[end recall") close_mark ≡ false) × IsPlain b.after

strip_round-block :
    (front body rest : Text)
    → IsPlain front
    → contains (body ++ ascii "[end recall") close_mark ≡ false
    → strip_round (front ++ (open_mark ++ (body ++ (close_mark ++ rest)))) ≡ next front rest
unfolding strip_round contains starts_with
strip_round-block front body rest plain closed =
    let block = open_mark ++ (body ++ (close_mark ++ rest)) in
    let whole = front ++ block in
    let opened : find open_mark whole ≡ some (length front) =
      find-append front (ascii "[recalled from") (body ++ (close_mark ++ rest)) 32 plain in
    let from : length front ≡ length front + 0 = omega arith in
    let tail : drop (length front) whole ≡ block =
      ap (λ n. drop n whole) from ∙ drop-append front block 0 in
    let ended : find close_mark (drop (length front) whole) ≡ some (length (open_mark ++ body)) =
      ap (find close_mark) tail
      ∙ find-append (open_mark ++ body) (ascii "[end recall") rest 93 closed in
    let together : length front + length (open_mark ++ body) + length close_mark
        ≡ length front + (length (open_mark ++ body) + length close_mark) =
      omega arith in
    let behind : drop (length front + length (open_mark ++ body) + length close_mark) whole ≡ rest =
      ap (λ n. drop n whole) together
      ∙ drop-append front block (length (open_mark ++ body) + length close_mark)
      ∙ drop-found (open_mark ++ body) (ascii "[end recall") rest 93 in
    rw (strip_round, opened, ended, take-append front block, behind) refl

strip_round-plain : (t : Text) → IsPlain t → strip_round t ≡ ends t
unfolding strip_round
strip_round-plain t plain =
    rw
      (
        strip_round,
        find-none t open_mark (contains-append t (ascii "[recalled from") open_mark plain),
      )
      refl

strip_loop-with_blocks :
    (fuel : ℕ) (front : Text) (bs : List Block)
    → length bs ≤ fuel
    → IsPlain front
    → All IsBlock bs
    → strip_loop fuel (with_blocks front bs) ≡ without_blocks front bs
unfolding strip_loop
strip_loop-with_blocks zero front [] enough plain blocks = refl
strip_loop-with_blocks (suc fuel) front [] enough plain blocks =
    rw (strip_loop, strip_round-plain front plain) refl
strip_loop-with_blocks zero front (b ∷ bs) enough plain blocks = absurd (omega arith)
strip_loop-with_blocks (suc fuel) front (b ∷ bs) enough plain ((closed, after), blocks) =
    rw (strip_loop, strip_round-block front b.body (with_blocks b.after bs) plain closed)
      (ap (λ t. front ++ t) (strip_loop-with_blocks fuel b.after bs (omega arith) after blocks))

length-with_blocks : (front : Text) (bs : List Block) → length bs ≤ length (with_blocks front bs)
length-with_blocks front [] = omega arith
length-with_blocks front (b ∷ bs) = omega (
  arith,
  length-append front (open_mark ++ (b.body ++ (close_mark ++ with_blocks b.after bs))),
  length-append b.body (close_mark ++ with_blocks b.after bs),
  length-with_blocks b.after bs,
)

-- `strip_fake_recall_blocks` removes every closed block and keeps the text before, between and behind
-- them, if no mark of a block begins in these texts and no block holds its closing mark inside.
pub strip_fake_recall_blocks-with_blocks :
    (front : Text) (bs : List Block)
    → IsPlain front
    → All IsBlock bs
    → strip_fake_recall_blocks (with_blocks front bs) ≡ without_blocks front bs
unfolding strip_fake_recall_blocks
strip_fake_recall_blocks-with_blocks front bs =
    strip_loop-with_blocks (length (with_blocks front bs)) front bs (length-with_blocks front bs)
