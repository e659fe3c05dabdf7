-- ===== src/Text/Format/Trim.antt =====
-- A text of visible ASCII characters is trimmed.
use mathlib.Core.List.{append-nil}
use opencaw.Prelude.{ℕ, ◌≤◌, ◌≡◌, ◌∙◌, refl, ap, [], ◌∷◌, ◌++◌, arith, All}
use opencaw.Core.{Text}
use opencaw.Text.Format.{
  trim_loop, reverse_onto, trim_end, trim_start_from, trim_start, trim, space_length,
}

abbrev pub IsVisible : ℕ → Type 0
IsVisible b = (33 ≤ b) × (b ≤ 127)

reverse_onto-reverse_onto :
    (s r t : Text) → reverse_onto (reverse_onto s r) t ≡ reverse_onto r (s ++ t)
unfolding reverse_onto
reverse_onto-reverse_onto [] r t = refl
reverse_onto-reverse_onto (b ∷ s) r t = reverse_onto-reverse_onto s (b ∷ r) t

All-reverse_onto :
    (s r : Text) → All IsVisible s → All IsVisible r → All IsVisible (reverse_onto s r)
unfolding reverse_onto
All-reverse_onto [] r hs k = k
All-reverse_onto (b ∷ s) r (h, hs) k = All-reverse_onto s (b ∷ r) hs (h, k)

trim_loop-visible : (s : Text) → All IsVisible s → trim_loop s ≡ s
unfolding trim_loop
trim_loop-visible [] h = refl
trim_loop-visible (a ∷ []) h = ground arith
trim_loop-visible (b ∷ a ∷ []) h = ground arith
trim_loop-visible (c ∷ b ∷ a ∷ s) h = ground arith

reverse_onto-nil : (s : Text) → reverse_onto (reverse_onto s []) [] ≡ s
unfolding reverse_onto
reverse_onto-nil s = reverse_onto-reverse_onto s [] [] ∙ append-nil s

pub trim_end-visible : (s : Text) → All IsVisible s → trim_end s ≡ s
unfolding trim_end
trim_end-visible s h =
    ap (λ t. reverse_onto t []) (trim_loop-visible (reverse_onto s []) (All-reverse_onto s [] h tt))
    ∙ reverse_onto-nil s

space_length-visible : (a : ℕ) (s : Text) → IsVisible a → space_length (a ∷ s) ≡ 0
unfolding space_length
space_length-visible a [] h = ground arith
space_length-visible a (b ∷ []) h = ground arith
space_length-visible a (b ∷ c ∷ s) h = ground arith

pub trim_start-visible : (s : Text) → All IsVisible s → trim_start s ≡ s
unfolding trim_start trim_start_from
trim_start-visible [] h = refl
trim_start-visible (a ∷ s) (h, hs) = rw (trim_start_from, space_length-visible a s h) refl

pub trim-visible : (s : Text) → All IsVisible s → trim s ≡ s
unfolding trim
trim-visible s h = ap trim_end (trim_start-visible s h) ∙ trim_end-visible s h
