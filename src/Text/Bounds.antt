-- ===== src/Text/Bounds.antt =====
-- Where the searches of `str` find what they look for, and how long slices are.
use opencaw.Prelude.{
  ℕ, zero, suc, ◌+◌, ◌-◌, ◌≤◌, ◌<◌, ◌≡◌, refl, sym, ap, ◌∙◌, some, [], ◌∷◌, ◌++◌, arith, length,
  take, drop, length-take, length-drop,
}
use opencaw.Core.{Text}
use opencaw.Text.{slice, find_byte, rfind_byte}

pub find_byte-lt : (c : ℕ) (s : Text) (i : ℕ) → find_byte c s ≡ some i → i < length s
unfolding find_byte
find_byte-lt c [] i h = ground arith
find_byte-lt c (b ∷ s) zero h = omega arith
find_byte-lt c (b ∷ s) (suc i) h = ground (arith, find_byte-lt c s i)

pub rfind_byte-lt : (c : ℕ) (s : Text) (i : ℕ) → rfind_byte c s ≡ some i → i < length s
unfolding rfind_byte
rfind_byte-lt c [] i h = ground arith
rfind_byte-lt c (b ∷ s) zero h = omega arith
rfind_byte-lt c (b ∷ s) (suc i) h = ground (arith, rfind_byte-lt c s i)

pub length-slice : (s : Text) (a b : ℕ) → b ≤ length s → length (slice s a b) ≡ b - a
length-slice s a b h = omega (arith, length-take (b - a) (drop a s), length-drop a s)

take-nil : (n : ℕ) → take {A = ℕ} n [] ≡ []
take-nil zero = refl
take-nil (suc n) = refl

take_all : (s : Text) → take (length s) s ≡ s
take_all [] = refl
take_all (b ∷ s) = ap (◌∷◌ b) (take_all s)

drop-nil : (n : ℕ) → drop {A = ℕ} n [] ≡ []
drop-nil zero = refl
drop-nil (suc n) = refl

drop-drop : (a b : ℕ) (s : Text) → drop b (drop a s) ≡ drop (a + b) s
drop-drop zero b s = ap (λ n. drop n s) (omega arith)
drop-drop (suc a) b [] = drop-nil b ∙ sym (drop-nil (suc a + b))
drop-drop (suc a) b (c ∷ s) =
    let e : suc a + b ≡ suc (a + b) = omega arith in rw e (drop-drop a b s)

take-append-take : (m n : ℕ) (s : Text) → take m s ++ take n (drop m s) ≡ take (m + n) s
take-append-take zero n s = ap (λ k. take k s) (omega arith)
take-append-take (suc m) n [] = let e : suc m + n ≡ suc (m + n) = omega arith in rw e (take-nil n)
take-append-take (suc m) n (c ∷ s) =
    let e : suc m + n ≡ suc (m + n) = omega arith in rw e (ap (◌∷◌ c) (take-append-take m n s))

-- Adjacent slices join.
pub slice-append-slice :
    (s : Text) (a b c : ℕ) → a ≤ b → b ≤ c → slice s a b ++ slice s b c ≡ slice s a c
slice-append-slice s a b c h k =
    let whole : c - a ≡ (b - a) + (c - b) = omega arith in
    let middle : b ≡ a + (b - a) = omega arith in
    rw whole (
      ap (λ t. take (b - a) (drop a s) ++ take (c - b) t)
        (ap (λ n. drop n s) middle ∙ sym (drop-drop a (b - a) s))
      ∙ take-append-take (b - a) (c - b) (drop a s))

drop-take : (c n : ℕ) (s : Text) → drop c (take n s) ≡ take (n - c) (drop c s)
drop-take zero n s = ap (λ k. take k s) (omega arith)
drop-take (suc c) zero s = let e : 0 - suc c ≡ 0 = omega arith in rw e refl
drop-take (suc c) (suc n) [] = sym (take-nil (suc n - suc c))
drop-take (suc c) (suc n) (b ∷ s) =
    let e : suc n - suc c ≡ n - c = omega arith in rw e (drop-take c n s)

take-take : (m n : ℕ) (s : Text) → m ≤ n → take m (take n s) ≡ take m s
take-take zero n s h = refl
take-take (suc m) zero s h = absurd (omega arith)
take-take (suc m) (suc n) [] h = refl
take-take (suc m) (suc n) (b ∷ s) h = ap (◌∷◌ b) (take-take m n s (omega arith))

-- A slice of a slice.
pub slice-slice :
    (s : Text) (a b c d : ℕ) → c ≤ d → a + d ≤ b → slice (slice s a b) c d ≡ slice s (a + c) (a + d)
slice-slice s a b c d h k =
    let width : a + d - (a + c) ≡ d - c = omega arith in
    rw width (
      ap (take (d - c)) (drop-take c (b - a) (drop a s) ∙ ap (take (b - a - c)) (drop-drop a c s))
      ∙ take-take (d - c) (b - a - c) (drop (a + c) s) (omega arith))

pub slice_all : (s : Text) → slice s 0 (length s) ≡ s
slice_all s = ap (λ n. take n s) (omega arith) ∙ take_all s
