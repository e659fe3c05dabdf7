-- ===== src/Text/Search.antt =====
-- What the searches of `str` find, and the bytes of a slice.
use opencaw.Prelude.{
  ℕ, zero, suc, ◌+◌, ◌-◌, ◌<◌, ◌≡◌, refl, sym, ap, ◌∙◌, some, [], ◌∷◌, arith, length, get_elem?,
  take, drop,
}
use opencaw.Core.{Text}
use opencaw.Text.{slice, find_byte, rfind_byte}

pub find_byte-get : (c : ℕ) (s : Text) (i : ℕ) → find_byte c s ≡ some i → get_elem? s i ≡ some c
unfolding find_byte
find_byte-get c [] i h = ground arith
find_byte-get c (b ∷ s) zero h = ground arith
find_byte-get c (b ∷ s) (suc i) h = ground (arith, find_byte-get c s i)

pub rfind_byte-get : (c : ℕ) (s : Text) (i : ℕ) → rfind_byte c s ≡ some i → get_elem? s i ≡ some c
unfolding rfind_byte
rfind_byte-get c [] i h = ground arith
rfind_byte-get c (b ∷ s) zero h = ground arith
rfind_byte-get c (b ∷ s) (suc i) h = ground (arith, rfind_byte-get c s i)

pub get_elem?-take :
    (n : ℕ) (s : Text) (i x : ℕ)
    → get_elem? (take n s) i ≡ some x
    → (get_elem? s i ≡ some x) × (i < n)
get_elem?-take zero s i x h = cc
get_elem?-take (suc n) [] i x h = cc
get_elem?-take (suc n) (b ∷ s) zero x h = (h, omega arith)
get_elem?-take (suc n) (b ∷ s) (suc i) x h =
    let (e, l) = get_elem?-take n s i x h in (e, omega arith)

pub get_elem?-take_lt : (n : ℕ) (s : Text) (i : ℕ) → i < n → get_elem? (take n s) i ≡ get_elem? s i
get_elem?-take_lt zero s i h = absurd (omega arith)
get_elem?-take_lt (suc n) [] i h = refl
get_elem?-take_lt (suc n) (b ∷ s) zero h = refl
get_elem?-take_lt (suc n) (b ∷ s) (suc i) h = get_elem?-take_lt n s i (omega arith)

pub get_elem?-drop : (n : ℕ) (s : Text) (i : ℕ) → get_elem? (drop n s) i ≡ get_elem? s (n + i)
get_elem?-drop zero s i = ap (get_elem? s) (omega arith)
get_elem?-drop (suc n) [] i = refl
get_elem?-drop (suc n) (b ∷ s) i =
    let e : suc n + i ≡ suc (n + i) = omega arith in rw e (get_elem?-drop n s i)

pub get_elem?-slice :
    (s : Text) (a b i x : ℕ)
    → get_elem? (slice s a b) i ≡ some x
    → (get_elem? s (a + i) ≡ some x) × (a + i < b)
get_elem?-slice s a b i x h =
    let (e, l) = get_elem?-take (b - a) (drop a s) i x h in
    (sym (get_elem?-drop a s i) ∙ e, omega arith)

pub get_elem?-slice_lt :
    (s : Text) (a b i : ℕ) → a + i < b → get_elem? (slice s a b) i ≡ get_elem? s (a + i)
get_elem?-slice_lt s a b i h =
    get_elem?-take_lt (b - a) (drop a s) i (omega arith) ∙ get_elem?-drop a s i

pub get_elem?-lt : (s : Text) (i x : ℕ) → get_elem? s i ≡ some x → i < length s
get_elem?-lt [] i x h = cc
get_elem?-lt (b ∷ s) zero x h = omega arith
get_elem?-lt (b ∷ s) (suc i) x h = omega (arith, get_elem?-lt s i x h)
