-- ===== src/Session/Compress.antt =====
-- When `compress_assistant` panics, and how long its result is.
use opencaw.Prelude.{
  ℕ, zero, suc, ◌+◌, ◌≤◌, ◌<◌, ◌≡◌, refl, inl, inr, Bool, true, false, ◌||◌, Option, none, some, [],
  ◌∷◌, ◌++◌, arith, min, leb, length, length-append, length-take, take, get_elem?, Bool-cases,
  Option-cases,
}
use opencaw.Core.{Text}
use opencaw.Text.{ascii, starts_with, rfind, is_char_boundary}
use opencaw.Text.Format.{trim_end, trim_end-length_le}
use opencaw.Text.Search.{get_elem?-take}
use opencaw.Session.{cut_point, compress_assistant}

rfind-get : (s : Text) (i : ℕ) → rfind (ascii ". ") s ≡ some i → get_elem? s (suc i) ≡ some 32
unfolding rfind starts_with
rfind-get [] i h = cc
rfind-get (b ∷ []) i h = ground arith
rfind-get (b ∷ c ∷ s) zero h = ground arith
rfind-get (b ∷ c ∷ s) (suc i) h = ground (arith, rfind-get (c ∷ s) i)

-- Behind a full stop and before a space there is a boundary.
stop_boundary :
    (text : Text) (cut i : ℕ)
    → rfind (ascii ". ") (take cut text) ≡ some i
    → (is_char_boundary text (i + 1) ≡ true) × (i + 1 < cut)
unfolding is_char_boundary
stop_boundary text cut i h =
    let (space, inside) = get_elem?-take cut text (suc i) 32 (rfind-get (take cut text) i h) in
    let next : i + 1 ≡ suc i = omega arith in rw next (ground arith, inside)

cut_point-boundary :
    (text : Text) (cut : ℕ)
    → is_char_boundary text cut ≡ true
    → is_char_boundary text (cut_point cut (rfind (ascii ". ") (take cut text))) ≡ true
cut_point-boundary text cut h = elim (Option-cases (rfind (ascii ". ") (take cut text))) [
  | inl e ↦ rw e h
  | inr (i, e) ↦ rw e (stop_boundary text cut i e).0
]

cut_point-le : (text : Text) (cut : ℕ) → cut_point cut (rfind (ascii ". ") (take cut text)) ≤ cut
cut_point-le text cut = elim (Option-cases (rfind (ascii ". ") (take cut text))) [
  | inl e ↦ rw e (omega arith)
  | inr (i, e) ↦ rw e (omega (arith, (stop_boundary text cut i e).1))
]

abbrev pub is_some : Option Text → Bool
is_some none = false
is_some (some t) = true

abbrev pub length_or_zero : Option Text → ℕ
length_or_zero none = 0
length_or_zero (some t) = length t

compressed-length :
    (text : Text) (cut : ℕ)
    → cut ≤ 299
    → let point = cut_point cut (rfind (ascii ". ") (take cut text)) in
      length (trim_end (take point text) ++ (226 ∷ 128 ∷ 166 ∷ [])) ≤ 302
compressed-length text cut h =
    let point = cut_point cut (rfind (ascii ". ") (take cut text)) in
    omega (
      arith,
      length-append (trim_end (take point text)) (226 ∷ 128 ∷ 166 ∷ []),
      trim_end-length_le (take point text),
      length-take point text,
      cut_point-le text cut,
    )

-- `compress_assistant` panics exactly on a text of more than 300 bytes whose byte 299 is inside a
-- code point, and its result never has more than 302 bytes.
pub compress_assistant_total :
    (text : Text)
    → (is_some (compress_assistant text) ≡ (leb (length text) 300 || is_char_boundary text 299))
      × (length_or_zero (compress_assistant text) ≤ 302)
unfolding compress_assistant
compress_assistant_total text = elim (Bool-cases (leb (length text) 300)) [
  | inl short ↦ rw (compress_assistant, short) (refl, ground arith)
  | inr long ↦
      let cut : min 299 (length text) ≡ 299 = ground arith in
      elim (Bool-cases (is_char_boundary text 299)) [
        | inl e ↦
            rw (compress_assistant, long, cut, e, cut_point-boundary text 299 e)
              (refl, compressed-length text 299 (omega arith))
        | inr e ↦ rw (compress_assistant, long, cut, e) (refl, omega arith)
      ]
]
