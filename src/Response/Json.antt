-- ===== src/Response/Json.antt =====
-- `extract_json_object` finds the object in prose, against a grammar of balanced braces.
use mathlib.Core.List.{append_assoc}
use opencaw.Prelude.{
  ℕ, suc, ◌+◌, ◌-◌, ◌≡◌, ◌∙◌, refl, ap, true, false, some, [], ◌∷◌, ◌++◌, List, arith, ◌==◌, length,
  length-append, take, drop, All, Bool-cases, inl, inr,
}
use opencaw.Core.{Text}
use opencaw.Text.{slice}
use opencaw.Text.Find.{drop-append, take-append}
use opencaw.Response.{Scan, scan_step, scan_loop, start_scan, extract_json_object}

-- The inside of a string: plain bytes and escaped ones.
pub data StringItem : Type 0 where
  plain : (c : ℕ) → (c == 34) ≡ false → (c == 92) ≡ false → StringItem
  escape : ℕ → StringItem

-- The inside of an object: other bytes, strings and objects.
pub data Body : Type 0 where
  done : Body
  other : (c : ℕ) → (c == 34) ≡ false → (c == 123) ≡ false → (c == 125) ≡ false → Body → Body
  quoted : List StringItem → Body → Body
  nested : Body → Body → Body

abbrev pub print_items : List StringItem → Text
print_items [] = []
print_items (plain c _ _ ∷ items) = c ∷ print_items items
print_items (escape c ∷ items) = 92 ∷ c ∷ print_items items

abbrev pub print_body : Body → Text
print_body done = []
print_body (other c _ _ _ rest) = c ∷ print_body rest
print_body (quoted items rest) = 34 ∷ (print_items items ++ (34 ∷ print_body rest))
print_body (nested inner rest) = 123 ∷ (print_body inner ++ (125 ∷ print_body rest))

abbrev pub print_object : Body → Text
print_object body = 123 ∷ (print_body body ++ (125 ∷ []))

-- Inside an object that began at `b`, at this depth.
abbrev inside : ℕ → ℕ → Scan
inside b d = record { start = some b; depth = suc d; in_string = false; escaped = false }

abbrev in_text : ℕ → ℕ → Scan
in_text b d = record (inside b d) { in_string = true }

at_index : (i j : ℕ) (st : Scan) (s : Text) → i ≡ j → scan_loop i st s ≡ scan_loop j st s
at_index i j st s e = ap (λ k. scan_loop k st s) e

scan_items :
    (items : List StringItem) (idx b d : ℕ) (s : Text)
    → scan_loop idx (in_text b d) (print_items items ++ s)
      ≡ scan_loop (idx + length (print_items items)) (in_text b d) s
unfolding scan_loop scan_step
scan_items [] idx b d s = at_index _ _ _ s (omega arith)
scan_items (plain c q r ∷ items) idx b d s =
    rw (scan_loop, q, r) (scan_items items (idx + 1) b d s ∙ at_index _ _ _ s (omega arith))
scan_items (escape c ∷ items) idx b d s =
    scan_items items (idx + 1 + 1) b d s ∙ at_index _ _ _ s (omega arith)

deeper :
    (idx b d : ℕ) (s : Text)
    → scan_loop idx (inside b d) (123 ∷ s) ≡ scan_loop (idx + 1) (inside b (suc d)) s
unfolding scan_loop scan_step
deeper idx b d s =
    let step : suc d + 1 ≡ suc (suc d) = omega arith in
    ap (λ n. scan_loop (idx + 1) (record (inside b d) { depth = n }) s) step

shallower :
    (idx b d : ℕ) (s : Text)
    → scan_loop idx (inside b (suc d)) (125 ∷ s) ≡ scan_loop (idx + 1) (inside b d) s
unfolding scan_loop scan_step
shallower idx b d s =
    let open_still : (suc (suc d) == 0) ≡ false = ground arith in
    let more : (suc (suc d) - 1 == 0) ≡ false = ground arith in
    let step : suc (suc d) - 1 ≡ suc d = omega arith in rw (scan_loop, open_still, more, step) refl

scan_body :
    (body : Body) (idx b d : ℕ) (s : Text)
    → scan_loop idx (inside b d) (print_body body ++ s)
      ≡ scan_loop (idx + length (print_body body)) (inside b d) s
unfolding scan_loop scan_step
scan_body done idx b d s = at_index _ _ _ s (omega arith)
scan_body (other c p q r rest) idx b d s =
    rw (scan_loop, p, q, r) (scan_body rest (idx + 1) b d s ∙ at_index _ _ _ s (omega arith))
scan_body (quoted items rest) idx b d s =
    ap (scan_loop (idx + 1) (in_text b d))
      (append_assoc (print_items items) (34 ∷ print_body rest) s)
    ∙ scan_items items (idx + 1) b d (34 ∷ (print_body rest ++ s))
    ∙ scan_body rest (idx + 1 + length (print_items items) + 1) b d s
    ∙ at_index _ _ _ s (omega (arith, length-append (print_items items) (34 ∷ print_body rest)))
scan_body (nested inner rest) idx b d s =
    deeper idx b d ((print_body inner ++ (125 ∷ print_body rest)) ++ s)
    ∙ ap (scan_loop (idx + 1) (inside b (suc d)))
        (append_assoc (print_body inner) (125 ∷ print_body rest) s)
    ∙ scan_body inner (idx + 1) b (suc d) (125 ∷ (print_body rest ++ s))
    ∙ shallower (idx + 1 + length (print_body inner)) b d (print_body rest ++ s)
    ∙ scan_body rest (idx + 1 + length (print_body inner) + 1) b d s
    ∙ at_index _ _ _ s (omega (arith, length-append (print_body inner) (125 ∷ print_body rest)))

-- Prose without a brace that opens and without a quotation mark.
abbrev pub IsProse : Text → Type 0
IsProse = All (λ c. ((c == 34) ≡ false) × ((c == 123) ≡ false))

scan_prose :
    (prose s : Text) (idx : ℕ)
    → IsProse prose
    → scan_loop idx start_scan (prose ++ s) ≡ scan_loop (idx + length prose) start_scan s
unfolding scan_loop scan_step
scan_prose [] s idx h = at_index _ _ _ s (omega arith)
scan_prose (c ∷ prose) s idx ((p, q), h) = elim (Bool-cases (c == 125)) [
  | inl e ↦
      rw (scan_loop, p, q, e) (scan_prose prose s (idx + 1) h ∙ at_index _ _ _ s (omega arith))
  | inr e ↦
      rw (scan_loop, p, q, e) (scan_prose prose s (idx + 1) h ∙ at_index _ _ _ s (omega arith))
]

scan_object :
    (body : Body) (idx : ℕ) (s : Text)
    → scan_loop idx start_scan (print_object body ++ s)
      ≡ some (idx, idx + 1 + length (print_body body))
unfolding scan_loop scan_step
scan_object body idx s =
    ap (scan_loop (idx + 1) (inside idx 0)) (append_assoc (print_body body) (125 ∷ []) s)
    ∙ scan_body body (idx + 1) idx 0 (125 ∷ s)

slice-middle :
    (a b c : Text) (m n : ℕ)
    → m ≡ length a
    → n ≡ length a + length b
    → slice (a ++ (b ++ c)) m n ≡ b
slice-middle a b c m n e f =
    let from : m ≡ length a + 0 = omega (arith, e) in
    let size : n - m ≡ length b = omega (arith, e, f) in
    ap (λ k. take (n - m) (drop k (a ++ (b ++ c)))) from
    ∙ ap (take (n - m)) (drop-append a (b ++ c) 0)
    ∙ ap (λ k. take k (b ++ c)) size
    ∙ take-append b c

-- In prose without an opening brace or a quotation mark, the object that follows is found whole:
-- whatever braces its strings hold, and whatever follows it.
pub extract_json_object-print_object :
    (prose : Text) (body : Body) (rest : Text)
    → IsProse prose
    → extract_json_object (prose ++ (print_object body ++ rest)) ≡ some (print_object body)
unfolding extract_json_object
extract_json_object-print_object prose body rest h =
    let range : scan_loop 0 start_scan (prose ++ (print_object body ++ rest))
        ≡ some (0 + length prose, 0 + length prose + 1 + length (print_body body)) =
      scan_prose prose (print_object body ++ rest) 0 h ∙ scan_object body (0 + length prose) rest in
    rw (extract_json_object, range)
      (ap some (
        slice-middle prose (print_object body) rest _ _ (omega arith)
          (omega (arith, length-append (print_body body) (125 ∷ [])))))
