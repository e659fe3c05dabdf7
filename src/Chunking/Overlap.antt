-- ===== src/Chunking/Overlap.antt =====
-- The overlap that `prepend_line_overlap` puts before the body of a chunk, and its length.
use opencaw.Prelude.{
  ℕ, ◌+◌, ◌-◌, ◌*◌, ◌≤◌, ◌<◌, max, inl, inr, Bool, ◌||◌, dec_le, [], ◌∷◌, arith, ◌==◌, length,
  length-append, Bool-cases,
}
use opencaw.Core.{Text}
use opencaw.Text.{slice, newline, ends_with_byte}
use opencaw.Text.Bounds.{length-slice}
use opencaw.Text.Utf8.{IsUtf8}
use opencaw.Chunking.{floor_char_boundary, after_last_newline, with_newline, prepend_line_overlap}
use opencaw.Chunking.Cuts.{
  floor_char_boundary-le, floor_char_boundary-Boundary, floor_char_boundary_max,
}

-- A boundary is at most three bytes below any position.
pub floor_char_boundary-near :
    (s : Text) (i : ℕ) → IsUtf8 s → i ≤ length s → i < floor_char_boundary s i + 4
floor_char_boundary-near s i u l = elim (dec_le (length s) (floor_char_boundary s i)) [
  | yes at_end ↦ omega (arith, floor_char_boundary-le s i)
  | no inside ↦
      let (j, above, near, b) =
        u.next (floor_char_boundary s i) (floor_char_boundary-Boundary s i) (omega arith) in
      elim (dec_le j i) [
        | yes short ↦ absurd (omega (arith, floor_char_boundary_max s i j short b))
        | no long ↦ omega arith
      ]
]

with_newline-length : (s : Text) → length (with_newline s) ≤ length s + 1
with_newline-length s = elim (Bool-cases (ends_with_byte newline s)) [
  | inl e ↦ rw e (omega arith)
  | inr e ↦ rw e (omega (arith, length-append s (newline ∷ [])))
]

-- The overlap takes at most `2 * overlap_chars + 7` bytes.
pub prepend_line_overlap-length :
    (preceding : Text) (overlap : ℕ) (is_first : Bool)
    → IsUtf8 preceding
    → length (prepend_line_overlap [] preceding overlap is_first) ≤ 2 * overlap + 7
unfolding prepend_line_overlap
prepend_line_overlap-length preceding overlap is_first u =
    elim (Bool-cases (is_first || (overlap == 0) || (length preceding == 0))) [
      | inl e ↦ rw e (omega arith)
      | inr e ↦
          let n = length preceding in
          let start_byte = floor_char_boundary preceding (n - overlap) in
          let low = floor_char_boundary preceding (start_byte - overlap) in
          let final_start = max (after_last_newline (slice preceding 0 start_byte)) low in
          let bound : length (with_newline (slice preceding final_start n)) ≤ 2 * overlap + 7 =
            omega (
              arith,
              with_newline-length (slice preceding final_start n),
              length-slice preceding final_start n,
              floor_char_boundary-near preceding (n - overlap) u (omega arith),
              floor_char_boundary-near preceding (start_byte - overlap) u
                  (omega (arith, floor_char_boundary-le preceding (n - overlap))),
              floor_char_boundary-le preceding (n - overlap),
            ) in
          rw e bound
    ]
