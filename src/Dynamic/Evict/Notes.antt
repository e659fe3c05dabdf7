-- ===== src/Dynamic/Evict/Notes.antt =====
-- `strip_prior_notes_header` undoes the header that `load_fragments` writes, and what
-- `MechanicalConsolidation` of crates/caw-orchestrator/src/consolidation.rs answers.
use mathlib.Core.List.{append_assoc}
use opencaw.Prelude.{ℕ, ◌≡◌, ◌∙◌, refl, sym, ap, false, String, some, List, [], ◌∷◌, ◌++◌, arith}
use opencaw.Core.{Text, ok, RecallFragment}
use opencaw.Text.{newline, contains, strip_prefix}
use opencaw.Text.Find.{find-append, drop-append}
use opencaw.Text.Format.{trim}
use opencaw.Dynamic.{Services, notes_block, with_notes}
use opencaw.Dynamic.Evict.{
  Consolidator, notes_end, notes_prefix, strip_prior_notes_header, truncate_str,
}

pub mechanical_note : {F : Type 0} → Services → (F → Text) → Text → Text → F → String → Text
unfolding truncate_str
mechanical_note sv show_score content query score source =
    sv.bytes "Evicted (relevance decayed to "
    ++ show_score score
    ++ sv.bytes ") during query about '"
    ++ truncate_str query 100
    ++ sv.bytes "'. Source: "
    ++ sv.bytes source
    ++ sv.bytes ". Topic: "
    ++ truncate_str (trim content) 120

-- `MechanicalConsolidation`, with the clock.
abbrev pub mechanical : {F : Type 0} → Services → (F → Text) → (ℕ → ℕ) → Consolidator F
mechanical sv show_score timestamp = record {
  synthesize_eviction_note = λ content query score source notes.
      ok (mechanical_note sv show_score content query score source);
  show_score = show_score;
  timestamp = timestamp;
}

strip_prefix-append : (p s : Text) → strip_prefix p (p ++ s) ≡ some s
unfolding strip_prefix
strip_prefix-append [] s = refl
strip_prefix-append (b ∷ p) s = ground (arith, strip_prefix-append p s)

-- `strip_prior_notes_header` gives back the content that a fragment had before `load_fragments` put
-- the notes of the store in front, if the line of the notes' end does not occur in the notes.
pub strip_prior_notes_header-with_notes :
    (sv : Services) (n : Text) (notes : List Text) (f : RecallFragment)
    → contains ((notes_block sv (n ∷ notes) ++ (newline ∷ [])) ++ (93 ∷ newline ∷ [])) notes_end
      ≡ false
    → strip_prior_notes_header sv (with_notes sv (n ∷ notes) f).content ≡ f.content
unfolding strip_prior_notes_header with_notes
strip_prior_notes_header-with_notes sv n notes f h =
    let block = notes_block sv (n ∷ notes) in
    let line = sv.bytes "[Prior session notes for this source:" in
    let head : strip_prefix (notes_prefix sv) (with_notes sv (n ∷ notes) f).content
        ≡ some ((block ++ (newline ∷ [])) ++ (notes_end ++ f.content)) =
      ap (strip_prefix (notes_prefix sv)) (
        append_assoc line (newline ∷ block) (newline ∷ (notes_end ++ f.content))
        ∙ sym (append_assoc line (newline ∷ []) (block ++ (newline ∷ (notes_end ++ f.content)))))
      ∙ strip_prefix-append (notes_prefix sv) _
      ∙ ap some (sym (append_assoc block (newline ∷ []) (notes_end ++ f.content))) in
    rw
      (
        strip_prior_notes_header,
        head,
        find-append (block ++ (newline ∷ [])) (93 ∷ newline ∷ []) f.content newline h,
      )
      (drop-append (block ++ (newline ∷ [])) (notes_end ++ f.content) 3)
