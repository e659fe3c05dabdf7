-- ===== src/Dynamic/Evict.antt =====
-- `evict_stale_fragments` of crates/caw-orchestrator/src/dynamic.rs, and the mechanical notes of
-- crates/caw-orchestrator/src/consolidation.rs. The synthesizer of notes, the clock and the format
-- of a score are a parameter, the record Consolidator. `none` is a panic, at an index out of range.
pub mod Notes
pub mod Entries
pub mod Pick
pub mod Removal
pub mod Forget
pub mod Loop
pub mod Remaining
pub mod Whole
pub mod Tests
use opencaw.Prelude.{
  ℕ, zero, suc, ◌+◌, ◌-◌, Bool, true, not, ◌&&◌, ◌||◌, String, Option, none, some, List, [], ◌∷◌,
  ◌++◌, map, ltb, leb, ◌==◌, if◌then◌else◌, length, drop, get_elem?, filter_b, str_eq, StrMap,
  remove_key, put_entry, remove_entry, entry_or,
}
use opencaw.Prelude.Float.{Float}
use opencaw.Prelude.Sort.{sort_by, geb}
use opencaw.Core.{
  Text, CawResult, ok, err, RecallFragment, ConsolidationNote, eviction, total_tokens,
}
use opencaw.Text.{newline, find, strip_prefix}
use opencaw.Text.Format.{take_chars}
use opencaw.Dynamic.{Orchestrator, Services, is_history}

pub record Consolidator (F : Type 0) : Type 0 where
  -- content, query, decayed score, source and the notes so far
  pub synthesize_eviction_note : Text → Text → F → String → List ConsolidationNote → CawResult Text
  -- `{:.2}`
  pub show_score : F → Text
  -- `current_timestamp` when this many notes were written before
  pub timestamp : ℕ → ℕ

pub truncate_str : Text → ℕ → Text
unfolding take_chars
truncate_str s max_length =
    if leb (length s) max_length then s else take_chars (max_length - 3) s ++ (46 ∷ 46 ∷ 46 ∷ [])

abbrev pub notes_prefix : Services → Text
notes_prefix sv = sv.bytes "[Prior session notes for this source:" ++ (newline ∷ [])

-- `]\n\n`
abbrev pub notes_end : Text
notes_end = 93 ∷ newline ∷ newline ∷ []

abbrev after_end : Text → Text → Option ℕ → Text
after_end content rest none = content
after_end content rest (some end) = drop (end + 3) rest

abbrev without_notes : Text → Option Text → Text
without_notes content none = content
without_notes content (some rest) = after_end content rest (find notes_end rest)

pub strip_prior_notes_header : Services → Text → Text
strip_prior_notes_header sv content = without_notes content (strip_prefix (notes_prefix sv) content)

-- (idx, score, mtime)
pub record Scored (F : Type 0) : Type 0 where
  pub idx : ℕ
  pub score : F
  pub mtime : ℕ

-- `Vec::remove` without the removed element.
pub remove_at : ℕ → List RecallFragment → List RecallFragment
remove_at i [] = []
remove_at zero (f ∷ fs) = fs
remove_at (suc i) (f ∷ fs) = f ∷ remove_at i fs

abbrev pub decremented : String → Option ℕ → StrMap ℕ → StrMap ℕ
decremented source none counts = counts
decremented source (some count) counts =
    if count - 1 == 0 then remove_entry source counts else put_entry source (count - 1) counts

pub notes_for : String → List (String × ConsolidationNote) → List ConsolidationNote
notes_for id [] = []
notes_for id ((j, note) ∷ notes) =
    let later = notes_for id notes in if str_eq j id then note ∷ later else later

abbrev note_or : Text → CawResult Text → Text
note_or fallback (ok content) = content
note_or fallback (err e) = fallback

module _ {F : Type 0} ⦃fl : Float F⦄ where
  abbrev pub score_of : StrMap F → RecallFragment → F
  score_of scores f = entry_or (fl.lit 0 1) (scores f.stub_id)

  -- `loaded.iter().enumerate().map(...)`, from index n on
  pub scored_from : StrMap F → ℕ → List RecallFragment → List (Scored F)
  scored_from scores n [] = []
  scored_from scores n (f ∷ fs) =
      record { idx = n; score = score_of scores f; mtime = f.mtime_unix_secs }
      ∷ scored_from scores (n + 1) fs

  -- The comparison of the sort is not `Greater`.
  pub evict_before : Bool → Scored F → Scored F → Bool
  evict_before wants_latest a b =
      fl.total_le a.score b.score
      && (not wants_latest || (not (fl.total_le b.score a.score) || leb a.mtime b.mtime))

  pub pick_loop : F → ℕ → List RecallFragment → List (Scored F) → ℕ → Option (List ℕ)
  pick_loop unload budget loaded [] tokens = some []
  pick_loop unload budget loaded (e ∷ es) tokens =
      if not (fl.lt e.score unload) && not (ltb budget tokens)
      then some []
      else elim (get_elem? loaded e.idx) [
        | none ↦ none
        | some f ↦ elim (pick_loop unload budget loaded es (tokens - f.tokens)) [
          | none ↦ none
          | some picked ↦ some (e.idx ∷ picked)
        ]
      ]

  pub eviction_note :
      Services → Consolidator F → Text → F → RecallFragment → List ConsolidationNote → Text
  unfolding truncate_str strip_prior_notes_header
  eviction_note sv co query decayed_score f existing =
      note_or
        (sv.bytes "Evicted (relevance decayed to "
          ++ co.show_score decayed_score
          ++ sv.bytes ") during query about '"
          ++ truncate_str query 100
          ++ sv.bytes "'. Source: "
          ++ sv.bytes f.locator.source)
        (co.synthesize_eviction_note (strip_prior_notes_header sv f.content) query decayed_score
          f.locator.source existing)

  -- The body of the loop that removes, with the fragment at the index.
  pub evict_fragment :
      Services → Consolidator F → Text → ℕ → RecallFragment → Orchestrator F → Orchestrator F
  unfolding remove_at eviction_note notes_for
  evict_fragment sv co query idx f self =
      let existing = notes_for f.stub_id self.consolidations in
      record self {
        loaded = remove_at idx self.loaded;
        loaded_ids = remove_key f.stub_id self.loaded_ids;
        loaded_source_counts =
            if is_history f
            then self.loaded_source_counts
            else decremented f.locator.source (self.loaded_source_counts f.locator.source)
                self.loaded_source_counts;
        relevance_scores = remove_entry f.stub_id self.relevance_scores;
        evictions = self.evictions ++ (f.stub_id ∷ []);
        consolidations =
            self.consolidations
            ++ ((
              f.stub_id,
              record {
                content = eviction_note sv co query (score_of self.relevance_scores f) f existing;
                source = eviction;
                created_at_secs = co.timestamp (length self.consolidations);
              },
            )
                ∷ []);
      }

  pub evict_loop :
      Services → Consolidator F → Text → List ℕ → Orchestrator F → Option (Orchestrator F)
  unfolding evict_fragment
  evict_loop sv co query [] self = some self
  evict_loop sv co query (idx ∷ rest) self = elim (get_elem? self.loaded idx) [
    | none ↦ none
    | some f ↦ evict_loop sv co query rest (evict_fragment sv co query idx f self)
  ]

  pub sorted_scores : Bool → Orchestrator F → List (Scored F)
  unfolding scored_from evict_before
  sorted_scores wants_latest self =
      sort_by (evict_before wants_latest) (scored_from self.relevance_scores 0 self.loaded)

  -- `wants_latest` is `signals.map_or(false, |s| s.wants_latest_run_only)`.
  pub evict_stale_fragments :
      Services → Consolidator F → Text → Bool → Orchestrator F → Option (Orchestrator F)
  unfolding sorted_scores pick_loop evict_loop
  evict_stale_fragments sv co query wants_latest self =
      elim (pick_loop self.config.thresholds.unload self.config.max_workspace_tokens self.loaded
        (sorted_scores wants_latest self) (total_tokens self.loaded)) [
          | none ↦ none
          | some to_evict ↦ evict_loop sv co query (sort_by geb to_evict) self
        ]
