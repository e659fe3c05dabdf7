-- ===== src/Dynamic.antt =====
-- crates/caw-orchestrator/src/dynamic.rs: the workspace of the dynamic recall orchestrator. What it
-- calls is a parameter, in the record Services: the retriever, the tokenizer, the notes in the
-- store, and the bytes of a native text. The provenance ledger is the list of the fragments that it
-- records, and `consolidations` its notes, each of which is also saved to the store, if there is one;
-- `recalls` and `evictions` are what the evaluator, if there is one, is told. The turns that
-- call these operations are in Turn.
pub mod Load
pub mod Evict
pub mod Turn
use opencaw.Prelude.{
  ℕ, ◌+◌, ◌-◌, Bool, String, Option, none, some, List, [], ◌∷◌, ◌++◌, map, ltb, if◌then◌else◌,
  length, drop, str_eq, StrSet, StrMap, no_keys, no_entries,
}
use opencaw.Core.{
  Text, CawError, CawResult, ok, err, stale_stub, RecallFragment, RecallThresholds,
  ConsolidationNote,
}
use opencaw.Text.{newline, concat_text}
use opencaw.Text.Format.{decimal, trim_end}

pub data CooperationMode : Type 0 where
  auto cooperative transparent : CooperationMode

pub data LoadMode : Type 0 where
  stub full : LoadMode

abbrev pub range_of : LoadMode → String
range_of stub = "stub"
range_of full = "full"

pub record DynamicRecallConfig (F : Type 0) : Type 0 where
  pub max_candidates : ℕ
  pub thresholds : RecallThresholds F
  pub max_workspace_tokens : ℕ
  pub max_recall_iterations : ℕ
  pub relevance_decay_rate : F
  pub enable_thinking_trace_recall : Bool
  pub enable_probe_recall : Bool
  pub enable_line_reference_recall : Bool
  pub max_loaded_fragments : ℕ
  pub max_initial_fragments : ℕ
  pub max_chunks_per_source : ℕ
  pub cooperation_mode : CooperationMode
  pub convergence_min_new_tokens : ℕ
  pub passive_injection_interval : ℕ
  pub passive_injection_window_size : ℕ
  pub session_history_budget_fraction : F
  pub max_degenerate_retries : ℕ
  pub max_inline_body_tokens : ℕ

-- The fields of `DynamicRecallOrchestrator` that the workspace is made of.
pub record Orchestrator (F : Type 0) : Type 0 where
  pub loaded : List RecallFragment
  pub loaded_ids : StrSet
  pub loaded_source_counts : StrMap ℕ
  pub cap_exempt_sources : StrSet
  pub relevance_scores : StrMap F
  pub config : DynamicRecallConfig F
  pub session_content : StrMap Text
  pub provenance : List RecallFragment
  pub recalls : List (String × F × ℕ)
  pub evictions : List String
  pub consolidations : List (String × ConsolidationNote)

abbrev pub new : {F : Type 0} → DynamicRecallConfig F → Orchestrator F
new config = record {
  loaded = [];
  loaded_ids = no_keys;
  loaded_source_counts = no_entries;
  cap_exempt_sources = no_keys;
  relevance_scores = no_entries;
  config = config;
  session_content = no_entries;
  provenance = [];
  recalls = [];
  evictions = [];
  consolidations = [];
}

-- `load_notes` is the contents of a stub's notes, if there is a store and it can be read.
pub record Services : Type 0 where
  pub read_range : String → String → CawResult RecallFragment
  pub count_tokens : Text → ℕ
  pub load_notes : String → Option (List Text)
  pub bytes : String → Text

abbrev pub session_history : String
session_history = "session history"

abbrev pub max_notes : ℕ
max_notes = 2

note_line : Services → Text → Text
note_line sv content = sv.bytes "- " ++ content ++ (newline ∷ [])

-- The most recent notes, and how many older ones there are.
pub notes_block : Services → List Text → Text
unfolding note_line
notes_block sv notes =
    let collapsed = length notes - max_notes in
    let older =
      if ltb 0 collapsed
      then sv.bytes "- ("
        ++ decimal collapsed
        ++ sv.bytes " older eviction(s) omitted)"
        ++ (newline ∷ [])
      else [] in
    trim_end (older ++ concat_text (map (note_line sv) (drop collapsed notes)))

-- The fragment with the notes of the store in front.
pub with_notes : Services → List Text → RecallFragment → RecallFragment
unfolding notes_block
with_notes sv [] f = f
with_notes sv (n ∷ notes) f =
    let content =
      sv.bytes "[Prior session notes for this source:"
      ++ (newline ∷ notes_block sv (n ∷ notes))
      ++ (newline ∷ 93 ∷ newline ∷ newline ∷ f.content) in
    record f { content = content; tokens = sv.count_tokens content }

-- What the match on `session_content` comes to: a fragment, the next hit, or an error.
pub data Fetched : Type 0 where
  fetched : RecallFragment → Fetched
  skipped : Fetched
  failed : CawError → Fetched

fetched_read : Services → String → CawResult RecallFragment → Fetched
unfolding with_notes
fetched_read sv id (ok f) = elim (sv.load_notes id) [
  | none ↦ fetched f
  | some notes ↦ fetched (with_notes sv notes f)
]
fetched_read sv id (err (stale_stub path)) = skipped
fetched_read sv id (err e) = failed e

history_fragment : Services → String → Text → RecallFragment
history_fragment sv id content = record {
  stub_id = id;
  content = content;
  locator = record { source = session_history; locator = "full" };
  tokens = sv.count_tokens content;
  mtime_unix_secs = 0;
}

pub fetch : Services → ℕ → ℕ → LoadMode → String → Option Text → Fetched
unfolding fetched_read
fetch sv history_budget history_tokens mode id (some content) =
    if ltb history_budget (history_tokens + sv.count_tokens content)
    then skipped
    else fetched (history_fragment sv id content)
fetch sv history_budget history_tokens mode id none =
    fetched_read sv id (sv.read_range id (range_of mode))

abbrev is_history : RecallFragment → Bool
is_history f = str_eq f.locator.source session_history
