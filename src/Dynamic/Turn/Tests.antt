-- ===== src/Dynamic/Turn/Tests.antt =====
-- A turn over two files, with scores in hundredths. The answer names lines of the second file, which
-- the query does not find.
use opencaw.Prelude.{
  ℕ, ◌≡◌, refl, sym, ap, arith, true, false, String, none, some, [], ◌∷◌, if◌then◌else◌, ◌==◌,
  str_eq, length, put_entry, add_key, no_keys, no_entries,
}
use opencaw.Prelude.Float.{hundredths, hundredths-IsIeee}
use opencaw.Core.{Text, CawResult, ok, err, degenerate_output, RecallFragment, has_id}
use opencaw.Text.{ascii}
use opencaw.Dynamic.{DynamicRecallConfig, auto}
use opencaw.Dynamic.Load.Invariant.{IsRetriever, IsWorkspace}
use opencaw.Dynamic.Turn.Models.{
  markdown, ScoredStub, CompletionRequest, CompletionResponse, finished, Turn, Models,
}
use opencaw.Dynamic.Turn.Monad.{modify, ◌>>◌, Ends}
use opencaw.Dynamic.Turn.Retry.{complete_with_retry}
use opencaw.Dynamic.Turn.Retry.Attempts.{IsAnswered, complete_with_retry-IsAnswered}
use opencaw.Dynamic.Turn.Signals.{process_line_references, process_annotations}
use opencaw.Dynamic.Turn.Signals.Known.{ReadsRanges}
use opencaw.Dynamic.Turn.Refine.{Query, evict}
use opencaw.Dynamic.Turn.Refine.Forgotten.{WereLoaded, line_references-WereLoaded}
use opencaw.Dynamic.Turn.Run.{TurnInput, new_turn, after_turns}
use opencaw.Dynamic.Turn.Run.Bounded.{after_turns-IsBounded}

abbrev config : DynamicRecallConfig ℕ
config = record {
  max_candidates = 20;
  thresholds = record { load = 50; unload = 30 };
  max_workspace_tokens = 100;
  max_recall_iterations = 3;
  relevance_decay_rate = 80;
  enable_thinking_trace_recall = true;
  enable_probe_recall = true;
  enable_line_reference_recall = true;
  max_loaded_fragments = 4;
  max_initial_fragments = 4;
  max_chunks_per_source = 2;
  cooperation_mode = auto;
  convergence_min_new_tokens = 10;
  passive_injection_interval = 32;
  passive_injection_window_size = 192;
  session_history_budget_fraction = 25;
  max_degenerate_retries = 2;
  max_inline_body_tokens = 60;
}

abbrev source_of : String → String
source_of id = if str_eq id "a" then "a.md" else "b.md"

abbrev fragment : String → String → RecallFragment
fragment id range = record {
  stub_id = id;
  content = [];
  locator = record { source = source_of id; locator = range };
  tokens = 20;
  mtime_unix_secs = 0;
}

abbrev hit : String → ℕ → ScoredStub ℕ
hit id score = record {
  stub = record {
    id = id;
    path = source_of id;
    token_estimate = 20;
    kind = markdown;
    summary = [];
  };
  score = score;
}

abbrev response : Text → CompletionResponse
response answer = record { answer = answer; thinking = none; usage = none }

-- The first completion is degenerate.
abbrev said : ℕ → CawResult CompletionResponse
said n =
    if n == 0 then err (degenerate_output "model" "loop") else ok (response (ascii "see b.md:2-3"))

abbrev models : Models ℕ
models = record {
  services = record {
    read_range = λ id range. ok (fragment id range);
    count_tokens = λ t. 20;
    load_notes = λ id. none;
    bytes = ascii;
  };
  consolidator = record {
    synthesize_eviction_note = λ content query score source notes. ok [];
    show_score = λ score. [];
    timestamp = λ n. n;
  };
  text_of = λ t. "2-3";
  search = λ query k. ok (hit "a" 90 ∷ hit "b" 10 ∷ []);
  embed_query = λ t. (0, ok []);
  embed_document = λ t. ok [];
  search_index = λ points embedding k. [];
  checks_debug_lines = false;
  clock = λ n. n;
  complete = λ n req. said n;
  generate_passive = λ n req. finished (said n);
  capabilities = record { supports_visible_reasoning = false; supports_passive_injection = false };
  model_name = "model";
  system_prompt = λ t. t;
  format_overlap_warnings = λ fs. [];
  extract_probes = λ t. [];
  extract_thinking_steps = λ t. [];
  extract_line_references = λ t. record { source_hint = ascii "b.md"; start = 2; end = 3 } ∷ [];
  extract_annotations = λ t. [];
  count_fake_recall_markers = λ t. 0;
  strip_markers = λ t. t;
  to_lowercase = λ t. t;
  split_terms = λ t. t ∷ [];
  count_words = λ t. length t;
  session_path = none;
  append_to_session = λ t. ok tt;
}

abbrev fragment_or : RecallFragment → CawResult RecallFragment → RecallFragment
fragment_or f (ok g) = g
fragment_or f (err e) = f

models-IsRetriever : IsRetriever models.services source_of
models-IsRetriever id range f e =
    let same : fragment id range ≡ f = ap (fragment_or (fragment id range)) e in
    (sym (ap (λ g. g.stub_id) same), sym (ap (λ g. g.locator.source) same))

models-ReadsRanges : ReadsRanges models
models-ReadsRanges id ref f e =
    let same : fragment id "2-3" ≡ f = ap (fragment_or (fragment id "2-3")) e in
    sym (ap (λ g. str_eq g.locator.locator "stub") same)

abbrev input : TurnInput
input = record { system = ascii "system"; user = ascii "what is it"; guidance = []; signals = none }

abbrev query : Query
query = record {
  system_prompt = ascii "system";
  user = ascii "what is it";
  guidance = [];
  wants_latest = false;
}

abbrev fresh : Turn ℕ
fresh = new_turn config none

after_turns-IsBounded_example :
    (after : Turn ℕ) × (after_turns models (input ∷ input ∷ []) fresh ≡ some after)
    × IsWorkspace true source_of after.self
after_turns-IsBounded_example =
    after_turns-IsBounded source_of models models-IsRetriever refl (input ∷ input ∷ []) config none

request : CompletionRequest
request = record {
  system = [];
  user = ascii "what is it";
  workspace_fragments = [];
  workspace_guidance = [];
}

complete_with_retry-IsAnswered_example :
    Ends (IsAnswered models 0 3) (complete_with_retry models request false fresh)
complete_with_retry-IsAnswered_example = complete_with_retry-IsAnswered models request false fresh

-- The first file is loaded.
abbrev resident : Turn ℕ
resident = record fresh {
  self = record fresh.self {
    loaded = fragment "a" "stub" ∷ [];
    loaded_ids = add_key "a" no_keys;
    loaded_source_counts = put_entry "a.md" 1 no_entries;
    relevance_scores = put_entry "a" 90 no_entries;
  };
}

resident-scores :
    (id : String) (score : ℕ)
    → resident.self.relevance_scores id ≡ some score
    → has_id id resident.self.loaded ≡ true
resident-scores id score h = ground arith

line_references-WereLoaded_example :
    Ends
      (WereLoaded hundredths-IsIeee
        (λ x. refl)
        source_of
        models
        models-IsRetriever
        models-ReadsRanges
        query
        resident.self.loaded)
      ((process_line_references models (ascii "see b.md:2-3")
          >> modify (process_annotations models [])
          >> evict models query)
        resident)
line_references-WereLoaded_example =
    line_references-WereLoaded hundredths-IsIeee (λ x. refl) source_of models models-IsRetriever
      models-ReadsRanges query (ascii "see b.md:2-3") [] resident ((90, refl), tt) resident-scores
      refl
