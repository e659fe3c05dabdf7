-- ===== src/Dynamic/Load/Tests.antt =====
-- A workspace of 100 tokens, with scores in hundredths.
use mathlib.Core.Option.{map as map_option}
use opencaw.Prelude.{
  false, ℕ, ◌≡◌, refl, sym, ap, arith, String, true, none, some, List, [], ◌∷◌, map, if◌then◌else◌,
  str_eq,
}
use opencaw.Prelude.Float.{hundredths}
use opencaw.Prelude.Keys.{IsDistinct}
use opencaw.Core.{CawResult, ok, err, RecallFragment}
use opencaw.Dynamic.{DynamicRecallConfig, Services, stub, full, auto, new, fetch, Orchestrator}
use opencaw.Dynamic.Load.{
  load_fragments, coverage_first_order, load_loop, load_round, decay_relevance_scores,
  reset_session,
}
use opencaw.Dynamic.Evict.{Consolidator}
use opencaw.Dynamic.Load.Invariant.{IsRetriever, IsWorkspace}
use opencaw.Dynamic.Load.Coverage.{IsCovered, coverage_first_order-IsCovered}
use opencaw.Dynamic.Load.Whole.{load_fragments-IsWorkspace}
use opencaw.Dynamic.Load.Steps.{
  Step, load_step, evict_step, decay_step, reset_step, run_step, after_steps,
  after_steps-IsWorkspace,
}

abbrev config : DynamicRecallConfig ℕ
config = record {
  max_candidates = 20;
  thresholds = record { load = 50; unload = 30 };
  max_workspace_tokens = 100;
  max_recall_iterations = 3;
  relevance_decay_rate = 80;
  enable_thinking_trace_recall = true;
  enable_probe_recall = true;
  enable_line_reference_recall = true;
  max_loaded_fragments = 4;
  max_initial_fragments = 4;
  max_chunks_per_source = 2;
  cooperation_mode = auto;
  convergence_min_new_tokens = 200;
  passive_injection_interval = 32;
  passive_injection_window_size = 192;
  session_history_budget_fraction = 25;
  max_degenerate_retries = 2;
  max_inline_body_tokens = 60;
}

-- A stub has 20 tokens and a body 50, all of one file.
abbrev answer : String → String → RecallFragment
answer id range = record {
  stub_id = id;
  content = [];
  locator = record { source = "a.md"; locator = range };
  tokens = if str_eq range "stub" then 20 else 50;
  mtime_unix_secs = 0;
}

abbrev services : Services
services = record {
  read_range = λ id range. ok (answer id range);
  count_tokens = λ t. 20;
  load_notes = λ id. none;
  bytes = λ s. [];
}

abbrev one_file : String → String
one_file id = "a.md"

abbrev fragment_or : RecallFragment → CawResult RecallFragment → RecallFragment
fragment_or f (ok g) = g
fragment_or f (err e) = f

services-IsRetriever : IsRetriever services one_file
services-IsRetriever id range f e =
    let same : answer id range ≡ f = ap (fragment_or (answer id range)) e in
    (sym (ap (λ g. g.stub_id) same), sym (ap (λ g. g.locator.source) same))

-- "c" is the third of its source, and "a" is shown with its body when it is asked for.
abbrev steps : List (Step ℕ)
steps =
    load_step (("a", 90) ∷ []) full
    ∷ decay_step
    ∷ load_step (("a", 90) ∷ ("b", 70) ∷ ("c", 60) ∷ ("d", 40) ∷ []) stub
    ∷ reset_step
    ∷ []

abbrev quiet : Consolidator ℕ
quiet = record {
  synthesize_eviction_note = λ content query score source notes. ok [];
  show_score = λ score. [];
  timestamp = λ n. n;
}

steps_loaded :
    map_option
      (λ self. map {B = String × ℕ} (λ f. (f.stub_id, f.tokens)) self.loaded)
      (after_steps services quiet steps (new config))
    ≡ some (("a", 50) ∷ ("b", 20) ∷ [])
unfolding after_steps run_step load_fragments load_loop load_round decay_relevance_scores
    reset_session fetch
steps_loaded = refl

abbrev steps_with_eviction : List (Step ℕ)
steps_with_eviction = decay_step ∷ evict_step [] true ∷ steps

after_steps-IsWorkspace_example :
    (after : Orchestrator ℕ) × (after_steps services quiet steps_with_eviction (new config)
      ≡ some after)
    × IsWorkspace false one_file after
after_steps-IsWorkspace_example =
    after_steps-IsWorkspace false one_file services quiet config steps_with_eviction
      services-IsRetriever

new-IsWorkspace : IsWorkspace false one_file (new config)
unfolding IsDistinct
new-IsWorkspace = record {
  ids = λ id. refl;
  distinct = _;
  scored = _;
  origin = _;
  budget = omega arith;
  few = omega arith;
  counts = λ source. refl;
  capped = λ source h. omega arith;
}

load_fragments-IsWorkspace_example :
    IsWorkspace false one_file
      (load_fragments services (("b", 95) ∷ ("a", 90) ∷ []) full (new config)).1
load_fragments-IsWorkspace_example =
    load_fragments-IsWorkspace false one_file services (("b", 95) ∷ ("a", 90) ∷ []) full
      (new config) services-IsRetriever new-IsWorkspace

abbrev hits : List (String × ℕ)
hits = ("a.md", 9) ∷ ("a.md", 8) ∷ ("b.md", 7) ∷ ("a.md", 6) ∷ []

hits_reordered :
    coverage_first_order (λ h. h.0) hits
    ≡ ("a.md", 9) ∷ ("b.md", 7) ∷ ("a.md", 8) ∷ ("a.md", 6) ∷ []
unfolding coverage_first_order
hits_reordered = refl

coverage_first_order-IsCovered_example :
    IsCovered {T = String × ℕ} (λ h. h.0) hits (coverage_first_order (λ h. h.0) hits)
coverage_first_order-IsCovered_example =
    coverage_first_order-IsCovered {T = String × ℕ} (λ h. h.0) hits
