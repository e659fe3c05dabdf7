-- ===== src/Dynamic/Evict/Tests.antt =====
-- Eviction from a workspace of three fragments, with scores in hundredths.
use mathlib.Core.Option.{map as map_option}
use opencaw.Prelude.{
  ℕ, ◌≡◌, refl, arith, String, true, false, Bool, Option, none, some, List, [], ◌∷◌, map, filter_b,
  if◌then◌else◌, str_eq, put_entry, no_entries,
}
use opencaw.Prelude.Float.{hundredths, hundredths-IsIeee}
use opencaw.Prelude.Keys.{IsDistinct}
use opencaw.Core.{ok, RecallFragment}
use opencaw.Prelude.Sort.{sort_by}
use opencaw.Text.{contains}
use opencaw.Text.Format.{trim_end}
use opencaw.Dynamic.{
  DynamicRecallConfig, Services, Orchestrator, auto, new, notes_block, with_notes,
}
use opencaw.Dynamic.Load.Invariant.{IsWorkspace}
use opencaw.Dynamic.Evict.{
  Consolidator, evict_stale_fragments, sorted_scores, pick_loop, evict_loop,
  strip_prior_notes_header,
}
use opencaw.Dynamic.Evict.Notes.{mechanical, strip_prior_notes_header-with_notes}
use opencaw.Dynamic.Evict.Remaining.{passes}
use opencaw.Dynamic.Evict.Whole.{
  IsEvicted, evict_stale_fragments-IsEvicted, evict_stale_fragments-IsWorkspace,
}

abbrev config : ℕ → DynamicRecallConfig ℕ
config budget = record {
  max_candidates = 20;
  thresholds = record { load = 50; unload = 30 };
  max_workspace_tokens = budget;
  max_recall_iterations = 3;
  relevance_decay_rate = 80;
  enable_thinking_trace_recall = true;
  enable_probe_recall = true;
  enable_line_reference_recall = true;
  max_loaded_fragments = 4;
  max_initial_fragments = 4;
  max_chunks_per_source = 3;
  cooperation_mode = auto;
  convergence_min_new_tokens = 200;
  passive_injection_interval = 32;
  passive_injection_window_size = 192;
  session_history_budget_fraction = 25;
  max_degenerate_retries = 2;
  max_inline_body_tokens = 60;
}

abbrev services : Services
services = record {
  read_range = λ id range. ok (record {
    stub_id = id;
    content = [];
    locator = record { source = "a.md"; locator = range };
    tokens = 20;
    mtime_unix_secs = 0;
  });
  count_tokens = λ t. 20;
  load_notes = λ id. none;
  bytes = λ s. if str_eq s "- " then 45 ∷ 32 ∷ [] else 91 ∷ 80 ∷ [];
}

abbrev consolidator : Consolidator ℕ
consolidator = mechanical services (λ score. 48 ∷ []) (λ n. n)

abbrev fragment : String → ℕ → RecallFragment
fragment id mtime = record {
  stub_id = id;
  content = 104 ∷ 105 ∷ [];
  locator = record { source = "a.md"; locator = "full" };
  tokens = 30;
  mtime_unix_secs = mtime;
}

-- "b" and "c" are equally relevant, "c" is older, and "a" is below the threshold.
abbrev workspace : ℕ → Orchestrator ℕ
workspace budget = record (new (config budget)) {
  loaded = fragment "a" 1 ∷ fragment "b" 3 ∷ fragment "c" 2 ∷ [];
  loaded_ids = λ id. if str_eq "a" id then true else if str_eq "b" id then true else str_eq "c" id;
  loaded_source_counts = put_entry "a.md" 3 no_entries;
  relevance_scores = put_entry "a" 10 (put_entry "b" 60 (put_entry "c" 60 no_entries));
}

abbrev ids_left : ℕ → Bool → Option (List String)
ids_left budget wants_latest =
    map_option (λ self. map (λ f. f.stub_id) self.loaded)
      (evict_stale_fragments services consolidator [] wants_latest (workspace budget))

stale_evicted : ids_left 100 true ≡ some ("b" ∷ "c" ∷ [])
unfolding evict_stale_fragments sorted_scores pick_loop evict_loop sort_by
stale_evicted = refl

-- The older one goes first only if the latest run is wanted.
over_budget_evicted : ids_left 30 true ≡ some ("b" ∷ [])
unfolding evict_stale_fragments sorted_scores pick_loop evict_loop sort_by
over_budget_evicted = refl

over_budget_in_order : ids_left 30 false ≡ some ("c" ∷ [])
unfolding evict_stale_fragments sorted_scores pick_loop evict_loop sort_by
over_budget_in_order = refl

evict_stale_fragments-IsEvicted_example :
    (after : Orchestrator ℕ) × (evict_stale_fragments services consolidator [] true (workspace 30)
      ≡ some after)
    × IsEvicted (workspace 30) after
evict_stale_fragments-IsEvicted_example =
    evict_stale_fragments-IsEvicted hundredths-IsIeee services consolidator [] true (workspace 30)
      (refl, (refl, (refl, tt)))

workspace-IsWorkspace : IsWorkspace false (λ id. "a.md") (workspace 100)
unfolding IsDistinct
workspace-IsWorkspace = record {
  ids = λ id. ground arith;
  distinct = (refl, (refl, (refl, tt)));
  scored = ((10, refl), ((60, refl), ((60, refl), tt)));
  origin = ((λ h. refl), ((λ h. refl), ((λ h. refl), tt)));
  budget = omega arith;
  few = omega arith;
  counts = λ source. ground arith;
  capped = λ source h. ground arith;
}

evict_stale_fragments-IsWorkspace_example :
    (after : Orchestrator ℕ) × (evict_stale_fragments services consolidator [] true (workspace 100)
      ≡ some after)
    × (after.loaded ≡ filter_b (passes (workspace 100)) (workspace 100).loaded)
    × IsWorkspace false (λ id. "a.md") after
evict_stale_fragments-IsWorkspace_example =
    evict_stale_fragments-IsWorkspace hundredths-IsIeee services consolidator [] true
      (workspace 100) (refl, (refl, (refl, tt))) false (λ id. "a.md") workspace-IsWorkspace

strip_prior_notes_header-with_notes_example :
    strip_prior_notes_header services
      (with_notes services ((98 ∷ 93 ∷ []) ∷ []) (fragment "a" 1)).content
    ≡ 104 ∷ 105 ∷ []
unfolding notes_block contains trim_end
strip_prior_notes_header-with_notes_example =
    strip_prior_notes_header-with_notes services (98 ∷ 93 ∷ []) [] (fragment "a" 1) refl
