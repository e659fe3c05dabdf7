-- ===== src/Recall/Tests.antt =====
-- Turns of the recall orchestrators, with scores in hundredths. Every search finds the stubs "a" and
-- "b", of which one fits the budget, and the model thinks in one step.
use mathlib.Core.Path.{subst}
use opencaw.Prelude.{ℕ, ◌≡◌, refl, true, none, List, [], ◌∷◌, String, map}
use opencaw.Prelude.Float.{hundredths}
use opencaw.Prelude.Keys.{IsDistinct}
use opencaw.Core.{CawResult, ok, err, RecallFragment}
use opencaw.Text.{ascii}
use opencaw.Scheduler.{GreedyBudgetScheduler, new}
use opencaw.Scheduler.Interface.{greedy}
use opencaw.Dynamic.Turn.Models.{ScoredStub, CompletionResponse, markdown}
use opencaw.Recall.{RecallConfig, finished, shows, Assistant, Workspace, new_workspace, run_turn}
use opencaw.Recall.Turns.{plain, with_probes, after_turns, turn}
use opencaw.Recall.Bounded.{IsRecalled, after_turns-IsRecalled}
use opencaw.Recall.Admitted.{IsOnce}
use opencaw.Recall.Once.{IsSearch, run_turn-IsOnce}
use opencaw.Recall.Calls.{IsCounted, turn-IsCounted}

abbrev hit : String → ℕ → ScoredStub ℕ
hit id score = record {
  stub = record { id = id; path = id; token_estimate = 30; kind = markdown; summary = [] };
  score = score;
}

abbrev fragment : String → RecallFragment
fragment id = record {
  stub_id = id;
  content = [];
  locator = record { source = id; locator = "full" };
  tokens = 30;
  mtime_unix_secs = 0;
}

abbrev answer : CompletionResponse
answer = record { answer = ascii "yes"; thinking = none; usage = none }

abbrev assistant : Assistant ℕ
assistant = record {
  search = λ query k. ok (hit "a" 80 ∷ hit "b" 60 ∷ []);
  read_range = λ id range. ok (fragment id);
  complete = λ n req. ok answer;
  thinking_with_steps = λ n req. shows (ascii "step") (λ r. finished (ok answer));
  supports_visible_reasoning = true;
  extract_probes = λ text. ascii "more" ∷ [];
}

abbrev config : RecallConfig ℕ
config = record {
  max_candidates = 5;
  thresholds = record { load = 50; unload = 30 };
  default_range = "full";
  budget = record { max_total = 100; reserved_for_prompt = 40; reserved_for_answer = 20 };
  max_iterations = 3;
}

abbrev start : Workspace (GreedyBudgetScheduler ℕ)
start = new_workspace (new config.thresholds)

abbrev AreDistinct : CawResult (List (ScoredStub ℕ)) → Type 0
AreDistinct (ok hits) = IsDistinct (map (λ h. h.stub.id) hits)
AreDistinct (err e) = Unit

abbrev IsReadOf : String → CawResult RecallFragment → Type 0
IsReadOf id (ok f) = f.stub_id ≡ id
IsReadOf id (err e) = Unit

assistant-IsSearch : IsSearch assistant
unfolding IsDistinct
assistant-IsSearch = record {
  distinct = λ query k hits e. subst AreDistinct e (refl, (refl, tt));
  reads = λ id range f e. subst (IsReadOf id) e refl;
}

after_turns-IsRecalled_example :
    IsRecalled assistant config greedy
      (after_turns assistant config greedy with_probes ((ascii "s", ascii "q") ∷ []) start)
after_turns-IsRecalled_example =
    after_turns-IsRecalled assistant config greedy with_probes ((ascii "s", ascii "q") ∷ [])
      (new config.thresholds)

run_turn-IsOnce_example :
    IsOnce [] (run_turn assistant config greedy (ascii "s") (ascii "q") start).1
run_turn-IsOnce_example =
    run_turn-IsOnce assistant assistant-IsSearch config greedy (ascii "s") (ascii "q") start

turn-IsCounted_example :
    IsCounted 0 1 4 (turn assistant config greedy plain (ascii "s") (ascii "q") start)
turn-IsCounted_example = turn-IsCounted assistant config greedy plain (ascii "s") (ascii "q") start
