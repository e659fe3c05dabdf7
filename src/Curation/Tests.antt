-- ===== src/Curation/Tests.antt =====
-- A conversation of four turns, with fractions in hundredths.
use opencaw.Prelude.{ℕ, ◌≡◌, refl, true, false, none, some, List, [], ◌∷◌}
use opencaw.Prelude.Float.{hundredths}
use opencaw.Core.{Text, ok}
use opencaw.Text.Format.{space_length}
use opencaw.Curation.{
  ConversationTurn, HistorySummarizerConfig, SystemPromptBudget, CurationPipeline, CurationResult,
  user, tool, partition_turns, truncate_to_budget, estimate_tokens, curate, split_sentences,
  fill_loop, check_budget, check_system_prompt, compress_loop, compress_turn, exceeded,
}
use opencaw.Curation.Truncate.{IsTruncated, truncate_to_budget-IsTruncated}
use opencaw.Curation.Pipeline.{IsCurated, curate-IsCurated}

abbrev said : ℕ → ConversationTurn
said n = record {
  role = user;
  content = 97 ∷ [];
  token_estimate = n;
  timestamp_secs = n;
  metadata = record { tool_name = none; inline_required = false };
}

abbrev tool_turn : ConversationTurn
tool_turn = record {
  role = tool;
  content = 98 ∷ [];
  token_estimate = 50;
  timestamp_secs = 4;
  metadata = record { tool_name = some "grep"; inline_required = false };
}

abbrev history_config : HistorySummarizerConfig ℕ
history_config = record {
  trigger_threshold_pct = 30;
  retain_recent = 2;
  summary_budget_tokens = 10;
}

abbrev turns : List ConversationTurn
turns = said 10 ∷ said 20 ∷ said 30 ∷ tool_turn ∷ []

partition_retained : (partition_turns turns history_config 200).1 ≡ said 30 ∷ tool_turn ∷ []
unfolding partition_turns
partition_retained = refl

abbrev budget : SystemPromptBudget ℕ
budget = record { max_tokens = 2; warn_threshold_pct = 80 }

-- "a b.c d."
abbrev prompt : Text
prompt = 97 ∷ 32 ∷ 98 ∷ 46 ∷ 99 ∷ 32 ∷ 100 ∷ 46 ∷ []

prompt_truncated : truncate_to_budget prompt budget ≡ (97 ∷ 32 ∷ 98 ∷ 46 ∷ [], 1)
unfolding truncate_to_budget fill_loop split_sentences estimate_tokens space_length
prompt_truncated = refl

truncate_to_budget-IsTruncated_example :
    IsTruncated prompt budget (truncate_to_budget prompt budget)
truncate_to_budget-IsTruncated_example = truncate_to_budget-IsTruncated prompt budget

abbrev pipeline : CurationPipeline ℕ
pipeline = record {
  summarize = λ old. ok (99 ∷ []);
  history_config = history_config;
  compress = λ name output tokens. ok (
      some (record {
        tool_name = name;
        summary = 99 ∷ [];
        full_output = output;
        original_tokens = tokens;
        summary_tokens = 1;
      }));
  prompt_budget = budget;
  context_budget_tokens = 200;
  truncate_on_exceed = true;
}

-- 1 for the prompt, 29 for the summary and 49 for the tool's output.
abbrev curated : CurationResult
curated = record {
  system_prompt = 97 ∷ 32 ∷ 98 ∷ 46 ∷ [];
  history_summary = 99 ∷ [];
  retained_turns = said 30 ∷ tool_turn ∷ [];
  compressed_tool_outputs =
      record {
        tool_name = "grep";
        summary = 99 ∷ [];
        full_output = 98 ∷ [];
        original_tokens = 50;
        summary_tokens = 1;
      }
      ∷ [];
  prompt_budget_check = exceeded 3 2;
  tokens_saved = 79;
}

curate_result : curate pipeline prompt turns ≡ ok curated
unfolding curate partition_turns truncate_to_budget fill_loop split_sentences estimate_tokens
    space_length check_system_prompt check_budget compress_loop compress_turn
curate_result = refl

curate-IsCurated_example : IsCurated pipeline prompt turns curated
curate-IsCurated_example = curate-IsCurated pipeline prompt turns curated curate_result
