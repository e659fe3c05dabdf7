-- ===== src/Curation.antt =====
-- crates/caw-curation/src: the partition of a conversation's turns (history.rs), the budget of the
-- system prompt (prompt_budget.rs), the extractive compressor's threshold (tool_output.rs) and the
-- pipeline over them (pipeline.rs). The summarizer and the compressor are trait objects, and so
-- parameters. The messages of a budget check, which are only shown, are left out.
pub mod Partition
pub mod Truncate
pub mod Compressed
pub mod Pipeline
pub mod Tests
use opencaw.Prelude.{
  ℕ, zero, suc, ◌+◌, ◌-◌, max, Bool, true, false, not, ◌&&◌, ◌||◌, String, Option, none, some, List,
  [], ◌∷◌, ◌++◌, ltb, leb, ◌==◌, if◌then◌else◌, length, take, drop, sum_of,
}
use opencaw.Prelude.Float.{Float}
use opencaw.Core.{Text, CawResult, ok, ◌>>=◌}
use opencaw.Text.{newline}
use opencaw.Text.Format.{space_length}

pub data TurnRole : Type 0 where
  user assistant system tool : TurnRole

pub record TurnMetadata : Type 0 where
  pub tool_name : Option String
  pub inline_required : Bool

pub record ConversationTurn : Type 0 where
  pub role : TurnRole
  pub content : Text
  pub token_estimate : ℕ
  pub timestamp_secs : ℕ
  pub metadata : TurnMetadata

abbrev pub is_tool_output : ConversationTurn → Bool
is_tool_output turn = elim turn.role [ tool ↦ true | _ ↦ false ]

pub record HistorySummarizerConfig (F : Type 0) : Type 0 where
  pub trigger_threshold_pct : F
  pub retain_recent : ℕ
  pub summary_budget_tokens : ℕ

abbrev pub turn_tokens : List ConversationTurn → ℕ
turn_tokens = sum_of (λ t. t.token_estimate)

module _ {F : Type 0} ⦃fl : Float F⦄ where
  pub partition_turns :
      List ConversationTurn
      → HistorySummarizerConfig F
      → ℕ
      → List ConversationTurn × List ConversationTurn
  partition_turns turns config context_budget_tokens =
      let threshold =
        fl.to_ℕ (fl.mul (fl.of_ℕ context_budget_tokens) config.trigger_threshold_pct) in
      let split_point = length turns - config.retain_recent in
      if leb (turn_tokens turns) threshold || leb (length turns) config.retain_recent
      then ([], turns)
      else (take split_point turns, drop split_point turns)

-- The words of a text; `skip` bytes of a white space are left, `inside` a word or not.
pub word_loop : ℕ → Bool → Text → ℕ
word_loop skip inside [] = 0
word_loop (suc skip) inside (b ∷ s) = word_loop skip false s
word_loop zero inside (b ∷ s) = elim (space_length (b ∷ s)) [
  | zero ↦ let rest = word_loop zero true s in if inside then rest else rest + 1
  | suc more ↦ word_loop more false s
]

-- `split_whitespace().count().max(1)`
pub estimate_tokens : Text → ℕ
unfolding word_loop
estimate_tokens text = max (word_loop zero false text) 1

pub record SystemPromptBudget (F : Type 0) : Type 0 where
  pub max_tokens : ℕ
  pub warn_threshold_pct : F

pub data PromptBudgetCheck : Type 0 where
  within warning exceeded : ℕ → ℕ → PromptBudgetCheck

abbrev pub is_exceeded : PromptBudgetCheck → Bool
is_exceeded (exceeded used max_tokens) = true
is_exceeded _ = false

-- `split_inclusive(['.', '\n'])`
abbrev pub ends_sentence : ℕ → Bool
ends_sentence b = (b == 46) || (b == newline)

abbrev pub with_first : ℕ → List Text → List Text
with_first b [] = (b ∷ []) ∷ []
with_first b (s ∷ rest) = (b ∷ s) ∷ rest

pub split_sentences : Text → List Text
split_sentences [] = []
split_sentences (b ∷ s) =
    let rest = split_sentences s in if ends_sentence b then (b ∷ []) ∷ rest else with_first b rest

-- The loop of `truncate_to_budget`: `result`, `result_tokens`.
pub fill_loop : ℕ → List Text → Text → ℕ → Text × ℕ
fill_loop max_tokens [] result result_tokens = (result, result_tokens)
fill_loop max_tokens (sentence ∷ rest) result result_tokens =
    let candidate_tokens = estimate_tokens sentence in
    let filled =
      fill_loop max_tokens rest (result ++ sentence) (result_tokens + candidate_tokens) in
    if ltb max_tokens (result_tokens + candidate_tokens) then (result, result_tokens) else filled

module _ {F : Type 0} ⦃fl : Float F⦄ where
  pub check_budget : ℕ → SystemPromptBudget F → PromptBudgetCheck
  check_budget used budget =
      let warn_at = fl.to_ℕ (fl.mul (fl.of_ℕ budget.max_tokens) budget.warn_threshold_pct) in
      if ltb budget.max_tokens used
      then exceeded used budget.max_tokens
      else if ltb warn_at used
      then warning used budget.max_tokens
      else within used budget.max_tokens

  pub check_system_prompt : Text → SystemPromptBudget F → PromptBudgetCheck
  check_system_prompt prompt budget = check_budget (estimate_tokens prompt) budget

pub truncate_to_budget : {F : Type 0} → Text → SystemPromptBudget F → Text × ℕ
truncate_to_budget prompt budget =
    let current = estimate_tokens prompt in
    let (result, result_tokens) = fill_loop budget.max_tokens (split_sentences prompt) [] 0 in
    if leb current budget.max_tokens then (prompt, 0) else (result, current - result_tokens)

pub record CompressedToolOutput : Type 0 where
  pub tool_name : String
  pub summary : Text
  pub full_output : Text
  pub original_tokens : ℕ
  pub summary_tokens : ℕ

pub record CurationResult : Type 0 where
  pub system_prompt : Text
  pub history_summary : Text
  pub retained_turns : List ConversationTurn
  pub compressed_tool_outputs : List CompressedToolOutput
  pub prompt_budget_check : PromptBudgetCheck
  pub tokens_saved : ℕ

pub record CurationPipeline (F : Type 0) : Type 0 where
  pub summarize : List ConversationTurn → CawResult Text
  pub history_config : HistorySummarizerConfig F
  pub compress : String → Text → ℕ → CawResult (Option CompressedToolOutput)
  pub prompt_budget : SystemPromptBudget F
  pub context_budget_tokens : ℕ
  pub truncate_on_exceed : Bool

abbrev pub name_of : Option String → String
name_of none = "unknown"
name_of (some name) = name

-- The outputs compressed so far, and the tokens saved.
pub record Compressing : Type 0 where
  pub outputs : List CompressedToolOutput
  pub tokens_saved : ℕ

abbrev pub add_output : Compressing → Option CompressedToolOutput → Compressing
add_output c none = c
add_output c (some o) = record {
  outputs = c.outputs ++ (o ∷ []);
  tokens_saved = c.tokens_saved + (o.original_tokens - o.summary_tokens);
}

module _ {F : Type 0} ⦃fl : Float F⦄ where
  pub compress_turn : CurationPipeline F → ConversationTurn → Compressing → CawResult Compressing
  compress_turn self turn c =
      if is_tool_output turn && not turn.metadata.inline_required
      then (self.compress (name_of turn.metadata.tool_name) turn.content turn.token_estimate
          >>= λ o. ok (add_output c o))
      else ok c

  pub compress_loop :
      CurationPipeline F → List ConversationTurn → Compressing → CawResult Compressing
  compress_loop self [] c = ok c
  compress_loop self (turn ∷ turns) c =
      compress_turn self turn c >>= λ next. compress_loop self turns next

  abbrev pub final_prompt : CurationPipeline F → Text → Text × ℕ
  final_prompt self prompt =
      if self.truncate_on_exceed && is_exceeded (check_system_prompt prompt self.prompt_budget)
      then truncate_to_budget prompt self.prompt_budget
      else (prompt, 0)

  -- The summary, and the tokens that it saves.
  abbrev pub summary_of : CurationPipeline F → List ConversationTurn → CawResult (Text × ℕ)
  summary_of self [] = ok ([], 0)
  summary_of self (t ∷ ts) = self.summarize (t ∷ ts) >>= λ summary.
      ok (summary, turn_tokens (t ∷ ts) - estimate_tokens summary)

  pub curate : CurationPipeline F → Text → List ConversationTurn → CawResult CurationResult
  curate self system_prompt turns =
      let (prompt, dropped) = final_prompt self system_prompt in
      let (old, retained) = partition_turns turns self.history_config self.context_budget_tokens in
      summary_of self old >>= λ s.
      compress_loop self retained (record { outputs = []; tokens_saved = dropped + s.1 }) >>= λ c.
      ok (record {
        system_prompt = prompt;
        history_summary = s.0;
        retained_turns = retained;
        compressed_tool_outputs = c.outputs;
        prompt_budget_check = check_system_prompt system_prompt self.prompt_budget;
        tokens_saved = c.tokens_saved;
      })
