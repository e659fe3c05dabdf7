-- ===== src/Curation/Pipeline.antt =====
-- What a run of the pipeline returns.
use mathlib.Core.Path.{subst}
use opencaw.Prelude.{
  ℕ, ◌+◌, ◌-◌, ◌≡◌, ◌∙◌, ◌⊎◌, inl, inr, refl, sym, ap, true, false, List, [], ◌∷◌, ◌++◌, arith,
  sum_of, Bool-cases, length, ◌<◌, ◌≤◌, ltb,
}
use opencaw.Prelude.Float.{Float}
use opencaw.Core.{Text, ok}
use opencaw.Curation.Compressed.{bind_ok, value_or, saving, IsCompressed, compress_loop-IsLooped}
use opencaw.Curation.Partition.{partition_turns_lem}
use opencaw.Curation.Truncate.{
  word_count, estimate_tokens_lem, IsTruncated, truncate_to_budget-IsTruncated,
}
use opencaw.Curation.{
  PromptBudgetCheck, within, warning, exceeded, check_budget, turn_tokens, is_exceeded,
  estimate_tokens, ConversationTurn, CurationResult, CurationPipeline, compress_loop, final_prompt,
  summary_of, partition_turns, curate, check_system_prompt,
}

module _ {F : Type 0} ⦃fl : Float F⦄ (self : CurationPipeline F) where
  -- The prompt that is shown, and how many tokens were dropped from it.
  abbrev pub IsShown : Text → Text × ℕ → Type 0
  IsShown prompt shown =
      ((self.truncate_on_exceed ≡ true)
        × (self.prompt_budget.max_tokens < word_count prompt)
        × IsTruncated prompt self.prompt_budget shown)
      ⊎ (((self.truncate_on_exceed ≡ false) ⊎ (word_count prompt ≤ self.prompt_budget.max_tokens))
          × (shown ≡ (prompt, 0)))

  -- The budget check on a prompt of so many words.
  abbrev pub IsChecked : ℕ → PromptBudgetCheck → Type 0
  IsChecked used check =
      let limit = self.prompt_budget.max_tokens in
      let warn_at = fl.to_ℕ (fl.mul (fl.of_ℕ limit) self.prompt_budget.warn_threshold_pct) in
      ((limit < used) × (check ≡ exceeded used limit))
      ⊎ ((used ≤ limit) × (warn_at < used) × (check ≡ warning used limit))
      ⊎ ((used ≤ limit) × (used ≤ warn_at) × (check ≡ within used limit))

  -- The summary of the turns, if there are any, and the tokens that it saves.
  abbrev pub IsSummary : List ConversationTurn → Text × ℕ → Type 0
  IsSummary old (summary, saved) =
      ((old ≡ []) × (summary ≡ []) × (saved ≡ 0))
      ⊎ ((0 < length old)
          × (self.summarize old ≡ ok summary)
          × (saved ≡ sum_of (λ t. t.token_estimate) old - word_count summary))

  -- The older turns, and those that are retained.
  abbrev pub IsPartition :
      List ConversationTurn → List ConversationTurn → List ConversationTurn → Type 0
  IsPartition turns old retained =
      let config = self.history_config in
      let trigger =
        fl.to_ℕ (fl.mul (fl.of_ℕ self.context_budget_tokens) config.trigger_threshold_pct) in
      (old ++ retained ≡ turns)
      × (((old ≡ [])
            × ((sum_of (λ t. t.token_estimate) turns ≤ trigger)
                ⊎ (length turns ≤ config.retain_recent)))
          ⊎ ((length retained ≡ config.retain_recent)
              × (trigger < sum_of (λ t. t.token_estimate) turns)
              × (config.retain_recent < length turns)))

  check_budget-IsChecked : (used : ℕ) → IsChecked used (check_budget used self.prompt_budget)
  unfolding check_budget
  check_budget-IsChecked used =
      let limit = self.prompt_budget.max_tokens in
      let warn_at = fl.to_ℕ (fl.mul (fl.of_ℕ limit) self.prompt_budget.warn_threshold_pct) in
      elim (Bool-cases (ltb limit used)) [
        | inl e ↦ rw (check_budget, e) (inl (ground arith, refl))
        | inr e ↦ elim (Bool-cases (ltb warn_at used)) [
          | inl w ↦ rw (check_budget, e, w) (inr (inl (ground arith, ground arith, refl)))
          | inr w ↦ rw (check_budget, e, w) (inr (inr (ground arith, ground arith, refl)))
        ]
      ]

  check_system_prompt-IsChecked :
      (prompt : Text)
      → IsChecked (word_count prompt) (check_system_prompt prompt self.prompt_budget)
  unfolding check_system_prompt
  check_system_prompt-IsChecked prompt =
      subst (λ n. IsChecked n (check_budget (estimate_tokens prompt) self.prompt_budget))
        (estimate_tokens_lem prompt) (check_budget-IsChecked (estimate_tokens prompt))

  is_exceeded-lem :
      (used : ℕ) (check : PromptBudgetCheck)
      → IsChecked used check
      → ((is_exceeded check ≡ true) × (self.prompt_budget.max_tokens < used))
        ⊎ ((is_exceeded check ≡ false) × (used ≤ self.prompt_budget.max_tokens))
  is_exceeded-lem used check (inl (h, e)) = rw e (inl (refl, h))
  is_exceeded-lem used check (inr (inl (h, w, e))) = rw e (inr (refl, h))
  is_exceeded-lem used check (inr (inr (h, w, e))) = rw e (inr (refl, h))

  final_prompt-IsShown : (prompt : Text) → IsShown prompt (final_prompt self prompt)
  final_prompt-IsShown prompt = elim (Bool-cases self.truncate_on_exceed) [
    | inr off ↦ rw off (inr (inl refl, refl))
    | inl on ↦
        elim (is_exceeded-lem (word_count prompt) (check_system_prompt prompt self.prompt_budget)
          (check_system_prompt-IsChecked prompt)) [
            | inl (e, large) ↦
                rw (on, e)
                  (inl (refl, large, truncate_to_budget-IsTruncated prompt self.prompt_budget))
            | inr (e, small) ↦ rw (on, e) (inr (inr small, refl))
          ]
  ]

  summary_of-IsSummary :
      (old : List ConversationTurn) (s : Text × ℕ) → summary_of self old ≡ ok s → IsSummary old s
  summary_of-IsSummary [] s h =
      let same : ([], 0) ≡ s = ap (value_or s) h in
      subst (IsSummary []) same (inl (refl, refl, refl))
  summary_of-IsSummary (t ∷ ts) s h =
      let (summary, told, rest) =
        bind_ok (self.summarize (t ∷ ts))
          (λ summary. ok (summary, turn_tokens (t ∷ ts) - estimate_tokens summary)) s h in
      let same : (summary, turn_tokens (t ∷ ts) - estimate_tokens summary) ≡ s =
        ap (value_or s) rest in
      subst (IsSummary (t ∷ ts)) same
        (inr (omega arith, told, ap (λ n. turn_tokens (t ∷ ts) - n) (estimate_tokens_lem summary)))

  -- What a run of the pipeline that succeeds returns.
  pub record IsCurated (prompt : Text) (turns : List ConversationTurn) (r : CurationResult)
      : Type 0 where
    pub old : List ConversationTurn
    pub saved_by_summary : ℕ
    pub dropped : ℕ
    pub parts : IsPartition turns old r.retained_turns
    pub summary : IsSummary old (r.history_summary, saved_by_summary)
    pub shown : IsShown prompt (r.system_prompt, dropped)
    pub checked : IsChecked (word_count prompt) r.prompt_budget_check
    pub each : IsCompressed self r.retained_turns r.compressed_tool_outputs
    pub saved :
        r.tokens_saved ≡ dropped + saved_by_summary + sum_of saving r.compressed_tool_outputs

  -- If the pipeline returns a result, then the prompt is shown, truncated if that is asked for and
  -- its words are over the budget; the turns are the older ones, which are summarized, and those that
  -- are retained, all but a fixed number being older if the estimates exceed their part of the
  -- context; the budget check says how the words of the prompt compare with the budget; the compressed
  -- outputs are, in order, what the compressor makes of the retained tool outputs that need not be
  -- inline; and the tokens saved are those dropped from the prompt, those that the summary saves and
  -- those that each compression saves.
  pub curate-IsCurated :
      (prompt : Text) (turns : List ConversationTurn) (r : CurationResult)
      → curate self prompt turns ≡ ok r
      → IsCurated prompt turns r
  unfolding curate
  curate-IsCurated prompt turns r h =
      let parts = partition_turns turns self.history_config self.context_budget_tokens in
      let (s, summarized, h1) = bind_ok (summary_of self parts.0) _ r h in
      let (c, looped, h2) = bind_ok (compress_loop self parts.1 _) _ r h1 in
      let l = compress_loop-IsLooped self parts.1 _ c looped in
      let out : CurationResult = record {
        system_prompt = (final_prompt self prompt).0;
        history_summary = s.0;
        retained_turns = parts.1;
        compressed_tool_outputs = c.outputs;
        prompt_budget_check = check_system_prompt prompt self.prompt_budget;
        tokens_saved = c.tokens_saved;
      } in
      let same : out ≡ r = ap (value_or out) h2 in
      subst (IsCurated prompt turns) same (record {
        old = parts.0;
        saved_by_summary = s.1;
        dropped = (final_prompt self prompt).1;
        parts = partition_turns_lem turns self.history_config self.context_budget_tokens;
        summary = summary_of-IsSummary parts.0 s summarized;
        shown = final_prompt-IsShown prompt;
        checked = check_system_prompt-IsChecked prompt;
        each = subst (IsCompressed self parts.1) (sym l.outputs) l.each;
        saved =
            l.saved
            ∙ ap (λ os. (final_prompt self prompt).1 + s.1 + sum_of saving os) (sym l.outputs);
      })
