-- ===== src/Curation/Partition.antt =====
-- What `partition_turns` summarizes and what it retains.
use opencaw.Prelude.{
  ℕ, ◌-◌, ◌≤◌, ◌<◌, ◌≡◌, ◌⊎◌, inl, inr, refl, List, [], ◌++◌, arith, leb, length, length-drop,
  take-append-drop, Bool-cases,
}
use opencaw.Prelude.Float.{Float}
use opencaw.Curation.{ConversationTurn, HistorySummarizerConfig, turn_tokens, partition_turns}

module _ {F : Type 0} ⦃fl : Float F⦄ where
  -- The turns to summarize are followed by those that are retained, and together they are all. The
  -- turns over the retained number are summarized if the estimates exceed the part of the context's
  -- budget that the configuration names, and else none is.
  pub partition_turns_lem :
      (turns : List ConversationTurn) (config : HistorySummarizerConfig F) (budget : ℕ)
      → let (old, retained) = partition_turns turns config budget in
        (old ++ retained ≡ turns)
        × (((old ≡ [])
              × ((turn_tokens turns
                    ≤ fl.to_ℕ (fl.mul (fl.of_ℕ budget) config.trigger_threshold_pct))
                  ⊎ (length turns ≤ config.retain_recent)))
            ⊎ ((length retained ≡ config.retain_recent)
                × (fl.to_ℕ (fl.mul (fl.of_ℕ budget) config.trigger_threshold_pct)
                    < turn_tokens turns)
                × (config.retain_recent < length turns)))
  unfolding partition_turns
  partition_turns_lem turns config budget =
      let threshold = fl.to_ℕ (fl.mul (fl.of_ℕ budget) config.trigger_threshold_pct) in
      let few = leb (length turns) config.retain_recent in
      let split_point = length turns - config.retain_recent in
      elim (Bool-cases (leb (turn_tokens turns) threshold)) [
        | inl cheap ↦ rw (partition_turns, cheap) (refl, inl (refl, inl (ground arith)))
        | inr costly ↦ elim (Bool-cases few) [
          | inl short ↦ rw (partition_turns, costly, short) (refl, inl (refl, inr (ground arith)))
          | inr long ↦
              rw (partition_turns, costly, long)
                (
                  take-append-drop split_point turns,
                  inr (ground (arith, length-drop split_point turns), ground arith, ground arith),
                )
        ]
      ]
