-- ===== src/Degradation/Recovery.antt =====
-- A component that only succeeds recovers.
use opencaw.Prelude.{
  ℕ, suc, ◌+◌, ◌-◌, ◌*◌, ◌≤◌, ◌<◌, max, ◌≡◌, refl, ap, ◌⊎◌, inl, inr, true, false, List, [], ◌∷◌,
  arith, length, Bool-cases, take,
}
use opencaw.Prelude.Float.{Float}
use opencaw.Degradation.{
  HealthStatus, healthy, degraded, down, ComponentHealth, should_mark_down, has_recovered,
  reevaluate_from, count_call, record_call,
}

module _ {F : Type 0} ⦃fl : Float F⦄ where
  -- Calls that all succeed, with these latencies, the earliest first.
  unfoldable pub after_successes : List ℕ → ComponentHealth F → ComponentHealth F
  after_successes [] self = self
  after_successes (l ∷ ls) self = after_successes ls (record_call l true self)

  -- Successes that are still missing before the state gets better.
  abbrev pub missing : ComponentHealth F → ℕ
  missing self = max 1 (self.config.recovery_threshold - self.consecutive_successes)

  not_marked_down :
      (l : ℕ) (self : ComponentHealth F) → should_mark_down (count_call l true self) ≡ false
  unfolding should_mark_down
  not_marked_down l self = ground arith

  degraded_success :
      (l : ℕ) (self : ComponentHealth F)
      → self.status ≡ degraded
      → ((record_call l true self).status ≡ healthy)
        ⊎ (((record_call l true self).status ≡ degraded)
            × ((record_call l true self).config ≡ self.config)
            × (missing (record_call l true self) < missing self))
  unfolding record_call reevaluate_from
  degraded_success l self e = elim (Bool-cases (has_recovered (count_call l true self))) [
    | inl well ↦ inl (rw (e, not_marked_down l self, well) refl)
    | inr ill ↦ inr (rw (e, not_marked_down l self, ill) (refl, refl, ground arith))
  ]

  down_success :
      (l : ℕ) (self : ComponentHealth F)
      → self.status ≡ down
      → ((record_call l true self).config ≡ self.config)
        × (((record_call l true self).status ≡ degraded)
            ⊎ (((record_call l true self).status ≡ down)
                × (missing (record_call l true self) < missing self)))
  unfolding record_call reevaluate_from
  down_success l self e = elim (Bool-cases (has_recovered (count_call l true self))) [
    | inl well ↦ rw (e, well) (refl, inl refl)
    | inr ill ↦ rw (e, ill) (refl, inr (refl, ground arith))
  ]

  -- The successes that are enough for any component with this configuration to get one step better.
  abbrev pub one_step : ComponentHealth F → ℕ
  one_step self = max 1 self.config.recovery_threshold

  -- Within the first `n` of the successes the component is healthy.
  pub record RecoversWithin (n : ℕ) (ls : List ℕ) (self : ComponentHealth F) : Type 0 where
    pub calls : ℕ
    pub few : calls ≤ n
    pub healthy_then : (after_successes (take calls ls) self).status ≡ healthy

  one_more :
      (l : ℕ) (ls : List ℕ) (self : ComponentHealth F) (m n : ℕ)
      → m < n
      → RecoversWithin m ls (record_call l true self)
      → RecoversWithin n (l ∷ ls) self
  unfolding after_successes
  one_more l ls self m n h r = record {
    calls = suc r.calls;
    few = omega (arith, r.few);
    healthy_then = r.healthy_then;
  }

  from_degraded :
      (ls : List ℕ) (self : ComponentHealth F)
      → self.status ≡ degraded
      → missing self ≤ length ls
      → RecoversWithin (missing self) ls self
  unfolding after_successes
  from_degraded [] self e enough = absurd (omega arith)
  from_degraded (l ∷ ls) self e enough = elim (degraded_success l self e) [
    | inl well ↦ record { calls = 1; few = omega arith; healthy_then = well }
    | inr (still, same, less) ↦
        one_more l ls self _ (missing self) less
          (from_degraded ls (record_call l true self) still (omega arith))
  ]

  missing-le : (self : ComponentHealth F) → missing self ≤ one_step self
  missing-le self = omega arith

  from_down :
      (ls : List ℕ) (self : ComponentHealth F)
      → self.status ≡ down
      → missing self + one_step self ≤ length ls
      → RecoversWithin (missing self + one_step self) ls self
  from_down [] self e enough = absurd (omega arith)
  from_down (l ∷ ls) self e enough =
      let (same, moved) = down_success l self e in
      let step : one_step (record_call l true self) ≡ one_step self =
        ap (λ c. max 1 c.recovery_threshold) same in
      elim moved [
        | inl better ↦
            one_more l ls self _ _ (omega (arith, step, missing-le (record_call l true self))) (
              from_degraded ls (record_call l true self) better
                (omega (arith, step, missing-le (record_call l true self))))
        | inr (still, less) ↦
            one_more l ls self _ _ (omega (arith, step, less))
              (from_down ls (record_call l true self) still (omega (arith, step)))
      ]

  at_once :
      (n : ℕ) (ls : List ℕ) (self : ComponentHealth F)
      → self.status ≡ healthy
      → RecoversWithin n ls self
  unfolding after_successes
  at_once n ls self e = record { calls = 0; few = omega arith; healthy_then = e }

  at_most :
      (m n : ℕ) (ls : List ℕ) (self : ComponentHealth F)
      → m ≤ n
      → RecoversWithin m ls self
      → RecoversWithin n ls self
  at_most m n ls self l r = record {
    calls = r.calls;
    few = omega (arith, r.few);
    healthy_then = r.healthy_then;
  }

  recovers_from :
      (status : HealthStatus) (ls : List ℕ) (self : ComponentHealth F)
      → self.status ≡ status
      → 2 * one_step self ≤ length ls
      → RecoversWithin (2 * one_step self) ls self
  recovers_from healthy ls self e enough = at_once _ ls self e
  recovers_from degraded ls self e enough =
      at_most (missing self) _ ls self (omega arith) (from_degraded ls self e (omega arith))
  recovers_from down ls self e enough =
      at_most (missing self + one_step self) _ ls self (omega arith)
        (from_down ls self e (omega arith))

  -- A component in any state is healthy at some point within twice `recovery_threshold` calls
  -- (twice one, if the threshold is 0), if these calls succeed, whatever their latencies and
  -- whatever failed before.
  pub after_successes_healthy :
      (ls : List ℕ) (self : ComponentHealth F)
      → 2 * one_step self ≤ length ls
      → RecoversWithin (2 * one_step self) ls self
  after_successes_healthy ls self enough = recovers_from self.status ls self refl enough
