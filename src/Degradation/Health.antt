-- ===== src/Degradation/Health.antt =====
-- How the health of a component moves between its states over a history of calls.
use opencaw.Prelude.{
  ℕ, ◌+◌, ◌≤◌, ◌<◌, ◌≡◌, refl, sym, ap, ◌∙◌, inl, inr, Bool, true, false, List, [], ◌∷◌, arith,
  length, Bool-cases,
}
use opencaw.Prelude.Float.{Float}
use opencaw.Degradation.{
  HealthStatus, healthy, degraded, down, ComponentHealth, ComponentHealthConfig, with_config,
  should_degrade, should_mark_down, has_recovered, reevaluate_from, count_call, record_call,
}

-- A call: its latency, and whether it succeeded.
abbrev pub Call : Type 0
Call = ℕ × Bool

-- How a call changes a count of successes in a row.
abbrev pub streak : Bool → ℕ → ℕ
streak true n = n + 1
streak false n = 0

streak_mono : (success : Bool) (m n : ℕ) → m ≤ n → streak success m ≤ streak success n
streak_mono true m n h = omega arith
streak_mono false m n h = omega arith

-- The successes since the last failure, the latest call first.
unfoldable pub latest_successes : List Call → ℕ
latest_successes [] = 0
latest_successes ((l, success) ∷ older) = streak success (latest_successes older)

-- The calls that failed.
unfoldable pub failures : List Call → ℕ
failures [] = 0
failures ((l, success) ∷ older) = elim success [
  | true ↦ failures older
  | false ↦ failures older + 1
]

-- How bad a state is.
abbrev pub severity : HealthStatus → ℕ
severity healthy = 0
severity degraded = 1
severity down = 2

module _ {F : Type 0} ⦃fl : Float F⦄ where
  -- The health after a history of calls, the latest first.
  unfoldable pub after_calls : ComponentHealthConfig F → List Call → ComponentHealth F
  after_calls config [] = with_config config
  after_calls config ((l, success) ∷ older) = record_call l success (after_calls config older)

  -- What seeing to the status does, after the counters of the call have changed.
  pub record IsSettled (old new : ComponentHealth F) : Type 0 where
    pub config : new.config ≡ old.config
    pub total : new.total_calls ≡ old.total_calls
    pub errors : new.error_count ≡ old.error_count
    pub worse : severity new.status ≤ severity old.status + 1
    pub better : severity old.status ≤ severity new.status + 1
    pub counted : new.consecutive_successes ≤ old.consecutive_successes
    pub earned :
        severity new.status < severity old.status
        → old.config.recovery_threshold ≤ old.consecutive_successes

  same-IsSettled : (self : ComponentHealth F) → IsSettled self self
  same-IsSettled self = record {
    config = refl;
    total = refl;
    errors = refl;
    worse = omega arith;
    better = omega arith;
    counted = omega arith;
    earned = λ l. absurd (omega arith);
  }

  change-IsSettled :
      (self : ComponentHealth F) (status : HealthStatus) (n : ℕ)
      → severity status ≤ severity self.status + 1
      → severity self.status ≤ severity status + 1
      → n ≤ self.consecutive_successes
      → (severity status < severity self.status
          → self.config.recovery_threshold ≤ self.consecutive_successes)
      → IsSettled self (record self { status = status; consecutive_successes = n })
  change-IsSettled self status n worse better counted earned = record {
    config = refl;
    total = refl;
    errors = refl;
    worse = worse;
    better = better;
    counted = counted;
    earned = earned;
  }

  reevaluate-IsSettled :
      (status : HealthStatus) (self : ComponentHealth F)
      → self.status ≡ status
      → IsSettled self (reevaluate_from status self)
  unfolding reevaluate_from
  reevaluate-IsSettled healthy self e =
      let at : severity self.status ≡ 0 = ap severity e in
      elim (Bool-cases (should_degrade self)) [
        | inl bad ↦ rw bad (
            change-IsSettled self degraded 0 (omega arith) (omega arith) (omega arith)
              (λ l. absurd (omega arith)))
        | inr fine ↦ rw fine (same-IsSettled self)
      ]
  reevaluate-IsSettled degraded self e =
      let at : severity self.status ≡ 1 = ap severity e in
      elim (Bool-cases (should_mark_down self)) [
        | inl bad ↦ rw bad (
            change-IsSettled self down self.consecutive_successes (omega arith) (omega arith)
              (omega arith) (λ l. absurd (omega arith)))
        | inr fine ↦ elim (Bool-cases (has_recovered self)) [
          | inl well ↦
              rw (fine, well)
                (change-IsSettled self healthy 0 (omega arith) (omega arith) (omega arith)
                  (λ l. ground arith))
          | inr ill ↦ rw (fine, ill) (same-IsSettled self)
        ]
      ]
  reevaluate-IsSettled down self e =
      let at : severity self.status ≡ 2 = ap severity e in
      elim (Bool-cases (has_recovered self)) [
        | inl well ↦ rw well (
            change-IsSettled self degraded 0 (omega arith) (omega arith) (omega arith)
              (λ l. ground arith))
        | inr ill ↦ rw ill (same-IsSettled self)
      ]

  -- The successes that the component counts toward recovery are among the latest in a row.
  -- The other counters are the numbers of calls and of failures.
  pub record IsCounted (config : ComponentHealthConfig F) (history : List Call)
      (self : ComponentHealth F) : Type 0 where
    pub same_config : self.config ≡ config
    pub total : self.total_calls ≡ length history
    pub errors : self.error_count ≡ failures history
    pub in_a_row : self.consecutive_successes ≤ latest_successes history

  count_call-successes :
      (l : ℕ) (success : Bool) (self : ComponentHealth F)
      → (count_call l success self).consecutive_successes
        ≡ streak success self.consecutive_successes
  count_call-successes l true self = refl
  count_call-successes l false self = refl

  record_call-IsSettled :
      (l : ℕ) (success : Bool) (self : ComponentHealth F)
      → IsSettled (count_call l success self) (record_call l success self)
  unfolding record_call
  record_call-IsSettled l success self =
      reevaluate-IsSettled self.status (count_call l success self) refl

  record_call-IsCounted :
      (config : ComponentHealthConfig F) (history : List Call) (l : ℕ) (success : Bool)
      (self : ComponentHealth F)
      → IsCounted config history self
      → IsCounted config ((l, success) ∷ history) (record_call l success self)
  unfolding latest_successes failures
  record_call-IsCounted config history l true self h =
      let s = record_call-IsSettled l true self in
      record {
        same_config = s.config ∙ h.same_config;
        total = s.total ∙ omega (arith, h.total);
        errors = s.errors ∙ h.errors;
        in_a_row = omega (arith, s.counted, h.in_a_row);
      }
  record_call-IsCounted config history l false self h =
      let s = record_call-IsSettled l false self in
      record {
        same_config = s.config ∙ h.same_config;
        total = s.total ∙ omega (arith, h.total);
        errors = s.errors ∙ omega (arith, h.errors);
        in_a_row = s.counted;
      }

  -- After any history of calls, the latest first, the counters of a component are the number of
  -- the calls and the number of those that failed, and it counts at most the successes since the
  -- last failure toward its recovery.
  pub after_calls-IsCounted :
      (config : ComponentHealthConfig F) (history : List Call)
      → IsCounted config history (after_calls config history)
  unfolding after_calls latest_successes failures
  after_calls-IsCounted config [] = record {
    same_config = refl;
    total = refl;
    errors = refl;
    in_a_row = omega arith;
  }
  after_calls-IsCounted config ((l, success) ∷ older) =
      record_call-IsCounted config older l success (after_calls config older)
        (after_calls-IsCounted config older)

  -- A call moves the state by at most one step, and to a better state only if at least
  -- `recovery_threshold` calls in a row, this one included, have succeeded.
  pub after_calls_recovery :
      (config : ComponentHealthConfig F) (l : ℕ) (success : Bool) (older : List Call)
      → (severity (after_calls config ((l, success) ∷ older)).status
          ≤ severity (after_calls config older).status + 1)
        × (severity (after_calls config older).status
            ≤ severity (after_calls config ((l, success) ∷ older)).status + 1)
        × (severity (after_calls config ((l, success) ∷ older)).status
              < severity (after_calls config older).status
            → config.recovery_threshold ≤ latest_successes ((l, success) ∷ older))
  unfolding after_calls latest_successes
  after_calls_recovery config l success older =
      let self = after_calls config older in
      let s = record_call-IsSettled l success self in
      let h = after_calls-IsCounted config older in
      let e : config.recovery_threshold ≡ self.config.recovery_threshold =
        ap (λ c. c.recovery_threshold) (sym h.same_config) in
      (
        s.worse,
        s.better,
        λ better. omega (
          arith,
          s.earned better,
          count_call-successes l success self,
          streak_mono success self.consecutive_successes (latest_successes older) h.in_a_row,
        ),
      )
