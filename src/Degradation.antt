-- ===== src/Degradation.antt =====
-- crates/caw-orchestrator/src/degradation.rs: the health of a component, the limit on the rate of
-- probes, and the operating tier that follows from them. A time is in seconds, a latency in
-- milliseconds; the clock's reading is an argument, as in `record_probe_at`.
pub mod Health
pub mod Recovery
pub mod Probes
pub mod Tier
pub mod Tests
use opencaw.Prelude.{
  ℕ, ◌+◌, ◌-◌, Bool, true, false, not, ◌&&◌, ◌||◌, List, [], ◌∷◌, ◌++◌, ltb, leb, ◌==◌,
  if◌then◌else◌, length,
}
use opencaw.Prelude.Float.{Float}

pub data OperatingTier : Type 0 where
  full_recall stubs_and_tools_only pass_through : OperatingTier

pub data HealthStatus : Type 0 where
  healthy degraded down : HealthStatus

pub record ComponentHealthConfig (F : Type 0) : Type 0 where
  pub latency_threshold_ms : ℕ
  pub error_rate_threshold : F
  pub recovery_threshold : ℕ
  pub min_calls_for_rate : ℕ

pub record ComponentHealth (F : Type 0) : Type 0 where
  pub status : HealthStatus
  pub error_count : ℕ
  pub total_calls : ℕ
  pub last_latency_ms : ℕ
  pub consecutive_successes : ℕ
  pub config : ComponentHealthConfig F

abbrev pub with_config : {F : Type 0} → ComponentHealthConfig F → ComponentHealth F
with_config config = record {
  status = healthy;
  error_count = 0;
  total_calls = 0;
  last_latency_ms = 0;
  consecutive_successes = 0;
  config = config;
}

module _ {F : Type 0} ⦃fl : Float F⦄ where
  abbrev pub error_rate : ComponentHealth F → F
  error_rate self =
      if self.total_calls == 0
      then fl.lit 0 1
      else fl.div (fl.of_ℕ self.error_count) (fl.of_ℕ self.total_calls)

  pub should_degrade : ComponentHealth F → Bool
  should_degrade self =
      ltb self.config.latency_threshold_ms self.last_latency_ms
      || (leb self.config.min_calls_for_rate self.total_calls
          && fl.lt self.config.error_rate_threshold (error_rate self))

  pub should_mark_down : ComponentHealth F → Bool
  should_mark_down self =
      leb self.config.min_calls_for_rate self.total_calls
      && fl.lt (fl.mul self.config.error_rate_threshold (fl.lit 2 1)) (error_rate self)
      && (self.consecutive_successes == 0)

  abbrev pub move_to : HealthStatus → ComponentHealth F → ComponentHealth F
  move_to status self = record self { status = status; consecutive_successes = 0 }

  abbrev pub has_recovered : ComponentHealth F → Bool
  has_recovered self = leb self.config.recovery_threshold self.consecutive_successes

  pub reevaluate_from : HealthStatus → ComponentHealth F → ComponentHealth F
  unfolding should_degrade should_mark_down
  reevaluate_from healthy self = if should_degrade self then move_to degraded self else self
  reevaluate_from degraded self =
      if should_mark_down self
      then record self { status = down }
      else if has_recovered self
      then move_to healthy self
      else self
  reevaluate_from down self = if has_recovered self then move_to degraded self else self

  -- The counters that a call changes, before the status is seen to.
  abbrev pub count_call : ℕ → Bool → ComponentHealth F → ComponentHealth F
  count_call latency_ms success self = record self {
    total_calls = self.total_calls + 1;
    last_latency_ms = latency_ms;
    error_count = if success then self.error_count else self.error_count + 1;
    consecutive_successes = if success then self.consecutive_successes + 1 else 0;
  }

  pub record_call : ℕ → Bool → ComponentHealth F → ComponentHealth F
  unfolding reevaluate_from
  record_call latency_ms success self =
      reevaluate_from self.status (count_call latency_ms success self)

pub record ProbeRateConfig : Type 0 where
  pub max_probes : ℕ
  pub window_secs : ℕ

pub record ProbeRateLimiter : Type 0 where
  pub recent_probes : List ℕ
  pub config : ProbeRateConfig

abbrev pub limiter_with_config : ProbeRateConfig → ProbeRateLimiter
limiter_with_config config = record { recent_probes = []; config = config }

-- The loop of `expire_old`.
pub expire_loop : ℕ → List ℕ → List ℕ
expire_loop cutoff [] = []
expire_loop cutoff (oldest ∷ rest) =
    let later = expire_loop cutoff rest in if ltb oldest cutoff then later else oldest ∷ rest

pub record_probe_at : ℕ → ProbeRateLimiter → ProbeRateLimiter
unfolding expire_loop
record_probe_at timestamp self = record self {
  recent_probes =
      expire_loop (timestamp - self.config.window_secs) (self.recent_probes ++ (timestamp ∷ []));
}

abbrev pub is_throttled : ProbeRateLimiter → Bool
is_throttled self = leb self.config.max_probes (length self.recent_probes)

pub record DegradationMonitor (F : Type 0) : Type 0 where
  pub embedding_health : ComponentHealth F
  pub summary_health : ComponentHealth F
  pub probe_rate : ProbeRateLimiter

-- `==` of the two enumerations.
abbrev pub status_eq : HealthStatus → HealthStatus → Bool
status_eq healthy healthy = true
status_eq degraded degraded = true
status_eq down down = true
status_eq _ _ = false

abbrev pub tier_eq : OperatingTier → OperatingTier → Bool
tier_eq full_recall full_recall = true
tier_eq stubs_and_tools_only stubs_and_tools_only = true
tier_eq pass_through pass_through = true
tier_eq _ _ = false

module _ {F : Type 0} ⦃fl : Float F⦄ where
  pub record_embedding_call : ℕ → Bool → DegradationMonitor F → DegradationMonitor F
  unfolding record_call
  record_embedding_call latency_ms success self = record self {
    embedding_health = record_call latency_ms success self.embedding_health;
  }

  pub record_summary_call : ℕ → Bool → DegradationMonitor F → DegradationMonitor F
  unfolding record_call
  record_summary_call latency_ms success self = record self {
    summary_health = record_call latency_ms success self.summary_health;
  }

pub monitor_probe_at : {F : Type 0} → ℕ → DegradationMonitor F → DegradationMonitor F
unfolding record_probe_at
monitor_probe_at timestamp self = record self {
  probe_rate = record_probe_at timestamp self.probe_rate;
}

pub effective_tier : {F : Type 0} → DegradationMonitor F → OperatingTier
effective_tier self =
    if status_eq self.summary_health.status down
    then pass_through
    else if not (status_eq self.embedding_health.status healthy) || is_throttled self.probe_rate
    then stubs_and_tools_only
    else full_recall

pub should_auto_recall : {F : Type 0} → DegradationMonitor F → Bool
unfolding effective_tier
should_auto_recall self = tier_eq (effective_tier self) full_recall

pub should_generate_stubs : {F : Type 0} → DegradationMonitor F → Bool
unfolding effective_tier
should_generate_stubs self = not (tier_eq (effective_tier self) pass_through)
