-- ===== src/Degradation/Tests.antt =====
-- Runs of the health of a component, of the limiter and of the monitor, with rates in hundredths.
use opencaw.Prelude.{
  ℕ, ◌≤◌, ◌<◌, ◌+◌, ◌*◌, ◌≡◌, ◌↔◌, refl, List, [], ◌∷◌, true, false, arith, length,
}
use opencaw.Prelude.Float.{hundredths}
use opencaw.Degradation.{
  ComponentHealth, ComponentHealthConfig, ProbeRateConfig, DegradationMonitor, degraded, down,
  with_config, limiter_with_config, record_call, is_throttled, should_degrade, should_mark_down,
  record_probe_at,
}
use opencaw.Degradation.Health.{
  Call, IsCounted, after_calls, severity, latest_successes, after_calls-IsCounted,
  after_calls_recovery,
}
use opencaw.Degradation.Recovery.{one_step, RecoversWithin, after_successes_healthy}
use opencaw.Degradation.Probes.{
  after_probes, in_window, cutoff_of, earliest_first, IsInOrder, after_probes_lem,
}

abbrev config : ComponentHealthConfig ℕ
config = record {
  latency_threshold_ms = 2000;
  error_rate_threshold = 30;
  recovery_threshold = 2;
  min_calls_for_rate = 4;
}

-- The latest first: a slow call, then failures until the component is down.
abbrev bad_calls : List Call
bad_calls = (9, false) ∷ (9, false) ∷ (9, false) ∷ (9, false) ∷ (3000, true) ∷ []

bad_calls_down : (after_calls config bad_calls).status ≡ down
unfolding after_calls record_call should_degrade should_mark_down
bad_calls_down = refl

-- A success more, then another one: one step better, not two.
recovering : (after_calls config ((9, true) ∷ (9, true) ∷ bad_calls)).status ≡ degraded
unfolding after_calls record_call should_degrade should_mark_down
recovering = refl

after_calls-IsCounted_example : IsCounted config bad_calls (after_calls config bad_calls)
after_calls-IsCounted_example = after_calls-IsCounted config bad_calls

after_calls_recovery_example :
    let older = (9, true) ∷ bad_calls in
    (severity (after_calls config ((9, true) ∷ older)).status
      ≤ severity (after_calls config older).status + 1)
    × (severity (after_calls config older).status
        ≤ severity (after_calls config ((9, true) ∷ older)).status + 1)
    × (severity (after_calls config ((9, true) ∷ older)).status
          < severity (after_calls config older).status
        → config.recovery_threshold ≤ latest_successes ((9, true) ∷ older))
after_calls_recovery_example = after_calls_recovery config 9 true ((9, true) ∷ bad_calls)

abbrev broken : ComponentHealth ℕ
broken = record {
  status = down;
  error_count = 4;
  total_calls = 5;
  last_latency_ms = 9;
  consecutive_successes = 0;
  config = config;
}

after_successes_healthy_example : RecoversWithin (2 * one_step broken) (9 ∷ 9 ∷ 9 ∷ 9 ∷ []) broken
after_successes_healthy_example = after_successes_healthy (9 ∷ 9 ∷ 9 ∷ 9 ∷ []) broken (omega arith)

abbrev rate : ProbeRateConfig
rate = record { max_probes = 2; window_secs = 10 }

-- The latest first.
abbrev probes : List ℕ
probes = 1012 ∷ 1003 ∷ 1000 ∷ []

probes-IsInOrder : IsInOrder probes
unfolding IsInOrder
probes-IsInOrder = ((omega arith, (omega arith, _)), ((omega arith, _), (_, _)))

probes_throttled : is_throttled (after_probes rate probes) ≡ true
unfolding after_probes record_probe_at
probes_throttled = refl

after_probes_lem_example :
    ((after_probes rate probes).recent_probes
      ≡ in_window (cutoff_of rate probes) (earliest_first probes))
    × ((is_throttled (after_probes rate probes) ≡ true)
        ↔ (rate.max_probes ≤ length (in_window (cutoff_of rate probes) (earliest_first probes))))
after_probes_lem_example = after_probes_lem rate probes probes-IsInOrder

abbrev monitor : DegradationMonitor ℕ
monitor = record {
  embedding_health = with_config config;
  summary_health = broken;
  probe_rate = limiter_with_config rate;
}
