-- ===== src/Degradation/Tier.antt =====
-- The operating tier that `DegradationMonitor` derives, and what a call to one component changes.
use opencaw.Prelude.{◌<◌, ◌≡◌, ◌≢◌, ◌↔◌, true, arith, length}
use opencaw.Degradation.{
  HealthStatus, healthy, degraded, down, DegradationMonitor, effective_tier, should_auto_recall,
  should_generate_stubs, status_eq,
}

status_eq_iff : (a b : HealthStatus) → (status_eq a b ≡ true) ↔ (a ≡ b)
status_eq_iff healthy healthy = ground arith
status_eq_iff healthy degraded = ground arith
status_eq_iff healthy down = ground arith
status_eq_iff degraded healthy = ground arith
status_eq_iff degraded degraded = ground arith
status_eq_iff degraded down = ground arith
status_eq_iff down healthy = ground arith
status_eq_iff down degraded = ground arith
status_eq_iff down down = ground arith

should_auto_recall_iff :
    {F : Type 0}
    → (self : DegradationMonitor F)
    → (should_auto_recall self ≡ true) ↔ (
        (self.embedding_health.status ≡ healthy)
        × (self.summary_health.status ≢ down)
        × (length self.probe_rate.recent_probes < self.probe_rate.config.max_probes))
unfolding should_auto_recall effective_tier
should_auto_recall_iff self = ground (
  arith,
  status_eq_iff self.embedding_health.status healthy,
  status_eq_iff self.summary_health.status down,
)

should_generate_stubs_iff :
    {F : Type 0}
    → (self : DegradationMonitor F)
    → (should_generate_stubs self ≡ true) ↔ (self.summary_health.status ≢ down)
unfolding should_generate_stubs effective_tier
should_generate_stubs_iff self = ground (arith, status_eq_iff self.summary_health.status down)

-- Recall runs by itself if and only if the embedding service is healthy, the summary service is
-- not down, and fewer than `max_probes` probes are remembered; stubs are generated if and only if
-- the summary service is not down.
pub effective_tier_iff :
    {F : Type 0}
    → (self : DegradationMonitor F)
    → ((should_auto_recall self ≡ true) ↔ (
        (self.embedding_health.status ≡ healthy)
        × (self.summary_health.status ≢ down)
        × (length self.probe_rate.recent_probes < self.probe_rate.config.max_probes)))
      × ((should_generate_stubs self ≡ true) ↔ (self.summary_health.status ≢ down))
effective_tier_iff self = (should_auto_recall_iff self, should_generate_stubs_iff self)
