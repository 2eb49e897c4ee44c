-- ===== src/Factory/Job/Expiry.antt =====
-- What the time-to-live timer of ractor/src/factory/job.rs measures.
use ractor.Prelude.{ℕ, ◌+◌, ◌-◌, ◌<◌, ◌≡◌, ◌↔◌, some, true, arith}
use ractor.Factory.Job.{
  Clock, Job, from_submit_time, timer_is_expired, set_ttl, reset_ttl_timer, is_expired,
}

-- A job whose timer was rebuilt at `start` from its submit time, as on the host that receives it,
-- is expired at `now` exactly when the wall time before `start` and the monotonic time since
-- exceed the TTL together. A submit time ahead of the wall clock counts as no time.
pub is_expired-set_ttl :
    {K M : Type 0} (start now : Clock) (ttl : ℕ) (job : Job K M)
    → (is_expired now (record job { options = set_ttl start (some ttl) (job.options) }) ≡ true)
      ↔ (ttl < (start.system - job.options.submit_time) + (now.instant - start.instant))
unfolding is_expired set_ttl reset_ttl_timer from_submit_time timer_is_expired
is_expired-set_ttl start now ttl job = ground arith
