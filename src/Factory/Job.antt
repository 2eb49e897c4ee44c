-- ===== src/Factory/Job.antt =====
-- Jobs, their options and the time-to-live timer: ractor/src/factory/job.rs. Times and durations
-- are nanoseconds; a `Clock` is one reading of the monotonic and of the wall clock.
pub mod Expiry
pub mod Wire
use ractor.Prelude.{ℕ, ◌-◌, Bool, false, ◌||◌, Option, none, some, ltb}
use mathlib.Core.Option

pub record Clock : Type 0 where
  pub instant : ℕ
  pub system : ℕ

pub record TtlTimer : Type 0 where
  pub started_at : ℕ
  pub remaining : ℕ
  pub already_expired : Bool

-- `TtlTimer::new`.
unfoldable pub start_timer : Clock → ℕ → TtlTimer
start_timer c remaining = record {
  started_at = c.instant;
  remaining = remaining;
  already_expired = false;
}

-- A submit time ahead of the wall clock counts as no time elapsed; the subtraction stops at 0.
unfoldable pub from_submit_time : Clock → ℕ → ℕ → TtlTimer
from_submit_time c submit_time ttl =
    let elapsed = c.system - submit_time in
    record { started_at = c.instant; remaining = ttl - elapsed; already_expired = ltb ttl elapsed }

unfoldable pub timer_is_expired : Clock → TtlTimer → Bool
timer_is_expired c t = t.already_expired || ltb t.remaining (c.instant - t.started_at)

-- A tracing span is an opaque number.
pub record JobOptions : Type 0 where
  pub submit_time : ℕ
  pub factory_time : ℕ
  pub worker_time : ℕ
  pub ttl : Option ℕ
  pub ttl_timer : Option TtlTimer
  pub span : Option ℕ

-- `JobOptions::new`, beside the span that the current context gives.
unfoldable pub new_options : Clock → Option ℕ → Option ℕ → JobOptions
new_options c span ttl = record {
  submit_time = c.system;
  factory_time = c.system;
  worker_time = c.system;
  ttl = ttl;
  ttl_timer = Option.map (start_timer c) ttl;
  span = span;
}

unfoldable pub reset_ttl_timer : Clock → JobOptions → JobOptions
reset_ttl_timer c o = record o {
  ttl_timer = Option.map (λ ttl. from_submit_time c o.submit_time ttl) o.ttl;
}

unfoldable pub set_ttl : Clock → Option ℕ → JobOptions → JobOptions
set_ttl c ttl o = reset_ttl_timer c (record o { ttl = ttl })

timer_expired? : Clock → Option TtlTimer → Bool
timer_expired? c none = false
timer_expired? c (some t) = timer_is_expired c t

-- The port by which the submitter waits for the verdict is a number.
pub record Job (K M : Type 0) : Type 0 where
  pub key : K
  pub msg : M
  pub options : JobOptions
  pub accepted : Option ℕ

module _ {K M : Type 0} where
  unfoldable pub with_options : K → M → JobOptions → Job K M
  with_options key message options = record {
    key = key;
    msg = message;
    options = options;
    accepted = none;
  }

  unfoldable pub is_expired : Clock → Job K M → Bool
  unfolding timer_expired?
  is_expired c job = timer_expired? c job.options.ttl_timer

  unfoldable pub set_factory_time : Clock → Job K M → Job K M
  set_factory_time c job = record job { options = record (job.options) { factory_time = c.system } }

  unfoldable pub set_worker_time : Clock → Job K M → Job K M
  set_worker_time c job = record job { options = record (job.options) { worker_time = c.system } }
