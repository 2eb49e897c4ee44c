-- ===== src/Factory/RateLimit/Bucket.antt =====
-- `LeakyBucketRateLimiter` of ractor/src/factory/ratelim.rs.
use ractor.Prelude.{
  ℕ, ◌+◌, ◌-◌, ◌*◌, ◌/◌, ◌%◌, ◌^◌, min, Bool, Option, none, some, if◌then◌else◌, ltb, ◌==◌, get_or,
}

abbrev pub usize_max : ℕ
usize_max = 2 ^ 64 - 1

abbrev pub u128_max : ℕ
u128_max = 2 ^ 128 - 1

abbrev pub u64_max : ℕ
u64_max = 2 ^ 64 - 1

abbrev pub u32_max : ℕ
u32_max = 2 ^ 32 - 1

-- `isize::MAX`.
abbrev pub max_lb_balance : ℕ
max_lb_balance = 2 ^ 63 - 1

abbrev pub nanos_per_second : ℕ
nanos_per_second = 1_000_000_000

pub record LeakyBucketRateLimiter : Type 0 where
  pub refill : ℕ
  pub interval : ℕ
  pub max : ℕ
  pub balance : ℕ
  pub deadline : Option ℕ

-- The periods that ended by `now`, in tokens.
unfoldable pub tokens_since : ℕ → LeakyBucketRateLimiter → ℕ
tokens_since since b =
    let periods = min usize_max (min u128_max (since / b.interval + 1)) in
    min (min usize_max (periods * b.refill)) max_lb_balance

-- `Duration::new` of the seconds and nanoseconds since the last period.
unfoldable pub into_period : ℕ → LeakyBucketRateLimiter → ℕ
into_period since b =
    let nanos = since % b.interval in
    min u64_max (nanos / nanos_per_second) * nanos_per_second
    + min u32_max (nanos % nanos_per_second)

module _ (checked_add : ℕ → ℕ → Option ℕ) where
  unfoldable pub new_bucket : ℕ → ℕ → ℕ → ℕ → Option ℕ → LeakyBucketRateLimiter
  new_bucket now refill interval max initial = record {
    refill = refill;
    interval = interval;
    max = max;
    balance = min (get_or initial max) max;
    deadline = checked_add now interval;
  }

  unfoldable pub refill_bucket : ℕ → ℕ → LeakyBucketRateLimiter → LeakyBucketRateLimiter
  refill_bucket now deadline b =
      let since = now - deadline in
      if b.interval == 0
      then record b {
        balance = min (min usize_max (b.balance + b.refill)) b.max;
        deadline = some now;
      }
      else record b {
        balance = min (min usize_max (b.balance + tokens_since since b)) b.max;
        deadline = checked_add now (b.interval - into_period since b);
      }

  unfoldable pub refresh_at : ℕ → Option ℕ → LeakyBucketRateLimiter → LeakyBucketRateLimiter
  refresh_at now none b = b
  refresh_at now (some deadline) b = if ltb now deadline then b else refill_bucket now deadline b

  unfoldable pub refresh : ℕ → LeakyBucketRateLimiter → LeakyBucketRateLimiter
  refresh now b = refresh_at now b.deadline b

  unfoldable pub check : ℕ → LeakyBucketRateLimiter → Bool × LeakyBucketRateLimiter
  check now b = let b' = refresh now b in (ltb 0 b'.balance, b')

unfoldable pub bump : LeakyBucketRateLimiter → LeakyBucketRateLimiter
bump b = if ltb 0 b.balance then record b { balance = b.balance - 1 } else b
