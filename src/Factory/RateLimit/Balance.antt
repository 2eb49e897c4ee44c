-- ===== src/Factory/RateLimit/Balance.antt =====
-- The balance and the deadlines of the leaky bucket (ractor/src/factory/ratelim.rs).
use ractor.Prelude.{
  ℕ, ◌+◌, ◌-◌, ◌*◌, ◌/◌, ◌%◌, ◌≤◌, ◌<◌, ◌≡◌, sym, ◌∙◌, ap, min, Option, some, arith,
}
use native.Mathlib.Nat.{div-add-mod, div-add-mod', mod-lt, mul-le-mul_right}
use ractor.Factory.RateLimit.Bucket.{
  LeakyBucketRateLimiter, new_bucket, tokens_since, into_period, refill_bucket, refresh_at, refresh,
  check, bump, usize_max, u128_max, nanos_per_second, u64_max,
}

-- The time since the last period fits its seconds and nanoseconds.
into_period-mod :
    (since : ℕ) (b : LeakyBucketRateLimiter)
    → 0 < b.interval
    → b.interval ≤ u64_max * nanos_per_second
    → into_period since b ≡ since % b.interval
unfolding into_period
into_period-mod since b pos fits =
    let small : since % b.interval < b.interval = mod-lt _ pos in omega arith

-- The periods that have ended by `now`, where `deadline` ends the first.
abbrev pub periods_by : ℕ → ℕ → ℕ → ℕ
periods_by now deadline interval = (now - deadline) / interval + 1

module _ (checked_add : ℕ → ℕ → Option ℕ) where
  -- The balance of a new bucket, whatever the initial balance asked for, is within the maximum, and
  -- stays so whatever calls follow.
  pub balance-le-max :
      (now refill interval max : ℕ) (initial : Option ℕ) (b : LeakyBucketRateLimiter)
      → b.balance ≤ b.max
      → ((new_bucket checked_add now refill interval max initial).balance ≤ max)
        × ((check checked_add now b).1.balance ≤ (check checked_add now b).1.max)
        × ((bump b).balance ≤ (bump b).max)
  unfolding new_bucket check refresh refresh_at refill_bucket bump
  balance-le-max now refill interval max initial b h = (omega arith, ground arith, ground arith)

  next_deadline :
      (now deadline interval : ℕ)
      → deadline ≤ now
      → 0 < interval
      → deadline + periods_by now deadline interval * interval
        ≡ now + (interval - (now - deadline) % interval)
  next_deadline now deadline interval due pos =
      let small : (now - deadline) % interval < interval = mod-lt _ pos in
      omega (arith, div-add-mod (now - deadline) interval, div-add-mod' (now - deadline) interval)

  pub refresh-refill :
      (now deadline : ℕ) (b : LeakyBucketRateLimiter)
      → b.deadline ≡ some deadline
      → deadline ≤ now
      → refresh checked_add now b ≡ refill_bucket checked_add now deadline b
  unfolding refresh refresh_at
  refresh-refill now deadline b e due = rw (e, refresh_at) (ground arith)

  refill_bucket-deadline :
      (now deadline : ℕ) (b : LeakyBucketRateLimiter)
      → 0 < b.interval
      → (refill_bucket checked_add now deadline b).deadline
        ≡ checked_add now (b.interval - into_period (now - deadline) b)
  unfolding refill_bucket
  refill_bucket-deadline now deadline b pos = ground arith

  refill_bucket-balance :
      (now deadline : ℕ) (b : LeakyBucketRateLimiter)
      → 0 < b.interval
      → (refill_bucket checked_add now deadline b).balance
        ≤ b.balance + periods_by now deadline b.interval * b.refill
  unfolding refill_bucket tokens_since
  refill_bucket-balance now deadline b pos =
      let p = (now - deadline) / b.interval + 1 in
      let clipped : min usize_max (min u128_max p) * b.refill ≤ p * b.refill =
        mul-le-mul_right b.refill (omega arith) in
      ground (arith, clipped)

  -- A bucket that is due moves its deadline by whole intervals, without drift, to the first that
  -- lies after `now`, however late the call is; the balance grows by at most a refill for each
  -- interval that has ended. The interval is positive and a representable duration, and the
  -- platform can represent instants up to one interval after `now`.
  pub refresh_due :
      (now deadline : ℕ) (b : LeakyBucketRateLimiter)
      → b.deadline ≡ some deadline
      → deadline ≤ now
      → 0 < b.interval
      → b.interval ≤ u64_max * nanos_per_second
      → ((x : ℕ) → x ≤ b.interval → checked_add now x ≡ some (now + x))
      → let p = periods_by now deadline b.interval in
        ((refresh checked_add now b).deadline ≡ some (deadline + p * b.interval))
        × (now < deadline + p * b.interval)
        × (deadline + p * b.interval ≤ now + b.interval)
        × ((refresh checked_add now b).balance ≤ b.balance + p * b.refill)
  refresh_due now deadline b e due pos fits add =
      let next = next_deadline now deadline b.interval due pos in
      let small : (now - deadline) % b.interval < b.interval = mod-lt _ pos in
      (
        ap LeakyBucketRateLimiter.deadline (refresh-refill now deadline b e due)
            ∙ refill_bucket-deadline now deadline b pos
            ∙ ap (λ r. checked_add now (b.interval - r))
                (into_period-mod (now - deadline) b pos fits)
            ∙ add (b.interval - (now - deadline) % b.interval) (omega arith)
            ∙ ap some (sym next),
        omega (arith, next),
        omega (arith, next),
        rw (refresh-refill now deadline b e due) (refill_bucket-balance now deadline b pos),
      )

  -- A bucket that is not due stays as it is.
  pub refresh_early :
      (now deadline : ℕ) (b : LeakyBucketRateLimiter)
      → b.deadline ≡ some deadline
      → now < deadline
      → refresh checked_add now b ≡ b
  unfolding refresh refresh_at
  refresh_early now deadline b e early = rw (e, refresh_at) (ground arith)

  pub refresh-shape :
      (now : ℕ) (b : LeakyBucketRateLimiter)
      → ((refresh checked_add now b).interval ≡ b.interval)
        × ((refresh checked_add now b).refill ≡ b.refill)
  unfolding refresh refresh_at refill_bucket
  refresh-shape now b = ground arith
