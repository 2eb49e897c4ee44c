-- ===== src/Factory/RateLimit/Limited.antt =====
-- `RateLimitedRouter` of ractor/src/factory/ratelim.rs: a router behind a rate limiter.
use ractor.Prelude.{ℕ, Bool, true, Option, none, some, if◌then◌else◌}
use ractor.Factory.Job.{Clock, Job}
use ractor.Factory.Effects.{Log, CastOutcome}
use ractor.Factory.Routing.Contract.{
  Pool, Router, RouteResult, handled, backlog, rate_limited, get_worker,
}
use ractor.Factory.Routing.Available.{worker_is_available}

-- The trait `RateLimiter`, whose `check` reads the clock.
pub record RateLimiter (L : Type 0) : Type 0 where
  pub check_limit : ℕ → L → Bool × L
  pub bump_limit : L → L

pub record RateLimitedRouter (R L : Type 0) : Type 0 where
  pub router : R
  pub rate_limiter : L

module _ {K M R L : Type 0} (inner : Router K M R) (limiter : RateLimiter L) where
  -- A hinted worker that is available becomes available again.
  unfoldable pub release_hint : Option ℕ → Pool K M → R → R
  release_hint none pool r = r
  release_hint (some wid) pool r =
      if worker_is_available (get_worker wid pool)
      then inner.on_worker_availability_change wid true r
      else r

  -- Only a message that was routed counts against the limit.
  unfoldable pub bump_handled : RouteResult K M → L → L
  bump_handled handled l = limiter.bump_limit l
  bump_handled (backlog job) l = l
  bump_handled (rate_limited job) l = l

  unfoldable pub limited_route_message :
      (ℕ → CastOutcome)
      → Clock
      → Job K M
      → ℕ
      → Option ℕ
      → RateLimitedRouter R L
      → Pool K M
      → Log K M
      → RouteResult K M × RateLimitedRouter R L × Pool K M × Log K M
  limited_route_message cast c job pool_size hint s pool log =
      let (allowed, l) = limiter.check_limit c.instant s.rate_limiter in
      let (result, r, pool', log') =
        inner.route_message cast c job pool_size hint s.router pool log in
      if allowed
      then (result, record { router = r; rate_limiter = bump_handled result l }, pool', log')
      else (
        rate_limited job,
        record { router = release_hint hint pool s.router; rate_limiter = l },
        pool,
        log,
      )

  unfoldable pub limited_choose :
      Job K M → ℕ → Option ℕ → Pool K M → RateLimitedRouter R L → Option ℕ × RateLimitedRouter R L
  limited_choose job pool_size hint pool s =
      let (target, r) = inner.choose_target_worker job pool_size hint pool s.router in
      (target, record s { router = r })

  unfoldable pub rate_limited_router : Router K M (RateLimitedRouter R L)
  rate_limited_router = record {
    choose_target_worker = limited_choose;
    is_factory_queueing = λ s. inner.is_factory_queueing s.router;
    on_worker_availability_change = λ wid available s. record s {
      router = inner.on_worker_availability_change wid available s.router;
    };
    route_message = limited_route_message;
  }
