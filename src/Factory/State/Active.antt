-- ===== src/Factory/State/Active.antt =====
-- `try_route_next_active_job` of ractor/src/factory/factoryimpl.rs. Its loops take fuel.
use ractor.Prelude.{ℕ, zero, suc, Bool, false, Option, none, some, if◌then◌else◌}
use ractor.Factory.Job.{Clock, Job, is_expired}
use ractor.Factory.Effects.{Log, CastOutcome}
use ractor.Factory.Queues.Contract.{Queue}
use ractor.Factory.Routing.Contract.{Router, RouteResult, handled, backlog, rate_limited}
use ractor.Factory.State.{FactoryState, Outcome, done, panicked, out_of_fuel, expire_job, limit_job}

module _ {K M : Type 0} where
  unfoldable pub head_is_expired : Clock → Option (Job K M) → Bool
  head_is_expired c none = false
  head_is_expired c (some job) = is_expired c job

module _ {K M R Q : Type 0} where
  -- What follows from the pop of an expired job, `next` being the further rounds; where nothing is
  -- popped, the loop breaks.
  unfoldable pub drop_expired_head :
      (FactoryState K M R Q → Log K M → Outcome (FactoryState K M R Q × Log K M))
      → Option (Job K M × Q)
      → FactoryState K M R Q
      → Log K M
      → Outcome (FactoryState K M R Q × Log K M)
  drop_expired_head next none s log = done (s, log)
  drop_expired_head next (some (job, queue)) s log =
      next (record s { queue = queue }) (expire_job job s log)

module _ {K M R Q : Type 0} (queues : Queue K M Q) where
  -- The loop that cleans the head of the queue.
  unfoldable pub clean_head :
      ℕ → Clock → FactoryState K M R Q → Log K M → Outcome (FactoryState K M R Q × Log K M)
  clean_head zero c s log = out_of_fuel
  clean_head (suc fuel) c s log =
      let dropped : Outcome (FactoryState K M R Q × Log K M) =
        drop_expired_head (clean_head fuel c) (queues.pop_front s.queue) s log in
      if head_is_expired c (queues.peek s.queue) then dropped else done (s, log)

module _ {K M R Q : Type 0} (queues : Queue K M Q) (router : Router K M R) where
  -- What follows from the router's answer, `next` being the further rounds.
  unfoldable pub after_route :
      (FactoryState K M R Q → Log K M → Outcome (FactoryState K M R Q × Log K M))
      → RouteResult K M
      → FactoryState K M R Q
      → Log K M
      → Outcome (FactoryState K M R Q × Log K M)
  after_route next handled s log = done (s, log)
  after_route next (rate_limited job) s log = next s (limit_job job s log)
  after_route next (backlog job) s log = panicked

  unfoldable pub route_popped :
      (FactoryState K M R Q → Log K M → Outcome (FactoryState K M R Q × Log K M))
      → (ℕ → CastOutcome)
      → Clock
      → ℕ
      → Option (Job K M × Q)
      → FactoryState K M R Q
      → Log K M
      → Outcome (FactoryState K M R Q × Log K M)
  route_popped next cast c worker none s log = next s log
  route_popped next cast c worker (some (job, queue)) s log =
      let (result, r, pool, log') =
        router.route_message cast c job s.pool_size (some worker) s.router s.pool log in
      after_route next result (record s { router = r; queue = queue; pool = pool }) log'

  unfoldable pub route_to_target :
      (FactoryState K M R Q → Log K M → Outcome (FactoryState K M R Q × Log K M))
      → (ℕ → CastOutcome)
      → Clock
      → Option ℕ
      → FactoryState K M R Q
      → Log K M
      → Outcome (FactoryState K M R Q × Log K M)
  route_to_target next cast c none s log = done (s, log)
  route_to_target next cast c (some worker) s log =
      route_popped next cast c worker (queues.pop_front s.queue) s log

  unfoldable pub route_peeked :
      (FactoryState K M R Q → Log K M → Outcome (FactoryState K M R Q × Log K M))
      → (ℕ → CastOutcome)
      → Clock
      → Option ℕ
      → Option (Job K M)
      → FactoryState K M R Q
      → Log K M
      → Outcome (FactoryState K M R Q × Log K M)
  route_peeked next cast c hint none s log = done (s, log)
  route_peeked next cast c hint (some job) s log =
      let (target, r) = router.choose_target_worker job s.pool_size hint s.pool s.router in
      route_to_target next cast c target (record s { router = r }) log

  -- The loop that routes: a job that the rate limit turns away makes room for the next. The router
  -- may not give back a job as `Backlog` once it has chosen a worker.
  unfoldable pub route_jobs :
      ℕ
      → (ℕ → CastOutcome)
      → Clock
      → Option ℕ
      → FactoryState K M R Q
      → Log K M
      → Outcome (FactoryState K M R Q × Log K M)
  route_jobs zero cast c hint s log = out_of_fuel
  route_jobs (suc fuel) cast c hint s log =
      route_peeked (route_jobs fuel cast c hint) cast c hint (queues.peek s.queue) s log

  unfoldable pub route_cleaned :
      (ℕ → CastOutcome)
      → Clock
      → Option ℕ
      → Outcome (FactoryState K M R Q × Log K M)
      → Outcome (FactoryState K M R Q × Log K M)
  route_cleaned cast c hint (done (s, log)) =
      route_jobs (suc (queues.len s.queue)) cast c hint s log
  route_cleaned cast c hint panicked = panicked
  route_cleaned cast c hint out_of_fuel = out_of_fuel

  unfoldable pub try_route_next_active_job :
      (ℕ → CastOutcome)
      → Clock
      → Option ℕ
      → FactoryState K M R Q
      → Log K M
      → Outcome (FactoryState K M R Q × Log K M)
  try_route_next_active_job cast c hint s log =
      route_cleaned cast c hint (clean_head queues (suc (queues.len s.queue)) c s log)
