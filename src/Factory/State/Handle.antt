-- ===== src/Factory/State/Handle.antt =====
-- What the factory does with a job that arrives and with one that a worker has done: `dispatch`,
-- `worker_finished_job` and `is_drained` of ractor/src/factory/factoryimpl.rs.
use ractor.Prelude.{ℕ, Bool, true, false, ◌&&◌, all, Option, none, some, ◌==◌, if◌then◌else◌}
use ractor.Prelude.Map.{values}
use ractor.Factory.Job.{Clock, Job, is_expired, set_factory_time}
use ractor.Factory.Discard.{DiscardReason}
use ractor.Factory.Effects.{Stat, Log, CastOutcome, reject}
use ractor.Factory.Worker.{WorkerProperties, is_available, is_working, worker_complete}
use ractor.Factory.Queues.Contract.{Queue}
use ractor.Factory.Routing.Contract.{
  Router, RouteResult, handled, backlog, rate_limited, get_worker, put_worker,
}
use ractor.Factory.Routing.Available.{worker_is_available}
use ractor.Factory.State.{
  FactoryState, Outcome, done, panicked, out_of_fuel, let_go, count_stat, expire_job, limit_job,
  count_completed, drop_worker, not_draining?, not_draining, draining, drained,
}
use ractor.Factory.State.Backlog.{maybe_enqueue}
use ractor.Factory.State.Active.{try_route_next_active_job}

module _ {K M R Q : Type 0} (queues : Queue K M Q) where
  unfoldable pub after_dispatch :
      RouteResult K M → FactoryState K M R Q → Log K M → Outcome (FactoryState K M R Q × Log K M)
  after_dispatch handled s log = done (s, log)
  after_dispatch (rate_limited job) s log = done (s, limit_job job s log)
  after_dispatch (backlog job) s log = maybe_enqueue queues job s log

  -- Whether all is done that was taken on.
  unfoldable pub is_drained : FactoryState K M R Q → Bool × FactoryState K M R Q
  is_drained s = elim s.drain_state [
    | not_draining ↦ (false, s)
    | drained ↦ (true, s)
    | draining ↦
        if all (values s.pool) is_available && (queues.len s.queue == 0)
        then (true, record s { drain_state = drained })
        else (false, s)
  ]

module _ {K M R Q : Type 0} (router : Router K M R) where
  -- A worker that has become available is announced to the router.
  unfoldable pub announce : ℕ → FactoryState K M R Q → FactoryState K M R Q
  announce who s =
      if worker_is_available (get_worker who s.pool)
      then record s { router = router.on_worker_availability_change who true s.router }
      else s

  unfoldable pub announce_after :
      ℕ → Outcome (FactoryState K M R Q × Log K M) → Outcome (FactoryState K M R Q × Log K M)
  announce_after who (done (s, log)) = done (announce who s, log)
  announce_after who panicked = panicked
  announce_after who out_of_fuel = out_of_fuel

module _ {K M R Q : Type 0} (queues : Queue K M Q) (router : Router K M R) where
  unfoldable pub dispatch :
      (ℕ → CastOutcome)
      → Clock
      → Job K M
      → FactoryState K M R Q
      → Log K M
      → Outcome (FactoryState K M R Q × Log K M)
  dispatch cast c new_job s log =
      let job = set_factory_time c new_job in
      let log' = count_stat Stat.new_job s log in
      let (result, r, pool, log'') =
        router.route_message cast c job s.pool_size none s.router s.pool log' in
      if is_expired c job
      then done (s, expire_job job s log')
      else if not_draining? s.drain_state
      then after_dispatch queues result (record s { router = r; pool = pool }) log''
      else done (s, reject job (let_go DiscardReason.shutdown job s log'))

  unfoldable pub route_to_finished :
      (ℕ → CastOutcome)
      → Clock
      → ℕ
      → FactoryState K M R Q
      → Log K M
      → Outcome (FactoryState K M R Q × Log K M)
  route_to_finished cast c who s log =
      announce_after router who (try_route_next_active_job queues router cast c (some who) s log)

  -- A draining worker gets no further job, and is dropped once it is free.
  unfoldable pub after_completion :
      (ℕ → CastOutcome)
      → Clock
      → ℕ
      → WorkerProperties K M
      → FactoryState K M R Q
      → Log K M
      → Outcome (FactoryState K M R Q × Log K M)
  after_completion cast c who w s log =
      if w.is_draining
      then (if is_working w then done (s, log) else done (drop_worker who w s log))
      else route_to_finished cast c who s log

module _ {K M R Q : Type 0} (dec : Discrete K) (queues : Queue K M Q) (router : Router K M R) where
  unfoldable pub finish_at :
      (ℕ → CastOutcome)
      → Clock
      → ℕ
      → K
      → Option (WorkerProperties K M)
      → FactoryState K M R Q
      → Log K M
      → Outcome (FactoryState K M R Q × Log K M)
  finish_at cast c who key none s log = route_to_finished queues router cast c who s log
  finish_at cast c who key (some worker) s log =
      let (options, w, log') = worker_complete dec cast c key worker log in
      after_completion queues router cast c who w (record s { pool = put_worker who w s.pool })
        (count_completed options s log')

  unfoldable pub worker_finished_job :
      (ℕ → CastOutcome)
      → Clock
      → ℕ
      → K
      → FactoryState K M R Q
      → Log K M
      → Outcome (FactoryState K M R Q × Log K M)
  worker_finished_job cast c who key s log = finish_at cast c who key (get_worker who s.pool) s log
