-- ===== src/Factory/State/Grow.antt =====
-- `grow_pool`, `resize_pool` and `ping_workers` of ractor/src/factory/factoryimpl.rs. The actors that
-- are spawned are given by worker id, each with its handle, and none where the spawn fails.
use ractor.Prelude.{
  ℕ, zero, suc, ◌+◌, ◌-◌, min, Bool, true, false, not, ◌&&◌, Option, none, some, [], ◌∷◌,
  if◌then◌else◌, is_some, is_none, ltb, ◌==◌, ℕ_discrete,
}
use ractor.Prelude.Map.{insert}
use ractor.Factory.Job.{Clock}
use ractor.Factory.Discard.{WorkerDiscardSettings, get_worker_settings}
use ractor.Factory.Effects.{Log, CastOutcome}
use ractor.Factory.Worker.{
  WorkerProperties, new_worker, is_available, set_draining, send_factory_ping,
}
use ractor.Factory.Queues.Contract.{Queue}
use ractor.Factory.Routing.Contract.{Pool, Router, get_worker, put_worker}
use ractor.Factory.State.{FactoryState, Outcome, done, panicked, out_of_fuel}
use ractor.Factory.State.Active.{try_route_next_active_job}
use ractor.Factory.State.Resize.{shrink_pool}

abbrev pub global_worker_pool_maximum : ℕ
global_worker_pool_maximum = 1_000_000

module _ {K M : Type 0} where
  -- `ping_workers`.
  unfoldable pub ping_workers : (ℕ → CastOutcome) → Clock → Pool K M → Log K M → Pool K M × Log K M
  ping_workers cast c [] log = ([], log)
  ping_workers cast c ((wid, w) ∷ pool) log =
      let pinged : WorkerProperties K M × Log K M = send_factory_ping cast c w log in
      let rest : Pool K M × Log K M = ping_workers cast c pool pinged.1 in
      ((wid, pinged.0) ∷ rest.0, rest.1)

module _ {K M R Q : Type 0} where
  unfoldable pub ping_where_on :
      (ℕ → CastOutcome)
      → Clock
      → Bool
      → FactoryState K M R Q
      → Log K M
      → FactoryState K M R Q × Log K M
  ping_where_on cast c on s log =
      let pinged : Pool K M × Log K M = ping_workers cast c s.pool log in
      (record s { pool = if on then pinged.0 else s.pool }, if on then pinged.1 else log)

module _ {K M R Q : Type 0} (router : Router K M R) where
  -- A worker holds no queue of its own to limit where the factory queues.
  unfoldable pub new_worker_settings : FactoryState K M R Q → WorkerDiscardSettings
  new_worker_settings s =
      if router.is_factory_queueing s.router
      then WorkerDiscardSettings.unlimited
      else get_worker_settings s.discard_settings

  -- A worker that is there is healthy again; one that is not is spawned. False stands for `SpawnErr`.
  unfoldable pub grow_worker :
      Option (ℕ × ℕ)
      → ℕ
      → Option (WorkerProperties K M)
      → FactoryState K M R Q
      → Bool × FactoryState K M R Q
  grow_worker spawned wid (some w) s = (
    true,
    record s {
      pool = put_worker wid (set_draining false w) s.pool;
      router =
          if is_available (set_draining false w)
          then router.on_worker_availability_change wid true s.router
          else s.router;
    },
  )
  grow_worker none wid none s = (false, s)
  grow_worker (some (actor, handle)) wid none s = (
    true,
    record s {
      pool =
          put_worker wid
            (new_worker s.factory_name wid actor (new_worker_settings s) s.discard_handler handle
              s.stats)
            s.pool;
      worker_by_actor = insert ℕ_discrete actor wid s.worker_by_actor;
      router = router.on_worker_availability_change wid true s.router;
    },
  )

  -- The loop over `count` worker ids from `wid` on, up to the first spawn that fails.
  unfoldable pub grow_from :
      (ℕ → Option (ℕ × ℕ)) → ℕ → ℕ → FactoryState K M R Q → Bool × FactoryState K M R Q
  grow_from spawned zero wid s = (true, s)
  grow_from spawned (suc count) wid s =
      let one : Bool × FactoryState K M R Q =
        grow_worker (spawned wid) wid (get_worker wid s.pool) s in
      let rest : Bool × FactoryState K M R Q = grow_from spawned count (wid + 1) one.1 in
      if one.0 then rest else one

  unfoldable pub grow_pool :
      (ℕ → CastOutcome)
      → Clock
      → (ℕ → Option (ℕ × ℕ))
      → ℕ
      → FactoryState K M R Q
      → Log K M
      → Bool × FactoryState K M R Q × Log K M
  grow_pool cast c spawned to_add s log =
      let grown : Bool × FactoryState K M R Q = grow_from spawned to_add s.pool_size s in
      let on : Bool = if grown.0 then is_some s.dead_mans_switch else false in
      let pinged : FactoryState K M R Q × Log K M = ping_where_on cast c on grown.1 log in
      (grown.0, pinged.0, pinged.1)

  -- `resize_pool` up to the assignment of the pool's size; false stands for the error that ends it
  -- before.
  unfoldable pub adjust_pool :
      (ℕ → CastOutcome)
      → Clock
      → (ℕ → Option (ℕ × ℕ))
      → ℕ
      → FactoryState K M R Q
      → Log K M
      → Bool × FactoryState K M R Q × Log K M
  adjust_pool cast c spawned new_size s log =
      let grown : Bool × FactoryState K M R Q × Log K M =
        grow_pool cast c spawned (new_size - s.pool_size) s log in
      let shrunk : FactoryState K M R Q × Log K M =
        shrink_pool router (s.pool_size - new_size) s log in
      let growing : Bool = ltb s.pool_size new_size in
      let after : FactoryState K M R Q × Log K M =
        if growing
        then (grown.1, grown.2)
        else if ltb new_size s.pool_size
        then shrunk
        else (s, log) in
      (
        if growing then grown.0 else true,
        record (after.0) { pool_size = if growing && not grown.0 then s.pool_size else new_size },
        after.1,
      )

module _ {K M R Q : Type 0} (queues : Queue K M Q) (router : Router K M R) where
  -- The loop that gives waiting jobs to the new workers.
  unfoldable pub after_backlog_route :
      (FactoryState K M R Q → Log K M → Outcome (FactoryState K M R Q × Log K M))
      → Outcome (FactoryState K M R Q × Log K M)
      → Outcome (FactoryState K M R Q × Log K M)
  after_backlog_route next (done (s, log)) = next s log
  after_backlog_route next panicked = panicked
  after_backlog_route next out_of_fuel = out_of_fuel

  unfoldable pub route_backlog :
      ℕ
      → (ℕ → CastOutcome)
      → Clock
      → FactoryState K M R Q
      → Log K M
      → Outcome (FactoryState K M R Q × Log K M)
  route_backlog zero cast c s log = done (s, log)
  route_backlog (suc rounds) cast c s log =
      if is_none (queues.peek s.queue)
      then done (s, log)
      else after_backlog_route (route_backlog rounds cast c)
          (try_route_next_active_job queues router cast c none s log)

  unfoldable pub resize_pool :
      (ℕ → CastOutcome)
      → Clock
      → (ℕ → Option (ℕ × ℕ))
      → ℕ
      → FactoryState K M R Q
      → Log K M
      → Outcome (FactoryState K M R Q × Log K M)
  resize_pool cast c spawned requested s log =
      let new_size : ℕ = min global_worker_pool_maximum requested in
      let adjusted : Bool × FactoryState K M R Q × Log K M =
        adjust_pool router cast c spawned new_size s log in
      if requested == 0
      then done (s, log)
      else if adjusted.0 && ltb s.pool_size new_size
      then route_backlog new_size cast c adjusted.1 adjusted.2
      else done (adjusted.1, adjusted.2)
