-- ===== src/Factory/State/Received.antt =====
-- Whatever the factory is told (ractor/src/factory/factoryimpl.rs): a job that comes, one that is done, the
-- end of an actor, or another size of the pool.
use ractor.Prelude.{
  ℕ, zero, suc, min, ◌≡◌, ◌&&◌, Option, none, inl, inr, Bool-cases, ℕ_discrete, is_none, ltb, ◌==◌,
}
use ractor.Prelude.Map.{lookup}
use ractor.Factory.Job.{Clock, Job}
use ractor.Factory.Effects.{Log, CastOutcome}
use ractor.Factory.Queues.Contract.{Queue}
use ractor.Factory.Routing.Contract.{Router}
use ractor.Factory.Routing.Targets.{Targets}
use ractor.Factory.State.{FactoryState, Outcome, done, panicked, out_of_fuel}
use ractor.Factory.State.Enqueue.{Returns}
use ractor.Factory.State.Handle.{dispatch, worker_finished_job}
use ractor.Factory.State.Replace.{worker_ended}
use ractor.Factory.State.Grow.{
  adjust_pool, after_backlog_route, route_backlog, resize_pool, global_worker_pool_maximum,
}
use ractor.Factory.State.Grown.{Fresh, adjust_pool-Indexed}
use ractor.Factory.State.Dispatched.{Accepts}
use ractor.Factory.State.Placed.{Places}
use ractor.Factory.State.Sound.{Sound}
use ractor.Factory.State.Queued.{ReturnsSound}
use ractor.Factory.State.Steps.{
  try_route-Sound, worker_finished_job-Sound, worker_ended-Sound, dispatch-Sound,
}
use ractor.Factory.State.Validated.{adjust_pool-AllValid}

-- What the factory is told. The actors of a resized pool are as in `resize_pool`.
pub data FactoryEvent (K M : Type 0) : Type 0 where
  dispatched : Job K M → FactoryEvent K M
  finished : ℕ → K → FactoryEvent K M
  ended : ℕ → ℕ → ℕ → FactoryEvent K M
  resized : (ℕ → Option (ℕ × ℕ)) → ℕ → FactoryEvent K M

-- Actors that are spawned are new to the factory.
abbrev pub Admissible : {K M R Q : Type 0} → FactoryEvent K M → FactoryState K M R Q → Type 0
Admissible (dispatched job) s = Unit
Admissible (finished who key) s = Unit
Admissible (ended who actor handle) s = lookup ℕ_discrete actor s.worker_by_actor ≡ none
Admissible (resized spawned requested) s = Fresh spawned s.pool_size s

module _ {K M R Q : Type 0} (dec : Discrete K) (queues : Queue K M Q) (router : Router K M R) where
  unfoldable pub receive :
      (ℕ → CastOutcome)
      → Clock
      → FactoryEvent K M
      → FactoryState K M R Q
      → Log K M
      → Outcome (FactoryState K M R Q × Log K M)
  receive cast c (dispatched job) s log = dispatch queues router cast c job s log
  receive cast c (finished who key) s log =
      worker_finished_job dec queues router cast c who key s log
  receive cast c (ended who actor handle) s log =
      worker_ended dec queues router cast c who actor handle s log
  receive cast c (resized spawned requested) s log =
      resize_pool queues router cast c spawned requested s log

module _ {K M R Q : Type 0} (dec : Discrete K) (queues : Queue K M Q) (router : Router K M R)
    (targets : Targets router) (places : Places dec router) (cast : ℕ → CastOutcome)
    (c : Clock) where
  backlog_then :
      (next : FactoryState K M R Q → Log K M → Outcome (FactoryState K M R Q × Log K M))
      (o : Outcome (FactoryState K M R Q × Log K M))
      → ((s : FactoryState K M R Q) (log : Log K M) → Sound dec s → ReturnsSound dec (next s log))
      → ReturnsSound dec o
      → ReturnsSound dec (after_backlog_route queues router next o)
  unfolding after_backlog_route
  backlog_then next (done (s, log)) k h = k s log h
  backlog_then next panicked k h = h
  backlog_then next out_of_fuel k h = h

  route_backlog-Sound :
      (rounds : ℕ) (s : FactoryState K M R Q) (log : Log K M)
      → Sound dec s
      → ReturnsSound dec (route_backlog queues router rounds cast c s log)
  unfolding route_backlog
  route_backlog-Sound zero s log h = h
  route_backlog-Sound (suc rounds) s log h = elim (Bool-cases (is_none (queues.peek s.queue))) [
    | inl e ↦ rw e h
    | inr e ↦ rw e (
        backlog_then (route_backlog queues router rounds cast c) _ (route_backlog-Sound rounds)
          (try_route-Sound dec queues router targets places cast c none s log h))
  ]

  resize_pool-Sound :
      (spawned : ℕ → Option (ℕ × ℕ)) (requested : ℕ) (s : FactoryState K M R Q) (log : Log K M)
      → Fresh spawned s.pool_size s
      → Sound dec s
      → ReturnsSound dec (resize_pool queues router cast c spawned requested s log)
  unfolding resize_pool
  resize_pool-Sound spawned requested s log fresh h =
      let new_size : ℕ = min global_worker_pool_maximum requested in
      let adjusted = adjust_pool router cast c spawned new_size s log in
      let kept : Sound dec adjusted.1 = record {
        index = adjust_pool-Indexed router cast c spawned new_size s log fresh h.index;
        valid = adjust_pool-AllValid dec router cast c spawned new_size s log h.valid;
      } in
      elim (Bool-cases (requested == 0)) [
        | inl e ↦ rw e h
        | inr e ↦ elim (Bool-cases (adjusted.0 && ltb s.pool_size new_size)) [
          | inl grew ↦ rw (e, grew) (route_backlog-Sound new_size adjusted.1 adjusted.2 kept)
          | inr not_grew ↦ rw (e, not_grew) kept
        ]
      ]

  -- With a queue that takes any job, and a router that routes a job to the worker that it has chosen and
  -- changes at most one worker, who stays itself and valid: whatever the factory is told, a job that
  -- comes, one that is reported as done, the end of an actor or another size of the pool, and whichever
  -- spawns fail, as long as spawned actors are new to it, it returns without a panic. The index of
  -- actors then still agrees with the pool, each worker stands under its id, its pending-key index
  -- counts exactly the jobs that it holds, and at most one of them is active.
  pub receive-Sound :
      (event : FactoryEvent K M) (s : FactoryState K M R Q) (log : Log K M)
      → ((q : Q) → Accepts queues q)
      → Admissible event s
      → Sound dec s
      → Returns (λ r. Sound dec r.0) (receive dec queues router cast c event s log)
  unfolding receive
  receive-Sound (dispatched job) s log accepts a h =
      dispatch-Sound dec queues router targets places cast c job s log (accepts s.queue) h
  receive-Sound (finished who key) s log accepts a h =
      worker_finished_job-Sound dec queues router targets places cast c who key s log h
  receive-Sound (ended who actor handle) s log accepts a h =
      worker_ended-Sound dec queues router targets places cast c who actor handle s log a h
  receive-Sound (resized spawned requested) s log accepts a h =
      resize_pool-Sound spawned requested s log a h
