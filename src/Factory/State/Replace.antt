-- ===== src/Factory/State/Replace.antt =====
-- The end of a worker actor, `handle_supervisor_evt` of ractor/src/factory/factoryimpl.rs: the events
-- `ActorTerminated` and `ActorFailed`, which run the same code. The actor that is spawned in its
-- place, and its handle, are arguments; a spawn that fails ends the factory and is not modelled.
use ractor.Prelude.{ℕ, Bool, Option, none, some, is_some, if◌then◌else◌}
use ractor.Prelude.Map.{lookup, insert, remove}
use native.Mathlib.Decide.{ℕ_discrete}
use ractor.Factory.Job.{Clock}
use ractor.Factory.Effects.{Log, CastOutcome}
use ractor.Factory.Worker.{WorkerProperties, replace_worker, send_factory_ping}
use ractor.Factory.Queues.Contract.{Queue}
use ractor.Factory.Routing.Contract.{Router, get_worker, put_worker}
use ractor.Factory.State.{FactoryState, Outcome, done}
use ractor.Factory.State.Handle.{route_to_finished}

module _ {K M : Type 0} (dec : Discrete K) where
  -- The worker with its new actor, which is pinged where the dead man's switch is on.
  unfoldable pub with_new_actor :
      (ℕ → CastOutcome)
      → Clock
      → Bool
      → ℕ
      → ℕ
      → WorkerProperties K M
      → Log K M
      → WorkerProperties K M × Log K M
  with_new_actor cast c should_ping actor handle w log =
      let (w', log') = replace_worker dec cast c actor handle w log in
      if should_ping then send_factory_ping cast c w' log' else (w', log')

module _ {K M R Q : Type 0} (dec : Discrete K) where
  unfoldable pub replace_in_pool :
      (ℕ → CastOutcome)
      → Clock
      → ℕ
      → ℕ
      → ℕ
      → ℕ
      → WorkerProperties K M
      → FactoryState K M R Q
      → Log K M
      → FactoryState K M R Q × Log K M
  replace_in_pool cast c who actor handle wid w s log =
      let (w', log') = with_new_actor dec cast c (is_some s.dead_mans_switch) actor handle w log in
      (
        record s {
          pool = put_worker wid w' s.pool;
          worker_by_actor = insert ℕ_discrete actor w.wid (remove ℕ_discrete who s.worker_by_actor);
        },
        log',
      )

module _ {K M R Q : Type 0} (dec : Discrete K) (queues : Queue K M Q) (router : Router K M R) where
  unfoldable pub replace_found :
      (ℕ → CastOutcome)
      → Clock
      → ℕ
      → ℕ
      → ℕ
      → ℕ
      → Option (WorkerProperties K M)
      → FactoryState K M R Q
      → Log K M
      → Outcome (FactoryState K M R Q × Log K M)
  replace_found cast c who actor handle wid none s log = done (s, log)
  replace_found cast c who actor handle wid (some w) s log =
      let (s', log') = replace_in_pool dec cast c who actor handle wid w s log in
      route_to_finished queues router cast c w.wid s' log'

  unfoldable pub replace_indexed :
      (ℕ → CastOutcome)
      → Clock
      → ℕ
      → ℕ
      → ℕ
      → Option ℕ
      → FactoryState K M R Q
      → Log K M
      → Outcome (FactoryState K M R Q × Log K M)
  replace_indexed cast c who actor handle none s log = done (s, log)
  replace_indexed cast c who actor handle (some wid) s log =
      replace_found cast c who actor handle wid (get_worker wid s.pool) s log

  unfoldable pub worker_ended :
      (ℕ → CastOutcome)
      → Clock
      → ℕ
      → ℕ
      → ℕ
      → FactoryState K M R Q
      → Log K M
      → Outcome (FactoryState K M R Q × Log K M)
  worker_ended cast c who actor handle s log =
      replace_indexed cast c who actor handle (lookup ℕ_discrete who s.worker_by_actor) s log
