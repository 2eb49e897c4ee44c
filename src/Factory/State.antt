-- ===== src/Factory/State.antt =====
-- The state of the factory actor, `FactoryState` of ractor/src/factory/factoryimpl.rs, and what
-- it tells the outside of a job. An error of a worker's mailbox that is not `SendErr`, which ends the
-- factory with an error, is not an outcome of its operations here.
pub mod Backlog
pub mod Active
pub mod Handle
pub mod Enqueue
pub mod Served
pub mod Route
pub mod Dispatched
pub mod Replace
pub mod Index
pub mod Resize
pub mod Grow
pub mod Grown
pub mod Growth
pub mod Adjusted
pub mod Placed
pub mod Sound
pub mod Queued
pub mod Steps
pub mod Validated
pub mod Received
use Prim.Native.String.{String}
use ractor.Prelude.{
  ℕ, zero, suc, Bool, true, false, not, ◌&&◌, all, Option, none, some, List, [], ◌∷◌, ltb, leb,
  ◌==◌, if◌then◌else◌,
}
use ractor.Prelude.Map.{Map, values, remove}
use native.Mathlib.Decide.{ℕ_discrete}
use ractor.Factory.Job.{Clock, Job, JobOptions, is_expired, set_factory_time}
use ractor.Factory.Discard.{DiscardReason, DiscardMode, DiscardSettings, get_limit_and_mode}
use ractor.Factory.Effects.{Stat, Event, Log, CastOutcome, accept, reject, discard_job, record_stat}
use ractor.Factory.Worker.{WorkerProperties, is_available, is_working, worker_complete}
use ractor.Factory.Queues.Contract.{Queue}
use ractor.Factory.Routing.Contract.{
  Pool, Router, RouteResult, handled, backlog, rate_limited, get_worker, put_worker,
}
use ractor.Factory.Routing.Available.{worker_is_available}

pub data DrainState : Type 0 where
  not_draining draining drained : DrainState

-- The fields that the handling of jobs and of ended workers reads. The dead man's switch is the
-- detection timeout and whether stuck workers are killed.
pub record FactoryState (K M R Q : Type 0) : Type 0 where
  pub factory_name : String
  pub pool_size : ℕ
  pub pool : Pool K M
  pub worker_by_actor : Map ℕ ℕ
  pub stats : Option ℕ
  pub router : R
  pub queue : Q
  pub discard_handler : Option ℕ
  pub discard_settings : DiscardSettings
  pub drain_state : DrainState
  pub dead_mans_switch : Option (ℕ × Bool)

-- How an operation ends: it returns, it panics, or its fuel is used up.
pub data Outcome (A : Type 0) : Type 0 where
  done : A → Outcome A
  panicked : Outcome A
  out_of_fuel : Outcome A

unfoldable pub not_draining? : DrainState → Bool
not_draining? not_draining = true
not_draining? draining = false
not_draining? drained = false

module _ {K M R Q : Type 0} where
  -- What happens to a job that is let go for this reason; `stat` is reported first.
  unfoldable pub let_go : DiscardReason → Job K M → FactoryState K M R Q → Log K M → Log K M
  let_go reason job s log = discard_job s.discard_handler reason job log

  -- The statistics of a factory.
  unfoldable pub count_stat : Stat → FactoryState K M R Q → Log K M → Log K M
  count_stat stat s log = record_stat s.stats s.factory_name stat log

  -- A job that the limit refuses as the newest.
  unfoldable pub refuse_newest : Job K M → FactoryState K M R Q → Log K M → Log K M
  refuse_newest job s log =
      reject job (let_go DiscardReason.loadshed job s (count_stat Stat.job_discarded s log))

  -- A job whose time is up goes to the discard handler and back to its submitter.
  unfoldable pub expire_job : Job K M → FactoryState K M R Q → Log K M → Log K M
  expire_job job s log =
      reject job
        (let_go DiscardReason.ttl_expired job s (count_stat (Stat.job_ttl_expired 1) s log))

  unfoldable pub limit_job : Job K M → FactoryState K M R Q → Log K M → Log K M
  limit_job job s log =
      reject job (let_go DiscardReason.rate_limited job s (count_stat Stat.job_rate_limited s log))

  -- The job of a worker is done: what is counted, and the worker's next job.
  unfoldable pub count_completed : Option JobOptions → FactoryState K M R Q → Log K M → Log K M
  count_completed none s log = log
  count_completed (some options) s log = count_stat (Stat.job_completed options) s log

  unfoldable pub drop_worker :
      ℕ → WorkerProperties K M → FactoryState K M R Q → Log K M → FactoryState K M R Q × Log K M
  drop_worker who w s log = (
    record s {
      pool = remove ℕ_discrete who s.pool;
      worker_by_actor = remove ℕ_discrete w.actor s.worker_by_actor;
    },
    Event.stop w.actor ∷ log,
  )
