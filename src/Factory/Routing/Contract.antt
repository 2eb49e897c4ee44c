-- ===== src/Factory/Routing/Contract.antt =====
-- The trait `Router` of ractor/src/factory/routing.rs, and the body of `route_message`, which its
-- implementations share word for word.
use ractor.Prelude.{ℕ, Bool, Option, none, some}
use ractor.Prelude.Map.{Map, lookup, insert}
use ractor.Factory.Job.{Clock, Job}
use ractor.Factory.Effects.{Log, CastOutcome}
use ractor.Factory.Worker.{WorkerProperties, enqueue_job}
use native.Mathlib.Decide.{ℕ_discrete}

pub data RouteResult (K M : Type 0) : Type 0 where
  handled : RouteResult K M
  backlog rate_limited : Job K M → RouteResult K M

-- The worker pool, by worker id.
abbrev pub Pool : Type 0 → Type 0 → Type 0
Pool K M = Map ℕ (WorkerProperties K M)

abbrev pub get_worker : {K M : Type 0} → ℕ → Pool K M → Option (WorkerProperties K M)
get_worker wid pool = lookup ℕ_discrete wid pool

abbrev pub put_worker : {K M : Type 0} → ℕ → WorkerProperties K M → Pool K M → Pool K M
put_worker wid w pool = insert ℕ_discrete wid w pool

-- `choose_target_worker` is given the job, the number of active workers, the hint and the pool.
pub record Router (K M R : Type 0) : Type 0 where
  pub choose_target_worker : Job K M → ℕ → Option ℕ → Pool K M → R → Option ℕ × R
  pub is_factory_queueing : R → Bool
  pub on_worker_availability_change : ℕ → Bool → R → R
  pub route_message :
      (ℕ → CastOutcome)
      → Clock
      → Job K M
      → ℕ
      → Option ℕ
      → R
      → Pool K M
      → Log K M
      → RouteResult K M × R × Pool K M × Log K M

module _ {K M R : Type 0} (dec : Discrete K) where
  unfoldable pub enqueue_at :
      (ℕ → CastOutcome)
      → Clock
      → Job K M
      → ℕ
      → Option (WorkerProperties K M)
      → R
      → Pool K M
      → Log K M
      → RouteResult K M × R × Pool K M × Log K M
  enqueue_at cast c job wid none r pool log = (backlog job, r, pool, log)
  enqueue_at cast c job wid (some w) r pool log =
      let (w', log') = enqueue_job dec cast c job w log in
      (handled, r, put_worker wid w' pool, log')

  unfoldable pub route_to :
      (ℕ → CastOutcome)
      → Clock
      → Job K M
      → Option ℕ
      → R
      → Pool K M
      → Log K M
      → RouteResult K M × R × Pool K M × Log K M
  route_to cast c job none r pool log = (backlog job, r, pool, log)
  route_to cast c job (some wid) r pool log =
      enqueue_at cast c job wid (get_worker wid pool) r pool log

  -- `route_message`: the chosen worker takes the job, or it is to be queued.
  unfoldable pub route_chosen :
      (Job K M → ℕ → Option ℕ → Pool K M → R → Option ℕ × R)
      → (ℕ → CastOutcome)
      → Clock
      → Job K M
      → ℕ
      → Option ℕ
      → R
      → Pool K M
      → Log K M
      → RouteResult K M × R × Pool K M × Log K M
  route_chosen choose cast c job pool_size hint r pool log =
      let (target, r') = choose job pool_size hint pool r in route_to cast c job target r' pool log
