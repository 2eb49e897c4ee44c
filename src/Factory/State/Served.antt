-- ===== src/Factory/State/Served.antt =====
-- What `try_route_next_active_job` (ractor/src/factory/factoryimpl.rs) is to do with the jobs that wait,
-- in the order of service: a recursion on their list, without a queue's operations and without fuel.
use ractor.Prelude.{ℕ, Option, none, some, List, [], ◌∷◌, if◌then◌else◌}
use ractor.Factory.Job.{Clock, Job, is_expired}
use ractor.Factory.Effects.{Log, CastOutcome}
use ractor.Factory.Routing.Contract.{Pool, Router, RouteResult, handled, backlog, rate_limited}
use ractor.Factory.State.{FactoryState, expire_job, limit_job}

-- The jobs that are left to wait, and what else has changed.
pub record Served (K M R : Type 0) : Type 0 where
  pub waiting : List (Job K M)
  pub routing : R
  pub workers : Pool K M
  pub effects : Log K M

module _ {K M R Q : Type 0} (c : Clock) (s : FactoryState K M R Q) where
  -- The expired jobs at the front are let go.
  unfoldable pub past_expired : List (Job K M) → Log K M → List (Job K M) × Log K M
  past_expired [] log = ([], log)
  past_expired (job ∷ jobs) log =
      let rest : List (Job K M) × Log K M = past_expired jobs (expire_job job s log) in
      if is_expired c job then rest else (job ∷ jobs, log)

module _ {K M R Q : Type 0} (router : Router K M R) (cast : ℕ → CastOutcome) (c : Clock)
    (hint : Option ℕ) (s : FactoryState K M R Q) where
  -- A job that is routed is the last; one over the rate limit is let go, and the next has its turn.
  unfoldable pub served_as :
      (R → Pool K M → Log K M → Served K M R)
      → List (Job K M)
      → RouteResult K M × R × Pool K M × Log K M
      → Served K M R
  served_as next jobs (handled, r, pool, log) = record {
    waiting = jobs;
    routing = r;
    workers = pool;
    effects = log;
  }
  served_as next jobs (rate_limited job, r, pool, log) = next r pool (limit_job job s log)
  served_as next jobs (backlog job, r, pool, log) = record {
    waiting = job ∷ jobs;
    routing = r;
    workers = pool;
    effects = log;
  }

  -- The first job, given the router's choice for it; without one it waits on.
  unfoldable pub served_by :
      (R → Pool K M → Log K M → Served K M R)
      → Job K M
      → List (Job K M)
      → Option ℕ
      → R
      → Pool K M
      → Log K M
      → Served K M R
  served_by next job jobs none r pool log = record {
    waiting = job ∷ jobs;
    routing = r;
    workers = pool;
    effects = log;
  }
  served_by next job jobs (some wid) r pool log =
      served_as next jobs (router.route_message cast c job s.pool_size (some wid) r pool log)

  unfoldable pub serve_in_order : List (Job K M) → R → Pool K M → Log K M → Served K M R
  serve_in_order [] r pool log = record { waiting = []; routing = r; workers = pool; effects = log }
  serve_in_order (job ∷ jobs) r pool log =
      let (target, r') = router.choose_target_worker job s.pool_size hint pool r in
      served_by (serve_in_order jobs) job jobs target r' pool log

  -- First the expired jobs go, then the others are served.
  unfoldable pub serve_active : List (Job K M) → Log K M → Served K M R
  serve_active jobs log =
      let (jobs', log') = past_expired c s jobs log in serve_in_order jobs' s.router s.pool log'
