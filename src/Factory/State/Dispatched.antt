-- ===== src/Factory/State/Dispatched.antt =====
-- What becomes of a job that comes to the factory: `dispatch` of ractor/src/factory/factoryimpl.rs.
use ractor.Prelude.{ℕ, ◌≡◌, Bool, true, false, none, is_some}
use ractor.Factory.Job.{Clock, Job}
use ractor.Factory.Discard.{DiscardReason, get_limit_and_mode}
use ractor.Factory.Effects.{Log, CastOutcome, reject}
use ractor.Factory.Queues.Contract.{Queue}
use ractor.Factory.Routing.Contract.{Router, RouteResult, handled, backlog, rate_limited}
use ractor.Factory.State.{FactoryState, limit_job, expire_job, let_go}
use ractor.Factory.State.Enqueue.{len_after}

module _ {K M Q : Type 0} (queues : Queue K M Q) where
  -- The queue takes any job.
  abbrev pub Accepts : Q → Type 0
  Accepts q = (job : Job K M) → is_some (queues.push_back job q) ≡ true

module _ {K M R Q : Type 0} (queues : Queue K M Q) where
  -- What the router's answer comes to: a job that is handled or over the rate limit leaves the state that
  -- the router left, and the queue grows by one that it gave back as the discard settings ask.
  abbrev pub Answered :
      FactoryState K M R Q → Log K M → RouteResult K M → FactoryState K M R Q × Log K M → Type 0
  Answered s log handled r = r ≡ (s, log)
  Answered s log (rate_limited job) r = r ≡ (s, limit_job job s log)
  Answered s log (backlog job) r =
      queues.len r.0.queue
      ≡ len_after (get_limit_and_mode s.discard_settings) (queues.is_job_discardable job.key)
          (queues.len s.queue)

module _ {K M R Q : Type 0} (queues : Queue K M Q) (router : Router K M R) where
  -- What becomes of a job, given whether its time is up and whether the factory takes jobs.
  abbrev pub Dispatched :
      (ℕ → CastOutcome)
      → Clock
      → Job K M
      → FactoryState K M R Q
      → Log K M
      → Bool
      → Bool
      → FactoryState K M R Q × Log K M
      → Type 0
  Dispatched cast c job s log true taking r = r ≡ (s, expire_job job s log)
  Dispatched cast c job s log false false r =
      r ≡ (s, reject job (let_go DiscardReason.shutdown job s log))
  Dispatched cast c job s log false true r =
      let out = router.route_message cast c job s.pool_size none s.router s.pool log in
      Answered queues (record s { router = out.1; pool = out.2 }) out.3 out.0 r
