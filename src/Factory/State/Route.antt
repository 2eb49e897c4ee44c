-- ===== src/Factory/State/Route.antt =====
-- The loops of `try_route_next_active_job` (ractor/src/factory/factoryimpl.rs), on any queue and with any
-- router that keeps its word, do what is to be done with the list of the jobs that wait.
use ractor.Prelude.{
  ℕ, zero, suc, ◌<◌, ◌≡◌, refl, sym, ap, ◌∙◌, Option, none, some, List, [], ◌∷◌, arith, length,
  Bool-cases, inl, inr,
}
use ractor.Factory.Job.{Clock, Job, is_expired}
use ractor.Factory.Effects.{Log, CastOutcome}
use ractor.Factory.Queues.Contract.{Queue, Pops, front}
use ractor.Factory.Routing.Contract.{Router, RouteResult, Pool, handled, backlog, rate_limited}
use ractor.Factory.Routing.Targets.{NotBacklog, Targets}
use ractor.Factory.State.{
  FactoryState, Outcome, done, panicked, out_of_fuel, limit_job, expire_job, let_go, count_stat,
}
use ractor.Factory.State.Active.{
  drop_expired_head, head_is_expired, clean_head, after_route, route_popped, route_to_target,
  route_peeked, route_jobs, route_cleaned, try_route_next_active_job,
}
use ractor.Factory.State.Served.{
  Served, past_expired, served_as, served_by, serve_in_order, serve_active,
}
use ractor.Factory.State.Enqueue.{Returns}

module _ {K M Q : Type 0} (queues : Queue K M Q) where
  -- A queue of one job and more gives up that job.
  pop-front :
      (job : Job K M) (jobs : List (Job K M)) (q : Q)
      → queues.jobs q ≡ job ∷ jobs
      → (q' : Q) × (queues.pop_front q ≡ some (job, q')) × (queues.jobs q' ≡ jobs)
  pop-front job jobs q h = go (queues.pop_front q) refl (queues.pop_jobs q)
    where
      go :
          (o : Option (Job K M × Q))
          → queues.pop_front q ≡ o
          → Pops queues.jobs q o
          → (q' : Q) × (queues.pop_front q ≡ some (job, q')) × (queues.jobs q' ≡ jobs)
      go none e p = absurd (ground (arith, h, p))
      go (some (job', q')) e p =
          let same : job' ∷ queues.jobs q' ≡ job ∷ jobs = sym p ∙ h in
          (q', e ∙ ap (λ j. some (j, q')) (ground (arith, same)), ground (arith, same))

  len-list : (q : Q) (jobs : List (Job K M)) → queues.jobs q ≡ jobs → queues.len q ≡ length jobs
  len-list q jobs h = queues.len_jobs q ∙ ap length h

  peek-list : (q : Q) (jobs : List (Job K M)) → queues.jobs q ≡ jobs → queues.peek q ≡ front jobs
  peek-list q jobs h = queues.peek_jobs q ∙ ap front h

module _ {K M R Q : Type 0} (queues : Queue K M Q) (router : Router K M R) where
  -- The operation returns, with the jobs that are to wait, this router, pool and log, and nothing else
  -- has changed.
  abbrev pub Does :
      FactoryState K M R Q → Served K M R → Outcome (FactoryState K M R Q × Log K M) → Type 0
  Does s v o =
      Returns
        (λ r.
          (r.0 ≡ record s { queue = r.0.queue; router = v.routing; pool = v.workers })
          × (queues.jobs r.0.queue ≡ v.waiting)
          × (r.1 ≡ v.effects))
        o

  module _ (targets : Targets router) (cast : ℕ → CastOutcome) (c : Clock) (hint : Option ℕ) where
    after_route-Does :
        (next : FactoryState K M R Q → Log K M → Outcome (FactoryState K M R Q × Log K M))
        (served : R → Pool K M → Log K M → Served K M R) (jobs : List (Job K M))
        (s : FactoryState K M R Q) (q : Q) (result : RouteResult K M) (r : R) (pool : Pool K M)
        (log : Log K M)
        → queues.jobs q ≡ jobs
        → NotBacklog result
        → ((log' : Log K M)
            → Does s
                (served r pool log')
                (next (record s { router = r; queue = q; pool = pool }) log'))
        → Does s (served_as router cast c hint s served jobs (result, r, pool, log)) (
            after_route queues router next result
              (record s { router = r; queue = q; pool = pool })
              log)
    unfolding after_route served_as limit_job let_go count_stat
    after_route-Does next served jobs s q handled r pool log e h ih = (refl, e, refl)
    after_route-Does next served jobs s q (rate_limited job) r pool log e h ih =
        ih (limit_job job s log)
    after_route-Does next served jobs s q (backlog job) r pool log e h ih = absurd h

    route_to_target-Does :
        (next : FactoryState K M R Q → Log K M → Outcome (FactoryState K M R Q × Log K M))
        (served : R → Pool K M → Log K M → Served K M R) (job : Job K M) (jobs : List (Job K M))
        (s : FactoryState K M R Q) (target : Option ℕ) (r : R) (log : Log K M)
        → queues.jobs s.queue ≡ job ∷ jobs
        → ((wid : ℕ)
            → target ≡ some wid
            → NotBacklog (router.route_message cast c job s.pool_size (some wid) r s.pool log).0)
        → ((q : Q) (r' : R) (pool : Pool K M) (log' : Log K M)
            → queues.jobs q ≡ jobs
            → Does s
                (served r' pool log')
                (next (record s { router = r'; queue = q; pool = pool }) log'))
        → Does s
            (served_by router cast c hint s served job jobs target r s.pool log)
            (route_to_target queues router next cast c target (record s { router = r }) log)
    unfolding route_to_target served_by route_popped
    route_to_target-Does next served job jobs s none r log e kept ih = (refl, e, refl)
    route_to_target-Does next served job jobs s (some wid) r log e kept ih =
        let (q, popped, rest) = pop-front queues job jobs s.queue e in
        let out = router.route_message cast c job s.pool_size (some wid) r s.pool log in
        rw popped (
          after_route-Does next served jobs s q out.0 out.1 out.2 out.3 rest (kept wid refl)
            (λ log'. ih q out.1 out.2 log' rest))

    route_jobs-Does :
        (fuel : ℕ) (jobs : List (Job K M)) (s : FactoryState K M R Q) (log : Log K M)
        → queues.jobs s.queue ≡ jobs
        → length jobs < fuel
        → Does s
            (serve_in_order router cast c hint s jobs s.router s.pool log)
            (route_jobs queues router fuel cast c hint s log)
    unfolding route_jobs route_peeked serve_in_order served_by served_as limit_job count_stat let_go
    route_jobs-Does zero jobs s log e h = absurd (omega arith)
    route_jobs-Does (suc fuel) [] s log e h = rw (peek-list queues s.queue [] e) (refl, e, refl)
    route_jobs-Does (suc fuel) (job ∷ jobs) s log e h =
        rw (peek-list queues s.queue (job ∷ jobs) e) (
          route_to_target-Does (route_jobs queues router fuel cast c hint)
            (serve_in_order router cast c hint s jobs) job jobs s
            (router.choose_target_worker job s.pool_size hint s.pool s.router).0
            (router.choose_target_worker job s.pool_size hint s.pool s.router).1 log e
            (λ wid t. targets cast c job s.pool_size hint s.pool s.router log wid t)
            (λ q r pool log' e'.
              route_jobs-Does fuel jobs (record s { router = r; queue = q; pool = pool }) log' e'
                (omega arith)))

module _ {K M R Q : Type 0} (queues : Queue K M Q) where
  -- The loop ends with these jobs and this log, and nothing else has changed.
  abbrev Cleans :
      FactoryState K M R Q
      → List (Job K M) × Log K M
      → Outcome (FactoryState K M R Q × Log K M)
      → Type 0
  Cleans s v o =
      Returns
        (λ r. (r.0 ≡ record s { queue = r.0.queue }) × (queues.jobs r.0.queue ≡ v.0) × (r.1 ≡ v.1))
        o

  clean_head-Cleans :
      (fuel : ℕ) (jobs : List (Job K M)) (c : Clock) (s : FactoryState K M R Q) (log : Log K M)
      → queues.jobs s.queue ≡ jobs
      → length jobs < fuel
      → Cleans s (past_expired c s jobs log) (clean_head queues fuel c s log)
  unfolding clean_head head_is_expired drop_expired_head past_expired expire_job let_go count_stat
  clean_head-Cleans zero jobs c s log e h = absurd (omega arith)
  clean_head-Cleans (suc fuel) [] c s log e h = rw (peek-list queues s.queue [] e) (refl, e, refl)
  clean_head-Cleans (suc fuel) (job ∷ jobs) c s log e h =
      let (q, popped, rest) = pop-front queues job jobs s.queue e in
      elim (Bool-cases (is_expired c job)) [
        | inl x ↦
            rw (peek-list queues s.queue (job ∷ jobs) e, x, popped)
              (clean_head-Cleans fuel jobs c (record s { queue = q }) (expire_job job s log) rest
                (omega arith))
        | inr x ↦ rw (peek-list queues s.queue (job ∷ jobs) e, x) (refl, e, refl)
      ]

module _ {K M R Q : Type 0} (queues : Queue K M Q) (router : Router K M R) where
  route_cleaned-Does :
      (targets : Targets router) (cast : ℕ → CastOutcome) (c : Clock) (hint : Option ℕ)
      (s : FactoryState K M R Q) (v : List (Job K M) × Log K M)
      (o : Outcome (FactoryState K M R Q × Log K M))
      → Cleans queues s v o
      → Does queues router s
          (serve_in_order router cast c hint s v.0 s.router s.pool v.1)
          (route_cleaned queues router cast c hint o)
  unfolding route_cleaned serve_in_order served_by served_as limit_job count_stat let_go
  route_cleaned-Does targets cast c hint s v (done (t, log)) (same, left, logged) =
      let q : Q = t.queue in
      rw (same, logged)
        (route_jobs-Does queues router targets cast c hint (suc (queues.len q)) v.0
          (record s { queue = q }) v.1 left (omega (arith, len-list queues q v.0 left)))
  route_cleaned-Does targets cast c hint s v panicked h = h
  route_cleaned-Does targets cast c hint s v out_of_fuel h = h

  -- With a router that, once it has chosen a worker, routes the job to it, `try_route_next_active_job`
  -- returns: both of its loops end and its panic is not reached. The jobs that are left to wait, the
  -- router, the pool and what is told to the outside are those of `serve_active` on the list of the
  -- waiting jobs, and nothing else of the state changes.
  pub try_route_next_active_job-Does :
      (targets : Targets router) (cast : ℕ → CastOutcome) (c : Clock) (hint : Option ℕ)
      (s : FactoryState K M R Q) (log : Log K M)
      → Does queues router s
          (serve_active router cast c hint s (queues.jobs s.queue) log)
          (try_route_next_active_job queues router cast c hint s log)
  unfolding try_route_next_active_job serve_active
  try_route_next_active_job-Does targets cast c hint s log =
      route_cleaned-Does targets cast c hint s (past_expired c s (queues.jobs s.queue) log) _ (
        clean_head-Cleans queues (suc (queues.len s.queue)) (queues.jobs s.queue) c s log refl
          (omega (arith, queues.len_jobs s.queue)))
