-- ===== src/Factory/State/Sound.antt =====
-- What the factory keeps whatever it is told (ractor/src/factory/factoryimpl.rs).
use ractor.Prelude.{
  ℕ, ◌≡◌, refl, sym, subst, Option, none, some, List, [], ◌∷◌, arith, inl, inr, ℕ_discrete,
}
use ractor.Prelude.Map.{lookup-insert}
use ractor.Factory.Job.{Clock, Job}
use ractor.Factory.Effects.{Log, CastOutcome}
use ractor.Factory.Worker.{WorkerProperties}
use ractor.Factory.Worker.Invariant.{IsValid}
use ractor.Factory.Routing.Contract.{
  Pool, Router, RouteResult, handled, backlog, rate_limited, get_worker, put_worker,
}
use ractor.Factory.Routing.Holders.{AllValid, lookup-AllValid, put_worker-AllValid}
use ractor.Factory.State.{FactoryState, limit_job}
use ractor.Factory.State.Served.{served_as, served_by, serve_in_order}
use ractor.Factory.State.Index.{Indexed, Is}
use ractor.Factory.State.Placed.{Placed, Places}

module _ {K M R Q : Type 0} (dec : Discrete K) where
  -- The index of actors agrees with the pool, and each worker's pending-key index with its jobs.
  pub record Sound (s : FactoryState K M R Q) : Type 0 where
    pub index : Indexed s
    pub valid : AllValid dec s.pool

  pub same-Sound :
      (s t : FactoryState K M R Q)
      → t.pool ≡ s.pool
      → t.worker_by_actor ≡ s.worker_by_actor
      → Sound s
      → Sound t
  same-Sound s t p q h = record {
    index = record {
      sound = λ a i e. ground (arith, p, q, h.index.sound a i);
      complete = λ a i e. ground (arith, p, q, h.index.complete a i);
      own_id = λ i w e. ground (arith, p, q, h.index.own_id i w);
    };
    valid = subst (λ x. AllValid dec x) (sym p) h.valid;
  }

  pub put_worker-Sound :
      (wid : ℕ) (w w' : WorkerProperties K M) (s : FactoryState K M R Q)
      → Sound s
      → get_worker wid s.pool ≡ some w
      → Is w.actor w.wid w'
      → IsValid dec w'
      → Sound (record s { pool = put_worker wid w' s.pool })
  put_worker-Sound wid w w' s h e is v = record {
    index = record {
      sound = λ a i f.
          ground (arith, is.0, e, lookup-insert ℕ_discrete wid i w' s.pool, h.index.sound a i);
      complete = λ a i f.
          ground (arith, is.0, e, lookup-insert ℕ_discrete wid i w' s.pool, h.index.complete a i);
      own_id = λ i u f. ground (
        arith,
        is.1,
        e,
        lookup-insert ℕ_discrete wid i w' s.pool,
        h.index.own_id i u,
        h.index.own_id wid w,
      );
    };
    valid = put_worker-AllValid dec wid w' s.pool h.valid v;
  }

  pub Placed-Sound :
      (s : FactoryState K M R Q) (pool : Pool K M)
      → Sound s
      → Placed dec s.pool pool
      → Sound (record s { pool = pool })
  Placed-Sound s pool h (inl e) = same-Sound s (record s { pool = pool }) e refl h
  Placed-Sound s pool h (inr (wid, w, w', e, after, is, kept)) =
      same-Sound (record s { pool = put_worker wid w' s.pool }) (record s { pool = pool }) after
        refl
        (put_worker-Sound wid w w' s h e is (kept (lookup-AllValid dec wid w s.pool h.valid e)))

module _ {K M R Q : Type 0} (dec : Discrete K) (router : Router K M R) (places : Places dec router)
    (cast : ℕ → CastOutcome) (c : Clock) (hint : Option ℕ) (s : FactoryState K M R Q) where
  pub serve_in_order-Sound :
      (jobs : List (Job K M)) (r : R) (pool : Pool K M) (log : Log K M)
      → Sound dec (record s { pool = pool })
      → Sound dec
          (record s { pool = (serve_in_order router cast c hint s jobs r pool log).workers })
  unfolding serve_in_order served_by served_as
  serve_in_order-Sound [] r pool log h = h
  serve_in_order-Sound (job ∷ jobs) r pool log h =
      let choice = router.choose_target_worker job s.pool_size hint pool r in
      chosen choice.0 choice.1 (λ r' pool' log' k. serve_in_order-Sound jobs r' pool' log' k)
    where
      answered :
          (result : RouteResult K M) (r' : R) (pool' : Pool K M) (log' : Log K M)
          → ((r'' : R) (pool'' : Pool K M) (log'' : Log K M)
              → Sound dec (record s { pool = pool'' })
              → Sound dec (record s {
                pool = (serve_in_order router cast c hint s jobs r'' pool'' log'').workers;
              }))
          → Sound dec (record s { pool = pool' })
          → Sound dec (record s {
            pool =
                (served_as router cast c hint s
                  (serve_in_order router cast c hint s jobs)
                  jobs
                  (result, r', pool', log')).workers;
          })
      answered handled r' pool' log' next k = k
      answered (rate_limited j) r' pool' log' next k = next r' pool' (limit_job j s log') k
      answered (backlog j) r' pool' log' next k = k

      chosen :
          (target : Option ℕ) (r' : R)
          → ((r'' : R) (pool'' : Pool K M) (log'' : Log K M)
              → Sound dec (record s { pool = pool'' })
              → Sound dec (record s {
                pool = (serve_in_order router cast c hint s jobs r'' pool'' log'').workers;
              }))
          → Sound dec (record s {
            pool =
                (served_by router cast c hint s
                  (serve_in_order router cast c hint s jobs)
                  job
                  jobs
                  target
                  r'
                  pool
                  log).workers;
          })
      chosen none r' next = h
      chosen (some wid) r' next =
          let out = router.route_message cast c job s.pool_size (some wid) r' pool log in
          answered out.0 out.1 out.2 out.3 next (
            Placed-Sound dec (record s { pool = pool }) out.2 h
              (places cast c job s.pool_size (some wid) r' pool log))
