-- ===== src/Factory/State/Steps.antt =====
-- The factory's handling of a job that comes, one that is done, and the end of an actor
-- (ractor/src/factory/factoryimpl.rs) returns, and keeps the state sound.
use ractor.Prelude.{
  ℕ, ◌≡◌, refl, sym, subst, Bool, true, false, Option, none, some, arith, inl, inr, Bool-cases,
  Option-cases, ℕ_discrete,
}
use ractor.Prelude.Map.{lookup, lookup-insert}
use ractor.Factory.Job.{Clock, Job, is_expired, set_factory_time}
use ractor.Factory.Effects.{Log, CastOutcome, Stat}
use ractor.Factory.Worker.{
  WorkerProperties, worker_complete, send_factory_ping, is_working, is_available,
}
use ractor.Factory.Worker.Invariant.{IsValid, worker_complete-IsValid, replace_worker-IsValid}
use ractor.Factory.Queues.Contract.{Queue}
use ractor.Factory.Routing.Contract.{
  Router, RouteResult, handled, backlog, rate_limited, get_worker, put_worker,
}
use ractor.Factory.Routing.Available.{worker_is_available}
use ractor.Factory.Routing.Targets.{Targets}
use ractor.Factory.Routing.Holders.{lookup-AllValid, put_worker-AllValid, remove-AllValid}
use ractor.Factory.State.{
  FactoryState, Outcome, done, panicked, out_of_fuel, not_draining?, drop_worker, count_stat,
}
use ractor.Factory.State.Active.{try_route_next_active_job}
use ractor.Factory.State.Served.{serve_in_order, serve_active, past_expired}
use ractor.Factory.State.Enqueue.{Returns}
use ractor.Factory.State.Handle.{
  after_dispatch, dispatch, announce, announce_after, route_to_finished, after_completion,
  finish_at, worker_finished_job,
}
use ractor.Factory.State.Replace.{
  with_new_actor, replace_in_pool, replace_found, replace_indexed, worker_ended,
}
use ractor.Factory.State.Index.{drop_worker-Indexed, replace_in_pool-Indexed}
use ractor.Factory.State.Route.{try_route_next_active_job-Does}
use ractor.Factory.State.Dispatched.{Accepts}
use ractor.Factory.State.Placed.{Places, worker_complete-Is}
use ractor.Factory.State.Sound.{
  Sound, same-Sound, put_worker-Sound, Placed-Sound, serve_in_order-Sound,
}
use ractor.Factory.State.Queued.{ReturnsSound, maybe_enqueue-Sound}

Returns-map :
    {A : Type 0} {P P' : A → Type 0} (o : Outcome A)
    → ((a : A) → P a → P' a)
    → Returns P o
    → Returns P' o
Returns-map (done a) f h = f a h
Returns-map panicked f h = h
Returns-map out_of_fuel f h = h

module _ {K M : Type 0} (dec : Discrete K) where
  send_factory_ping-jobs :
      (cast : ℕ → CastOutcome) (c : Clock) (w : WorkerProperties K M) (log : Log K M)
      → let w' = (send_factory_ping cast c w log).0 in
        (w'.curr_jobs ≡ w.curr_jobs)
        × (w'.message_queue ≡ w.message_queue)
        × (w'.pending_key_counts ≡ w.pending_key_counts)
  unfolding send_factory_ping
  send_factory_ping-jobs cast c w log = ground arith

  pub send_factory_ping-IsValid :
      (cast : ℕ → CastOutcome) (c : Clock) (w : WorkerProperties K M) (log : Log K M)
      → IsValid dec w
      → IsValid dec (send_factory_ping cast c w log).0
  send_factory_ping-IsValid cast c w log v =
      let same = send_factory_ping-jobs cast c w log in
      record {
        counted = λ k. ground (arith, same.0, same.1, same.2, v.counted k);
        single = ground (arith, same.0, v.single);
      }

  with_new_actor-IsValid :
      (cast : ℕ → CastOutcome) (c : Clock) (ping : Bool) (actor handle : ℕ)
      (w : WorkerProperties K M) (log : Log K M)
      → IsValid dec w
      → IsValid dec (with_new_actor dec cast c ping actor handle w log).0
  unfolding with_new_actor
  with_new_actor-IsValid cast c true actor handle w log v =
      send_factory_ping-IsValid cast c _ _ (replace_worker-IsValid dec cast c actor handle w log v)
  with_new_actor-IsValid cast c false actor handle w log v =
      replace_worker-IsValid dec cast c actor handle w log v

module _ {K M R Q : Type 0} (dec : Discrete K) where
  drop_worker-Sound :
      (who : ℕ) (w : WorkerProperties K M) (s : FactoryState K M R Q) (log : Log K M)
      → Sound dec s
      → get_worker who s.pool ≡ some w
      → Sound dec (drop_worker who w s log).0
  unfolding drop_worker
  drop_worker-Sound who w s log h e = record {
    index = drop_worker-Indexed who w s log h.index e;
    valid = remove-AllValid dec who s.pool h.valid;
  }

  replace_in_pool-Sound :
      (cast : ℕ → CastOutcome) (c : Clock) (who actor handle wid : ℕ) (w : WorkerProperties K M)
      (s : FactoryState K M R Q) (log : Log K M)
      → Sound dec s
      → lookup ℕ_discrete who s.worker_by_actor ≡ some wid
      → get_worker wid s.pool ≡ some w
      → lookup ℕ_discrete actor s.worker_by_actor ≡ none
      → Sound dec (replace_in_pool dec cast c who actor handle wid w s log).0
  unfolding replace_in_pool
  replace_in_pool-Sound cast c who actor handle wid w s log h found e fresh = record {
    index = replace_in_pool-Indexed dec cast c who actor handle wid w s log h.index found e fresh;
    valid = put_worker-AllValid dec wid _ s.pool h.valid (
        with_new_actor-IsValid dec cast c _ actor handle w log
          (lookup-AllValid dec wid w s.pool h.valid e));
  }

module _ {K M R Q : Type 0} (dec : Discrete K) (queues : Queue K M Q) (router : Router K M R)
    (targets : Targets router) (places : Places dec router) (cast : ℕ → CastOutcome)
    (c : Clock) where
  pub try_route-Sound :
      (hint : Option ℕ) (s : FactoryState K M R Q) (log : Log K M)
      → Sound dec s
      → ReturnsSound dec (try_route_next_active_job queues router cast c hint s log)
  unfolding serve_active
  try_route-Sound hint s log h =
      let jobs = past_expired c s (queues.jobs s.queue) log in
      Returns-map (try_route_next_active_job queues router cast c hint s log)
        (λ r does.
          subst (λ t. Sound dec t) (sym does.0)
            (same-Sound dec
              (record s {
                pool = (serve_in_order router cast c hint s jobs.0 s.router s.pool jobs.1).workers;
              })
              _ refl refl
              (serve_in_order-Sound dec router places cast c hint s jobs.0 s.router s.pool jobs.1
                h)))
        (try_route_next_active_job-Does queues router targets cast c hint s log)

  announce-Sound :
      (who : ℕ) (s : FactoryState K M R Q) → Sound dec s → Sound dec (announce router who s)
  unfolding announce
  announce-Sound who s h = elim (Bool-cases (worker_is_available (get_worker who s.pool))) [
    | inl e ↦ rw e (same-Sound dec s _ refl refl h)
    | inr e ↦ rw e h
  ]

  route_to_finished-Sound :
      (who : ℕ) (s : FactoryState K M R Q) (log : Log K M)
      → Sound dec s
      → ReturnsSound dec (route_to_finished queues router cast c who s log)
  unfolding route_to_finished announce_after
  route_to_finished-Sound who s log h =
      go (try_route_next_active_job queues router cast c (some who) s log)
        (try_route-Sound (some who) s log h)
    where
      go :
          (o : Outcome (FactoryState K M R Q × Log K M))
          → ReturnsSound dec o
          → ReturnsSound dec (announce_after router who o)
      go (done (t, log')) k = announce-Sound who t k
      go panicked k = k
      go out_of_fuel k = k

  after_completion-Sound :
      (who : ℕ) (w : WorkerProperties K M) (s : FactoryState K M R Q) (log : Log K M)
      → Sound dec s
      → get_worker who s.pool ≡ some w
      → ReturnsSound dec (after_completion queues router cast c who w s log)
  unfolding after_completion is_working is_available drop_worker
  after_completion-Sound who w s log h e = elim (Bool-cases w.is_draining) [
    | inl d ↦ elim (Bool-cases (is_working w)) [
      | inl b ↦ rw (d, b) h
      | inr b ↦ rw (d, b) (drop_worker-Sound dec who w s log h e)
    ]
    | inr d ↦ rw d (route_to_finished-Sound who s log h)
  ]

  pub worker_finished_job-Sound :
      (who : ℕ) (key : K) (s : FactoryState K M R Q) (log : Log K M)
      → Sound dec s
      → ReturnsSound dec (worker_finished_job dec queues router cast c who key s log)
  unfolding worker_finished_job finish_at
  worker_finished_job-Sound who key s log h = elim (Option-cases (get_worker who s.pool)) [
    | inl e ↦ rw (e, finish_at) (route_to_finished-Sound who s log h)
    | inr (w, e) ↦
        let w' = (worker_complete dec cast c key w log).1 in
        rw (e, finish_at)
          (after_completion-Sound who w' (record s { pool = put_worker who w' s.pool }) _
            (put_worker-Sound dec who w w' s h e
              (worker_complete-Is dec w.actor w.wid cast c key w log (refl, refl))
              (worker_complete-IsValid dec cast c key w log
                (lookup-AllValid dec who w s.pool h.valid e)))
            (ground (arith, lookup-insert ℕ_discrete who who w' s.pool)))
  ]

  pub worker_ended-Sound :
      (who actor handle : ℕ) (s : FactoryState K M R Q) (log : Log K M)
      → lookup ℕ_discrete actor s.worker_by_actor ≡ none
      → Sound dec s
      → ReturnsSound dec (worker_ended dec queues router cast c who actor handle s log)
  unfolding worker_ended replace_indexed replace_found
  worker_ended-Sound who actor handle s log fresh h =
      elim (Option-cases (lookup ℕ_discrete who s.worker_by_actor)) [
        | inl e ↦ rw (e, replace_indexed) h
        | inr (wid, e) ↦ elim (Option-cases (get_worker wid s.pool)) [
          | inl e' ↦ rw (e, replace_indexed, e', replace_found) h
          | inr (w, e') ↦
              let r = replace_in_pool dec cast c who actor handle wid w s log in
              rw (e, replace_indexed, e', replace_found)
                (route_to_finished-Sound w.wid r.0 r.1
                  (replace_in_pool-Sound dec cast c who actor handle wid w s log h e e' fresh))
        ]
      ]

  pub dispatch-Sound :
      (new_job : Job K M) (s : FactoryState K M R Q) (log : Log K M)
      → Accepts queues s.queue
      → Sound dec s
      → ReturnsSound dec (dispatch queues router cast c new_job s log)
  unfolding dispatch after_dispatch
  dispatch-Sound new_job s log taken h =
      let job = set_factory_time c new_job in
      let log' = count_stat Stat.new_job s log in
      let out = router.route_message cast c job s.pool_size none s.router s.pool log' in
      let t : FactoryState K M R Q = record s { router = out.1; pool = out.2 } in
      elim (Bool-cases (is_expired c job)) [
        | inl e ↦ rw e h
        | inr e ↦ elim (Bool-cases (not_draining? s.drain_state)) [
          | inl d ↦
              rw (e, d)
                (answered out.0 t out.3 taken (
                  same-Sound dec (record s { pool = out.2 }) t refl refl
                    (Placed-Sound dec s out.2 h
                      (places cast c job s.pool_size none s.router s.pool log'))))
          | inr d ↦ rw (e, d) h
        ]
      ]
    where
      answered :
          (result : RouteResult K M) (t : FactoryState K M R Q) (log' : Log K M)
          → Accepts queues t.queue
          → Sound dec t
          → ReturnsSound dec (after_dispatch queues result t log')
      answered handled t log' taken' k = k
      answered (rate_limited job) t log' taken' k = k
      answered (backlog job) t log' taken' k = maybe_enqueue-Sound dec queues job t log' taken' k
