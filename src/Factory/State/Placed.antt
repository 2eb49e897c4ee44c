-- ===== src/Factory/State/Placed.antt =====
-- What a router (ractor/src/factory/routing.rs) does to the pool: at most one worker takes a job, and
-- stays who it is.
use ractor.Prelude.{
  ℕ, zero, suc, ◌≡◌, refl, ltb, length, Option, none, some, Bool-cases, Option-cases, inl, inr, ◌⊎◌,
  is_empty,
}
use ractor.Prelude.Map.{lookup}
use ractor.Factory.Job.{Clock, Job}
use ractor.Factory.Discard.{DiscardMode, worker_limit_and_mode}
use ractor.Factory.Effects.{Log, CastOutcome}
use ractor.Factory.Worker.{
  WorkerProperties, drop_expired, untrack_pending_key, track_pending_key, get_next_non_expired_job,
  shed_job, shed_oldest, push_back, turns_away, dispatch_or_wait, enqueue_idle, enqueue_busy,
  enqueue_job, worker_complete,
}
use ractor.Factory.Worker.Fields.{next_job_rule}
use ractor.Factory.Worker.Invariant.{IsValid, enqueue_job-IsValid}
use ractor.Factory.Routing.Contract.{
  Pool, Router, get_worker, put_worker, route_chosen, route_to, enqueue_at,
}
use ractor.Factory.Routing.Persistent.{
  persistent_choose, key_persistent_routing, custom_choose, custom_routing,
}
use ractor.Factory.Routing.Queuer.{queuer_choose, queuer_routing}
use ractor.Factory.Routing.Sticky.{sticky_choose, sticky_queuer_routing}
use ractor.Factory.RateLimit.Limited.{RateLimiter, limited_route_message, rate_limited_router}
use ractor.Factory.State.Index.{Is, dispatch_job-Is, dispatch_next-Is}

module _ {K M : Type 0} (dec : Discrete K) (a i : ℕ) where
  next_job-Is :
      (c : Clock) (w : WorkerProperties K M) (log : Log K M)
      → Is a i w
      → Is a i (get_next_non_expired_job dec c w log).1
  unfolding drop_expired untrack_pending_key
  next_job-Is c w log h =
      next_job_rule dec c (λ q v. Is a i v) (λ n v. Is a i v) (λ v q. q) (λ job queue v live q. q)
        (λ job queue v q. q) w log h

  shed_job-Is :
      (next : Option (Job K M)) (w : WorkerProperties K M) (log : Log K M)
      → Is a i w
      → Is a i (shed_job dec next w log).0
  unfolding shed_job untrack_pending_key
  shed_job-Is none w log h = h
  shed_job-Is (some job) w log h = h

  shed_oldest-Is :
      (fuel : ℕ) (c : Clock) (limit : ℕ) (w : WorkerProperties K M) (log : Log K M)
      → Is a i w
      → Is a i (shed_oldest dec fuel c limit w log).0
  unfolding shed_oldest
  shed_oldest-Is zero c limit w log h = h
  shed_oldest-Is (suc fuel) c limit w log h =
      elim (Bool-cases (ltb limit (length w.message_queue))) [
        | inl e ↦ rw e (shed_oldest-Is fuel c limit _ _ (shed_job-Is _ _ _ (next_job-Is c w log h)))
        | inr e ↦ rw e h
      ]

  dispatch_or_wait-Is :
      (cast : ℕ → CastOutcome) (c : Clock) (job : Job K M) (next : Option (Job K M))
      (w : WorkerProperties K M) (log : Log K M)
      → Is a i w
      → Is a i (dispatch_or_wait dec cast c job next w log).0
  unfolding dispatch_or_wait push_back
  dispatch_or_wait-Is cast c job none w log h = dispatch_job-Is dec a i cast c job w log h
  dispatch_or_wait-Is cast c job (some older) w log h =
      dispatch_job-Is dec a i cast c older (push_back dec job w) log h

  enqueue_busy-Is :
      (c : Clock) (job : Job K M) (mode : Option (ℕ × DiscardMode)) (w : WorkerProperties K M)
      (log : Log K M)
      → Is a i w
      → Is a i (enqueue_busy dec c job mode w log).0
  unfolding enqueue_busy push_back
  enqueue_busy-Is c job (some (limit, DiscardMode.oldest)) w log h =
      shed_oldest-Is _ c limit (push_back dec job w) log h
  enqueue_busy-Is c job (some (limit, DiscardMode.newest)) w log h = h
  enqueue_busy-Is c job none w log h = h

  pub enqueue_job-Is :
      (cast : ℕ → CastOutcome) (c : Clock) (job : Job K M) (w : WorkerProperties K M)
      (log : Log K M)
      → Is a i w
      → Is a i (enqueue_job dec cast c job w log).0
  unfolding enqueue_job track_pending_key enqueue_idle
  enqueue_job-Is cast c job w log h =
      elim (Bool-cases (turns_away dec (worker_limit_and_mode w.discard_settings) w)) [
        | inl e ↦ rw e h
        | inr e ↦ rw e (elim (Bool-cases (is_empty w.curr_jobs)) [
          | inl idle ↦ rw idle (dispatch_or_wait-Is cast c _ _ _ _ (next_job-Is c _ _ h))
          | inr busy ↦ rw busy (enqueue_busy-Is c _ _ _ _ h)
        ])
      ]

  pub worker_complete-Is :
      (cast : ℕ → CastOutcome) (c : Clock) (key : K) (w : WorkerProperties K M) (log : Log K M)
      → Is a i w
      → Is a i (worker_complete dec cast c key w log).1
  unfolding worker_complete untrack_pending_key
  worker_complete-Is cast c key w log h = elim (Option-cases (lookup dec key w.curr_jobs)) [
    | inl e ↦ rw (e, worker_complete) h
    | inr (o, e) ↦ rw (e, worker_complete) (dispatch_next-Is dec a i cast c _ log h)
  ]

module _ {K M : Type 0} (dec : Discrete K) where
  -- The pool is as it was, or one of its workers is another state of itself, valid if it was.
  abbrev pub Placed : Pool K M → Pool K M → Type 0
  Placed pool after =
      (after ≡ pool)
      ⊎ ((wid : ℕ) × (w : WorkerProperties K M) × (w' : WorkerProperties K M) × (get_worker wid pool
            ≡ some w)
          × (after ≡ put_worker wid w' pool)
          × Is w.actor w.wid w'
          × (IsValid dec w → IsValid dec w'))

  enqueue_at-Placed :
      {R : Type 0} (cast : ℕ → CastOutcome) (c : Clock) (job : Job K M) (wid : ℕ) (r : R)
      (pool : Pool K M) (log : Log K M)
      → Placed pool (enqueue_at dec cast c job wid (get_worker wid pool) r pool log).2
  unfolding enqueue_at
  enqueue_at-Placed cast c job wid r pool log = elim (Option-cases (get_worker wid pool)) [
    | inl e ↦ rw (e, enqueue_at) (inl refl)
    | inr (w, e) ↦
        rw (e, enqueue_at)
          (inr (
            wid,
            w,
            (enqueue_job dec cast c job w log).0,
            e,
            refl,
            enqueue_job-Is dec w.actor w.wid cast c job w log (refl, refl),
            enqueue_job-IsValid dec cast c job w log,
          ))
  ]

  -- A router that routes so.
  abbrev pub Places : {R : Type 0} → Router K M R → Type 0
  Places {R} router =
      (cast : ℕ → CastOutcome) (c : Clock) (job : Job K M) (pool_size : ℕ) (hint : Option ℕ) (r : R)
      (pool : Pool K M) (log : Log K M)
      → Placed pool (router.route_message cast c job pool_size hint r pool log).2

  pub route_chosen-Placed :
      (R : Type 0) (choose : Job K M → ℕ → Option ℕ → Pool K M → R → Option ℕ × R)
      (cast : ℕ → CastOutcome) (c : Clock) (job : Job K M) (pool_size : ℕ) (hint : Option ℕ) (r : R)
      (pool : Pool K M) (log : Log K M)
      → Placed pool (route_chosen dec choose cast c job pool_size hint r pool log).2
  unfolding route_chosen route_to
  route_chosen-Placed R choose cast c job pool_size hint r pool log =
      go (choose job pool_size hint pool r).0 (choose job pool_size hint pool r).1
    where
      go : (target : Option ℕ) (r' : R) → Placed pool (route_to dec cast c job target r' pool log).2
      go none r' = inl refl
      go (some wid) r' = enqueue_at-Placed cast c job wid r' pool log

-- The routers of routing.rs route so, and a rate limiter (ratelim.rs) before one of them keeps it so.
module _ {K M : Type 0} (dec : Discrete K) where
  key_persistent_routing-Placed :
      (hash : K → ℕ) → Places {M = M} dec (key_persistent_routing dec hash)
  unfolding key_persistent_routing
  key_persistent_routing-Placed hash = route_chosen-Placed dec _ (persistent_choose dec hash)

  custom_routing-Placed : (hasher : K → ℕ → ℕ) → Places {M = M} dec (custom_routing dec hasher)
  unfolding custom_routing
  custom_routing-Placed hasher = route_chosen-Placed dec _ (custom_choose dec hasher)

  queuer_routing-Placed : Places {M = M} dec (queuer_routing dec)
  unfolding queuer_routing
  queuer_routing-Placed = route_chosen-Placed dec _ queuer_choose

  pub sticky_queuer_routing-Placed : Places {M = M} dec (sticky_queuer_routing dec)
  unfolding sticky_queuer_routing
  sticky_queuer_routing-Placed = route_chosen-Placed dec _ (sticky_choose dec)

  rate_limited_router-Placed :
      {R L : Type 0} (inner : Router K M R) (limiter : RateLimiter L)
      → Places dec inner
      → Places dec (rate_limited_router inner limiter)
  unfolding rate_limited_router limited_route_message
  rate_limited_router-Placed inner limiter p cast c job pool_size hint r pool log =
      elim (Bool-cases (limiter.check_limit c.instant r.rate_limiter).0) [
        | inl x ↦ rw x (p cast c job pool_size hint r.router pool log)
        | inr x ↦ rw x (inl refl)
      ]
