-- ===== src/Factory/Routing/Targets.antt =====
-- The routers of ractor/src/factory/routing.rs and ratelim.rs route a job to the worker that they have
-- chosen for it.
use ractor.Prelude.{
  ℕ, ◌≡◌, refl, ap, Bool, true, false, Option, none, some, List, [], ◌∷◌, arith, set, Option-cases,
  Bool-cases, inl, inr,
}
use ractor.Prelude.Map.{lookup}
use ractor.Factory.Job.{Clock, Job}
use ractor.Factory.Effects.{Log, CastOutcome}
use ractor.Factory.Routing.Contract.{
  Router, RouteResult, Pool, handled, backlog, rate_limited, get_worker, route_chosen, route_to,
  enqueue_at,
}
use ractor.Factory.Routing.Available.{
  AvailableWorkers, worker_is_available, pop_available, take_available, available_hint,
}
use ractor.Factory.Routing.Persistent.{
  in_pool, then_some, find_pending, hinted, hash_target, persistent_choose, key_persistent_routing,
  custom_choose, custom_routing,
}
use ractor.Factory.Routing.Queuer.{hint_or_available, queuer_choose, queuer_routing}
use ractor.Factory.Routing.Sticky.{
  or_else, worker_is_processing, sticky_hint, find_processing, sticky_choose, sticky_queuer_routing,
}
use ractor.Factory.RateLimit.Limited.{
  RateLimiter, limited_choose, limited_route_message, rate_limited_router,
}

abbrev pub NotBacklog : {K M : Type 0} → RouteResult K M → Type 0
NotBacklog handled = Unit
NotBacklog (rate_limited job) = Unit
NotBacklog (backlog job) = ⊥

-- A router that has chosen a worker routes the job when that worker is the hint.
abbrev pub Targets : {K M R : Type 0} → Router K M R → Type 0
Targets {K} {M} {R} router =
    (cast : ℕ → CastOutcome) (c : Clock) (job : Job K M) (pool_size : ℕ) (hint : Option ℕ)
    (pool : Pool K M) (r : R) (log : Log K M) (wid : ℕ)
    → (router.choose_target_worker job pool_size hint pool r).0 ≡ some wid
    → NotBacklog
        (router.route_message cast c job pool_size (some wid)
          (router.choose_target_worker job pool_size hint pool r).1 pool log).0

module _ {K M R : Type 0} (dec : Discrete K) where
  -- What is chosen, given a worker that was chosen as the hint, is in the pool.
  abbrev Rechooses : (Job K M → ℕ → Option ℕ → Pool K M → R → Option ℕ × R) → Type 0
  Rechooses choose =
      (job : Job K M) (pool_size : ℕ) (hint : Option ℕ) (pool : Pool K M) (r : R) (wid : ℕ)
      → (choose job pool_size hint pool r).0 ≡ some wid
      → (wid' : ℕ) × ((choose job pool_size (some wid) pool (choose job pool_size hint pool r).1).0
          ≡ some wid')
        × (in_pool wid' pool ≡ true)

  route_to-NotBacklog :
      (cast : ℕ → CastOutcome) (c : Clock) (job : Job K M) (wid : ℕ) (r : R) (pool : Pool K M)
      (log : Log K M)
      → in_pool wid pool ≡ true
      → NotBacklog (route_to dec cast c job (some wid) r pool log).0
  unfolding route_to enqueue_at
  route_to-NotBacklog cast c job wid r pool log h = elim (Option-cases (get_worker wid pool)) [
    | inl e ↦ absurd (ground (arith, h, e))
    | inr (w, e) ↦ rw (e, enqueue_at) tt
  ]

  route_chosen-NotBacklog :
      (choose : Job K M → ℕ → Option ℕ → Pool K M → R → Option ℕ × R)
      → Rechooses choose
      → (cast : ℕ → CastOutcome) (c : Clock) (job : Job K M) (pool_size : ℕ) (hint : Option ℕ)
        (pool : Pool K M) (r : R) (log : Log K M) (wid : ℕ)
      → (choose job pool_size hint pool r).0 ≡ some wid
      → NotBacklog
          (route_chosen dec choose cast c job pool_size
            (some wid)
            (choose job pool_size hint pool r).1
            pool
            log).0
  unfolding route_chosen
  route_chosen-NotBacklog choose re cast c job pool_size hint pool r log wid e =
      let (wid', e', inside) = re job pool_size hint pool r wid e in
      rw e' (route_to-NotBacklog cast c job wid' _ pool log inside)

module _ {K M : Type 0} where
  available-in_pool :
      (wid : ℕ) (pool : Pool K M)
      → worker_is_available (get_worker wid pool) ≡ true
      → in_pool wid pool ≡ true
  unfolding worker_is_available
  available-in_pool wid pool h = elim (Option-cases (get_worker wid pool)) [
    | inl e ↦ absurd (ground (arith, h, ap worker_is_available e))
    | inr (w, e) ↦ rw e refl
  ]

  pop_available-available :
      (pool : Pool K M) (wids : List ℕ) (flags : List Bool) (wid : ℕ)
      → (pop_available pool wids flags).0 ≡ some wid
      → worker_is_available (get_worker wid pool) ≡ true
  unfolding pop_available
  pop_available-available pool [] flags wid e = ground arith
  pop_available-available pool (w ∷ wids) flags wid e =
      ground (arith, pop_available-available pool wids (set flags w false) wid)

  available_hint-available :
      (hint : Option ℕ) (pool : Pool K M) (wid : ℕ)
      → available_hint hint pool ≡ some wid
      → worker_is_available (get_worker wid pool) ≡ true
  unfolding available_hint
  available_hint-available none pool wid e = ground arith
  available_hint-available (some h) pool wid e = ground arith

  -- `QueuerRouting` chooses only workers that are available.
  pub queuer_choose-available :
      (job : Job K M) (pool_size : ℕ) (hint : Option ℕ) (pool : Pool K M) (a : AvailableWorkers)
      (wid : ℕ)
      → (queuer_choose job pool_size hint pool a).0 ≡ some wid
      → worker_is_available (get_worker wid pool) ≡ true
  unfolding queuer_choose hint_or_available take_available
  queuer_choose-available job pool_size hint pool a wid e = ground (
    arith,
    available_hint-available hint pool wid,
    pop_available-available pool a.available_workers a.worker_in_queue wid,
  )

  queuer_choose-Rechooses : (dec : Discrete K) → Rechooses {K = K} {M = M} dec queuer_choose
  unfolding queuer_choose hint_or_available available_hint
  queuer_choose-Rechooses dec job pool_size hint pool a wid e =
      let free = queuer_choose-available job pool_size hint pool a wid e in
      (wid, ground (arith, free), available-in_pool wid pool free)

module _ {K M : Type 0} (dec : Discrete K) where
  find_pending-in_pool :
      (key : K) (pool : Pool K M) (wid : ℕ)
      → find_pending dec key pool ≡ some wid
      → in_pool wid pool ≡ true
  unfolding find_pending lookup
  find_pending-in_pool key [] wid e = ground arith
  find_pending-in_pool key ((i, w) ∷ pool) wid e = ground (arith, find_pending-in_pool key pool wid)

  find_processing-in_pool :
      (key : K) (pool : Pool K M) (wid : ℕ)
      → find_processing dec key pool ≡ some wid
      → in_pool wid pool ≡ true
  unfolding find_processing lookup
  find_processing-in_pool key [] wid e = ground arith
  find_processing-in_pool key ((i, w) ∷ pool) wid e =
      ground (arith, find_processing-in_pool key pool wid)

  hash_target-in_pool :
      (hash : K → ℕ) (key : K) (pool_size : ℕ) (hint : Option ℕ) (pool : Pool K M) (wid : ℕ)
      → hash_target dec hash key pool_size hint pool ≡ some wid
      → in_pool wid pool ≡ true
  unfolding hash_target then_some
  hash_target-in_pool hash key pool_size none pool wid e = ground arith
  hash_target-in_pool hash key pool_size (some h) pool wid e = ground arith

  persistent_choose-Rechooses : (hash : K → ℕ) → Rechooses {M = M} dec (persistent_choose dec hash)
  unfolding persistent_choose hinted hash_target then_some
  persistent_choose-Rechooses hash job pool_size hint pool r wid e =
      elim (Option-cases (find_pending dec job.key pool)) [
        | inl f ↦
            let inside =
              hash_target-in_pool hash job.key pool_size (hinted dec hint pool) pool wid
                (ground (arith, e, f)) in
            (wid, ground (arith, f, inside), inside)
        | inr (w, f) ↦ (w, ground (arith, f), find_pending-in_pool job.key pool w f)
      ]

  custom_choose-Rechooses : (hasher : K → ℕ → ℕ) → Rechooses {M = M} dec (custom_choose dec hasher)
  unfolding custom_choose then_some
  custom_choose-Rechooses hasher job pool_size hint pool r wid e = (wid, e, ground arith)

  sticky_hint-processing :
      (key : K) (hint : Option ℕ) (pool : Pool K M) (wid : ℕ)
      → sticky_hint dec key hint pool ≡ some wid
      → worker_is_processing dec key (get_worker wid pool) ≡ true
  unfolding sticky_hint
  sticky_hint-processing key none pool wid e = ground arith
  sticky_hint-processing key (some h) pool wid e = ground arith

  processing-in_pool :
      (key : K) (wid : ℕ) (pool : Pool K M)
      → worker_is_processing dec key (get_worker wid pool) ≡ true
      → in_pool wid pool ≡ true
  unfolding worker_is_processing
  processing-in_pool key wid pool h = elim (Option-cases (get_worker wid pool)) [
    | inl e ↦ absurd (ground (arith, h, ap (worker_is_processing dec key) e))
    | inr (w, e) ↦ rw e refl
  ]

  -- Where no worker processes the key, the sticky router chooses an available one.
  sticky_choose-available :
      (job : Job K M) (pool_size : ℕ) (hint : Option ℕ) (pool : Pool K M) (a : AvailableWorkers)
      (wid : ℕ)
      → find_processing dec job.key pool ≡ none
      → (sticky_choose dec job pool_size hint pool a).0 ≡ some wid
      → worker_is_processing dec job.key (get_worker wid pool) ≡ false
      → worker_is_available (get_worker wid pool) ≡ true
  unfolding sticky_choose or_else hint_or_available take_available
  sticky_choose-available job pool_size hint pool a wid f e p = ground (
    arith,
    sticky_hint-processing job.key hint pool wid,
    available_hint-available hint pool wid,
    pop_available-available pool a.available_workers a.worker_in_queue wid,
  )

  sticky_choose-Rechooses : Rechooses {M = M} dec (sticky_choose dec)
  unfolding sticky_choose sticky_hint or_else hint_or_available available_hint
  sticky_choose-Rechooses job pool_size hint pool r wid e =
      elim (Bool-cases (worker_is_processing dec job.key (get_worker wid pool))) [
        | inl p ↦ (wid, ground (arith, p), processing-in_pool job.key wid pool p)
        | inr p ↦ elim (Option-cases (find_processing dec job.key pool)) [
          | inl f ↦
              let free = sticky_choose-available job pool_size hint pool r wid f e p in
              (wid, ground (arith, p, f, free), available-in_pool wid pool free)
          | inr (w, f) ↦ (w, ground (arith, p, f), find_processing-in_pool job.key pool w f)
        ]
      ]

  -- `KeyPersistentRouting` routes a job to the worker that it has chosen.
  pub key_persistent_routing-Targets :
      (hash : K → ℕ) → Targets (key_persistent_routing {M = M} dec hash)
  unfolding key_persistent_routing
  key_persistent_routing-Targets hash =
      route_chosen-NotBacklog dec (persistent_choose dec hash) (persistent_choose-Rechooses hash)

  -- `CustomRouting` routes a job to the worker that it has chosen, for a hash that is a function.
  pub custom_routing-Targets : (hasher : K → ℕ → ℕ) → Targets (custom_routing {M = M} dec hasher)
  unfolding custom_routing
  custom_routing-Targets hasher =
      route_chosen-NotBacklog dec (custom_choose dec hasher) (custom_choose-Rechooses hasher)

  -- `QueuerRouting` routes a job to the worker that it has chosen.
  pub queuer_routing-Targets : Targets (queuer_routing {M = M} dec)
  unfolding queuer_routing
  queuer_routing-Targets = route_chosen-NotBacklog dec queuer_choose (queuer_choose-Rechooses dec)

  -- `StickyQueuerRouting` routes a job to the worker that it has chosen.
  pub sticky_queuer_routing-Targets : Targets (sticky_queuer_routing {M = M} dec)
  unfolding sticky_queuer_routing
  sticky_queuer_routing-Targets =
      route_chosen-NotBacklog dec (sticky_choose dec) sticky_choose-Rechooses

-- Behind a rate limiter, a router that routes jobs to the workers that it has chosen still does.
pub rate_limited_router-Targets :
    {K M R L : Type 0} (inner : Router K M R) (limiter : RateLimiter L)
    → Targets inner
    → Targets (rate_limited_router inner limiter)
unfolding rate_limited_router limited_route_message limited_choose
rate_limited_router-Targets inner limiter t cast c job pool_size hint pool r log wid e =
    elim (Bool-cases (limiter.check_limit c.instant r.rate_limiter).0) [
      | inl x ↦ rw x (t cast c job pool_size hint pool r.router log wid e)
      | inr x ↦ rw x tt
    ]
