-- ===== src/Factory/State/Validated.antt =====
-- The workers of a pool that is resized (ractor/src/factory/factoryimpl.rs) stay valid.
use ractor.Prelude.{
  ℕ, zero, suc, ◌+◌, Bool, true, false, Option, none, some, [], ◌∷◌, inl, inr, Bool-cases,
  Option-cases, ltb,
}
use ractor.Factory.Job.{Clock}
use ractor.Factory.Effects.{Log, CastOutcome}
use ractor.Factory.Worker.{WorkerProperties, set_draining, is_working}
use ractor.Factory.Worker.Invariant.{IsValid, new_worker-IsValid}
use ractor.Factory.Routing.Contract.{Pool, Router, get_worker}
use ractor.Factory.Routing.Holders.{AllValid, lookup-AllValid, put_worker-AllValid, remove-AllValid}
use ractor.Factory.State.{FactoryState, drop_worker}
use ractor.Factory.State.Resize.{shrink_worker, shrink_from, shrink_pool}
use ractor.Factory.State.Grow.{
  ping_workers, grow_worker, grow_from, ping_where_on, grow_pool, adjust_pool,
}
use ractor.Factory.State.Steps.{send_factory_ping-IsValid}

module _ {K M : Type 0} (dec : Discrete K) where
  set_draining-IsValid :
      (b : Bool) (w : WorkerProperties K M) → IsValid dec w → IsValid dec (set_draining b w)
  unfolding set_draining
  set_draining-IsValid b w v = record { counted = v.counted; single = v.single }

  ping_workers-AllValid :
      (cast : ℕ → CastOutcome) (c : Clock) (pool : Pool K M) (log : Log K M)
      → AllValid dec pool
      → AllValid dec (ping_workers cast c pool log).0
  unfolding ping_workers
  ping_workers-AllValid cast c [] log v = v
  ping_workers-AllValid cast c ((wid, w) ∷ pool) log (v, vs) =
      (send_factory_ping-IsValid dec cast c w log v, ping_workers-AllValid cast c pool _ vs)

module _ {K M R Q : Type 0} (dec : Discrete K) (router : Router K M R) where
  grow_worker-AllValid :
      (spawned : Option (ℕ × ℕ)) (wid : ℕ) (s : FactoryState K M R Q)
      → AllValid dec s.pool
      → AllValid dec (grow_worker router spawned wid (get_worker wid s.pool) s).1.pool
  unfolding grow_worker
  grow_worker-AllValid spawned wid s v = elim (Option-cases (get_worker wid s.pool)) [
    | inr (w, e) ↦
        rw (e, grow_worker)
          (put_worker-AllValid dec wid (set_draining false w) s.pool v
            (set_draining-IsValid dec false w (lookup-AllValid dec wid w s.pool v e)))
    | inl e ↦ rw e (new spawned)
  ]
    where
      new : (spawned : Option (ℕ × ℕ)) → AllValid dec (grow_worker router spawned wid none s).1.pool
      new none = v
      new (some (a, h)) =
          put_worker-AllValid dec wid _ s.pool v (new_worker-IsValid dec _ wid a _ _ h _)

  grow_from-AllValid :
      (spawned : ℕ → Option (ℕ × ℕ)) (count wid : ℕ) (s : FactoryState K M R Q)
      → AllValid dec s.pool
      → AllValid dec (grow_from router spawned count wid s).1.pool
  unfolding grow_from
  grow_from-AllValid spawned zero wid s v = v
  grow_from-AllValid spawned (suc count) wid s v =
      let one = grow_worker router (spawned wid) wid (get_worker wid s.pool) s in
      let first = grow_worker-AllValid (spawned wid) wid s v in
      elim (Bool-cases one.0) [
        | inl h ↦ rw h (grow_from-AllValid spawned count (wid + 1) one.1 first)
        | inr h ↦ rw h first
      ]

  shrink_worker-AllValid :
      (wid : ℕ) (s : FactoryState K M R Q) (log : Log K M)
      → AllValid dec s.pool
      → AllValid dec (shrink_worker router wid (get_worker wid s.pool) s log).0.pool
  unfolding shrink_worker drop_worker
  shrink_worker-AllValid wid s log v = elim (Option-cases (get_worker wid s.pool)) [
    | inl e ↦ rw (e, shrink_worker) v
    | inr (w, e) ↦ elim (Bool-cases (is_working w)) [
      | inl b ↦
          rw (e, shrink_worker, b)
            (put_worker-AllValid dec wid (set_draining true w) s.pool v
              (set_draining-IsValid dec true w (lookup-AllValid dec wid w s.pool v e)))
      | inr b ↦ rw (e, shrink_worker, b) (remove-AllValid dec wid s.pool v)
    ]
  ]

  shrink_from-AllValid :
      (count wid : ℕ) (s : FactoryState K M R Q) (log : Log K M)
      → AllValid dec s.pool
      → AllValid dec (shrink_from router count wid s log).0.pool
  unfolding shrink_from
  shrink_from-AllValid zero wid s log v = v
  shrink_from-AllValid (suc count) wid s log v =
      shrink_from-AllValid count (wid + 1) _ _ (shrink_worker-AllValid wid s log v)

  ping_where_on-AllValid :
      (cast : ℕ → CastOutcome) (c : Clock) (on : Bool) (s : FactoryState K M R Q) (log : Log K M)
      → AllValid dec s.pool
      → AllValid dec (ping_where_on cast c on s log).0.pool
  unfolding ping_where_on
  ping_where_on-AllValid cast c true s log v = ping_workers-AllValid dec cast c s.pool log v
  ping_where_on-AllValid cast c false s log v = v

  pub adjust_pool-AllValid :
      (cast : ℕ → CastOutcome) (c : Clock) (spawned : ℕ → Option (ℕ × ℕ)) (new_size : ℕ)
      (s : FactoryState K M R Q) (log : Log K M)
      → AllValid dec s.pool
      → AllValid dec (adjust_pool router cast c spawned new_size s log).1.pool
  unfolding adjust_pool grow_pool shrink_pool
  adjust_pool-AllValid cast c spawned new_size s log v =
      elim (Bool-cases (ltb s.pool_size new_size)) [
        | inl grows ↦
            rw grows (ping_where_on-AllValid cast c _ _ log (grow_from-AllValid spawned _ _ s v))
        | inr not_grows ↦ elim (Bool-cases (ltb new_size s.pool_size)) [
          | inl shrinks ↦ rw (not_grows, shrinks) (shrink_from-AllValid _ _ s log v)
          | inr same ↦ rw (not_grows, same) v
        ]
      ]
