-- ===== src/Factory/State/Adjusted.antt =====
-- Which workers the pool has after `grow_pool` and `shrink_pool`, and its size
-- (ractor/src/factory/factoryimpl.rs).
use ractor.Prelude.{
  ℕ, zero, suc, ◌+◌, ◌-◌, ◌≤◌, ◌<◌, ◌≡◌, ◌≢◌, refl, ap, ◌∙◌, Bool, true, false, not, ◌&&◌, Option,
  none, [], ◌∷◌, arith, ltb, ℕ_discrete, inl, inr, Bool-cases, Option-cases, if◌then◌else◌, is_some,
}
use ractor.Prelude.Map.{lookup, lookup-remove}
use ractor.Factory.Job.{Clock}
use ractor.Factory.Effects.{Log, CastOutcome}
use ractor.Factory.Worker.{
  WorkerProperties, set_draining, send_factory_ping, is_working, is_available,
}
use ractor.Factory.Routing.Contract.{Pool, Router, get_worker}
use ractor.Factory.State.{FactoryState, drop_worker}
use ractor.Factory.State.Index.{Indexed}
use ractor.Factory.State.Resize.{shrink_worker, shrink_from, shrink_pool}
use ractor.Factory.State.Grow.{ping_workers, grow_from, ping_where_on, grow_pool, adjust_pool}
use ractor.Factory.State.Grown.{Fresh, adjust_pool-Indexed}
use ractor.Factory.State.Growth.{
  staffed, leaving, Grew, put_worker-others, put_worker-there, removed, grow_from-below,
  grow_from-Grew,
}

module _ {K M : Type 0} where
  send_factory_ping-is_draining :
      (cast : ℕ → CastOutcome) (c : Clock) (w : WorkerProperties K M) (log : Log K M)
      → (send_factory_ping cast c w log).0.is_draining ≡ w.is_draining
  unfolding send_factory_ping
  send_factory_ping-is_draining cast c w log = ground arith

  ping_workers-staffed :
      (cast : ℕ → CastOutcome) (c : Clock) (wid : ℕ) (pool : Pool K M) (log : Log K M)
      → staffed (get_worker wid (ping_workers cast c pool log).0) ≡ staffed (get_worker wid pool)
  unfolding ping_workers lookup
  ping_workers-staffed cast c wid [] log = refl
  ping_workers-staffed cast c wid ((i, w) ∷ pool) log = ground (
    arith,
    send_factory_ping-is_draining cast c w log,
    ping_workers-staffed cast c wid pool (send_factory_ping cast c w log).1,
  )

module _ {K M R Q : Type 0} where
  ping_where_on-staffed :
      (cast : ℕ → CastOutcome) (c : Clock) (on : Bool) (wid : ℕ) (s : FactoryState K M R Q)
      (log : Log K M)
      → staffed (get_worker wid (ping_where_on cast c on s log).0.pool)
        ≡ staffed (get_worker wid s.pool)
  unfolding ping_where_on
  ping_where_on-staffed cast c true wid s log = ping_workers-staffed cast c wid s.pool log
  ping_where_on-staffed cast c false wid s log = refl

module _ {K M R Q : Type 0} (router : Router K M R) where
  shrink_worker-others :
      (wid i : ℕ) (s : FactoryState K M R Q) (log : Log K M)
      → i ≢ wid
      → get_worker i (shrink_worker router wid (get_worker wid s.pool) s log).0.pool
        ≡ get_worker i s.pool
  unfolding shrink_worker drop_worker
  shrink_worker-others wid i s log ne = elim (Option-cases (get_worker wid s.pool)) [
    | inl e ↦ rw (e, shrink_worker)
    | inr (w, e) ↦ elim (Bool-cases (is_working w)) [
      | inl b ↦ rw (e, shrink_worker, b) (put_worker-others wid i (set_draining true w) s.pool ne)
      | inr b ↦ rw (e, shrink_worker, b) (ground (arith, lookup-remove ℕ_discrete wid i s.pool))
    ]
  ]

  shrink_worker-leaving :
      (wid : ℕ) (s : FactoryState K M R Q) (log : Log K M)
      → leaving (get_worker wid (shrink_worker router wid (get_worker wid s.pool) s log).0.pool)
        ≡ true
  unfolding shrink_worker drop_worker set_draining is_working is_available
  shrink_worker-leaving wid s log = elim (Option-cases (get_worker wid s.pool)) [
    | inl e ↦ rw (e, shrink_worker) (ap leaving e)
    | inr (w, e) ↦ elim (Bool-cases (is_working w)) [
      | inl b ↦
          rw (e, shrink_worker, b)
            (ap leaving (put_worker-there wid (set_draining true w) s.pool) ∙ b)
      | inr b ↦ rw (e, shrink_worker, b) (ap leaving (removed wid s.pool))
    ]
  ]

  shrink_from-below :
      (count wid i : ℕ) (s : FactoryState K M R Q) (log : Log K M)
      → i < wid
      → get_worker i (shrink_from router count wid s log).0.pool ≡ get_worker i s.pool
  unfolding shrink_from
  shrink_from-below zero wid i s log h = refl
  shrink_from-below (suc count) wid i s log h =
      let one = shrink_worker router wid (get_worker wid s.pool) s log in
      shrink_from-below count (wid + 1) i one.0 one.1 (omega arith)
      ∙ shrink_worker-others wid i s log (λ e. absurd (omega arith))

  shrink_from-leaving :
      (count wid i : ℕ) (s : FactoryState K M R Q) (log : Log K M)
      → wid ≤ i
      → i < wid + count
      → leaving (get_worker i (shrink_from router count wid s log).0.pool) ≡ true
  unfolding shrink_from
  shrink_from-leaving zero wid i s log l h = absurd (omega arith)
  shrink_from-leaving (suc count) wid i s log l h =
      let one = shrink_worker router wid (get_worker wid s.pool) s log in
      elim (ℕ_discrete i wid) [
        | yes p ↦
            ap leaving (shrink_from-below count (wid + 1) i one.0 one.1 (omega arith))
            ∙ rw p (shrink_worker-leaving wid s log)
        | no p ↦ shrink_from-leaving count (wid + 1) i one.0 one.1 (omega arith) (omega arith)
      ]

module _ {K M : Type 0} where
  Grew-staffed :
      (spawned : ℕ → Option (ℕ × ℕ)) (wid count : ℕ) (before : Pool K M) (ok : Bool)
      (p q : Pool K M)
      → ((i : ℕ) → staffed (get_worker i q) ≡ staffed (get_worker i p))
      → Grew spawned wid count before ok p
      → Grew spawned wid count before ok q
  Grew-staffed spawned wid count before true p q same grew = λ i l h. same i ∙ grew i l h
  Grew-staffed spawned wid count before false p q same (k, l, h, f, e, up_to) =
      (k, l, h, f, e, λ i l' h'. same i ∙ up_to i l' h')

module _ {K M R Q : Type 0} where
  -- The pool has the size that was asked for, the ids below it that were not in it are staffed, those
  -- above it leave, and the others are as before; or a spawn has failed, the ids before it are staffed,
  -- and the size is as before.
  abbrev pub Adjusted :
      (ℕ → Option (ℕ × ℕ)) → ℕ → FactoryState K M R Q → Bool → FactoryState K M R Q → Type 0
  Adjusted spawned new_size s true t =
      (t.pool_size ≡ new_size)
      × ((i : ℕ) → s.pool_size ≤ i → i < new_size → staffed (get_worker i t.pool) ≡ true)
      × ((i : ℕ) → new_size ≤ i → i < s.pool_size → leaving (get_worker i t.pool) ≡ true)
      × ((i : ℕ)
          → i < s.pool_size
          → i < new_size
          → staffed (get_worker i t.pool) ≡ staffed (get_worker i s.pool))
  Adjusted spawned new_size s false t =
      (t.pool_size ≡ s.pool_size)
      × (k : ℕ) × (s.pool_size ≤ k)
      × (k < new_size)
      × (spawned k ≡ none)
      × (get_worker k s.pool ≡ none)
      × ((i : ℕ) → s.pool_size ≤ i → i < k → staffed (get_worker i t.pool) ≡ true)

  grown-Adjusted :
      (spawned : ℕ → Option (ℕ × ℕ)) (new_size : ℕ) (s : FactoryState K M R Q) (ok : Bool)
      (t : FactoryState K M R Q)
      → s.pool_size < new_size
      → Grew spawned s.pool_size (new_size - s.pool_size) s.pool ok t.pool
      → ((i : ℕ) → i < s.pool_size → staffed (get_worker i t.pool) ≡ staffed (get_worker i s.pool))
      → Adjusted spawned new_size s ok
          (record t { pool_size = if true && not ok then s.pool_size else new_size })
  grown-Adjusted spawned new_size s true t lt grew kept =
      (refl, λ i l h. grew i l (omega arith), λ i l h. absurd (omega arith), λ i l h. kept i l)
  grown-Adjusted spawned new_size s false t lt (k, l, h, f, e, up_to) kept =
      (refl, k, l, omega arith, f, e, up_to)

module _ {K M R Q : Type 0} (router : Router K M R) where
  resized :
      (cast : ℕ → CastOutcome) (c : Clock) (spawned : ℕ → Option (ℕ × ℕ)) (new_size : ℕ)
      (s : FactoryState K M R Q) (log : Log K M)
      → let r = adjust_pool router cast c spawned new_size s log in
        Adjusted spawned new_size s r.0 r.1
  unfolding adjust_pool grow_pool shrink_pool
  resized cast c spawned new_size s log = elim (Bool-cases (ltb s.pool_size new_size)) [
    | inl grows ↦
        let grown = grow_from router spawned (new_size - s.pool_size) s.pool_size s in
        let on : Bool = if grown.0 then is_some s.dead_mans_switch else false in
        rw grows (
          grown-Adjusted spawned new_size s grown.0 (ping_where_on cast c on grown.1 log).0
            (ground arith)
            (Grew-staffed spawned s.pool_size (new_size - s.pool_size) s.pool grown.0 _ _
              (λ i. ping_where_on-staffed cast c on i grown.1 log)
              (grow_from-Grew router spawned (new_size - s.pool_size) s.pool_size s))
            (λ i l.
              ping_where_on-staffed cast c on i grown.1 log
              ∙ ap staffed
                  (grow_from-below router spawned (new_size - s.pool_size) s.pool_size i s l)))
    | inr not_grows ↦ elim (Bool-cases (ltb new_size s.pool_size)) [
      | inl shrinks ↦
          let lt : new_size < s.pool_size = ground arith in
          rw (not_grows, shrinks)
            (
              refl,
              λ i l h. absurd (omega arith),
              λ i l h. shrink_from-leaving router _ _ i s log (omega arith) (omega arith),
              λ i l h. ap staffed (shrink_from-below router _ _ i s log (omega arith)),
            )
      | inr same ↦
          let eq : new_size ≡ s.pool_size = ground arith in
          rw (not_grows, same)
            (refl, λ i l h. absurd (omega arith), λ i l h. absurd (omega arith), λ i l h. refl)
    ]
  ]

  -- Whatever the size asked for, where the actors to be spawned are new and all different: either the
  -- pool has that size, each id that came in has a worker that does not drain, each that went has none
  -- or one that drains on its last job, and the others are staffed where they were; or the pool was to
  -- grow, the id of a first spawn that fails had no worker, the ids before it are staffed, and the
  -- size is as before. In both cases the index of actors stays in agreement with the pool.
  pub adjust_pool-Adjusted :
      (cast : ℕ → CastOutcome) (c : Clock) (spawned : ℕ → Option (ℕ × ℕ)) (new_size : ℕ)
      (s : FactoryState K M R Q) (log : Log K M)
      → Fresh spawned s.pool_size s
      → Indexed s
      → let r = adjust_pool router cast c spawned new_size s log in
        Adjusted spawned new_size s r.0 r.1 × Indexed r.1
  adjust_pool-Adjusted cast c spawned new_size s log fresh ix = (
    resized cast c spawned new_size s log,
    adjust_pool-Indexed router cast c spawned new_size s log fresh ix,
  )
