-- ===== src/Factory/State/Grown.antt =====
-- The index of workers by actor under the growth of the pool (ractor/src/factory/factoryimpl.rs).
use ractor.Prelude.{
  ℕ, zero, suc, ◌+◌, ◌-◌, ◌≤◌, ◌≡◌, ◌≢◌, refl, Bool, true, false, Option, none, some, [], ◌∷◌,
  arith, ltb, ℕ_discrete, inl, inr, Bool-cases, Option-cases,
}
use ractor.Prelude.Map.{lookup, lookup-insert}
use ractor.Factory.Job.{Clock}
use ractor.Factory.Effects.{Log, CastOutcome}
use ractor.Factory.Worker.{WorkerProperties, new_worker, set_draining, send_factory_ping}
use ractor.Factory.Routing.Contract.{Pool, Router, get_worker}
use ractor.Factory.State.{FactoryState}
use ractor.Factory.State.Index.{Indexed}
use ractor.Factory.State.Resize.{shrink_pool-Indexed}
use ractor.Factory.State.Grow.{
  ping_workers, new_worker_settings, grow_worker, grow_from, ping_where_on, grow_pool, adjust_pool,
}

-- The actors to be spawned from a worker id on are new to the index, and all different.
pub record Fresh {K M R Q : Type 0} (spawned : ℕ → Option (ℕ × ℕ)) (from : ℕ)
    (s : FactoryState K M R Q) : Type 0 where
  pub not_indexed :
      (wid a h : ℕ)
      → from ≤ wid
      → spawned wid ≡ some (a, h)
      → lookup ℕ_discrete a s.worker_by_actor ≡ none
  pub distinct : (i j a h k : ℕ) → spawned i ≡ some (a, h) → spawned j ≡ some (a, k) → i ≡ j

module _ {K M R Q : Type 0} (router : Router K M R) where
  grow_old-Indexed :
      (spawned : Option (ℕ × ℕ)) (wid : ℕ) (w : WorkerProperties K M) (s : FactoryState K M R Q)
      → Indexed s
      → get_worker wid s.pool ≡ some w
      → Indexed (grow_worker router spawned wid (some w) s).1
  unfolding grow_worker set_draining
  grow_old-Indexed spawned wid w s ix e = record {
    sound = λ a i h.
        ground (arith, lookup-insert ℕ_discrete wid i (set_draining false w) s.pool, ix.sound a i);
    complete = λ a i h.
        ground
          (arith, lookup-insert ℕ_discrete wid i (set_draining false w) s.pool, ix.complete a i);
    own_id = λ i v h. ground (
      arith,
      lookup-insert ℕ_discrete wid i (set_draining false w) s.pool,
      ix.own_id i v,
      ix.own_id wid w,
    );
  }

  grow_new-Indexed :
      (actor handle wid : ℕ) (s : FactoryState K M R Q)
      → Indexed s
      → get_worker wid s.pool ≡ none
      → lookup ℕ_discrete actor s.worker_by_actor ≡ none
      → Indexed (grow_worker router (some (actor, handle)) wid none s).1
  unfolding grow_worker new_worker
  grow_new-Indexed actor handle wid s ix e fresh =
      let w : WorkerProperties K M =
        new_worker s.factory_name wid actor (new_worker_settings router s) s.discard_handler handle
          s.stats in
      record {
        sound = λ a i h. ground (
          arith,
          e,
          fresh,
          lookup-insert ℕ_discrete wid i w s.pool,
          lookup-insert ℕ_discrete actor a wid s.worker_by_actor,
          ix.sound a i,
        );
        complete = λ a i h. ground (
          arith,
          e,
          fresh,
          lookup-insert ℕ_discrete wid i w s.pool,
          lookup-insert ℕ_discrete actor a wid s.worker_by_actor,
          ix.complete a i,
        );
        own_id = λ i v h. ground (arith, e, lookup-insert ℕ_discrete wid i w s.pool, ix.own_id i v);
      }

  grow_worker-Indexed :
      (spawned : ℕ → Option (ℕ × ℕ)) (wid : ℕ) (s : FactoryState K M R Q)
      → Fresh spawned wid s
      → Indexed s
      → Indexed (grow_worker router (spawned wid) wid (get_worker wid s.pool) s).1
  unfolding grow_worker
  grow_worker-Indexed spawned wid s fresh ix = elim (Option-cases (get_worker wid s.pool)) [
    | inr (w, e) ↦ rw e (grow_old-Indexed (spawned wid) wid w s ix e)
    | inl e ↦ elim (Option-cases (spawned wid)) [
      | inl f ↦ rw (e, f, grow_worker) ix
      | inr ((a, h), f) ↦
          rw (e, f) (grow_new-Indexed a h wid s ix e (fresh.not_indexed wid a h (omega arith) f))
    ]
  ]

  grow_worker-Fresh :
      (spawned : ℕ → Option (ℕ × ℕ)) (wid : ℕ) (s : FactoryState K M R Q)
      → Fresh spawned wid s
      → Fresh spawned (wid + 1) (grow_worker router (spawned wid) wid (get_worker wid s.pool) s).1
  unfolding grow_worker
  grow_worker-Fresh spawned wid s fresh = record {
    not_indexed = λ i a h l e. elim (Option-cases (get_worker wid s.pool)) [
      | inr (w, f) ↦ rw f (fresh.not_indexed i a h (omega arith) e)
      | inl f ↦ elim (Option-cases (spawned wid)) [
        | inl g ↦ rw (f, g) (fresh.not_indexed i a h (omega arith) e)
        | inr ((b, k), g) ↦
            let other : a ≢ b =
              λ p. absurd (omega (arith, l, fresh.distinct i wid a h k e (rw (← p) at g))) in
            rw (f, g)
              (ground (
                arith,
                other,
                lookup-insert ℕ_discrete b a wid s.worker_by_actor,
                fresh.not_indexed i a h (omega arith) e,
              ))
      ]
    ];
    distinct = fresh.distinct;
  }

  grow_from-Indexed :
      (spawned : ℕ → Option (ℕ × ℕ)) (count wid : ℕ) (s : FactoryState K M R Q)
      → Fresh spawned wid s
      → Indexed s
      → Indexed (grow_from router spawned count wid s).1
  unfolding grow_from
  grow_from-Indexed spawned zero wid s fresh ix = ix
  grow_from-Indexed spawned (suc count) wid s fresh ix =
      let one = grow_worker router (spawned wid) wid (get_worker wid s.pool) s in
      let first = grow_worker-Indexed spawned wid s fresh ix in
      let rest =
        grow_from-Indexed spawned count (wid + 1) one.1 (grow_worker-Fresh spawned wid s fresh)
          first in
      elim (Bool-cases one.0) [ inl h ↦ rw h rest | inr h ↦ rw h first ]

-- Which actor and which id a worker has.
identity : {K M : Type 0} → Option (WorkerProperties K M) → Option (ℕ × ℕ)
identity none = none
identity (some w) = some (w.actor, w.wid)

module _ {K M : Type 0} where
  send_factory_ping-identity :
      (cast : ℕ → CastOutcome) (c : Clock) (w : WorkerProperties K M) (log : Log K M)
      → ((send_factory_ping cast c w log).0.actor ≡ w.actor)
        × ((send_factory_ping cast c w log).0.wid ≡ w.wid)
  unfolding send_factory_ping
  send_factory_ping-identity cast c w log = ground arith

  ping_workers-identity :
      (cast : ℕ → CastOutcome) (c : Clock) (wid : ℕ) (pool : Pool K M) (log : Log K M)
      → identity (get_worker wid (ping_workers cast c pool log).0) ≡ identity (get_worker wid pool)
  unfolding ping_workers lookup identity
  ping_workers-identity cast c wid [] log = refl
  ping_workers-identity cast c wid ((i, w) ∷ pool) log = ground (
    arith,
    send_factory_ping-identity cast c w log,
    ping_workers-identity cast c wid pool (send_factory_ping cast c w log).1,
  )

module _ {K M R Q : Type 0} where
  -- Only who the workers are counts.
  repooled-Indexed :
      (s : FactoryState K M R Q) (pool : Pool K M)
      → ((wid : ℕ) → identity (get_worker wid pool) ≡ identity (get_worker wid s.pool))
      → Indexed s
      → Indexed (record s { pool = pool })
  unfolding identity
  repooled-Indexed s pool same ix = record {
    sound = λ a i h. ground (arith, same i, ix.sound a i);
    complete = λ a i h. ground (arith, same i, ix.complete a i);
    own_id = λ i w h. elim (Option-cases (get_worker i s.pool)) [
      | inl e ↦ absurd (ground (arith, same i))
      | inr (v, e) ↦ ground (arith, same i, e, ix.own_id i v e)
    ];
  }

  ping_where_on-Indexed :
      (cast : ℕ → CastOutcome) (c : Clock) (on : Bool) (s : FactoryState K M R Q) (log : Log K M)
      → Indexed s
      → Indexed (ping_where_on cast c on s log).0
  unfolding ping_where_on
  ping_where_on-Indexed cast c true s log ix =
      repooled-Indexed s _ (λ wid. ping_workers-identity cast c wid s.pool log) ix
  ping_where_on-Indexed cast c false s log ix = ix

  resized-Indexed :
      (s : FactoryState K M R Q) (size : ℕ) → Indexed s → Indexed (record s { pool_size = size })
  resized-Indexed s size ix = record {
    sound = ix.sound;
    complete = ix.complete;
    own_id = ix.own_id;
  }

  -- Whatever the size asked for, where the actors to be spawned are new and all different: the pool
  -- grows, up to the first spawn that fails, or shrinks, and the index of actors stays in agreement
  -- with it.
  pub adjust_pool-Indexed :
      (router : Router K M R) (cast : ℕ → CastOutcome) (c : Clock) (spawned : ℕ → Option (ℕ × ℕ))
      (new_size : ℕ) (s : FactoryState K M R Q) (log : Log K M)
      → Fresh spawned s.pool_size s
      → Indexed s
      → Indexed (adjust_pool router cast c spawned new_size s log).1
  unfolding adjust_pool grow_pool
  adjust_pool-Indexed router cast c spawned new_size s log fresh ix =
      elim (Bool-cases (ltb s.pool_size new_size)) [
        | inl grows ↦ rw grows (
            resized-Indexed _ _ (
              ping_where_on-Indexed cast c _ _ log
                (grow_from-Indexed router spawned (new_size - s.pool_size) s.pool_size s fresh ix)))
        | inr not_grows ↦ elim (Bool-cases (ltb new_size s.pool_size)) [
          | inl shrinks ↦
              rw (not_grows, shrinks)
                (resized-Indexed _ _ (shrink_pool-Indexed router (s.pool_size - new_size) s log ix))
          | inr same ↦ rw (not_grows, same) (resized-Indexed s _ ix)
        ]
      ]
