-- ===== src/Factory/State/Resize.antt =====
-- `shrink_pool` of ractor/src/factory/factoryimpl.rs, and the index of workers by actor under it.
use ractor.Prelude.{
  ℕ, zero, suc, true, false, ◌+◌, ◌-◌, ◌≡◌, Option, none, some, arith, if◌then◌else◌, Bool-cases,
  Option-cases, inl, inr,
}
use ractor.Prelude.Map.{lookup-insert}
use native.Mathlib.Decide.{ℕ_discrete}
use ractor.Factory.Effects.{Log}
use ractor.Factory.Worker.{WorkerProperties, is_available, is_working, set_draining}
use ractor.Factory.Routing.Contract.{Router, get_worker, put_worker}
use ractor.Factory.State.{FactoryState, drop_worker}
use ractor.Factory.State.Index.{Indexed, drop_worker-Indexed}

module _ {K M R Q : Type 0} (router : Router K M R) where
  -- A working worker drains; a free one is stopped and dropped.
  unfoldable pub shrink_worker :
      ℕ
      → Option (WorkerProperties K M)
      → FactoryState K M R Q
      → Log K M
      → FactoryState K M R Q × Log K M
  shrink_worker wid none s log = (s, log)
  shrink_worker wid (some w) s log =
      let quiet = record s { router = router.on_worker_availability_change wid false s.router } in
      if is_working w
      then (record s { pool = put_worker wid (set_draining true w) s.pool }, log)
      else drop_worker wid w quiet log

  -- The loop over `count` worker ids from `wid` on.
  unfoldable pub shrink_from :
      ℕ → ℕ → FactoryState K M R Q → Log K M → FactoryState K M R Q × Log K M
  shrink_from zero wid s log = (s, log)
  shrink_from (suc count) wid s log =
      let (s', log') = shrink_worker wid (get_worker wid s.pool) s log in
      shrink_from count (wid + 1) s' log'

  unfoldable pub shrink_pool : ℕ → FactoryState K M R Q → Log K M → FactoryState K M R Q × Log K M
  shrink_pool to_remove s log =
      let from = s.pool_size - to_remove in shrink_from (s.pool_size - from) from s log

module _ {K M R Q : Type 0} (router : Router K M R) where
  drain-Indexed :
      (wid : ℕ) (w : WorkerProperties K M) (s : FactoryState K M R Q)
      → Indexed s
      → get_worker wid s.pool ≡ some w
      → Indexed (record s { pool = put_worker wid (set_draining true w) s.pool })
  unfolding set_draining
  drain-Indexed wid w s ix e = record {
    sound = λ a i h.
        ground
          (arith, h, e, lookup-insert ℕ_discrete wid i (set_draining true w) s.pool, ix.sound a i);
    complete = λ a i h.
        ground (
          arith,
          h,
          e,
          lookup-insert ℕ_discrete wid i (set_draining true w) s.pool,
          ix.complete a i,
        );
    own_id = λ i v h. ground (
      arith,
      h,
      e,
      lookup-insert ℕ_discrete wid i (set_draining true w) s.pool,
      ix.own_id i v,
      ix.own_id wid w,
    );
  }

  shrink_worker-Indexed :
      (wid : ℕ) (s : FactoryState K M R Q) (log : Log K M)
      → Indexed s
      → Indexed (shrink_worker router wid (get_worker wid s.pool) s log).0
  unfolding shrink_worker is_working is_available
  shrink_worker-Indexed wid s log ix = elim (Option-cases (get_worker wid s.pool)) [
    | inl e ↦ rw (e, shrink_worker) ix
    | inr (w, e) ↦ elim (Bool-cases (is_working w)) [
      | inl b ↦ rw (e, shrink_worker, b) (drain-Indexed wid w s ix e)
      | inr b ↦
          rw (e, shrink_worker, b)
            (drop_worker-Indexed wid w
              (record s { router = router.on_worker_availability_change wid false s.router }) log
              (record { sound = ix.sound; complete = ix.complete; own_id = ix.own_id }) e)
    ]
  ]

  shrink_from-Indexed :
      (count wid : ℕ) (s : FactoryState K M R Q) (log : Log K M)
      → Indexed s
      → Indexed (shrink_from router count wid s log).0
  unfolding shrink_from
  shrink_from-Indexed zero wid s log ix = ix
  shrink_from-Indexed (suc count) wid s log ix =
      let (s', log') = shrink_worker router wid (get_worker wid s.pool) s log in
      shrink_from-Indexed count (wid + 1) s' log' (shrink_worker-Indexed wid s log ix)

  -- However many workers go, some at once and some to drain, `shrink_pool` keeps the index of actors
  -- in agreement with the pool.
  pub shrink_pool-Indexed :
      (to_remove : ℕ) (s : FactoryState K M R Q) (log : Log K M)
      → Indexed s
      → Indexed (shrink_pool router to_remove s log).0
  unfolding shrink_pool
  shrink_pool-Indexed to_remove s log ix = shrink_from-Indexed _ _ s log ix
