-- ===== src/Factory/State/Growth.antt =====
-- Which workers the pool has after the loop of `grow_pool` (ractor/src/factory/factoryimpl.rs).
use ractor.Prelude.{
  ℕ, zero, suc, ◌+◌, ◌≤◌, ◌<◌, ◌≡◌, ◌≢◌, refl, sym, ap, ◌∙◌, Bool, true, false, not, ◌&&◌, Option,
  none, some, arith, ℕ_discrete, inl, inr, Bool-cases, Option-cases, if◌then◌else◌,
}
use ractor.Prelude.Map.{remove, lookup-insert, lookup-remove}
use ractor.Factory.Worker.{WorkerProperties, new_worker, set_draining, is_working}
use ractor.Factory.Routing.Contract.{Pool, Router, get_worker, put_worker}
use ractor.Factory.State.{FactoryState}
use ractor.Factory.State.Grow.{grow_worker, grow_from}

module _ {K M : Type 0} where
  -- There is a worker, and it does not drain.
  abbrev pub staffed : Option (WorkerProperties K M) → Bool
  staffed none = false
  staffed (some w) = not w.is_draining

  -- There is no worker, or it drains and works on its last job.
  abbrev pub leaving : Option (WorkerProperties K M) → Bool
  leaving none = true
  leaving (some w) = w.is_draining && is_working w

  pub put_worker-others :
      (wid i : ℕ) (w : WorkerProperties K M) (pool : Pool K M)
      → i ≢ wid
      → get_worker i (put_worker wid w pool) ≡ get_worker i pool
  put_worker-others wid i w pool ne = ground (arith, lookup-insert ℕ_discrete wid i w pool)

  pub put_worker-there :
      (wid : ℕ) (w : WorkerProperties K M) (pool : Pool K M)
      → get_worker wid (put_worker wid w pool) ≡ some w
  put_worker-there wid w pool = ground (arith, lookup-insert ℕ_discrete wid wid w pool)

  pub removed : (wid : ℕ) (pool : Pool K M) → get_worker wid (remove ℕ_discrete wid pool) ≡ none
  removed wid pool = ground (arith, lookup-remove ℕ_discrete wid wid pool)

  -- The loop has staffed all of these ids, or those before one that had no worker and whose spawn fails.
  abbrev pub Grew : (ℕ → Option (ℕ × ℕ)) → ℕ → ℕ → Pool K M → Bool → Pool K M → Type 0
  Grew spawned wid count before true after =
      (i : ℕ) → wid ≤ i → i < wid + count → staffed (get_worker i after) ≡ true
  Grew spawned wid count before false after =
      (k : ℕ) × (wid ≤ k)
      × (k < wid + count)
      × (spawned k ≡ none)
      × (get_worker k before ≡ none)
      × ((i : ℕ) → wid ≤ i → i < k → staffed (get_worker i after) ≡ true)

module _ {K M R Q : Type 0} (router : Router K M R) where
  grow_worker-others :
      (spawned : Option (ℕ × ℕ)) (wid i : ℕ) (s : FactoryState K M R Q)
      → i ≢ wid
      → get_worker i (grow_worker router spawned wid (get_worker wid s.pool) s).1.pool
        ≡ get_worker i s.pool
  unfolding grow_worker
  grow_worker-others spawned wid i s ne = elim (Option-cases (get_worker wid s.pool)) [
    | inr (w, e) ↦ rw (e, grow_worker) (put_worker-others wid i (set_draining false w) s.pool ne)
    | inl e ↦ new spawned e
  ]
    where
      new :
          (spawned : Option (ℕ × ℕ))
          → get_worker wid s.pool ≡ none
          → get_worker i (grow_worker router spawned wid (get_worker wid s.pool) s).1.pool
            ≡ get_worker i s.pool
      new none e = rw (e, grow_worker)
      new (some (a, h)) e = rw (e, grow_worker) (put_worker-others wid i _ s.pool ne)

  -- What a round has done for its worker id.
  abbrev Round :
      (ℕ → Option (ℕ × ℕ)) → ℕ → FactoryState K M R Q → Bool × FactoryState K M R Q → Type 0
  Round spawned wid s (true, t) = staffed (get_worker wid t.pool) ≡ true
  Round spawned wid s (false, t) = (spawned wid ≡ none) × (get_worker wid s.pool ≡ none)

  grow_worker-Round :
      (spawned : ℕ → Option (ℕ × ℕ)) (wid : ℕ) (s : FactoryState K M R Q)
      → Round spawned wid s (grow_worker router (spawned wid) wid (get_worker wid s.pool) s)
  unfolding grow_worker set_draining new_worker
  grow_worker-Round spawned wid s = elim (Option-cases (get_worker wid s.pool)) [
    | inr (w, e) ↦
        rw (e, grow_worker) (ap staffed (put_worker-there wid (set_draining false w) s.pool))
    | inl e ↦ elim (Option-cases (spawned wid)) [
      | inl f ↦ rw (e, f, grow_worker) (f, e)
      | inr ((a, h), f) ↦ rw (e, f, grow_worker) (ap staffed (put_worker-there wid _ s.pool))
    ]
  ]

  pub grow_from-below :
      (spawned : ℕ → Option (ℕ × ℕ)) (count wid i : ℕ) (s : FactoryState K M R Q)
      → i < wid
      → get_worker i (grow_from router spawned count wid s).1.pool ≡ get_worker i s.pool
  unfolding grow_from
  grow_from-below spawned zero wid i s h = refl
  grow_from-below spawned (suc count) wid i s h =
      let one = grow_worker router (spawned wid) wid (get_worker wid s.pool) s in
      let first = grow_worker-others (spawned wid) wid i s (λ e. absurd (omega arith)) in
      elim (Bool-cases one.0) [
        | inl e ↦ rw e (grow_from-below spawned count (wid + 1) i one.1 (omega arith) ∙ first)
        | inr e ↦ rw e first
      ]

  pub grow_from-Grew :
      (spawned : ℕ → Option (ℕ × ℕ)) (count wid : ℕ) (s : FactoryState K M R Q)
      → let r = grow_from router spawned count wid s in Grew spawned wid count s.pool r.0 r.1.pool
  unfolding grow_from
  grow_from-Grew spawned zero wid s = λ i l h. absurd (omega arith)
  grow_from-Grew spawned (suc count) wid s =
      let one = grow_worker router (spawned wid) wid (get_worker wid s.pool) s in
      go one.0 one.1 (grow_from router spawned count (wid + 1) one.1).0
        (grow_from router spawned count (wid + 1) one.1).1
        (λ i ne. grow_worker-others (spawned wid) wid i s ne) (grow_worker-Round spawned wid s)
        (λ i l. grow_from-below spawned count (wid + 1) i one.1 l)
        (grow_from-Grew spawned count (wid + 1) one.1)
    where
      go :
          (ok : Bool) (t : FactoryState K M R Q) (rest : Bool) (u : FactoryState K M R Q)
          → ((i : ℕ) → i ≢ wid → get_worker i t.pool ≡ get_worker i s.pool)
          → Round spawned wid s (ok, t)
          → ((i : ℕ) → i < wid + 1 → get_worker i u.pool ≡ get_worker i t.pool)
          → Grew spawned (wid + 1) count t.pool rest u.pool
          → let r : Bool × FactoryState K M R Q = if ok then (rest, u) else (ok, t) in
            Grew spawned wid (suc count) s.pool r.0 r.1.pool
      go false t rest u others (f, e) below grew =
          (wid, omega arith, omega arith, f, e, λ i l h. absurd (omega arith))
      go true t true u others staffed_here below grew = λ i l h. elim (ℕ_discrete i wid) [
        | yes p ↦ ap staffed (below i (omega arith)) ∙ rw p staffed_here
        | no p ↦ grew i (omega arith) (omega arith)
      ]
      go true t false u others staffed_here below (k, l, h, f, e, before) = (
        k,
        omega arith,
        omega arith,
        f,
        sym (others k (λ p. absurd (omega arith))) ∙ e,
        λ i l' h'. elim (ℕ_discrete i wid) [
          | yes p ↦ ap staffed (below i (omega arith)) ∙ rw p staffed_here
          | no p ↦ before i (omega arith) (omega arith)
        ],
      )
