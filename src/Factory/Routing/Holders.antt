-- ===== src/Factory/Routing/Holders.antt =====
-- Where key-persistent routing (ractor/src/factory/routing.rs) places the jobs of one key.
use ractor.Prelude.{
  ℕ, zero, suc, ◌+◌, none, ◌≤◌, ◌≡◌, refl, Bool, Option, some, [], ◌∷◌, arith, ltb, Option-cases,
  inl, inr, ap, is_some, ◌∙◌, subst, if_pos, if_neg, eq_of_some,
}
use ractor.Prelude.Map.{lookup, insert, remove}
use native.Mathlib.Decide.{ℕ_discrete}
use ractor.Factory.Job.{Clock, Job}
use ractor.Factory.Effects.{Log, CastOutcome}
use ractor.Factory.Worker.{WorkerProperties, has_pending_key}
use ractor.Factory.Worker.Pending.{held, entry}
use ractor.Factory.Worker.Invariant.{IsValid, enqueue_job-IsValid}
use ractor.Factory.Routing.Contract.{
  Pool, get_worker, put_worker, route_chosen, route_to, enqueue_at,
}
use ractor.Factory.Routing.Persistent.{persistent_choose, key_persistent_routing}
use ractor.Factory.Routing.Placement.{count_values, trackers, route_message-OneTracker}

module _ {K M : Type 0} (dec : Discrete K) where
  -- Each worker's index counts exactly the jobs that it holds, and at most one of them is active.
  abbrev pub AllValid : Pool K M → Type 0
  AllValid [] = Unit
  AllValid ((wid, w) ∷ pool) = IsValid dec w × AllValid pool

  -- Whether a job with the key is among those that the worker holds, active or queued.
  abbrev pub holds : K → WorkerProperties K M → Bool
  holds k w = ltb 0 (held dec w k)

  -- How many workers hold a job with the key.
  abbrev pub holders : K → Pool K M → ℕ
  holders k pool = count_values ℕ_discrete (holds k) pool

  -- No key has its jobs on two workers.
  abbrev pub Exclusive : Pool K M → Type 0
  Exclusive pool = (k : K) → holders k pool ≤ 1

  has_pending_key-holds :
      (k : K) (w : WorkerProperties K M) → IsValid dec w → has_pending_key dec k w ≡ holds k w
  unfolding has_pending_key
  has_pending_key-holds k w v = ap is_some (v.counted k) ∙ counted (held dec w k)
    where
      counted : (n : ℕ) → is_some (entry (0 + n)) ≡ ltb 0 n
      counted zero = ground arith
      counted (suc n) = ground arith

  trackers-holders :
      (k : K) (pool : Pool K M) → AllValid pool → trackers dec k pool ≡ holders k pool
  trackers-holders k [] v = refl
  trackers-holders k ((wid, w) ∷ pool) (v, vs) =
      ground (arith, has_pending_key-holds k w v, trackers-holders k pool vs)

  pub lookup-AllValid :
      (wid : ℕ) (w : WorkerProperties K M) (pool : Pool K M)
      → AllValid pool
      → get_worker wid pool ≡ some w
      → IsValid dec w
  unfolding lookup
  lookup-AllValid wid w [] v e = absurd (ground (arith, e))
  lookup-AllValid wid w ((i, u) ∷ pool) (v, vs) e = elim (ℕ_discrete i wid) [
    | yes p ↦ subst (λ x. IsValid dec x) (eq_of_some (rw (if_pos (ℕ_discrete i wid) p) at e)) v
    | no p ↦ lookup-AllValid wid w pool vs (rw (if_neg (ℕ_discrete i wid) p) at e)
  ]

  pub remove-AllValid :
      (wid : ℕ) (pool : Pool K M) → AllValid pool → AllValid (remove ℕ_discrete wid pool)
  unfolding remove
  remove-AllValid wid [] v = v
  remove-AllValid wid ((i, u) ∷ pool) (v, vs) = elim (ℕ_discrete i wid) [
    | yes p ↦ rw (if_pos (ℕ_discrete i wid) p) (remove-AllValid wid pool vs)
    | no p ↦ rw (if_neg (ℕ_discrete i wid) p) (v, remove-AllValid wid pool vs)
  ]

  pub put_worker-AllValid :
      (wid : ℕ) (w : WorkerProperties K M) (pool : Pool K M)
      → AllValid pool
      → IsValid dec w
      → AllValid (put_worker wid w pool)
  unfolding insert
  put_worker-AllValid wid w [] v h = (h, v)
  put_worker-AllValid wid w ((i, u) ∷ pool) (v, vs) h = elim (ℕ_discrete i wid) [
    | yes p ↦ rw (if_pos (ℕ_discrete i wid) p) (h, remove-AllValid wid pool vs)
    | no p ↦ rw (if_neg (ℕ_discrete i wid) p) (v, put_worker-AllValid wid w pool vs h)
  ]

  pub enqueue_at-AllValid :
      {R : Type 0} (cast : ℕ → CastOutcome) (c : Clock) (job : Job K M) (wid : ℕ) (r : R)
      (pool : Pool K M) (log : Log K M)
      → AllValid pool
      → AllValid (enqueue_at dec cast c job wid (get_worker wid pool) r pool log).2
  unfolding enqueue_at
  enqueue_at-AllValid cast c job wid r pool log v = elim (Option-cases (get_worker wid pool)) [
    | inl e ↦ rw (e, enqueue_at) v
    | inr (w, e) ↦
        rw (e, enqueue_at)
          (put_worker-AllValid wid _ pool v
            (enqueue_job-IsValid dec cast c job w log (lookup-AllValid wid w pool v e)))
  ]

  pub route_to-AllValid :
      {R : Type 0} (cast : ℕ → CastOutcome) (c : Clock) (job : Job K M) (target : Option ℕ) (r : R)
      (pool : Pool K M) (log : Log K M)
      → AllValid pool
      → AllValid (route_to dec cast c job target r pool log).2
  unfolding route_to
  route_to-AllValid cast c job none r pool log v = v
  route_to-AllValid cast c job (some wid) r pool log v =
      enqueue_at-AllValid cast c job wid r pool log v

  -- Whatever the hash, the hint and the mailboxes: where each worker's pending-key index counts exactly
  -- the jobs that the worker holds, queued or active, and no key has its jobs on two workers,
  -- key-persistent routing of a job keeps it so.
  pub route_message-Exclusive :
      (hash : K → ℕ) (cast : ℕ → CastOutcome) (c : Clock) (job : Job K M) (pool_size : ℕ)
      (hint : Option ℕ) (pool : Pool K M) (log : Log K M)
      → AllValid pool
      → Exclusive pool
      → let router = key_persistent_routing dec hash in
        let after = (router.route_message cast c job pool_size hint tt pool log).2 in
        AllValid after × Exclusive after
  unfolding key_persistent_routing route_chosen
  route_message-Exclusive hash cast c job pool_size hint pool log v ex =
      let choice = persistent_choose dec hash job pool_size hint pool tt in
      let valid = route_to-AllValid cast c job choice.0 choice.1 pool log v in
      let tracked =
        route_message-OneTracker dec hash cast c job pool_size hint pool log
          (λ k. rw (trackers-holders k pool v) (ex k)) in
      (valid, λ k. rw⁻¹ (trackers-holders k _ valid) (tracked k))
