-- ===== src/Factory/Routing/Placement.antt =====
-- Which workers' pending-key indices have a key under key-persistent routing
-- (ractor/src/factory/routing.rs).
use ractor.Prelude.{
  ℕ, ◌+◌, ◌≤◌, ◌≡◌, ◌≢◌, refl, Bool, false, Option, none, some, [], ◌∷◌, arith, count_if,
  Option-cases, inl, inr, get_or, ap, is_some,
}
use ractor.Prelude.Map.{Map, lookup, insert, remove, lookup-insert}
use native.Mathlib.Decide.{ℕ_discrete}
use ractor.Factory.Job.{Clock, Job}
use ractor.Factory.Effects.{Log, CastOutcome}
use ractor.Factory.Worker.{WorkerProperties, has_pending_key, enqueue_job, count_up, count_down}
use ractor.Factory.Worker.Pending.{lower, lookup-count_down}
use ractor.Factory.Worker.Closed.{enqueue_job-Keeps}
use ractor.Factory.Routing.Contract.{Pool, get_worker, route_chosen, route_to, enqueue_at}
use ractor.Factory.Routing.Persistent.{find_pending, persistent_choose, key_persistent_routing}

module _ {K V : Type 0} (dec : Discrete K) (p : V → Bool) where
  abbrev pub count_values : Map K V → ℕ
  count_values m = count_if (λ e. p e.1) m

  count_values-remove-le : (k : K) (m : Map K V) → count_values (remove dec k m) ≤ count_values m
  unfolding remove
  count_values-remove-le k [] = omega arith
  count_values-remove-le k ((j, v) ∷ m) = ground (arith, count_values-remove-le k m)

  count_values-insert-le :
      (k : K) (v : V) (m : Map K V)
      → count_values (insert dec k v m) ≤ 1 + count_values (remove dec k m)
  unfolding insert remove
  count_values-insert-le k v [] = ground arith
  count_values-insert-le k v ((j, w) ∷ m) = ground (arith, count_values-insert-le k v m)

  -- A write that passes the test only where the old value did adds none that pass.
  count_values-replace-le :
      (k : K) (v w : V) (m : Map K V)
      → lookup dec k m ≡ some w
      → (p w ≡ false → p v ≡ false)
      → count_values (insert dec k v m) ≤ count_values m
  unfolding insert lookup
  count_values-replace-le k v w [] e h = ground arith
  count_values-replace-le k v w ((j, u) ∷ m) e h =
      ground (arith, count_values-replace-le k v w m, count_values-remove-le k m)

module _ {K M : Type 0} (dec : Discrete K) where
  -- How many workers have the key in their pending-key index.
  abbrev pub trackers : K → Pool K M → ℕ
  trackers k pool = count_values ℕ_discrete (has_pending_key dec k) pool

  -- No key is in the index of two workers.
  abbrev pub OneTracker : Pool K M → Type 0
  OneTracker pool = (k : K) → trackers k pool ≤ 1

  find_pending-none :
      (k : K) (pool : Pool K M) → find_pending dec k pool ≡ none → trackers k pool ≡ 0
  unfolding find_pending
  find_pending-none k [] e = refl
  find_pending-none k ((wid, w) ∷ pool) e = ground (arith, find_pending-none k pool)

  -- Beside the worker that `find_pending` gives, none has the key.
  find_pending-some :
      (k : K) (wid : ℕ) (pool : Pool K M)
      → find_pending dec k pool ≡ some wid
      → trackers k pool ≤ 1
      → trackers k (remove ℕ_discrete wid pool) ≡ 0
  unfolding find_pending remove
  find_pending-some k wid [] e h = ground arith
  find_pending-some k wid ((i, w) ∷ pool) e h = ground (
    arith,
    find_pending-some k wid pool,
    count_values-remove-le ℕ_discrete (has_pending_key dec k) wid pool,
  )

  none_of_untracked :
      (k : K) (w : WorkerProperties K M)
      → has_pending_key dec k w ≡ false
      → lookup dec k w.pending_key_counts ≡ none
  unfolding has_pending_key
  none_of_untracked k w h = ground arith

  -- A worker takes up no key but that of the job it is given.
  enqueue_job-untracked :
      (k : K) (cast : ℕ → CastOutcome) (c : Clock) (job : Job K M) (w : WorkerProperties K M)
      (log : Log K M)
      → job.key ≢ k
      → has_pending_key dec k w ≡ false
      → has_pending_key dec k (enqueue_job dec cast c job w log).0 ≡ false
  unfolding has_pending_key count_up lower
  enqueue_job-untracked k cast c job w log ne h =
      let absent = none_of_untracked k w h in
      ap is_some (
        enqueue_job-Keeps dec (λ m. lookup dec k m ≡ none) closed cast c job w log absent
          (ground (
            arith,
            lookup-insert dec job.key k (get_or (lookup dec job.key w.pending_key_counts) 0 + 1)
                w.pending_key_counts,
          )))
    where
      closed :
          (j : K) (m : Map K ℕ) → lookup dec k m ≡ none → lookup dec k (count_down dec j m) ≡ none
      closed j m e = elim (dec j k) [
        | yes q ↦ ground (arith, lookup-count_down dec j k m)
        | no q ↦ ground (arith, lookup-count_down dec j k m)
      ]

  -- Where no worker but the target holds the job's key, the placement of the job keeps it so.
  route_to-OneTracker :
      (cast : ℕ → CastOutcome) (c : Clock) (job : Job K M) (target : Option ℕ) (r : Unit {0})
      (pool : Pool K M) (log : Log K M)
      → OneTracker pool
      → ((wid : ℕ) → target ≡ some wid → trackers job.key (remove ℕ_discrete wid pool) ≡ 0)
      → OneTracker (route_to dec cast c job target r pool log).2
  unfolding route_to enqueue_at
  route_to-OneTracker cast c job none r pool log ex alone k = ex k
  route_to-OneTracker cast c job (some wid) r pool log ex alone k =
      elim (Option-cases (get_worker wid pool)) [
        | inl e ↦ rw (e, enqueue_at) (ex k)
        | inr (w, e) ↦
            rw (e, enqueue_at)
              (elim (dec job.key k) [
                | yes q ↦ ground (
                  arith,
                  alone wid refl,
                  count_values-insert-le ℕ_discrete (has_pending_key dec k) wid
                      (enqueue_job dec cast c job w log).0 pool,
                )
                | no q ↦ omega (
                  arith,
                  ex k,
                  count_values-replace-le ℕ_discrete (has_pending_key dec k) wid
                      (enqueue_job dec cast c job w log).0 w pool e
                      (enqueue_job-untracked k cast c job w log q),
                )
              ])
      ]

  -- Beside the worker that is chosen, none holds the job's key.
  persistent_choose-alone :
      (hash : K → ℕ) (job : Job K M) (pool_size : ℕ) (hint : Option ℕ) (pool : Pool K M) (wid : ℕ)
      → OneTracker pool
      → (persistent_choose dec hash job pool_size hint pool tt).0 ≡ some wid
      → trackers job.key (remove ℕ_discrete wid pool) ≡ 0
  unfolding persistent_choose
  persistent_choose-alone hash job pool_size hint pool wid ex e = ground (
    arith,
    find_pending-none job.key pool,
    find_pending-some job.key wid pool,
    ex job.key,
    count_values-remove-le ℕ_discrete (has_pending_key dec job.key) wid pool,
  )

  pub route_message-OneTracker :
      (hash : K → ℕ) (cast : ℕ → CastOutcome) (c : Clock) (job : Job K M) (pool_size : ℕ)
      (hint : Option ℕ) (pool : Pool K M) (log : Log K M)
      → OneTracker pool
      → let router = key_persistent_routing dec hash in
        OneTracker (router.route_message cast c job pool_size hint tt pool log).2
  unfolding key_persistent_routing route_chosen
  route_message-OneTracker hash cast c job pool_size hint pool log ex =
      let choice = persistent_choose dec hash job pool_size hint pool tt in
      route_to-OneTracker cast c job choice.0 choice.1 pool log ex
        (λ wid e. persistent_choose-alone hash job pool_size hint pool wid ex e)
