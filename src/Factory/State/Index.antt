-- ===== src/Factory/State/Index.antt =====
-- The index of workers by actor (`worker_by_actor` of ractor/src/factory/factoryimpl.rs) agrees with
-- the pool.
use ractor.Prelude.{
  ℕ, ◌≡◌, refl, Bool, Option, none, some, arith, true, false, ◌∙◌, List, [], ◌∷◌, Bool-cases,
  is_some, inl, inr,
}
use ractor.Prelude.Map.{lookup, remove, keys, lookup-insert, lookup-remove}
use native.Mathlib.Decide.{ℕ_discrete}
use ractor.Factory.Job.{Clock, Job}
use ractor.Factory.Effects.{Event, Log, CastOutcome, sent, send_err, invalid_type}
use ractor.Factory.Worker.{
  WorkerProperties, untrack_pending_key, untrack_keys, drop_expired, get_next_non_expired_job,
  dispatch_job, dispatch_taken, dispatch_next, replace_worker, send_factory_ping,
}
use ractor.Factory.Worker.Fields.{next_job_rule}
use ractor.Factory.Routing.Contract.{get_worker}
use ractor.Factory.State.{FactoryState, drop_worker}
use ractor.Factory.State.Replace.{with_new_actor, replace_in_pool}

module _ {K M : Type 0} where
  abbrev pub actor_of : Option (WorkerProperties K M) → Option ℕ
  actor_of none = none
  actor_of (some w) = some w.actor

  -- The worker has this actor and this id.
  abbrev pub Is : ℕ → ℕ → WorkerProperties K M → Type 0
  Is actor wid w = (w.actor ≡ actor) × (w.wid ≡ wid)

  untrack_keys-wid :
      (dec : Discrete K) (ks : List K) (w : WorkerProperties K M)
      → (untrack_keys dec ks w).wid ≡ w.wid
  unfolding untrack_keys untrack_pending_key
  untrack_keys-wid dec [] w = refl
  untrack_keys-wid dec (k ∷ ks) w = untrack_keys-wid dec ks (untrack_pending_key dec k w)

  module _ (dec : Discrete K) (a i : ℕ) where
    pub dispatch_job-Is :
        (cast : ℕ → CastOutcome) (c : Clock) (job : Job K M) (w : WorkerProperties K M)
        (log : Log K M)
        → Is a i w
        → Is a i (dispatch_job dec cast c job w log).0
    unfolding dispatch_job untrack_pending_key
    dispatch_job-Is cast c job w log h = go (cast w.actor) refl
      where
        go : (o : CastOutcome) → cast w.actor ≡ o → Is a i (dispatch_job dec cast c job w log).0
        go sent e = rw (e, dispatch_job) h
        go send_err e = rw (e, dispatch_job) h
        go invalid_type e = rw (e, dispatch_job) h

    pub dispatch_next-Is :
        (cast : ℕ → CastOutcome) (c : Clock) (w : WorkerProperties K M) (log : Log K M)
        → Is a i w
        → Is a i (dispatch_next dec cast c w log).0
    unfolding dispatch_next dispatch_taken drop_expired untrack_pending_key
    dispatch_next-Is cast c w log h =
        let (next, w', log') = get_next_non_expired_job dec c w log in
        go next w' log' (
          next_job_rule dec c (λ q v. Is a i v) (λ n v. Is a i v) (λ v q. q)
            (λ job queue v live q. q) (λ job queue v q. kept job queue v q) w log h)
      where
        kept :
            (job : Job K M) (queue : List (Job K M)) (v : WorkerProperties K M)
            → Is a i v
            → Is a i (drop_expired dec job queue v)
        kept job queue v q = q

        go :
            (next : Option (Job K M)) (v : WorkerProperties K M) (log' : Log K M)
            → Is a i v
            → Is a i (dispatch_taken dec cast c next v log').0
        go none v log' q = q
        go (some job) v log' q = dispatch_job-Is cast c job v log' q

    send_factory_ping-Is :
        (cast : ℕ → CastOutcome) (c : Clock) (w : WorkerProperties K M) (log : Log K M)
        → Is a i w
        → Is a i (send_factory_ping cast c w log).0
    unfolding send_factory_ping
    send_factory_ping-Is cast c w log h = elim (Bool-cases (is_some w.heartbeat)) [
      | inl e ↦ rw e h
      | inr e ↦ rw e (go (cast w.actor) refl)
    ]
      where
        go :
            (o : CastOutcome)
            → cast w.actor ≡ o
            → Is a i (
                (elim (cast w.actor) as (λ x. WorkerProperties K M × Log K M) [
                  | sent ↦
                      (record w { heartbeat = some c.instant }, Event.ping w.actor c.instant ∷ log)
                  | _ ↦ (w, log)
                ]).0)
        go sent e = rw e h
        go send_err e = rw e h
        go invalid_type e = rw e h

    replace_worker-Is :
        (cast : ℕ → CastOutcome) (c : Clock) (handle : ℕ) (w : WorkerProperties K M) (log : Log K M)
        → w.wid ≡ i
        → Is a i (replace_worker dec cast c a handle w log).0
    unfolding replace_worker
    replace_worker-Is cast c handle w log h = dispatch_next-Is cast c _ log (
      refl,
      untrack_keys-wid dec (keys w.curr_jobs) (record w { heartbeat = none; curr_jobs = [] }) ∙ h,
    )

    with_new_actor-Is :
        (cast : ℕ → CastOutcome) (c : Clock) (ping : Bool) (handle : ℕ) (w : WorkerProperties K M)
        (log : Log K M)
        → w.wid ≡ i
        → Is a i (with_new_actor dec cast c ping a handle w log).0
    unfolding with_new_actor
    with_new_actor-Is cast c true handle w log h =
        let (w', log') = replace_worker dec cast c a handle w log in
        send_factory_ping-Is cast c w' log' (replace_worker-Is cast c handle w log h)
    with_new_actor-Is cast c false handle w log h = replace_worker-Is cast c handle w log h

module _ {K M R Q : Type 0} where
  -- The index has exactly the actors of the pool, and the pool keeps each worker under its id.
  pub record Indexed (s : FactoryState K M R Q) : Type 0 where
    pub sound :
        (a wid : ℕ)
        → lookup ℕ_discrete a s.worker_by_actor ≡ some wid
        → actor_of (get_worker wid s.pool) ≡ some a
    pub complete :
        (a wid : ℕ)
        → actor_of (get_worker wid s.pool) ≡ some a
        → lookup ℕ_discrete a s.worker_by_actor ≡ some wid
    pub own_id : (wid : ℕ) (w : WorkerProperties K M) → get_worker wid s.pool ≡ some w → w.wid ≡ wid

  -- A worker that is dropped leaves the index as well as the pool: they stay in agreement.
  pub drop_worker-Indexed :
      (who : ℕ) (w : WorkerProperties K M) (s : FactoryState K M R Q) (log : Log K M)
      → Indexed s
      → get_worker who s.pool ≡ some w
      → Indexed (drop_worker who w s log).0
  unfolding drop_worker
  drop_worker-Indexed who w s log ix e = record {
    sound = λ a wid h. ground (
      arith,
      h,
      e,
      lookup-remove ℕ_discrete w.actor a s.worker_by_actor,
      lookup-remove ℕ_discrete who wid s.pool,
      ix.sound a wid,
      ix.complete w.actor who,
    );
    complete = λ a wid h. ground (
      arith,
      h,
      e,
      lookup-remove ℕ_discrete w.actor a s.worker_by_actor,
      lookup-remove ℕ_discrete who wid s.pool,
      ix.sound a wid,
      ix.complete a wid,
      ix.complete w.actor who,
    );
    own_id = λ wid v h. ground (arith, h, lookup-remove ℕ_discrete who wid s.pool, ix.own_id wid v);
  }

  -- The end of a worker's actor `who` keeps the index in agreement with the pool, where the new actor
  -- is one that the index does not have, and the worker keeps its id.
  pub replace_in_pool-Indexed :
      (dec : Discrete K) (cast : ℕ → CastOutcome) (c : Clock) (who actor handle wid : ℕ)
      (w : WorkerProperties K M) (s : FactoryState K M R Q) (log : Log K M)
      → Indexed s
      → lookup ℕ_discrete who s.worker_by_actor ≡ some wid
      → get_worker wid s.pool ≡ some w
      → lookup ℕ_discrete actor s.worker_by_actor ≡ none
      → Indexed (replace_in_pool dec cast c who actor handle wid w s log).0
  unfolding replace_in_pool
  replace_in_pool-Indexed dec cast c who actor handle wid w s log ix found e fresh =
      let w' = (with_new_actor dec cast c (is_some s.dead_mans_switch) actor handle w log).0 in
      let same = ix.own_id wid w e in
      let is =
        with_new_actor-Is dec actor wid cast c (is_some s.dead_mans_switch) handle w log same in
      let rest = remove ℕ_discrete who s.worker_by_actor in
      record {
        sound = λ a i h. ground (
          arith,
          h,
          e,
          found,
          same,
          is.0,
          lookup-insert ℕ_discrete actor a w.wid rest,
          lookup-remove ℕ_discrete who a s.worker_by_actor,
          lookup-insert ℕ_discrete wid i w' s.pool,
          ix.sound a i,
          ix.sound who wid,
        );
        complete = λ a i h. ground (
          arith,
          h,
          e,
          found,
          fresh,
          same,
          is.0,
          lookup-insert ℕ_discrete actor a w.wid rest,
          lookup-remove ℕ_discrete who a s.worker_by_actor,
          lookup-insert ℕ_discrete wid i w' s.pool,
          ix.complete a i,
          ix.complete who i,
        );
        own_id = λ i v h.
            ground (arith, h, is.1, lookup-insert ℕ_discrete wid i w' s.pool, ix.own_id i v);
      }
