-- ===== src/Factory/Worker/Pending.antt =====
-- The pending-key index of a worker (ractor/src/factory/worker.rs) counts exactly the jobs that it
-- holds, queued or active.
use ractor.Prelude.{
  ℕ, zero, suc, ◌+◌, ◌-◌, ◌≡◌, refl, ◌∙◌, Option, none, some, List, [], ◌∷◌, ◌++◌, arith, ite, ltb,
  ◌==◌, if◌then◌else◌, get_or, length, Bool-cases, Option-cases, inl, inr,
}
use ractor.Prelude.Map.{Map, lookup, insert, keys, lookup-insert, lookup-remove}
use ractor.Factory.Job.{Clock, Job, set_worker_time}
use ractor.Factory.Effects.{Log, CastOutcome, sent, send_err, invalid_type}
use ractor.Factory.Worker.Fields.{next_job_rule}
use ractor.Factory.Worker.{
  drop_expired, WorkerProperties, count_up, count_down, track_pending_key, untrack_pending_key,
  untrack_keys, get_next_non_expired_job, dispatch_job, dispatch_taken, dispatch_or_wait,
  dispatch_next, shed_job, shed_oldest, push_back,
}

-- A count of 0 has no entry.
abbrev pub entry : ℕ → Option ℕ
entry zero = none
entry (suc n) = some (suc n)

module _ {K : Type 0} (dec : Discrete K) where
  -- How often a key stands among these.
  abbrev pub key_count : K → List K → ℕ
  key_count k [] = 0
  key_count k (j ∷ js) = ite (dec j k) 1 0 + key_count k js

  entry-count_up :
      (k j : K) (m : Map K ℕ) (n : ℕ)
      → lookup dec j m ≡ entry n
      → lookup dec j (count_up dec k m) ≡ entry (ite (dec k j) 1 0 + n)
  unfolding count_up
  entry-count_up k j m zero h =
      ground (arith, lookup-insert dec k j (get_or (lookup dec k m) 0 + 1) m)
  entry-count_up k j m (suc n) h =
      ground (arith, lookup-insert dec k j (get_or (lookup dec k m) 0 + 1) m)

  -- What `count_down` leaves of an entry.
  unfoldable pub lower : Option ℕ → Option ℕ
  lower none = none
  lower (some n) = if n == 1 then none else some (n - 1)

  pub lookup-count_down :
      (k j : K) (m : Map K ℕ)
      → lookup dec j (count_down dec k m) ≡ ite (dec k j) (lower (lookup dec k m)) (lookup dec j m)
  unfolding count_down lower
  lookup-count_down k j m = elim (Option-cases (lookup dec k m)) [
    | inl e ↦ rw (e, count_down, lower) (ground arith)
    | inr (n, e) ↦
        rw (e, count_down, lower)
          (ground (arith, lookup-insert dec k j (n - 1) m, lookup-remove dec k j m))
  ]

  entry-count_down :
      (k j : K) (m : Map K ℕ) (n : ℕ)
      → lookup dec j m ≡ entry (ite (dec k j) 1 0 + n)
      → lookup dec j (count_down dec k m) ≡ entry n
  unfolding lower
  entry-count_down k j m zero h = ground (arith, lookup-count_down k j m)
  entry-count_down k j m (suc n) h = ground (arith, lookup-count_down k j m)

module _ {K M : Type 0} (dec : Discrete K) where
  abbrev pub job_count : K → List (Job K M) → ℕ
  job_count k [] = 0
  job_count k (j ∷ js) = ite (dec j.key k) 1 0 + job_count k js

  -- How many jobs with the key the worker holds, active or queued.
  abbrev pub held : WorkerProperties K M → K → ℕ
  held w k = key_count dec k (keys w.curr_jobs) + job_count k w.message_queue

  -- The index counts the jobs that the worker holds, and those of `extra`, which are in hand.
  abbrev pub Counts : List K → WorkerProperties K M → Type 0
  Counts extra w =
      (k : K) → lookup dec k w.pending_key_counts ≡ entry (key_count dec k extra + held w k)

  job_count-append :
      (k : K) (xs ys : List (Job K M)) → job_count k (xs ++ ys) ≡ job_count k xs + job_count k ys
  job_count-append k [] ys = omega arith
  job_count-append k (x ∷ xs) ys = omega (arith, job_count-append k xs ys)

  pub track-Counts :
      (extra : List K) (key : K) (w : WorkerProperties K M)
      → Counts extra w
      → Counts (key ∷ extra) (track_pending_key dec key w)
  unfolding track_pending_key
  track-Counts extra key w h k =
      ground (
        arith,
        h k,
        entry-count_up dec key k w.pending_key_counts (key_count dec k extra + held w k),
      )

  pub untrack-Counts :
      (extra : List K) (key : K) (w : WorkerProperties K M)
      → Counts (key ∷ extra) w
      → Counts extra (untrack_pending_key dec key w)
  unfolding untrack_pending_key
  untrack-Counts extra key w h k = ground (
    arith,
    h k,
    entry-count_down dec key k w.pending_key_counts (key_count dec k extra + held w k),
  )

  -- What the index counts once a job may have been taken in hand.
  abbrev pub CountsWith : List K → Option (Job K M) → WorkerProperties K M → Type 0
  CountsWith extra none w = Counts extra w
  CountsWith extra (some job) w = Counts (job.key ∷ extra) w

  -- What is known of the worker once the next job has been taken in hand.
  pub record Taken (extra : List K) (w : WorkerProperties K M) (next : Option (Job K M))
      (w' : WorkerProperties K M) : Type 0 where
    pub counts : CountsWith extra next w'
    pub same_jobs : w'.curr_jobs ≡ w.curr_jobs

  pub next_job-Taken :
      (extra : List K) (c : Clock) (w : WorkerProperties K M) (log : Log K M)
      → Counts extra w
      → Taken extra w
          (get_next_non_expired_job dec c w log).0
          (get_next_non_expired_job dec c w log).1
  unfolding drop_expired untrack_pending_key
  next_job-Taken extra c w log h =
      next_job_rule dec c
        (λ queue v. Counts extra (record v { message_queue = queue }) × (v.curr_jobs ≡ w.curr_jobs))
        (Taken extra w) (λ v q. record { counts = q.0; same_jobs = q.1 })
        (λ job queue v live q. record { counts = taken job queue v q.0; same_jobs = q.1 })
        (λ job queue v q. (
          untrack-Counts extra job.key (record v { message_queue = queue }) (taken job queue v q.0),
          q.1,
        ))
        w log (h, refl)
    where
      taken :
          (job : Job K M) (queue : List (Job K M)) (v : WorkerProperties K M)
          → Counts extra (record v { message_queue = job ∷ queue })
          → Counts (job.key ∷ extra) (record v { message_queue = queue })
      taken job queue v q k = ground (arith, q k)

  pub dispatch_job-Counts :
      (extra : List K) (cast : ℕ → CastOutcome) (c : Clock) (job : Job K M)
      (w : WorkerProperties K M) (log : Log K M)
      → w.curr_jobs ≡ []
      → Counts (job.key ∷ extra) w
      → Counts extra (dispatch_job dec cast c job w log).0
  unfolding dispatch_job set_worker_time insert
  dispatch_job-Counts extra cast c job w log idle h = go (cast w.actor) refl
    where
      go : (o : CastOutcome) → cast w.actor ≡ o → Counts extra (dispatch_job dec cast c job w log).0
      go sent e k = rw (e, dispatch_job) (ground (arith, h k))
      go send_err e k = rw (e, dispatch_job) (ground (arith, h k))
      go invalid_type e k = rw (e, dispatch_job) (untrack-Counts extra job.key w h k)

  pub dispatch_taken-Counts :
      (cast : ℕ → CastOutcome) (c : Clock) (next : Option (Job K M)) (w : WorkerProperties K M)
      (log : Log K M)
      → w.curr_jobs ≡ []
      → CountsWith [] next w
      → Counts [] (dispatch_taken dec cast c next w log).0
  unfolding dispatch_taken
  dispatch_taken-Counts cast c none w log idle h = h
  dispatch_taken-Counts cast c (some job) w log idle h =
      dispatch_job-Counts [] cast c job w log idle h

  pub dispatch_next-Counts :
      (cast : ℕ → CastOutcome) (c : Clock) (w : WorkerProperties K M) (log : Log K M)
      → w.curr_jobs ≡ []
      → Counts [] w
      → Counts [] (dispatch_next dec cast c w log).0
  unfolding dispatch_next
  dispatch_next-Counts cast c w log idle h =
      let t = next_job-Taken [] c w log h in
      dispatch_taken-Counts cast c _ _ _ (t.same_jobs ∙ idle) t.counts

  pub push_back-Counts :
      (extra : List K) (job : Job K M) (w : WorkerProperties K M)
      → Counts (job.key ∷ extra) w
      → Counts extra (push_back dec job w)
  unfolding push_back
  push_back-Counts extra job w h k =
      ground (arith, h k, job_count-append k w.message_queue (job ∷ []))

  swap-Counts : (a b : K) (w : WorkerProperties K M) → Counts (a ∷ b ∷ []) w → Counts (b ∷ a ∷ []) w
  swap-Counts a b w h k = ground (arith, h k)

  pub dispatch_or_wait-Counts :
      (cast : ℕ → CastOutcome) (c : Clock) (job : Job K M) (next : Option (Job K M))
      (w : WorkerProperties K M) (log : Log K M)
      → w.curr_jobs ≡ []
      → CountsWith (job.key ∷ []) next w
      → Counts [] (dispatch_or_wait dec cast c job next w log).0
  unfolding dispatch_or_wait
  dispatch_or_wait-Counts cast c job none w log idle h =
      dispatch_job-Counts [] cast c job w log idle h
  dispatch_or_wait-Counts cast c job (some older) w log idle h =
      dispatch_job-Counts [] cast c older (push_back dec job w) log (unfold push_back in idle)
        (push_back-Counts (older.key ∷ []) job w (swap-Counts older.key job.key w h))

  shed_job-Counts :
      (next : Option (Job K M)) (w : WorkerProperties K M) (log : Log K M)
      → CountsWith [] next w
      → Counts [] (shed_job dec next w log).0
  unfolding shed_job
  shed_job-Counts none w log h = h
  shed_job-Counts (some job) w log h = untrack-Counts [] job.key w h

  pub shed_oldest-Counts :
      (fuel : ℕ) (c : Clock) (limit : ℕ) (w : WorkerProperties K M) (log : Log K M)
      → Counts [] w
      → Counts [] (shed_oldest dec fuel c limit w log).0
  unfolding shed_oldest
  shed_oldest-Counts zero c limit w log h = h
  shed_oldest-Counts (suc fuel) c limit w log h =
      elim (Bool-cases (ltb limit (length w.message_queue))) [
        | inl e ↦ rw e (
            shed_oldest-Counts fuel c limit _ _
              (shed_job-Counts _ _ _ (next_job-Taken [] c w log h).counts))
        | inr e ↦ rw e h
      ]

  pub untrack_keys-Counts :
      (ks extra : List K) (w : WorkerProperties K M)
      → Counts (ks ++ extra) w
      → Counts extra (untrack_keys dec ks w)
  unfolding untrack_keys
  untrack_keys-Counts [] extra w h = h
  untrack_keys-Counts (k ∷ ks) extra w h =
      untrack_keys-Counts ks extra _ (untrack-Counts (ks ++ extra) k w h)
