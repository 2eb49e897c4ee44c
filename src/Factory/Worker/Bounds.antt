-- ===== src/Factory/Worker/Bounds.antt =====
-- The discard limit of a worker (ractor/src/factory/worker.rs) bounds its queue.
use ractor.Prelude.{
  ℕ, zero, suc, ◌+◌, ◌≤◌, ◌<◌, ◌≡◌, refl, ap, ◌∙◌, false, Option, none, some, [], ◌∷◌, arith, ltb,
  length, length-append, is_empty, is_some, Bool-cases, inl, inr, if◌then◌else◌, true,
}
use native.Mathlib.Nat.{le_trans}
use ractor.Factory.Job.{Clock, Job}
use ractor.Factory.Discard.{DiscardMode, worker_limit_and_mode, oldest, newest}
use ractor.Factory.Effects.{Log, CastOutcome, sent}
use ractor.Factory.Worker.Fields.{next_job_rule}
use ractor.Factory.Worker.{
  WorkerProperties, drop_expired, track_pending_key, untrack_pending_key, get_next_non_expired_job,
  dispatch_job, dispatch_or_wait, shed_job, shed_oldest, push_back, turns_away, enqueue_idle,
  enqueue_busy, enqueue_job, is_available,
}

module _ {K M : Type 0} (dec : Discrete K) where
  abbrev waiting : WorkerProperties K M → ℕ
  waiting w = length w.message_queue

  -- What taking the next job leaves.
  record Shorter (w : WorkerProperties K M) (next : Option (Job K M)) (w' : WorkerProperties K M)
      : Type 0 where
    shorter : waiting w' + (if is_some next then 1 else 0) ≤ waiting w
    emptied : next ≡ none → waiting w' ≡ 0
    same_actor : w'.actor ≡ w.actor

  next_job-Shorter :
      (c : Clock) (w : WorkerProperties K M) (log : Log K M)
      → let r = get_next_non_expired_job dec c w log in Shorter w r.0 r.1
  unfolding drop_expired untrack_pending_key
  next_job-Shorter c w log =
      next_job_rule dec c (λ queue v. (length queue ≤ waiting w) × (v.actor ≡ w.actor)) (Shorter w)
        (λ v q. record { shorter = omega arith; emptied = λ _. refl; same_actor = q.1 })
        (λ job queue v live q. record {
          shorter = omega arith;
          emptied = λ e. cc;
          same_actor = q.1;
        })
        (λ job queue v q. (omega arith, q.1)) w log (omega arith, refl)

  shed_job-waiting :
      (next : Option (Job K M)) (w : WorkerProperties K M) (log : Log K M)
      → waiting (shed_job dec next w log).0 ≡ waiting w
  unfolding shed_job untrack_pending_key
  shed_job-waiting none w log = refl
  shed_job-waiting (some job) w log = refl

  -- As many rounds as there are waiting jobs end the loop by its test.
  shed_oldest-le-limit :
      (fuel : ℕ) (c : Clock) (limit : ℕ) (w : WorkerProperties K M) (log : Log K M)
      → waiting w ≤ fuel
      → waiting (shed_oldest dec fuel c limit w log).0 ≤ limit
  unfolding shed_oldest
  shed_oldest-le-limit zero c limit w log h = omega arith
  shed_oldest-le-limit (suc fuel) c limit w log h =
      elim (Bool-cases (ltb limit (length w.message_queue))) [
        | inl e ↦ rw e (shed_oldest-le-limit fuel c limit _ _ (fewer e))
        | inr e ↦ rw e (ground arith)
      ]
    where
      fewer :
          ltb limit (length w.message_queue) ≡ true
          → waiting
              (shed_job dec
                (get_next_non_expired_job dec c w log).0
                (get_next_non_expired_job dec c w log).1
                (get_next_non_expired_job dec c w log).2).0
            ≤ fuel
      fewer e =
          rw
            (shed_job-waiting (get_next_non_expired_job dec c w log).0
              (get_next_non_expired_job dec c w log).1 (get_next_non_expired_job dec c w log).2)
            (ground (arith, next_job-Shorter c w log))

  dispatch_job-waiting :
      (cast : ℕ → CastOutcome) (c : Clock) (job : Job K M) (w : WorkerProperties K M)
      (log : Log K M)
      → cast w.actor ≡ sent
      → waiting (dispatch_job dec cast c job w log).0 ≡ waiting w
  unfolding dispatch_job
  dispatch_job-waiting cast c job w log e = rw (e, dispatch_job)

  dispatch_or_wait-le :
      (cast : ℕ → CastOutcome) (c : Clock) (job : Job K M) (v : WorkerProperties K M)
      (next : Option (Job K M)) (w : WorkerProperties K M) (log : Log K M)
      → cast v.actor ≡ sent
      → Shorter v next w
      → waiting (dispatch_or_wait dec cast c job next w log).0 ≤ waiting v
  unfolding dispatch_or_wait push_back
  dispatch_or_wait-le cast c job v none w log e s =
      omega (arith, dispatch_job-waiting cast c job w log (ap cast s.same_actor ∙ e), s.shorter)
  dispatch_or_wait-le cast c job v (some older) w log e s = omega (
    arith,
    dispatch_job-waiting cast c older (push_back dec job w) log (ap cast s.same_actor ∙ e),
    length-append w.message_queue (job ∷ []),
    s.shorter,
  )

  enqueue_idle-le :
      (cast : ℕ → CastOutcome) (c : Clock) (job : Job K M) (w : WorkerProperties K M)
      (log : Log K M)
      → cast w.actor ≡ sent
      → waiting (enqueue_idle dec cast c job w log).0 ≤ waiting w
  unfolding enqueue_idle
  enqueue_idle-le cast c job w log up =
      dispatch_or_wait-le cast c job w _ _ _ up (next_job-Shorter c w log)

  enqueue_busy-le :
      (c : Clock) (job : Job K M) (limit : ℕ) (mode : DiscardMode) (w : WorkerProperties K M)
      (log : Log K M)
      → (mode ≡ newest → waiting w < limit)
      → waiting (enqueue_busy dec c job (some (limit, mode)) w log).0 ≤ limit
  unfolding enqueue_busy push_back
  enqueue_busy-le c job limit oldest w log room =
      shed_oldest-le-limit _ c limit (push_back dec job w) log (omega arith)
  enqueue_busy-le c job limit newest w log room =
      omega (arith, length-append w.message_queue (job ∷ []), room refl)

  turns_away-room :
      (limit : ℕ) (mode : DiscardMode) (w : WorkerProperties K M)
      → turns_away dec (some (limit, mode)) w ≡ false
      → is_empty w.curr_jobs ≡ false
      → mode ≡ newest
      → waiting w < limit
  unfolding turns_away is_available
  turns_away-room limit oldest w e busy m = cc
  turns_away-room limit newest w e busy m = ground arith

  -- While the mailbox takes what is dispatched, a queue within the discard limit stays within it,
  -- in both discard modes; the load-shedding loop ends.
  pub enqueue_job-le-limit :
      (cast : ℕ → CastOutcome) (c : Clock) (job : Job K M) (w : WorkerProperties K M)
      (log : Log K M) (limit : ℕ) (mode : DiscardMode)
      → worker_limit_and_mode w.discard_settings ≡ some (limit, mode)
      → cast w.actor ≡ sent
      → length w.message_queue ≤ limit
      → length (enqueue_job dec cast c job w log).0.message_queue ≤ limit
  unfolding enqueue_job track_pending_key
  enqueue_job-le-limit cast c job w log limit mode e up h =
      elim (Bool-cases (turns_away dec (some (limit, mode)) w)) [
        | inl away ↦ rw (e, away) h
        | inr stays ↦
            rw (e, stays)
              (elim (Bool-cases (is_empty w.curr_jobs)) [
                | inl idle ↦
                    rw idle
                      (le_trans (enqueue_idle-le cast c _ (track_pending_key dec job.key w) _ up) h)
                | inr busy ↦ rw busy (
                    enqueue_busy-le c _ limit mode (track_pending_key dec job.key w) _
                      (turns_away-room limit mode w stays busy))
              ])
      ]
