-- ===== src/Factory/Worker/Closed.antt =====
-- What `enqueue_job` (ractor/src/factory/worker.rs) does to the pending-key index: it counts the new
-- job up, and beyond that only counts down.
use ractor.Prelude.{
  ℕ, zero, suc, ◌≡◌, refl, Option, none, some, Bool-cases, inl, inr, ltb, length, is_empty,
}
use ractor.Prelude.Map.{Map}
use ractor.Factory.Job.{Clock, Job}
use ractor.Factory.Discard.{DiscardMode, worker_limit_and_mode}
use ractor.Factory.Effects.{Log, CastOutcome, sent, send_err, invalid_type}
use ractor.Factory.Worker.Fields.{next_job_rule}
use ractor.Factory.Worker.{
  WorkerProperties, count_up, count_down, track_pending_key, untrack_pending_key, drop_expired,
  get_next_non_expired_job, dispatch_job, dispatch_or_wait, shed_job, shed_oldest, push_back,
  turns_away, enqueue_idle, enqueue_busy, enqueue_job,
}

module _ {K M : Type 0} (dec : Discrete K) (P : Map K ℕ → Type 0)
    (closed : (key : K) (m : Map K ℕ) → P m → P (count_down dec key m)) where
  abbrev Keeps : WorkerProperties K M → Type 0
  Keeps w = P w.pending_key_counts

  next_job-Keeps :
      (c : Clock) (w : WorkerProperties K M) (log : Log K M)
      → Keeps w
      → Keeps (get_next_non_expired_job dec c w log).1
  unfolding drop_expired untrack_pending_key
  next_job-Keeps c w log h =
      next_job_rule dec c (λ queue v. Keeps v) (λ next v. Keeps v) (λ v q. q)
        (λ job queue v live q. q) (λ job queue v q. closed job.key v.pending_key_counts q) w log h

  dispatch_job-Keeps :
      (cast : ℕ → CastOutcome) (c : Clock) (job : Job K M) (w : WorkerProperties K M)
      (log : Log K M)
      → Keeps w
      → Keeps (dispatch_job dec cast c job w log).0
  unfolding dispatch_job untrack_pending_key
  dispatch_job-Keeps cast c job w log h = go (cast w.actor) refl
    where
      go : (o : CastOutcome) → cast w.actor ≡ o → Keeps (dispatch_job dec cast c job w log).0
      go sent e = rw (e, dispatch_job) h
      go send_err e = rw (e, dispatch_job) h
      go invalid_type e = rw (e, dispatch_job) (closed job.key w.pending_key_counts h)

  dispatch_or_wait-Keeps :
      (cast : ℕ → CastOutcome) (c : Clock) (job : Job K M) (next : Option (Job K M))
      (w : WorkerProperties K M) (log : Log K M)
      → Keeps w
      → Keeps (dispatch_or_wait dec cast c job next w log).0
  unfolding dispatch_or_wait push_back
  dispatch_or_wait-Keeps cast c job none w log h = dispatch_job-Keeps cast c job w log h
  dispatch_or_wait-Keeps cast c job (some older) w log h =
      dispatch_job-Keeps cast c older (push_back dec job w) log h

  shed_job-Keeps :
      (next : Option (Job K M)) (w : WorkerProperties K M) (log : Log K M)
      → Keeps w
      → Keeps (shed_job dec next w log).0
  unfolding shed_job untrack_pending_key
  shed_job-Keeps none w log h = h
  shed_job-Keeps (some job) w log h = closed job.key w.pending_key_counts h

  shed_oldest-Keeps :
      (fuel : ℕ) (c : Clock) (limit : ℕ) (w : WorkerProperties K M) (log : Log K M)
      → Keeps w
      → Keeps (shed_oldest dec fuel c limit w log).0
  unfolding shed_oldest
  shed_oldest-Keeps zero c limit w log h = h
  shed_oldest-Keeps (suc fuel) c limit w log h =
      elim (Bool-cases (ltb limit (length w.message_queue))) [
        | inl e ↦
            let (next, w', log') = get_next_non_expired_job dec c w log in
            let (w'', log'') = shed_job dec next w' log' in
            rw e (
              shed_oldest-Keeps fuel c limit w'' log''
                (shed_job-Keeps next w' log' (next_job-Keeps c w log h)))
        | inr e ↦ rw e h
      ]

  enqueue_busy-Keeps :
      (c : Clock) (job : Job K M) (mode : Option (ℕ × DiscardMode)) (w : WorkerProperties K M)
      (log : Log K M)
      → Keeps w
      → Keeps (enqueue_busy dec c job mode w log).0
  unfolding enqueue_busy push_back
  enqueue_busy-Keeps c job (some (limit, DiscardMode.oldest)) w log h =
      shed_oldest-Keeps _ c limit (push_back dec job w) log h
  enqueue_busy-Keeps c job (some (limit, DiscardMode.newest)) w log h = h
  enqueue_busy-Keeps c job none w log h = h

  -- A property of the index that counting down preserves holds after `enqueue_job` if it holds
  -- before, and once the new job is counted.
  pub enqueue_job-Keeps :
      (cast : ℕ → CastOutcome) (c : Clock) (job : Job K M) (w : WorkerProperties K M)
      (log : Log K M)
      → Keeps w
      → P (count_up dec job.key w.pending_key_counts)
      → Keeps (enqueue_job dec cast c job w log).0
  unfolding enqueue_job track_pending_key enqueue_idle
  enqueue_job-Keeps cast c job w log h h' =
      elim (Bool-cases (turns_away dec (worker_limit_and_mode w.discard_settings) w)) [
        | inl e ↦ rw e h
        | inr e ↦ rw e (elim (Bool-cases (is_empty w.curr_jobs)) [
          | inl idle ↦ rw idle (
              dispatch_or_wait-Keeps cast c _ _ _ _
                (next_job-Keeps c (track_pending_key dec job.key w) _ h'))
          | inr busy ↦ rw busy (enqueue_busy-Keeps c _ _ (track_pending_key dec job.key w) _ h')
        ])
      ]
