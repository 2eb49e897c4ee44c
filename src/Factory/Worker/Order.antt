-- ===== src/Factory/Worker/Order.antt =====
-- Which job a worker (ractor/src/factory/worker.rs) takes next.
use ractor.Prelude.{
  ◌≡◌, refl, ap, Option, none, some, List, [], ◌∷◌, ◌++◌, All, true, false, Bool-cases, inl, inr,
}
use ractor.Factory.Job.{Clock, Job, is_expired}
use ractor.Factory.Effects.{Log}
use ractor.Factory.Worker.{
  WorkerProperties, drop_expired, log_expired, next_job_from, get_next_non_expired_job,
}

module _ {K M : Type 0} (dec : Discrete K) where
  -- The queue is the expired jobs that are dropped, the job that is taken, and what is left.
  abbrev pub Splits : Clock → List (Job K M) → Option (Job K M) → List (Job K M) → Type 0
  Splits c queue none left = All (λ j. is_expired c j ≡ true) queue × (left ≡ [])
  Splits c queue (some job) left =
      (dropped : List (Job K M)) × (queue ≡ dropped ++ job ∷ left)
      × All (λ j. is_expired c j ≡ true) dropped
      × (is_expired c job ≡ false)

  Splits-cons :
      (c : Clock) (job : Job K M) (queue : List (Job K M)) (next : Option (Job K M))
      (left : List (Job K M))
      → is_expired c job ≡ true
      → Splits c queue next left
      → Splits c (job ∷ queue) next left
  Splits-cons c job queue none left e s = ((e, s.0), s.1)
  Splits-cons c job queue (some next) left e s = (job ∷ s.0, ap (◌∷◌ job) s.1, (e, s.2), s.3)

  next_job_from-Splits :
      (c : Clock) (queue : List (Job K M)) (w : WorkerProperties K M) (log : Log K M)
      → let r = next_job_from dec c queue w log in Splits c queue r.0 r.1.message_queue
  unfolding next_job_from
  next_job_from-Splits c [] w log = (tt, refl)
  next_job_from-Splits c (job ∷ queue) w log = elim (Bool-cases (is_expired c job)) [
    | inl e ↦ rw e (
        Splits-cons c job queue _ _ e
          (next_job_from-Splits c queue (drop_expired dec job queue w) (log_expired dec job w log)))
    | inr e ↦ rw e ([], refl, tt, e)
  ]

  -- A worker takes the oldest queued job that has not expired, drops exactly the expired jobs
  -- before it, and leaves the rest of the queue in order. It takes none exactly where all have
  -- expired, and then none is left.
  pub get_next_non_expired_job-Splits :
      (c : Clock) (w : WorkerProperties K M) (log : Log K M)
      → let r = get_next_non_expired_job dec c w log in
        Splits c w.message_queue r.0 r.1.message_queue
  unfolding get_next_non_expired_job
  get_next_non_expired_job-Splits c w log = next_job_from-Splits c w.message_queue w log
