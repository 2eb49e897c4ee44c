-- ===== src/Factory/Worker/Fields.antt =====
-- The rule by which all facts about `get_next_non_expired_job` of ractor/src/factory/worker.rs are
-- proved.
use ractor.Prelude.{◌≡◌, Option, none, some, false, List, [], ◌∷◌, Bool-cases, inl, inr}
use ractor.Factory.Job.{Clock, Job, is_expired}
use ractor.Factory.Effects.{Log}
use ractor.Factory.Worker.{
  WorkerProperties, drop_expired, log_expired, next_job_from, get_next_non_expired_job,
}

module _ {K M : Type 0} (dec : Discrete K) (c : Clock) where
  -- `Q` holds of the worker and its remaining queue at each round, `R` of the result.
  module _ {ℓ κ} (Q : List (Job K M) → WorkerProperties K M → Type ℓ)
      (R : Option (Job K M) → WorkerProperties K M → Type κ)
      (done : (w : WorkerProperties K M) → Q [] w → R none (record w { message_queue = [] }))
      (hit : (job : Job K M) (queue : List (Job K M)) (w : WorkerProperties K M)
        → is_expired c job ≡ false
        → Q (job ∷ queue) w
        → R (some job) (record w { message_queue = queue }))
      (miss : (job : Job K M) (queue : List (Job K M)) (w : WorkerProperties K M)
        → Q (job ∷ queue) w
        → Q queue (drop_expired dec job queue w)) where
    next_job_from_rule :
        (queue : List (Job K M)) (w : WorkerProperties K M) (log : Log K M)
        → Q queue w
        → R (next_job_from dec c queue w log).0 (next_job_from dec c queue w log).1
    unfolding next_job_from
    next_job_from_rule [] w log q = done w q
    next_job_from_rule (job ∷ queue) w log q = elim (Bool-cases (is_expired c job)) [
      | inl e ↦ rw e (
          next_job_from_rule queue (drop_expired dec job queue w) (log_expired dec job w log)
            (miss job queue w q))
      | inr e ↦ rw e (hit job queue w e q)
    ]

    pub next_job_rule :
        (w : WorkerProperties K M) (log : Log K M)
        → Q w.message_queue w
        → R (get_next_non_expired_job dec c w log).0 (get_next_non_expired_job dec c w log).1
    unfolding get_next_non_expired_job
    next_job_rule w log q = next_job_from_rule w.message_queue w log q
