-- ===== src/Factory/Effects.antt =====
-- What the factory and its workers do to the outside: calls of the discard handler and of the
-- statistics layer, replies to submitters, and messages to worker actors, newest first.
use Prim.Native.String.{String}
use ractor.Prelude.{ℕ, Option, none, some, List, ◌∷◌}
use ractor.Factory.Job.{Job, JobOptions}
use ractor.Factory.Discard.{DiscardReason}

-- The calls of `FactoryStatsLayer` (ractor/src/factory/stats.rs).
pub data Stat : Type 0 where
  new_job job_discarded job_rate_limited : Stat
  job_ttl_expired worker_ping_received : ℕ → Stat
  job_completed : JobOptions → Stat

pub data Event (K M : Type 0) : Type 0 where
  discard : ℕ → DiscardReason → Job K M → Event K M
  stat : ℕ → String → Stat → Event K M
  reply : ℕ → Option (Job K M) → Event K M
  dispatch : ℕ → Job K M → Event K M
  ping : ℕ → ℕ → Event K M
  stop kill : ℕ → Event K M

abbrev pub Log : Type 0 → Type 0 → Type 0
Log K M = List (Event K M)

-- What a worker actor's mailbox answers to a message: it takes it, gives it back
-- (`MessagingErr::SendErr`), or refuses it with another error.
pub data CastOutcome : Type 0 where
  sent send_err invalid_type : CastOutcome

module _ {K M : Type 0} where
  -- Without a handler, and without a layer, nothing happens.
  unfoldable pub discard_job : Option ℕ → DiscardReason → Job K M → Log K M → Log K M
  discard_job none reason job log = log
  discard_job (some handler) reason job log = discard handler reason job ∷ log

  unfoldable pub record_stat : Option ℕ → String → Stat → Log K M → Log K M
  record_stat none name s log = log
  record_stat (some layer) name s log = stat layer name s ∷ log

  accept_by : Option ℕ → Job K M → Log K M → Job K M × Log K M
  accept_by none job log = (job, log)
  accept_by (some port) job log = (record job { accepted = none }, reply port none ∷ log)

  -- `Job::accept` tells the submitter once.
  unfoldable pub accept : Job K M → Log K M → Job K M × Log K M
  unfolding accept_by
  accept job log = accept_by job.accepted job log

  reject_by : Option ℕ → Job K M → Log K M → Log K M
  reject_by none job log = log
  reject_by (some port) job log = reply port (some (record job { accepted = none })) ∷ log

  -- `Job::reject` gives the job back to the submitter.
  unfoldable pub reject : Job K M → Log K M → Log K M
  unfolding reject_by
  reject job log = reject_by job.accepted job log
