-- ===== src/Factory/Retry.antt =====
-- Retriable messages of ractor/src/factory/job.rs, which a drop without completion submits again.
pub mod Budget
use ractor.Prelude.{
  ℕ, zero, suc, Bool, true, false, not, ◌||◌, Option, none, some, is_some, is_none, if◌then◌else◌,
}
use ractor.Factory.Job.{Clock, Job, JobOptions, is_expired}
use ractor.Factory.Effects.{CastOutcome, sent, send_err, invalid_type}

pub data MessageRetryStrategy : Type 0 where
  retry_forever no_retry : MessageRetryStrategy
  count : ℕ → MessageRetryStrategy

unfoldable pub has_retries : MessageRetryStrategy → Bool
has_retries retry_forever = true
has_retries (count zero) = false
has_retries (count (suc n)) = true
has_retries no_retry = false

unfoldable pub decrement : MessageRetryStrategy → MessageRetryStrategy
decrement retry_forever = retry_forever
decrement no_retry = no_retry
decrement (count zero) = no_retry
decrement (count (suc zero)) = no_retry
decrement (count (suc (suc n))) = count (suc n)

-- The retry hook and the factory's actor are numbers.
pub record RetriableMessage (K M : Type 0) : Type 0 where
  pub key : K
  pub message : Option M
  pub strategy : MessageRetryStrategy
  pub retry_hook : Option ℕ
  pub retry_state : Option (JobOptions × ℕ)

-- What a drop meets: the time, whether the target takes such messages (`is_message_type_of`), and
-- what its mailbox answers.
pub record Surroundings : Type 0 where
  pub clock : Clock
  pub is_message_type_of : ℕ → Option Bool
  pub cast : ℕ → CastOutcome

-- What a drop does: the hook that it runs, and the job that the factory gets.
pub record Dropped (K M : Type 0) : Type 0 where
  pub hook : Option ℕ
  pub resubmitted : Option (Job K (RetriableMessage K M))

accepts_type : Option Bool → Bool
accepts_type none = false
accepts_type (some b) = b

module _ {K M : Type 0} where
  -- `RetriableMessage::new`.
  unfoldable pub new_retriable : K → M → MessageRetryStrategy → RetriableMessage K M
  new_retriable key message strategy = record {
    key = key;
    message = some message;
    strategy = strategy;
    retry_hook = none;
    retry_state = none;
  }

  unfoldable pub set_retry_hook : ℕ → RetriableMessage K M → RetriableMessage K M
  set_retry_hook hook m = record m { retry_hook = some hook }

  unfoldable pub capture_retry_state : JobOptions → ℕ → RetriableMessage K M → RetriableMessage K M
  capture_retry_state options factory m = record m { retry_state = some (options, factory) }

  unfoldable pub completed : RetriableMessage K M → RetriableMessage K M
  completed m = record m { strategy = no_retry; message = none }

  unfoldable pub from_job : Job K M → MessageRetryStrategy → ℕ → Job K (RetriableMessage K M)
  unfolding capture_retry_state new_retriable
  from_job job strategy factory = record {
    accepted = none;
    key = job.key;
    msg = capture_retry_state job.options factory (new_retriable job.key job.msg strategy);
    options = job.options;
  }

  abbrev nothing_done : Dropped K M
  nothing_done = record { hook = none; resubmitted = none }

  -- The new job, with one retry less.
  unfoldable pub retry_job : JobOptions → ℕ → RetriableMessage K M → Job K (RetriableMessage K M)
  unfolding decrement
  retry_job options factory m = record {
    accepted = none;
    key = m.key;
    msg = record m { strategy = decrement m.strategy; retry_state = some (options, factory) };
    options = options;
  }

  -- A job that the mailbox gives back is completed, and not submitted again.
  unfoldable pub resubmit : Surroundings → ℕ → Job K (RetriableMessage K M) → Dropped K M
  resubmit s factory job = record {
    hook = job.msg.retry_hook;
    resubmitted = elim (s.cast factory) [ sent ↦ some job | _ ↦ none ];
  }

  unfoldable pub drop_captured :
      Surroundings → Option (JobOptions × ℕ) → RetriableMessage K M → Dropped K M
  unfolding accepts_type
  drop_captured s none m = nothing_done
  drop_captured s (some (options, factory)) m =
      let job = retry_job options factory m in
      if not (accepts_type (s.is_message_type_of factory))
      then nothing_done
      else if is_expired s.clock job
      then nothing_done
      else resubmit s factory job

  -- `Drop for RetriableMessage`.
  unfoldable pub drop_retriable : Surroundings → RetriableMessage K M → Dropped K M
  drop_retriable s m =
      if not (has_retries m.strategy) || is_none m.message
      then nothing_done
      else drop_captured s m.retry_state m
