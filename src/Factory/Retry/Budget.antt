-- ===== src/Factory/Retry/Budget.antt =====
-- How often a retriable message (ractor/src/factory/job.rs) is submitted again.
use ractor.Prelude.{
  ℕ, zero, suc, ◌+◌, ◌≤◌, ◌≡◌, refl, Option, none, some, List, [], ◌∷◌, arith, length, All, true,
  false, min,
}
use ractor.Factory.Job.{Job, JobOptions, is_expired}
use ractor.Factory.Effects.{sent}
use ractor.Factory.Retry.{
  MessageRetryStrategy, retry_forever, no_retry, count, RetriableMessage, Surroundings, has_retries,
  decrement, accepts_type, drop_retriable, drop_captured, resubmit, retry_job,
}

-- What a strategy allows.
abbrev pub Allows : MessageRetryStrategy → ℕ → Type 0
Allows retry_forever n = Unit
Allows no_retry n = n ≡ 0
Allows (count k) n = n ≤ k

-- The factory takes such messages, and its mailbox takes this one.
abbrev pub Reachable : ℕ → Surroundings → Type 0
Reachable factory s = (s.is_message_type_of factory ≡ some true) × (s.cast factory ≡ sent)

decrement-Allows :
    (st : MessageRetryStrategy) (n : ℕ)
    → has_retries st ≡ true
    → Allows (decrement st) n
    → Allows st (1 + n)
unfolding has_retries decrement
decrement-Allows retry_forever n r h = tt
decrement-Allows no_retry n r h = cc
decrement-Allows (count zero) n r h = cc
decrement-Allows (count (suc zero)) n r h = omega arith
decrement-Allows (count (suc (suc k))) n r h = omega arith

Allows-zero : (st : MessageRetryStrategy) → Allows st 0
Allows-zero retry_forever = tt
Allows-zero no_retry = refl
Allows-zero (count k) = omega arith

module _ {K M : Type 0} where
  abbrev pub resubmitted_by :
      Surroundings → RetriableMessage K M → Option (Job K (RetriableMessage K M))
  resubmitted_by s m = (drop_retriable s m).resubmitted

  unfoldable pub next_round : Option (Job K (RetriableMessage K M)) → (RetriableMessage K M → ℕ) → ℕ
  next_round none rest = 0
  next_round (some job) rest = 1 + rest job.msg

  -- How often a message that no one completes is submitted again, over the drops that it meets.
  unfoldable pub resubmissions : List Surroundings → RetriableMessage K M → ℕ
  resubmissions [] m = 0
  resubmissions (s ∷ later) m = next_round (resubmitted_by s m) (resubmissions later)

  -- A drop that submits the message again takes one from its strategy, and keeps the message.
  pub resubmitted_by-decrement :
      (s : Surroundings) (m : RetriableMessage K M) (job : Job K (RetriableMessage K M))
      → resubmitted_by s m ≡ some job
      → (has_retries m.strategy ≡ true)
        × (job.msg.strategy ≡ decrement m.strategy)
        × (job.key ≡ m.key)
        × (job.msg.message ≡ m.message)
        × (is_expired s.clock job ≡ false)
  unfolding drop_retriable drop_captured resubmit retry_job
  resubmitted_by-decrement s m job e = ground arith

  next_round-Allows :
      (st : MessageRetryStrategy) (next : Option (Job K (RetriableMessage K M)))
      (rest : RetriableMessage K M → ℕ)
      → ((job : Job K (RetriableMessage K M)) → next ≡ some job → Allows st (1 + rest job.msg))
      → Allows st (next_round next rest)
  unfolding next_round
  next_round-Allows st none rest h = Allows-zero st
  next_round-Allows st (some job) rest h = h job refl

  -- However the drops come about, a message that may be retried `k` times is submitted again at
  -- most `k` times, and one without retries never.
  pub resubmissions-Allows :
      (drops : List Surroundings) (m : RetriableMessage K M)
      → Allows m.strategy (resubmissions drops m)
  unfolding resubmissions
  resubmissions-Allows [] m = Allows-zero m.strategy
  resubmissions-Allows (s ∷ later) m =
      next_round-Allows m.strategy (resubmitted_by s m) (resubmissions later) λ job e.
        let d = resubmitted_by-decrement s m job e in
        decrement-Allows m.strategy (resubmissions later job.msg) d.0
          (rw (← d.1) (resubmissions-Allows later job.msg))

  -- A message as it is submitted first, or again with `st` left.
  abbrev pub armed : K → M → MessageRetryStrategy → Option ℕ → JobOptions → ℕ → RetriableMessage K M
  armed key message st hook options factory = record {
    key = key;
    message = some message;
    strategy = st;
    retry_hook = hook;
    retry_state = some (options, factory);
  }

  drop-armed :
      (s : Surroundings) (key : K) (message : M) (st : MessageRetryStrategy) (hook : Option ℕ)
      (options : JobOptions) (factory : ℕ)
      → options.ttl_timer ≡ none
      → Reachable factory s
      → has_retries st ≡ true
      → resubmitted_by s (armed key message st hook options factory)
        ≡ some (record {
          key = key;
          msg = armed key message (decrement st) hook options factory;
          options = options;
          accepted = none;
        })
  unfolding drop_retriable drop_captured resubmit retry_job is_expired accepts_type
  drop-armed s key message st hook options factory t r h = ground arith

  -- Where the factory can be reached at each drop and the job has no TTL, a message that may be
  -- retried `k` times is submitted again at each of the first `k` drops, and at no other.
  pub resubmissions-min :
      (drops : List Surroundings) (k : ℕ) (key : K) (message : M) (hook : Option ℕ)
      (options : JobOptions) (factory : ℕ)
      → options.ttl_timer ≡ none
      → All (Reachable factory) drops
      → resubmissions drops (armed key message (count k) hook options factory)
        ≡ min k (length drops)
  unfolding resubmissions next_round has_retries decrement
  resubmissions-min [] k key message hook options factory t r = omega arith
  resubmissions-min (s ∷ later) zero key message hook options factory t r =
      omega
        (arith, resubmissions-Allows (s ∷ later) (armed key message (count 0) hook options factory))
  resubmissions-min (s ∷ later) (suc zero) key message hook options factory t r =
      rw (drop-armed s key message (count 1) hook options factory t r.0 refl, next_round)
        (omega
          (arith, resubmissions-Allows later (armed key message no_retry hook options factory)))
  resubmissions-min (s ∷ later) (suc (suc k)) key message hook options factory t r =
      rw
        (drop-armed s key message (count (suc (suc k))) hook options factory t r.0 refl, next_round)
        (omega (arith, resubmissions-min later (suc k) key message hook options factory t r.1))
