-- ===== src/Tests/Data.antt =====
-- Concrete jobs, workers and queues for the tests of the factory (ractor/src/factory).
use ractor.Prelude.{ℕ, false, none, some, [], ◌∷◌}
use ractor.Factory.Job.{Clock, Job, JobOptions}
use ractor.Factory.Discard.{DiscardMode, static}
use ractor.Factory.Effects.{CastOutcome, sent}
use ractor.Factory.Worker.{WorkerProperties}
use ractor.Factory.Routing.Holders.{AllValid}
use ractor.Prelude.{refl, arith, ℕ_discrete}
use ractor.Prelude.Map.{lookup}
use ractor.Factory.Routing.Contract.{Pool}

abbrev pub noon : Clock
noon = record { instant = 500; system = 9000 }

abbrev pub plain : JobOptions
plain = record {
  submit_time = 8000;
  factory_time = 8000;
  worker_time = 8000;
  ttl = none;
  ttl_timer = none;
  span = none;
}

-- Started at 100 with 50 left: expired at noon.
abbrev pub stale : JobOptions
stale = record plain {
  ttl = some 50;
  ttl_timer = some (record { started_at = 100; remaining = 50; already_expired = false });
}

abbrev pub job : ℕ → ℕ → Job ℕ ℕ
job k m = record { key = k; msg = m; options = plain; accepted = none }

abbrev pub stale_job : ℕ → ℕ → Job ℕ ℕ
stale_job k m = record { key = k; msg = m; options = stale; accepted = some 4 }

-- Works on key 1; a stale job of key 2 and a job of key 1 wait, at a limit of two.
abbrev pub busy : WorkerProperties ℕ ℕ
busy = record {
  wid = 0;
  actor = 77;
  factory_name = "all";
  handle = some 5;
  message_queue = stale_job 2 20 ∷ job 1 10 ∷ [];
  discard_settings = static 2 DiscardMode.oldest;
  discard_handler = some 3;
  heartbeat = none;
  stats = some 6;
  curr_jobs = (1, plain) ∷ [];
  pending_key_counts = (1, 2) ∷ (2, 1) ∷ [];
  is_draining = false;
}

abbrev pub open_mailbox : ℕ → CastOutcome
open_mailbox actor = sent

abbrev idle : WorkerProperties ℕ ℕ
idle = record busy {
  wid = 1;
  actor = 78;
  message_queue = [];
  curr_jobs = [];
  pending_key_counts = [];
}

abbrev pub two_workers : Pool ℕ ℕ
two_workers = (0, busy) ∷ (1, idle) ∷ []

pub two_workers-AllValid : AllValid ℕ_discrete two_workers
unfolding lookup ℕ_discrete
two_workers-AllValid = (
  record { counted = λ k. ground arith; single = omega arith },
  (record { counted = λ k. refl; single = omega arith }, tt),
)
