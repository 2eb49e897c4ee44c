-- ===== src/Tests/Workers.antt =====
-- Workers.
use native.Mathlib.Decide.{ℕ_discrete}
use ractor.Prelude.{ℕ, ◌≤◌, refl, List, [], ◌∷◌, none, length, arith}
use ractor.Factory.Discard.{WorkerDiscardSettings, DiscardMode, worker_limit_and_mode}
use ractor.Factory.Worker.{new_worker, get_next_non_expired_job, enqueue_job}
use ractor.Factory.Worker.Order.{Splits, get_next_non_expired_job-Splits}
use ractor.Factory.Worker.Invariant.{IsValid}
use ractor.Factory.Worker.Runs.{
  WorkerOperation, enqueueing, completing, replacing, work_all, work_all-IsValid,
}
use ractor.Factory.Worker.Bounds.{enqueue_job-le-limit}
use ractor.Tests.Data.{noon, job, busy, open_mailbox}

get_next_non_expired_job-Splits_example :
    let r = get_next_non_expired_job ℕ_discrete noon busy [] in
    Splits ℕ_discrete noon busy.message_queue r.0 r.1.message_queue
get_next_non_expired_job-Splits_example = get_next_non_expired_job-Splits ℕ_discrete noon busy []

abbrev tasks : List (WorkerOperation ℕ ℕ)
tasks =
    enqueueing open_mailbox noon (job 2 30)
    ∷ enqueueing open_mailbox noon (job 3 40)
    ∷ completing open_mailbox noon 9
    ∷ replacing open_mailbox noon 78 6
    ∷ completing open_mailbox noon 3
    ∷ []

work_all-IsValid_example :
    IsValid ℕ_discrete
      (work_all ℕ_discrete tasks
        (new_worker "all" 0 77 WorkerDiscardSettings.unlimited none 5 none, [])).0
work_all-IsValid_example =
    work_all-IsValid ℕ_discrete "all" 0 77 WorkerDiscardSettings.unlimited none 5 none tasks []

enqueue_job-le-limit_example :
    length (enqueue_job ℕ_discrete open_mailbox noon (job 2 30) busy []).0.message_queue ≤ 2
unfolding worker_limit_and_mode
enqueue_job-le-limit_example =
    enqueue_job-le-limit ℕ_discrete open_mailbox noon (job 2 30) busy [] 2 DiscardMode.oldest refl
      refl (omega arith)
