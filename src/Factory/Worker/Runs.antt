-- ===== src/Factory/Worker/Runs.antt =====
-- Runs of the operations of a worker (ractor/src/factory/worker.rs) by its factory.
use Prim.Native.String.{String}
use ractor.Prelude.{ℕ, Option, List, [], ◌∷◌}
use ractor.Factory.Job.{Clock, Job}
use ractor.Factory.Discard.{WorkerDiscardSettings}
use ractor.Factory.Effects.{Log, CastOutcome}
use ractor.Factory.Worker.{
  WorkerProperties, new_worker, enqueue_job, worker_complete, replace_worker,
}
use ractor.Factory.Worker.Invariant.{
  IsValid, new_worker-IsValid, enqueue_job-IsValid, worker_complete-IsValid, replace_worker-IsValid,
}

-- What the mailbox answers and the time are given with each operation.
pub data WorkerOperation (K M : Type 0) : Type 0 where
  enqueueing : (ℕ → CastOutcome) → Clock → Job K M → WorkerOperation K M
  completing : (ℕ → CastOutcome) → Clock → K → WorkerOperation K M
  replacing : (ℕ → CastOutcome) → Clock → ℕ → ℕ → WorkerOperation K M

module _ {K M : Type 0} (dec : Discrete K) where
  unfoldable pub work :
      WorkerOperation K M → WorkerProperties K M × Log K M → WorkerProperties K M × Log K M
  work (enqueueing cast c job) (w, log) = enqueue_job dec cast c job w log
  work (completing cast c key) (w, log) =
      let (options, w', log') = worker_complete dec cast c key w log in (w', log')
  work (replacing cast c nworker handle) (w, log) = replace_worker dec cast c nworker handle w log

  unfoldable pub work_all :
      List (WorkerOperation K M) → WorkerProperties K M × Log K M → WorkerProperties K M × Log K M
  work_all [] r = r
  work_all (o ∷ os) r = work_all os (work o r)

  work_all-keeps :
      (os : List (WorkerOperation K M)) (r : WorkerProperties K M × Log K M)
      → IsValid dec r.0
      → IsValid dec (work_all os r).0
  unfolding work_all work
  work_all-keeps [] r v = v
  work_all-keeps (enqueueing cast c job ∷ os) (w, log) v =
      work_all-keeps os _ (enqueue_job-IsValid dec cast c job w log v)
  work_all-keeps (completing cast c key ∷ os) (w, log) v =
      work_all-keeps os _ (worker_complete-IsValid dec cast c key w log v)
  work_all-keeps (replacing cast c nworker handle ∷ os) (w, log) v =
      work_all-keeps os _ (replace_worker-IsValid dec cast c nworker handle w log v)

-- Whatever jobs a new worker is given, whichever are reported as done, also ones that are not active,
-- however its actor is replaced, and whatever its mailboxes answer: the pending-key index counts exactly
-- the jobs that the worker holds, queued or active, and at most one is active.
pub work_all-IsValid :
    {K M : Type 0} (dec : Discrete K) (name : String) (wid actor : ℕ)
    (settings : WorkerDiscardSettings) (handler : Option ℕ) (handle : ℕ) (stats : Option ℕ)
    (os : List (WorkerOperation K M)) (log : Log K M)
    → IsValid dec (work_all dec os (new_worker name wid actor settings handler handle stats, log)).0
work_all-IsValid dec name wid actor settings handler handle stats os log =
    work_all-keeps dec os _ (new_worker-IsValid dec name wid actor settings handler handle stats)
