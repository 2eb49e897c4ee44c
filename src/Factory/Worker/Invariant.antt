-- ===== src/Factory/Worker/Invariant.antt =====
-- The invariant of a worker (ractor/src/factory/worker.rs) under each of its operations.
use Prim.Native.String.{String}
use ractor.Prelude.{
  ℕ, zero, suc, ◌≤◌, ◌≡◌, refl, ◌∙◌, Option, none, some, List, [], ◌∷◌, ◌++◌, arith, ltb, length,
  is_empty, Bool-cases, Option-cases, inl, inr, ap, if_pos, true,
}
use mathlib.Core.List.{append-nil}
use ractor.Prelude.Map.{Map, remove_absent, keys, insert, remove, lookup}
use ractor.Factory.Job.{Clock, Job, JobOptions}
use ractor.Factory.Discard.{WorkerDiscardSettings, DiscardMode, worker_limit_and_mode}
use ractor.Factory.Effects.{Log, CastOutcome, accept}
use ractor.Factory.Worker.Pending.{
  Counts, key_count, dispatch_next-Counts, dispatch_or_wait-Counts, shed_oldest-Counts,
  untrack_keys-Counts, push_back-Counts, track-Counts, untrack-Counts, next_job-Taken,
}
use ractor.Factory.Worker.Fields.{next_job_rule}
use ractor.Factory.Worker.{
  drop_expired, WorkerProperties, new_worker, track_pending_key, untrack_pending_key, untrack_keys,
  get_next_non_expired_job, dispatch_job, dispatch_taken, dispatch_or_wait, dispatch_next,
  replace_worker, shed_job, shed_oldest, push_back, turns_away, enqueue_idle, enqueue_busy,
  enqueue_job, worker_complete,
}

-- The index counts exactly the jobs that the worker holds, and at most one of them is active.
pub record IsValid {K M : Type 0} (dec : Discrete K) (w : WorkerProperties K M) : Type 0 where
  pub counted : Counts dec [] w
  pub single : length w.curr_jobs ≤ 1

is_empty-eq {ℓ} : {A : Type ℓ} (xs : List A) → is_empty xs ≡ true → xs ≡ []
is_empty-eq [] e = refl
is_empty-eq (x ∷ xs) e = cc

-- The active job that a worker with at most one finds is the only one.
only_job :
    {K : Type 0} (dec : Discrete K) (key : K) (o : JobOptions) (jobs : Map K JobOptions)
    → length jobs ≤ 1
    → lookup dec key jobs ≡ some o
    → (remove dec key jobs ≡ [])
      × ((k : K) → key_count dec k (keys jobs) ≡ key_count dec k (key ∷ []))
unfolding lookup remove
only_job dec key o [] one e = cc
only_job dec key o ((j, v) ∷ []) one e = elim (dec j key) [
  | yes p ↦ (rw (if_pos _ p), λ k. rw p)
  | no p ↦ absurd (ground arith)
]
only_job dec key o (x ∷ y ∷ jobs) one e = absurd (omega arith)

module _ {K M : Type 0} (dec : Discrete K) where
  pub new_worker-IsValid :
      (name : String) (wid actor : ℕ) (settings : WorkerDiscardSettings) (handler : Option ℕ)
      (handle : ℕ) (stats : Option ℕ)
      → IsValid {M = M} dec (new_worker name wid actor settings handler handle stats)
  unfolding new_worker lookup
  new_worker-IsValid name wid actor settings handler handle stats = record {
    counted = λ k. refl;
    single = omega arith;
  }

  dispatch_job-single :
      (cast : ℕ → CastOutcome) (c : Clock) (job : Job K M) (w : WorkerProperties K M)
      (log : Log K M)
      → w.curr_jobs ≡ []
      → length (dispatch_job dec cast c job w log).0.curr_jobs ≤ 1
  unfolding dispatch_job insert untrack_pending_key
  dispatch_job-single cast c job w log h = ground arith

  dispatch_next-IsValid :
      (cast : ℕ → CastOutcome) (c : Clock) (w : WorkerProperties K M) (log : Log K M)
      → w.curr_jobs ≡ []
      → Counts dec [] w
      → IsValid dec (dispatch_next dec cast c w log).0
  unfolding dispatch_next
  dispatch_next-IsValid cast c w log idle h = record {
    counted = dispatch_next-Counts dec cast c w log idle h;
    single = dispatch_taken-single _ _ _ ((next_job-Taken dec [] c w log h).same_jobs ∙ idle);
  }
    where
      dispatch_taken-single :
          (next : Option (Job K M)) (v : WorkerProperties K M) (log : Log K M)
          → v.curr_jobs ≡ []
          → length (dispatch_taken dec cast c next v log).0.curr_jobs ≤ 1
      dispatch_taken-single none v log e = unfold dispatch_taken in omega (arith, ap length e)
      dispatch_taken-single (some job) v log e =
          unfold dispatch_taken in dispatch_job-single cast c job v log e

  enqueue_idle-IsValid :
      (cast : ℕ → CastOutcome) (c : Clock) (job : Job K M) (w : WorkerProperties K M)
      (log : Log K M)
      → w.curr_jobs ≡ []
      → Counts dec (job.key ∷ []) w
      → IsValid dec (enqueue_idle dec cast c job w log).0
  unfolding enqueue_idle
  enqueue_idle-IsValid cast c job w log idle h =
      let t = next_job-Taken dec (job.key ∷ []) c w log h in
      record {
        counted = dispatch_or_wait-Counts dec cast c job _ _ _ (t.same_jobs ∙ idle) t.counts;
        single = dispatch_or_wait-single _ _ _ (t.same_jobs ∙ idle);
      }
    where
      dispatch_or_wait-single :
          (next : Option (Job K M)) (v : WorkerProperties K M) (log : Log K M)
          → v.curr_jobs ≡ []
          → length (dispatch_or_wait dec cast c job next v log).0.curr_jobs ≤ 1
      dispatch_or_wait-single none v log e =
          unfold dispatch_or_wait in dispatch_job-single cast c job v log e
      dispatch_or_wait-single (some older) v log e =
          unfold dispatch_or_wait push_back in
          dispatch_job-single cast c older (push_back dec job v) log e

  shed_job-curr_jobs :
      (next : Option (Job K M)) (w : WorkerProperties K M) (log : Log K M)
      → (shed_job dec next w log).0.curr_jobs ≡ w.curr_jobs
  unfolding shed_job untrack_pending_key
  shed_job-curr_jobs none w log = refl
  shed_job-curr_jobs (some job) w log = refl

  next_job-curr_jobs :
      (c : Clock) (w : WorkerProperties K M) (log : Log K M)
      → (get_next_non_expired_job dec c w log).1.curr_jobs ≡ w.curr_jobs
  unfolding drop_expired untrack_pending_key
  next_job-curr_jobs c w log =
      next_job_rule dec c (λ queue v. v.curr_jobs ≡ w.curr_jobs)
        (λ next v. v.curr_jobs ≡ w.curr_jobs) (λ v q. q) (λ job queue v live q. q)
        (λ job queue v q. q) w log refl

  shed_oldest-curr_jobs :
      (fuel : ℕ) (c : Clock) (limit : ℕ) (w : WorkerProperties K M) (log : Log K M)
      → (shed_oldest dec fuel c limit w log).0.curr_jobs ≡ w.curr_jobs
  unfolding shed_oldest
  shed_oldest-curr_jobs zero c limit w log = refl
  shed_oldest-curr_jobs (suc fuel) c limit w log =
      elim (Bool-cases (ltb limit (length w.message_queue))) [
        | inl e ↦ rw e (
            shed_oldest-curr_jobs fuel c limit _ _
            ∙ shed_job-curr_jobs _ _ _
            ∙ next_job-curr_jobs c w log)
        | inr e ↦ rw e
      ]

  enqueue_busy-IsValid :
      (c : Clock) (job : Job K M) (mode : Option (ℕ × DiscardMode)) (w : WorkerProperties K M)
      (log : Log K M)
      → length w.curr_jobs ≤ 1
      → Counts dec (job.key ∷ []) w
      → IsValid dec (enqueue_busy dec c job mode w log).0
  unfolding enqueue_busy push_back
  enqueue_busy-IsValid c job (some (limit, DiscardMode.oldest)) w log one h = record {
    counted = shed_oldest-Counts dec _ c limit _ log (push_back-Counts dec [] job w h);
    single = rw (shed_oldest-curr_jobs _ c limit (push_back dec job w) log) one;
  }
  enqueue_busy-IsValid c job (some (limit, DiscardMode.newest)) w log one h = record {
    counted = push_back-Counts dec [] job w h;
    single = one;
  }
  enqueue_busy-IsValid c job none w log one h = record {
    counted = push_back-Counts dec [] job w h;
    single = one;
  }

  accept-key : (job : Job K M) (log : Log K M) → (accept job log).0.key ≡ job.key
  unfolding accept
  accept-key job log = ground arith

  track-curr_jobs :
      (key : K) (w : WorkerProperties K M) → (track_pending_key dec key w).curr_jobs ≡ w.curr_jobs
  unfolding track_pending_key
  track-curr_jobs key w = refl

  -- Whatever the mailbox answers and whichever jobs have expired, taking a job keeps the invariant.
  pub enqueue_job-IsValid :
      (cast : ℕ → CastOutcome) (c : Clock) (job : Job K M) (w : WorkerProperties K M)
      (log : Log K M)
      → IsValid dec w
      → IsValid dec (enqueue_job dec cast c job w log).0
  unfolding enqueue_job track_pending_key
  enqueue_job-IsValid cast c job w log v =
      elim (Bool-cases (turns_away dec (worker_limit_and_mode w.discard_settings) w)) [
        | inl e ↦ rw e v
        | inr e ↦ rw e (elim (Bool-cases (is_empty w.curr_jobs)) [
          | inl idle ↦
              rw idle (enqueue_idle-IsValid cast c _ _ _ (is_empty-eq w.curr_jobs idle) tracked)
          | inr busy ↦ rw busy (enqueue_busy-IsValid c _ _ _ _ v.single tracked)
        ])
      ]
    where
      tracked : Counts dec ((accept job log).0.key ∷ []) (track_pending_key dec job.key w)
      tracked = rw (accept-key job log) (track-Counts dec [] job.key w v.counted)

  untrack_keys-curr_jobs :
      (ks : List K) (w : WorkerProperties K M) → (untrack_keys dec ks w).curr_jobs ≡ w.curr_jobs
  unfolding untrack_keys untrack_pending_key
  untrack_keys-curr_jobs [] w = refl
  untrack_keys-curr_jobs (k ∷ ks) w = untrack_keys-curr_jobs ks (untrack_pending_key dec k w)

  -- A worker that is replaced gives up its active jobs, and the index forgets them.
  pub replace_worker-IsValid :
      (cast : ℕ → CastOutcome) (c : Clock) (nworker handle : ℕ) (w : WorkerProperties K M)
      (log : Log K M)
      → IsValid dec w
      → IsValid dec (replace_worker dec cast c nworker handle w log).0
  unfolding replace_worker
  replace_worker-IsValid cast c nworker handle w log v =
      dispatch_next-IsValid cast c _ log
        (untrack_keys-curr_jobs (keys w.curr_jobs) (record w { heartbeat = none; curr_jobs = [] }))
        (untrack_keys-Counts dec (keys w.curr_jobs) []
          (record w { heartbeat = none; curr_jobs = [] }) given_up)
    where
      given_up : Counts dec (keys w.curr_jobs ++ []) (record w { heartbeat = none; curr_jobs = [] })
      given_up k = rw (append-nil (keys w.curr_jobs)) (ground (arith, v.counted k))

  -- A completion, also of a job that is not active, keeps the invariant.
  pub worker_complete-IsValid :
      (cast : ℕ → CastOutcome) (c : Clock) (key : K) (w : WorkerProperties K M) (log : Log K M)
      → IsValid dec w
      → IsValid dec (worker_complete dec cast c key w log).1
  unfolding worker_complete
  worker_complete-IsValid cast c key w log v = elim (Option-cases (lookup dec key w.curr_jobs)) [
    | inl e ↦ rw (e, worker_complete, remove_absent dec key w.curr_jobs e) v
    | inr (o, e) ↦
        let (gone, was) = only_job dec key o w.curr_jobs v.single e in
        rw (e, worker_complete)
          (dispatch_next-IsValid cast c _ log (unfold untrack_pending_key in gone) (
            untrack-Counts dec [] key (record w { curr_jobs = remove dec key w.curr_jobs })
              (λ k. ground (arith, gone, was k, v.counted k))))
  ]
