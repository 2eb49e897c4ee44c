-- ===== src/Factory/Worker.antt =====
-- A worker as the factory sees it, `WorkerProperties` of ractor/src/factory/worker.rs. An operation
-- takes one reading of the clocks, and returns the worker beside the log of its outside effects.
-- `cast` is what the mailbox of a worker actor answers to a message.
pub mod Fields
pub mod Pending
pub mod Invariant
pub mod Bounds
pub mod Order
pub mod Closed
pub mod Runs
use Prim.Native.String.{String}
use ractor.Prelude.{
  ℕ, zero, suc, ◌+◌, ◌-◌, Bool, true, false, not, ◌&&◌, Option, none, some, List, [], ◌∷◌, ◌++◌,
  ltb, leb, ◌==◌, if◌then◌else◌, is_empty, is_some, get_or, length,
}
use ractor.Prelude.Map.{Map, lookup, insert, remove, keys, contains_key}
use ractor.Factory.Job.{Clock, Job, JobOptions, is_expired, set_worker_time}
use ractor.Factory.Discard.{
  DiscardReason, DiscardMode, WorkerDiscardSettings, worker_limit_and_mode, update_worker_limit,
}
use ractor.Factory.Effects.{
  Stat, Event, Log, CastOutcome, sent, send_err, invalid_type, discard_job, record_stat, accept,
  reject,
}

-- `WorkerHeartbeat`, with the time of the heartbeat that is unanswered.
abbrev pub WorkerHeartbeat : Type 0
WorkerHeartbeat = Option ℕ

-- `WorkerHeartbeat::is_stuck_at`: waited strictly longer than the timeout.
unfoldable pub heartbeat_is_stuck : ℕ → ℕ → WorkerHeartbeat → Bool
heartbeat_is_stuck now timeout none = false
heartbeat_is_stuck now timeout (some sent_at) = ltb timeout (now - sent_at)

pub record WorkerProperties (K M : Type 0) : Type 0 where
  pub wid : ℕ
  pub actor : ℕ
  pub factory_name : String
  pub handle : Option ℕ
  pub message_queue : List (Job K M)
  pub discard_settings : WorkerDiscardSettings
  pub discard_handler : Option ℕ
  pub heartbeat : WorkerHeartbeat
  pub stats : Option ℕ
  pub curr_jobs : Map K JobOptions
  pub pending_key_counts : Map K ℕ
  pub is_draining : Bool

module _ {K M : Type 0} where
  -- `WorkerProperties::new`.
  unfoldable pub new_worker :
      String → ℕ → ℕ → WorkerDiscardSettings → Option ℕ → ℕ → Option ℕ → WorkerProperties K M
  new_worker factory_name wid actor discard_settings discard_handler handle stats = record {
    wid = wid;
    actor = actor;
    factory_name = factory_name;
    handle = some handle;
    message_queue = [];
    discard_settings = discard_settings;
    discard_handler = discard_handler;
    heartbeat = none;
    stats = stats;
    curr_jobs = [];
    pending_key_counts = [];
    is_draining = false;
  }

  unfoldable pub get_join_handle : WorkerProperties K M → Option ℕ × WorkerProperties K M
  get_join_handle w = (w.handle, record w { handle = none })

  unfoldable pub is_available : WorkerProperties K M → Bool
  is_available w = is_empty w.curr_jobs && is_empty w.message_queue

  unfoldable pub is_working : WorkerProperties K M → Bool
  is_working w = not (is_available w)

  unfoldable pub queued_job_count : WorkerProperties K M → ℕ
  queued_job_count w = length w.message_queue

  unfoldable pub active_job_count : WorkerProperties K M → ℕ
  active_job_count w = length w.curr_jobs

  unfoldable pub is_stuck : Clock → ℕ → WorkerProperties K M → Bool
  is_stuck c duration w = heartbeat_is_stuck c.instant duration w.heartbeat

  unfoldable pub set_draining : Bool → WorkerProperties K M → WorkerProperties K M
  set_draining b w = record w { is_draining = b }

  -- A ping goes out only if none is pending, and counts as sent only if the mailbox took it.
  unfoldable pub send_factory_ping :
      (ℕ → CastOutcome) → Clock → WorkerProperties K M → Log K M → WorkerProperties K M × Log K M
  send_factory_ping cast c w log = if is_some w.heartbeat then (w, log) else elim (cast w.actor) [
    | sent ↦ (record w { heartbeat = some c.instant }, Event.ping w.actor c.instant ∷ log)
    | _ ↦ (w, log)
  ]

  unfoldable pub ping_received :
      ℕ → ℕ → WorkerProperties K M → Log K M → WorkerProperties K M × Log K M
  ping_received time discard_limit w log = (
    record w {
      discard_settings = update_worker_limit discard_limit w.discard_settings;
      heartbeat = none;
    },
    record_stat w.stats w.factory_name (Stat.worker_ping_received time) log,
  )

module _ {K : Type 0} (dec : Discrete K) where
  unfoldable pub count_up : K → Map K ℕ → Map K ℕ
  count_up key m = insert dec key (get_or (lookup dec key m) 0 + 1) m

  -- The entry goes away with its last job.
  unfoldable pub count_down : K → Map K ℕ → Map K ℕ
  count_down key m = elim (lookup dec key m) [
    | none ↦ m
    | some n ↦ if n == 1 then remove dec key m else insert dec key (n - 1) m
  ]

module _ {K M : Type 0} (dec : Discrete K) where
  unfoldable pub is_processing_key : K → WorkerProperties K M → Bool
  is_processing_key key w = contains_key dec key w.curr_jobs

  unfoldable pub has_pending_key : K → WorkerProperties K M → Bool
  has_pending_key key w = contains_key dec key w.pending_key_counts

  unfoldable pub track_pending_key : K → WorkerProperties K M → WorkerProperties K M
  track_pending_key key w = record w { pending_key_counts = count_up dec key w.pending_key_counts }

  unfoldable pub untrack_pending_key : K → WorkerProperties K M → WorkerProperties K M
  untrack_pending_key key w = record w {
    pending_key_counts = count_down dec key w.pending_key_counts;
  }

  unfoldable pub untrack_keys : List K → WorkerProperties K M → WorkerProperties K M
  untrack_keys [] w = w
  untrack_keys (k ∷ ks) w = untrack_keys ks (untrack_pending_key k w)

  -- The expired job at the head of the queue goes.
  unfoldable pub drop_expired :
      Job K M → List (Job K M) → WorkerProperties K M → WorkerProperties K M
  drop_expired job queue w = untrack_pending_key job.key (record w { message_queue = queue })

  unfoldable pub log_expired : Job K M → WorkerProperties K M → Log K M → Log K M
  log_expired job w log =
      record_stat w.stats w.factory_name (Stat.job_ttl_expired 1)
        (discard_job w.discard_handler DiscardReason.ttl_expired job log)

  -- The loop over the queue from its head, `queue` being what is left of it.
  unfoldable pub next_job_from :
      Clock
      → List (Job K M)
      → WorkerProperties K M
      → Log K M
      → Option (Job K M) × WorkerProperties K M × Log K M
  next_job_from c [] w log = (none, record w { message_queue = [] }, log)
  next_job_from c (job ∷ queue) w log =
      let rest = next_job_from c queue (drop_expired job queue w) (log_expired job w log) in
      if not (is_expired c job) then (some job, record w { message_queue = queue }, log) else rest

  unfoldable pub get_next_non_expired_job :
      Clock → WorkerProperties K M → Log K M → Option (Job K M) × WorkerProperties K M × Log K M
  get_next_non_expired_job c w log = next_job_from c w.message_queue w log

  -- A job that the mailbox gives back waits at the head of the queue for the replacement.
  unfoldable pub dispatch_job :
      (ℕ → CastOutcome)
      → Clock
      → Job K M
      → WorkerProperties K M
      → Log K M
      → WorkerProperties K M × Log K M
  dispatch_job cast c job w log =
      let timed = set_worker_time c job in
      elim (cast w.actor) [
        | sent ↦ (
          record w { curr_jobs = insert dec job.key timed.options w.curr_jobs },
          Event.dispatch w.actor timed ∷ log,
        )
        | send_err ↦ (record w { message_queue = timed ∷ w.message_queue }, log)
        | invalid_type ↦ (untrack_pending_key job.key w, log)
      ]

  unfoldable pub dispatch_taken :
      (ℕ → CastOutcome)
      → Clock
      → Option (Job K M)
      → WorkerProperties K M
      → Log K M
      → WorkerProperties K M × Log K M
  dispatch_taken cast c none w log = (w, log)
  dispatch_taken cast c (some job) w log = dispatch_job cast c job w log

  -- Dispatch the next job that has not expired, if there is one.
  unfoldable pub dispatch_next :
      (ℕ → CastOutcome) → Clock → WorkerProperties K M → Log K M → WorkerProperties K M × Log K M
  dispatch_next cast c w log =
      let (next, w', log') = get_next_non_expired_job c w log in dispatch_taken cast c next w' log'

  unfoldable pub replace_worker :
      (ℕ → CastOutcome)
      → Clock
      → ℕ
      → ℕ
      → WorkerProperties K M
      → Log K M
      → WorkerProperties K M × Log K M
  replace_worker cast c nworker handle w log =
      let abandoned =
        untrack_keys (keys w.curr_jobs) (record w { heartbeat = none; curr_jobs = [] }) in
      dispatch_next cast c (record abandoned { actor = nworker; handle = some handle }) log

  -- One round of the load-shedding loop.
  unfoldable pub shed_job :
      Option (Job K M) → WorkerProperties K M → Log K M → WorkerProperties K M × Log K M
  shed_job none w log = (w, log)
  shed_job (some job) w log = (
    untrack_pending_key job.key w,
    discard_job w.discard_handler DiscardReason.loadshed job
        (record_stat w.stats w.factory_name Stat.job_discarded log),
  )

  -- `while self.message_queue.len() > limit`, at most `fuel` rounds.
  unfoldable pub shed_oldest :
      ℕ → Clock → ℕ → WorkerProperties K M → Log K M → WorkerProperties K M × Log K M
  shed_oldest zero c limit w log = (w, log)
  shed_oldest (suc fuel) c limit w log =
      let (next, w', log') = get_next_non_expired_job c w log in
      let (w'', log'') = shed_job next w' log' in
      let rest = shed_oldest fuel c limit w'' log'' in
      if ltb limit (length w.message_queue) then rest else (w, log)

  unfoldable pub push_back : Job K M → WorkerProperties K M → WorkerProperties K M
  push_back job w = record w { message_queue = w.message_queue ++ job ∷ [] }

  -- Whether the limit turns this job away as the newest.
  unfoldable pub turns_away : Option (ℕ × DiscardMode) → WorkerProperties K M → Bool
  turns_away (some (limit, DiscardMode.newest)) w =
      not (is_available w) && leb limit (length w.message_queue)
  turns_away _ w = false

  unfoldable pub dispatch_or_wait :
      (ℕ → CastOutcome)
      → Clock
      → Job K M
      → Option (Job K M)
      → WorkerProperties K M
      → Log K M
      → WorkerProperties K M × Log K M
  dispatch_or_wait cast c job none w log = dispatch_job cast c job w log
  dispatch_or_wait cast c job (some older) w log = dispatch_job cast c older (push_back job w) log

  -- No job is active: the oldest waiting job goes first.
  unfoldable pub enqueue_idle :
      (ℕ → CastOutcome)
      → Clock
      → Job K M
      → WorkerProperties K M
      → Log K M
      → WorkerProperties K M × Log K M
  enqueue_idle cast c job w log =
      let (next, w', log') = get_next_non_expired_job c w log in
      dispatch_or_wait cast c job next w' log'

  -- A job is active: wait, and shed the oldest waiting jobs above the limit. The rounds are at
  -- most as many as the jobs that wait.
  unfoldable pub enqueue_busy :
      Clock
      → Job K M
      → Option (ℕ × DiscardMode)
      → WorkerProperties K M
      → Log K M
      → WorkerProperties K M × Log K M
  enqueue_busy c job (some (limit, DiscardMode.oldest)) w log =
      let w' = push_back job w in shed_oldest (length w'.message_queue) c limit w' log
  enqueue_busy c job _ w log = (push_back job w, log)

  unfoldable pub enqueue_job :
      (ℕ → CastOutcome)
      → Clock
      → Job K M
      → WorkerProperties K M
      → Log K M
      → WorkerProperties K M × Log K M
  enqueue_job cast c job w log =
      let mode = worker_limit_and_mode w.discard_settings in
      let shed =
        discard_job w.discard_handler DiscardReason.loadshed job
          (record_stat w.stats w.factory_name Stat.job_discarded log) in
      let (accepted, log') = accept job log in
      let tracked = track_pending_key job.key w in
      if turns_away mode w
      then (w, reject job shed)
      else if is_empty w.curr_jobs
      then enqueue_idle cast c accepted tracked log'
      else enqueue_busy c accepted mode tracked log'

  -- Only the completion of an active job moves the queue on.
  unfoldable pub worker_complete :
      (ℕ → CastOutcome)
      → Clock
      → K
      → WorkerProperties K M
      → Log K M
      → Option JobOptions × WorkerProperties K M × Log K M
  worker_complete cast c key w log =
      let options = lookup dec key w.curr_jobs in
      let w' = record w { curr_jobs = remove dec key w.curr_jobs } in
      let (w'', log') = dispatch_next cast c (untrack_pending_key key w') log in
      elim options [ none ↦ (none, w', log) | some o ↦ (some o, w'', log') ]
