-- ===== src/Tests/Factory.antt =====
-- The factory actor.
use native.Mathlib.Decide.{ℕ_discrete}
use ractor.Prelude.{
  if◌then◌else◌, ◌==◌, Option, ℕ, ◌≡◌, true, arith, refl, some, none, [], ◌∷◌, List, length,
}
use ractor.Factory.Job.{Job}
use ractor.Factory.Discard.{DiscardMode, DiscardSettings, get_limit_and_mode}
use ractor.Factory.Queues.Default.{default_queue}
use ractor.Factory.Routing.Available.{AvailableWorkers}
use ractor.Factory.Routing.Sticky.{sticky_queuer_routing}
use ractor.Factory.State.Placed.{sticky_queuer_routing-Placed}
use ractor.Factory.State.Sound.{Sound}
use ractor.Factory.State.Received.{resized, receive, receive-Sound}
use ractor.Factory.Routing.Targets.{sticky_queuer_routing-Targets}
use ractor.Factory.State.{FactoryState, DrainState}
use ractor.Factory.State.Backlog.{maybe_enqueue}
use ractor.Factory.State.Active.{try_route_next_active_job}
use ractor.Factory.State.Enqueue.{Returns, maybe_enqueue-len}
use ractor.Factory.State.Served.{serve_active}
use ractor.Factory.State.Route.{Does, try_route_next_active_job-Does}
use ractor.Factory.State.Dispatched.{Dispatched}
use ractor.Prelude.Map.{lookup}
use ractor.Factory.State.Replace.{replace_in_pool}
use ractor.Factory.State.Grow.{adjust_pool}
use ractor.Factory.State.Grown.{Fresh}
use ractor.Factory.State.Adjusted.{Adjusted, adjust_pool-Adjusted}
use ractor.Factory.State.Index.{Indexed, replace_in_pool-Indexed}
use ractor.Tests.Data.{busy, noon, job, stale_job, two_workers, two_workers-AllValid, open_mailbox}

abbrev factory : FactoryState ℕ ℕ AvailableWorkers (List (Job ℕ ℕ))
factory = record {
  factory_name = "all";
  pool_size = 2;
  pool = two_workers;
  worker_by_actor = (77, 0) ∷ (78, 1) ∷ [];
  stats = some 6;
  router = record { available_workers = 1 ∷ []; worker_in_queue = [] };
  queue = stale_job 5 50 ∷ job 6 60 ∷ [];
  discard_handler = some 3;
  discard_settings = DiscardSettings.static 2 DiscardMode.oldest;
  drain_state = DrainState.not_draining;
  dead_mans_switch = some (30, true);
}

maybe_enqueue-len_example :
    Returns (λ r. length r.0.queue ≡ 2) (maybe_enqueue default_queue (job 7 70) factory [])
unfolding default_queue get_limit_and_mode
maybe_enqueue-len_example = maybe_enqueue-len default_queue (job 7 70) factory [] refl

try_route_next_active_job-Does_example :
    Does default_queue
      (sticky_queuer_routing ℕ_discrete)
      factory
      (serve_active
        (sticky_queuer_routing ℕ_discrete)
        open_mailbox
        noon
        none
        factory
        factory.queue
        [])
      (try_route_next_active_job default_queue
        (sticky_queuer_routing ℕ_discrete)
        open_mailbox
        noon
        none
        factory
        [])
unfolding default_queue
try_route_next_active_job-Does_example =
    try_route_next_active_job-Does default_queue (sticky_queuer_routing ℕ_discrete)
      (sticky_queuer_routing-Targets ℕ_discrete) open_mailbox noon none factory []

factory-Indexed : Indexed factory
unfolding lookup ℕ_discrete
factory-Indexed = record {
  sound = λ a wid h. ground arith;
  complete = λ a wid h. ground arith;
  own_id = λ wid w h. ground arith;
}

replace_in_pool-Indexed_example :
    Indexed (replace_in_pool ℕ_discrete open_mailbox noon 77 79 7 0 busy factory []).0
unfolding lookup ℕ_discrete
replace_in_pool-Indexed_example =
    replace_in_pool-Indexed ℕ_discrete open_mailbox noon 77 79 7 0 busy factory [] factory-Indexed
      refl refl refl

-- Worker 2 gets an actor, and the spawn of worker 3 fails.
abbrev spawned : ℕ → Option (ℕ × ℕ)
spawned wid = if wid == 2 then some (80, 8) else none

spawned-Fresh : Fresh spawned 2 factory
unfolding lookup ℕ_discrete
spawned-Fresh = record {
  not_indexed = λ wid a h l e. ground arith;
  distinct = λ i j a h k e f. ground arith;
}

adjust_pool-Adjusted_example :
    let r = adjust_pool (sticky_queuer_routing ℕ_discrete) open_mailbox noon spawned 4 factory [] in
    Adjusted spawned 4 factory r.0 r.1 × Indexed r.1
adjust_pool-Adjusted_example =
    adjust_pool-Adjusted (sticky_queuer_routing ℕ_discrete) open_mailbox noon spawned 4 factory []
      spawned-Fresh factory-Indexed

factory-Sound : Sound ℕ_discrete factory
factory-Sound = record { index = factory-Indexed; valid = two_workers-AllValid }

-- The pool grows to a third worker, and the jobs that wait are routed.
receive-Sound_example :
    Returns
      (λ r. Sound ℕ_discrete r.0)
      (receive ℕ_discrete default_queue
        (sticky_queuer_routing ℕ_discrete)
        open_mailbox
        noon
        (resized spawned 3)
        factory
        [])
unfolding default_queue
receive-Sound_example =
    receive-Sound ℕ_discrete default_queue (sticky_queuer_routing ℕ_discrete)
      (sticky_queuer_routing-Targets ℕ_discrete) (sticky_queuer_routing-Placed ℕ_discrete)
      open_mailbox noon (resized spawned 3) factory [] (λ q j. refl) spawned-Fresh factory-Sound
