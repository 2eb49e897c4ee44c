-- ===== src/Factory/Routing/Sticky.antt =====
-- `StickyQueuerRouting` of ractor/src/factory/routing.rs: a worker that processes the key, or else
-- the first available one.
use ractor.Prelude.{ℕ, Bool, true, false, Option, none, some, [], ◌∷◌, if◌then◌else◌}
use ractor.Factory.Job.{Job}
use ractor.Factory.Worker.{WorkerProperties, is_processing_key}
use ractor.Factory.Routing.Contract.{Pool, Router, get_worker, route_chosen}
use ractor.Factory.Routing.Available.{AvailableWorkers, available_hint, change_availability}
use ractor.Factory.Routing.Queuer.{hint_or_available}

unfoldable pub or_else : Option ℕ → Option ℕ → Option ℕ
or_else (some wid) other = some wid
or_else none other = other

module _ {K M : Type 0} (dec : Discrete K) where
  unfoldable pub worker_is_processing : K → Option (WorkerProperties K M) → Bool
  worker_is_processing key none = false
  worker_is_processing key (some w) = is_processing_key dec key w

  unfoldable pub sticky_hint : K → Option ℕ → Pool K M → Option ℕ
  sticky_hint key none pool = none
  sticky_hint key (some wid) pool =
      if worker_is_processing key (get_worker wid pool) then some wid else none

  -- The first worker, in the pool's order, that processes the key.
  unfoldable pub find_processing : K → Pool K M → Option ℕ
  find_processing key [] = none
  find_processing key ((wid, w) ∷ pool) =
      if is_processing_key dec key w then some wid else find_processing key pool

  unfoldable pub sticky_choose :
      Job K M → ℕ → Option ℕ → Pool K M → AvailableWorkers → Option ℕ × AvailableWorkers
  sticky_choose job pool_size hint pool a =
      hint_or_available
        (or_else (sticky_hint job.key hint pool)
          (or_else (find_processing job.key pool) (available_hint hint pool)))
        pool a

  unfoldable pub sticky_queuer_routing : Router K M AvailableWorkers
  sticky_queuer_routing = record {
    choose_target_worker = sticky_choose;
    is_factory_queueing = λ a. true;
    on_worker_availability_change = change_availability;
    route_message = route_chosen dec sticky_choose;
  }
