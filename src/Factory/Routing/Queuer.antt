-- ===== src/Factory/Routing/Queuer.antt =====
-- `QueuerRouting` of ractor/src/factory/routing.rs: the first available worker.
use ractor.Prelude.{ℕ, true, Option, none, some}
use ractor.Factory.Job.{Job}
use ractor.Factory.Routing.Contract.{Pool, Router, route_chosen}
use ractor.Factory.Routing.Available.{
  AvailableWorkers, take_available, available_hint, change_availability,
}

module _ {K M : Type 0} where
  unfoldable pub hint_or_available :
      Option ℕ → Pool K M → AvailableWorkers → Option ℕ × AvailableWorkers
  hint_or_available (some wid) pool a = (some wid, a)
  hint_or_available none pool a = take_available pool a

  unfoldable pub queuer_choose :
      Job K M → ℕ → Option ℕ → Pool K M → AvailableWorkers → Option ℕ × AvailableWorkers
  queuer_choose job pool_size hint pool a = hint_or_available (available_hint hint pool) pool a

unfoldable pub queuer_routing : {K M : Type 0} → Discrete K → Router K M AvailableWorkers
queuer_routing dec = record {
  choose_target_worker = queuer_choose;
  is_factory_queueing = λ a. true;
  on_worker_availability_change = change_availability;
  route_message = route_chosen dec queuer_choose;
}
