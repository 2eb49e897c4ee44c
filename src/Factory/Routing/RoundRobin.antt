-- ===== src/Factory/Routing/RoundRobin.antt =====
-- `RoundRobinRouting` of ractor/src/factory/routing.rs: the next worker in order. The state is the
-- last worker.
use ractor.Prelude.{ℕ, ◌+◌, false, Option, none, some, leb, ◌==◌, if◌then◌else◌}
use ractor.Prelude.Map.{contains_key}
use native.Mathlib.Decide.{ℕ_discrete}
use ractor.Factory.Job.{Job}
use ractor.Factory.Routing.Contract.{Pool, Router, route_chosen}
use ractor.Factory.Routing.Available.{available_hint}
use ractor.Factory.Routing.Persistent.{then_some}

module _ {K M : Type 0} where
  unfoldable pub next_in_order : ℕ → Option ℕ → Pool K M → ℕ → Option ℕ × ℕ
  next_in_order pool_size (some hint) pool last = (some hint, last)
  next_in_order pool_size none pool last =
      let key = if leb pool_size (last + 1) then 0 else last + 1 in
      (then_some (contains_key ℕ_discrete key pool) key, key)

  unfoldable pub round_robin_choose : Job K M → ℕ → Option ℕ → Pool K M → ℕ → Option ℕ × ℕ
  round_robin_choose job pool_size hint pool last =
      if pool_size == 0
      then (none, last)
      else next_in_order pool_size (available_hint hint pool) pool last

unfoldable pub round_robin_routing : {K M : Type 0} → Discrete K → Router K M ℕ
round_robin_routing dec = record {
  choose_target_worker = round_robin_choose;
  is_factory_queueing = λ last. false;
  on_worker_availability_change = λ wid available last. last;
  route_message = route_chosen dec round_robin_choose;
}
