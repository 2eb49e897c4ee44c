-- ===== src/Tests/Routing.antt =====
-- Routers.
use native.Mathlib.Decide.{ℕ_discrete}
use ractor.Prelude.{true, none, [], ◌∷◌, arith}
use ractor.Factory.Routing.Available.{AvailableWorkers}
use ractor.Factory.Routing.Persistent.{key_persistent_routing}
use ractor.Factory.Routing.Holders.{AllValid, Exclusive, route_message-Exclusive}
use ractor.Tests.Data.{noon, job, two_workers, two_workers-AllValid, open_mailbox}

two_workers-Exclusive : Exclusive ℕ_discrete two_workers
unfolding ℕ_discrete
two_workers-Exclusive k = ground arith

route_message-Exclusive_example :
    let after =
      ((key_persistent_routing ℕ_discrete (λ key. key)).route_message open_mailbox noon
        (job 2 30)
        2
        none
        tt
        two_workers
        []).2 in
    AllValid ℕ_discrete after × Exclusive ℕ_discrete after
route_message-Exclusive_example =
    route_message-Exclusive ℕ_discrete (λ key. key) open_mailbox noon (job 2 30) 2 none two_workers
      [] two_workers-AllValid two_workers-Exclusive

abbrev deque : AvailableWorkers
deque = record { available_workers = 0 ∷ 1 ∷ []; worker_in_queue = true ∷ true ∷ [] }
