-- ===== src/Factory/Routing/Available.antt =====
-- The deque of available workers that `QueuerRouting` and `StickyQueuerRouting` of
-- ractor/src/factory/routing.rs keep, with the same code.
use ractor.Prelude.{
  ℕ, ◌+◌, ◌-◌, Bool, true, false, Option, none, some, List, [], ◌∷◌, ◌++◌, length, get_elem?, set,
  replicate, get_or, if◌then◌else◌, ltb,
}
use ractor.Factory.Worker.{WorkerProperties, is_available}
use ractor.Factory.Routing.Contract.{Pool, get_worker}

pub record AvailableWorkers : Type 0 where
  pub available_workers : List ℕ
  pub worker_in_queue : List Bool

unfoldable pub no_workers : AvailableWorkers
no_workers = record { available_workers = []; worker_in_queue = [] }

module _ {K M : Type 0} where
  unfoldable pub worker_is_available : Option (WorkerProperties K M) → Bool
  worker_is_available none = false
  worker_is_available (some w) = is_available w

  -- The loop that pops the deque, skipping stale entries.
  unfoldable pub pop_available : Pool K M → List ℕ → List Bool → Option ℕ × AvailableWorkers
  pop_available pool [] flags = (none, record { available_workers = []; worker_in_queue = flags })
  pop_available pool (wid ∷ rest) flags =
      let flags' = set flags wid false in
      let later = pop_available pool rest flags' in
      if worker_is_available (get_worker wid pool)
      then (some wid, record { available_workers = rest; worker_in_queue = flags' })
      else later

  unfoldable pub take_available : Pool K M → AvailableWorkers → Option ℕ × AvailableWorkers
  take_available pool a = pop_available pool a.available_workers a.worker_in_queue

  -- The hint, where its worker is available.
  unfoldable pub available_hint : Option ℕ → Pool K M → Option ℕ
  available_hint none pool = none
  available_hint (some wid) pool =
      if worker_is_available (get_worker wid pool) then some wid else none

-- `Vec::resize` to at least `n` entries.
unfoldable pub grow : ℕ → List Bool → List Bool
grow n flags = if ltb (length flags) n then flags ++ replicate (n - length flags) false else flags

unfoldable pub change_availability : ℕ → Bool → AvailableWorkers → AvailableWorkers
change_availability wid available a =
    let flags = grow (wid + 1) a.worker_in_queue in
    let listed = get_or (get_elem? flags wid) false in
    if available
    then (if listed then record a { worker_in_queue = flags } else record {
      available_workers = a.available_workers ++ wid ∷ [];
      worker_in_queue = set flags wid true;
    })
    else record a { worker_in_queue = set flags wid false }
