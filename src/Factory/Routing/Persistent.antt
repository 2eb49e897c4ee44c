-- ===== src/Factory/Routing/Persistent.antt =====
-- `KeyPersistentRouting` and `CustomRouting` of ractor/src/factory/routing.rs, and hash.rs. The hash
-- of a key is the library's, or the user's, and a parameter.
use ractor.Prelude.{ℕ, ◌%◌, Bool, true, false, Option, none, some, [], ◌∷◌, ◌==◌, if◌then◌else◌}
use ractor.Prelude.Map.{contains_key}
use native.Mathlib.Decide.{ℕ_discrete}
use ractor.Factory.Job.{Job}
use ractor.Factory.Worker.{has_pending_key}
use ractor.Factory.Routing.Contract.{Pool, Router, route_chosen}

-- `hash_with_max`, over the 64-bit hash of the key.
unfoldable pub hash_with_max : {K : Type 0} → (K → ℕ) → K → ℕ → ℕ
hash_with_max hash key excluded_max = hash key % excluded_max

abbrev pub in_pool : {K M : Type 0} → ℕ → Pool K M → Bool
in_pool wid pool = contains_key ℕ_discrete wid pool

unfoldable pub then_some : Bool → ℕ → Option ℕ
then_some true n = some n
then_some false n = none

module _ {K M : Type 0} (dec : Discrete K) where
  -- The first worker, in the pool's order, that holds a job with the key.
  unfoldable pub find_pending : K → Pool K M → Option ℕ
  find_pending key [] = none
  find_pending key ((wid, w) ∷ pool) =
      if has_pending_key dec key w then some wid else find_pending key pool

  -- The hint counts only where its worker is in the pool.
  unfoldable pub hinted : Option ℕ → Pool K M → Option ℕ
  hinted none pool = none
  hinted (some wid) pool = then_some (in_pool wid pool) wid

  unfoldable pub hash_target : (K → ℕ) → K → ℕ → Option ℕ → Pool K M → Option ℕ
  hash_target hash key pool_size (some hint) pool = then_some (in_pool hint pool) hint
  hash_target hash key pool_size none pool =
      if pool_size == 0
      then none
      else then_some (in_pool (hash_with_max hash key pool_size) pool)
          (hash_with_max hash key pool_size)

  unfoldable pub persistent_choose :
      (K → ℕ) → Job K M → ℕ → Option ℕ → Pool K M → Unit {0} → Option ℕ × Unit {0}
  persistent_choose hash job pool_size hint pool r = elim (find_pending job.key pool) [
    | some wid ↦ (some wid, r)
    | none ↦ (hash_target hash job.key pool_size (hinted hint pool) pool, r)
  ]

  unfoldable pub key_persistent_routing : (K → ℕ) → Router K M (Unit {0})
  key_persistent_routing hash = record {
    choose_target_worker = persistent_choose hash;
    is_factory_queueing = λ r. false;
    on_worker_availability_change = λ wid available r. r;
    route_message = route_chosen dec (persistent_choose hash);
  }

  -- The user's hash is given the number of workers; it is cut to it all the same.
  unfoldable pub custom_choose :
      (K → ℕ → ℕ) → Job K M → ℕ → Option ℕ → Pool K M → Unit {0} → Option ℕ × Unit {0}
  custom_choose hasher job pool_size hint pool r =
      let key = hasher job.key pool_size % pool_size in
      (if pool_size == 0 then none else then_some (in_pool key pool) key, r)

  unfoldable pub custom_routing : (K → ℕ → ℕ) → Router K M (Unit {0})
  custom_routing hasher = record {
    choose_target_worker = custom_choose hasher;
    is_factory_queueing = λ r. false;
    on_worker_availability_change = λ wid available r. r;
    route_message = route_chosen dec (custom_choose hasher);
  }
