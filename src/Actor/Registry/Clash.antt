-- ===== src/Actor/Registry/Clash.antt =====
-- A remote actor with the name of a local one (`ActorCell::new_remote` and `ActorCell::set_status` of
-- ractor/src/actor/actor_cell.rs).
use ractor.Prelude.{ℕ, ◌≡◌, true, none, some, arith}
use ractor.Actor.Status.{ActorStatus, stopping, at_least}
use ractor.Actor.Registry.{
  local, remote, is_local, Registries, put_cell, where_is, new_remote, ends, set_cell_status,
}
use ractor.Actor.Registry.Living.{live, unstarted_below, set_cell_status-Settled, without}

module _ {N : Type 0} (dec : Discrete N) where
  -- Where a name leads to a local actor that lives, a remote actor that is created with the same name
  -- and comes to stop takes the name out of the registry, and the local actor lives on.
  pub set_cell_status-clash :
      (name : N) (pid node far : ℕ) (status : ActorStatus) (s : Registries N)
      → where_is dec name s ≡ some (local pid)
      → live (local pid) s ≡ true
      → at_least stopping status ≡ true
      → let t : Registries N =
          set_cell_status dec status
            (remote node far)
            (new_remote dec (some name) (remote node far) s).1 in
        (where_is dec name t ≡ none) × (live (local pid) t ≡ true)
  unfolding new_remote put_cell is_local live where_is ends without
  set_cell_status-clash name pid node far status s h l e =
      let created : Registries N = (new_remote dec (some name) (remote node far) s).1 in
      let k = set_cell_status-Settled dec status (remote node far) created in
      (
        ground (arith, k.settled_names name, unstarted_below),
        ground (arith, k.settled_cells (local pid)),
      )
