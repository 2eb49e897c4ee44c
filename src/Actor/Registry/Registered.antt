-- ===== src/Actor/Registry/Registered.antt =====
-- The registries of ractor/src/registry.rs hold the actors that live.
use ractor.Prelude.{refl, inl, inr, Bool-cases, none, some, List, [], ◌∷◌, All, arith}
use ractor.Prelude.Map.{lookup}
use ractor.Actor.Status.{at_least, status_to_u8}
use ractor.Actor.Registry.{
  ActorId, is_local, Registries, put_cell, monitor_pids, demonitor_pids, where_is, new_remote,
  RegistryOperation, creating, creating_remote, setting, monitoring, demonitoring, operate_all,
  new_registries,
}
use ractor.Actor.Registry.Living.{
  live, Registered, remote_not_local, set_cell_status-Settled, Settled-Registered,
}
use ractor.Actor.Registry.Opened.{new_cell-Registered}

module _ {N : Type 0} (dec : Discrete N) where
  monitor_pids-Registered :
      (id : ActorId) (s : Registries N) → Registered dec s → Registered dec (monitor_pids id s)
  unfolding monitor_pids live where_is
  monitor_pids-Registered id s r = record {
    name_live = r.name_live;
    name_of = r.name_of;
    name_local = r.name_local;
    live_name = r.live_name;
    known = r.known;
    fresh = r.fresh;
  }

  demonitor_pids-Registered :
      (id : ActorId) (s : Registries N) → Registered dec s → Registered dec (demonitor_pids id s)
  unfolding demonitor_pids live where_is
  demonitor_pids-Registered id s r = record {
    name_live = r.name_live;
    name_of = r.name_of;
    name_local = r.name_local;
    live_name = r.live_name;
    known = r.known;
    fresh = r.fresh;
  }

  -- A new remote actor that has no name.
  new_remote-Registered :
      (id : ActorId) (s : Registries N)
      → Registered dec s
      → Registered dec (new_remote dec none id s).1
  unfolding new_remote put_cell live where_is
  new_remote-Registered id s r = elim (Bool-cases (is_local id)) [
    | inl h ↦ rw h r
    | inr h ↦ rw h (record {
      name_live = λ n j e. ground (arith, r.name_live n j, r.name_local n j);
      name_of = λ n j e. ground (arith, r.name_of n j, r.name_local n j);
      name_local = r.name_local;
      live_name = λ n j k e. ground (arith, r.live_name n j);
      known = λ j. ground (arith, r.known j);
      fresh = λ pid k. ground (arith, r.fresh pid, remote_not_local id pid h);
    })
  ]

new_registries-Registered : {N : Type 0} (dec : Discrete N) → Registered dec new_registries
unfolding where_is lookup live at_least status_to_u8
new_registries-Registered dec = record {
  name_live = λ n j h. absurd (ground arith);
  name_of = λ n j h. absurd (ground arith);
  name_local = λ n j h. absurd (ground arith);
  live_name = λ n j h e. absurd (ground arith);
  known = λ j. ground arith;
  fresh = λ pid h. refl;
}

-- Remote actors without names.
abbrev pub Unnamed : {N : Type 0} → RegistryOperation N → Type 0
Unnamed (creating_remote (some name) id) = ⊥
Unnamed _ = Unit

operate_from :
    {N : Type 0} (dec : Discrete N) (os : List (RegistryOperation N)) (s : Registries N)
    → All Unnamed os
    → Registered dec s
    → Registered dec (operate_all dec os s)
unfolding operate_all
operate_from dec [] s h r = r
operate_from dec (creating name ∷ os) s h r =
    operate_from dec os _ h.1 (new_cell-Registered dec name s r)
operate_from dec (creating_remote none id ∷ os) s h r =
    operate_from dec os _ h.1 (new_remote-Registered dec id s r)
operate_from dec (creating_remote (some name) id ∷ os) s h r = absurd h.0
operate_from dec (setting status id ∷ os) s h r =
    operate_from dec os _ h.1
      (Settled-Registered dec status id s _ (set_cell_status-Settled dec status id s) r)
operate_from dec (monitoring id ∷ os) s h r =
    operate_from dec os _ h.1 (monitor_pids-Registered dec id s r)
operate_from dec (demonitoring id ∷ os) s h r =
    operate_from dec os _ h.1 (demonitor_pids-Registered dec id s r)

-- Whatever local actors are created, named or not, and whatever actors change their status, in whatever
-- order, as long as remote actors have no names: a name leads to an actor exactly if that one lives and
-- has the name, and the ids known are those of the local actors that live.
pub operate_all-Registered :
    {N : Type 0} (dec : Discrete N) (os : List (RegistryOperation N))
    → All Unnamed os
    → Registered dec (operate_all dec os new_registries)
operate_all-Registered dec os h =
    operate_from dec os new_registries h (new_registries-Registered dec)
