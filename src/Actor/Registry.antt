-- ===== src/Actor/Registry.antt =====
-- The registries of actors by name (ractor/src/registry.rs) and by id
-- (ractor/src/registry/pid_registry.rs), with the calls of ractor/src/actor/actor_cell.rs that write
-- them. An operation happens as a whole. A name is a value of any type with a decidable equality; an
-- actor stands as its id. What `set_status` does to the process groups is in Groups.
pub mod Living
pub mod Opened
pub mod Registered
pub mod Clash
use mathlib.Core.Logic.{ite}
use ractor.Prelude.{
  ℕ, ◌+◌, ◌≡◌, ap, ap₂, Bool, true, false, not, ◌&&◌, Option, none, some, List, [], ◌∷◌, ◌++◌, map,
  if◌then◌else◌, subst, ℕ_discrete,
}
use ractor.Prelude.Map.{Map, Set, lookup, insert, remove, keys, contains_key}
use ractor.Actor.Status.{ActorStatus, unstarted, stopping, stopped, at_least, advance}

pub data ActorId : Type 0 where
  local : ℕ → ActorId
  remote : ℕ → ℕ → ActorId

unfoldable pub is_local : ActorId → Bool
is_local (local pid) = true
is_local (remote node pid) = false

abbrev pub actor_pid : ActorId → ℕ
actor_pid (local pid) = pid
actor_pid (remote node pid) = pid

abbrev pub actor_node : ActorId → ℕ
actor_node (local pid) = 0
actor_node (remote node pid) = node

abbrev pub IsLocal : ActorId → Type 0
IsLocal (local pid) = Unit
IsLocal (remote node pid) = ⊥

unfoldable pub id_discrete : Discrete ActorId
id_discrete (local a) (local b) = elim (ℕ_discrete a b) [
  | yes e ↦ yes (ap local e)
  | no h ↦ no (λ e. h (ap actor_pid e))
]
id_discrete (local a) (remote n b) = no (λ e. subst IsLocal e tt)
id_discrete (remote n a) (local b) = no (λ e. subst (λ i. IsLocal i → ⊥) e (λ h. h) tt)
id_discrete (remote n a) (remote m b) = elim (ℕ_discrete a b) [
  | yes e ↦ elim (ℕ_discrete n m) [
    | yes k ↦ yes (ap₂ remote k e)
    | no h ↦ no (λ e'. h (ap actor_node e'))
  ]
  | no h ↦ no (λ e. h (ap actor_pid e))
]

pub record Cell (N : Type 0) : Type 0 where
  pub name : Option N
  pub status : ActorStatus

-- `PidLifecycleEvent`, to a listener.
pub data PidLifecycleEvent : Type 0 where
  spawn terminate : ActorId → ActorId → PidLifecycleEvent

-- The two registries, the listeners of the second, the cells, and the id allocator.
pub record Registries (N : Type 0) : Type 0 where
  pub names : Map N ActorId
  pub pids : Set ActorId
  pub listeners : Set ActorId
  pub cells : ActorId → Cell N
  pub next_id : ℕ
  pub notices : List PidLifecycleEvent

module _ {N : Type 0} where
  -- No actor, so there is nothing to clean up after.
  abbrev pub no_cell : Cell N
  no_cell = record { name = none; status = stopped }

  unfoldable pub put_cell : ActorId → Cell N → Registries N → Registries N
  put_cell id cell s = record s { cells = λ j. ite (id_discrete id j) cell (s.cells j) }

  -- `register_pid`, which fails where the id is there.
  unfoldable pub register_pid : ActorId → Registries N → Bool × Registries N
  register_pid id s =
      let fresh : Bool = not (contains_key id_discrete id s.pids) in
      (
        if is_local id then fresh else true,
        record s {
          pids = if is_local id && fresh then insert id_discrete id tt s.pids else s.pids;
          notices =
              if is_local id && fresh
              then s.notices ++ map (λ l. spawn l id) (keys s.listeners)
              else s.notices;
        },
      )

  unfoldable pub unregister_pid : ActorId → Registries N → Registries N
  unregister_pid id s =
      let found : Bool = contains_key id_discrete id s.pids in
      record s {
        pids = if is_local id then remove id_discrete id s.pids else s.pids;
        notices =
            if is_local id && found
            then s.notices ++ map (λ l. terminate l id) (keys s.listeners)
            else s.notices;
      }

  unfoldable pub where_is_pid : ActorId → Registries N → Option ActorId
  where_is_pid id s = if is_local id && contains_key id_discrete id s.pids then some id else none

  unfoldable pub monitor_pids : ActorId → Registries N → Registries N
  monitor_pids id s = record s { listeners = insert id_discrete id tt s.listeners }

  unfoldable pub demonitor_pids : ActorId → Registries N → Registries N
  demonitor_pids id s = record s { listeners = remove id_discrete id s.listeners }

-- The first transition to `Stopping`.
unfoldable pub ends : ActorStatus → ActorStatus → Bool
ends status previous = at_least stopping status && not (at_least stopping previous)

module _ {N : Type 0} (dec : Discrete N) where
  -- `register`, which fails where the name is taken.
  unfoldable pub register : N → ActorId → Registries N → Bool × Registries N
  register name id s =
      let vacant : Bool = not (contains_key dec name s.names) in
      (vacant, record s { names = if vacant then insert dec name id s.names else s.names })

  unfoldable pub unregister : N → Registries N → Registries N
  unregister name s = record s { names = remove dec name s.names }

  unfoldable pub where_is : N → Registries N → Option ActorId
  where_is name s = lookup dec name s.names

  unfoldable pub register_name : Option N → ActorId → Registries N → Bool × Registries N
  register_name none id s = (true, s)
  register_name (some name) id s = register name id s

  unfoldable pub unregister_name : Option N → Registries N → Registries N
  unregister_name none s = s
  unregister_name (some name) s = unregister name s

  -- `ActorCell::new`, without the ports. A cell that is refused is dropped.
  unfoldable pub new_cell : Option N → Registries N → Option ActorId × Registries N
  new_cell name s =
      let id : ActorId = local s.next_id in
      let taken : Registries N = record s { next_id = s.next_id + 1 } in
      let named : Bool × Registries N = register_name name id taken in
      let known : Bool × Registries N = register_pid id named.1 in
      if named.0
      then (if known.0
          then (some id, put_cell id (record { name = name; status = unstarted }) known.1)
          else (none, unregister_name name known.1))
      else (none, named.1)

  -- `ActorCell::new_remote`: the actor is in neither registry.
  unfoldable pub new_remote : Option N → ActorId → Registries N → Option ActorId × Registries N
  new_remote name id s =
      if is_local id
      then (none, s)
      else (some id, put_cell id (record { name = name; status = unstarted }) s)

  -- The clean-up of an actor that comes to stop, with its name.
  unfoldable pub clean_up : Option N → ActorId → Registries N → Registries N
  clean_up name id s = unregister_name name (unregister_pid id (demonitor_pids id s))

  -- `ActorCell::set_status`.
  unfoldable pub set_cell_status : ActorStatus → ActorId → Registries N → Registries N
  set_cell_status status id s =
      let previous : ActorStatus = (s.cells id).status in
      let moved : Registries N =
        put_cell id (record (s.cells id) { status = advance status previous }) s in
      if ends status previous then clean_up (s.cells id).name id moved else moved

pub data RegistryOperation (N : Type 0) : Type 0 where
  creating : Option N → RegistryOperation N
  creating_remote : Option N → ActorId → RegistryOperation N
  setting : ActorStatus → ActorId → RegistryOperation N
  monitoring demonitoring : ActorId → RegistryOperation N

module _ {N : Type 0} (dec : Discrete N) where
  abbrev pub operate : RegistryOperation N → Registries N → Registries N
  operate (creating name) s = (new_cell dec name s).1
  operate (creating_remote name id) s = (new_remote dec name id s).1
  operate (setting status id) s = set_cell_status dec status id s
  operate (monitoring id) s = monitor_pids id s
  operate (demonitoring id) s = demonitor_pids id s

  unfoldable pub operate_all : List (RegistryOperation N) → Registries N → Registries N
  operate_all [] s = s
  operate_all (o ∷ os) s = operate_all os (operate o s)

abbrev pub new_registries : {N : Type 0} → Registries N
new_registries = record {
  names = [];
  pids = [];
  listeners = [];
  cells = λ id. no_cell;
  next_id = 0;
  notices = [];
}
