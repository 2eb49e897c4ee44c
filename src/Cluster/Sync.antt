-- ===== src/Cluster/Sync.antt =====
-- What a node session exchanges once it is authenticated (ractor_cluster/src/node/node_session.rs:
-- `handle_node`, `handle_control`, `after_authenticated` and the events of `handle_supervisor_evt` on
-- pids). `N` are the names of scopes and groups, `W` the serialized messages. Arguments are
-- `remotable`, whether a local actor of a pid runs and supports remoting, and `spawned`, the remote
-- actor that is spawned for a pid, none where that fails. What a handler does to others is a list, in
-- order. The session has a connection, to a peer that is not its own node, and stays authenticated
-- once it is; the node server takes its casts, and remote actors stop when they are told to. Left out
-- are the replies of local actors, the pings of this end, the enumeration of sessions, and the
-- supervision events on process groups and on actors that end.
pub mod Told
pub mod Started
pub mod Announced
use mathlib.Core.Option
use ractor.Prelude.{
  ℕ, Bool, true, false, ◌&&◌, not, Option, none, some, List, [], ◌∷◌, ◌++◌, map, if◌then◌else◌,
  ℕ_discrete, keep, is_empty, is_some,
}
use ractor.Prelude.Map.{Map, Set, lookup, insert, remove, contains_key}

pub data ReadyState : Type 0 where
  open_state sync_sent sync_received ready : ReadyState

pub record SyncState : Type 0 where
  pub authenticated : Bool
  pub ready_state : ReadyState
  pub remote_actors : Map ℕ ℕ
  pub advertised_local_pids : Set ℕ

-- Messages to the peer, to local actors, to remote actors by their id, to the node server, and calls on
-- the process groups; `unreachable` is the panic.
pub data SyncEvent (N W : Type 0) : Type 0 where
  send_spawn send_terminate : List ℕ → SyncEvent N W
  send_pg_join send_pg_leave : N → N → List ℕ → SyncEvent N W
  send_pong : ℕ → SyncEvent N W
  send_ready connection_ready election_lost unreachable : SyncEvent N W
  deliver_cast : ℕ → W → SyncEvent N W
  deliver_call : ℕ → ℕ → W → SyncEvent N W
  deliver_reply : ℕ → ℕ → W → SyncEvent N W
  stop_remote : ℕ → SyncEvent N W
  join_scoped leave_scoped : N → N → List ℕ → SyncEvent N W

pub data NodeMessage (W : Type 0) : Type 0 where
  cast : ℕ → W → NodeMessage W
  call reply : ℕ → ℕ → W → NodeMessage W

pub data ControlMessage (N : Type 0) : Type 0 where
  peer_ready : ControlMessage N
  spawn terminate : List ℕ → ControlMessage N
  ping : ℕ → ControlMessage N
  pg_join pg_leave : N → N → List ℕ → ControlMessage N

unfoldable pub authorized_local_actor : (ℕ → Bool) → ℕ → SyncState → Bool × SyncState
authorized_local_actor remotable pid s =
    let known : Bool = contains_key ℕ_discrete pid s.advertised_local_pids in
    (
      known && remotable pid,
      record s {
        advertised_local_pids =
            if known && not (remotable pid)
            then remove ℕ_discrete pid s.advertised_local_pids
            else s.advertised_local_pids;
      },
    )

module _ {N W : Type 0} where
  unfoldable pub deliver_authorized :
      SyncEvent N W → Bool × SyncState → SyncState × List (SyncEvent N W)
  deliver_authorized e found = (found.1, if found.0 then e ∷ [] else [])

  unfoldable pub reply_to : Option ℕ → ℕ → W → List (SyncEvent N W)
  reply_to none tag what = []
  reply_to (some actor) tag what = deliver_reply actor tag what ∷ []

  unfoldable pub node_msg :
      (ℕ → Bool) → NodeMessage W → SyncState → SyncState × List (SyncEvent N W)
  node_msg remotable (cast to what) s =
      deliver_authorized (deliver_cast to what) (authorized_local_actor remotable to s)
  node_msg remotable (call to tag what) s =
      deliver_authorized (deliver_call to tag what) (authorized_local_actor remotable to s)
  node_msg remotable (reply to tag what) s =
      (s, reply_to (lookup ℕ_discrete to s.remote_actors) tag what)

  unfoldable pub handle_node :
      (ℕ → Bool) → NodeMessage W → SyncState → SyncState × List (SyncEvent N W)
  handle_node remotable m s = if s.authenticated then node_msg remotable m s else (s, [])

-- Where there is no remote actor of this pid, the spawned one is kept.
unfoldable pub keep_spawned : ℕ → Option ℕ → Option ℕ → SyncState → Option ℕ × SyncState
keep_spawned pid (some actor) fresh s = (some actor, s)
keep_spawned pid none none s = (none, s)
keep_spawned pid none (some actor) s =
    (some actor, record s { remote_actors = insert ℕ_discrete pid actor s.remote_actors })

unfoldable pub get_or_spawn_remote_actor : (ℕ → Option ℕ) → ℕ → SyncState → Option ℕ × SyncState
get_or_spawn_remote_actor spawned pid s =
    keep_spawned pid (lookup ℕ_discrete pid s.remote_actors) (spawned pid) s

abbrev pub with_actor : Option ℕ → List ℕ → List ℕ
with_actor none cells = cells
with_actor (some actor) cells = actor ∷ cells

unfoldable pub known_cells : List ℕ → SyncState → List ℕ
known_cells [] s = []
known_cells (pid ∷ pids) s = with_actor (lookup ℕ_discrete pid s.remote_actors) (known_cells pids s)

-- The actors of the pids, in order, less those that could not be spawned.
unfoldable pub spawn_each : (ℕ → Option ℕ) → List ℕ → SyncState → List ℕ × SyncState
spawn_each spawned [] s = ([], s)
spawn_each spawned (pid ∷ pids) s =
    let one : Option ℕ × SyncState = get_or_spawn_remote_actor spawned pid s in
    let rest : List ℕ × SyncState = spawn_each spawned pids one.1 in
    (with_actor one.0 rest.0, rest.1)

module _ {N W : Type 0} where
  unfoldable pub terminate_one : Option ℕ → ℕ → SyncState → SyncState × List (SyncEvent N W)
  terminate_one none pid s = (s, [])
  terminate_one (some actor) pid s =
      (record s { remote_actors = remove ℕ_discrete pid s.remote_actors }, stop_remote actor ∷ [])

  unfoldable pub terminate_each : List ℕ → SyncState → SyncState × List (SyncEvent N W)
  terminate_each [] s = (s, [])
  terminate_each (pid ∷ pids) s =
      let one : SyncState × List (SyncEvent N W) =
        terminate_one (lookup ℕ_discrete pid s.remote_actors) pid s in
      let rest : SyncState × List (SyncEvent N W) = terminate_each pids one.0 in
      (rest.0, one.1 ++ rest.1)

  unfoldable pub on_ready : ReadyState → SyncState → SyncState × List (SyncEvent N W)
  on_ready open_state s = (record s { ready_state = sync_received }, [])
  on_ready sync_sent s = (record s { ready_state = ready }, connection_ready ∷ [])
  on_ready sync_received s = (s, [])
  on_ready ready s = (s, [])

  unfoldable pub control_msg :
      (ℕ → Option ℕ) → ControlMessage N → SyncState → SyncState × List (SyncEvent N W)
  control_msg spawned peer_ready s = on_ready s.ready_state s
  control_msg spawned (spawn pids) s =
      let r : List ℕ × SyncState = spawn_each spawned pids s in (r.1, [])
  control_msg spawned (terminate pids) s = terminate_each pids s
  control_msg spawned (ping timestamp) s = (s, send_pong timestamp ∷ [])
  control_msg spawned (pg_join scope group pids) s =
      let r : List ℕ × SyncState = spawn_each spawned pids s in
      (r.1, if is_empty r.0 then [] else join_scoped scope group r.0 ∷ [])
  control_msg spawned (pg_leave scope group pids) s =
      let cells : List ℕ = known_cells pids s in
      (s, if is_empty cells then [] else leave_scoped scope group cells ∷ [])

  unfoldable pub handle_control :
      (ℕ → Option ℕ) → ControlMessage N → SyncState → SyncState × List (SyncEvent N W)
  handle_control spawned m s = if s.authenticated then control_msg spawned m s else (s, [])

-- The pids that a peer is told of.
unfoldable pub advertise : List ℕ → Set ℕ → Set ℕ
advertise [] m = m
advertise (pid ∷ pids) m = advertise pids (insert ℕ_discrete pid tt m)

-- The end of `after_authenticated`; none is the panic.
unfoldable pub ready_after_sync : ReadyState → Option ReadyState
ready_after_sync open_state = some sync_sent
ready_after_sync sync_received = some ready
ready_after_sync sync_sent = none
ready_after_sync ready = none

module _ {N W : Type 0} where
  -- The groups with local members that support remoting, by scope and name.
  unfoldable pub announce_groups : List (N × N × List ℕ) → List (SyncEvent N W)
  announce_groups [] = []
  announce_groups ((scope, group, pids) ∷ groups) =
      let rest : List (SyncEvent N W) = announce_groups groups in
      if is_empty pids then rest else send_pg_join scope group pids ∷ rest

  unfoldable pub sync_ready : Option ReadyState → SyncState → SyncState × List (SyncEvent N W)
  sync_ready none s = (s, unreachable ∷ [])
  sync_ready (some ready) s = (record s { ready_state = ready }, connection_ready ∷ [])
  sync_ready (some r) s = (record s { ready_state = r }, [])

  -- `after_authenticated`, given the local actors and groups, and the announcement of a session that is
  -- ready then.
  unfoldable pub after_authenticated :
      List ℕ → List (N × N × List ℕ) → SyncState → SyncState × List (SyncEvent N W)
  after_authenticated pids groups s =
      let told : SyncState = record s {
        advertised_local_pids = advertise pids s.advertised_local_pids;
      } in
      let synced : SyncState × List (SyncEvent N W) =
        sync_ready (ready_after_sync s.ready_state) told in
      (
        synced.0,
        (if is_empty pids then [] else send_spawn pids ∷ [])
            ++ (announce_groups groups ++ (send_ready ∷ synced.1)),
      )

  -- The message of the handshake that authenticates the session, and whether it is elected.
  unfoldable pub authenticate :
      Bool → List ℕ → List (N × N × List ℕ) → SyncState → SyncState × List (SyncEvent N W)
  authenticate elected pids groups s =
      let after : SyncState × List (SyncEvent N W) =
        after_authenticated pids groups (record s { authenticated = true }) in
      if s.authenticated
      then (s, [])
      else if elected
      then after
      else (record s { authenticated = true }, election_lost ∷ [])

  -- `PidLifecycleEvent`, for an actor that supports remoting or not.
  unfoldable pub pid_spawned : Bool → ℕ → SyncState → SyncState × List (SyncEvent N W)
  pid_spawned remoting pid s = (
    record s {
      advertised_local_pids =
          if remoting
          then insert ℕ_discrete pid tt s.advertised_local_pids
          else s.advertised_local_pids;
    },
    if remoting then send_spawn (pid ∷ []) ∷ [] else [],
  )

  unfoldable pub pid_terminated : Bool → ℕ → SyncState → SyncState × List (SyncEvent N W)
  pid_terminated remoting pid s = (
    record s {
      advertised_local_pids =
          if remoting
          then remove ℕ_discrete pid s.advertised_local_pids
          else s.advertised_local_pids;
    },
    if remoting then send_terminate (pid ∷ []) ∷ [] else [],
  )

-- What comes to a session: from its peer, from the handshake, and from the registry of ids.
pub data SyncInput (N W : Type 0) : Type 0 where
  node : (ℕ → Bool) → NodeMessage W → SyncInput N W
  control : (ℕ → Option ℕ) → ControlMessage N → SyncInput N W
  authenticating : Bool → List ℕ → List (N × N × List ℕ) → SyncInput N W
  spawning terminating : Bool → ℕ → SyncInput N W

module _ {N W : Type 0} where
  unfoldable pub sync_step : SyncInput N W → SyncState → SyncState × List (SyncEvent N W)
  sync_step (node remotable m) s = handle_node remotable m s
  sync_step (control spawned m) s = handle_control spawned m s
  sync_step (authenticating elected pids groups) s = authenticate elected pids groups s
  sync_step (spawning remoting pid) s = pid_spawned remoting pid s
  sync_step (terminating remoting pid) s = pid_terminated remoting pid s

  unfoldable pub run_sync : List (SyncInput N W) → SyncState → SyncState × List (SyncEvent N W)
  run_sync [] s = (s, [])
  run_sync (i ∷ is) s =
      let one : SyncState × List (SyncEvent N W) = sync_step i s in
      let rest : SyncState × List (SyncEvent N W) = run_sync is one.0 in (rest.0, one.1 ++ rest.1)

abbrev pub new_session : SyncState
new_session = record {
  authenticated = false;
  ready_state = open_state;
  remote_actors = [];
  advertised_local_pids = [];
}
