-- ===== src/Cluster/Nodes/Server.antt =====
-- The node server's handling of messages and of the end of its sessions, `NodeServer` of
-- ractor_cluster/src/node.rs. Its TCP listener, and the subscribers, are told apart by numbers.
use ractor.Prelude.{
  ℕ, ◌+◌, ◌++◌, Bool, Option, none, some, List, [], ◌∷◌, map, if◌then◌else◌, Ordering, ℕ_discrete,
  ◌==◌,
}
use ractor.Prelude.Map.{Map, lookup, insert, remove, values}
use ractor.Cluster.Auth.{NameMessage}
use ractor.Cluster.Nodes
use ractor.Cluster.Nodes.{
  NodeServerSessionInformation, NodeServerState, SessionCheckReply, SessionElection,
  new_information, is_authenticated, register_session, commit_authenticated, is_elected,
}

-- An opened connection comes with the actor that was spawned for it, none where that failed.
pub data NodeServerMessage (N : Type 0) : Type 0 where
  connection_opened : Bool → N → Option ℕ → NodeServerMessage N
  connection_authenticated connection_ready : ℕ → NodeServerMessage N
  update_session : ℕ → NameMessage N → NodeServerMessage N
  check_session : NameMessage N → NodeServerMessage N
  get_sessions : NodeServerMessage N
  subscribe_to_events : N → ℕ → NodeServerMessage N
  unsubscribe_to_events : N → NodeServerMessage N
  port_changed : N → NodeServerMessage N

pub data NodeEvent (N : Type 0) : Type 0 where
  session_opened session_disconnected : ℕ → NodeServerSessionInformation N → NodeEvent N
  session_authenticated session_ready : ℕ → Option (NodeServerSessionInformation N) → NodeEvent N
  stop_duplicate : ℕ → NodeEvent N
  checked : SessionCheckReply → NodeEvent N
  sessions : Map ℕ (NodeServerSessionInformation N) → NodeEvent N

module _ {N : Type 0} where
  unfoldable pub pre_start : ℕ → NameMessage N → NodeServerState N
  pre_start listener this_node_name = record {
    listener = listener;
    node_sessions = [];
    node_id_counter = 0;
    this_node_name = this_node_name;
    subscriptions = [];
    connection_ids = [];
    authenticated_sessions = [];
  }

  unfoldable pub tell : (ℕ → NodeEvent N) → NodeServerState N → List (NodeEvent N)
  tell event s = map event (values s.subscriptions)

  unfoldable pub open_session :
      Bool → N → Option ℕ → NodeServerState N → NodeServerState N × List (NodeEvent N)
  open_session is_server peer_addr none s = (s, [])
  open_session is_server peer_addr (some id) s =
      let session = new_information is_server s.node_id_counter peer_addr in
      (
        record s {
          node_sessions = insert ℕ_discrete id session s.node_sessions;
          node_id_counter = s.node_id_counter + 1;
        },
        tell (λ sub. session_opened sub session) s,
      )

  -- The authenticated sessions, by node id.
  unfoldable pub sessions_among :
      NodeServerState N
      → Map ℕ (NodeServerSessionInformation N)
      → Map ℕ (NodeServerSessionInformation N)
      → Map ℕ (NodeServerSessionInformation N)
  sessions_among s [] found = found
  sessions_among s ((id, session) ∷ m) found =
      sessions_among s m
        (if is_authenticated id s then insert ℕ_discrete session.node_id session found else found)

  unfoldable pub end_found :
      ℕ
      → Option (NodeServerSessionInformation N)
      → NodeServerState N
      → NodeServerState N × List (NodeEvent N)
  end_found id none s = (s, [])
  end_found id (some session) s = (
    record s {
      node_sessions = remove ℕ_discrete id s.node_sessions;
      connection_ids = remove ℕ_discrete id s.connection_ids;
      authenticated_sessions = remove ℕ_discrete id s.authenticated_sessions;
    },
    tell (λ sub. session_disconnected sub session) s,
  )

  unfoldable pub session_ended : ℕ → NodeServerState N → NodeServerState N × List (NodeEvent N)
  session_ended id s = end_found id (lookup ℕ_discrete id s.node_sessions) s

  unfoldable pub restart :
      Option ℕ → NodeServerState N → Option (NodeServerState N × List (NodeEvent N))
  restart none s = none
  restart (some listener) s = some (record s { listener = listener }, [])

  -- `NodeServer::handle_supervisor_evt` for an actor that failed or terminated; `respawned` is the
  -- listener spawned in place of one that ended, and without it the handler fails.
  unfoldable pub handle_supervisor_evt :
      ℕ → Option ℕ → NodeServerState N → Option (NodeServerState N × List (NodeEvent N))
  handle_supervisor_evt id respawned s =
      if s.listener == id then restart respawned s else some (session_ended id s)

  unfoldable pub announce_election :
      ℕ → Option SessionElection → NodeServerState N → List (NodeEvent N)
  announce_election id none s = []
  announce_election id (some election) s =
      map stop_duplicate election.losers
      ++ (if election.candidate_survives
          then tell (λ sub. session_authenticated sub (lookup ℕ_discrete id s.node_sessions)) s
          else [])

module _ {N : Type 0} (dec : Discrete N) (order : N → N → Ordering) where
  -- `NodeServer::handle`.
  unfoldable pub handle :
      NodeServerMessage N → NodeServerState N → NodeServerState N × List (NodeEvent N)
  handle (connection_opened is_server peer_addr spawned) s =
      open_session is_server peer_addr spawned s
  handle (connection_authenticated id) s =
      let (election, s') = commit_authenticated dec order id s in
      (s', announce_election id election s')
  handle (connection_ready id) s = (
    s,
    if is_elected dec order id s
        then tell (λ sub. session_ready sub (lookup ℕ_discrete id s.node_sessions)) s
        else [],
  )
  handle (update_session id name) s = ((register_session id name s).1, [])
  handle (NodeServerMessage.check_session peer) s =
      (s, checked (Nodes.check_session dec order peer s) ∷ [])
  handle get_sessions s = (s, sessions (sessions_among s s.node_sessions []) ∷ [])
  handle (subscribe_to_events id sub) s =
      (record s { subscriptions = insert dec id sub s.subscriptions }, [])
  handle (unsubscribe_to_events id) s =
      (record s { subscriptions = remove dec id s.subscriptions }, [])
  handle (port_changed connection_string) s = (
    record s {
      this_node_name = record (s.this_node_name) { connection_string = connection_string };
    },
    [],
  )
