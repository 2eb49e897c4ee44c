-- ===== src/Cluster/Nodes/Reached.antt =====
-- The states that a node server (ractor_cluster/src/node.rs) passes through, from its start over the
-- messages that it handles and the actors that end.
use ractor.Prelude.{
  ap, ◌∙◌, true, refl, List, Ordering, ℕ, ◌≡◌, refl, ap, true, Option, none, some, List, arith,
  Ordering, ℕ_discrete, is_some,
}
use ractor.Prelude.Map.{lookup, insert, lookup-insert}
use ractor.Cluster.Auth.{NameMessage}
use ractor.Cluster.Nodes.{
  commit_peer, commit_found, commit_authenticated, losers_among, elected_of, candidates_for_peer,
  commit_named, NodeServerSessionInformation, NodeServerState, is_authenticated, commit_named,
  commit_peer, commit_found, commit_authenticated,
}
use ractor.Cluster.Nodes.Server.{
  handle, handle_supervisor_evt, NodeEvent, NodeServerMessage, NodeEvent, pre_start, handle,
  handle_supervisor_evt, open_session,
}
use ractor.Cluster.Nodes.Standing.{marked, lookup-forget}
use ractor.Cluster.Nodes.Tracked.{
  Tracked, Fresh, has_peer_name, pre_start-Tracked, open_session-Tracked, register_session-Tracked,
  handle_supervisor_evt-Tracked,
}

module _ {N : Type 0} (dec : Discrete N) (order : N → N → Ordering) where
  commit_named-Tracked :
      (id : ℕ) (peer : N) (s : NodeServerState N)
      → has_peer_name (lookup ℕ_discrete id s.node_sessions) ≡ true
      → Tracked s
      → Tracked (commit_named dec order id peer s).1
  unfolding commit_named is_authenticated
  commit_named-Tracked id peer s named t = record {
    registered = λ j h. ground (
      arith,
      lookup-insert ℕ_discrete id j tt s.authenticated_sessions,
      lookup-forget
          (losers_among dec order (marked id s) peer
            (elected_of dec order peer (candidates_for_peer dec peer true (marked id s))
              (marked id s))
            s.node_sessions)
          (insert ℕ_discrete id tt s.authenticated_sessions) j,
      t.registered j,
    );
    owned = t.owned;
    numbered = t.numbered;
    distinct = t.distinct;
  }

  commit_peer-Tracked :
      (id : ℕ) (session : NodeServerSessionInformation N) (s : NodeServerState N)
      → lookup ℕ_discrete id s.node_sessions ≡ some session
      → Tracked s
      → Tracked (commit_peer dec order id session.peer_name s).1
  unfolding commit_peer
  commit_peer-Tracked id session s e t = by_name session.peer_name refl
    where
      by_name :
          (name : Option (NameMessage N))
          → session.peer_name ≡ name
          → Tracked (commit_peer dec order id name s).1
      by_name none _ = t
      by_name (some peer) named =
          commit_named-Tracked id peer.name s (ap has_peer_name e ∙ ap is_some named) t

  commit_authenticated-Tracked :
      (id : ℕ) (s : NodeServerState N) → Tracked s → Tracked (commit_authenticated dec order id s).1
  unfolding commit_authenticated commit_found
  commit_authenticated-Tracked id s t = by_found (lookup ℕ_discrete id s.node_sessions) refl
    where
      by_found :
          (found : Option (NodeServerSessionInformation N))
          → lookup ℕ_discrete id s.node_sessions ≡ found
          → Tracked (commit_found dec order id found s).1
      by_found none _ = t
      by_found (some session) e = commit_peer-Tracked id session s e t

  handle-Tracked :
      (message : NodeServerMessage N) (s : NodeServerState N)
      → Fresh message s
      → Tracked s
      → Tracked (handle dec order message s).0
  unfolding handle open_session is_authenticated
  handle-Tracked (NodeServerMessage.connection_opened is_server peer_addr none) s fresh t = t
  handle-Tracked (NodeServerMessage.connection_opened is_server peer_addr (some id)) s fresh t =
      open_session-Tracked is_server peer_addr id s fresh t
  handle-Tracked (NodeServerMessage.connection_authenticated id) s fresh t =
      commit_authenticated-Tracked id s t
  handle-Tracked (NodeServerMessage.connection_ready id) s fresh t = t
  handle-Tracked (NodeServerMessage.update_session id name) s fresh t =
      register_session-Tracked id name s t
  handle-Tracked (NodeServerMessage.check_session peer) s fresh t = t
  handle-Tracked NodeServerMessage.get_sessions s fresh t = t
  handle-Tracked (NodeServerMessage.subscribe_to_events id sub) s fresh t = record {
    registered = t.registered;
    owned = t.owned;
    numbered = t.numbered;
    distinct = t.distinct;
  }
  handle-Tracked (NodeServerMessage.unsubscribe_to_events id) s fresh t = record {
    registered = t.registered;
    owned = t.owned;
    numbered = t.numbered;
    distinct = t.distinct;
  }
  handle-Tracked (NodeServerMessage.port_changed connection_string) s fresh t = record {
    registered = t.registered;
    owned = t.owned;
    numbered = t.numbered;
    distinct = t.distinct;
  }

  -- The states a node server passes through.
  pub data Reached (listener : ℕ) (name : NameMessage N) : NodeServerState N → Type 0 where
    started : Reached listener name (pre_start listener name)
    handled :
        (message : NodeServerMessage N) (s : NodeServerState N)
        → Fresh message s
        → Reached listener name s
        → Reached listener name (handle dec order message s).0
    ended :
        (id : ℕ) (respawned : Option ℕ) (s s' : NodeServerState N) (events : List (NodeEvent N))
        → handle_supervisor_evt id respawned s ≡ some (s', events)
        → Reached listener name s
        → Reached listener name s'

  -- A node server whose connections get new actors keeps, over every message and every end of an actor:
  -- an authenticated session has an entry with its peer's name, a connection id belongs to a session that has an
  -- entry, and the sessions' node ids are distinct and below the counter.
  pub Reached-Tracked :
      (listener : ℕ) (name : NameMessage N) (s : NodeServerState N)
      → Reached listener name s
      → Tracked s
  Reached-Tracked listener name s started = pre_start-Tracked listener name
  Reached-Tracked listener name s (handled message before fresh r) =
      handle-Tracked message before fresh (Reached-Tracked listener name before r)
  Reached-Tracked listener name s (ended id respawned before s' events e r) =
      handle_supervisor_evt-Tracked id respawned before s events e
        (Reached-Tracked listener name before r)
