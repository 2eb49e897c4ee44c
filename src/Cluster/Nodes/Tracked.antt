-- ===== src/Cluster/Nodes/Tracked.antt =====
-- What the node server (ractor_cluster/src/node.rs) keeps true of its sessions' bookkeeping over
-- every message that it handles and every actor that ends.
use ractor.Prelude.{
  subst, if◌then◌else◌, ◌==◌, false, true, refl, List, ℕ, ◌<◌, ◌≡◌, refl, Bool, true, false, Option,
  none, some, List, arith, ite, ℕ_discrete, is_some,
}
use ractor.Prelude.Map.{remove, lookup-remove, lookup, insert, remove, lookup-insert, lookup-remove}
use ractor.Cluster.Auth.{NameMessage}
use ractor.Cluster.Nodes.{
  nonzero, register_found, register_session, NodeServerSessionInformation, NodeServerState,
  is_authenticated, new_information, register_found, register_session,
}
use ractor.Cluster.Nodes.Server.{
  restart, handle_supervisor_evt, session_ended, NodeEvent, end_found, NodeServerMessage, NodeEvent,
  pre_start, handle_supervisor_evt, session_ended, end_found, open_session,
}

module _ {N : Type 0} where
  abbrev pub has_peer_name : Option (NodeServerSessionInformation N) → Bool
  has_peer_name none = false
  has_peer_name (some session) = is_some session.peer_name

  -- An authenticated session is kept, with its peer's name; a connection id belongs to a session
  -- that is kept; and the node ids of the sessions are distinct, and were all given out.
  pub record Tracked (s : NodeServerState N) : Type 0 where
    pub registered :
        (id : ℕ)
        → is_authenticated id s ≡ true
        → has_peer_name (lookup ℕ_discrete id s.node_sessions) ≡ true
    pub owned :
        (id : ℕ)
        → is_some (lookup ℕ_discrete id s.connection_ids) ≡ true
        → is_some (lookup ℕ_discrete id s.node_sessions) ≡ true
    pub numbered :
        (id : ℕ) (session : NodeServerSessionInformation N)
        → lookup ℕ_discrete id s.node_sessions ≡ some session
        → session.node_id < s.node_id_counter
    pub distinct :
        (id other : ℕ) (a b : NodeServerSessionInformation N)
        → lookup ℕ_discrete id s.node_sessions ≡ some a
        → lookup ℕ_discrete other s.node_sessions ≡ some b
        → a.node_id ≡ b.node_id
        → id ≡ other

  -- The actor spawned for a connection is a new one.
  abbrev pub Fresh : NodeServerMessage N → NodeServerState N → Type 0
  Fresh (NodeServerMessage.connection_opened is_server peer_addr (some id)) s =
      lookup ℕ_discrete id s.node_sessions ≡ none
  Fresh message s = Unit

  pub pre_start-Tracked : (listener : ℕ) (name : NameMessage N) → Tracked (pre_start listener name)
  unfolding pre_start is_authenticated lookup
  pre_start-Tracked listener name = record {
    registered = λ id h. ground arith;
    owned = λ id h. ground arith;
    numbered = λ id session h. ground arith;
    distinct = λ id other a b h h' e. ground arith;
  }

  pub open_session-Tracked :
      (is_server : Bool) (peer_addr : N) (id : ℕ) (s : NodeServerState N)
      → lookup ℕ_discrete id s.node_sessions ≡ none
      → Tracked s
      → Tracked (open_session is_server peer_addr (some id) s).0
  unfolding open_session is_authenticated new_information
  open_session-Tracked is_server peer_addr id s fresh t = record {
    registered = λ j h. ground (arith, found j, t.registered j h);
    owned = λ j h. ground (arith, found j, t.owned j h);
    numbered = λ j session h. ground (arith, found j, t.numbered j session);
    distinct = λ j other a b h h' e.
        ground
          (arith, found j, found other, t.numbered j a, t.numbered other b, t.distinct j other a b);
  }
    where
      found :
          (j : ℕ)
          → lookup ℕ_discrete j (
              insert ℕ_discrete id
                (new_information is_server s.node_id_counter peer_addr)
                s.node_sessions)
            ≡ ite
                (ℕ_discrete id j)
                (some (new_information is_server s.node_id_counter peer_addr))
                (lookup ℕ_discrete j s.node_sessions)
      found j = lookup-insert ℕ_discrete id j _ s.node_sessions

  register_found-Tracked :
      (id : ℕ) (name : NameMessage N) (session : NodeServerSessionInformation N)
      (s : NodeServerState N)
      → lookup ℕ_discrete id s.node_sessions ≡ some session
      → Tracked s
      → Tracked (register_found id name (some session) s).1
  unfolding register_found is_authenticated
  register_found-Tracked id name session s e t = record {
    registered = λ j h. ground (arith, found j, t.registered j h);
    owned = λ j h. ground (arith, found j, found_id j, t.owned j);
    numbered = λ j other h. ground (arith, found j, t.numbered j other, t.numbered id session);
    distinct = λ j other a b h h' same. ground (
      arith,
      found j,
      found other,
      t.distinct j other a b,
      t.distinct id other session b,
      t.distinct j id a session,
    );
  }
    where
      found :
          (j : ℕ)
          → lookup ℕ_discrete j (register_found id name (some session) s).1.node_sessions
            ≡ ite
                (ℕ_discrete id j)
                (some (record session { peer_name = some (record name { connection_id = 0 }) }))
                (lookup ℕ_discrete j s.node_sessions)
      found j = lookup-insert ℕ_discrete id j _ s.node_sessions

      found_id :
          (j : ℕ)
          → lookup ℕ_discrete j (register_found id name (some session) s).1.connection_ids
            ≡ ite
                (ℕ_discrete id j)
                (some (nonzero name.connection_id))
                (lookup ℕ_discrete j s.connection_ids)
      found_id j = lookup-insert ℕ_discrete id j _ s.connection_ids

  pub register_session-Tracked :
      (id : ℕ) (name : NameMessage N) (s : NodeServerState N)
      → Tracked s
      → Tracked (register_session id name s).1
  unfolding register_session register_found
  register_session-Tracked id name s t = by_found (lookup ℕ_discrete id s.node_sessions) refl
    where
      by_found :
          (found : Option (NodeServerSessionInformation N))
          → lookup ℕ_discrete id s.node_sessions ≡ found
          → Tracked (register_found id name found s).1
      by_found none e = t
      by_found (some session) e = register_found-Tracked id name session s e t

  end_found-Tracked :
      (id : ℕ) (session : NodeServerSessionInformation N) (s : NodeServerState N)
      → Tracked s
      → Tracked (end_found id (some session) s).0
  unfolding end_found is_authenticated
  end_found-Tracked id session s t = record {
    registered = λ j h.
        ground
          (arith, kept j, lookup-remove ℕ_discrete id j s.authenticated_sessions, t.registered j);
    owned =
        λ j h. ground (arith, kept j, lookup-remove ℕ_discrete id j s.connection_ids, t.owned j);
    numbered = λ j other h. ground (arith, kept j, t.numbered j other);
    distinct = λ j other a b h h' same. ground (arith, kept j, kept other, t.distinct j other a b);
  }
    where
      kept :
          (j : ℕ)
          → lookup ℕ_discrete j (remove ℕ_discrete id s.node_sessions)
            ≡ ite (ℕ_discrete id j) none (lookup ℕ_discrete j s.node_sessions)
      kept j = lookup-remove ℕ_discrete id j s.node_sessions

  session_ended-Tracked :
      (id : ℕ) (s : NodeServerState N) → Tracked s → Tracked (session_ended id s).0
  unfolding session_ended end_found
  session_ended-Tracked id s t = by_found (lookup ℕ_discrete id s.node_sessions)
    where
      by_found :
          (found : Option (NodeServerSessionInformation N)) → Tracked (end_found id found s).0
      by_found none = t
      by_found (some session) = end_found-Tracked id session s t

  abbrev Succeeds : Option (NodeServerState N × List (NodeEvent N)) → Type 0
  Succeeds none = Unit
  Succeeds (some result) = Tracked result.0

  pub handle_supervisor_evt-Tracked :
      (id : ℕ) (respawned : Option ℕ) (s s' : NodeServerState N) (events : List (NodeEvent N))
      → handle_supervisor_evt id respawned s ≡ some (s', events)
      → Tracked s
      → Tracked s'
  unfolding handle_supervisor_evt restart is_authenticated
  handle_supervisor_evt-Tracked id respawned s s' events e t =
      subst Succeeds e (by_listener (s.listener == id))
    where
      restarted : (respawned : Option ℕ) → Succeeds (restart respawned s)
      restarted none = tt
      restarted (some listener) = record {
        registered = t.registered;
        owned = t.owned;
        numbered = t.numbered;
        distinct = t.distinct;
      }

      by_listener :
          (is_listener : Bool)
          → Succeeds (if is_listener then restart respawned s else some (session_ended id s))
      by_listener true = restarted respawned
      by_listener false = session_ended-Tracked id s t
