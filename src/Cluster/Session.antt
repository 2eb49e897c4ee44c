-- ===== src/Cluster/Session.antt =====
-- `handle_auth` of ractor_cluster/src/node/node_session.rs: one authentication message at a session
-- that has a connection. `check` is what the node server answers to `CheckSession`, none where the
-- call fails, and `drawn` the random challenge. The events are in the order in which they happen.
pub mod Trust
pub mod Handshake
use ractor.Prelude.{ℕ, Bool, true, false, Option, none, some, List, [], ◌∷◌, ◌++◌, if◌then◌else◌}
use ractor.Cluster.Auth.{
  NameMessage, Challenge, ChallengeReply, ServerStatus, AuthMessage, ServerAuthenticationProcess,
  ClientAuthenticationProcess, client_status, server_status, server_challenge, client_challenge,
  server_ack, start_challenge, server_next, client_next,
}

pub data AuthenticationState (N : Type 0) : Type 0 where
  as_client : ClientAuthenticationProcess N → AuthenticationState N
  as_server : ServerAuthenticationProcess N → AuthenticationState N

-- The fields of a `NodeSession` that the handshake reads.
pub record NodeSession (N : Type 0) : Type 0 where
  pub cookie : List ℕ
  pub this_node_name : NameMessage N
  pub connection_id : ℕ

pub record NodeSessionState (N : Type 0) : Type 0 where
  pub name : Option (NameMessage N)
  pub connection_id : ℕ
  pub auth : AuthenticationState N

pub data SessionEvent (N : Type 0) : Type 0 where
  send : AuthMessage N → SessionEvent N
  update_session : NameMessage N → SessionEvent N
  stop_session stop_tcp : SessionEvent N

module _ {N : Type 0} where
  unfoldable pub is_ok : AuthenticationState N → Bool
  is_ok (as_client ClientAuthenticationProcess.ok) = true
  is_ok (as_client _) = false
  is_ok (as_server (ServerAuthenticationProcess.ok digest)) = true
  is_ok (as_server _) = false

  unfoldable pub is_close : AuthenticationState N → Bool
  is_close (as_client ClientAuthenticationProcess.close) = true
  is_close (as_client _) = false
  is_close (as_server ServerAuthenticationProcess.close) = true
  is_close (as_server _) = false

  -- A session that has come to `Close` stops.
  unfoldable pub close_events : AuthenticationState N → List (SessionEvent N)
  unfolding is_close
  close_events a = if is_close a then stop_session ∷ [] else []

  -- What the client does about the server's status: its next state, and what it sends.
  unfoldable pub client_status_reply :
      ServerStatus → ClientAuthenticationProcess N × List (SessionEvent N)
  client_status_reply ServerStatus.not_ok = (ClientAuthenticationProcess.close, [])
  client_status_reply ServerStatus.not_allowed = (ClientAuthenticationProcess.close, [])
  client_status_reply ServerStatus.alive = (
    ClientAuthenticationProcess.waiting_for_server_challenge ServerStatus.alive,
    send (client_status true) ∷ [],
  )
  client_status_reply ServerStatus.ok =
      (ClientAuthenticationProcess.waiting_for_server_challenge ServerStatus.ok, [])
  client_status_reply ServerStatus.ok_simultaneous =
      (ClientAuthenticationProcess.waiting_for_server_challenge ServerStatus.ok_simultaneous, [])

  -- The server's name, as its challenge gives it.
  unfoldable pub challenger_name : Challenge N → NameMessage N
  challenger_name c = record {
    name = c.name;
    flags = c.flags;
    connection_string = c.connection_string;
    connection_id = 0;
  }

  unfoldable pub client_enter :
      NodeSession N
      → ClientAuthenticationProcess N
      → NodeSessionState N
      → NodeSessionState N × List (SessionEvent N)
  client_enter session (ClientAuthenticationProcess.waiting_for_server_challenge status) s =
      let (next, events) = client_status_reply status in
      (record s { auth = as_client next }, events ++ close_events (as_client next))
  client_enter session
        (ClientAuthenticationProcess.waiting_for_server_challenge_ack c reply drawn expected) s =
      (
        record s {
          auth =
              as_client (
                ClientAuthenticationProcess.waiting_for_server_challenge_ack c reply drawn
                  expected);
          name = some (challenger_name c);
        },
        update_session (record (challenger_name c) { connection_id = session.connection_id })
            ∷ send (client_challenge (record { challenge = drawn; digest = reply }))
            ∷ [],
      )
  client_enter session next s = (record s { auth = as_client next }, close_events (as_client next))

  -- The challenge goes out where there is one.
  unfoldable pub challenge_events :
      NodeSession N → ServerAuthenticationProcess N → List (SessionEvent N)
  challenge_events session
        (ServerAuthenticationProcess.waiting_on_client_challenge_reply drawn digest) =
      send (
        server_challenge (record {
          name = session.this_node_name.name;
          flags = session.this_node_name.flags;
          challenge = drawn;
          connection_string = session.this_node_name.connection_string;
        }))
      ∷ []
  challenge_events session _ = []

module _ {N : Type 0} (sha256 : List ℕ → List ℕ) (session : NodeSession N) where
  -- What follows the answer of the node server.
  unfoldable pub server_status_next :
      ℕ
      → ServerAuthenticationProcess N
      → ServerStatus
      → ServerAuthenticationProcess N × List (SessionEvent N)
  server_status_next drawn named ServerStatus.ok =
      let next = start_challenge sha256 session.cookie drawn named in
      (next, challenge_events session next)
  server_status_next drawn named ServerStatus.ok_simultaneous =
      let next = start_challenge sha256 session.cookie drawn named in
      (next, challenge_events session next)
  server_status_next drawn named ServerStatus.not_ok = (ServerAuthenticationProcess.close, [])
  server_status_next drawn named ServerStatus.not_allowed = (ServerAuthenticationProcess.close, [])
  server_status_next drawn named ServerStatus.alive =
      (ServerAuthenticationProcess.waiting_on_client_status, [])

  unfoldable pub server_checked :
      ℕ
      → ServerAuthenticationProcess N
      → Option ServerStatus
      → ServerAuthenticationProcess N × List (SessionEvent N)
  server_checked drawn named none = (ServerAuthenticationProcess.close, [])
  server_checked drawn named (some status) =
      let (next, events) = server_status_next drawn named status in
      (next, send (server_status status) ∷ events)

  unfoldable pub server_enter :
      ℕ
      → (NameMessage N → Option ServerStatus)
      → ServerAuthenticationProcess N
      → NodeSessionState N
      → NodeSessionState N × List (SessionEvent N)
  server_enter drawn check (ServerAuthenticationProcess.have_peer_name peer) s =
      let (next, events) =
        server_checked drawn (ServerAuthenticationProcess.have_peer_name peer) (check peer) in
      (
        record s {
          name = some (record peer { connection_id = 0 });
          connection_id = peer.connection_id;
          auth = as_server next;
        },
        (update_session peer ∷ events) ++ close_events (as_server next),
      )
  server_enter drawn check (ServerAuthenticationProcess.ok digest) s = (
    record s { auth = as_server (ServerAuthenticationProcess.ok digest) },
    send (server_ack digest) ∷ [],
  )
  server_enter drawn check next s =
      (record s { auth = as_server next }, close_events (as_server next))

  unfoldable pub auth_step :
      ℕ
      → (NameMessage N → Option ServerStatus)
      → Option (AuthMessage N)
      → AuthenticationState N
      → NodeSessionState N
      → NodeSessionState N × List (SessionEvent N)
  auth_step drawn check message (as_client c) s =
      client_enter session (client_next sha256 session.cookie drawn message c) s
  auth_step drawn check message (as_server v) s =
      server_enter drawn check (server_next sha256 session.cookie drawn message v) s

  unfoldable pub handle_auth :
      ℕ
      → (NameMessage N → Option ServerStatus)
      → Option (AuthMessage N)
      → NodeSessionState N
      → NodeSessionState N × List (SessionEvent N)
  handle_auth drawn check message s =
      let (s', events) = auth_step drawn check message s.auth s in
      let stopped = if is_close s.auth then stop_session ∷ stop_tcp ∷ [] else [] in
      if is_ok s.auth then (s, []) else (s', stopped ++ events)
