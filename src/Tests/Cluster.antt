-- ===== src/Tests/Cluster.antt =====
-- The handshake of two nodes, their election, and the node server.
use ractor.Prelude.{
  ltb, if◌then◌else◌, if_pos, map, ℕ, ◌≡◌, ◌≢◌, refl, true, false, none, some, List, [], ◌∷◌,
  Ordering, arith, ℕ_discrete,
}
use ractor.Prelude.Map.{lookup}
use ractor.Prelude.Bytes.{be_bytes}
use ractor.Cluster.Auth.{
  bytes_discrete, challenge_digest, draw_challenge, start_challenge, server_on_name,
  server_on_reply, server_next, NameMessage, ServerStatus, AuthMessage, client_challenge,
}
use ractor.Cluster.Session.{
  handle_auth, auth_step, server_enter, server_checked, server_status_next, NodeSession,
  NodeSessionState, as_server, is_ok,
}
use ractor.Cluster.Session.Trust.{Delivery, run, Proven, run-Proven}
use ractor.Cluster.Session.Handshake.{
  Ends, exchange, opened, Refused, exchange-Refused, exchange_alive-stalls,
}
use ractor.Cluster.Election.{elect_sessions}
use ractor.Cluster.Election.Links.{swapped, DistinctNonces, Link, first_view, second_view}
use ractor.Cluster.Election.Agreement.{elect_sessions-agree}
use ractor.Cluster.Auth
use ractor.Cluster.Nodes.{
  NodeServerState, is_authenticated, register_session, commit_authenticated, is_elected,
}
use ractor.Cluster.Nodes.Server.{NodeServerMessage, pre_start, handle}
use ractor.Cluster.Nodes.Tracked.{Tracked, Fresh}
use ractor.Cluster.Nodes.Reached.{Reached, Reached-Tracked}
use ractor.Cluster.Nodes.Standing.{
  marked, register_session-is_elected, commit_authenticated-is_elected,
}

abbrev name_message : ℕ → ℕ → NameMessage ℕ
name_message name connection_id = record {
  name = name;
  flags = some 1;
  connection_string = name;
  connection_id = connection_id;
}

-- In place of SHA-256, a function that changes nothing.
abbrev plain_digest : List ℕ → List ℕ
plain_digest bytes = bytes

abbrev session_of : ℕ → List ℕ → NodeSession ℕ
session_of name cookie = record {
  cookie = cookie;
  this_node_name = name_message name 0;
  connection_id = 17;
}

abbrev fresh_server : NodeSessionState ℕ
fresh_server = record {
  name = none;
  connection_id = 0;
  auth = as_server Auth.ServerAuthenticationProcess.waiting_on_peer_name;
}

abbrev delivery : AuthMessage ℕ → Delivery ℕ
delivery message = record {
  drawn = 7;
  check = λ peer. some ServerStatus.ok;
  message = some message;
}

abbrev deliveries : List (Delivery ℕ)
deliveries =
    delivery (AuthMessage.name (name_message 1 17))
    ∷ delivery (client_challenge (record { challenge = 9; digest = 0 ∷ 0 ∷ 0 ∷ 7 ∷ 42 ∷ [] }))
    ∷ []

reply_accepted :
    server_on_reply {N = ℕ} plain_digest
      (42 ∷ [])
      (record { challenge = 9; digest = 0 ∷ 0 ∷ 0 ∷ 7 ∷ 42 ∷ [] })
      (Auth.ServerAuthenticationProcess.waiting_on_client_challenge_reply 7
        (challenge_digest plain_digest (42 ∷ []) 7))
    ≡ Auth.ServerAuthenticationProcess.ok (challenge_digest plain_digest (42 ∷ []) 9)
unfolding server_on_reply challenge_digest be_bytes
reply_accepted =
    if_pos (bytes_discrete (0 ∷ 0 ∷ 0 ∷ 7 ∷ 42 ∷ []) (0 ∷ 0 ∷ 0 ∷ 7 ∷ 42 ∷ [])) refl
      (Auth.ServerAuthenticationProcess.ok (challenge_digest plain_digest (42 ∷ []) 9))
      Auth.ServerAuthenticationProcess.close

run-Proven_example : Proven plain_digest (session_of 2 (42 ∷ [])) deliveries
unfolding run handle_auth auth_step server_enter server_checked server_status_next server_next
    server_on_name start_challenge draw_challenge is_ok
run-Proven_example =
    run-Proven plain_digest (session_of 2 (42 ∷ [])) deliveries fresh_server refl
      (rw (reply_accepted, is_ok, server_enter) refl)

abbrev ends : List ℕ → ServerStatus → Ends ℕ
ends cookie status = record {
  client_session = session_of 1 (42 ∷ []);
  server_session = session_of 2 cookie;
  client_draw = 9;
  server_draw = 7;
  check = λ peer. some status;
}

cookies_differ :
    challenge_digest plain_digest (43 ∷ []) 7 ≢ challenge_digest plain_digest (42 ∷ []) 7
unfolding challenge_digest be_bytes
cookies_differ e = ground arith

exchange-Refused_example : Refused plain_digest (ends (43 ∷ []) ServerStatus.ok) (
    exchange plain_digest
      (ends (43 ∷ []) ServerStatus.ok)
      5
      (opened plain_digest (ends (43 ∷ []) ServerStatus.ok)))
exchange-Refused_example =
    exchange-Refused plain_digest (ends (43 ∷ []) ServerStatus.ok) (some ServerStatus.ok) refl
      (λ status e g same. absurd (cookies_differ same))

exchange_alive-stalls_example : Refused plain_digest (ends (42 ∷ []) ServerStatus.alive) (
    exchange plain_digest
      (ends (42 ∷ []) ServerStatus.alive)
      5
      (opened plain_digest (ends (42 ∷ []) ServerStatus.alive)))
exchange_alive-stalls_example =
    (exchange_alive-stalls plain_digest (ends (42 ∷ []) ServerStatus.alive) refl).0

abbrev links : List Link
links =
    record { first_id = 3; second_id = 8; first_accepts = true; nonce = 17 }
    ∷ record { first_id = 4; second_id = 5; first_accepts = false; nonce = 12 }
    ∷ record { first_id = 6; second_id = 7; first_accepts = true; nonce = 15 }
    ∷ []

abbrev order : ℕ → ℕ → Ordering
order a b = if ltb a b then Ordering.lt else if ltb b a then Ordering.gt else Ordering.eq

order-swapped : (a b : ℕ) → order b a ≡ swapped (order a b)
order-swapped a b = ground arith

links_distinct : DistinctNonces links
links_distinct =
    (((λ e. omega arith), ((λ e. omega arith), tt)), (((λ e. omega arith), tt), (tt, tt)))

elect_sessions-agree_example :
    (l : Link) × (elect_sessions order 1 2 (map first_view links) ≡ l.first_id ∷ [])
    × (elect_sessions order 2 1 (map second_view links) ≡ l.second_id ∷ [])
elect_sessions-agree_example =
    elect_sessions-agree order order-swapped 1 2 links (omega arith) links_distinct

abbrev started : NodeServerState ℕ
started = pre_start 100 (name_message 1 0)

abbrev opening : NodeServerMessage ℕ
opening = NodeServerMessage.connection_opened true 9 (some 3)

started-Fresh : Fresh opening started
unfolding pre_start lookup
started-Fresh = refl

Reached-Tracked_example : Tracked (handle ℕ_discrete order opening started).0
Reached-Tracked_example =
    Reached-Tracked ℕ_discrete order 100 (name_message 1 0)
      (handle ℕ_discrete order opening started).0
      (Reached.handled opening started started-Fresh Reached.started)

-- Session 3 is authenticated, session 4 claims the name of its peer.
abbrev two_sessions : NodeServerState ℕ
two_sessions = record {
  listener = 100;
  node_sessions =
      (
        3,
        record {
          peer_name = some (name_message 2 0);
          is_server = true;
          node_id = 0;
          peer_addr = 9;
        },
      )
      ∷ (
        4,
        record {
          peer_name = some (name_message 2 0);
          is_server = false;
          node_id = 1;
          peer_addr = 9;
        },
      )
      ∷ [];
  node_id_counter = 2;
  this_node_name = name_message 1 0;
  subscriptions = [];
  connection_ids = (3, some 17) ∷ (4, some 12) ∷ [];
  authenticated_sessions = (3, tt) ∷ [];
}

register_session-is_elected_example :
    is_elected ℕ_discrete order 3 (register_session 4 (name_message 2 12) two_sessions).1
    ≡ is_elected ℕ_discrete order 3 two_sessions
unfolding is_authenticated lookup ℕ_discrete
register_session-is_elected_example =
    register_session-is_elected ℕ_discrete order 4 (name_message 2 12) two_sessions 3 refl

commit_authenticated-is_elected_example :
    is_authenticated 3 (commit_authenticated ℕ_discrete order 4 two_sessions).1
    ≡ is_elected ℕ_discrete order 3 (marked 4 two_sessions)
unfolding lookup ℕ_discrete
commit_authenticated-is_elected_example =
    commit_authenticated-is_elected ℕ_discrete order 4 3 (name_message 2 0) (name_message 2 0) _ _
      two_sessions refl refl refl refl refl
