-- ===== src/Cluster/Session/Handshake.antt =====
-- The handshake between two sessions of ractor_cluster/src/node/node_session.rs over one connection,
-- which delivers what each sends in order and nothing else.
use ractor.Prelude.{
  ℕ, zero, suc, ◌≡◌, ◌≢◌, refl, true, false, Option, none, some, List, [], ◌∷◌, ◌++◌, if_neg,
}
use ractor.Cluster.Auth.{
  NameMessage, ServerStatus, AuthMessage, ServerAuthenticationProcess, ClientAuthenticationProcess,
  challenge_digest, draw_challenge, start_challenge, server_on_name, server_on_status,
  server_on_reply, server_next, client_on_status, client_on_challenge, client_on_ack, client_next,
}
use ractor.Cluster.Session.{
  as_client, as_server, NodeSession, NodeSessionState, SessionEvent, send, update_session,
  stop_session, stop_tcp, is_ok, is_close, close_events, client_status_reply, challenger_name,
  client_enter, challenge_events, server_status_next, server_checked, server_enter, auth_step,
  handle_auth,
}

-- Both ends, and what is under way to each.
pub record Connection (N : Type 0) : Type 0 where
  pub client : NodeSessionState N
  pub server : NodeSessionState N
  pub to_server : List (AuthMessage N)
  pub to_client : List (AuthMessage N)

module _ {N : Type 0} where
  pub sent : List (SessionEvent N) → List (AuthMessage N)
  sent [] = []
  sent (send m ∷ events) = m ∷ sent events
  sent (update_session n ∷ events) = sent events
  sent (stop_session ∷ events) = sent events
  sent (stop_tcp ∷ events) = sent events

-- What the two ends bring: their configuration, the challenges they draw, and what the node server
-- of the accepting end answers.
pub record Ends (N : Type 0) : Type 0 where
  pub client_session : NodeSession N
  pub server_session : NodeSession N
  pub client_draw : ℕ
  pub server_draw : ℕ
  pub check : NameMessage N → Option ServerStatus

module _ {N : Type 0} (sha256 : List ℕ → List ℕ) (ends : Ends N) where
  -- The client opens with its name and the nonce of the connection (`pre_start`).
  pub opened : Connection N
  opened = record {
    client = record {
      name = none;
      connection_id = ends.client_session.connection_id;
      auth = as_client ClientAuthenticationProcess.waiting_for_server_status;
    };
    server = record {
      name = none;
      connection_id = ends.server_session.connection_id;
      auth = as_server ServerAuthenticationProcess.waiting_on_peer_name;
    };
    to_server =
        AuthMessage.name (record (ends.client_session.this_node_name) {
          connection_id = ends.client_session.connection_id;
        })
        ∷ [];
    to_client = [];
  }

  deliver_to_server : AuthMessage N → List (AuthMessage N) → Connection N → Connection N
  deliver_to_server m later c =
      let (server, events) =
        handle_auth sha256 ends.server_session ends.server_draw ends.check (some m) c.server in
      record c { server = server; to_server = later; to_client = c.to_client ++ sent events }

  deliver_to_client : List (AuthMessage N) → Connection N → Connection N
  deliver_to_client [] c = c
  deliver_to_client (m ∷ later) c =
      let (client, events) =
        handle_auth sha256 ends.client_session ends.client_draw (λ peer. none) (some m) c.client in
      record c { client = client; to_client = later; to_server = c.to_server ++ sent events }

  deliver : List (AuthMessage N) → Connection N → Connection N
  deliver [] c = deliver_to_client c.to_client c
  deliver (m ∷ later) c = deliver_to_server m later c

  -- Up to this many messages are delivered.
  pub exchange : ℕ → Connection N → Connection N
  unfolding opened deliver deliver_to_server deliver_to_client sent handle_auth auth_step
      server_enter server_checked server_status_next challenge_events client_enter challenger_name
      client_status_reply close_events is_close is_ok client_next client_on_ack client_on_challenge
      client_on_status server_next server_on_reply server_on_name server_on_status start_challenge
      draw_challenge
  exchange zero c = c
  exchange (suc n) c = exchange n (deliver c.to_server c)

  -- The name under which the accepting end asks its node server.
  abbrev pub asked : NameMessage N
  asked = record (ends.client_session.this_node_name) {
    connection_id = ends.client_session.connection_id;
  }

  -- The digests with which the two challenges are answered, by cookie.
  abbrev digest_of : List ℕ → ℕ → List ℕ
  digest_of cookie drawn = challenge_digest sha256 cookie drawn

  -- Both ends are authenticated, and nothing is under way.
  pub record Authenticated (c : Connection N) : Type 0 where
    pub client_ok : is_ok c.client.auth ≡ true
    pub server_ok : is_ok c.server.auth ≡ true
    pub quiet_to_server : c.to_server ≡ []
    pub quiet_to_client : c.to_client ≡ []

  -- Neither end is authenticated, and nothing is under way.
  pub record Refused (c : Connection N) : Type 0 where
    pub client_not_ok : is_ok c.client.auth ≡ false
    pub server_not_ok : is_ok c.server.auth ≡ false
    pub quiet_to_server : c.to_server ≡ []
    pub quiet_to_client : c.to_client ≡ []

-- The statuses with which the handshake goes on.
abbrev pub GoesOn : ServerStatus → Type 0
GoesOn ServerStatus.ok = Unit
GoesOn ServerStatus.ok_simultaneous = Unit
GoesOn _ = ⊥

module _ {N : Type 0} (sha256 : List ℕ → List ℕ) (ends : Ends N) where
  -- Where the node server does not answer, or answers with a status that ends the handshake or is
  -- `Alive`, or where the cookies give the server's challenge different digests, the exchange ends
  -- within five messages with neither end authenticated.
  pub exchange-Refused :
      (answer : Option ServerStatus)
      → ends.check (asked sha256 ends) ≡ answer
      → ((status : ServerStatus)
          → answer ≡ some status
          → GoesOn status
          → digest_of sha256 ends ends.server_session.cookie ends.server_draw
            ≢ digest_of sha256 ends ends.client_session.cookie ends.server_draw)
      → Refused sha256 ends (exchange sha256 ends 5 (opened sha256 ends))
  unfolding exchange
  exchange-Refused (some ServerStatus.ok) h d =
      rw (h, server_checked)
        (rw (if_neg _ (d ServerStatus.ok refl tt)) (record {
          client_not_ok = refl;
          server_not_ok = refl;
          quiet_to_server = refl;
          quiet_to_client = refl;
        }))
  exchange-Refused (some ServerStatus.ok_simultaneous) h d =
      rw (h, server_checked)
        (rw (if_neg _ (d ServerStatus.ok_simultaneous refl tt)) (record {
          client_not_ok = refl;
          server_not_ok = refl;
          quiet_to_server = refl;
          quiet_to_client = refl;
        }))
  exchange-Refused (some ServerStatus.not_ok) h d =
      rw (h, server_checked)
        (record {
          client_not_ok = refl;
          server_not_ok = refl;
          quiet_to_server = refl;
          quiet_to_client = refl;
        })
  exchange-Refused (some ServerStatus.not_allowed) h d =
      rw (h, server_checked)
        (record {
          client_not_ok = refl;
          server_not_ok = refl;
          quiet_to_server = refl;
          quiet_to_client = refl;
        })
  exchange-Refused (some ServerStatus.alive) h d =
      rw (h, server_checked)
        (record {
          client_not_ok = refl;
          server_not_ok = refl;
          quiet_to_server = refl;
          quiet_to_client = refl;
        })
  exchange-Refused none h d =
      rw (h, server_checked)
        (record {
          client_not_ok = refl;
          server_not_ok = refl;
          quiet_to_server = refl;
          quiet_to_client = refl;
        })

  -- Where the node server answers `Alive`, the exchange stops with neither end authenticated and the
  -- client not closed, whatever the cookies: the server waits for the reply to a challenge that it
  -- has drawn and not sent.
  pub exchange_alive-stalls :
      ends.check (asked sha256 ends) ≡ some ServerStatus.alive
      → let c = exchange sha256 ends 5 (opened sha256 ends) in
        Refused sha256 ends c
        × (is_close c.client.auth ≡ false)
        × (c.server.auth
            ≡ as_server (
                ServerAuthenticationProcess.waiting_on_client_challenge_reply ends.server_draw
                  (digest_of sha256 ends ends.server_session.cookie ends.server_draw)))
  unfolding exchange
  exchange_alive-stalls h =
      rw (h, server_checked)
        (
          (record {
            client_not_ok = refl;
            server_not_ok = refl;
            quiet_to_server = refl;
            quiet_to_client = refl;
          }),
          refl,
          refl,
        )
