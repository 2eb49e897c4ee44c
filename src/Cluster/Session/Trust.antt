-- ===== src/Cluster/Session/Trust.antt =====
-- What a peer must have sent before a server session (ractor_cluster/src/node/node_session.rs) takes
-- it for authenticated, whatever else it sends and in whatever order.
use ractor.Prelude.{
  ℕ, ◌≡◌, refl, sym, ap, true, false, Option, none, some, List, [], ◌∷◌, ◌⊎◌, inl, inr, if_neg,
  subst, ◌∙◌, Bool-cases,
}
use ractor.Cluster.Auth.{
  NameMessage, ChallengeReply, ServerStatus, AuthMessage, ServerAuthenticationProcess,
  bytes_discrete, client_status, client_challenge, challenge_digest, draw_challenge,
  start_challenge, server_on_name, server_on_status, server_on_reply, server_next,
}
use ractor.Cluster.Session.{
  as_server, NodeSession, NodeSessionState, is_ok, server_status_next, server_checked, server_enter,
  auth_step, handle_auth,
}

-- One call of `handle_auth`: the draw, the node server's answers, and the message.
pub record Delivery (N : Type 0) : Type 0 where
  pub drawn : ℕ
  pub check : NameMessage N → Option ServerStatus
  pub message : Option (AuthMessage N)

module _ {N : Type 0} (sha256 : List ℕ → List ℕ) (session : NodeSession N) where
  -- A session over the messages that come in, whoever sends them.
  unfoldable pub run : List (Delivery N) → NodeSessionState N → NodeSessionState N
  run [] s = s
  run (d ∷ later) s = run later (handle_auth sha256 session d.drawn d.check d.message s).0

  -- Some message answers with this digest.
  abbrev pub Replied : List ℕ → List (Delivery N) → Type 0
  Replied digest [] = ⊥
  Replied digest (d ∷ later) =
      ((reply : ChallengeReply) × (d.message ≡ some (client_challenge reply))
        × (reply.digest ≡ digest))
      ⊎ Replied digest later

  -- A challenge was drawn, and a later message carries its digest under the session's cookie.
  abbrev pub Proven : List (Delivery N) → Type 0
  Proven [] = ⊥
  Proven (d ∷ later) = Replied (challenge_digest sha256 session.cookie d.drawn) later ⊎ Proven later

  -- What is still to come, if the session is to end authenticated.
  abbrev Owes : ServerAuthenticationProcess N → List (Delivery N) → Type 0
  Owes (ServerAuthenticationProcess.ok digest) ds = Unit
  Owes ServerAuthenticationProcess.close ds = ⊥
  Owes (ServerAuthenticationProcess.waiting_on_client_challenge_reply drawn digest) ds =
      Replied digest ds
  Owes (ServerAuthenticationProcess.have_peer_name peer) ds = ⊥
  Owes ServerAuthenticationProcess.waiting_on_peer_name ds = Proven ds
  Owes ServerAuthenticationProcess.waiting_on_client_status ds = Proven ds

  -- The state in which `server_enter` leaves the session.
  abbrev entered :
      ℕ
      → (NameMessage N → Option ServerStatus)
      → ServerAuthenticationProcess N
      → ServerAuthenticationProcess N
  entered drawn check (ServerAuthenticationProcess.have_peer_name peer) =
      (server_checked sha256 session drawn (ServerAuthenticationProcess.have_peer_name peer)
        (check peer)).0
  entered drawn check next = next

  server_enter-entered :
      (drawn : ℕ) (check : NameMessage N → Option ServerStatus)
      (next : ServerAuthenticationProcess N) (s : NodeSessionState N)
      → (server_enter sha256 session drawn check next s).0.auth
        ≡ as_server (entered drawn check next)
  unfolding server_enter
  server_enter-entered drawn check ServerAuthenticationProcess.close s = refl
  server_enter-entered drawn check (ServerAuthenticationProcess.have_peer_name peer) s = refl
  server_enter-entered drawn check next s = refl

  checked-Owes :
      (drawn : ℕ) (peer : NameMessage N) (d : Delivery N) (later : List (Delivery N))
      (answer : Option ServerStatus)
      → d.drawn ≡ drawn
      → Owes
          (server_checked sha256 session drawn
            (ServerAuthenticationProcess.have_peer_name peer)
            answer).0
          later
      → Proven (d ∷ later)
  unfolding server_checked server_status_next start_challenge draw_challenge
  checked-Owes drawn peer d later none e h = absurd h
  checked-Owes drawn peer d later (some ServerStatus.ok) e h = inl (rw e h)
  checked-Owes drawn peer d later (some ServerStatus.ok_simultaneous) e h = inl (rw e h)
  checked-Owes drawn peer d later (some ServerStatus.not_ok) e h = absurd h
  checked-Owes drawn peer d later (some ServerStatus.not_allowed) e h = absurd h
  checked-Owes drawn peer d later (some ServerStatus.alive) e h = inr h

  reply-Owes :
      (reply : ChallengeReply) (c drawn : ℕ) (check : NameMessage N → Option ServerStatus)
      (digest : List ℕ) (later : List (Delivery N))
      → Owes
          (entered drawn check (
            server_on_reply sha256 session.cookie reply
              (ServerAuthenticationProcess.waiting_on_client_challenge_reply c digest)))
          later
      → reply.digest ≡ digest
  unfolding server_on_reply
  reply-Owes reply c drawn check digest later h = elim (bytes_discrete digest reply.digest) [
    | yes e ↦ sym e
    | no n ↦ absurd (
        subst (λ v. Owes (entered drawn check v) later)
          (if_neg (bytes_discrete digest reply.digest) n _ _) h)
  ]

  next-Owes :
      (v : ServerAuthenticationProcess N) (m : Option (AuthMessage N)) (drawn : ℕ)
      (check : NameMessage N → Option ServerStatus) (later : List (Delivery N))
      → is_ok (as_server v) ≡ false
      → Owes (entered drawn check (server_next sha256 session.cookie drawn m v)) later
      → Owes v (record { drawn = drawn; check = check; message = m } ∷ later)
  unfolding server_next server_on_name server_on_status server_on_reply start_challenge
      draw_challenge is_ok
  next-Owes v none drawn check later n h = absurd h
  next-Owes ServerAuthenticationProcess.waiting_on_peer_name (some (AuthMessage.name peer)) drawn
        check later n h =
      checked-Owes drawn peer (record { drawn = drawn; check = check; message = none }) later
        (check peer) refl h
  next-Owes ServerAuthenticationProcess.waiting_on_client_status (some (client_status true)) drawn
        check later n h =
      inl h
  next-Owes (ServerAuthenticationProcess.waiting_on_client_challenge_reply c digest)
        (some (client_challenge reply)) drawn check later n h =
      inl (reply, refl, reply-Owes reply c drawn check digest later h)
  next-Owes (ServerAuthenticationProcess.ok digest) m drawn check later n h = cc
  next-Owes v (some (client_status true)) drawn check later n h = absurd h
  next-Owes v (some (client_status false)) drawn check later n h = absurd h
  next-Owes v (some m) drawn check later n h = absurd h

  ok-Owes :
      (v : ServerAuthenticationProcess N) (ds : List (Delivery N))
      → is_ok (as_server v) ≡ true
      → Owes v ds
  unfolding is_ok
  ok-Owes (ServerAuthenticationProcess.ok digest) ds h = tt
  ok-Owes v ds h = cc

  handle_auth-entered :
      (d : Delivery N) (s : NodeSessionState N) (v : ServerAuthenticationProcess N)
      → s.auth ≡ as_server v
      → is_ok (as_server v) ≡ false
      → (handle_auth sha256 session d.drawn d.check d.message s).0.auth
        ≡ as_server
            (entered d.drawn d.check (server_next sha256 session.cookie d.drawn d.message v))
  unfolding handle_auth auth_step
  handle_auth-entered d s v e n =
      rw (e, auth_step, n)
        (server_enter-entered d.drawn d.check
          (server_next sha256 session.cookie d.drawn d.message v) (record s { auth = as_server v }))

  run-Owes :
      (ds : List (Delivery N)) (s : NodeSessionState N) (v : ServerAuthenticationProcess N)
      → s.auth ≡ as_server v
      → is_ok (run ds s).auth ≡ true
      → Owes v ds
  unfolding run
  run-Owes [] s v e h = ok-Owes v [] (ap is_ok (sym e) ∙ h)
  run-Owes (d ∷ ds) s v e h = elim (Bool-cases (is_ok (as_server v))) [
    | inl o ↦ ok-Owes v (d ∷ ds) o
    | inr n ↦
        next-Owes v d.message d.drawn d.check ds n
          (run-Owes ds _ _ (handle_auth-entered d s v e n) h)
  ]

  -- Whatever messages come in, in whatever order, and whatever the node server answers, a server
  -- session that starts afresh ends authenticated only if one of its calls drew a challenge and a
  -- later message carried the digest of that challenge under the session's cookie.
  pub run-Proven :
      (ds : List (Delivery N)) (s : NodeSessionState N)
      → s.auth ≡ as_server ServerAuthenticationProcess.waiting_on_peer_name
      → is_ok (run ds s).auth ≡ true
      → Proven ds
  run-Proven ds s e h = run-Owes ds s ServerAuthenticationProcess.waiting_on_peer_name e h
