-- ===== src/Cluster/Auth.antt =====
-- The two authentication state machines of ractor_cluster/src/node/auth.rs, and hash.rs. Texts of
-- the protocol are values of a type `N`, and cookies are bytes. The SHA-256 function, and the random
-- challenge that a transition draws, are arguments.
use ractor.Prelude.{ℕ, Bool, true, Option, some, List, ◌++◌, ite, ℕ_discrete}
use ractor.Prelude.Bytes.{be_bytes}
use mathlib.Core.List.{List-discrete}

abbrev pub bytes_discrete : Discrete (List ℕ)
bytes_discrete = List-discrete ℕ_discrete

-- The messages of ractor_cluster/src/protocol/auth.proto, decoded.
pub record NameMessage (N : Type 0) : Type 0 where
  pub name : N
  pub flags : Option ℕ
  pub connection_string : N
  pub connection_id : ℕ

pub data ServerStatus : Type 0 where
  ok ok_simultaneous not_ok not_allowed alive : ServerStatus

pub record Challenge (N : Type 0) : Type 0 where
  pub name : N
  pub flags : Option ℕ
  pub challenge : ℕ
  pub connection_string : N

pub record ChallengeReply : Type 0 where
  pub challenge : ℕ
  pub digest : List ℕ

pub data AuthMessage (N : Type 0) : Type 0 where
  name : NameMessage N → AuthMessage N
  server_status : ServerStatus → AuthMessage N
  client_status : Bool → AuthMessage N
  server_challenge : Challenge N → AuthMessage N
  client_challenge : ChallengeReply → AuthMessage N
  server_ack : List ℕ → AuthMessage N

pub data ServerAuthenticationProcess (N : Type 0) : Type 0 where
  waiting_on_peer_name : ServerAuthenticationProcess N
  have_peer_name : NameMessage N → ServerAuthenticationProcess N
  waiting_on_client_status : ServerAuthenticationProcess N
  waiting_on_client_challenge_reply : ℕ → List ℕ → ServerAuthenticationProcess N
  ok : List ℕ → ServerAuthenticationProcess N
  close : ServerAuthenticationProcess N

pub data ClientAuthenticationProcess (N : Type 0) : Type 0 where
  waiting_for_server_status : ClientAuthenticationProcess N
  waiting_for_server_challenge : ServerStatus → ClientAuthenticationProcess N
  waiting_for_server_challenge_ack :
      Challenge N → List ℕ → ℕ → List ℕ → ClientAuthenticationProcess N
  ok : ClientAuthenticationProcess N
  close : ClientAuthenticationProcess N

module _ (sha256 : List ℕ → List ℕ) where
  unfoldable pub challenge_digest : List ℕ → ℕ → List ℕ
  challenge_digest secret challenge = sha256 (be_bytes 4 challenge ++ secret)

module _ {N : Type 0} (sha256 : List ℕ → List ℕ) (cookie : List ℕ) where
  -- The challenge that is drawn, beside the digest that it is to be answered with.
  unfoldable pub draw_challenge : ℕ → ServerAuthenticationProcess N
  draw_challenge drawn =
      ServerAuthenticationProcess.waiting_on_client_challenge_reply drawn
        (challenge_digest sha256 cookie drawn)

  unfoldable pub start_challenge : ℕ → ServerAuthenticationProcess N → ServerAuthenticationProcess N
  start_challenge drawn ServerAuthenticationProcess.waiting_on_client_status = draw_challenge drawn
  start_challenge drawn (ServerAuthenticationProcess.have_peer_name peer) = draw_challenge drawn
  start_challenge drawn _ = ServerAuthenticationProcess.close

  unfoldable pub server_on_name :
      NameMessage N → ServerAuthenticationProcess N → ServerAuthenticationProcess N
  server_on_name peer ServerAuthenticationProcess.waiting_on_peer_name =
      ServerAuthenticationProcess.have_peer_name peer
  server_on_name peer _ = ServerAuthenticationProcess.close

  unfoldable pub server_on_status :
      ℕ → Bool → ServerAuthenticationProcess N → ServerAuthenticationProcess N
  server_on_status drawn true ServerAuthenticationProcess.waiting_on_client_status =
      start_challenge drawn ServerAuthenticationProcess.waiting_on_client_status
  server_on_status drawn _ _ = ServerAuthenticationProcess.close

  unfoldable pub server_on_reply :
      ChallengeReply → ServerAuthenticationProcess N → ServerAuthenticationProcess N
  server_on_reply reply
        (ServerAuthenticationProcess.waiting_on_client_challenge_reply drawn digest) =
      ite (bytes_discrete digest reply.digest)
        (ServerAuthenticationProcess.ok (challenge_digest sha256 cookie reply.challenge))
        ServerAuthenticationProcess.close
  server_on_reply reply _ = ServerAuthenticationProcess.close

  -- `ServerAuthenticationProcess::next`; any other message closes.
  unfoldable pub server_next :
      ℕ → Option (AuthMessage N) → ServerAuthenticationProcess N → ServerAuthenticationProcess N
  server_next drawn (some (AuthMessage.name peer)) s = server_on_name peer s
  server_next drawn (some (client_status status)) s = server_on_status drawn status s
  server_next drawn (some (client_challenge reply)) s = server_on_reply reply s
  server_next drawn _ s = ServerAuthenticationProcess.close

  unfoldable pub client_on_status :
      ServerStatus → ClientAuthenticationProcess N → ClientAuthenticationProcess N
  client_on_status status ClientAuthenticationProcess.waiting_for_server_status =
      ClientAuthenticationProcess.waiting_for_server_challenge status
  client_on_status status _ = ClientAuthenticationProcess.close

  unfoldable pub client_on_challenge :
      ℕ → Challenge N → ClientAuthenticationProcess N → ClientAuthenticationProcess N
  client_on_challenge drawn c (ClientAuthenticationProcess.waiting_for_server_challenge status) =
      ClientAuthenticationProcess.waiting_for_server_challenge_ack c
        (challenge_digest sha256 cookie c.challenge) drawn (challenge_digest sha256 cookie drawn)
  client_on_challenge drawn c _ = ClientAuthenticationProcess.close

  unfoldable pub client_on_ack :
      List ℕ → ClientAuthenticationProcess N → ClientAuthenticationProcess N
  client_on_ack digest
        (ClientAuthenticationProcess.waiting_for_server_challenge_ack c reply drawn expected) =
      ite (bytes_discrete expected digest) ClientAuthenticationProcess.ok
        ClientAuthenticationProcess.close
  client_on_ack digest _ = ClientAuthenticationProcess.close

  -- `ClientAuthenticationProcess::next`; any other message closes.
  unfoldable pub client_next :
      ℕ → Option (AuthMessage N) → ClientAuthenticationProcess N → ClientAuthenticationProcess N
  client_next drawn (some (server_status status)) c = client_on_status status c
  client_next drawn (some (server_challenge challenge)) c = client_on_challenge drawn challenge c
  client_next drawn (some (server_ack digest)) c = client_on_ack digest c
  client_next drawn _ c = ClientAuthenticationProcess.close
