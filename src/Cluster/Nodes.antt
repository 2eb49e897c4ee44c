-- ===== src/Cluster/Nodes.antt =====
-- The node server's bookkeeping of its sessions, `NodeServerState` of ractor_cluster/src/node.rs. A
-- session goes by the id of its actor; names are texts of a type `N`, with a decidable equality and
-- the comparison `order`.
pub mod Server
pub mod Tracked
pub mod Reached
pub mod Standing
use ractor.Prelude.{
  ℕ, Bool, true, false, not, ◌&&◌, ◌||◌, Option, none, some, List, [], ◌∷◌, ◌++◌, any, length, ltb,
  ◌==◌, if◌then◌else◌, ite, Ordering, ℕ_discrete, is_empty,
}
use ractor.Prelude.Map.{Map, Set, lookup, insert, remove, contains_key}
use ractor.Cluster.Auth.{NameMessage, ServerStatus}
use ractor.Cluster.Election.{SessionElectionCandidate, elect_sessions}

pub data SessionCheckReply : Type 0 where
  no_other_connection other_connection_continues : SessionCheckReply
  this_connection_continues duplicate_connection : SessionCheckReply

-- `From<SessionCheckReply> for Status`.
unfoldable pub status_of : SessionCheckReply → ServerStatus
status_of no_other_connection = ServerStatus.ok
status_of this_connection_continues = ServerStatus.ok_simultaneous
status_of other_connection_continues = ServerStatus.not_ok
status_of duplicate_connection = ServerStatus.alive

pub record NodeServerSessionInformation (N : Type 0) : Type 0 where
  pub peer_name : Option (NameMessage N)
  pub is_server : Bool
  pub node_id : ℕ
  pub peer_addr : N

pub record NodeServerState (N : Type 0) : Type 0 where
  pub listener : ℕ
  pub node_sessions : Map ℕ (NodeServerSessionInformation N)
  pub node_id_counter : ℕ
  pub this_node_name : NameMessage N
  pub subscriptions : Map N ℕ
  pub connection_ids : Map ℕ (Option ℕ)
  pub authenticated_sessions : Set ℕ

pub record SessionElection : Type 0 where
  pub candidate_survives : Bool
  pub losers : List ℕ

-- `NonZeroU64::new`.
unfoldable pub nonzero : ℕ → Option ℕ
nonzero n = if n == 0 then none else some n

abbrev pub flatten : Option (Option ℕ) → Option ℕ
flatten none = none
flatten (some o) = o

abbrev pub same_id : Option ℕ → Option ℕ → Bool
same_id none none = true
same_id (some a) (some b) = a == b
same_id _ _ = false

abbrev pub contains : List ℕ → ℕ → Bool
contains ids id = any ids (λ i. i == id)

unfoldable pub reply_of : Bool → Bool → SessionCheckReply
reply_of true false = no_other_connection
reply_of true true = this_connection_continues
reply_of false competition = other_connection_continues

unfoldable pub forget : List ℕ → Set ℕ → Set ℕ
forget [] m = m
forget (id ∷ ids) m = forget ids (remove ℕ_discrete id m)

module _ {N : Type 0} where
  -- `NodeServerSessionInformation::new`.
  unfoldable pub new_information : Bool → ℕ → N → NodeServerSessionInformation N
  new_information is_server node_id peer_addr = record {
    peer_name = none;
    is_server = is_server;
    node_id = node_id;
    peer_addr = peer_addr;
  }

  unfoldable pub is_authenticated : ℕ → NodeServerState N → Bool
  is_authenticated id s = contains_key ℕ_discrete id s.authenticated_sessions

  unfoldable pub connection_id_of : ℕ → NodeServerState N → Option ℕ
  connection_id_of id s = flatten (lookup ℕ_discrete id s.connection_ids)

  unfoldable pub register_found :
      ℕ
      → NameMessage N
      → Option (NodeServerSessionInformation N)
      → NodeServerState N
      → Bool × NodeServerState N
  register_found id name none s = (false, s)
  register_found id name (some session) s = (
    true,
    record s {
      node_sessions =
          insert ℕ_discrete id
            (record session { peer_name = some (record name { connection_id = 0 }) })
            s.node_sessions;
      connection_ids = insert ℕ_discrete id (nonzero name.connection_id) s.connection_ids;
    },
  )

  unfoldable pub register_session : ℕ → NameMessage N → NodeServerState N → Bool × NodeServerState N
  register_session id name s = register_found id name (lookup ℕ_discrete id s.node_sessions) s

  unfoldable pub candidate_of : NodeServerState N → ℕ → Bool → SessionElectionCandidate
  candidate_of s id is_server = record {
    actor_id = id;
    is_server = is_server;
    connection_id = connection_id_of id s;
  }

module _ {N : Type 0} (dec : Discrete N) where
  unfoldable pub is_named : N → Option (NameMessage N) → Bool
  is_named peer none = false
  is_named peer (some m) = ite (dec m.name peer) true false

  unfoldable pub takes_part :
      NodeServerState N → N → Bool → ℕ → NodeServerSessionInformation N → Bool
  takes_part s peer authenticated_only id session =
      is_named peer session.peer_name && (not authenticated_only || is_authenticated id s)

  unfoldable pub candidates_among :
      NodeServerState N
      → N
      → Bool
      → Map ℕ (NodeServerSessionInformation N)
      → List SessionElectionCandidate
  candidates_among s peer authenticated_only [] = []
  candidates_among s peer authenticated_only ((id, session) ∷ m) =
      let rest = candidates_among s peer authenticated_only m in
      if takes_part s peer authenticated_only id session
      then candidate_of s id session.is_server ∷ rest
      else rest

  unfoldable pub candidates_for_peer : N → Bool → NodeServerState N → List SessionElectionCandidate
  candidates_for_peer peer authenticated_only s =
      candidates_among s peer authenticated_only s.node_sessions

module _ {N : Type 0} (dec : Discrete N) (order : N → N → Ordering) where
  unfoldable pub elected_of : N → List SessionElectionCandidate → NodeServerState N → List ℕ
  elected_of peer cs s = elect_sessions order s.this_node_name.name peer cs

  -- The candidate stands beside the authenticated sessions of its peer.
  unfoldable pub check_named : ℕ → Bool → N → NodeServerState N → SessionCheckReply
  check_named id is_server peer s =
      let authenticated = candidates_for_peer dec peer true s in
      let cs =
        if is_authenticated id s
        then authenticated
        else authenticated ++ candidate_of s id is_server ∷ [] in
      reply_of (contains (elected_of peer cs s) id) (ltb 1 (length cs))

  unfoldable pub check_found :
      ℕ → Option (NodeServerSessionInformation N) → NodeServerState N → SessionCheckReply
  check_found id none s = other_connection_continues
  check_found id (some session) s = elim session.peer_name [
    | none ↦ other_connection_continues
    | some peer ↦ check_named id session.is_server peer.name s
  ]

  unfoldable pub check_candidate : ℕ → NodeServerState N → SessionCheckReply
  check_candidate id s = check_found id (lookup ℕ_discrete id s.node_sessions) s

  unfoldable pub matching_among :
      NodeServerState N → NameMessage N → Map ℕ (NodeServerSessionInformation N) → List ℕ
  matching_among s peer [] = []
  matching_among s peer ((id, session) ∷ m) =
      let rest = matching_among s peer m in
      if is_named dec peer.name session.peer_name
        && same_id (connection_id_of id s) (nonzero peer.connection_id)
      then id ∷ rest
      else rest

  -- For a caller that is not registered.
  unfoldable pub check_unregistered : NameMessage N → NodeServerState N → SessionCheckReply
  check_unregistered peer s =
      let existing = candidates_for_peer dec peer.name true s in
      if is_empty existing
      then no_other_connection
      else if any existing (λ c. c.is_server)
      then duplicate_connection
      else elim (order peer.name s.this_node_name.name) [
        | Ordering.lt ↦ this_connection_continues
        | _ ↦ other_connection_continues
      ]

  unfoldable pub check_matching : List ℕ → NameMessage N → NodeServerState N → SessionCheckReply
  check_matching [] peer s = check_unregistered peer s
  check_matching (id ∷ []) peer s = check_candidate id s
  check_matching (id ∷ other ∷ more) peer s = no_other_connection

  unfoldable pub check_session : NameMessage N → NodeServerState N → SessionCheckReply
  check_session peer s = check_matching (matching_among s peer s.node_sessions) peer s

  unfoldable pub losers_among :
      NodeServerState N → N → List ℕ → Map ℕ (NodeServerSessionInformation N) → List ℕ
  losers_among s peer elected [] = []
  losers_among s peer elected ((id, session) ∷ m) =
      let rest = losers_among s peer elected m in
      if is_authenticated id s && is_named dec peer session.peer_name && not (contains elected id)
      then id ∷ rest
      else rest

  unfoldable pub commit_named : ℕ → N → NodeServerState N → SessionElection × NodeServerState N
  commit_named id peer before =
      let s = record before {
        authenticated_sessions = insert ℕ_discrete id tt before.authenticated_sessions;
      } in
      let elected = elected_of peer (candidates_for_peer dec peer true s) s in
      let losers = losers_among s peer elected s.node_sessions in
      (
        record { candidate_survives = contains elected id; losers = losers },
        record s { authenticated_sessions = forget losers s.authenticated_sessions },
      )

  unfoldable pub commit_peer :
      ℕ → Option (NameMessage N) → NodeServerState N → Option SessionElection × NodeServerState N
  commit_peer id none s = (none, s)
  commit_peer id (some peer) s =
      let (election, s') = commit_named id peer.name s in (some election, s')

  unfoldable pub commit_found :
      ℕ
      → Option (NodeServerSessionInformation N)
      → NodeServerState N
      → Option SessionElection × NodeServerState N
  commit_found id none s = (none, s)
  commit_found id (some session) s = commit_peer id session.peer_name s

  unfoldable pub commit_authenticated :
      ℕ → NodeServerState N → Option SessionElection × NodeServerState N
  commit_authenticated id s = commit_found id (lookup ℕ_discrete id s.node_sessions) s

  unfoldable pub elected_found :
      ℕ → Option (NodeServerSessionInformation N) → NodeServerState N → Bool
  elected_found id none s = false
  elected_found id (some session) s = elim session.peer_name [
    | none ↦ false
    | some peer ↦ contains (elected_of peer.name (candidates_for_peer dec peer.name true s) s) id
  ]

  unfoldable pub is_elected : ℕ → NodeServerState N → Bool
  is_elected id s =
      is_authenticated id s && elected_found id (lookup ℕ_discrete id s.node_sessions) s
