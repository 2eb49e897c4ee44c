-- ===== src/Cluster/Nodes/Standing.antt =====
-- Which sessions stand for a peer: what registering a claimed name, and an election
-- (ractor_cluster/src/node.rs, `register_session` and `commit_authenticated`), change.
use ractor.Prelude.{
  ℕ, ◌≡◌, refl, ap, ap₂, if_pos, ◌∙◌, true, false, not, ◌&&◌, Option, none, some, List, [], ◌∷◌,
  arith, Ordering, ℕ_discrete, is_some,
}
use ractor.Prelude.Map.{Map, Set, lookup, insert, remove, lookup-insert, lookup-remove}
use ractor.Cluster.Election.{elect_sessions}
use ractor.Cluster.Auth.{NameMessage}
use ractor.Cluster.Nodes.{
  nonzero, NodeServerSessionInformation, NodeServerState, is_authenticated, connection_id_of,
  register_found, register_session, candidate_of, takes_part, candidates_among, candidates_for_peer,
  is_named, forget, contains, losers_among, elected_of, commit_authenticated, commit_found,
  commit_peer, commit_named, is_elected, elected_found,
}

-- The state with a session just marked authenticated, before the losers leave.
abbrev pub marked : {N : Type 0} → ℕ → NodeServerState N → NodeServerState N
marked id s = record s { authenticated_sessions = insert ℕ_discrete id tt s.authenticated_sessions }

named-is_named :
    {N : Type 0} (dec : Discrete N) (peer : N) (other_peer : NameMessage N)
    (name : Option (NameMessage N))
    → name ≡ some other_peer
    → other_peer.name ≡ peer
    → is_named dec peer name ≡ true
unfolding is_named
named-is_named dec peer other_peer name named same = rw (named, is_named) (if_pos _ same true false)

pub lookup-forget :
    (ids : List ℕ) (m : Set ℕ) (j : ℕ)
    → is_some (lookup ℕ_discrete j (forget ids m))
      ≡ is_some (lookup ℕ_discrete j m) && not (contains ids j)
unfolding forget
lookup-forget [] m j = ground arith
lookup-forget (id ∷ ids) m j =
    ground (arith, lookup-forget ids (remove ℕ_discrete id m) j, lookup-remove ℕ_discrete id j m)

module _ {N : Type 0} (dec : Discrete N) where
  unauthenticated-remove :
      (id : ℕ) (peer : N) (s : NodeServerState N) (m : Map ℕ (NodeServerSessionInformation N))
      → is_authenticated id s ≡ false
      → candidates_among dec s peer true (remove ℕ_discrete id m)
        ≡ candidates_among dec s peer true m
  unfolding remove candidates_among takes_part
  unauthenticated-remove id peer s [] h = refl
  unauthenticated-remove id peer s ((j, session) ∷ m) h =
      ground (arith, unauthenticated-remove id peer s m h)

  unauthenticated-insert :
      (id : ℕ) (claimed : NodeServerSessionInformation N) (peer : N) (s : NodeServerState N)
      (m : Map ℕ (NodeServerSessionInformation N))
      → is_authenticated id s ≡ false
      → candidates_among dec s peer true (insert ℕ_discrete id claimed m)
        ≡ candidates_among dec s peer true m
  unfolding insert candidates_among takes_part
  unauthenticated-insert id claimed peer s [] h = ground arith
  unauthenticated-insert id claimed peer s ((j, session) ∷ m) h =
      ground
        (arith, unauthenticated-insert id claimed peer s m h, unauthenticated-remove id peer s m h)

  -- Two states that agree on who is authenticated, and on the connection ids of those.
  abbrev Alike : NodeServerState N → NodeServerState N → Type 0
  Alike s s' =
      (j : ℕ)
      → (is_authenticated j s' ≡ is_authenticated j s)
        × (is_authenticated j s ≡ true → connection_id_of j s' ≡ connection_id_of j s)

  candidates_among-Alike :
      (peer : N) (s s' : NodeServerState N) (m : Map ℕ (NodeServerSessionInformation N))
      → Alike s s'
      → candidates_among dec s' peer true m ≡ candidates_among dec s peer true m
  unfolding candidates_among takes_part candidate_of
  candidates_among-Alike peer s s' [] same = refl
  candidates_among-Alike peer s s' ((j, session) ∷ m) same =
      ground (arith, candidates_among-Alike peer s s' m same, (same j).0, (same j).1)

  register_found-Alike :
      (id : ℕ) (name : NameMessage N) (session : NodeServerSessionInformation N)
      (s : NodeServerState N)
      → is_authenticated id s ≡ false
      → Alike s (register_found id name (some session) s).1
  unfolding register_found is_authenticated connection_id_of
  register_found-Alike id name session s h j = (
    refl,
    λ authenticated.
        ground (arith, lookup-insert ℕ_discrete id j (nonzero name.connection_id) s.connection_ids),
  )

  register_found-candidates :
      (id : ℕ) (name : NameMessage N) (session : NodeServerSessionInformation N)
      (s : NodeServerState N) (peer : N)
      → is_authenticated id s ≡ false
      → candidates_for_peer dec peer true (register_found id name (some session) s).1
        ≡ candidates_for_peer dec peer true s
  unfolding candidates_for_peer register_found
  register_found-candidates id name session s peer h =
      candidates_among-Alike peer s _ _ (register_found-Alike id name session s h)
      ∙ unauthenticated-insert id _ peer s s.node_sessions h

module _ {N : Type 0} (dec : Discrete N) (order : N → N → Ordering) where
  elected_found_alike :
      (s s' : NodeServerState N) (j : ℕ) (found : Option (NodeServerSessionInformation N))
      → s'.this_node_name.name ≡ s.this_node_name.name
      → ((peer : N) → candidates_for_peer dec peer true s' ≡ candidates_for_peer dec peer true s)
      → elected_found dec order j found s' ≡ elected_found dec order j found s
  unfolding elected_found elected_of
  elected_found_alike s s' j none e same = refl
  elected_found_alike s s' j (some session) e same = by_name session.peer_name
    where
      by_name :
          (peer_name : Option (NameMessage N))
          → elected_found dec order j (some (record session { peer_name = peer_name })) s'
            ≡ elected_found dec order j (some (record session { peer_name = peer_name })) s
      by_name none = refl
      by_name (some peer) =
          ap₂ (λ this cs. contains (elect_sessions order this peer.name cs) j) e (same peer.name)

  register_found-is_elected :
      (id : ℕ) (name : NameMessage N) (session : NodeServerSessionInformation N)
      (s : NodeServerState N) (j : ℕ)
      → is_authenticated id s ≡ false
      → is_elected dec order j (register_found id name (some session) s).1
        ≡ is_elected dec order j s
  unfolding is_elected is_authenticated register_found
  register_found-is_elected id name session s j h = ground (
    arith,
    lookup-insert ℕ_discrete id j
        (record session { peer_name = some (record name { connection_id = 0 }) }) s.node_sessions,
    elected_found_alike s (register_found id name (some session) s).1 j
        (lookup ℕ_discrete j s.node_sessions) refl
        (λ peer. register_found-candidates dec id name session s peer h),
  )

  -- The name that a session claims before it is authenticated elects nobody and unseats nobody:
  -- registering it leaves unchanged which sessions are elected.
  pub register_session-is_elected :
      (id : ℕ) (name : NameMessage N) (s : NodeServerState N) (j : ℕ)
      → is_authenticated id s ≡ false
      → is_elected dec order j (register_session id name s).1 ≡ is_elected dec order j s
  unfolding register_session register_found
  register_session-is_elected id name s j h = by_found (lookup ℕ_discrete id s.node_sessions)
    where
      by_found :
          (found : Option (NodeServerSessionInformation N))
          → is_elected dec order j (register_found id name found s).1 ≡ is_elected dec order j s
      by_found none = refl
      by_found (some session) = register_found-is_elected id name session s j h

  spared-losers_among :
      (s : NodeServerState N) (peer : N) (elected : List ℕ)
      (m : Map ℕ (NodeServerSessionInformation N)) (j : ℕ)
      → is_authenticated j s && not (contains elected j) ≡ false
      → contains (losers_among dec order s peer elected m) j ≡ false
  unfolding losers_among
  spared-losers_among s peer elected [] j h = refl
  spared-losers_among s peer elected ((id, session) ∷ m) j h =
      ground (arith, spared-losers_among s peer elected m j h)

  contains-losers_among :
      (s : NodeServerState N) (peer : N) (elected : List ℕ)
      (m : Map ℕ (NodeServerSessionInformation N)) (j : ℕ) (other : NodeServerSessionInformation N)
      → lookup ℕ_discrete j m ≡ some other
      → is_named dec peer other.peer_name ≡ true
      → contains (losers_among dec order s peer elected m) j
        ≡ is_authenticated j s && not (contains elected j)
  unfolding losers_among lookup
  contains-losers_among s peer elected [] j other e named = ground arith
  contains-losers_among s peer elected ((id, session) ∷ m) j other e named = ground (
    arith,
    contains-losers_among s peer elected m j other,
    spared-losers_among s peer elected m j,
  )

  abbrev winners : NodeServerState N → N → List ℕ
  winners s peer = elected_of dec order peer (candidates_for_peer dec peer true s) s

  elected_found_named :
      (j : ℕ) (peer : NameMessage N) (other : NodeServerSessionInformation N)
      (s : NodeServerState N)
      → other.peer_name ≡ some peer
      → elected_found dec order j (some other) s ≡ contains (winners s peer.name) j
  unfolding elected_found
  elected_found_named j peer other s named = rw (named, elected_found) refl

  commit_named-is_elected :
      (id j : ℕ) (peer other_peer : NameMessage N) (other : NodeServerSessionInformation N)
      (s : NodeServerState N)
      → lookup ℕ_discrete j s.node_sessions ≡ some other
      → other.peer_name ≡ some other_peer
      → other_peer.name ≡ peer.name
      → is_authenticated j (commit_named dec order id peer.name s).1
        ≡ is_elected dec order j (marked id s)
  unfolding commit_named is_elected is_authenticated
  commit_named-is_elected id j peer other_peer other s found named same = ground (
    arith,
    found,
    lookup-forget
        (losers_among dec order (marked id s) peer.name (winners (marked id s) peer.name)
          s.node_sessions)
        (insert ℕ_discrete id tt s.authenticated_sessions) j,
    contains-losers_among (marked id s) peer.name (winners (marked id s) peer.name) s.node_sessions
        j other found (named-is_named dec peer.name other_peer other.peer_name named same),
    elected_found_named j other_peer other (marked id s) named,
    ap (λ p. contains (winners (marked id s) p) j) same,
  )

  -- After a session with a peer's name is marked authenticated, a session of that peer stays authenticated
  -- exactly if it is among those elected with the new one counted in.
  pub commit_authenticated-is_elected :
      (id j : ℕ) (peer other_peer : NameMessage N) (session other : NodeServerSessionInformation N)
      (s : NodeServerState N)
      → lookup ℕ_discrete id s.node_sessions ≡ some session
      → session.peer_name ≡ some peer
      → lookup ℕ_discrete j s.node_sessions ≡ some other
      → other.peer_name ≡ some other_peer
      → other_peer.name ≡ peer.name
      → is_authenticated j (commit_authenticated dec order id s).1
        ≡ is_elected dec order j (marked id s)
  unfolding commit_authenticated commit_found commit_peer
  commit_authenticated-is_elected id j peer other_peer session other s found named found_other
        named_other same =
      rw (found, named, commit_authenticated)
        (commit_named-is_elected id j peer other_peer other s found_other named_other same)
