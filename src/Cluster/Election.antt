-- ===== src/Cluster/Election.antt =====
-- `elect_sessions` of ractor_cluster/src/node.rs: which of several connections to one peer stay.
-- Names are compared by `order`, the comparison of texts; the sessions' actors are local, and their
-- ids are compared as numbers.
pub mod Links
pub mod Agreement
use ractor.Prelude.{
  ℕ, Bool, true, false, not, ◌&&◌, Option, none, some, List, [], ◌∷◌, map, keep, any, all, length,
  min, ltb, leb, ◌==◌, if◌then◌else◌, Ordering,
}

pub record SessionElectionCandidate : Type 0 where
  pub actor_id : ℕ
  pub is_server : Bool
  pub connection_id : Option ℕ

unfoldable pub smaller : Option ℕ → Option ℕ → Option ℕ
smaller none other = other
smaller (some a) none = some a
smaller (some a) (some b) = some (min a b)

-- The least nonce among those that have one.
unfoldable pub least_connection : List SessionElectionCandidate → Option ℕ
least_connection [] = none
least_connection (c ∷ cs) = smaller c.connection_id (least_connection cs)

unfoldable pub least_actor : List SessionElectionCandidate → Option ℕ
least_actor [] = none
least_actor (c ∷ cs) = smaller (some c.actor_id) (least_actor cs)

unfoldable pub has_connection : ℕ → SessionElectionCandidate → Bool
has_connection id c = elim c.connection_id [ none ↦ false | some other ↦ other == id ]

-- The connection opened by the node whose name sorts last is retained, where both directions stand.
unfoldable pub retain_direction :
    Ordering → List SessionElectionCandidate → List SessionElectionCandidate
retain_direction Ordering.lt cs = keep (λ c. not c.is_server) cs
retain_direction Ordering.gt cs = keep (λ c. c.is_server) cs
retain_direction Ordering.eq cs = cs

unfoldable pub prefer_direction :
    Ordering → List SessionElectionCandidate → List SessionElectionCandidate
prefer_direction peer_to_this cs =
    if any cs (λ c. c.is_server) && any cs (λ c. not c.is_server)
    then retain_direction peer_to_this cs
    else cs

unfoldable pub prefer_connection : List SessionElectionCandidate → List SessionElectionCandidate
prefer_connection cs = elim (least_connection cs) [
  | none ↦ cs
  | some id ↦ keep (has_connection id) cs
]

unfoldable pub keep_actor : Option ℕ → List SessionElectionCandidate → List SessionElectionCandidate
keep_actor none cs = cs
keep_actor (some winner) cs = keep (λ c. c.actor_id == winner) cs

-- Only the accepting end breaks a tie.
unfoldable pub break_tie : List SessionElectionCandidate → List SessionElectionCandidate
break_tie cs =
    if ltb 1 (length cs) && all cs (λ c. c.is_server) then keep_actor (least_actor cs) cs else cs

unfoldable pub actor_ids : List SessionElectionCandidate → List ℕ
actor_ids cs = map (λ c. c.actor_id) cs

unfoldable pub elect_sessions :
    {N : Type 0} → (N → N → Ordering) → N → N → List SessionElectionCandidate → List ℕ
elect_sessions order this_node_name peer_name cs =
    if leb (length cs) 1
    then actor_ids cs
    else actor_ids
        (break_tie (prefer_connection (prefer_direction (order peer_name this_node_name) cs)))
