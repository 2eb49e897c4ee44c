-- ===== src/Groups/Effects.antt =====
-- What the steps of an operation on the process groups (ractor/src/pg.rs) do to the members of a
-- group, to the memberships of an actor, and to the index.
use ractor.Prelude.{
  ℕ, ◌≡◌, refl, true, false, not, ◌&&◌, ◌||◌, List, [], ◌∷◌, any, arith, ite, ◌==◌, ℕ_discrete,
  is_empty,
}
use ractor.Prelude.Map.{Map, Set, insert, remove, contains_key, lookup-insert, lookup-remove}
use ractor.Groups.{
  ScopeGroupKey, key_discrete, GroupState, ActorRelations, PgState, default_group, add_members,
  remove_members, no_relations, relations_empty, relations_of, relate, remove_empty_actor_relations,
  group_of, put_group, indexed, add_group_to_index, remove_group_from_index,
}

empty_list : {A : Type 0} (xs : List A) → is_empty xs ≡ true → xs ≡ []
empty_list [] h = refl
empty_list (x ∷ xs) h = ground arith

empty-insert :
    {K V : Type 0} (dec : Discrete K) (k : K) (v : V) (m : Map K V)
    → is_empty (insert dec k v m) ≡ false
unfolding insert
empty-insert dec k v [] = refl
empty-insert dec k v ((j, w) ∷ m) = ground arith

pub empty-remove :
    {K V : Type 0} (dec : Discrete K) (k : K) (m : Map K V)
    → is_empty m ≡ true
    → is_empty (remove dec k m) ≡ true
unfolding remove
empty-remove dec k [] h = refl
empty-remove dec k ((j, w) ∷ m) h = ground arith

pub contains-add_members :
    (xs : List ℕ) (m : Set ℕ) (a : ℕ)
    → contains_key ℕ_discrete a (add_members xs m)
      ≡ contains_key ℕ_discrete a m || any xs (λ x. x == a)
unfolding add_members
contains-add_members [] m a = ground arith
contains-add_members (x ∷ xs) m a =
    ground (
      arith,
      contains-add_members xs (insert ℕ_discrete x tt m) a,
      lookup-insert ℕ_discrete x a tt m,
    )

pub empty-add_members :
    (xs : List ℕ) (m : Set ℕ) → is_empty (add_members xs m) ≡ is_empty xs && is_empty m
unfolding add_members
empty-add_members [] m = refl
empty-add_members (x ∷ xs) m =
    ground (arith, empty-add_members xs (insert ℕ_discrete x tt m), empty-insert ℕ_discrete x tt m)

pub contains-remove_members :
    (xs : List ℕ) (m : Set ℕ) (a : ℕ)
    → contains_key ℕ_discrete a (remove_members xs m)
      ≡ contains_key ℕ_discrete a m && not (any xs (λ x. x == a))
unfolding remove_members
contains-remove_members [] m a = ground arith
contains-remove_members (x ∷ xs) m a =
    ground
      (arith, contains-remove_members xs (remove ℕ_discrete x m) a, lookup-remove ℕ_discrete x a m)

-- What is left of nothing is nothing.
pub empty-remove_members :
    (xs : List ℕ) (m : Set ℕ) → is_empty m ≡ true → is_empty (remove_members xs m) ≡ true
unfolding remove_members
empty-remove_members [] m h = h
empty-remove_members (x ∷ xs) m h =
    empty-remove_members xs (remove ℕ_discrete x m) (empty-remove ℕ_discrete x m h)

module _ {N : Type 0} where
  -- Of the relations of another actor, or of a change to one's own.
  pub relations_of-relate :
      (a x : ℕ) (change : ActorRelations N → ActorRelations N) (s : PgState N)
      → relations_of x (relate a change s)
        ≡ ite (ℕ_discrete a x) (change (relations_of a s)) (relations_of x s)
  unfolding relate relations_of
  relations_of-relate a x change s =
      ground (arith, lookup-insert ℕ_discrete a x (change (relations_of a s)) s.actor_relations)

  no_relations_empty : (r : ActorRelations N) → relations_empty r ≡ true → r ≡ no_relations
  unfolding relations_empty no_relations
  no_relations_empty r h =
      let a : r.memberships ≡ [] = empty_list r.memberships (ground (arith, h)) in
      let b : r.group_monitors ≡ [] = empty_list r.group_monitors (ground (arith, h)) in
      let c : r.world_monitors ≡ [] = empty_list r.world_monitors (ground (arith, h)) in
      λ i. record { memberships = a i; group_monitors = b i; world_monitors = c i }

  pub relations_of-remove_empty :
      (a x : ℕ) (s : PgState N)
      → relations_of x (remove_empty_actor_relations a s) ≡ relations_of x s
  unfolding remove_empty_actor_relations relations_of
  relations_of-remove_empty a x s =
      ground (
        arith,
        lookup-remove ℕ_discrete a x s.actor_relations,
        no_relations_empty (relations_of a s),
      )

module _ {N : Type 0} (dec : Discrete N) where
  abbrev pub members_of : ScopeGroupKey N → PgState N → Set ℕ
  members_of key s = (group_of dec key s).members

  pub members_of-put_group :
      (key j : ScopeGroupKey N) (g : GroupState) (s : PgState N)
      → members_of j (put_group dec key g s)
        ≡ ite (key_discrete dec key j) g.members (members_of j s)
  unfolding group_of put_group default_group
  members_of-put_group key j g s = ground (
    arith,
    lookup-remove (key_discrete dec) key j s.map,
    lookup-insert (key_discrete dec) key j g s.map,
    empty_list g.members,
  )

  pub indexed-add :
      (key : ScopeGroupKey N) (scope group : N) (s : PgState N)
      → contains_key dec group (indexed dec scope (add_group_to_index dec key s))
        ≡ contains_key dec group (indexed dec scope s)
          || (ite (dec key.0 scope) true false && ite (dec key.1 group) true false)
  unfolding indexed add_group_to_index
  indexed-add key scope group s = ground (
    arith,
    lookup-insert dec key.0 scope (insert dec key.1 tt (indexed dec key.0 s)) s.index,
    lookup-insert dec key.1 group tt (indexed dec key.0 s),
  )

  pub indexed-remove :
      (key : ScopeGroupKey N) (scope group : N) (s : PgState N)
      → contains_key dec group (indexed dec scope (remove_group_from_index dec key s))
        ≡ contains_key dec group (indexed dec scope s)
          && not (ite (dec key.0 scope) true false && ite (dec key.1 group) true false)
  unfolding indexed remove_group_from_index
  indexed-remove key scope group s = ground (
    arith,
    lookup-insert dec key.0 scope (remove dec key.1 (indexed dec key.0 s)) s.index,
    lookup-remove dec key.0 scope s.index,
    lookup-remove dec key.1 group (indexed dec key.0 s),
    empty_list (remove dec key.1 (indexed dec key.0 s)),
  )

  -- A test of keys is a test of their scopes and of their groups.
  pub key_test :
      (key : ScopeGroupKey N) (scope group : N)
      → ite (key_discrete dec key (scope, group)) true false
        ≡ ite (dec key.0 scope) true false && ite (dec key.1 group) true false
  key_test key scope group = ground arith
