-- ===== src/Groups/Places.antt =====
-- What the operations on the process groups (ractor/src/pg.rs) do to the members of a group and to
-- the index, once the memberships are dealt with.
use ractor.Prelude.{
  ℕ, ◌≡◌, refl, ap, ◌∙◌, true, false, not, ◌&&◌, ◌||◌, List, [], ◌∷◌, any, arith, ite, ◌==◌,
  ℕ_discrete, is_empty, Bool-cases, inl, inr,
}
use ractor.Prelude.Map.{Set, lookup, remove, contains_key, keys, lookup-remove}
use ractor.Groups.{
  ScopeGroupKey, key_discrete, GroupState, ActorRelations, PgState, add_members, or_else,
  default_group, relations_of, relate, remove_empty_actor_relations, group_of, put_group, indexed,
  add_group_to_index, remove_group_from_index, join_accepted, put_members, leave_one, leave_each,
}
use ractor.Groups.Effects.{
  members_of, members_of-put_group, indexed-add, indexed-remove, key_test, empty-remove,
}
use ractor.Groups.Loops.{is_key, is_member, belongs, is_listed, Same}

module _ {N : Type 0} (dec : Discrete N) where
  -- The index apart.
  pub members_of-remove_index :
      (key j : ScopeGroupKey N) (s : PgState N)
      → members_of dec j (remove_group_from_index dec key s) ≡ members_of dec j s
  unfolding group_of remove_group_from_index
  members_of-remove_index key j s = refl

  pub members_of-add_index :
      (key j : ScopeGroupKey N) (s : PgState N)
      → members_of dec j (add_group_to_index dec key s) ≡ members_of dec j s
  unfolding group_of add_group_to_index
  members_of-add_index key j s = refl

  pub members_of-Same :
      (j : ScopeGroupKey N) (s s' : PgState N)
      → Same dec s s'
      → members_of dec j s' ≡ members_of dec j s
  unfolding Same group_of
  members_of-Same j s s' (m, i) =
      ap (λ groups. (or_else default_group (lookup (key_discrete dec) j groups)).members) m

  pub is_listed-Same :
      (scope group : N) (s s' : PgState N)
      → Same dec s s'
      → is_listed dec scope group s' ≡ is_listed dec scope group s
  unfolding Same indexed
  is_listed-Same scope group s s' (m, i) =
      ap (λ index. contains_key dec group (or_else [] (lookup dec scope index))) i

  pub is_listed-put_group :
      (key : ScopeGroupKey N) (g : GroupState) (scope group : N) (s : PgState N)
      → is_listed dec scope group (put_group dec key g s) ≡ is_listed dec scope group s
  unfolding indexed put_group
  is_listed-put_group key g scope group s = refl

  -- The members of a group are replaced, and the index follows.
  pub members_of-put_members :
      (key j : ScopeGroupKey N) (members : Set ℕ) (s : PgState N)
      → members_of dec j (put_members dec key members s)
        ≡ ite (key_discrete dec key j) members (members_of dec j s)
  unfolding put_members
  members_of-put_members key j members s =
      let g = record (group_of dec key s) { members = members } in
      ground (
        arith,
        members_of-put_group dec key j g s,
        members_of-remove_index key j (put_group dec key g s),
      )

  pub is_listed-put_members :
      (key : ScopeGroupKey N) (members : Set ℕ) (scope group : N) (s : PgState N)
      → is_listed dec scope group (put_members dec key members s)
        ≡ is_listed dec scope group s && not (is_empty members && is_key dec key (scope, group))
  unfolding put_members
  is_listed-put_members key members scope group s =
      let g = record (group_of dec key s) { members = members } in
      ground (
        arith,
        is_listed-put_group key g scope group s,
        indexed-remove dec key scope group (put_group dec key g s),
        key_test dec key scope group,
      )

  pub belongs-put_members :
      (key j : ScopeGroupKey N) (members : Set ℕ) (x : ℕ) (s : PgState N)
      → belongs dec j x (put_members dec key members s) ≡ belongs dec j x s
  unfolding put_members put_group remove_group_from_index relations_of
  belongs-put_members key j members x s = ground arith

  -- Members replaced by some of them.
  pub put_members-listed :
      (key : ScopeGroupKey N) (members : Set ℕ) (scope group : N) (s : PgState N)
      → (is_empty (members_of dec key s) ≡ true → is_empty members ≡ true)
      → is_listed dec scope group s ≡ not (is_empty (members_of dec (scope, group) s))
      → is_listed dec scope group (put_members dec key members s)
        ≡ not (is_empty (members_of dec (scope, group) (put_members dec key members s)))
  put_members-listed key members scope group s fewer e = ground (
    arith,
    is_listed-put_members key members scope group s,
    ap is_empty (members_of-put_members key (scope, group) members s),
    same_key,
  )
    where
      same_key :
          key ≡ (scope, group)
          → is_empty (members_of dec key s) ≡ is_empty (members_of dec (scope, group) s)
      same_key eq = ap (λ k. is_empty (members_of dec k s)) eq

  pub same_members :
      (key j : ScopeGroupKey N) (x : ℕ) (s : PgState N)
      → key ≡ j
      → is_member dec key x s ≡ is_member dec j x s
  same_members key j x s e = ap (λ k. is_member dec k x s) e

  pub members_of-join_accepted :
      (key j : ScopeGroupKey N) (joined : List ℕ) (s : PgState N)
      → members_of dec j (join_accepted dec key joined s)
        ≡ ite
            (key_discrete dec key j)
            (add_members joined (members_of dec key s))
            (members_of dec j s)
  unfolding join_accepted
  members_of-join_accepted key j joined s =
      let g = record (group_of dec key s) { members = add_members joined (members_of dec key s) } in
      ground (
        arith,
        members_of-put_group dec key j g s,
        members_of-add_index key j (put_group dec key g s),
      )

  pub is_listed-join_accepted :
      (key : ScopeGroupKey N) (joined : List ℕ) (scope group : N) (s : PgState N)
      → is_listed dec scope group (join_accepted dec key joined s)
        ≡ is_listed dec scope group s || (not (is_empty joined) && is_key dec key (scope, group))
  unfolding join_accepted
  is_listed-join_accepted key joined scope group s =
      let g = record (group_of dec key s) { members = add_members joined (members_of dec key s) } in
      ground (
        arith,
        is_listed-put_group key g scope group s,
        indexed-add dec key scope group (put_group dec key g s),
        key_test dec key scope group,
      )

  pub belongs-join_accepted :
      (key j : ScopeGroupKey N) (joined : List ℕ) (x : ℕ) (s : PgState N)
      → belongs dec j x (join_accepted dec key joined s) ≡ belongs dec j x s
  unfolding join_accepted put_group add_group_to_index relations_of
  belongs-join_accepted key j joined x s = ground arith

  pub member-leave_one :
      (a x : ℕ) (key j : ScopeGroupKey N) (s : PgState N)
      → is_member dec j x (leave_one dec a key s).0
        ≡ is_member dec j x s && not (is_key dec key j && (a == x))
  unfolding leave_one
  member-leave_one a x key j s = ground (
    arith,
    ap (contains_key ℕ_discrete x)
        (members_of-put_members key j (remove ℕ_discrete a (members_of dec key s)) s),
    lookup-remove ℕ_discrete a x (members_of dec key s),
    same_members key j x s,
  )

  pub belongs-leave_one :
      (a x : ℕ) (key j : ScopeGroupKey N) (s : PgState N)
      → belongs dec j x (leave_one dec a key s).0 ≡ belongs dec j x s
  unfolding leave_one
  belongs-leave_one a x key j s =
      ground (arith, belongs-put_members key j (remove ℕ_discrete a (members_of dec key s)) x s)

  -- The index holds the groups with members.
  abbrev pub Listed : PgState N → Type 0
  Listed s =
      (scope group : N)
      → is_listed dec scope group s ≡ not (is_empty (members_of dec (scope, group) s))

  pub leave_one-Listed :
      (a : ℕ) (key : ScopeGroupKey N) (s : PgState N) → Listed s → Listed (leave_one dec a key s).0
  unfolding leave_one
  leave_one-Listed a key s l scope group =
      elim (Bool-cases (contains_key ℕ_discrete a (members_of dec key s))) [
        | inl h ↦ rw h (
            put_members-listed key (remove ℕ_discrete a (members_of dec key s)) scope group s
              (empty-remove ℕ_discrete a (members_of dec key s)) (l scope group))
        | inr h ↦ rw h (l scope group)
      ]

  pub leave_each-Listed :
      (a : ℕ) (ks : List (ScopeGroupKey N)) (s : PgState N)
      → Listed s
      → Listed (leave_each dec a ks s).0
  unfolding leave_each
  leave_each-Listed a [] s l = l
  leave_each-Listed a (key ∷ ks) s l =
      leave_each-Listed a ks (leave_one dec a key s).0 (leave_one-Listed a key s l)

  pub belongs-leave_each :
      (a x : ℕ) (j : ScopeGroupKey N) (ks : List (ScopeGroupKey N)) (s : PgState N)
      → belongs dec j x (leave_each dec a ks s).0 ≡ belongs dec j x s
  unfolding leave_each
  belongs-leave_each a x j [] s = refl
  belongs-leave_each a x j (key ∷ ks) s =
      belongs-leave_each a x j ks (leave_one dec a key s).0 ∙ belongs-leave_one a x key j s

  pub member-leave_each :
      (a x : ℕ) (j : ScopeGroupKey N) (ks : List (ScopeGroupKey N)) (s : PgState N)
      → is_member dec j x (leave_each dec a ks s).0
        ≡ is_member dec j x s && not (any ks (λ key. is_key dec key j) && (a == x))
  unfolding leave_each
  member-leave_each a x j [] s = ground arith
  member-leave_each a x j (key ∷ ks) s =
      ground
        (arith, member-leave_each a x j ks (leave_one dec a key s).0, member-leave_one a x key j s)

  pub any-keys :
      (j : ScopeGroupKey N) (m : Set (ScopeGroupKey N))
      → any (keys m) (λ key. is_key dec key j) ≡ contains_key (key_discrete dec) j m
  unfolding lookup
  any-keys j [] = refl
  any-keys j ((key, v) ∷ m) = ground (arith, any-keys j m)

  pub members_of-remove_empty :
      (a : ℕ) (j : ScopeGroupKey N) (s : PgState N)
      → members_of dec j (remove_empty_actor_relations a s) ≡ members_of dec j s
  unfolding group_of remove_empty_actor_relations
  members_of-remove_empty a j s = refl

  pub members_of-relate :
      (a : ℕ) (j : ScopeGroupKey N) (change : ActorRelations N → ActorRelations N) (s : PgState N)
      → members_of dec j (relate a change s) ≡ members_of dec j s
  unfolding group_of relate
  members_of-relate a j change s = refl

  pub contains_nothing :
      (j : ScopeGroupKey N) → contains_key {V = Unit {0}} (key_discrete dec) j [] ≡ false
  unfolding lookup
  contains_nothing j = refl
