-- ===== src/Groups/Enrolled.antt =====
-- The members of the process groups (ractor/src/pg.rs), the actors' memberships and the index of
-- groups by scope agree.
use ractor.Prelude.{
  ℕ, ◌≡◌, refl, sym, ap, ◌∙◌, Bool, true, false, not, List, [], ◌∷◌, keep, arith, ◌==◌, ℕ_discrete,
  is_empty, if◌then◌else◌, Bool-cases, inl, inr,
}
use ractor.Prelude.Map.{Set, lookup, contains_key, keys}
use ractor.Groups.{
  ScopeGroupKey, key_discrete, PgState, Sentinels, add_members, remove_members, on_memberships,
  no_relations, default_group, relations_of, relate, remove_empty_actor_relations, group_of,
  indexed, Notice, GroupOperation, joining, leaving, leaving_all, perform_group, perform_groups,
  new_groups, accept_all, join_accepted, join_scoped, drop_memberships, put_members, leave_scoped,
  leave_each, leave_all,
}
use ractor.Groups.Effects.{
  members_of, relations_of-remove_empty, contains-add_members, empty-add_members,
  contains-remove_members, empty-remove_members,
}
use ractor.Groups.{monitor, demonitor, monitoring, demonitoring, or_else}
use ractor.Groups.Monitors.{Alike, monitor-Alike, demonitor-Alike}
use ractor.Groups.Loops.{
  is_member, belongs, is_listed, Same, accept_all-Same, drop_memberships-Same, belongs-relate,
  belongs-accept_all, belongs_absent, belongs-drop_memberships,
}
use ractor.Groups.Places.{
  members_of-Same, is_listed-Same, members_of-put_members, belongs-put_members, put_members-listed,
  same_members, members_of-join_accepted, is_listed-join_accepted, belongs-join_accepted,
  leave_each-Listed, belongs-leave_each, member-leave_each, any-keys, members_of-remove_empty,
  members_of-relate, contains_nothing,
}

module _ {N : Type 0} (dec : Discrete N) where
  -- A member of a group has it among its memberships, and the index has the groups with members.
  pub record Enrolled (s : PgState N) : Type 0 where
    pub mutual_members :
        (key : ScopeGroupKey N) (a : ℕ) → is_member dec key a s ≡ belongs dec key a s
    pub listed :
        (scope group : N)
        → is_listed dec scope group s ≡ not (is_empty (members_of dec (scope, group) s))

  leave_scoped-Enrolled :
      (names : Sentinels N) (key : ScopeGroupKey N) (actors : List ℕ) (s : PgState N)
      → Enrolled s
      → Enrolled (leave_scoped dec names key actors s).0
  unfolding leave_scoped
  leave_scoped-Enrolled names key actors s e =
      elim (Bool-cases (contains_key (key_discrete dec) key s.map)) [
        | inl occupied ↦ rw occupied left
        | inr vacant ↦ rw vacant e
      ]
    where
      dropped : PgState N
      dropped = drop_memberships dec key actors s

      members : Set ℕ
      members = remove_members actors (members_of dec key s)

      same : Same dec s dropped
      same = drop_memberships-Same dec key actors s

      fewer : is_empty (members_of dec key dropped) ≡ true → is_empty members ≡ true
      fewer h =
          empty-remove_members actors (members_of dec key s)
            (ap is_empty (sym (members_of-Same dec key s dropped same)) ∙ h)

      left : Enrolled (put_members dec key members dropped)
      left = record {
        mutual_members = λ j x. ground (
          arith,
          ap (contains_key ℕ_discrete x) (members_of-put_members dec key j members dropped),
          ap (contains_key ℕ_discrete x)
              (members_of-Same dec j s dropped (drop_memberships-Same dec key actors s)),
          contains-remove_members actors (members_of dec key s) x,
          belongs-put_members dec key j members x dropped,
          belongs-drop_memberships dec key j x actors s,
          e.mutual_members j x,
          same_members dec key j x s,
        );
        listed = λ scope group. put_members-listed dec key members scope group dropped fewer (
            is_listed-Same dec scope group s dropped same
            ∙ e.listed scope group
            ∙ ap (λ m. not (is_empty m)) (sym (members_of-Same dec (scope, group) s dropped same)));
      }

  join_accepted-Enrolled :
      (live : ℕ → Bool) (key : ScopeGroupKey N) (asked : List ℕ) (s : PgState N)
      → Enrolled s
      → Enrolled (join_accepted dec key (keep live asked) (accept_all dec live key asked s))
  join_accepted-Enrolled live key asked s e = record {
    mutual_members = λ j x. ground (
      arith,
      ap (contains_key ℕ_discrete x) (members_of-join_accepted dec key j joined accepted),
      ap (contains_key ℕ_discrete x) (members_of-Same dec j s accepted same),
      ap (λ m. contains_key ℕ_discrete x (add_members joined m))
          (members_of-Same dec key s accepted same),
      contains-add_members joined (members_of dec key s) x,
      belongs-join_accepted dec key j joined x accepted,
      belongs-accept_all dec live key j x asked s,
      e.mutual_members j x,
      same_members dec key j x s,
    );
    listed = λ scope group. ground (
      arith,
      is_listed-join_accepted dec key joined scope group accepted,
      is_listed-Same dec scope group s accepted same,
      ap is_empty (members_of-join_accepted dec key (scope, group) joined accepted),
      ap is_empty (members_of-Same dec (scope, group) s accepted same),
      empty-add_members joined (members_of dec key accepted),
      same_group scope group,
      e.listed scope group,
    );
  }
    where
      joined : List ℕ
      joined = keep live asked

      accepted : PgState N
      accepted = accept_all dec live key asked s

      same : Same dec s accepted
      same = accept_all-Same dec live key asked s

      same_group :
          (scope group : N)
          → key ≡ (scope, group)
          → is_empty (members_of dec key accepted) ≡ is_empty (members_of dec (scope, group) s)
      same_group scope group eq =
          ap is_empty (members_of-Same dec key s accepted same)
          ∙ ap (λ k. is_empty (members_of dec k s)) eq

  join_scoped-Enrolled :
      (names : Sentinels N) (live_before live : ℕ → Bool) (key : ScopeGroupKey N) (actors : List ℕ)
      (s : PgState N)
      → Enrolled s
      → Enrolled (join_scoped dec names live_before live key actors s).0
  unfolding join_scoped
  join_scoped-Enrolled names live_before live key actors s e =
      by_tests (is_empty (keep live_before actors)) (is_empty (keep live (keep live_before actors)))
        [] _
    where
      after : PgState N
      after =
          join_accepted dec key (keep live (keep live_before actors))
            (accept_all dec live key (keep live_before actors) s)

      by_tests :
          (nobody unmoved : Bool) (n m : List (Notice N))
          → let outcome : PgState N × List (Notice N) =
              if nobody then (s, n) else if unmoved then (after, n) else (after, m) in
            Enrolled outcome.0
      by_tests true unmoved n m = e
      by_tests false true n m = join_accepted-Enrolled live key (keep live_before actors) s e
      by_tests false false n m = join_accepted-Enrolled live key (keep live_before actors) s e

  leave_all-Enrolled :
      (names : Sentinels N) (a : ℕ) (s : PgState N)
      → Enrolled s
      → Enrolled (leave_all dec names a s).0
  unfolding leave_all relate remove_empty_actor_relations group_of indexed
  leave_all-Enrolled names a s e = elim (Bool-cases (contains_key ℕ_discrete a s.actor_relations)) [
    | inl h ↦ rw h left
    | inr h ↦ rw h e
  ]
    where
      cleared : PgState N
      cleared = relate a (on_memberships dec (λ m. [])) s

      ks : List (ScopeGroupKey N)
      ks = keys (relations_of a s).memberships

      t : PgState N
      t = (leave_each dec a ks cleared).0

      same_actor : (j : ScopeGroupKey N) (x : ℕ) → a ≡ x → belongs dec j a s ≡ belongs dec j x s
      same_actor j x eq = ap (λ y. belongs dec j y s) eq

      left : Enrolled (remove_empty_actor_relations a (leave_each dec a ks cleared).0)
      left = record {
        mutual_members = λ j x. ground (
          arith,
          ap (contains_key ℕ_discrete x) (members_of-remove_empty dec a j t),
          member-leave_each dec a x j ks cleared,
          ap (contains_key ℕ_discrete x)
              (members_of-relate dec a j (on_memberships dec (λ m. [])) s),
          ap (λ r. contains_key (key_discrete dec) j r.memberships)
              (relations_of-remove_empty a x t),
          belongs-leave_each dec a x j ks cleared,
          belongs-relate dec a x j (λ m. []) s,
          contains_nothing dec j,
          any-keys dec j (relations_of a s).memberships,
          e.mutual_members j x,
          same_actor j x,
        );
        listed = λ scope group. leave_each-Listed dec a ks cleared e.listed scope group;
      }

  Alike-Enrolled : (s s' : PgState N) → Alike dec s s' → Enrolled s → Enrolled s'
  unfolding indexed
  Alike-Enrolled s s' same e = record {
    mutual_members = λ key a.
        ap (contains_key ℕ_discrete a) (same.same_members key)
        ∙ e.mutual_members key a
        ∙ ap (contains_key (key_discrete dec) key) (sym (same.same_memberships a));
    listed = λ scope group.
        ap (λ index. contains_key dec group (or_else [] (lookup dec scope index))) same.same_index
        ∙ e.listed scope group
        ∙ ap (λ m. not (is_empty m)) (sym (same.same_members (scope, group)));
  }

  perform_group-Enrolled :
      (names : Sentinels N) (op : GroupOperation N) (s : PgState N)
      → Enrolled s
      → Enrolled (perform_group dec names op s)
  unfolding perform_group
  perform_group-Enrolled names (joining live_before live key actors) s e =
      join_scoped-Enrolled names live_before live key actors s e
  perform_group-Enrolled names (leaving key actors) s e = leave_scoped-Enrolled names key actors s e
  perform_group-Enrolled names (leaving_all a) s e = leave_all-Enrolled names a s e
  perform_group-Enrolled names (monitoring live key a) s e =
      Alike-Enrolled s (monitor dec live key a s) (monitor-Alike dec live key a s) e
  perform_group-Enrolled names (demonitoring key a) s e =
      Alike-Enrolled s (demonitor dec key a s) (demonitor-Alike dec key a s) e

  perform_groups_from :
      (names : Sentinels N) (ops : List (GroupOperation N)) (s : PgState N)
      → Enrolled s
      → Enrolled (perform_groups dec names ops s)
  unfolding perform_groups
  perform_groups_from names [] s e = e
  perform_groups_from names (op ∷ ops) s e =
      perform_groups_from names ops (perform_group dec names op s)
        (perform_group-Enrolled names op s e)

  -- However actors join groups, leave them, monitor them and stop, an actor is a member of a group exactly if the
  -- group is among its memberships, and the index of a scope lists exactly the groups with members.
  pub perform_groups-Enrolled :
      (names : Sentinels N) (ops : List (GroupOperation N))
      → Enrolled (perform_groups dec names ops new_groups)
  unfolding new_groups group_of relations_of indexed lookup default_group no_relations
  perform_groups-Enrolled names ops =
      perform_groups_from names ops new_groups
        (record { mutual_members = λ key a. refl; listed = λ scope group. refl })

  -- Where members and memberships agree, an actor that leaves all groups is a member of none, and
  -- nobody else leaves any.
  pub member-leave_all :
      (names : Sentinels N) (a : ℕ) (s : PgState N)
      → Enrolled s
      → (key : ScopeGroupKey N) (x : ℕ)
      → is_member dec key x (leave_all dec names a s).0
        ≡ (if a == x then false else is_member dec key x s)
  unfolding leave_all
  member-leave_all names a s e key x = ground (
    arith,
    e.mutual_members key x,
    e.mutual_members key a,
    belongs_absent dec key a s,
    any-keys dec key (relations_of a s).memberships,
    ap (contains_key ℕ_discrete x) (members_of-remove_empty dec a key t),
    member-leave_each dec a x key ks cleared,
    ap (contains_key ℕ_discrete x) (members_of-relate dec a key (on_memberships dec (λ m. [])) s),
    same_actor,
  )
    where
      cleared : PgState N
      cleared = relate a (on_memberships dec (λ m. [])) s

      ks : List (ScopeGroupKey N)
      ks = keys (relations_of a s).memberships

      t : PgState N
      t = (leave_each dec a ks cleared).0

      same_actor : a ≡ x → belongs dec key a s ≡ belongs dec key x s
      same_actor eq = ap (λ y. belongs dec key y s) eq
