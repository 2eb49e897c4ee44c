-- ===== src/Groups/Monitors.antt =====
-- Monitors of a group (ractor/src/pg.rs) leave the members, the memberships and the index as they are.
use ractor.Prelude.{ℕ, ◌≡◌, refl, ap, ◌∙◌, Bool, true, false, List, arith, ℕ_discrete}
use ractor.Prelude.Map.{Set, insert, remove, contains_key}
use ractor.Groups.{
  ScopeGroupKey, key_discrete, PgState, relations_of, relate, remove_empty_actor_relations,
}
use ractor.Groups.Effects.{members_of, relations_of-relate, relations_of-remove_empty}
use ractor.Groups.{
  put_group, group_of, on_group_monitors, put_listeners, monitor, forget_monitor, demonitor,
}
use ractor.Prelude.{Bool-cases, inl, inr}
use ractor.Groups.Effects.{
  members_of, members_of-put_group, relations_of-relate, relations_of-remove_empty,
}
use ractor.Groups.Places.{members_of-relate, members_of-remove_empty}

module _ {N : Type 0} (dec : Discrete N) where
  -- Two states alike in members, memberships and index.
  pub record Alike (s s' : PgState N) : Type 0 where
    pub same_members : (key : ScopeGroupKey N) → members_of dec key s' ≡ members_of dec key s
    pub same_memberships :
        (a : ℕ) → (relations_of a s').memberships ≡ (relations_of a s).memberships
    pub same_index : s'.index ≡ s.index

  put_listeners-Alike :
      (key : ScopeGroupKey N) (listeners : List ℕ) (s : PgState N)
      → Alike s (put_listeners dec key listeners s)
  unfolding put_listeners relations_of put_group
  put_listeners-Alike key listeners s = record {
    same_members = λ j.
        members_of-put_group dec key j (record (group_of dec key s) { listeners = listeners }) s
        ∙ ground (arith, unmoved j);
    same_memberships = λ a. refl;
    same_index = refl;
  }
    where
      unmoved : (j : ScopeGroupKey N) → key ≡ j → members_of dec key s ≡ members_of dec j s
      unmoved j e = ap (λ k. members_of dec k s) e

  relate-Alike :
      (a : ℕ) (f : Set (ScopeGroupKey N) → Set (ScopeGroupKey N)) (s : PgState N)
      → Alike s (relate a (on_group_monitors dec f) s)
  unfolding relate
  relate-Alike a f s = record {
    same_members = λ j. members_of-relate dec a j (on_group_monitors dec f) s;
    same_memberships = λ x.
        ap (λ r. r.memberships) (relations_of-relate a x (on_group_monitors dec f) s)
        ∙ ground arith;
    same_index = refl;
  }

  remove_empty-Alike : (a : ℕ) (s : PgState N) → Alike s (remove_empty_actor_relations a s)
  unfolding remove_empty_actor_relations
  remove_empty-Alike a s = record {
    same_members = λ j. members_of-remove_empty dec a j s;
    same_memberships = λ x. ap (λ r. r.memberships) (relations_of-remove_empty a x s);
    same_index = refl;
  }

  Alike-chain : (s t u : PgState N) → Alike s t → Alike t u → Alike s u
  Alike-chain s t u x y = record {
    same_members = λ j. y.same_members j ∙ x.same_members j;
    same_memberships = λ a. y.same_memberships a ∙ x.same_memberships a;
    same_index = y.same_index ∙ x.same_index;
  }

  pub monitor-Alike :
      (live : Bool) (key : ScopeGroupKey N) (a : ℕ) (s : PgState N)
      → Alike s (monitor dec live key a s)
  unfolding monitor
  monitor-Alike true key a s =
      Alike-chain s (relate a (on_group_monitors dec (insert (key_discrete dec) key tt)) s) _
        (relate-Alike a (insert (key_discrete dec) key tt) s) (put_listeners-Alike key _ _)
  monitor-Alike false key a s =
      Alike-chain s (put_listeners dec key (group_of dec key s).listeners s) _
        (put_listeners-Alike key _ s) (remove_empty-Alike a _)

  forget_monitor-Alike :
      (key : ScopeGroupKey N) (a : ℕ) (s : PgState N) → Alike s (forget_monitor dec key a s)
  unfolding forget_monitor
  forget_monitor-Alike key a s = elim (Bool-cases (contains_key ℕ_discrete a s.actor_relations)) [
    | inl h ↦ rw h (relate-Alike a (remove (key_discrete dec) key) s)
    | inr h ↦
        rw h (record { same_members = λ j. refl; same_memberships = λ x. refl; same_index = refl })
  ]

  pub demonitor-Alike :
      (key : ScopeGroupKey N) (a : ℕ) (s : PgState N) → Alike s (demonitor dec key a s)
  unfolding demonitor
  demonitor-Alike key a s = elim (Bool-cases (contains_key (key_discrete dec) key s.map)) [
    | inl h ↦ rw h (
        Alike-chain s (forget_monitor dec key a s) _ (forget_monitor-Alike key a s)
          (put_listeners-Alike key _ _))
    | inr h ↦ rw h (forget_monitor-Alike key a s)
  ]
