-- ===== src/Groups/Loops.antt =====
-- What the loops over actors in `join_scoped` and `leave_scoped` (ractor/src/pg.rs) do to the actors'
-- memberships.
use ractor.Prelude.{
  ℕ, ◌≡◌, refl, ap, ◌∙◌, Bool, true, false, not, ◌&&◌, ◌||◌, Option, none, some, List, [], ◌∷◌, any,
  keep, arith, ite, ◌==◌, ℕ_discrete, is_some, if◌then◌else◌,
}
use ractor.Prelude.Map.{Set, lookup, insert, remove, contains_key, lookup-insert, lookup-remove}
use ractor.Groups.{
  ScopeGroupKey, key_discrete, ActorRelations, PgState, on_memberships, accept_one, drop_one,
  no_relations, or_else, relations_of, relate, remove_empty_actor_relations, indexed, accept_all,
  drop_memberships,
}
use ractor.Groups.Effects.{members_of, relations_of-relate, relations_of-remove_empty}

module _ {N : Type 0} (dec : Discrete N) where
  abbrev pub is_key : ScopeGroupKey N → ScopeGroupKey N → Bool
  is_key key j = ite (key_discrete dec key j) true false

  abbrev pub is_member : ScopeGroupKey N → ℕ → PgState N → Bool
  is_member key a s = contains_key ℕ_discrete a (members_of dec key s)

  abbrev pub belongs : ScopeGroupKey N → ℕ → PgState N → Bool
  belongs key a s = contains_key (key_discrete dec) key (relations_of a s).memberships

  abbrev pub is_listed : N → N → PgState N → Bool
  is_listed scope group s = contains_key dec group (indexed dec scope s)

  -- What the loops over actors leave as it is.
  unfoldable pub Same : PgState N → PgState N → Type 0
  Same s s' = (s'.map ≡ s.map) × (s'.index ≡ s.index)

  pub accept_all-Same :
      (live : ℕ → Bool) (key : ScopeGroupKey N) (actors : List ℕ) (s : PgState N)
      → Same s (accept_all dec live key actors s)
  unfolding Same accept_all accept_one relate remove_empty_actor_relations
  accept_all-Same live key [] s = (refl, refl)
  accept_all-Same live key (a ∷ actors) s =
      let (m, i) = accept_all-Same live key actors (accept_one dec live key a s) in
      (m ∙ ground arith, i ∙ ground arith)

  pub drop_memberships-Same :
      (key : ScopeGroupKey N) (actors : List ℕ) (s : PgState N)
      → Same s (drop_memberships dec key actors s)
  unfolding Same drop_memberships drop_one relate
  drop_memberships-Same key [] s = (refl, refl)
  drop_memberships-Same key (a ∷ actors) s =
      let (m, i) = drop_memberships-Same key actors (drop_one dec key a s) in
      (m ∙ ground arith, i ∙ ground arith)

  pub belongs-relate :
      (a x : ℕ) (j : ScopeGroupKey N) (f : Set (ScopeGroupKey N) → Set (ScopeGroupKey N))
      (s : PgState N)
      → belongs j x (relate a (on_memberships dec f) s) ≡ (
          if a == x
          then contains_key (key_discrete dec) j (f (relations_of x s).memberships)
          else belongs j x s)
  belongs-relate a x j f s =
      ap (λ r. contains_key (key_discrete dec) j r.memberships)
        (relations_of-relate a x (on_memberships dec f) s)
      ∙ ground arith

  pub belongs-accept_one :
      (live : ℕ → Bool) (key j : ScopeGroupKey N) (x a : ℕ) (s : PgState N)
      → belongs j x (accept_one dec live key a s)
        ≡ belongs j x s || (is_key key j && (live a && (a == x)))
  unfolding accept_one
  belongs-accept_one live key j x a s = ground (
    arith,
    belongs-relate a x j (insert (key_discrete dec) key tt) s,
    ap (λ r. contains_key (key_discrete dec) j r.memberships) (relations_of-remove_empty a x s),
    lookup-insert (key_discrete dec) key j tt (relations_of x s).memberships,
  )

  pub belongs-accept_all :
      (live : ℕ → Bool) (key j : ScopeGroupKey N) (x : ℕ) (actors : List ℕ) (s : PgState N)
      → belongs j x (accept_all dec live key actors s)
        ≡ belongs j x s || (is_key key j && any (keep live actors) (λ a. a == x))
  unfolding accept_all
  belongs-accept_all live key j x [] s = ground arith
  belongs-accept_all live key j x (a ∷ actors) s = ground (
    arith,
    belongs-accept_all live key j x actors (accept_one dec live key a s),
    belongs-accept_one live key j x a s,
  )

  -- An actor without an entry belongs nowhere.
  pub belongs_absent :
      (j : ScopeGroupKey N) (x : ℕ) (s : PgState N)
      → contains_key ℕ_discrete x s.actor_relations ≡ false
      → belongs j x s ≡ false
  unfolding relations_of no_relations lookup
  belongs_absent j x s h = by_entry (lookup ℕ_discrete x s.actor_relations) h
    where
      by_entry :
          (found : Option (ActorRelations N))
          → is_some found ≡ false
          → contains_key (key_discrete dec) j (or_else no_relations found).memberships ≡ false
      by_entry none e = refl
      by_entry (some r) e = ground arith

  pub belongs-drop_one :
      (key j : ScopeGroupKey N) (x a : ℕ) (s : PgState N)
      → belongs j x (drop_one dec key a s) ≡ belongs j x s && not (is_key key j && (a == x))
  unfolding drop_one
  belongs-drop_one key j x a s = ground (
    arith,
    belongs-relate a x j (remove (key_discrete dec) key) s,
    lookup-remove (key_discrete dec) key j (relations_of x s).memberships,
    belongs_absent j x s,
  )

  pub belongs-drop_memberships :
      (key j : ScopeGroupKey N) (x : ℕ) (actors : List ℕ) (s : PgState N)
      → belongs j x (drop_memberships dec key actors s)
        ≡ belongs j x s && not (is_key key j && any actors (λ a. a == x))
  unfolding drop_memberships
  belongs-drop_memberships key j x [] s = ground arith
  belongs-drop_memberships key j x (a ∷ actors) s = ground (
    arith,
    belongs-drop_memberships key j x actors (drop_one dec key a s),
    belongs-drop_one key j x a s,
  )
