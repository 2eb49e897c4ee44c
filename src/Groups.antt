-- ===== src/Groups.antt =====
-- Process groups, ractor/src/pg.rs: the groups by scope and name, their index by scope, and the
-- reverse index of what each actor takes part in. Names are of a type `N`, actors go by their ids,
-- and an operation is taken as a whole.
pub mod Effects
pub mod Loops
pub mod Places
pub mod Monitors
pub mod Enrolled
use ractor.Prelude.{
  ℕ, Bool, true, false, not, ◌&&◌, Option, none, some, List, [], ◌∷◌, ◌++◌, map, keep, any,
  if◌then◌else◌, ◌==◌, ℕ_discrete, is_empty,
}
use ractor.Prelude.Map.{Map, Set, lookup, insert, remove, contains_key, keys}
use mathlib.Core.HLevel.{×_discrete}

-- A scope and a group's name.
abbrev pub ScopeGroupKey : Type 0 → Type 0
ScopeGroupKey N = N × N

abbrev pub key_discrete : {N : Type 0} → Discrete N → Discrete (ScopeGroupKey N)
key_discrete dec = ×_discrete dec dec

pub record GroupState : Type 0 where
  pub members : Set ℕ
  pub listeners : List ℕ

pub record ActorRelations (N : Type 0) : Type 0 where
  pub memberships : Set (ScopeGroupKey N)
  pub group_monitors : Set (ScopeGroupKey N)
  pub world_monitors : Set (ScopeGroupKey N)

pub record PgState (N : Type 0) : Type 0 where
  pub map : Map (ScopeGroupKey N) GroupState
  pub index : Map N (Set N)
  pub world_listeners : Map (ScopeGroupKey N) (List ℕ)
  pub actor_relations : Map ℕ (ActorRelations N)

pub data GroupChangeMessage (N : Type 0) : Type 0 where
  join leave : ScopeGroupKey N → List ℕ → GroupChangeMessage N

-- The names that monitors of all groups and of all scopes go by.
pub record Sentinels (N : Type 0) : Type 0 where
  pub all_scopes : N
  pub all_groups : N

-- What a listener is sent.
abbrev pub Notice : Type 0 → Type 0
Notice N = ℕ × GroupChangeMessage N

unfoldable pub default_group : GroupState
default_group = record { members = []; listeners = [] }

abbrev pub or_else : {A : Type 0} → A → Option A → A
or_else a none = a
or_else a (some b) = b

unfoldable pub tell_all : {N : Type 0} → GroupChangeMessage N → List ℕ → List (Notice N)
tell_all change listeners = map (λ listener. (listener, change)) listeners

unfoldable pub add_members : List ℕ → Set ℕ → Set ℕ
add_members [] members = members
add_members (a ∷ actors) members = add_members actors (insert ℕ_discrete a tt members)

unfoldable pub remove_members : List ℕ → Set ℕ → Set ℕ
remove_members [] members = members
remove_members (a ∷ actors) members = remove_members actors (remove ℕ_discrete a members)

module _ {N : Type 0} where
  unfoldable pub no_relations : ActorRelations N
  no_relations = record { memberships = []; group_monitors = []; world_monitors = [] }

  -- `ActorRelations::is_empty`.
  unfoldable pub relations_empty : ActorRelations N → Bool
  relations_empty r =
      is_empty r.memberships && (is_empty r.group_monitors && is_empty r.world_monitors)

  unfoldable pub relations_of : ℕ → PgState N → ActorRelations N
  relations_of a s = or_else no_relations (lookup ℕ_discrete a s.actor_relations)

  -- An entry that there is, or one that is made, is changed.
  unfoldable pub relate : ℕ → (ActorRelations N → ActorRelations N) → PgState N → PgState N
  relate a change s = record s {
    actor_relations = insert ℕ_discrete a (change (relations_of a s)) s.actor_relations;
  }

  unfoldable pub remove_empty_actor_relations : ℕ → PgState N → PgState N
  remove_empty_actor_relations a s = record s {
    actor_relations =
        if relations_empty (relations_of a s)
        then remove ℕ_discrete a s.actor_relations
        else s.actor_relations;
  }

module _ {N : Type 0} (dec : Discrete N) where
  unfoldable pub group_of : ScopeGroupKey N → PgState N → GroupState
  group_of key s = or_else default_group (lookup (key_discrete dec) key s.map)

  -- An entry is written back, or goes where the group has neither members nor listeners.
  unfoldable pub put_group : ScopeGroupKey N → GroupState → PgState N → PgState N
  put_group key g s = record s {
    map =
        if is_empty g.members && is_empty g.listeners
        then remove (key_discrete dec) key s.map
        else insert (key_discrete dec) key g s.map;
  }

  unfoldable pub indexed : N → PgState N → Set N
  indexed scope s = or_else [] (lookup dec scope s.index)

  unfoldable pub add_group_to_index : ScopeGroupKey N → PgState N → PgState N
  add_group_to_index key s = record s {
    index = insert dec key.0 (insert dec key.1 tt (indexed key.0 s)) s.index;
  }

  unfoldable pub remove_group_from_index : ScopeGroupKey N → PgState N → PgState N
  remove_group_from_index key s =
      let groups = remove dec key.1 (indexed key.0 s) in
      record s {
        index =
            if is_empty groups then remove dec key.0 s.index else insert dec key.0 groups s.index;
      }

  unfoldable pub notify_world_listeners :
      Sentinels N → ScopeGroupKey N → GroupChangeMessage N → PgState N → List (Notice N)
  notify_world_listeners names key change s =
      tell_all change
        (or_else [] (lookup (key_discrete dec) (key.0, names.all_groups) s.world_listeners))
      ++ tell_all change (
          or_else []
            (lookup (key_discrete dec) (names.all_scopes, names.all_groups) s.world_listeners))

  abbrev pub on_memberships :
      (Set (ScopeGroupKey N) → Set (ScopeGroupKey N)) → ActorRelations N → ActorRelations N
  on_memberships f r = record r { memberships = f r.memberships }

  -- Whether an actor is stopping is read again, as `live`. A repeated actor changes nothing more.
  unfoldable pub accept_one : (ℕ → Bool) → ScopeGroupKey N → ℕ → PgState N → PgState N
  accept_one live key a s =
      if live a
      then relate a (on_memberships (insert (key_discrete dec) key tt)) s
      else remove_empty_actor_relations a s

  unfoldable pub accept_all : (ℕ → Bool) → ScopeGroupKey N → List ℕ → PgState N → PgState N
  accept_all live key [] s = s
  accept_all live key (a ∷ actors) s = accept_all live key actors (accept_one live key a s)

  unfoldable pub join_accepted : ScopeGroupKey N → List ℕ → PgState N → PgState N
  join_accepted key joined s =
      let g = group_of key s in
      let s' = put_group key (record g { members = add_members joined g.members }) s in
      if is_empty joined then s' else add_group_to_index key s'

  -- `join_scoped`; `live_before` and `live` tell who is not stopping at the two points at which the
  -- code asks.
  unfoldable pub join_scoped :
      Sentinels N
      → (ℕ → Bool)
      → (ℕ → Bool)
      → ScopeGroupKey N
      → List ℕ
      → PgState N
      → PgState N × List (Notice N)
  join_scoped names live_before live key actors s =
      let asked = keep live_before actors in
      let joined = keep live asked in
      let s' = join_accepted key joined (accept_all live key asked s) in
      if is_empty asked then (s, []) else if is_empty joined then (s', []) else (
        s',
        tell_all (join key joined) (group_of key s).listeners
            ++ notify_world_listeners names key (join key joined) s',
      )

  unfoldable pub drop_one : ScopeGroupKey N → ℕ → PgState N → PgState N
  drop_one key a s =
      if contains_key ℕ_discrete a s.actor_relations
      then relate a (on_memberships (remove (key_discrete dec) key)) s
      else s

  unfoldable pub drop_memberships : ScopeGroupKey N → List ℕ → PgState N → PgState N
  drop_memberships key [] s = s
  drop_memberships key (a ∷ actors) s = drop_memberships key actors (drop_one key a s)

  -- The members of a group that has an entry are replaced.
  unfoldable pub put_members : ScopeGroupKey N → Set ℕ → PgState N → PgState N
  put_members key members s =
      let s' = put_group key (record (group_of key s) { members = members }) s in
      if is_empty members then remove_group_from_index key s' else s'

  unfoldable pub leave_scoped :
      Sentinels N → ScopeGroupKey N → List ℕ → PgState N → PgState N × List (Notice N)
  leave_scoped names key actors s =
      let g = group_of key s in
      let s' = put_members key (remove_members actors g.members) (drop_memberships key actors s) in
      if contains_key (key_discrete dec) key s.map
      then (
        s',
        tell_all (leave key actors) g.listeners
            ++ notify_world_listeners names key (leave key actors) s',
      )
      else (s, [])

  -- One group that a stopping actor is in; what was left, with the group's listeners.
  unfoldable pub leave_one :
      ℕ → ScopeGroupKey N → PgState N → PgState N × List (ScopeGroupKey N × List ℕ)
  leave_one a key s =
      let g = group_of key s in
      if contains_key ℕ_discrete a g.members
      then (put_members key (remove ℕ_discrete a g.members) s, (key, g.listeners) ∷ [])
      else (s, [])

  unfoldable pub leave_each :
      ℕ → List (ScopeGroupKey N) → PgState N → PgState N × List (ScopeGroupKey N × List ℕ)
  leave_each a [] s = (s, [])
  leave_each a (key ∷ ks) s =
      let (s', removed) = leave_one a key s in
      let (s'', later) = leave_each a ks s' in (s'', removed ++ later)

  unfoldable pub announce_removals :
      Sentinels N → ℕ → List (ScopeGroupKey N × List ℕ) → PgState N → List (Notice N)
  announce_removals names a [] s = []
  announce_removals names a ((key, listeners) ∷ removals) s =
      tell_all (leave key (a ∷ [])) listeners
      ++ (notify_world_listeners names key (leave key (a ∷ [])) s
          ++ announce_removals names a removals s)

  unfoldable pub leave_all : Sentinels N → ℕ → PgState N → PgState N × List (Notice N)
  leave_all names a s =
      let memberships = keys (relations_of a s).memberships in
      let (s', removals) = leave_each a memberships (relate a (on_memberships (λ m. [])) s) in
      if contains_key ℕ_discrete a s.actor_relations
      then (remove_empty_actor_relations a s', announce_removals names a removals s')
      else (s, [])

module _ {N : Type 0} (dec : Discrete N) where
  abbrev pub add_listener : ℕ → List ℕ → List ℕ
  add_listener a listeners = if any listeners (λ l. l == a) then listeners else listeners ++ a ∷ []

  abbrev pub drop_listener : ℕ → List ℕ → List ℕ
  drop_listener a listeners = keep (λ l. not (l == a)) listeners

  abbrev pub on_group_monitors :
      (Set (ScopeGroupKey N) → Set (ScopeGroupKey N)) → ActorRelations N → ActorRelations N
  on_group_monitors f r = record r { group_monitors = f r.group_monitors }

  -- The listeners of a group are replaced.
  unfoldable pub put_listeners : ScopeGroupKey N → List ℕ → PgState N → PgState N
  put_listeners key listeners s =
      put_group dec key (record (group_of dec key s) { listeners = listeners }) s

  -- `monitor`, for an actor of which `live` tells whether it is not stopping.
  unfoldable pub monitor : Bool → ScopeGroupKey N → ℕ → PgState N → PgState N
  monitor true key a s =
      put_listeners key (add_listener a (group_of dec key s).listeners)
        (relate a (on_group_monitors (insert (key_discrete dec) key tt)) s)
  monitor false key a s =
      remove_empty_actor_relations a (put_listeners key (group_of dec key s).listeners s)

  unfoldable pub forget_monitor : ScopeGroupKey N → ℕ → PgState N → PgState N
  forget_monitor key a s =
      if contains_key ℕ_discrete a s.actor_relations
      then relate a (on_group_monitors (remove (key_discrete dec) key)) s
      else s

  unfoldable pub demonitor : ScopeGroupKey N → ℕ → PgState N → PgState N
  demonitor key a s =
      let s' = forget_monitor key a s in
      if contains_key (key_discrete dec) key s.map
      then put_listeners key (drop_listener a (group_of dec key s).listeners) s'
      else s'

-- What happens to the groups, in its order. A join comes with who is not stopping as it asks.
pub data GroupOperation (N : Type 0) : Type 0 where
  joining : (ℕ → Bool) → (ℕ → Bool) → ScopeGroupKey N → List ℕ → GroupOperation N
  leaving : ScopeGroupKey N → List ℕ → GroupOperation N
  leaving_all : ℕ → GroupOperation N
  monitoring : Bool → ScopeGroupKey N → ℕ → GroupOperation N
  demonitoring : ScopeGroupKey N → ℕ → GroupOperation N

-- `get_monitor`, at first.
unfoldable pub new_groups : {N : Type 0} → PgState N
new_groups = record { map = []; index = []; world_listeners = []; actor_relations = [] }

module _ {N : Type 0} (dec : Discrete N) where
  unfoldable pub perform_group : Sentinels N → GroupOperation N → PgState N → PgState N
  perform_group names (joining live_before live key actors) s =
      (join_scoped dec names live_before live key actors s).0
  perform_group names (leaving key actors) s = (leave_scoped dec names key actors s).0
  perform_group names (leaving_all a) s = (leave_all dec names a s).0
  perform_group names (monitoring live key a) s = monitor dec live key a s
  perform_group names (demonitoring key a) s = demonitor dec key a s

  unfoldable pub perform_groups : Sentinels N → List (GroupOperation N) → PgState N → PgState N
  perform_groups names [] s = s
  perform_groups names (op ∷ ops) s = perform_groups names ops (perform_group names op s)
