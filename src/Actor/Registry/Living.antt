-- ===== src/Actor/Registry/Living.antt =====
-- The living actors of the registries (ractor/src/registry.rs), and what `ActorCell::set_status` of
-- ractor/src/actor/actor_cell.rs does to them.
use mathlib.Core.Logic.{ite}
use ractor.Prelude.{
  ℕ, ◌≤◌, ◌≡◌, ◌≢◌, refl, ap, ◌∙◌, inl, inr, Bool-cases, Bool, true, false, not, ◌&&◌, ◌||◌, Option,
  none, some, arith, if◌then◌else◌,
}
use ractor.Prelude.Map.{contains_key, lookup-remove}
use ractor.Actor.Status.{ActorStatus, unstarted, stopping, at_least, advance, status_to_u8}
use ractor.Actor.Registry.{
  ActorId, local, is_local, id_discrete, Registries, put_cell, unregister_pid, demonitor_pids,
  unregister, where_is, unregister_name, clean_up, ends, set_cell_status,
}

unfoldable pub live : {N : Type 0} → ActorId → Registries N → Bool
live id s = not (at_least stopping (s.cells id).status)

-- A name leads to the actor that lives and has it; an id is known exactly if it is that of a local
-- actor that lives; and the ids to come are new.
pub record Registered {N : Type 0} (dec : Discrete N) (s : Registries N) : Type 0 where
  pub name_live : (name : N) (id : ActorId) → where_is dec name s ≡ some id → live id s ≡ true
  pub name_of :
      (name : N) (id : ActorId) → where_is dec name s ≡ some id → (s.cells id).name ≡ some name
  pub name_local : (name : N) (id : ActorId) → where_is dec name s ≡ some id → is_local id ≡ true
  pub live_name :
      (name : N) (id : ActorId)
      → live id s ≡ true
      → (s.cells id).name ≡ some name
      → where_is dec name s ≡ some id
  pub known : (id : ActorId) → contains_key id_discrete id s.pids ≡ is_local id && live id s
  pub fresh : (pid : ℕ) → s.next_id ≤ pid → live (local pid) s ≡ false

pub at_least-advance :
    (status current : ActorStatus)
    → at_least stopping (advance status current)
      ≡ at_least stopping status || at_least stopping current
unfolding at_least advance
at_least-advance status current = ground arith

pub remote_not_local : (id : ActorId) (pid : ℕ) → is_local id ≡ false → id ≢ local pid
unfolding is_local
remote_not_local id pid h e = absurd (ground (arith, e))

pub unstarted_below : at_least stopping unstarted ≡ false
unfolding at_least status_to_u8
unstarted_below = refl

module _ {N : Type 0} (dec : Discrete N) where
  -- What is found under a name once an optional name is taken out.
  unfoldable pub without : Option N → N → Option ActorId → Option ActorId
  without none n found = found
  without (some m) n found = ite (dec m n) none found

  where_is-unregister_name :
      (name : Option N) (n : N) (s : Registries N)
      → where_is dec n (unregister_name dec name s) ≡ without name n (where_is dec n s)
  unfolding where_is unregister_name unregister without
  where_is-unregister_name none n s = refl
  where_is-unregister_name (some m) n s = lookup-remove dec m n s.names

  cells-unregister_name :
      (name : Option N) (s : Registries N) → (unregister_name dec name s).cells ≡ s.cells
  unfolding unregister_name unregister
  cells-unregister_name none s = refl
  cells-unregister_name (some m) s = refl

  pids-unregister_name :
      (name : Option N) (s : Registries N) → (unregister_name dec name s).pids ≡ s.pids
  unfolding unregister_name unregister
  pids-unregister_name none s = refl
  pids-unregister_name (some m) s = refl

  next-unregister_name :
      (name : Option N) (s : Registries N) → (unregister_name dec name s).next_id ≡ s.next_id
  unfolding unregister_name unregister
  next-unregister_name none s = refl
  next-unregister_name (some m) s = refl

  cells-clean_up :
      (name : Option N) (id : ActorId) (s : Registries N) → (clean_up dec name id s).cells ≡ s.cells
  unfolding clean_up unregister_pid demonitor_pids
  cells-clean_up name id s = cells-unregister_name name _

  next-clean_up :
      (name : Option N) (id : ActorId) (s : Registries N)
      → (clean_up dec name id s).next_id ≡ s.next_id
  unfolding clean_up unregister_pid demonitor_pids
  next-clean_up name id s = next-unregister_name name _

  where_is-clean_up :
      (name : Option N) (id : ActorId) (n : N) (s : Registries N)
      → where_is dec n (clean_up dec name id s) ≡ without name n (where_is dec n s)
  unfolding clean_up unregister_pid demonitor_pids where_is
  where_is-clean_up name id n s = where_is-unregister_name name n _

  contains-clean_up :
      (name : Option N) (id j : ActorId) (s : Registries N)
      → contains_key id_discrete j (clean_up dec name id s).pids ≡ (
          if is_local id
          then ite (id_discrete id j) false (contains_key id_discrete j s.pids)
          else contains_key id_discrete j s.pids)
  unfolding clean_up unregister_pid demonitor_pids
  contains-clean_up name id j s =
      ap (contains_key id_discrete j) (pids-unregister_name name _)
      ∙ ground (arith, lookup-remove id_discrete id j s.pids)

  -- What `set_cell_status` leaves of each registry.
  pub record Settled (status : ActorStatus) (id : ActorId) (s t : Registries N) : Type 0 where
    pub settled_cells :
        (j : ActorId)
        → t.cells j
          ≡ ite
              (id_discrete id j)
              (record (s.cells id) { status = advance status (s.cells id).status })
              (s.cells j)
    pub settled_names :
        (n : N)
        → where_is dec n t ≡ (
            if ends status (s.cells id).status
            then without (s.cells id).name n (where_is dec n s)
            else where_is dec n s)
    pub settled_pids :
        (j : ActorId)
        → contains_key id_discrete j t.pids ≡ (
            if ends status (s.cells id).status && is_local id
            then ite (id_discrete id j) false (contains_key id_discrete j s.pids)
            else contains_key id_discrete j s.pids)
    pub settled_next : t.next_id ≡ s.next_id

  pub set_cell_status-Settled :
      (status : ActorStatus) (id : ActorId) (s : Registries N)
      → Settled status id s (set_cell_status dec status id s)
  unfolding set_cell_status put_cell where_is
  set_cell_status-Settled status id s = elim (Bool-cases (ends status (s.cells id).status)) [
    | inl h ↦ rw h (record {
      settled_cells = λ j. ap (λ cells. cells j) (cells-clean_up (s.cells id).name id _);
      settled_names = λ n. rw h (where_is-clean_up (s.cells id).name id n _);
      settled_pids = λ j. rw h (contains-clean_up (s.cells id).name id j _);
      settled_next = next-clean_up (s.cells id).name id _;
    })
    | inr h ↦ rw h (record {
      settled_cells = λ j. refl;
      settled_names = λ n. rw h;
      settled_pids = λ j. rw h;
      settled_next = refl;
    })
  ]

  pub Settled-Registered :
      (status : ActorStatus) (id : ActorId) (s t : Registries N)
      → Settled status id s t
      → Registered dec s
      → Registered dec t
  unfolding live ends without
  Settled-Registered status id s t k r = record {
    name_live = λ n j h. ground (
      arith,
      k.settled_cells j,
      k.settled_names n,
      r.name_live n j,
      r.name_of n j,
      at_least-advance status (s.cells id).status,
    );
    name_of = λ n j h. ground (arith, k.settled_cells j, k.settled_names n, r.name_of n j);
    name_local = λ n j h. ground (arith, k.settled_names n, r.name_local n j);
    live_name = λ n j h e. ground (
      arith,
      k.settled_cells j,
      k.settled_names n,
      r.live_name n j,
      r.live_name n id,
      at_least-advance status (s.cells id).status,
    );
    known = λ j. ground (
      arith,
      k.settled_cells j,
      k.settled_pids j,
      r.known j,
      at_least-advance status (s.cells id).status,
    );
    fresh = λ pid h. ground (
      arith,
      k.settled_cells (local pid),
      k.settled_next,
      r.fresh pid,
      at_least-advance status (s.cells id).status,
    );
  }
