-- ===== src/Actor/Registry/Opened.antt =====
-- What the creation of an actor (`ActorCell::new` of ractor/src/actor/actor_cell.rs) does to the
-- registries.
use mathlib.Core.Logic.{ite}
use ractor.Prelude.{
  ◌+◌, ◌≡◌, refl, ◌∙◌, inl, inr, Bool-cases, true, false, Option, none, some, arith,
}
use ractor.Prelude.Map.{contains_key, lookup-insert}
use ractor.Actor.Status.{unstarted}
use ractor.Actor.Registry.{
  ActorId, local, is_local, id_discrete, Registries, put_cell, register_pid, register, where_is,
  register_name, new_cell,
}
use ractor.Actor.Registry.Living.{live, Registered, unstarted_below}

module _ {N : Type 0} (dec : Discrete N) where
  -- A name that `register_name` takes leads to the actor; no other name is changed.
  unfoldable with_name : Option N → ActorId → N → Option ActorId → Option ActorId
  with_name none id n found = found
  with_name (some m) id n found = ite (dec m n) (some id) found

  -- What the registration of a new cell leaves.
  record Opened (name : Option N) (s t : Registries N) : Type 0 where
    opened_cells :
        (j : ActorId)
        → t.cells j
          ≡ ite
              (id_discrete (local s.next_id) j)
              (record { name = name; status = unstarted })
              (s.cells j)
    opened_names :
        (n : N) → where_is dec n t ≡ with_name name (local s.next_id) n (where_is dec n s)
    opened_pids :
        (j : ActorId)
        → contains_key id_discrete j t.pids
          ≡ ite (id_discrete (local s.next_id) j) true (contains_key id_discrete j s.pids)
    opened_next : t.next_id ≡ s.next_id + 1

  -- A refusal gives the id away and changes nothing else.
  record Refused (s t : Registries N) : Type 0 where
    refused_cells : t.cells ≡ s.cells
    refused_names : t.names ≡ s.names
    refused_pids : t.pids ≡ s.pids
    refused_next : t.next_id ≡ s.next_id + 1

  Refused-Registered : (s t : Registries N) → Refused s t → Registered dec s → Registered dec t
  unfolding live where_is
  Refused-Registered s t k r = record {
    name_live = λ n j h. ground (arith, k.refused_cells, k.refused_names, r.name_live n j);
    name_of = λ n j h. ground (arith, k.refused_cells, k.refused_names, r.name_of n j);
    name_local = λ n j h. ground (arith, k.refused_names, r.name_local n j);
    live_name = λ n j h e. ground (arith, k.refused_cells, k.refused_names, r.live_name n j);
    known = λ j. ground (arith, k.refused_cells, k.refused_pids, r.known j);
    fresh = λ pid h. ground (arith, k.refused_cells, k.refused_next, r.fresh pid);
  }

  -- The name is vacant, where there is one.
  Vacant : Option N → Registries N → Type 0
  Vacant name s = (n : N) → name ≡ some n → where_is dec n s ≡ none

  Opened-Registered :
      (name : Option N) (s t : Registries N)
      → Vacant name s
      → Opened name s t
      → Registered dec s
      → Registered dec t
  unfolding live with_name is_local Vacant
  Opened-Registered name s t v k r = record {
    name_live = λ n j h. ground (
      arith,
      unstarted_below,
      k.opened_cells j,
      k.opened_names n,
      r.name_live n j,
      r.fresh s.next_id,
    );
    name_of = λ n j h. ground (
      arith,
      k.opened_cells j,
      k.opened_names n,
      r.name_of n j,
      r.name_live n j,
      r.fresh s.next_id,
    );
    name_local = λ n j h. ground (arith, k.opened_names n, r.name_local n j);
    live_name = λ n j h e. ground (arith, k.opened_cells j, k.opened_names n, r.live_name n j, v n);
    known = λ j. ground (arith, unstarted_below, k.opened_cells j, k.opened_pids j, r.known j);
    fresh = λ pid h. ground (arith, k.opened_cells (local pid), k.opened_next, r.fresh pid);
  }

  new_pid :
      (s : Registries N)
      → Registered dec s
      → contains_key id_discrete (local s.next_id) s.pids ≡ false
  unfolding is_local
  new_pid s r = r.known (local s.next_id) ∙ r.fresh s.next_id (omega arith)

  new_unnamed-Opened : (s : Registries N) → Registered dec s → Opened none s (new_cell dec none s).1
  unfolding new_cell register_name register_pid put_cell is_local where_is with_name
  new_unnamed-Opened s r = rw (new_pid s r) (record {
    opened_cells = λ j. refl;
    opened_names = λ n. refl;
    opened_pids = λ j. ground (arith, lookup-insert id_discrete (local s.next_id) j tt s.pids);
    opened_next = refl;
  })

  new_named-Opened :
      (m : N) (s : Registries N)
      → Registered dec s
      → contains_key dec m s.names ≡ false
      → Opened (some m) s (new_cell dec (some m) s).1
  unfolding new_cell register_name register register_pid put_cell is_local where_is with_name
  new_named-Opened m s r h =
      rw (new_pid s r, h)
        (record {
          opened_cells = λ j. refl;
          opened_names = λ n. lookup-insert dec m n (local s.next_id) s.names;
          opened_pids =
              λ j. ground (arith, lookup-insert id_discrete (local s.next_id) j tt s.pids);
          opened_next = refl;
        })

  new_named-Refused :
      (m : N) (s : Registries N)
      → contains_key dec m s.names ≡ true
      → Refused s (new_cell dec (some m) s).1
  unfolding new_cell register_name register
  new_named-Refused m s h = rw h (record {
    refused_cells = refl;
    refused_names = refl;
    refused_pids = refl;
    refused_next = refl;
  })

  none_is-Vacant : (s : Registries N) → Vacant none s
  unfolding Vacant
  none_is-Vacant s n e = absurd (ground arith)

  absent-Vacant :
      (m : N) (s : Registries N) → contains_key dec m s.names ≡ false → Vacant (some m) s
  unfolding Vacant where_is
  absent-Vacant m s h n e = ground arith

  pub new_cell-Registered :
      (name : Option N) (s : Registries N)
      → Registered dec s
      → Registered dec (new_cell dec name s).1
  new_cell-Registered none s r =
      Opened-Registered none s _ (none_is-Vacant s) (new_unnamed-Opened s r) r
  new_cell-Registered (some m) s r = elim (Bool-cases (contains_key dec m s.names)) [
    | inl taken ↦ Refused-Registered s _ (new_named-Refused m s taken) r
    | inr free ↦
        Opened-Registered (some m) s _ (absent-Vacant m s free) (new_named-Opened m s r free) r
  ]
