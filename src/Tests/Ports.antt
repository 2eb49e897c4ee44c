-- ===== src/Tests/Ports.antt =====
-- Output ports, frames, byte conversions and the registries.
use ractor.Prelude.{
  ℕ, ℕ_discrete, ◌≡◌, refl, true, ◌&&◌, none, some, List, [], ◌∷◌, ◌==◌, ltb, if◌then◌else◌, arith,
  length,
}
use ractor.Port.{
  Subscriber, OutportMessage, published, set_subscriber, Received, value, lagged, closed, run_task,
  no_subscribers, subscription, serve,
}
use ractor.Port.Segments.{Same}
use ractor.Port.Fates.{fates, run_task-fates}
use ractor.Port.Broadcast.{heard, goes_on, subscription-serve}
use ractor.Serialization.{numerics, value_into_bytes, value_from_bytes}
use ractor.Serialization.RoundTrip.{value_from_bytes-value_into_bytes}
use ractor.Prelude.Map.{lookup, insert}
use ractor.Actor.Status.{stopping, at_least, status_to_u8}
use ractor.Actor.Registry.{
  id_discrete, register_name, register, register_pid, is_local, put_cell, local, remote, Registries,
  where_is, new_cell, new_remote, set_cell_status, RegistryOperation, creating, creating_remote,
  setting, monitoring, operate_all, new_registries,
}
use ractor.Actor.Registry.Living.{Registered, live}
use ractor.Actor.Registry.Registered.{operate_all-Registered}
use ractor.Actor.Registry.Clash.{set_cell_status-clash}

-- Takes two messages, and none of them a 3.
abbrev listener : ℕ → Subscriber ℕ ℕ ℕ
listener i = record {
  id = i;
  filter = λ m. if m == 3 then none else some m;
  accepts = λ taken m. ltb (length taken) 2;
  received = [];
}

abbrev stream : List (OutportMessage ℕ ℕ ℕ)
stream =
    set_subscriber (some (listener 1))
    ∷ published 1
    ∷ published 3
    ∷ set_subscriber (some (listener 2))
    ∷ published 4
    ∷ published 5
    ∷ []

abbrev turns : List ℕ
turns = 4 ∷ 0 ∷ 2 ∷ 1 ∷ 1 ∷ 1 ∷ []

run_task-fates_example :
    Same (run_task ℕ_discrete true turns stream no_subscribers).1 (fates stream)
run_task-fates_example = run_task-fates ℕ_discrete turns stream (omega arith)

abbrev channel : List (Received ℕ)
channel = value 1 ∷ lagged ∷ value 2 ∷ closed ∷ value 4 ∷ []

subscription-serve_example :
    ((subscription channel (listener 1)).0 ≡ (serve (heard channel) (listener 1)).0)
    × ((subscription channel (listener 1)).1
        ≡ (serve (heard channel) (listener 1)).1 && goes_on channel)
subscription-serve_example = subscription-serve channel (listener 1)

value_from_bytes-value_into_bytes_example :
    value_from_bytes (numerics 2) (value_into_bytes (numerics 2) (513 ∷ 7 ∷ []))
    ≡ some (513 ∷ 7 ∷ [])
value_from_bytes-value_into_bytes_example =
    value_from_bytes-value_into_bytes (numerics 2) (513 ∷ 7 ∷ [])
      (omega arith, (omega arith, (omega arith, tt)))

-- Two actors ask for one name, of which the first stops.
abbrev life : List (RegistryOperation ℕ)
life =
    creating (some 5)
    ∷ creating (some 5)
    ∷ creating none
    ∷ creating_remote none (remote 1 0)
    ∷ monitoring (local 1)
    ∷ setting stopping (local 0)
    ∷ creating (some 5)
    ∷ []

operate_all-Registered_example : Registered ℕ_discrete (operate_all ℕ_discrete life new_registries)
operate_all-Registered_example =
    operate_all-Registered ℕ_discrete life (tt, (tt, (tt, (tt, (tt, (tt, (tt, tt)))))))

abbrev named : Registries ℕ
named = (new_cell ℕ_discrete (some 5) new_registries).1

set_cell_status-clash_example :
    (where_is ℕ_discrete 5 (
        set_cell_status ℕ_discrete stopping
          (remote 2 9)
          (new_remote ℕ_discrete (some 5) (remote 2 9) named).1)
      ≡ none)
    × (live (local 0) (
          set_cell_status ℕ_discrete stopping
            (remote 2 9)
            (new_remote ℕ_discrete (some 5) (remote 2 9) named).1)
        ≡ true)
unfolding where_is live at_least new_cell lookup register_name register register_pid is_local
    put_cell insert ℕ_discrete status_to_u8 id_discrete
set_cell_status-clash_example =
    set_cell_status-clash ℕ_discrete 5 0 2 9 stopping named refl refl refl
