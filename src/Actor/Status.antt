-- ===== src/Actor/Status.antt =====
-- The status of an actor, `ActorStatus` of ractor/src/actor/actor_cell.rs, as
-- ractor/src/actor/actor_properties.rs keeps it: a number that only grows.
use ractor.Prelude.{ℕ, Bool, leb, if◌then◌else◌}

pub data ActorStatus : Type 0 where
  unstarted starting running upgrading draining stopping stopped : ActorStatus

unfoldable pub status_to_u8 : ActorStatus → ℕ
status_to_u8 unstarted = 0
status_to_u8 starting = 1
status_to_u8 running = 2
status_to_u8 upgrading = 3
status_to_u8 draining = 4
status_to_u8 stopping = 5
status_to_u8 stopped = 6

-- `>=` on `ActorStatus`.
unfoldable pub at_least : ActorStatus → ActorStatus → Bool
at_least bound status = leb (status_to_u8 bound) (status_to_u8 status)

-- `fetch_max`.
unfoldable pub advance : ActorStatus → ActorStatus → ActorStatus
advance status current = if at_least current status then status else current
