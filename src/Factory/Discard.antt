-- ===== src/Factory/Discard.antt =====
-- Discard settings of factories and of workers: ractor/src/factory/discard.rs.
use ractor.Prelude.{ℕ, Option, none, some}

pub data DiscardMode : Type 0 where
  oldest newest : DiscardMode

pub data DiscardReason : Type 0 where
  ttl_expired loadshed shutdown rate_limited : DiscardReason

pub data WorkerDiscardSettings : Type 0 where
  unlimited : WorkerDiscardSettings
  static : ℕ → DiscardMode → WorkerDiscardSettings

unfoldable pub update_worker_limit : ℕ → WorkerDiscardSettings → WorkerDiscardSettings
update_worker_limit new_limit unlimited = unlimited
update_worker_limit new_limit (static limit mode) = static new_limit mode

-- `WorkerDiscardSettings::get_limit_and_mode`.
unfoldable pub worker_limit_and_mode : WorkerDiscardSettings → Option (ℕ × DiscardMode)
worker_limit_and_mode unlimited = none
worker_limit_and_mode (static limit mode) = some (limit, mode)

-- The controller that computes a dynamic limit is an opaque number.
pub data DiscardSettings : Type 0 where
  unlimited : DiscardSettings
  static : ℕ → DiscardMode → DiscardSettings
  dynamic : ℕ → DiscardMode → ℕ → DiscardSettings

unfoldable pub get_worker_settings : DiscardSettings → WorkerDiscardSettings
get_worker_settings DiscardSettings.unlimited = WorkerDiscardSettings.unlimited
get_worker_settings (DiscardSettings.static limit mode) = WorkerDiscardSettings.static limit mode
get_worker_settings (DiscardSettings.dynamic limit mode updater) =
    WorkerDiscardSettings.static limit mode

-- `DiscardSettings::get_limit_and_mode`.
unfoldable pub get_limit_and_mode : DiscardSettings → Option (ℕ × DiscardMode)
get_limit_and_mode DiscardSettings.unlimited = none
get_limit_and_mode (DiscardSettings.static limit mode) = some (limit, mode)
get_limit_and_mode (DiscardSettings.dynamic limit mode updater) = some (limit, mode)
