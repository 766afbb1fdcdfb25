-- ===== src/Coordinator.antt =====
-- coordinator.py: the state of `UnifiUnasCoordinator`, what the calls of the client give, and the
-- world that its methods change: the coordinator, the client, the clocks and the repairs issues.
-- No other task changes the coordinator while one of its methods waits for a call.
pub mod Connection
pub mod Targets
pub mod Inventory
pub mod Refresh
pub mod Optional
pub mod Poll
pub mod Client
use ha_unifi_drive.Prelude.{ℕ, String, Bool, true, false, Option, none, some, List, [], Dict}
use ha_unifi_drive.Payload.{Value}
use ha_unifi_drive.Api.Session.{ApiError, Session}
use ha_unifi_drive.Api.Backup.{BackupTask}

-- How a call ends without a result: by an exception of the client, by another `RuntimeError`,
-- `TypeError` or `ValueError`, by an exception of no such class, or by the cancellation of the
-- timeout around it.
pub data Failure : Type 0 where
  api : ApiError → Failure
  unexpected : String → Failure
  uncaught : String → Failure
  cancelled : Failure

pub data Outcome {ℓ} (A : Type ℓ) : Type ℓ where
  returned : A → Outcome A
  stopped : Failure → Outcome A

-- The client with the requests it has sent, and the clocks: `datetime.now(UTC)` in seconds, and
-- `loop.time()` in ticks of the event loop's clock.
pub record Link : Type 0 where
  pub session : Session
  pub utc_now : ℕ
  pub loop_time : ℕ

abbrev pub Call {ℓ} : Type ℓ → Type ℓ
Call A = Link → Outcome A × Link

-- The methods of the client that the coordinator awaits.
pub record ClientCalls (Inventory : Type 0) : Type 0 where
  pub get_storage : Call (Dict Value)
  pub get_fan_mode : Call (Option String)
  pub get_backup_tasks : Call (List BackupTask)
  pub get_snapshot_settings : Call (List (Dict Value))
  pub get_inventory_target : Dict Value → Call Inventory

-- What is logged of the connection: that it is restored, that a first failure is tolerated, and that
-- the device is unavailable.
pub data LogLine : Type 0 where
  restored kept_online unavailable : LogLine

-- The attributes of the coordinator. `cached` is `self.data`, which the base class holds; a set or
-- an ordered dict of `None` is a list of different keys; the log has the newest line first.
pub record Coordinator (Inventory : Type 0) : Type 0 where
  pub cached : Option (Dict Value)
  pub fan_control_enabled : Bool
  pub snapshot_buttons_enabled : Bool
  pub is_device_online : Bool
  pub fan_mode : Option String
  pub backup_tasks : List BackupTask
  pub snapshot_settings : List (Dict Value)
  pub snapshot_settings_available : Bool
  pub inventory : Dict Inventory
  pub inventory_errors : Dict String
  pub skip_reasons : Dict String
  pub connection_failure_count : ℕ
  pub transient_logged : Bool
  pub offline_logged : Bool
  pub last_refresh : Option ℕ
  pub refresh_requested : Bool
  pub target_keys : List String
  pub pending_targets : Option (List String)
  pub batch_started : Option ℕ
  pub first_refresh_core_only : Bool
  pub refreshing : Bool
  pub optional_timed_out : Bool
  pub log : List LogLine

-- `__init__`, for the settings of the entry that it reads.
unfoldable pub new_coordinator : {Inventory : Type 0} → Bool → Bool → Coordinator Inventory
new_coordinator fan buttons = record {
  cached = none;
  fan_control_enabled = fan;
  snapshot_buttons_enabled = buttons;
  is_device_online = true;
  fan_mode = none;
  backup_tasks = [];
  snapshot_settings = [];
  snapshot_settings_available = false;
  inventory = [];
  inventory_errors = [];
  skip_reasons = [];
  connection_failure_count = 0;
  transient_logged = false;
  offline_logged = false;
  last_refresh = none;
  refresh_requested = false;
  target_keys = [];
  pending_targets = none;
  batch_started = none;
  first_refresh_core_only = false;
  refreshing = false;
  optional_timed_out = false;
  log = [];
}
