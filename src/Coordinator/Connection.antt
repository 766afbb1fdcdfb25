-- ===== src/Coordinator/Connection.antt =====
-- coordinator.py: what a poll does with a connection that fails or is back.
pub mod Laws
pub mod Published
use ha_unifi_drive.Prelude.{
  ℕ, suc, String, Bool, true, false, ◌&&◌, Option, none, some, List, [], ◌∷◌, Dict, ltb, insert,
  if◌then◌else◌,
}
use ha_unifi_drive.Payload.{Value, str, dict, get, as_dict, fields_of}
use ha_unifi_drive.Api.Session.{cannot_connect, invalid_auth, unexpected_response}
use ha_unifi_drive.Coordinator.{
  Failure, api, Outcome, returned, stopped, Coordinator, LogLine, restored, kept_online,
  unavailable,
}

-- What `_async_update_data` gives the base class: data, an `UpdateFailed` with its text, a
-- `ConfigEntryAuthFailed`, or an exception that passes through.
pub data Update : Type 0 where
  ready : Dict Value → Update
  update_failed : String → Update
  auth_failed : Update
  passed_on : Failure → Update

abbrev pub failures_before_offline : ℕ
failures_before_offline = 2

abbrev pub system_of : Option (Dict Value) → Dict Value
system_of none = []
system_of (some system) = system

-- `_with_offline_status`
unfoldable pub with_offline_status : Dict Value → Dict Value
with_offline_status payload =
    let system = system_of (as_dict (get payload "_system")) in
    insert "_system" (dict (fields_of (insert "status" (str "offline") system))) payload

-- A line that is logged unless the flag says it is.
abbrev log_once : Bool → LogLine → List LogLine → List LogLine
log_once logged line log = if logged then log else line ∷ log

module _ {Inventory : Type 0} where
  -- `_handle_connection_recovered`
  unfoldable pub connection_recovered : Coordinator Inventory → Coordinator Inventory
  connection_recovered c = record c {
    log = if c.offline_logged then restored ∷ c.log else c.log;
    transient_logged = false;
    offline_logged = false;
  }

  -- `_should_keep_cached_data_online`
  unfoldable pub should_keep_cached_data_online : Coordinator Inventory → Bool
  should_keep_cached_data_online c =
      c.is_device_online && ltb c.connection_failure_count failures_before_offline

  abbrev tolerated : Coordinator Inventory → Coordinator Inventory
  tolerated c = record c {
    log = log_once c.transient_logged kept_online c.log;
    transient_logged = true;
  }

  abbrev gone_offline : Coordinator Inventory → Coordinator Inventory
  gone_offline c = record c {
    is_device_online = false;
    log = log_once c.offline_logged unavailable c.log;
    offline_logged = true;
  }

  abbrev failed_with :
      String → Option (Dict Value) → Coordinator Inventory → Update × Coordinator Inventory
  failed_with message none c = (
    update_failed message,
    record c { is_device_online = false; connection_failure_count = failures_before_offline },
  )
  failed_with message (some cached) c =
      let counted = record c { connection_failure_count = suc c.connection_failure_count } in
      if should_keep_cached_data_online counted
      then (ready cached, tolerated counted)
      else (ready (with_offline_status cached), gone_offline counted)

  -- `_handle_connection_failure`, for the safe text of the error.
  unfoldable pub connection_failed : String → Coordinator Inventory → Update × Coordinator Inventory
  unfolding should_keep_cached_data_online with_offline_status
  connection_failed message c = failed_with message c.cached c

  abbrev back_online : Coordinator Inventory → Coordinator Inventory
  back_online c = record (connection_recovered c) {
    connection_failure_count = 0;
    is_device_online = true;
  }

-- `_async_update_data`, up to the optional features, for what `safe_error_text` makes of a text.
unfoldable pub storage_polled :
    {Inventory : Type 0}
    → (String → String)
    → Outcome (Dict Value)
    → Coordinator Inventory
    → Update × Coordinator Inventory
unfolding connection_recovered connection_failed
storage_polled safe (returned storage) c = (ready storage, back_online c)
storage_polled safe (stopped (api (cannot_connect e))) c = connection_failed (safe e) c
storage_polled safe (stopped (api (invalid_auth e))) c = (auth_failed, c)
storage_polled safe (stopped (api (unexpected_response e))) c = (update_failed (safe e), c)
storage_polled safe (stopped failure) c = (passed_on failure, c)
