-- ===== src/Coordinator/Client.antt =====
-- The calls of the coordinator, made by the client of a console: `self.client`.
use ha_unifi_drive.Prelude.{ℕ}
use ha_unifi_drive.Payload.{Value}
use ha_unifi_drive.Api.Session.{Result, ok, err, Console, Action}
use ha_unifi_drive.Api.Storage.{get_storage}
use ha_unifi_drive.Api.Fan.{get_fan_mode}
use ha_unifi_drive.Api.Backup.{get_backup_tasks}
use ha_unifi_drive.Api.Snapshots.{get_snapshot_settings, get_inventory_target}
use ha_unifi_drive.Coordinator.{api, Outcome, returned, stopped, Call, ClientCalls}
use ha_unifi_drive.Coordinator.Refresh.Progress.{IsAnswer, Answers}

abbrev pub outcome_of : {A : Type 0} → Result A → Outcome A
outcome_of (ok a) = returned a
outcome_of (err e) = stopped (api e)

-- What the clocks show after a call is left open.
module _ (utc_after loop_after : ℕ → ℕ) where
  abbrev pub call_of : {A : Type 0} → Action A → Call A
  call_of m l =
      let (r, s) = m l.session in
      (
        outcome_of r,
        record { session = s; utc_now = utc_after l.utc_now; loop_time = loop_after l.loop_time },
      )

  unfoldable pub calls_of :
      {Inventory : Type 0} → (Value → Inventory) → Console → ClientCalls Inventory
  calls_of extract_inventory console = record {
    get_storage = call_of (get_storage console);
    get_fan_mode = call_of (get_fan_mode console);
    get_backup_tasks = call_of (get_backup_tasks console);
    get_snapshot_settings = call_of (get_snapshot_settings console);
    get_inventory_target =
        λ target. call_of (get_inventory_target extract_inventory console target);
  }

  outcome-IsAnswer : {A : Type 0} (r : Result A) → IsAnswer (outcome_of r)
  outcome-IsAnswer (ok a) = tt
  outcome-IsAnswer (err e) = tt

  -- The client's own reads of targets always end with a result or an error of its own.
  pub calls_of-Answers :
      {Inventory : Type 0} (extract_inventory : Value → Inventory) (console : Console)
      → Answers (calls_of extract_inventory console)
  unfolding calls_of
  calls_of-Answers extract_inventory console target l =
      outcome-IsAnswer (get_inventory_target extract_inventory console target l.session).0
