-- ===== src/Coordinator/Optional.antt =====
-- coordinator.py: the optional features, each read within its share of the time, and a whole poll.
use ha_unifi_drive.Prelude.{
  ℕ, ◌-◌, ◌*◌, ◌/◌, String, Bool, true, false, ◌||◌, Option, none, some, List, [], ◌∷◌, ◌++◌, Dict,
  length, text_eq, if◌then◌else◌,
}
use ha_unifi_drive.Payload.{Value}
use ha_unifi_drive.Api.Session.{ApiError, cannot_connect, value_error}
use ha_unifi_drive.Api.Backup.{BackupTask, is_known_false}
use ha_unifi_drive.Repairs.{
  IssueRegistry, Entry, create_read_issue, update_read_issue, clear_snapshot_issues,
}
use ha_unifi_drive.Coordinator.{
  Failure, api, cancelled, Outcome, returned, stopped, Link, ClientCalls, Coordinator,
}
use ha_unifi_drive.Coordinator.Targets.{cleared}
use ha_unifi_drive.Coordinator.Refresh.{refresh_inventory_if_due}

-- What the methods change: the coordinator, the client with the clocks, and the issue registry.
pub record World (Inventory State : Type 0) : Type 0 where
  pub coordinator : Coordinator Inventory
  pub link : Link
  pub issues : State

pub data Feature : Type 0 where
  fan_feature backup_feature snapshot_feature : Feature

-- `_OPTIONAL_REFRESH_TIMEOUT`, ten seconds of the loop's clock, in its ticks.
abbrev pub refresh_timeout : ℕ → ℕ
refresh_timeout ticks_per_second = 10 * ticks_per_second

abbrev if_feature : Bool → Feature → List Feature
if_feature enabled feature = if enabled then feature ∷ [] else []

-- `budget`: a share of the time that is left, for as many features.
abbrev pub share : ℕ → ℕ → ℕ → ℕ
share deadline now left = (deadline - now) / left

-- `except TimeoutError`: whether the timeout ended the refresher, or what else did.
abbrev pub after_timeout : Option Failure → Option Failure × Bool
after_timeout none = (none, false)
after_timeout (some cancelled) = (none, true)
after_timeout (some failure) = (some failure, false)

module _ {Inventory : Type 0} where
  -- The refreshers, in their order.
  unfoldable pub features : Coordinator Inventory → List Feature
  features c =
      if_feature c.fan_control_enabled fan_feature
      ++ (backup_feature ∷ if_feature c.snapshot_buttons_enabled snapshot_feature)

  abbrev pub with_fan_mode : Option String → Coordinator Inventory → Coordinator Inventory
  with_fan_mode none c = c
  with_fan_mode (some mode) c = if text_eq mode "" then c else record c { fan_mode = some mode }

  abbrev pub with_tasks : List BackupTask → Coordinator Inventory → Coordinator Inventory
  with_tasks tasks c = record c { backup_tasks = tasks }

  abbrev pub with_settings : List (Dict Value) → Coordinator Inventory → Coordinator Inventory
  with_settings settings c = record c {
    snapshot_settings_available = true;
    snapshot_settings = settings;
  }

  abbrev pub without_settings : Coordinator Inventory → Coordinator Inventory
  without_settings c = record c { snapshot_settings_available = false }

module _ {Inventory State : Type 0} where
  abbrev pub changed :
      (Coordinator Inventory → Coordinator Inventory)
      → World Inventory State
      → World Inventory State
  changed f w = record w { coordinator = f w.coordinator }

  abbrev pub fan_answered :
      Outcome (Option String) → World Inventory State → Option Failure × World Inventory State
  fan_answered (returned mode) w = (none, changed (with_fan_mode mode) w)
  fan_answered (stopped (api value_error)) w = (some (api value_error), w)
  fan_answered (stopped (api e)) w = (none, w)
  fan_answered (stopped failure) w = (some failure, w)

  -- `_refresh_fan_mode`
  unfoldable pub refresh_fan_mode :
      ClientCalls Inventory → World Inventory State → Option Failure × World Inventory State
  refresh_fan_mode calls w =
      if w.coordinator.fan_control_enabled
      then (let (r, l) = calls.get_fan_mode w.link in fan_answered r (record w { link = l }))
      else (none, w)

  abbrev pub backup_answered :
      Outcome (List BackupTask) → World Inventory State → Option Failure × World Inventory State
  backup_answered (returned tasks) w = (none, changed (with_tasks tasks) w)
  backup_answered (stopped (api value_error)) w = (some (api value_error), w)
  backup_answered (stopped (api e)) w = (none, changed (with_tasks []) w)
  backup_answered (stopped failure) w = (some failure, w)

  -- `_refresh_backup_tasks`
  unfoldable pub refresh_backup_tasks :
      ClientCalls Inventory → World Inventory State → Option Failure × World Inventory State
  refresh_backup_tasks calls w =
      let (r, l) = calls.get_backup_tasks w.link in backup_answered r (record w { link = l })

  module _ (safe_error_text : String → String) (registry : IssueRegistry State)
      (entry : Entry) where
    abbrev pub read_inventory :
        ClientCalls Inventory → World Inventory State → Option Failure × World Inventory State
    read_inventory calls w =
        let (stop, c, l) = refresh_inventory_if_due safe_error_text calls w.coordinator w.link in
        (stop, record w { coordinator = c; link = l })

    abbrev pub read_issue_updated : Option Bool → World Inventory State → World Inventory State
    read_issue_updated supported w = record w {
      issues = update_read_issue safe_error_text registry entry supported w.issues;
    }

    abbrev pub read_issue_created : ApiError → World Inventory State → World Inventory State
    read_issue_created (cannot_connect e) w = w
    read_issue_created e w = record w {
      issues = create_read_issue safe_error_text registry entry e w.issues;
    }

    unfoldable pub settings_answered :
        ClientCalls Inventory
        → Outcome (List (Dict Value))
        → World Inventory State
        → Option Failure × World Inventory State
    settings_answered calls (returned settings) w =
        let supported = w.link.session.client.snapshot_settings_read_supported in
        if is_known_false supported
        then (none, read_issue_updated (some false) (changed without_settings w))
        else read_inventory calls
            (read_issue_updated supported (changed (with_settings settings) w))
    settings_answered calls (stopped cancelled) w = (some cancelled, changed without_settings w)
    settings_answered calls (stopped (api value_error)) w = (some (api value_error), w)
    settings_answered calls (stopped (api e)) w =
        (none, changed without_settings (read_issue_created e w))
    settings_answered calls (stopped failure) w = (some failure, w)

    -- `_refresh_snapshot_settings`
    unfoldable pub refresh_snapshot_settings :
        ClientCalls Inventory → World Inventory State → Option Failure × World Inventory State
    unfolding settings_answered
    refresh_snapshot_settings calls w =
        let (r, l) = calls.get_snapshot_settings w.link in
        settings_answered calls r (record w { link = l })

    unfoldable pub refresh :
        Feature
        → ClientCalls Inventory
        → World Inventory State
        → Option Failure × World Inventory State
    unfolding refresh_fan_mode refresh_backup_tasks refresh_snapshot_settings
    refresh fan_feature = refresh_fan_mode
    refresh backup_feature = refresh_backup_tasks
    refresh snapshot_feature = refresh_snapshot_settings

    -- `_clear_snapshot_settings_state`, where the snapshot features are off.
    unfoldable pub clear_snapshot_settings_state : World Inventory State → World Inventory State
    clear_snapshot_settings_state w = record (changed cleared w) {
      issues = clear_snapshot_issues registry entry w.issues;
    }

    -- The client, by the time that its calls may take before the timeout cancels them.
    module _ (within : ℕ → ClientCalls Inventory) where
      -- The loop of `_async_refresh_optional_features`: the exception that ended it, or whether a
      -- feature timed out.
      unfoldable pub refresh_each :
          ℕ
          → List Feature
          → Bool
          → World Inventory State
          → Option Failure × Bool × World Inventory State
      unfolding refresh
      refresh_each deadline [] timed_out w = (none, timed_out, w)
      refresh_each deadline (feature ∷ rest) timed_out w =
          let budget = share deadline w.link.loop_time (length (feature ∷ rest)) in
          let (stop, w') = refresh feature (within budget) w in
          let (end, late) = after_timeout stop in
          elim end [
            | none ↦ refresh_each deadline rest (timed_out || late) w'
            | some failure ↦ (some failure, timed_out, w')
          ]
