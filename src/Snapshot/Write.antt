-- ===== src/Snapshot/Write.antt =====
-- snapshot_write.py and the limits of const.py: the documents that change snapshot settings. A
-- raised `ValueError` is `none`.
pub mod Laws
use ha_unifi_drive.Prelude.{
  String, Bool, true, false, not, ◌&&◌, Option, none, some, ℤ, pos, Dict, leb_ℤ, max_ℤ, min_ℤ,
  text_eq, is_some, if◌then◌else◌, ◌or_else◌,
}
use ha_unifi_drive.Payload.{
  Value, null, bool, int, str, dict, field, end, get, truthy, or_value, str_value,
}
use ha_unifi_drive.Snapshot.Values.{int_value}
use ha_unifi_drive.Snapshot.Schedule.{schedule_api_value}
use ha_unifi_drive.Snapshot.Days.{schedule_days, existing_schedule_days}
use ha_unifi_drive.Snapshot.Clock.{first_run_time}

abbrev pub default_snapshot_limit : ℤ
default_snapshot_limit = pos 64

abbrev pub min_snapshot_limit : ℤ
min_snapshot_limit = pos 1

abbrev pub max_snapshot_limit : ℤ
max_snapshot_limit = pos 256

-- The fields of an update that is not given are `none`.
pub record SnapshotSettingsUpdate : Type 0 where
  pub enabled : Option Bool
  pub max_count : Option ℤ
  pub schedule_enabled : Option Bool
  pub schedule_frequency : Option String
  pub schedule_time : Option String
  pub schedule_weekdays : Option String
  pub schedule_monthdays : Option String

abbrev is_false : Option Bool → Bool
is_false (some false) = true
is_false _ = false

unfoldable pub delete_required : SnapshotSettingsUpdate → Bool
delete_required update =
    is_false update.enabled
    && not (is_some update.max_count)
    && not (is_some update.schedule_enabled)
    && not (is_some update.schedule_frequency)
    && not (is_some update.schedule_time)
    && not (is_some update.schedule_weekdays)
    && not (is_some update.schedule_monthdays)

pub record ScheduleBody : Type 0 where
  pub interval : ℤ
  pub weekdays : String
  pub monthdays : String
  pub enable : Bool
  pub first_run_time : String
  pub last_run_time : String

pub record SettingsBody : Type 0 where
  pub name : String
  pub enabled : Bool
  pub schedule : ScheduleBody
  pub max_snapshots : ℤ

abbrev given : Option String → Value
given none = null
given (some s) = str s

abbrev flag_or : Option Bool → Value → Bool
flag_or none v = truthy v
flag_or (some b) v = b

-- The clamp of `_snapshot_settings_write_body`, with the default for a missing count.
unfoldable pub snapshot_limit : Dict Value → SnapshotSettingsUpdate → Bool → ℤ
snapshot_limit target update target_enabled =
    let fallback = if target_enabled then default_snapshot_limit else min_snapshot_limit in
    let current : ℤ = elim (int_value (get target "max_count")) [
      | none ↦ fallback
      | some count ↦ if leb_ℤ min_snapshot_limit count then count else fallback
    ] in
    let wanted : ℤ = elim update.max_count [ none ↦ current | some count ↦ count ] in
    min_ℤ (max_ℤ wanted min_snapshot_limit) max_snapshot_limit

-- `a or b or "1"`, where `a` may have raised.
abbrev chosen_days : Option (Option String) → Option String → Option String
chosen_days none existing = none
chosen_days (some days) existing = days or_else existing or_else some "1"

abbrev days_of : String → Dict Value → SnapshotSettingsUpdate → Option (String × String)
days_of api_frequency target update =
    if text_eq api_frequency "weekly"
    then elim (chosen_days (schedule_days update.schedule_weekdays 0 6)
        (existing_schedule_days (get target "schedule_weekdays") 0 6)) [
          | none ↦ none
          | some days ↦ some (days, "")
        ]
    else if text_eq api_frequency "monthly"
    then elim (chosen_days (schedule_days update.schedule_monthdays 1 31)
        (existing_schedule_days (get target "schedule_monthdays") 1 31)) [
          | none ↦ none
          | some days ↦ some ("", days)
        ]
    else some ("*", "")

abbrev schedule_enable : String → Dict Value → SnapshotSettingsUpdate → Bool
schedule_enable api_frequency target update =
    if text_eq api_frequency "never"
    then false
    else if is_some update.schedule_frequency
    then true
    else flag_or update.schedule_enabled (get target "schedule_enabled")

-- The API word for the frequency that the update or the target names.
unfoldable pub wanted_frequency : Dict Value → SnapshotSettingsUpdate → String
wanted_frequency target update = schedule_api_value (
    str_value (
      or_value (given update.schedule_frequency)
        (or_value (get target "schedule_frequency") (str "Never"))))

abbrev schedule_body_of :
    Dict Value → SnapshotSettingsUpdate → Option (String × String) → Option ScheduleBody
schedule_body_of target update none = none
schedule_body_of target update (some (weekdays, monthdays)) =
    let time =
      first_run_time (or_value (given update.schedule_time) (get target "schedule_time")) in
    some (record {
      interval = pos 60;
      weekdays = weekdays;
      monthdays = monthdays;
      enable = schedule_enable (wanted_frequency target update) target update;
      first_run_time = time;
      last_run_time = time;
    })

-- `_snapshot_settings_schedule_body`
unfoldable pub schedule_body : Dict Value → SnapshotSettingsUpdate → Option ScheduleBody
schedule_body target update =
    schedule_body_of target update (days_of (wanted_frequency target update) target update)

-- `_snapshot_settings_write_body`
unfoldable pub write_body : Dict Value → SnapshotSettingsUpdate → Option SettingsBody
write_body target update =
    let target_enabled = flag_or update.enabled (get target "enabled") in
    elim (schedule_body target update) [
      | none ↦ none
      | some schedule ↦ some (record {
        name = "";
        enabled = target_enabled;
        schedule = schedule;
        max_snapshots = snapshot_limit target update target_enabled;
      })
    ]

-- The JSON documents of the two bodies.
unfoldable pub schedule_document : ScheduleBody → Value
schedule_document body = dict (
    field "interval" (int body.interval) (
      field "weekdays" (str body.weekdays) (
        field "monthdays" (str body.monthdays) (
          field "enable" (bool body.enable) (
            field "firstRunTime" (str body.first_run_time)
              (field "lastRunTime" (str body.last_run_time) end))))))

unfoldable pub settings_document : SettingsBody → Value
settings_document body = dict (
    field "name" (str body.name) (
      field "enabled" (bool body.enabled) (
        field "schedule" (schedule_document body.schedule)
          (field "maxSnapshots" (int body.max_snapshots) end))))
