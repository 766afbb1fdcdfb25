-- ===== src/Tests/Snapshots.antt =====
-- The theorems on snapshots, applied.
use ha_unifi_drive.Prelude.{
  ℕ, ◌<◌, ◌≡◌, refl, true, false, none, some, [], ◌∷◌, lookup, text_eq, if◌then◌else◌, String, pos,
  ◌≤ℤ◌, arith, split, strip, lower, str_int, join,
}
use ha_unifi_drive.Payload.{dict, field, end, bool, str, str_value, or_value, get, is_blank}
use ha_unifi_drive.Api.Session.Sends.{Sends}
use ha_unifi_drive.Api.Session.Ensures.{HoldsOn}
use ha_unifi_drive.Snapshot.Days.{
  schedule_days, existing_schedule_days, strict_days, day_of, add_day, existing_days,
}
use ha_unifi_drive.Snapshot.Values.{int_value}
use ha_unifi_drive.Snapshot.Schedule.{schedule_api_value}
use ha_unifi_drive.Snapshot.Targets.{normalize_target_type, target_type, create_paths, quote}
use ha_unifi_drive.Snapshot.Days.Laws.{schedule_days-read_back}
use ha_unifi_drive.Snapshot.Clock.{match_time, schedule_time_parts, first_run_time}
use ha_unifi_drive.Snapshot.Clock.Laws.{
  short_time, long_time, schedule_time_parts-bounds, schedule_time_parts-format,
  first_run_time-stable,
}
use ha_unifi_drive.Snapshot.Write.{
  write_body, delete_required, schedule_body, wanted_frequency, snapshot_limit,
}
use ha_unifi_drive.Snapshot.Write.Laws.{write_body-limit}
use ha_unifi_drive.Snapshot.Payloads.{validated_settings}
use ha_unifi_drive.Snapshot.Payloads.Laws.{Accounted, validated_settings-Accounted}
use ha_unifi_drive.Api.Snapshots.Capabilities.{
  creation, writing, flags_of, supported_of, with_capability, capability_type,
}
use ha_unifi_drive.Api.Snapshots.{
  create_snapshot_target, get_snapshot_settings, update_target_settings,
}
use ha_unifi_drive.Api.Snapshots.Laws.Accepted.{Created, create_snapshot_target-Created}
use ha_unifi_drive.Api.Snapshots.Laws.Deletes.{SameDeletes, update_target_settings-SameDeletes}
use ha_unifi_drive.Api.Snapshots.Laws.Flags.{Summed, with_capability-flags}
use ha_unifi_drive.Api.Snapshots.Laws.Limits.{snapshot_operations-Sends}
use ha_unifi_drive.Api.Snapshots.Laws.Supported.{Supported, snapshot_writes-Supported}
use ha_unifi_drive.Tests.Inputs.{
  mode_payload, accepted, some_client, some_session, accepting, lacking, settings_payload,
  shared_target, enable_update,
}

schedule_days-read_back_example : existing_schedule_days (str "5,0,3") 0 6 ≡ some "5,0,3"
unfolding schedule_days strict_days split day_of int_value add_day str_int join
    existing_schedule_days str_value existing_days
schedule_days-read_back_example = schedule_days-read_back "5,0, 3" 0 6 (omega arith) refl

schedule_time_parts-bounds_example : (15 < 24) × (5 < 60)
unfolding schedule_time_parts match_time
schedule_time_parts-bounds_example = schedule_time_parts-bounds "3:05 pm" refl

schedule_time_parts-format_example :
    (schedule_time_parts (short_time 15 5) ≡ some (15, 5))
    × (schedule_time_parts (long_time 15 5) ≡ some (15, 5))
schedule_time_parts-format_example = schedule_time_parts-format 15 5 (omega arith) (omega arith)

first_run_time-stable_example :
    ((hour : ℕ) × (minute : ℕ) × (schedule_time_parts (first_run_time (str "3:05 pm"))
        ≡ some (hour, minute)))
    × (first_run_time (str (first_run_time (str "3:05 pm"))) ≡ first_run_time (str "3:05 pm"))
first_run_time-stable_example = first_run_time-stable (str "3:05 pm")

write_body-limit_example : (pos 1 ≤ℤ pos 256) × (pos 256 ≤ℤ pos 256)
unfolding write_body schedule_body wanted_frequency schedule_api_value str_value or_value get
    schedule_days existing_schedule_days is_blank existing_days split day_of int_value add_day
    str_int snapshot_limit
write_body-limit_example = write_body-limit shared_target enable_update refl

validated_settings-Accounted_example :
    Accounted settings_payload (validated_settings settings_payload none)
validated_settings-Accounted_example = validated_settings-Accounted settings_payload none

with_capability-flags_example :
    ((j : String)
      → lookup j (flags_of creation (with_capability creation (some "Shared") true some_client))
        ≡ (if text_eq "shared" j then some true else lookup j (("shared", false) ∷ [])))
    × Summed
        (flags_of creation (with_capability creation (some "Shared") true some_client))
        (supported_of creation (with_capability creation (some "Shared") true some_client))
unfolding capability_type flags_of normalize_target_type lower strip str_value or_value
with_capability-flags_example =
    with_capability-flags creation (some "Shared") "shared" true some_client refl

update_target_settings-SameDeletes_example :
    SameDeletes some_session
      (update_target_settings accepting shared_target enable_update some_session).1
unfolding delete_required
update_target_settings-SameDeletes_example =
    update_target_settings-SameDeletes accepting shared_target enable_update some_session refl

snapshot_operations-Sends_example :
    Sends 8 (create_snapshot_target lacking shared_target "nightly" false)
    × Sends 6 (get_snapshot_settings lacking)
    × Sends 16 (update_target_settings lacking shared_target enable_update)
snapshot_operations-Sends_example =
    snapshot_operations-Sends lacking shared_target "nightly" false enable_update

snapshot_writes-Supported_example :
    HoldsOn
      (Supported creation)
      (create_snapshot_target accepting shared_target "nightly" false some_session)
    × HoldsOn
        (Supported writing)
        (update_target_settings accepting shared_target enable_update some_session)
snapshot_writes-Supported_example =
    snapshot_writes-Supported accepting shared_target "nightly" false enable_update some_session

create_snapshot_target-Created_example :
    Created "/proxy/drive/api/v1/snapshots/shared/Media"
      (dict (field "description" (str "nightly") (field "locked" (bool false) end)))
      some_session
      (create_snapshot_target accepting shared_target "nightly" false some_session)
unfolding create_paths target_type normalize_target_type lower strip str_value or_value get lookup
    quote
create_snapshot_target-Created_example =
    create_snapshot_target-Created accepting some_session accepted 20 mode_payload (λ sent q. refl)
      refl refl shared_target "nightly" false "/proxy/drive/api/v1/snapshots/shared/Media"
      ("/proxy/drive/api/v1/snapshots/shared/7" ∷ []) refl refl refl
