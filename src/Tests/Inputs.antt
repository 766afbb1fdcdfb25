-- ===== src/Tests/Inputs.antt =====
-- A client, two consoles, a payload of snapshot settings, and an update.
use ha_unifi_drive.Prelude.{true, false, none, some, [], ◌∷◌, Dict, ℕ, pos}
use ha_unifi_drive.Payload.{Value, null, int, str, list, dict, nil, cons, end, field}
use ha_unifi_drive.Api.Session.{json, Response, answer, Console, Client, Session}
use ha_unifi_drive.Snapshot.Write.{SnapshotSettingsUpdate}

abbrev pub some_client : Client
some_client = record {
  base_url = "https://drive";
  username = "admin";
  password = "secret";
  api_key = none;
  use_api_key_auth = false;
  csrf_token = some "csrf";
  token_cookie = some "cookie";
  authenticated = true;
  login_data = none;
  system_info = none;
  last_fan_mode = none;
  fan_mode_read_supported = none;
  fan_mode_write_supported = none;
  fan_mode_write_payload_hint = none;
  backup_tasks_read_supported = none;
  snapshot_settings_read_supported = none;
  snapshot_settings_write_supported = none;
  snapshot_settings_write_supported_by_type = [];
  snapshot_create_supported = none;
  snapshot_create_supported_by_type = ("shared", false) ∷ [];
  snapshot_inventory_supported = none;
  snapshot_inventory_supported_by_type = [];
}

abbrev pub some_session : Session
some_session = record { client = some_client; sent = [] }

abbrev response : ℕ → Value → Response
response status payload = record {
  status = status;
  csrf = none;
  updated_csrf = none;
  set_cookies = [];
  body = json 20 payload;
}

abbrev pub mode_payload : Value
mode_payload = dict (field "fan" (dict (field "mode" (str "Cool") end)) end)

abbrev pub accepted : Response
accepted = response 200 mode_payload

abbrev pub missing : Response
missing = response 404 null

abbrev pub accepting : Console
accepting sent request = answer accepted

abbrev pub lacking : Console
lacking sent request = answer missing

abbrev pub shared_item : Value
shared_item = dict (
    field "sharedDrive" (dict (field "id" (str "7") (field "name" (str "Media") end)))
      (field "maxCount" (int (pos 5)) end))

abbrev pub settings_payload : Value
settings_payload = dict (field "data" (dict (field "shared" (list (cons shared_item nil)) end)) end)

abbrev pub shared_target : Dict Value
shared_target =
    ("type", str "shared")
    ∷ ("id", str "7")
    ∷ ("shared_drive_name", str "Media")
    ∷ ("max_count", int (pos 300))
    ∷ ("schedule_frequency", str "Weekly")
    ∷ ("schedule_weekdays", str "1,3")
    ∷ ("schedule_time", str "3:05 pm")
    ∷ []

abbrev pub enable_update : SnapshotSettingsUpdate
enable_update = record {
  enabled = some true;
  max_count = none;
  schedule_enabled = none;
  schedule_frequency = none;
  schedule_time = none;
  schedule_weekdays = none;
  schedule_monthdays = none;
}
