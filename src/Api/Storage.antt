-- ===== src/Api/Storage.antt =====
-- api_storage.py: reading the storage and the metadata around it. A timeout of a metadata read is a
-- reply that does not come.
use ha_unifi_drive.Prelude.{String, true, Option, none, some, Dict, insert, if◌then◌else◌}
use ha_unifi_drive.Payload.{Value, dict, fields_of}
use ha_unifi_drive.Api.Session.{
  cannot_connect, invalid_auth, unexpected_response, Result, ok, err, Console, Action, Done, pure,
  gets, modify, ◌>>=◌, ◌>>◌,
}
use ha_unifi_drive.Api.Transport.{request_json}
use ha_unifi_drive.Api.Auth.{with_session, login, set_authenticated}
use ha_unifi_drive.Api.Fan.{remember_mode}
use ha_unifi_drive.Api.Fan.Modes.{extract_fan_mode}

abbrev pub drive_storage_path : String
drive_storage_path = "/proxy/drive/api/v2/storage"

abbrev pub system_path : String
system_path = "/api/system"

abbrev pub network_io_path : String
network_io_path = "/proxy/drive/api/v2/systems/network-io"

-- `except (CannotConnect, InvalidAuth, UnexpectedResponse, TimeoutError)`, with nothing read then.
abbrev pub or_nothing : {A : Type 0} → Result A → Result (Option A)
or_nothing (ok a) = ok (some a)
or_nothing (err (cannot_connect e)) = ok none
or_nothing (err (invalid_auth e)) = ok none
or_nothing (err (unexpected_response e)) = ok none
or_nothing (err e) = err e

abbrev pub if_there : {A : Type 0} → Action A → Action (Option A)
if_there m s = let (r, t) = m s in (or_nothing r, t)

abbrev pub with_metadata : String → Option (Dict Value) → Dict Value → Dict Value
with_metadata key none payload = payload
with_metadata key (some found) payload = insert key (dict (fields_of found)) payload

abbrev pub remember_system : Option (Dict Value) → Action Done
remember_system none = pure tt
remember_system (some found) = modify (λ c. record c { system_info = some found })

-- `async_get_storage`
unfoldable pub get_storage : Console → Action (Dict Value)
get_storage console = do
  found ← with_session console (request_json console "GET" drive_storage_path)
  remember_mode (extract_fan_mode (dict (fields_of found)))
  system ← if_there (request_json console "GET" system_path)
  remember_system system
  network ← if_there (request_json console "GET" network_io_path)
  pure (with_metadata "_network_io" network (with_metadata "_system" system found))

-- `async_check_connection`
unfoldable pub check_connection : Console → Action (Dict Value)
check_connection console = do
  by_key ← gets (λ c. c.use_api_key_auth)
  if by_key then set_authenticated true else login console
  get_storage console
