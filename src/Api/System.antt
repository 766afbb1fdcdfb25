-- ===== src/Api/System.antt =====
-- api_system.py and api_updates.py: power actions and update actions.
use ha_unifi_drive.Prelude.{ℕ, String, Bool, false, ◌||◌, some, ◌==◌, decimal, ◌⧺◌, if◌then◌else◌}
use ha_unifi_drive.Payload.{Value, dict, end}
use ha_unifi_drive.Api.Session.{
  invalid_auth, unsupported_feature, Console, Client, Action, Done, pure, raise, gets, raise_if,
  catch_invalid_auth, ◌>>=◌, ◌>>◌,
}
use ha_unifi_drive.Api.Transport.{request_raw, request_no_json, response_summary}
use ha_unifi_drive.Api.Auth.{ensure_authenticated, login, set_authenticated, with_session}
use ha_unifi_drive.Api.Auth.Identity.{poweroff_permission_hint}
use ha_unifi_drive.Api.Backup.{is_not_found, is_success, is_known_false}

abbrev pub poweroff_path : String
poweroff_path = "/api/system/poweroff"

abbrev pub reboot_path : String
reboot_path = "/api/system/reboot"

abbrev forbidden : Client → Bool
forbidden c = is_known_false (poweroff_permission_hint c.login_data)

-- The test of the permission hint before each attempt.
unfoldable pub check_permission : String → Action Done
check_permission action = do
  refused ← gets forbidden
  raise_if refused
      (invalid_auth ("The configured UniFi account does not advertise " ⧺ action ⧺ " permission"))

-- `_async_system_power_action`: the first test stands outside the `try`.
unfoldable pub system_power_action : Console → String → String → Action Done
system_power_action console path action = do
  ensure_authenticated console
  check_permission action
  catch_invalid_auth (request_no_json console "POST" path) (
      set_authenticated false
      >> login console
      >> check_permission action
      >> request_no_json console "POST" path)

-- `async_poweroff` and `async_reboot`
unfoldable pub poweroff : Console → Action Done
poweroff console = system_power_action console poweroff_path "poweroff"

unfoldable pub reboot : Console → Action Done
reboot console = system_power_action console reboot_path "reboot"

abbrev update_answer : String → String → ℕ × Value → Action Done
update_answer name path (status, payload) =
    if is_success status || status == 409
    then pure tt
    else if is_not_found status
    then raise (unsupported_feature (name ⧺ " update endpoint is not available."))
    else raise (
        unsupported_feature (
          name
          ⧺ " update endpoint "
          ⧺ path
          ⧺ " returned HTTP "
          ⧺ decimal status
          ⧺ ": "
          ⧺ response_summary payload))

-- `_async_update_action_once`
unfoldable pub update_action_once : Console → String → String → Action Done
update_action_once console name path =
    request_raw console "POST" path (some (dict end)) >>= update_answer name path

-- `_async_update_action`, `async_install_unifi_os_update` and `async_install_drive_update`
unfoldable pub update_action : Console → String → String → Action Done
update_action console name path = with_session console (update_action_once console name path)

unfoldable pub install_unifi_os_update : Console → Action Done
install_unifi_os_update console = update_action console "UniFi OS" "/api/firmware/update"

unfoldable pub install_drive_update : Console → Action Done
install_drive_update console = update_action console "UniFi Drive" "/api/applications/drive/update"
