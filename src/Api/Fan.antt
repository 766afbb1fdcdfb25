-- ===== src/Api/Fan.antt =====
-- api_fan.py: reading and writing the native fan mode.
pub mod Modes
pub mod Versions
pub mod Laws
use ha_unifi_drive.Prelude.{
  ℕ, String, Bool, true, false, not, ◌&&◌, Option, none, some, List, [], ◌∷◌, ◌++◌, Dict, text_eq,
  keep, lower, decimal, ◌⧺◌, if◌then◌else◌, ◌or_else◌,
}
use ha_unifi_drive.Payload.{Value, null, bool, str, dict, field, end, fields_of}
use ha_unifi_drive.Api.Session.{
  unexpected_response, unsupported_feature, Console, Client, Action, Done, pure, raise, gets,
  modify, ◌>>=◌, ◌>>◌,
}
use ha_unifi_drive.Api.Transport.{request_json, request_raw, response_summary, present}
use ha_unifi_drive.Api.Auth.{with_session}
use ha_unifi_drive.Api.Backup.{is_not_found, is_success, is_known_false}
use ha_unifi_drive.Api.Fan.Modes.{normalize_fan_mode, extract_fan_mode}
use ha_unifi_drive.Api.Fan.Versions.{firmware_prefers_apply_payload}

abbrev pub fan_control_path : String
fan_control_path = "/proxy/drive/api/v2/systems/fan-control"

abbrev pub remember_mode : Option String → Action Done
remember_mode none = pure tt
remember_mode (some mode) = modify (λ c. record c { last_fan_mode = some mode })

-- `async_get_fan_control`, whose attempt is the JSON request alone.
unfoldable pub get_fan_control : Console → Action (Dict Value)
get_fan_control console = do
  found ← with_session console (request_json console "GET" fan_control_path)
  remember_mode (extract_fan_mode (dict (fields_of found)))
  pure found

abbrev set_read_supported : Bool → Action Done
set_read_supported b = modify (λ c. record c { fan_mode_read_supported = some b })

abbrev last_mode : Action (Option String)
last_mode = gets (λ c. c.last_fan_mode)

abbrev pub read_answer : ℕ × Value → Action (Option String)
read_answer (status, payload) =
    if is_not_found status
    then set_read_supported false >> last_mode
    else if is_success status
    then set_read_supported true >> remember_mode (extract_fan_mode payload) >> last_mode
    else last_mode

-- `_async_get_fan_mode_once`
unfoldable pub get_fan_mode_once : Console → Action (Option String)
get_fan_mode_once console = do
  supported ← gets (λ c. c.fan_mode_read_supported)
  if is_known_false supported
      then last_mode
      else (request_raw console "GET" fan_control_path none >>= read_answer)

-- `async_get_fan_mode`
unfoldable pub get_fan_mode : Console → Action (Option String)
get_fan_mode console = with_session console (get_fan_mode_once console)

-- The two shapes of a write: `{"profile": value}`, and the same with `"apply": True`.
pub data Shape : Type 0 where
  profile_only profile_apply : Shape

-- `_fan_mode_payload_signature`
abbrev pub signature : Shape → String
signature profile_only = "profile_only"
signature profile_apply = "profile_apply"

abbrev pub shape_document : String → Shape → Value
shape_document value profile_only = dict (field "profile" (str value) end)
shape_document value profile_apply =
    dict (field "profile" (str value) (field "apply" (bool true) end))

-- A stable sort of the two shapes that puts those that pass the test first.
abbrev pub prefer : (Shape → Bool) → List Shape
prefer p =
    keep p (profile_only ∷ profile_apply ∷ [])
    ++ keep (λ x. not (p x)) (profile_only ∷ profile_apply ∷ [])

abbrev pub has_apply : Shape → Bool
has_apply profile_only = false
has_apply profile_apply = true

-- `_fan_mode_write_payloads`
unfoldable pub write_shapes : Client → List Shape
write_shapes c = elim (present c.fan_mode_write_payload_hint) [
  | some hint ↦ prefer (λ x. text_eq (signature x) hint)
  | none ↦ prefer (λ x. firmware_prefers_apply_payload c.system_info && has_apply x)
]

-- The first of `FAN_MODE_API_VALUES`, or the mode in lower case.
unfoldable pub api_mode : String → String
api_mode canonical =
    if text_eq canonical "Quiet"
    then "quiet"
    else if text_eq canonical "Balance"
    then "default"
    else if text_eq canonical "Cooling"
    then "cooling"
    else lower canonical

abbrev pub set_write_supported : Bool → Action Done
set_write_supported b = modify (λ c. record c { fan_mode_write_supported = some b })

abbrev pub accept_mode : String → Shape → Value → Action String
accept_mode canonical shape payload =
    let mode : String = elim (extract_fan_mode payload) [ none ↦ canonical | some m ↦ m ] in
    modify (λ c. record c {
      last_fan_mode = some mode;
      fan_mode_write_supported = some true;
      fan_mode_write_payload_hint = some (signature shape);
    })
    >> pure mode

abbrev pub write_refused : ℕ → Value → Action String
write_refused status payload = raise (
    unsupported_feature (
      "Native UniFi Drive fan-mode endpoint "
      ⧺ fan_control_path
      ⧺ " returned HTTP "
      ⧺ decimal status
      ⧺ ": "
      ⧺ response_summary payload))

-- The loop over the shapes, which holds the last status and payload. A status 404 or 405 leaves it.
unfoldable pub write_attempts : Console → String → List Shape → ℕ → Value → Action String
write_attempts console canonical [] status payload = write_refused status payload
write_attempts console canonical (shape ∷ shapes) _ _ = do
  (status, payload) ←
      request_raw console "PUT" fan_control_path (some (shape_document (api_mode canonical) shape))
  if is_success status
      then accept_mode canonical shape payload
      else (if is_not_found status
          then (set_write_supported false >> write_refused status payload)
          else write_attempts console canonical shapes status payload)

-- `_async_set_fan_mode_once`
unfoldable pub set_fan_mode_once : Console → String → Action String
set_fan_mode_once console canonical = do
  supported ← gets (λ c. c.fan_mode_write_supported)
  shapes ← gets write_shapes
  if is_known_false supported
      then raise (
          unsupported_feature
            "Native UniFi Drive fan-mode endpoint is not available on this system.")
      else write_attempts console canonical shapes 0 null

-- `async_set_fan_mode`
unfoldable pub set_fan_mode : Console → String → Action String
set_fan_mode console option = elim (normalize_fan_mode (str option)) [
  | none ↦ raise (unexpected_response ("Unsupported fan mode option: " ⧺ option))
  | some canonical ↦ with_session console (set_fan_mode_once console canonical)
]
