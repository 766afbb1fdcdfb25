-- ===== src/Tests/Client.antt =====
-- The theorems on the API client, applied.
use ha_unifi_drive.Prelude.{
  ◌+◌, ◌*◌, strip, lower, replace_char, ◌≡◌, refl, true, false, none, some, [], ◌∷◌, length, lookup,
}
use ha_unifi_drive.Payload.{null}
use ha_unifi_drive.Api.Session.{ok}
use ha_unifi_drive.Api.Session.Sends.{Sends}
use ha_unifi_drive.Api.Session.Ensures.{HoldsOn}
use ha_unifi_drive.Api.Transport.{request_raw, request_headers, present, token_text}
use ha_unifi_drive.Api.Transport.Laws.{RawOutcome, request_raw-outcome, request_raw-Sends}
use ha_unifi_drive.Api.Transport.Headers.{request_headers-secrets}
use ha_unifi_drive.Api.Auth.{login, with_session}
use ha_unifi_drive.Api.Auth.Laws.{with_session-Sends}
use ha_unifi_drive.Api.Auth.Atomic.{LoginOutcome, login-outcome}
use ha_unifi_drive.Api.Backup.{get_backup_tasks_once, get_backup_tasks, run_backup_task}
use ha_unifi_drive.Api.Backup.Laws.{get_backup_tasks_once-settled}
use ha_unifi_drive.Api.Fan.{
  get_fan_control, get_fan_mode, set_fan_mode, api_mode, Shape, shape_document,
}
use ha_unifi_drive.Api.Fan.Modes.{extract_fan_mode, normalize_fan_mode, mode_of_word}
use ha_unifi_drive.Api.Fan.Laws.Canonical.{IsModeOrNone, extract_fan_mode-IsModeOrNone}
use ha_unifi_drive.Api.Fan.Laws.Writes.{Settled, set_fan_mode-Settled}
use ha_unifi_drive.Api.Fan.Laws.Accepted.{WrittenFirst, AsksFor, set_fan_mode-accepted}
use ha_unifi_drive.Api.Fan.Versions.{numbers_lt, version_lt}
use ha_unifi_drive.Api.Fan.Versions.Order.{is_lower, numbers_lt-is_lower, version_lt-strict}
use ha_unifi_drive.Api.System.{system_power_action, update_action}
use ha_unifi_drive.Api.Limits.{operations-Sends}
use ha_unifi_drive.Tests.Inputs.{
  some_client, some_session, mode_payload, accepted, missing, accepting, lacking,
}

request_raw-outcome_example :
    RawOutcome 200 accepted.body (request_raw accepting "GET" "/x" none some_session).0
    × (length (request_raw accepting "GET" "/x" none some_session).1.sent ≡ 0 + 1)
request_raw-outcome_example =
    request_raw-outcome accepting "GET" "/x" none some_session accepted (λ sent q. refl)

request_headers-secrets_example :
    (lookup "X-API-Key" (request_headers some_client) ≡ none)
    × (lookup "Cookie" (request_headers some_client) ≡ token_text (present (some "cookie")))
    × (lookup "X-CSRF-Token" (request_headers some_client) ≡ present (some "csrf"))
request_headers-secrets_example = request_headers-secrets some_client

login-outcome_example : LoginOutcome some_session (login lacking some_session)
login-outcome_example = login-outcome lacking some_session

with_session-Sends_example :
    Sends (2 * 1 + 4) (with_session lacking (request_raw lacking "GET" "/x" none))
with_session-Sends_example =
    with_session-Sends lacking (request_raw lacking "GET" "/x" none) 1
      (request_raw-Sends lacking "GET" "/x" none)

operations-Sends_example :
    Sends 6 (get_backup_tasks lacking)
    × Sends 6 (run_backup_task lacking "7")
    × Sends 6 (get_fan_control lacking)
    × Sends 6 (get_fan_mode lacking)
    × Sends 8 (set_fan_mode lacking "Quiet")
    × Sends 6 (system_power_action lacking "/api/system/reboot" "reboot")
    × Sends 6 (update_action lacking "UniFi OS" "/api/system/reboot")
operations-Sends_example =
    operations-Sends lacking "7" "Quiet" "UniFi OS" "/api/system/reboot" "reboot"

get_backup_tasks_once-settled_example :
    ((get_backup_tasks_once lacking some_session).0 ≡ ok [])
    × (length (get_backup_tasks_once lacking some_session).1.sent ≡ 0 + 1)
    × (get_backup_tasks_once lacking (get_backup_tasks_once lacking some_session).1
        ≡ (ok [], (get_backup_tasks_once lacking some_session).1))
get_backup_tasks_once-settled_example =
    get_backup_tasks_once-settled lacking some_session missing 20 null (λ sent q. refl) refl refl
      refl

extract_fan_mode-IsModeOrNone_example : IsModeOrNone (extract_fan_mode mode_payload)
extract_fan_mode-IsModeOrNone_example = extract_fan_mode-IsModeOrNone mode_payload

set_fan_mode-Settled_example :
    HoldsOn (Settled "Quiet") (set_fan_mode accepting "Quiet" some_session)
set_fan_mode-Settled_example = set_fan_mode-Settled accepting "Quiet" some_session

set_fan_mode-accepted_example :
    WrittenFirst "Quiet" mode_payload some_session (set_fan_mode accepting "Quiet" some_session)
    × ((shape : Shape) → AsksFor "Quiet" (shape_document (api_mode "Quiet") shape))
unfolding normalize_fan_mode mode_of_word replace_char lower strip
set_fan_mode-accepted_example =
    set_fan_mode-accepted accepting some_session accepted 20 mode_payload (λ sent q. refl) refl refl
      "Quiet" "Quiet" refl refl refl refl

numbers_lt-is_lower_example :
    numbers_lt (4 ∷ 2 ∷ []) (4 ∷ 2 ∷ 0 ∷ 1 ∷ []) ≡ is_lower (4 ∷ 2 ∷ []) (4 ∷ 2 ∷ 0 ∷ 1 ∷ [])
numbers_lt-is_lower_example = numbers_lt-is_lower (4 ∷ 2 ∷ []) (4 ∷ 2 ∷ 0 ∷ 1 ∷ [])

version_lt-strict_example : (version_lt "4.1.9" "5.1" ≡ true) × (version_lt "5.1" "4.1.9" ≡ false)
unfolding version_lt
version_lt-strict_example = version_lt-strict "4.1.9" "v4.2" "5.1" refl refl
