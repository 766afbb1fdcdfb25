-- ===== src/Api/Backup.antt =====
-- api_backup.py: reading and starting remote-backup tasks.
pub mod Laws
use ha_unifi_drive.Prelude.{
  ℕ, ◌+◌, String, Bool, true, false, not, ◌||◌, Option, none, some, List, [], ◌∷◌, Dict, ltb, leb,
  ◌==◌, text_eq, strip, decimal, ◌⧺◌, has_key, lookup, if◌then◌else◌, ◌&&◌,
}
use ha_unifi_drive.Payload.{
  Value, null, str, dict, end, as_dict, as_list, get, or_value, is_blank, str_value,
}
use ha_unifi_drive.Api.Session.{
  unexpected_response, unsupported_feature, Console, Client, Action, Done, pure, raise, gets,
  modify, raise_if, ◌>>=◌, ◌>>◌, continue,
}
use ha_unifi_drive.Api.Transport.{request_raw, response_summary}
use ha_unifi_drive.Api.Auth.{with_session}

abbrev pub backup_tasks_path : String
backup_tasks_path = "/proxy/drive/api/v2/remote-backup/tasks"

abbrev run_task_path : String → String
run_task_path task_id = "/proxy/drive/api/v2/remote-backup/run-task/" ⧺ task_id

-- `BACKUP_NOT_FOUND_HTTP_STATUSES`, and the ranges of the status tests.
abbrev pub is_not_found : ℕ → Bool
is_not_found status = status == 404 || status == 405

abbrev pub is_success : ℕ → Bool
is_success status = leb 200 status && ltb status 300

pub record BackupTask : Type 0 where
  pub id : String
  pub name : String
  pub raw : Dict Value

abbrev first_key : Dict Value → List String → Value → Value
first_key d [] other = other
first_key d (key ∷ keys) other =
    let rest = first_key d keys other in if has_key key d then get d key else rest

abbrev filled : Value → String → Value
filled v other = if is_blank v then str other else v

-- One round of the loop: items that are no dicts are skipped, and the index runs on.
pub task_of : ℕ → Dict Value → BackupTask
task_of index task =
    let id = or_value (get task "id") (
      or_value (get task "_id")
        (or_value (get task "taskId") (or_value (get task "task_id") (get task "uuid")))) in
    let name =
      or_value (get task "name")
        (or_value (get task "taskName") (or_value (get task "task_name") (get task "title"))) in
    record {
      id = str_value (filled id ("task_" ⧺ decimal (index + 1)));
      name = str_value (filled name ("Backup Task " ⧺ decimal (index + 1)));
      raw = task;
    }

unfoldable pub tasks_from : ℕ → List Value → List BackupTask
unfolding task_of
tasks_from index [] = []
tasks_from index (v ∷ vs) =
    let rest = tasks_from (index + 1) vs in
    elim (as_dict v) [ none ↦ rest | some task ↦ task_of index task ∷ rest ]

-- `_extract_backup_tasks`
unfoldable pub extract_backup_tasks : Value → List BackupTask
extract_backup_tasks payload =
    let tasks_payload : Value = elim (as_dict payload) [
      | none ↦ payload
      | some d ↦ first_key d ("tasks" ∷ "data" ∷ "result" ∷ "results" ∷ "items" ∷ []) payload
    ] in
    elim (as_list tasks_payload) [ none ↦ [] | some vs ↦ tasks_from 0 vs ]

abbrev set_read_supported : Bool → Action Done
set_read_supported b = modify (λ c. record c { backup_tasks_read_supported = some b })

abbrev pub is_known_false : Option Bool → Bool
is_known_false (some false) = true
is_known_false _ = false

abbrev pub tasks_answer : ℕ × Value → Action (List BackupTask)
tasks_answer (status, payload) =
    if is_not_found status
    then set_read_supported false >> pure []
    else if is_success status
    then set_read_supported true >> pure (extract_backup_tasks payload)
    else pure []

-- `_async_get_backup_tasks_once`
unfoldable pub get_backup_tasks_once : Console → Action (List BackupTask)
get_backup_tasks_once console = do
  supported ← gets (λ c. c.backup_tasks_read_supported)
  if is_known_false supported
      then pure []
      else (request_raw console "GET" backup_tasks_path none >>= tasks_answer)

-- `async_get_backup_tasks`
unfoldable pub get_backup_tasks : Console → Action (List BackupTask)
get_backup_tasks console = with_session console (get_backup_tasks_once console)

abbrev run_answer : ℕ × Value → Action Done
run_answer (status, payload) =
    if is_success status
    then pure tt
    else if is_not_found status
    then raise (unsupported_feature "Remote-backup task endpoint is not available on this system.")
    else raise (
        unsupported_feature (
          "Remote-backup task endpoint returned HTTP "
          ⧺ decimal status
          ⧺ ": "
          ⧺ response_summary payload))

-- `_async_run_backup_task_once`
unfoldable pub run_backup_task_once : Console → String → Action Done
run_backup_task_once console task_id =
    request_raw console "POST" (run_task_path task_id) (some (dict end)) >>= run_answer

-- `async_run_backup_task`
unfoldable pub run_backup_task : Console → String → Action Done
run_backup_task console task_id =
    if text_eq (strip task_id) ""
    then raise (unexpected_response "Backup task id is empty")
    else with_session console (run_backup_task_once console (strip task_id))
