-- ===== src/Api/Limits.antt =====
-- How many requests an operation of the client sends at most, whatever the console answers.
use ha_unifi_drive.Prelude.{
  ℕ, String, ◌≤◌, ◌+◌, arith, List, [], ◌∷◌, false, length, none, some, Option, Option-cases, inl,
  inr, Bool-cases, text_eq, strip,
}
use ha_unifi_drive.Payload.{Value, null, str}
use ha_unifi_drive.Api.Session.{ApiError, Console, Client, Action, pure, raise, gets, ◌>>◌}
use ha_unifi_drive.Api.Session.Sends.{
  Sends, Sends-weaken, Sends-pure, Sends-if, Sends-after, Sends-before, Sends-bind, Sends-catch,
}
use ha_unifi_drive.Api.Transport.Laws.{
  quiet_rules, request_raw-Sends, request_json-Sends, request_no_json-Sends,
}
use ha_unifi_drive.Api.Auth.{set_authenticated, login, ensure_authenticated, with_session}
use ha_unifi_drive.Api.Auth.Laws.{
  with_session-Sends, login-Sends, ensure_authenticated-Sends, set_authenticated-Sends,
}
use ha_unifi_drive.Api.Transport.{request_json, request_no_json}
use ha_unifi_drive.Api.Backup.{
  is_known_false, get_backup_tasks_once, get_backup_tasks, run_backup_task_once, run_backup_task,
}
use ha_unifi_drive.Api.Fan.{
  Shape, remember_mode, accept_mode, write_refused, set_write_supported, fan_control_path,
  get_fan_control, get_fan_mode_once, get_fan_mode, write_attempts, set_fan_mode_once, set_fan_mode,
  write_shapes,
}
use ha_unifi_drive.Api.Fan.Modes.{normalize_fan_mode}
use ha_unifi_drive.Api.System.{
  check_permission, system_power_action, update_action_once, update_action,
}

quiet {ℓ} : {A : Type ℓ} (k : ℕ) (m : Action A) → Sends 0 m → Sends k m
quiet k m h = record { at = λ s. omega (arith, h.at s) }

quiet-pure {ℓ} : {A : Type ℓ} (k : ℕ) (a : A) → Sends k (pure a)
quiet-pure k a = record { at = λ s. omega arith }

quiet-raise {ℓ} : {A : Type ℓ} (k : ℕ) (e : ApiError) → Sends {A = A} k (raise e)
quiet-raise k e = record { at = λ s. omega arith }

quiet-gets {ℓ} : {A : Type ℓ} (k : ℕ) (f : Client → A) → Sends k (gets f)
quiet-gets k f = record { at = λ s. omega arith }

ruleset once_rules = (
  quiet_rules, quiet-pure, quiet-raise, quiet-gets, request_raw-Sends, request_json-Sends, Sends-if,
  Sends-after, Sends-before,
)

tasks_once-Sends : (console : Console) → Sends 1 (get_backup_tasks_once console)
unfolding get_backup_tasks_once
tasks_once-Sends console = search once_rules depth 9

run_once-Sends : (console : Console) (id : String) → Sends 1 (run_backup_task_once console id)
unfolding run_backup_task_once
run_once-Sends console id = search once_rules depth 9

update_once-Sends :
    (console : Console) (name path : String) → Sends 1 (update_action_once console name path)
unfolding update_action_once
update_once-Sends console name path = search once_rules depth 9

remember_mode-Sends : (found : Option String) → Sends 0 (remember_mode found)
remember_mode-Sends none = Sends-pure tt
remember_mode-Sends (some mode) = record { at = λ s. omega arith }

mode_once-Sends : (console : Console) → Sends 1 (get_fan_mode_once console)
unfolding get_fan_mode_once
mode_once-Sends console = search (once_rules, remember_mode-Sends) depth 12

quiet-accept :
    (k : ℕ) (canonical : String) (shape : Shape) (payload : Value)
    → Sends k (accept_mode canonical shape payload)
quiet-accept k canonical shape payload = record { at = λ s. omega arith }

quiet-refuse :
    (k status : ℕ) (payload : Value)
    → Sends k (set_write_supported false >> write_refused status payload)
quiet-refuse k status payload = record { at = λ s. omega arith }

attempts-Sends :
    (console : Console) (canonical : String) (shapes : List Shape) (status : ℕ) (payload : Value)
    → Sends (length shapes) (write_attempts console canonical shapes status payload)
unfolding write_attempts
attempts-Sends console canonical [] status payload = quiet-raise 0 _
attempts-Sends console canonical (shape ∷ shapes) status payload =
    let ih : (n : ℕ) (v : Value)
        → Sends (length shapes) (write_attempts console canonical shapes n v) =
      λ n v. attempts-Sends console canonical shapes n v in
    Sends-weaken (1 + length shapes) (length (shape ∷ shapes)) _ (omega arith) (
      Sends-bind 1 (length shapes) _ _ (request_raw-Sends console _ _ _)
        λ answered. search (Sends-if, quiet-accept, quiet-refuse, ih) depth 9)

write_shapes-two : (c : Client) → length (write_shapes c) ≤ 2
unfolding write_shapes
write_shapes-two c = ground arith

set_once-Sends :
    (console : Console) (canonical : String) → Sends 2 (set_fan_mode_once console canonical)
unfolding set_fan_mode_once
set_once-Sends console canonical = record {
  at = λ s. elim (Bool-cases (is_known_false s.client.fan_mode_write_supported)) [
    | inl known ↦ rw known (omega arith)
    | inr unknown ↦ rw unknown (
        omega (
          arith,
          write_shapes-two s.client,
          (attempts-Sends console canonical (write_shapes s.client) 0 null).at s,
        ))
  ];
}

control-Sends : (console : Console) → Sends 6 (get_fan_control console)
unfolding get_fan_control
control-Sends console =
    Sends-before 6 (with_session console (request_json console "GET" fan_control_path)) _
      (with_session-Sends console (request_json console "GET" fan_control_path) 1
        (request_json-Sends console "GET" fan_control_path))
      λ found. search (once_rules, remember_mode-Sends) depth 9

set_mode-Sends : (console : Console) (option : String) → Sends 8 (set_fan_mode console option)
unfolding set_fan_mode
set_mode-Sends console option = elim (Option-cases (normalize_fan_mode (str option))) [
  | inl e ↦ rw (e, set_fan_mode) (quiet-raise 8 _)
  | inr (canonical, e) ↦
      rw (e, set_fan_mode)
        (with_session-Sends console (set_fan_mode_once console canonical) 2
          (set_once-Sends console canonical))
]

run_task-Sends : (console : Console) (id : String) → Sends 6 (run_backup_task console id)
unfolding run_backup_task
run_task-Sends console id = Sends-if 6 (text_eq (strip id) "") _ _ (quiet-raise 6 _) (
    with_session-Sends console (run_backup_task_once console (strip id)) 1
      (run_once-Sends console (strip id)))

check-Sends : (action : String) → Sends 0 (check_permission action)
unfolding check_permission
check-Sends action = search (quiet_rules, Sends-after) depth 9

power-Sends :
    (console : Console) (path action : String) → Sends 6 (system_power_action console path action)
unfolding system_power_action
power-Sends console path action =
    Sends-bind 2 4 (ensure_authenticated console) _ (ensure_authenticated-Sends console) λ _.
      Sends-after 4 (check_permission action) _ (check-Sends action) λ _.
        Sends-catch 1 3 (request_no_json console "POST" path) _
          (request_no_json-Sends console "POST" path)
          (Sends-bind 2 1 ((set_authenticated false >> login console) >> check_permission action) _
            (Sends-before 2 (set_authenticated false >> login console) _
              (Sends-after 2 (set_authenticated false) _ (set_authenticated-Sends 0 false)
                λ _. login-Sends console)
              λ _. check-Sends action)
            λ _. request_no_json-Sends console "POST" path)

-- Against any console and from any state, reading the backup tasks, starting a task, reading the fan
-- control or the fan mode, a power action and an update action each send six requests at most, and a
-- fan-mode write eight.
pub operations-Sends :
    (console : Console) (id option name path action : String)
    → Sends 6 (get_backup_tasks console)
      × Sends 6 (run_backup_task console id)
      × Sends 6 (get_fan_control console)
      × Sends 6 (get_fan_mode console)
      × Sends 8 (set_fan_mode console option)
      × Sends 6 (system_power_action console path action)
      × Sends 6 (update_action console name path)
unfolding get_backup_tasks get_fan_mode update_action
operations-Sends console id option name path action = (
  with_session-Sends console (get_backup_tasks_once console) 1 (tasks_once-Sends console),
  run_task-Sends console id,
  control-Sends console,
  with_session-Sends console (get_fan_mode_once console) 1 (mode_once-Sends console),
  set_mode-Sends console option,
  power-Sends console path action,
  with_session-Sends console (update_action_once console name path) 1
      (update_once-Sends console name path),
)
