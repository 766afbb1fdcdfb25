-- ===== src/Api/Snapshots/Laws/Limits.antt =====
-- How many requests an operation on snapshots sends at most.
use ha_unifi_drive.Prelude.{
  ℕ, ◌+◌, ◌*◌, ◌≤◌, String, Bool, false, Option, none, some, List, [], ◌∷◌, Dict, length, text_eq,
  arith, Option-cases, inl, inr,
}
use ha_unifi_drive.Payload.{Value}
use ha_unifi_drive.Snapshot.Targets.{target_type, target_key, create_paths, settings_write_paths}
use ha_unifi_drive.Snapshot.Write.{SnapshotSettingsUpdate, write_body, settings_document}
use ha_unifi_drive.Api.Session.{
  ApiError, Result, ok, err, Console, Action, Done, raise, gets, lift, ◌>>=◌, ◌>>◌,
}
use ha_unifi_drive.Api.Session.Sends.{
  Sends, Sends-weaken, Sends-gets, Sends-if, Sends-after, Sends-before, Sends-bind, Sends-catch,
  Sends-catch_unsupported, Sends-lift,
}
use ha_unifi_drive.Api.Transport.{request_raw}
use ha_unifi_drive.Api.Transport.Laws.{quiet_rules, request_raw-Sends}
use ha_unifi_drive.Api.Auth.{with_session, set_authenticated, login}
use ha_unifi_drive.Api.Auth.Laws.{with_session-Sends, login-Sends, set_authenticated-Sends}
use ha_unifi_drive.Api.Backup.{is_success, is_not_found, is_known_false}
use ha_unifi_drive.Api.Snapshots.Capabilities.{
  Capability, creation, writing, flags_of, capability_type,
}
use ha_unifi_drive.Api.Snapshots.{
  set_capability, create_snapshot_once, try_paths, create_snapshot_with_paths, create_snapshot,
  create_snapshot_target, write_to_paths, write_methods, write_plan, update_settings_once,
  update_target_settings, write_unavailable, snapshot_settings_path, find_target, write_attempts,
  update_current, get_snapshot_settings_once, get_snapshot_settings, create_document, is_closed,
}

-- At most so many paths, if there are any.
abbrev pub PathsWithin : ℕ → Result (List String) → Type 0
PathsWithin n (ok paths) = length paths ≤ n
PathsWithin n (err e) = Unit

pub settings_write_paths-two : (target : Dict Value) → PathsWithin 2 (settings_write_paths target)
unfolding settings_write_paths
settings_write_paths-two target = ground arith

pub create_paths-two : (target : Dict Value) → PathsWithin 2 (create_paths target)
unfolding create_paths
create_paths-two target = ground arith

quiet-raise {ℓ} : {A : Type ℓ} (k : ℕ) (e : ApiError) → Sends {A = A} k (raise e)
quiet-raise k e = record { at = λ s. omega arith }

set-Sends :
    (k : ℕ) (capability : Capability) (kind : Option String) (b : Bool)
    → Sends k (set_capability capability kind b)
set-Sends k capability kind b = record { at = λ s. omega arith }

create_once-Sends :
    (console : Console) (document : Value) (kind : Option String) (path : String)
    → Sends 1 (create_snapshot_once console document kind path)
unfolding create_snapshot_once
create_once-Sends console document kind path =
    Sends-before 1 (request_raw console "POST" path (some document)) _
      (request_raw-Sends console "POST" path (some document))
      λ answered. search (Sends-if, set-Sends, quiet-raise) depth 9

try_paths-Sends :
    {A : Type 0} (capability : Capability) (kind : Option String) (unconfigured : String)
    → (once : String → Action A) (paths : List String) (last : Option String)
    → ((path : String) → Sends 1 (once path))
    → Sends (length paths) (try_paths capability kind unconfigured once paths last)
unfolding try_paths
try_paths-Sends capability kind unconfigured once [] none h = quiet-raise 0 _
try_paths-Sends capability kind unconfigured once [] (some last) h =
    search (Sends-after, set-Sends, quiet-raise) depth 9
try_paths-Sends capability kind unconfigured once (path ∷ paths) last h =
    Sends-weaken (1 + length paths) (length (path ∷ paths)) _ (omega arith) (
      Sends-catch_unsupported 1 (length paths) (once path) _ (h path)
        λ e. try_paths-Sends capability kind unconfigured once paths (some e) h)

create-Sends :
    (console : Console) (paths : List String) (description : String) (locked : Bool)
    → (kind : Option String) → length paths ≤ 2
    → Sends 8 (create_snapshot console paths description locked kind)
unfolding create_snapshot create_snapshot_with_paths
create-Sends console paths description locked kind h = with_session-Sends console _ 2 (
    Sends-weaken (length paths) 2 _ h (
      try_paths-Sends creation kind _ _ paths none
        (create_once-Sends console (create_document description locked) kind)))

write_to_paths-Sends :
    (console : Console) (kind : Option String) (method : String) (document : Option Value)
    → (paths : List String)
    → Sends (length paths) (write_to_paths console kind method document paths)
unfolding write_to_paths
write_to_paths-Sends console kind method document [] = record { at = λ s. omega arith }
write_to_paths-Sends console kind method document (path ∷ paths) =
    Sends-weaken (1 + length paths) (length (path ∷ paths)) _ (omega arith) (
      Sends-bind 1 (length paths) (request_raw console method path document) _
        (request_raw-Sends console method path document)
        λ answered.
          Sends-if (length paths) (is_success answered.0) _ _ (record { at = λ s. omega arith })
            (Sends-if (length paths) (is_not_found answered.0) _ _
              (write_to_paths-Sends console kind method document paths)
              (quiet-raise (length paths) _)))

-- What follows the look-up of the paths, in which there are two at most.
lifted-Sends :
    {A : Type 0} (k : ℕ) (r : Result (List String)) (f : List String → Action A)
    → PathsWithin 2 r
    → ((paths : List String) → length paths ≤ 2 → Sends k (f paths))
    → Sends k (lift r >>= f)
lifted-Sends k (ok paths) f h hf = record { at = λ s. (hf paths h).at s }
lifted-Sends k (err e) f h hf = record { at = λ s. omega arith }

methods-Sends :
    (console : Console) (target : Dict Value) (kind : Option String)
    → (plan : List (String × Option Value))
    → Sends (2 * length plan) (write_methods console target kind plan)
unfolding write_methods
methods-Sends console target kind [] = record { at = λ s. omega arith }
methods-Sends console target kind ((method, document) ∷ more) =
    lifted-Sends (2 * length ((method, document) ∷ more)) (settings_write_paths target) _
      (settings_write_paths-two target)
      λ paths h.
        Sends-weaken (2 + 2 * length more) (2 * length ((method, document) ∷ more)) _ (omega arith)
          (Sends-bind 2 (2 * length more) (write_to_paths console kind method document paths) _
            (Sends-weaken (length paths) 2 _ h
              (write_to_paths-Sends console kind method document paths))
            λ written.
              Sends-if (2 * length more) written _ _ (record { at = λ s. omega arith })
                (Sends-if (2 * length more) (text_eq method "PUT") _ _
                  (record { at = λ s. omega arith }) (methods-Sends console target kind more)))

plan-two :
    (update : SnapshotSettingsUpdate) (document : Value) → length (write_plan update document) ≤ 2
plan-two update document = ground arith

attempts-Sends :
    (console : Console) (target : Dict Value) (kind : Option String)
    → (update : SnapshotSettingsUpdate) → Sends 4 (write_attempts console target kind update)
attempts-Sends console target kind update = elim (Option-cases (write_body target update)) [
  | inl e ↦ rw (e, write_attempts) (quiet-raise 4 _)
  | inr (body, e) ↦
      rw (e, write_attempts)
        (Sends-weaken (2 * length (write_plan update (settings_document body))) 4 _
          (omega (arith, plan-two update (settings_document body)))
          (methods-Sends console target kind (write_plan update (settings_document body))))
]

unavailable-Sends : Sends {A = Done} 4 write_unavailable
unavailable-Sends = record { at = λ s. omega arith }

update_once-Sends :
    (console : Console) (target : Dict Value) (update : SnapshotSettingsUpdate)
    → Sends 4 (update_settings_once console target update)
unfolding update_settings_once
update_once-Sends console target update =
    Sends-after 4 (gets (flags_of writing)) _ (Sends-gets (flags_of writing)) λ flags.
      Sends-if 4 (is_closed (capability_type (some (target_type target))) flags) _ _
        unavailable-Sends
        (attempts-Sends console target (capability_type (some (target_type target))) update)

current-Sends :
    (console : Console) (update : SnapshotSettingsUpdate) (found : Option (Dict Value))
    → Sends 10 (update_current console update found)
current-Sends console update none = quiet-raise 10 _
current-Sends console update (some current) =
    Sends-catch 4 6 (update_settings_once console current update) _
      (update_once-Sends console current update)
      (Sends-bind 2 4 (set_authenticated false >> login console) _
        (Sends-after 2 (set_authenticated false) _ (set_authenticated-Sends 0 false)
          λ _. login-Sends console)
        λ _. update_once-Sends console current update)

settings_once-Sends : (console : Console) → Sends 1 (get_snapshot_settings_once console)
unfolding get_snapshot_settings_once
settings_once-Sends console =
    Sends-after 1 (gets (λ c. c.snapshot_settings_read_supported)) _ (Sends-gets _) λ known.
      Sends-if 1 (is_known_false known) _ _ (record { at = λ s. omega arith })
        (Sends-before 1 (request_raw console "GET" snapshot_settings_path none) _
          (request_raw-Sends console "GET" snapshot_settings_path none)
          λ answered. search (Sends-if, Sends-after, quiet_rules, Sends-lift) depth 12)

-- Against any console and from any state, the creation of a snapshot sends eight requests at most,
-- and a settings write sixteen, of which six are for the fresh read of the settings.
pub snapshot_operations-Sends :
    (console : Console) (target : Dict Value) (description : String) (locked : Bool)
    → (update : SnapshotSettingsUpdate)
    → Sends 8 (create_snapshot_target console target description locked)
      × Sends 6 (get_snapshot_settings console)
      × Sends 16 (update_target_settings console target update)
unfolding create_snapshot_target get_snapshot_settings update_target_settings
snapshot_operations-Sends console target description locked update =
    let read =
      with_session-Sends console (get_snapshot_settings_once console) 1
        (settings_once-Sends console) in
    (
      lifted-Sends 8 (create_paths target) _ (create_paths-two target)
          (λ paths h. create-Sends console paths description locked (some (target_type target)) h),
      read,
      Sends-bind 6 10 (with_session console (get_snapshot_settings_once console)) _ read
          λ settings. current-Sends console update (find_target (target_key target) settings),
    )
