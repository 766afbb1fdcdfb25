-- ===== src/Api/Snapshots.antt =====
-- api_snapshot.py: reading, creating and changing snapshots, and what the client learns of the
-- endpoints of each kind of target.
pub mod Capabilities
pub mod Laws
use ha_unifi_drive.Prelude.{
  ℕ, String, Bool, true, false, not, ◌&&◌, ◌||◌, Option, none, some, List, [], ◌∷◌, Dict, lookup,
  text_eq, strip, lower, decimal, ◌⧺◌, if◌then◌else◌,
}
use ha_unifi_drive.Payload.{
  Value, null, bool, str, dict, field, end, get, or_value, is_blank, str_value,
}
use ha_unifi_drive.Snapshot.Targets.{
  target_type, target_key, quote, shared_snapshots_path, settings_write_paths, create_paths,
}
use ha_unifi_drive.Snapshot.Payloads.{validated_settings}
use ha_unifi_drive.Snapshot.Write.{
  SnapshotSettingsUpdate, delete_required, write_body, settings_document,
}
use ha_unifi_drive.Api.Session.{
  cannot_connect, unexpected_response, unsupported_feature, value_error, Result, ok, err, Console,
  Client, Action, Done, pure, raise, gets, modify, catch_invalid_auth, catch_unsupported, lift,
  ◌>>=◌, ◌>>◌,
}
use ha_unifi_drive.Api.Transport.{request_raw, response_summary}
use ha_unifi_drive.Api.Auth.{with_session, login, set_authenticated}
use ha_unifi_drive.Api.Backup.{is_not_found, is_success, is_known_false}
use ha_unifi_drive.Api.Snapshots.Capabilities.{
  Capability, creation, reading, writing, capability_type, flags_of, with_capability,
}

abbrev pub snapshot_settings_path : String
snapshot_settings_path = "/proxy/drive/api/v1/systems/snapshot"

abbrev pub set_capability : Capability → Option String → Bool → Action Done
set_capability capability kind supported = modify (with_capability capability kind supported)

abbrev id_of_user : Dict Value → Option String
id_of_user d =
    let id = or_value (get d "id") (get d "unique_id") in
    if is_blank id then none else some (str_value id)

-- `_current_user_id`
unfoldable pub current_user_id : Client → Option String
current_user_id c = elim c.login_data [ none ↦ none | some d ↦ id_of_user d ]

abbrev pub set_settings_supported : Bool → Action Done
set_settings_supported b = modify (λ c. record c { snapshot_settings_read_supported = some b })

abbrev validated : Value → Action (List (Dict Value))
validated payload = do
  user ← gets current_user_id
  settings ← lift (validated_settings payload user)
  set_settings_supported true
  pure settings

abbrev settings_answer : ℕ × Value → Action (List (Dict Value))
settings_answer (status, payload) =
    if is_not_found status
    then set_settings_supported false >> pure []
    else if is_success status
    then validated payload
    else raise (
        cannot_connect
          ("Snapshot settings could not be read (HTTP " ⧺ decimal status ⧺ "). Retry later."))

-- `_async_get_snapshot_settings_once`
unfoldable pub get_snapshot_settings_once : Console → Action (List (Dict Value))
get_snapshot_settings_once console = do
  supported ← gets (λ c. c.snapshot_settings_read_supported)
  if is_known_false supported
      then pure []
      else (request_raw console "GET" snapshot_settings_path none >>= settings_answer)

-- `async_get_snapshot_settings`
unfoldable pub get_snapshot_settings : Console → Action (List (Dict Value))
get_snapshot_settings console = with_session console (get_snapshot_settings_once console)

abbrev failed : String → ℕ → Value → String
failed what status payload =
    what ⧺ " returned HTTP " ⧺ decimal status ⧺ ": " ⧺ response_summary payload

abbrev create_answer : Option String → ℕ × Value → Action Done
create_answer kind (status, payload) =
    if is_success status
    then set_capability creation kind true
    else if is_not_found status
    then raise (unsupported_feature "Manual snapshot endpoint is not available on this system.")
    else raise (cannot_connect (failed "Manual snapshot endpoint" status payload))

-- `_async_create_snapshot_once`
unfoldable pub create_snapshot_once : Console → Value → Option String → String → Action Done
create_snapshot_once console document kind path =
    request_raw console "POST" path (some document) >>= create_answer kind

-- The loops over candidate paths, with the text of the last `UnsupportedFeature`.
unfoldable pub try_paths :
    {A : Type 0}
    → Capability
    → Option String
    → String
    → (String → Action A)
    → List String
    → Option String
    → Action A
try_paths capability kind unconfigured once [] none = raise (unsupported_feature unconfigured)
try_paths capability kind unconfigured once [] (some last) =
    set_capability capability kind false >> raise (unsupported_feature last)
try_paths capability kind unconfigured once (path ∷ paths) last =
    catch_unsupported (once path) λ e. try_paths capability kind unconfigured once paths (some e)

-- `_async_create_snapshot_with_paths`
unfoldable pub create_snapshot_with_paths :
    Console → List String → Value → Option String → Action Done
create_snapshot_with_paths console paths document kind =
    try_paths creation kind "Manual snapshot endpoint is not configured."
      (create_snapshot_once console document kind) paths none

abbrev pub create_document : String → Bool → Value
create_document description locked =
    dict (field "description" (str description) (field "locked" (bool locked) end))

-- `_async_create_snapshot`
unfoldable pub create_snapshot : Console → List String → String → Bool → Option String → Action Done
create_snapshot console paths description locked kind =
    with_session console
      (create_snapshot_with_paths console paths (create_document description locked) kind)

-- `async_create_shared_drive_snapshot`
unfoldable pub create_shared_drive_snapshot : Console → String → String → Bool → Action Done
create_shared_drive_snapshot console name description locked =
    if text_eq (strip name) ""
    then raise (unexpected_response "Shared drive name is empty")
    else create_snapshot console (shared_snapshots_path (strip name) ∷ []) description locked
        (some "shared")

-- `async_create_snapshot_target`
unfoldable pub create_snapshot_target : Console → Dict Value → String → Bool → Action Done
create_snapshot_target console target description locked = lift (create_paths target) >>= λ paths.
    create_snapshot console paths description locked (some (target_type target))

-- Reading the inventory, for what is made of the payload of its endpoint.
module _ {Inventory : Type 0} (extract_inventory : Value → Inventory) where
  abbrev inventory_answer : Option String → ℕ × Value → Action Inventory
  inventory_answer kind (status, payload) =
      if is_success status
      then set_capability reading kind true >> pure (extract_inventory payload)
      else if is_not_found status
      then raise
          (unsupported_feature "Snapshot inventory endpoint is not available on this system.")
      else raise (cannot_connect (failed "Snapshot inventory endpoint" status payload))

  -- `_async_get_snapshot_inventory_once`
  unfoldable pub get_inventory_once : Console → Option String → String → Action Inventory
  get_inventory_once console kind path =
      request_raw console "GET" path none >>= inventory_answer kind

  -- `_async_get_snapshot_inventory_with_paths` and `async_get_snapshot_inventory_target`
  unfoldable pub get_inventory_target : Console → Dict Value → Action Inventory
  get_inventory_target console target = lift (create_paths target) >>= λ paths.
      with_session console (
        try_paths reading (some (target_type target))
          "Snapshot inventory endpoint is not configured."
          (get_inventory_once console (some (target_type target))) paths none)

-- The inner loop of a settings write: whether one of the paths took it.
unfoldable pub write_to_paths :
    Console → Option String → String → Option Value → List String → Action Bool
write_to_paths console kind method document [] = pure false
write_to_paths console kind method document (path ∷ paths) = do
  (status, payload) ← request_raw console method path document
  if is_success status
      then (set_capability writing kind true >> pure true)
      else (if is_not_found status
          then write_to_paths console kind method document paths
          else raise (
              cannot_connect
                (failed ("Snapshot settings " ⧺ lower method ⧺ " endpoint") status payload)))

abbrev pub write_unavailable {ℓ} : {A : Type ℓ} → Action A
write_unavailable =
    raise (unsupported_feature "Snapshot settings write endpoint is not available on this system.")

-- The outer loop, which asks for the paths anew with each method.
unfoldable pub write_methods :
    Console → Dict Value → Option String → List (String × Option Value) → Action Done
write_methods console target kind [] = pure tt
write_methods console target kind ((method, document) ∷ more) = do
  paths ← lift (settings_write_paths target)
  written ← write_to_paths console kind method document paths
  if written
      then pure tt
      else (if text_eq method "PUT"
          then (set_capability writing kind false >> write_unavailable)
          else write_methods console target kind more)

abbrev pub write_plan : SnapshotSettingsUpdate → Value → List (String × Option Value)
write_plan update document =
    if delete_required update
    then ("DELETE", none) ∷ ("PUT", some document) ∷ []
    else ("PUT", some document) ∷ []

abbrev pub is_closed : Option String → Dict Bool → Bool
is_closed none flags = false
is_closed (some kind) flags = is_known_false (lookup kind flags)

abbrev pub write_attempts :
    Console → Dict Value → Option String → SnapshotSettingsUpdate → Action Done
write_attempts console target kind update = elim (write_body target update) [
  | none ↦ raise value_error
  | some body ↦ write_methods console target kind (write_plan update (settings_document body))
]

-- `_async_update_snapshot_target_settings_once`
unfoldable pub update_settings_once : Console → Dict Value → SnapshotSettingsUpdate → Action Done
update_settings_once console target update = do
  flags ← gets (flags_of writing)
  if is_closed (capability_type (some (target_type target))) flags
      then write_unavailable
      else write_attempts console target (capability_type (some (target_type target))) update

-- `next(item for item in ... if target_key and snapshot_target_key(item) == target_key)`
unfoldable pub find_target : String → List (Dict Value) → Option (Dict Value)
find_target key [] = none
find_target key (item ∷ items) =
    let rest = find_target key items in
    if not (text_eq key "") && text_eq (target_key item) key then some item else rest

abbrev pub update_current : Console → SnapshotSettingsUpdate → Option (Dict Value) → Action Done
update_current console update none = raise (
    unexpected_response
      "Snapshot target is no longer available. Refresh the target list before retrying.")
update_current console update (some current) =
    catch_invalid_auth (update_settings_once console current update)
      (set_authenticated false >> login console >> update_settings_once console current update)

-- `async_update_snapshot_target_settings`, under its lock.
unfoldable pub update_target_settings : Console → Dict Value → SnapshotSettingsUpdate → Action Done
update_target_settings console target update = do
  settings ← get_snapshot_settings console
  update_current console update (find_target (target_key target) settings)
