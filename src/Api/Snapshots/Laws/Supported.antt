-- ===== src/Api/Snapshots/Laws/Supported.antt =====
-- An operation on snapshots that returns has left its capability as known to be supported.
use ha_unifi_drive.Prelude.{
  String, ◌≡◌, Bool, true, false, Option, none, some, List, [], ◌∷◌, Dict, text_eq, if◌then◌else◌,
  Option-cases, inl, inr,
}
use ha_unifi_drive.Payload.{Value}
use ha_unifi_drive.Snapshot.Targets.{settings_write_paths}
use ha_unifi_drive.Snapshot.Write.{
  SnapshotSettingsUpdate, delete_required, write_body, settings_document,
}
use ha_unifi_drive.Api.Session.{Console, Session, Action, Done, pure, lift, ◌>>◌}
use ha_unifi_drive.Api.Session.Ensures.{
  HoldsOn, Ensures, Ensures-raise, Ensures-if, Ensures-bind, Ensures-catch,
  Ensures-catch_unsupported, Ensures-then,
}
use ha_unifi_drive.Api.Transport.{request_raw}
use ha_unifi_drive.Api.Backup.{is_success, is_not_found}
use ha_unifi_drive.Api.Fan.Laws.Writes.{with_session-Ensures}
use ha_unifi_drive.Api.Snapshots.Capabilities.{Capability, creation, writing, supported_of}
use ha_unifi_drive.Api.Snapshots.Laws.Flags.{with_capability-supported}
use ha_unifi_drive.Api.Snapshots.{
  set_capability, create_snapshot_once, try_paths, create_snapshot_with_paths, create_snapshot,
  create_snapshot_target, write_to_paths, write_methods, update_settings_once,
  update_target_settings, write_unavailable, write_attempts, update_current,
}

abbrev pub Supported : {A : Type 0} → Capability → A → Session → Type 0
Supported capability _ t = supported_of capability t.client ≡ some true

set-Ensures :
    (capability : Capability) (kind : Option String)
    → Ensures (Supported capability) (set_capability capability kind true)
set-Ensures capability kind = record {
  at = λ s. with_capability-supported capability kind s.client;
}

ruleset rules = (Ensures-raise, Ensures-if, Ensures-bind, set-Ensures)

create_once-Ensures :
    (console : Console) (document : Value) (kind : Option String) (path : String)
    → Ensures (Supported creation) (create_snapshot_once console document kind path)
unfolding create_snapshot_once
create_once-Ensures console document kind path = search rules depth 9

try_paths-Ensures :
    {A : Type 0} (P : A → Session → Type 0) (capability : Capability) (kind : Option String)
    → (unconfigured : String) (once : String → Action A) (paths : List String)
    → (last : Option String) → ((path : String) → Ensures P (once path))
    → Ensures P (try_paths capability kind unconfigured once paths last)
unfolding try_paths
try_paths-Ensures P capability kind unconfigured once [] none h = Ensures-raise P _
try_paths-Ensures P capability kind unconfigured once [] (some last) h =
    search (Ensures-bind, Ensures-raise) depth 9
try_paths-Ensures P capability kind unconfigured once (path ∷ paths) last h =
    Ensures-catch_unsupported P (once path) _ (h path)
      λ e. try_paths-Ensures P capability kind unconfigured once paths (some e) h

create-Ensures :
    (console : Console) (paths : List String) (description : String) (locked : Bool)
    → (kind : Option String)
    → Ensures (Supported creation) (create_snapshot console paths description locked kind)
unfolding create_snapshot create_snapshot_with_paths
create-Ensures console paths description locked kind =
    with_session-Ensures (Supported creation) console _ (
      try_paths-Ensures (Supported creation) creation kind _ _ paths none
        (create_once-Ensures console _ kind))

-- A pass over the paths that says it has written.
abbrev IfWritten : Bool → Session → Type 0
IfWritten false t = Unit
IfWritten true t = supported_of writing t.client ≡ some true

written-Ensures :
    (kind : Option String) → Ensures IfWritten (set_capability writing kind true >> pure true)
written-Ensures kind = record { at = λ s. with_capability-supported writing kind s.client }

write_to_paths-Ensures :
    (console : Console) (kind : Option String) (method : String) (document : Option Value)
    → (paths : List String) → Ensures IfWritten (write_to_paths console kind method document paths)
unfolding write_to_paths
write_to_paths-Ensures console kind method document [] = record { at = λ s. tt }
write_to_paths-Ensures console kind method document (path ∷ paths) =
    Ensures-bind IfWritten (request_raw console method path document) _ λ answered.
      Ensures-if IfWritten (is_success answered.0) _ _ (written-Ensures kind) (
        Ensures-if IfWritten (is_not_found answered.0) _ _
          (write_to_paths-Ensures console kind method document paths) (Ensures-raise IfWritten _))

after-writing :
    (kind : Option String) (method : String) (rest : Action Done) (written : Bool) (t : Session)
    → IfWritten written t
    → Ensures (Supported writing) (
        if text_eq method "PUT"
        then set_capability writing kind false >> write_unavailable
        else rest)
    → HoldsOn (Supported writing) (
        (if written
            then pure tt
            else (if text_eq method "PUT"
                then (set_capability writing kind false >> write_unavailable)
                else rest))
          t)
after-writing kind method rest true t h hr = h
after-writing kind method rest false t h hr = hr.at t

refused-Ensures :
    (kind : Option String)
    → Ensures {A = Done}
        (Supported writing)
        (set_capability writing kind false >> write_unavailable)
refused-Ensures kind = record { at = λ s. tt }

put-Ensures :
    (console : Console) (target : Dict Value) (kind : Option String) (document : Option Value)
    → Ensures (Supported writing) (write_methods console target kind (("PUT", document) ∷ []))
unfolding write_methods
put-Ensures console target kind document =
    Ensures-bind (Supported writing) (lift (settings_write_paths target)) _ λ paths.
      Ensures-then (Supported writing) IfWritten _ _
        (write_to_paths-Ensures console kind "PUT" document paths)
        λ b u h. after-writing kind "PUT" (pure tt) b u h (refused-Ensures kind)

delete-Ensures :
    (console : Console) (target : Dict Value) (kind : Option String) (document : Option Value)
    → Ensures
        (Supported writing)
        (write_methods console target kind (("DELETE", none) ∷ ("PUT", document) ∷ []))
unfolding write_methods
delete-Ensures console target kind document =
    Ensures-bind (Supported writing) (lift (settings_write_paths target)) _ λ paths.
      Ensures-then (Supported writing) IfWritten _ _
        (write_to_paths-Ensures console kind "DELETE" none paths)
        λ b u h. after-writing kind "DELETE" _ b u h (put-Ensures console target kind document)

plan-Ensures :
    (console : Console) (target : Dict Value) (kind : Option String) (document : Value) (b : Bool)
    → Ensures (Supported writing) (
        write_methods console target kind (
          if b
          then ("DELETE", none) ∷ ("PUT", some document) ∷ []
          else ("PUT", some document) ∷ []))
plan-Ensures console target kind document true = delete-Ensures console target kind (some document)
plan-Ensures console target kind document false = put-Ensures console target kind (some document)

attempts-Ensures :
    (console : Console) (target : Dict Value) (kind : Option String)
    → (update : SnapshotSettingsUpdate)
    → Ensures (Supported writing) (write_attempts console target kind update)
attempts-Ensures console target kind update = elim (Option-cases (write_body target update)) [
  | inl e ↦ rw (e, write_attempts) (Ensures-raise (Supported writing) _)
  | inr (body, e) ↦
      rw (e, write_attempts)
        (plan-Ensures console target kind (settings_document body) (delete_required update))
]

update_once-Ensures :
    (console : Console) (target : Dict Value) (update : SnapshotSettingsUpdate)
    → Ensures (Supported writing) (update_settings_once console target update)
unfolding update_settings_once
update_once-Ensures console target update =
    search (Ensures-raise, Ensures-if, Ensures-bind, attempts-Ensures) depth 9

current-Ensures :
    (console : Console) (update : SnapshotSettingsUpdate) (found : Option (Dict Value))
    → Ensures (Supported writing) (update_current console update found)
current-Ensures console update none = Ensures-raise (Supported writing) _
current-Ensures console update (some current) =
    search (Ensures-catch, Ensures-bind, update_once-Ensures) depth 9

update-Ensures :
    (console : Console) (target : Dict Value) (update : SnapshotSettingsUpdate)
    → Ensures (Supported writing) (update_target_settings console target update)
unfolding update_target_settings
update-Ensures console target update = search (Ensures-bind, current-Ensures) depth 9

create_target-Ensures :
    (console : Console) (target : Dict Value) (description : String) (locked : Bool)
    → Ensures (Supported creation) (create_snapshot_target console target description locked)
unfolding create_snapshot_target
create_target-Ensures console target description locked =
    search (Ensures-bind, create-Ensures) depth 9

-- Against any console and from any state, a creation of a snapshot that returns leaves the client
-- with creation known to be supported, and so does a settings write for writing.
pub snapshot_writes-Supported :
    (console : Console) (target : Dict Value) (description : String) (locked : Bool)
    → (update : SnapshotSettingsUpdate) (s : Session)
    → HoldsOn (Supported creation) (create_snapshot_target console target description locked s)
      × HoldsOn (Supported writing) (update_target_settings console target update s)
snapshot_writes-Supported console target description locked update s = (
  (create_target-Ensures console target description locked).at s,
  (update-Ensures console target update).at s,
)
