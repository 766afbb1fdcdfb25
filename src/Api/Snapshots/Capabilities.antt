-- ===== src/Api/Snapshots/Capabilities.antt =====
-- api_snapshot.py: what is known of an endpoint, for each kind of target and in sum.
use ha_unifi_drive.Prelude.{
  String, Bool, true, false, ◌&&◌, Option, none, some, Dict, lookup, insert, any, text_eq,
  if◌then◌else◌,
}
use ha_unifi_drive.Payload.{Value, null, str}
use ha_unifi_drive.Snapshot.Targets.{normalize_target_type}
use ha_unifi_drive.Api.Session.{Client}
use ha_unifi_drive.Api.Backup.{is_known_false}

-- Creating snapshots, reading their inventory, writing their settings.
pub data Capability : Type 0 where
  creation reading writing : Capability

abbrev kind_text : Option String → Value
kind_text none = null
kind_text (some kind) = str kind

-- `_snapshot_capability_target_type`
unfoldable pub capability_type : Option String → Option String
capability_type kind =
    let value = normalize_target_type (kind_text kind) in
    if text_eq value "" then none else some value

abbrev second : String × Bool → Bool
second p = p.1

-- `_snapshot_capability_aggregate`
unfoldable pub aggregate : Dict Bool → Option Bool
aggregate flags =
    if any second flags
    then some true
    else if is_known_false (lookup "shared" flags) && is_known_false (lookup "mydrive" flags)
    then some false
    else none

unfoldable pub flags_of : Capability → Client → Dict Bool
flags_of creation c = c.snapshot_create_supported_by_type
flags_of reading c = c.snapshot_inventory_supported_by_type
flags_of writing c = c.snapshot_settings_write_supported_by_type

unfoldable pub supported_of : Capability → Client → Option Bool
supported_of creation c = c.snapshot_create_supported
supported_of reading c = c.snapshot_inventory_supported
supported_of writing c = c.snapshot_settings_write_supported

abbrev put : Capability → Option Bool → Dict Bool → Client → Client
put creation known flags c = record c {
  snapshot_create_supported = known;
  snapshot_create_supported_by_type = flags;
}
put reading known flags c = record c {
  snapshot_inventory_supported = known;
  snapshot_inventory_supported_by_type = flags;
}
put writing known flags c = record c {
  snapshot_settings_write_supported = known;
  snapshot_settings_write_supported_by_type = flags;
}

abbrev pub with_flag : Capability → Option String → Bool → Client → Client
with_flag capability none supported c = put capability (some supported) (flags_of capability c) c
with_flag capability (some kind) supported c =
    let flags = insert kind supported (flags_of capability c) in
    put capability (aggregate flags) flags c

-- `_set_snapshot_capability`
unfoldable pub with_capability : Capability → Option String → Bool → Client → Client
with_capability capability kind supported c =
    with_flag capability (capability_type kind) supported c
