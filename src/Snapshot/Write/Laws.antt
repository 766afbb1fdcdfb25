-- ===== src/Snapshot/Write/Laws.antt =====
-- What a settings document says, whatever the target held and the update asked for.
use ha_unifi_drive.Prelude.{◌≡◌, Bool, true, false, some, pos, ◌≤ℤ◌, Dict, arith}
use ha_unifi_drive.Payload.{Value}
use ha_unifi_drive.Snapshot.Write.{SnapshotSettingsUpdate, SettingsBody, snapshot_limit, write_body}

snapshot_limit-bounds :
    (target : Dict Value) (update : SnapshotSettingsUpdate) (enabled : Bool)
    → (pos 1 ≤ℤ snapshot_limit target update enabled)
      × (snapshot_limit target update enabled ≤ℤ pos 256)
unfolding snapshot_limit
snapshot_limit-bounds target update enabled = ground arith

-- A settings document that is sent asks for 1 to 256 snapshots.
pub write_body-limit :
    (target : Dict Value) (update : SnapshotSettingsUpdate) {body : SettingsBody}
    → write_body target update ≡ some body
    → (pos 1 ≤ℤ body.max_snapshots) × (body.max_snapshots ≤ℤ pos 256)
unfolding write_body
write_body-limit target update e =
    ground
      (arith, snapshot_limit-bounds target update true, snapshot_limit-bounds target update false)
