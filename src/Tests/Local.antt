-- ===== src/Tests/Local.antt =====
-- The theorems on config entries, repairs issues and Wake-on-LAN, applied.
use ha_unifi_drive.Prelude.{◌≡◌, refl, none, some, [], ◌∷◌, Dict, lookup, strip, lower, keep_chars}
use ha_unifi_drive.Payload.{Value, null, str, get}
use ha_unifi_drive.Entry.Options.{ConfigEntry, entry_value, merged_entry_data_options}
use ha_unifi_drive.Entry.Options.Laws.{
  stored, merged_entry_data_options-entry_value, entry_value-stored,
}
use ha_unifi_drive.Entry.Reload.{entry_reload_signature}
use ha_unifi_drive.Entry.Reload.Laws.{changed, entry_reload_signature-metadata}
use ha_unifi_drive.Repairs.{
  Entry, permission, unavailable, Capability, shared, issue_id, issue_of, create_snapshot_issue,
  clear_snapshot_issues,
}
use ha_unifi_drive.Repairs.Laws.{
  dict_registry, dict_registry-IsRegistry, create_snapshot_issue-exclusive,
  clear_snapshot_issues-none,
}
use ha_unifi_drive.WakeOnLan.{normalize_mac_address, is_hex}
use ha_unifi_drive.WakeOnLan.Laws.{IsNormal, normalize_mac_address-IsNormal}

abbrev some_entry : ConfigEntry
some_entry = record {
  entry_data = ("host", str "drive") ∷ ("wol_port", str "9") ∷ [];
  options = ("wol_enabled", str "yes") ∷ [];
}

abbrev new_settings : Dict Value
new_settings = ("wol_port", str "7") ∷ ("host", str "nas") ∷ []

merged_entry_data_options-entry_value_example :
    get (merged_entry_data_options some_entry) "wol_port" ≡ entry_value some_entry "wol_port" null
unfolding lookup
merged_entry_data_options-entry_value_example =
    merged_entry_data_options-entry_value some_entry "wol_port" (refl, tt)

entry_value-stored_example : entry_value (stored some_entry new_settings) "wol_port" null ≡ str "7"
unfolding lookup
entry_value-stored_example = entry_value-stored some_entry new_settings "wol_port" null

entry_reload_signature-metadata_example :
    entry_reload_signature (record some_entry {
      entry_data =
          changed some_entry.entry_data (
            ("discovery_last_seen", some (str "now"))
            ∷ ("discovery_identity_conflicts", none)
            ∷ []);
    })
    ≡ entry_reload_signature some_entry
entry_reload_signature-metadata_example =
    entry_reload_signature-metadata some_entry
      (("discovery_last_seen", some (str "now")) ∷ ("discovery_identity_conflicts", none) ∷ []) refl

abbrev repairs_entry : Entry
repairs_entry = record { entry_id = "e1"; title = "Drive" }

create_snapshot_issue-exclusive_example :
    (dict_registry.find (issue_id repairs_entry Capability.create permission (some shared)) (
        create_snapshot_issue strip dict_registry repairs_entry Capability.create permission
          "denied"
          (some shared)
          none
          [])
      ≡ some
          (issue_of strip repairs_entry Capability.create permission "denied" (some shared) none))
    × (dict_registry.find (issue_id repairs_entry Capability.create unavailable (some shared)) (
          create_snapshot_issue strip dict_registry repairs_entry Capability.create permission
            "denied"
            (some shared)
            none
            [])
        ≡ none)
create_snapshot_issue-exclusive_example =
    create_snapshot_issue-exclusive dict_registry dict_registry-IsRegistry strip repairs_entry
      Capability.create permission "denied" (some shared) none []

clear_snapshot_issues-none_example :
    (dict_registry.find
        (issue_id repairs_entry Capability.read permission none)
        (clear_snapshot_issues dict_registry repairs_entry [])
      ≡ none)
    × (dict_registry.find
          (issue_id repairs_entry Capability.create permission (some shared))
          (clear_snapshot_issues dict_registry repairs_entry [])
        ≡ none)
    × (dict_registry.find
          (issue_id repairs_entry Capability.settings permission (some shared))
          (clear_snapshot_issues dict_registry repairs_entry [])
        ≡ none)
clear_snapshot_issues-none_example =
    clear_snapshot_issues-none dict_registry dict_registry-IsRegistry repairs_entry permission
      (some shared) []

normalize_mac_address-IsNormal_example : IsNormal "aa:bb:cc:dd:ee:0f"
unfolding normalize_mac_address keep_chars strip is_hex lower
normalize_mac_address-IsNormal_example =
    normalize_mac_address-IsNormal "AABB.CCDD.EE0F" "aa:bb:cc:dd:ee:0f" refl
