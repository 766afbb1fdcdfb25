-- ===== src/Tests/Devices.antt =====
-- The theorem on the entry that a device is taken for, applied.
use ha_unifi_drive.Prelude.{
  ◌≡◌, refl, ◌||◌, none, some, [], ◌∷◌, Dict, pos, text_eq, lower, keep_chars,
}
use ha_unifi_drive.Payload.{Value, list, nil, fields_of, int, str, dict, field, end}
use ha_unifi_drive.System.{stripped_str}
use ha_unifi_drive.WakeOnLan.{normalize_mac_address, is_hex}
use ha_unifi_drive.Api.Auth.Devices.{
  system_device_unique_id, device_unique_ids, device_scoped_unique_ids,
}
use ha_unifi_drive.ConfigFlow.{
  Info, KnownEntry, info_of, validated_info, entry_matches, any_unique_id_configured,
  entry_unique_id_matches, matches_connection_fallback,
}
use ha_unifi_drive.ConfigFlow.Laws.{validated_info-Recognised}

abbrev first_system : Dict Value
first_system = ("name", str "UNAS") ∷ ("serial", str " A1 ") ∷ []

abbrev later_system : Dict Value
later_system = ("hardware", dict (field "mac" (str "AABB.CCDD.EE0F") end)) ∷ []

abbrev first_login : Dict Value
first_login = ("unique_id", str "user-7") ∷ []

abbrev first_storage : Dict Value
first_storage = ("_system", dict (fields_of first_system)) ∷ []

abbrev later_storage : Dict Value
later_storage = ("pools", list nil) ∷ ("_system", dict (fields_of later_system)) ∷ []

abbrev by_name : Dict Value
by_name = ("host", str "NAS") ∷ ("port", int (pos 443)) ∷ []

abbrev by_address : Dict Value
by_address = ("host", str "10.0.0.9") ∷ ("port", str "8443") ∷ []

abbrev first_info : Info
first_info = info_of "NAS" (pos 443) (some "A1") ("A1" ∷ "user-7" ∷ []) ("A1" ∷ [])

abbrev later_info : Info
later_info =
    info_of "10.0.0.9" (pos 8443) (some "aa:bb:cc:dd:ee:0f") ("aa:bb:cc:dd:ee:0f" ∷ [])
      ("aa:bb:cc:dd:ee:0f" ∷ [])

abbrev created_entry : KnownEntry
created_entry = record { entry_unique_id = some "A1"; settings = by_name }

first_known : system_device_unique_id (some first_system) ≡ some "A1"
unfolding system_device_unique_id stripped_str
first_known = refl

later_known : system_device_unique_id (some later_system) ≡ some "aa:bb:cc:dd:ee:0f"
unfolding system_device_unique_id stripped_str normalize_mac_address keep_chars is_hex lower
later_known = refl

first_told :
    validated_info by_name first_storage (some first_system) (some first_login) ≡ some first_info
unfolding validated_info device_unique_ids device_scoped_unique_ids info_of stripped_str
first_told = refl

later_told : validated_info by_address later_storage (some later_system) none ≡ some later_info
unfolding validated_info device_unique_ids device_scoped_unique_ids info_of stripped_str
    normalize_mac_address keep_chars is_hex lower
later_told = refl

created_name : created_entry.entry_unique_id ≡ some first_info.unique_id
unfolding info_of
created_name = refl

validated_info-Recognised_example :
    (entry_matches created_entry later_info ≡ (
      text_eq "A1" "aa:bb:cc:dd:ee:0f"
      || matches_connection_fallback "A1" created_entry later_info))
    × (any_unique_id_configured (created_entry ∷ []) later_info ≡ (
        (text_eq "A1" "aa:bb:cc:dd:ee:0f"
          || matches_connection_fallback "A1" created_entry later_info)
        || any_unique_id_configured [] later_info))
    × (entry_unique_id_matches created_entry.entry_unique_id later_info
        ≡ text_eq "A1" "aa:bb:cc:dd:ee:0f")
validated_info-Recognised_example =
    validated_info-Recognised by_name by_address first_storage later_storage (some first_system)
      (some later_system) (some first_login) none "A1" "aa:bb:cc:dd:ee:0f" first_info later_info
      created_entry [] first_known later_known first_told later_told created_name
