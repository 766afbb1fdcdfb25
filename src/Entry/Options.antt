-- ===== src/Entry/Options.antt =====
-- entry_options.py: reading a setting of an entry, and splitting settings into data and options.
pub mod Laws
use ha_unifi_drive.Prelude.{
  String, Bool, not, Option, none, some, List, [], ◌∷◌, ℤ, Dict, lookup, update, keep_keys,
  in_texts,
}
use ha_unifi_drive.Payload.{Value, truthy, int_of, str_value}

pub record ConfigEntry : Type 0 where
  pub entry_data : Dict Value
  pub options : Dict Value

abbrev pub feature_option_keys : List String
feature_option_keys =
    "scan_interval" ∷ "fan_control_enabled" ∷ "snapshot_buttons_enabled" ∷ "discovery_debug"
    ∷ "wol_enabled" ∷ "wol_mac_address" ∷ "wol_broadcast_address" ∷ "wol_port" ∷ []

abbrev pub entry_data_keys : List String
entry_data_keys =
    "host" ∷ "port" ∷ "ssl" ∷ "verify_ssl" ∷ "username" ∷ "password" ∷ "api_key"
    ∷ "discovery_mac_address" ∷ "discovery_host_aliases" ∷ "discovery_last_seen"
    ∷ "discovery_identity_source" ∷ "discovery_confidence" ∷ "discovery_identity_conflicts" ∷ []

abbrev pub or_default : Option Value → Value → Value
or_default none default = default
or_default (some v) default = v

-- `entry_value`
unfoldable pub entry_value : ConfigEntry → String → Value → Value
unfolding lookup
entry_value entry key default = elim (lookup key entry.options) [
  | some v ↦ v
  | none ↦ or_default (lookup key entry.entry_data) default
]

-- `entry_bool`, `entry_int` and `entry_str`, each with its default as a value too.
unfoldable pub entry_bool : ConfigEntry → String → Value → Bool
entry_bool entry key default = truthy (entry_value entry key default)

unfoldable pub entry_int : ConfigEntry → String → ℤ → Value → ℤ
entry_int entry key default default_value = elim (int_of (entry_value entry key default_value)) [
  | none ↦ default
  | some i ↦ i
]

unfoldable pub entry_str : ConfigEntry → String → Value → String
entry_str entry key default = str_value (entry_value entry key default)

-- `merged_entry_data_options`
unfoldable pub merged_entry_data_options : ConfigEntry → Dict Value
merged_entry_data_options entry = update entry.entry_data entry.options

-- `{key: data[key] for key in keys if key in data}`
unfoldable pub pick : List String → Dict Value → Dict Value
pick [] given = []
pick (key ∷ keys) given =
    let rest = pick keys given in elim (lookup key given) [ none ↦ rest | some v ↦ (key, v) ∷ rest ]

-- `feature_options_from_data`, `data_without_feature_options` and `entry_data_from_data`
unfoldable pub feature_options_from_data : Dict Value → Dict Value
feature_options_from_data given = pick feature_option_keys given

unfoldable pub data_without_feature_options : Dict Value → Dict Value
data_without_feature_options given = keep_keys (λ key. not (in_texts key feature_option_keys)) given

unfoldable pub entry_data_from_data : Dict Value → Dict Value
entry_data_from_data given = pick entry_data_keys given

-- `merged_entry_data_with_connection_updates`
unfoldable pub merged_connection_updates : ConfigEntry → Dict Value → Dict Value
merged_connection_updates entry given =
    update (data_without_feature_options entry.entry_data) (entry_data_from_data given)

-- `merged_feature_options`
unfoldable pub merged_feature_options : ConfigEntry → Dict Value → Dict Value
merged_feature_options entry given = update entry.options (feature_options_from_data given)
