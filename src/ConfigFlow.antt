-- ===== src/ConfigFlow.antt =====
-- config_flow_identity.py and the end of config_flow_validation.py: which config entry the device
-- belongs to that a connection was validated with.
pub mod Laws
use ha_unifi_drive.Prelude.{
  String, Bool, true, false, ◌&&◌, ◌||◌, not, Option, none, some, List, [], ◌∷◌, Dict, ℤ, pos,
  negsuc, in_texts, text_eq, lower, str_int, int_of_text, ◌⧺◌, ◌==◌, if◌then◌else◌, is_some,
}
use ha_unifi_drive.Payload.{Value, null, bool, int, float, str, list, dict, get, int_of, as_list}
use ha_unifi_drive.Discovery.{feature_defaults, discovery_mac_key}
use ha_unifi_drive.Api.Auth.Devices.{device_unique_ids, device_scoped_unique_ids, add_identifier}

-- What a validated connection says of the entry to create.
pub record Info : Type 0 where
  pub title : String
  pub unique_id : String
  pub unique_ids : List String
  pub scoped_ids : List String
  pub host : String
  pub port : ℤ

-- A config entry, by its identifier and its data.
pub record KnownEntry : Type 0 where
  pub entry_unique_id : Option String
  pub settings : Dict Value

-- `x or y`, on texts.
abbrev pub non_empty_or : Option String → String → String
non_empty_or none other = other
non_empty_or (some s) other = if text_eq s "" then other else s

abbrev pub with_identifier : List String → String → List String
with_identifier known item = if text_eq item "" then known else add_identifier known (some item)

unfoldable pub distinct_from : List String → List String → List String
unfolding add_identifier
distinct_from known [] = known
distinct_from known (item ∷ more) = distinct_from (with_identifier known item) more

unfoldable pub without_empty : List String → List String
without_empty [] = []
without_empty (s ∷ more) = let rest = without_empty more in if text_eq s "" then rest else s ∷ rest

abbrev pub connection_id : String → ℤ → String
connection_id host port = host ⧺ ":" ⧺ str_int port

-- `_entry_info` for a host and a port.
unfoldable pub info_of : String → ℤ → Option String → List String → List String → Info
unfolding distinct_from without_empty
info_of name port unique_id unique_ids scoped =
    let resolved = non_empty_or unique_id (connection_id (lower name) port) in
    record {
      title = "UniFi Drive (" ⧺ name ⧺ ")";
      unique_id = resolved;
      unique_ids = distinct_from [] (resolved ∷ unique_ids);
      scoped_ids = without_empty scoped;
      host = lower name;
      port = port;
    }

abbrev pub as_text : Value → Option String
as_text (str s) = some s
as_text _ = none

-- `_entry_info`: `none` where the host is no text or the port no number, which raises.
unfoldable pub entry_info : Dict Value → Option String → List String → List String → Option Info
unfolding get int_of
entry_info settings unique_id unique_ids scoped = elim (as_text (get settings "host")) [
  | none ↦ none
  | some name ↦ elim (int_of (get settings "port")) [
    | none ↦ none
    | some port ↦ some (info_of name port unique_id unique_ids scoped)
  ]
]

abbrev pub first_or : List String → Option String → Option String
first_or [] other = other
first_or (s ∷ _) _ = some s

abbrev pub readable_pools : Value → Bool
readable_pools null = true
readable_pools value = is_some (as_list value)

-- The end of `_validate_input`, for the storage that the client has read: `none` where it raises. A
-- MAC address of the system stands in where the client knows no identifier.
unfoldable pub validated_info :
    Dict Value → Dict Value → Option (Dict Value) → Option (Dict Value) → Option Info
unfolding entry_info as_list
validated_info settings storage system login =
    let ids = device_unique_ids system login in
    let fallback =
      discovery_mac_key (get (feature_defaults (get storage "_system")) "wol_mac_address") in
    if readable_pools (get storage "pools")
    then entry_info settings (first_or ids fallback) ids (device_scoped_unique_ids system)
    else none

-- `_port_int_or_none`
unfoldable pub port_int_or_none : Value → Option ℤ
unfolding int_of_text
port_int_or_none (int i) = some i
port_int_or_none (str s) = int_of_text s
port_int_or_none _ = none

-- `_connection_unique_id_from_info`
unfoldable pub connection_unique_id : Info → Option String
connection_unique_id info =
    if text_eq info.host "" then none else some (connection_id (lower info.host) info.port)

abbrev eqb_ℤ : ℤ → ℤ → Bool
eqb_ℤ (pos a) (pos b) = a == b
eqb_ℤ (negsuc a) (negsuc b) = a == b
eqb_ℤ _ _ = false

-- `_entry_connection_matches_info`
unfoldable pub entry_connection_matches : KnownEntry → Info → Bool
unfolding port_int_or_none get
entry_connection_matches entry info = elim (as_text (get entry.settings "host")) [
  | none ↦ false
  | some name ↦ elim (port_int_or_none (get entry.settings "port")) [
    | none ↦ false
    | some port ↦ text_eq (lower name) (lower info.host) && eqb_ℤ port info.port
  ]
]

-- `_entry_unique_id_matches_connection_fallback`
unfoldable pub matches_connection_fallback : String → KnownEntry → Info → Bool
unfolding connection_unique_id entry_connection_matches
matches_connection_fallback identifier entry info = elim (connection_unique_id info) [
  | none ↦ false
  | some connection ↦ text_eq (lower identifier) connection && entry_connection_matches entry info
]

abbrev pub no_ids : List String → Bool
no_ids [] = true
no_ids (_ ∷ _) = false

-- `identifier in (device_scoped_ids or {info["unique_id"]})`
abbrev pub is_current_id : String → Info → Bool
is_current_id identifier info =
    if no_ids info.scoped_ids
    then text_eq identifier info.unique_id
    else in_texts identifier info.scoped_ids

-- `_entry_unique_id_matches`
unfoldable pub entry_unique_id_matches : Option String → Info → Bool
entry_unique_id_matches none info = false
entry_unique_id_matches (some identifier) info =
    if text_eq identifier "" then false else is_current_id identifier info

unfoldable pub identifier_matches : Option String → KnownEntry → Info → Bool
identifier_matches none entry info = false
identifier_matches (some identifier) entry info =
    if text_eq identifier ""
    then false
    else if in_texts identifier info.scoped_ids
    then true
    else if no_ids info.scoped_ids && text_eq identifier info.unique_id
    then true
    else matches_connection_fallback identifier entry info

-- `_entry_matches_validated_device`
unfoldable pub entry_matches : KnownEntry → Info → Bool
entry_matches entry info = identifier_matches entry.entry_unique_id entry info

-- What one entry says in `_any_unique_id_configured`, by its identifier.
unfoldable pub is_configured : Option String → KnownEntry → Info → Bool
is_configured none entry info = false
is_configured (some identifier) entry info =
    is_current_id identifier info
    || (not (text_eq identifier "") && matches_connection_fallback identifier entry info)

-- `_any_unique_id_configured`
unfoldable pub any_unique_id_configured : List KnownEntry → Info → Bool
any_unique_id_configured [] info = false
any_unique_id_configured (entry ∷ more) info =
    is_configured entry.entry_unique_id entry info || any_unique_id_configured more info
