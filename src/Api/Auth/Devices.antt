-- ===== src/Api/Auth/Devices.antt =====
-- api_auth.py: the identifiers of the device, from the system metadata and the login metadata.
pub mod Clean
use ha_unifi_drive.Prelude.{
  String, Bool, true, false, Option, none, some, List, [], ◌∷◌, ◌++◌, Dict, in_texts, text_eq,
  if◌then◌else◌, ◌or_else◌,
}
use ha_unifi_drive.Payload.{Value, as_dict, as_list, get}
use ha_unifi_drive.System.{stripped_str}
use ha_unifi_drive.WakeOnLan.{normalize_mac_address}

-- What one key of the metadata gives: a MAC address that is not valid is passed over.
abbrev pub candidate_at : Dict Value → String → Option String
candidate_at payload key = elim (stripped_str (get payload key)) [
  | none ↦ none
  | some text ↦
      if in_texts key ("mac" ∷ "macAddress" ∷ "mac_address" ∷ [])
      then normalize_mac_address text
      else some text
]

unfoldable pub first_candidate : Dict Value → List String → Option String
first_candidate payload [] = none
first_candidate payload (key ∷ keys) = candidate_at payload key or_else first_candidate payload keys

abbrev pub identifier_keys : List String
identifier_keys =
    "systemId" ∷ "system_id" ∷ "uuid" ∷ "serial" ∷ "serialNumber" ∷ "serial_number" ∷ "unique_id"
    ∷ "uniqueId" ∷ "deviceId" ∷ "mac" ∷ "macAddress" ∷ "mac_address" ∷ []

-- `_system_field_candidates`
unfoldable pub system_field_candidates : Bool → Dict Value → Option String
unfolding first_candidate
system_field_candidates include_fallback_id payload =
    first_candidate payload identifier_keys
    or_else (if include_fallback_id then stripped_str (get payload "id") else none)

unfoldable pub candidate_of : Value → Option String
unfolding system_field_candidates
candidate_of v = elim (as_dict v) [
  | none ↦ none
  | some device ↦ system_field_candidates true device
]

unfoldable pub first_device : List Value → Option String
unfolding candidate_of
first_device [] = none
first_device (v ∷ vs) = candidate_of v or_else first_device vs

-- `_first_valid_system_identifier_from_system_section`
unfoldable pub section_identifier : Value → Option String
unfolding as_dict as_list get first_device
section_identifier section = elim (as_dict section) [
  | none ↦ none
  | some devices ↦ elim (as_list (get devices "unifiOS")) [
    | none ↦ none
    | some unifi_os ↦ first_device unifi_os
  ]
]

-- `_system_device_unique_id`, of the system metadata.
unfoldable pub system_device_unique_id : Option (Dict Value) → Option String
unfolding system_field_candidates candidate_of section_identifier
system_device_unique_id none = none
system_device_unique_id (some system) =
    system_field_candidates false system
    or_else candidate_of (get system "hardware")
    or_else section_identifier (get system "devices")
    or_else system_field_candidates true system

-- `_add` of `device_unique_ids`
unfoldable pub add_identifier : List String → Option String → List String
add_identifier known none = known
add_identifier known (some text) = if in_texts text known then known else known ++ (text ∷ [])

unfoldable pub add_fields : List String → Dict Value → List String → List String
unfolding add_identifier
add_fields known login [] = known
add_fields known login (key ∷ keys) =
    add_fields (add_identifier known (stripped_str (get login key))) login keys

abbrev pub told_identifier : Option String → Option String
told_identifier none = none
told_identifier (some text) = stripped_str (Value.str text)

abbrev pub system_identifier : Option (Dict Value) → Option String
system_identifier system = told_identifier (system_device_unique_id system)

-- `device_unique_ids`, of the system metadata and the login metadata.
unfoldable pub device_unique_ids : Option (Dict Value) → Option (Dict Value) → List String
unfolding add_fields add_identifier
device_unique_ids system none = add_identifier [] (system_identifier system)
device_unique_ids system (some login) =
    add_fields (add_identifier [] (system_identifier system)) login
      ("unique_id" ∷ "uniqueId" ∷ "id" ∷ "deviceId" ∷ [])

-- `device_unique_id`
unfoldable pub device_unique_id : Option (Dict Value) → Option (Dict Value) → Option String
unfolding device_unique_ids
device_unique_id system login = elim (device_unique_ids system login) [
  | [] ↦ none
  | identifier ∷ _ ↦ some identifier
]

abbrev pub scoped_identifiers : Option String → List String
scoped_identifiers none = []
scoped_identifiers (some text) = if text_eq text "" then [] else text ∷ []

-- `device_scoped_unique_ids`
unfoldable pub device_scoped_unique_ids : Option (Dict Value) → List String
unfolding system_device_unique_id
device_scoped_unique_ids system = scoped_identifiers (system_device_unique_id system)
