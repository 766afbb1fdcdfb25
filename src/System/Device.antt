-- ===== src/System/Device.antt =====
-- device.py: what Home Assistant is told of the device.
use ha_unifi_drive.Prelude.{
  String, Bool, true, false, ◌||◌, not, Option, none, some, List, [], ◌∷◌, ◌++◌, Dict, has_key,
  text_eq, if◌then◌else◌, ◌or_else◌,
}
use ha_unifi_drive.Payload.{Value, as_dict, get, dict, fields_of}
use ha_unifi_drive.System.{dict_or_empty, system_payload, first_text, unifi_os_version}

has_any_key : Dict Value → List String → Bool
has_any_key d [] = false
has_any_key d (key ∷ keys) = has_key key d || has_any_key d keys

-- `_looks_like_system_payload`
looks_like_system_payload : Dict Value → Bool
unfolding has_any_key
looks_like_system_payload payload =
    has_any_key payload
      ("hardware" ∷ "firmwareVersion" ∷ "firmware_version" ∷ "ucore_version" ∷ "version" ∷ [])

wrapped : Dict Value → Dict Value
unfolding fields_of
wrapped system = ("_system", dict (fields_of system)) ∷ []

from_client : Option (Dict Value) → Dict Value
unfolding wrapped
from_client none = []
from_client (some system) = wrapped system

is_empty : Dict Value → Bool
is_empty [] = true
is_empty (_ ∷ _) = false

-- `_device_metadata_payload`, by the data of the coordinator and the metadata of its client.
unfoldable pub device_metadata_payload : Option (Dict Value) → Option (Dict Value) → Dict Value
unfolding from_client wrapped looks_like_system_payload is_empty
device_metadata_payload none client_system = from_client client_system
device_metadata_payload (some payload) client_system =
    if not (is_empty (system_payload payload))
    then payload
    else if looks_like_system_payload payload
    then wrapped payload
    else from_client client_system

-- The fields of `DeviceInfo` that are set.
pub record DeviceInfo : Type 0 where
  pub identifiers : List (String × String)
  pub manufacturer : String
  pub model : String
  pub name : String
  pub sw_version : Option String
  pub configuration_url : Option String

non_empty : Option String → Option String
non_empty none = none
non_empty (some s) = if text_eq s "" then none else some s

device_model : Option String → String
device_model none = "UniFi Drive / UNAS"
device_model (some found) = found

-- `build_device_info`: the given URL, or the base URL of the client where it has one.
unfoldable pub build_device_info :
    Option (Dict Value)
    → Option (Dict Value)
    → Option String
    → String
    → String
    → Option String
    → DeviceInfo
unfolding device_metadata_payload first_text unifi_os_version non_empty device_model
build_device_info coordinator_data client_system base_url title device_identifier url =
    let payload = device_metadata_payload coordinator_data client_system in
    let hardware = dict_or_empty (as_dict (get (system_payload payload) "hardware")) in
    record {
      identifiers = ("unifi_unas", device_identifier) ∷ [];
      manufacturer = "Ubiquiti";
      model = device_model (first_text hardware ("shortname" ∷ "name" ∷ []));
      name = title;
      sw_version = unifi_os_version payload;
      configuration_url = non_empty url or_else base_url;
    }

entry_of : String → Option String → Dict String
unfolding non_empty
entry_of key value = elim (non_empty value) [ none ↦ [] | some s ↦ (key, s) ∷ [] ]

-- `device_registry_metadata`
unfoldable pub device_registry_metadata : DeviceInfo → Dict String
unfolding entry_of
device_registry_metadata info =
    entry_of "manufacturer" (some info.manufacturer)
    ++ entry_of "model" (some info.model)
    ++ entry_of "sw_version" info.sw_version
    ++ entry_of "configuration_url" info.configuration_url
