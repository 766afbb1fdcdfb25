-- ===== src/Discovery.antt =====
-- discovery.py with discovery_common.py and discovery_identity.py: what the system metadata says of
-- Wake-on-LAN.
use ha_unifi_drive.Prelude.{
  String, Bool, true, false, not, ◌||◌, Option, none, some, List, [], ◌∷◌, ◌++◌, Dict, in_texts,
  text_eq, strip, lower, is_some, if◌then◌else◌, ◌or_else◌,
}
use ha_unifi_drive.Payload.{Value, null, bool, str, as_dict, as_list, get, str_value, is_blank}
use ha_unifi_drive.WakeOnLan.{normalize_mac_address}

text_or_none : String → Option String
text_or_none text = if text_eq text "" then none else some text

-- `clean_text`
clean_text : Value → Option String
unfolding text_or_none strip str_value
clean_text null = none
clean_text value = text_or_none (strip (str_value value))

bool_of_text : Option String → Option Bool
unfolding lower
bool_of_text none = none
bool_of_text (some text) =
    if in_texts (lower text) ("1" ∷ "true" ∷ "yes" ∷ "on" ∷ "enabled" ∷ [])
    then some true
    else if in_texts (lower text) ("0" ∷ "false" ∷ "no" ∷ "off" ∷ "disabled" ∷ [])
    then some false
    else none

-- `parse_bool`
parse_bool : Value → Option Bool
unfolding bool_of_text clean_text
parse_bool (bool b) = some b
parse_bool value = bool_of_text (clean_text value)

mapping_text : Dict Value → List String → Option String
unfolding clean_text get
mapping_text payload [] = none
mapping_text payload (key ∷ keys) = clean_text (get payload key) or_else mapping_text payload keys

mapping_bool : Dict Value → List String → Option Bool
unfolding parse_bool get
mapping_bool payload [] = none
mapping_bool payload (key ∷ keys) = parse_bool (get payload key) or_else mapping_bool payload keys

abbrev if_dict : Option (Dict Value) → List (Dict Value) → List (Dict Value)
if_dict none rest = rest
if_dict (some d) rest = d ∷ rest

dicts_under : Dict Value → List String → List (Dict Value)
unfolding as_dict get
dicts_under payload [] = []
dicts_under payload (key ∷ keys) = if_dict (as_dict (get payload key)) (dicts_under payload keys)

dicts_of : List Value → List (Dict Value)
unfolding as_dict
dicts_of [] = []
dicts_of (v ∷ vs) = if_dict (as_dict v) (dicts_of vs)

abbrev listed_dicts : Option (List Value) → List (Dict Value)
unfolding dicts_of
listed_dicts none = []
listed_dicts (some vs) = dicts_of vs

abbrev device_dicts : Option (Dict Value) → List (Dict Value)
unfolding listed_dicts as_list get
device_dicts none = []
device_dicts (some devices) = listed_dicts (as_list (get devices "unifiOS"))

-- `_system_wol_containers`
system_wol_containers : Dict Value → List (Dict Value)
unfolding dicts_under device_dicts as_dict get
system_wol_containers payload =
    payload
    ∷ (dicts_under payload (
          "hardware" ∷ "network" ∷ "ethernet" ∷ "lan" ∷ "settings" ∷ "power" ∷ "wakeOnLan"
          ∷ "wake_on_lan" ∷ [])
        ++ device_dicts (as_dict (get payload "devices")))

nested_in : List (Dict Value) → List (Dict Value)
unfolding dicts_under
nested_in [] = []
nested_in (parent ∷ more) =
    dicts_under parent ("wol" ∷ "wakeOnLan" ∷ "wake_on_lan" ∷ "wake-on-lan" ∷ []) ++ nested_in more

abbrev wol_keys : List String
wol_keys =
    "wol" ∷ "wolEnabled" ∷ "wol_enabled" ∷ "wakeOnLan" ∷ "wakeOnLanEnabled" ∷ "wake_on_lan"
    ∷ "wake_on_lan_enabled" ∷ "enableWakeOnLan" ∷ "enable_wake_on_lan" ∷ "isWolEnabled"
    ∷ "isWakeOnLanEnabled" ∷ []

-- The loop over the containers: the first answer to each question stands.
scan_containers : List (Dict Value) → Option Bool × Option String → Option Bool × Option String
unfolding mapping_bool mapping_text
scan_containers [] seen = seen
scan_containers (container ∷ more) (enabled, mac) = scan_containers more (
  enabled or_else mapping_bool container wol_keys,
  mac
      or_else mapping_text container
          ("mac" ∷ "macAddress" ∷ "mac_address" ∷ "hwAddr" ∷ "hw_addr" ∷ []),
)

nested_enabled : List (Dict Value) → Option Bool
unfolding mapping_bool
nested_enabled [] = none
nested_enabled (container ∷ more) =
    mapping_bool container ("enabled" ∷ "value" ∷ "state" ∷ []) or_else nested_enabled more

abbrev enabled_entry : Option Bool → Option String → Dict Value
enabled_entry none mac = []
enabled_entry (some enabled) mac =
    if is_some mac || not enabled then ("wol_enabled", bool enabled) ∷ [] else []

abbrev mac_entry : Option String → Dict Value
mac_entry none = []
mac_entry (some mac) = ("wol_mac_address", str mac) ∷ []

wol_defaults : Dict Value → Option Bool × Option String → Dict Value
unfolding nested_enabled nested_in system_wol_containers
wol_defaults payload (enabled, mac) =
    enabled_entry (enabled or_else nested_enabled (nested_in (system_wol_containers payload))) mac
    ++ mac_entry mac

-- `feature_defaults_from_system_payload`
unfoldable pub feature_defaults : Value → Dict Value
unfolding wol_defaults scan_containers system_wol_containers as_dict
feature_defaults value = elim (as_dict value) [
  | none ↦ []
  | some payload ↦
      wol_defaults payload (scan_containers (system_wol_containers payload) (none, none))
]

-- `discovery_mac_key`
unfoldable pub discovery_mac_key : Value → Option String
unfolding is_blank str_value
discovery_mac_key value = if is_blank value then none else normalize_mac_address (str_value value)
