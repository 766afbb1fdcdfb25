-- ===== src/System.antt =====
-- system_metadata.py: the versions in the system payload of the console.
pub mod Device
use ha_unifi_drive.Prelude.{
  ℕ, String, Bool, true, false, ◌&&◌, ◌||◌, not, Option, none, some, List, [], ◌∷◌, Dict, leb,
  text_eq, in_texts, strip, lower, keep_chars, is_digit, if◌then◌else◌, ◌or_else◌,
}
use ha_unifi_drive.Payload.{
  Value, null, bool, int, float, str, list, dict, as_dict, as_list, get, str_value, or_value,
  is_blank,
}

-- `normalized_token`, on ASCII.
unfoldable pub normalized_token : String → String
normalized_token value = keep_chars (λ c. is_digit c || (leb b'a' c && leb c b'z')) (lower value)

abbrev pub dict_or_empty : Option (Dict Value) → Dict Value
dict_or_empty none = []
dict_or_empty (some d) = d

-- `system_payload`
unfoldable pub system_payload : Dict Value → Dict Value
unfolding get as_dict
system_payload payload = dict_or_empty (as_dict (get payload "_system"))

-- `str(value).strip()`, for values that are not blank and where it is not empty.
unfoldable pub stripped_str : Value → Option String
unfolding is_blank str_value strip
stripped_str value =
    let text = strip (str_value value) in
    if is_blank value || text_eq text "" then none else some text

-- `_text`
unfoldable pub metadata_text : Value → Option String
unfolding stripped_str
metadata_text (bool b) = none
metadata_text value = stripped_str value

-- `_text(d.get(k1)) or _text(d.get(k2)) or ...`
unfoldable pub first_text : Dict Value → List String → Option String
unfolding get metadata_text
first_text d [] = none
first_text d (key ∷ keys) = metadata_text (get d key) or_else first_text d keys

-- `unifi_os_version`
unfoldable pub unifi_os_version : Dict Value → Option String
unfolding first_text system_payload
unifi_os_version payload =
    let system = system_payload payload in
    first_text (dict_or_empty (as_dict (get system "hardware"))) ("firmwareVersion" ∷ [])
    or_else first_text system
        ("firmwareVersion" ∷ "firmware_version" ∷ "ucore_version" ∷ "version" ∷ [])

app_name : Dict Value → String
unfolding normalized_token str_value or_value
app_name item = normalized_token (
    str_value
      (or_value (or_value (or_value (get item "name") (get item "id")) (get item "slug")) (str "")))

-- The version that one item of a list of applications gives.
item_version : Value → Option String
unfolding app_name first_text as_dict
item_version v = elim (as_dict v) [
  | none ↦ none
  | some item ↦
      if in_texts (app_name item) ("drive" ∷ "unifidrive" ∷ [])
      then first_text item ("versionRaw" ∷ "version" ∷ "uiVersion" ∷ "currentVersion" ∷ [])
      else none
]

version_in : List Value → Option String
unfolding item_version
version_in [] = none
version_in (v ∷ vs) = item_version v or_else version_in vs

-- `_drive_version_from_items`
drive_version_from_items : Value → Option String
unfolding version_in as_list
drive_version_from_items value = elim (as_list value) [
  | none ↦ none
  | some found ↦ version_in found
]

version_under : Dict Value → List String → Option String
unfolding drive_version_from_items get
version_under d [] = none
version_under d (key ∷ keys) = drive_version_from_items (get d key) or_else version_under d keys

-- `drive_version`
unfoldable pub drive_version : Dict Value → Option String
unfolding version_under system_payload
drive_version payload =
    let system = system_payload payload in
    let keys = "controllers" ∷ "apps" ∷ "applications" ∷ [] in
    version_under (dict_or_empty (as_dict (get system "apps"))) keys
    or_else version_under system keys
