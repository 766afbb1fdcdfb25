-- ===== src/Snapshot/Payloads.antt =====
-- snapshot_payload.py: the settings of the snapshot targets, out of the payload of their endpoint.
pub mod Laws
use ha_unifi_drive.Prelude.{
  ℕ, ◌+◌, String, Bool, true, false, not, ◌&&◌, ◌||◌, Option, none, some, List, [], ◌∷◌, ◌++◌, Dict,
  ℤ, pos, ltb_ℤ, length, ◌==◌, text_eq, strip, ◌⧺◌, has_key, ◌or_else◌, if◌then◌else◌, is_some,
}
use ha_unifi_drive.Payload.{Value, null, bool, int, str, get, or_value, as_dict, as_list}
use ha_unifi_drive.Api.Session.{ApiError, unexpected_response, Result, ok, err}
use ha_unifi_drive.Snapshot.Values.{
  dict_from_item, value_from_dict, first_int_value, first_bool_value,
}
use ha_unifi_drive.Snapshot.Schedule.{schedule_frequency}
use ha_unifi_drive.Snapshot.Clock.{schedule_time}
use ha_unifi_drive.Snapshot.Items.{personal_setting, shared_setting, any_setting}
use ha_unifi_drive.Snapshot.Targets.{normalize_target_type}

-- The loops: items that are no dicts, or give no setting, are skipped.
unfoldable pub collect : (Dict Value → Option (Dict Value)) → List Value → List (Dict Value)
collect f [] = []
collect f (v ∷ vs) =
    let rest = collect f vs in
    elim (as_dict v) [
      | none ↦ rest
      | some item ↦ elim (f item) [ none ↦ rest | some setting ↦ setting ∷ rest ]
    ]

-- `payload.get("data", payload) if isinstance(payload, dict) else payload`
unfoldable pub data_of : Value → Value
data_of payload = elim (as_dict payload) [
  | none ↦ payload
  | some d ↦ if has_key "data" d then get d "data" else payload
]

abbrev pub section : (Dict Value → Option (Dict Value)) → Value → List (Dict Value)
section f v = elim (as_list v) [ none ↦ [] | some vs ↦ collect f vs ]

-- `extract_snapshot_settings`
unfoldable pub extract_settings : Value → Option String → List (Dict Value)
extract_settings payload current_user_id = elim (as_list (data_of payload)) [
  | some vs ↦ collect (any_setting current_user_id) vs
  | none ↦ elim (as_dict (data_of payload)) [
    | none ↦ []
    | some d ↦
        section (personal_setting current_user_id) (get d "personal")
        ++ section shared_setting (get d "shared")
  ]
]

-- The length of a section that may be missing; `none` where it is no list.
abbrev section_length : Bool → Value → Option ℕ
section_length present v =
    if present then elim (as_list v) [ none ↦ none | some vs ↦ some (length vs) ] else some 0

abbrev total : Option ℕ → Option ℕ → Option ℕ
total (some m) (some n) = some (m + n)
total _ _ = none

-- The number of items of the payload; `none` where its structure is invalid.
unfoldable pub item_count : Value → Option ℕ
item_count payload = elim (as_list (data_of payload)) [
  | some vs ↦ some (length vs)
  | none ↦ elim (as_dict (data_of payload)) [
    | none ↦ none
    | some d ↦
        if has_key "personal" d || has_key "shared" d
        then total (section_length (has_key "personal" d) (get d "personal"))
            (section_length (has_key "shared" d) (get d "shared"))
        else none
  ]
]

-- `validated_snapshot_settings`
unfoldable pub validated_settings : Value → Option String → Result (List (Dict Value))
validated_settings payload current_user_id =
    let settings = extract_settings payload current_user_id in
    elim (item_count payload) [
      | none ↦ err (unexpected_response "Invalid snapshot settings response structure")
      | some n ↦
          if length settings == n
          then ok settings
          else err (unexpected_response "Snapshot settings response contains unreadable targets")
    ]
