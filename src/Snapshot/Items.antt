-- ===== src/Snapshot/Items.antt =====
-- snapshot_payload.py: one item of the payload of the snapshot settings, and its target.
use ha_unifi_drive.Prelude.{
  String, Bool, false, ◌||◌, Option, none, some, List, [], ◌∷◌, Dict, ℤ, pos, ltb_ℤ, text_eq, strip,
  ◌⧺◌, has_key, ◌or_else◌, if◌then◌else◌,
}
use ha_unifi_drive.Payload.{Value, null, bool, int, str, get, or_value, as_dict}
use ha_unifi_drive.Snapshot.Values.{
  dict_from_item, value_from_dict, first_int_value, first_bool_value,
}
use ha_unifi_drive.Snapshot.Schedule.{schedule_frequency}
use ha_unifi_drive.Snapshot.Clock.{schedule_time}
use ha_unifi_drive.Snapshot.Targets.{normalize_target_type}

abbrev text_or_null : Option String → Value
text_or_null none = null
text_or_null (some s) = str s

abbrev int_or_null : Option ℤ → Value
int_or_null none = null
int_or_null (some i) = int i

abbrev flag : Option Bool → Bool → Bool
flag none other = other
flag (some b) other = b

abbrev is_positive : Option ℤ → Bool
is_positive none = false
is_positive (some i) = ltb_ℤ (pos 0) i

abbrev schedule_of : Dict Value → Dict Value
schedule_of item = elim (as_dict (get item "schedule")) [ none ↦ [] | some d ↦ d ]

-- `_snapshot_setting_from_item`: the target, its kind, id, name, user, whether it is the user's own,
-- and the name of its shared drive.
unfoldable pub setting_from_item :
    Dict Value → String → String → String → Option String → Bool → Option String → Dict Value
setting_from_item item kind id name user_id is_current_user shared_drive_name =
    let schedule = schedule_of item in
    let max_count = first_int_value item ("maxCount" ∷ "max_count" ∷ []) in
    let schedule_enabled = first_bool_value schedule ("enable" ∷ "enabled" ∷ []) in
    ("id", str id)
    ∷ ("name", str name)
    ∷ ("type", str kind)
    ∷ ("user_id", text_or_null user_id)
    ∷ ("is_current_user", bool is_current_user)
    ∷ ("shared_drive_name", text_or_null shared_drive_name)
    ∷ (
      "enabled",
      bool (flag (first_bool_value item ("enabled" ∷ "enable" ∷ [])) (is_positive max_count)),
    )
    ∷ ("max_count", int_or_null max_count)
    ∷ ("total_count", int_or_null (first_int_value item ("totalCount" ∷ "total_count" ∷ [])))
    ∷ ("locked_count", int_or_null (first_int_value item ("lockedCount" ∷ "locked_count" ∷ [])))
    ∷ ("paused", bool (flag (first_bool_value item ("paused" ∷ [])) false))
    ∷ (
      "restoring_drive",
      bool (flag (first_bool_value item ("restoringDrive" ∷ "restoring_drive" ∷ [])) false),
    )
    ∷ ("schedule_enabled", bool (flag schedule_enabled false))
    ∷ ("schedule_frequency", text_or_null (schedule_frequency schedule schedule_enabled))
    ∷ ("schedule_time", text_or_null (schedule_time schedule))
    ∷ (
      "schedule_weekdays",
      text_or_null (value_from_dict schedule ("weekdays" ∷ "weekDays" ∷ "week_days" ∷ [])),
    )
    ∷ (
      "schedule_monthdays",
      text_or_null (value_from_dict schedule ("monthdays" ∷ "monthDays" ∷ "month_days" ∷ [])),
    )
    ∷ []

-- `_snapshot_target_type`, on a dict.
unfoldable pub item_target_type : Dict Value → Option String
item_target_type item =
    let value = normalize_target_type (
      or_value (get item "type")
        (or_value (get item "targetType") (or_value (get item "target_type") (str "")))) in
    if text_eq value "mydrive" || text_eq value "shared"
    then some value
    else if has_key "sharedDrive" item
        || has_key "shared_drive" item
        || has_key "sharedDriveName" item
    then some "shared"
    else if has_key "user" item || has_key "owner" item
    then some "mydrive"
    else none

abbrev name_keys : List String
name_keys = "sharedDriveName" ∷ "shared_drive_name" ∷ "name" ∷ []

abbrev drive_keys : List String
drive_keys = "sharedDrive" ∷ "shared_drive" ∷ "drive" ∷ []

-- `_snapshot_shared_target_id`; `_value_from_dict` never returns an empty text.
unfoldable pub shared_target_id : Dict Value → Option String
shared_target_id item =
    let drive = dict_from_item item drive_keys in
    value_from_dict drive ("id" ∷ "uuid" ∷ "name" ∷ [])
    or_else value_from_dict item ("sharedDriveId" ∷ "shared_drive_id" ∷ [])
    or_else value_from_dict item ("id" ∷ [])
    or_else value_from_dict drive ("name" ∷ "id" ∷ "uuid" ∷ [])
    or_else value_from_dict item name_keys

-- `_snapshot_shared_target_name`
unfoldable pub shared_target_name : Dict Value → Option String
shared_target_name item =
    value_from_dict (dict_from_item item drive_keys) ("name" ∷ "id" ∷ "uuid" ∷ [])
    or_else value_from_dict item name_keys

-- `_personal_snapshot_identity`: the id of the target, and that of its user.
unfoldable pub personal_identity : Dict Value → Dict Value → Option String × Option String
personal_identity item user =
    let user_id =
      value_from_dict user ("id" ∷ "unique_id" ∷ "uuid" ∷ [])
      or_else value_from_dict item
          ("userId" ∷ "user_id" ∷ "ownerId" ∷ "owner_id" ∷ "accountId" ∷ "account_id" ∷ []) in
    (
      user_id
          or_else value_from_dict item (
              "targetId" ∷ "target_id" ∷ "driveId" ∷ "drive_id" ∷ "personalDriveId"
              ∷ "personal_drive_id" ∷ "id" ∷ "uuid" ∷ []),
      user_id,
    )

abbrev same_text : String → Option String → Bool
same_text s none = false
same_text s (some t) = text_eq s t

-- `_snapshot_target_is_current_user`
unfoldable pub is_current_user : Option String → Option String → String → Bool
is_current_user none user_id target_id = false
is_current_user (some current) user_id target_id =
    same_text current user_id || text_eq current target_id

-- The parts of a name that are there, with a space between two.
abbrev full_name : Option String → Option String → String
full_name none none = ""
full_name (some first) none = first
full_name none (some last) = last
full_name (some first) (some last) = first ⧺ " " ⧺ last

-- `_user_display_name`
unfoldable pub user_display_name : Dict Value → Option String
user_display_name user =
    let full = strip (
      full_name (value_from_dict user ("firstName" ∷ "first_name" ∷ []))
        (value_from_dict user ("lastName" ∷ "last_name" ∷ []))) in
    if text_eq full ""
    then value_from_dict user ("displayName" ∷ "display_name" ∷ "name" ∷ "username" ∷ [])
    else some full

abbrev or_text : Option String → String → String
or_text none other = other
or_text (some s) other = s

-- One round of `_extract_snapshot_personal_from_items`.
unfoldable pub personal_setting : Option String → Dict Value → Option (Dict Value)
personal_setting current_user_id item =
    let user = dict_from_item item ("user" ∷ "owner" ∷ []) in
    let (target_id, user_id) = personal_identity item user in
    elim target_id [
      | none ↦ none
      | some id ↦ some (
          setting_from_item item "mydrive" id
            (or_text (user_display_name user)
              (or_text (value_from_dict item ("name" ∷ "targetName" ∷ [])) "My Drive"))
            user_id (is_current_user current_user_id user_id id) none)
    ]

-- One round of `_extract_snapshot_shared_from_items`.
unfoldable pub shared_setting : Dict Value → Option (Dict Value)
shared_setting item = elim (shared_target_name item) [
  | none ↦ none
  | some name ↦ some (
      setting_from_item item "shared" (or_text (shared_target_id item) name) name none false
        (some name))
]

-- One round of `_extract_snapshot_settings_from_list`.
unfoldable pub any_setting : Option String → Dict Value → Option (Dict Value)
any_setting current_user_id item = elim (item_target_type item) [
  | none ↦ none
  | some kind ↦
      if text_eq kind "mydrive"
      then personal_setting current_user_id item
      else if text_eq kind "shared"
      then shared_setting item
      else none
]
