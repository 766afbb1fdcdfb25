-- ===== src/Snapshot/Buttons.antt =====
-- snapshot_types.py: the name of a target, and whether its button for creating a snapshot is shown.

use ha_unifi_drive.Prelude.{
  String, Bool, true, false, ◌||◌, Option, none, some, List, [], ◌∷◌, Dict, lookup, text_eq, strip,
  is_some, if◌then◌else◌,
}
use ha_unifi_drive.Payload.{Value, str, get, str_value, truthy}
use ha_unifi_drive.Snapshot.Targets.{target_type, target_key, id_text}
use ha_unifi_drive.Snapshot.Inventory.{error_is_sticky}

-- `snapshot_create_button_supported`
unfoldable pub create_button_supported : Dict Value → Bool → Option String → Bool → Bool
create_button_supported target available reason preserve =
    let kind = target_type target in
    if text_eq kind "shared"
    then true
    else if text_eq kind "mydrive"
    then (if truthy (get target "is_current_user") || available
        then true
        else if error_is_sticky reason
        then false
        else preserve)
    else false

-- `snapshot_create_button_supported_for_inventory`
unfoldable pub create_button_supported_for_inventory :
    {Inventory : Type 0} → Dict Value → Dict Inventory → Dict String → Bool → Bool
unfolding create_button_supported
create_button_supported_for_inventory target inventory errors preserve =
    let key = target_key target in
    if text_eq key ""
    then false
    else create_button_supported target (is_some (lookup key inventory)) (lookup key errors)
        preserve

abbrev stripped_value : Value → Value
stripped_value (str s) = str (strip s)
stripped_value v = v

-- `snapshot_target_name`, for these fields.
unfoldable pub named_by : List String → Dict Value → Option String
named_by [] target = none
named_by (field ∷ fields) target =
    let rest = named_by fields target in
    let value = stripped_value (get target field) in
    if truthy value then some (str_value value) else rest

abbrev id_or_default : String → String
id_or_default id = if text_eq id "" then "Snapshot Target" else id

unfoldable pub target_name : Dict Value → String
unfolding named_by
target_name target =
    elim (named_by ("name" ∷ "display_name" ∷ "shared_drive_name" ∷ "user_name" ∷ []) target) [
      | some name ↦ name
      | none ↦ id_or_default (id_text (lookup "id" target))
    ]
