-- ===== src/Api/Fan/Modes.antt =====
-- api_fan.py: the names of fan modes, and the search for one in a payload.
use ha_unifi_drive.Prelude.{
  String, not, ◌&&◌, ◌||◌, Option, none, some, List, [], ◌∷◌, text_eq, in_texts, strip, lower,
  replace_char, keep_chars, contains, ◌==◌, ◌⧺◌, if◌then◌else◌, ◌or_else◌,
}
use ha_unifi_drive.Payload.{Value, str, list, dict, Items, nil, cons, Fields, end, field}

abbrev pub quiet_words : List String
quiet_words = "quiet" ∷ "silent" ∷ "low" ∷ []

abbrev pub balance_words : List String
balance_words = "balance" ∷ "balanced" ∷ "normal" ∷ "auto" ∷ "default" ∷ "default_profile" ∷ []

abbrev pub cooling_words : List String
cooling_words = "cooling" ∷ "cool" ∷ "high" ∷ "performance" ∷ "perf" ∷ []

unfoldable pub mode_of_word : String → Option String
mode_of_word word =
    if in_texts word quiet_words
    then some "Quiet"
    else if in_texts word balance_words
    then some "Balance"
    else if in_texts word cooling_words
    then some "Cooling"
    else none

-- `_normalize_fan_mode`
unfoldable pub normalize_fan_mode : Value → Option String
normalize_fan_mode (str s) =
    mode_of_word (replace_char b' ' "_" (replace_char b'-' "_" (lower (strip s))))
normalize_fan_mode _ = none

-- `FAN_MODE_EXACT_KEYS`
abbrev pub exact_keys : List String
exact_keys =
    "fanmode" ∷ "fan_mode" ∷ "profile" ∷ "currentprofile" ∷ "fanprofilecurrent" ∷ "fanprofile"
    ∷ "fan_profile" ∷ "fancontrolmode" ∷ "fan_control_mode" ∷ "fanpolicy" ∷ "fan_policy"
    ∷ "thermalmode" ∷ "thermal_mode" ∷ []

-- The two tests of a key, and the mode that its item then names.
unfoldable pub mode_at_key : String → String → Value → Option String
mode_at_key context key item =
    let key_normalized = lower (replace_char b'-' "_" key) in
    let compact_key = keep_chars (λ c. not (c == b'_')) key_normalized in
    let by_key =
      if in_texts compact_key exact_keys || in_texts key_normalized exact_keys
      then normalize_fan_mode item
      else none in
    let by_context =
      if text_eq key_normalized "mode"
        && (contains (lower context) "fan" || contains (lower context) "thermal")
      then normalize_fan_mode item
      else none in
    by_key or_else by_context

abbrev pub child_context : String → String → String
child_context context key = if text_eq context "" then key else context ⧺ "." ⧺ key

-- `_walk_for_fan_mode`
unfoldable mutual
  pub walk_for_fan_mode : String → Value → Option String
  walk_for_fan_mode context (dict fs) = walk_fields context fs
  walk_for_fan_mode context (list vs) = walk_items context vs
  walk_for_fan_mode context _ = none

  pub walk_fields : String → Fields → Option String
  walk_fields context end = none
  walk_fields context (field key item fs) =
      let below = walk_for_fan_mode (child_context context key) item in
      let rest = walk_fields context fs in mode_at_key context key item or_else below or_else rest

  pub walk_items : String → Items → Option String
  walk_items context nil = none
  walk_items context (cons v vs) =
      let rest = walk_items context vs in walk_for_fan_mode context v or_else rest

-- `_extract_fan_mode`
unfoldable pub extract_fan_mode : Value → Option String
unfolding walk_for_fan_mode
extract_fan_mode payload = walk_for_fan_mode "" payload
