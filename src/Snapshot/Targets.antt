-- ===== src/Snapshot/Targets.antt =====
-- snapshot_types.py and snapshot_paths.py: the kind and the key of a target, and its endpoints.
use Prim.Native.Char.{code}
use Prim.Native.String.{[], ◌∷◌}
use ha_unifi_drive.Prelude.{
  ℕ, ◌+◌, ◌/◌, ◌%◌, String, Bool, not, ◌&&◌, ◌||◌, Option, none, some, List, [], ◌∷◌, Dict, ltb,
  leb, ◌==◌, text_eq, in_texts, strip, lower, nth, ◌⧺◌, lookup, if◌then◌else◌,
}
use ha_unifi_drive.Payload.{Value, str, get, or_value, str_value}
use ha_unifi_drive.Api.Session.{ApiError, unexpected_response, Result, ok, err}

abbrev pub mydrive_words : List String
mydrive_words = "mydrive" ∷ "my_drive" ∷ "personal" ∷ "user" ∷ []

abbrev pub shared_words : List String
shared_words = "shared" ∷ "shared_drive" ∷ "shareddrive" ∷ []

abbrev pub canonical_type : String → String
canonical_type word =
    if in_texts word mydrive_words
    then "mydrive"
    else if in_texts word shared_words
    then "shared"
    else word

-- `normalize_snapshot_target_type`
unfoldable pub normalize_target_type : Value → String
normalize_target_type value = canonical_type (lower (strip (str_value (or_value value (str "")))))

-- `snapshot_target_type`
unfoldable pub target_type : Dict Value → String
target_type target = normalize_target_type (get target "type")

-- `str(target.get("id", "")).strip()`: an id that is there and null is read as "None".
abbrev pub id_text : Option Value → String
id_text none = ""
id_text (some v) = strip (str_value v)

-- `snapshot_target_key`
unfoldable pub target_key : Dict Value → String
target_key target =
    let kind = target_type target in
    let id = id_text (lookup "id" target) in
    if text_eq kind "" || text_eq id "" then "" else kind ⧺ "_" ⧺ id

-- `urllib.parse.quote(text, safe="")`: the UTF-8 bytes of a character that is not kept.
abbrev hex : ℕ → String
hex n = nth n "0123456789ABCDEF" ∷ []

abbrev percent : ℕ → String
percent byte = "%" ⧺ hex (byte / 16) ⧺ hex (byte % 16)

abbrev is_kept : ℕ → Bool
is_kept c =
    (leb b'A' c && leb c b'Z')
    || (leb b'a' c && leb c b'z')
    || (leb b'0' c && leb c b'9')
    || c == b'_'
    || c == b'.'
    || c == b'-'
    || c == b'~'

encoded : ℕ → String
encoded c =
    if ltb c 128
    then percent c
    else if ltb c 2048
    then percent (192 + c / 64) ⧺ percent (128 + c % 64)
    else if ltb c 65536
    then percent (224 + c / 4096) ⧺ percent (128 + (c / 64) % 64) ⧺ percent (128 + c % 64)
    else percent (240 + c / 262144)
      ⧺ percent (128 + (c / 4096) % 64)
      ⧺ percent (128 + (c / 64) % 64)
      ⧺ percent (128 + c % 64)

unfoldable pub quote : String → String
unfolding encoded
quote [] = ""
quote (c ∷ s) = (if is_kept (code c) then c ∷ "" else encoded (code c)) ⧺ quote s

abbrev stripped_field : Value → String
stripped_field v = strip (str_value (or_value v (str "")))

-- The id of a personal target, and of any target that is written.
abbrev user_or_id : Dict Value → String
user_or_id target = stripped_field (or_value (get target "user_id") (get target "id"))

abbrev setting_shared_path : String → String
setting_shared_path id = "/proxy/drive/api/v1/snapshot-settings/shared/" ⧺ quote id

abbrev setting_personal_path : String → String
setting_personal_path id = "/proxy/drive/api/v1/snapshot-settings/personal/" ⧺ quote id

abbrev pub shared_snapshots_path : String → String
shared_snapshots_path name = "/proxy/drive/api/v1/snapshots/shared/" ⧺ quote name

abbrev personal_snapshots_path : String → String
personal_snapshots_path id = "/proxy/drive/api/v1/snapshots/personal/" ⧺ quote id

abbrev missing_type : ApiError
missing_type = unexpected_response "Snapshot target type is missing"

abbrev missing_id : ApiError
missing_id = unexpected_response "Snapshot target id is missing"

abbrev unsupported_type : String → ApiError
unsupported_type kind = unexpected_response ("Unsupported snapshot target type: " ⧺ kind)

abbrev shared_write_paths : String → String → List String
shared_write_paths name id =
    if not (text_eq name "") && not (text_eq name id)
    then setting_shared_path name ∷ setting_shared_path id ∷ []
    else setting_shared_path id ∷ []

-- `_snapshot_settings_write_paths`
unfoldable pub settings_write_paths : Dict Value → Result (List String)
settings_write_paths target =
    let kind = target_type target in
    let id = user_or_id target in
    let name = stripped_field (get target "shared_drive_name") in
    if text_eq kind ""
    then err missing_type
    else if text_eq id ""
    then err missing_id
    else if text_eq kind "mydrive"
    then ok (setting_personal_path id ∷ [])
    else if text_eq kind "shared"
    then ok (shared_write_paths name id)
    else err (unsupported_type kind)

abbrev shared_create_paths : String → String → Result (List String)
shared_create_paths name id =
    if text_eq name ""
    then (if text_eq id "" then err missing_id else ok (shared_snapshots_path id ∷ []))
    else if not (text_eq id "") && not (text_eq id name)
    then ok (shared_snapshots_path name ∷ shared_snapshots_path id ∷ [])
    else ok (shared_snapshots_path name ∷ [])

abbrev personal_create_paths : String → Result (List String)
personal_create_paths id =
    if text_eq id "" then err missing_id else ok (personal_snapshots_path id ∷ [])

-- `_snapshot_create_paths`, which are the paths of the inventory too.
unfoldable pub create_paths : Dict Value → Result (List String)
create_paths target =
    let kind = target_type target in
    if text_eq kind ""
    then err missing_type
    else if text_eq kind "shared"
    then shared_create_paths (stripped_field (get target "shared_drive_name"))
        (stripped_field (get target "id"))
    else if text_eq kind "mydrive"
    then personal_create_paths (user_or_id target)
    else err (unsupported_type kind)
