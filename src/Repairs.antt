-- ===== src/Repairs.antt =====
-- snapshot_repairs.py: the repairs issues about snapshots. Each function acts on the issue registry
-- of an instance that is there; without one the source changes nothing.
pub mod Laws
use Prim.Native.Char.{code}
use Prim.Native.String.{[], ◌∷◌}
use ha_unifi_drive.Prelude.{
  ℕ, String, Bool, true, false, ◌&&◌, ◌||◌, Option, none, some, List, [], ◌∷◌, Dict, ltb, leb, ◌==◌,
  text_eq, strip, lower, rstrip_by, decimal, ◌⧺◌, lookup, if◌then◌else◌,
}
use ha_unifi_drive.Payload.{Value, str, get, or_value, str_value}
use ha_unifi_drive.Api.Session.{
  ApiError, cannot_connect, invalid_auth, unexpected_response, unsupported_feature, value_error,
}
use ha_unifi_drive.Snapshot.Targets.{normalize_target_type, id_text}

pub record Issue : Type 0 where
  pub translation_key : String
  pub placeholders : Dict String

-- The issue registry of Home Assistant, which holds one issue at most for each id of the domain.
pub record IssueRegistry (State : Type 0) : Type 0 where
  pub create : String → Issue → State → State
  pub delete : String → State → State
  pub find : String → State → Option Issue

pub record Entry : Type 0 where
  pub entry_id : String
  pub title : String

pub data Kind : Type 0 where
  permission unavailable : Kind

pub data Capability : Type 0 where
  read create settings : Capability

pub data TargetType : Type 0 where
  shared mydrive : TargetType

abbrev pub kind_name : Kind → String
kind_name permission = "permission"
kind_name unavailable = "unavailable"

abbrev pub capability_name : Capability → String
capability_name Capability.read = "read"
capability_name Capability.create = "create"
capability_name Capability.settings = "settings"

abbrev pub type_suffix : Option TargetType → String
type_suffix none = ""
type_suffix (some shared) = "_shared"
type_suffix (some mydrive) = "_mydrive"

-- `_snapshot_issue_id`
unfoldable pub issue_id : Entry → Capability → Kind → Option TargetType → String
issue_id entry capability kind target_type =
    (entry.entry_id ⧺ "_snapshot_" ⧺ capability_name capability ⧺ type_suffix target_type)
    ⧺ "_"
    ⧺ kind_name kind

-- `_issue_kind_from_error`
unfoldable pub kind_from_error : ApiError → Kind
kind_from_error (invalid_auth _) = permission
kind_from_error _ = unavailable

abbrev error_text : ApiError → String
error_text (cannot_connect e) = e
error_text (invalid_auth e) = e
error_text (unexpected_response e) = e
error_text (unsupported_feature e) = e
error_text value_error = ""

-- `_target_type_label`
unfoldable pub type_label : Option TargetType → String
type_label (some mydrive) = "My Drive"
type_label (some shared) = "Shared Drive"
type_label none = "snapshot target"

-- `_snapshot_issue_target_type`
unfoldable pub issue_target_type : Dict Value → Option TargetType
issue_target_type target =
    let kind = normalize_target_type (get target "type") in
    if text_eq kind "shared"
    then some shared
    else if text_eq kind "mydrive"
    then some mydrive
    else none

-- `_snapshot_issue_target_name`
unfoldable pub issue_target_name : Dict Value → String
issue_target_name target = str_value (
    or_value (get target "name")
      (or_value (get target "shared_drive_name") (str (id_text (lookup "id" target)))))

abbrev entry_title : Entry → String
entry_title entry = if text_eq entry.title "" then entry.entry_id else entry.title

-- `snapshot_target_slug` of snapshot_types.py; the argument says whether a run is replaced.
slug_chars : Bool → String → String
slug_chars in_run [] = ""
slug_chars in_run (c ∷ s) =
    let kept = slug_chars false s in
    let dropped = slug_chars true s in
    if (leb b'a' (code c) && leb (code c) b'z')
      || (leb b'0' (code c) && leb (code c) b'9')
      || code c == b'_'
    then c ∷ kept
    else if in_run
    then dropped
    else "_" ⧺ dropped

without_leading : String → String
without_leading [] = ""
without_leading (c ∷ s) = let rest = without_leading s in if code c == b'_' then rest else c ∷ s

unfoldable pub target_slug : String → String
unfolding slug_chars without_leading
target_slug value =
    let slug = rstrip_by (λ c. c == b'_') (without_leading (slug_chars false (lower value))) in
    if text_eq slug "" then "target" else slug

-- `_snapshot_target_missing_issue_id`
unfoldable pub target_missing_issue_id : Entry → String → String
target_missing_issue_id entry target_key =
    entry.entry_id ⧺ "_snapshot_target_" ⧺ target_slug target_key ⧺ "_missing"

module _ {State : Type 0} (registry : IssueRegistry State) where
  abbrev forget : Entry → Capability → Option TargetType → Kind → State → State
  forget entry capability target_type kind =
      registry.delete (issue_id entry capability kind target_type)

  -- `_clear_snapshot_issue_kinds`
  unfoldable pub clear_kinds : Entry → Capability → Option TargetType → State → State
  clear_kinds entry capability target_type s =
      forget entry capability target_type unavailable
        (forget entry capability target_type permission s)

  -- `_clear_other_snapshot_issue_kinds`
  unfoldable pub clear_other_kinds : Entry → Capability → Kind → Option TargetType → State → State
  clear_other_kinds entry capability permission target_type s =
      forget entry capability target_type unavailable s
  clear_other_kinds entry capability unavailable target_type s =
      forget entry capability target_type permission s

  -- `async_clear_snapshot_action_issues`
  unfoldable pub clear_action_issues : Entry → Capability → Dict Value → State → State
  clear_action_issues entry action target = clear_kinds entry action (issue_target_type target)

  -- `async_update_snapshot_target_missing_issue`
  unfoldable pub update_target_missing_issue :
      Entry → String → String → Option TargetType → ℕ → ℕ → State → State
  update_target_missing_issue entry target_key target_name target_type missing threshold s =
      if ltb missing threshold
      then registry.delete (target_missing_issue_id entry target_key) s
      else registry.create (target_missing_issue_id entry target_key)
          (record {
            translation_key = "snapshot_target_missing";
            placeholders =
                ("entry_title", entry_title entry)
                ∷ ("target_type", type_label target_type)
                ∷ ("target_name", target_name)
                ∷ ("missing_count", decimal missing)
                ∷ [];
          })
          s

  -- `async_clear_snapshot_target_missing_issue`
  unfoldable pub clear_target_missing_issue : Entry → String → State → State
  clear_target_missing_issue entry target_key =
      registry.delete (target_missing_issue_id entry target_key)

  abbrev pub clear_action : Entry → Capability → State → State
  clear_action entry action s =
      clear_kinds entry action (some mydrive)
        (clear_kinds entry action (some shared) (clear_kinds entry action none s))

  -- `async_clear_snapshot_issues`
  unfoldable pub clear_snapshot_issues : Entry → State → State
  clear_snapshot_issues entry s =
      clear_action entry Capability.settings
        (clear_action entry Capability.create (clear_kinds entry Capability.read none s))

-- The issues that tell of an error, for what `safe_error_text` of security.py makes of its text.
module _ (safe_error_text : String → String) where
  abbrev pub issue_of :
      Entry → Capability → Kind → String → Option TargetType → Option String → Issue
  issue_of entry capability kind error target_type target_name = record {
    translation_key = "snapshot_" ⧺ capability_name capability ⧺ "_" ⧺ kind_name kind;
    placeholders =
        ("entry_title", entry_title entry)
        ∷ ("target_type", type_label target_type)
        ∷ (
          "target_name",
          elim target_name [
            | none ↦ type_label target_type
            | some name ↦ if text_eq name "" then type_label target_type else name
          ],
        )
        ∷ ("error", safe_error_text error)
        ∷ [];
  }

  module _ {State : Type 0} (registry : IssueRegistry State) where
    -- `_create_snapshot_issue`
    unfoldable pub create_snapshot_issue :
        Entry → Capability → Kind → String → Option TargetType → Option String → State → State
    create_snapshot_issue entry capability kind error target_type target_name s =
        registry.create (issue_id entry capability kind target_type)
          (issue_of entry capability kind error target_type target_name)
          (clear_other_kinds registry entry capability kind target_type s)

    -- `async_create_snapshot_read_issue`
    unfoldable pub create_read_issue : Entry → ApiError → State → State
    create_read_issue entry e =
        create_snapshot_issue entry Capability.read (kind_from_error e)
          (safe_error_text (error_text e)) none none

    -- `async_update_snapshot_read_issue`
    unfoldable pub update_read_issue : Entry → Option Bool → State → State
    update_read_issue entry (some true) s = clear_kinds registry entry Capability.read none s
    update_read_issue entry (some false) s =
        create_snapshot_issue entry Capability.read unavailable
          "Snapshot settings endpoint is not available on this system." none none s
    update_read_issue entry none s = s

    -- `async_create_snapshot_action_issue`
    unfoldable pub create_action_issue : Entry → Capability → Dict Value → ApiError → State → State
    create_action_issue entry action target e =
        create_snapshot_issue entry action (kind_from_error e) (safe_error_text (error_text e))
          (issue_target_type target) (some (issue_target_name target))
