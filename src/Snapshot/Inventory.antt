-- ===== src/Snapshot/Inventory.antt =====
-- snapshot_inventory.py: the summary of a payload of snapshots. A time is the number of microseconds
-- since the first day of year 1, in UTC; numbers and times that overflow are not modelled.
pub mod Heap
pub mod Extract
use ha_unifi_drive.Prelude.{
  ℕ, zero, suc, ◌+◌, ◌-◌, ◌≤◌, String, Bool, true, false, not, ◌&&◌, ◌||◌, Option, none, some, List,
  [], ◌∷◌, Dict, ℤ, pos, text_eq, in_texts, strip, lower, split, join, ◌==◌, if◌then◌else◌,
  ◌or_else◌,
}
use ha_unifi_drive.Payload.{
  Value, null, bool, int, float, str, list, dict, Float, items, entries, get, is_blank, str_value,
  int_of,
}

abbrev pub list_keys : List String
list_keys =
    "snapshots" ∷ "snapshotList" ∷ "snapshot_list" ∷ "items" ∷ "rows" ∷ "list" ∷ "records"
    ∷ "results" ∷ "result" ∷ "data" ∷ []

abbrev pub id_keys : List String
id_keys = "id" ∷ "snapshot_id" ∷ "snapshotId" ∷ "uuid" ∷ []

abbrev pub name_keys : List String
name_keys = "name" ∷ "displayName" ∷ "display_name" ∷ []

abbrev pub description_keys : List String
description_keys = "description" ∷ "note" ∷ "notes" ∷ []

abbrev pub locked_keys : List String
locked_keys = "locked" ∷ "isLocked" ∷ "is_locked" ∷ "lock" ∷ []

abbrev pub time_keys : List String
time_keys =
    "createdAt" ∷ "created_at" ∷ "created" ∷ "createTime" ∷ "createdTime" ∷ "snapshotTime"
    ∷ "snapshot_time" ∷ "timestamp" ∷ "time" ∷ "date" ∷ []

abbrev pub total_keys : List String
total_keys = "total" ∷ "totalCount" ∷ "total_count" ∷ []

abbrev pub offset_keys : List String
offset_keys = "offset" ∷ "skip" ∷ []

abbrev pub limit_keys : List String
limit_keys = "limit" ∷ "pageSize" ∷ "page_size" ∷ []

-- `snapshot_inventory_error_is_sticky`
unfoldable pub error_is_sticky : Option String → Bool
error_is_sticky none = false
error_is_sticky (some reason) = in_texts reason ("permission" ∷ "unsupported" ∷ [])

-- The first key whose value gives a list.
unfoldable pub first_in :
    (Value → Option (List Value)) → List String → Dict Value → Option (List Value)
first_in search_value [] d = none
first_in search_value (key ∷ keys) d =
    let rest = first_in search_value keys d in search_value (get d key) or_else rest

-- `_first_snapshot_list`, by the levels that are left below the depth of four.
unfoldable pub first_snapshot_list : ℕ → Value → Option (List Value)
unfolding first_in items entries
first_snapshot_list levels (list vs) = some (items vs)
first_snapshot_list (suc levels) (dict fs) =
    first_in (first_snapshot_list levels) list_keys (entries fs)
first_snapshot_list _ _ = none

-- `_snapshot_items`
unfoldable pub snapshot_items : Value → List Value
unfolding first_snapshot_list
snapshot_items payload = elim (first_snapshot_list 4 payload) [ none ↦ [] | some vs ↦ vs ]

-- `_first_value`
unfoldable pub first_value : Dict Value → List String → Value
first_value d [] = null
first_value d (key ∷ keys) =
    let rest = first_value d keys in if is_blank (get d key) then rest else get d key

-- `_string_value`
unfoldable pub string_value : Value → Option String
string_value value =
    let text = strip (str_value value) in
    if is_blank value || text_eq text "" then none else some text

abbrev word_value : String → Option Bool
word_value word =
    if in_texts word ("1" ∷ "true" ∷ "yes" ∷ "on" ∷ "enabled" ∷ [])
    then some true
    else if in_texts word ("0" ∷ "false" ∷ "no" ∷ "off" ∷ "disabled" ∷ [])
    then some false
    else none

-- `_bool_value`
unfoldable pub bool_value : Value → Option Bool
bool_value (bool b) = some b
bool_value (int (pos n)) = some (not (n == 0))
bool_value (int _) = some true
bool_value (str s) = word_value (lower (strip s))
bool_value _ = none

-- `_int_value`
unfoldable pub int_value : Value → Option ℤ
int_value (bool b) = none
int_value (str s) = if text_eq s "" then none else int_of (str s)
int_value value = int_of value

abbrev natural_part : Option ℤ → Option ℕ
natural_part (some (pos n)) = some n
natural_part _ = none

-- `_collection_int`
unfoldable pub collection_int : Value → List String → Option ℕ
collection_int (dict fs) [] = none
collection_int (dict fs) (key ∷ keys) =
    let rest = collection_int (dict fs) keys in
    natural_part (int_value (get (entries fs) key)) or_else rest
collection_int _ keys = none

-- What `datetime.fromisoformat` reads: a local time, and how many microseconds it is ahead of UTC or
-- behind it, if it says so.
pub data Parsed : Type 0 where
  naive : ℕ → Parsed
  ahead behind : ℕ → ℕ → Parsed

abbrev pub utc_of : Parsed → ℕ
utc_of (naive t) = t
utc_of (ahead t d) = t - d
utc_of (behind t d) = t + d

-- The floats and times of Python that the code uses.
pub record Times (Real : Type 0) : Type 0 where
  pub real_of_int : ℤ → Real
  pub real_of_float : Float → Real
  pub real_of_text : String → Option Real
  pub exceeds : Real → ℕ → Bool
  pub divided : Real → ℕ → Real
  pub from_timestamp : Real → Option ℕ
  pub from_iso : String → Option Parsed
  pub iso_utc : ℕ → String

-- The fields of one snapshot, with its time as text and, where it can be read, as a time.
pub record Snapshot : Type 0 where
  pub id : Option String
  pub name : Option String
  pub description : Option String
  pub locked : Option Bool
  pub created_at : Option String
  pub created : Option ℕ

module _ {Real : Type 0} (times : Times Real) where
  -- `_numeric_timestamp`
  unfoldable pub numeric_timestamp : Value → Option Real
  numeric_timestamp (int i) = some (times.real_of_int i)
  numeric_timestamp (float x) = some (times.real_of_float x)
  numeric_timestamp (str s) =
      let text = strip s in if text_eq text "" then none else times.real_of_text text
  numeric_timestamp _ = none

  abbrev in_seconds : Real → Real
  in_seconds number = if times.exceeds number 10000000000 then times.divided number 1000 else number

  abbrev told : String → Option ℕ → Option String × Option ℕ
  told text none = (some text, none)
  told text (some t) = (some (times.iso_utc t), some t)

  abbrev moment_of : Option Parsed → Option ℕ
  moment_of none = none
  moment_of (some p) = some (utc_of p)

  abbrev iso_time : String → Option String × Option ℕ
  iso_time text =
      if text_eq text ""
      then (none, none)
      else told text (moment_of (times.from_iso (join "+00:00" (split b'Z' text))))

  -- `_snapshot_time`
  unfoldable pub snapshot_time : Value → Option String × Option ℕ
  unfolding numeric_timestamp
  snapshot_time value =
      let text = strip (str_value value) in
      if is_blank value then (none, none) else elim (numeric_timestamp value) [
        | some number ↦ told text (times.from_timestamp (in_seconds number))
        | none ↦ iso_time text
      ]

  -- `_snapshot_item`
  unfoldable pub snapshot_item : Dict Value → Snapshot
  unfolding snapshot_time
  snapshot_item d =
      let (text, moment) = snapshot_time (first_value d time_keys) in
      record {
        id = string_value (first_value d id_keys);
        name = string_value (first_value d name_keys);
        description = string_value (first_value d description_keys);
        locked = bool_value (first_value d locked_keys);
        created_at = text;
        created = moment;
      }
