-- ===== src/Snapshot/Days.antt =====
-- snapshot_schedule.py: comma-separated lists of weekdays and days of the month.
pub mod Laws
use ha_unifi_drive.Prelude.{
  ℕ, String, Bool, true, false, ◌&&◌, ◌||◌, Option, none, some, List, [], ◌∷◌, ◌++◌, ℤ, pos,
  text_eq, in_texts, strip, split, join, str_int, leb_ℤ, if◌then◌else◌,
}
use ha_unifi_drive.Payload.{Value, str, is_blank, str_value}
use ha_unifi_drive.Snapshot.Values.{int_value}

-- `_int_value(part)` and the test of the range.
unfoldable pub day_of : ℕ → ℕ → String → Option ℤ
day_of minimum maximum part = elim (int_value (str part)) [
  | none ↦ none
  | some day ↦ if leb_ℤ (pos minimum) day && leb_ℤ day (pos maximum) then some day else none
]

-- `if text not in days: days.append(text)`
unfoldable pub add_day : List String → ℤ → List String
add_day days day = if in_texts (str_int day) days then days else days ++ str_int day ∷ []

-- One round of the loop of `_snapshot_existing_schedule_days`, on a stripped part.
existing_day : ℕ → ℕ → List String → String → List String
existing_day minimum maximum days part =
    if text_eq part "" || text_eq part "*"
    then days
    else elim (day_of minimum maximum part) [ none ↦ days | some day ↦ add_day days day ]

unfoldable pub existing_days : ℕ → ℕ → List String → List String → List String
unfolding existing_day
existing_days minimum maximum days [] = days
existing_days minimum maximum days (part ∷ parts) =
    existing_days minimum maximum (existing_day minimum maximum days (strip part)) parts

-- `",".join(days) or None`
abbrev joined_days : List String → Option String
joined_days [] = none
joined_days (day ∷ days) = some (join "," (day ∷ days))

-- `_snapshot_existing_schedule_days`
unfoldable pub existing_schedule_days : Value → ℕ → ℕ → Option String
existing_schedule_days value minimum maximum =
    if is_blank value
    then none
    else joined_days (existing_days minimum maximum [] (split b',' (str_value value)))

-- The loop of `_snapshot_schedule_days`: `none` is the `ValueError`.
unfoldable pub strict_days : ℕ → ℕ → List String → List String → Option (List String)
strict_days minimum maximum days [] = some days
strict_days minimum maximum days (part ∷ parts) = elim (day_of minimum maximum (strip part)) [
  | none ↦ none
  | some day ↦ strict_days minimum maximum (add_day days day) parts
]

-- `if not days: raise ValueError(...)`
abbrev join_strict : Option (List String) → Option (Option String)
join_strict none = none
join_strict (some []) = none
join_strict (some (day ∷ days)) = some (some (join "," (day ∷ days)))

-- `_snapshot_schedule_days`: the outer `none` is the `ValueError`.
unfoldable pub schedule_days : Option String → ℕ → ℕ → Option (Option String)
schedule_days none minimum maximum = some none
schedule_days (some value) minimum maximum =
    join_strict (strict_days minimum maximum [] (split b',' value))
