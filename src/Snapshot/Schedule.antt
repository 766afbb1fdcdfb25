-- ===== src/Snapshot/Schedule.antt =====
-- snapshot_schedule.py: schedule labels, day lists and times of day. A raised `ValueError` is `none`.
use ha_unifi_drive.Prelude.{
  String, Bool, false, not, ◌&&◌, Option, none, some, List, [], ◌∷◌, ℤ, pos, Dict, text_eq, strip,
  lower, if◌then◌else◌, is_some, ◌==◌,
}
use ha_unifi_drive.Payload.{Value, get}
use ha_unifi_drive.Snapshot.Values.{value_from_dict, int_value}

pub data Frequency : Type 0 where
  never daily weekly monthly : Frequency

-- The keys of `SNAPSHOT_SCHEDULE_API_VALUES` in const.py, and the one API value of each.
abbrev pub label : Frequency → String
label Frequency.never = "Never"
label Frequency.daily = "Daily"
label Frequency.weekly = "Weekly"
label Frequency.monthly = "Monthly"

abbrev pub api_name : Frequency → String
api_name Frequency.never = "never"
api_name Frequency.daily = "daily"
api_name Frequency.weekly = "weekly"
api_name Frequency.monthly = "monthly"

abbrev frequencies : List Frequency
frequencies = Frequency.never ∷ Frequency.daily ∷ Frequency.weekly ∷ Frequency.monthly ∷ []

-- The loop over the table: lower-cased labels and API values are the same texts.
unfoldable pub find_frequency : List Frequency → String → Option Frequency
find_frequency [] word = none
find_frequency (f ∷ fs) word =
    let rest = find_frequency fs word in if text_eq word (api_name f) then some f else rest

unfoldable pub frequency_of : String → Option Frequency
unfolding find_frequency strip lower
frequency_of option = find_frequency frequencies (lower (strip option))

-- `_snapshot_schedule_api_value`
unfoldable pub schedule_api_value : String → String
unfolding frequency_of
schedule_api_value option = elim (frequency_of option) [
  | some f ↦ api_name f
  | none ↦ lower (strip option)
]

-- `_snapshot_schedule_option`, on a value that `_value_from_dict` returned.
unfoldable pub schedule_option : Option String → Option String
unfolding frequency_of
schedule_option none = none
schedule_option (some value) =
    if text_eq value ""
    then none
    else elim (frequency_of value) [ some f ↦ some (label f) | none ↦ some value ]

abbrev or_empty : Option String → String
or_empty none = ""
or_empty (some s) = s

-- `x and x != "*"`
abbrev names_days : String → Bool
names_days days = not (text_eq days "") && not (text_eq days "*")

abbrev is_hourly : Option ℤ → Bool
is_hourly (some (pos minutes)) = minutes == 60
is_hourly _ = false

-- The tests of `_snapshot_schedule_frequency` from `monthdays` on; `enabled` is not `False`.
unfoldable pub frequency_from_days : Dict Value → Option Bool → String
unfolding value_from_dict int_value get strip
frequency_from_days schedule enabled =
    let monthdays =
      strip (or_empty (value_from_dict schedule ("monthdays" ∷ "monthDays" ∷ "month_days" ∷ []))) in
    let weekdays =
      strip (or_empty (value_from_dict schedule ("weekdays" ∷ "weekDays" ∷ "week_days" ∷ []))) in
    if names_days monthdays
    then "Monthly"
    else if names_days weekdays
    then "Weekly"
    else if is_hourly (int_value (get schedule "interval"))
    then "Daily"
    else if is_some enabled
    then "Daily"
    else "Never"

abbrev unless_empty : Option String → String → String
unless_empty none other = other
unless_empty (some option) other = if text_eq option "" then other else option

-- `_snapshot_schedule_frequency`
unfoldable pub schedule_frequency : Dict Value → Option Bool → Option String
unfolding schedule_option frequency_from_days value_from_dict
schedule_frequency schedule (some false) = some "Never"
schedule_frequency schedule enabled = some (
    unless_empty
      (schedule_option (value_from_dict schedule ("frequency" ∷ "period" ∷ "repeat" ∷ "type" ∷ [])))
      (frequency_from_days schedule enabled))
