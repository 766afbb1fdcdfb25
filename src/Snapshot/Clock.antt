-- ===== src/Snapshot/Clock.antt =====
-- snapshot_schedule.py: times of day. A raised `ValueError` is `none`.
pub mod Laws
use Prim.Native.Char.{code}
use Prim.Native.String.{[], ◌∷◌}
use ha_unifi_drive.Prelude.{
  ℕ, ◌+◌, ◌-◌, ◌*◌, ◌/◌, ◌%◌, String, Bool, true, false, ◌&&◌, ◌||◌, Option, none, some, List, [],
  ◌∷◌, ℤ, pos, Dict, ltb, leb, ltb_ℤ, ◌==◌, text_eq, ◌⧺◌, lstrip, strip, lower, decimal, is_digit,
  if◌then◌else◌, ◌or_else◌,
}
use ha_unifi_drive.Payload.{Value, str, get, or_value, str_value}
use ha_unifi_drive.Snapshot.Values.{value_from_dict, first_int_value}

infixl 5 ◌>>=◌
abbrev ◌>>=◌ {ℓ κ} : {A : Type ℓ} {B : Type κ} → Option A → (A → Option B) → Option B
none >>= k = none
some a >>= k = k a

-- `\d{1,2}`, and the text behind it.
two_digits : String → Option (ℕ × String)
two_digits [] = none
two_digits (c ∷ []) = if is_digit (code c) then some (code c - b'0', "") else none
two_digits (c ∷ d ∷ s) =
    if is_digit (code c)
    then if is_digit (code d)
      then some ((code c - b'0') * 10 + (code d - b'0'), s)
      else some (code c - b'0', d ∷ s)
    else none

colon : String → Option String
colon [] = none
colon (c ∷ s) = if code c == b':' then some s else none

-- `(?::\d{1,2})?`: a colon that no digit follows matches nothing further on.
seconds : String → Option String
seconds [] = some ""
seconds (c ∷ s) = if code c == b':' then (do (_, rest) ← two_digits s; some rest) else some (c ∷ s)

pub data Suffix : Type 0 where
  no_suffix am pm : Suffix

-- `\s*([ap]m)?\s*$`, case ignored.
suffix : String → Option Suffix
suffix s =
    if text_eq s ""
    then some no_suffix
    else if text_eq (lower s) "am"
    then some am
    else if text_eq (lower s) "pm"
    then some pm
    else none

-- A suffix and the space round it; the trailing space is stripped first.
time_suffix : String → Option Suffix
unfolding suffix
time_suffix s = suffix (strip s)

-- `SCHEDULE_TIME_RE.fullmatch`
unfoldable pub match_time : String → Option (ℕ × ℕ × Suffix)
unfolding two_digits colon seconds time_suffix lstrip lower strip
match_time text = do
  (hour, rest) ← two_digits (lstrip text)
  rest' ← colon rest
  (minute, behind) ← two_digits rest'
  tail ← seconds behind
  found ← time_suffix tail
  some (hour, minute, found)

-- The 24-hour value of an hour with its suffix.
abbrev hour_of : ℕ → Suffix → Option ℕ
hour_of hour no_suffix = some hour
hour_of hour am = if ltb hour 1 || ltb 12 hour then none else some (if hour == 12 then 0 else hour)
hour_of hour pm =
    if ltb hour 1 || ltb 12 hour then none else some (if ltb hour 12 then hour + 12 else hour)

abbrev checked_time : ℕ → ℕ → Option (ℕ × ℕ)
checked_time hour minute = if ltb 23 hour || ltb 59 minute then none else some (hour, minute)

-- `_schedule_time_parts`
unfoldable pub schedule_time_parts : String → Option (ℕ × ℕ)
schedule_time_parts text = do
  (hour, minute, found) ← match_time text
  hour' ← hour_of hour found
  checked_time hour' minute

-- `f"{n:02d}"`
unfoldable pub two_places : ℕ → String
two_places n = if ltb n 10 then "0" ⧺ decimal n else decimal n

-- `f"{hour}:{minute:02d}"`, with 0, 0 for a time that does not parse.
abbrev pub run_time_text : Option (ℕ × ℕ) → String
run_time_text (some (hour, minute)) = decimal hour ⧺ ":" ⧺ two_places minute
run_time_text none = decimal 0 ⧺ ":" ⧺ two_places 0

-- `_snapshot_schedule_first_run_time`
unfoldable pub first_run_time : Value → String
first_run_time value =
    run_time_text (schedule_time_parts (str_value (or_value value (str "00:00"))))

abbrev clock_text : ℕ × ℕ → String
clock_text (hour, minute) = two_places hour ⧺ ":" ⧺ two_places minute

-- The hour and minute fields: `none` where they are out of range.
abbrev fields_time : Option ℤ → Option ℤ → Option (ℕ × ℕ)
fields_time (some (pos hour)) (some (pos minute)) = checked_time hour minute
fields_time (some (pos hour)) none = checked_time hour 0
fields_time _ _ = none

-- `_snapshot_schedule_time`
unfoldable pub schedule_time : Dict Value → Option String
schedule_time schedule =
    let text =
      value_from_dict schedule
        ("firstRunTime" ∷ "first_run_time" ∷ "time" ∷ "at" ∷ "startTime" ∷ "start_time" ∷ []) in
    let hour = first_int_value schedule ("hour" ∷ "hourOfDay" ∷ "hour_of_day" ∷ []) in
    let minute = first_int_value schedule ("minute" ∷ []) in
    let time : Option (ℕ × ℕ) = elim text [
      | some s ↦ schedule_time_parts s
      | none ↦ fields_time hour minute
    ] in
    elim time [ some t ↦ some (clock_text t) | none ↦ none ]
