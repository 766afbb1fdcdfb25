-- ===== src/Snapshot/Clock/Laws.antt =====
-- Times of day stay in range and are read back as they are written.
use ha_unifi_drive.Prelude.{
  ℕ, ◌<◌, String, ◌≡◌, refl, Bool, true, false, Option, none, some, arith, decimal, text_eq, eq_iff,
  ◌⧺◌, ◌==◌, ◌&&◌, sym, Option-cases, inl, inr,
}
use ha_unifi_drive.Prelude.Tables.{passes_under, passes_under-at}
use ha_unifi_drive.Payload.{Value, str, or_value, str_value, truthy}
use ha_unifi_drive.Snapshot.Clock.{
  match_time, checked_time, schedule_time_parts, two_places, first_run_time, run_time_text,
}

checked_time-bounds :
    (hour minute : ℕ) {h m : ℕ} → checked_time hour minute ≡ some (h, m) → (h < 24) × (m < 60)
checked_time-bounds hour minute e = ground arith

-- A time that is accepted is a time of day.
pub schedule_time_parts-bounds :
    (text : String) {hour minute : ℕ}
    → schedule_time_parts text ≡ some (hour, minute)
    → (hour < 24) × (minute < 60)
unfolding schedule_time_parts
schedule_time_parts-bounds text e = elim (Option-cases (match_time text)) [
  | inl bad ↦ absurd (ground (arith, bad))
  | inr ((hour, minute, found), good) ↦ ground (arith, good)
]

abbrev is_time : ℕ → ℕ → Option (ℕ × ℕ) → Bool
is_time h m none = false
is_time h m (some (hour, minute)) = hour == h && minute == m

is_time_sound : (h m : ℕ) (o : Option (ℕ × ℕ)) → is_time h m o ≡ true → o ≡ some (h, m)
is_time_sound h m none e = cc
is_time_sound h m (some (hour, minute)) e = ground arith

-- `f"{hour}:{minute:02d}"` and `f"{hour:02d}:{minute:02d}"`
abbrev pub short_time : ℕ → ℕ → String
short_time hour minute = decimal hour ⧺ ":" ⧺ two_places minute

abbrev pub long_time : ℕ → ℕ → String
long_time hour minute = two_places hour ⧺ ":" ⧺ two_places minute

abbrev both_read_back : ℕ → ℕ → Bool
both_read_back h m =
    is_time h m (schedule_time_parts (short_time h m))
    && is_time h m (schedule_time_parts (long_time h m))

times_table : passes_under (λ h. passes_under (λ m. both_read_back h m) 60) 24 ≡ true
unfolding passes_under schedule_time_parts match_time two_places decimal
times_table = refl

times_read_back :
    (h m : ℕ)
    → h < 24
    → m < 60
    → (schedule_time_parts (short_time h m) ≡ some (h, m))
      × (schedule_time_parts (long_time h m) ≡ some (h, m))
times_read_back h m bh bm =
    let row =
      passes_under-at (λ x. passes_under (λ y. both_read_back x y) 60) 24 h bh times_table in
    let cell = passes_under-at (λ y. both_read_back h y) 60 m bm row in
    ground (
      arith,
      cell,
      is_time_sound h m (schedule_time_parts (short_time h m)),
      is_time_sound h m (schedule_time_parts (long_time h m)),
    )

-- Every time of day is parsed from its long form, and from the short form that is sent.
pub schedule_time_parts-format :
    (hour minute : ℕ)
    → hour < 24
    → minute < 60
    → (schedule_time_parts (short_time hour minute) ≡ some (hour, minute))
      × (schedule_time_parts (long_time hour minute) ≡ some (hour, minute))
schedule_time_parts-format = times_read_back

parts_of_run_time :
    (o : Option (ℕ × ℕ))
    → ((h m : ℕ) → o ≡ some (h, m) → (h < 24) × (m < 60))
    → (h : ℕ) × (m : ℕ) × (schedule_time_parts (run_time_text o) ≡ some (h, m))
      × (run_time_text o ≡ short_time h m)
parts_of_run_time none b = (0, 0, (times_read_back 0 0 (omega arith) (omega arith)).0, refl)
parts_of_run_time (some (h, m)) b =
    let (bh, bm) = b h m refl in (h, m, (times_read_back h m bh bm).0, refl)

no_time_in_nothing : schedule_time_parts "" ≡ none
unfolding schedule_time_parts match_time
no_time_in_nothing = refl

not_empty_of_parts :
    (t : String) {h m : ℕ} → schedule_time_parts t ≡ some (h, m) → text_eq t "" ≡ false
not_empty_of_parts t e = ground (arith, eq_iff t "", no_time_in_nothing)

or_value-text :
    (t : String) (other : Value) → text_eq t "" ≡ false → str_value (or_value (str t) other) ≡ t
unfolding or_value truthy str_value
or_value-text t other e = ground (arith, e)

-- Whatever was stored, the run time that is sent is a time of day in the short form, and sending it
-- back gives the same text.
pub first_run_time-stable :
    (value : Value)
    → ((hour : ℕ) × (minute : ℕ) × (schedule_time_parts (first_run_time value)
          ≡ some (hour, minute)))
      × (first_run_time (str (first_run_time value)) ≡ first_run_time value)
unfolding first_run_time
first_run_time-stable value =
    let text = str_value (or_value value (str "00:00")) in
    let time = schedule_time_parts text in
    let (h, m, parsed, short) =
      parts_of_run_time time (λ h m e. schedule_time_parts-bounds text e) in
    (
      (h, m, parsed),
      rw
          (or_value-text (run_time_text time) (str "00:00")
            (not_empty_of_parts (run_time_text time) parsed))
          (rw parsed (sym short)),
    )
