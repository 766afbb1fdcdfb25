-- ===== src/Snapshot/Days/Laws.antt =====
-- The lists of days that are written are read back as they are.
use mathlib.Core.List.{append_assoc, append-nil}
use ha_unifi_drive.Prelude.{
  ℕ, ◌≤◌, ◌<◌, String, ◌≡◌, refl, sym, ap, ◌∙◌, Bool, true, false, not, ◌&&◌, ◌||◌, Option, none,
  some, List, [], ◌∷◌, ◌++◌, ℤ, pos, negsuc, All, All-append, arith, text_eq, eq_iff, in_texts,
  strip, split, join, decimal, str_int, Option-cases, Bool-cases, ◌==◌, inl, inr, ◌⧺◌,
}
use ha_unifi_drive.Prelude.Split.{lacks, split-join, append-ne-empty}
use ha_unifi_drive.Prelude.Tables.{passes_under, passes_under-at}
use ha_unifi_drive.Payload.{str, is_blank, str_value}
use ha_unifi_drive.Snapshot.Values.{int_value}
use ha_unifi_drive.Snapshot.Days.{
  day_of, add_day, existing_day, existing_days, existing_schedule_days, strict_days, join_strict,
  schedule_days,
}

abbrev is_pos : ℕ → Option ℤ → Bool
is_pos n (some (pos m)) = n == m
is_pos n _ = false

-- What the proofs use of the text of a day.
abbrev reads_back : ℕ → Bool
reads_back n =
    is_pos n (int_value (str (decimal n)))
    && text_eq (strip (decimal n)) (decimal n)
    && lacks b',' (decimal n)
    && not (text_eq (decimal n) "")
    && not (text_eq (decimal n) "*")

days_table : passes_under reads_back 32 ≡ true
unfolding passes_under int_value strip decimal
days_table = refl

record ReadsBack (n : ℕ) : Type 0 where
  parsed : int_value (str (decimal n)) ≡ some (pos n)
  stripped : strip (decimal n) ≡ decimal n
  comma_free : lacks b',' (decimal n) ≡ true
  not_empty : text_eq (decimal n) "" ≡ false
  not_star : text_eq (decimal n) "*" ≡ false

is_pos_sound : (n : ℕ) (o : Option ℤ) → is_pos n o ≡ true → o ≡ some (pos n)
is_pos_sound n none h = ground arith
is_pos_sound n (some (pos m)) h = ground arith
is_pos_sound n (some (negsuc m)) h = ground arith

day-ReadsBack : (n : ℕ) → n < 32 → ReadsBack n
day-ReadsBack n h =
    let table = passes_under-at reads_back 32 n h days_table in
    ground (
      arith,
      table,
      is_pos_sound n (int_value (str (decimal n))),
      eq_iff (strip (decimal n)) (decimal n),
    )

-- The text of a day in the range.
abbrev pub IsDay : ℕ → ℕ → String → Type 0
IsDay minimum maximum t = (n : ℕ) × (t ≡ decimal n) × (minimum ≤ n) × (n ≤ maximum)

abbrev pub Distinct : List String → Type 0
Distinct [] = Unit
Distinct (t ∷ ts) = (in_texts t ts ≡ false) × Distinct ts

day_of-some :
    (minimum maximum : ℕ) (part : String) (day : ℤ)
    → day_of minimum maximum part ≡ some day
    → IsDay minimum maximum (str_int day)
unfolding day_of str_int
day_of-some minimum maximum part (pos n) h = (n, refl, ground (arith, h), ground (arith, h))
day_of-some minimum maximum part (negsuc n) h = absurd (ground (arith, h))

in_texts-append :
    (t u : String) (ts : List String) → in_texts t (ts ++ u ∷ []) ≡ (in_texts t ts || text_eq t u)
in_texts-append t u [] = ground arith
in_texts-append t u (v ∷ ts) = ground (arith, in_texts-append t u ts)

Distinct-append :
    (t : String) (ts : List String) → Distinct ts → in_texts t ts ≡ false → Distinct (ts ++ t ∷ [])
Distinct-append t [] h e = (refl, tt)
Distinct-append t (u ∷ ts) h e =
    ground (arith, in_texts-append u t ts, Distinct-append t ts h.1, eq_iff t u, eq_iff u t)

-- The days collected so far.
abbrev pub AreDays : ℕ → ℕ → List String → Type 0
AreDays minimum maximum days = All (IsDay minimum maximum) days × Distinct days

add_day-AreDays :
    (minimum maximum : ℕ) (days : List String) (day : ℤ)
    → AreDays minimum maximum days
    → IsDay minimum maximum (str_int day)
    → AreDays minimum maximum (add_day days day)
unfolding add_day
add_day-AreDays minimum maximum days day (h, d) i =
    elim (Bool-cases (in_texts (str_int day) days)) [
      | inl old ↦ rw old (h, d)
      | inr new ↦ rw new (
        All-append (IsDay minimum maximum) days (str_int day ∷ []) h (i, tt),
        Distinct-append (str_int day) days d new,
      )
    ]

-- What the strict loop returns are distinct days of the range.
strict_days-AreDays :
    (minimum maximum : ℕ) (days parts out : List String)
    → AreDays minimum maximum days
    → strict_days minimum maximum days parts ≡ some out
    → AreDays minimum maximum out
unfolding strict_days
strict_days-AreDays minimum maximum days [] out h e = ground (arith, h, e)
strict_days-AreDays minimum maximum days (part ∷ parts) out h e =
    elim (Option-cases (day_of minimum maximum (strip part))) [
      | inl bad ↦ cc (rw (bad, strict_days) at e)
      | inr (day, good) ↦
          strict_days-AreDays minimum maximum (add_day days day) parts out
            (add_day-AreDays minimum maximum days day h
              (day_of-some minimum maximum (strip part) day good))
            (rw (good, strict_days) at e)
    ]

in_texts-middle :
    (u : String) (acc : List String) (t : String) (ts : List String)
    → in_texts u (acc ++ t ∷ ts) ≡ false
    → text_eq u t ≡ false
in_texts-middle u [] t ts h = ground arith
in_texts-middle u (v ∷ acc) t ts h = ground (arith, in_texts-middle u acc t ts)

Distinct-middle :
    (acc : List String) (t : String) (ts : List String)
    → Distinct (acc ++ t ∷ ts)
    → in_texts t acc ≡ false
Distinct-middle [] t ts h = refl
Distinct-middle (u ∷ acc) t ts h =
    ground
      (arith, Distinct-middle acc t ts h.1, in_texts-middle u acc t ts h.0, eq_iff u t, eq_iff t u)

day_of-decimal :
    (minimum maximum n : ℕ)
    → maximum < 32
    → minimum ≤ n
    → n ≤ maximum
    → day_of minimum maximum (decimal n) ≡ some (pos n)
unfolding day_of
day_of-decimal minimum maximum n b lo hi =
    let back = day-ReadsBack n (omega arith) in ground (arith, back.parsed)

str_int-pos : (n : ℕ) → str_int (pos n) ≡ decimal n
unfolding str_int
str_int-pos n = refl

-- One day of the range that is read again is appended as it is.
existing_day-IsDay :
    (minimum maximum : ℕ) (acc : List String) (t : String)
    → maximum < 32
    → IsDay minimum maximum t
    → in_texts t acc ≡ false
    → existing_day minimum maximum acc (strip t) ≡ acc ++ t ∷ []
unfolding existing_day add_day
existing_day-IsDay minimum maximum acc t b (n, e, lo, hi) new =
    let back = day-ReadsBack n (omega arith) in
    ground (
      arith,
      back.stripped,
      back.not_empty,
      back.not_star,
      day_of-decimal minimum maximum n b lo hi,
      ap strip e,
      str_int-pos n,
    )

existing_days-AreDays :
    (minimum maximum : ℕ) (acc ts : List String)
    → maximum < 32
    → All (IsDay minimum maximum) ts
    → Distinct (acc ++ ts)
    → existing_days minimum maximum acc ts ≡ acc ++ ts
unfolding existing_days
existing_days-AreDays minimum maximum acc [] b h d = sym (append-nil acc)
existing_days-AreDays minimum maximum acc (t ∷ ts) b (i, h) d =
    rw (existing_day-IsDay minimum maximum acc t b i (Distinct-middle acc t ts d)) (
      existing_days-AreDays minimum maximum (acc ++ t ∷ []) ts b h
        (rw (append_assoc acc (t ∷ []) ts) d)
      ∙ append_assoc acc (t ∷ []) ts)

days-lack_commas :
    (minimum maximum : ℕ) (ts : List String)
    → maximum < 32
    → All (IsDay minimum maximum) ts
    → All (λ t. lacks b',' t ≡ true) ts
days-lack_commas minimum maximum [] b h = tt
days-lack_commas minimum maximum (t ∷ ts) b ((n, e, lo, hi), h) =
    (rw e (day-ReadsBack n (omega arith)).comma_free, days-lack_commas minimum maximum ts b h)

join-not_empty :
    (minimum maximum : ℕ) (t : String) (ts : List String)
    → maximum < 32
    → IsDay minimum maximum t
    → text_eq (join "," (t ∷ ts)) "" ≡ false
unfolding join
join-not_empty minimum maximum t [] b (n, e, lo, hi) =
    rw e (day-ReadsBack n (omega arith)).not_empty
join-not_empty minimum maximum t (u ∷ ts) b (n, e, lo, hi) =
    append-ne-empty t ("," ⧺ join "," (u ∷ ts)) (rw e (day-ReadsBack n (omega arith)).not_empty)

-- Days that were joined are read back.
existing_schedule_days-join :
    (minimum maximum : ℕ) (t : String) (ts : List String)
    → maximum < 32
    → AreDays minimum maximum (t ∷ ts)
    → existing_schedule_days (str (join "," (t ∷ ts))) minimum maximum ≡ some (join "," (t ∷ ts))
unfolding existing_schedule_days is_blank str_value
existing_schedule_days-join minimum maximum t ts b (h, d) =
    rw (join-not_empty minimum maximum t ts b h.0) (
      rw (split-join t ts (days-lack_commas minimum maximum (t ∷ ts) b h))
        (rw (existing_days-AreDays minimum maximum [] (t ∷ ts) b h d)))

read_back_of :
    (minimum maximum : ℕ) (o : Option (List String)) {s : String}
    → maximum < 32
    → ((out : List String) → o ≡ some out → AreDays minimum maximum out)
    → join_strict o ≡ some (some s)
    → existing_schedule_days (str s) minimum maximum ≡ some s
read_back_of minimum maximum none b h e = cc
read_back_of minimum maximum (some []) b h e = cc
read_back_of minimum maximum (some (t ∷ ts)) {s} b h e =
    let joined : join "," (t ∷ ts) ≡ s = cc in
    rw (← joined) (existing_schedule_days-join minimum maximum t ts b (h (t ∷ ts) refl))

-- A day list that `_snapshot_schedule_days` accepts, for bounds up to 31, is a text that
-- `_snapshot_existing_schedule_days` reads back unchanged under the same bounds.
pub schedule_days-read_back :
    (value : String) (minimum maximum : ℕ) {s : String}
    → maximum < 32
    → schedule_days (some value) minimum maximum ≡ some (some s)
    → existing_schedule_days (str s) minimum maximum ≡ some s
unfolding schedule_days
schedule_days-read_back value minimum maximum b e =
    read_back_of minimum maximum (strict_days minimum maximum [] (split b',' value)) b
      (λ out p. strict_days-AreDays minimum maximum [] (split b',' value) out (tt, tt) p) e
