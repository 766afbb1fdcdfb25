-- ===== src/Api/Fan/Laws/Canonical.antt =====
-- Whatever the payload, a mode that is found is one of the three labels.
use ha_unifi_drive.Prelude.{
  not, ◌&&◌, ◌||◌, text_eq, contains, in_texts, keep_chars, ◌==◌, String, ◌≡◌, ◌⊎◌, inl, inr, refl,
  Option, none, some, ◌or_else◌, replace_char, lower, strip, Bool, true, false, if◌then◌else◌,
}
use ha_unifi_drive.Payload.{Value, null, str, list, dict, Items, nil, cons, Fields, end, field}
use ha_unifi_drive.Api.Fan.Modes.{
  quiet_words, balance_words, cooling_words, exact_keys, mode_of_word, normalize_fan_mode,
  mode_at_key, walk_for_fan_mode, walk_fields, walk_items, child_context, extract_fan_mode,
}

-- `FAN_MODE_OPTIONS` of const.py
abbrev pub IsMode : String → Type 0
IsMode m = (m ≡ "Quiet") ⊎ (m ≡ "Balance") ⊎ (m ≡ "Cooling")

abbrev pub IsModeOrNone : Option String → Type 0
IsModeOrNone none = Unit
IsModeOrNone (some m) = IsMode m

IsModeOrNone-or_else :
    (o p : Option String) → IsModeOrNone o → IsModeOrNone p → IsModeOrNone (o or_else p)
IsModeOrNone-or_else none p ho hp = hp
IsModeOrNone-or_else (some m) p ho hp = ho

IsModeOrNone-if :
    (b : Bool) (o p : Option String)
    → IsModeOrNone o
    → IsModeOrNone p
    → IsModeOrNone (if b then o else p)
IsModeOrNone-if true o p ho hp = ho
IsModeOrNone-if false o p ho hp = hp

labels-IsModeOrNone :
    (q b c : Bool)
    → IsModeOrNone (
        if q
        then some "Quiet"
        else if b
        then some "Balance"
        else if c
        then some "Cooling"
        else none)
labels-IsModeOrNone true b c = inl refl
labels-IsModeOrNone false true c = inr (inl refl)
labels-IsModeOrNone false false true = inr (inr refl)
labels-IsModeOrNone false false false = tt

mode_of_word-IsModeOrNone : (word : String) → IsModeOrNone (mode_of_word word)
unfolding mode_of_word
mode_of_word-IsModeOrNone word =
    labels-IsModeOrNone (in_texts word quiet_words) (in_texts word balance_words)
      (in_texts word cooling_words)

pub normalize_fan_mode-IsModeOrNone : (v : Value) → IsModeOrNone (normalize_fan_mode v)
unfolding normalize_fan_mode
normalize_fan_mode-IsModeOrNone (str s) =
    mode_of_word-IsModeOrNone (replace_char b' ' "_" (replace_char b'-' "_" (lower (strip s))))
normalize_fan_mode-IsModeOrNone null = tt
normalize_fan_mode-IsModeOrNone _ = tt

either-IsModeOrNone :
    (p q : Bool) (o : Option String)
    → IsModeOrNone o
    → IsModeOrNone ((if p then o else none) or_else (if q then o else none))
either-IsModeOrNone true q o h =
    IsModeOrNone-or_else o (if q then o else none) h (IsModeOrNone-if q o none h tt)
either-IsModeOrNone false q o h = IsModeOrNone-if q o none h tt

mode_at_key-IsModeOrNone :
    (context key : String) (item : Value) → IsModeOrNone (mode_at_key context key item)
unfolding mode_at_key
mode_at_key-IsModeOrNone context key item =
    let k = lower (replace_char b'-' "_" key) in
    either-IsModeOrNone
      (in_texts (keep_chars (λ c. not (c == b'_')) k) exact_keys || in_texts k exact_keys)
      (text_eq k "mode" && (contains (lower context) "fan" || contains (lower context) "thermal"))
      (normalize_fan_mode item) (normalize_fan_mode-IsModeOrNone item)

mutual
  unfolding walk_for_fan_mode

  value-IsModeOrNone : (context : String) (v : Value) → IsModeOrNone (walk_for_fan_mode context v)
  value-IsModeOrNone context (dict fs) = fields-IsModeOrNone context fs
  value-IsModeOrNone context (list vs) = items-IsModeOrNone context vs
  value-IsModeOrNone context _ = tt

  fields-IsModeOrNone : (context : String) (fs : Fields) → IsModeOrNone (walk_fields context fs)
  fields-IsModeOrNone context end = tt
  fields-IsModeOrNone context (field key item fs) =
      IsModeOrNone-or_else (mode_at_key context key item) _
        (mode_at_key-IsModeOrNone context key item)
        (IsModeOrNone-or_else (walk_for_fan_mode (child_context context key) item) _
          (value-IsModeOrNone (child_context context key) item) (fields-IsModeOrNone context fs))

  items-IsModeOrNone : (context : String) (vs : Items) → IsModeOrNone (walk_items context vs)
  items-IsModeOrNone context nil = tt
  items-IsModeOrNone context (cons v vs) =
      IsModeOrNone-or_else (walk_for_fan_mode context v) (walk_items context vs)
        (value-IsModeOrNone context v) (items-IsModeOrNone context vs)

-- The search of a payload of any shape finds one of the three labels, or nothing.
pub extract_fan_mode-IsModeOrNone : (payload : Value) → IsModeOrNone (extract_fan_mode payload)
unfolding extract_fan_mode
extract_fan_mode-IsModeOrNone payload = value-IsModeOrNone "" payload
