-- ===== src/Api/Auth/Devices/Clean.antt =====
-- The identifier that the system metadata gives is not empty and has no whitespace at its ends, so
-- it is the first of the identifiers, as it is.
use ha_unifi_drive.Prelude.{
  String, Bool, ◌≡◌, refl, true, false, ◌||◌, Option, none, some, List, [], ◌∷◌, ◌++◌, Dict,
  Bool-cases, ap, ◌∙◌, keep_chars, text_eq, eq_iff, in_texts, strip, inl, inr, if◌then◌else◌,
  ◌or_else◌,
}
use ha_unifi_drive.Prelude.Strip.{strip-strip}
use ha_unifi_drive.Payload.{Value, str, is_blank, str_value, as_dict, as_list, get}
use ha_unifi_drive.System.{stripped_str}
use ha_unifi_drive.WakeOnLan.{normalize_mac_address}
use ha_unifi_drive.WakeOnLan.Laws.{normalize_mac_address-IsNormal}
use ha_unifi_drive.Api.Auth.Devices.{
  candidate_at, first_candidate, identifier_keys, system_field_candidates, candidate_of,
  first_device, section_identifier, system_device_unique_id, told_identifier, system_identifier,
  scoped_identifiers, add_identifier, add_fields, device_unique_ids, device_scoped_unique_ids,
}

abbrev pub IsClean : String → Type 0
IsClean s = (text_eq s "" ≡ false) × (strip s ≡ s)

abbrev IsCleanOrNone : Option String → Type 0
IsCleanOrNone none = Unit
IsCleanOrNone (some s) = IsClean s

or_else-IsCleanOrNone :
    (o p : Option String) → IsCleanOrNone o → IsCleanOrNone p → IsCleanOrNone (o or_else p)
or_else-IsCleanOrNone none p ho hp = hp
or_else-IsCleanOrNone (some s) p ho hp = ho

told_text :
    (b : Bool) (t : String)
    → strip t ≡ t
    → IsCleanOrNone (if b || text_eq t "" then none else some t)
told_text true t h = tt
told_text false t h = elim (Bool-cases (text_eq t "")) [ inl e ↦ rw e tt | inr e ↦ rw e (e, h) ]

stripped_str-IsCleanOrNone : (v : Value) → IsCleanOrNone (stripped_str v)
unfolding stripped_str
stripped_str-IsCleanOrNone v =
    told_text (is_blank v) (strip (str_value v)) (strip-strip (str_value v))

no_address : normalize_mac_address "" ≡ none
unfolding normalize_mac_address keep_chars strip
no_address = refl

normal-IsClean : (n : String) → normalize_mac_address n ≡ some n → strip n ≡ n → IsClean n
normal-IsClean n h k = elim (Bool-cases (text_eq n "")) [
  | inl e ↦ absurd (cc (h, no_address, ap normalize_mac_address ((eq_iff n "").0 e)))
  | inr e ↦ (e, k)
]

normalize-IsCleanOrNone :
    (o : Option String) (mac : String) → normalize_mac_address mac ≡ o → IsCleanOrNone o
normalize-IsCleanOrNone none mac h = tt
normalize-IsCleanOrNone (some n) mac h =
    let (again, size, ends) = normalize_mac_address-IsNormal mac n h in normal-IsClean n again ends

address_or_text :
    (b : Bool) (t : String)
    → IsClean t
    → IsCleanOrNone (if b then normalize_mac_address t else some t)
address_or_text true t h = normalize-IsCleanOrNone (normalize_mac_address t) t refl
address_or_text false t h = h

candidate-IsCleanOrNone :
    (o : Option String) (b : Bool)
    → IsCleanOrNone o
    → IsCleanOrNone
        (elim o [ none ↦ none | some t ↦ if b then normalize_mac_address t else some t ])
candidate-IsCleanOrNone none b h = tt
candidate-IsCleanOrNone (some t) b h = address_or_text b t h

first_candidate-IsCleanOrNone :
    (d : Dict Value) (keys : List String) → IsCleanOrNone (first_candidate d keys)
unfolding first_candidate
first_candidate-IsCleanOrNone d [] = tt
first_candidate-IsCleanOrNone d (key ∷ keys) =
    or_else-IsCleanOrNone (candidate_at d key) (first_candidate d keys)
      (candidate-IsCleanOrNone (stripped_str (get d key))
        (in_texts key ("mac" ∷ "macAddress" ∷ "mac_address" ∷ []))
        (stripped_str-IsCleanOrNone (get d key)))
      (first_candidate-IsCleanOrNone d keys)

fallback-IsCleanOrNone : (b : Bool) (v : Value) → IsCleanOrNone (if b then stripped_str v else none)
fallback-IsCleanOrNone true v = stripped_str-IsCleanOrNone v
fallback-IsCleanOrNone false v = tt

fields-IsCleanOrNone : (b : Bool) (d : Dict Value) → IsCleanOrNone (system_field_candidates b d)
unfolding system_field_candidates
fields-IsCleanOrNone b d =
    or_else-IsCleanOrNone (first_candidate d identifier_keys) _
      (first_candidate-IsCleanOrNone d identifier_keys) (fallback-IsCleanOrNone b (get d "id"))

candidate_of-IsCleanOrNone : (v : Value) → IsCleanOrNone (candidate_of v)
unfolding candidate_of
candidate_of-IsCleanOrNone v = within (as_dict v)
  where
    within :
        (o : Option (Dict Value))
        → IsCleanOrNone (elim o [ none ↦ none | some d ↦ system_field_candidates true d ])
    within none = tt
    within (some d) = fields-IsCleanOrNone true d

first_device-IsCleanOrNone : (vs : List Value) → IsCleanOrNone (first_device vs)
unfolding first_device
first_device-IsCleanOrNone [] = tt
first_device-IsCleanOrNone (v ∷ vs) =
    or_else-IsCleanOrNone (candidate_of v) (first_device vs) (candidate_of-IsCleanOrNone v)
      (first_device-IsCleanOrNone vs)

section-IsCleanOrNone : (v : Value) → IsCleanOrNone (section_identifier v)
unfolding section_identifier
section-IsCleanOrNone v = in_section (as_dict v)
  where
    in_list :
        (o : Option (List Value))
        → IsCleanOrNone (elim o [ none ↦ none | some unifi_os ↦ first_device unifi_os ])
    in_list none = tt
    in_list (some unifi_os) = first_device-IsCleanOrNone unifi_os

    in_section :
        (o : Option (Dict Value))
        → IsCleanOrNone (elim o [
          | none ↦ none
          | some devices ↦ elim (as_list (get devices "unifiOS")) [
            | none ↦ none
            | some unifi_os ↦ first_device unifi_os
          ]
        ])
    in_section none = tt
    in_section (some devices) = in_list (as_list (get devices "unifiOS"))

system-IsCleanOrNone :
    (system : Option (Dict Value)) → IsCleanOrNone (system_device_unique_id system)
unfolding system_device_unique_id
system-IsCleanOrNone none = tt
system-IsCleanOrNone (some system) =
    or_else-IsCleanOrNone (system_field_candidates false system) _
      (fields-IsCleanOrNone false system)
      (or_else-IsCleanOrNone (candidate_of (get system "hardware")) _
        (candidate_of-IsCleanOrNone (get system "hardware"))
        (or_else-IsCleanOrNone (section_identifier (get system "devices")) _
          (section-IsCleanOrNone (get system "devices")) (fields-IsCleanOrNone true system)))

pub system_device_unique_id-IsClean :
    (system : Option (Dict Value)) (id : String)
    → system_device_unique_id system ≡ some id
    → IsClean id
system_device_unique_id-IsClean system id h = rw h at (system-IsCleanOrNone system)

-- Identifiers that are added later stand behind the first.
abbrev pub StartsWith : String → List String → Type 0
StartsWith id ids = (more : List String) × (ids ≡ id ∷ more)

add_identifier-StartsWith :
    (id : String) (known : List String) (o : Option String)
    → StartsWith id known
    → StartsWith id (add_identifier known o)
unfolding add_identifier
add_identifier-StartsWith id known none h = h
add_identifier-StartsWith id known (some text) (more, e) = elim (Bool-cases (in_texts text known)) [
  | inl b ↦ rw b (more, e)
  | inr b ↦ rw b (more ++ (text ∷ []), rw e refl)
]

add_fields-StartsWith :
    (id : String) (known : List String) (login : Dict Value) (keys : List String)
    → StartsWith id known
    → StartsWith id (add_fields known login keys)
unfolding add_fields
add_fields-StartsWith id known login [] h = h
add_fields-StartsWith id known login (key ∷ keys) h =
    add_fields-StartsWith id (add_identifier known (stripped_str (get login key))) login keys
      (add_identifier-StartsWith id known (stripped_str (get login key)) h)

clean-stripped : (id : String) → IsClean id → stripped_str (str id) ≡ some id
unfolding stripped_str is_blank str_value
clean-stripped id (e, h) = rw (h, e) refl

system_identifier-told :
    (system : Option (Dict Value)) (id : String)
    → system_device_unique_id system ≡ some id
    → system_identifier system ≡ some id
system_identifier-told system id h =
    ap told_identifier h ∙ clean-stripped id (system_device_unique_id-IsClean system id h)

add_first : (id : String) → add_identifier [] (some id) ≡ id ∷ []
unfolding add_identifier
add_first id = refl

pub device_unique_ids-first :
    (system login : Option (Dict Value)) (id : String)
    → system_device_unique_id system ≡ some id
    → StartsWith id (device_unique_ids system login)
unfolding device_unique_ids
device_unique_ids-first system none id h =
    rw (system_identifier-told system id h) ([], add_first id)
device_unique_ids-first system (some login) id h = rw (system_identifier-told system id h) (
    add_fields-StartsWith id (add_identifier [] (some id)) login
      ("unique_id" ∷ "uniqueId" ∷ "id" ∷ "deviceId" ∷ []) ([], add_first id))

pub device_scoped_unique_ids-only :
    (system : Option (Dict Value)) (id : String)
    → system_device_unique_id system ≡ some id
    → device_scoped_unique_ids system ≡ id ∷ []
unfolding device_scoped_unique_ids
device_scoped_unique_ids-only system id h =
    ap scoped_identifiers h ∙ rw ((system_device_unique_id-IsClean system id h).0) refl
