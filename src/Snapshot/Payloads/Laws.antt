-- ===== src/Snapshot/Payloads/Laws.antt =====
-- A validated read accounts for every item of the payload, with a target of a known kind.
use ha_unifi_drive.Prelude.{
  ℕ, String, ◌≡◌, ◌⊎◌, inl, inr, refl, ◌∙◌, Bool, true, false, Option, none, some, List, [], ◌∷◌,
  ◌++◌, ◌+◌, ◌||◌, has_key, sym, length-append, Dict, length, ◌==◌, lookup, lower, strip, All,
  All-append, text_eq, arith, if◌then◌else◌, Bool-cases, Option-cases,
}
use ha_unifi_drive.Payload.{Value, as_dict, as_list, get, str_value, or_value}
use ha_unifi_drive.Api.Session.{ApiError, Result, ok, err}
use ha_unifi_drive.Snapshot.Values.{dict_from_item}
use ha_unifi_drive.Snapshot.Targets.{target_type, normalize_target_type}
use ha_unifi_drive.Snapshot.Items.{
  personal_identity, shared_target_name, item_target_type, setting_from_item, personal_setting,
  shared_setting, any_setting,
}
use ha_unifi_drive.Snapshot.Payloads.{
  collect, section, section_length, total, data_of, extract_settings, item_count,
  validated_settings,
}

-- A target of one of the two kinds.
abbrev pub IsTarget : Dict Value → Type 0
IsTarget target = (target_type target ≡ "mydrive") ⊎ (target_type target ≡ "shared")

abbrev pub IsTargetOrNone : Option (Dict Value) → Type 0
IsTargetOrNone none = Unit
IsTargetOrNone (some target) = IsTarget target

setting-mydrive :
    (item : Dict Value) (id name : String) (user : Option String) (own : Bool)
    → (drive : Option String) → IsTarget (setting_from_item item "mydrive" id name user own drive)
unfolding setting_from_item target_type normalize_target_type get lookup lower strip str_value
    or_value
setting-mydrive item id name user own drive = inl refl

setting-shared :
    (item : Dict Value) (id name : String) (user : Option String) (own : Bool)
    → (drive : Option String) → IsTarget (setting_from_item item "shared" id name user own drive)
unfolding setting_from_item target_type normalize_target_type get lookup lower strip str_value
    or_value
setting-shared item id name user own drive = inr refl

personal-IsTarget :
    (user : Option String) (item : Dict Value) → IsTargetOrNone (personal_setting user item)
unfolding personal_setting
personal-IsTarget user item =
    elim (Option-cases (personal_identity item (dict_from_item item ("user" ∷ "owner" ∷ []))).0) [
      | inl e ↦ rw (e, personal_setting, IsTargetOrNone) tt
      | inr (id, e) ↦ rw (e, personal_setting, IsTargetOrNone) (setting-mydrive item id _ _ _ none)
    ]

shared-IsTarget : (item : Dict Value) → IsTargetOrNone (shared_setting item)
unfolding shared_setting
shared-IsTarget item = elim (Option-cases (shared_target_name item)) [
  | inl e ↦ rw (e, shared_setting, IsTargetOrNone) tt
  | inr (name, e) ↦
      rw (e, shared_setting, IsTargetOrNone) (setting-shared item _ name none false (some name))
]

if-IsTargetOrNone :
    (b : Bool) (o p : Option (Dict Value))
    → IsTargetOrNone o
    → IsTargetOrNone p
    → IsTargetOrNone (if b then o else p)
if-IsTargetOrNone true o p ho hp = ho
if-IsTargetOrNone false o p ho hp = hp

any-IsTarget : (user : Option String) (item : Dict Value) → IsTargetOrNone (any_setting user item)
unfolding any_setting
any-IsTarget user item = elim (Option-cases (item_target_type item)) [
  | inl e ↦ rw (e, any_setting, IsTargetOrNone) tt
  | inr (kind, e) ↦
      rw (e, any_setting, IsTargetOrNone)
        (if-IsTargetOrNone (text_eq kind "mydrive") (personal_setting user item) _
          (personal-IsTarget user item)
          (if-IsTargetOrNone (text_eq kind "shared") (shared_setting item) none
            (shared-IsTarget item) tt))
]

grown :
    (found : Option (Dict Value)) (settings : List (Dict Value))
    → IsTargetOrNone found
    → All IsTarget settings
    → All IsTarget (elim found [ none ↦ settings | some setting ↦ setting ∷ settings ])
grown none settings h hs = hs
grown (some setting) settings h hs = (h, hs)

collect-All :
    (f : Dict Value → Option (Dict Value)) (vs : List Value)
    → ((item : Dict Value) → IsTargetOrNone (f item))
    → All IsTarget (collect f vs)
unfolding collect
collect-All f [] h = tt
collect-All f (v ∷ vs) h = elim (Option-cases (as_dict v)) [
  | inl e ↦ rw (e, collect, All) (collect-All f vs h)
  | inr (item, e) ↦
      rw (e, collect, All) (grown (f item) (collect f vs) (h item) (collect-All f vs h))
]

section-All :
    (f : Dict Value → Option (Dict Value)) (v : Value)
    → ((item : Dict Value) → IsTargetOrNone (f item))
    → All IsTarget (section f v)
section-All f v h = elim (Option-cases (as_list v)) [
  | inl e ↦ rw (e, section, All) tt
  | inr (vs, e) ↦ rw (e, section, All) (collect-All f vs h)
]

extract-All :
    (payload : Value) (user : Option String) → All IsTarget (extract_settings payload user)
unfolding extract_settings
extract-All payload user = elim (Option-cases (as_list (data_of payload))) [
  | inr (vs, e) ↦
      rw (e, extract_settings, All) (collect-All (any_setting user) vs (any-IsTarget user))
  | inl e ↦ elim (Option-cases (as_dict (data_of payload))) [
    | inl d ↦ rw (e, d, extract_settings, All) tt
    | inr (fields, d) ↦
        rw (e, d, extract_settings, All)
          (All-append IsTarget (section (personal_setting user) (get fields "personal"))
            (section shared_setting (get fields "shared"))
            (section-All (personal_setting user) (get fields "personal") (personal-IsTarget user))
            (section-All shared_setting (get fields "shared") shared-IsTarget))
  ]
]

-- The items of a payload: those of its one list, or the personal and then the shared ones.
abbrev no_list : Option (List Value) → List Value
no_list none = []
no_list (some vs) = vs

abbrev both_sections : Option (Dict Value) → List Value
both_sections none = []
both_sections (some d) = no_list (as_list (get d "personal")) ++ no_list (as_list (get d "shared"))

abbrev one_list : Option (List Value) → Value → List Value
one_list (some vs) v = vs
one_list none v = both_sections (as_dict v)

abbrev pub listed_items : Value → List Value
listed_items payload = one_list (as_list (data_of payload)) (data_of payload)

-- A read that is accepted: as many targets as items, each of one of the two kinds.
abbrev pub Accounted : Value → Result (List (Dict Value)) → Type 0
Accounted payload (ok settings) =
    (length settings ≡ length (listed_items payload)) × All IsTarget settings
Accounted payload (err e) = Unit

some_eq : (n m : ℕ) → some m ≡ some n → n ≡ m
some_eq n m h = ground (arith, h)

absent-null : (key : String) (d : Dict Value) → has_key key d ≡ false → as_list (get d key) ≡ none
unfolding get as_list
absent-null key d h = elim (Option-cases (lookup key d)) [
  | inl e ↦ rw (e, get) refl
  | inr (v, e) ↦ ground (arith, e, h)
]

section_length-listed :
    (present : Bool) (v : Value) (n : ℕ)
    → (present ≡ false → as_list v ≡ none)
    → section_length present v ≡ some n
    → n ≡ length (no_list (as_list v))
section_length-listed false v n absent h = rw (absent refl) (ground (arith, h))
section_length-listed true v n absent h = elim (Option-cases (as_list v)) [
  | inl e ↦ ground (arith, rw e at h)
  | inr (vs, e) ↦ rw e (ground (arith, rw e at h))
]

total-listed :
    (m n : Option ℕ) (k a b : ℕ)
    → ((i : ℕ) → m ≡ some i → i ≡ a)
    → ((i : ℕ) → n ≡ some i → i ≡ b)
    → total m n ≡ some k
    → k ≡ a + b
total-listed none n k a b ha hb h = ground (arith, h)
total-listed (some i) none k a b ha hb h = ground (arith, h)
total-listed (some i) (some j) k a b ha hb h = ground (arith, h, ha i refl, hb j refl)

sections-listed :
    (d : Dict Value) (n : ℕ)
    → (if has_key "personal" d || has_key "shared" d
        then total
            (section_length (has_key "personal" d) (get d "personal"))
            (section_length (has_key "shared" d) (get d "shared"))
        else none)
      ≡ some n
    → n ≡ length (both_sections (some d))
sections-listed d n h = elim (Bool-cases (has_key "personal" d || has_key "shared" d)) [
  | inr e ↦ ground (arith, rw e at h)
  | inl e ↦
      total-listed (section_length (has_key "personal" d) (get d "personal"))
        (section_length (has_key "shared" d) (get d "shared")) n
        (length (no_list (as_list (get d "personal"))))
        (length (no_list (as_list (get d "shared"))))
        (λ i.
          section_length-listed (has_key "personal" d) (get d "personal") i
            (absent-null "personal" d))
        (λ i.
          section_length-listed (has_key "shared" d) (get d "shared") i (absent-null "shared" d))
        (rw e at h)
      ∙ sym (
          length-append (no_list (as_list (get d "personal"))) (no_list (as_list (get d "shared"))))
]

item_count-listed :
    (payload : Value) (n : ℕ) → item_count payload ≡ some n → n ≡ length (listed_items payload)
unfolding item_count
item_count-listed payload n h = elim (Option-cases (as_list (data_of payload))) [
  | inr (vs, e) ↦ rw e (some_eq n (length vs) (rw (e, item_count) at h))
  | inl e ↦ elim (Option-cases (as_dict (data_of payload))) [
    | inl d ↦ ground (arith, rw (e, d, item_count) at h)
    | inr (fields, d) ↦ rw (e, d) (sections-listed fields n (rw (e, d, item_count) at h))
  ]
]

checked-Accounted :
    (payload : Value) (n : ℕ) (found : List (Dict Value)) (e : ApiError)
    → n ≡ length (listed_items payload)
    → All IsTarget found
    → Accounted payload (if length found == n then ok found else err e)
checked-Accounted payload n found e h hs = elim (Bool-cases (length found == n)) [
  | inl same ↦ rw (same, Accounted) (ground (arith, same, h), hs)
  | inr differs ↦ rw (differs, Accounted) tt
]

-- A read of the targets that is accepted has as many targets as the payload has items, in its one
-- list or in its personal and shared sections together, each of one of the two kinds.
pub validated_settings-Accounted :
    (payload : Value) (user : Option String) → Accounted payload (validated_settings payload user)
unfolding validated_settings
validated_settings-Accounted payload user = elim (Option-cases (item_count payload)) [
  | inl e ↦ rw (e, validated_settings, Accounted) tt
  | inr (n, e) ↦
      rw (e, validated_settings, Accounted)
        (checked-Accounted payload n (extract_settings payload user) _
          (item_count-listed payload n e) (extract-All payload user))
]
