-- ===== src/Entry/Options/Laws.antt =====
-- What is stored of a set of settings is what is read back.
use ha_unifi_drive.Prelude.{
  String, ◌≡◌, refl, ◌∙◌, ap, Bool, true, false, not, ◌&&◌, Option, none, some, List, [], ◌∷◌, Dict,
  lookup, insert, update, in_texts, lookup-insert, lookup-keep_keys, eq_iff, ◌or_else◌, arith,
  if◌then◌else◌, Option-cases, inl, inr,
}
use ha_unifi_drive.Payload.{Value, null, get}
use ha_unifi_drive.Entry.Options.{
  or_default, ConfigEntry, feature_option_keys, entry_data_keys, entry_value, pick,
  merged_entry_data_options, feature_options_from_data, data_without_feature_options,
  entry_data_from_data, merged_connection_updates, merged_feature_options,
}

-- A dict has each of its keys once.
abbrev pub Distinct : Dict Value → Type 0
Distinct [] = Unit
Distinct ((k, v) ∷ d) = (lookup k d ≡ none) × Distinct d

pub lookup-update :
    (k : String) (d e : Dict Value)
    → Distinct e
    → lookup k (update d e) ≡ (lookup k e or_else lookup k d)
unfolding update lookup
lookup-update k d [] h = refl
lookup-update k d ((j, v) ∷ e) (fresh, h) =
    lookup-update k (insert j v d) e h ∙ ground (arith, lookup-insert j k v d, eq_iff j k, fresh)

lookup-pick :
    (k : String) (keys : List String) (given : Dict Value)
    → lookup k (pick keys given) ≡ (if in_texts k keys then lookup k given else none)
unfolding pick lookup
lookup-pick k [] given = refl
lookup-pick k (key ∷ keys) given =
    ground (arith, lookup-pick k keys given, eq_iff key k, eq_iff k key)

-- The view of an entry that the forms show reads each key as the accessors of the integration do,
-- where a key that is in neither is null.
pub merged_entry_data_options-entry_value :
    (entry : ConfigEntry) (k : String)
    → Distinct entry.options
    → get (merged_entry_data_options entry) k ≡ entry_value entry k null
unfolding merged_entry_data_options entry_value get
merged_entry_data_options-entry_value entry k h =
    rw
      (
        lookup-update k entry.entry_data entry.options h,
        get,
        merged_entry_data_options,
        entry_value,
      )
      (ground arith)

abbrev distinct_texts : List String → Bool
distinct_texts [] = true
distinct_texts (k ∷ ks) = not (in_texts k ks) && distinct_texts ks

pick-Distinct :
    (keys : List String) (given : Dict Value)
    → distinct_texts keys ≡ true
    → Distinct (pick keys given)
unfolding pick
pick-Distinct [] given h = tt
pick-Distinct (key ∷ keys) given h =
    let fresh : in_texts key keys ≡ false = ground arith in
    let rest = pick-Distinct keys given (ground arith) in
    elim (Option-cases (lookup key given)) [
      | inl e ↦ rw (e, pick, Distinct) rest
      | inr (v, e) ↦ rw (e, pick, Distinct) (lookup-pick key keys given ∙ rw fresh refl, rest)
    ]

-- The entry after both parts of a set of settings were stored.
abbrev pub stored : ConfigEntry → Dict Value → ConfigEntry
stored entry given = record {
  entry_data = merged_connection_updates entry given;
  options = merged_feature_options entry given;
}

lookup-stored_options :
    (entry : ConfigEntry) (given : Dict Value) (k : String)
    → lookup k (merged_feature_options entry given) ≡ (
        (if in_texts k feature_option_keys then lookup k given else none)
        or_else lookup k entry.options)
unfolding merged_feature_options feature_options_from_data
lookup-stored_options entry given k =
    lookup-update k entry.options (pick feature_option_keys given)
      (pick-Distinct feature_option_keys given refl)
    ∙ rw lookup-pick refl

lookup-stored_data :
    (entry : ConfigEntry) (given : Dict Value) (k : String)
    → lookup k (merged_connection_updates entry given) ≡ (
        (if in_texts k entry_data_keys then lookup k given else none)
        or_else (if not (in_texts k feature_option_keys) then lookup k entry.entry_data else none))
unfolding merged_connection_updates entry_data_from_data data_without_feature_options
lookup-stored_data entry given k =
    lookup-update k (data_without_feature_options entry.entry_data) (pick entry_data_keys given)
      (pick-Distinct entry_data_keys given refl)
    ∙ rw
        (
          lookup-pick k entry_data_keys given,
          lookup-keep_keys (λ key. not (in_texts key feature_option_keys)) k entry.entry_data,
        )
        refl

chosen :
    (o p : Option Value) (default : Value)
    → (elim o [ some v ↦ v | none ↦ or_default p default ]) ≡ or_default (o or_else p) default
chosen none p default = refl
chosen (some v) p default = refl

or_else_assoc : (o p q : Option Value) → ((o or_else p) or_else q) ≡ (o or_else p or_else q)
or_else_assoc none p q = refl
or_else_assoc (some v) p q = refl

lookup-stored :
    (entry : ConfigEntry) (given : Dict Value) (k : String)
    → (lookup k (merged_feature_options entry given)
        or_else lookup k (merged_connection_updates entry given))
      ≡ ((if in_texts k feature_option_keys then lookup k given else none)
          or_else lookup k entry.options
          or_else (if in_texts k entry_data_keys then lookup k given else none)
          or_else (if not (in_texts k feature_option_keys)
              then lookup k entry.entry_data
              else none))
lookup-stored entry given k =
    rw (lookup-stored_options entry given k, lookup-stored_data entry given k)
      (or_else_assoc (if in_texts k feature_option_keys then lookup k given else none)
        (lookup k entry.options) _)

-- After a set of settings was stored, a key is read as the given feature setting, else as the option
-- that was there, else as the given connection setting, else as the data that was there unless the
-- key is that of a feature.
pub entry_value-stored :
    (entry : ConfigEntry) (given : Dict Value) (k : String) (default : Value)
    → entry_value (stored entry given) k default
      ≡ or_default
          ((if in_texts k feature_option_keys then lookup k given else none)
            or_else lookup k entry.options
            or_else (if in_texts k entry_data_keys then lookup k given else none)
            or_else (if not (in_texts k feature_option_keys)
                then lookup k entry.entry_data
                else none))
          default
unfolding entry_value
entry_value-stored entry given k default =
    chosen (lookup k (merged_feature_options entry given))
      (lookup k (merged_connection_updates entry given)) default
    ∙ ap (λ o. or_default o default) (lookup-stored entry given k)
