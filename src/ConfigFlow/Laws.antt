-- ===== src/ConfigFlow/Laws.antt =====
-- config_flow_identity.py: which entry a validated device is taken for.
use ha_unifi_drive.Prelude.{
  String, arith, Bool, ◌≡◌, refl, ap, ◌∙◌, true, false, ◌||◌, Option, none, some, List, [], ◌∷◌,
  Dict, ℤ, text_eq, if◌then◌else◌,
}
use ha_unifi_drive.Payload.{Value, get, int_of}
use ha_unifi_drive.Api.Auth.Devices.{system_device_unique_id}
use ha_unifi_drive.Api.Auth.Devices.Clean.{
  IsClean, system_device_unique_id-IsClean, device_unique_ids-first, device_scoped_unique_ids-only,
}
use ha_unifi_drive.ConfigFlow.{
  readable_pools, as_text, Info, KnownEntry, without_empty, info_of, entry_info, validated_info,
  entry_unique_id_matches, entry_matches, is_current_id, identifier_matches, is_configured,
  any_unique_id_configured, matches_connection_fallback,
}

-- The information names this device, and nothing but it.
abbrev Names : String → Info → Type 0
Names id info = (info.unique_id ≡ id) × (info.scoped_ids ≡ id ∷ [])

info_of-Names :
    (name : String) (port : ℤ) (id : String) (ids : List String)
    → IsClean id
    → Names id (info_of name port (some id) ids (id ∷ []))
unfolding info_of without_empty
info_of-Names name port id ids (e, _) = (rw e refl, rw e refl)

abbrev NamesIfSome : String → Option Info → Type 0
NamesIfSome id none = Unit
NamesIfSome id (some info) = Names id info

entry_info-Names :
    (settings : Dict Value) (id : String) (ids : List String)
    → IsClean id
    → NamesIfSome id (entry_info settings (some id) ids (id ∷ []))
unfolding entry_info
entry_info-Names settings id ids h =
    by_host (as_text (get settings "host")) (int_of (get settings "port"))
  where
    by_host :
        (host : Option String) (number : Option ℤ)
        → NamesIfSome id (elim host [
          | none ↦ none
          | some name ↦ elim number [
            | none ↦ none
            | some port ↦ some (info_of name port (some id) ids (id ∷ []))
          ]
        ])
    by_host none number = tt
    by_host (some name) none = tt
    by_host (some name) (some port) = info_of-Names name port id ids h

not_raised {ℓ} :
    {A : Type ℓ} (b : Bool) (o : Option A) (a : A) → (if b then o else none) ≡ some a → o ≡ some a
not_raised true o a h = h
not_raised false o a h = ground (arith, h)

validated_info-Names :
    (settings storage : Dict Value) (system login : Option (Dict Value)) (id : String) (info : Info)
    → system_device_unique_id system ≡ some id
    → validated_info settings storage system login ≡ some info
    → Names id info
unfolding validated_info
validated_info-Names settings storage system login id info known h =
    let (more, e) = device_unique_ids-first system login id known in
    let told = rw (e, device_scoped_unique_ids-only system id known) at h in
    rw (not_raised (readable_pools (get storage "pools")) _ info told) at
      (entry_info-Names settings id (id ∷ more) (system_device_unique_id-IsClean system id known))

or-false : (b : Bool) → (b || false) ≡ b
or-false true = refl
or-false false = refl

first_of : (b m : Bool) → (if b || false then true else m) ≡ (b || m)
first_of true m = refl
first_of false m = refl

module _ (entry : KnownEntry) (info : Info) (id other : String) (clean : IsClean id)
    (names : Names other info) where
  current-id : is_current_id id info ≡ text_eq id other
  current-id = rw (names.1) (or-false (text_eq id other))

  entry_unique_id_matches-scoped : entry_unique_id_matches (some id) info ≡ text_eq id other
  unfolding entry_unique_id_matches
  entry_unique_id_matches-scoped = rw (clean.0) current-id

  identifier_matches-scoped :
      identifier_matches (some id) entry info
      ≡ (text_eq id other || matches_connection_fallback id entry info)
  unfolding identifier_matches
  identifier_matches-scoped =
      simp (clean.0, names.1)
        (first_of (text_eq id other) (matches_connection_fallback id entry info))

  is_configured-scoped :
      is_configured (some id) entry info
      ≡ (text_eq id other || matches_connection_fallback id entry info)
  unfolding is_configured
  is_configured-scoped = rw (clean.0, current-id) refl

-- An entry was created from a validation in which the system metadata gave one identifier, and a
-- device is validated later whose system metadata gives an identifier too, with whatever settings
-- and accounts. The two tests whether the later device is that of the entry, one for the entry and
-- one among all entries, agree on the entry: they hold if the identifiers are the same text, and
-- otherwise only if the entry passes the test for an old identifier of host and port. The test
-- without that exception holds exactly if the identifiers are the same.
pub validated_info-Recognised :
    (settings later storage storage_later : Dict Value)
    (system system_later login login_later : Option (Dict Value)) (id other : String)
    (info info_later : Info) (entry : KnownEntry) (more : List KnownEntry)
    → system_device_unique_id system ≡ some id
    → system_device_unique_id system_later ≡ some other
    → validated_info settings storage system login ≡ some info
    → validated_info later storage_later system_later login_later ≡ some info_later
    → entry.entry_unique_id ≡ some info.unique_id
    → (entry_matches entry info_later
        ≡ (text_eq id other || matches_connection_fallback id entry info_later))
      × (any_unique_id_configured (entry ∷ more) info_later ≡ (
          (text_eq id other || matches_connection_fallback id entry info_later)
          || any_unique_id_configured more info_later))
      × (entry_unique_id_matches entry.entry_unique_id info_later ≡ text_eq id other)
unfolding entry_matches any_unique_id_configured
validated_info-Recognised settings later storage storage_later system system_later login login_later
      id other info info_later entry more known known_later told told_later created =
    let first = validated_info-Names settings storage system login id info known told in
    let names =
      validated_info-Names later storage_later system_later login_later other info_later known_later
        told_later in
    let clean = system_device_unique_id-IsClean system id known in
    let named = created ∙ ap some (first.0) in
    (
      ap (λ o. identifier_matches o entry info_later) named
          ∙ identifier_matches-scoped entry info_later id other clean names,
      ap (λ o. is_configured o entry info_later || any_unique_id_configured more info_later) named
          ∙ ap (λ b. b || any_unique_id_configured more info_later)
              (is_configured-scoped entry info_later id other clean names),
      ap (λ o. entry_unique_id_matches o info_later) named
          ∙ entry_unique_id_matches-scoped entry info_later id other clean names,
    )
