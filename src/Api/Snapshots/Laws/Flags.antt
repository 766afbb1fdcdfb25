-- ===== src/Api/Snapshots/Laws/Flags.antt =====
-- What setting a capability changes: the flag of one kind of target, and the sum of the flags.
use ha_unifi_drive.Prelude.{
  String, ◌≡◌, ◌≢◌, ◌⊎◌, inl, inr, ◌&&◌, refl, Bool, true, false, Option, none, some, [], ◌∷◌, Dict,
  lookup, insert, lookup-insert, any, text_eq, arith, if◌then◌else◌,
}
use ha_unifi_drive.Api.Session.{Client}
use ha_unifi_drive.Api.Backup.{is_known_false}
use ha_unifi_drive.Api.Snapshots.Capabilities.{
  Capability, creation, reading, writing, capability_type, aggregate, flags_of, supported_of,
  with_capability, with_flag,
}

-- Some flag is set, or none is.
abbrev pub HasTrue : Dict Bool → Type 0
HasTrue [] = ⊥
HasTrue ((k, b) ∷ flags) = (b ≡ true) ⊎ HasTrue flags

abbrev pub AllFalse : Dict Bool → Type 0
AllFalse [] = Unit
AllFalse ((k, b) ∷ flags) = (b ≡ false) × AllFalse flags

-- What the aggregate says of the flags, in each case.
abbrev pub Summed : Dict Bool → Option Bool → Type 0
Summed flags (some true) = HasTrue flags
Summed flags (some false) =
    AllFalse flags × (lookup "shared" flags ≡ some false) × (lookup "mydrive" flags ≡ some false)
Summed flags none =
    AllFalse flags × ((lookup "shared" flags ≢ some false) ⊎ (lookup "mydrive" flags ≢ some false))

any-HasTrue : (flags : Dict Bool) → any (λ p. p.1) flags ≡ true → HasTrue flags
any-HasTrue [] h = ground (arith, h)
any-HasTrue ((k, true) ∷ flags) h = inl refl
any-HasTrue ((k, false) ∷ flags) h = inr (any-HasTrue flags h)

any-AllFalse : (flags : Dict Bool) → any (λ p. p.1) flags ≡ false → AllFalse flags
any-AllFalse [] h = tt
any-AllFalse ((k, true) ∷ flags) h = ground (arith, h)
any-AllFalse ((k, false) ∷ flags) h = (refl, any-AllFalse flags h)

settled-Summed :
    (b : Bool) (flags : Dict Bool)
    → any (λ p. p.1) flags ≡ b
    → (shared mydrive : Option Bool) → lookup "shared" flags ≡ shared
    → lookup "mydrive" flags ≡ mydrive
    → Summed flags (
        if b
        then some true
        else if is_known_false shared && is_known_false mydrive
        then some false
        else none)
settled-Summed true flags e shared mydrive s m = any-HasTrue flags e
settled-Summed false flags e (some false) (some false) s m = (any-AllFalse flags e, s, m)
settled-Summed false flags e none mydrive s m =
    (any-AllFalse flags e, inl (λ h. ground (arith, s, h)))
settled-Summed false flags e (some true) mydrive s m =
    (any-AllFalse flags e, inl (λ h. ground (arith, s, h)))
settled-Summed false flags e (some false) none s m =
    (any-AllFalse flags e, inr (λ h. ground (arith, m, h)))
settled-Summed false flags e (some false) (some true) s m =
    (any-AllFalse flags e, inr (λ h. ground (arith, m, h)))

aggregate-Summed : (flags : Dict Bool) → Summed flags (aggregate flags)
unfolding aggregate
aggregate-Summed flags =
    settled-Summed (any (λ p. p.1) flags) flags refl (lookup "shared" flags)
      (lookup "mydrive" flags) refl refl

-- For a kind of target that is named, setting a capability sets its flag and no other flag of the
-- capability, and what is then known of the capability is true if some flag is, false if none is and
-- both kinds of target have a flag, and else nothing.
pub with_capability-flags :
    (capability : Capability) (kind : Option String) (k : String) (b : Bool) (c : Client)
    → capability_type kind ≡ some k
    → ((j : String)
        → lookup j (flags_of capability (with_capability capability kind b c))
          ≡ (if text_eq k j then some b else lookup j (flags_of capability c)))
      × Summed
          (flags_of capability (with_capability capability kind b c))
          (supported_of capability (with_capability capability kind b c))
unfolding with_capability flags_of supported_of
with_capability-flags creation kind k b c h = rw h (
  (λ j. lookup-insert k j b c.snapshot_create_supported_by_type),
  aggregate-Summed (insert k b c.snapshot_create_supported_by_type),
)
with_capability-flags reading kind k b c h = rw h (
  (λ j. lookup-insert k j b c.snapshot_inventory_supported_by_type),
  aggregate-Summed (insert k b c.snapshot_inventory_supported_by_type),
)
with_capability-flags writing kind k b c h = rw h (
  (λ j. lookup-insert k j b c.snapshot_settings_write_supported_by_type),
  aggregate-Summed (insert k b c.snapshot_settings_write_supported_by_type),
)

insert-any : (k : String) (flags : Dict Bool) → any (λ p. p.1) (insert k true flags) ≡ true
unfolding insert
insert-any k [] = refl
insert-any k ((j, b) ∷ flags) = ground (arith, insert-any k flags)

aggregate-insert : (k : String) (flags : Dict Bool) → aggregate (insert k true flags) ≡ some true
unfolding aggregate
aggregate-insert k flags = rw insert-any refl

with_flag-supported :
    (capability : Capability) (kind : Option String) (c : Client)
    → supported_of capability (with_flag capability kind true c) ≡ some true
unfolding flags_of supported_of
with_flag-supported creation none c = refl
with_flag-supported reading none c = refl
with_flag-supported writing none c = refl
with_flag-supported creation (some k) c = aggregate-insert k c.snapshot_create_supported_by_type
with_flag-supported reading (some k) c = aggregate-insert k c.snapshot_inventory_supported_by_type
with_flag-supported writing (some k) c =
    aggregate-insert k c.snapshot_settings_write_supported_by_type

pub with_capability-supported :
    (capability : Capability) (kind : Option String) (c : Client)
    → supported_of capability (with_capability capability kind true c) ≡ some true
unfolding with_capability
with_capability-supported capability kind c =
    with_flag-supported capability (capability_type kind) c
