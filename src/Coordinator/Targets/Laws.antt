-- ===== src/Coordinator/Targets/Laws.antt =====
-- Membership in the sets and ordered dicts of keys, as the operations leave it.
use ha_unifi_drive.Prelude.{
  String, ◌≡◌, refl, Bool, true, false, not, ◌&&◌, ◌||◌, none, List, [], ◌∷◌, ◌++◌, Dict, text_eq,
  eq_iff, in_texts, keep, all, lookup, insert, lookup-insert, arith, if◌then◌else◌, is_some,
}
use ha_unifi_drive.Payload.{Value}
use ha_unifi_drive.Snapshot.Targets.{target_key}
use ha_unifi_drive.Coordinator.Targets.{
  same_keys, insert_sorted, sorted, add_key, add_keys, active_keys, add_target_key,
}
use ha_unifi_drive.Coordinator.Inventory.{listed_from}

pub in_texts-append :
    (k : String) (ks js : List String) → in_texts k (ks ++ js) ≡ (in_texts k ks || in_texts k js)
in_texts-append k [] js = refl
in_texts-append k (i ∷ ks) js = ground (arith, in_texts-append k ks js)

pub in_texts-keep :
    (p : String → Bool) (k : String) (ks : List String)
    → in_texts k (keep p ks) ≡ (p k && in_texts k ks)
in_texts-keep p k [] = ground arith
in_texts-keep p k (j ∷ ks) = ground (arith, in_texts-keep p k ks, eq_iff k j)

in_texts-insert_sorted :
    (k j : String) (ks : List String)
    → in_texts k (insert_sorted j ks) ≡ (text_eq k j || in_texts k ks)
unfolding insert_sorted
in_texts-insert_sorted k j [] = refl
in_texts-insert_sorted k j (i ∷ ks) = ground (arith, in_texts-insert_sorted k j ks)

pub in_texts-sorted : (k : String) (ks : List String) → in_texts k (sorted ks) ≡ in_texts k ks
unfolding sorted
in_texts-sorted k [] = refl
in_texts-sorted k (j ∷ ks) =
    ground (arith, in_texts-insert_sorted k j (sorted ks), in_texts-sorted k ks)

pub in_texts-add_key :
    (k j : String) (ks : List String) → in_texts k (add_key j ks) ≡ (text_eq k j || in_texts k ks)
unfolding add_key
in_texts-add_key k j ks = ground (arith, in_texts-append k ks (j ∷ []), eq_iff k j)

pub in_texts-add_keys :
    (k : String) (js ks : List String)
    → in_texts k (add_keys js ks) ≡ (in_texts k js || in_texts k ks)
unfolding add_keys
in_texts-add_keys k [] ks = refl
in_texts-add_keys k (j ∷ js) ks =
    ground (arith, in_texts-add_keys k js (add_key j ks), in_texts-add_key k j ks)

in_texts-add_target_key :
    (k : String) (target : Dict Value) (ks : List String)
    → in_texts k (add_target_key target ks)
      ≡ ((text_eq k (target_key target) && not (text_eq (target_key target) "")) || in_texts k ks)
unfolding add_target_key
in_texts-add_target_key k target ks = ground (arith, in_texts-add_key k (target_key target) ks)

listed-has :
    (k : String) (active : List String) (targets : List (Dict Value)) (listed : Dict (Dict Value))
    → in_texts k active ≡ true
    → (in_texts k (active_keys targets) || is_some (lookup k listed)) ≡ true
    → is_some (lookup k (listed_from active targets listed)) ≡ true
unfolding listed_from active_keys
listed-has k active [] listed h known = ground arith
listed-has k active (target ∷ targets) listed h known =
    let key = target_key target in
    listed-has k active targets
      (if not (text_eq key "") && in_texts key active then insert key target listed else listed) h
      (ground (
        arith,
        in_texts-add_target_key k target (active_keys targets),
        lookup-insert key k target listed,
        eq_iff k key,
        eq_iff key k,
      ))

-- Every active key has its settings.
pub active-listed :
    (k : String) (targets : List (Dict Value))
    → in_texts k (active_keys targets) ≡ true
    → is_some (lookup k (listed_from (active_keys targets) targets [])) ≡ true
active-listed k targets h = listed-has k (active_keys targets) targets [] h (ground (arith))

listed-lacks :
    (k : String) (active : List String) (targets : List (Dict Value)) (listed : Dict (Dict Value))
    → in_texts k active ≡ false
    → lookup k (listed_from active targets listed) ≡ lookup k listed
unfolding listed_from
listed-lacks k active [] listed h = refl
listed-lacks k active (target ∷ targets) listed h =
    let key = target_key target in
    let next =
      if not (text_eq key "") && in_texts key active then insert key target listed else listed in
    ground (
      arith,
      listed-lacks k active targets next h,
      lookup-insert key k target listed,
      eq_iff k key,
      eq_iff key k,
    )

-- What is no active key has no settings.
pub inactive-unlisted :
    (k : String) (active : List String) (targets : List (Dict Value))
    → in_texts k active ≡ false
    → lookup k (listed_from active targets []) ≡ none
unfolding lookup
inactive-unlisted k active targets h = listed-lacks k active targets [] h

all-in_texts :
    (k : String) (ks js : List String)
    → all (λ i. in_texts i js) ks ≡ true
    → in_texts k ks ≡ true
    → in_texts k js ≡ true
all-in_texts k [] js h m = ground arith
all-in_texts k (i ∷ ks) js h m = ground (arith, all-in_texts k ks js, eq_iff k i)

-- Sets that are equal have the same members.
pub same_keys-in_texts :
    (k : String) (ks js : List String) → same_keys ks js ≡ true → in_texts k ks ≡ in_texts k js
same_keys-in_texts k ks js h = ground (arith, all-in_texts k ks js, all-in_texts k js ks)
