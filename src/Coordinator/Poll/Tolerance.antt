-- ===== src/Coordinator/Poll/Tolerance.antt =====
-- A poll gives the storage that it read, whatever errors the optional features meet.
use ha_unifi_drive.Prelude.{
  ℕ, String, ◌≡◌, refl, inl, inr, Bool, Option, none, some, List, [], ◌∷◌, Dict, lookup, arith,
  Option-cases, Bool-cases,
}
use ha_unifi_drive.Payload.{Value}
use ha_unifi_drive.Snapshot.Targets.{target_type}
use ha_unifi_drive.Api.Session.{
  cannot_connect, invalid_auth, unexpected_response, unsupported_feature, value_error,
}
use ha_unifi_drive.Coordinator.{
  Failure, api, unexpected, uncaught, cancelled, Outcome, returned, stopped, ClientCalls,
  Coordinator, Link,
}
use ha_unifi_drive.Coordinator.Targets.{active_keys, pruned, with_active, with_batch, refresh_due}
use ha_unifi_drive.Coordinator.Inventory.{
  Batch, type_is_unsupported, listed_from, round_for, read_answered, read_target, round, rounds,
  skip_reason,
}
use ha_unifi_drive.Coordinator.Refresh.{
  new_batch, keys_to_read, all_rounds, get_snapshot_inventory, batch_ended, read_batch,
  refresh_inventory_if_due,
}
use ha_unifi_drive.Coordinator.Optional.{after_timeout}

-- A call whose end the refreshers handle: a result, one of the client's own exceptions, or the
-- cancellation by their timeout.
abbrev pub IsHandled {ℓ} : {A : Type ℓ} → Outcome A → Type 0
IsHandled (returned a) = Unit
IsHandled (stopped cancelled) = Unit
IsHandled (stopped (api value_error)) = ⊥
IsHandled (stopped (api e)) = Unit
IsHandled (stopped (unexpected e)) = ⊥
IsHandled (stopped (uncaught e)) = ⊥

-- For the reads of an inventory, any exception but one of an unforeseen class.
abbrev pub IsCaught {ℓ} : {A : Type ℓ} → Outcome A → Type 0
IsCaught (stopped (uncaught e)) = ⊥
IsCaught _ = Unit

pub record Tolerable {Inventory : Type 0} (calls : ClientCalls Inventory) : Type 0 where
  pub fan : (l : Link) → IsHandled (calls.get_fan_mode l).0
  pub backup : (l : Link) → IsHandled (calls.get_backup_tasks l).0
  pub settings : (l : Link) → IsHandled (calls.get_snapshot_settings l).0
  pub target : (d : Dict Value) (l : Link) → IsCaught (calls.get_inventory_target d l).0

-- A run that ends by itself or by its timeout.
abbrev pub IsTimely : Option Failure → Type 0
IsTimely stop = (after_timeout stop).0 ≡ none

module _ {Inventory : Type 0} (safe_error_text : String → String)
    (calls : ClientCalls Inventory) where
  answered-IsTimely :
      (key : String) (r : Outcome Inventory) (b : Batch Inventory)
      → IsCaught r
      → IsTimely (read_answered safe_error_text calls key r b).0
  unfolding read_answered
  answered-IsTimely key (returned summary) b h = refl
  answered-IsTimely key (stopped (api e)) b h = refl
  answered-IsTimely key (stopped (unexpected e)) b h = refl
  answered-IsTimely key (stopped (uncaught e)) b h = ground arith
  answered-IsTimely key (stopped cancelled) b h = refl

  module _ (tolerable : Tolerable calls) where
    module _ (support : Dict Bool) (listed : Dict (Dict Value)) where
      round_for-IsTimely :
          (key : String) (target : Dict Value) (reason : Option String) (b : Batch Inventory)
          → IsTimely (round_for safe_error_text calls support key target reason b).0
      unfolding round_for read_target
      round_for-IsTimely key target (some reason) b = refl
      round_for-IsTimely key target none b =
          elim (Bool-cases (type_is_unsupported support (target_type target))) [
            | inl e ↦ rw e refl
            | inr e ↦
                let (r, l) = calls.get_inventory_target target b.link in
                rw e
                  (answered-IsTimely key r (record b { link = l }) (tolerable.target target b.link))
          ]

      round-IsTimely :
          (key : String) (b : Batch Inventory)
          → IsTimely (round safe_error_text calls support listed key b).0
      unfolding round
      round-IsTimely key b = elim (Option-cases (lookup key listed)) [
        | inl e ↦ rw e refl
        | inr (target, e) ↦
            rw e (
              round_for-IsTimely key target (skip_reason (lookup key b.coordinator.skip_reasons)) b)
      ]

      rounds-IsTimely :
          (keys : List String) (b : Batch Inventory)
          → IsTimely (rounds safe_error_text calls support listed keys b).0
      unfolding rounds
      rounds-IsTimely [] b = refl
      rounds-IsTimely (key ∷ keys) b =
          let (stop, b') = round safe_error_text calls support listed key b in
          elim (Option-cases stop) [
            | inl e ↦ rw (e, rounds) (rounds-IsTimely keys b')
            | inr (failure, e) ↦ rw (e, rounds) (rw e at (round-IsTimely key b))
          ]

    got-IsTimely :
        (active : List String) (c : Coordinator Inventory) (l : Link)
        → IsTimely (get_snapshot_inventory safe_error_text calls active c l).0
    unfolding get_snapshot_inventory
    got-IsTimely active c l =
        let listed = listed_from active c.snapshot_settings [] in
        let h =
          rounds-IsTimely l.session.client.snapshot_inventory_supported_by_type listed
            (keys_to_read safe_error_text calls c.pending_targets listed)
            (new_batch safe_error_text calls c l) in
        elim (Option-cases (all_rounds safe_error_text calls active c l).0) [
          | inl e ↦ rw (e, get_snapshot_inventory) refl
          | inr (failure, e) ↦ rw (e, get_snapshot_inventory) (rw e at h)
        ]

    ended-IsTimely :
        (now : ℕ) (requested : Bool) (stop : Option Failure) (c : Coordinator Inventory) (l : Link)
        → IsTimely stop
        → IsTimely (batch_ended safe_error_text calls now requested stop c l).0
    unfolding batch_ended
    ended-IsTimely now requested none c l h = refl
    ended-IsTimely now requested (some (unexpected e)) c l h = refl
    ended-IsTimely now requested (some (api value_error)) c l h = refl
    ended-IsTimely now requested (some (api (cannot_connect e))) c l h = h
    ended-IsTimely now requested (some (api (invalid_auth e))) c l h = h
    ended-IsTimely now requested (some (api (unexpected_response e))) c l h = h
    ended-IsTimely now requested (some (api (unsupported_feature e))) c l h = h
    ended-IsTimely now requested (some (uncaught e)) c l h = h
    ended-IsTimely now requested (some cancelled) c l h = h

    pub inventory-IsTimely :
        (c : Coordinator Inventory) (l : Link)
        → IsTimely (refresh_inventory_if_due safe_error_text calls c l).0
    unfolding refresh_inventory_if_due read_batch
    inventory-IsTimely c l =
        let active = active_keys c.snapshot_settings in
        let c' = pruned active (with_active active c) in
        let (stop, c'', l') =
          get_snapshot_inventory safe_error_text calls active (with_batch l.utc_now active c') l in
        elim (Bool-cases (refresh_due l.utc_now c')) [
          | inl e ↦ rw e (
              ended-IsTimely l.utc_now c'.refresh_requested stop c'' l'
                (got-IsTimely active (with_batch l.utc_now active c') l))
          | inr e ↦ rw e refl
        ]
