-- ===== src/Coordinator/Poll/Frame.antt =====
-- What no optional feature touches: the state of the connection, and the invariant of the inventory.
use ha_unifi_drive.Prelude.{
  ℕ, String, ◌≡◌, refl, ◌∙◌, inl, inr, Bool, Option, none, some, List, [], arith, Option-cases,
  Bool-cases,
}
use ha_unifi_drive.Api.Session.{
  cannot_connect, invalid_auth, unexpected_response, unsupported_feature, value_error,
}
use ha_unifi_drive.Coordinator.{
  Failure, api, unexpected, uncaught, cancelled, Link, ClientCalls, Coordinator,
}
use ha_unifi_drive.Coordinator.Targets.{
  active_keys, pruned, with_active, with_batch, refresh_due, same_keys,
}
use ha_unifi_drive.Coordinator.Inventory.{listed_from}
use ha_unifi_drive.Coordinator.Inventory.Pending.{connection, rounds-Kept}
use ha_unifi_drive.Coordinator.Refresh.{
  new_batch, keys_to_read, all_rounds, get_snapshot_inventory, batch_ended, read_batch,
  refresh_inventory_if_due,
}
use ha_unifi_drive.Coordinator.Refresh.Ready.{InventoryInv}
use ha_unifi_drive.Coordinator.Refresh.Laws.{refresh_inventory_if_due-InventoryInv}

module _ {Inventory : Type 0} where
  pub record Frame (c c' : Coordinator Inventory) : Type 0 where
    pub connected : connection c' ≡ connection c
    pub kept : InventoryInv c → InventoryInv c'

  pub Frame-refl : (c : Coordinator Inventory) → Frame c c
  Frame-refl c = record { connected = refl; kept = λ h. h }

  pub Frame-trans : (c c' c'' : Coordinator Inventory) → Frame c c' → Frame c' c'' → Frame c c''
  Frame-trans c c' c'' h h' = record {
    connected = h'.connected ∙ h.connected;
    kept = λ inv. h'.kept (h.kept inv);
  }

  active-connection :
      (active : List String) (c : Coordinator Inventory)
      → connection (pruned active (with_active active c)) ≡ connection c
  unfolding pruned with_active
  active-connection active c = elim (Bool-cases (same_keys active c.target_keys)) [
    | inl e ↦ rw e refl
    | inr e ↦ rw e refl
  ]

  batch-connection :
      (now : ℕ) (active : List String) (c : Coordinator Inventory)
      → connection (with_batch now active c) ≡ connection c
  unfolding with_batch
  batch-connection now active c = ground arith

  module _ (safe_error_text : String → String) (calls : ClientCalls Inventory) where
    got-connection :
        (active : List String) (c : Coordinator Inventory) (l : Link)
        → connection (get_snapshot_inventory safe_error_text calls active c l).1 ≡ connection c
    unfolding get_snapshot_inventory
    got-connection active c l =
        let listed = listed_from active c.snapshot_settings [] in
        let kept =
          rounds-Kept safe_error_text calls l.session.client.snapshot_inventory_supported_by_type
            listed (keys_to_read safe_error_text calls c.pending_targets listed)
            (new_batch safe_error_text calls c l) in
        elim (Option-cases (all_rounds safe_error_text calls active c l).0) [
          | inl e ↦ rw (e, get_snapshot_inventory) kept.connected
          | inr (failure, e) ↦ rw (e, get_snapshot_inventory) kept.connected
        ]

    ended-connection :
        (now : ℕ) (requested : Bool) (stop : Option Failure) (c : Coordinator Inventory) (l : Link)
        → connection (batch_ended safe_error_text calls now requested stop c l).1 ≡ connection c
    unfolding batch_ended
    ended-connection now requested none c l = refl
    ended-connection now requested (some (unexpected e)) c l = refl
    ended-connection now requested (some (api value_error)) c l = refl
    ended-connection now requested (some (api (cannot_connect e))) c l = refl
    ended-connection now requested (some (api (invalid_auth e))) c l = refl
    ended-connection now requested (some (api (unexpected_response e))) c l = refl
    ended-connection now requested (some (api (unsupported_feature e))) c l = refl
    ended-connection now requested (some (uncaught e)) c l = refl
    ended-connection now requested (some cancelled) c l = refl

    inventory-connection :
        (c : Coordinator Inventory) (l : Link)
        → connection (refresh_inventory_if_due safe_error_text calls c l).1 ≡ connection c
    unfolding refresh_inventory_if_due read_batch
    inventory-connection c l =
        let active = active_keys c.snapshot_settings in
        let c' = pruned active (with_active active c) in
        let c'' = with_batch l.utc_now active c' in
        let (stop, c''', l') = get_snapshot_inventory safe_error_text calls active c'' l in
        elim (Bool-cases (refresh_due l.utc_now c')) [
          | inl e ↦ rw e (
              ended-connection l.utc_now c'.refresh_requested stop c''' l'
              ∙ got-connection active c'' l
              ∙ batch-connection l.utc_now active c'
              ∙ active-connection active c)
          | inr e ↦ rw e (active-connection active c)
        ]

    pub inventory-Frame :
        (c : Coordinator Inventory) (l : Link)
        → Frame c (refresh_inventory_if_due safe_error_text calls c l).1
    inventory-Frame c l = record {
      connected = inventory-connection c l;
      kept = refresh_inventory_if_due-InventoryInv safe_error_text calls c l;
    }
