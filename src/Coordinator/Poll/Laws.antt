-- ===== src/Coordinator/Poll/Laws.antt =====
-- Laws of whole polls: what they make of the connection, and of the inventory.
use ha_unifi_drive.Prelude.{
  ℕ, ◌+◌, String, ◌≡◌, refl, Bool, true, false, Option, none, some, List, [], ◌∷◌, Dict, is_some,
  arith, if◌then◌else◌,
}
use ha_unifi_drive.Payload.{Value}
use ha_unifi_drive.Repairs.{IssueRegistry, Entry}
use ha_unifi_drive.Coordinator.{Failure, Outcome, returned, stopped, ClientCalls, Coordinator}
use ha_unifi_drive.Coordinator.Connection.{
  Update, ready, storage_polled, connection_failed, connection_recovered,
}
use ha_unifi_drive.Coordinator.Connection.Laws.{
  failures_after, Counts, Logged, polled-Counts, polled-Logged, connected-Counts, connected-Logged,
}
use ha_unifi_drive.Coordinator.Refresh.Ready.{InventoryInv}
use ha_unifi_drive.Coordinator.Optional.{
  World, features, changed, refresh_each, clear_snapshot_settings_state, refresh_timeout,
}
use ha_unifi_drive.Coordinator.Poll.{
  refreshed, refresh_features, refresh_optional_features, after_refresh, poll_answered, update_data,
}
use ha_unifi_drive.Coordinator.Poll.Frame.{Frame, Frame-refl, Frame-trans}
use ha_unifi_drive.Coordinator.Poll.Features.{
  Keeps, Frame-if, same-Frame, same-InventoryInv, cleared-Frame, each-Keeps,
}

module _ {Inventory State : Type 0} (safe_error_text : String → String)
    (registry : IssueRegistry State) (entry : Entry) (within : ℕ → ClientCalls Inventory) where
  refreshed-Frame :
      (r : Option Failure × Bool × World Inventory State)
      → Keeps r.2.coordinator (refreshed safe_error_text registry entry within r)
  refreshed-Frame (none, timed_out, w) = same-Frame w.coordinator _ refl refl refl refl refl
  refreshed-Frame (some failure, timed_out, w) = same-Frame w.coordinator _ refl refl refl refl refl

  cleared_if-Frame :
      (b : Bool) (w : World Inventory State)
      → Frame w.coordinator
          (if b
            then w
            else clear_snapshot_settings_state safe_error_text registry entry w).coordinator
  unfolding clear_snapshot_settings_state
  cleared_if-Frame true w = Frame-refl w.coordinator
  cleared_if-Frame false w = cleared-Frame w.coordinator

  features-Keeps :
      (ticks : ℕ) (w : World Inventory State)
      → Keeps w.coordinator (refresh_features safe_error_text registry entry within ticks w)
  unfolding refresh_features
  features-Keeps ticks w =
      let held = changed (λ c. record c { refreshing = true }) w in
      let buttons = w.coordinator.snapshot_buttons_enabled in
      let start =
        if buttons
        then held
        else clear_snapshot_settings_state safe_error_text registry entry held in
      let deadline = w.link.loop_time + refresh_timeout ticks in
      let r =
        refresh_each safe_error_text registry entry within deadline (features w.coordinator) false
          start in
      Frame-trans w.coordinator held.coordinator
        (refreshed safe_error_text registry entry within r).1.coordinator
        (same-Frame w.coordinator held.coordinator refl refl refl refl refl)
        (Frame-trans held.coordinator start.coordinator
          (refreshed safe_error_text registry entry within r).1.coordinator
          (cleared_if-Frame buttons held)
          (Frame-trans start.coordinator r.2.coordinator
            (refreshed safe_error_text registry entry within r).1.coordinator
            (each-Keeps safe_error_text registry entry within deadline (features w.coordinator)
              false start)
            (refreshed-Frame r)))

  pub optional-Keeps :
      (ticks : ℕ) (w : World Inventory State)
      → Keeps w.coordinator
          (refresh_optional_features safe_error_text registry entry within ticks w)
  unfolding refresh_optional_features
  optional-Keeps ticks w =
      Frame-if w.coordinator.refreshing w.coordinator (none, w)
        (refresh_features safe_error_text registry entry within ticks w) (Frame-refl w.coordinator)
        (features-Keeps ticks w)

  after_refresh-Frame :
      (storage : Dict Value) (c : Coordinator Inventory)
      (r : Option Failure × World Inventory State)
      → Keeps c r
      → Frame c (after_refresh safe_error_text registry entry within storage r).1.coordinator
  after_refresh-Frame storage c (none, w) h = h
  after_refresh-Frame storage c (some failure, w) h = h

  answered-Frame :
      (ticks : ℕ) (r : Outcome (Dict Value)) (u : Update) (w : World Inventory State)
      → Frame w.coordinator
          (poll_answered safe_error_text registry entry within ticks r (u, w)).1.coordinator
  answered-Frame ticks (stopped failure) u w = Frame-refl w.coordinator
  answered-Frame ticks (returned storage) u w =
      let r = refresh_optional_features safe_error_text registry entry within ticks w in
      Frame-if w.coordinator.first_refresh_core_only w.coordinator (ready storage, w)
        (after_refresh safe_error_text registry entry within storage r) (Frame-refl w.coordinator)
        (after_refresh-Frame storage w.coordinator r (optional-Keeps ticks w))

  -- A poll, after what it makes of the storage that it read.
  pub update_data-Frame :
      (ticks : ℕ) (calls : ClientCalls Inventory) (w : World Inventory State)
      → Frame
          (storage_polled safe_error_text (calls.get_storage w.link).0 w.coordinator).1
          (update_data safe_error_text registry entry within ticks calls w).1.coordinator
  unfolding update_data
  update_data-Frame ticks calls w =
      let (r, l) = calls.get_storage w.link in
      let (u, c) = storage_polled safe_error_text r w.coordinator in
      answered-Frame ticks r u (record w { coordinator = c; link = l })

  storage-inventory :
      (r : Outcome (Dict Value)) (c : Coordinator Inventory)
      → let c' = (storage_polled safe_error_text r c).1 in
        (c'.inventory ≡ c.inventory)
        × (c'.inventory_errors ≡ c.inventory_errors)
        × (c'.pending_targets ≡ c.pending_targets)
        × (c'.target_keys ≡ c.target_keys)
  unfolding storage_polled connection_failed connection_recovered
  storage-inventory r c = ground arith

  -- A poll keeps the invariant of the inventory, whatever the calls give.
  pub update_data-InventoryInv :
      (ticks : ℕ) (calls : ClientCalls Inventory) (w : World Inventory State)
      → InventoryInv w.coordinator
      → InventoryInv (update_data safe_error_text registry entry within ticks calls w).1.coordinator
  update_data-InventoryInv ticks calls w h =
      let (r, l) = calls.get_storage w.link in
      let c = (storage_polled safe_error_text r w.coordinator).1 in
      let same = storage-inventory r w.coordinator in
      (update_data-Frame ticks calls w).kept
        (same-InventoryInv w.coordinator c same.0 same.1 same.2 same.3 h)

  -- What the base class does with an update, beside calling its listeners: it stores data.
  module _ (store : Option (Dict Value) → Update → Option (Dict Value)) where
    abbrev pub next_world :
        ℕ → ClientCalls Inventory → World Inventory State → World Inventory State
    next_world ticks calls w =
        let (u, w') = update_data safe_error_text registry entry within ticks calls w in
        changed (λ c. record c { cached = store c.cached u }) w'

    -- The polls one after another, each with what the client gives then.
    unfoldable pub polls :
        ℕ → List (ClientCalls Inventory) → World Inventory State → World Inventory State
    polls ticks [] w = w
    polls ticks (calls ∷ rest) w = polls ticks rest (next_world ticks calls w)

    -- The polls as the number of failures since the last success.
    unfoldable pub failures : ℕ → List (ClientCalls Inventory) → World Inventory State → ℕ → ℕ
    failures ticks [] w n = n
    failures ticks (calls ∷ rest) w n =
        failures ticks rest (next_world ticks calls w)
          (failures_after (calls.get_storage w.link).0 n)

    module _ (stored : (d : Dict Value) (u : Update) → is_some (store (some d) u) ≡ true) where
      stored-is_some :
          (o : Option (Dict Value)) (u : Update) → is_some o ≡ true → is_some (store o u) ≡ true
      stored-is_some none u h = ground arith
      stored-is_some (some d) u h = stored d u

      next-Counts :
          (ticks : ℕ) (calls : ClientCalls Inventory) (w : World Inventory State) (n : ℕ)
          → Counts w.coordinator n
          → Counts
              (next_world ticks calls w).coordinator
              (failures_after (calls.get_storage w.link).0 n)
      next-Counts ticks calls w n h =
          let (r, l) = calls.get_storage w.link in
          let c = (storage_polled safe_error_text r w.coordinator).1 in
          let (u, w') = update_data safe_error_text registry entry within ticks calls w in
          let h' =
            connected-Counts c w'.coordinator (failures_after r n)
              (update_data-Frame ticks calls w).connected
              (polled-Counts safe_error_text r w.coordinator n h) in
          record {
            has_data = stored-is_some w'.coordinator.cached u h'.has_data;
            online = h'.online;
            counted = h'.counted;
          }

      -- The polls refine the count of failures since the last success, where the base class keeps
      -- the data it has or replaces it: from a coordinator with data that agrees with a count, every
      -- sequence of polls, whatever the optional features do in them, ends with data, with the
      -- device online exactly when that count is below two, and with the coordinator's own counter
      -- equal to it.
      pub polls-Counts :
          (ticks : ℕ) (calls : List (ClientCalls Inventory)) (w : World Inventory State) (n : ℕ)
          → Counts w.coordinator n
          → Counts (polls ticks calls w).coordinator (failures ticks calls w n)
      unfolding polls failures
      polls-Counts ticks [] w n h = h
      polls-Counts ticks (calls ∷ rest) w n h =
          polls-Counts ticks rest (next_world ticks calls w)
            (failures_after (calls.get_storage w.link).0 n) (next-Counts ticks calls w n h)

      next-Logged :
          (ticks : ℕ) (calls : ClientCalls Inventory) (w : World Inventory State)
          → Logged w.coordinator
          → Logged (next_world ticks calls w).coordinator
      next-Logged ticks calls w h =
          let r = (calls.get_storage w.link).0 in
          let c = (storage_polled safe_error_text r w.coordinator).1 in
          let (u, w') = update_data safe_error_text registry entry within ticks calls w in
          let h' =
            connected-Logged c w'.coordinator (update_data-Frame ticks calls w).connected
              (polled-Logged safe_error_text r w.coordinator h) in
          record {
            has_data = stored-is_some w'.coordinator.cached u h'.has_data;
            told = h'.told;
            flag = h'.flag;
            alternates = h'.alternates;
          }

      -- From a coordinator that has data and whose log agrees with its state, where the base class
      -- keeps the data it has or replaces it, every sequence of polls tells of each outage once:
      -- afterwards the log's last word on the connection, lines of a tolerated failure aside, is that
      -- the device is unavailable exactly if the device is offline, and the flag says so too; each
      -- line that it is unavailable follows no other without a line between them that the connection
      -- is restored, and each line that it is restored follows one that it is unavailable.
      pub polls-Logged :
          (ticks : ℕ) (calls : List (ClientCalls Inventory)) (w : World Inventory State)
          → Logged w.coordinator
          → Logged (polls ticks calls w).coordinator
      unfolding polls
      polls-Logged ticks [] w h = h
      polls-Logged ticks (calls ∷ rest) w h =
          polls-Logged ticks rest (next_world ticks calls w) (next-Logged ticks calls w h)
