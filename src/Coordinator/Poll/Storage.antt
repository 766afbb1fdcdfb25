-- ===== src/Coordinator/Poll/Storage.antt =====
-- The refreshers end by themselves or by their timeout, so the poll gives what it read.
use ha_unifi_drive.Prelude.{
  ℕ, ◌+◌, String, ◌≡◌, refl, Bool, true, false, ◌||◌, Option, none, some, List, [], ◌∷◌, Dict,
  length, arith, if◌then◌else◌,
}
use ha_unifi_drive.Payload.{Value}
use ha_unifi_drive.Api.Session.{
  cannot_connect, invalid_auth, unexpected_response, unsupported_feature, value_error,
}
use ha_unifi_drive.Api.Backup.{BackupTask, is_known_false}
use ha_unifi_drive.Repairs.{IssueRegistry, Entry}
use ha_unifi_drive.Coordinator.{
  Failure, api, unexpected, uncaught, cancelled, Outcome, returned, stopped, ClientCalls,
}
use ha_unifi_drive.Coordinator.Connection.{Update, ready, storage_polled}
use ha_unifi_drive.Coordinator.Optional.{
  World, Feature, fan_feature, backup_feature, snapshot_feature, refresh, refresh_fan_mode,
  refresh_backup_tasks, refresh_snapshot_settings, settings_answered, refresh_each, changed,
  fan_answered, backup_answered, with_settings, without_settings, read_inventory,
  read_issue_updated, clear_snapshot_settings_state, share, features, after_timeout,
  refresh_timeout,
}
use ha_unifi_drive.Coordinator.Poll.{
  poll_answered, refreshed, after_refresh, refresh_features, refresh_optional_features, update_data,
}
use ha_unifi_drive.Coordinator.Poll.Tolerance.{IsHandled, Tolerable, IsTimely, inventory-IsTimely}

module _ {Inventory State : Type 0} where
  -- The failure with which a run ends, if any.
  abbrev IsTimelyRun : Option Failure × World Inventory State → Type 0
  IsTimelyRun r = IsTimely r.0

  IsTimely-if :
      (b : Bool) (r r' : Option Failure × World Inventory State)
      → IsTimelyRun r
      → IsTimelyRun r'
      → IsTimelyRun (if b then r else r')
  IsTimely-if true r r' h h' = h
  IsTimely-if false r r' h h' = h'

  first-if :
      {X : Type 0} (x : X) (b : Bool) (r r' : X × World Inventory State)
      → r.0 ≡ x
      → r'.0 ≡ x
      → (if b then r else r').0 ≡ x
  first-if x true r r' h h' = h
  first-if x false r r' h h' = h'

  fan-IsTimely :
      (r : Outcome (Option String)) (w : World Inventory State)
      → IsHandled r
      → IsTimelyRun (fan_answered r w)
  fan-IsTimely (returned mode) w h = refl
  fan-IsTimely (stopped (api (cannot_connect e))) w h = refl
  fan-IsTimely (stopped (api (invalid_auth e))) w h = refl
  fan-IsTimely (stopped (api (unexpected_response e))) w h = refl
  fan-IsTimely (stopped (api (unsupported_feature e))) w h = refl
  fan-IsTimely (stopped (api value_error)) w h = ground arith
  fan-IsTimely (stopped (unexpected e)) w h = ground arith
  fan-IsTimely (stopped (uncaught e)) w h = ground arith
  fan-IsTimely (stopped cancelled) w h = refl

  backup-IsTimely :
      (r : Outcome (List BackupTask)) (w : World Inventory State)
      → IsHandled r
      → IsTimelyRun (backup_answered r w)
  backup-IsTimely (returned tasks) w h = refl
  backup-IsTimely (stopped (api (cannot_connect e))) w h = refl
  backup-IsTimely (stopped (api (invalid_auth e))) w h = refl
  backup-IsTimely (stopped (api (unexpected_response e))) w h = refl
  backup-IsTimely (stopped (api (unsupported_feature e))) w h = refl
  backup-IsTimely (stopped (api value_error)) w h = ground arith
  backup-IsTimely (stopped (unexpected e)) w h = ground arith
  backup-IsTimely (stopped (uncaught e)) w h = ground arith
  backup-IsTimely (stopped cancelled) w h = refl

  module _ (safe_error_text : String → String) (registry : IssueRegistry State)
      (entry : Entry) where
    module _ (calls : ClientCalls Inventory) (tolerable : Tolerable calls) where
      settings-IsTimely :
          (r : Outcome (List (Dict Value))) (w : World Inventory State)
          → IsHandled r
          → IsTimelyRun (settings_answered safe_error_text registry entry calls r w)
      unfolding settings_answered
      settings-IsTimely (returned settings) w h =
          let supported = w.link.session.client.snapshot_settings_read_supported in
          let told = read_issue_updated safe_error_text registry entry supported w in
          let c = with_settings settings w.coordinator in
          IsTimely-if (is_known_false supported)
            (
              none,
              read_issue_updated safe_error_text registry entry (some false)
                  (changed without_settings w),
            )
            (read_inventory safe_error_text registry entry calls
              (changed (with_settings settings) told))
            refl (inventory-IsTimely safe_error_text calls tolerable c w.link)
      settings-IsTimely (stopped (api (cannot_connect e))) w h = refl
      settings-IsTimely (stopped (api (invalid_auth e))) w h = refl
      settings-IsTimely (stopped (api (unexpected_response e))) w h = refl
      settings-IsTimely (stopped (api (unsupported_feature e))) w h = refl
      settings-IsTimely (stopped (api value_error)) w h = ground arith
      settings-IsTimely (stopped (unexpected e)) w h = ground arith
      settings-IsTimely (stopped (uncaught e)) w h = ground arith
      settings-IsTimely (stopped cancelled) w h = refl

      refresh-IsTimely :
          (feature : Feature) (w : World Inventory State)
          → IsTimelyRun (refresh safe_error_text registry entry feature calls w)
      unfolding refresh refresh_fan_mode refresh_backup_tasks refresh_snapshot_settings
      refresh-IsTimely fan_feature w =
          let (r, l) = calls.get_fan_mode w.link in
          let w' = record w { link = l } in
          IsTimely-if w.coordinator.fan_control_enabled (fan_answered r w') (none, w)
            (fan-IsTimely r w' (tolerable.fan w.link)) refl
      refresh-IsTimely backup_feature w =
          let (r, l) = calls.get_backup_tasks w.link in
          backup-IsTimely r (record w { link = l }) (tolerable.backup w.link)
      refresh-IsTimely snapshot_feature w =
          let (r, l) = calls.get_snapshot_settings w.link in
          settings-IsTimely r (record w { link = l }) (tolerable.settings w.link)

    module _ (within : ℕ → ClientCalls Inventory)
        (tolerable : (budget : ℕ) → Tolerable (within budget)) where
      each-goes :
          (deadline : ℕ) (rest : List Feature) (timed_out : Bool) (w : World Inventory State)
          → (refresh_each safe_error_text registry entry within deadline rest timed_out w).0 ≡ none
      unfolding refresh_each
      each-goes deadline [] timed_out w = refl
      each-goes deadline (feature ∷ rest) timed_out w =
          let budget = share deadline w.link.loop_time (length (feature ∷ rest)) in
          let (stop, w') = refresh safe_error_text registry entry feature (within budget) w in
          rw (refresh-IsTimely (within budget) (tolerable budget) feature w, refresh_each)
            (each-goes deadline rest (timed_out || (after_timeout stop).1) w')

      refreshed-goes :
          (r : Option Failure × Bool × World Inventory State)
          → r.0 ≡ none
          → (refreshed safe_error_text registry entry within r).0 ≡ none
      refreshed-goes (none, timed_out, w) h = refl
      refreshed-goes (some failure, timed_out, w) h = ground arith

      features-go :
          (ticks : ℕ) (w : World Inventory State)
          → (refresh_features safe_error_text registry entry within ticks w).0 ≡ none
      unfolding refresh_features
      features-go ticks w =
          let held = changed (λ c. record c { refreshing = true }) w in
          let start =
            if w.coordinator.snapshot_buttons_enabled
            then held
            else clear_snapshot_settings_state safe_error_text registry entry held in
          let deadline = w.link.loop_time + refresh_timeout ticks in
          refreshed-goes
            (refresh_each safe_error_text registry entry within deadline (features w.coordinator)
              false start)
            (each-goes deadline (features w.coordinator) false start)

      optional-goes :
          (ticks : ℕ) (w : World Inventory State)
          → (refresh_optional_features safe_error_text registry entry within ticks w).0 ≡ none
      unfolding refresh_optional_features
      optional-goes ticks w =
          first-if none w.coordinator.refreshing (none, w)
            (refresh_features safe_error_text registry entry within ticks w) refl
            (features-go ticks w)

      after-ready :
          (storage : Dict Value) (r : Option Failure × World Inventory State)
          → r.0 ≡ none
          → (after_refresh safe_error_text registry entry within storage r).0 ≡ ready storage
      after-ready storage (none, w) h = refl
      after-ready storage (some failure, w) h = ground arith

      answered-ready :
          (ticks : ℕ) (storage : Dict Value) (u : Update) (w : World Inventory State)
          → (poll_answered safe_error_text registry entry within ticks (returned storage) (u, w)).0
            ≡ ready storage
      answered-ready ticks storage u w =
          let r = refresh_optional_features safe_error_text registry entry within ticks w in
          first-if (ready storage) w.coordinator.first_refresh_core_only (ready storage, w)
            (after_refresh safe_error_text registry entry within storage r) refl
            (after-ready storage r (optional-goes ticks w))

      -- A poll that reads the storage gives it, where each call of an optional feature returns,
      -- raises one of the client's own exceptions or is cancelled by its timeout, and where a read of
      -- a target's inventory may raise any foreseen exception: no optional feature fails a poll.
      pub update_data-ready :
          (ticks : ℕ) (calls : ClientCalls Inventory) (w : World Inventory State)
          (storage : Dict Value)
          → (calls.get_storage w.link).0 ≡ returned storage
          → (update_data safe_error_text registry entry within ticks calls w).0 ≡ ready storage
      unfolding update_data
      update_data-ready ticks calls w storage e =
          let (u, c) = storage_polled safe_error_text (returned storage) w.coordinator in
          rw e (
            answered-ready ticks storage u
              (record w { coordinator = c; link = (calls.get_storage w.link).1 }))
