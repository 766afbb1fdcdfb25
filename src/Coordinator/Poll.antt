-- ===== src/Coordinator/Poll.antt =====
-- coordinator.py: a refresh of the optional features under its lock, and a whole poll.
pub mod Frame
pub mod Features
pub mod Laws
pub mod Tolerance
pub mod Storage
pub mod Budget
use ha_unifi_drive.Prelude.{
  ℕ, ◌+◌, String, Bool, true, false, Option, none, some, Dict, if◌then◌else◌,
}
use ha_unifi_drive.Payload.{Value}
use ha_unifi_drive.Repairs.{IssueRegistry, Entry}
use ha_unifi_drive.Coordinator.{Failure, Outcome, returned, stopped, ClientCalls, Coordinator}
use ha_unifi_drive.Coordinator.Connection.{Update, ready, passed_on, storage_polled}
use ha_unifi_drive.Coordinator.Optional.{
  World, refresh_timeout, features, changed, clear_snapshot_settings_state, refresh_each,
}

module _ {Inventory State : Type 0} (safe_error_text : String → String)
    (registry : IssueRegistry State) (entry : Entry) (within : ℕ → ClientCalls Inventory) where
  abbrev timed_out_is : Bool → Coordinator Inventory → Coordinator Inventory
  timed_out_is b c = record c { optional_timed_out = b }

  abbrev pub released : World Inventory State → World Inventory State
  released = changed (λ c. record c { refreshing = false })

  abbrev pub refreshed :
      Option Failure × Bool × World Inventory State → Option Failure × World Inventory State
  refreshed (none, timed_out, w) = (none, released (changed (timed_out_is timed_out) w))
  refreshed (some failure, timed_out, w) = (some failure, released w)

  -- The body of `_async_refresh_optional_features`, under the lock.
  unfoldable pub refresh_features :
      ℕ → World Inventory State → Option Failure × World Inventory State
  unfolding refresh_each
  refresh_features ticks_per_second w =
      let held = changed (λ c. record c { refreshing = true }) w in
      let ready_to_read =
        if w.coordinator.snapshot_buttons_enabled
        then held
        else clear_snapshot_settings_state safe_error_text registry entry held in
      let deadline = w.link.loop_time + refresh_timeout ticks_per_second in
      refreshed (
        refresh_each safe_error_text registry entry within deadline (features w.coordinator) false
          ready_to_read)

  -- `_async_refresh_optional_features`
  unfoldable pub refresh_optional_features :
      ℕ → World Inventory State → Option Failure × World Inventory State
  unfolding refresh_features
  refresh_optional_features ticks_per_second w =
      if w.coordinator.refreshing then (none, w) else refresh_features ticks_per_second w

  abbrev pub after_refresh :
      Dict Value → Option Failure × World Inventory State → Update × World Inventory State
  after_refresh storage (none, w) = (ready storage, w)
  after_refresh storage (some failure, w) = (passed_on failure, w)

  abbrev pub poll_answered :
      ℕ → Outcome (Dict Value) → Update × World Inventory State → Update × World Inventory State
  poll_answered ticks (returned storage) (u, w) =
      if w.coordinator.first_refresh_core_only
      then (ready storage, w)
      else after_refresh storage (refresh_optional_features ticks w)
  poll_answered ticks (stopped failure) (u, w) = (u, w)

  -- `_async_update_data`
  unfoldable pub update_data :
      ℕ → ClientCalls Inventory → World Inventory State → Update × World Inventory State
  unfolding refresh_optional_features
  update_data ticks_per_second calls w =
      let (r, l) = calls.get_storage w.link in
      let (u, c) = storage_polled safe_error_text r w.coordinator in
      poll_answered ticks_per_second r (u, record w { coordinator = c; link = l })

  -- `async_refresh_optional_features`, up to what the base class makes of the data.
  unfoldable pub refresh_after_setup :
      ℕ → World Inventory State → Option Failure × World Inventory State
  unfolding refresh_optional_features
  refresh_after_setup ticks_per_second w = elim w.coordinator.cached [
    | none ↦ (none, w)
    | some _ ↦ refresh_optional_features ticks_per_second w
  ]
