-- ===== src/Coordinator/Refresh.antt =====
-- coordinator.py: when the inventory of the snapshot targets is read, and what is kept of a batch.
pub mod Ready
pub mod Laws
pub mod Progress
pub mod Rotation
use ha_unifi_drive.Prelude.{
  ℕ, String, Bool, true, false, Option, none, some, List, [], ◌∷◌, Dict, keep_keys, in_texts, map,
  if◌then◌else◌, is_some,
}
use ha_unifi_drive.Payload.{Value}
use ha_unifi_drive.Api.Session.{value_error}
use ha_unifi_drive.Coordinator.{
  Failure, api, unexpected, uncaught, cancelled, Link, ClientCalls, Coordinator,
}
use ha_unifi_drive.Coordinator.Targets.{active_keys, pruned, refresh_due, with_active, with_batch}
use ha_unifi_drive.Coordinator.Inventory.{Batch, listed_from, rounds}

module _ {Inventory : Type 0} (safe_error_text : String → String)
    (calls : ClientCalls Inventory) where
  -- The local dicts at the start of `_async_get_snapshot_inventory`: those of the batch under way.
  abbrev pub new_batch : Coordinator Inventory → Link → Batch Inventory
  new_batch c l = record {
    summaries = if is_some c.pending_targets then c.inventory else [];
    errors = if is_some c.pending_targets then c.inventory_errors else [];
    coordinator = c;
    link = l;
  }

  abbrev pub keys_to_read : Option (List String) → Dict (Dict Value) → List String
  keys_to_read (some pending) listed = pending
  keys_to_read none listed = map (λ entry. entry.0) listed

  abbrev pub all_rounds :
      List String → Coordinator Inventory → Link → Option Failure × Batch Inventory
  all_rounds active c l =
      let listed = listed_from active c.snapshot_settings [] in
      rounds safe_error_text calls l.session.client.snapshot_inventory_supported_by_type listed
        (keys_to_read c.pending_targets listed) (new_batch c l)

  abbrev pub batch_done : List String → Batch Inventory → Coordinator Inventory
  batch_done active b = record b.coordinator {
    skip_reasons = keep_keys (λ k. in_texts k active) b.coordinator.skip_reasons;
    inventory_errors = b.errors;
    inventory = b.summaries;
  }

  -- `_async_get_snapshot_inventory`, with its result assigned to the inventory.
  unfoldable pub get_snapshot_inventory :
      List String → Coordinator Inventory → Link → Option Failure × Coordinator Inventory × Link
  get_snapshot_inventory active c l =
      let (stop, b) = all_rounds active c l in
      elim stop [
        | some failure ↦ (some failure, b.coordinator, b.link)
        | none ↦ (none, batch_done active b, b.link)
      ]

  abbrev batch_closed : ℕ → Coordinator Inventory → Coordinator Inventory
  batch_closed now c = record c {
    pending_targets = none;
    batch_started = none;
    last_refresh = some now;
  }

  abbrev requested_again : Bool → Coordinator Inventory → Coordinator Inventory
  requested_again requested c = record c {
    refresh_requested = if requested then true else c.refresh_requested;
  }

  -- What `_async_refresh_snapshot_inventory_if_due` makes of the end of a batch.
  unfoldable pub batch_ended :
      ℕ
      → Bool
      → Option Failure
      → Coordinator Inventory
      → Link
      → Option Failure × Coordinator Inventory × Link
  batch_ended now requested none c l = (none, batch_closed l.utc_now c, l)
  batch_ended now requested (some (unexpected e)) c l =
      (none, batch_closed now (requested_again requested c), l)
  batch_ended now requested (some (api value_error)) c l =
      (none, batch_closed now (requested_again requested c), l)
  batch_ended now requested (some failure) c l = (some failure, c, l)

  unfoldable pub read_batch :
      List String → Coordinator Inventory → Link → Option Failure × Coordinator Inventory × Link
  unfolding get_snapshot_inventory batch_ended
  read_batch active c l =
      let (stop, c', l') = get_snapshot_inventory active (with_batch l.utc_now active c) l in
      batch_ended l.utc_now c.refresh_requested stop c' l'

  -- `_async_refresh_snapshot_inventory_if_due`
  unfoldable pub refresh_inventory_if_due :
      Coordinator Inventory → Link → Option Failure × Coordinator Inventory × Link
  unfolding read_batch
  refresh_inventory_if_due c l =
      let active = active_keys c.snapshot_settings in
      let c' = pruned active (with_active active c) in
      if refresh_due l.utc_now c' then read_batch active c' l else (none, c', l)
