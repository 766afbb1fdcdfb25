-- ===== src/Tests/Coordinator.antt =====
-- The theorems on the coordinator, applied to a client that answers, to one that cannot connect, and
-- to one whose reads of targets are cancelled.
use ha_unifi_drive.Prelude.{
  ℕ, ◌+◌, ◌*◌, ◌≤◌, ◌≡◌, refl, true, Option, some, [], ◌∷◌, Dict, strip, is_some, arith, ◌==◌,
  if◌then◌else◌, lookup, insert, lower,
}
use ha_unifi_drive.Payload.{Value, str, str_value, or_value, get}
use ha_unifi_drive.Api.Session.{cannot_connect}
use ha_unifi_drive.Repairs.{Issue, Entry}
use ha_unifi_drive.Repairs.Laws.{dict_registry}
use ha_unifi_drive.Coordinator.{
  api, cancelled, returned, stopped, Link, ClientCalls, Coordinator, new_coordinator,
}
use ha_unifi_drive.Coordinator.Connection.{Update, ready, with_offline_status, storage_polled}
use ha_unifi_drive.Coordinator.Connection.Laws.{Counts, Logged}
use ha_unifi_drive.Coordinator.Connection.Published.{IsMarked, storage_polled-cached}
use ha_unifi_drive.Coordinator.Targets.{active_keys, pruned, with_active, refresh_due}
use ha_unifi_drive.Coordinator.Inventory.{
  listed_from, read_answered, read_target, round_for, round, rounds, type_is_unsupported,
}
use ha_unifi_drive.Snapshot.Targets.{target_key, target_type, normalize_target_type}
use ha_unifi_drive.Coordinator.Refresh.{new_batch, get_snapshot_inventory, refresh_inventory_if_due}
use ha_unifi_drive.Coordinator.Refresh.Ready.{InventoryInv}
use ha_unifi_drive.Coordinator.Refresh.Progress.{
  IsComplete, Answers, refresh_inventory_if_due-IsComplete,
}
use ha_unifi_drive.Coordinator.Refresh.Rotation.{Rotated, get_snapshot_inventory-Rotated}
use ha_unifi_drive.Coordinator.Optional.{
  World, fan_feature, backup_feature, snapshot_feature, refresh, refresh_fan_mode,
  refresh_backup_tasks, refresh_snapshot_settings, settings_answered,
}
use ha_unifi_drive.Coordinator.Poll.{refresh_optional_features, update_data}
use ha_unifi_drive.Coordinator.Poll.Laws.{
  polls, failures, polls-Counts, polls-Logged, update_data-InventoryInv,
}
use ha_unifi_drive.Coordinator.Poll.Tolerance.{Tolerable}
use ha_unifi_drive.Coordinator.Poll.Storage.{update_data-ready}
use ha_unifi_drive.Coordinator.Poll.Budget.{IsPrompt, refresh_optional_features-deadline}
use ha_unifi_drive.Tests.Inputs.{some_session, shared_target}

abbrev some_link : Link
some_link = record { session = some_session; utc_now = 7000; loop_time = 40 }

abbrev some_storage : Dict Value
some_storage = ("model", str "UNAS") ∷ []

-- A client that answers, and the same without a connection, or with stalled reads of targets.
abbrev answering : ClientCalls ℕ
answering = record {
  get_storage = λ l. (returned some_storage, l);
  get_fan_mode = λ l. (returned (some "Quiet"), l);
  get_backup_tasks = λ l. (stopped (api (cannot_connect "no route")), l);
  get_snapshot_settings = λ l. (returned (shared_target ∷ []), l);
  get_inventory_target = λ target l. (returned 3, l);
}

abbrev cut_off : ClientCalls ℕ
cut_off = record answering { get_storage = λ l. (stopped (api (cannot_connect "no route")), l) }

abbrev stalled : ClientCalls ℕ
stalled = record answering { get_inventory_target = λ target l. (stopped cancelled, l) }

abbrev with_data : Coordinator ℕ
with_data = record (new_coordinator true true) {
  cached = some some_storage;
  snapshot_settings = shared_target ∷ [];
}

abbrev some_entry : Entry
some_entry = record { entry_id = "e1"; title = "Drive" }

abbrev some_world : World ℕ (Dict Issue)
some_world = record { coordinator = with_data; link = some_link; issues = [] }

-- Data replaces data, and what fails leaves it.
abbrev store : Option (Dict Value) → Update → Option (Dict Value)
store held (ready d) = some d
store held failed = held

store-keeps : (d : Dict Value) (u : Update) → is_some (store (some d) u) ≡ true
store-keeps d u = ground arith

with_data-Counts : Counts with_data 0
unfolding new_coordinator
with_data-Counts = record { has_data = refl; online = refl; counted = refl }

polls-Counts_example :
    Counts
      (polls strip dict_registry some_entry
        (λ budget. answering)
        store
        1000
        (cut_off ∷ cut_off ∷ answering ∷ [])
        some_world).coordinator
      (failures strip dict_registry some_entry
        (λ budget. answering)
        store
        1000
        (cut_off ∷ cut_off ∷ answering ∷ [])
        some_world
        0)
polls-Counts_example =
    polls-Counts strip dict_registry some_entry (λ budget. answering) store store-keeps 1000
      (cut_off ∷ cut_off ∷ answering ∷ []) some_world 0 with_data-Counts

with_data-Logged : Logged with_data
unfolding new_coordinator
with_data-Logged = record { has_data = refl; told = refl; flag = refl; alternates = tt }

polls-Logged_example :
    Logged
      (polls strip dict_registry some_entry
        (λ budget. answering)
        store
        1000
        (cut_off ∷ cut_off ∷ cut_off ∷ answering ∷ [])
        some_world).coordinator
polls-Logged_example =
    polls-Logged strip dict_registry some_entry (λ budget. answering) store store-keeps 1000
      (cut_off ∷ cut_off ∷ cut_off ∷ answering ∷ []) some_world with_data-Logged

storage_polled-cached_example :
    ((storage_polled strip (stopped (api (cannot_connect "no route"))) with_data).0
      ≡ ready (if 0 == 0 then some_storage else with_offline_status some_storage))
    × IsMarked some_storage (with_offline_status some_storage)
unfolding new_coordinator
storage_polled-cached_example =
    storage_polled-cached strip "no route" with_data 0 some_storage with_data-Counts refl

with_data-InventoryInv : InventoryInv with_data
unfolding new_coordinator lookup
with_data-InventoryInv = record {
  target_state = λ k. record {
    exclusive = refl;
    within = λ e. (refl, refl);
    covered = λ e h. ground (arith, h);
  };
}

update_data-InventoryInv_example :
    InventoryInv
      (update_data strip dict_registry some_entry
        (λ budget. stalled)
        1000
        answering
        some_world).1.coordinator
update_data-InventoryInv_example =
    update_data-InventoryInv strip dict_registry some_entry (λ budget. stalled) 1000 answering
      some_world with_data-InventoryInv

stalled-Tolerable : (budget : ℕ) → Tolerable stalled
stalled-Tolerable budget = record {
  fan = λ l. tt;
  backup = λ l. tt;
  settings = λ l. tt;
  target = λ d l. tt;
}

update_data-ready_example :
    (update_data strip dict_registry some_entry (λ budget. stalled) 1000 answering some_world).0
    ≡ ready some_storage
update_data-ready_example =
    update_data-ready strip dict_registry some_entry (λ budget. stalled) stalled-Tolerable 1000
      answering some_world some_storage refl

answering-Answers : Answers answering
answering-Answers target l = tt

never_read-due :
    refresh_due 7000 (
      pruned
        (active_keys (shared_target ∷ []))
        (with_active (active_keys (shared_target ∷ [])) with_data))
    ≡ true
unfolding refresh_due pruned with_active new_coordinator
never_read-due = ground arith

refresh_inventory_if_due-IsComplete_example :
    IsComplete strip answering
      (active_keys (shared_target ∷ []))
      (refresh_inventory_if_due strip answering with_data some_link)
unfolding new_coordinator
refresh_inventory_if_due-IsComplete_example =
    refresh_inventory_if_due-IsComplete strip answering with_data some_link answering-Answers
      with_data-InventoryInv never_read-due

abbrev two_pending : Coordinator ℕ
two_pending = record with_data { pending_targets = some ("shared_7" ∷ "shared_8" ∷ []) }

first-stalls :
    (get_snapshot_inventory strip stalled ("shared_7" ∷ "shared_8" ∷ []) two_pending some_link).0
    ≡ some cancelled
unfolding get_snapshot_inventory new_coordinator rounds round round_for read_target read_answered
    listed_from lookup insert target_key target_type normalize_target_type lower strip str_value
    or_value get type_is_unsupported
first-stalls = refl

get_snapshot_inventory-Rotated_example :
    Rotated strip stalled some_link.session.client.snapshot_inventory_supported_by_type
      (listed_from ("shared_7" ∷ "shared_8" ∷ []) two_pending.snapshot_settings [])
      ("shared_7" ∷ "shared_8" ∷ [])
      (new_batch strip stalled two_pending some_link)
      (get_snapshot_inventory strip stalled
        ("shared_7" ∷ "shared_8" ∷ [])
        two_pending
        some_link).1.pending_targets
unfolding new_coordinator
get_snapshot_inventory-Rotated_example =
    get_snapshot_inventory-Rotated strip stalled ("shared_7" ∷ "shared_8" ∷ [])
      ("shared_7" ∷ "shared_8" ∷ []) two_pending some_link (refl, (refl, tt)) refl first-stalls

-- Every call of the fan mode takes the whole budget and is cancelled.
abbrev slow : ℕ → ClientCalls ℕ
slow budget = record answering {
  get_fan_mode = λ l. (stopped cancelled, record l { loop_time = l.loop_time + budget });
  get_snapshot_settings = λ l. (stopped cancelled, record l { loop_time = l.loop_time + budget });
}

slow-IsPrompt : IsPrompt strip dict_registry some_entry slow
unfolding refresh refresh_fan_mode refresh_backup_tasks refresh_snapshot_settings settings_answered
slow-IsPrompt fan_feature budget w = ground arith
slow-IsPrompt backup_feature budget w = omega arith
slow-IsPrompt snapshot_feature budget w = omega arith

refresh_optional_features-deadline_example :
    (refresh_optional_features strip dict_registry some_entry slow 1000 some_world).1.link.loop_time
    ≤ 40 + 10 * 1000
unfolding new_coordinator
refresh_optional_features-deadline_example =
    refresh_optional_features-deadline strip dict_registry some_entry slow 1000 some_world
      slow-IsPrompt
