-- ===== src/Coordinator/Targets.antt =====
-- coordinator.py: which snapshot targets are known, what is kept of them, and when their inventory is
-- read again.
pub mod Laws
use Prim.Native.Char.{code}
use Prim.Native.String.{[], ◌∷◌}
use ha_unifi_drive.Prelude.{
  ℕ, ◌-◌, String, Bool, true, false, not, ◌&&◌, ◌||◌, Option, none, some, List, [], ◌∷◌, ◌++◌, Dict,
  ltb, leb, ◌==◌, text_eq, in_texts, keep, all, keep_keys, if◌then◌else◌, is_some,
}
use ha_unifi_drive.Payload.{Value}
use ha_unifi_drive.Snapshot.Targets.{target_key}
use ha_unifi_drive.Coordinator.{Coordinator}

-- `s <= t` on texts, by code points.
unfoldable pub text_le : String → String → Bool
text_le [] t = true
text_le (c ∷ s) [] = false
text_le (c ∷ s) (d ∷ t) =
    let rest = text_le s t in if code c == code d then rest else ltb (code c) (code d)

-- `sorted(keys)`
unfoldable pub insert_sorted : String → List String → List String
unfolding text_le
insert_sorted k [] = k ∷ []
insert_sorted k (j ∷ js) =
    let rest = insert_sorted k js in if text_le k j then k ∷ j ∷ js else j ∷ rest

unfoldable pub sorted : List String → List String
unfolding insert_sorted
sorted [] = []
sorted (k ∷ ks) = insert_sorted k (sorted ks)

-- `s.add(key)` of a set, and `d.setdefault(key, None)` and `d[key] = None` of an ordered dict.
unfoldable pub add_key : String → List String → List String
add_key k ks = if in_texts k ks then ks else ks ++ (k ∷ [])

unfoldable pub add_keys : List String → List String → List String
unfolding add_key
add_keys [] ks = ks
add_keys (j ∷ js) ks = add_keys js (add_key j ks)

-- `d.pop(key, None)`, and `s - t` of sets.
unfoldable pub drop_key : String → List String → List String
drop_key k ks = keep (λ j. not (text_eq j k)) ks

abbrev pub without : List String → List String → List String
without ks js = keep (λ k. not (in_texts k js)) ks

-- `s == t` of sets.
abbrev pub same_keys : List String → List String → Bool
same_keys ks js = all (λ k. in_texts k js) ks && all (λ j. in_texts j ks) js

-- `_SNAPSHOT_INVENTORY_REFRESH_INTERVAL`, in seconds.
abbrev pub refresh_interval : ℕ
refresh_interval = 600

-- `_snapshot_inventory_active_target_keys`, for these settings.
unfoldable pub add_target_key : Dict Value → List String → List String
unfolding add_key
add_target_key target ks =
    let key = target_key target in if text_eq key "" then ks else add_key key ks

unfoldable pub active_keys : List (Dict Value) → List String
unfolding add_target_key
active_keys [] = []
active_keys (target ∷ targets) = add_target_key target (active_keys targets)

abbrev interval_passed : ℕ → Option ℕ → Bool
interval_passed now none = true
interval_passed now (some last) = leb refresh_interval (now - last)

abbrev pub more_pending : List String → List String → List String → List String
more_pending active known pending =
    add_keys (sorted (without active known)) (keep (λ k. in_texts k active) pending)

-- `batch_expired`
abbrev batch_expired : ℕ → Option ℕ → Bool
batch_expired now none = false
batch_expired now (some started) = leb refresh_interval (now - started)

module _ {Inventory : Type 0} where
  -- `_prune_snapshot_inventory_state`
  unfoldable pub pruned : List String → Coordinator Inventory → Coordinator Inventory
  pruned active c = record c {
    inventory = keep_keys (λ k. in_texts k active) c.inventory;
    inventory_errors = keep_keys (λ k. in_texts k active) c.inventory_errors;
    skip_reasons = keep_keys (λ k. in_texts k active) c.skip_reasons;
  }

  -- `_snapshot_inventory_refresh_due`
  unfoldable pub refresh_due : ℕ → Coordinator Inventory → Bool
  refresh_due now c =
      c.refresh_requested || is_some c.pending_targets || interval_passed now c.last_refresh

  -- The head of `_async_refresh_snapshot_inventory_if_due`: what a change of the targets means.
  unfoldable pub with_active : List String → Coordinator Inventory → Coordinator Inventory
  with_active active c = if same_keys active c.target_keys then c else record c {
    refresh_requested = elim c.pending_targets [ none ↦ true | some _ ↦ c.refresh_requested ];
    pending_targets = elim c.pending_targets [
      | none ↦ none
      | some pending ↦ some (more_pending active c.target_keys pending)
    ];
    target_keys = active;
  }

  abbrev batch_from :
      ℕ → List String → Option (List String) → Coordinator Inventory → Coordinator Inventory
  batch_from now active none c = record c {
    refresh_requested = false;
    pending_targets = some (sorted active);
    batch_started = some now;
  }
  batch_from now active (some pending) c =
      if c.refresh_requested || batch_expired now c.batch_started
      then record c {
        pending_targets = some (add_keys (sorted active) pending);
        refresh_requested = false;
        batch_started = some now;
      }
      else c

  -- The part of `_async_refresh_snapshot_inventory_if_due` that starts a batch or widens it.
  unfoldable pub with_batch : ℕ → List String → Coordinator Inventory → Coordinator Inventory
  with_batch now active c = batch_from now active c.pending_targets c

  -- `_clear_snapshot_settings_state`, without the repairs issues.
  unfoldable pub cleared : Coordinator Inventory → Coordinator Inventory
  cleared c = record c {
    snapshot_settings = [];
    snapshot_settings_available = false;
    inventory = [];
    inventory_errors = [];
    skip_reasons = [];
    target_keys = [];
    last_refresh = none;
    refresh_requested = false;
    pending_targets = none;
    batch_started = none;
  }

  -- `request_snapshot_inventory_refresh`
  unfoldable pub request_inventory_refresh : Coordinator Inventory → Coordinator Inventory
  request_inventory_refresh c = record c { refresh_requested = true }
