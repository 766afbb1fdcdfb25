-- ===== src/Coordinator/Inventory.antt =====
-- coordinator.py: reading the inventory of the snapshot targets that are pending, one after another.
pub mod Settled
pub mod Rounds
pub mod Pending
pub mod Tracked
use ha_unifi_drive.Prelude.{
  ℕ, String, Bool, true, false, not, ◌&&◌, ◌||◌, Option, none, some, List, [], ◌∷◌, ◌++◌, Dict,
  lookup, insert, remove, keep_keys, text_eq, in_texts, contains, lower, map, if◌then◌else◌,
  is_some,
}
use ha_unifi_drive.Payload.{Value}
use ha_unifi_drive.Api.Session.{
  Client, cannot_connect, invalid_auth, unexpected_response, unsupported_feature, value_error,
}
use ha_unifi_drive.Api.Backup.{is_known_false}
use ha_unifi_drive.Snapshot.Targets.{target_type, target_key}
use ha_unifi_drive.Coordinator.{
  Failure, api, unexpected, uncaught, cancelled, Outcome, returned, stopped, Link, ClientCalls,
  Coordinator,
}
use ha_unifi_drive.Coordinator.Targets.{
  drop_key, active_keys, pruned, refresh_due, with_active, with_batch,
}

abbrev pub unavailable_marker : String
unavailable_marker = "not available on this system"

-- `_snapshot_inventory_type_is_unsupported`
unfoldable pub type_is_unsupported : Dict Bool → String → Bool
unfolding lookup
type_is_unsupported support kind =
    is_known_false (lookup kind support)
    || (text_eq kind "mydrive" && is_known_false (lookup "personal" support))

module _ (safe_error_text : String → String) where
  -- `_snapshot_inventory_error_text_has_unavailable_marker`
  unfoldable pub has_unavailable_marker : String → Bool
  has_unavailable_marker e = contains (lower (safe_error_text e)) unavailable_marker

  -- `_snapshot_inventory_error_reason`
  unfoldable pub error_reason : Failure → String
  unfolding has_unavailable_marker
  error_reason (api (invalid_auth e)) = "permission"
  error_reason (api (unsupported_feature e)) =
      if has_unavailable_marker e then "unsupported" else "unexpected_response"
  error_reason (api (cannot_connect e)) = "connection"
  error_reason (api (unexpected_response e)) = "unexpected_response"
  error_reason _ = "unknown"

  -- `_snapshot_inventory_read_should_be_skipped`
  unfoldable pub read_should_be_skipped : Failure → Bool
  unfolding has_unavailable_marker
  read_should_be_skipped (api (invalid_auth e)) = true
  read_should_be_skipped (api (unsupported_feature e)) = has_unavailable_marker e
  read_should_be_skipped _ = false

-- The settings by their keys: a later one of the same key replaces an earlier one.
unfoldable pub listed_from : List String → List (Dict Value) → Dict (Dict Value) → Dict (Dict Value)
listed_from active [] listed = listed
listed_from active (target ∷ targets) listed =
    let key = target_key target in
    listed_from active targets
      (if not (text_eq key "") && in_texts key active then insert key target listed else listed)

-- The local dicts of `_async_get_snapshot_inventory`, with what its rounds change.
pub record Batch (Inventory : Type 0) : Type 0 where
  pub summaries : Dict Inventory
  pub errors : Dict String
  pub coordinator : Coordinator Inventory
  pub link : Link

-- The reason of an earlier read, unless it is the empty text.
abbrev pub skip_reason : Option String → Option String
skip_reason none = none
skip_reason (some reason) = if text_eq reason "" then none else some reason

module _ {Inventory : Type 0} where
  abbrev pub with_pending :
      (List String → List String) → Coordinator Inventory → Coordinator Inventory
  with_pending f c = record c {
    pending_targets = elim c.pending_targets [ none ↦ none | some pending ↦ some (f pending) ];
  }

  abbrev published : Batch Inventory → Coordinator Inventory → Coordinator Inventory
  published b c =
      if is_some c.pending_targets
      then record c { inventory = b.summaries; inventory_errors = b.errors }
      else c

  -- The end of a round.
  unfoldable pub round_done : String → Batch Inventory → Batch Inventory
  round_done key b =
      let b' = record b {
        summaries = if is_some (lookup key b.errors) then remove key b.summaries else b.summaries;
      } in
      record b' { coordinator = with_pending (drop_key key) (published b' b.coordinator) }

  abbrev pub failed_for : String → String → Bool → Batch Inventory → Batch Inventory
  failed_for key reason sticky b = record b {
    errors = insert key reason b.errors;
    coordinator =
        if sticky
        then record b.coordinator { skip_reasons = insert key reason b.coordinator.skip_reasons }
        else b.coordinator;
  }

  abbrev pub summarised : String → Inventory → Batch Inventory → Batch Inventory
  summarised key summary b = record b {
    summaries = insert key summary b.summaries;
    errors = remove key b.errors;
    coordinator = record b.coordinator { skip_reasons = remove key b.coordinator.skip_reasons };
  }

  -- A cancelled target is tried again after its peers.
  abbrev put_last : String → Batch Inventory → Batch Inventory
  put_last key b = record b {
    coordinator = with_pending (λ pending. drop_key key pending ++ (key ∷ [])) b.coordinator;
  }

  module _ (safe_error_text : String → String) (calls : ClientCalls Inventory) where
    abbrev with_failure : String → Failure → Batch Inventory → Batch Inventory
    with_failure key failure =
        failed_for key (error_reason safe_error_text failure)
          (read_should_be_skipped safe_error_text failure)

    -- What becomes of a read; a failure that is not handled ends the loop.
    unfoldable pub read_answered :
        String → Outcome Inventory → Batch Inventory → Option Failure × Batch Inventory
    unfolding round_done
    read_answered key (returned summary) b = (none, round_done key (summarised key summary b))
    read_answered key (stopped cancelled) b = (some cancelled, put_last key b)
    read_answered key (stopped (uncaught e)) b = (some (uncaught e), b)
    read_answered key (stopped (api e)) b = (none, round_done key (with_failure key (api e) b))
    read_answered key (stopped (unexpected e)) b =
        (none, round_done key (with_failure key (unexpected e) b))

    unfoldable pub read_target :
        String → Dict Value → Batch Inventory → Option Failure × Batch Inventory
    unfolding read_answered
    read_target key target b =
        let (r, l) = calls.get_inventory_target target b.link in
        read_answered key r (record b { link = l })

    unfoldable pub round_for :
        Dict Bool
        → String
        → Dict Value
        → Option String
        → Batch Inventory
        → Option Failure × Batch Inventory
    unfolding read_target
    round_for support key target (some reason) b =
        (none, round_done key (failed_for key reason false b))
    round_for support key target none b =
        if type_is_unsupported support (target_type target)
        then (none, round_done key (failed_for key "unsupported" true b))
        else read_target key target b

    abbrev round_if :
        Dict Bool
        → String
        → Option (Dict Value)
        → Batch Inventory
        → Option Failure × Batch Inventory
    round_if support key none b =
        (none, record b { coordinator = with_pending (drop_key key) b.coordinator })
    round_if support key (some target) b =
        round_for support key target (skip_reason (lookup key b.coordinator.skip_reasons)) b

    -- One round of the loop of `_async_get_snapshot_inventory`.
    unfoldable pub round :
        Dict Bool → Dict (Dict Value) → String → Batch Inventory → Option Failure × Batch Inventory
    unfolding round_for
    round support listed key b = round_if support key (lookup key listed) b

    unfoldable pub rounds :
        Dict Bool
        → Dict (Dict Value)
        → List String
        → Batch Inventory
        → Option Failure × Batch Inventory
    unfolding round
    rounds support listed [] b = (none, b)
    rounds support listed (key ∷ keys) b =
        let (stop, b') = round support listed key b in
        elim stop [ some failure ↦ (some failure, b') | none ↦ rounds support listed keys b' ]
