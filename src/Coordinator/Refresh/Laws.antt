-- ===== src/Coordinator/Refresh/Laws.antt =====
-- What a refresh of the inventory leaves, whether its reads answer, fail or are cancelled.
use ha_unifi_drive.Prelude.{
  ℕ, String, ◌≡◌, refl, ap, ◌∙◌, ◌⊎◌, inl, inr, Bool, true, false, ◌&&◌, Option, none, some, List,
  [], Dict, lookup, arith, is_some, in_texts, Option-cases, Bool-cases,
}
use ha_unifi_drive.Payload.{Value}
use ha_unifi_drive.Api.Session.{
  cannot_connect, invalid_auth, unexpected_response, unsupported_feature, value_error,
}
use ha_unifi_drive.Coordinator.{
  Coordinator, ClientCalls, Link, Failure, api, unexpected, uncaught, cancelled,
}
use ha_unifi_drive.Coordinator.Targets.{active_keys, pruned, with_active, with_batch, refresh_due}
use ha_unifi_drive.Coordinator.Targets.Laws.{active-listed, inactive-unlisted}
use ha_unifi_drive.Coordinator.Inventory.{Batch, listed_from, rounds}
use ha_unifi_drive.Coordinator.Inventory.Settled.{IsSettled, SameAt}
use ha_unifi_drive.Coordinator.Inventory.Rounds.{rounds-Change, rounds-unlisted}
use ha_unifi_drive.Coordinator.Inventory.Pending.{is_pending, rounds-Kept}
use ha_unifi_drive.Coordinator.Inventory.Tracked.{rounds-IsKnown}
use ha_unifi_drive.Coordinator.Refresh.{
  new_batch, batch_done, keys_to_read, all_rounds, get_snapshot_inventory, read_batch, batch_ended,
  refresh_inventory_if_due,
}
use ha_unifi_drive.Coordinator.Refresh.Ready.{
  TargetState, InventoryInv, activated-TargetState, batch-TargetState, activated-target_keys,
  batch-target_keys, batch-snapshot_settings, activated-snapshot_settings,
}

module _ {Inventory : Type 0} where
  -- The state of one target, as the local dicts of a batch tell it.
  abbrev pub TargetIn : String → Bool → Batch Inventory → Type 0
  TargetIn k counts b =
      ((is_some (lookup k b.summaries) && is_some (lookup k b.errors)) ≡ false)
      × (counts ≡ false → (lookup k b.summaries ≡ none) × (lookup k b.errors ≡ none))
      × (counts ≡ true → (is_pending k b ≡ true) ⊎ IsSettled k b)

  known_at :
      (k : String) (b b' : Batch Inventory) (counts : Bool)
      → TargetIn k counts b
      → SameAt k b b' ⊎ ((counts ≡ true) × IsSettled k b')
      → (counts ≡ true → (is_pending k b' ≡ true) ⊎ IsSettled k b')
      → TargetIn k counts b'
  known_at k b b' counts h (inl same) known =
      (rw (same.0, same.1) h.0, λ e. rw (same.0, same.1) (h.1 e), known)
  known_at k b b' counts h (inr settled) known =
      (ground (arith, settled.1), λ e. ground (arith, settled.0), known)

  module _ (safe_error_text : String → String) (calls : ClientCalls Inventory) where
    rounds-TargetIn :
        (k : String) (targets : List (Dict Value)) (support : Dict Bool) (keys : List String)
        (b : Batch Inventory)
        → let active = active_keys targets in
          TargetIn k (in_texts k active) b
          → TargetIn k
              (in_texts k active)
              (rounds safe_error_text calls support (listed_from active targets []) keys b).1
    rounds-TargetIn k targets support keys b h =
        let active = active_keys targets in
        let listed = listed_from active targets [] in
        let b' = (rounds safe_error_text calls support listed keys b).1 in
        elim (Option-cases (lookup k listed)) [
          | inl e ↦
              known_at k b b' (in_texts k active) h
                (inl (rounds-unlisted safe_error_text calls support listed k keys b e))
                (λ counts. ground (arith, e, active-listed k targets counts))
          | inr (target, e) ↦ elim (Bool-cases (in_texts k active)) [
            | inl counts ↦
                let known =
                  rounds-IsKnown safe_error_text calls support listed k target keys b e
                    (h.2 counts) in
                elim (rounds-Change safe_error_text calls support listed k keys b) [
                  | inl same ↦ known_at k b b' (in_texts k active) h (inl same) (λ _. known)
                  | inr settled ↦
                      known_at k b b' (in_texts k active) h (inr (counts, settled.1)) (λ _. known)
                ]
            | inr other ↦
                known_at k b b' (in_texts k active) h
                  (inl (
                    rounds-unlisted safe_error_text calls support listed k keys b
                      (inactive-unlisted k active targets other)))
                  (λ counts. ground (arith, other, counts))
          ]
        ]

    -- A coordinator that shows what a batch holds.
    shown-TargetState :
        (k : String) (counts : Bool) (b : Batch Inventory) (c : Coordinator Inventory)
        → TargetIn k counts b
        → c.inventory ≡ b.summaries
        → c.inventory_errors ≡ b.errors
        → (is_some c.pending_targets ≡ true → c.pending_targets ≡ b.coordinator.pending_targets)
        → TargetState k counts c
    shown-TargetState k counts b c h summaries errors pending = record {
      exclusive = rw (summaries, errors) h.0;
      within = λ e. rw (summaries, errors) (h.1 e);
      covered = λ e under_way. rw (summaries, errors, pending under_way) (h.2 e);
    }

    pub batch-TargetIn :
        (k : String) (counts : Bool) (c : Coordinator Inventory) (l : Link)
        → is_some c.pending_targets ≡ true
        → TargetState k counts c
        → TargetIn k counts (new_batch safe_error_text calls c l)
    batch-TargetIn k counts c l under_way h =
        rw under_way (h.exclusive, h.within, λ e. h.covered e under_way)

    pub with_batch-pending :
        (now : ℕ) (active : List String) (c : Coordinator Inventory)
        → is_some (with_batch now active c).pending_targets ≡ true
    unfolding with_batch
    with_batch-pending now active c = ground arith

    module _ (k : String) (counts : Bool) where
      -- The same of the target and of the keys.
      abbrev Holds : Coordinator Inventory → Option Failure × Coordinator Inventory × Link → Type 0
      Holds c r = TargetState k counts r.1 × (r.1.target_keys ≡ c.target_keys)

      ended-Holds :
          (now : ℕ) (requested : Bool) (stop : Option Failure) (c : Coordinator Inventory)
          (l : Link)
          → TargetState k counts c
          → Holds c (batch_ended safe_error_text calls now requested stop c l)
      unfolding batch_ended
      ended-Holds now requested none c l h = (ground (arith, h.exclusive, h.within), refl)
      ended-Holds now requested (some (unexpected e)) c l h =
          (ground (arith, h.exclusive, h.within), refl)
      ended-Holds now requested (some (api value_error)) c l h =
          (ground (arith, h.exclusive, h.within), refl)
      ended-Holds now requested (some (api (cannot_connect e))) c l h = (h, refl)
      ended-Holds now requested (some (api (invalid_auth e))) c l h = (h, refl)
      ended-Holds now requested (some (api (unexpected_response e))) c l h = (h, refl)
      ended-Holds now requested (some (api (unsupported_feature e))) c l h = (h, refl)
      ended-Holds now requested (some (uncaught e)) c l h = (h, refl)
      ended-Holds now requested (some cancelled) c l h = (h, refl)

    got-Holds :
        (k : String) (c : Coordinator Inventory) (l : Link)
        → let active = active_keys c.snapshot_settings in
          is_some c.pending_targets ≡ true
          → TargetState k (in_texts k active) c
          → Holds k (in_texts k active) c (get_snapshot_inventory safe_error_text calls active c l)
    unfolding get_snapshot_inventory
    got-Holds k c l under_way h =
        let active = active_keys c.snapshot_settings in
        let listed = listed_from active c.snapshot_settings [] in
        let support = l.session.client.snapshot_inventory_supported_by_type in
        let keys = keys_to_read safe_error_text calls c.pending_targets listed in
        let b₀ = new_batch safe_error_text calls c l in
        let (stop, b) = all_rounds safe_error_text calls active c l in
        let kept = rounds-Kept safe_error_text calls support listed keys b₀ in
        let told =
          rounds-TargetIn k c.snapshot_settings support keys b₀
            (batch-TargetIn k (in_texts k active) c l under_way h) in
        elim (Option-cases stop) [
          | inl e ↦
              rw (e, get_snapshot_inventory)
                (
                  shown-TargetState k (in_texts k active) b
                      (batch_done safe_error_text calls active b) told refl refl (λ p. refl),
                  kept.keys,
                )
          | inr (failure, e) ↦
              let shown = kept.shown (rw under_way λ p. (refl, refl)) (kept.pending ∙ under_way) in
              rw (e, get_snapshot_inventory)
                (
                  shown-TargetState k (in_texts k active) b b.coordinator told shown.0 shown.1
                      (λ p. refl),
                  kept.keys,
                )
        ]

    got-at :
        (k : String) (active : List String) (c : Coordinator Inventory) (l : Link)
        → active_keys c.snapshot_settings ≡ active
        → is_some c.pending_targets ≡ true
        → TargetState k (in_texts k active) c
        → Holds k (in_texts k active) c (get_snapshot_inventory safe_error_text calls active c l)
    got-at k active c l e under_way = rw (← e) (got-Holds k c l under_way)

    read-Holds :
        (k : String) (active : List String) (c : Coordinator Inventory) (l : Link)
        → active_keys c.snapshot_settings ≡ active
        → TargetState k (in_texts k active) c
        → Holds k (in_texts k active) c (read_batch safe_error_text calls active c l)
    unfolding read_batch
    read-Holds k active c l e h =
        let now = l.utc_now in
        let c' = with_batch now active c in
        let (stop, c'', l') = get_snapshot_inventory safe_error_text calls active c' l in
        let got =
          got-at k active c' l (ap active_keys (batch-snapshot_settings now active c) ∙ e)
            (with_batch-pending now active c) (batch-TargetState k now active c h) in
        let ended = ended-Holds k (in_texts k active) now c.refresh_requested stop c'' l' got.0 in
        (ended.0, ended.1 ∙ got.1 ∙ batch-target_keys now active c)

    refreshed-Holds :
        (k : String) (c : Coordinator Inventory) (l : Link)
        → InventoryInv c
        → let active = active_keys c.snapshot_settings in
          Holds k
            (in_texts k active)
            (pruned active (with_active active c))
            (refresh_inventory_if_due safe_error_text calls c l)
    unfolding refresh_inventory_if_due
    refreshed-Holds k c l inv =
        let active = active_keys c.snapshot_settings in
        let c' = pruned active (with_active active c) in
        let h = activated-TargetState k active c inv in
        elim (Bool-cases (refresh_due l.utc_now c')) [
          | inl e ↦
              rw e
                (read-Holds k active c' l (ap active_keys (activated-snapshot_settings active c)) h)
          | inr e ↦ rw e (h, refl)
        ]

    -- A refresh of the inventory keeps the invariant, whether its reads answer, fail or are
    -- cancelled: no target has both a summary and an error, nothing is kept of a target that is not
    -- advertised, and while a batch is under way every advertised target is still pending or has a
    -- summary or an error.
    pub refresh_inventory_if_due-InventoryInv :
        (c : Coordinator Inventory) (l : Link)
        → InventoryInv c
        → InventoryInv (refresh_inventory_if_due safe_error_text calls c l).1
    refresh_inventory_if_due-InventoryInv c l inv = record {
      target_state = λ k.
          let active = active_keys c.snapshot_settings in
          let h = refreshed-Holds k c l inv in
          rw (ap (in_texts k) h.1 ∙ activated-target_keys k active c) h.0;
    }
