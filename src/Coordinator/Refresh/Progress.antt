-- ===== src/Coordinator/Refresh/Progress.antt =====
-- A batch whose reads all end is closed, and settles every target.
use ha_unifi_drive.Prelude.{
  ℕ, String, ◌≡◌, refl, ap, ◌∙◌, ◌⊎◌, inl, inr, Bool, true, not, Option, none, some, List, [], ◌∷◌,
  Dict, lookup, arith, is_some, in_texts, Option-cases, Bool-cases,
}
use ha_unifi_drive.Payload.{Value}
use ha_unifi_drive.Snapshot.Targets.{target_type}
use ha_unifi_drive.Coordinator.{
  Coordinator, ClientCalls, Link, Failure, api, unexpected, uncaught, cancelled, Outcome, returned,
  stopped,
}
use ha_unifi_drive.Coordinator.Targets.{active_keys, pruned, with_active, with_batch, refresh_due}
use ha_unifi_drive.Coordinator.Targets.Laws.{active-listed}
use ha_unifi_drive.Coordinator.Inventory.{
  Batch, type_is_unsupported, listed_from, round_for, read_answered, read_target, round, rounds,
  skip_reason,
}
use ha_unifi_drive.Coordinator.Inventory.Settled.{IsSettled}
use ha_unifi_drive.Coordinator.Inventory.Rounds.{rounds-done, later-done}
use ha_unifi_drive.Coordinator.Refresh.{
  new_batch, keys_to_read, get_snapshot_inventory, read_batch, batch_ended,
  refresh_inventory_if_due,
}
use ha_unifi_drive.Coordinator.Refresh.Ready.{
  TargetState, InventoryInv, activated-TargetState, batch-TargetState, batch-snapshot_settings,
  activated-snapshot_settings,
}
use ha_unifi_drive.Coordinator.Refresh.Laws.{with_batch-pending}

-- A call that ends by itself, with a result or with an error that the coordinator handles.
abbrev pub IsAnswer : {A : Type 0} → Outcome A → Type 0
IsAnswer (returned a) = Unit
IsAnswer (stopped (api e)) = Unit
IsAnswer (stopped (unexpected e)) = Unit
IsAnswer (stopped (uncaught e)) = ⊥
IsAnswer (stopped cancelled) = ⊥

abbrev pub Answers : {Inventory : Type 0} → ClientCalls Inventory → Type 0
Answers calls = (target : Dict Value) (l : Link) → IsAnswer (calls.get_inventory_target target l).0

module _ {Inventory : Type 0} (safe_error_text : String → String)
    (calls : ClientCalls Inventory) where
  answered-goes :
      (key : String) (r : Outcome Inventory) (b : Batch Inventory)
      → IsAnswer r
      → (read_answered safe_error_text calls key r b).0 ≡ none
  unfolding read_answered
  answered-goes key (returned summary) b h = refl
  answered-goes key (stopped (api e)) b h = refl
  answered-goes key (stopped (unexpected e)) b h = refl
  answered-goes key (stopped (uncaught e)) b h = ground arith
  answered-goes key (stopped cancelled) b h = ground arith

  module _ (answers : Answers calls) (support : Dict Bool) (listed : Dict (Dict Value)) where
    round_for-goes :
        (key : String) (target : Dict Value) (reason : Option String) (b : Batch Inventory)
        → (round_for safe_error_text calls support key target reason b).0 ≡ none
    unfolding round_for read_target
    round_for-goes key target (some reason) b = refl
    round_for-goes key target none b =
        elim (Bool-cases (type_is_unsupported support (target_type target))) [
          | inl e ↦ rw e refl
          | inr e ↦
              let (r, l) = calls.get_inventory_target target b.link in
              rw e (answered-goes key r (record b { link = l }) (answers target b.link))
        ]

    round-goes :
        (key : String) (b : Batch Inventory)
        → (round safe_error_text calls support listed key b).0 ≡ none
    unfolding round
    round-goes key b = elim (Option-cases (lookup key listed)) [
      | inl e ↦ rw e refl
      | inr (target, e) ↦
          rw e (round_for-goes key target (skip_reason (lookup key b.coordinator.skip_reasons)) b)
    ]

    rounds-goes :
        (keys : List String) (b : Batch Inventory)
        → (rounds safe_error_text calls support listed keys b).0 ≡ none
    unfolding rounds
    rounds-goes [] b = refl
    rounds-goes (key ∷ keys) b =
        rw (round-goes key b, rounds)
          (rounds-goes keys (round safe_error_text calls support listed key b).1)

  -- What a refresh that read leaves: no batch, the time of its end, and of each advertised target a
  -- summary or an error.
  pub record IsComplete (active : List String) (r : Option Failure × Coordinator Inventory × Link)
      : Type 0 where
    pub ended : r.0 ≡ none
    pub closed : r.1.pending_targets ≡ none
    pub told : r.1.last_refresh ≡ some r.2.utc_now
    pub settled :
        (k : String)
        → in_texts k active ≡ true
        → is_some (lookup k r.1.inventory) ≡ not (is_some (lookup k r.1.inventory_errors))

  rounds-settle :
      (answers : Answers calls) (k : String) (targets : List (Dict Value)) (support : Dict Bool)
      (pending : List String) (b : Batch Inventory)
      → in_texts k (active_keys targets) ≡ true
      → (in_texts k pending ≡ true) ⊎ IsSettled k b
      → IsSettled k
          (rounds safe_error_text calls support
            (listed_from (active_keys targets) targets [])
            pending
            b).1
  rounds-settle answers k targets support pending b counts h =
      let listed = listed_from (active_keys targets) targets [] in
      elim (Option-cases (lookup k listed)) [
        | inl e ↦ ground (arith, e, active-listed k targets counts)
        | inr (target, e) ↦ elim h [
          | inl visited ↦
              rounds-done safe_error_text calls support listed k target pending b e visited
                (rounds-goes answers support listed pending b)
          | inr settled ↦ later-done safe_error_text calls support listed k pending b settled
        ]
      ]

  pending_or_IsSettled :
      (k : String) (active pending : List String) (listed : Dict (Dict Value))
      (c : Coordinator Inventory) (l : Link)
      → c.pending_targets ≡ some pending
      → in_texts k active ≡ true
      → TargetState k (in_texts k active) c
      → (in_texts k (keys_to_read safe_error_text calls c.pending_targets listed) ≡ true)
        ⊎ IsSettled k (new_batch safe_error_text calls c l)
  pending_or_IsSettled k active pending listed c l e counts h =
      rw e ((rw e at (h.covered counts)) refl)

  -- A pass over the pending targets that is not stopped.
  abbrev HasSettled : List String → Option Failure × Coordinator Inventory × Link → Type 0
  HasSettled active r =
      (r.0 ≡ none)
      × ((k : String)
          → in_texts k active ≡ true
          → is_some (lookup k r.1.inventory) ≡ not (is_some (lookup k r.1.inventory_errors)))

  got-HasSettled :
      (answers : Answers calls) (pending : List String) (c : Coordinator Inventory) (l : Link)
      → c.pending_targets ≡ some pending
      → let active = active_keys c.snapshot_settings in
        ((k : String) → TargetState k (in_texts k active) c)
        → HasSettled active (get_snapshot_inventory safe_error_text calls active c l)
  unfolding get_snapshot_inventory
  got-HasSettled answers pending c l e h =
      let active = active_keys c.snapshot_settings in
      let listed = listed_from active c.snapshot_settings [] in
      let support = l.session.client.snapshot_inventory_supported_by_type in
      let b = new_batch safe_error_text calls c l in
      let keys = keys_to_read safe_error_text calls c.pending_targets listed in
      rw (rounds-goes answers support listed keys b, get_snapshot_inventory)
        (
          refl,
          λ k counts.
              rounds-settle answers k c.snapshot_settings support keys b counts
                (pending_or_IsSettled k active pending listed c l e counts (h k)),
        )

  got-at :
      (answers : Answers calls) (active pending : List String) (c : Coordinator Inventory)
      (l : Link)
      → c.pending_targets ≡ some pending
      → active_keys c.snapshot_settings ≡ active
      → ((k : String) → TargetState k (in_texts k active) c)
      → HasSettled active (get_snapshot_inventory safe_error_text calls active c l)
  got-at answers active pending c l e same = rw (← same) (got-HasSettled answers pending c l e)

  ended-IsComplete :
      (now : ℕ) (requested : Bool) (active : List String)
      (r : Option Failure × Coordinator Inventory × Link)
      → HasSettled active r
      → IsComplete active (batch_ended safe_error_text calls now requested r.0 r.1 r.2)
  unfolding batch_ended
  ended-IsComplete now requested active r h =
      rw h.0 (record { ended = refl; closed = refl; told = refl; settled = h.1 })

  -- A refresh that is due, by a client whose reads of targets all end, is not stopped: it closes its
  -- batch, notes the time of its end, and then each advertised target has a summary or an error and
  -- not both, also where the batch went on from one that was cancelled.
  pub refresh_inventory_if_due-IsComplete :
      (c : Coordinator Inventory) (l : Link)
      → Answers calls
      → InventoryInv c
      → let active = active_keys c.snapshot_settings in
        refresh_due l.utc_now (pruned active (with_active active c)) ≡ true
        → IsComplete active (refresh_inventory_if_due safe_error_text calls c l)
  unfolding refresh_inventory_if_due read_batch
  refresh_inventory_if_due-IsComplete c l answers inv due =
      let active = active_keys c.snapshot_settings in
      let c' = pruned active (with_active active c) in
      let c'' = with_batch l.utc_now active c' in
      elim (Option-cases c''.pending_targets) [
        | inl e ↦ ground (arith, e, with_batch-pending safe_error_text calls l.utc_now active c')
        | inr (pending, e) ↦ rw due (
            ended-IsComplete l.utc_now c'.refresh_requested active
              (get_snapshot_inventory safe_error_text calls active c'' l)
              (got-at answers active pending c'' l e
                (ap active_keys (
                  batch-snapshot_settings l.utc_now active c'
                  ∙ activated-snapshot_settings active c))
                (λ k.
                  batch-TargetState k l.utc_now active c' (activated-TargetState k active c inv))))
      ]
