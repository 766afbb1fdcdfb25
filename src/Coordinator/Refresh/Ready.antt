-- ===== src/Coordinator/Refresh/Ready.antt =====
-- The state between the polls, and the state that a batch starts from.
use ha_unifi_drive.Prelude.{
  ℕ, String, ◌≡◌, refl, sym, ◌⊎◌, inl, inr, Bool, true, false, not, ◌&&◌, none, List, lookup,
  lookup-keep_keys, arith, is_some, in_texts, keep, Option-cases, Bool-cases,
}
use ha_unifi_drive.Coordinator.{Coordinator}
use ha_unifi_drive.Coordinator.Targets.{sorted, pruned, with_active, with_batch, without, same_keys}
use ha_unifi_drive.Coordinator.Targets.Laws.{
  in_texts-sorted, in_texts-add_keys, in_texts-keep, same_keys-in_texts,
}
use ha_unifi_drive.Coordinator.Inventory.Pending.{listed_in}

module _ {Inventory : Type 0} where
  -- What is kept of one target, for the keys that count: a summary and an error exclude each
  -- other, nothing is kept of another key, and in a batch a target is pending or has one of them.
  pub record TargetState (k : String) (counts : Bool) (c : Coordinator Inventory) : Type 0 where
    pub exclusive :
        (is_some (lookup k c.inventory) && is_some (lookup k c.inventory_errors)) ≡ false
    pub within :
        counts ≡ false → (lookup k c.inventory ≡ none) × (lookup k c.inventory_errors ≡ none)
    pub covered :
        counts ≡ true
        → is_some c.pending_targets ≡ true
        → (listed_in k c.pending_targets ≡ true)
          ⊎ (is_some (lookup k c.inventory) ≡ not (is_some (lookup k c.inventory_errors)))

  -- The invariant: so it is for each target, by the keys of the last refresh.
  pub record InventoryInv (c : Coordinator Inventory) : Type 0 where
    pub target_state : (k : String) → TargetState k (in_texts k c.target_keys) c

  -- Before a refresh decides, the keys that count are the active ones.
  pub activated-TargetState :
      (k : String) (active : List String) (c : Coordinator Inventory)
      → InventoryInv c
      → TargetState k (in_texts k active) (pruned active (with_active active c))
  unfolding pruned with_active
  activated-TargetState k active c inv =
      let h = inv.target_state k in
      let kept = lookup-keep_keys (λ (j : String). in_texts j active) k c.inventory in
      let errors = lookup-keep_keys (λ (j : String). in_texts j active) k c.inventory_errors in
      elim (Bool-cases (same_keys active c.target_keys)) [
        | inl e ↦ rw e (
            ground (
              arith,
              h.exclusive,
              h.within,
              h.covered,
              kept,
              errors,
              same_keys-in_texts k active c.target_keys e,
            ))
        | inr e ↦ elim (Option-cases c.pending_targets) [
          | inl none_there ↦
              rw (e, none_there) (ground (arith, h.exclusive, h.within, kept, errors))
          | inr (p, there) ↦
              rw (e, there)
                (ground (
                  arith,
                  there,
                  h.exclusive,
                  h.within,
                  h.covered,
                  kept,
                  errors,
                  in_texts-add_keys k (sorted (without active c.target_keys))
                      (keep (λ (j : String). in_texts j active) p),
                  in_texts-sorted k (without active c.target_keys),
                  in_texts-keep (λ (j : String). in_texts j active) k p,
                  in_texts-keep (λ (j : String). not (in_texts j c.target_keys)) k active,
                ))
        ]
      ]

  -- A batch that starts, or goes on, holds every active key that is not settled.
  pub batch-TargetState :
      (k : String) (now : ℕ) (active : List String) (c : Coordinator Inventory)
      → TargetState k (in_texts k active) c
      → TargetState k (in_texts k active) (with_batch now active c)
  unfolding with_batch
  batch-TargetState k now active c h = elim (Option-cases c.pending_targets) [
    | inl e ↦ rw e (ground (arith, h.exclusive, h.within, in_texts-sorted k active))
    | inr (p, e) ↦ rw e (
        ground (
          arith,
          e,
          h.exclusive,
          h.within,
          h.covered,
          in_texts-sorted k active,
          in_texts-add_keys k (sorted active) p,
        ))
  ]

  -- The keys of the last refresh are the active ones then.
  pub activated-target_keys :
      (k : String) (active : List String) (c : Coordinator Inventory)
      → in_texts k (pruned active (with_active active c)).target_keys ≡ in_texts k active
  unfolding pruned with_active
  activated-target_keys k active c = elim (Bool-cases (same_keys active c.target_keys)) [
    | inl e ↦ rw e (sym (same_keys-in_texts k active c.target_keys e))
    | inr e ↦ rw e refl
  ]

  pub batch-target_keys :
      (now : ℕ) (active : List String) (c : Coordinator Inventory)
      → (with_batch now active c).target_keys ≡ c.target_keys
  unfolding with_batch
  batch-target_keys now active c = ground arith

  pub batch-snapshot_settings :
      (now : ℕ) (active : List String) (c : Coordinator Inventory)
      → (with_batch now active c).snapshot_settings ≡ c.snapshot_settings
  unfolding with_batch
  batch-snapshot_settings now active c = ground arith

  pub activated-snapshot_settings :
      (active : List String) (c : Coordinator Inventory)
      → (pruned active (with_active active c)).snapshot_settings ≡ c.snapshot_settings
  unfolding pruned with_active
  activated-snapshot_settings active c = ground arith
