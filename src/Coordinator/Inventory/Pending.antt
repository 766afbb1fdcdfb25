-- ===== src/Coordinator/Inventory/Pending.antt =====
-- What the inventory loop does to the ordered dict of pending targets, and what it leaves alone.
use ha_unifi_drive.Prelude.{
  ℕ, String, ◌≡◌, refl, ◌∙◌, inl, inr, Bool, true, false, not, ◌&&◌, Option, none, some, List, [],
  ◌∷◌, ◌++◌, Dict, lookup, text_eq, arith, is_some, in_texts, Option-cases, Bool-cases,
}
use ha_unifi_drive.Payload.{Value}
use ha_unifi_drive.Snapshot.Targets.{target_type}
use ha_unifi_drive.Coordinator.{
  api, unexpected, uncaught, cancelled, Outcome, returned, stopped, ClientCalls, Coordinator,
  LogLine,
}
use ha_unifi_drive.Coordinator.Targets.{drop_key}
use ha_unifi_drive.Coordinator.Targets.Laws.{in_texts-keep}
use ha_unifi_drive.Coordinator.Inventory.{
  Batch, type_is_unsupported, round_done, failed_for, summarised, read_answered, read_target,
  round_for, round, rounds, skip_reason, with_pending, error_reason, read_should_be_skipped,
}

abbrev pub listed_in : String → Option (List String) → Bool
listed_in k none = false
listed_in k (some pending) = in_texts k pending

pub in_texts-drop_key :
    (k key : String) (ks : List String)
    → in_texts k (drop_key key ks) ≡ (not (text_eq k key) && in_texts k ks)
unfolding drop_key
in_texts-drop_key k key ks = in_texts-keep (λ j. not (text_eq j key)) k ks

module _ {Inventory : Type 0} where
  -- The state of the connection.
  abbrev pub connection :
      Coordinator Inventory → Option (Dict Value) × Bool × ℕ × Bool × Bool × List LogLine
  connection c = (
    c.cached, c.is_device_online, c.connection_failure_count, c.transient_logged, c.offline_logged,
    c.log,
  )

  abbrev pub is_pending : String → Batch Inventory → Bool
  is_pending k b = listed_in k b.coordinator.pending_targets

  -- The coordinator shows the local dicts of a batch that it keeps.
  abbrev pub IsShown : Batch Inventory → Type 0
  IsShown b =
      is_some b.coordinator.pending_targets ≡ true
      → (b.coordinator.inventory ≡ b.summaries) × (b.coordinator.inventory_errors ≡ b.errors)

  pub record Kept (b b' : Batch Inventory) : Type 0 where
    pub pending : is_some b'.coordinator.pending_targets ≡ is_some b.coordinator.pending_targets
    pub shown : IsShown b → IsShown b'
    pub keys : b'.coordinator.target_keys ≡ b.coordinator.target_keys
    pub connected : connection b'.coordinator ≡ connection b.coordinator

  -- What the parts of a round do not touch.
  abbrev Untouched : Batch Inventory → Batch Inventory → Type 0
  Untouched b b' =
      (b'.coordinator.pending_targets ≡ b.coordinator.pending_targets)
      × (b'.coordinator.target_keys ≡ b.coordinator.target_keys)
      × (connection b'.coordinator ≡ connection b.coordinator)

  done-Kept : (key : String) (b b' : Batch Inventory) → Untouched b b' → Kept b (round_done key b')
  unfolding round_done
  done-Kept key b b' (same, keys, connected) = elim (Option-cases b'.coordinator.pending_targets) [
    | inl e ↦ record {
      pending = rw (e, ← same, e) refl;
      shown = λ h p. ground arith;
      keys = rw e keys;
      connected = rw e connected;
    }
    | inr (p, e) ↦ record {
      pending = rw (e, ← same, e) refl;
      shown = λ h p. rw e (refl, refl);
      keys = rw e keys;
      connected = rw e connected;
    }
  ]

  failed-Kept :
      (key reason : String) (sticky : Bool) (b : Batch Inventory)
      → Kept b (round_done key (failed_for key reason sticky b))
  failed-Kept key reason true b = done-Kept key b (failed_for key reason true b) (refl, refl, refl)
  failed-Kept key reason false b =
      done-Kept key b (failed_for key reason false b) (refl, refl, refl)

  pending-Kept :
      (f : List String → List String) (b : Batch Inventory)
      → Kept b (record b { coordinator = with_pending f b.coordinator })
  pending-Kept f b = elim (Option-cases b.coordinator.pending_targets) [
    | inl e ↦ record {
      pending = rw e refl;
      shown = λ h p. ground arith;
      keys = refl;
      connected = refl;
    }
    | inr (p, e) ↦ record {
      pending = rw e refl;
      shown = λ h q. h (rw e refl);
      keys = refl;
      connected = refl;
    }
  ]

  module _ (safe_error_text : String → String) (calls : ClientCalls Inventory) where
    answered-Kept :
        (key : String) (r : Outcome Inventory) (b : Batch Inventory)
        → Kept b (read_answered safe_error_text calls key r b).1
    unfolding read_answered
    answered-Kept key (returned summary) b =
        done-Kept key b (summarised key summary b) (refl, refl, refl)
    answered-Kept key (stopped cancelled) b = pending-Kept (λ p. drop_key key p ++ (key ∷ [])) b
    answered-Kept key (stopped (uncaught e)) b = record {
      pending = refl;
      shown = λ h. h;
      keys = refl;
      connected = refl;
    }
    answered-Kept key (stopped (api e)) b =
        failed-Kept key (error_reason safe_error_text (api e))
          (read_should_be_skipped safe_error_text (api e)) b
    answered-Kept key (stopped (unexpected e)) b =
        failed-Kept key (error_reason safe_error_text (unexpected e))
          (read_should_be_skipped safe_error_text (unexpected e)) b

    module _ (support : Dict Bool) (listed : Dict (Dict Value)) where
      round_for-Kept :
          (key : String) (target : Dict Value) (reason : Option String) (b : Batch Inventory)
          → Kept b (round_for safe_error_text calls support key target reason b).1
      unfolding round_for read_target
      round_for-Kept key target (some reason) b = failed-Kept key reason false b
      round_for-Kept key target none b =
          elim (Bool-cases (type_is_unsupported support (target_type target))) [
            | inl e ↦ rw e (failed-Kept key "unsupported" true b)
            | inr e ↦
                let (r, l) = calls.get_inventory_target target b.link in
                let h = answered-Kept key r (record b { link = l }) in
                rw e (record {
                  pending = h.pending;
                  shown = h.shown;
                  keys = h.keys;
                  connected = h.connected;
                })
          ]

      pub round-Kept :
          (key : String) (b : Batch Inventory)
          → Kept b (round safe_error_text calls support listed key b).1
      unfolding round
      round-Kept key b = elim (Option-cases (lookup key listed)) [
        | inl e ↦ rw e (pending-Kept (drop_key key) b)
        | inr (target, e) ↦
            rw e (round_for-Kept key target (skip_reason (lookup key b.coordinator.skip_reasons)) b)
      ]

      pub rounds-Kept :
          (keys : List String) (b : Batch Inventory)
          → Kept b (rounds safe_error_text calls support listed keys b).1
      unfolding rounds
      rounds-Kept [] b = record { pending = refl; shown = λ h. h; keys = refl; connected = refl }
      rounds-Kept (key ∷ keys) b =
          let (stop, b') = round safe_error_text calls support listed key b in
          let h = round-Kept key b in
          elim (Option-cases stop) [
            | inl e ↦
                let g = rounds-Kept keys b' in
                rw (e, rounds)
                  (record {
                    pending = g.pending ∙ h.pending;
                    shown = λ shown. g.shown (h.shown shown);
                    keys = g.keys ∙ h.keys;
                    connected = g.connected ∙ h.connected;
                  })
            | inr (failure, e) ↦ rw (e, rounds) h
          ]
