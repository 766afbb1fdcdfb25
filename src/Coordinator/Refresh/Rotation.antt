-- ===== src/Coordinator/Refresh/Rotation.antt =====
-- A stalled target waits behind its peers: where a batch goes on after a cancelled read.
use ha_unifi_drive.Prelude.{
  String, ◌≡◌, refl, sym, ap, ◌∙◌, inl, inr, Bool, true, false, Option, none, some, List, [], ◌∷◌,
  ◌++◌, Dict, lookup, eq_refl, eq_iff, arith, in_texts, Option-cases, Bool-cases,
}
use ha_unifi_drive.Payload.{Value}
use ha_unifi_drive.Snapshot.Targets.{target_type}
use ha_unifi_drive.Coordinator.{
  Coordinator, ClientCalls, Link, Failure, api, unexpected, uncaught, cancelled, Outcome, returned,
  stopped,
}
use ha_unifi_drive.Coordinator.Targets.{drop_key}
use ha_unifi_drive.Coordinator.Inventory.{
  Batch, type_is_unsupported, listed_from, round_done, failed_for, summarised, error_reason,
  read_should_be_skipped, with_pending, round_for, read_answered, read_target, round, rounds,
  skip_reason,
}
use ha_unifi_drive.Coordinator.Refresh.{new_batch, keys_to_read, all_rounds, get_snapshot_inventory}

abbrev pub Distinct : List String → Type 0
Distinct [] = Unit
Distinct (k ∷ ks) = (in_texts k ks ≡ false) × Distinct ks

drop-absent : (k : String) (ks : List String) → in_texts k ks ≡ false → drop_key k ks ≡ ks
unfolding drop_key
drop-absent k [] h = refl
drop-absent k (j ∷ ks) h = ground (arith, drop-absent k ks, eq_iff j k, eq_iff k j)

drop-head : (k : String) (ks : List String) → in_texts k ks ≡ false → drop_key k (k ∷ ks) ≡ ks
unfolding drop_key
drop-head k ks h = ground (arith, eq_refl k, drop-absent k ks h)

-- The pending keys after a round for a key, by what the round ends with.
abbrev Moved : String → Option Failure → List String → Option (List String) → Type 0
Moved key none p q = q ≡ some (drop_key key p)
Moved key (some cancelled) p q = q ≡ some (drop_key key p ++ (key ∷ []))
Moved key (some failure) p q = Unit

module _ {Inventory : Type 0} where
  done-pending :
      (key : String) (b : Batch Inventory) (p : List String)
      → b.coordinator.pending_targets ≡ some p
      → (round_done key b).coordinator.pending_targets ≡ some (drop_key key p)
  unfolding round_done
  done-pending key b p e = rw e refl

  moved-pending :
      (f : List String → List String) (c : Coordinator Inventory) (p : List String)
      → c.pending_targets ≡ some p
      → (with_pending f c).pending_targets ≡ some (f p)
  moved-pending f c p e = rw e refl

  failed-pending :
      (key reason : String) (sticky : Bool) (b : Batch Inventory) (p : List String)
      → b.coordinator.pending_targets ≡ some p
      → (round_done key (failed_for key reason sticky b)).coordinator.pending_targets
        ≡ some (drop_key key p)
  failed-pending key reason true b p e = done-pending key (failed_for key reason true b) p e
  failed-pending key reason false b p e = done-pending key (failed_for key reason false b) p e

  module _ (safe_error_text : String → String) (calls : ClientCalls Inventory) where
    -- A run of a round, for pending keys.
    abbrev Moves : String → List String → Option Failure × Batch Inventory → Type 0
    Moves key p (stop, b) = Moved key stop p b.coordinator.pending_targets

    answered-Moves :
        (key : String) (r : Outcome Inventory) (b : Batch Inventory) (p : List String)
        → b.coordinator.pending_targets ≡ some p
        → Moves key p (read_answered safe_error_text calls key r b)
    unfolding read_answered
    answered-Moves key (returned summary) b p e = done-pending key (summarised key summary b) p e
    answered-Moves key (stopped cancelled) b p e =
        moved-pending (λ q. drop_key key q ++ (key ∷ [])) b.coordinator p e
    answered-Moves key (stopped (uncaught x)) b p e = tt
    answered-Moves key (stopped (api x)) b p e =
        failed-pending key (error_reason safe_error_text (api x))
          (read_should_be_skipped safe_error_text (api x)) b p e
    answered-Moves key (stopped (unexpected x)) b p e =
        failed-pending key (error_reason safe_error_text (unexpected x))
          (read_should_be_skipped safe_error_text (unexpected x)) b p e

    module _ (support : Dict Bool) (listed : Dict (Dict Value)) where
      round_for-Moves :
          (key : String) (target : Dict Value) (reason : Option String) (b : Batch Inventory)
          (p : List String)
          → b.coordinator.pending_targets ≡ some p
          → Moves key p (round_for safe_error_text calls support key target reason b)
      unfolding round_for read_target
      round_for-Moves key target (some reason) b p e = failed-pending key reason false b p e
      round_for-Moves key target none b p e =
          elim (Bool-cases (type_is_unsupported support (target_type target))) [
            | inl is ↦ rw is (failed-pending key "unsupported" true b p e)
            | inr is ↦
                let (r, l) = calls.get_inventory_target target b.link in
                rw is (answered-Moves key r (record b { link = l }) p e)
          ]

      round-Moves :
          (key : String) (b : Batch Inventory) (p : List String)
          → b.coordinator.pending_targets ≡ some p
          → Moves key p (round safe_error_text calls support listed key b)
      unfolding round
      round-Moves key b p e = elim (Option-cases (lookup key listed)) [
        | inl is ↦ rw is (moved-pending (drop_key key) b.coordinator p e)
        | inr (target, is) ↦
            rw is (
              round_for-Moves key target (skip_reason (lookup key b.coordinator.skip_reasons)) b p
                e)
      ]

      -- The read of the target with this key is cancelled.
      abbrev pub IsCancelled : String → Batch Inventory → Type 0
      IsCancelled key b =
          (target : Dict Value) × (lookup key listed ≡ some target)
          × ((calls.get_inventory_target target b.link).0 ≡ stopped cancelled)

      -- The loop came to a key whose read was cancelled, after those before it: the pending keys are
      -- those behind it, and last this key.
      abbrev pub Rotated : List String → Batch Inventory → Option (List String) → Type 0
      Rotated keys b q =
          (done : List String) × (key : String) × (rest : List String) × (keys
            ≡ done ++ (key ∷ rest))
          × ((rounds safe_error_text calls support listed done b).0 ≡ none)
          × IsCancelled key (rounds safe_error_text calls support listed done b).1
          × (q ≡ some (rest ++ (key ∷ [])))

      abbrev Left : Option Failure → List String → Batch Inventory → Option (List String) → Type 0
      Left none keys b q = Unit
      Left (some cancelled) keys b q = Rotated keys b q
      Left (some failure) keys b q = Unit

      answered-cancelled :
          (key : String) (r : Outcome Inventory) (b : Batch Inventory)
          → (read_answered safe_error_text calls key r b).0 ≡ some cancelled
          → r ≡ stopped cancelled
      unfolding read_answered
      answered-cancelled key (returned summary) b h = ground (arith, h)
      answered-cancelled key (stopped cancelled) b h = refl
      answered-cancelled key (stopped (uncaught x)) b h = ground (arith, h)
      answered-cancelled key (stopped (api x)) b h = ground (arith, h)
      answered-cancelled key (stopped (unexpected x)) b h = ground (arith, h)

      round_for-cancelled :
          (key : String) (target : Dict Value) (reason : Option String) (b : Batch Inventory)
          → (round_for safe_error_text calls support key target reason b).0 ≡ some cancelled
          → (calls.get_inventory_target target b.link).0 ≡ stopped cancelled
      unfolding round_for read_target
      round_for-cancelled key target (some reason) b h = ground (arith, h)
      round_for-cancelled key target none b h =
          elim (Bool-cases (type_is_unsupported support (target_type target))) [
            | inl is ↦ ground (arith, rw is at h)
            | inr is ↦
                let (r, l) = calls.get_inventory_target target b.link in
                answered-cancelled key r (record b { link = l }) (rw is at h)
          ]

      round-cancelled :
          (key : String) (b : Batch Inventory)
          → (round safe_error_text calls support listed key b).0 ≡ some cancelled
          → IsCancelled key b
      unfolding round
      round-cancelled key b h = elim (Option-cases (lookup key listed)) [
        | inl is ↦ ground (arith, rw is at h)
        | inr (target, is) ↦ (
          target,
          is,
          round_for-cancelled key target (skip_reason (lookup key b.coordinator.skip_reasons)) b
              (rw is at h),
        )
      ]

      went-on :
          (key : String) (keys : List String) (q : Option (List String))
          → in_texts key keys ≡ false
          → Moved key none (key ∷ keys) q
          → q ≡ some keys
      went-on key keys q new h = h ∙ ap some (drop-head key keys new)

      nothing_done :
          (b : Batch Inventory) → rounds safe_error_text calls support listed [] b ≡ (none, b)
      unfolding rounds
      nothing_done b = refl

      stays :
          (key : String) (keys : List String) (b : Batch Inventory) (stop : Option Failure)
          (q : Option (List String))
          → in_texts key keys ≡ false
          → (round safe_error_text calls support listed key b).0 ≡ stop
          → Moved key stop (key ∷ keys) q
          → Left stop (key ∷ keys) b q
      stays key keys b none q new e h = tt
      stays key keys b (some cancelled) q new e h = (
        [],
        key,
        keys,
        refl,
        ap (λ x. x.0) (nothing_done b),
        rw (nothing_done b) (round-cancelled key b e),
        h ∙ ap (λ p. some (p ++ (key ∷ []))) (drop-head key keys new),
      )
      stays key keys b (some (api x)) q new e h = tt
      stays key keys b (some (unexpected x)) q new e h = tt
      stays key keys b (some (uncaught x)) q new e h = tt

      goes_on :
          (key : String) (keys : List String) (b : Batch Inventory)
          → (round safe_error_text calls support listed key b).0 ≡ none
          → rounds safe_error_text calls support listed (key ∷ keys) b
            ≡ rounds safe_error_text calls support listed keys
                (round safe_error_text calls support listed key b).1
      unfolding rounds
      goes_on key keys b goes = rw (goes, rounds) refl

      more :
          (key : String) (keys : List String) (b : Batch Inventory) (stop : Option Failure)
          (q : Option (List String))
          → (round safe_error_text calls support listed key b).0 ≡ none
          → Left stop keys (round safe_error_text calls support listed key b).1 q
          → Left stop (key ∷ keys) b q
      more key keys b none q goes h = tt
      more key keys b (some cancelled) q goes (done, last, rest, split, before, read, pending) =
          let same = goes_on key done b goes in
          (
            key ∷ done,
            last,
            rest,
            ap (λ ks. key ∷ ks) split,
            ap (λ x. x.0) same ∙ before,
            rw same read,
            pending,
          )
      more key keys b (some (api x)) q goes h = tt
      more key keys b (some (unexpected x)) q goes h = tt
      more key keys b (some (uncaught x)) q goes h = tt

      rounds-Left :
          (keys : List String) (b : Batch Inventory)
          → Distinct keys
          → b.coordinator.pending_targets ≡ some keys
          → let r = rounds safe_error_text calls support listed keys b in
            Left r.0 keys b r.1.coordinator.pending_targets
      unfolding rounds
      rounds-Left [] b distinct e = tt
      rounds-Left (key ∷ keys) b distinct e =
          let (stop, b') = round safe_error_text calls support listed key b in
          let moved = round-Moves key b (key ∷ keys) e in
          elim (Option-cases stop) [
            | inl goes ↦
                let r = rounds safe_error_text calls support listed keys b' in
                rw (goes, rounds)
                  (more key keys b r.0 r.1.coordinator.pending_targets goes (
                    rounds-Left keys b' distinct.1 (
                      went-on key keys b'.coordinator.pending_targets distinct.0
                        (rw goes at moved))))
            | inr (failure, ends) ↦
                rw (ends, rounds)
                  (rw ends at
                    (stays key keys b stop b'.coordinator.pending_targets distinct.0 refl moved))
          ]

      rotated :
          (keys ks : List String) (b : Batch Inventory) (failure : Failure)
          (q : Option (List String))
          → ks ≡ keys
          → some failure ≡ some cancelled
          → Left (some failure) ks b q
          → Rotated keys b q
      rotated keys ks b cancelled q same e h = rw same at h
      rotated keys ks b (api x) q same e h = ground arith
      rotated keys ks b (unexpected x) q same e h = ground arith
      rotated keys ks b (uncaught x) q same e h = ground arith

    keys_read :
        (keys : List String) (listed : Dict (Dict Value)) (c : Coordinator Inventory)
        → c.pending_targets ≡ some keys
        → keys_to_read safe_error_text calls c.pending_targets listed ≡ keys
    keys_read keys listed c e = rw e refl

    -- When a batch is stopped by a cancelled read, there is a target whose read was cancelled, after
    -- the reads of the targets before it went on; the pending keys are then those behind it, which the
    -- batch had not come to, in their order, and last the key of that target.
    pub get_snapshot_inventory-Rotated :
        (active keys : List String) (c : Coordinator Inventory) (l : Link)
        → Distinct keys
        → c.pending_targets ≡ some keys
        → (get_snapshot_inventory safe_error_text calls active c l).0 ≡ some cancelled
        → Rotated l.session.client.snapshot_inventory_supported_by_type
            (listed_from active c.snapshot_settings [])
            keys
            (new_batch safe_error_text calls c l)
            (get_snapshot_inventory safe_error_text calls active c l).1.pending_targets
    unfolding get_snapshot_inventory
    get_snapshot_inventory-Rotated active keys c l distinct e =
        let listed = listed_from active c.snapshot_settings [] in
        let support = l.session.client.snapshot_inventory_supported_by_type in
        let ks = keys_to_read safe_error_text calls c.pending_targets listed in
        let same = keys_read keys listed c e in
        let start = new_batch safe_error_text calls c l in
        let left =
          rounds-Left support listed ks start (rw same distinct) (e ∙ ap some (sym same)) in
        let (stop, b) = all_rounds safe_error_text calls active c l in
        elim (Option-cases stop) [
          | inl is ↦ rw (is, get_snapshot_inventory) λ h. ground arith
          | inr (failure, is) ↦
              rw (is, get_snapshot_inventory)
                λ h.
                  rotated support listed keys ks start failure b.coordinator.pending_targets same h
                    (rw is at left)
        ]
