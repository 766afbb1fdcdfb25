-- ===== src/Coordinator/Inventory/Tracked.antt =====
-- No target of a batch is lost: it is pending until it is settled, whatever stops the loop.
use ha_unifi_drive.Prelude.{
  String, ◌≡◌, refl, sym, ◌∙◌, ◌⊎◌, inl, inr, Bool, true, false, ◌||◌, Option, none, some, List, [],
  ◌∷◌, ◌++◌, Dict, lookup, text_eq, eq_iff, arith, in_texts, Option-cases, Bool-cases,
}
use ha_unifi_drive.Payload.{Value}
use ha_unifi_drive.Snapshot.Targets.{target_type}
use ha_unifi_drive.Coordinator.{
  api, unexpected, uncaught, cancelled, Outcome, returned, stopped, ClientCalls,
}
use ha_unifi_drive.Coordinator.Targets.{drop_key}
use ha_unifi_drive.Coordinator.Targets.Laws.{in_texts-append}
use ha_unifi_drive.Coordinator.Inventory.{
  Batch, type_is_unsupported, round_done, failed_for, summarised, put_last, read_answered,
  read_target, round_for, round, rounds, skip_reason, error_reason, read_should_be_skipped,
}
use ha_unifi_drive.Coordinator.Inventory.Settled.{
  IsSettled, SameAt, failed-IsSettled, summarised-IsSettled,
}
use ha_unifi_drive.Coordinator.Inventory.Rounds.{round-Change}
use ha_unifi_drive.Coordinator.Inventory.Pending.{is_pending, listed_in, in_texts-drop_key}

dropped-pending :
    (k key : String) (pending : Option (List String))
    → text_eq key k ≡ false
    → listed_in k (elim pending [ none ↦ none | some p ↦ some (drop_key key p) ])
      ≡ listed_in k pending
dropped-pending k key none e = refl
dropped-pending k key (some p) e =
    ground (arith, in_texts-drop_key k key p, eq_iff k key, eq_iff key k)

moved-pending :
    (k key : String) (p : List String)
    → in_texts k (drop_key key p ++ (key ∷ [])) ≡ (text_eq k key || in_texts k p)
moved-pending k key p =
    ground (arith, in_texts-append k (drop_key key p) (key ∷ []), in_texts-drop_key k key p)

module _ {Inventory : Type 0} where
  abbrev IsKnown : String → Batch Inventory → Type 0
  IsKnown k b = (is_pending k b ≡ true) ⊎ IsSettled k b

  -- A round for one target leaves the others pending, and its own pending or settled.
  pub record Goes (k key : String) (b b' : Batch Inventory) : Type 0 where
    pub own : text_eq key k ≡ true → is_pending k b ≡ true → IsKnown k b'
    pub others : text_eq key k ≡ false → is_pending k b' ≡ is_pending k b

  done-others :
      (k key : String) (b : Batch Inventory)
      → text_eq key k ≡ false
      → is_pending k (round_done key b) ≡ is_pending k b
  unfolding round_done
  done-others k key b e = elim (Option-cases b.coordinator.pending_targets) [
    | inl none_there ↦ rw none_there refl
    | inr (p, there) ↦ rw there (dropped-pending k key (some p) e)
  ]

  settled-Goes :
      (k key : String) (b b' : Batch Inventory)
      → b'.coordinator.pending_targets ≡ b.coordinator.pending_targets
      → IsSettled key (round_done key b')
      → Goes k key b (round_done key b')
  settled-Goes k key b b' same settled = record {
    own = λ e h. inr (rw (sym ((eq_iff key k).0 e)) settled);
    others = λ e. rw (← same) (done-others k key b' e);
  }

  failed-Goes :
      (k key reason : String) (sticky : Bool) (b : Batch Inventory)
      → Goes k key b (round_done key (failed_for key reason sticky b))
  failed-Goes k key reason true b =
      settled-Goes k key b (failed_for key reason true b) refl (failed-IsSettled key reason true b)
  failed-Goes k key reason false b =
      settled-Goes k key b (failed_for key reason false b) refl
        (failed-IsSettled key reason false b)

  put_last-Goes : (k key : String) (b : Batch Inventory) → Goes k key b (put_last key b)
  put_last-Goes k key b = elim (Option-cases b.coordinator.pending_targets) [
    | inl e ↦ record { own = λ same. rw e λ h. ground arith; others = λ other. rw e refl }
    | inr (p, e) ↦ record {
      own = λ same. rw e λ h. inl (ground (arith, moved-pending k key p));
      others = λ other. rw e (ground (arith, moved-pending k key p, eq_iff k key, eq_iff key k));
    }
  ]

  module _ (safe_error_text : String → String) (calls : ClientCalls Inventory) where
    answered-Goes :
        (k key : String) (r : Outcome Inventory) (b : Batch Inventory)
        → Goes k key b (read_answered safe_error_text calls key r b).1
    unfolding read_answered
    answered-Goes k key (returned summary) b =
        settled-Goes k key b (summarised key summary b) refl (summarised-IsSettled key summary b)
    answered-Goes k key (stopped cancelled) b = put_last-Goes k key b
    answered-Goes k key (stopped (uncaught e)) b = record {
      own = λ same h. inl h;
      others = λ other. refl;
    }
    answered-Goes k key (stopped (api e)) b =
        failed-Goes k key (error_reason safe_error_text (api e))
          (read_should_be_skipped safe_error_text (api e)) b
    answered-Goes k key (stopped (unexpected e)) b =
        failed-Goes k key (error_reason safe_error_text (unexpected e))
          (read_should_be_skipped safe_error_text (unexpected e)) b

    module _ (support : Dict Bool) (listed : Dict (Dict Value)) where
      round_for-Goes :
          (k key : String) (target : Dict Value) (reason : Option String) (b : Batch Inventory)
          → Goes k key b (round_for safe_error_text calls support key target reason b).1
      unfolding round_for read_target
      round_for-Goes k key target (some reason) b = failed-Goes k key reason false b
      round_for-Goes k key target none b =
          elim (Bool-cases (type_is_unsupported support (target_type target))) [
            | inl e ↦ rw e (failed-Goes k key "unsupported" true b)
            | inr e ↦
                let (r, l) = calls.get_inventory_target target b.link in
                let h = answered-Goes k key r (record b { link = l }) in
                rw e (record { own = h.own; others = h.others })
          ]

      -- Of a target that has settings.
      round-Goes :
          (k key : String) (target : Dict Value) (b : Batch Inventory)
          → lookup k listed ≡ some target
          → Goes k key b (round safe_error_text calls support listed key b).1
      unfolding round
      round-Goes k key target b e = elim (Option-cases (lookup key listed)) [
        | inl unlisted ↦ rw unlisted (record {
          own = λ same. ground (arith, eq_iff key k);
          others = λ other. dropped-pending k key b.coordinator.pending_targets other;
        })
        | inr (target', e') ↦
            rw e'
              (round_for-Goes k key target' (skip_reason (lookup key b.coordinator.skip_reasons)) b)
      ]

      IsKnown-after :
          (k key : String) (b b' : Batch Inventory)
          → Goes k key b b'
          → SameAt k b b' ⊎ ((text_eq key k ≡ true) × IsSettled k b')
          → IsKnown k b
          → IsKnown k b'
      IsKnown-after k key b b' go (inr settled) h = inr settled.1
      IsKnown-after k key b b' go (inl same) (inr settled) = inr (rw (same.0, same.1) settled)
      IsKnown-after k key b b' go (inl same) (inl h) = elim (Bool-cases (text_eq key k)) [
        | inl e ↦ go.own e h
        | inr e ↦ inl (go.others e ∙ h)
      ]

      -- Each target that is pending or settled before the loop is so after it.
      pub rounds-IsKnown :
          (k : String) (target : Dict Value) (keys : List String) (b : Batch Inventory)
          → lookup k listed ≡ some target
          → IsKnown k b
          → IsKnown k (rounds safe_error_text calls support listed keys b).1
      unfolding rounds
      rounds-IsKnown k target [] b e h = h
      rounds-IsKnown k target (key ∷ keys) b e h =
          let (stop, b') = round safe_error_text calls support listed key b in
          let h' =
            IsKnown-after k key b b' (round-Goes k key target b e)
              (round-Change safe_error_text calls support listed k key b) h in
          elim (Option-cases stop) [
            | inl go ↦ rw (go, rounds) (rounds-IsKnown k target keys b' e h')
            | inr (failure, end) ↦ rw (end, rounds) h'
          ]
