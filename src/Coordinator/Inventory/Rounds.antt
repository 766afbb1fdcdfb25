-- ===== src/Coordinator/Inventory/Rounds.antt =====
-- What one round of the inventory loop, and the whole loop, leave of a batch.
use ha_unifi_drive.Prelude.{
  String, ◌≡◌, refl, ◌∙◌, ◌⊎◌, inl, inr, Bool, true, false, Option, none, some, List, [], ◌∷◌, Dict,
  lookup, text_eq, eq_iff, arith, in_texts, Option-cases, Bool-cases,
}
use ha_unifi_drive.Payload.{Value}
use ha_unifi_drive.Snapshot.Targets.{target_type}
use ha_unifi_drive.Coordinator.{
  Failure, api, unexpected, uncaught, cancelled, Outcome, returned, stopped, ClientCalls,
}
use ha_unifi_drive.Coordinator.Inventory.{
  Batch, type_is_unsupported, round_done, summarised, with_failure, read_answered, read_target,
  round_for, round, rounds, skip_reason, error_reason, read_should_be_skipped,
}
use ha_unifi_drive.Coordinator.Inventory.Settled.{
  IsSettled, Settles, SameAt, SameAt-refl, failed-IsSettled, summarised-IsSettled,
  summarised-SameAt, Change, Change-at, failed-Change,
}

module _ {Inventory : Type 0} where
  module _ (safe_error_text : String → String) (calls : ClientCalls Inventory) where
    failure-Change :
        (k key : String) (failure : Failure) (b : Batch Inventory)
        → Change k key b (round_done key (with_failure safe_error_text calls key failure b))
    failure-Change k key failure b =
        failed-Change k key (error_reason safe_error_text failure)
          (read_should_be_skipped safe_error_text failure) b

    answered-Change :
        (k key : String) (r : Outcome Inventory) (b : Batch Inventory)
        → Change k key b (read_answered safe_error_text calls key r b).1
    unfolding read_answered
    answered-Change k key (returned summary) b =
        Change-at k key b (round_done key (summarised key summary b))
          (summarised-SameAt k key summary b) (summarised-IsSettled key summary b)
    answered-Change k key (stopped cancelled) b = inl (refl, refl, refl)
    answered-Change k key (stopped (uncaught e)) b = inl (SameAt-refl k b)
    answered-Change k key (stopped (api e)) b = failure-Change k key (api e) b
    answered-Change k key (stopped (unexpected e)) b = failure-Change k key (unexpected e) b

    answered-done :
        (key : String) (r : Outcome Inventory) (b : Batch Inventory)
        → Settles key (read_answered safe_error_text calls key r b)
    unfolding read_answered
    answered-done key (returned summary) b done = summarised-IsSettled key summary b
    answered-done key (stopped cancelled) b done = ground arith
    answered-done key (stopped (uncaught e)) b done = ground arith
    answered-done key (stopped (api e)) b done =
        failed-IsSettled key (error_reason safe_error_text (api e))
          (read_should_be_skipped safe_error_text (api e)) b
    answered-done key (stopped (unexpected e)) b done =
        failed-IsSettled key (error_reason safe_error_text (unexpected e))
          (read_should_be_skipped safe_error_text (unexpected e)) b

    module _ (support : Dict Bool) (listed : Dict (Dict Value)) where
      abbrev run_round : String → Batch Inventory → Option Failure × Batch Inventory
      run_round = round safe_error_text calls support listed

      abbrev run_rounds : List String → Batch Inventory → Option Failure × Batch Inventory
      run_rounds = rounds safe_error_text calls support listed

      round_for-Change :
          (k key : String) (target : Dict Value) (reason : Option String) (b : Batch Inventory)
          → Change k key b (round_for safe_error_text calls support key target reason b).1
      unfolding round_for read_target
      round_for-Change k key target (some reason) b = failed-Change k key reason false b
      round_for-Change k key target none b =
          elim (Bool-cases (type_is_unsupported support (target_type target))) [
            | inl e ↦ rw e (failed-Change k key "unsupported" true b)
            | inr e ↦
                let (r, l) = calls.get_inventory_target target b.link in
                rw e (answered-Change k key r (record b { link = l }))
          ]

      pub round-Change : (k key : String) (b : Batch Inventory) → Change k key b (run_round key b).1
      unfolding round
      round-Change k key b = elim (Option-cases (lookup key listed)) [
        | inl e ↦ rw e (inl (refl, refl, refl))
        | inr (target, e) ↦
            rw e (
              round_for-Change k key target (skip_reason (lookup key b.coordinator.skip_reasons)) b)
      ]

      then-Change :
          (k key : String) (b b' b'' : Batch Inventory) (keys : List String)
          → Change k key b b'
          → SameAt k b' b'' ⊎ ((in_texts k keys ≡ true) × IsSettled k b'')
          → SameAt k b b'' ⊎ ((in_texts k (key ∷ keys) ≡ true) × IsSettled k b'')
      then-Change k key b b' b'' keys h h' = ground (arith, h, h', eq_iff key k, eq_iff k key)

      -- The loop settles a target or leaves what is known of it, and leaves all that it does not visit.
      pub rounds-Change :
          (k : String) (keys : List String) (b : Batch Inventory)
          → SameAt k b (run_rounds keys b).1
            ⊎ ((in_texts k keys ≡ true) × IsSettled k (run_rounds keys b).1)
      unfolding rounds
      rounds-Change k [] b = inl (SameAt-refl k b)
      rounds-Change k (key ∷ keys) b =
          let (stop, b') = run_round key b in
          elim (Option-cases stop) [
            | inl e ↦
                rw (e, rounds)
                  (then-Change k key b b' (run_rounds keys b').1 keys (round-Change k key b)
                    (rounds-Change k keys b'))
            | inr (failure, e) ↦
                rw (e, rounds)
                  (then-Change k key b b' b' keys (round-Change k key b) (inl (SameAt-refl k b')))
          ]

      round_for-done :
          (key : String) (target : Dict Value) (reason : Option String) (b : Batch Inventory)
          → Settles key (round_for safe_error_text calls support key target reason b)
      unfolding round_for read_target
      round_for-done key target (some reason) b = λ done. failed-IsSettled key reason false b
      round_for-done key target none b =
          elim (Bool-cases (type_is_unsupported support (target_type target))) [
            | inl e ↦ rw e λ done. failed-IsSettled key "unsupported" true b
            | inr e ↦
                let (r, l) = calls.get_inventory_target target b.link in
                rw e (answered-done key r (record b { link = l }))
          ]

      round-done :
          (key : String) (target : Dict Value) (b : Batch Inventory)
          → lookup key listed ≡ some target
          → Settles key (run_round key b)
      unfolding round
      round-done key target b e =
          rw e (round_for-done key target (skip_reason (lookup key b.coordinator.skip_reasons)) b)

      round_at :
          (k key : String) (target : Dict Value) (b : Batch Inventory)
          → text_eq k key ≡ true
          → lookup k listed ≡ some target
          → Settles k (run_round key b)
      round_at k key target b same = rw ((eq_iff k key).0 same) (round-done key target b)

      pub later-done :
          (k : String) (keys : List String) (b : Batch Inventory)
          → IsSettled k b
          → IsSettled k (run_rounds keys b).1
      later-done k keys b h = elim (rounds-Change k keys b) [
        | inl same ↦ rw (same.0, same.1) h
        | inr settled ↦ settled.1
      ]

      -- A loop that is not stopped settles each target that it visits.
      pub rounds-done :
          (k : String) (target : Dict Value) (keys : List String) (b : Batch Inventory)
          → lookup k listed ≡ some target
          → in_texts k keys ≡ true
          → Settles k (run_rounds keys b)
      unfolding rounds
      rounds-done k target [] b e visited = ground arith
      rounds-done k target (key ∷ keys) b e visited =
          let (stop, b') = run_round key b in
          elim (Option-cases stop) [
            | inl go ↦
                rw (go, rounds)
                  (elim (Bool-cases (text_eq k key)) [
                    | inl at ↦ λ done. later-done k keys b' (round_at k key target b at e go)
                    | inr at ↦ rounds-done k target keys b' e (ground arith)
                  ])
            | inr (failure, stopped_by) ↦ rw (stopped_by, rounds) (λ done. ground arith)
          ]

      round-unlisted :
          (k key : String) (b : Batch Inventory)
          → lookup k listed ≡ none
          → SameAt k b (run_round key b).1
      unfolding round
      round-unlisted k key b e = elim (Option-cases (lookup key listed)) [
        | inl unlisted ↦ rw unlisted (refl, refl, refl)
        | inr (target, there) ↦ elim (round-Change k key b) [
          | inl same ↦ same
          | inr settled ↦ ground (arith, there, e, settled.0, eq_iff key k)
        ]
      ]

      -- The loop leaves what is known of a target without settings.
      pub rounds-unlisted :
          (k : String) (keys : List String) (b : Batch Inventory)
          → lookup k listed ≡ none
          → SameAt k b (run_rounds keys b).1
      unfolding rounds
      rounds-unlisted k [] b e = SameAt-refl k b
      rounds-unlisted k (key ∷ keys) b e =
          let (stop, b') = run_round key b in
          let h = round-unlisted k key b e in
          elim (Option-cases stop) [
            | inl go ↦
                let h' = rounds-unlisted k keys b' e in
                rw (go, rounds) (h'.0 ∙ h.0, h'.1 ∙ h.1, h'.2 ∙ h.2)
            | inr (failure, end) ↦ rw (end, rounds) h
          ]
