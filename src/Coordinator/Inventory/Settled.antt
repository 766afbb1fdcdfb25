-- ===== src/Coordinator/Inventory/Settled.antt =====
-- When a target of a batch is settled, and what noting a result changes.
use ha_unifi_drive.Prelude.{
  String, ◌≡◌, refl, sym, ◌⊎◌, inl, inr, Bool, true, false, not, Option, none, lookup, insert,
  lookup-insert, lookup-remove, text_eq, eq_iff, eq_refl, arith, is_some, Bool-cases,
}
use ha_unifi_drive.Coordinator.{Failure}
use ha_unifi_drive.Coordinator.Inventory.{Batch, round_done, failed_for, summarised}

module _ {Inventory : Type 0} where
  -- A target has a summary or an error, not both.
  abbrev pub IsSettled : String → Batch Inventory → Type 0
  IsSettled k b = is_some (lookup k b.summaries) ≡ not (is_some (lookup k b.errors))

  -- If nothing stops the loop here, the target is settled.
  abbrev pub Settles : String → Option Failure × Batch Inventory → Type 0
  Settles k (stop, b) = stop ≡ none → IsSettled k b

  -- What is known of a target.
  abbrev pub SameAt : String → Batch Inventory → Batch Inventory → Type 0
  SameAt k b b' =
      (lookup k b'.summaries ≡ lookup k b.summaries)
      × (lookup k b'.errors ≡ lookup k b.errors)
      × (lookup k b'.coordinator.skip_reasons ≡ lookup k b.coordinator.skip_reasons)

  pub SameAt-refl : (k : String) (b : Batch Inventory) → SameAt k b b
  SameAt-refl k b = (refl, refl, refl)

  pub failed-IsSettled :
      (key reason : String) (sticky : Bool) (b : Batch Inventory)
      → IsSettled key (round_done key (failed_for key reason sticky b))
  unfolding round_done
  failed-IsSettled key reason sticky b =
      ground (
        arith,
        lookup-insert key key reason b.errors,
        lookup-remove key key b.summaries,
        eq_refl key,
      )

  pub failed-SameAt :
      (k key reason : String) (sticky : Bool) (b : Batch Inventory)
      → text_eq key k ≡ false
      → SameAt k b (round_done key (failed_for key reason sticky b))
  unfolding round_done
  failed-SameAt k key reason sticky b e = ground (
    arith,
    lookup-insert key k reason b.errors,
    lookup-remove key k b.summaries,
    lookup-insert key k reason b.coordinator.skip_reasons,
  )

  pub summarised-IsSettled :
      (key : String) (summary : Inventory) (b : Batch Inventory)
      → IsSettled key (round_done key (summarised key summary b))
  unfolding round_done
  summarised-IsSettled key summary b = ground (
    arith,
    lookup-insert key key summary b.summaries,
    lookup-remove key key b.errors,
    eq_refl key,
  )

  pub summarised-SameAt :
      (k key : String) (summary : Inventory) (b : Batch Inventory)
      → text_eq key k ≡ false
      → SameAt k b (round_done key (summarised key summary b))
  unfolding round_done
  summarised-SameAt k key summary b e = ground (
    arith,
    lookup-insert key k summary b.summaries,
    lookup-remove key k b.errors,
    lookup-remove key k (insert key summary b.summaries),
    lookup-remove key k b.coordinator.skip_reasons,
  )

  -- A round leaves what is known of a target, or it is the round of the target and settles it.
  abbrev pub Change : String → String → Batch Inventory → Batch Inventory → Type 0
  Change k key b b' = SameAt k b b' ⊎ ((text_eq key k ≡ true) × IsSettled k b')

  pub Change-at :
      (k key : String) (b b' : Batch Inventory)
      → (text_eq key k ≡ false → SameAt k b b')
      → IsSettled key b'
      → Change k key b b'
  Change-at k key b b' others settled = elim (Bool-cases (text_eq key k)) [
    | inl e ↦ inr (e, rw (sym ((eq_iff key k).0 e)) settled)
    | inr e ↦ inl (others e)
  ]

  pub failed-Change :
      (k key reason : String) (sticky : Bool) (b : Batch Inventory)
      → Change k key b (round_done key (failed_for key reason sticky b))
  failed-Change k key reason sticky b =
      Change-at k key b (round_done key (failed_for key reason sticky b))
        (failed-SameAt k key reason sticky b) (failed-IsSettled key reason sticky b)
