-- ===== src/Snapshot/Inventory/Extract/Latest.antt =====
-- The latest snapshot of a summary is the first that it shows.
use ha_unifi_drive.Prelude.{
  ℕ, suc, ◌<◌, ◌≡◌, refl, ◌∙◌, Bool, true, false, Option, none, some, List, [], ◌∷◌, ◌++◌, ltb,
  length, map, arith, inl, inr, Option-cases, ◌or_else◌,
}
use ha_unifi_drive.Payload.{Value, as_dict}
use ha_unifi_drive.Snapshot.Inventory.{Times, Snapshot, snapshot_items, snapshot_item}
use ha_unifi_drive.Snapshot.Inventory.Heap.{preview_limit, HeapItem, push}
use ha_unifi_drive.Snapshot.Inventory.Heap.Laws.{sorted_items}
use ha_unifi_drive.Snapshot.Inventory.Extract.{
  Tally, no_tally, placed, noted, newer, tallied, summary, tally, snapshot_of,
  extract_snapshot_inventory,
}
use ha_unifi_drive.Snapshot.Inventory.Extract.Laws.{
  grown, snapshots, dated_items, undated_items, in_order, more_dated, more_undated,
}
use ha_unifi_drive.Snapshot.Inventory.Extract.Recent.{
  sorted-more, undated-more, append-nil, tallied-count, skipped, kept, not_counted, is_counted,
  found,
}

abbrev pub head_of {ℓ} : {A : Type ℓ} → List A → Option A
head_of [] = none
head_of (a ∷ l) = some a

-- The greatest dated snapshot, with its time.
abbrev greatest : List HeapItem → Option (ℕ × Snapshot)
greatest [] = none
greatest (x ∷ l) = some (x.created, x.snapshot)

-- It came before the place n.
abbrev IsBefore : ℕ → List HeapItem → Type 0
IsBefore n [] = Unit
IsBefore n (x ∷ l) = x.order < n

-- As long as none is dated, the first snapshot is the first undated one.
abbrev IsFirst : List HeapItem → List Snapshot → Option Snapshot → Type 0
IsFirst [] all_undated first = first ≡ head_of all_undated
IsFirst (x ∷ l) all_undated first = Unit

record Leads (all_dated : List HeapItem) (all_undated : List Snapshot) (y : Tally) : Type 0 where
  newest : y.newest ≡ greatest all_dated
  before : IsBefore y.returned_count all_dated
  first : IsFirst all_dated all_undated y.first_snapshot

newer-greatest :
    (x : HeapItem) (l : List HeapItem)
    → IsBefore x.order l
    → newer x.created x.snapshot (greatest l) ≡ greatest (push x l)
unfolding push
newer-greatest x [] h = refl
newer-greatest x (z ∷ zs) h = ground (arith, h)

push-IsBefore :
    (x : HeapItem) (l : List HeapItem) → IsBefore x.order l → IsBefore (suc x.order) (push x l)
unfolding push
push-IsBefore x [] h = omega arith
push-IsBefore x (z ∷ zs) h = ground (arith, h)

push-IsFirst :
    (x : HeapItem) (l : List HeapItem) (all_undated : List Snapshot) (first : Option Snapshot)
    → IsFirst (push x l) all_undated first
unfolding push
push-IsFirst x [] all_undated first = tt
push-IsFirst x (z ∷ zs) all_undated first = ground arith

grown-newest : (b : Bool) (s : Snapshot) (y : Tally) → (grown b s y).newest ≡ y.newest
grown-newest true s y = refl
grown-newest false s y = refl

IsBefore-suc : (n : ℕ) (l : List HeapItem) → IsBefore n l → IsBefore (suc n) l
IsBefore-suc n [] h = tt
IsBefore-suc n (x ∷ l) h = omega (arith, h)

IsFirst-more :
    (l : List HeapItem) (all_undated : List Snapshot) (s : Snapshot) (first : Option Snapshot)
    → IsFirst l all_undated first
    → IsFirst l (all_undated ++ (s ∷ [])) (first or_else some s)
IsFirst-more (x ∷ l) all_undated s first h = tt
IsFirst-more [] [] s first h = rw h refl
IsFirst-more [] (u ∷ us) s first h = rw h refl

noted-Leads :
    (m : Option ℕ) (s : Snapshot) (all_dated : List HeapItem) (all_undated : List Snapshot)
    (y : Tally)
    → Leads all_dated all_undated y
    → Leads
        (more_dated y.returned_count s m all_dated)
        (more_undated s m all_undated)
        (noted s y (placed m s y))
unfolding placed
noted-Leads (some t) s all_dated all_undated y h =
    let x : HeapItem = record { created = t; order = y.returned_count; snapshot = s } in
    record {
      newest = rw h.newest (newer-greatest x all_dated h.before);
      before = push-IsBefore x all_dated h.before;
      first = push-IsFirst x all_dated all_undated (y.first_snapshot or_else some s);
    }
noted-Leads none s all_dated all_undated y h = record {
  newest = grown-newest (ltb (length y.undated) preview_limit) s y ∙ h.newest;
  before = IsBefore-suc y.returned_count all_dated h.before;
  first = IsFirst-more all_dated all_undated s y.first_snapshot h.first;
}

tallied-Leads :
    (s : Snapshot) (all_dated : List HeapItem) (all_undated : List Snapshot) (y : Tally)
    → Leads all_dated all_undated y
    → Leads
        (more_dated y.returned_count s s.created all_dated)
        (more_undated s s.created all_undated)
        (tallied s y)
unfolding tallied
tallied-Leads s all_dated all_undated y h = noted-Leads s.created s all_dated all_undated y h

tally-Leads :
    {Real : Type 0} (times : Times Real) (vs : List Value) (all_dated : List HeapItem)
    (all_undated : List Snapshot) (y : Tally)
    → Leads all_dated all_undated y
    → let ss = snapshots times vs in
      Leads
        (sorted_items (dated_items y.returned_count ss) all_dated)
        (all_undated ++ undated_items ss)
        (tally times vs y)
unfolding tally
tally-Leads times [] all_dated all_undated y h = rw (append-nil all_undated) h
tally-Leads times (v ∷ vs) all_dated all_undated y h = elim (Option-cases (as_dict v)) [
  | inl e ↦
      rw (skipped times v vs e, not_counted times v y e)
        (tally-Leads times vs all_dated all_undated y h)
  | inr (d, e) ↦
      let s = snapshot_item times d in
      let n = y.returned_count in
      let ss = snapshots times vs in
      rw
        (
          kept times v vs d e,
          is_counted times v d y e,
          ← tallied-count s y,
          sorted-more n s s.created (dated_items (suc n) ss) all_dated,
          undated-more s s.created (undated_items ss) all_undated,
        )
        (tally-Leads times vs (more_dated n s s.created all_dated)
          (more_undated s s.created all_undated) (tallied s y)
          (tallied-Leads s all_dated all_undated y h))
]

leads-head :
    (all_dated : List HeapItem) (all_undated : List Snapshot) (first : Option Snapshot)
    → IsFirst all_dated all_undated first
    → (snapshot_of (greatest all_dated) or_else first)
      ≡ head_of (map (λ x. x.snapshot) all_dated ++ all_undated)
leads-head [] all_undated first h = h
leads-head (x ∷ l) all_undated first h = refl

-- The latest snapshot of a summary is the first of all that the payload holds, in the order in which
-- they are shown, and there is none where it holds none.
pub extract_snapshot_inventory-latest :
    {Real : Type 0} (times : Times Real) (payload : Value)
    → (extract_snapshot_inventory times payload).latest ≡ head_of (in_order (found times payload))
unfolding extract_snapshot_inventory summary
extract_snapshot_inventory-latest times payload =
    let ss = found times payload in
    let y = tally times (snapshot_items payload) no_tally in
    let h =
      tally-Leads times (snapshot_items payload) [] [] no_tally
        (record { newest = refl; before = tt; first = refl }) in
    rw h.newest
      (leads-head (sorted_items (dated_items 0 ss) []) (undated_items ss) y.first_snapshot h.first)
