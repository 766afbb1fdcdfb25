-- ===== src/Snapshot/Inventory/Extract/Recent.antt =====
-- The snapshots that a summary shows, against a reference that keeps and sorts all of them.
use ha_unifi_drive.Prelude.{
  ℕ, suc, ◌+◌, ◌≤◌, ◌≡◌, refl, ap, Option, none, some, List, [], ◌∷◌, ◌++◌, Dict, ltb, length, take,
  map, min, arith, inl, inr, Option-cases,
}
use ha_unifi_drive.Payload.{Value, as_dict}
use ha_unifi_drive.Snapshot.Inventory.{
  Times, Snapshot, snapshot_items, snapshot_item, collection_int, total_keys,
}
use ha_unifi_drive.Snapshot.Inventory.Heap.{HeapItem}
use ha_unifi_drive.Snapshot.Inventory.Heap.Laws.{sorted_items}
use ha_unifi_drive.Snapshot.Inventory.Heap.Sorted.{LatestFirst, sorted_items-LatestFirst}
use mathlib.Core.List.{Perm}
use ha_unifi_drive.Snapshot.Inventory.Extract.{
  Tally, no_tally, tallied, public_snapshot_item, preview, summary, counted, tally,
  extract_snapshot_inventory, or_count,
}
use ha_unifi_drive.Snapshot.Inventory.Extract.Laws.{
  length-push, snapshots, dated_as, dated_items, undated_as, undated_items, Holds, more_dated,
  more_undated, noted-Holds,
}
use ha_unifi_drive.Snapshot.Inventory.Extract.Shown.{preview-first, shown-length}

pub sorted-more :
    (n : ℕ) (s : Snapshot) (m : Option ℕ) (items l : List HeapItem)
    → sorted_items (dated_as n s m items) l ≡ sorted_items items (more_dated n s m l)
sorted-more n s none items l = refl
sorted-more n s (some t) items l = refl

append-assoc-one :
    (l : List Snapshot) (s : Snapshot) (ss : List Snapshot) → l ++ (s ∷ ss) ≡ (l ++ (s ∷ [])) ++ ss
append-assoc-one [] s ss = refl
append-assoc-one (x ∷ l) s ss = ap (λ r. x ∷ r) (append-assoc-one l s ss)

pub undated-more :
    (s : Snapshot) (m : Option ℕ) (ss l : List Snapshot)
    → l ++ undated_as s m ss ≡ more_undated s m l ++ ss
undated-more s none ss l = append-assoc-one l s ss
undated-more s (some t) ss l = refl

pub append-nil : (l : List Snapshot) → l ++ [] ≡ l
append-nil [] = refl
append-nil (x ∷ l) = ap (λ r. x ∷ r) (append-nil l)

module _ {Real : Type 0} (times : Times Real) where
  pub skipped :
      (v : Value) (vs : List Value)
      → as_dict v ≡ none
      → snapshots times (v ∷ vs) ≡ snapshots times vs
  skipped v vs e = rw (e, snapshots) refl

  pub kept :
      (v : Value) (vs : List Value) (d : Dict Value)
      → as_dict v ≡ some d
      → snapshots times (v ∷ vs) ≡ snapshot_item times d ∷ snapshots times vs
  kept v vs d e = rw (e, snapshots) refl

  pub not_counted : (v : Value) (y : Tally) → as_dict v ≡ none → counted times v y ≡ y
  unfolding counted
  not_counted v y e = rw (e, counted) refl

  pub is_counted :
      (v : Value) (d : Dict Value) (y : Tally)
      → as_dict v ≡ some d
      → counted times v y ≡ tallied (snapshot_item times d) y
  unfolding counted
  is_counted v d y e = rw (e, counted) refl

pub tallied-count : (s : Snapshot) (y : Tally) → (tallied s y).returned_count ≡ suc y.returned_count
unfolding tallied
tallied-count s y = refl

tallied-Holds :
    (s : Snapshot) (all_dated : List HeapItem) (all_undated : List Snapshot) (y : Tally)
    → Holds all_dated all_undated y
    → Holds
        (more_dated y.returned_count s s.created all_dated)
        (more_undated s s.created all_undated)
        (tallied s y)
unfolding tallied
tallied-Holds s all_dated all_undated y h = noted-Holds s.created s all_dated all_undated y h

tally-Holds :
    {Real : Type 0} (times : Times Real) (vs : List Value) (all_dated : List HeapItem)
    (all_undated : List Snapshot) (y : Tally)
    → Holds all_dated all_undated y
    → let ss = snapshots times vs in
      Holds
        (sorted_items (dated_items y.returned_count ss) all_dated)
        (all_undated ++ undated_items ss)
        (tally times vs y)
unfolding tally
tally-Holds times [] all_dated all_undated y h = rw (append-nil all_undated) h
tally-Holds times (v ∷ vs) all_dated all_undated y h = elim (Option-cases (as_dict v)) [
  | inl e ↦
      rw (skipped times v vs e, not_counted times v y e)
        (tally-Holds times vs all_dated all_undated y h)
  | inr (d, e) ↦
      let s = snapshot_item times d in
      let n = y.returned_count in
      let ss = snapshots times vs in
      rw
        (
          kept times v vs d e,
          is_counted times v d y e,
          ← tallied-count s y,
          sorted-more n s s.created (dated_items (suc n) ss) all_dated,
          undated-more s s.created (undated_items ss) all_undated,
        )
        (tally-Holds times vs (more_dated n s s.created all_dated)
          (more_undated s s.created all_undated) (tallied s y)
          (tallied-Holds s all_dated all_undated y h))
]

dated-undated :
    (n : ℕ) (s : Snapshot) (m : Option ℕ) (ss : List Snapshot) (l : List HeapItem)
    → length (more_dated n s m l) + length (undated_as s m ss) ≡ suc (length l + length ss)
dated-undated n s none ss l = omega arith
dated-undated n s (some t) ss l =
    omega (arith, length-push (record { created = t; order = n; snapshot = s }) l)

undated_as-length :
    (s : Snapshot) (m : Option ℕ) (ss : List Snapshot)
    → length (undated_as s m ss) ≡ length (undated_as s m []) + length ss
undated_as-length s none ss = omega arith
undated_as-length s (some t) ss = omega arith

-- Each snapshot is dated or not.
partition-length :
    (n : ℕ) (ss : List Snapshot) (l : List HeapItem)
    → length (sorted_items (dated_items n ss) l) + length (undated_items ss) ≡ length l + length ss
partition-length n [] l = refl
partition-length n (s ∷ ss) l = rw (sorted-more n s s.created (dated_items (suc n) ss) l) (
    omega (
      arith,
      partition-length (suc n) ss (more_dated n s s.created l),
      undated_as-length s s.created (undated_items ss),
      dated-undated n s s.created [] l,
    ))

module _ {Real : Type 0} (times : Times Real) where
  no_tally-Holds : Holds [] [] no_tally
  no_tally-Holds = record {
    sorted = tt;
    dated = refl;
    undated = refl;
    count = refl;
    locked = omega arith;
  }

  abbrev pub found : Value → List Snapshot
  found payload = snapshots times (snapshot_items payload)

  extracted-Holds :
      (payload : Value)
      → Holds
          (sorted_items (dated_items 0 (found payload)) [])
          (undated_items (found payload))
          (tally times (snapshot_items payload) no_tally)
  extracted-Holds payload = tally-Holds times (snapshot_items payload) [] [] no_tally no_tally-Holds

  -- The snapshots that a summary shows are the first ten of all that the payload holds, where those
  -- with a readable time come first, the latest of them first and equal times in the order of the
  -- payload, and then the others in the order of the payload: the dated snapshots have such an order,
  -- each of them once.
  pub extract_snapshot_inventory-recent :
      (payload : Value)
      → (items : List HeapItem) × Perm items (dated_items 0 (found payload))
        × LatestFirst items
        × ((extract_snapshot_inventory times payload).recent_snapshots
            ≡ take 10 (
                map public_snapshot_item
                  (map (λ x. x.snapshot) items ++ undated_items (found payload))))
  unfolding extract_snapshot_inventory summary
  extract_snapshot_inventory-recent payload =
      let dated = dated_items 0 (found payload) in
      let (same, ordered) = sorted_items-LatestFirst dated in
      (
        sorted_items dated [],
        same,
        ordered,
        preview-first (tally times (snapshot_items payload) no_tally) (sorted_items dated [])
            (undated_items (found payload)) (extracted-Holds payload),
      )

  -- A summary counts the snapshots that the payload returns; it shows ten of them or all, whichever
  -- is less; no more of them are locked than are returned; and its two marks of truncation agree.
  pub extract_snapshot_inventory-counts :
      (payload : Value)
      → let summary = extract_snapshot_inventory times payload in
        (summary.returned_snapshot_count ≡ length (found payload))
        × (summary.recent_snapshot_count ≡ min summary.returned_snapshot_count 10)
        × (summary.locked_count ≤ summary.returned_snapshot_count)
        × (summary.snapshot_metadata_truncated ≡ summary.inventory_truncated)
  unfolding extract_snapshot_inventory summary
  extract_snapshot_inventory-counts payload =
      let ss = found payload in
      let h = extracted-Holds payload in
      let y = tally times (snapshot_items payload) no_tally in
      let total = partition-length 0 ss [] in
      let shown : length (preview y) ≡ min y.returned_count 10 =
        shown-length y (sorted_items (dated_items 0 ss) []) (undated_items ss) h in
      (
        omega (arith, h.count, total),
        shown,
        h.locked,
        ap (λ n. ltb n (or_count (collection_int payload total_keys) y.returned_count)) shown,
      )
