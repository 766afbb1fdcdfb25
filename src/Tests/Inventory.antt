-- ===== src/Tests/Inventory.antt =====
-- The theorems on the summary of an inventory, applied to a payload of two snapshots.
use ha_unifi_drive.Prelude.{
  ℕ, List, ◌++◌, ◌/◌, ◌≤◌, ◌≡◌, none, some, ltb, length, take, map, min, natural, decimal, pos_part,
  pos,
}
use ha_unifi_drive.Payload.{Value, int, str, list, dict, nil, cons, field, end}
use ha_unifi_drive.Snapshot.Inventory.{Times}
use ha_unifi_drive.Snapshot.Inventory.Heap.{HeapItem}
use ha_unifi_drive.Snapshot.Inventory.Heap.Sorted.{LatestFirst}
use mathlib.Core.List.{Perm}
use ha_unifi_drive.Snapshot.Inventory.Extract.{public_snapshot_item, extract_snapshot_inventory}
use ha_unifi_drive.Snapshot.Inventory.Extract.Laws.{in_order, dated_items, undated_items}
use ha_unifi_drive.Snapshot.Inventory.Extract.Recent.{
  found, extract_snapshot_inventory-recent, extract_snapshot_inventory-counts,
}
use ha_unifi_drive.Snapshot.Inventory.Extract.Latest.{head_of, extract_snapshot_inventory-latest}

-- Whole seconds only, and no dates.
abbrev whole_seconds : Times ℕ
whole_seconds = record {
  real_of_int = pos_part;
  real_of_float = λ x. pos_part x.trunc;
  real_of_text = natural;
  exceeds = λ t limit. ltb limit t;
  divided = λ t k. t / k;
  from_timestamp = λ t. some t;
  from_iso = λ s. none;
  iso_utc = decimal;
}

abbrev two_snapshots : Value
two_snapshots = dict (
    field "snapshots"
      (list (
        cons (dict (field "id" (str "a") (field "time" (int (pos 50)) end)))
          (cons (dict (field "id" (str "b") (field "time" (int (pos 70)) end))) nil)))
      (field "total" (int (pos 12)) end))

extract_snapshot_inventory-recent_example :
    (items : List HeapItem) × Perm items (dated_items 0 (found whole_seconds two_snapshots))
    × LatestFirst items
    × ((extract_snapshot_inventory whole_seconds two_snapshots).recent_snapshots
        ≡ take 10 (
            map public_snapshot_item
              (map (λ x. x.snapshot) items ++ undated_items (found whole_seconds two_snapshots))))
extract_snapshot_inventory-recent_example =
    extract_snapshot_inventory-recent whole_seconds two_snapshots

extract_snapshot_inventory-counts_example :
    let summary = extract_snapshot_inventory whole_seconds two_snapshots in
    (summary.returned_snapshot_count ≡ length (found whole_seconds two_snapshots))
    × (summary.recent_snapshot_count ≡ min summary.returned_snapshot_count 10)
    × (summary.locked_count ≤ summary.returned_snapshot_count)
    × (summary.snapshot_metadata_truncated ≡ summary.inventory_truncated)
extract_snapshot_inventory-counts_example =
    extract_snapshot_inventory-counts whole_seconds two_snapshots

extract_snapshot_inventory-latest_example :
    (extract_snapshot_inventory whole_seconds two_snapshots).latest
    ≡ head_of (in_order (found whole_seconds two_snapshots))
extract_snapshot_inventory-latest_example =
    extract_snapshot_inventory-latest whole_seconds two_snapshots
