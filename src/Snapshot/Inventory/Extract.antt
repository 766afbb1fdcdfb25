-- ===== src/Snapshot/Inventory/Extract.antt =====
-- snapshot_inventory.py: the loop over the snapshots of a payload, and the summary.
pub mod Laws
pub mod Shown
pub mod Recent
pub mod Latest
use ha_unifi_drive.Prelude.{
  ℕ, suc, ◌+◌, ◌-◌, String, Bool, true, false, not, Option, none, some, List, [], ◌∷◌, ◌++◌, Dict,
  ltb, length, take, map, min, if◌then◌else◌, ◌or_else◌,
}
use ha_unifi_drive.Payload.{Value, as_dict}
use ha_unifi_drive.Snapshot.Inventory.{
  Times, Snapshot, snapshot_items, snapshot_item, collection_int, total_keys, offset_keys,
  limit_keys,
}
use ha_unifi_drive.Snapshot.Inventory.Heap.{HeapItem, preview_limit, offer}

-- The local variables of `extract_snapshot_inventory`; a snapshot stands beside its time.
pub record Tally : Type 0 where
  pub returned_count : ℕ
  pub locked_count : ℕ
  pub first_snapshot : Option Snapshot
  pub last_snapshot : Option Snapshot
  pub newest : Option (ℕ × Snapshot)
  pub oldest : Option (ℕ × Snapshot)
  pub dated : List HeapItem
  pub undated : List Snapshot

abbrev pub no_tally : Tally
no_tally = record {
  returned_count = 0;
  locked_count = 0;
  first_snapshot = none;
  last_snapshot = none;
  newest = none;
  oldest = none;
  dated = [];
  undated = [];
}

abbrev pub is_locked : Snapshot → Bool
is_locked s = elim s.locked [ none ↦ false | some b ↦ b ]

-- A snapshot takes a place from one that is earlier, or later, than it.
abbrev pub newer : ℕ → Snapshot → Option (ℕ × Snapshot) → Option (ℕ × Snapshot)
newer t s none = some (t, s)
newer t s (some (u, r)) = if ltb u t then some (t, s) else some (u, r)

abbrev pub older : ℕ → Snapshot → Option (ℕ × Snapshot) → Option (ℕ × Snapshot)
older t s none = some (t, s)
older t s (some (u, r)) = if ltb t u then some (t, s) else some (u, r)

-- The part of a round that depends on whether the snapshot has a time.
unfoldable pub placed : Option ℕ → Snapshot → Tally → Tally
unfolding offer
placed (some t) s y = record y {
  newest = newer t s y.newest;
  oldest = older t s y.oldest;
  dated =
      offer preview_limit (record { created = t; order = y.returned_count; snapshot = s }) y.dated;
}
placed none s y =
    if ltb (length y.undated) preview_limit then record y { undated = y.undated ++ (s ∷ []) } else y

-- The rest of the round, which counts the snapshot.
abbrev pub noted : Snapshot → Tally → Tally → Tally
noted s y y' = record y' {
  returned_count = suc y.returned_count;
  locked_count = if is_locked s then suc y.locked_count else y.locked_count;
  first_snapshot = y.first_snapshot or_else some s;
  last_snapshot = some s;
}

unfoldable pub tallied : Snapshot → Tally → Tally
unfolding placed
tallied s y = noted s y (placed s.created s y)

-- What is shown of a snapshot: `_public_snapshot_item`.
pub record PublicSnapshot : Type 0 where
  pub id : Option String
  pub name : Option String
  pub description : Option String
  pub locked : Option Bool
  pub created_at : Option String

unfoldable pub public_snapshot_item : Snapshot → PublicSnapshot
public_snapshot_item s = record {
  id = s.id;
  name = s.name;
  description = s.description;
  locked = s.locked;
  created_at = s.created_at;
}

-- The summary, with the newest and the oldest snapshot in place of their four fields each.
pub record Inventory : Type 0 where
  pub snapshot_count : ℕ
  pub counted_by_total : Bool
  pub returned_snapshot_count : ℕ
  pub locked_count : ℕ
  pub inventory_total : Option ℕ
  pub inventory_offset : Option ℕ
  pub inventory_limit : Option ℕ
  pub latest : Option Snapshot
  pub oldest : Option Snapshot
  pub snapshot_ids : List String
  pub snapshot_names : List String
  pub snapshot_descriptions : List String
  pub snapshot_metadata_truncated : Bool
  pub recent_snapshots : List PublicSnapshot
  pub recent_snapshot_count : ℕ
  pub inventory_truncated : Bool

abbrev pub or_count : Option ℕ → ℕ → ℕ
or_count none n = n
or_count (some total) n = total

abbrev has_total : Option ℕ → Bool
has_total none = false
has_total (some total) = true

abbrev pub snapshot_of : Option (ℕ × Snapshot) → Option Snapshot
snapshot_of none = none
snapshot_of (some (t, s)) = some s

-- `[item[field] for item in preview if isinstance(item.get(field), str)]`
unfoldable pub texts : (PublicSnapshot → Option String) → List PublicSnapshot → List String
texts field [] = []
texts field (p ∷ ps) =
    let rest = texts field ps in elim (field p) [ none ↦ rest | some s ↦ s ∷ rest ]

-- The preview: the dated snapshots, the latest first, and then undated ones.
unfoldable pub preview : Tally → List PublicSnapshot
unfolding public_snapshot_item
preview y =
    map public_snapshot_item (map (λ x. x.snapshot) y.dated)
    ++ map public_snapshot_item (take (preview_limit - length y.dated) y.undated)

unfoldable pub summary : Value → Tally → Inventory
unfolding preview texts
summary payload y =
    let total = collection_int payload total_keys in
    let count = or_count total y.returned_count in
    let shown = preview y in
    record {
      snapshot_count = count;
      counted_by_total = has_total total;
      returned_snapshot_count = y.returned_count;
      locked_count = y.locked_count;
      inventory_total = total;
      inventory_offset = collection_int payload offset_keys;
      inventory_limit = collection_int payload limit_keys;
      latest = snapshot_of y.newest or_else y.first_snapshot;
      oldest = snapshot_of y.oldest or_else y.last_snapshot;
      snapshot_ids = texts (λ p. p.id) shown;
      snapshot_names = texts (λ p. p.name) shown;
      snapshot_descriptions = texts (λ p. p.description) shown;
      snapshot_metadata_truncated = ltb (length shown) count;
      recent_snapshots = shown;
      recent_snapshot_count = length shown;
      inventory_truncated = ltb (min y.returned_count preview_limit) count;
    }

module _ {Real : Type 0} (times : Times Real) where
  -- A round of the loop: what is no dict is passed over.
  unfoldable pub counted : Value → Tally → Tally
  unfolding tallied
  counted raw_item y = elim (as_dict raw_item) [
    | none ↦ y
    | some d ↦ tallied (snapshot_item times d) y
  ]

  unfoldable pub tally : List Value → Tally → Tally
  unfolding counted
  tally [] y = y
  tally (raw_item ∷ raw_items) y = tally raw_items (counted raw_item y)

  -- `extract_snapshot_inventory`
  unfoldable pub extract_snapshot_inventory : Value → Inventory
  unfolding tally summary
  extract_snapshot_inventory payload = summary payload (tally (snapshot_items payload) no_tally)
