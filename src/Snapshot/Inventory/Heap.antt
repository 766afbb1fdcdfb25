-- ===== src/Snapshot/Inventory/Heap.antt =====
-- snapshot_inventory.py: the bounded heap of the latest snapshots, as the list of its items, the
-- greatest first, so that `heap[0]`, the least item, is the last one.
pub mod Laws
pub mod Sorted
use ha_unifi_drive.Prelude.{
  ℕ, Bool, true, false, ◌&&◌, ◌||◌, Option, none, some, List, [], ◌∷◌, ltb, ◌==◌, length,
  if◌then◌else◌,
}
use ha_unifi_drive.Snapshot.Inventory.{Snapshot}

-- `SNAPSHOT_INVENTORY_PREVIEW_LIMIT`
abbrev pub preview_limit : ℕ
preview_limit = 10

-- `heap_item`
pub record HeapItem : Type 0 where
  pub created : ℕ
  pub order : ℕ
  pub snapshot : Snapshot

-- `a > b` of `(created, -order, order, snapshot)`, for items of different orders.
abbrev pub greater : HeapItem → HeapItem → Bool
greater a b = ltb b.created a.created || (a.created == b.created && ltb a.order b.order)

-- `heappush`
unfoldable pub push : HeapItem → List HeapItem → List HeapItem
push x [] = x ∷ []
push x (y ∷ ys) = let rest = push x ys in if greater x y then x ∷ y ∷ ys else y ∷ rest

-- `heap[0]`
unfoldable pub least : List HeapItem → Option HeapItem
least [] = none
least (y ∷ []) = some y
least (y ∷ z ∷ zs) = least (z ∷ zs)

-- The heap without it.
unfoldable pub without_least : List HeapItem → List HeapItem
without_least [] = []
without_least (y ∷ []) = []
without_least (y ∷ z ∷ zs) = y ∷ without_least (z ∷ zs)

abbrev beats : HeapItem → Option HeapItem → Bool
beats x none = false
beats x (some y) = greater x y

-- The step of the loop: `heappush` below the limit, then `heapreplace` if the item beats the least.
unfoldable pub offer : ℕ → HeapItem → List HeapItem → List HeapItem
unfolding push least without_least
offer limit x heap =
    if ltb (length heap) limit
    then push x heap
    else if beats x (least heap)
    then push x (without_least heap)
    else heap
