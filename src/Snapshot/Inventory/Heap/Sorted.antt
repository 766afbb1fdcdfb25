-- ===== src/Snapshot/Inventory/Heap/Sorted.antt =====
-- The full sorted list: its items are those given, the latest first, and those of one time in the
-- order of their places.
use ha_unifi_drive.Prelude.{
  ◌<◌, ◌≤◌, ◌≡◌, ◌⊎◌, inl, inr, refl, false, List, [], ◌∷◌, ◌++◌, arith, Bool-cases,
}
use mathlib.Core.List.{Perm, perm_middle}
use mathlib.Core.List.Perm
use ha_unifi_drive.Snapshot.Inventory.Heap.{HeapItem, greater, push}
use ha_unifi_drive.Snapshot.Inventory.Heap.Laws.{Descending, push-Descending, sorted_items}

-- An item before another one: it is later, or as late and at no later place.
abbrev pub IsShownBefore : HeapItem → HeapItem → Type 0
IsShownBefore y z = (z.created < y.created) ⊎ ((z.created ≡ y.created) × (y.order ≤ z.order))

abbrev pub LatestFirst : List HeapItem → Type 0
LatestFirst [] = Unit
LatestFirst (y ∷ []) = Unit
LatestFirst (y ∷ z ∷ zs) = IsShownBefore y z × LatestFirst (z ∷ zs)

not_greater-IsShownBefore : (y z : HeapItem) → greater z y ≡ false → IsShownBefore y z
not_greater-IsShownBefore y z h = ground (arith, h)

Descending-LatestFirst : (l : List HeapItem) → Descending l → LatestFirst l
Descending-LatestFirst [] h = tt
Descending-LatestFirst (y ∷ []) h = tt
Descending-LatestFirst (y ∷ z ∷ zs) h =
    (not_greater-IsShownBefore y z h.0, Descending-LatestFirst (z ∷ zs) h.1)

sorted_items-Descending : (xs l : List HeapItem) → Descending l → Descending (sorted_items xs l)
sorted_items-Descending [] l h = h
sorted_items-Descending (x ∷ xs) l h = sorted_items-Descending xs (push x l) (push-Descending x l h)

push-Perm : (x : HeapItem) (l : List HeapItem) → Perm (push x l) (x ∷ l)
unfolding push
push-Perm x [] = Perm.refl (x ∷ [])
push-Perm x (y ∷ l) = elim (Bool-cases (greater x y)) [
  | inl e ↦ rw e (Perm.refl (x ∷ y ∷ l))
  | inr e ↦ rw e (Perm.trans (Perm.cons y (push-Perm x l)) (Perm.swap x y l))
]

sorted_items-Perm : (xs l : List HeapItem) → Perm (sorted_items xs l) (xs ++ l)
sorted_items-Perm [] l = Perm.refl l
sorted_items-Perm (x ∷ xs) l =
    Perm.trans (sorted_items-Perm xs (push x l))
      (Perm.trans (Perm.append_left xs (push-Perm x l)) (perm_middle xs l))

append-nil : (xs : List HeapItem) → xs ++ [] ≡ xs
append-nil [] = refl
append-nil (x ∷ xs) = λ i. x ∷ append-nil xs i

pub sorted_items-LatestFirst :
    (xs : List HeapItem) → Perm (sorted_items xs []) xs × LatestFirst (sorted_items xs [])
sorted_items-LatestFirst xs = (
  rw (append-nil xs) at (sorted_items-Perm xs []),
  Descending-LatestFirst (sorted_items xs []) (sorted_items-Descending xs [] tt),
)
