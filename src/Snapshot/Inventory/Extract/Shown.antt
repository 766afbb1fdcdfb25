-- ===== src/Snapshot/Inventory/Extract/Shown.antt =====
-- What a summary shows of a count, as the front of one list, and how long it is.
use ha_unifi_drive.Prelude.{
  ℕ, zero, suc, ◌+◌, ◌-◌, ◌≤◌, ◌≡◌, refl, ap, ◌∙◌, List, [], ◌∷◌, ◌++◌, length, take, map, min,
  length-take, length-append, arith,
}
use ha_unifi_drive.Snapshot.Inventory.{Snapshot}
use ha_unifi_drive.Snapshot.Inventory.Heap.{HeapItem, preview_limit}
use ha_unifi_drive.Snapshot.Inventory.Extract.{Tally, public_snapshot_item, preview}
use ha_unifi_drive.Snapshot.Inventory.Extract.Laws.{Holds}

module _ {ℓ} {A : Type ℓ} where
  take-append :
      (n : ℕ) (l m : List A) → take n (l ++ m) ≡ take n l ++ take (n - length (take n l)) m
  take-append zero l m = refl
  take-append (suc n) [] m = let same : suc n ≡ suc n - 0 = omega arith in ap (λ k. take k m) same
  take-append (suc n) (a ∷ l) m =
      let same : n - length (take n l) ≡ suc n - suc (length (take n l)) = omega arith in
      ap (λ r. a ∷ r) (take-append n l m ∙ ap (λ k. take n l ++ take k m) same)

  take-take : (k n : ℕ) (l : List A) → k ≤ n → take k (take n l) ≡ take k l
  take-take zero n l h = refl
  take-take (suc k) zero l h = ground (arith, h)
  take-take (suc k) (suc n) [] h = refl
  take-take (suc k) (suc n) (a ∷ l) h = ap (λ r. a ∷ r) (take-take k n l (omega (arith, h)))

map-append : {A B : Type 0} (f : A → B) (l m : List A) → map f (l ++ m) ≡ map f l ++ map f m
map-append f [] m = refl
map-append f (a ∷ l) m = ap (λ r. f a ∷ r) (map-append f l m)

take-map : {A B : Type 0} (f : A → B) (n : ℕ) (l : List A) → take n (map f l) ≡ map f (take n l)
take-map f zero l = refl
take-map f (suc n) [] = refl
take-map f (suc n) (a ∷ l) = ap (λ r. f a ∷ r) (take-map f n l)

length-map : {A B : Type 0} (f : A → B) (l : List A) → length (map f l) ≡ length l
length-map f [] = refl
length-map f (a ∷ l) = ap suc (length-map f l)

-- A full list shown up to a limit, by parts.
preview-take :
    (n : ℕ) (all_dated : List HeapItem) (all_undated : List Snapshot)
    → map public_snapshot_item (map (λ x. x.snapshot) (take n all_dated))
        ++ map public_snapshot_item (take (n - length (take n all_dated)) (take n all_undated))
      ≡ take n (map public_snapshot_item (map (λ x. x.snapshot) all_dated ++ all_undated))
preview-take n all_dated all_undated =
    let snap = λ (x : HeapItem). x.snapshot in
    let shown = take n all_dated in
    rw
      (
        take-map public_snapshot_item n (map snap all_dated ++ all_undated),
        take-append n (map snap all_dated) all_undated,
        take-map snap n all_dated,
        length-map snap shown,
        take-take (n - length shown) n all_undated (omega arith),
        map-append public_snapshot_item (map snap shown) (take (n - length shown) all_undated),
      )
      refl

pub preview-first :
    (y : Tally) (all_dated : List HeapItem) (all_undated : List Snapshot)
    → Holds all_dated all_undated y
    → preview y
      ≡ take preview_limit
          (map public_snapshot_item (map (λ x. x.snapshot) all_dated ++ all_undated))
unfolding preview
preview-first y all_dated all_undated h =
    rw (h.dated, h.undated) (preview-take preview_limit all_dated all_undated)

all-length :
    (all_dated : List HeapItem) (all_undated : List Snapshot)
    → length (map public_snapshot_item (map (λ x. x.snapshot) all_dated ++ all_undated))
      ≡ length all_dated + length all_undated
all-length all_dated all_undated =
    let snap = λ (x : HeapItem). x.snapshot in
    length-map public_snapshot_item (map snap all_dated ++ all_undated)
    ∙ length-append (map snap all_dated) all_undated
    ∙ ap (λ n. n + length all_undated) (length-map snap all_dated)

pub shown-length :
    (y : Tally) (all_dated : List HeapItem) (all_undated : List Snapshot)
    → Holds all_dated all_undated y
    → length (preview y) ≡ min y.returned_count 10
shown-length y all_dated all_undated h =
    let l =
      map public_snapshot_item (map (λ (x : HeapItem). x.snapshot) all_dated ++ all_undated) in
    let n = all-length all_dated all_undated in
    let least : min preview_limit (length l) ≡ min y.returned_count 10 =
      omega (arith, n, h.count) in
    ap length (preview-first y all_dated all_undated h) ∙ length-take preview_limit l ∙ least
