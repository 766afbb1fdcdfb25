-- ===== src/Snapshot/Inventory/Extract/Laws.antt =====
-- The summary against a reference that keeps every snapshot.
use ha_unifi_drive.Prelude.{
  ℕ, zero, suc, ◌+◌, ◌≤◌, ◌≡◌, refl, sym, ◌∙◌, Bool, true, false, Option, none, some, List, [], ◌∷◌,
  ◌++◌, ltb, length, take, map, length-append, arith, if◌then◌else◌,
}
use ha_unifi_drive.Payload.{Value, as_dict}
use ha_unifi_drive.Snapshot.Inventory.{Times, Snapshot, snapshot_item}
use ha_unifi_drive.Snapshot.Inventory.Heap.{HeapItem, preview_limit, push}
use ha_unifi_drive.Snapshot.Inventory.Heap.Laws.{
  Descending, push-Descending, take-push, sorted_items,
}
use ha_unifi_drive.Snapshot.Inventory.Extract.{Tally, is_locked, placed, noted}

-- The snapshots of the items that are dicts.
abbrev pub snapshots : {Real : Type 0} → Times Real → List Value → List Snapshot
snapshots times [] = []
snapshots times (v ∷ vs) = elim (as_dict v) [
  | none ↦ snapshots times vs
  | some d ↦ snapshot_item times d ∷ snapshots times vs
]

-- Those with a time, with their places, and those without.
abbrev pub dated_as : ℕ → Snapshot → Option ℕ → List HeapItem → List HeapItem
dated_as n s none items = items
dated_as n s (some t) items = record { created = t; order = n; snapshot = s } ∷ items

abbrev pub dated_items : ℕ → List Snapshot → List HeapItem
dated_items n [] = []
dated_items n (s ∷ ss) = dated_as n s s.created (dated_items (suc n) ss)

abbrev pub undated_as : Snapshot → Option ℕ → List Snapshot → List Snapshot
undated_as s none ss = s ∷ ss
undated_as s (some t) ss = ss

abbrev pub undated_items : List Snapshot → List Snapshot
undated_items [] = []
undated_items (s ∷ ss) = undated_as s s.created (undated_items ss)

-- The whole list of the snapshots, the dated ones first, the latest of them first.
abbrev pub in_order : List Snapshot → List Snapshot
in_order ss = map (λ x. x.snapshot) (sorted_items (dated_items 0 ss) []) ++ undated_items ss

-- What a tally holds of all the dated and all the undated snapshots so far.
pub record Holds (all_dated : List HeapItem) (all_undated : List Snapshot) (y : Tally)
    : Type 0 where
  pub sorted : Descending all_dated
  pub dated : y.dated ≡ take preview_limit all_dated
  pub undated : y.undated ≡ take preview_limit all_undated
  pub count : y.returned_count ≡ length all_dated + length all_undated
  pub locked : y.locked_count ≤ y.returned_count

pub length-push : (x : HeapItem) (l : List HeapItem) → length (push x l) ≡ suc (length l)
unfolding push
length-push x [] = refl
length-push x (y ∷ l) = ground (arith, length-push x l)

module _ {ℓ} {A : Type ℓ} where
  take-append-one :
      (n : ℕ) (l : List A) (a : A)
      → take n (l ++ (a ∷ []))
        ≡ (if ltb (length (take n l)) n then take n l ++ (a ∷ []) else take n l)
  take-append-one zero l a = refl
  take-append-one (suc n) [] a = ground (arith, no_more n)
    where
      no_more : (k : ℕ) → take {A = A} k [] ≡ []
      no_more zero = refl
      no_more (suc k) = refl
  take-append-one (suc n) (b ∷ l) a = ground (arith, take-append-one n l a)

-- With one more snapshot.
abbrev pub more_dated : ℕ → Snapshot → Option ℕ → List HeapItem → List HeapItem
more_dated n s none l = l
more_dated n s (some t) l = push (record { created = t; order = n; snapshot = s }) l

abbrev pub more_undated : Snapshot → Option ℕ → List Snapshot → List Snapshot
more_undated s none l = l ++ (s ∷ [])
more_undated s (some t) l = l

-- A tally with one more undated snapshot, if there is room.
abbrev pub grown : Bool → Snapshot → Tally → Tally
grown b s y = if b then record y { undated = y.undated ++ (s ∷ []) } else y

grown-fields :
    (b : Bool) (s : Snapshot) (y : Tally)
    → ((grown b s y).dated ≡ y.dated)
      × ((grown b s y).undated ≡ (if b then y.undated ++ (s ∷ []) else y.undated))
grown-fields true s y = (refl, refl)
grown-fields false s y = (refl, refl)

undated-step :
    (n : ℕ) (l shown : List Snapshot) (s : Snapshot)
    → shown ≡ take n l
    → (if ltb (length shown) n then shown ++ (s ∷ []) else shown) ≡ take n (l ++ (s ∷ []))
undated-step n l shown s e = rw e (sym (take-append-one n l s))

locked-step : (b : Bool) (n m : ℕ) → n ≤ m → (if b then suc n else n) ≤ suc m
locked-step true n m h = omega (arith, h)
locked-step false n m h = omega (arith, h)

pub noted-Holds :
    (m : Option ℕ) (s : Snapshot) (all_dated : List HeapItem) (all_undated : List Snapshot)
    (y : Tally)
    → Holds all_dated all_undated y
    → Holds
        (more_dated y.returned_count s m all_dated)
        (more_undated s m all_undated)
        (noted s y (placed m s y))
unfolding placed
noted-Holds (some t) s all_dated all_undated y h =
    let x : HeapItem = record { created = t; order = y.returned_count; snapshot = s } in
    record {
      sorted = push-Descending x all_dated h.sorted;
      dated = rw h.dated (sym (take-push preview_limit x all_dated h.sorted));
      undated = h.undated;
      count = omega (arith, h.count, length-push x all_dated);
      locked = locked-step (is_locked s) y.locked_count y.returned_count h.locked;
    }
noted-Holds none s all_dated all_undated y h =
    let b = ltb (length y.undated) preview_limit in
    let fields = grown-fields b s y in
    record {
      sorted = h.sorted;
      dated = fields.0 ∙ h.dated;
      undated = fields.1 ∙ undated-step preview_limit all_undated y.undated s h.undated;
      count = omega (arith, h.count, length-append all_undated (s ∷ []));
      locked = locked-step (is_locked s) y.locked_count y.returned_count h.locked;
    }
