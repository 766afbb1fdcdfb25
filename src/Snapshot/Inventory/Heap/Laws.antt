-- ===== src/Snapshot/Inventory/Heap/Laws.antt =====
-- The bounded heap holds the first items of the full sorted list.
use ha_unifi_drive.Prelude.{
  ℕ, zero, suc, ◌<◌, ◌≤◌, ◌≡◌, refl, ap, ◌∙◌, sym, true, false, List, [], ◌∷◌, ltb, ltb→lt, length,
  take, arith, inl, inr, Bool-cases,
}
use ha_unifi_drive.Snapshot.Inventory.Heap.{
  HeapItem, greater, push, least, without_least, beats, offer,
}

-- No later item is greater than an earlier one.
abbrev pub Descending : List HeapItem → Type 0
Descending [] = Unit
Descending (y ∷ []) = Unit
Descending (y ∷ z ∷ zs) = (greater z y ≡ false) × Descending (z ∷ zs)

not_greater_trans :
    (x y z : HeapItem) → greater x y ≡ false → greater y z ≡ false → greater x z ≡ false
not_greater_trans x y z h k = ground (arith, h, k)

greater_asymm : (x y : HeapItem) → greater x y ≡ true → greater y x ≡ false
greater_asymm x y h = ground (arith, h)

greater-not_greater :
    (x y z : HeapItem) → greater x y ≡ true → greater z y ≡ false → greater x z ≡ true
greater-not_greater x y z h k = ground (arith, h, k)

-- The full list stays sorted.
pub push-Descending : (x : HeapItem) (l : List HeapItem) → Descending l → Descending (push x l)
unfolding push
push-Descending x [] h = tt
push-Descending x (y ∷ []) h = elim (Bool-cases (greater x y)) [
  | inl e ↦ rw e (greater_asymm x y e, tt)
  | inr e ↦ rw e (e, tt)
]
push-Descending x (y ∷ z ∷ zs) h = elim (Bool-cases (greater x y)) [
  | inl e ↦ rw e (greater_asymm x y e, h)
  | inr e ↦
      let rest = push-Descending x (z ∷ zs) h.1 in
      rw e (elim (Bool-cases (greater x z)) [
        | inl f ↦ rw f (e, rw f at rest)
        | inr f ↦ rw f (h.0, rw f at rest)
      ])
]

beats-least :
    (x y : HeapItem) (t : List HeapItem)
    → Descending (y ∷ t)
    → greater x y ≡ true
    → beats x (least (y ∷ t)) ≡ true
unfolding least
beats-least x y [] h e = e
beats-least x y (z ∷ zs) h e = beats-least x z zs h.1 (greater-not_greater x y z e h.0)

ltb-false : (a b : ℕ) → ltb a b ≡ false → b ≤ a
ltb-false a b h = ground (arith, h)

Descending-tail : (y : HeapItem) (l : List HeapItem) → Descending (y ∷ l) → Descending l
Descending-tail y [] h = tt
Descending-tail y (z ∷ zs) h = h.1

take-all : (n : ℕ) (l : List HeapItem) → length (take n l) < n → take n l ≡ l
take-all zero l h = ground (arith, h)
take-all (suc n) [] h = refl
take-all (suc n) (y ∷ l) h = ap (λ r. y ∷ r) (take-all n l (omega (arith, h)))

take-Descending : (n : ℕ) (l : List HeapItem) → Descending l → Descending (take n l)
take-Descending zero l h = tt
take-Descending (suc n) [] h = tt
take-Descending (suc zero) (y ∷ l) h = tt
take-Descending (suc (suc n)) (y ∷ []) h = tt
take-Descending (suc (suc n)) (y ∷ z ∷ zs) h = (h.0, take-Descending (suc n) (z ∷ zs) h.1)

without_least-take :
    (n : ℕ) (y : HeapItem) (l : List HeapItem)
    → n ≤ length (take n l)
    → without_least (y ∷ take n l) ≡ take n (y ∷ l)
unfolding without_least
without_least-take zero y l h = refl
without_least-take (suc n) y [] h = ground (arith, h)
without_least-take (suc n) y (z ∷ l) h =
    ap (λ r. y ∷ r) (without_least-take n z l (omega (arith, h)))

offer-cons :
    (n : ℕ) (x y : HeapItem) (t : List HeapItem)
    → greater x y ≡ false
    → offer (suc n) x (y ∷ t) ≡ y ∷ offer n x t
unfolding offer push least without_least
offer-cons n x y [] e = ground (arith, e)
offer-cons n x y (z ∷ zs) e = ground (arith, e)

push-front :
    (x y : HeapItem) (n : ℕ) (l : List HeapItem)
    → greater x y ≡ true
    → push x (take n (y ∷ l)) ≡ x ∷ take n (y ∷ l)
unfolding push
push-front x y zero l e = refl
push-front x y (suc n) l e = rw e refl

take-nil : (n : ℕ) → take {A = HeapItem} n [] ≡ []
take-nil zero = refl
take-nil (suc n) = refl

take-short :
    (n : ℕ) (y : HeapItem) (l : List HeapItem)
    → length (take n l) < n
    → take n (y ∷ l) ≡ y ∷ take n l
take-short zero y l h = ground (arith, h)
take-short (suc n) y [] h = ap (λ r. y ∷ r) (take-nil n)
take-short (suc n) y (z ∷ l) h = ap (λ r. y ∷ r) (take-short n z l (omega (arith, h)))

offer-front :
    (n : ℕ) (x y : HeapItem) (l : List HeapItem)
    → Descending (y ∷ l)
    → greater x y ≡ true
    → offer (suc n) x (y ∷ take n l) ≡ x ∷ take n (y ∷ l)
unfolding offer
offer-front n x y l h e = elim (Bool-cases (ltb (length (take n l)) n)) [
  | inl f ↦ ground (arith, e, f, take-short n y l (ltb→lt (length (take n l)) n f))
  | inr f ↦ ground (
    arith,
    e,
    f,
    beats-least x y (take n l) (take-Descending (suc n) (y ∷ l) h) e,
    without_least-take n y l (ltb-false (length (take n l)) n f),
    push-front x y n l e,
  )
]

offer-none : (x : HeapItem) → offer 0 x [] ≡ []
unfolding offer least
offer-none x = refl

offer-first : (n : ℕ) (x : HeapItem) → offer (suc n) x [] ≡ x ∷ []
unfolding offer push
offer-first n x = ground arith

pub take-push :
    (n : ℕ) (x : HeapItem) (l : List HeapItem)
    → Descending l
    → take n (push x l) ≡ offer n x (take n l)
unfolding push
take-push zero x l h = sym (offer-none x)
take-push (suc n) x [] h = ap (λ r. x ∷ r) (take-nil n) ∙ sym (offer-first n x)
take-push (suc n) x (y ∷ l) h = elim (Bool-cases (greater x y)) [
  | inl e ↦ rw e (sym (offer-front n x y l h e))
  | inr e ↦ rw e (
      ap (λ r. y ∷ r) (take-push n x l (Descending-tail y l h))
      ∙ sym (offer-cons n x y (take n l) e))
]

-- The heap after offers of the items, one after another.
abbrev pub offers : ℕ → List HeapItem → List HeapItem → List HeapItem
offers limit [] heap = heap
offers limit (x ∷ xs) heap = offers limit xs (offer limit x heap)

-- The items in descending order: an insertion sort without a limit.
abbrev pub sorted_items : List HeapItem → List HeapItem → List HeapItem
sorted_items [] l = l
sorted_items (x ∷ xs) l = sorted_items xs (push x l)

-- After any offers to the empty heap, the heap of at most so many items holds the first so many of
-- all the items in descending order.
pub offers-take :
    (limit : ℕ) (xs l : List HeapItem)
    → Descending l
    → offers limit xs (take limit l) ≡ take limit (sorted_items xs l)
offers-take limit [] l h = refl
offers-take limit (x ∷ xs) l h =
    rw (← take-push limit x l h) (offers-take limit xs (push x l) (push-Descending x l h))
