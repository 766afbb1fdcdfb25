-- ===== src/Api/Fan/Versions/Order.antt =====
-- The comparison of versions: an order that does not look at missing trailing numbers.
use ha_unifi_drive.Prelude.{
  ℕ, zero, suc, ◌≤◌, max, String, ◌≡◌, refl, ap, sym, inl, inr, Bool-cases, ◌∙◌, Bool, true, false,
  ◌&&◌, ◌||◌, List, [], ◌∷◌, length, ltb, ◌==◌, arith,
}
use ha_unifi_drive.Api.Fan.Versions.{padded, list_lt, numbers_lt, version_numbers, version_lt}

-- Number by number from the left, where a number that is missing counts as zero.
unfoldable pub precedes : List ℕ → List ℕ → Bool
precedes [] [] = false
precedes (x ∷ xs) [] = false
precedes [] (y ∷ ys) = ltb 0 y || (0 == y && precedes [] ys)
precedes (x ∷ xs) (y ∷ ys) = ltb x y || (x == y && precedes xs ys)

precedes-nothing : (xs : List ℕ) → precedes xs [] ≡ false
unfolding precedes
precedes-nothing [] = refl
precedes-nothing (x ∷ xs) = refl

list_lt-padded :
    (n : ℕ) (xs ys : List ℕ)
    → length xs ≤ n
    → length ys ≤ n
    → list_lt (padded n xs) (padded n ys) ≡ precedes xs ys
unfolding list_lt padded precedes
list_lt-padded zero [] [] hx hy = refl
list_lt-padded zero (x ∷ xs) ys hx hy = ground arith
list_lt-padded zero [] (y ∷ ys) hx hy = ground arith
list_lt-padded (suc n) [] [] hx hy = list_lt-padded n [] [] (omega arith) (omega arith)
list_lt-padded (suc n) (x ∷ xs) [] hx hy =
    let ih = list_lt-padded n xs [] (omega (arith, hx)) (omega arith) in
    ground (arith, ih, precedes-nothing xs)
list_lt-padded (suc n) [] (y ∷ ys) hx hy =
    ap (λ b. ltb 0 y || (0 == y && b)) (list_lt-padded n [] ys (omega arith) (omega (arith, hy)))
list_lt-padded (suc n) (x ∷ xs) (y ∷ ys) hx hy =
    ap (λ b. ltb x y || (x == y && b))
      (list_lt-padded n xs ys (omega (arith, hx)) (omega (arith, hy)))

-- A list without a number is lower than none, also where zeros in its place would be.
unfoldable pub is_lower : List ℕ → List ℕ → Bool
unfolding precedes
is_lower [] ys = false
is_lower (x ∷ xs) ys = precedes (x ∷ xs) ys

-- No version is higher than one without a number. Otherwise the comparison with padding is the one
-- number by number from the left, where a missing number counts as zero.
pub numbers_lt-is_lower : (xs ys : List ℕ) → numbers_lt xs ys ≡ is_lower xs ys
unfolding numbers_lt is_lower
numbers_lt-is_lower [] ys = refl
numbers_lt-is_lower (x ∷ xs) ys =
    list_lt-padded (max (length (x ∷ xs)) (length ys)) (x ∷ xs) ys (omega arith) (omega arith)

precedes_trans :
    (xs ys zs : List ℕ) → precedes xs ys ≡ true → precedes ys zs ≡ true → precedes xs zs ≡ true
unfolding precedes
precedes_trans [] [] zs h k = k
precedes_trans [] (y ∷ ys) [] h k = cc
precedes_trans [] (y ∷ ys) (z ∷ zs) h k = ground (arith, precedes_trans [] ys zs)
precedes_trans (x ∷ xs) [] zs h k = cc
precedes_trans (x ∷ xs) (y ∷ ys) [] h k = cc
precedes_trans (x ∷ xs) (y ∷ ys) (z ∷ zs) h k = ground (arith, precedes_trans xs ys zs)

precedes_irrefl : (xs : List ℕ) → precedes xs xs ≡ false
unfolding precedes
precedes_irrefl [] = refl
precedes_irrefl (x ∷ xs) = ground (arith, precedes_irrefl xs)

is_lower_trans :
    (xs ys zs : List ℕ) → is_lower xs ys ≡ true → is_lower ys zs ≡ true → is_lower xs zs ≡ true
unfolding is_lower
is_lower_trans [] ys zs h k = cc
is_lower_trans (x ∷ xs) [] zs h k = cc
is_lower_trans (x ∷ xs) (y ∷ ys) zs h k = precedes_trans (x ∷ xs) (y ∷ ys) zs h k

is_lower_irrefl : (xs : List ℕ) → is_lower xs xs ≡ false
unfolding is_lower
is_lower_irrefl [] = refl
is_lower_irrefl (x ∷ xs) = precedes_irrefl (x ∷ xs)

is_lower-not_back : (xs ys : List ℕ) → is_lower xs ys ≡ true → is_lower ys xs ≡ false
is_lower-not_back xs ys h = elim (Bool-cases (is_lower ys xs)) [
  | inl back ↦ cc (is_lower_trans xs ys xs h back, is_lower_irrefl xs)
  | inr not_back ↦ not_back
]

version_lt-is_lower :
    (t u : String) → version_lt t u ≡ is_lower (version_numbers t) (version_numbers u)
unfolding version_lt
version_lt-is_lower t u = numbers_lt-is_lower (version_numbers t) (version_numbers u)

-- The comparison of version texts is a strict order: of three texts each of which is lower than the
-- next, the first is lower than the last, and the last is not lower than the first.
pub version_lt-strict :
    (t u v : String)
    → version_lt t u ≡ true
    → version_lt u v ≡ true
    → (version_lt t v ≡ true) × (version_lt v t ≡ false)
version_lt-strict t u v h k =
    let both =
      is_lower_trans (version_numbers t) (version_numbers u) (version_numbers v)
        (sym (version_lt-is_lower t u) ∙ h) (sym (version_lt-is_lower u v) ∙ k) in
    (
      version_lt-is_lower t v ∙ both,
      version_lt-is_lower v t ∙ is_lower-not_back (version_numbers t) (version_numbers v) both,
    )
