-- ===== src/Prelude/Strip.antt =====
-- A text that is stripped has nothing left to strip.
use Prim.Native.Char.{Char, code}
use Prim.Native.String.{String, [], ◌∷◌}
use Prim.Native.Nat.{ℕ}
use mathlib.Core.Path.{◌≡◌, refl}
use mathlib.Core.Logic.{inl, inr}
use mathlib.Core.Bool.{Bool, true, false, ◌&&◌}
use text.Mathlib.Text.{◌==◌ as text_eq}
use ha_unifi_drive.Prelude.Tests.{Bool-cases}
use ha_unifi_drive.Prelude.Texts.{is_space, lstrip, rstrip_by, strip}

rstrip_by-rstrip_by : (p : ℕ → Bool) (s : String) → rstrip_by p (rstrip_by p s) ≡ rstrip_by p s
unfolding rstrip_by
rstrip_by-rstrip_by p [] = refl
rstrip_by-rstrip_by p (c ∷ s) = elim (Bool-cases (text_eq (rstrip_by p s) "" && p (code c))) [
  | inl e ↦ rw e refl
  | inr e ↦ rw (e, rstrip_by-rstrip_by p s, e) refl
]

-- A text that begins with no whitespace, or is empty.
abbrev StartsWell : String → Type 0
StartsWell [] = ◌≡◌ {A = Bool} true true
StartsWell (c ∷ s) = is_space (code c) ≡ false

lstrip-StartsWell : (s : String) → StartsWell (lstrip s)
unfolding lstrip
lstrip-StartsWell [] = refl
lstrip-StartsWell (c ∷ s) = elim (Bool-cases (is_space (code c))) [
  | inl e ↦ rw e (lstrip-StartsWell s)
  | inr e ↦ rw e e
]

lstrip-stays : (c : Char) (s : String) → is_space (code c) ≡ false → lstrip (c ∷ s) ≡ c ∷ s
unfolding lstrip
lstrip-stays c s h = rw h refl

lstrip-empty : lstrip "" ≡ ""
unfolding lstrip
lstrip-empty = refl

lstrip-rstrip_by :
    (s : String) → StartsWell s → lstrip (rstrip_by is_space s) ≡ rstrip_by is_space s
unfolding rstrip_by
lstrip-rstrip_by [] h = lstrip-empty
lstrip-rstrip_by (c ∷ s) h = elim (Bool-cases (text_eq (rstrip_by is_space s) "")) [
  | inl e ↦ rw (e, h) (lstrip-stays c _ h)
  | inr e ↦ rw e (lstrip-stays c _ h)
]

pub strip-strip : (s : String) → strip (strip s) ≡ strip s
unfolding strip
strip-strip s =
    rw (lstrip-rstrip_by (lstrip s) (lstrip-StartsWell s), rstrip_by-rstrip_by is_space (lstrip s))
      refl
