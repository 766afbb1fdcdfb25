-- ===== src/WakeOnLan/Digits.antt =====
-- The characters of a normalized address: small letters and digits that no step changes.
use Prim.Native.Char.{Char, code}
use Prim.Native.String.{[], ◌∷◌}
use text.Mathlib.TextEquality.{eq_iff}
use text.Mathlib.TextLemmas.{cons≢nil}
use ha_unifi_drive.Prelude.{
  ℕ, ◌-◌, ◌<◌, String, ◌≡◌, refl, Bool, true, false, not, ◌&&◌, [], ◌∷◌, leb, ◌==◌, text_eq, strip,
  lower_char, keep_chars, is_space, nth, arith, Bool-cases, inl, inr, lstrip, rstrip_by,
}
use ha_unifi_drive.Prelude.Tables.{passes_under, passes_under-at}
use ha_unifi_drive.WakeOnLan.{is_hex, colon}

abbrev is_upper : ℕ → Bool
is_upper c = leb b'A' c && leb c b'Z'

abbrev small : ℕ → Char
small n = nth n "abcdefghijklmnopqrstuvwxyz"

-- What holds of the small letters up to f.
abbrev pub fits : ℕ → Bool
fits c = is_hex c && not (is_space c) && not (is_upper c)

small-fits : (n : ℕ) → n < 6 → fits (code (small n)) ≡ true
unfolding passes_under is_space is_hex
small-fits n h = passes_under-at (λ k. fits (code (small k))) 6 n h refl

plain-fits : (c : ℕ) → is_hex c ≡ true → is_upper c ≡ false → fits c ≡ true
unfolding is_space is_hex
plain-fits c h k = ground arith

upper_hex : (c : ℕ) → is_hex c ≡ true → is_upper c ≡ true → c - b'A' < 6
unfolding is_hex
upper_hex c h k = ground arith

pub lower_char-fits : (c : Char) → is_hex (code c) ≡ true → fits (code (lower_char c)) ≡ true
unfolding lower_char
lower_char-fits c h = elim (Bool-cases (is_upper (code c))) [
  | inl upper ↦ rw upper (small-fits (code c - b'A') (upper_hex (code c) h upper))
  | inr plain ↦ rw plain (plain-fits (code c) h plain)
]

pub lower_char-again : (c : Char) → fits (code c) ≡ true → lower_char c ≡ c
unfolding lower_char
lower_char-again c h = ground (arith, h)

abbrev pub all_hex : String → Bool
all_hex [] = true
all_hex (c ∷ s) = is_hex (code c) && all_hex s

pub keep-all_hex : (s : String) → all_hex (keep_chars is_hex s) ≡ true
unfolding keep_chars
keep-all_hex [] = refl
keep-all_hex (c ∷ s) = ground (arith, keep-all_hex s)

pub hex-fits : (c : ℕ) → fits c ≡ true → is_hex c ≡ true
hex-fits c h = ground (arith, h)

pub not_colon-fits : (c : ℕ) → fits c ≡ true → not (c == b':') ≡ true
unfolding is_hex
not_colon-fits c h = ground (arith, h)

pub not_space-fits : (c : ℕ) → fits c ≡ true → is_space c ≡ false
not_space-fits c h = ground (arith, h)

-- The last character is not one that is stripped.
abbrev pub ends_well : String → Bool
ends_well [] = true
ends_well (c ∷ []) = not (is_space (code c))
ends_well (c ∷ d ∷ s) = ends_well (d ∷ s)

not_empty : (c : Char) (s : String) → text_eq (c ∷ s) "" ≡ false
not_empty c s = elim (Bool-cases (text_eq (c ∷ s) "")) [
  | inl e ↦ absurd (cons≢nil ((eq_iff (c ∷ s) "").0 e))
  | inr e ↦ e
]

rstrip-ends_well : (s : String) → ends_well s ≡ true → rstrip_by is_space s ≡ s
unfolding rstrip_by
rstrip-ends_well [] h = refl
rstrip-ends_well (c ∷ []) h = ground (arith, h)
rstrip-ends_well (c ∷ d ∷ s) h = rw (rstrip-ends_well (d ∷ s) h, not_empty d s) refl

pub strip-stays :
    (c : Char) (s : String)
    → is_space (code c) ≡ false
    → ends_well (c ∷ s) ≡ true
    → strip (c ∷ s) ≡ c ∷ s
unfolding strip lstrip
strip-stays c s h k = rw h (rstrip-ends_well (c ∷ s) k)

pub colon-not_hex : is_hex (code colon) ≡ false
unfolding is_hex
colon-not_hex = refl

pub colon-lower : lower_char colon ≡ colon
unfolding lower_char
colon-lower = refl

and-left : (p q : Bool) → (p && q) ≡ true → p ≡ true
and-left p q h = ground (arith, h)

and-right : (p q : Bool) → (p && q) ≡ true → q ≡ true
and-right p q h = ground (arith, h)

pub head_hex : (c : Char) (s : String) → all_hex (c ∷ s) ≡ true → is_hex (code c) ≡ true
head_hex c s hex = and-left (is_hex (code c)) (all_hex s) hex

pub tail_hex : (c : Char) (s : String) → all_hex (c ∷ s) ≡ true → all_hex s ≡ true
tail_hex c s hex = and-right (is_hex (code c)) (all_hex s) hex
