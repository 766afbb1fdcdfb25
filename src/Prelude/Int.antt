-- ===== src/Prelude/Int.antt =====
-- Python's integers over the native numbers.
use Prim.Native.Nat.{ℕ, zero, suc, ◌+◌, ◌≤◌}
use Prim.Native.Char.{code}
use Prim.Native.String.{String, [], ◌∷◌, ◌++◌}
use mathlib.Core.Bool.{Bool}
use mathlib.Core.Option
use mathlib.Core.Option.{Option}
use ha_unifi_drive.Prelude.Tests.{leb, ltb, ◌==◌, if◌then◌else◌}
use ha_unifi_drive.Prelude.Texts.{strip, decimal, natural}

-- `negsuc n` is -(n + 1).
pub data ℤ : Type 0 where
  pos : ℕ → ℤ
  negsuc : ℕ → ℤ

abbrev pub pos_part : ℤ → ℕ
pos_part (pos n) = n
pos_part (negsuc _) = 0

abbrev pub neg_part : ℤ → ℕ
neg_part (pos _) = 0
neg_part (negsuc n) = suc n

infix 50 ◌≤ℤ◌
abbrev pub ◌≤ℤ◌ : ℤ → ℤ → Type 0
a ≤ℤ b = pos_part a + neg_part b ≤ pos_part b + neg_part a

abbrev pub ltb_ℤ : ℤ → ℤ → Bool
ltb_ℤ a b = ltb (pos_part a + neg_part b) (pos_part b + neg_part a)

abbrev pub leb_ℤ : ℤ → ℤ → Bool
leb_ℤ a b = leb (pos_part a + neg_part b) (pos_part b + neg_part a)

abbrev pub max_ℤ : ℤ → ℤ → ℤ
max_ℤ a b = if ltb_ℤ a b then b else a

abbrev pub min_ℤ : ℤ → ℤ → ℤ
min_ℤ a b = if ltb_ℤ b a then b else a

abbrev pub negate : ℕ → ℤ
negate zero = pos 0
negate (suc n) = negsuc n

-- `str(i)` and `int(text)`
unfoldable pub str_int : ℤ → String
unfolding decimal
str_int (pos n) = decimal n
str_int (negsuc n) = "-" ++ decimal (suc n)

signed : String → Option ℤ
signed [] = Option.none
signed (c ∷ s) =
    if code c == b'-'
    then Option.map negate (natural s)
    else if code c == b'+'
    then Option.map pos (natural s)
    else Option.map pos (natural (c ∷ s))

unfoldable pub int_of_text : String → Option ℤ
unfolding strip signed natural
int_of_text s = signed (strip s)
