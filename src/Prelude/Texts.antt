-- ===== src/Prelude/Texts.antt =====
-- Python's `str` methods on native texts. Case mapping is that of ASCII.
use Prim.Native.Char.{Char, code, nul}
use Prim.Native.Nat.{ℕ, zero, suc, ◌+◌, ◌-◌, ◌*◌, ◌/◌, ◌%◌}
use Prim.Native.String.{String, [], ◌∷◌, ◌++◌}
use mathlib.Core.Bool.{Bool, true, false, ◌&&◌, ◌||◌}
use mathlib.Core.List.{List, [], ◌∷◌}
use mathlib.Core.Option.{Option, none, some}
use text.Mathlib.Text.{◌==◌ as text_eq}
use ha_unifi_drive.Prelude.Tests.{leb, ltb, ◌==◌, if◌then◌else◌}

-- Whitespace, as `str.isspace` has it.
unfoldable pub is_space : ℕ → Bool
is_space c =
    (leb 9 c && leb c 13)
    || (leb 28 c && leb c 32)
    || c == 133
    || c == 160
    || c == 5760
    || (leb 8192 c && leb c 8202)
    || c == 8232
    || c == 8233
    || c == 8239
    || c == 8287
    || c == 12288

abbrev pub is_digit : ℕ → Bool
is_digit c = leb b'0' c && leb c b'9'

abbrev pub nth : ℕ → String → Char
nth n [] = nul
nth zero (c ∷ s) = c
nth (suc n) (c ∷ s) = nth n s

unfoldable pub lower_char : Char → Char
lower_char c =
    if leb b'A' (code c) && leb (code c) b'Z'
    then nth (code c - b'A') "abcdefghijklmnopqrstuvwxyz"
    else c

unfoldable pub lower : String → String
unfolding lower_char
lower [] = []
lower (c ∷ s) = lower_char c ∷ lower s

unfoldable pub lstrip : String → String
unfolding is_space
lstrip [] = []
lstrip (c ∷ s) = let rest = lstrip s in if is_space (code c) then rest else c ∷ s

-- `s.rstrip(chars)` for the characters that pass the test.
unfoldable pub rstrip_by : (ℕ → Bool) → String → String
rstrip_by p [] = []
rstrip_by p (c ∷ s) =
    let rest = rstrip_by p s in if text_eq rest "" && p (code c) then "" else c ∷ rest

unfoldable pub strip : String → String
unfolding lstrip rstrip_by is_space
strip s = rstrip_by is_space (lstrip s)

-- `s.replace(a, b)` for single characters.
unfoldable pub replace_char : ℕ → Char → String → String
replace_char a b [] = []
replace_char a b (c ∷ s) = (if code c == a then b else c) ∷ replace_char a b s

-- The characters of a text that pass a test, in order.
unfoldable pub keep_chars : (ℕ → Bool) → String → String
keep_chars p [] = []
keep_chars p (c ∷ s) = let rest = keep_chars p s in if p (code c) then c ∷ rest else rest

-- Whether the text has the other one for a prefix, and whether it contains it.
unfoldable pub begins_with : String → String → Bool
begins_with s [] = true
begins_with [] (d ∷ t) = false
begins_with (c ∷ s) (d ∷ t) = code c == code d && begins_with s t

unfoldable pub contains : String → String → Bool
unfolding begins_with
contains [] t = text_eq t ""
contains (c ∷ s) t = begins_with (c ∷ s) t || contains s t

-- `s.split(sep)` for a separator of one character: never empty.
add_front : Char → List String → List String
add_front c [] = (c ∷ []) ∷ []
add_front c (w ∷ ws) = (c ∷ w) ∷ ws

unfoldable pub split : ℕ → String → List String
unfolding add_front
split sep [] = "" ∷ []
split sep (c ∷ s) = let rest = split sep s in if code c == sep then "" ∷ rest else add_front c rest

unfoldable pub join : String → List String → String
join sep [] = ""
join sep (w ∷ []) = w
join sep (w ∷ v ∷ ws) = w ++ sep ++ join sep (v ∷ ws)

abbrev pub in_texts : String → List String → Bool
in_texts s [] = false
in_texts s (t ∷ ts) = text_eq s t || in_texts s ts

abbrev digit : ℕ → String
digit d = nth d "0123456789" ∷ []

-- `str(n)`: the fuel `n` is enough, since the quotient falls.
decimal_from : ℕ → ℕ → String
decimal_from zero n = digit n
decimal_from (suc fuel) n =
    let rest = decimal_from fuel (n / 10) in if ltb n 10 then digit n else rest ++ digit (n % 10)

unfoldable pub decimal : ℕ → String
unfolding decimal_from
decimal n = decimal_from n n

-- The digits of `int(text)`, single underscores between digits included.
digits_from : ℕ → Bool → String → Option ℕ
digits_from acc after_digit [] = if after_digit then some acc else none
digits_from acc after_digit (c ∷ s) =
    let more = digits_from (acc * 10 + (code c - b'0')) true s in
    let joined = digits_from acc false s in
    if is_digit (code c) then more else if code c == b'_' && after_digit then joined else none

unfoldable pub natural : String → Option ℕ
unfolding digits_from
natural s = digits_from 0 false s

-- Texts one after the other, where `◌++◌` is that of lists.
infixr 65 ◌⧺◌
abbrev pub ◌⧺◌ : String → String → String
s ⧺ t = s ++ t

abbrev pub count_chars : String → ℕ
count_chars [] = 0
count_chars (_ ∷ s) = suc (count_chars s)
