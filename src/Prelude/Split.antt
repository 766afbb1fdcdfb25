-- ===== src/Prelude/Split.antt =====
-- `split` takes apart what `join` puts together.
use Prim.Native.Char.{Char, code}
use Prim.Native.String.append
use Prim.Native.String.{String, [], ◌∷◌, ◌++◌}
use Prim.Native.Nat.{ℕ}
use mathlib.Core.Path.{◌≡◌, refl, ap, ◌∙◌}
use mathlib.Core.Bool.{Bool, true, false, not, ◌&&◌}
use mathlib.Core.List.{List, [], ◌∷◌}
use native.Mathlib.Omega.{arith}
use text.Mathlib.Text.{◌==◌ as text_eq}
use text.Mathlib.TextEquality.{eq_iff}
use text.Mathlib.TextLemmas.{cons≢nil}
use ha_unifi_drive.Prelude.Tests.{◌==◌}
use ha_unifi_drive.Prelude.Texts.{split, join}
use ha_unifi_drive.Prelude.Lists.{All}

-- No character of the text is the separator.
abbrev pub lacks : ℕ → String → Bool
lacks sep [] = true
lacks sep (c ∷ s) = not (code c == sep) && lacks sep s

pub split-lacks : (sep : ℕ) (w : String) → lacks sep w ≡ true → split sep w ≡ w ∷ []
unfolding split
split-lacks sep [] h = refl
split-lacks sep (c ∷ s) h = ground (arith, split-lacks sep s)

pub split-append :
    (sep : ℕ) (w : String) (c : Char) (rest : String)
    → code c ≡ sep
    → lacks sep w ≡ true
    → split sep (w ++ (c ∷ rest)) ≡ w ∷ split sep rest
unfolding split
split-append sep [] c rest e h = rw (append.nil (c ∷ rest)) (ground arith)
split-append sep (d ∷ s) c rest e h =
    rw (append.cons d s (c ∷ rest)) (ground (arith, split-append sep s c rest e))

abbrev pub comma : Char
comma = Prim.Native.Char.char b',' tt

-- Splitting at commas undoes joining by commas, for texts without commas.
pub split-join :
    (w : String) (ws : List String)
    → All (λ t. lacks b',' t ≡ true) (w ∷ ws)
    → split b',' (join "," (w ∷ ws)) ≡ w ∷ ws
unfolding join
split-join w [] h = split-lacks b',' w h.0
split-join w (v ∷ ws) h = rw (append.cons comma "" (join "," (v ∷ ws))) (
    rw (append.nil (join "," (v ∷ ws))) (
      split-append b',' w comma (join "," (v ∷ ws)) refl h.0
      ∙ ap (λ (l : List String). w ∷ l) (split-join v ws h.1)))

pub append-ne-empty : (w s : String) → text_eq w "" ≡ false → text_eq (w ++ s) "" ≡ false
append-ne-empty [] s h = ground arith
append-ne-empty (c ∷ t) s h = rw (append.cons c t s) (go (text_eq (c ∷ (t ++ s)) "") refl)
  where
    go : (b : Bool) → text_eq (c ∷ (t ++ s)) "" ≡ b → b ≡ false
    go true e = absurd (cons≢nil ((eq_iff (c ∷ (t ++ s)) "").0 e))
    go false e = refl
