-- ===== src/Prelude/Dicts.antt =====
-- Python's `dict` with text keys, in insertion order.
use Prim.Native.String.{String}
use mathlib.Core.Path.{◌≡◌, refl}
use mathlib.Core.Bool.{Bool, true, false}
use mathlib.Core.List.{List, [], ◌∷◌}
use mathlib.Core.Option.{Option, none, some}
use native.Mathlib.Omega.{arith}
use text.Mathlib.Text.{◌==◌ as text_eq}
use text.Mathlib.TextEquality.{eq_iff}
use ha_unifi_drive.Prelude.Tests.{if◌then◌else◌, is_some}

abbrev pub Dict {ℓ} : Type ℓ → Type ℓ
Dict V = List (String × V)

module _ {ℓ} {V : Type ℓ} where
  -- `d.get(k)`
  unfoldable pub lookup : String → Dict V → Option V
  lookup k [] = none
  lookup k ((j, v) ∷ d) = if text_eq j k then some v else lookup k d

  -- `k in d`
  abbrev pub has_key : String → Dict V → Bool
  has_key k d = is_some (lookup k d)

  -- `d[k] = v`
  unfoldable pub insert : String → V → Dict V → Dict V
  insert k v [] = (k, v) ∷ []
  insert k v ((j, w) ∷ d) = if text_eq j k then (j, v) ∷ d else (j, w) ∷ insert k v d

  -- `{k: v for k, v in d.items() if p k}`
  unfoldable pub keep_keys : (String → Bool) → Dict V → Dict V
  keep_keys p [] = []
  keep_keys p ((j, v) ∷ d) = let rest = keep_keys p d in if p j then (j, v) ∷ rest else rest

  -- `d.pop(k, None)`
  unfoldable pub remove : String → Dict V → Dict V
  unfolding keep_keys
  remove k = keep_keys (λ j. if text_eq j k then false else true)

  -- `d.update(e)`
  unfoldable pub update : Dict V → Dict V → Dict V
  unfolding insert
  update d [] = d
  update d ((k, v) ∷ e) = update (insert k v d) e

  pub lookup-insert :
      (k j : String) (v : V) (d : Dict V)
      → lookup j (insert k v d) ≡ (if text_eq k j then some v else lookup j d)
  unfolding lookup insert
  lookup-insert k j v [] = refl
  lookup-insert k j v ((i, w) ∷ d) =
      ground (arith, lookup-insert k j v d, eq_iff i k, eq_iff i j, eq_iff k j)

  pub lookup-keep_keys :
      (p : String → Bool) (j : String) (d : Dict V)
      → lookup j (keep_keys p d) ≡ (if p j then lookup j d else none)
  unfolding lookup keep_keys
  lookup-keep_keys p j [] = ground arith
  lookup-keep_keys p j ((i, w) ∷ d) = ground (arith, lookup-keep_keys p j d, eq_iff i j)

  pub lookup-remove :
      (k j : String) (d : Dict V)
      → lookup j (remove k d) ≡ (if text_eq k j then none else lookup j d)
  unfolding remove
  lookup-remove k j d = ground (
    arith,
    lookup-keep_keys (λ (i : String). if text_eq i k then false else true) j d,
    eq_iff j k,
    eq_iff k j,
  )
