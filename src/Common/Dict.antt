-- ===== src/Common/Dict.antt =====
-- Dictionaries keyed by text, in insertion order: the source's `Map` and `Record`. `insert` writes in
-- place or at the end, as `Map.prototype.set` does.
pub mod Distinct
use Prim.Native.String.{String}
use mathlib.Core.Path.{◌≡◌, refl}
use mathlib.Core.Option.{Option, none, some}
use mathlib.Core.List.{List, [], ◌∷◌, map}
use native.Mathlib.Omega.{arith}
use text.Mathlib.Text.{◌==◌}
use text.Mathlib.TextEquality.{eq_iff}
use herdr_web_broker.Common.Tests.{if◌then◌else◌}

abbrev pub Dict {ℓ} : Type ℓ → Type ℓ
Dict V = List (String × V)

module _ {ℓ} {V : Type ℓ} where
  -- `map.get(key)`
  unfoldable pub lookup : String → Dict V → Option V
  lookup key [] = none
  lookup key ((other, held) ∷ rest) = if other == key then some held else lookup key rest

  -- `map.set(key, value)`
  unfoldable pub insert : String → V → Dict V → Dict V
  insert key value [] = (key, value) ∷ []
  insert key value ((other, held) ∷ rest) =
      if other == key then (other, value) ∷ rest else (other, held) ∷ insert key value rest

  -- `map.delete(key)`
  unfoldable pub remove : String → Dict V → Dict V
  remove key [] = []
  remove key ((other, held) ∷ rest) =
      if other == key then remove key rest else (other, held) ∷ remove key rest

  abbrev pub keys : Dict V → List String
  keys = map (λ e. e.0)

  abbrev pub values : Dict V → List V
  values = map (λ e. e.1)

  pub lookup-remove :
      (removed key : String) (d : Dict V)
      → lookup key (remove removed d) ≡ (if removed == key then none else lookup key d)
  unfolding lookup remove
  lookup-remove removed key [] = ground arith
  lookup-remove removed key ((other, held) ∷ rest) = ground (
    arith,
    lookup-remove removed key rest,
    eq_iff other removed,
    eq_iff other key,
    eq_iff removed key,
  )

  -- Reading after a write, whether the key was there or not.
  pub lookup-insert :
      (written key : String) (value : V) (d : Dict V)
      → lookup key (insert written value d) ≡ (if written == key then some value else lookup key d)
  unfolding lookup insert
  lookup-insert written key value [] = refl
  lookup-insert written key value ((other, held) ∷ rest) = ground (
    arith,
    lookup-insert written key value rest,
    eq_iff other written,
    eq_iff other key,
    eq_iff written key,
  )
