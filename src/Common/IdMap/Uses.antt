-- ===== src/Common/IdMap/Uses.antt =====
-- How many entries of an id map are of one id.
use Prim.Native.Nat.{ℕ, ◌+◌}
use mathlib.Core.Path.{◌≡◌, refl}
use mathlib.Core.Bool.{◌&&◌}
use mathlib.Core.List.{[], ◌∷◌}
use native.Mathlib.Omega.{arith}
use herdr_web_broker.Common.Tests.{if◌then◌else◌, nat_eq, is_some, to_ℕ, ltb}
use herdr_web_broker.Common.IdMap.{IdMap, at, without, put}

module _ {V : Type 0} (id : ℕ) where
  unfoldable pub uses : IdMap V → ℕ
  uses [] = 0
  uses ((i, v) ∷ ids) = to_ℕ (nat_eq i id) + uses ids

  pub uses-without :
      (gone : ℕ) (ids : IdMap V)
      → uses (without gone ids) ≡ (if nat_eq gone id then 0 else uses ids)
  unfolding uses without
  uses-without gone [] = ground arith
  uses-without gone ((i, v) ∷ ids) = ground (arith, uses-without gone ids)

  pub uses-put :
      (set : ℕ) (v : V) (ids : IdMap V)
      → uses (put set v ids) ≡ (if nat_eq set id && nat_eq (uses ids) 0 then 1 else uses ids)
  unfolding uses put
  uses-put set v [] = ground arith
  uses-put set v ((i, w) ∷ ids) = ground (arith, uses-put set v ids)

  pub at-uses : (ids : IdMap V) → is_some (at id ids) ≡ ltb 0 (uses ids)
  unfolding uses at
  at-uses [] = refl
  at-uses ((i, v) ∷ ids) = ground (arith, at-uses ids)
