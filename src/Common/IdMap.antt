-- ===== src/Common/IdMap.antt =====
-- Maps keyed by serial numbers, for the ids that the source makes of a counter.
pub mod Uses
use Prim.Native.Nat.{ℕ}
use mathlib.Core.Path.{◌≡◌, refl}
use mathlib.Core.Option.{Option, none, some}
use mathlib.Core.List.{List, [], ◌∷◌}
use native.Mathlib.Omega.{arith}
use herdr_web_broker.Common.Tests.{if◌then◌else◌, nat_eq}

abbrev pub IdMap {ℓ} : Type ℓ → Type ℓ
IdMap V = List (ℕ × V)

module _ {ℓ} {V : Type ℓ} where
  unfoldable pub at : ℕ → IdMap V → Option V
  at id [] = none
  at id ((i, v) ∷ ids) = if nat_eq i id then some v else at id ids

  unfoldable pub without : ℕ → IdMap V → IdMap V
  without id [] = []
  without id ((i, v) ∷ ids) = if nat_eq i id then without id ids else (i, v) ∷ without id ids

  -- `map.set(id, value)`; an entry that is there is replaced.
  unfoldable pub put : ℕ → V → IdMap V → IdMap V
  put id v [] = (id, v) ∷ []
  put id v ((i, w) ∷ ids) = if nat_eq i id then (i, v) ∷ ids else (i, w) ∷ put id v ids

  pub at-without :
      (gone id : ℕ) (ids : IdMap V)
      → at id (without gone ids) ≡ (if nat_eq gone id then none else at id ids)
  unfolding at without
  at-without gone id [] = ground arith
  at-without gone id ((i, v) ∷ ids) = ground (arith, at-without gone id ids)

  pub at-put :
      (set id : ℕ) (v : V) (ids : IdMap V)
      → at id (put set v ids) ≡ (if nat_eq set id then some v else at id ids)
  unfolding at put
  at-put set id v [] = refl
  at-put set id v ((i, w) ∷ ids) = ground (arith, at-put set id v ids)
