-- ===== src/Agents/Readiness.antt =====
-- `holdsReady` of src/readiness.ts.
use herdr_web_broker.Common.{
  ◌≡◌, refl, ◌⊎◌, ◌↔◌, inl, inr, Bool, true, false, Option, some, none, List, [], ◌∷◌, arith, In,
}

-- The loop, with what `wasReady` is.
holds_from : Bool → List (Option Bool) → Bool
holds_from was_ready [] = true
holds_from was_ready (none ∷ samples) = holds_from was_ready samples
holds_from was_ready (some true ∷ samples) = holds_from true samples
holds_from true (some false ∷ samples) = false
holds_from false (some false ∷ samples) = holds_from false samples

pub holds_ready : List (Option Bool) → Bool
unfolding holds_from
holds_ready samples = holds_from false samples

-- A sample says that the pane is ready, and a later one that it is not.
abbrev pub HasDied : List (Option Bool) → Type 0
HasDied [] = ⊥
HasDied (s ∷ samples) = ((s ≡ some true) × In (some false) samples) ⊎ HasDied samples

HasDied-In : (samples : List (Option Bool)) → HasDied samples → In (some false) samples
HasDied-In [] h = absurd h
HasDied-In (s ∷ samples) (inl now) = inr now.1
HasDied-In (s ∷ samples) (inr later) = inr (HasDied-In samples later)

holds_from-true :
    (samples : List (Option Bool)) → holds_from true samples ≡ false ↔ In (some false) samples
unfolding holds_from
holds_from-true [] = (λ h. ground (arith, h), λ h. absurd h)
holds_from-true (none ∷ samples) = ground (arith, holds_from-true samples)
holds_from-true (some true ∷ samples) = ground (arith, holds_from-true samples)
holds_from-true (some false ∷ samples) = (λ h. inl refl, λ h. refl)

holds_from-false :
    (samples : List (Option Bool)) → holds_from false samples ≡ false ↔ HasDied samples
unfolding holds_from
holds_from-false [] = (λ h. ground (arith, h), λ h. absurd h)
holds_from-false (none ∷ samples) = ground (arith, holds_from-false samples)
holds_from-false (some true ∷ samples) = ground (arith, holds_from-true samples, HasDied-In samples)
holds_from-false (some false ∷ samples) = ground (arith, holds_from-false samples)

-- The hold fails exactly if some sample says that the pane is ready and a later one that it is not;
-- samples that say nothing, and a slow start, never fail it.
pub holds_ready-HasDied :
    (samples : List (Option Bool)) → holds_ready samples ≡ false ↔ HasDied samples
unfolding holds_ready
holds_ready-HasDied samples = holds_from-false samples
