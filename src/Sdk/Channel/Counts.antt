-- ===== src/Sdk/Channel/Counts.antt =====
-- How often the calls of an `EventChannel` are sent and settled.
use herdr_web_broker.Common.{
  ℕ, to_ℕ, ◌+◌, ◌≡◌, refl, Bool, true, false, List, [], ◌∷◌, ◌++◌, nat_eq, if◌then◌else◌, arith,
}
use herdr_web_broker.Common.IdMap.{IdMap}
use herdr_web_broker.Common.IdMap.Uses.{uses}
use herdr_web_broker.Sdk.Channel.{Purpose, Effect, probes, sends, resolves, rejects, reject_all}

abbrev sends_it : ℕ → Effect → ℕ
sends_it id (sends i socket) = to_ℕ (nat_eq i id)
sends_it id e = 0

abbrev settles_it : ℕ → Effect → ℕ
settles_it id (resolves i) = to_ℕ (nat_eq i id)
settles_it id (rejects i) = to_ℕ (nat_eq i id)
settles_it id e = 0

-- How often the call `id` was sent, and how often its promise was resolved or rejected.
unfoldable pub sent : ℕ → List Effect → ℕ
sent id [] = 0
sent id (e ∷ es) = sends_it id e + sent id es

unfoldable pub settled : ℕ → List Effect → ℕ
settled id [] = 0
settled id (e ∷ es) = settles_it id e + settled id es

pub sent-append : (id : ℕ) (es fs : List Effect) → sent id (es ++ fs) ≡ sent id es + sent id fs
unfolding sent
sent-append id [] fs = omega arith
sent-append id (e ∷ es) fs = omega (arith, sent-append id es fs)

pub settled-append :
    (id : ℕ) (es fs : List Effect) → settled id (es ++ fs) ≡ settled id es + settled id fs
unfolding settled
settled-append id [] fs = omega arith
settled-append id (e ∷ es) fs = omega (arith, settled-append id es fs)

module _ (id : ℕ) where
  pub settled-reject_all : (ps : IdMap Purpose) → settled id (reject_all ps) ≡ uses id ps
  unfolding settled reject_all uses
  settled-reject_all [] = refl
  settled-reject_all ((i, p) ∷ ps) = omega (arith, settled-reject_all ps)

  pub sent-reject_all : (ps : IdMap Purpose) → sent id (reject_all ps) ≡ 0
  unfolding sent reject_all
  sent-reject_all [] = refl
  sent-reject_all ((i, p) ∷ ps) = omega (arith, sent-reject_all ps)

  pub settled-probing : (b : Bool) → settled id (if b then probes ∷ [] else []) ≡ 0
  unfolding settled
  settled-probing true = refl
  settled-probing false = refl

  pub sent-probing : (b : Bool) → sent id (if b then probes ∷ [] else []) ≡ 0
  unfolding sent
  sent-probing true = refl
  sent-probing false = refl
