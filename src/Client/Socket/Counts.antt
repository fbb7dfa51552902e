-- ===== src/Client/Socket/Counts.antt =====
-- Counting the taps of src/ws-server.ts: the live ones in a table, and those that effects open and close.
use herdr_web_broker.Common.{
  ℕ, to_ℕ, ◌+◌, ◌≤◌, ◌≡◌, refl, Bool, true, false, ◌&&◌, some, List, [], ◌∷◌, ◌++◌, nat_eq,
  if◌then◌else◌, arith,
}
use herdr_web_broker.Common.IdMap.{IdMap, at, put, without}
use herdr_web_broker.Common.IdMap.Uses.{uses}
use herdr_web_broker.Client.Socket.{Tap, reserved, live, Effect, opens, closes, close_taps}

abbrev pub opens_it : ℕ → Effect → ℕ
opens_it id (opens i) = to_ℕ (nat_eq i id)
opens_it id e = 0

abbrev pub closes_it : ℕ → Effect → ℕ
closes_it id (closes i) = to_ℕ (nat_eq i id)
closes_it id e = 0

unfoldable pub opened : ℕ → List Effect → ℕ
opened id [] = 0
opened id (e ∷ es) = opens_it id e + opened id es

unfoldable pub closures : ℕ → List Effect → ℕ
closures id [] = 0
closures id (e ∷ es) = closes_it id e + closures id es

pub opened-append :
    (id : ℕ) (es fs : List Effect) → opened id (es ++ fs) ≡ opened id es + opened id fs
unfolding opened
opened-append id [] fs = omega arith
opened-append id (e ∷ es) fs = omega (arith, opened-append id es fs)

pub closures-append :
    (id : ℕ) (es fs : List Effect) → closures id (es ++ fs) ≡ closures id es + closures id fs
unfolding closures
closures-append id [] fs = omega arith
closures-append id (e ∷ es) fs = omega (arith, closures-append id es fs)

abbrev pub is_live : Tap → Bool
is_live live = true
is_live reserved = false

-- The entries of `id` that hold a live tap.
unfoldable pub lives : ℕ → IdMap Tap → ℕ
lives id [] = 0
lives id ((i, v) ∷ ids) = to_ℕ (nat_eq i id && is_live v) + lives id ids

module _ (id : ℕ) where
  pub lives-without :
      (gone : ℕ) (ids : IdMap Tap)
      → lives id (without gone ids) ≡ (if nat_eq gone id then 0 else lives id ids)
  unfolding lives without
  lives-without gone [] = ground arith
  lives-without gone ((i, v) ∷ ids) = ground (arith, lives-without gone ids)

  pub lives-le : (ids : IdMap Tap) → lives id ids ≤ uses id ids
  unfolding lives uses
  lives-le [] = omega arith
  lives-le ((i, v) ∷ ids) = ground (arith, lives-le ids)

  pub lives-put :
      (set : ℕ) (v : Tap) (ids : IdMap Tap)
      → uses id ids ≤ 1
      → lives id (put set v ids) ≡ (if nat_eq set id then to_ℕ (is_live v) else lives id ids)
  unfolding lives uses put
  lives-put set v [] h = ground arith
  lives-put set v ((i, w) ∷ ids) h =
      ground (arith, lives-le ids, λ (k : uses id ids ≤ 1). lives-put set v ids k)

  pub closures-close_taps : (taps : IdMap Tap) → closures id (close_taps taps) ≡ lives id taps
  unfolding closures close_taps lives
  closures-close_taps [] = refl
  closures-close_taps ((i, live) ∷ taps) = ground (arith, closures-close_taps taps)
  closures-close_taps ((i, reserved) ∷ taps) = ground (arith, closures-close_taps taps)

  pub opened-close_taps : (taps : IdMap Tap) → opened id (close_taps taps) ≡ 0
  unfolding opened close_taps
  opened-close_taps [] = refl
  opened-close_taps ((i, live) ∷ taps) = ground (arith, opened-close_taps taps)
  opened-close_taps ((i, reserved) ∷ taps) = ground (arith, opened-close_taps taps)

  pub lives-at :
      (ids : IdMap Tap) (tap : Tap)
      → uses id ids ≤ 1
      → at id ids ≡ some tap
      → lives id ids ≡ to_ℕ (is_live tap)
  unfolding lives uses at
  lives-at [] tap h k = ground arith
  lives-at ((i, w) ∷ ids) tap h k = ground (
    arith,
    lives-le ids,
    λ (k' : uses id ids ≤ 1) (m : at id ids ≡ some tap). lives-at ids tap k' m,
  )
