-- ===== src/Calls/Redial.antt =====
-- `#scheduleRedial` of src/south.ts: how long a child waits before it dials its parent again. The delay
-- that is drawn, `base * (0.8 + Math.random() * 0.4)`, is read from this base.
use native.Mathlib.Nat.{one-le-pow, pow-le-pow_right}
use herdr_web_broker.Common.{
  ℕ, suc, ◌+◌, ◌*◌, ◌^◌, ◌≤◌, ◌≡◌, Bool, true, false, List, [], ◌∷◌, ◌++◌, if◌then◌else◌, min,
  arith, All, All-append,
}

abbrev pub backoff_base_ms : ℕ
backoff_base_ms = 1000

abbrev pub backoff_cap_ms : ℕ
backoff_cap_ms = 60000

pub redial_base : ℕ → ℕ
redial_base attempt = min (backoff_base_ms * 2 ^ attempt) backoff_cap_ms

pub record ParentLink : Type 0 where
  pub attempt : ℕ
  pub stopped : Bool
  -- the bases of the delays that were scheduled
  pub delays : List ℕ

pub data Happening : Type 0 where
  starts welcomed closes stops : Happening

schedule_redial : ParentLink → ParentLink
unfolding redial_base
schedule_redial l =
    if l.stopped
    then l
    else record l { attempt = l.attempt + 1; delays = l.delays ++ redial_base l.attempt ∷ [] }

pub step : ParentLink → Happening → ParentLink
unfolding schedule_redial
step l starts = record l { stopped = false }
step l welcomed = record l { attempt = 0 }
step l closes = schedule_redial l
step l stops = record l { stopped = true }

pub run : ParentLink → List Happening → ParentLink
run l [] = l
run l (h ∷ hs) = run (step l h) hs

pub new : ParentLink
new = record { attempt = 0; stopped = false; delays = [] }

redial_base_range : (a : ℕ) → (backoff_base_ms ≤ redial_base a) × (redial_base a ≤ backoff_cap_ms)
unfolding redial_base
redial_base_range a =
    let positive = one-le-pow a 2 (omega arith) in (omega (arith, positive), omega arith)

-- Each base is twice the one before it, up to the cap, which the seventh reaches.
redial_base_doubles :
    (a : ℕ)
    → (redial_base (suc a) ≡ min (2 * redial_base a) backoff_cap_ms)
      × (redial_base (a + 6) ≡ backoff_cap_ms)
unfolding redial_base
redial_base_doubles a =
    let big : 2 ^ 6 ≤ 2 ^ (a + 6) =
      pow-le-pow_right {n = 2} (omega arith) {i = 6} {j = a + 6} (omega arith) in
    (omega arith, omega (arith, big))

abbrev pub IsRanged : ℕ → Type 0
IsRanged d = (backoff_base_ms ≤ d) × (d ≤ backoff_cap_ms)

step-IsRanged :
    (l : ParentLink) (h : Happening) → All IsRanged l.delays → All IsRanged (step l h).delays
unfolding step schedule_redial
step-IsRanged l starts v = v
step-IsRanged l welcomed v = v
step-IsRanged l closes v = go l.stopped
  where
    go :
        (b : Bool)
        → All IsRanged
            (if b then l else record l {
              attempt = l.attempt + 1;
              delays = l.delays ++ redial_base l.attempt ∷ [];
            }).delays
    go true = v
    go false = All-append IsRanged l.delays _ v (redial_base_range l.attempt, tt)
step-IsRanged l stops v = v

run-IsRanged :
    (l : ParentLink) (hs : List Happening) → All IsRanged l.delays → All IsRanged (run l hs).delays
unfolding run
run-IsRanged l [] v = v
run-IsRanged l (h ∷ hs) v = run-IsRanged (step l h) hs (step-IsRanged l h v)

-- Every base from which a child draws the delay before it dials again is from one second to one
-- minute; from one failed attempt to the next it doubles up to the cap, which the seventh reaches.
pub delays-IsRanged :
    (hs : List Happening) (a : ℕ)
    → All IsRanged (run new hs).delays
      × (redial_base (suc a) ≡ min (2 * redial_base a) backoff_cap_ms)
      × (redial_base (a + 6) ≡ backoff_cap_ms)
unfolding new
delays-IsRanged hs a =
    let doubles = redial_base_doubles a in (run-IsRanged new hs tt, doubles.0, doubles.1)
