-- ===== src/Access/Gate/Judged.antt =====
-- src/http.ts: what the credentials of a request are worth, and what the limiter holds after them.
use herdr_web_broker.Common.{
  ℕ, ◌≡◌, refl, String, Bool, true, false, Option, some, none, List, [], ◌∷◌, ◌++◌, arith, str_eq,
  if◌then◌else◌, Bool-cases, inl, inr,
}
use herdr_web_broker.Access.Limiter.{
  AuthLimiter, fails, succeeds, asks, record_failure, success, blocked, step,
}
use herdr_web_broker.Access.Limiter.Refines.{Tracks, Tracks-step, window-step, max-step}

-- What a request's credentials are worth.
pub data Verdict : Type 0 where
  accepted wrong missing : Verdict

abbrev pub verdict_of : Bool → Bool → Verdict
verdict_of true attempt = accepted
verdict_of false true = wrong
verdict_of false false = missing

abbrev pub token_verdict : Option String → Bool → Verdict
token_verdict (some name) attempt = accepted
token_verdict none true = wrong
token_verdict none false = missing

abbrev pub after_verdict : Verdict → ℕ → List ℕ → List ℕ
after_verdict accepted now past = []
after_verdict wrong now past = past ++ now ∷ []
after_verdict missing now past = past

abbrev pub charged : Verdict → String → ℕ → AuthLimiter → AuthLimiter
charged accepted remote now l = success remote l
charged wrong remote now l = record_failure remote now l
charged missing remote now l = l

pub charged-Tracks :
    (v : Verdict) (ip remote : String) (now : ℕ) (l : AuthLimiter) (past : List ℕ)
    → Tracks ip now l past
    → Tracks ip now
        (charged v remote now l)
        (if str_eq remote ip then after_verdict v now past else past)
unfolding step
charged-Tracks accepted ip remote now l past t =
    Tracks-step ip now l past (succeeds remote) (omega arith) t
charged-Tracks wrong ip remote now l past t =
    Tracks-step ip now l past (fails remote now) (omega arith) t
charged-Tracks missing ip remote now l past t = elim (Bool-cases (str_eq remote ip)) [
  | inl same ↦ rw same t
  | inr other ↦ rw other t
]

-- The limit and the window stay what they are.
abbrev pub AreKept : AuthLimiter → AuthLimiter → Type 0
AreKept l k = (k.window_ms ≡ l.window_ms) × (k.max_failures ≡ l.max_failures)

pub charged-AreKept :
    (v : Verdict) (remote : String) (now : ℕ) (l : AuthLimiter) → AreKept l (charged v remote now l)
unfolding step
charged-AreKept accepted remote now l =
    (window-step l (succeeds remote), max-step l (succeeds remote))
charged-AreKept wrong remote now l =
    (window-step l (fails remote now), max-step l (fails remote now))
charged-AreKept missing remote now l = (refl, refl)

pub blocked-AreKept :
    (remote : String) (now : ℕ) (l : AuthLimiter) → AreKept l (blocked remote now l).0
unfolding step
blocked-AreKept remote now l = (window-step l (asks remote now), max-step l (asks remote now))
