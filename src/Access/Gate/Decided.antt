-- ===== src/Access/Gate/Decided.antt =====
-- src/http.ts and src/ws-server.ts: what the limiter holds once a request or an upgrade was decided.
use herdr_web_broker.Common.{
  ℕ, ◌≡◌, refl, ◌∙◌, sym, String, Bool, true, false, not, ◌&&◌, Option, some, none, List, any,
  arith, str_eq, eq_iff, leb, if◌then◌else◌, length, filter, Bool-cases, inl, inr, subst,
}
use herdr_web_broker.Access.Limiter.{AuthLimiter, asks, recent, blocked, record_failure, step}
use herdr_web_broker.Access.Limiter.Refines.{Tracks, Tracks-step, blocked-Tracks}
use herdr_web_broker.Access.Gate.{Admission, rate_limited, recorded, checked_admin, checked_client}
use herdr_web_broker.Access.Gate.Judged.{
  Verdict, verdict_of, token_verdict, after_verdict, charged, charged-Tracks, AreKept,
  charged-AreKept, blocked-AreKept,
}
use herdr_web_broker.Client.Upgrade.{Upgrade, refuses, is_offered, matched}

abbrev pub is_limited : Admission → Bool
is_limited rate_limited = true
is_limited _ = false

abbrev pub is_429 : Upgrade → Bool
is_429 (refuses status) = if leb 429 status then leb status 429 else false
is_429 _ = false

abbrev pub admitted : AuthLimiter × Admission → AuthLimiter × Bool
admitted (l, a) = (l, is_limited a)

abbrev pub upgraded : AuthLimiter × Upgrade → AuthLimiter × Bool
upgraded (l, u) = (l, is_429 u)

-- What becomes of the limiter, and whether the knock is turned away, by whether it is free, and by what its
-- credentials are worth.
abbrev pub decided : Bool → String → Verdict → ℕ → AuthLimiter → AuthLimiter × Bool
decided free remote v now l =
    let asked = blocked remote now l in
    if free
    then (l, false)
    else if asked.1
    then (asked.0, true)
    else (charged v remote now asked.0, false)

-- A knock that was looked at is not turned away as one too many.
abbrev pub decided_free : Verdict → String → ℕ → AuthLimiter → AuthLimiter × Bool
decided_free v remote now l = (charged v remote now l, false)

pub admin-charged :
    (ok attempt : Bool) (remote : String) (now : ℕ) (l : AuthLimiter)
    → admitted (checked_admin ok attempt remote now l)
      ≡ decided_free (verdict_of ok attempt) remote now l
unfolding checked_admin recorded
admin-charged true attempt remote now l = refl
admin-charged false true remote now l = refl
admin-charged false false remote now l = refl

pub client-charged :
    (o : Option String) (attempt : Bool) (remote : String) (now : ℕ) (l : AuthLimiter)
    → admitted (checked_client o attempt remote now l)
      ≡ decided_free (token_verdict o attempt) remote now l
unfolding checked_client recorded
client-charged (some name) attempt remote now l = refl
client-charged none true remote now l = refl
client-charged none false remote now l = refl

pub matched-charged :
    (sha256 : String → List ℕ) (to_hex : List ℕ → String) (from_hex : String → List ℕ)
    (o : Option String) (offered : List (Option String)) (ip : String) (now : ℕ) (l : AuthLimiter)
    → upgraded (matched sha256 to_hex from_hex o offered ip now l)
      ≡ decided_free (token_verdict o (any is_offered offered)) ip now l
unfolding matched
matched-charged sha256 to_hex from_hex (some name) offered ip now l = refl
matched-charged sha256 to_hex from_hex none offered ip now l = by_attempt (any is_offered offered)
  where
    by_attempt :
        (b : Bool)
        → upgraded ((if b then record_failure ip now l else l), refuses 401)
          ≡ decided_free (token_verdict none b) ip now l
    by_attempt true = refl
    by_attempt false = refl

pub pruned-Tracks :
    (ip remote : String) (now : ℕ) (l : AuthLimiter) (past : List ℕ)
    → Tracks ip now l past
    → Tracks ip now (blocked remote now l).0 past
unfolding step
pruned-Tracks ip remote now l past t = Tracks-step ip now l past (asks remote now) (omega arith) t

pub blocked_there :
    (ip remote : String) (now : ℕ) (l : AuthLimiter) (past : List ℕ)
    → Tracks ip now l past
    → str_eq remote ip ≡ true
    → (blocked remote now l).1 ≡ leb l.max_failures (length (filter (recent l.window_ms now) past))
blocked_there ip remote now l past t same =
    subst
      (λ i.
        (blocked i now l).1 ≡ leb l.max_failures (length (filter (recent l.window_ms now) past)))
      (sym ((eq_iff remote ip).0 same)) (blocked-Tracks ip now l past t)

-- The failed attempts of an address once a knock was decided.
abbrev pub after_knock : Bool → Bool → Verdict → ℕ → List ℕ → List ℕ
after_knock here most v now past =
    if here then if most then past else after_verdict v now past else past

pub refused_past :
    (v : Verdict) (here most : Bool) (now : ℕ) (past : List ℕ) (is_blocked : Bool)
    → is_blocked ≡ true
    → (here ≡ true → is_blocked ≡ most)
    → after_knock here most v now past ≡ past
refused_past v true true now past is_blocked b h = refl
refused_past v true false now past is_blocked b h = absurd (cc (h refl, b))
refused_past v false most now past is_blocked b h = refl

pub judged_past :
    (v : Verdict) (here most : Bool) (now : ℕ) (past : List ℕ) (is_blocked : Bool)
    → is_blocked ≡ false
    → (here ≡ true → is_blocked ≡ most)
    → after_knock here most v now past ≡ (if here then after_verdict v now past else past)
judged_past v true false now past is_blocked b h = refl
judged_past v true true now past is_blocked b h = absurd (cc (h refl, b))
judged_past v false most now past is_blocked b h = refl

pub decided-Tracks :
    (ip : String) (free : Bool) (remote : String) (v : Verdict) (now : ℕ) (l : AuthLimiter)
    (past : List ℕ)
    → Tracks ip now l past
    → Tracks ip now (decided free remote v now l).0 (
        after_knock
          (not free && str_eq remote ip)
          (leb l.max_failures (length (filter (recent l.window_ms now) past)))
          v
          now
          past)
decided-Tracks ip true remote v now l past t = t
decided-Tracks ip false remote v now l past t =
    let most = leb l.max_failures (length (filter (recent l.window_ms now) past)) in
    let here = str_eq remote ip in
    let there = blocked_there ip remote now l past t in
    let pruned = pruned-Tracks ip remote now l past t in
    elim (Bool-cases (blocked remote now l).1)
      as (λ _. Tracks ip now (decided false remote v now l).0 (after_knock here most v now past)) [
        | inl refused ↦ rw (refused, refused_past v here most now past _ refused there) pruned
        | inr listens ↦
            rw (listens, judged_past v here most now past _ listens there)
              (charged-Tracks v ip remote now (blocked remote now l).0 past pruned)
      ]

pub decided-AreKept :
    (free : Bool) (remote : String) (v : Verdict) (now : ℕ) (l : AuthLimiter)
    → AreKept l (decided free remote v now l).0
decided-AreKept true remote v now l = (refl, refl)
decided-AreKept false remote v now l =
    let asked = blocked-AreKept remote now l in
    let answered = charged-AreKept v remote now (blocked remote now l).0 in
    elim (Bool-cases (blocked remote now l).1)
      as (λ _. AreKept l (decided false remote v now l).0) [
        | inl refused ↦ rw refused asked
        | inr listens ↦ rw listens (answered.0 ∙ asked.0, answered.1 ∙ asked.1)
      ]
