-- ===== src/Access/Limiter/Refines.antt =====
-- The pruned map of src/auth-limit.ts counts as a limiter that forgets nothing would.
use herdr_web_broker.Common.{
  ℕ, ◌≤◌, ◌≡◌, refl, ap, subst, ◌∙◌, String, List, [], ◌∷◌, ◌++◌, arith, str_eq, eq_iff, leb,
  if◌then◌else◌, length, filter, filter-append,
}
use herdr_web_broker.Common.Dict.{lookup, lookup-insert, lookup-remove}
use herdr_web_broker.Access.Limiter.{
  AuthLimiter, Call, fails, succeeds, asks, recent, stored, live, record_failure, success, blocked,
  step, run,
}

-- What a limiter that forgets nothing would hold: every failure since the last success.
abbrev pub past_after : String → List ℕ → Call → List ℕ
past_after ip past (fails i now) = if str_eq i ip then past ++ now ∷ [] else past
past_after ip past (succeeds i) = if str_eq i ip then [] else past
past_after ip past (asks i now) = past

pub failures_since : String → List ℕ → List Call → List ℕ
failures_since ip past [] = past
failures_since ip past (c ∷ cs) = failures_since ip (past_after ip past c) cs

abbrev time_of : ℕ → Call → ℕ
time_of clock (fails ip now) = now
time_of clock (succeeds ip) = clock
time_of clock (asks ip now) = now

-- The clock does not run backwards, from `clock` on to `last`.
abbrev pub IsMonotone : ℕ → ℕ → List Call → Type 0
IsMonotone clock last [] = clock ≤ last
IsMonotone clock last (c ∷ cs) = (clock ≤ time_of clock c) × IsMonotone (time_of clock c) last cs

IsMonotone-le : (clock last : ℕ) (cs : List Call) → IsMonotone clock last cs → clock ≤ last
IsMonotone-le clock last [] h = h
IsMonotone-le clock last (c ∷ cs) (h, k) = omega (arith, IsMonotone-le (time_of clock c) last cs k)

-- What has left the window stays out.
filter-recent :
    (window now later : ℕ) (ts : List ℕ)
    → now ≤ later
    → filter (recent window later) (filter (recent window now) ts) ≡ filter (recent window later) ts
filter-recent window now later [] h = refl
filter-recent window now later (t ∷ ts) h = ground (arith, filter-recent window now later ts h)

stored-live :
    (ip j : String) (now : ℕ) (l : AuthLimiter)
    → stored j (live ip now l).0
      ≡ (if str_eq ip j then filter (recent l.window_ms now) (stored ip l) else stored j l)
unfolding live
stored-live ip j now l = ground (
  arith,
  lookup-insert ip j (filter (recent l.window_ms now) (stored ip l)) l.failures,
  lookup-remove ip j l.failures,
)

stored-record_failure :
    (ip j : String) (now : ℕ) (l : AuthLimiter)
    → stored j (record_failure ip now l) ≡ (
        if str_eq ip j
        then filter (recent l.window_ms now) (stored ip l) ++ now ∷ []
        else stored j l)
unfolding record_failure
stored-record_failure ip j now l = ground (
  arith,
  stored-live ip j now l,
  lookup-insert ip j (filter (recent l.window_ms now) (stored ip l) ++ now ∷ [])
      (live ip now l).0.failures,
)

-- From `clock` on the limiter holds, of an address, what `past` shows.
abbrev pub Tracks : String → ℕ → AuthLimiter → List ℕ → Type 0
Tracks ip clock l past =
    (m : ℕ)
    → clock ≤ m
    → filter (recent l.window_ms m) (stored ip l) ≡ filter (recent l.window_ms m) past

pub window-step : (l : AuthLimiter) (c : Call) → (step l c).window_ms ≡ l.window_ms
unfolding step record_failure success blocked live
window-step l (fails ip now) = refl
window-step l (succeeds ip) = refl
window-step l (asks ip now) = refl

pub max-step : (l : AuthLimiter) (c : Call) → (step l c).max_failures ≡ l.max_failures
unfolding step record_failure success blocked live
max-step l (fails ip now) = refl
max-step l (succeeds ip) = refl
max-step l (asks ip now) = refl

pub Tracks-step :
    (ip : String) (clock : ℕ) (l : AuthLimiter) (past : List ℕ) (c : Call)
    → clock ≤ time_of clock c
    → Tracks ip clock l past
    → Tracks ip (time_of clock c) (step l c) (past_after ip past c)
unfolding step success blocked
Tracks-step ip clock l past (fails i now) h t m k =
    rw (window-step l (fails i now), stored-record_failure i ip now l)
      (ground (
        arith,
        filter-append (recent l.window_ms m) (filter (recent l.window_ms now) (stored i l))
            (now ∷ []),
        filter-append (recent l.window_ms m) past (now ∷ []),
        filter-recent l.window_ms now m (stored i l) k,
        t m (omega arith),
        eq_iff i ip,
      ))
Tracks-step ip clock l past (succeeds i) h t m k =
    rw (window-step l (succeeds i)) (ground (arith, lookup-remove i ip l.failures, t m k))
Tracks-step ip clock l past (asks i now) h t m k =
    rw (window-step l (asks i now), stored-live i ip now l)
      (ground
        (arith, filter-recent l.window_ms now m (stored i l) k, t m (omega arith), eq_iff i ip))

Tracks-run :
    (ip : String) (clock last : ℕ) (l : AuthLimiter) (past : List ℕ) (cs : List Call)
    → IsMonotone clock last cs
    → Tracks ip clock l past
    → (filter (recent l.window_ms last) (stored ip (run l cs))
        ≡ filter (recent l.window_ms last) (failures_since ip past cs))
      × ((run l cs).window_ms ≡ l.window_ms)
      × ((run l cs).max_failures ≡ l.max_failures)
unfolding run failures_since
Tracks-run ip clock last l past [] h t = (t last h, refl, refl)
Tracks-run ip clock last l past (c ∷ cs) (h, k) t =
    let ih =
      Tracks-run ip (time_of clock c) last (step l c) (past_after ip past c) cs k
        (Tracks-step ip clock l past c h t) in
    let w = window-step l c in
    let final = run (step l c) cs in
    let spec = failures_since ip (past_after ip past c) cs in
    (
      subst (λ n. filter (recent n last) (stored ip final) ≡ filter (recent n last) spec) w ih.0,
      ih.1 ∙ w,
      ih.2 ∙ max-step l c,
    )

pub stored_empty : (ip : String) (l : AuthLimiter) → l.failures ≡ [] → stored ip l ≡ []
unfolding lookup
stored_empty ip l e = rw e

-- Whatever was recorded, cleared and asked before, at times that never decrease: an address is
-- blocked exactly if, since its last success, it failed at least `max_failures` times within the
-- window that ends now.
pub blocked-run :
    (ip : String) (now : ℕ) (l : AuthLimiter) (cs : List Call)
    → l.failures ≡ []
    → IsMonotone 0 now cs
    → (blocked ip now (run l cs)).1
      ≡ leb l.max_failures (length (filter (recent l.window_ms now) (failures_since ip [] cs)))
unfolding blocked
blocked-run ip now l cs empty h =
    let start : Tracks ip 0 l [] = λ m k. rw (stored_empty ip l empty) in
    let (kept, w, most) = Tracks-run ip 0 now l [] cs h start in rw (most, w, kept)

pub blocked-Tracks :
    (ip : String) (now : ℕ) (l : AuthLimiter) (past : List ℕ)
    → Tracks ip now l past
    → (blocked ip now l).1 ≡ leb l.max_failures (length (filter (recent l.window_ms now) past))
unfolding blocked
blocked-Tracks ip now l past t = ap (λ ts. leb l.max_failures (length ts)) (t now (omega arith))
