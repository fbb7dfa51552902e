-- ===== src/Access/Gate/Limited.antt =====
-- src/http.ts and src/ws-server.ts: who fails to authenticate too often is not listened to. The two share one
-- limiter.
use herdr_web_broker.Common.{
  ℕ, ◌≤◌, ◌≡◌, refl, ◌∙◌, sym, ap, String, Bool, true, false, not, ◌&&◌, Option, List, [], ◌∷◌, any,
  arith, str_eq, leb, if◌then◌else◌, length, filter, Bool-cases, inl, inr, subst,
}
use herdr_web_broker.Access.Bearer.{ClientToken, match_token}
use herdr_web_broker.Access.Limiter.{AuthLimiter, recent, blocked}
use herdr_web_broker.Access.Limiter.Refines.{Tracks, stored_empty, blocked-Tracks}
use herdr_web_broker.Access.Gate.{
  Request, Admission, health, rate_limited, is_health, is_admin, presented, is_attempt,
  is_admin_token, checked, gate,
}
use herdr_web_broker.Access.Gate.Judged.{Verdict, verdict_of, token_verdict, after_verdict, AreKept}
use herdr_web_broker.Client.Upgrade.{Upgrade, refuses, is_offered, first_match, upgrade_events}
use herdr_web_broker.Access.Gate.Decided.{
  admitted, upgraded, decided, decided_free, admin-charged, client-charged, matched-charged,
  decided-Tracks, decided-AreKept,
}

-- A request, or an upgrade on /events with the headers that it offers.
pub data Knock : Type 0 where
  asks_http : Request → Knock
  upgrades : (remote : String) → (offered : List (Option String)) → Knock

-- A knock, the tokens of the configuration then, and the time.
pub record Visit : Type 0 where
  pub knock : Knock
  pub tokens : List ClientToken
  pub now : ℕ

abbrev pub remote_of : Knock → String
remote_of (asks_http r) = r.remote
remote_of (upgrades remote offered) = remote

abbrev pub is_free : Knock → Bool
is_free (asks_http r) = is_health r
is_free (upgrades remote offered) = false

module _ (sha256 : String → List ℕ) (to_hex : List ℕ → String) (from_hex : String → List ℕ)
    (admin_secret : String) where
  -- What the credentials of a knock are worth.
  abbrev pub judge : Knock → List ClientToken → Verdict
  judge (asks_http r) tokens =
      if is_admin r
      then verdict_of (is_admin_token sha256 to_hex from_hex admin_secret tokens r)
          (not (str_eq (presented r.admin_token) ""))
      else token_verdict (match_token sha256 to_hex from_hex r.authorization tokens)
          (is_attempt r.authorization)
  judge (upgrades remote offered) tokens =
      token_verdict (first_match sha256 to_hex from_hex offered tokens) (any is_offered offered)

  -- The limiter after a visit, and whether it was turned away as one too many.
  abbrev pub visited : Visit → AuthLimiter → AuthLimiter × Bool
  visited visit l = elim visit.knock [
    | asks_http r ↦ admitted (gate sha256 to_hex from_hex admin_secret visit.tokens r visit.now l)
    | upgrades remote offered ↦
        upgraded (upgrade_events sha256 to_hex from_hex offered visit.tokens remote visit.now l)
  ]

  -- The failed attempts of `ip` that were judged, since one was accepted, as a broker that forgets nothing
  -- would hold them.
  abbrev pub attempts_after : ℕ → ℕ → String → List ℕ → Visit → List ℕ
  attempts_after most window ip past v =
      if not (is_free v.knock) && str_eq (remote_of v.knock) ip
      then if leb most (length (filter (recent window v.now) past))
        then past
        else after_verdict (judge v.knock v.tokens) v.now past
      else past

  unfoldable pub attempts : ℕ → ℕ → String → List ℕ → List Visit → List ℕ
  attempts most window ip past [] = past
  attempts most window ip past (v ∷ vs) =
      attempts most window ip (attempts_after most window ip past v) vs

  unfoldable pub run_visits : AuthLimiter → List Visit → AuthLimiter
  run_visits l [] = l
  run_visits l (v ∷ vs) = run_visits (visited v l).0 vs

  abbrev pub AreInOrder : ℕ → ℕ → List Visit → Type 0
  AreInOrder clock last [] = clock ≤ last
  AreInOrder clock last (v ∷ vs) = (clock ≤ v.now) × AreInOrder v.now last vs

  checked-charged :
      (r : Request) (tokens : List ClientToken) (now : ℕ) (l : AuthLimiter)
      → admitted (checked sha256 to_hex from_hex admin_secret tokens r now l)
        ≡ decided_free (judge (asks_http r) tokens) r.remote now l
  unfolding checked
  checked-charged r tokens now l =
      elim (Bool-cases (is_admin r))
        as (λ _.
          admitted (checked sha256 to_hex from_hex admin_secret tokens r now l)
          ≡ decided_free (judge (asks_http r) tokens) r.remote now l) [
            | inl admin ↦ rw admin (admin-charged _ _ r.remote now l)
            | inr client ↦ rw client (client-charged _ _ r.remote now l)
          ]

  visited-decided :
      (k : Knock) (tokens : List ClientToken) (now : ℕ) (l : AuthLimiter)
      → visited (record { knock = k; tokens = tokens; now = now }) l
        ≡ decided (is_free k) (remote_of k) (judge k tokens) now l
  unfolding gate upgrade_events
  visited-decided (asks_http r) tokens now l =
      by_cases (is_health r) (blocked r.remote now l).1 (blocked r.remote now l).0 _ _
        (checked-charged r tokens now (blocked r.remote now l).0)
    where
      by_cases :
          (free is_blocked : Bool) (asked : AuthLimiter) (c : AuthLimiter × Admission)
          (d : AuthLimiter × Bool)
          → admitted c ≡ d
          → admitted (if free then (l, health) else if is_blocked then (asked, rate_limited) else c)
            ≡ (if free then (l, false) else if is_blocked then (asked, true) else d)
      by_cases true is_blocked asked c d h = refl
      by_cases false true asked c d h = refl
      by_cases false false asked c d h = h
  visited-decided (upgrades remote offered) tokens now l =
      by_cases (blocked remote now l).1 (blocked remote now l).0 _ _ (
        matched-charged sha256 to_hex from_hex (first_match sha256 to_hex from_hex offered tokens)
          offered remote now (blocked remote now l).0)
    where
      by_cases :
          (is_blocked : Bool) (asked : AuthLimiter) (c : AuthLimiter × Upgrade)
          (d : AuthLimiter × Bool)
          → upgraded c ≡ d
          → upgraded (if is_blocked then (asked, refuses 429) else c)
            ≡ (if is_blocked then (asked, true) else d)
      by_cases true asked c d h = refl
      by_cases false asked c d h = h

  run_visits-Tracks :
      (ip : String) (clock last : ℕ) (l : AuthLimiter) (past : List ℕ) (vs : List Visit)
      → AreInOrder clock last vs
      → Tracks ip clock l past
      → Tracks ip last (run_visits l vs) (attempts l.max_failures l.window_ms ip past vs)
        × AreKept l (run_visits l vs)
  unfolding run_visits attempts
  run_visits-Tracks ip clock last l past [] h t = (λ m k. t m (omega (arith, h, k)), (refl, refl))
  run_visits-Tracks ip clock last l past (v ∷ vs) (h, k) t =
      let same = visited-decided v.knock v.tokens v.now l in
      let next = (visited v l).0 in
      let worth = judge v.knock v.tokens in
      let kept : AreKept l next =
        subst (λ p. AreKept l p.0) (sym same)
          (decided-AreKept (is_free v.knock) (remote_of v.knock) worth v.now l) in
      let after = attempts_after l.max_failures l.window_ms ip past v in
      let here : Tracks ip v.now next after =
        subst (λ p. Tracks ip v.now p.0 after) (sym same)
          (decided-Tracks ip (is_free v.knock) (remote_of v.knock) worth v.now l past
            (λ m le. t m (omega (arith, h, le)))) in
      let rest = run_visits-Tracks ip v.now last next after vs k here in
      (
        subst (λ w. Tracks ip last (run_visits next vs) (attempts l.max_failures w ip after vs))
            kept.0
            (subst
              (λ n. Tracks ip last (run_visits next vs) (attempts n next.window_ms ip after vs))
              kept.1 rest.0),
        (rest.1.0 ∙ kept.0, rest.1.1 ∙ kept.1),
      )

  decided_guarded :
      (remote : String) (v : Verdict) (now : ℕ) (l : AuthLimiter)
      → (decided false remote v now l).1 ≡ (blocked remote now l).1
  decided_guarded remote v now l =
      elim (Bool-cases (blocked remote now l).1)
        as (λ _. (decided false remote v now l).1 ≡ (blocked remote now l).1) [
          | inl refused ↦ rw refused refl
          | inr listens ↦ rw listens refl
        ]

  -- Whatever requests and upgrades of clients came before, from whomever, at times that never decrease, and
  -- whatever tokens there were: one that comes now, other than for /health, is turned away unread exactly
  -- if, since the last of its address that was accepted, at least `max_failures` of its address that were
  -- looked at had wrong credentials within the window that ends now.
  pub visited-run_visits :
      (l : AuthLimiter) (vs : List Visit) (v : Visit)
      → l.failures ≡ []
      → AreInOrder 0 v.now vs
      → is_free v.knock ≡ false
      → (visited v (run_visits l vs)).1
        ≡ leb l.max_failures (
            length (
              filter
                (recent l.window_ms v.now)
                (attempts l.max_failures l.window_ms (remote_of v.knock) [] vs)))
  visited-run_visits l vs v empty ordered guarded =
      let ip = remote_of v.knock in
      let start : Tracks ip 0 l [] = λ m k. rw (stored_empty ip l empty) in
      let (tracked, kept) = run_visits-Tracks ip 0 v.now l [] vs ordered start in
      let final = run_visits l vs in
      let past = attempts l.max_failures l.window_ms ip [] vs in
      let same_limits : leb final.max_failures (length (filter (recent final.window_ms v.now) past))
          ≡ leb l.max_failures (length (filter (recent l.window_ms v.now) past)) =
        rw (kept.0, kept.1) refl in
      ap (λ p. p.1) (visited-decided v.knock v.tokens v.now final)
      ∙ ap (λ free. (decided free ip (judge v.knock v.tokens) v.now final).1) guarded
      ∙ decided_guarded ip (judge v.knock v.tokens) v.now final
      ∙ blocked-Tracks ip v.now final past tracked
      ∙ same_limits
