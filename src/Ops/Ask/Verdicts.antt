-- ===== src/Ops/Ask/Verdicts.antt =====
-- `ask` of src/workspace-ops.ts: what ends its loop, and how.
use herdr_web_broker.Common.{
  ℕ, zero, suc, ◌+◌, ◌-◌, ◌≤◌, ◌<◌, ◌≡◌, refl, String, Bool, true, false, ◌||◌, Option, some, none,
  arith, ltb, Bool-cases, inl, inr, or_else, ltb→lt, leb, ◌&&◌, is_some, subst,
}
use herdr_web_broker.Agents.Turn.{Evidence, Decision}
use herdr_web_broker.Ops.Values.{Value}
use herdr_web_broker.Ops.Ask.{
  AnswerRead, Pacing, Round, Verdict, finishes, stalls, breaks, waits, Ended, answered,
  unresponsive, gave_up, out_of_fuel, landed, is_busy, decision_of, idle_verdict, status_verdict,
  round_verdict, round_step, follow, ask_loop,
}

-- What each verdict tells of the round.
abbrev Tells : Option AnswerRead → Bool → Bool → ℕ → ℕ → Verdict → Type 0
Tells file busy saw start_grace since (finishes res) = file ≡ some res
Tells file busy saw start_grace since (stalls e) =
    (file ≡ none) × (busy ≡ false) × (saw ≡ false) × (start_grace < since)
Tells file busy saw start_grace since breaks = file ≡ none
Tells file busy saw start_grace since (waits s d) = (file ≡ none) × (s ≡ busy || saw)

status_verdict-Tells :
    (pacing : Pacing) (started : ℕ) (d : Decision) (saw : Bool) (idle : Option ℕ) (now : ℕ)
    → Tells none
        (is_busy d.status)
        saw
        pacing.start_grace_ms
        (now - started)
        (status_verdict pacing started d saw idle now)
status_verdict-Tells pacing started d saw idle now = elim (Bool-cases (is_busy d.status)) [
  | inl busy ↦ rw busy (refl, refl)
  | inr quiet ↦ rw quiet (by_saw saw)
]
  where
    by_saw :
        (saw : Bool)
        → Tells none false saw pacing.start_grace_ms
            (now - started)
            (idle_verdict pacing started d.evidence saw idle now)
    by_saw true = elim (Bool-cases (ltb pacing.grace_ms (now - or_else idle now))) [
      | inl long ↦ rw long refl
      | inr short ↦ rw short (refl, refl)
    ]
    by_saw false = elim (Bool-cases (ltb pacing.start_grace_ms (now - started))) [
      | inl long ↦ rw long (refl, refl, refl, ltb→lt _ _ long)
      | inr short ↦ rw short (refl, refl)
    ]

round_verdict-Tells :
    (file : Option AnswerRead) (busy saw : Bool) (start_grace since : ℕ) (v : Verdict)
    → Tells none busy saw start_grace since v
    → Tells file busy saw start_grace since (round_verdict file v)
round_verdict-Tells none busy saw start_grace since v h = h
round_verdict-Tells (some res) busy saw start_grace since v h = refl

module _ (parse : String → Option Value) (pacing : Pacing) (started : ℕ) (rounds : ℕ → Round) where
  -- What the broker concludes about the agent in a round: it works, or is blocked.
  abbrev pub busy_in : ℕ → Bool
  busy_in i = is_busy (decision_of started (rounds i)).status

  abbrev pub landed_in : ℕ → Option AnswerRead
  landed_in i = landed parse (rounds i).file

  step-Tells :
      (i : ℕ) (saw : Bool) (idle : Option ℕ)
      → Tells
          (landed_in i)
          (busy_in i)
          saw
          pacing.start_grace_ms
          ((rounds i).at - started)
          (round_step parse pacing started saw idle (rounds i))
  unfolding round_step
  step-Tells i saw idle =
      let r = rounds i in
      round_verdict-Tells (landed_in i) (busy_in i) saw pacing.start_grace_ms (r.at - started) _
        (status_verdict-Tells pacing started (decision_of started r) saw idle r.at)

  -- What an end of the loop, from round `i` on, tells of its rounds: of the last one, and of round `j`.
  abbrev Explains : Ended → Bool → ℕ → ℕ → Type 0
  Explains (answered n res) saw i j =
      (i ≤ n)
      × (landed_in n ≡ some res)
      × ((rounds n).at < started + pacing.budget)
      × ((leb i j && ltb j n) && is_some (landed_in j) ≡ false)
  Explains (unresponsive n e) saw i j =
      (i ≤ n)
      × (saw ≡ false)
      × (pacing.start_grace_ms < (rounds n).at - started)
      × ((leb i j && leb j n) && (busy_in j || is_some (landed_in j)) ≡ false)
  Explains (gave_up n) saw i j = (i ≤ n) × ((leb i j && ltb j n) && is_some (landed_in j) ≡ false)
  Explains out_of_fuel saw i j = Unit

  Explains-earlier :
      (end : Ended) (saw s : Bool) (i j : ℕ)
      → landed_in i ≡ none
      → s ≡ busy_in i || saw
      → Explains end s (i + 1) j
      → Explains end saw i j
  Explains-earlier (answered n res) saw s i j file flag h = ground (arith, file, h)
  Explains-earlier (unresponsive n e) saw s i j file flag h = ground (arith, file, flag, h)
  Explains-earlier (gave_up n) saw s i j file flag h = ground (arith, file, h)
  Explains-earlier out_of_fuel saw s i j file flag h = tt

  follow-Explains :
      (v : Verdict) (saw : Bool) (i j : ℕ) (again : Bool → Option ℕ → Ended)
      → (rounds i).at < started + pacing.budget
      → Tells (landed_in i) (busy_in i) saw pacing.start_grace_ms ((rounds i).at - started) v
      → ((s : Bool) (d : Option ℕ) → Explains (again s d) s (i + 1) j)
      → Explains (follow v i again) saw i j
  unfolding follow
  follow-Explains (finishes res) saw i j again early h k = ground (arith, early, h)
  follow-Explains (stalls e) saw i j again early h k = ground (arith, h)
  follow-Explains breaks saw i j again early h k = ground (arith, h)
  follow-Explains (waits s d) saw i j again early h k =
      Explains-earlier (again s d) saw s i j h.0 h.1 (k s d)

  ask_loop-Explains :
      (fuel i j : ℕ) (saw : Bool) (idle : Option ℕ)
      → Explains (ask_loop parse pacing started rounds fuel i saw idle) saw i j
  unfolding ask_loop
  ask_loop-Explains zero i j saw idle = tt
  ask_loop-Explains (suc fuel) i j saw idle =
      elim (Bool-cases (ltb (rounds i).at (started + pacing.budget))) [
        | inl early ↦ rw early (
            follow-Explains _ saw i j _ (ltb→lt _ _ early) (step-Tells i saw idle)
              (λ s d. ask_loop-Explains fuel (i + 1) j s d))
        | inr late ↦ rw late (ground arith)
      ]

  -- An agent is reported unresponsive only once the grace for its start is over, and only if in no round
  -- until then was it seen to work or to be blocked, and in none was there an answer.
  pub unresponsive-busy_in :
      (fuel n j : ℕ) (e : Evidence)
      → ask_loop parse pacing started rounds fuel 0 false none ≡ unresponsive n e
      → j ≤ n
      → (pacing.start_grace_ms < (rounds n).at - started)
        × (busy_in j ≡ false)
        × (landed_in j ≡ none)
  unresponsive-busy_in fuel n j e stalled within =
      let h = subst (λ x. Explains x false 0 j) stalled (ask_loop-Explains fuel 0 j false none) in
      ground (arith, h, within)

  -- The answer of an ask is what landed in the first round in which anything did, within the budget.
  pub answered-landed_in :
      (fuel n j : ℕ) (res : AnswerRead)
      → ask_loop parse pacing started rounds fuel 0 false none ≡ answered n res
      → j < n
      → (landed_in n ≡ some res) × ((rounds n).at < started + pacing.budget) × (landed_in j ≡ none)
  answered-landed_in fuel n j res done before =
      let h = subst (λ x. Explains x false 0 j) done (ask_loop-Explains fuel 0 j false none) in
      ground (arith, h, before)
