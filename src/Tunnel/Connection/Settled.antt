-- ===== src/Tunnel/Connection/Settled.antt =====
-- src/tunnel.ts: what becomes of the requests of a connection.
use herdr_web_broker.Common.{
  ℕ, to_ℕ, ◌+◌, ◌≡◌, refl, String, Bool, true, false, ◌&&◌, Option, some, none, List, [], ◌∷◌, ◌++◌,
  inl, inr, leb, ltb, nat_eq, is_some, Option-cases, if◌then◌else◌, arith,
}
use herdr_web_broker.Common.IdMap.{IdMap, at, put, without}
use herdr_web_broker.Common.IdMap.Uses.{uses, uses-without, uses-put, at-uses}
use herdr_web_broker.Tunnel.Connection.{
  Connection, Pending, request, subscription, TunnelEvent, TunnelFrame, Effect, Happening, resolve,
  answered, refused, deliver, end_sub, route_event, route, beat, send_request, subscribe,
  unsubscribe, go_away, new, step, run, reject_all, close_all,
}

abbrev settles : ℕ → Effect → ℕ
settles id (Effect.resolves i result) = to_ℕ (nat_eq i id)
settles id (Effect.rejects i code) = to_ℕ (nat_eq i id)
settles id e = 0

-- How often the promise of a request was settled.
unfoldable pub settlements : ℕ → List Effect → ℕ
settlements id [] = 0
settlements id (e ∷ es) = settles id e + settlements id es

-- Whether the connection made a request of this id.
abbrev pub was_sent : ℕ → Connection → Bool
was_sent id c = leb 1 id && leb id c.seq

settlements-append :
    (id : ℕ) (es fs : List Effect)
    → settlements id (es ++ fs) ≡ settlements id es + settlements id fs
unfolding settlements
settlements-append id [] fs = omega arith
settlements-append id (e ∷ es) fs = omega (arith, settlements-append id es fs)

settlements-reject_all :
    (id : ℕ) (ids : IdMap Pending) → settlements id (reject_all ids) ≡ uses id ids
unfolding settlements uses
settlements-reject_all id [] = refl
settlements-reject_all id ((i, p) ∷ ids) = ground (arith, settlements-reject_all id ids)

settlements-close_all : (id : ℕ) (ids : IdMap Unit) → settlements id (close_all ids) ≡ 0
unfolding settlements
settlements-close_all id [] = refl
settlements-close_all id (s ∷ ids) = omega (arith, settlements-close_all id ids)

-- Every request that was sent waits for its answer or was settled, and not twice.
abbrev IsAccounted : ℕ → Connection → Type 0
IsAccounted id c = settlements id c.effects + uses id c.pending ≡ to_ℕ (was_sent id c)

module _ (id : ℕ) (c : Connection) (v : IsAccounted id c) where
  quiet-IsAccounted :
      (e : Effect)
      → settles id e ≡ 0
      → settlements id (c.effects ++ e ∷ []) + uses id c.pending ≡ to_ℕ (was_sent id c)
  unfolding settlements
  quiet-IsAccounted e q = omega (arith, settlements-append id c.effects (e ∷ []), q, v)

  -- Settling the request `i`, which is pending.
  settled-IsAccounted :
      (i : ℕ) (e : Effect)
      → is_some (at i c.pending) ≡ true
      → settles id e ≡ to_ℕ (nat_eq i id)
      → settlements id (c.effects ++ e ∷ []) + uses id (without i c.pending) ≡ to_ℕ (was_sent id c)
  unfolding settlements
  settled-IsAccounted i e here q = ground (
    arith,
    settlements-append id c.effects (e ∷ []),
    uses-without id i c.pending,
    at-uses i c.pending,
    q,
    v,
  )

  answered-IsAccounted :
      (i : ℕ) (result : String) → IsAccounted id (answered (at i c.pending) i result c)
  unfolding answered resolve
  answered-IsAccounted i result = go (at i c.pending) refl
    where
      go : (o : Option Pending) → at i c.pending ≡ o → IsAccounted id (answered o i result c)
      go none here = v
      go (some request) here = settled-IsAccounted i _ (rw here refl) refl
      go (some subscription) here = settled-IsAccounted i _ (rw here refl) refl

  refused-IsAccounted : (i : ℕ) (code : String) → IsAccounted id (refused (at i c.pending) i code c)
  unfolding refused
  refused-IsAccounted i code = elim (Option-cases (at i c.pending)) [
    | inl none_here ↦ rw none_here v
    | inr (p, here) ↦ rw here (settled-IsAccounted i _ (rw here refl) refl)
  ]

  -- A request that is sent with the next serial number.
  sent-IsAccounted :
      (p : Pending) (e : Effect)
      → IsAccounted (c.seq + 1) c
      → settles id e ≡ 0
      → settlements id (c.effects ++ e ∷ []) + uses id (put (c.seq + 1) p c.pending)
        ≡ to_ℕ (leb 1 id && leb id (c.seq + 1))
  unfolding settlements
  sent-IsAccounted p e next q = ground (
    arith,
    settlements-append id c.effects (e ∷ []),
    uses-put id (c.seq + 1) p c.pending,
    next,
    q,
    v,
  )

  go_away-IsAccounted : IsAccounted id (go_away c)
  unfolding go_away settlements uses
  go_away-IsAccounted = omega (
    arith,
    settlements-append id c.effects
        (reject_all c.pending ++ (close_all c.subs ++ Effect.gone ∷ [])),
    settlements-append id (reject_all c.pending) (close_all c.subs ++ Effect.gone ∷ []),
    settlements-append id (close_all c.subs) (Effect.gone ∷ []),
    settlements-reject_all id c.pending,
    settlements-close_all id c.subs,
    v,
  )

  route_event-IsAccounted : (e : TunnelEvent) (now : String) → IsAccounted id (route_event e now c)
  unfolding route_event deliver end_sub
  route_event-IsAccounted (TunnelEvent.agent_status session agent) now = quiet-IsAccounted _ refl
  route_event-IsAccounted (TunnelEvent.session_added session) now = quiet-IsAccounted _ refl
  route_event-IsAccounted (TunnelEvent.session_removed session) now = quiet-IsAccounted _ refl
  route_event-IsAccounted (TunnelEvent.snapshot snap) now = quiet-IsAccounted _ refl
  route_event-IsAccounted (TunnelEvent.herdr_event sub_id name payload) now =
      elim (Option-cases (at sub_id c.subs)) [
        | inl none_here ↦ rw none_here v
        | inr (s, here) ↦ rw here (quiet-IsAccounted _ refl)
      ]
  route_event-IsAccounted (TunnelEvent.sub_closed sub_id reason) now =
      elim (Option-cases (at sub_id c.subs)) [
        | inl none_here ↦ rw none_here v
        | inr (s, here) ↦ rw here (quiet-IsAccounted _ refl)
      ]

  route-IsAccounted : (f : TunnelFrame) (now : String) → IsAccounted id (route f now c)
  unfolding route
  route-IsAccounted (TunnelFrame.res_ok i result) now = answered-IsAccounted i result
  route-IsAccounted (TunnelFrame.res_error i code message) now = refused-IsAccounted i code
  route-IsAccounted (TunnelFrame.event e) now = route_event-IsAccounted e now
  route-IsAccounted TunnelFrame.other now = v

  beats-IsAccounted : IsAccounted id (step c Happening.beats)
  unfolding step beat
  beats-IsAccounted =
      if-IsAccounted c.beating _ c
        (if-IsAccounted (ltb 2 (c.missed_pongs + 1)) _ _ (quiet-IsAccounted _ refl)
          (quiet-IsAccounted _ refl))
        v
    where
      if-IsAccounted :
          (b : Bool) (x y : Connection)
          → IsAccounted id x
          → IsAccounted id y
          → IsAccounted id (if b then x else y)
      if-IsAccounted true x y p q = p
      if-IsAccounted false x y p q = q

step-IsAccounted :
    (id : ℕ) (c : Connection) (h : Happening)
    → ((i : ℕ) → IsAccounted i c)
    → IsAccounted id (step c h)
unfolding step send_request subscribe unsubscribe
step-IsAccounted id c (Happening.requests session method params timeout_ms) v =
    sent-IsAccounted id c (v id) _ _ (v (c.seq + 1)) refl
step-IsAccounted id c (Happening.subscribes session) v =
    sent-IsAccounted id c (v id) _ _ (v (c.seq + 1)) refl
step-IsAccounted id c (Happening.receives frame now) v = route-IsAccounted id c (v id) frame now
step-IsAccounted id c Happening.receives_garbage v = quiet-IsAccounted id c (v id) _ refl
step-IsAccounted id c Happening.pongs v = v id
step-IsAccounted id c Happening.beats v = beats-IsAccounted id c (v id)
step-IsAccounted id c Happening.disconnects v = go_away-IsAccounted id c (v id)
step-IsAccounted id c Happening.closes v = quiet-IsAccounted id c (v id) _ refl
step-IsAccounted id c (Happening.times_out i) v = refused-IsAccounted id c (v id) i _
step-IsAccounted id c (Happening.closes_subscription i) v = elim (Option-cases (at i c.subs)) [
  | inl none_here ↦ rw none_here (v id)
  | inr (s, here) ↦ rw here (quiet-IsAccounted id c (v id) _ refl)
]

run-IsAccounted :
    (c : Connection) (hs : List Happening)
    → ((i : ℕ) → IsAccounted i c)
    → (id : ℕ) → IsAccounted id (run c hs)
unfolding run
run-IsAccounted c [] v id = v id
run-IsAccounted c (h ∷ hs) v id = run-IsAccounted (step c h) hs (λ i. step-IsAccounted i c h v) id

new-IsAccounted : (name : String) (id : ℕ) → IsAccounted id (new name)
unfolding new settlements uses
new-IsAccounted name id = ground arith

run-append :
    (c : Connection) (hs : List Happening) (h : Happening)
    → run c (hs ++ h ∷ []) ≡ step (run c hs) h
unfolding run
run-append c [] h = refl
run-append c (g ∷ hs) h = run-append (step c g) hs h

go_away-pending :
    (id : ℕ) (c : Connection)
    → (uses id (step c Happening.disconnects).pending ≡ 0)
      × (was_sent id (step c Happening.disconnects) ≡ was_sent id c)
unfolding step go_away uses
go_away-pending id c = (refl, refl)

-- After anything that may happen to a new connection, each request that was sent is either waiting or
-- was settled, once; after the socket has gone, each was settled, and nothing waits.
pub settled-run :
    (name : String) (hs : List Happening) (id : ℕ)
    → let c = run (new name) hs in
      let ended = run (new name) (hs ++ Happening.disconnects ∷ []) in
      (settlements id c.effects + to_ℕ (is_some (at id c.pending)) ≡ to_ℕ (was_sent id c))
      × (settlements id ended.effects ≡ to_ℕ (was_sent id c))
settled-run name hs id =
    let c = run (new name) hs in
    let accounted = run-IsAccounted (new name) hs (new-IsAccounted name) in
    let gone = go_away-pending id c in
    (
      ground (arith, accounted id, at-uses id c.pending),
      rw (run-append (new name) hs Happening.disconnects)
          (ground (arith, step-IsAccounted id c Happening.disconnects accounted, gone.0, gone.1)),
    )
