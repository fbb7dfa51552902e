-- ===== src/Client/Socket/Accounts.antt =====
-- src/ws-server.ts: what becomes of the taps that a client's socket opens.
use herdr_web_broker.Common.{
  ℕ, to_ℕ, ◌+◌, ◌≤◌, ◌≡◌, refl, String, Bool, true, false, ◌&&◌, ◌||◌, not, Option, some, none,
  List, [], ◌∷◌, ◌++◌, leb, nat_eq, is_some, if◌then◌else◌, arith, str_eq, length, subst,
}
use herdr_web_broker.Common.Dict.{Dict}
use herdr_web_broker.Common.IdMap.{at, put, without}
use herdr_web_broker.Common.IdMap.Uses.{uses, uses-without, uses-put, at-uses}
use herdr_web_broker.Client.Subscriptions.{Member, sanitize_subscriptions}
use herdr_web_broker.Client.Socket.{
  Tap, reserved, live, Frame, no_method, events_subscribe, subscribe, unsubscribe, rpc, Effect,
  closes, Socket, accept_client, does, max_sub_groups, Deps, owned_by_other, reserve,
  subscribe_sanitized, subscribe_frame, unsubscribe_found, call_frame, receive, acknowledge,
  acknowledged, rejected, push, close_taps, close_socket, Happening, step, run,
}
use herdr_web_broker.Client.Socket.Counts.{
  opened, closures, is_live, lives, opened-append, closures-append, lives-without, lives-le,
  lives-put, closures-close_taps, opened-close_taps, lives-at,
}

abbrev was_reserved : ℕ → Socket → Bool
was_reserved id s = leb 1 id && leb id s.sub_seq

-- The tap `id`, `ends` of whose ends the upstream has told: it has one slot and is opened once at
-- most, and what was opened is live, was closed, or was ended by the upstream.
record IsAccounted (id ends : ℕ) (s : Socket) : Type 0 where
  one_slot : uses id s.taps ≤ to_ℕ (was_reserved id s)
  one_opening : opened id s.effects + uses id s.awaited ≤ to_ℕ (was_reserved id s)
  no_stray : closures id s.effects + lives id s.taps ≤ opened id s.effects
  no_leak : opened id s.effects ≤ closures id s.effects + lives id s.taps + ends

if-IsAccounted :
    (id ends : ℕ) (b : Bool) (x y : Socket)
    → IsAccounted id ends x
    → IsAccounted id ends y
    → IsAccounted id ends (if b then x else y)
if-IsAccounted id ends true x y p q = p
if-IsAccounted id ends false x y p q = q

module _ (id ends : ℕ) (s : Socket) (v : IsAccounted id ends s) where
  -- The accounts after more effects, from those before.
  after-IsAccounted :
      (es : List Effect) (t : Socket)
      → uses id t.taps ≤ to_ℕ (was_reserved id t)
      → opened id s.effects + opened id es + uses id t.awaited ≤ to_ℕ (was_reserved id t)
      → closures id s.effects + closures id es + lives id t.taps
        ≤ opened id s.effects + opened id es
      → opened id s.effects + opened id es
        ≤ closures id s.effects + closures id es + lives id t.taps + ends
      → IsAccounted id ends (record t { effects = s.effects ++ es })
  after-IsAccounted es t one opening stray leak = record {
    one_slot = one;
    one_opening = omega (arith, opened-append id s.effects es, opening);
    no_stray = omega (arith, opened-append id s.effects es, closures-append id s.effects es, stray);
    no_leak = omega (arith, opened-append id s.effects es, closures-append id s.effects es, leak);
  }

  quiet-IsAccounted :
      (es : List Effect) → opened id es ≡ 0 → closures id es ≡ 0 → IsAccounted id ends (does es s)
  quiet-IsAccounted es p q =
      after-IsAccounted es s v.one_slot (omega (arith, p, v.one_opening))
        (omega (arith, p, q, v.no_stray)) (omega (arith, p, q, v.no_leak))

  fails-IsAccounted : (code : String) → IsAccounted id ends (does (Effect.fails code ∷ []) s)
  unfolding opened closures
  fails-IsAccounted code = quiet-IsAccounted _ refl refl

  at_most_one : uses id s.taps ≤ 1
  at_most_one = ground (arith, v.one_slot)

  reserve-IsAccounted :
      (code : Option String) (instance session : String) (subs : List (Dict Member))
      → IsAccounted id ends (reserve code instance session subs s)
  unfolding reserve opened closures
  reserve-IsAccounted none instance session subs =
      let i = s.sub_seq + 1 in
      let fact_a = uses-put id i reserved s.taps in
      let fact_b = uses-put id i tt s.awaited in
      let fact_c = lives-put id i reserved s.taps at_most_one in
      after-IsAccounted _
        (record s { sub_seq = i; taps = put i reserved s.taps; awaited = put i tt s.awaited })
        (ground (arith, fact_a, fact_b, fact_c, v.one_slot))
        (ground (arith, fact_a, fact_b, fact_c, v.one_opening))
        (ground (arith, fact_a, fact_b, fact_c, v.no_stray))
        (ground (arith, fact_a, fact_b, fact_c, v.one_opening, v.no_leak))
  reserve-IsAccounted (some code) instance session subs =
      let i = s.sub_seq + 1 in
      let put_back = put i reserved s.taps in
      let fact_a = uses-without id i put_back in
      let fact_b = lives-without id i put_back in
      let fact_c = uses-put id i reserved s.taps in
      let fact_d = lives-put id i reserved s.taps at_most_one in
      after-IsAccounted _ (record s { sub_seq = i; taps = without i put_back })
        (ground (arith, fact_a, fact_b, fact_c, fact_d, v.one_slot))
        (ground (arith, fact_a, fact_b, fact_c, fact_d, v.one_opening))
        (ground (arith, fact_a, fact_b, fact_c, fact_d, v.no_stray))
        (ground (arith, fact_a, fact_b, fact_c, fact_d, v.one_opening, v.no_leak))

  lives_here :
      (i : ℕ) (tap : Tap) → at i s.taps ≡ some tap → i ≡ id → lives id s.taps ≡ to_ℕ (is_live tap)
  lives_here i tap h e =
      lives-at id s.taps tap at_most_one (subst (λ k. at k s.taps ≡ some tap) e h)

  unsubscribe_found-IsAccounted :
      (o : Option Tap) (i : ℕ) → at i s.taps ≡ o → IsAccounted id ends (unsubscribe_found o i s)
  unfolding unsubscribe_found opened closures
  unsubscribe_found-IsAccounted none i h = fails-IsAccounted _
  unsubscribe_found-IsAccounted (some live) i h =
      after-IsAccounted (closes i ∷ Effect.replies "unsubscribed" ∷ [])
        (record s { taps = without i s.taps })
        (ground (arith, uses-without id i s.taps, v.one_slot)) (ground (arith, v.one_opening))
        (ground (arith, lives-without id i s.taps, lives_here i live h, v.no_stray))
        (ground (arith, lives-without id i s.taps, lives_here i live h, v.no_leak))
  unsubscribe_found-IsAccounted (some reserved) i h =
      after-IsAccounted (Effect.replies "unsubscribed" ∷ []) (record s { taps = without i s.taps })
        (ground (arith, uses-without id i s.taps, v.one_slot)) (ground (arith, v.one_opening))
        (ground (arith, lives-without id i s.taps, lives_here i reserved h, v.no_stray))
        (ground (arith, lives-without id i s.taps, lives_here i reserved h, v.no_leak))

  acknowledge-IsAccounted :
      (o : Option Tap) (i : ℕ)
      → is_some (at i s.awaited) ≡ true
      → at i s.taps ≡ o
      → IsAccounted id ends (acknowledge o i (record s { awaited = without i s.awaited }))
  unfolding acknowledge opened closures
  acknowledge-IsAccounted none i w h =
      let fact_a = uses-without id i s.awaited in
      let fact_b = at-uses i s.awaited in
      after-IsAccounted _ (record s { awaited = without i s.awaited }) v.one_slot
        (ground (arith, fact_a, fact_b, w, v.one_opening))
        (ground (arith, fact_a, fact_b, w, v.no_stray))
        (ground (arith, fact_a, fact_b, w, v.no_leak))
  acknowledge-IsAccounted (some tap) i w h =
      let fact_a = uses-put id i live s.taps in
      let fact_b = lives-put id i live s.taps at_most_one in
      let fact_c = uses-without id i s.awaited in
      let fact_d = at-uses i s.awaited in
      let fact_f = at-uses i s.taps in
      after-IsAccounted _ (record s { taps = put i live s.taps; awaited = without i s.awaited })
        (ground (arith, fact_a, fact_b, fact_c, fact_d, w, fact_f, h, v.one_slot))
        (ground (arith, fact_a, fact_b, fact_c, fact_d, w, fact_f, h, v.one_opening))
        (ground (arith, fact_a, fact_b, fact_c, fact_d, w, fact_f, h, v.one_opening, v.no_stray))
        (ground (arith, fact_a, fact_b, fact_c, fact_d, w, fact_f, h, v.one_opening, v.no_leak))

  rejected-IsAccounted :
      (o : Option Unit) (i : ℕ) (code : String)
      → at i s.awaited ≡ o
      → IsAccounted id ends (rejected o i code s)
  unfolding rejected opened closures
  rejected-IsAccounted none i code h = v
  rejected-IsAccounted (some w) i code h =
      let fact_a = uses-without id i s.taps in
      let fact_b = lives-without id i s.taps in
      let fact_c = uses-without id i s.awaited in
      let fact_d = at-uses i s.awaited in
      after-IsAccounted _ (record s { taps = without i s.taps; awaited = without i s.awaited })
        (ground (arith, fact_a, fact_b, fact_c, fact_d, h, v.one_slot))
        (ground (arith, fact_a, fact_b, fact_c, fact_d, h, v.one_opening))
        (ground (arith, fact_a, fact_b, fact_c, fact_d, h, v.no_stray))
        (ground (arith, fact_a, fact_b, fact_c, fact_d, h, v.one_opening, v.no_leak))

  subscribe_sanitized-IsAccounted :
      (o : Option (List (Dict Member))) (deps : Deps) (instance session : String)
      → IsAccounted id ends (subscribe_sanitized o deps instance session s)
  unfolding subscribe_sanitized
  subscribe_sanitized-IsAccounted none deps instance session = fails-IsAccounted _
  subscribe_sanitized-IsAccounted (some subs) deps instance session =
      if-IsAccounted id ends (leb max_sub_groups (length s.taps)) _ _ (fails-IsAccounted _)
        (reserve-IsAccounted (deps.unreachable instance) instance session subs)

  receive-IsAccounted :
      (deps : Deps) (token_name : Option String) (frame : Frame)
      → IsAccounted id ends (receive deps token_name frame s)
  unfolding receive subscribe_frame call_frame opened closures
  receive-IsAccounted deps token_name no_method = fails-IsAccounted _
  receive-IsAccounted deps token_name events_subscribe = quiet-IsAccounted _ refl refl
  receive-IsAccounted deps token_name (subscribe instance session raw) =
      if-IsAccounted id ends (str_eq instance "" || str_eq session "") _ _ (fails-IsAccounted _) (
        if-IsAccounted id ends (owned_by_other deps token_name session) _ _ (fails-IsAccounted _)
          (subscribe_sanitized-IsAccounted (sanitize_subscriptions raw) deps instance session))
  receive-IsAccounted deps token_name (unsubscribe i) =
      unsubscribe_found-IsAccounted (at i s.taps) i refl
  receive-IsAccounted deps token_name (rpc instance session method params) =
      if-IsAccounted id ends (not deps.has_call_instance) _ _ (fails-IsAccounted _) (
        if-IsAccounted id ends (owned_by_other deps token_name session) _ _ (fails-IsAccounted _)
          (quiet-IsAccounted _ refl refl))

  acknowledged-IsAccounted :
      (o : Option Unit) (i : ℕ) → at i s.awaited ≡ o → IsAccounted id ends (acknowledged o i s)
  unfolding acknowledged
  acknowledged-IsAccounted none i h = v
  acknowledged-IsAccounted (some w) i h = acknowledge-IsAccounted (at i s.taps) i (rw h refl) refl

  push-IsAccounted : (event : String) (i : ℕ) → IsAccounted id ends (push event i s)
  unfolding opened closures
  push-IsAccounted event i = if-IsAccounted id ends s.is_open _ s (quiet-IsAccounted _ refl refl) v

  ended-IsAccounted :
      (i : ℕ) → IsAccounted id (ends + to_ℕ (nat_eq i id)) (record s { taps = without i s.taps })
  ended-IsAccounted i = record {
    one_slot = ground (arith, uses-without id i s.taps, v.one_slot);
    one_opening = v.one_opening;
    no_stray = ground (arith, lives-without id i s.taps, v.no_stray);
    no_leak = ground (arith, lives-without id i s.taps, lives-le id s.taps, at_most_one, v.no_leak);
  }

  close_socket-IsAccounted : IsAccounted id ends (close_socket s)
  unfolding close_socket uses lives
  close_socket-IsAccounted =
      let closing = closures-close_taps id s.taps in
      let opening = opened-close_taps id s.taps in
      after-IsAccounted (close_taps s.taps) (record s { taps = []; is_open = false }) (ground arith)
        (ground (arith, opening, v.one_opening)) (ground (arith, opening, closing, v.no_stray))
        (ground (arith, opening, closing, v.no_leak))

-- The ends of the tap `id` that the upstream tells of.
unfoldable pub ends_told : ℕ → List Happening → ℕ
ends_told id [] = 0
ends_told id (Happening.upstream_close i ∷ hs) = to_ℕ (nat_eq i id) + ends_told id hs
ends_told id (_ ∷ hs) = ends_told id hs

module _ (id : ℕ) (deps : Deps) (token_name : Option String) where
  run-IsAccounted :
      (ends : ℕ) (s : Socket) (hs : List Happening)
      → IsAccounted id ends s
      → IsAccounted id (ends + ends_told id hs) (run deps token_name s hs)
  unfolding run step ends_told
  run-IsAccounted ends s [] v = subst (λ n. IsAccounted id n s) (omega arith) v
  run-IsAccounted ends s (Happening.receives frame ∷ hs) v = run-IsAccounted ends _ hs (
      if-IsAccounted id ends s.is_open _ s (receive-IsAccounted id ends s v deps token_name frame)
        v)
  run-IsAccounted ends s (Happening.acked i ∷ hs) v =
      run-IsAccounted ends _ hs (acknowledged-IsAccounted id ends s v (at i s.awaited) i refl)
  run-IsAccounted ends s (Happening.refused i code ∷ hs) v =
      run-IsAccounted ends _ hs (rejected-IsAccounted id ends s v (at i s.awaited) i code refl)
  run-IsAccounted ends s (Happening.upstream_event i ∷ hs) v =
      run-IsAccounted ends _ hs (push-IsAccounted id ends s v "herdr_event" i)
  run-IsAccounted ends s (Happening.upstream_close i ∷ hs) v =
      let told = ends + to_ℕ (nat_eq i id) in
      let t = push "sub_closed" i (record s { taps = without i s.taps }) in
      subst (λ n. IsAccounted id n (run deps token_name t hs)) (omega arith)
        (run-IsAccounted told t hs
          (push-IsAccounted id told _ (ended-IsAccounted id ends s v i) "sub_closed" i))
  run-IsAccounted ends s (Happening.closed ∷ hs) v =
      run-IsAccounted ends _ hs (close_socket-IsAccounted id ends s v)

  new-IsAccounted : IsAccounted id 0 accept_client
  unfolding accept_client uses opened closures lives
  new-IsAccounted = record {
    one_slot = ground arith;
    one_opening = ground arith;
    no_stray = ground arith;
    no_leak = ground arith;
  }

  -- Over every history of a client's socket: a tap is opened once at most, only taps that were opened
  -- are closed or live, and one that was opened is live, was closed, or the upstream told of its end.
  pub taps_accounted :
      (hs : List Happening)
      → let s = run deps token_name accept_client hs in
        let open_or_closed = closures id s.effects + lives id s.taps in
        (opened id s.effects ≤ 1)
        × (open_or_closed ≤ opened id s.effects)
        × (opened id s.effects ≤ open_or_closed + ends_told id hs)
  taps_accounted hs =
      let v = run-IsAccounted 0 accept_client hs new-IsAccounted in
      (ground (arith, v.one_opening), v.no_stray, omega (arith, v.no_leak))
