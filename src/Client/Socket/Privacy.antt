-- ===== src/Client/Socket/Privacy.antt =====
-- src/ws-server.ts: what a client's socket may ask of the broker.
use herdr_web_broker.Common.{
  ℕ, ◌≡◌, refl, String, Bool, true, false, ◌||◌, not, Option, some, none, List, [], ◌∷◌, ◌++◌, leb,
  if◌then◌else◌, str_eq, length, All, All-append,
}
use herdr_web_broker.Common.Dict.{Dict}
use herdr_web_broker.Common.IdMap.{IdMap, at, without}
use herdr_web_broker.Client.Subscriptions.{Member, Element, sanitize_subscriptions}
use herdr_web_broker.Client.Subscriptions.Allowed.{IsAllowed, sanitize_subscriptions-IsAllowed}
use herdr_web_broker.Client.Socket.{
  Tap, reserved, live, Frame, no_method, events_subscribe, subscribe, unsubscribe, rpc, Effect,
  Socket, accept_client, max_sub_groups, Deps, owned_by_other, reserve, subscribe_sanitized,
  subscribe_frame, unsubscribe_found, call_frame, receive, acknowledge, acknowledged, rejected,
  close_tap, close_taps, close_socket, Happening, step, run,
}

module _ (deps : Deps) (token_name : Option String) where
  -- What reaches an instance is about a session that is not another token's, and a tap asks for what
  -- the schema knows only.
  abbrev pub IsPermitted : Effect → Type 0
  IsPermitted (Effect.asks_tap id instance session subs) =
      (owned_by_other deps token_name session ≡ false) × All IsAllowed subs
  IsPermitted (Effect.calls_instance instance session method params) =
      owned_by_other deps token_name session ≡ false
  IsPermitted e = Unit

  abbrev IsClean : Socket → Type 0
  IsClean s = All IsPermitted s.effects

  if-IsClean :
      (b : Bool) (x y : Socket)
      → (b ≡ true → IsClean x)
      → (b ≡ false → IsClean y)
      → IsClean (if b then x else y)
  if-IsClean true x y p q = p refl
  if-IsClean false x y p q = q refl

  close_tap-IsPermitted : (id : ℕ) (tap : Tap) → All IsPermitted (close_tap id tap)
  close_tap-IsPermitted id reserved = tt
  close_tap-IsPermitted id live = (tt, tt)

  close_taps-IsPermitted : (taps : IdMap Tap) → All IsPermitted (close_taps taps)
  unfolding close_taps
  close_taps-IsPermitted [] = tt
  close_taps-IsPermitted ((id, tap) ∷ taps) =
      All-append IsPermitted (close_tap id tap) _ (close_tap-IsPermitted id tap)
        (close_taps-IsPermitted taps)

  module _ (s : Socket) (v : IsClean s) where
    did : (es : List Effect) → All IsPermitted es → All IsPermitted (s.effects ++ es)
    did es h = All-append IsPermitted s.effects es v h

    reserve-IsClean :
        (code : Option String) (instance session : String) (subs : List (Dict Member))
        → owned_by_other deps token_name session ≡ false
        → All IsAllowed subs
        → IsClean (reserve code instance session subs s)
    unfolding reserve
    reserve-IsClean none instance session subs own allowed = did _ ((own, allowed), tt)
    reserve-IsClean (some code) instance session subs own allowed = did _ (tt, tt)

    unsubscribe_found-IsClean : (o : Option Tap) (i : ℕ) → IsClean (unsubscribe_found o i s)
    unfolding unsubscribe_found
    unsubscribe_found-IsClean none i = did _ (tt, tt)
    unsubscribe_found-IsClean (some tap) i =
        did _ (All-append IsPermitted (close_tap i tap) _ (close_tap-IsPermitted i tap) (tt, tt))

    subscribe_sanitized-IsClean :
        (raw : Option (List Element)) (o : Option (List (Dict Member))) (instance session : String)
        → owned_by_other deps token_name session ≡ false
        → sanitize_subscriptions raw ≡ o
        → IsClean (subscribe_sanitized o deps instance session s)
    unfolding subscribe_sanitized sanitize_subscriptions
    subscribe_sanitized-IsClean raw none instance session own e = did _ (tt, tt)
    subscribe_sanitized-IsClean none (some subs) instance session own e = absurd (impossible e)
      where
        impossible : none ≡ some subs → ⊥
        impossible e = cc
    subscribe_sanitized-IsClean (some raw) (some subs) instance session own e =
        if-IsClean (leb max_sub_groups (length s.taps)) _ _ (λ full. did _ (tt, tt))
          (λ free.
            reserve-IsClean (deps.unreachable instance) instance session subs own
              ((sanitize_subscriptions-IsAllowed raw subs e).0))

    receive-IsClean : (frame : Frame) → IsClean (receive deps token_name frame s)
    unfolding receive subscribe_frame call_frame
    receive-IsClean no_method = did _ (tt, tt)
    receive-IsClean events_subscribe = did _ (tt, tt)
    receive-IsClean (subscribe instance session raw) =
        if-IsClean (str_eq instance "" || str_eq session "") _ _ (λ h. did _ (tt, tt))
          (λ h.
            if-IsClean (owned_by_other deps token_name session) _ _ (λ other. did _ (tt, tt))
              (λ own.
                subscribe_sanitized-IsClean raw (sanitize_subscriptions raw) instance session own
                  refl))
    receive-IsClean (unsubscribe i) = unsubscribe_found-IsClean (at i s.taps) i
    receive-IsClean (rpc instance session method params) =
        if-IsClean (not deps.has_call_instance) _ _ (λ h. did _ (tt, tt))
          (λ h.
            if-IsClean (owned_by_other deps token_name session) _ _ (λ other. did _ (tt, tt))
              (λ own. did _ (own, tt)))

    acknowledge-IsClean :
        (o : Option Tap) (i : ℕ)
        → IsClean (acknowledge o i (record s { awaited = without i s.awaited }))
    unfolding acknowledge
    acknowledge-IsClean none i = did _ (tt, (tt, (tt, tt)))
    acknowledge-IsClean (some tap) i = did _ (tt, (tt, tt))

    acknowledged-IsClean : (o : Option Unit) (i : ℕ) → IsClean (acknowledged o i s)
    unfolding acknowledged
    acknowledged-IsClean none i = v
    acknowledged-IsClean (some w) i = acknowledge-IsClean (at i s.taps) i

    rejected-IsClean : (o : Option Unit) (i : ℕ) (code : String) → IsClean (rejected o i code s)
    unfolding rejected
    rejected-IsClean none i code = v
    rejected-IsClean (some w) i code = did _ (tt, tt)

    step-IsClean : (h : Happening) → IsClean (step deps token_name s h)
    unfolding step close_socket
    step-IsClean (Happening.receives frame) =
        if-IsClean s.is_open _ s (λ h. receive-IsClean frame) (λ h. v)
    step-IsClean (Happening.acked i) = acknowledged-IsClean (at i s.awaited) i
    step-IsClean (Happening.refused i code) = rejected-IsClean (at i s.awaited) i code
    step-IsClean (Happening.upstream_event i) =
        if-IsClean s.is_open _ s (λ h. did _ (tt, tt)) (λ h. v)
    step-IsClean (Happening.upstream_close i) =
        if-IsClean s.is_open _ _ (λ h. did _ (tt, tt)) (λ h. v)
    step-IsClean Happening.closed = did _ (close_taps-IsPermitted s.taps)

  run-IsClean : (s : Socket) (hs : List Happening) → IsClean s → IsClean (run deps token_name s hs)
  unfolding run
  run-IsClean s [] v = v
  run-IsClean s (h ∷ hs) v = run-IsClean (step deps token_name s h) hs (step-IsClean s v h)

  -- Whatever a client sends over its socket, no call and no tap that it causes is about a session that
  -- another token owns, and each tap asks for subscriptions of known types with the schema's keys only.
  pub effects-IsPermitted :
      (hs : List Happening) → All IsPermitted (run deps token_name accept_client hs).effects
  unfolding accept_client
  effects-IsPermitted hs = run-IsClean accept_client hs tt
