-- ===== src/Client/Socket/Capacity.antt =====
-- src/ws-server.ts: the number of slots that a client's socket takes.
use herdr_web_broker.Common.{
  ℕ, ◌+◌, ◌≤◌, ◌≡◌, refl, String, Bool, true, false, ◌||◌, not, Option, some, none, List, [], ◌∷◌,
  leb, is_some, if◌then◌else◌, arith, str_eq, length, Bool-cases, inl, inr,
}
use herdr_web_broker.Common.Dict.{Dict}
use herdr_web_broker.Common.IdMap.{IdMap, at, put, without}
use herdr_web_broker.Client.Subscriptions.{Member, sanitize_subscriptions}
use herdr_web_broker.Client.Socket.{
  Tap, reserved, live, Frame, no_method, events_subscribe, subscribe, unsubscribe, rpc, Socket,
  accept_client, max_sub_groups, Deps, owned_by_other, reserve, subscribe_sanitized,
  subscribe_frame, unsubscribe_found, call_frame, receive, acknowledge, acknowledged, rejected,
  close_socket, Happening, step, run,
}

abbrev IsWithin : Socket → Type 0
IsWithin s = length s.taps ≤ max_sub_groups

module _ {V : Type 0} where
  length-without : (id : ℕ) (ids : IdMap V) → length (without id ids) ≤ length ids
  unfolding without
  length-without id [] = omega arith
  length-without id ((i, v) ∷ ids) = ground (arith, length-without id ids)

  length-put :
      (id : ℕ) (v : V) (ids : IdMap V)
      → length (put id v ids) ≡ (if is_some (at id ids) then length ids else length ids + 1)
  unfolding put at
  length-put id v [] = ground arith
  length-put id v ((i, w) ∷ ids) = ground (arith, length-put id v ids)

if-IsWithin : (b : Bool) (x y : Socket) → IsWithin x → IsWithin y → IsWithin (if b then x else y)
if-IsWithin true x y p q = p
if-IsWithin false x y p q = q

module _ (s : Socket) (v : IsWithin s) where
  freed : (i : ℕ) → length (without i s.taps) ≤ max_sub_groups
  freed i = omega (arith, length-without i s.taps, v)

  reserve-IsWithin :
      leb max_sub_groups (length s.taps) ≡ false
      → (code : Option String) (instance session : String) (subs : List (Dict Member))
      → IsWithin (reserve code instance session subs s)
  unfolding reserve
  reserve-IsWithin free none instance session subs =
      ground (arith, free, length-put (s.sub_seq + 1) reserved s.taps)
  reserve-IsWithin free (some code) instance session subs =
      let i = s.sub_seq + 1 in
      ground (arith, free, length-put i reserved s.taps, length-without i (put i reserved s.taps))

  unsubscribe_found-IsWithin : (o : Option Tap) (i : ℕ) → IsWithin (unsubscribe_found o i s)
  unfolding unsubscribe_found
  unsubscribe_found-IsWithin none i = v
  unsubscribe_found-IsWithin (some tap) i = freed i

  subscribe_sanitized-IsWithin :
      (o : Option (List (Dict Member))) (deps : Deps) (instance session : String)
      → IsWithin (subscribe_sanitized o deps instance session s)
  unfolding subscribe_sanitized
  subscribe_sanitized-IsWithin none deps instance session = v
  subscribe_sanitized-IsWithin (some subs) deps instance session =
      elim (Bool-cases (leb max_sub_groups (length s.taps))) [
        | inl full ↦ rw full v
        | inr free ↦
            rw free (reserve-IsWithin free (deps.unreachable instance) instance session subs)
      ]

  receive-IsWithin :
      (deps : Deps) (token_name : Option String) (frame : Frame)
      → IsWithin (receive deps token_name frame s)
  unfolding receive subscribe_frame call_frame
  receive-IsWithin deps token_name no_method = v
  receive-IsWithin deps token_name events_subscribe = v
  receive-IsWithin deps token_name (subscribe instance session raw) =
      if-IsWithin (str_eq instance "" || str_eq session "") _ _ v (
        if-IsWithin (owned_by_other deps token_name session) _ _ v
          (subscribe_sanitized-IsWithin (sanitize_subscriptions raw) deps instance session))
  receive-IsWithin deps token_name (unsubscribe i) = unsubscribe_found-IsWithin (at i s.taps) i
  receive-IsWithin deps token_name (rpc instance session method params) =
      if-IsWithin (not deps.has_call_instance) _ _ v
        (if-IsWithin (owned_by_other deps token_name session) _ _ v v)

  acknowledge-IsWithin :
      (o : Option Tap) (i : ℕ)
      → at i s.taps ≡ o
      → IsWithin (acknowledge o i (record s { awaited = without i s.awaited }))
  unfolding acknowledge
  acknowledge-IsWithin none i h = v
  acknowledge-IsWithin (some tap) i h = ground (arith, length-put i live s.taps, h)

  acknowledged-IsWithin : (o : Option Unit) (i : ℕ) → IsWithin (acknowledged o i s)
  unfolding acknowledged
  acknowledged-IsWithin none i = v
  acknowledged-IsWithin (some w) i = acknowledge-IsWithin (at i s.taps) i refl

  rejected-IsWithin : (o : Option Unit) (i : ℕ) (code : String) → IsWithin (rejected o i code s)
  unfolding rejected
  rejected-IsWithin none i code = v
  rejected-IsWithin (some w) i code = omega (arith, length-without i s.taps, v)

  step-IsWithin :
      (deps : Deps) (token_name : Option String) (h : Happening)
      → IsWithin (step deps token_name s h)
  unfolding step close_socket
  step-IsWithin deps token_name (Happening.receives frame) =
      if-IsWithin s.is_open _ s (receive-IsWithin deps token_name frame) v
  step-IsWithin deps token_name (Happening.acked i) = acknowledged-IsWithin (at i s.awaited) i
  step-IsWithin deps token_name (Happening.refused i code) =
      rejected-IsWithin (at i s.awaited) i code
  step-IsWithin deps token_name (Happening.upstream_event i) = if-IsWithin s.is_open _ s v v
  step-IsWithin deps token_name (Happening.upstream_close i) =
      if-IsWithin s.is_open _ _ (freed i) (freed i)
  step-IsWithin deps token_name Happening.closed = omega arith

run-IsWithin :
    (deps : Deps) (token_name : Option String) (s : Socket) (hs : List Happening)
    → IsWithin s
    → IsWithin (run deps token_name s hs)
unfolding run
run-IsWithin deps token_name s [] v = v
run-IsWithin deps token_name s (h ∷ hs) v =
    run-IsWithin deps token_name (step deps token_name s h) hs (step-IsWithin s v deps token_name h)

-- However frames, acknowledgements and closings interleave, a socket never holds more than the
-- allowed number of slots, those that await their acknowledgement included.
pub taps_within :
    (deps : Deps) (token_name : Option String) (hs : List Happening)
    → length (run deps token_name accept_client hs).taps ≤ max_sub_groups
unfolding accept_client
taps_within deps token_name hs = run-IsWithin deps token_name accept_client hs (omega arith)
