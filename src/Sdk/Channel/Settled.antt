-- ===== src/Sdk/Channel/Settled.antt =====
-- packages/client/src/events.ts: what becomes of the calls of an `EventChannel`.
use herdr_web_broker.Common.{
  ℕ, to_ℕ, ◌+◌, ◌≡◌, refl, String, Bool, true, false, Option, some, none, List, [], ◌∷◌, ◌++◌,
  if◌then◌else◌, arith,
}
use herdr_web_broker.Common.Dict.{lookup, remove}
use herdr_web_broker.Common.IdMap.{at, put, without}
use herdr_web_broker.Common.IdMap.Uses.{uses}
use herdr_web_broker.Sdk.Channel.{
  plain, subscribes, unsubscribes, emits, Channel, new_channel, close, open_socket, on_open,
  on_close, on_probe, on_timer, open_up, closing, cleared, forget_sub_id, closes, waits, delay_of,
  fired, retires,
}
use herdr_web_broker.Sdk.Channel.Steps.{
  subscribe, unsubscribe, Frame, malformed, herdr_event, sub_closed, status_event, answer, on_frame,
  told, left, delivered, ended, is_status, Happening, connects, closing_down, calls, subscribing,
  unsubscribing, opened_up, closed_down, probed, fires, receives, step, run,
}
use herdr_web_broker.Sdk.Channel.Counts.{sent, settled}
use herdr_web_broker.Sdk.Channel.Accounts.{
  IsSettled, is_given, quiet-IsSettled, same-IsSettled, rpc_on-IsSettled, resubscribe_all-IsSettled,
  pending-give_up_all, on_close-IsSettled, settle-IsSettled,
}

module _ (id : ℕ) where
  if-IsSettled :
      (b : Bool) (x y : Channel)
      → IsSettled id x
      → IsSettled id y
      → IsSettled id (if b then x else y)
  if-IsSettled true x y p q = p
  if-IsSettled false x y p q = q

  open_up-IsSettled : (c : Channel) → IsSettled id c → IsSettled id (open_up c)
  unfolding sent settled
  open_up-IsSettled c v =
      quiet-IsSettled id c v _ (record c { ws = some c.sockets; sockets = c.sockets + 1 }) refl refl
        refl refl

  closing-IsSettled :
      (o : Option ℕ) (c t : Channel)
      → IsSettled id c
      → t.next_id ≡ c.next_id
      → t.pending ≡ c.pending
      → IsSettled id (record t { effects = c.effects ++ closing o })
  unfolding sent settled
  closing-IsSettled none c t v h k = quiet-IsSettled id c v [] t h k refl refl
  closing-IsSettled (some socket) c t v h k =
      quiet-IsSettled id c v (closes socket ∷ []) t h k refl refl

  close-IsSettled : (c : Channel) → IsSettled id c → IsSettled id (close c)
  unfolding close
  close-IsSettled c v =
      closing-IsSettled c.ws c
        (record c {
          wanted = false;
          running = cleared c.reconnect c.running;
          opened = cleared c.ws c.opened;
          ws = none;
        })
        v refl refl

  on_open-IsSettled : (socket : ℕ) (c : Channel) → IsSettled id c → IsSettled id (on_open socket c)
  unfolding on_open sent settled
  on_open-IsSettled socket c v = resubscribe_all-IsSettled id c.groups _ (
      quiet-IsSettled id c v (emits "open" ∷ [])
        (record c { attempts = 0; opened = put socket tt c.opened }) refl refl refl refl)

  on_probe-IsSettled :
      (is_revoked : Bool) (jitter : ℕ) (c : Channel)
      → IsSettled id c
      → IsSettled id (on_probe is_revoked jitter c)
  unfolding on_probe sent settled
  on_probe-IsSettled true jitter c v =
      quiet-IsSettled id c v _ (record c { wanted = false }) refl refl refl refl
  on_probe-IsSettled false jitter c v =
      if-IsSettled c.wanted _ c
        (quiet-IsSettled id c v (waits c.timers (delay_of c.attempts jitter) ∷ [])
          (record c {
            attempts = c.attempts + 1;
            reconnect = some c.timers;
            timers = c.timers + 1;
            running = put c.timers tt c.running;
          })
          refl refl refl refl)
        v

  fired-IsSettled :
      (o : Option (Unit {0})) (timer : ℕ) (c : Channel)
      → IsSettled id c
      → IsSettled id (fired o timer c)
  fired-IsSettled none timer c v = v
  fired-IsSettled (some r) timer c v =
      open_up-IsSettled (record c { running = without timer c.running })
        (same-IsSettled id c v _ refl refl refl)

  told-IsSettled :
      (socket : Option ℕ) (o : Option String) (c : Channel)
      → IsSettled id c
      → IsSettled id (told socket o c)
  told-IsSettled none o c v = v
  told-IsSettled (some socket) none c v = v
  told-IsSettled (some socket) (some sub_id) c v =
      rpc_on-IsSettled id (some socket) unsubscribes c v

  left-IsSettled :
      (o : Option (Unit {0})) (g : ℕ) (c : Channel) → IsSettled id c → IsSettled id (left o g c)
  left-IsSettled none g c v = v
  left-IsSettled (some member) g c v =
      told-IsSettled (open_socket c.ws c.opened) (at g c.sub_ids) _ (
        same-IsSettled id c v
          (record c {
            groups = without g c.groups;
            by_sub_id = forget_sub_id (at g c.sub_ids) c.by_sub_id;
          })
          refl refl refl)

  delivered-IsSettled : (o : Option ℕ) (c : Channel) → IsSettled id c → IsSettled id (delivered o c)
  unfolding sent settled
  delivered-IsSettled none c v = v
  delivered-IsSettled (some g) c v = quiet-IsSettled id c v _ c refl refl refl refl

  ended-IsSettled :
      (o : Option ℕ) (sub_id : String) (c : Channel)
      → IsSettled id c
      → IsSettled id (ended o sub_id c)
  unfolding sent settled
  ended-IsSettled none sub_id c v = v
  ended-IsSettled (some g) sub_id c v =
      quiet-IsSettled id c v (retires g ∷ [])
        (record c { by_sub_id = remove sub_id c.by_sub_id; groups = without g c.groups }) refl refl
        refl refl

  on_frame-IsSettled : (f : Frame) (c : Channel) → IsSettled id c → IsSettled id (on_frame f c)
  unfolding on_frame sent settled
  on_frame-IsSettled malformed c v = v
  on_frame-IsSettled (herdr_event sub_id) c v = delivered-IsSettled (lookup sub_id c.by_sub_id) c v
  on_frame-IsSettled (sub_closed sub_id) c v =
      ended-IsSettled (lookup sub_id c.by_sub_id) sub_id c v
  on_frame-IsSettled (status_event name) c v =
      if-IsSettled (is_status name) _ c (quiet-IsSettled id c v _ c refl refl refl refl) v
  on_frame-IsSettled (answer i a) c v = settle-IsSettled id (at i c.pending) i a c refl v

  step-IsSettled : (h : Happening) (c : Channel) → IsSettled id c → IsSettled id (step h c)
  unfolding step on_timer subscribe unsubscribe
  step-IsSettled connects c v =
      if-IsSettled c.wanted c _ v
        (open_up-IsSettled (record c { wanted = true }) (same-IsSettled id c v _ refl refl refl))
  step-IsSettled closing_down c v = close-IsSettled c v
  step-IsSettled calls c v = rpc_on-IsSettled id (open_socket c.ws c.opened) plain c v
  step-IsSettled subscribing c v =
      rpc_on-IsSettled id (open_socket c.ws c.opened) (subscribes c.group_count) _
        (same-IsSettled id c v _ refl refl refl)
  step-IsSettled (unsubscribing g) c v = left-IsSettled (at g c.groups) g c v
  step-IsSettled (opened_up socket) c v = on_open-IsSettled socket c v
  step-IsSettled (closed_down socket) c v = on_close-IsSettled id socket c v
  step-IsSettled (probed is_revoked jitter) c v = on_probe-IsSettled is_revoked jitter c v
  step-IsSettled (fires timer) c v = fired-IsSettled (at timer c.running) timer c v
  step-IsSettled (receives frame) c v = on_frame-IsSettled frame c v

  run-IsSettled : (hs : List Happening) (c : Channel) → IsSettled id c → IsSettled id (run hs c)
  unfolding run
  run-IsSettled [] c v = v
  run-IsSettled (h ∷ hs) c v = run-IsSettled hs (step h c) (step-IsSettled h c v)

  new_channel-IsSettled : IsSettled id new_channel
  unfolding sent settled uses
  new_channel-IsSettled = record {
    from_one = omega arith;
    sent_once = ground arith;
    balanced = refl;
  }

  pending-on_close : (socket : ℕ) (c : Channel) → (on_close socket c).pending ≡ []
  unfolding on_close
  pending-on_close socket c = pending-give_up_all id c.pending _

  -- However a channel connects, loses its sockets, calls and subscribes: each id that was given out was sent
  -- once, and its promise is pending or was settled once; no other id was sent or settled. Once a socket
  -- closes, none is pending any more.
  pub settled-run-new_channel :
      (hs : List Happening) (socket : ℕ)
      → let c = run hs new_channel in
        (sent id c.effects ≡ to_ℕ (is_given id c))
        × (settled id c.effects + uses id c.pending ≡ sent id c.effects)
        × ((on_close socket c).pending ≡ [])
  settled-run-new_channel hs socket =
      let v = run-IsSettled hs new_channel new_channel-IsSettled in
      (v.sent_once, v.balanced, pending-on_close socket (run hs new_channel))
