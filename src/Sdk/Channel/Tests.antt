-- ===== src/Sdk/Channel/Tests.antt =====
-- Runs of a channel that loses its socket, and the theorem on its calls.
use herdr_web_broker.Common.{to_ℕ, ◌+◌, ◌≡◌, refl, false, some, List, [], ◌∷◌}
use herdr_web_broker.Common.IdMap.{at, put, without}
use herdr_web_broker.Common.IdMap.Uses.{uses}
use herdr_web_broker.Sdk.Channel.{
  new_channel, close, open_socket, give_up, rpc_on, resubscribe, resubscribe_all, on_open,
  give_up_all, on_close, on_probe, on_timer,
}
use herdr_web_broker.Sdk.Channel.Steps.{
  subscribe, go_on, unsubscribe, settle, on_frame, result, answer, Happening, connects,
  closing_down, calls, subscribing, unsubscribing, opened_up, closed_down, probed, fires, receives,
  step, run,
}
use herdr_web_broker.Sdk.Channel.Counts.{sent, settled}
use herdr_web_broker.Sdk.Channel.Accounts.{is_given}
use herdr_web_broker.Sdk.Channel.Settled.{settled-run-new_channel}

-- A group whose socket closes twice, the second time before its new subscription is acknowledged, is retired.
abbrev drops_twice : List Happening
drops_twice =
    connects
    ∷ opened_up 0
    ∷ subscribing
    ∷ receives (answer 1 (result "s1"))
    ∷ closed_down 0
    ∷ probed false 0
    ∷ fires 0
    ∷ opened_up 1
    ∷ closed_down 1
    ∷ []

retired_group : (run drops_twice new_channel).groups ≡ []
unfolding run step on_open on_close on_probe on_timer subscribe rpc_on open_socket on_frame settle
    go_on resubscribe_all resubscribe give_up_all give_up at put without
retired_group = refl

-- The old socket of a channel that was closed and connected again closes: the call on the new socket is
-- rejected, and a third socket is opened although the second one is open.
abbrev closes_late : List Happening
closes_late =
    connects
    ∷ opened_up 0
    ∷ closing_down
    ∷ connects
    ∷ opened_up 1
    ∷ calls
    ∷ closed_down 0
    ∷ probed false 0
    ∷ fires 0
    ∷ []

third_socket :
    let c = run closes_late new_channel in
    (c.ws ≡ some 2) × (c.opened ≡ (1, tt) ∷ []) × (c.pending ≡ [])
unfolding run step close on_open on_close on_probe on_timer rpc_on open_socket resubscribe_all
    give_up_all give_up at put without
third_socket = (refl, refl, refl)

-- A group that is left while its new subscription is awaited: the broker is not told of it, neither then nor
-- when it acknowledges the subscription.
abbrev leaves_early : List Happening
leaves_early =
    connects
    ∷ opened_up 0
    ∷ subscribing
    ∷ receives (answer 1 (result "s1"))
    ∷ closed_down 0
    ∷ probed false 0
    ∷ fires 0
    ∷ opened_up 1
    ∷ unsubscribing 0
    ∷ receives (answer 2 (result "s2"))
    ∷ []

untold : (run leaves_early new_channel).next_id ≡ 3
unfolding run step on_open on_close on_probe on_timer subscribe rpc_on open_socket on_frame settle
    go_on resubscribe_all resubscribe give_up_all give_up unsubscribe at put without
untold = refl

settled-run-new_channel_example :
    let c = run closes_late new_channel in
    (sent 1 c.effects ≡ to_ℕ (is_given 1 c))
    × (settled 1 c.effects + uses 1 c.pending ≡ sent 1 c.effects)
    × ((on_close 1 c).pending ≡ [])
settled-run-new_channel_example = settled-run-new_channel 1 closes_late 1
