-- ===== src/Client/Tests.antt =====
-- A run of a client's socket, and the theorems about it at concrete inputs.
use herdr_web_broker.Client.Upgrade.{candidates}
use herdr_web_broker.Common.{
  String, Option, ◌+◌, ◌≤◌, ◌≡◌, refl, true, some, none, List, [], ◌∷◌, length, All, str_eq,
  if◌then◌else◌,
}
use herdr_web_broker.Common.Dict.{Dict, lookup}
use herdr_web_broker.Owners.{OwnerBinding}
use herdr_web_broker.Client.Subscriptions.{Member, Element, text, object, sanitize_subscriptions}
use herdr_web_broker.Client.Subscriptions.Allowed.{IsAllowed, sanitize_subscriptions-IsAllowed}
use herdr_web_broker.Client.Socket.{
  Deps, subscribe, unsubscribe, rpc, accept_client, Happening, run,
}
use herdr_web_broker.Client.Socket.Counts.{opened, closures, lives}
use herdr_web_broker.Client.Socket.Accounts.{ends_told, taps_accounted}
use herdr_web_broker.Client.Socket.Privacy.{IsPermitted, effects-IsPermitted}

abbrev asked : List Element
asked =
    object (("type", text "pane.updated") ∷ ("pane_id", text "p1") ∷ ("cwd", text "/") ∷ []) ∷ []

abbrev kept : List (Dict Member)
kept = (("type", text "pane.updated") ∷ ("pane_id", text "p1") ∷ []) ∷ []

sanitized : sanitize_subscriptions (some asked) ≡ some kept
unfolding sanitize_subscriptions lookup
sanitized = refl

sanitize_subscriptions-IsAllowed_example :
    All IsAllowed kept × (length kept ≡ length asked) × (1 ≤ length kept) × (length kept ≤ 32)
sanitize_subscriptions-IsAllowed_example = sanitize_subscriptions-IsAllowed asked kept sanitized

abbrev ana : OwnerBinding
ana = record { email = "ana@x"; session = "u-ana"; token = "console"; created_at = "t0" }

abbrev deps : Deps
deps = record {
  by_session = λ session. if str_eq session "u-ana" then some ana else none;
  has_call_instance = true;
  unreachable = λ instance. if str_eq instance "desk" then some "instance_offline" else none;
}

-- One tap is dropped while its acknowledgement is on the way, one ends upstream, one lives on until
-- the socket closes; a session of another token is asked for in between.
abbrev history : List Happening
history =
    Happening.receives (subscribe "laptop" "default" (some asked))
    ∷ Happening.receives (unsubscribe 1)
    ∷ Happening.acked 1
    ∷ Happening.receives (subscribe "laptop" "default" (some asked))
    ∷ Happening.acked 2
    ∷ Happening.receives (rpc "laptop" "u-ana" "agent.list" "{}")
    ∷ Happening.receives (subscribe "desk" "default" (some asked))
    ∷ Happening.receives (subscribe "laptop" "default" (some asked))
    ∷ Happening.acked 4
    ∷ Happening.upstream_close 2
    ∷ Happening.closed
    ∷ []

taps_accounted_example :
    let s = run deps (some "phone") accept_client history in
    let open_or_closed = closures 2 s.effects + lives 2 s.taps in
    (opened 2 s.effects ≤ 1)
    × (open_or_closed ≤ opened 2 s.effects)
    × (opened 2 s.effects ≤ open_or_closed + ends_told 2 history)
taps_accounted_example = taps_accounted 2 deps (some "phone") history

effects-IsPermitted_example :
    All (IsPermitted deps (some "phone")) (run deps (some "phone") accept_client history).effects
effects-IsPermitted_example = effects-IsPermitted deps (some "phone") history

abbrev offered : List (Option String)
offered = none ∷ some "Bearer s3cret" ∷ []

offered_in_order : candidates none ("bearer" ∷ "s3cret" ∷ []) none ≡ offered
unfolding candidates
offered_in_order = refl
