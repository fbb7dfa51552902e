-- ===== src/Access/Tests.antt =====
-- The theorems about access at concrete inputs.
use Prim.Native.String.{◌++◌ as cat}
use Prim.Native.Char.{code}
use Prim.Native.String as Text
use mathlib.Core.Option
use herdr_web_broker.Common.{
  ℕ, zero, suc, ◌+◌, nat_eq, if◌then◌else◌, ◌≡◌, ◌↔◌, refl, String, Bool, true, false, Option, some,
  none, List, [], ◌∷◌, arith, is_some, filter, length, leb, In,
}
use herdr_web_broker.Common.Dict.{lookup}
use herdr_web_broker.Access.Policy.{Denies, method_denied, method_denied_iff, default_remote_deny}
use herdr_web_broker.Access.Bearer.{ClientToken, match_token, check_bearer}
use herdr_web_broker.Access.Bearer.Matching.{matching, match_token-matching}
use herdr_web_broker.Access.Limiter
use herdr_web_broker.Access.Limiter.{AuthLimiter, fails, succeeds, asks, blocked, recent, run}
use herdr_web_broker.Access.Gate.{Request, parts_of}
use herdr_web_broker.Access.Gate.Limited
use herdr_web_broker.Access.Gate.Limited.{
  Knock, asks_http, upgrades, Visit, is_free, visited, run_visits, visited-run_visits,
}
use herdr_web_broker.Access.Presence.{
  PresenceEntry, Seen, Presence, Call, identifies, touches, lists, evicts, list, is_stale,
}
use herdr_web_broker.Access.Presence as P
use herdr_web_broker.Access.Presence.Views.{span, span_run, span-run-new}

policy_tests :
    (method_denied "plugin.install" default_remote_deny ≡ true)
    × (method_denied "plugin" default_remote_deny ≡ false)
    × (method_denied "server.stop" default_remote_deny ≡ true)
    × (method_denied "agent.list" default_remote_deny ≡ false)
unfolding method_denied
policy_tests = (refl, refl, refl, refl)

method_denied_iff_example :
    (method_denied "plugin.install" default_remote_deny ≡ true)
    ↔ ((g : String) × In g default_remote_deny × Denies "plugin.install" g)
method_denied_iff_example = method_denied_iff "plugin.install" default_remote_deny

-- A digest that is the text's own code points stands for SHA-256 and hex.
abbrev codes : String → List ℕ
codes Text.[] = []
codes (Text.◌∷◌ c s) = code c ∷ codes s

abbrev phone : ClientToken
phone = record { name = "phone"; token = some "s3cret"; token_hash = none }

match_token_test :
    match_token codes (λ b. "") codes (some "Bearer s3cret") (phone ∷ []) ≡ some "phone"
unfolding match_token
match_token_test = refl

match_token-matching_example :
    (match_token codes (λ b. "") codes (some "Bearer s3cret") (phone ∷ [])
      ≡ Option.map
          (λ t. t.name)
          (matching codes (λ b. "") codes (some "Bearer s3cret") (phone ∷ [])))
    × (check_bearer codes (λ b. "") codes (some "Bearer s3cret") (phone ∷ [])
        ≡ is_some (matching codes (λ b. "") codes (some "Bearer s3cret") (phone ∷ [])))
match_token-matching_example =
    match_token-matching codes (λ b. "") codes (some "Bearer s3cret") (phone ∷ [])

-- A code of numbers as text that can be read back: `n` letters "a" and a "b" for each number.
abbrev write_number : ℕ → String → String
write_number zero s = Text.◌∷◌ "b" s
write_number (suc n) s = Text.◌∷◌ "a" (write_number n s)

abbrev write_numbers : List ℕ → String
write_numbers [] = Text.[]
write_numbers (n ∷ ns) = write_number n (write_numbers ns)

abbrev read_numbers : ℕ → String → List ℕ
read_numbers n Text.[] = []
read_numbers n (Text.◌∷◌ c s) =
    let longer = read_numbers (n + 1) s in
    let closed = n ∷ read_numbers 0 s in if nat_eq (code c) b'a' then longer else closed

read-write_number :
    (m n : ℕ) (s : String) → read_numbers m (write_number n s) ≡ (m + n) ∷ read_numbers 0 s
read-write_number m zero s = ground arith
read-write_number m (suc n) s = ground (arith, read-write_number (m + 1) n s)

read-write_numbers : (ns : List ℕ) → read_numbers 0 (write_numbers ns) ≡ ns
read-write_numbers [] = refl
read-write_numbers (n ∷ ns) =
    ground (arith, read-write_number 0 n (write_numbers ns), read-write_numbers ns)

abbrev strict : AuthLimiter
strict = record { max_failures = 2; window_ms = 100; failures = [] }

abbrev attempts : List Limiter.Call
attempts = fails "1.2.3.4" 10 ∷ asks "1.2.3.4" 50 ∷ fails "1.2.3.4" 90 ∷ fails "5.6.7.8" 95 ∷ []

abbrev no_order : String → String → Bool
no_order s t = false

abbrev visits : List Call
visits =
    identifies "phone" (some "Ann") none 5 ∷ touches "phone" 9 ∷ identifies "desk" none none 20 ∷ []

span-run-new_example :
    span (lookup "phone" (P.run no_order (P.new (some 10)) visits).entries)
    ≡ span_run 10 "phone" none visits
span-run-new_example = span-run-new no_order "phone" (some 10) visits

-- Two wrong tokens, one of them offered for an upgrade, and a request without any.
abbrev knock : Option String → Request
knock authorization = record {
  method = "GET";
  path = "v1" ∷ "instances" ∷ [];
  remote = "1.2.3.4";
  admin_token = none;
  authorization = authorization;
}

abbrev visit : Knock → ℕ → Visit
visit k now = record { knock = k; tokens = phone ∷ []; now = now }

abbrev visits_before : List Visit
visits_before =
    visit (asks_http (knock (some "Bearer no"))) 10
    ∷ visit (asks_http (knock none)) 20
    ∷ visit (upgrades "1.2.3.4" (none ∷ some "Bearer nor" ∷ [])) 30
    ∷ []

abbrev valid : Visit
valid = visit (asks_http (knock (some "Bearer s3cret"))) 100

guarded : is_free valid.knock ≡ false
unfolding parts_of
guarded = refl

visited-run_visits_example :
    (visited codes
      (λ b. "")
      codes
      "root"
      valid
      (run_visits codes (λ b. "") codes "root" strict visits_before)).1
    ≡ leb 2 (
        length (
          filter
            (recent 100 100)
            (Limited.attempts codes (λ b. "") codes "root" 2 100 "1.2.3.4" [] visits_before)))
visited-run_visits_example =
    visited-run_visits codes (λ b. "") codes "root" strict visits_before valid refl (omega arith)
      guarded
