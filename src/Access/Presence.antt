-- ===== src/Access/Presence.antt =====
-- src/presence.ts: who is using the instance. `now` is the clock in milliseconds, and an ISO time is
-- the millisecond that it shows. `before` is the order of `localeCompare`, which the platform fixes.
pub mod Views
use herdr_web_broker.Common.{
  ℕ, ◌+◌, String, Bool, true, false, Option, some, none, List, [], ◌∷◌, map, not, str_eq, ltb,
  or_else, or_option, if◌then◌else◌, filter,
}
use herdr_web_broker.Common.Dict.{Dict, lookup, insert, remove}

-- What `list` shows of an entry.
pub record PresenceEntry : Type 0 where
  pub token : String
  pub name : Option String
  pub email : Option String
  pub since : ℕ
  pub last_seen : ℕ

pub record Seen : Type 0 where
  pub entry : PresenceEntry
  pub seen_at : ℕ

pub record Presence : Type 0 where
  pub ttl_ms : ℕ
  pub entries : Dict Seen

pub new : Option ℕ → Presence
new ttl_ms = record { ttl_ms = or_else ttl_ms 600000; entries = [] }

-- `...(s ? { key: s } : {})`: an empty text counts as absent.
abbrev present : Option String → Option String
present none = none
present (some s) = if str_eq s "" then none else some s

abbrev name_of : Option Seen → Option String
name_of none = none
name_of (some s) = s.entry.name

abbrev email_of : Option Seen → Option String
email_of none = none
email_of (some s) = s.entry.email

abbrev since_of : Option Seen → Option ℕ
since_of none = none
since_of (some s) = some s.entry.since

identified : String → Option String → Option String → ℕ → Option Seen → Seen
identified token name email now existing = record {
  entry = record {
    token = token;
    name = present (or_option name (name_of existing));
    email = present (or_option email (email_of existing));
    since = or_else (since_of existing) now;
    last_seen = now;
  };
  seen_at = now;
}

pub identify : String → Option String → Option String → ℕ → Presence → Presence × PresenceEntry
unfolding identified
identify token name email now p =
    let seen = identified token name email now (lookup token p.entries) in
    (record p { entries = insert token seen p.entries }, seen.entry)

touch_entry : ℕ → Seen → Seen
touch_entry now s = record s { entry = record (s.entry) { last_seen = now }; seen_at = now }

touched : Option Seen → String → ℕ → Presence → Presence
unfolding touch_entry
touched none token now p = p
touched (some s) token now p = record p { entries = insert token (touch_entry now s) p.entries }

pub touch : String → ℕ → Presence → Presence
unfolding touched
touch token now p = touched (lookup token p.entries) token now p

-- `entry.seenAt < cutoff`, where the source's `now - ttlMs` may be negative
abbrev pub is_stale : ℕ → ℕ → Seen → Bool
is_stale ttl now s = ltb (s.seen_at + ttl) now

-- The loop of `list`, which deletes what is stale and collects the rest.
pub prune : ℕ → ℕ → Dict Seen → Dict Seen
prune ttl now [] = []
prune ttl now ((k, s) ∷ m) =
    if is_stale ttl now s then prune ttl now m else (k, s) ∷ prune ttl now m

insert_sorted : (String → String → Bool) → PresenceEntry → List PresenceEntry → List PresenceEntry
insert_sorted before e [] = e ∷ []
insert_sorted before e (f ∷ es) =
    if before f.token e.token then f ∷ insert_sorted before e es else e ∷ f ∷ es

-- `out.sort(…)`
sort : (String → String → Bool) → List PresenceEntry → List PresenceEntry
unfolding insert_sorted
sort before [] = []
sort before (e ∷ es) = insert_sorted before e (sort before es)

pub list : (String → String → Bool) → ℕ → Presence → Presence × List PresenceEntry
unfolding prune sort
list before now p =
    let kept = prune p.ttl_ms now p.entries in
    (record p { entries = kept }, sort before (map (λ e. e.1.entry) kept))

-- `remove`
pub evict : String → Presence → Presence
evict token p = record p { entries = remove token p.entries }

pub data Call : Type 0 where
  identifies : (token : String) → (name email : Option String) → (now : ℕ) → Call
  touches : (token : String) → (now : ℕ) → Call
  lists : (now : ℕ) → Call
  evicts : (token : String) → Call

pub step : (String → String → Bool) → Presence → Call → Presence
step before p (identifies token name email now) = (identify token name email now p).0
step before p (touches token now) = touch token now p
step before p (lists now) = (list before now p).0
step before p (evicts token) = evict token p

pub run : (String → String → Bool) → Presence → List Call → Presence
run before p [] = p
run before p (c ∷ cs) = run before (step before p c) cs
