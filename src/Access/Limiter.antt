-- ===== src/Access/Limiter.antt =====
-- src/auth-limit.ts: the sliding-window limiter of failed authentications. `now` is the time that
-- the source reads from its clock; each operation returns the new map of failures.
pub mod Refines
use herdr_web_broker.Common.{
  ℕ, ◌+◌, ◌≤◌, ◌<◌, ◌≡◌, refl, sym, ap, ◌∙◌, String, Bool, true, false, Option, some, none, List,
  [], ◌∷◌, ◌++◌, arith, str_eq, eq_iff, ltb, leb, or_else, if◌then◌else◌, length, filter,
  filter-append, Bool-cases, inl, inr,
}
use herdr_web_broker.Common.Dict.{Dict, lookup, insert, remove, lookup-insert, lookup-remove}

pub record AuthLimiter : Type 0 where
  pub max_failures : ℕ
  pub window_ms : ℕ
  pub failures : Dict (List ℕ)

-- `new AuthLimiter(opts)`
pub new : Option ℕ → Option ℕ → AuthLimiter
new max_failures window_ms = record {
  max_failures = or_else max_failures 10;
  window_ms = or_else window_ms 60000;
  failures = [];
}

-- `t > now - windowMs`, where the source's difference may be negative
abbrev pub recent : ℕ → ℕ → ℕ → Bool
recent window now t = ltb now (t + window)

abbrev pub stored : String → AuthLimiter → List ℕ
stored ip l = or_else (lookup ip l.failures) []

abbrev is_empty : List ℕ → Bool
is_empty [] = true
is_empty (t ∷ ts) = false

-- `#live`: the failures still in the window, which replace those stored.
live : String → ℕ → AuthLimiter → AuthLimiter × List ℕ
live ip now l =
    let kept = filter (recent l.window_ms now) (stored ip l) in
    (
      record l {
        failures = if is_empty kept then remove ip l.failures else insert ip kept l.failures;
      },
      kept,
    )

pub record_failure : String → ℕ → AuthLimiter → AuthLimiter
unfolding live
record_failure ip now l =
    let (l', kept) = live ip now l in
    record l' { failures = insert ip (kept ++ now ∷ []) l'.failures }

pub success : String → AuthLimiter → AuthLimiter
success ip l = record l { failures = remove ip l.failures }

unfoldable pub blocked : String → ℕ → AuthLimiter → AuthLimiter × Bool
unfolding live
blocked ip now l = let (l', kept) = live ip now l in (l', leb l'.max_failures (length kept))

pub data Call : Type 0 where
  fails : (ip : String) (now : ℕ) → Call
  succeeds : (ip : String) → Call
  asks : (ip : String) (now : ℕ) → Call

unfoldable pub step : AuthLimiter → Call → AuthLimiter
step l (fails ip now) = record_failure ip now l
step l (succeeds ip) = success ip l
step l (asks ip now) = (blocked ip now l).0

pub run : AuthLimiter → List Call → AuthLimiter
run l [] = l
run l (c ∷ cs) = run (step l c) cs
