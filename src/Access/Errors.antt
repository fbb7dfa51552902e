-- ===== src/Access/Errors.antt =====
-- src/errors.ts: the code of an error, its HTTP status and its envelope. The details of an error are
-- a dictionary of JSON values, which are text here; message texts are kept.
use herdr_web_broker.Common.{ℕ, ◌≤◌, ◌<◌, String, [], ◌∷◌, arith, or_else, All}
use herdr_web_broker.Common.Dict.{Dict, lookup}
use herdr_web_broker.Common.Dict.Distinct.{insert_all}

abbrev pub status_table : Dict ℕ
status_table =
    ("unauthorized", 401)
    ∷ ("bad_request", 400)
    ∷ ("method_denied", 403)
    ∷ ("unknown_instance", 404)
    ∷ ("unknown_session", 404)
    ∷ ("unknown_workspace", 404)
    ∷ ("unknown_repo", 404)
    ∷ ("instance_offline", 503)
    ∷ ("upstream_timeout", 504)
    ∷ ("proto_mismatch", 400)
    ∷ ("git_error", 502)
    ∷ ("env_disabled", 403)
    ∷ ("mint_disabled", 403)
    ∷ ("env_hook_failed", 502)
    ∷ ("unknown_env", 404)
    ∷ ("unknown_model", 404)
    ∷ ("unknown_token", 404)
    ∷ ("unknown_bundle", 404)
    ∷ ("pane_busy", 409)
    ∷ ("email_taken", 409)
    ∷ ("stale_confirm", 409)
    ∷ ("unknown_email", 404)
    ∷ ("provision_failed", 502)
    ∷ ("rate_limited", 429)
    ∷ ("unknown_context", 404)
    ∷ ("unknown_file", 404)
    ∷ ("agent_unresponsive", 504)
    ∷ ("model_switch_unsupported", 400)
    ∷ ("resume_unsupported", 400)
    ∷ ("unknown_session_ref", 404)
    ∷ ("agent_unauthenticated", 502)
    ∷ []

pub http_status : String → ℕ
http_status code = or_else (lookup code status_table) 502

-- A JavaScript error; `details` are the values that the envelope shows beside code and message.
pub record BrokerError : Type 0 where
  pub code : String
  pub message : String
  pub details : Dict String

-- `{ code, message, ...details }`
pub to_envelope : BrokerError → Dict String
to_envelope e = insert_all (("code", e.code) ∷ ("message", e.message) ∷ []) e.details

abbrev IsErrorStatus : ℕ → Type 0
IsErrorStatus s = (400 ≤ s) × (s < 600)

lookup-All :
    (code : String) (m : Dict ℕ)
    → All (λ e. IsErrorStatus e.1) m
    → IsErrorStatus (or_else (lookup code m) 502)
unfolding lookup
lookup-All code [] h = omega arith
lookup-All code ((k, s) ∷ m) (p, h) = ground (arith, lookup-All code m h)

-- Whatever its code, an error is answered with a status of the 4xx or 5xx classes, never as a success.
pub http_status_range : (code : String) → (400 ≤ http_status code) × (http_status code < 600)
unfolding http_status
http_status_range code = lookup-All code status_table (omega arith)
