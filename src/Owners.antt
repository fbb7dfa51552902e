-- ===== src/Owners.antt =====
-- src/owners.ts: one email owns one herdr session. The file owners.json is the state: `#read` gives
-- its bindings and each `#write` replaces them. `canonical` is `email.trim().toLowerCase()`,
-- `session_name_for` is the deterministic `u-<slug>-<hash>` (both are text and hash functions of the
-- platform, applied by the source to every email), and `now` is the time in ISO form.
pub mod Sticky
pub mod Sessions
pub mod Provision
mod Tests
use herdr_web_broker.Common.{
  String, Bool, true, false, Option, some, none, List, [], ◌∷◌, str_eq, find, if◌then◌else◌, not,
}
use herdr_web_broker.Common.Dict.{Dict, lookup, insert, remove, values}

pub record OwnerBinding : Type 0 where
  pub email : String
  pub session : String
  pub token : String
  pub created_at : String

abbrev pub Owners : Type 0
Owners = Dict OwnerBinding

pub data Error : Type 0 where
  email_taken unknown_email : (email : String) → Error

pub data Result {ℓ} (A : Type ℓ) : Type ℓ where
  ok : A → Result A
  err : Error → Result A

pub record Bound : Type 0 where
  pub binding : OwnerBinding
  pub created : Bool

pub data Call : Type 0 where
  binds : (email token now : String) → Call
  rebinds : (email token : String) → Call
  unbinds : (email : String) → Call

module _ (canonical : String → String) (session_name_for : String → String) where
  fresh_binding : String → String → String → OwnerBinding
  fresh_binding key token now = record {
    email = key;
    session = session_name_for key;
    token = token;
    created_at = now;
  }

  -- The binding that `data[key]` holds decides.
  bind_found : Option OwnerBinding → String → String → String → Owners → Result (Owners × Bound)
  unfolding fresh_binding
  bind_found (some existing) key token now owners =
      if not (str_eq existing.token token)
      then err (email_taken key)
      else ok (owners, record { binding = existing; created = false })
  bind_found none key token now owners =
      let binding = fresh_binding key token now in
      ok (insert key binding owners, record { binding = binding; created = true })

  pub bind : String → String → String → Owners → Result (Owners × Bound)
  unfolding bind_found
  bind email token now owners =
      let key = canonical email in bind_found (lookup key owners) key token now owners

  unfoldable pub by_email : String → Owners → Option OwnerBinding
  by_email email owners = lookup (canonical email) owners

  pub by_session : String → Owners → Option OwnerBinding
  by_session session owners = find (λ b. str_eq b.session session) (values owners)

  pub by_token : String → Owners → Option OwnerBinding
  by_token token owners = find (λ b. str_eq b.token token) (values owners)

  rebind_found : Option OwnerBinding → String → String → Owners → Result (Owners × OwnerBinding)
  rebind_found none key token owners = err (unknown_email key)
  rebind_found (some existing) key token owners =
      let moved = record existing { token = token } in ok (insert key moved owners, moved)

  pub rebind : String → String → Owners → Result (Owners × OwnerBinding)
  unfolding rebind_found
  rebind email token owners =
      let key = canonical email in rebind_found (lookup key owners) key token owners

  -- `remove`
  unfoldable pub unbind : String → Owners → Owners
  unbind email owners = remove (canonical email) owners

  abbrev after_bind : Owners → Result (Owners × Bound) → Owners
  after_bind owners (ok (owners', b)) = owners'
  after_bind owners (err e) = owners

  abbrev after_rebind : Owners → Result (Owners × OwnerBinding) → Owners
  after_rebind owners (ok (owners', b)) = owners'
  after_rebind owners (err e) = owners

  -- A call that throws leaves the file as it was.
  pub step : Owners → Call → Owners
  step owners (binds email token now) = after_bind owners (bind email token now owners)
  step owners (rebinds email token) = after_rebind owners (rebind email token owners)
  step owners (unbinds email) = unbind email owners

  pub run : Owners → List Call → Owners
  run owners [] = owners
  run owners (c ∷ cs) = run (step owners c) cs
