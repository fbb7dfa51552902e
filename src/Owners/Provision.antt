-- ===== src/Owners/Provision.antt =====
-- `POST /auth` of src/http.ts: an email gets a session of its own. Whether herdr could be started and its
-- session was attached within ten seconds is an argument; the lock lets one such request of an email run at a
-- time.
use herdr_web_broker.Common.{
  ◌≡◌, refl, ◌∙◌, subst, String, Bool, true, false, not, ◌&&◌, Option, some, none, is_some, arith,
  str_eq, eq_iff, if◌then◌else◌, Option-cases, inl, inr,
}
use herdr_web_broker.Common.Dict.{lookup, insert, lookup-insert, lookup-remove}
use herdr_web_broker.Owners.{
  OwnerBinding, Owners, Error, Result, ok, err, Bound, fresh_binding, bind_found, bind, by_email,
  unbind,
}

pub record Ownership : Type 0 where
  pub session : String
  pub provisioned : Bool

pub data Answer : Type 0 where
  owns : Ownership → Answer
  taken : (email : String) → Answer
  provision_failed : Answer

module _ (canonical : String → String) (session_name_for : String → String) where
  -- The `work` of a request, after the binding.
  unfoldable pub attach : Bool → String → Result (Owners × Bound) → Owners → Owners × Answer
  unfolding unbind
  attach attached email (err (Error.email_taken e)) owners = (owners, taken e)
  attach attached email (err (Error.unknown_email e)) owners = (owners, provision_failed)
  attach true email (ok (bound, b)) owners =
      (bound, owns (record { session = b.binding.session; provisioned = true }))
  attach false email (ok (bound, b)) owners =
      (unbind canonical session_name_for email bound, provision_failed)

  unfoldable pub provision_found :
      Option OwnerBinding → Bool → String → String → String → Owners → Owners × Answer
  unfolding attach bind
  provision_found (some existing) attached email token now owners =
      if not (str_eq existing.token token)
      then (owners, taken email)
      else (owners, owns (record { session = existing.session; provisioned = false }))
  provision_found none attached email token now owners =
      attach attached email (bind canonical session_name_for email token now owners) owners

  unfoldable pub provision : Bool → String → String → String → Owners → Owners × Answer
  unfolding provision_found by_email
  provision attached email token now owners =
      provision_found (by_email canonical session_name_for email owners) attached email token now
        owners

  -- Whether a request gives the email a session.
  abbrev pub provisions : Bool → String → Owners → Bool
  provisions attached email owners =
      attached && not (is_some (by_email canonical session_name_for email owners))

  abbrev pub new_binding : String → String → String → OwnerBinding
  new_binding email token now = record {
    email = canonical email;
    session = session_name_for (canonical email);
    token = token;
    created_at = now;
  }

  bound_now :
      (email token now : String) (owners : Owners)
      → lookup (canonical email) owners ≡ none
      → (b : Bound) × (bind canonical session_name_for email token now owners
          ≡ ok (insert (canonical email) (new_binding email token now) owners, b))
  unfolding bind bind_found fresh_binding
  bound_now email token now owners unowned =
      (record { binding = new_binding email token now; created = true }, rw unowned refl)

  get-attach :
      (attached : Bool) (email token now other : String) (owners : Owners) (b : Bound)
      → lookup (canonical email) owners ≡ none
      → lookup
          (canonical other)
          (attach attached email
            (ok (insert (canonical email) (new_binding email token now) owners, b))
            owners).0
        ≡ (if attached && str_eq (canonical email) (canonical other)
            then some (new_binding email token now)
            else lookup (canonical other) owners)
  unfolding attach unbind
  get-attach true email token now other owners b unowned =
      lookup-insert (canonical email) (canonical other) (new_binding email token now) owners
  get-attach false email token now other owners b unowned =
      let bound = insert (canonical email) (new_binding email token now) owners in
      lookup-remove (canonical email) (canonical other) bound
      ∙ ground (
        arith,
        lookup-insert (canonical email) (canonical other) (new_binding email token now) owners,
        eq_iff (canonical email) (canonical other),
        unowned,
        gone (canonical email) (canonical other) owners unowned,
      )
    where
      gone :
          (key k : String) (o : Owners)
          → lookup key o ≡ none
          → str_eq key k ≡ true
          → lookup k o ≡ none
      gone key k o h same = subst (λ x. lookup x o ≡ none) ((eq_iff key k).0 same) h

  -- The owner of every email after a request: the email that had none has the new binding, if its herdr could
  -- be attached, and no other email's owner changes, whether the request succeeds or fails.
  pub by_email-provision :
      (attached : Bool) (email token now other : String) (owners : Owners)
      → by_email canonical session_name_for other (provision attached email token now owners).0 ≡ (
          if provisions attached email owners && str_eq (canonical email) (canonical other)
          then some (new_binding email token now)
          else by_email canonical session_name_for other owners)
  unfolding provision provision_found by_email
  by_email-provision attached email token now other owners =
      elim (Option-cases (lookup (canonical email) owners))
        as (λ _.
          by_email canonical session_name_for other (provision attached email token now owners).0
          ≡ (if provisions attached email owners && str_eq (canonical email) (canonical other)
              then some (new_binding email token now)
              else by_email canonical session_name_for other owners)) [
                | inl unowned ↦
                    let (b, bound) = bound_now email token now owners unowned in
                    rw (unowned, bound)
                      (ground (arith, get-attach attached email token now other owners b unowned))
                | inr (existing, owned) ↦ rw owned (ground arith)
              ]
