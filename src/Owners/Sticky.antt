-- ===== src/Owners/Sticky.antt =====
-- src/owners.ts: a binding belongs to the token that made it until an administrator moves it.
use herdr_web_broker.Common.{
  ◌≡◌, ◌≢◌, subst, String, false, some, List, [], ◌∷◌, arith, str_eq, eq_iff, eq_refl, str_eq-ne,
  if◌then◌else◌, All, Option-cases, inl, inr,
}
use herdr_web_broker.Common.Dict.{lookup, lookup-insert, lookup-remove}
use herdr_web_broker.Owners.{
  OwnerBinding, Owners, email_taken, ok, err, Bound, Call, binds, rebinds, unbinds, bind, rebind,
  unbind, step, run, fresh_binding,
}

module _ (canonical : String → String) (session_name_for : String → String) where
  -- The calls by which an administrator ends or moves a binding.
  abbrev pub Spares : String → Call → Type 0
  Spares key (binds email token now) = Unit
  Spares key (rebinds email token) = canonical email ≢ key
  Spares key (unbinds email) = canonical email ≢ key

  step-Spares :
      (key : String) (owners : Owners) (c : Call) (b : OwnerBinding)
      → Spares key c
      → lookup key owners ≡ some b
      → lookup key (step canonical session_name_for owners c) ≡ some b
  unfolding step bind rebind unbind
  step-Spares key owners (binds email token now) b spares found =
      elim (Option-cases (lookup (canonical email) owners)) [
        | inl missing ↦ rw missing (
            ground (
              arith,
              lookup-insert (canonical email) key
                  (fresh_binding canonical session_name_for (canonical email) token now) owners,
              eq_iff (canonical email) key,
            ))
        | inr (old, held) ↦ rw held (ground arith)
      ]
  step-Spares key owners (rebinds email token) b spares found =
      elim (Option-cases (lookup (canonical email) owners)) [
        | inl missing ↦ rw missing found
        | inr (old, held) ↦ rw held (
            rw
              (
                lookup-insert (canonical email) key (record old { token = token }) owners,
                str_eq-ne (canonical email) key spares,
              )
              found)
      ]
  step-Spares key owners (unbinds email) b spares found =
      rw (lookup-remove (canonical email) key owners, str_eq-ne (canonical email) key spares) found

  run-Spares :
      (key : String) (owners : Owners) (cs : List Call) (b : OwnerBinding)
      → All (Spares key) cs
      → lookup key owners ≡ some b
      → lookup key (run canonical session_name_for owners cs) ≡ some b
  unfolding run
  run-Spares key owners [] b h found = found
  run-Spares key owners (c ∷ cs) b (spares, h) found =
      run-Spares key (step canonical session_name_for owners c) cs b h
        (step-Spares key owners c b spares found)

  -- A successful `bind` has stored the binding that it returns, for the token that asked.
  bind-stored :
      (email token now : String) (owners owners' : Owners) (r : Bound)
      → bind canonical session_name_for email token now owners ≡ ok (owners', r)
      → (lookup (canonical email) owners' ≡ some r.binding) × (r.binding.token ≡ token)
  unfolding bind
  bind-stored email token now owners owners' r e =
      elim (Option-cases (lookup (canonical email) owners)) [
        | inl missing ↦
            let new = fresh_binding canonical session_name_for (canonical email) token now in
            let e' = rw (missing, bind) at e in
            ground (
              arith,
              lookup-insert (canonical email) (canonical email) new owners,
              eq_refl (canonical email),
            )
        | inr (old, held) ↦ let e' = rw (held, bind) at e in ground (arith, eq_iff old.token token)
      ]

  bind_held :
      (email token now : String) (owners : Owners) (b : OwnerBinding)
      → lookup (canonical email) owners ≡ some b
      → bind canonical session_name_for email token now owners ≡ (
          if str_eq b.token token
          then ok (owners, record { binding = b; created = false })
          else err (email_taken (canonical email)))
  unfolding bind
  bind_held email token now owners b held = rw (held, bind) (ground arith)

  -- A binding is sticky. Once a token has bound an email, and whatever is bound, moved or removed
  -- afterwards for other emails, a later bind of that email in any spelling gives the same binding back
  -- to the same token, and is refused with `email_taken` to every other token, changing nothing.
  pub bind_sticky :
      (email token now : String) (owners owners' : Owners) (r : Bound) (cs : List Call)
      (email' token' now' : String)
      → bind canonical session_name_for email token now owners ≡ ok (owners', r)
      → All (Spares (canonical email)) cs
      → canonical email' ≡ canonical email
      → let later = run canonical session_name_for owners' cs in
        bind canonical session_name_for email' token' now' later ≡ (
          if str_eq token token'
          then ok (later, record { binding = r.binding; created = false })
          else err (email_taken (canonical email)))
  bind_sticky email token now owners owners' r cs email' token' now' e spares same =
      let (held, owner) = bind-stored email token now owners owners' r e in
      let later = run canonical session_name_for owners' cs in
      let still = run-Spares (canonical email) owners' cs r.binding spares held in
      let again = bind_held email' token' now' later r.binding (rw (← same) at still) in
      subst
        (λ t. bind canonical session_name_for email' token' now' later ≡ (
          if str_eq t token'
          then ok (later, record { binding = r.binding; created = false })
          else err (email_taken (canonical email))))
        owner (rw same at again)
