-- ===== src/Owners/Sessions.antt =====
-- src/owners.ts: which email a session belongs to.
use herdr_web_broker.Common.{
  ◌≡◌, refl, ◌∙◌, ap, String, true, some, List, [], ◌∷◌, arith, str_eq, eq_iff, find, All,
  Option-cases, Bool-cases, inl, inr,
}
use herdr_web_broker.Common.Dict.{lookup, insert, remove, values}
use herdr_web_broker.Owners.{
  OwnerBinding, Owners, Call, binds, rebinds, unbinds, bind, rebind, unbind, step, run, by_email,
  by_session,
}

module _ (canonical : String → String) (session_name_for : String → String) where
  -- Each binding stands under its own email and names that email's session.
  abbrev IsFiled : String × OwnerBinding → Type 0
  IsFiled (key, b) = (b.email ≡ key) × (b.session ≡ session_name_for key)

  abbrev pub AreFiled : Owners → Type 0
  AreFiled owners = All IsFiled owners

  insert-AreFiled :
      (key : String) (b : OwnerBinding) (owners : Owners)
      → IsFiled (key, b)
      → AreFiled owners
      → AreFiled (insert key b owners)
  unfolding insert
  insert-AreFiled key b [] f h = (f, tt)
  insert-AreFiled key b ((j, c) ∷ owners) f (g, h) =
      ground (arith, insert-AreFiled key b owners f h, eq_iff j key)

  remove-AreFiled :
      (key : String) (owners : Owners) → AreFiled owners → AreFiled (remove key owners)
  unfolding remove
  remove-AreFiled key [] h = tt
  remove-AreFiled key ((j, c) ∷ owners) (g, h) = ground (arith, remove-AreFiled key owners h)

  lookup-IsFiled :
      (key : String) (owners : Owners) (b : OwnerBinding)
      → AreFiled owners
      → lookup key owners ≡ some b
      → IsFiled (key, b)
  unfolding lookup
  lookup-IsFiled key [] b h found = cc
  lookup-IsFiled key ((j, c) ∷ owners) b (g, h) found =
      ground (arith, lookup-IsFiled key owners b h, eq_iff j key)

  step-AreFiled :
      (owners : Owners) (c : Call)
      → AreFiled owners
      → AreFiled (step canonical session_name_for owners c)
  unfolding step bind rebind unbind
  step-AreFiled owners (binds email token now) h =
      elim (Option-cases (lookup (canonical email) owners)) [
        | inl missing ↦ rw missing (insert-AreFiled (canonical email) _ owners (refl, refl) h)
        | inr (old, held) ↦ rw held (ground arith)
      ]
  step-AreFiled owners (rebinds email token) h =
      elim (Option-cases (lookup (canonical email) owners)) [
        | inl missing ↦ rw missing h
        | inr (old, held) ↦ rw held (
            insert-AreFiled (canonical email) _ owners
              (lookup-IsFiled (canonical email) owners old h held) h)
      ]
  step-AreFiled owners (unbinds email) h = remove-AreFiled (canonical email) owners h

  run-AreFiled :
      (owners : Owners) (cs : List Call)
      → AreFiled owners
      → AreFiled (run canonical session_name_for owners cs)
  unfolding run
  run-AreFiled owners [] h = h
  run-AreFiled owners (c ∷ cs) h =
      run-AreFiled (step canonical session_name_for owners c) cs (step-AreFiled owners c h)

  by_session-lookup :
      ((s t : String) → session_name_for s ≡ session_name_for t → s ≡ t)
      → (key : String) (owners : Owners) → AreFiled owners
      → find (λ b. str_eq b.session (session_name_for key)) (values owners) ≡ lookup key owners
  unfolding lookup
  by_session-lookup injective key [] h = refl
  by_session-lookup injective key ((j, c) ∷ owners) (g, h) = elim (Bool-cases (str_eq j key)) [
    | inl same ↦
        let here : str_eq c.session (session_name_for key) ≡ true =
          (eq_iff _ _).1 (g.1 ∙ ap session_name_for ((eq_iff j key).0 same)) in
        rw (same, here)
    | inr other ↦
        let there = by_session-lookup injective key owners h in
        let miss = injective j key in
        ground (arith, miss, eq_iff c.session (session_name_for key), eq_iff j key)
  ]

  -- Where no two emails share a session name: after any history of calls, a session belongs to an email
  -- exactly if it is that email's session and the email is bound, and then to that binding, which is
  -- filed under its own email.
  pub by_session-by_email :
      ((s t : String) → session_name_for s ≡ session_name_for t → s ≡ t)
      → (email : String) (cs : List Call)
      → let owners = run canonical session_name_for [] cs in
        (by_session canonical session_name_for (session_name_for (canonical email)) owners
          ≡ by_email canonical session_name_for email owners)
        × AreFiled owners
  unfolding by_session by_email
  by_session-by_email injective email cs =
      let filed = run-AreFiled [] cs tt in
      (by_session-lookup injective (canonical email) _ filed, filed)
