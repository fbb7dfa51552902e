-- ===== src/Client/Subscriptions/Allowed.antt =====
-- src/ws-server.ts: what is left of a client's subscriptions.
use mathlib.Core.Option
use herdr_web_broker.Common.{
  ℕ, ◌≤◌, ◌≡◌, refl, sym, subst, ap, suc, String, true, ◌||◌, Option, some, none, List, [], ◌∷◌,
  arith, inl, inr, leb, length, str_eq, eq_iff, All, Bool-cases,
}
use herdr_web_broker.Common.Dict.{Dict, lookup}
use herdr_web_broker.Client.Subscriptions.{
  Member, Element, object, other, sub_keys, has, has_sub_type, keep_keys, sanitize_each,
  sanitize_subscriptions,
}

-- Only the schema's keys, and one of the known types.
abbrev pub IsAllowed : Dict Member → Type 0
IsAllowed sub = All (λ m. has m.0 sub_keys ≡ true) sub × (has_sub_type (lookup "type" sub) ≡ true)

keep_keys_known : (sub : Dict Member) → All (λ m. has m.0 sub_keys ≡ true) (keep_keys sub)
keep_keys_known [] = tt
keep_keys_known (m ∷ sub) = elim (Bool-cases (has m.0 sub_keys)) [
  | inl known ↦ rw known (known, keep_keys_known sub)
  | inr unknown ↦ rw unknown (keep_keys_known sub)
]

lookup-keep_keys :
    (key : String) (sub : Dict Member)
    → has key sub_keys ≡ true
    → lookup key (keep_keys sub) ≡ lookup key sub
unfolding lookup
lookup-keep_keys key [] h = refl
lookup-keep_keys key ((k, m) ∷ sub) h = elim (Bool-cases (str_eq k key)) [
  | inl same ↦
      let known : has k sub_keys ≡ true =
        subst (λ x. has x sub_keys ≡ true) (sym ((eq_iff k key).0 same)) h in
      rw (known, same) refl
  | inr differs ↦ elim (Bool-cases (has k sub_keys)) [
    | inl known ↦ rw (known, differs) (lookup-keep_keys key sub h)
    | inr unknown ↦ rw (unknown, differs) (lookup-keep_keys key sub h)
  ]
]

abbrev IsSane : ℕ → Option (List (Dict Member)) → Type 0
IsSane n none = Unit
IsSane n (some subs) = All IsAllowed subs × (length subs ≡ n)

kept-IsSane :
    (n : ℕ) (sub : Dict Member) (rest : Option (List (Dict Member)))
    → has_sub_type (lookup "type" sub) ≡ true
    → IsSane n rest
    → IsSane (suc n) (Option.map (λ kept. keep_keys sub ∷ kept) rest)
kept-IsSane n sub none h v = tt
kept-IsSane n sub (some subs) h v =
    (((keep_keys_known sub, rw (lookup-keep_keys "type" sub refl) h), v.0), ap suc v.1)

sanitize_each-IsSane : (raw : List Element) → IsSane (length raw) (sanitize_each raw)
unfolding sanitize_each
sanitize_each-IsSane [] = (tt, refl)
sanitize_each-IsSane (other ∷ raw) = tt
sanitize_each-IsSane (object sub ∷ raw) = elim (Bool-cases (has_sub_type (lookup "type" sub))) [
  | inl typed ↦
      rw typed (kept-IsSane (length raw) sub (sanitize_each raw) typed (sanitize_each-IsSane raw))
  | inr untyped ↦ rw untyped tt
]

-- What is passed on is as long as what the client sent, from 1 to 32 elements, each of a known type
-- and with the schema's keys only.
pub sanitize_subscriptions-IsAllowed :
    (raw : List Element) (subs : List (Dict Member))
    → sanitize_subscriptions (some raw) ≡ some subs
    → All IsAllowed subs × (length subs ≡ length raw) × (1 ≤ length subs) × (length subs ≤ 32)
unfolding sanitize_subscriptions
sanitize_subscriptions-IsAllowed raw subs h =
    elim (Bool-cases (leb (length raw) 0 || leb 33 (length raw))) [
      | inl out ↦ absurd (none_some (rw out at h))
      | inr inside ↦
          let sane = subst (IsSane (length raw)) (rw inside at h) (sanitize_each-IsSane raw) in
          (sane.0, sane.1, ground (arith, inside, sane.1), ground (arith, inside, sane.1))
    ]
  where
    none_some : none ≡ some subs → ⊥
    none_some e = cc
