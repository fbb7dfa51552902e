-- ===== src/Access/Presence/Views.antt =====
-- src/presence.ts seen from one token: each has a history of its own, and the list shows who is live.
use herdr_web_broker.Common.{
  ℕ, ◌+◌, ◌≡◌, ◌↔◌, ◌⊎◌, refl, String, Bool, false, Option, some, none, List, [], ◌∷◌, map, arith,
  str_eq, eq_iff, eq_refl, ltb, or_else, if◌then◌else◌, In, Option-cases, Bool-cases, inl, inr,
}
use herdr_web_broker.Common.Dict.{Dict, lookup, lookup-insert, lookup-remove}
use herdr_web_broker.Common.Dict.Distinct.{
  HasDistinctKeys, IsFresh, insert-HasDistinctKeys, remove-HasDistinctKeys,
}
use herdr_web_broker.Access.Presence.{
  PresenceEntry, Seen, Presence, Call, identifies, touches, lists, evicts, new, is_stale,
  identified, identify, touch, touched, touch_entry, prune, insert_sorted, sort, list, evict, step,
  run,
}

-- When a token was first seen and when last.
pub record Span : Type 0 where
  pub first : ℕ
  pub last : ℕ

abbrev pub span : Option Seen → Option Span
span none = none
span (some s) = some (record { first = s.entry.since; last = s.seen_at })

-- The life of one token: identity is opt-in, `first` never moves while the entry lives, and an entry
-- that has been silent for longer than the time to live is gone once somebody lists.
abbrev pub span_step : ℕ → String → Option Span → Call → Option Span
span_step ttl k old (identifies token name email now) =
    if str_eq token k
    then elim old [
      | none ↦ some (record { first = now; last = now })
      | some s ↦ some (record s { last = now })
    ]
    else old
span_step ttl k old (touches token now) =
    if str_eq token k
    then elim old [ none ↦ none | some s ↦ some (record s { last = now }) ]
    else old
span_step ttl k old (lists now) = elim old [
  | none ↦ none
  | some s ↦ if ltb (s.last + ttl) now then none else some s
]
span_step ttl k old (evicts token) = if str_eq token k then none else old

abbrev pub span_run : ℕ → String → Option Span → List Call → Option Span
span_run ttl k old [] = old
span_run ttl k old (c ∷ cs) = span_run ttl k (span_step ttl k old c) cs

lookup_fresh : (k : String) (m : Dict Seen) → IsFresh k m → lookup k m ≡ none
unfolding lookup
lookup_fresh k [] h = refl
lookup_fresh k ((j, s) ∷ m) (n, h) = ground (arith, eq_iff j k, lookup_fresh k m h)

lookup-prune :
    (ttl now : ℕ) (k : String) (m : Dict Seen)
    → HasDistinctKeys m
    → lookup k (prune ttl now m)
      ≡ elim (lookup k m) [ none ↦ none | some s ↦ if is_stale ttl now s then none else some s ]
unfolding lookup prune
lookup-prune ttl now k [] h = refl
lookup-prune ttl now k ((j, s) ∷ m) (f, h) =
    ground (arith, lookup-prune ttl now k m h, eq_iff j k, lookup_fresh j m f)

IsFresh-prune :
    (ttl now : ℕ) (k : String) (m : Dict Seen) → IsFresh k m → IsFresh k (prune ttl now m)
unfolding prune
IsFresh-prune ttl now k [] h = tt
IsFresh-prune ttl now k ((j, s) ∷ m) (n, h) = ground (arith, IsFresh-prune ttl now k m h)

prune-HasDistinctKeys :
    (ttl now : ℕ) (m : Dict Seen) → HasDistinctKeys m → HasDistinctKeys (prune ttl now m)
unfolding prune
prune-HasDistinctKeys ttl now [] h = tt
prune-HasDistinctKeys ttl now ((j, s) ∷ m) (f, h) =
    ground (arith, prune-HasDistinctKeys ttl now m h, IsFresh-prune ttl now j m f)

module _ (before : String → String → Bool) where
  step-HasDistinctKeys :
      (p : Presence) (c : Call)
      → HasDistinctKeys p.entries
      → HasDistinctKeys (step before p c).entries
  unfolding step identify touch list evict
  step-HasDistinctKeys p (identifies token name email now) h =
      insert-HasDistinctKeys token _ p.entries h
  step-HasDistinctKeys p (touches token now) h = go (lookup token p.entries)
    where
      go : (found : Option Seen) → HasDistinctKeys (touched found token now p).entries
      go none = h
      go (some s) = insert-HasDistinctKeys token _ p.entries h
  step-HasDistinctKeys p (lists now) h = prune-HasDistinctKeys p.ttl_ms now p.entries h
  step-HasDistinctKeys p (evicts token) h = remove-HasDistinctKeys token p.entries h

  ttl-step : (p : Presence) (c : Call) → (step before p c).ttl_ms ≡ p.ttl_ms
  unfolding step identify touch list evict
  ttl-step p (identifies token name email now) = refl
  ttl-step p (touches token now) = ground arith
  ttl-step p (lists now) = refl
  ttl-step p (evicts token) = refl

  span-step :
      (k : String) (p : Presence) (c : Call)
      → HasDistinctKeys p.entries
      → span (lookup k (step before p c).entries)
        ≡ span_step p.ttl_ms k (span (lookup k p.entries)) c
  unfolding step identify touch list evict
  span-step k p (identifies token name email now) h =
      let seen = identified token name email now (lookup token p.entries) in
      ground (arith, lookup-insert token k seen p.entries, eq_iff token k)
  span-step k p (touches token now) h = elim (Option-cases (lookup token p.entries)) [
    | inl missing ↦ rw missing (ground (arith, eq_iff token k))
    | inr (s, found) ↦
        rw found
          (ground (arith, lookup-insert token k (touch_entry now s) p.entries, eq_iff token k))
  ]
  span-step k p (lists now) h = rw (lookup-prune p.ttl_ms now k p.entries h) (ground arith)
  span-step k p (evicts token) h = rw (lookup-remove token k p.entries) (ground arith)

  span-run :
      (k : String) (p : Presence) (cs : List Call)
      → HasDistinctKeys p.entries
      → span (lookup k (run before p cs).entries)
        ≡ span_run p.ttl_ms k (span (lookup k p.entries)) cs
  unfolding run
  span-run k p [] h = refl
  span-run k p (c ∷ cs) h = rw (
    span-run k (step before p c) cs (step-HasDistinctKeys p c h),
    ttl-step p c,
    span-step k p c h,
  )

  run-HasDistinctKeys :
      (p : Presence) (cs : List Call)
      → HasDistinctKeys p.entries
      → HasDistinctKeys (run before p cs).entries
  unfolding run
  run-HasDistinctKeys p [] h = h
  run-HasDistinctKeys p (c ∷ cs) h =
      run-HasDistinctKeys (step before p c) cs (step-HasDistinctKeys p c h)

  -- Over every history of a new presence map, each token has a life of its own: it appears when it
  -- identifies, keeps its first time, is refreshed by what it does, and is dropped when it is evicted
  -- or when a listing finds it silent for longer than the time to live. No other token's calls matter.
  pub span-run-new :
      (k : String) (ttl : Option ℕ) (cs : List Call)
      → span (lookup k (run before (new ttl) cs).entries) ≡ span_run (or_else ttl 600000) k none cs
  unfolding new lookup
  span-run-new k ttl cs = span-run k (new ttl) cs tt

In-insert_sorted :
    (before : String → String → Bool) (x e : PresenceEntry) (es : List PresenceEntry)
    → In x (insert_sorted before e es) ↔ ((e ≡ x) ⊎ In x es)
unfolding insert_sorted
In-insert_sorted before x e [] = (λ h. h, λ h. h)
In-insert_sorted before x e (f ∷ es) =
    let (to, from) = In-insert_sorted before x e es in
    (λ h. ground (arith, to), λ h. ground (arith, from))

In-sort :
    (before : String → String → Bool) (x : PresenceEntry) (es : List PresenceEntry)
    → In x (sort before es) ↔ In x es
unfolding sort
In-sort before x [] = (λ h. h, λ h. h)
In-sort before x (e ∷ es) =
    let (to, from) = In-insert_sorted before x e (sort before es) in
    let (down, up) = In-sort before x es in
    (λ h. ground (arith, to h, down), λ h. from (ground (arith, up)))

-- Who is shown, by the entry under its own token.
abbrev pub Shown : ℕ → ℕ → Dict Seen → PresenceEntry → Type 0
Shown ttl now m x =
    (k : String) × (s : Seen) × (lookup k m ≡ some s) × (is_stale ttl now s ≡ false) × (s.entry ≡ x)

Shown-cons :
    (ttl now : ℕ) (j : String) (s : Seen) (m : Dict Seen) (x : PresenceEntry)
    → IsFresh j m
    → Shown ttl now m x
    → Shown ttl now ((j, s) ∷ m) x
unfolding lookup
Shown-cons ttl now j s m x f (k, t, found, live, e) =
    (k, t, ground (arith, eq_iff j k, lookup_fresh j m f), live, e)

In-prune_sound :
    (ttl now : ℕ) (m : Dict Seen) (x : PresenceEntry)
    → HasDistinctKeys m
    → In x (map (λ e. e.1.entry) (prune ttl now m))
    → Shown ttl now m x
unfolding prune lookup
In-prune_sound ttl now [] x d h = absurd h
In-prune_sound ttl now ((j, s) ∷ m) x (f, d) h = elim (Bool-cases (is_stale ttl now s)) [
  | inl stale ↦ Shown-cons ttl now j s m x f (In-prune_sound ttl now m x d (rw stale at h))
  | inr live ↦ elim (rw live at h) [
    | inl e ↦ (j, s, rw (eq_refl j) refl, live, e)
    | inr later ↦ Shown-cons ttl now j s m x f (In-prune_sound ttl now m x d later)
  ]
]

In-prune_complete :
    (ttl now : ℕ) (m : Dict Seen) (x : PresenceEntry)
    → Shown ttl now m x
    → In x (map (λ e. e.1.entry) (prune ttl now m))
unfolding prune lookup
In-prune_complete ttl now [] x (k, s, found, live, e) = cc
In-prune_complete ttl now ((j, t) ∷ m) x (k, s, found, live, e) = elim (Bool-cases (str_eq j k)) [
  | inl same ↦ ground arith
  | inr other ↦
      let later = In-prune_complete ttl now m x (k, s, ground arith, live, e) in ground arith
]

-- A listing shows exactly the entries that are stored and not silent for longer than the time to
-- live, whatever the order of names that it sorts by.
pub In-list :
    (before : String → String → Bool) (now : ℕ) (p : Presence) (x : PresenceEntry)
    → HasDistinctKeys p.entries
    → In x (list before now p).1 ↔ Shown p.ttl_ms now p.entries x
unfolding list
In-list before now p x d =
    let (down, up) = In-sort before x (map (λ e. e.1.entry) (prune p.ttl_ms now p.entries)) in
    (
      λ h. In-prune_sound p.ttl_ms now p.entries x d (down h),
      λ h. up (In-prune_complete p.ttl_ms now p.entries x h),
    )
