-- ===== src/Env/Registry/Resolved.antt =====
-- src/env-registry.ts: what a spawned agent's environment is made of.
use herdr_web_broker.Common.{
  ℕ, suc, ◌≤◌, ◌≡◌, refl, ◌∙◌, sym, ap, subst, String, Bool, true, false, not, ◌&&◌, Option, some,
  none, List, [], ◌∷◌, ◌⊎◌, inl, inr, arith, is_some, ltb, str_eq, eq_iff, if◌then◌else◌,
  Bool-cases, Option-cases, All, In,
}
use herdr_web_broker.Common.Dict.{Dict, lookup, insert, values, lookup-insert}
use herdr_web_broker.Env.Registry.{
  EnvScope, Entry, Hook, EnvRegistry, Result, ok, err, specificity, scope_matches, beats, best,
  best_manual, best_hook, set_values, and_then, run_hooks, resolve_for_spawn,
}

some_injective : {A : Type 0} {a b : A} → some a ≡ some b → a ≡ b
some_injective h = cc

module _ {A : Type 0} (name_of : A → String) (scope_of : A → EnvScope) (wanted : A → Bool) where
  abbrev pub rank : A → ℕ
  rank a = suc (specificity (scope_of a))

  abbrev pub rank_of : Option A → ℕ
  rank_of none = 0
  rank_of (some a) = rank a

  -- The candidates of a name.
  abbrev pub is_candidate : String → A → Bool
  is_candidate name a = wanted a && str_eq (name_of a) name

  -- `o` is a candidate of the list, as specific as each of them, or there is none.
  abbrev pub IsBest : String → List A → Option A → Type 0
  IsBest name l o =
      ((a : A) → o ≡ some a → In a l × (is_candidate name a ≡ true))
      × All (λ b. is_candidate name b ≡ true → rank b ≤ rank_of o) l

  abbrev next : Dict A → A → Dict A
  next found a =
      if wanted a && beats scope_of a (lookup (name_of a) found)
      then insert (name_of a) a found
      else found

  lookup-kept :
      (name key : String) (found : Dict A) (a : A) (keeps : Bool)
      → lookup name (if keeps then insert key a found else found)
        ≡ (if keeps && str_eq key name then some a else lookup name found)
  lookup-kept name key found a true = lookup-insert key name a found
  lookup-kept name key found a false = refl

  lookup-next :
      (name : String) (found : Dict A) (a : A)
      → lookup name (next found a) ≡ (
          if is_candidate name a && beats scope_of a (lookup name found)
          then some a
          else lookup name found)
  lookup-next name found a =
      let own : str_eq (name_of a) name ≡ true → lookup (name_of a) found ≡ lookup name found =
        λ same. ap (λ x. lookup x found) ((eq_iff (name_of a) name).0 same) in
      let kept =
        lookup-kept name (name_of a) found a
          (wanted a && beats scope_of a (lookup (name_of a) found)) in
      elim (Bool-cases (str_eq (name_of a) name)) [
        | inl same ↦ rw (kept, same, own same) (ground arith)
        | inr differs ↦ rw (kept, differs) (ground arith)
      ]

  rises :
      (o : Option A) (a : A) (c : Bool)
      → (rank_of o ≤ rank_of (if c && beats scope_of a o then some a else o))
        × (c ≡ true → rank a ≤ rank_of (if c && beats scope_of a o then some a else o))
  rises o a false = (omega arith, λ h. ground (arith, h))
  rises none a true = (omega arith, λ h. omega arith)
  rises (some b) a true =
      elim (Bool-cases (ltb (specificity (scope_of b)) (specificity (scope_of a)))) [
        | inl more ↦ rw more (ltb_le more, λ h. omega arith)
        | inr less ↦ rw less (omega arith, λ h. le_of less)
      ]
    where
      ltb_le : {m n : ℕ} → ltb m n ≡ true → suc m ≤ suc n
      ltb_le h = ground (arith, h)

      le_of : {m n : ℕ} → ltb m n ≡ false → suc n ≤ suc m
      le_of h = ground (arith, h)

  -- What is found never gets less specific, and beats each candidate that was passed.
  rank_of-next :
      (name : String) (found : Dict A) (a : A)
      → (rank_of (lookup name found) ≤ rank_of (lookup name (next found a)))
        × (is_candidate name a ≡ true → rank a ≤ rank_of (lookup name (next found a)))
  rank_of-next name found a =
      rw (lookup-next name found a) (rises (lookup name found) a (is_candidate name a))

  rank_of-best :
      (name : String) (found : Dict A) (l : List A)
      → (rank_of (lookup name found) ≤ rank_of (lookup name (best name_of scope_of wanted found l)))
        × All
            (λ b.
              is_candidate name b ≡ true
              → rank b ≤ rank_of (lookup name (best name_of scope_of wanted found l)))
            l
  unfolding best
  rank_of-best name found [] = (omega arith, tt)
  rank_of-best name found (a ∷ l) =
      let (up, beaten) = rank_of-next name found a in
      let (rise, rest) = rank_of-best name (next found a) l in
      (omega (arith, up, rise), (λ h. omega (arith, beaten h, rise), rest))

  -- What is found was there or is a candidate of the list.
  In-best :
      (name : String) (found : Dict A) (l : List A) (a : A)
      → lookup name (best name_of scope_of wanted found l) ≡ some a
      → (lookup name found ≡ some a) ⊎ (In a l × (is_candidate name a ≡ true))
  unfolding best
  In-best name found [] a h = inl h
  In-best name found (b ∷ l) a h = elim (In-best name (next found b) l a h) [
    | inl kept ↦
        taken (is_candidate name b && beats scope_of b (lookup name found)) refl
          (sym (lookup-next name found b) ∙ kept)
    | inr later ↦ inr (inr later.0, later.1)
  ]
    where
      taken :
          (c : Bool)
          → is_candidate name b && beats scope_of b (lookup name found) ≡ c
          → (if c then some b else lookup name found) ≡ some a
          → (lookup name found ≡ some a) ⊎ (((b ≡ a) ⊎ In a l) × (is_candidate name a ≡ true))
      taken false e k = inl k
      taken true e k =
          let same : b ≡ a = some_injective k in
          let here : is_candidate name b ≡ true = ground (arith, e) in
          inr (inl same, subst (λ x. is_candidate name x ≡ true) same here)

  best-IsBest :
      (name : String) (l : List A) → IsBest name l (lookup name (best name_of scope_of wanted [] l))
  unfolding lookup
  best-IsBest name l = (
    λ a h. elim (In-best name [] l a h) [ inl k ↦ absurd (none_some a k) | inr p ↦ p ],
    (rank_of-best name [] l).1,
  )
    where
      none_some : (a : A) → none ≡ some a → ⊥
      none_some a e = cc

ok_injective : {A : Type 0} {a b : A} → ok a ≡ ok b → a ≡ b
ok_injective h = cc

contradiction : false ≡ true → ⊥
contradiction h = cc

err_ok : {A : Type 0} {code : String} {a : A} → err code ≡ ok a → ⊥
err_ok h = cc

none_entry : {A : Type 0} {a : A} → none ≡ some a → ⊥
none_entry h = cc

-- What the hooks make is for other names than those of the hooks' table that a name is missing in.
lookup-run_hooks :
    (run : Hook → Result String) (name : String) (out : Dict String) (hooks : Dict Hook)
    (res : Dict String)
    → lookup name hooks ≡ none
    → run_hooks run out hooks ≡ ok res
    → lookup name res ≡ lookup name out
unfolding run_hooks lookup
lookup-run_hooks run name out [] res none_here h = ap (lookup name) (sym (ok_injective h))
lookup-run_hooks run name out ((k, hook) ∷ hooks) res none_here h =
    go (run hook) h
      (λ value e. lookup-run_hooks run name (insert k value out) hooks res elsewhere e)
  where
    differs : str_eq k name ≡ false
    differs = ground (arith, none_here)

    elsewhere : lookup name hooks ≡ none
    elsewhere = rw differs at none_here

    go :
        (o : Result String)
        → and_then o (λ value. run_hooks run (insert k value out) hooks) ≡ ok res
        → ((value : String)
            → run_hooks run (insert k value out) hooks ≡ ok res
            → lookup name res ≡ lookup name (insert k value out))
        → lookup name res ≡ lookup name out
    go (ok value) e later = later value e ∙ lookup-insert k name value out ∙ rw differs refl
    go (err code) e later = absurd (err_ok e)

lookup-set_values :
    (name : String) (manual : Dict Entry) (e : Entry)
    → lookup name manual ≡ some e
    → lookup name (set_values manual) ≡ some e.value
unfolding lookup set_values
lookup-set_values name [] e h = absurd (none_entry h)
lookup-set_values name ((k, f) ∷ manual) e h = elim (Bool-cases (str_eq k name)) [
  | inl same ↦ rw same (ap some (ap (λ x. x.value) (some_injective (rw same at h))))
  | inr differs ↦ rw differs (lookup-set_values name manual e (rw differs at h))
]

-- A value that is set by hand for the spawn is what the agent gets, whatever the hooks make.
pub manual-resolve_for_spawn :
    (run : Hook → Result String) (session kind name : String) (r : EnvRegistry) (e : Entry)
    (res : Dict String)
    → lookup name (best_manual session kind r) ≡ some e
    → resolve_for_spawn run session kind r ≡ ok res
    → lookup name res ≡ some e.value
unfolding resolve_for_spawn best_hook lookup
manual-resolve_for_spawn run session kind name r e res by_hand h =
    let manual = best_manual session kind r in
    lookup-run_hooks run name (set_values manual) (best_hook session kind manual r) res
      (no_hook (Option-cases (lookup name (best_hook session kind manual r)))) h
    ∙ lookup-set_values name manual e by_hand
  where
    overridden :
        (hook : Hook)
        → is_candidate
            (λ h. h.name)
            (λ h. h.scope)
            (λ h.
              not (is_some (lookup h.name (best_manual session kind r)))
              && scope_matches h.scope session kind)
            name
            hook
          ≡ true
        → ⊥
    overridden hook c =
        let same : str_eq hook.name name ≡ true = ground (arith, c) in
        let here : lookup hook.name (best_manual session kind r) ≡ some e =
          subst (λ x. lookup x (best_manual session kind r) ≡ some e)
            (sym ((eq_iff hook.name name).0 same)) by_hand in
        contradiction (rw here at c)

    no_hook :
        (lookup name (best_hook session kind (best_manual session kind r) r) ≡ none)
          ⊎ ((hook : Hook) × (lookup name (best_hook session kind (best_manual session kind r) r)
                ≡ some hook))
        → lookup name (best_hook session kind (best_manual session kind r) r) ≡ none
    no_hook (inl missing) = missing
    no_hook (inr (hook, found)) =
        absurd (
          overridden hook
            ((best-IsBest (λ h. h.name) (λ h. h.scope) _ name r.hooks).0 hook found).1)

abbrev pub wants : String → String → Entry → Bool
wants session kind e = scope_matches e.scope session kind

abbrev pub wants_hook : String → String → Dict Entry → Hook → Bool
wants_hook session kind manual h =
    not (is_some (lookup h.name manual)) && scope_matches h.scope session kind

-- Where the registry is enabled, the value that is set by hand for a spawn is, of each name, an entry
-- whose scope matches and which is as specific as every other of that name that matches; there is none
-- only if no entry of that name matches. The same holds of the hooks, over the names with no such value.
pub best_manual-IsBest :
    (session kind name : String) (r : EnvRegistry)
    → r.enabled ≡ true
    → let manual = best_manual session kind r in
      IsBest
        (λ e. e.name)
        (λ e. e.scope)
        (wants session kind)
        name
        (values r.entries)
        (lookup name manual)
      × IsBest
          (λ h. h.name)
          (λ h. h.scope)
          (wants_hook session kind manual)
          name
          r.hooks
          (lookup name (best_hook session kind manual r))
unfolding best_manual best_hook
best_manual-IsBest session kind name r enabled = rw enabled (
  best-IsBest (λ e. e.name) (λ e. e.scope) _ name (values r.entries),
  best-IsBest (λ h. h.name) (λ h. h.scope) _ name r.hooks,
)
