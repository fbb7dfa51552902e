-- ===== src/State/Rows.antt =====
-- src/state.ts: each row of a session's index, whatever is done to the others.
use Prim.Native.String.{◌++◌ as text_append}
use herdr_web_broker.Common.{
  ◌≡◌, refl, String, Bool, true, false, ◌&&◌, Option, some, none, List, [], ◌∷◌, ◌∙◌, arith, inl,
  inr, is_some, str_eq, eq_iff, starts_with, if◌then◌else◌, Bool-cases, ap, sym, subst,
}
use herdr_web_broker.Common.Dict.{Dict, lookup, insert, lookup-insert, lookup-remove}
use herdr_web_broker.State.{
  Index, rows_of, get, set, remove_row, remove_session, rows_under, rows_outside, keep_outside,
  remove_under, remove_workspace, Call, sets, removes, removes_workspace, removes_session, step,
  run,
}

-- One row by itself: what a call makes of it.
abbrev pub step_row : {V : Type 0} → String → String → Option V → Call V → Option V
step_row session key row (sets s k meta) =
    if str_eq s session && str_eq k key then some meta else row
step_row session key row (removes s k) = if str_eq s session && str_eq k key then none else row
step_row session key row (removes_workspace s id) =
    if str_eq s session && starts_with key (text_append id ":") then none else row
step_row session key row (removes_session s) = if str_eq s session then none else row

abbrev pub run_row : {V : Type 0} → String → String → Option V → List (Call V) → Option V
run_row session key row [] = row
run_row session key row (c ∷ cs) = run_row session key (step_row session key row c) cs

lookup-rows_outside :
    {V : Type 0} (prefix key : String) (rows : Dict V)
    → lookup key (rows_outside prefix rows)
      ≡ (if starts_with key prefix then none else lookup key rows)
unfolding lookup rows_outside
lookup-rows_outside prefix key [] = ground arith
lookup-rows_outside prefix key ((k, m) ∷ rows) = elim (Bool-cases (str_eq k key)) [
  | inl same ↦ elim (Bool-cases (starts_with k prefix)) [
    | inl under ↦ rw (under, same) (lookup-rows_outside prefix key rows ∙ gone k same under)
    | inr outside ↦ rw (outside, same) (sym (kept k same outside))
  ]
  | inr differs ↦ elim (Bool-cases (starts_with k prefix)) [
    | inl under ↦ rw (under, differs) (lookup-rows_outside prefix key rows)
    | inr outside ↦ rw (outside, differs) (lookup-rows_outside prefix key rows)
  ]
]
  where
    gone :
        (k : String)
        → str_eq k key ≡ true
        → starts_with k prefix ≡ true
        → (if starts_with key prefix then none else lookup key rows)
          ≡ (if starts_with key prefix then none else some m)
    gone k same under =
        rw (subst (λ x. starts_with x prefix ≡ true) ((eq_iff k key).0 same) under) refl

    kept :
        (k : String)
        → str_eq k key ≡ true
        → starts_with k prefix ≡ false
        → (if starts_with key prefix then none else some m) ≡ some m
    kept k same outside =
        rw (subst (λ x. starts_with x prefix ≡ false) ((eq_iff k key).0 same) outside) refl

-- A row under the prefix is among those that go.
rows_under_nil :
    {V : Type 0} (prefix key : String) (rows : Dict V)
    → rows_under prefix rows ≡ []
    → starts_with key prefix ≡ true
    → lookup key rows ≡ none
unfolding lookup rows_under
rows_under_nil prefix key [] h p = refl
rows_under_nil prefix key ((k, m) ∷ rows) h p = elim (Bool-cases (starts_with k prefix)) [
  | inl under ↦ absurd (not_nil (rw under at h))
  | inr outside ↦
      let other : str_eq k key ≡ false = ground (
        arith,
        outside,
        λ (same : str_eq k key ≡ true).
            subst (λ x. starts_with x prefix ≡ true) (sym ((eq_iff k key).0 same)) p,
      ) in
      rw other (rows_under_nil prefix key rows (rw outside at h) p)
]
  where
    not_nil : m ∷ rows_under prefix rows ≡ [] → ⊥
    not_nil e = cc

module _ {V : Type 0} (session key : String) where
  get-insert :
      (s : String) (rows : Dict V) (index : Index V)
      → get session key (insert s rows index)
        ≡ (if str_eq s session then lookup key rows else get session key index)
  unfolding get
  get-insert s rows index = rw (lookup-insert s session rows index) (ground arith)

  get-own :
      (s : String) (index : Index V)
      → str_eq s session ≡ true
      → get session key index ≡ lookup key (rows_of s index)
  unfolding get
  get-own s index same = ap (λ x. lookup key (rows_of x index)) (sym ((eq_iff s session).0 same))

  -- The rows of one session are rewritten.
  get-rewritten :
      (s : String) (rows : Dict V) (index : Index V) (hit : Bool) (row : Option V)
      → lookup key rows ≡ (if hit then row else lookup key (rows_of s index))
      → get session key (insert s rows index)
        ≡ (if str_eq s session && hit then row else get session key index)
  get-rewritten s rows index hit row h = ground (arith, get-insert s rows index, get-own s index, h)

  get-set :
      (s k : String) (meta : V) (index : Index V)
      → get session key (set s k meta index)
        ≡ (if str_eq s session && str_eq k key then some meta else get session key index)
  unfolding set
  get-set s k meta index =
      get-rewritten s _ index (str_eq k key) (some meta)
        (lookup-insert k key meta (rows_of s index))

  missing_here :
      (s k : String) (index : Index V)
      → is_some (get s k index) ≡ false
      → str_eq s session ≡ true
      → str_eq k key ≡ true
      → is_some (get session key index) ≡ false
  missing_here s k index missing same equal =
      subst (λ x. is_some (get session x index) ≡ false) ((eq_iff k key).0 equal)
        (subst (λ x. is_some (get x k index) ≡ false) ((eq_iff s session).0 same) missing)

  get-remove_row :
      (s k : String) (index : Index V)
      → get session key (remove_row s k index).0
        ≡ (if str_eq s session && str_eq k key then none else get session key index)
  unfolding remove_row get
  get-remove_row s k index = elim (Bool-cases (is_some (get s k index))) [
    | inl here ↦
        rw here
          (get-rewritten s _ index (str_eq k key) none (lookup-remove k key (rows_of s index)))
    | inr missing ↦ rw missing (ground (arith, missing_here s k index missing))
  ]

  pub get-remove_session :
      (s : String) (index : Index V)
      → get session key (remove_session s index)
        ≡ (if str_eq s session then none else get session key index)
  unfolding remove_session get lookup
  get-remove_session s index = elim (Bool-cases (is_some (lookup s index))) [
    | inl here ↦ rw (here, lookup-remove s session index) (ground arith)
    | inr missing ↦ rw missing (
        ground (
          arith,
          λ (same : str_eq s session ≡ true).
              subst (λ x. is_some (lookup x index) ≡ false) ((eq_iff s session).0 same) missing,
        ))
  ]

  get-keep_outside :
      (removed : List V) (s prefix : String) (rows : Dict V) (index : Index V)
      → lookup s index ≡ some rows
      → rows_under prefix rows ≡ removed
      → get session key (keep_outside removed s (rows_outside prefix rows) index).0
        ≡ (if str_eq s session && starts_with key prefix then none else get session key index)
  unfolding keep_outside
  get-keep_outside [] s prefix rows index found none_under =
      let nothing : str_eq s session ≡ true
          → starts_with key prefix ≡ true
          → get session key index ≡ none =
        λ same under.
          get-own s index same ∙ rw found (rows_under_nil prefix key rows none_under under) in
      ground (arith, nothing)
  get-keep_outside (row ∷ removed) s prefix rows index found under =
      get-rewritten s (rows_outside prefix rows) index (starts_with key prefix) none
        (rw found (lookup-rows_outside prefix key rows))

  get-remove_under :
      (o : Option (Dict V)) (s prefix : String) (index : Index V)
      → lookup s index ≡ o
      → get session key (remove_under o s prefix index).0
        ≡ (if str_eq s session && starts_with key prefix then none else get session key index)
  unfolding remove_under lookup
  get-remove_under none s prefix index missing =
      let nothing : str_eq s session ≡ true → get session key index ≡ none =
        λ same. get-own s index same ∙ rw missing refl in
      ground (arith, nothing)
  get-remove_under (some rows) s prefix index found =
      get-keep_outside (rows_under prefix rows) s prefix rows index found refl

  pub get-step :
      (index : Index V) (c : Call V)
      → get session key (step index c) ≡ step_row session key (get session key index) c
  unfolding step remove_workspace
  get-step index (sets s k meta) = get-set s k meta index
  get-step index (removes s k) = get-remove_row s k index
  get-step index (removes_workspace s id) =
      get-remove_under (lookup s index) s (text_append id ":") index refl
  get-step index (removes_session s) = get-remove_session s index

  -- Each row of an index has a life of its own: it is written by its own `set`, and ends with its own
  -- removal, that of its workspace, or that of its session; whatever else is done leaves it alone.
  pub get-run :
      (index : Index V) (cs : List (Call V))
      → get session key (run index cs) ≡ run_row session key (get session key index) cs
  unfolding run
  get-run index [] = refl
  get-run index (c ∷ cs) =
      get-run (step index c) cs ∙ ap (λ row. run_row session key row cs) (get-step index c)
