-- ===== src/State/Removal.antt =====
-- src/state.ts: what a removal leaves, and what it gives back.
use Prim.Native.String.{◌++◌ as text_append}
use herdr_web_broker.Common.{
  ◌≡◌, refl, String, true, Option, some, none, List, [], ◌∷◌, ◌∙◌, arith, inl, inr, str_eq, eq_iff,
  eq_refl, starts_with, ◌&&◌, if◌then◌else◌, Bool-cases, In,
}
use herdr_web_broker.Common.Dict.{Dict, lookup, lookup-insert}
use herdr_web_broker.State.{
  Index, get, rows_under, rows_outside, keep_outside, remove_under, remove_workspace, remove_row,
  removes, removes_workspace, step, sets, set,
}
use herdr_web_broker.State.Rows.{get-step}

module _ {V : Type 0} where
  rows_under-rows_outside :
      (prefix : String) (rows : Dict V) → rows_under prefix (rows_outside prefix rows) ≡ []
  unfolding rows_under rows_outside
  rows_under-rows_outside prefix [] = refl
  rows_under-rows_outside prefix ((pane, row) ∷ rows) =
      elim (Bool-cases (starts_with pane prefix)) [
        | inl under ↦ rw under (rows_under-rows_outside prefix rows)
        | inr outside ↦ rw (outside, outside) (rows_under-rows_outside prefix rows)
      ]

  remove_under_again :
      (prefix : String) (rows : Dict V) (session : String) (index : Index V)
      → rows_under prefix rows ≡ []
      → remove_under (some rows) session prefix index ≡ (index, [])
  unfolding remove_under keep_outside
  remove_under_again prefix rows session index e = rw e refl

  remove_kept :
      (removed : List V) (session prefix : String) (rows : Dict V) (index : Index V)
      → lookup session index ≡ some rows
      → rows_under prefix rows ≡ removed
      → let kept = (keep_outside removed session (rows_outside prefix rows) index).0 in
        remove_under (lookup session kept) session prefix kept ≡ (kept, [])
  unfolding keep_outside
  remove_kept [] session prefix rows index found e =
      rw found (remove_under_again prefix rows session index e)
  remove_kept (row ∷ removed) session prefix rows index found e =
      rw (lookup-insert session session (rows_outside prefix rows) index, eq_refl session)
        (remove_under_again prefix (rows_outside prefix rows) session _
          (rows_under-rows_outside prefix rows))

  remove_removed :
      (o : Option (Dict V)) (session prefix : String) (index : Index V)
      → lookup session index ≡ o
      → let left = (remove_under o session prefix index).0 in
        remove_under (lookup session left) session prefix left ≡ (left, [])
  unfolding remove_under
  remove_removed none session prefix index missing = rw missing refl
  remove_removed (some rows) session prefix index found =
      remove_kept (rows_under prefix rows) session prefix rows index found refl

  -- A second removal finds nothing to remove.
  pub remove_workspace_again :
      (session id : String) (index : Index V)
      → let left = (remove_workspace session id index).0 in
        remove_workspace session id left ≡ (left, [])
  unfolding remove_workspace
  remove_workspace_again session id index =
      remove_removed (lookup session index) session (text_append id ":") index refl

  pub remove_row_missing :
      (session key : String) (index : Index V)
      → get session key index ≡ none
      → remove_row session key index ≡ (index, none)
  unfolding remove_row
  remove_row_missing session key index missing = rw missing refl

  In-rows_under :
      (prefix key : String) (row : V) (rows : Dict V)
      → lookup key rows ≡ some row
      → starts_with key prefix ≡ true
      → In row (rows_under prefix rows)
  unfolding lookup rows_under
  In-rows_under prefix key row [] found under = absurd (ground (arith, found))
  In-rows_under prefix key row ((k, r) ∷ rows) found under =
      ground (arith, eq_iff k key, In-rows_under prefix key row rows)

  In-keep_outside :
      (removed : List V) (session : String) (outside : Dict V) (index : Index V) (row : V)
      → In row removed
      → In row (keep_outside removed session outside index).1
  unfolding keep_outside
  In-keep_outside [] session outside index row h = h
  In-keep_outside (r ∷ removed) session outside index row h = h

  not_found : (row : V) → none ≡ some row → ⊥
  not_found row e = cc

  In-remove_under :
      (o : Option (Dict V)) (session prefix key : String) (row : V) (index : Index V)
      → lookup session index ≡ o
      → get session key index ≡ some row
      → starts_with key prefix ≡ true
      → In row (remove_under o session prefix index).1
  unfolding remove_under get lookup
  In-remove_under none session prefix key row index missing found under =
      absurd (not_found row (rw missing at found))
  In-remove_under (some rows) session prefix key row index here found under =
      In-keep_outside (rows_under prefix rows) session (rows_outside prefix rows) index row
        (In-rows_under prefix key row rows (rw here at found) under)

  -- Any row once one of them is removed.
  pub get-remove_row :
      (session key s k : String) (index : Index V)
      → get session key (remove_row s k index).0
        ≡ (if str_eq s session && str_eq k key then none else get session key index)
  unfolding step
  get-remove_row session key s k index = get-step session key index (removes s k)

  -- Any row once those of a workspace are removed.
  pub get-remove_workspace :
      (session key s id : String) (index : Index V)
      → get session key (remove_workspace s id index).0 ≡ (
          if str_eq s session && starts_with key (text_append id ":")
          then none
          else get session key index)
  unfolding step
  get-remove_workspace session key s id index = get-step session key index (removes_workspace s id)

  pub get-remove_row_self :
      (session key : String) (index : Index V)
      → get session key (remove_row session key index).0 ≡ none
  get-remove_row_self session key index =
      get-remove_row session key session key index ∙ rw (eq_refl session, eq_refl key) refl

  -- A row of the workspace is among those that its removal gives back.
  pub In-remove_workspace :
      (session id key : String) (row : V) (index : Index V)
      → get session key index ≡ some row
      → starts_with key (text_append id ":") ≡ true
      → In row (remove_workspace session id index).1
  unfolding remove_workspace
  In-remove_workspace session id key row index found under =
      In-remove_under (lookup session index) session (text_append id ":") key row index refl found
        under

  pub get-set_self :
      (session key : String) (row : V) (index : Index V)
      → get session key (set session key row index) ≡ some row
  unfolding step
  get-set_self session key row index =
      get-step session key index (sets session key row) ∙ rw (eq_refl session, eq_refl key) refl
