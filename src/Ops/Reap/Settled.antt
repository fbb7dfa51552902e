-- ===== src/Ops/Reap/Settled.antt =====
-- src/workspace-ops.ts: what is left of a workspace once it is closed, and what a second reaping does.
use Prim.Native.String.{◌++◌ as text_append}
use herdr_web_broker.Common.{
  ℕ, ◌≡◌, refl, String, Bool, false, ◌&&◌, ◌||◌, Option, none, inl, inr, is_some, str_eq,
  starts_with, if◌then◌else◌, Bool-cases, ap,
}
use herdr_web_broker.State.{get, remove_row}
use herdr_web_broker.State.Removal.{
  remove_workspace_again, get-remove_row, get-remove_workspace, get-remove_row_self,
  remove_row_missing,
}
use herdr_web_broker.Ops.{World, Result, ok, throws, is_ok, has_code}
use herdr_web_broker.Ops.Reap.{record_all, reap_workspace_row, close}

-- A row, unless it is gone.
abbrev pub outlives : {V : Type 0} → Bool → Option V → Option V
outlives gone row = if gone then none else row

abbrev pub not_found : Result (Unit {0}) → Bool
not_found (ok answer) = false
not_found (throws e) = has_code "workspace_not_found" e

module _ (session id : String) where
  -- Once a workspace is reaped, whoever reaps it again, and whenever, changes nothing and finds no row.
  pub reap_again :
      (now later : ℕ) (w : World)
      → let left = (reap_workspace_row session id now w).0 in
        reap_workspace_row session id later left ≡ (left, false)
  unfolding reap_workspace_row record_all
  reap_again now later w =
      let gone = get-remove_row_self session id w.index in
      rw
        (
          gone,
          remove_row_missing session id (remove_row session id w.index).0 gone,
          remove_workspace_again session id w.agents,
        )
        refl

  -- The event that a close causes may be handled while the close awaits its answer: the close then
  -- finds the work done, changes nothing more, and still succeeds.
  pub close-reap_workspace_row :
      (now later : ℕ) (w : World)
      → let left = (reap_workspace_row session id now w).0 in
        (close session id (ok tt) later left).0 ≡ left
  unfolding close
  close-reap_workspace_row now later w = ap (λ r. r.0) (reap_again now later w)

  pub get-reap :
      (now : ℕ) (w : World) (other key : String)
      → let left = (reap_workspace_row session id now w).0 in
        (get other key left.index
          ≡ outlives (str_eq session other && str_eq id key) (get other key w.index))
        × (get other key left.agents
            ≡ outlives
                (str_eq session other && starts_with key (text_append id ":"))
                (get other key w.agents))
  unfolding reap_workspace_row
  get-reap now w other key = (
    get-remove_row other key session id w.index,
    get-remove_workspace other key session id w.agents,
  )

  -- A close succeeds exactly if herdr closes the workspace, or does not know it and the broker does. It
  -- then ends the row of the workspace and those of its panes, and else no row; other rows stay.
  pub get-close :
      (answer : Result (Unit {0})) (now : ℕ) (w : World) (other key : String)
      → let done = close session id answer now w in
        (is_ok done.1 ≡ is_ok answer || (not_found answer && is_some (get session id w.index)))
        × (get other key done.0.index
            ≡ outlives
                (is_ok done.1 && (str_eq session other && str_eq id key))
                (get other key w.index))
        × (get other key done.0.agents
            ≡ outlives
                (is_ok done.1 && (str_eq session other && starts_with key (text_append id ":")))
                (get other key w.agents))
  unfolding close
  get-close (ok answer) now w other key =
      let left = get-reap now w other key in (refl, left.0, left.1)
  get-close (throws e) now w other key =
      elim (Bool-cases (has_code "workspace_not_found" e && is_some (get session id w.index))) [
        | inl held ↦ let left = get-reap now w other key in rw held (refl, left.0, left.1)
        | inr unknown ↦ rw unknown (refl, refl, refl)
      ]
