-- ===== src/Ops/Workspaces/Live.antt =====
-- src/workspace-ops.ts: the two readings of `workspace.list`, and the directory of a workspace.
use herdr_web_broker.Common.{
  ◌≡◌, refl, String, Bool, true, false, ◌||◌, ◌&&◌, not, Option, some, none, List, [], ◌∷◌, ◌∙◌,
  any, opt_eq, is_some, arith, str_eq, if◌then◌else◌,
}
use herdr_web_broker.Common.Dict.{Dict, lookup, lookup-insert}
use herdr_web_broker.Ops.{ok, throws}
use herdr_web_broker.Ops.Workspaces.{
  Listed, HerdrWorkspace, Listing, add_listed, add_all, herdr_workspaces, workspace_still_live,
}

lookup-add_listed :
    (o : Option String) (w : Listed) (id : String) (out : Dict HerdrWorkspace)
    → is_some (lookup id (add_listed o w out)) ≡ opt_eq o (some id) || is_some (lookup id out)
unfolding add_listed
lookup-add_listed none w id out = refl
lookup-add_listed (some k) w id out = rw (lookup-insert k id _ out) (split (str_eq k id))
  where
    split :
        (same : Bool)
        → is_some (if same then some (record { cwd = w.cwd; label = w.label }) else lookup id out)
          ≡ same || is_some (lookup id out)
    split true = refl
    split false = refl

lookup-add_all :
    (ws : List Listed) (id : String) (out : Dict HerdrWorkspace)
    → is_some (lookup id (add_all ws out))
      ≡ any (λ w. opt_eq w.workspace_id (some id)) ws || is_some (lookup id out)
unfolding add_all
lookup-add_all [] id out = refl
lookup-add_all (w ∷ ws) id out =
    lookup-add_all ws id (add_listed w.workspace_id w out)
    ∙ rw (lookup-add_listed w.workspace_id w id out) (ground arith)

abbrev pub answered : Listing → Bool
answered (ok (some ws)) = true
answered (ok none) = false
answered (throws e) = false

-- Where herdr answers, both readings of its answer agree on every workspace; where it does not, the
-- readers' map is empty and the writer has no opinion.
pub still_live-herdr_workspaces :
    (listing : Listing) (id : String)
    → (workspace_still_live listing id ≡ (
        if answered listing then some (is_some (lookup id (herdr_workspaces listing))) else none))
      × (is_some (lookup id (herdr_workspaces listing)) && not (answered listing) ≡ false)
unfolding workspace_still_live herdr_workspaces lookup
still_live-herdr_workspaces (ok (some ws)) id = rw (lookup-add_all ws id []) (ground arith)
still_live-herdr_workspaces (ok none) id = (refl, refl)
still_live-herdr_workspaces (throws e) id = (refl, refl)
