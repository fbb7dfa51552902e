-- ===== src/Ops/Reap/Archived.antt =====
-- src/workspace-ops.ts: a workspace's conversations outlive it.
use Prim.Native.String.{◌++◌ as text_append}
use herdr_web_broker.Common.{
  ℕ, ◌≡◌, refl, String, true, Option, some, none, List, [], ◌∷◌, ◌∙◌, inl, inr, arith, eq_refl, In,
  starts_with, ap,
}
use herdr_web_broker.State.{Index, WorkspaceMeta, AgentMeta, get}
use herdr_web_broker.State.Removal.{In-remove_workspace}
use herdr_web_broker.State.Resumable.{ResumableMeta, truthy, record_ended}
use herdr_web_broker.State.Resumable.Kept.{archived_cwd, recorded, cwd-record_ended}
use herdr_web_broker.Ops.{World}
use herdr_web_broker.Ops.Reap.{record_all, reap_workspace_row, cwd_of, label_of}

recorded_again :
    (id : Option String) (session_id cwd : String) (before : Option String)
    → before ≡ some cwd
    → recorded id (some cwd) session_id before ≡ some cwd
recorded_again none session_id cwd before h = h
recorded_again (some id) session_id cwd before h = ground (arith, h)

module _ (session session_id cwd : String) (row : Option WorkspaceMeta)
    (known : truthy (cwd_of row) ≡ some cwd) (now : ℕ) where
  kept_by_one :
      (m : AgentMeta) (ended : Index ResumableMeta)
      → archived_cwd (get session session_id ended) ≡ some cwd
      → archived_cwd
          (get session session_id (record_ended session m (cwd_of row) (label_of row) now ended))
        ≡ some cwd
  kept_by_one m ended h =
      cwd-record_ended session session_id m (cwd_of row) (label_of row) now ended
      ∙ rw known (recorded_again (truthy m.session_id) session_id cwd _ h)

  kept_by_all :
      (removed : List AgentMeta) (ended : Index ResumableMeta)
      → archived_cwd (get session session_id ended) ≡ some cwd
      → archived_cwd (get session session_id (record_all session row now removed ended)) ≡ some cwd
  unfolding record_all
  kept_by_all [] ended h = h
  kept_by_all (m ∷ removed) ended h = kept_by_all removed _ (kept_by_one m ended h)

  archived_by_all :
      (meta : AgentMeta) (removed : List AgentMeta) (ended : Index ResumableMeta)
      → truthy meta.session_id ≡ some session_id
      → In meta removed
      → archived_cwd (get session session_id (record_all session row now removed ended)) ≡ some cwd
  unfolding record_all
  archived_by_all meta [] ended pinned h = absurd h
  archived_by_all meta (m ∷ removed) ended pinned (inl same) = kept_by_all removed _ (
      cwd-record_ended session session_id m (cwd_of row) (label_of row) now ended
      ∙ rw (known, ap (λ (a : AgentMeta). truthy a.session_id) same, pinned, eq_refl session_id)
          refl)
  archived_by_all meta (m ∷ removed) ended pinned (inr later) =
      archived_by_all meta removed _ pinned later

-- Every agent of a workspace that is reaped, if its conversation has an id and the workspace's directory
-- is known, leaves its conversation among those that can be resumed, with that directory.
pub reap_workspace_row-archives :
    (session id pane session_id cwd : String) (meta : AgentMeta) (now : ℕ) (w : World)
    → get session pane w.agents ≡ some meta
    → starts_with pane (text_append id ":") ≡ true
    → truthy meta.session_id ≡ some session_id
    → truthy (cwd_of (get session id w.index)) ≡ some cwd
    → archived_cwd (get session session_id (reap_workspace_row session id now w).0.resumable)
      ≡ some cwd
unfolding reap_workspace_row
reap_workspace_row-archives session id pane session_id cwd meta now w listed within pinned known =
    archived_by_all session session_id cwd (get session id w.index) known now meta _ w.resumable
      pinned (In-remove_workspace session id pane meta w.agents listed within)
