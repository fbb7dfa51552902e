-- ===== src/State/Resumable/Kept.antt =====
-- src/state.ts: what a conversation that ends leaves under its id.
use herdr_web_broker.Common.{
  ℕ, ◌≡◌, refl, String, Bool, true, false, Option, some, none, ◌∙◌, str_eq, eq_refl, if◌then◌else◌,
  ap,
}
use herdr_web_broker.State.{Index, AgentMeta, get, sets, step}
use herdr_web_broker.State.Rows.{get-step}
use herdr_web_broker.State.Resumable.{ResumableMeta, truthy, record_ended, record_both}

-- The directory of an archived conversation.
abbrev pub archived_cwd : Option ResumableMeta → Option String
archived_cwd none = none
archived_cwd (some row) = some row.cwd

abbrev pub recorded : Option String → Option String → String → Option String → Option String
recorded (some id) (some cwd) session_id before = if str_eq id session_id then some cwd else before
recorded _ _ session_id before = before

module _ (session session_id : String) where
  cwd-record_both :
      (id cwd : Option String)
      → (meta : AgentMeta) (label : Option String) (now : ℕ) (ended : Index ResumableMeta)
      → archived_cwd (get session session_id (record_both id cwd session meta label now ended))
        ≡ recorded id cwd session_id (archived_cwd (get session session_id ended))
  unfolding record_both step
  cwd-record_both none cwd meta label now ended = refl
  cwd-record_both (some id) none meta label now ended = refl
  cwd-record_both (some id) (some cwd) meta label now ended =
      let row : ResumableMeta = record {
        session_id = id;
        kind = meta.kind;
        cwd = cwd;
        ended_at = now;
        label = truthy label;
      } in
      ap archived_cwd (get-step session session_id ended (sets session id row))
      ∙ rw (eq_refl session) (split (str_eq id session_id) row)
    where
      split :
          (same : Bool) (row : ResumableMeta)
          → archived_cwd (if same then some row else get session session_id ended)
            ≡ (if same then some row.cwd else archived_cwd (get session session_id ended))
      split true row = refl
      split false row = refl

  -- A conversation is archived with its directory, where it has an id and the directory is known, and
  -- no other is touched.
  pub cwd-record_ended :
      (meta : AgentMeta) (cwd label : Option String) (now : ℕ) (ended : Index ResumableMeta)
      → archived_cwd (get session session_id (record_ended session meta cwd label now ended))
        ≡ recorded
            (truthy meta.session_id)
            (truthy cwd)
            session_id
            (archived_cwd (get session session_id ended))
  unfolding record_ended
  cwd-record_ended meta cwd label now ended =
      cwd-record_both (truthy meta.session_id) (truthy cwd) meta label now ended
