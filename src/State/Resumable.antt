-- ===== src/State/Resumable.antt =====
-- `ResumableIndex` of src/state.ts: conversations whose agent is gone. `now` is the time in ms.
pub mod Newest
pub mod Kept
use herdr_web_broker.Common.{
  ℕ, String, Bool, true, false, Option, some, none, List, [], ◌∷◌, ltb, str_eq, if◌then◌else◌,
}
use herdr_web_broker.Common.Dict.{values}
use herdr_web_broker.State.{Index, AgentMeta, rows_of, set}

pub record ResumableMeta : Type 0 where
  pub session_id : String
  pub kind : String
  pub cwd : String
  pub ended_at : ℕ
  pub label : Option String

-- The source's `x ? x : undefined` on a text: an empty text counts as none.
abbrev pub truthy : Option String → Option String
truthy none = none
truthy (some s) = if str_eq s "" then none else some s

unfoldable record_both :
    Option String
    → Option String
    → String
    → AgentMeta
    → Option String
    → ℕ
    → Index ResumableMeta
    → Index ResumableMeta
record_both (some id) (some cwd) session meta label now index =
    set session id
      (record {
        session_id = id;
        kind = meta.kind;
        cwd = cwd;
        ended_at = now;
        label = truthy label;
      })
      index
record_both _ _ session meta label now index = index

-- `record(session, meta, cwd, label)`
unfoldable pub record_ended :
    String
    → AgentMeta
    → Option String
    → Option String
    → ℕ
    → Index ResumableMeta
    → Index ResumableMeta
unfolding record_both
record_ended session meta cwd label now index =
    record_both (truthy meta.session_id) (truthy cwd) session meta label now index

-- `sort((a, b) => b.endedAt - a.endedAt)`, which is stable: rows of one time keep their order.
unfoldable place : ResumableMeta → List ResumableMeta → List ResumableMeta
place m [] = m ∷ []
place m (r ∷ rows) = if ltb m.ended_at r.ended_at then r ∷ place m rows else m ∷ r ∷ rows

unfoldable sort : List ResumableMeta → List ResumableMeta
sort [] = []
sort (m ∷ rows) = place m (sort rows)

-- `all(session)`
pub all_ended : String → Index ResumableMeta → List ResumableMeta
unfolding sort
all_ended session index = sort (values (rows_of session index))
