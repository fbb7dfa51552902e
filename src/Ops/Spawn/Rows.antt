-- ===== src/Ops/Spawn/Rows.antt =====
-- `spawn` of src/workspace-ops.ts: what it records, and what it hands back, however it ends.
use text.Mathlib.Text.{find?}
use herdr_web_broker.Common.{
  ℕ, ◌≡◌, refl, String, Bool, true, Option, some, none, List, [], ◌∷◌, ◌++◌, ◌∙◌, inl, inr, is_some,
  if◌then◌else◌, In, ap, subst, sym, Bool-cases, ltb, not, ◌&&◌,
}
use herdr_web_broker.State.{AgentMeta, WorkspaceMeta, Index, get, set}
use herdr_web_broker.State.Removal.{get-set_self}
use herdr_web_broker.State.Resumable.{truthy}
use herdr_web_broker.Access.Errors.{BrokerError}
use herdr_web_broker.Ops.{
  World, broker, foreign, Result, ok, throws, is_ok, workspace_of, as_broker_error, ◌>>=◌,
}
use herdr_web_broker.Ops.Panes.{Entry}
use herdr_web_broker.Ops.Resume.{CliProfile}
use herdr_web_broker.Ops.Placement.{Plan, directory_for}
use herdr_web_broker.Ops.Launch.{Start, started, failed, out_of_fuel, settles, banner}
use herdr_web_broker.Ops.Spawn.{
  Answers, Config, Spawned, with_ids, workspace_for, indexed, pinned, ready_stage, start_stage,
  settle_of, settle_stage, markers_of, login_stage, launched, record_agent, spawn_in, spawn,
}

-- The workspace and the pane are in the result, or in the details of the error.
abbrev pub HandsBack : String → String → Result Spawned → Type 0
HandsBack id pane (ok s) = (s.workspace_id ≡ id) × (s.pane_id ≡ pane)
HandsBack id pane (throws (broker e)) =
    In ("workspace_id", id) e.details × In ("pane_id", pane) e.details
HandsBack id pane (throws (foreign text)) = ⊥

abbrev HasIds {ℓ} : {A : Type ℓ} → String → String → Result A → Type 0
HasIds id pane (ok a) = Unit
HasIds id pane (throws (broker e)) =
    In ("workspace_id", id) e.details × In ("pane_id", pane) e.details
HasIds id pane (throws (foreign text)) = ⊥

In-append : (x : String × String) (xs ys : List (String × String)) → In x ys → In x (xs ++ ys)
In-append x [] ys h = h
In-append x (y ∷ xs) ys h = inr (In-append x xs ys h)

module _ (id pane : String) where
  with_ids-In :
      (e : BrokerError)
      → In ("workspace_id", id) (with_ids id pane e).details
        × In ("pane_id", pane) (with_ids id pane e).details
  with_ids-In e = (
    In-append ("workspace_id", id) e.details _ (inl refl),
    In-append ("pane_id", pane) e.details _ (inr (inl refl)),
  )

  HasIds->>= :
      {A B : Type 0} (m : Result A) (f : A → Result B)
      → HasIds id pane m
      → ((a : A) → HasIds id pane (f a))
      → HasIds id pane (m >>= f)
  HasIds->>= (ok a) f h k = k a
  HasIds->>= (throws (broker e)) f h k = h
  HasIds->>= (throws (foreign text)) f h k = h

  ready-HasIds : (r : Result (Unit {0})) → HasIds id pane (ready_stage id pane r)
  ready-HasIds (ok sent) = tt
  ready-HasIds (throws t) = with_ids-In (as_broker_error t)

  start-HasIds : (s : Start) → HasIds id pane (start_stage id pane s)
  start-HasIds (started name) = tt
  start-HasIds (failed e) = with_ids-In e
  start-HasIds out_of_fuel = (inl refl, inr (inl refl))

  settle-HasIds :
      (settle_ms : ℕ) (lists : ℕ → Result (List Entry))
      → HasIds id pane (settle_stage id pane settle_ms lists)
  settle-HasIds settle_ms lists =
      elim (Bool-cases (ltb 0 settle_ms && not (settles lists pane settle_ms))) [
        | inl dies ↦ rw dies (inl refl, inr (inl refl))
        | inr stays ↦ rw stays tt
      ]

  login-HasIds : (hit : Option String) → HasIds id pane (login_stage id pane hit)
  login-HasIds none = tt
  login-HasIds (some hit) = (inl refl, inr (inl refl))

  launched-HasIds :
      (profile : Option CliProfile) (config : Config) (plan : Plan) (name : Option String)
      (a : Answers)
      → HasIds id pane (launched profile config plan name id pane a)
  unfolding launched
  launched-HasIds profile config plan name a =
      HasIds->>= (ready_stage id pane a.ready) _ (ready-HasIds a.ready) (λ _.
        HasIds->>= (start_stage id pane _) _ (start-HasIds _) (λ s.
          HasIds->>= (settle_stage id pane (settle_of config profile) a.lists) _
            (settle-HasIds _ a.lists)
            (λ _.
              HasIds->>= (login_stage id pane (banner (markers_of profile) a.screen)) _
                (login-HasIds _) (λ _. tt))))

-- The agent's row, if it is recorded.
abbrev pub agents_after : Bool → String → String → AgentMeta → Index AgentMeta → Index AgentMeta
agents_after recorded session pane row agents =
    if recorded then set session pane row agents else agents

module _ (profile : Option CliProfile) (config : Config) (session pane : String) (plan : Plan)
    (name : Option String) (a : Answers) (path : Option String) (w : World) where
  abbrev pub agent_row : AgentMeta
  agent_row = record {
    session_id = pinned profile a.minted_id;
    kind = plan.kind;
    started_at = a.now;
  }

  record_agent-rows :
      (id dir : String) (r : Result String) (v : World)
      → HasIds id pane r
      → let done = record_agent profile session id pane plan dir a r v in
        (done.0.index ≡ v.index)
        × (done.0.agents ≡ agents_after (is_ok done.1) session pane agent_row v.agents)
        × HandsBack id pane done.1
  unfolding record_agent
  record_agent-rows id dir (ok s) v h = (refl, refl, (refl, refl))
  record_agent-rows id dir (throws (broker e)) v h = (refl, refl, h)
  record_agent-rows id dir (throws (foreign text)) v h = absurd h

  spawn_in-rows :
      plan.joins ≡ none
      → let id = workspace_of pane in
        let done = spawn_in profile config session plan name a (some pane) path w in
        (get session id done.0.index
          ≡ some
              (record { cwd = directory_for plan.branch path plan.cwd; label = truthy plan.label }))
        × (done.0.agents ≡ agents_after (is_ok done.1) session pane agent_row w.agents)
        × HandsBack id pane done.1
  unfolding spawn_in
  spawn_in-rows alone = subst Goal (sym alone) (index_is, rows.1, rows.2)
    where
      dir : String
      dir = directory_for plan.branch path plan.cwd

      meta : WorkspaceMeta
      meta = record { cwd = dir; label = truthy plan.label }

      at : Option String → World × Result Spawned
      at joins =
          let id = workspace_for joins pane in
          record_agent profile session id pane plan dir a
            (launched profile config plan name id pane a) (indexed joins session pane meta w)

      Goal : Option String → Type 0
      Goal joins =
          (get session (workspace_of pane) (at joins).0.index ≡ some meta)
          × ((at joins).0.agents
              ≡ agents_after (is_ok (at joins).1) session pane agent_row w.agents)
          × HandsBack (workspace_of pane) pane (at joins).1

      rows :
          ((at none).0.index ≡ (indexed none session pane meta w).index)
          × ((at none).0.agents ≡ agents_after (is_ok (at none).1) session pane agent_row w.agents)
          × HandsBack (workspace_of pane) pane (at none).1
      rows =
          let id = workspace_of pane in
          record_agent-rows id dir (launched profile config plan name id pane a)
            (indexed none session pane meta w) (launched-HasIds id pane profile config plan name a)

      index_is : get session (workspace_of pane) (at none).0.index ≡ some meta
      index_is =
          ap (get session (workspace_of pane)) rows.0
          ∙ get-set_self session (workspace_of pane) meta w.index

  -- A spawn that makes a workspace, as soon as herdr has made its pane, keeps the workspace's row with
  -- its directory and its label, and hands the ids of both back, in its result or in its error; the
  -- agent has a row exactly if the spawn succeeds, with the session id that it was given.
  pub spawn-HandsBack :
      a.made ≡ ok (some pane, path)
      → is_some (find? pane ":") ≡ true
      → plan.joins ≡ none
      → let id = workspace_of pane in
        let done = spawn profile config session plan name a w in
        (get session id done.0.index
          ≡ some
              (record { cwd = directory_for plan.branch path plan.cwd; label = truthy plan.label }))
        × (done.0.agents ≡ agents_after (is_ok done.1) session pane agent_row w.agents)
        × HandsBack id pane done.1
  unfolding spawn
  spawn-HandsBack made paned alone = rw (made, paned) (spawn_in-rows alone)
