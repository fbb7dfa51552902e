-- ===== src/Registry/Agents.antt =====
-- What the updates of src/registry.ts change, read back agent by agent.
use herdr_web_broker.Common.{
  ◌≡◌, refl, String, Bool, Option, some, none, List, [], ◌∷◌, ◌&&◌, arith, str_eq, eq_iff, find,
  or_else, if◌then◌else◌,
}
use herdr_web_broker.Common.Dict.{Dict, lookup, insert, remove, lookup-insert, lookup-remove}
use herdr_web_broker.Registry.Data.{AgentInfo, SessionSnapshot, Stored, Event}
use herdr_web_broker.Registry.{
  Registry, put_agent, update_entry, apply_agent_status, apply_session_added, apply_session_removed,
  set_offline,
}

abbrev pub agent_in : String → List AgentInfo → Option AgentInfo
agent_in id agents = find (λ a. str_eq a.id id) agents

agent_in-put_agent :
    (agent : AgentInfo) (id : String) (agents : List AgentInfo)
    → agent_in id (put_agent agent agents)
      ≡ (if str_eq agent.id id then some agent else agent_in id agents)
unfolding put_agent
agent_in-put_agent agent id [] = refl
agent_in-put_agent agent id (a ∷ rest) = ground (
  arith,
  eq_iff a.id agent.id,
  eq_iff a.id id,
  eq_iff agent.id id,
  agent_in-put_agent agent id rest,
)

-- The agent with an id in a session of an instance, as a client of the registry would look it up.
abbrev pub agents_in : String → Option Stored → List AgentInfo
agents_in session none = []
agents_in session (some entry) = or_else (lookup session entry.sessions) []

abbrev pub agent_at : String → String → String → Registry → Option AgentInfo
agent_at instance session id r = agent_in id (agents_in session (lookup instance r.instances))

abbrev Change : Type 0
Change = Dict (List AgentInfo) → Dict (List AgentInfo)

lookup-update_entry :
    (instance now : String) (change : Change) (e : Event) (r : Registry) (entry : Stored)
    (j : String)
    → lookup instance r.instances ≡ some entry
    → lookup j (update_entry instance now change e r).instances ≡ (
        if str_eq instance j
        then some (record entry { sessions = change entry.sessions; as_of = now })
        else lookup j r.instances)
unfolding update_entry
lookup-update_entry instance now change e r entry j h = rw h (
    ground (
      arith,
      lookup-insert instance j (record entry { sessions = change entry.sessions; as_of = now })
          r.instances,
    ))

-- What an update of one instance shows under any instance and session.
agents_in-update_entry :
    (instance now : String) (change : Change) (e : Event) (r : Registry) (entry : Stored)
    (j session : String)
    → lookup instance r.instances ≡ some entry
    → agents_in session (lookup j (update_entry instance now change e r).instances) ≡ (
        if str_eq instance j
        then or_else (lookup session (change entry.sessions)) []
        else agents_in session (lookup j r.instances))
agents_in-update_entry instance now change e r entry j session h =
    rw (lookup-update_entry instance now change e r entry j h) (ground arith)

abbrev same3 : String → String → String → String → String → String → Bool
same3 a b c a' b' c' = str_eq a a' && (str_eq b b' && str_eq c c')

-- After a status is applied to a known instance, the agent with that id in that session of that
-- instance is the one applied, whether it was listed before or not, and every other agent of every
-- instance and session is found as before.
pub agent_at-apply_agent_status :
    (instance session : String) (agent : AgentInfo) (now : String) (r : Registry) (e : Stored)
    (instance' session' id : String)
    → lookup instance r.instances ≡ some e
    → agent_at instance' session' id (apply_agent_status instance session agent now r) ≡ (
        if same3 instance session agent.id instance' session' id
        then some agent
        else agent_at instance' session' id r)
unfolding apply_agent_status
agent_at-apply_agent_status instance session agent now r e instance' session' id h =
    let put = put_agent agent (or_else (lookup session e.sessions) []) in
    rw (agents_in-update_entry instance now _ _ r e instance' session' h) (
      ground (
        arith,
        eq_iff instance instance',
        eq_iff session session',
        lookup-insert session session' put e.sessions,
        agent_in-put_agent agent id (or_else (lookup session e.sessions) []),
      ))

-- After a session is added or removed, a known instance lists exactly the agents given, or none,
-- under that session, and all other sessions and instances list what they did.
pub agents_in-session_changes :
    (instance name : String) (agents : List AgentInfo) (now : String) (r : Registry) (e : Stored)
    (instance' session' : String)
    → lookup instance r.instances ≡ some e
    → let added = apply_session_added instance (record { name = name; agents = agents }) now r in
      let removed = apply_session_removed instance name now r in
      let before = agents_in session' (lookup instance' r.instances) in
      let here = str_eq instance instance' && str_eq name session' in
      (agents_in session' (lookup instance' added.instances) ≡ (if here then agents else before))
      × (agents_in session' (lookup instance' removed.instances) ≡ (if here then [] else before))
unfolding apply_session_added apply_session_removed
agents_in-session_changes instance name agents now r e instance' session' h = (
  rw (agents_in-update_entry instance now (insert name agents) _ r e instance' session' h)
      (ground (arith, eq_iff instance instance', lookup-insert name session' agents e.sessions)),
  rw (agents_in-update_entry instance now (remove name) _ r e instance' session' h)
      (ground (arith, eq_iff instance instance', lookup-remove name session' e.sessions)),
)

-- A call about an instance that the registry has no entry for changes nothing, writes nothing and
-- announces nothing; so does taking an instance offline that already is.
pub unknown_unchanged :
    (instance session : String) (agent : AgentInfo) (added : SessionSnapshot) (now : String)
    (r : Registry)
    → lookup instance r.instances ≡ none
    → (apply_agent_status instance session agent now r ≡ r)
      × (apply_session_added instance added now r ≡ r)
      × (apply_session_removed instance session now r ≡ r)
      × (set_offline instance r ≡ r)
unfolding apply_agent_status apply_session_added apply_session_removed set_offline update_entry
unknown_unchanged instance session agent added now r h = (rw h, rw h, rw h, rw h)
