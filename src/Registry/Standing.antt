-- ===== src/Registry/Standing.antt =====
-- src/registry.ts: what each operation does to the standing of every instance.
use herdr_web_broker.Common.{
  ◌≡◌, refl, String, Bool, true, false, Option, some, none, List, [], ◌∷◌, arith, str_eq, eq_iff,
  if◌then◌else◌, ◌∙◌, Option-cases, Bool-cases, inl, inr,
}
use herdr_web_broker.Common.Dict.{Dict, lookup, insert, lookup-insert}
use herdr_web_broker.Common.Dict.Distinct.{insert_all, map_values}
use herdr_web_broker.Registry.Data.{
  AgentInfo, InstanceSnapshot, SessionSnapshot, Stored, Event, online, offline, snapshot,
}
use herdr_web_broker.Registry.File.{RawStored, read_entry}
use herdr_web_broker.Registry.Transitions.{is_online-flush, is_online-insert}
use herdr_web_broker.Registry.{
  Registry, new, apply_agent_status, apply_session_added, apply_session_removed, online_flag,
  offline_entry, load, flush, emit, is_online, update_entry, replace_snapshot, set_offline,
  snapshot_entry,
}

is_online-emit : (i : String) (e : Event) (r : Registry) → is_online i (emit e r) ≡ is_online i r
unfolding emit
is_online-emit i e r = refl

-- An entry is written, flushed and announced.
is_online-written :
    (i j : String) (entry : Stored) (e : Event) (r : Registry)
    → is_online i (emit e (flush (record r { instances = insert j entry r.instances })))
      ≡ (if str_eq j i then entry.online else is_online i r)
is_online-written i j entry e r =
    let placed = record r { instances = insert j entry r.instances } in
    is_online-emit i e (flush placed) ∙ is_online-flush i placed ∙ is_online-insert i j entry r

is_online-update_entry :
    (i j now : String) (change : Dict (List AgentInfo) → Dict (List AgentInfo)) (e : Event)
    (r : Registry)
    → is_online i (update_entry j now change e r) ≡ is_online i r
unfolding update_entry
is_online-update_entry i j now change e r = elim (Option-cases (lookup j r.instances)) [
  | inl missing ↦ rw missing refl
  | inr (old, found) ↦ rw found (is_online-written i j _ e r ∙ ground (arith, eq_iff j i))
]

module _ (i j session : String) (now : String) (r : Registry) where
  pub is_online-apply_agent_status :
      (agent : AgentInfo) → is_online i (apply_agent_status j session agent now r) ≡ is_online i r
  unfolding apply_agent_status
  is_online-apply_agent_status agent = is_online-update_entry i j now _ _ r

  pub is_online-apply_session_removed :
      is_online i (apply_session_removed j session now r) ≡ is_online i r
  unfolding apply_session_removed
  is_online-apply_session_removed = is_online-update_entry i j now _ _ r

pub is_online-apply_session_added :
    (i j : String) (session : SessionSnapshot) (now : String) (r : Registry)
    → is_online i (apply_session_added j session now r) ≡ is_online i r
unfolding apply_session_added
is_online-apply_session_added i j session now r = is_online-update_entry i j now _ _ r

module _ (i j : String) (r : Registry) where
  is_online-offline_entry :
      (o : Option Stored)
      → lookup j r.instances ≡ o
      → is_online i (offline_entry o j r) ≡ (if str_eq j i then false else is_online i r)
  unfolding offline_entry
  is_online-offline_entry none missing = ground (arith, eq_iff j i)
  is_online-offline_entry (some old) found = elim (Bool-cases old.online) [
    | inl up ↦ rw up (is_online-written i j (record old { online = false }) (offline j) r)
    | inr down ↦ rw down (ground (arith, eq_iff j i))
  ]

  pub is_online-set_offline :
      is_online i (set_offline j r) ≡ (if str_eq j i then false else is_online i r)
  unfolding set_offline
  is_online-set_offline = is_online-offline_entry (lookup j r.instances) refl

  pub is_online-replace_snapshot :
      (snap : InstanceSnapshot) (now : String)
      → is_online i (replace_snapshot j snap now r) ≡ (if str_eq j i then true else is_online i r)
  unfolding replace_snapshot
  is_online-replace_snapshot snap now = elim (Bool-cases (is_online j r)) [
    | inl up ↦ rw up (is_online-written i j (snapshot_entry snap now) (snapshot j) r)
    | inr down ↦ rw down (
        is_online-emit i (snapshot j) (
          emit (online j)
            (flush (record r { instances = insert j (snapshot_entry snap now) r.instances })))
        ∙ is_online-written i j (snapshot_entry snap now) (online j) r)
  ]

is_online-insert_all :
    (i : String) (es : Dict RawStored) (m : Dict Stored)
    → online_flag (lookup i m) ≡ false
    → online_flag (lookup i (insert_all m (map_values read_entry es))) ≡ false
unfolding insert_all map_values read_entry
is_online-insert_all i [] m h = h
is_online-insert_all i ((k, raw) ∷ es) m h =
    is_online-insert_all i es (insert k (read_entry raw) m) (
      rw (lookup-insert k i (read_entry raw) m)
        elim (Bool-cases (str_eq k i)) [ inl same ↦ rw same refl | inr other ↦ rw other h ])

-- Whatever the file holds, nothing is online at boot.
pub is_online-load :
    (i : String) (persist : Bool) (file : Option (Dict RawStored))
    → is_online i (load (new persist file)) ≡ false
unfolding load new lookup
is_online-load i false file = refl
is_online-load i true none = refl
is_online-load i true (some es) = is_online-insert_all i es [] refl
