-- ===== src/Tunnel/Hub/Attached.antt =====
-- src/tunnel.ts: the children that the hub holds, against what the registry says of them.
use herdr_web_broker.Common.{
  ℕ, ◌≡◌, refl, String, Bool, false, not, ◌&&◌, ◌||◌, arith, if◌then◌else◌, Option, some, none,
  List, [], ◌∷◌, is_some, str_eq, nat_eq, ◌∙◌, inl, inr, Bool-cases,
}
use herdr_web_broker.Common.Dict.{Dict, lookup, lookup-insert, lookup-remove}
use herdr_web_broker.Registry.Data.{InstanceSnapshot}
use herdr_web_broker.Registry.File.{RawStored}
use herdr_web_broker.Registry.{is_online}
use herdr_web_broker.Registry as R
use herdr_web_broker.Registry.Standing.{
  is_online-apply_agent_status, is_online-apply_session_added, is_online-apply_session_removed,
  is_online-set_offline, is_online-replace_snapshot, is_online-load,
}
use herdr_web_broker.Tunnel.Hub.{
  Hub, boot, attach, gone_of, child_gone, disconnect, Greeting, hello, garbage, other,
  proto_version, accept_child, HubStep, greets, goes, reports_status, reports_added,
  reports_removed, reports_snapshot, attaches_local, drops, hub_step, hub_run,
}

abbrev pub is_attached : String → Hub → Bool
is_attached i h = is_some (lookup i h.children)

abbrev cleared : Option ℕ → ℕ → Bool → Bool
cleared none conn stray = stray
cleared (some current) conn stray = if nat_eq current conn then false else stray

-- Whether a snapshot of `i` was written while the hub held no connection of it, by one that was replaced or had
-- gone, or by the local attachment, and no connection of it that the hub held has gone since.
abbrev pub stray_after : String → Hub → Bool → HubStep → Bool
stray_after i h stray (greets name greeting now) = stray
stray_after i h stray (goes name conn) =
    if str_eq name i then cleared (lookup name h.children) conn stray else stray
stray_after i h stray (reports_status name session agent now) = stray
stray_after i h stray (reports_added name session now) = stray
stray_after i h stray (reports_removed name session now) = stray
stray_after i h stray (reports_snapshot name snap now) =
    stray || str_eq name i && not (is_attached i h)
stray_after i h stray (attaches_local snap now) =
    stray || str_eq "runtime" i && not (is_attached i h)
stray_after i h stray (drops name) = stray

unfoldable pub stray_run : String → Hub → Bool → List HubStep → Bool
unfolding hub_step
stray_run i h stray [] = stray
stray_run i h stray (s ∷ ss) = stray_run i (hub_step h s) (stray_after i h stray s) ss

abbrev IsTrue : String → Bool → Hub → Type 0
IsTrue i stray h = is_online i h.registry ≡ is_attached i h || stray

module _ (i : String) (stray : Bool) (h : Hub) (v : IsTrue i stray h) where
  attach-IsTrue :
      (name : String) (snap : InstanceSnapshot) (now : String)
      → IsTrue i stray
          (attach name (record h { registry = R.replace_snapshot name snap now h.registry }))
  unfolding attach
  attach-IsTrue name snap now =
      rw
        (
          is_online-replace_snapshot i name h.registry snap now,
          lookup-insert name i h.made h.children,
        )
        (elim (Bool-cases (str_eq name i)) [ inl same ↦ rw same refl | inr differs ↦ rw differs v ])

  accept_child-IsTrue :
      (name : String) (g : Greeting) (now : String) → IsTrue i stray (accept_child name g now h)
  unfolding accept_child
  accept_child-IsTrue name garbage now = v
  accept_child-IsTrue name other now = v
  accept_child-IsTrue name (hello proto snap) now = elim (Bool-cases (nat_eq proto proto_version)) [
    | inl same ↦ rw same (attach-IsTrue name snap now)
    | inr differs ↦ rw differs v
  ]

  gone_of-IsTrue :
      (o : Option ℕ) (name : String) (conn : ℕ)
      → IsTrue i (if str_eq name i then cleared o conn stray else stray) (gone_of o name conn h)
  unfolding gone_of
  gone_of-IsTrue none name conn = elim (Bool-cases (str_eq name i)) [
    | inl here ↦ rw here v
    | inr differs ↦ rw differs v
  ]
  gone_of-IsTrue (some current) name conn = elim (Bool-cases (nat_eq current conn)) [
    | inl same ↦
        rw (same, is_online-set_offline i name h.registry, lookup-remove name i h.children)
          (elim (Bool-cases (str_eq name i)) [
            | inl here ↦ rw here refl
            | inr differs ↦ rw differs v
          ])
    | inr differs ↦ rw differs (elim (Bool-cases (str_eq name i)) [
      | inl here ↦ rw here v
      | inr elsewhere ↦ rw elsewhere v
    ])
  ]

  snapshot-IsTrue :
      (name : String) (snap : InstanceSnapshot) (now : String)
      → IsTrue i
          (stray || str_eq name i && not (is_attached i h))
          (record h { registry = R.replace_snapshot name snap now h.registry })
  snapshot-IsTrue name snap now =
      is_online-replace_snapshot i name h.registry snap now ∙ ground (arith, v)

  hub_step-IsTrue : (s : HubStep) → IsTrue i (stray_after i h stray s) (hub_step h s)
  unfolding hub_step child_gone disconnect
  hub_step-IsTrue (greets name greeting now) = accept_child-IsTrue name greeting now
  hub_step-IsTrue (goes name conn) = gone_of-IsTrue (lookup name h.children) name conn
  hub_step-IsTrue (reports_status name session agent now) =
      is_online-apply_agent_status i name session now h.registry agent ∙ v
  hub_step-IsTrue (reports_added name session now) =
      is_online-apply_session_added i name session now h.registry ∙ v
  hub_step-IsTrue (reports_removed name session now) =
      is_online-apply_session_removed i name session now h.registry ∙ v
  hub_step-IsTrue (reports_snapshot name snap now) = snapshot-IsTrue name snap now
  hub_step-IsTrue (attaches_local snap now) = snapshot-IsTrue "runtime" snap now
  hub_step-IsTrue (drops name) = v

hub_run-IsTrue :
    (i : String) (stray : Bool) (h : Hub) (ss : List HubStep)
    → IsTrue i stray h
    → IsTrue i (stray_run i h stray ss) (hub_run h ss)
unfolding hub_run stray_run
hub_run-IsTrue i stray h [] v = v
hub_run-IsTrue i stray h (s ∷ ss) v =
    hub_run-IsTrue i (stray_after i h stray s) (hub_step h s) ss (hub_step-IsTrue i stray h v s)

-- From a new process on, whatever its file held and in whatever order children greet, report, are
-- replaced and go, and the local herdr is attached: an instance is online in the registry exactly if the
-- hub holds a connection of it, or a snapshot of it was written while the hub held none, and no connection
-- of it that the hub held has gone since.
pub is_online-attached :
    (i : String) (persist : Bool) (file : Option (Dict RawStored)) (ss : List HubStep)
    → let start = boot persist file in
      is_online i (hub_run start ss).registry
      ≡ is_attached i (hub_run start ss) || stray_run i start false ss
unfolding boot lookup
is_online-attached i persist file ss =
    hub_run-IsTrue i false (boot persist file) ss (is_online-load i persist file)
