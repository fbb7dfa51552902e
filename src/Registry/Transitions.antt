-- ===== src/Registry/Transitions.antt =====
-- The `online` and `offline` announcements of src/registry.ts.
use herdr_web_broker.Common.{
  ℕ, to_ℕ, ◌+◌, ◌≡◌, refl, String, Bool, true, false, Option, some, List, [], ◌∷◌, ◌++◌, arith,
  str_eq, eq_iff, if◌then◌else◌, length, filter, filter-append, length-append, ◌∙◌, Option-cases,
  inl, inr,
}
use herdr_web_broker.Common.Dict.{Dict, lookup, insert, lookup-insert}
use herdr_web_broker.Registry.Data.{
  AgentInfo, InstanceSnapshot, Stored, Event, online, snapshot, offline,
}
use herdr_web_broker.Registry.File.{RawStored}
use herdr_web_broker.Registry.{
  Registry, Call, replaces, applies_status, adds_session, removes_session, goes_offline, new, flush,
  emit, is_online, update_entry, replace_snapshot, apply_agent_status, apply_session_added,
  apply_session_removed, set_offline, step, run, snapshot_entry,
}

abbrev announces_online : String → Event → Bool
announces_online instance (online i) = str_eq i instance
announces_online instance _ = false

abbrev announces_offline : String → Event → Bool
announces_offline instance (offline i) = str_eq i instance
announces_offline instance _ = false

pub onlines : String → List Event → ℕ
onlines instance es = length (filter (announces_online instance) es)

pub offlines : String → List Event → ℕ
offlines instance es = length (filter (announces_offline instance) es)

-- Every announcement that an instance came up is matched by one that it went, but the last one of
-- an instance that is up.
abbrev pub IsBalanced : String → Registry → Type 0
IsBalanced instance r =
    onlines instance r.emitted ≡ offlines instance r.emitted + to_ℕ (is_online instance r)

onlines-concat :
    (i : String) (es : List Event) (e : Event)
    → onlines i (es ++ e ∷ []) ≡ onlines i es + to_ℕ (announces_online i e)
unfolding onlines
onlines-concat i es e = rw (filter-append (announces_online i) es (e ∷ [])) (
    ground (
      arith,
      length-append (filter (announces_online i) es) (filter (announces_online i) (e ∷ [])),
    ))

offlines-concat :
    (i : String) (es : List Event) (e : Event)
    → offlines i (es ++ e ∷ []) ≡ offlines i es + to_ℕ (announces_offline i e)
unfolding offlines
offlines-concat i es e = rw (filter-append (announces_offline i) es (e ∷ [])) (
    ground (
      arith,
      length-append (filter (announces_offline i) es) (filter (announces_offline i) (e ∷ [])),
    ))

ruleset concats = (arith, onlines-concat, offlines-concat)

-- The registry after an entry was written, flushed and announced.
pub is_online-flush : (i : String) (r : Registry) → is_online i (flush r) ≡ is_online i r
unfolding flush
is_online-flush i r = ground arith

emitted-flush : (r : Registry) → (flush r).emitted ≡ r.emitted
unfolding flush
emitted-flush r = ground arith

pub is_online-insert :
    (i j : String) (entry : Stored) (r : Registry)
    → is_online i (record r { instances = insert j entry r.instances })
      ≡ (if str_eq j i then entry.online else is_online i r)
is_online-insert i j entry r = rw (lookup-insert j i entry r.instances) (ground arith)

if-IsBalanced :
    (i : String) (b : Bool) (x y : Registry)
    → (b ≡ true → IsBalanced i x)
    → (b ≡ false → IsBalanced i y)
    → IsBalanced i (if b then x else y)
if-IsBalanced i true x y v w = v refl
if-IsBalanced i false x y v w = w refl

neutral-IsBalanced :
    (i : String) (q : Registry) (e : Event)
    → announces_online i e ≡ false
    → announces_offline i e ≡ false
    → IsBalanced i q
    → IsBalanced i (emit e q)
unfolding emit
neutral-IsBalanced i q e quiet silent v =
    rw (onlines-concat i q.emitted e, offlines-concat i q.emitted e, quiet, silent) (omega arith)

module _ (i : String) (r : Registry) (v : IsBalanced i r) where
  abbrev placed : String → Stored → Registry
  placed j entry = record r { instances = insert j entry r.instances }

  -- The counts and the standing once `j` is written and `e` announced.
  emit-written :
      (j : String) (entry : Stored) (e : Event)
      → let q = emit e (flush (placed j entry)) in
        (onlines i q.emitted ≡ onlines i r.emitted + to_ℕ (announces_online i e))
        × (offlines i q.emitted ≡ offlines i r.emitted + to_ℕ (announces_offline i e))
        × (is_online i q ≡ (if str_eq j i then entry.online else is_online i r))
  unfolding emit
  emit-written j entry e = (
    rw (emitted-flush (placed j entry)) (onlines-concat i r.emitted e),
    rw (emitted-flush (placed j entry)) (offlines-concat i r.emitted e),
    is_online-flush i (placed j entry) ∙ is_online-insert i j entry r,
  )

  -- An entry is replaced by one of the same standing, and something else is announced.
  same_standing :
      (j : String) (old entry : Stored) (e : Event)
      → lookup j r.instances ≡ some old
      → entry.online ≡ old.online
      → announces_online i e ≡ false
      → announces_offline i e ≡ false
      → IsBalanced i (emit e (flush (placed j entry)))
  same_standing j old entry e h same quiet silent =
      let (ups, downs, up) = emit-written j entry e in
      let kept : (if str_eq j i then entry.online else is_online i r) ≡ is_online i r =
        ground (arith, eq_iff j i) in
      rw (ups, downs, up, kept, quiet, silent) (omega arith)

  update_entry-IsBalanced :
      (j now : String) (change : Dict (List AgentInfo) → Dict (List AgentInfo)) (e : Event)
      → announces_online i e ≡ false
      → announces_offline i e ≡ false
      → IsBalanced i (update_entry j now change e r)
  unfolding update_entry
  update_entry-IsBalanced j now change e quiet silent = elim (Option-cases (lookup j r.instances)) [
    | inl missing ↦ rw missing v
    | inr (old, found) ↦ rw found (same_standing j old _ e found refl quiet silent)
  ]

  closing-IsBalanced :
      (j : String) (old : Stored)
      → lookup j r.instances ≡ some old
      → old.online ≡ true
      → IsBalanced i (emit (offline j) (flush (placed j (record old { online = false }))))
  closing-IsBalanced j old found up =
      let (ups, downs, now_up) = emit-written j (record old { online = false }) (offline j) in
      rw (ups, downs, now_up) (ground (arith, eq_iff j i))

  set_offline-IsBalanced : (j : String) → IsBalanced i (set_offline j r)
  unfolding set_offline
  set_offline-IsBalanced j = elim (Option-cases (lookup j r.instances)) [
    | inl missing ↦ rw missing v
    | inr (old, found) ↦
        rw found (if-IsBalanced i old.online _ _ (closing-IsBalanced j old found) (λ _. v))
  ]

  again-IsBalanced :
      (j : String) (snap : InstanceSnapshot) (now : String)
      → is_online j r ≡ true
      → IsBalanced i (flush (placed j (snapshot_entry snap now)))
  again-IsBalanced j snap now up =
      rw
        (
          emitted-flush (placed j (snapshot_entry snap now)),
          is_online-flush i (placed j (snapshot_entry snap now)),
          is_online-insert i j (snapshot_entry snap now) r,
        )
        (ground (arith, eq_iff j i))

  fresh-IsBalanced :
      (j : String) (snap : InstanceSnapshot) (now : String)
      → is_online j r ≡ false
      → IsBalanced i (emit (online j) (flush (placed j (snapshot_entry snap now))))
  fresh-IsBalanced j snap now down =
      let (ups, downs, now_up) = emit-written j (snapshot_entry snap now) (online j) in
      rw (ups, downs, now_up) (ground (arith, eq_iff j i))

  replace_snapshot-IsBalanced :
      (j : String) (snap : InstanceSnapshot) (now : String)
      → IsBalanced i (replace_snapshot j snap now r)
  unfolding replace_snapshot
  replace_snapshot-IsBalanced j snap now =
      let written = flush (placed j (snapshot_entry snap now)) in
      let q = if is_online j r then written else emit (online j) written in
      neutral-IsBalanced i q (snapshot j) refl refl (
        if-IsBalanced i (is_online j r) written (emit (online j) written)
          (again-IsBalanced j snap now) (fresh-IsBalanced j snap now))

  step-IsBalanced : (c : Call) → IsBalanced i (step r c)
  unfolding step apply_agent_status apply_session_added apply_session_removed
  step-IsBalanced (replaces j snap now) = replace_snapshot-IsBalanced j snap now
  step-IsBalanced (applies_status j session agent now) = update_entry-IsBalanced j now _ _ refl refl
  step-IsBalanced (adds_session j session now) = update_entry-IsBalanced j now _ _ refl refl
  step-IsBalanced (removes_session j session now) = update_entry-IsBalanced j now _ _ refl refl
  step-IsBalanced (goes_offline j) = set_offline-IsBalanced j

run-IsBalanced :
    (i : String) (r : Registry) (cs : List Call) → IsBalanced i r → IsBalanced i (run r cs)
unfolding run
run-IsBalanced i r [] v = v
run-IsBalanced i r (c ∷ cs) v = run-IsBalanced i (step r c) cs (step-IsBalanced i r v c)

-- Over every history of a new registry, and for every instance: as many `online` announcements were
-- made as `offline` ones, and one more exactly if the instance is online now.
pub onlines-eq-offlines :
    (i : String) (persist : Bool) (file : Option (Dict RawStored)) (cs : List Call)
    → let r = run (new persist file) cs in
      onlines i r.emitted ≡ offlines i r.emitted + to_ℕ (is_online i r)
unfolding new onlines offlines lookup
onlines-eq-offlines i persist file cs = run-IsBalanced i (new persist file) cs refl
