-- ===== src/Registry/Synced.antt =====
-- Restarts: what src/registry.ts has written is what a new process loads.
use herdr_web_broker.Common.{
  ◌≡◌, refl, sym, String, Bool, true, false, Option, some, none, List, [], ◌∷◌, arith,
  if◌then◌else◌,
}
use herdr_web_broker.Common.Dict.{Dict, lookup, insert}
use herdr_web_broker.Common.Dict.Distinct.{
  HasDistinctKeys, insert-HasDistinctKeys, insert_all-nil, map_values, map_values-HasDistinctKeys,
}
use herdr_web_broker.Registry.Data.{
  AgentInfo, InstanceSnapshot, Stored, Event, online, offline, snapshot,
}
use herdr_web_broker.Registry.File.{
  RawStored, read_entry, write_entry, read-write_entry, read_entry_offline,
}
use herdr_web_broker.Registry.{
  Registry, Call, replaces, applies_status, adds_session, removes_session, goes_offline, new, load,
  flush, emit, is_online, snapshot_entry, change_entry, update_entry, offline_entry,
  replace_snapshot, apply_agent_status, apply_session_added, apply_session_removed, set_offline,
  step, run,
}

-- A new process on the same path.
abbrev pub restart : Registry → Registry
restart r = load (new true r.file)

abbrev pub take_offline : Stored → Stored
take_offline e = record e { online = false }

abbrev pub HasDistinctEntries : Option (Dict RawStored) → Type 0
HasDistinctEntries none = Unit
HasDistinctEntries (some entries) = HasDistinctKeys entries

map_values-read-write :
    (m : Dict Stored) → map_values read_entry (map_values write_entry m) ≡ map_values take_offline m
unfolding map_values
map_values-read-write [] = refl
map_values-read-write ((k, e) ∷ m) = rw (read-write_entry e, map_values-read-write m)

map_values-offline_twice :
    (m : Dict RawStored)
    → map_values take_offline (map_values read_entry m) ≡ map_values read_entry m
unfolding map_values
map_values-offline_twice [] = refl
map_values-offline_twice ((k, e) ∷ m) = rw (read_entry_offline e, map_values-offline_twice m)

record IsDurable (r : Registry) : Type 0 where
  persistent : r.persist ≡ true
  distinct : HasDistinctKeys r.instances
  recovered : (restart r).instances ≡ map_values take_offline r.instances

restart_written :
    (r : Registry)
    → HasDistinctKeys r.instances
    → r.file ≡ some (map_values write_entry r.instances)
    → (restart r).instances ≡ map_values take_offline r.instances
unfolding load new
restart_written r d e =
    rw (e, map_values-read-write r.instances)
      (insert_all-nil _ (map_values-HasDistinctKeys take_offline r.instances d))

written_IsDurable :
    (r : Registry)
    → r.persist ≡ true
    → HasDistinctKeys r.instances
    → r.file ≡ some (map_values write_entry r.instances)
    → IsDurable r
written_IsDurable r p d e = record {
  persistent = p;
  distinct = d;
  recovered = restart_written r d e;
}

flush-IsDurable :
    (r : Registry) → r.persist ≡ true → HasDistinctKeys r.instances → IsDurable (flush r)
unfolding flush
flush-IsDurable r p d = written_IsDurable (flush r) (ground arith) (ground arith) (ground arith)

emit-IsDurable : {r : Registry} (e : Event) → IsDurable r → IsDurable (emit e r)
unfolding emit
emit-IsDurable e v = record {
  persistent = v.persistent;
  distinct = v.distinct;
  recovered = v.recovered;
}

if-IsDurable :
    (b : Bool) {x y : Registry} → IsDurable x → IsDurable y → IsDurable (if b then x else y)
if-IsDurable true v w = v
if-IsDurable false v w = w

module _ {r : Registry} (v : IsDurable r) where
  put-IsDurable :
      (instance : String) (entry : Stored)
      → IsDurable (flush (record r { instances = insert instance entry r.instances }))
  put-IsDurable instance entry =
      flush-IsDurable _ v.persistent (insert-HasDistinctKeys instance entry r.instances v.distinct)

  update_entry-IsDurable :
      (instance now : String) (change : Dict (List AgentInfo) → Dict (List AgentInfo)) (e : Event)
      → IsDurable (update_entry instance now change e r)
  unfolding update_entry
  update_entry-IsDurable instance now change e = go (lookup instance r.instances)
    where
      go : (found : Option Stored) → IsDurable (change_entry found instance now change e r)
      go none = v
      go (some entry) = emit-IsDurable e (put-IsDurable instance _)

  set_offline-IsDurable : (instance : String) → IsDurable (set_offline instance r)
  unfolding set_offline
  set_offline-IsDurable instance = go (lookup instance r.instances)
    where
      go : (found : Option Stored) → IsDurable (offline_entry found instance r)
      go none = v
      go (some entry) =
          if-IsDurable entry.online
            (emit-IsDurable (offline instance)
              (put-IsDurable instance (record entry { online = false })))
            v

  replace_snapshot-IsDurable :
      (instance : String) (snap : InstanceSnapshot) (now : String)
      → IsDurable (replace_snapshot instance snap now r)
  unfolding replace_snapshot
  replace_snapshot-IsDurable instance snap now =
      let written = put-IsDurable instance (snapshot_entry snap now) in
      emit-IsDurable (snapshot instance)
        (if-IsDurable (is_online instance r) written (emit-IsDurable (online instance) written))

  step-IsDurable : (c : Call) → IsDurable (step r c)
  unfolding step apply_agent_status apply_session_added apply_session_removed
  step-IsDurable (replaces instance snap now) = replace_snapshot-IsDurable instance snap now
  step-IsDurable (applies_status instance session agent now) =
      update_entry-IsDurable instance now _ _
  step-IsDurable (adds_session instance session now) = update_entry-IsDurable instance now _ _
  step-IsDurable (removes_session instance session now) = update_entry-IsDurable instance now _ _
  step-IsDurable (goes_offline instance) = set_offline-IsDurable instance

run-IsDurable : (r : Registry) (cs : List Call) → IsDurable r → IsDurable (run r cs)
unfolding run
run-IsDurable r [] v = v
run-IsDurable r (c ∷ cs) v = run-IsDurable (step r c) cs (step-IsDurable v c)

boot-IsDurable :
    (file : Option (Dict RawStored)) → HasDistinctEntries file → IsDurable (load (new true file))
unfolding load new map_values
boot-IsDurable none d = record { persistent = refl; distinct = tt; recovered = refl }
boot-IsDurable (some entries) d =
    let read = map_values read_entry entries in
    let same = insert_all-nil read (map_values-HasDistinctKeys read_entry entries d) in
    record {
      persistent = refl;
      distinct = rw same (map_values-HasDistinctKeys read_entry entries d);
      recovered = rw same (sym (map_values-offline_twice entries));
    }

-- A registry that was loaded from a file with distinct instance names, or from none, and then took
-- any calls: a new process on the same path loads exactly its instances, with the same sessions,
-- agents and times, all of them offline.
pub restart-run :
    (file : Option (Dict RawStored)) (cs : List Call)
    → HasDistinctEntries file
    → let r = run (load (new true file)) cs in
      (restart r).instances ≡ map_values take_offline r.instances
restart-run file cs d = (run-IsDurable _ cs (boot-IsDurable file d)).recovered
