-- ===== src/Ops/Ask/Lock/Exclusive.antt =====
-- `ask` of src/workspace-ops.ts: its lock is released on every path, and at most one ask runs on a pane.
use herdr_web_broker.Common.{
  ℕ, ◌+◌, ◌-◌, ◌≤◌, ◌≡◌, refl, String, Bool, true, false, not, ◌&&◌, ◌||◌, List, [], ◌∷◌, ◌++◌,
  str_eq, eq_iff, eq_refl, if◌then◌else◌, arith, to_ℕ, ◌∙◌,
}
use herdr_web_broker.Ops.{World, Result, is_ok}
use herdr_web_broker.Ops.Ask.{AskResult}
use herdr_web_broker.Ops.Ask.Lock.{
  has_lock, delete_lock, take_lock, lock_key, ask_locked, ask, Flight, Happening, begins, ends,
  end_one, step, run,
}

has_lock-append :
    (key k : String) (locks : List String)
    → has_lock key (locks ++ k ∷ []) ≡ has_lock key locks || str_eq k key
has_lock-append key k [] = ground arith
has_lock-append key k (l ∷ locks) = ground (arith, has_lock-append key k locks)

has_lock-delete_lock :
    (key k : String) (locks : List String)
    → has_lock key (delete_lock k locks) ≡ has_lock key locks && not (str_eq k key)
has_lock-delete_lock key k [] = refl
has_lock-delete_lock key k (l ∷ locks) =
    ground (arith, has_lock-delete_lock key k locks, eq_iff l k, eq_iff l key, eq_iff k key)

abbrev pub count : String → List String → ℕ
count key [] = 0
count key (k ∷ running) = to_ℕ (str_eq k key) + count key running

count-end_one :
    (key k : String) (running : List String)
    → count key (end_one k running) ≡ count key running - to_ℕ (has_lock k running && str_eq k key)
unfolding end_one
count-end_one key k [] = refl
count-end_one key k (l ∷ running) =
    ground (arith, count-end_one key k running, eq_iff l k, eq_iff l key, eq_iff k key)

-- A pane's lock is held exactly while one ask runs on it.
abbrev Holds : String → Flight → Type 0
Holds key f = count key f.running ≡ to_ℕ (has_lock key f.locks)

step-Holds : (key : String) (f : Flight) (h : Happening) → Holds key f → Holds key (step f h)
unfolding step take_lock
step-Holds key f (begins k) h = ground (arith, has_lock-append key k f.locks, eq_iff k key)
step-Holds key f (ends k) h =
    ground (arith, has_lock-delete_lock key k f.locks, count-end_one key k f.running, eq_iff k key)

run-Holds : (key : String) (f : Flight) (hs : List Happening) → Holds key f → Holds key (run f hs)
unfolding run
run-Holds key f [] h = h
run-Holds key f (e ∷ hs) h = run-Holds key (step f e) hs (step-Holds key f e h)

-- However asks start and end, at most one runs on each pane, and the pane's lock is held exactly while
-- one does.
pub running-le :
    (key : String) (hs : List Happening)
    → let f = run (record { locks = []; running = [] }) hs in
      (count key f.running ≤ 1) × (count key f.running ≡ to_ℕ (has_lock key f.locks))
running-le key hs =
    let f = run (record { locks = []; running = [] }) hs in
    let held = run-Holds key (record { locks = []; running = [] }) hs refl in
    (ground (arith, held), held)

-- Whatever an ask comes to, an answer, an error or a change of the world by others, its pane's lock is
-- free when it is over; an ask that finds the lock taken leaves it so and changes nothing. Completion is
-- announced exactly if there is an answer.
pub ask-releases :
    (session pane : String) (inner : World → World × Result AskResult) (w : World)
    → let key = lock_key session pane in
      let done = ask session pane inner w in
      (has_lock key done.world.ask_locks ≡ has_lock key w.ask_locks)
      × (done.world ≡ (if has_lock key w.ask_locks then w else done.world))
      × (done.completed ≡ is_ok done.result)
unfolding ask ask_locked
ask-releases session pane inner w = by_lock (has_lock key w.ask_locks) refl
  where
    key : String
    key = lock_key session pane

    by_lock :
        (busy : Bool)
        → has_lock key w.ask_locks ≡ busy
        → let done = ask_locked key (take_lock key w.ask_locks) inner w in
          (has_lock key done.world.ask_locks ≡ has_lock key w.ask_locks)
          × (done.world ≡ (if has_lock key w.ask_locks then w else done.world))
          × (done.completed ≡ is_ok done.result)
    by_lock true busy = rw busy (busy, refl, refl)
    by_lock false free =
        rw free (has_lock-delete_lock key key _ ∙ rw (eq_refl key) (ground arith), refl, refl)
