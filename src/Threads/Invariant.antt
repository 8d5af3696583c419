-- ===== src/Threads/Invariant.antt =====
-- What holds of the two threads in every state that the program comes to.
use crashinfo.Base.{
  zero, suc, ◌⊎◌, Bool, true, false, not, ◌&&◌, ◌≡◌, ◌≢◌, refl, arith, ℤ, pos, negsuc,
}
use crashinfo.Threads.{
  spinning, CoreOutput, unopened, opened, stale, all_fed, gave_up, spin, spun, core_stale, MainPc,
  started, creating, feeding, reading, opening_info, opening_core, unlocking, copying, joining,
  closing_core, closing_info, notifying, exited, DumpPc, absent, preparing, naming, waiting,
  holding, dumping, finished, Owner, nobody, by_main, by_dump, Shared, MainStep, lock, no_thread,
  create, feed_again, fed, proc_read, no_info, info_opened, no_core, core_opened, unlock, copied,
  join, join_none, core_closed, info_closed, notified, DumpStep, prepared, named, entered, left,
  dumped, Step, by, beside, Runs, done, next, Reach, named_pid,
}

abbrev is_main : Owner → Bool
is_main by_main = true
is_main _ = false

abbrev is_nobody : Owner → Bool
is_nobody nobody = true
is_nobody _ = false

-- The thread has not got past `pthread_mutex_lock`.
abbrev pub is_early : DumpPc → Bool
is_early absent = true
is_early preparing = true
is_early (naming result) = true
is_early waiting = true
is_early _ = false

abbrev is_absent : DumpPc → Bool
is_absent absent = true
is_absent _ = false

abbrev pub is_over : DumpPc → Bool
is_over absent = true
is_over finished = true
is_over _ = false

-- The thread holds the lock exactly if it is the owner.
abbrev owns : DumpPc → Owner → Bool
owns holding by_dump = true
owns holding _ = false
owns _ nobody = true
owns _ _ = false

abbrev is_unopened : CoreOutput → Bool
is_unopened unopened = true
is_unopened _ = false

-- `open_output` has been called for the core, and `close_output` has not.
abbrev pub is_held : CoreOutput → Bool
is_held opened = true
is_held stale = true
is_held _ = false

abbrev pub is_known : ℤ → Bool
is_known (negsuc zero) = false
is_known _ = true

-- While `main` feeds the thread: the thread has been created, has not got past the lock, and has set
-- `run.pid` if it has come to the lock.
abbrev is_fed : DumpPc → Bool → Bool
is_fed preparing known = true
is_fed (naming result) known = true
is_fed waiting known = known
is_fed _ known = false

-- Who may hold the lock, what may be open and how far the thread may be, by where `main` is.
abbrev pub allowed : MainPc → DumpPc → Owner → Bool → Bool → CoreOutput → Bool
allowed started d o known info core = is_absent d && is_nobody o && not info && is_unopened core
allowed creating d o known info core = is_absent d && is_main o && not info && is_unopened core
allowed feeding d o known info core = is_fed d known && is_main o && not info && is_unopened core
allowed spinning d o known info core = is_fed d known && is_main o && not info && is_unopened core
allowed reading d o known info core = is_early d && is_main o && not info && is_unopened core
allowed opening_info d o known info core = is_early d && is_main o && not info && is_unopened core
allowed opening_core d o known info core = is_early d && is_main o && info && is_unopened core
allowed unlocking d o known info core = is_early d && is_main o && info && is_held core
allowed copying d o known info core = owns d o && info && is_held core
allowed joining d o known info core = owns d o && info && is_held core
allowed closing_core d o known info core = is_over d && is_nobody o && info && is_held core
allowed closing_info d o known info core = is_over d && is_nobody o && info && not (is_held core)
allowed notifying d o known info core = is_over d && is_nobody o && not info && not (is_held core)
allowed exited d o known info core = true

abbrev pub IsAllowed : Shared → Type 0
IsAllowed s = allowed s.main s.dump s.owner (is_known s.pid) s.info_open s.core ≡ true

is_known-named_pid : (old result : ℤ) → is_known (named_pid old result) ≡ true
is_known-named_pid (negsuc zero) (pos n) = refl
is_known-named_pid (negsuc zero) (negsuc n) = refl
is_known-named_pid (negsuc (suc n)) result = refl
is_known-named_pid (pos n) result = refl

pub MainStep-IsAllowed : {s t : Shared} → MainStep s t → IsAllowed s → IsAllowed t
MainStep-IsAllowed (lock s m o) h = ground arith
MainStep-IsAllowed (no_thread s m) h = ground arith
MainStep-IsAllowed (create s m) h = ground arith
MainStep-IsAllowed (feed_again s m u) h = h
MainStep-IsAllowed (all_fed s m) h = ground arith
MainStep-IsAllowed (gave_up s m) h = ground arith
MainStep-IsAllowed (fed s m u) h = ground arith
MainStep-IsAllowed (spin s m u) h = h
MainStep-IsAllowed (spun s m u) h = ground arith
MainStep-IsAllowed (proc_read s m) h = ground arith
MainStep-IsAllowed (no_info s m) h = refl
MainStep-IsAllowed (info_opened s m) h = ground arith
MainStep-IsAllowed (no_core s m) h = refl
MainStep-IsAllowed (core_opened s m) h = ground arith
MainStep-IsAllowed (core_stale s m) h = ground arith
MainStep-IsAllowed (unlock s m) h = ground arith
MainStep-IsAllowed (copied s m) h = ground arith
MainStep-IsAllowed (join s m d) h = ground arith
MainStep-IsAllowed (join_none s m d) h = ground arith
MainStep-IsAllowed (core_closed s m) h = ground arith
MainStep-IsAllowed (info_closed s m) h = ground arith
MainStep-IsAllowed (notified s m) h = refl

DumpStep-IsAllowed : {s t : Shared} → DumpStep s t → IsAllowed s → IsAllowed t
DumpStep-IsAllowed (prepared s result d w) h = ground arith
DumpStep-IsAllowed (named s result d) h = ground (arith, is_known-named_pid s.pid result)
DumpStep-IsAllowed (entered s d o) h = ground arith
DumpStep-IsAllowed (left s d) h = ground arith
DumpStep-IsAllowed (dumped s d) h = ground arith

pub Step-IsAllowed : {s t : Shared} → Step s t → IsAllowed s → IsAllowed t
Step-IsAllowed (by x) h = MainStep-IsAllowed x h
Step-IsAllowed (beside r x) h = DumpStep-IsAllowed x h

pub Runs-IsAllowed : {s t : Shared} → Runs s t → IsAllowed s → IsAllowed t
Runs-IsAllowed done h = h
Runs-IsAllowed (next x r) h = Runs-IsAllowed r (Step-IsAllowed x h)

IsAllowed-dumping :
    (m : MainPc) (d : DumpPc) (o : Owner) (known info : Bool) (core : CoreOutput)
    → allowed m d o known info core ≡ true
    → d ≡ dumping
    → m ≢ exited
    → (info ≡ true) × (is_held core ≡ true)
IsAllowed-dumping m d o known info core h e r = ground arith

is_held-cases : (core : CoreOutput) → is_held core ≡ true → (core ≡ opened) ⊎ (core ≡ stale)
is_held-cases core h = ground arith

-- In every state that the program comes to, if the thread is in `info_dump` and `main` has not
-- returned, then the stream of the document is open; and `main` is between the call of `open_output`
-- and that of `close_output` for the core, which is open, unless `open_output` has closed its
-- descriptor for want of a pipe. So the thread writes neither before `main` has dealt with both outputs
-- nor after it has begun to close them.
pub Reach-dumping :
    {pid : ℤ} {wants : Bool} {s : Shared}
    → Reach pid wants s
    → s.dump ≡ dumping
    → s.main ≢ exited
    → (s.info_open ≡ true) × ((s.core ≡ opened) ⊎ (s.core ≡ stale))
Reach-dumping {pid} {wants} {s} r e m =
    let (info, core) =
      IsAllowed-dumping s.main s.dump s.owner (is_known s.pid) s.info_open s.core
        (Runs-IsAllowed r refl) e m in
    (info, is_held-cases s.core core)
