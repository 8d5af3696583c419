-- ===== src/Threads.antt =====
-- The two threads of main.c: `main` from `pthread_mutex_lock` on, and `info_dump_thread`. A step is a
-- call, or what stands between two calls that the other thread can tell apart.
pub mod Invariant
pub mod Rank
pub mod Ends
pub mod Pid
use crashinfo.Base.{
  ◌⊎◌, ℕ, zero, suc, Bool, true, false, ◌≡◌, ◌≢◌, Option, none, some, ℤ, pos, negsuc,
}

-- Where `main` is. In `spinning` it feeds the thread and has written the whole block. `exited` is a
-- `return` of it, which ends the other thread too.
pub data MainPc : Type 0 where
  started creating feeding spinning reading opening_info opening_core unlocking copying joining
        closing_core :
      MainPc
  closing_info notifying exited : MainPc

-- Where the dumping thread is: it has not been created, is in `unw_prepare`, has its result, is at
-- `pthread_mutex_lock`, at `pthread_mutex_unlock`, in `info_dump`, or has returned.
pub data DumpPc : Type 0 where
  absent preparing waiting holding dumping finished : DumpPc
  naming : ℤ → DumpPc

-- What has become of `run.core.output_fd`: `stale` is a descriptor that `open_output` has closed and
-- left there, where the first pipe for the filters cannot be had.
pub data CoreOutput : Type 0 where
  unopened opened stale closed : CoreOutput

-- Who holds `dump_lock`.
pub data Owner : Type 0 where
  nobody by_main by_dump : Owner

-- The two threads and what they share: `dump_lock`, `run.pid`, whether `run.info.output` is open, and
-- `run.core.output_fd`. `wants` says that `unw_prepare` reads more than the first block of the core.
pub record Shared : Type 0 where
  pub main : MainPc
  pub dump : DumpPc
  pub owner : Owner
  pub pid : ℤ
  pub info_open : Bool
  pub core : CoreOutput
  pub wants : Bool

-- `run.pid` is -1 where it is not known.
abbrev pub unset : ℤ
unset = negsuc 0

-- `pid < 0 ? -2 : pid`
abbrev pub found_pid : ℤ → ℤ
found_pid (pos n) = pos n
found_pid (negsuc n) = negsuc 1

-- `if (run.pid == -1) run.pid = ...`
abbrev pub named_pid : ℤ → ℤ → ℤ
named_pid (negsuc zero) result = found_pid result
named_pid old result = old

-- `main` copies the core to the pipe, or has done so and closed it.
abbrev pub passes_more : MainPc → Bool
passes_more copying = true
passes_more joining = true
passes_more closing_core = true
passes_more closing_info = true
passes_more notifying = true
passes_more _ = false

-- A step of `main`. `gave_up` is a first read that gives nothing, an error of the pipe, or the last
-- attempt to write to it, with bytes left. `no_thread` is a pipe or a thread that cannot be created,
-- and `join` with no thread one that `pthread_join` refuses.
pub data MainStep : Shared → Shared → Type 0 where
  lock :
      (s : Shared)
      → s.main ≡ started
      → s.owner ≡ nobody
      → MainStep s (record s { main = creating; owner = by_main })
  no_thread : (s : Shared) → s.main ≡ creating → MainStep s (record s { main = reading })
  create :
      (s : Shared) → s.main ≡ creating → MainStep s (record s { main = feeding; dump = preparing })
  feed_again : (s : Shared) → s.main ≡ feeding → s.pid ≡ unset → MainStep s s
  all_fed : (s : Shared) → s.main ≡ feeding → MainStep s (record s { main = spinning })
  gave_up : (s : Shared) → s.main ≡ feeding → MainStep s (record s { main = reading })
  fed : (s : Shared) → s.main ≡ feeding → s.pid ≢ unset → MainStep s (record s { main = reading })
  spin : (s : Shared) → s.main ≡ spinning → s.pid ≡ unset → MainStep s s
  spun : (s : Shared) → s.main ≡ spinning → s.pid ≢ unset → MainStep s (record s { main = reading })
  proc_read : (s : Shared) → s.main ≡ reading → MainStep s (record s { main = opening_info })
  no_info : (s : Shared) → s.main ≡ opening_info → MainStep s (record s { main = exited })
  info_opened :
      (s : Shared)
      → s.main ≡ opening_info
      → MainStep s (record s { main = opening_core; info_open = true })
  no_core :
      (s : Shared)
      → s.main ≡ opening_core
      → MainStep s (record s { main = exited; info_open = false })
  core_opened :
      (s : Shared)
      → s.main ≡ opening_core
      → MainStep s (record s { main = unlocking; core = opened })
  core_stale :
      (s : Shared)
      → s.main ≡ opening_core
      → MainStep s (record s { main = unlocking; core = stale })
  unlock :
      (s : Shared) → s.main ≡ unlocking → MainStep s (record s { main = copying; owner = nobody })
  copied : (s : Shared) → s.main ≡ copying → MainStep s (record s { main = joining })
  join :
      (s : Shared)
      → s.main ≡ joining
      → s.dump ≡ finished
      → MainStep s (record s { main = closing_core })
  join_none :
      (s : Shared)
      → s.main ≡ joining
      → s.dump ≡ absent
      → MainStep s (record s { main = closing_core })
  core_closed :
      (s : Shared)
      → s.main ≡ closing_core
      → MainStep s (record s { main = closing_info; core = closed })
  info_closed :
      (s : Shared)
      → s.main ≡ closing_info
      → MainStep s (record s { main = notifying; info_open = false })
  notified : (s : Shared) → s.main ≡ notifying → MainStep s (record s { main = exited })

-- A step of the dumping thread. `unw_prepare` returns once it has what it
-- reads, which where it wants more than the first block `main` passes on behind `unlock` only.
pub data DumpStep : Shared → Shared → Type 0 where
  prepared :
      (s : Shared) (result : ℤ)
      → s.dump ≡ preparing
      → (s.wants ≡ false) ⊎ (passes_more s.main ≡ true)
      → DumpStep s (record s { dump = naming result })
  named :
      (s : Shared) (result : ℤ)
      → s.dump ≡ naming result
      → DumpStep s (record s { dump = waiting; pid = named_pid s.pid result })
  entered :
      (s : Shared)
      → s.dump ≡ waiting
      → s.owner ≡ nobody
      → DumpStep s (record s { dump = holding; owner = by_dump })
  left : (s : Shared) → s.dump ≡ holding → DumpStep s (record s { dump = dumping; owner = nobody })
  dumped : (s : Shared) → s.dump ≡ dumping → DumpStep s (record s { dump = finished })

-- A step of the program.
pub data Step : Shared → Shared → Type 0 where
  by : {s t : Shared} → MainStep s t → Step s t
  beside : {s t : Shared} → s.main ≢ exited → DumpStep s t → Step s t

abbrev pub at_lock : ℤ → Bool → Shared
at_lock pid wants = record {
  main = started;
  dump = absent;
  owner = nobody;
  pid = pid;
  info_open = false;
  core = unopened;
  wants = wants;
}

-- A run of the program from one state to another.
pub data Runs : Shared → Shared → Type 0 where
  done : {s : Shared} → Runs s s
  next : {s t u : Shared} → Step s t → Runs t u → Runs s u

-- How many steps of a run do more than poll `run.pid`.
abbrev pub moves : {s t : Shared} → Runs s t → ℕ
moves done = 0
moves (next (by (feed_again s m u)) r) = moves r
moves (next (by (spin s m u)) r) = moves r
moves (next x r) = suc (moves r)

-- What the program comes to, where `run.pid` is `pid` when `main` comes to the lock.
abbrev pub Reach : ℤ → Bool → Shared → Type 0
Reach pid wants s = Runs (at_lock pid wants) s
