-- ===== src/Threads/Ends.antt =====
-- How a run ends: from which states `main` can return, and in which the two threads are stuck.
use crashinfo.Base.{◌<◌, Bool, true, ◌≡◌, false, arith}
use crashinfo.Threads.{
  MainPc, creating, exited, DumpPc, preparing, Owner, Shared, Step, Runs, spinning, CoreOutput,
  unset,
}
use crashinfo.Threads.Rank.{dump_left, rank}
use crashinfo.Threads.Invariant.{allowed}

-- `main` may be waiting for a thread that waits for `main`.
abbrev is_blocked : MainPc → DumpPc → Bool
is_blocked spinning preparing = true
is_blocked _ _ = false

-- A step that brings the program nearer its end, to where it can go on.
abbrev Nearer : Shared → Type 0
Nearer s = (t : Shared) × Step s t × (rank t < rank s) × (is_blocked t.main t.dump ≡ false)

allowed-creating :
    (d : DumpPc) (o : Owner) (known info : Bool) (core : CoreOutput)
    → allowed creating d o known info core ≡ true
    → dump_left d ≡ 6
allowed-creating d o known info core h = ground arith

-- `main` has written the whole block, `run.pid` is not known, and `unw_prepare` reads more than that.
abbrev pub IsStuck : Shared → Type 0
IsStuck s = (s.main ≡ spinning) × (s.dump ≡ preparing) × (s.pid ≡ unset) × (s.wants ≡ true)

-- A state that `main` can return from.
abbrev pub MayExit : Shared → Type 0
MayExit s = (t : Shared) × Runs s t × (t.main ≡ exited)
