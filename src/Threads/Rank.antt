-- ===== src/Threads/Rank.antt =====
-- How many steps the two threads are from their end at most.
use crashinfo.Base.{ℕ, ◌+◌, ◌<◌, ◌≤◌, arith}
use crashinfo.Threads.{
  MainPc, started, creating, feeding, reading, opening_info, opening_core, unlocking, copying,
  joining, closing_core, closing_info, notifying, exited, DumpPc, absent, preparing, naming,
  waiting, holding, dumping, finished, Shared, MainStep, lock, create, fed, proc_read, no_info,
  info_opened, no_core, core_opened, unlock, copied, join, join_none, core_closed, info_closed,
  notified, DumpStep, prepared, named, entered, left, dumped, by, beside, Runs, done, next, moves,
  no_thread, feed_again, spinning, all_fed, gave_up, spin, spun, core_stale,
}
use crashinfo.Threads.Invariant.{IsAllowed, Step-IsAllowed}

-- How many steps `main` is from its end at most, but for those that leave it where it is.
abbrev pub main_left : MainPc → ℕ
main_left started = 13
main_left creating = 12
main_left feeding = 11
main_left spinning = 10
main_left reading = 9
main_left opening_info = 8
main_left opening_core = 7
main_left unlocking = 6
main_left copying = 5
main_left joining = 4
main_left closing_core = 3
main_left closing_info = 2
main_left notifying = 1
main_left exited = 0

abbrev pub dump_left : DumpPc → ℕ
dump_left absent = 6
dump_left preparing = 5
dump_left (naming result) = 4
dump_left waiting = 3
dump_left holding = 2
dump_left dumping = 1
dump_left finished = 0

abbrev pub rank : Shared → ℕ
rank s = main_left s.main + dump_left s.dump

MainStep-rank :
    {s t u : Shared} (x : MainStep s t) (r : Runs t u)
    → IsAllowed s
    → moves r ≤ rank t
    → moves (next (by x) r) ≤ rank s
MainStep-rank (lock s m o) r h b = ground arith
MainStep-rank (no_thread s m) r h b = ground arith
MainStep-rank (create s m) r h b = ground arith
MainStep-rank (feed_again s m u) r h b = b
MainStep-rank (all_fed s m) r h b = ground arith
MainStep-rank (gave_up s m) r h b = ground arith
MainStep-rank (fed s m u) r h b = ground arith
MainStep-rank (spin s m u) r h b = b
MainStep-rank (spun s m u) r h b = ground arith
MainStep-rank (proc_read s m) r h b = ground arith
MainStep-rank (no_info s m) r h b = ground arith
MainStep-rank (info_opened s m) r h b = ground arith
MainStep-rank (no_core s m) r h b = ground arith
MainStep-rank (core_opened s m) r h b = ground arith
MainStep-rank (core_stale s m) r h b = ground arith
MainStep-rank (unlock s m) r h b = ground arith
MainStep-rank (copied s m) r h b = ground arith
MainStep-rank (join s m d) r h b = ground arith
MainStep-rank (join_none s m d) r h b = ground arith
MainStep-rank (core_closed s m) r h b = ground arith
MainStep-rank (info_closed s m) r h b = ground arith
MainStep-rank (notified s m) r h b = ground arith

DumpStep-rank : {s t : Shared} → DumpStep s t → rank t < rank s
DumpStep-rank (prepared s result d w) = ground arith
DumpStep-rank (named s result d) = ground arith
DumpStep-rank (entered s d o) = ground arith
DumpStep-rank (left s d) = ground arith
DumpStep-rank (dumped s d) = ground arith

pub moves-le-rank : {s t : Shared} (r : Runs s t) → IsAllowed s → moves r ≤ rank s
moves-le-rank done h = omega arith
moves-le-rank (next (by x) r) h = MainStep-rank x r h (moves-le-rank r (Step-IsAllowed (by x) h))
moves-le-rank (next (beside e x) r) h =
    omega (arith, DumpStep-rank x, moves-le-rank r (Step-IsAllowed (beside e x) h))
