-- ===== src/Tests/ThreadTests.antt =====
-- The theorems on the two threads in runs of the program.
use crashinfo.Base.{◌⊎◌, inl, true, false, ◌≡◌, refl, pos}
use crashinfo.Threads.{
  feeding, copying, waiting, nobody, by_main, dumping, Shared, lock, create, prepared, named, fed,
  proc_read, info_opened, core_opened, unlock, entered, left, Runs, done, next, by, beside, Reach,
  unset, spinning, preparing, all_fed, unopened, opened, stale,
}
use crashinfo.Threads.Invariant.{Reach-dumping}
use crashinfo.Threads.Pid.{Runs-pid}
use crashinfo.Threads.Ends.{IsStuck}

abbrev polling : Shared
polling = record {
  main = feeding;
  dump = waiting;
  owner = by_main;
  pid = pos 7;
  info_open = false;
  core = unopened;
  wants = false;
}

abbrev in_dump : Shared
in_dump = record {
  main = copying;
  dump = dumping;
  owner = nobody;
  pid = pos 7;
  info_open = true;
  core = opened;
  wants = false;
}

-- The thread names the process while `main` feeds it, and is let past the lock when both outputs are open.
from_polling : Runs polling in_dump
from_polling = next (by (fed _ refl (λ e. cc))) (
    next (by (proc_read _ refl)) (
      next (by (info_opened _ refl)) (
        next (by (core_opened _ refl)) (
          next (by (unlock _ refl)) (
            next (beside (λ e. cc) (entered _ refl refl))
              (next (beside (λ e. cc) (left _ refl)) done))))))

dumping_run : Reach unset false in_dump
dumping_run = next (by (lock _ refl refl)) (
    next (by (create _ refl)) (
      next (beside (λ e. cc) (prepared _ (pos 7) refl (inl refl)))
        (next (beside (λ e. cc) (named _ (pos 7) refl)) from_polling)))

Reach-dumping_example : (true ≡ true) × ((opened ≡ opened) ⊎ (opened ≡ stale))
Reach-dumping_example = Reach-dumping dumping_run refl (λ e. cc)

Runs-pid_example : pos 7 ≡ pos 7
Runs-pid_example = Runs-pid from_polling (λ e. cc)

-- Where the unwinder needs more than the first block, the program may come to be stuck.
abbrev for_ever : Shared
for_ever = record {
  main = spinning;
  dump = preparing;
  owner = by_main;
  pid = unset;
  info_open = false;
  core = unopened;
  wants = true;
}

for_ever_test : Reach unset true for_ever × IsStuck for_ever
for_ever_test = (
  next (by (lock _ refl refl)) (next (by (create _ refl)) (next (by (all_fed _ refl)) done)),
  (refl, refl, refl, refl),
)
