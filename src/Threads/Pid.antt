-- ===== src/Threads/Pid.antt =====
-- The identity of the process, which `main` polls and the dumping thread sets.
use crashinfo.Base.{zero, suc, ◌≡◌, ◌≢◌, refl, ◌∙◌, sym, ℤ, pos, negsuc}
use crashinfo.Threads.{
  all_fed, gave_up, spin, spun, core_stale, Shared, unset, named_pid, MainStep, lock, no_thread,
  create, feed_again, fed, proc_read, no_info, info_opened, no_core, core_opened, unlock, copied,
  join, join_none, core_closed, info_closed, notified, prepared, named, entered, left, dumped, Step,
  by, beside, Runs, done, next,
}

named_pid-known : (old result : ℤ) → old ≢ unset → named_pid old result ≡ old
named_pid-known (negsuc zero) result h = absurd (h refl)
named_pid-known (negsuc (suc n)) result h = refl
named_pid-known (pos n) result h = refl

MainStep-pid : {s t : Shared} → MainStep s t → t.pid ≡ s.pid
MainStep-pid (lock s m o) = refl
MainStep-pid (no_thread s m) = refl
MainStep-pid (create s m) = refl
MainStep-pid (feed_again s m u) = refl
MainStep-pid (all_fed s m) = refl
MainStep-pid (gave_up s m) = refl
MainStep-pid (fed s m u) = refl
MainStep-pid (spin s m u) = refl
MainStep-pid (spun s m u) = refl
MainStep-pid (proc_read s m) = refl
MainStep-pid (no_info s m) = refl
MainStep-pid (info_opened s m) = refl
MainStep-pid (no_core s m) = refl
MainStep-pid (core_opened s m) = refl
MainStep-pid (core_stale s m) = refl
MainStep-pid (unlock s m) = refl
MainStep-pid (copied s m) = refl
MainStep-pid (join s m d) = refl
MainStep-pid (join_none s m d) = refl
MainStep-pid (core_closed s m) = refl
MainStep-pid (info_closed s m) = refl
MainStep-pid (notified s m) = refl

Step-pid : {s t : Shared} → Step s t → s.pid ≢ unset → t.pid ≡ s.pid
Step-pid (by x) h = MainStep-pid x
Step-pid (beside r (prepared s result d w)) h = refl
Step-pid (beside r (named s result d)) h = named_pid-known s.pid result h
Step-pid (beside r (entered s d o)) h = refl
Step-pid (beside r (left s d)) h = refl
Step-pid (beside r (dumped s d)) h = refl

-- Once the identity of the process is known, or known not to be found, no run of the two threads
-- changes it: what `main` reads of it while it feeds the thread is what it reads afterwards, and an
-- identity given by an option is never replaced by the thread's.
pub Runs-pid : {s t : Shared} → Runs s t → s.pid ≢ unset → t.pid ≡ s.pid
Runs-pid done h = refl
Runs-pid (next {s} {t} x r) h = Runs-pid r (λ e. h (sym (Step-pid x h) ∙ e)) ∙ Step-pid x h
