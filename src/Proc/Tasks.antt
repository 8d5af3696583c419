-- ===== src/Proc/Tasks.antt =====
-- The map of process ids that the tasks of a process give, where their files are as Linux writes them.
use crashinfo.Base.{
  ℕ, ◌≤◌, true, ◌==◌, if◌then◌else◌, List, [], ◌∷◌, ◌++◌, ◌≡◌, refl, sym, ◌∙◌, ap, arith, Bytes,
  codes, Option, none, some, ℤ, pos, length, show, show_int, length-append, Bool-cases, inl, inr,
  All, append_assoc, append-nil,
}
use crashinfo.Log.{Priority}
use crashinfo.Filters.{Messages}
use crashinfo.Conf.Text.{starts_digit}
use crashinfo.Conf.Value.Stores.{to_int_small}
use crashinfo.Conf.Value.Numbers.{show_digit}
use crashinfo.Proc.{
  named_by_digit, PidPair, PidMap, read, tasks_loop, read_tasks, same_ℤ, Lookup, found, missing,
  uninitialised, pid_loop, proc_pid_map,
}
use crashinfo.Proc.Status.{LinuxThread, IsThread, tasks_of, pair_of, read_status-pair}

named_by_digit-starts : (s : Bytes) → named_by_digit s ≡ starts_digit 10 s
named_by_digit-starts [] = refl
named_by_digit-starts (c ∷ s) = refl

named_by_digit-show : (n : ℕ) → named_by_digit (show 10 n) ≡ true
named_by_digit-show n = named_by_digit-starts (show 10 n) ∙ show_digit n

abbrev pairs_of : List LinuxThread → List PidPair
pairs_of [] = []
pairs_of (t ∷ ts) = pair_of t ∷ pairs_of ts

-- Reading the directory adds the pairs of the threads, in order.
tasks_loop-pairs :
    (ts : List LinuxThread) (m : PidMap)
    → All IsThread ts
    → length m.entries ≤ m.count
    → tasks_loop (tasks_of ts) m
      ≡ read
          (record { entries = m.entries ++ pairs_of ts; count = length (m.entries ++ pairs_of ts) })
          []
unfolding tasks_loop
tasks_loop-pairs [] m _ h =
    ap (λ es. read (record { entries = es; count = length es }) []) (sym (append-nil m.entries))
tasks_loop-pairs (t ∷ ts) m (is, others) h =
    let (count, e, lt) = read_status-pair t is m h in
    let more : PidMap = record { entries = m.entries ++ pair_of t ∷ []; count = count } in
    rw (named_by_digit-show t.tid, tasks_loop, e)
      (tasks_loop-pairs ts more others (omega (arith, length-append m.entries (pair_of t ∷ []), lt))
        ∙ ap (λ es. read (record { entries = es; count = length es }) [])
            (append_assoc m.entries (pair_of t ∷ []) (pairs_of ts)))

-- The thread with the number `k` in the innermost namespace, by the order of the directory; a number
-- that no thread has stands for itself, with a warning.
abbrev pub thread_of : List LinuxThread → ℕ → ℤ × Messages
thread_of [] k = (pos k, (Priority.warning, codes "Failed to map NS pid " ++ show_int (pos k)) ∷ [])
thread_of (t ∷ ts) k = if t.nspid == k then (pos t.tid, []) else thread_of ts k

-- `thread_of` by what the loop finds.
abbrev answer : Lookup → ℕ → Option (ℤ × Messages)
answer (found pid) k = some (pid, [])
answer missing k = some (thread_of [] k)
answer uninitialised k = none

same_ℤ-pos : (a b : ℕ) → same_ℤ (pos a) (pos b) ≡ (a == b)
same_ℤ-pos a b = ground arith

pid_loop-thread_of :
    (ts : List LinuxThread) (k : ℕ)
    → All IsThread ts
    → answer (pid_loop (length (pairs_of ts)) (pairs_of ts) (pos k)) k ≡ some (thread_of ts k)
unfolding pid_loop
pid_loop-thread_of [] k _ = refl
pid_loop-thread_of (t ∷ ts) k (is, others) = elim (Bool-cases (t.nspid == k)) [
  | inl same ↦ rw (same_ℤ-pos t.nspid k, same, to_int_small t.tid is.small) refl
  | inr other ↦ rw (same_ℤ-pos t.nspid k, other) (pid_loop-thread_of ts k others)
]

proc_pid_map-answer :
    (m : PidMap) (k : ℕ) (r : Lookup)
    → pid_loop m.count m.entries (pos k) ≡ r
    → proc_pid_map m (pos k) ≡ answer r k
unfolding proc_pid_map
proc_pid_map-answer m k (found pid) e = rw (e, proc_pid_map) refl
proc_pid_map-answer m k missing e = rw (e, proc_pid_map) refl
proc_pid_map-answer m k uninitialised e = rw (e, proc_pid_map) refl

-- Where the files of the threads are as Linux writes them and memory does not run out, reading the
-- directory into an empty map succeeds, and the map then takes every number of the innermost namespace to the first thread that has
-- it; a number of no thread is kept, with a warning.
pub proc_pid_map-read_tasks :
    (ts : List LinuxThread) (k : ℕ)
    → All IsThread ts
    → (m : PidMap) × (read_tasks (tasks_of ts) (record { entries = []; count = 0 }) ≡ read m [])
      × (proc_pid_map m (pos k) ≡ some (thread_of ts k))
unfolding read_tasks
proc_pid_map-read_tasks ts k h =
    let empty : PidMap = record { entries = []; count = 0 } in
    let m : PidMap = record { entries = pairs_of ts; count = length (pairs_of ts) } in
    (
      m,
      tasks_loop-pairs ts empty h (omega arith),
      proc_pid_map-answer m k _ refl ∙ pid_loop-thread_of ts k h,
    )
