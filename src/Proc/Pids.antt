-- ===== src/Proc/Pids.antt =====
-- The map of process ids.
use crashinfo.Base.{
  ℕ, zero, suc, ◌≤◌, ◌<◌, true, false, ◌==◌, ltb, List, [], ◌∷◌, ◌++◌, ◌≡◌, ◌≢◌, refl, sym, ap,
  arith, Bytes, codes, Option, none, some, ℤ, pos, negsuc, pos_part, neg_part, to_int, length,
  length-append, Option-cases, Bool-cases, inl, inr, ◌⊎◌, subst, All,
}
use crashinfo.Conf.File.{fgets, c_string}
use crashinfo.Conf.File.Total.{fgets_progress}
use crashinfo.Conf.Text.{strtol}
use crashinfo.Filters.{Messages}
use crashinfo.Proc.{
  proc_max, at_newline, at_end, starts_with, named_by_digit, PidPair, PidMap, Reading, read,
  malformed, crashed, room, larger, store, nspid_text, nspid_line, status_loop, Task, read_status,
  tasks_loop, read_tasks, same_ℤ, go_on, Lookup, found, missing, uninitialised, pid_loop,
  proc_pid_map,
}

-- The entries written are within the memory of the map.
abbrev Fits : Reading → Type 0
Fits (read m messages) = length m.entries ≤ m.count
Fits (malformed m messages) = length m.entries ≤ m.count
Fits crashed = ⊥

store-Fits :
    (name line text : Bytes) (m : PidMap)
    → length m.entries < m.count
    → Fits (store name line text (some m))
unfolding store
store-Fits name line text m h =
    let room_left : ltb (length m.entries) m.count ≡ true = ground arith in
    let one_more =
      length-append m.entries
        (record { pid = (strtol 10 name).0; nspid = (strtol 10 text).0 } ∷ []) in
    rw room_left (elim (Bool-cases (at_newline (strtol 10 text).1)) [
      | inl line_end ↦ elim (Bool-cases (at_end (strtol 10 name).1)) [
        | inl name_end ↦ rw (line_end, name_end) (omega (arith, one_more, h))
        | inr more ↦ rw (line_end, more) (omega (arith, h))
      ]
      | inr more ↦ rw more (omega (arith, h))
    ])

nspid_line-Fits :
    (name line : Bytes) (m : PidMap)
    → length m.entries ≤ m.count
    → Fits (nspid_line true name m line)
unfolding nspid_line room
nspid_line-Fits name line m h = elim (Option-cases (nspid_text line)) [
  | inl bare ↦ rw (bare, nspid_line) h
  | inr (text, e) ↦
      rw (e, nspid_line)
        (elim (Bool-cases (length m.entries == m.count)) [
          | inl full ↦ rw full (
              store-Fits name line text (record m { count = larger m.count })
                (larger_lt m.count (length m.entries) (ground arith)))
          | inr space ↦ rw space (store-Fits name line text m (ground arith))
        ])
]
  where
    larger_lt : (count n : ℕ) → n ≡ count → n < larger count
    larger_lt zero n e = omega arith
    larger_lt (suc count) n e = omega arith

status_loop-Fits :
    (name : Bytes) (fuel : ℕ) (file : Bytes) (m : PidMap)
    → length file < fuel
    → length m.entries ≤ m.count
    → Fits (status_loop true name fuel file m)
unfolding status_loop
status_loop-Fits name zero file m enough h = absurd (omega arith)
status_loop-Fits name (suc fuel) [] m enough h = h
status_loop-Fits name (suc fuel) (c ∷ file) m enough h =
    elim (Bool-cases (starts_with (codes "NSpid:") (c_string (fgets proc_max (c ∷ file)).0))) [
      | inl here ↦ rw here (nspid_line-Fits name (c_string (fgets proc_max (c ∷ file)).0) m h)
      | inr other ↦ rw other (
          status_loop-Fits name fuel (fgets proc_max (c ∷ file)).1 m
            (omega (arith, enough, fgets_progress 4350 c file)) h)
    ]

read_status-Fits :
    (t : Task) (status : Bytes ⊎ Bytes) (m : PidMap)
    → t.memory ≡ true
    → length m.entries ≤ m.count
    → Fits (read_status t status m)
unfolding read_status
read_status-Fits t (inl error) m memory h = h
read_status-Fits t (inr file) m memory h =
    rw memory (status_loop-Fits t.name (suc (length file)) file m (omega arith) h)

-- Every entry that may be read is written, once the whole directory has been read.
abbrev pub Filled : Reading → Type 0
Filled (read m messages) = length m.entries ≡ m.count
Filled (malformed m messages) = length m.entries ≤ m.count
Filled crashed = ⊥

go_on-Filled :
    (r : Reading) (next : PidMap → Reading)
    → Fits r
    → ((m : PidMap) → length m.entries ≤ m.count → Filled (next m))
    → Filled (go_on r next)
go_on-Filled (read m messages) next fits h = h m fits
go_on-Filled (malformed m messages) next fits h = fits
go_on-Filled crashed next fits h = elim fits [ ]

-- If memory does not run out, reading the directory writes no entry past the memory of the map, however
-- the files of the tasks read; once it is read, the entries counted are those written, and where it
-- is not, there may be more.
tasks_loop-Filled :
    (tasks : List Task) (m : PidMap)
    → All (λ t. t.memory ≡ true) tasks
    → length m.entries ≤ m.count
    → Filled (tasks_loop tasks m)
unfolding tasks_loop
tasks_loop-Filled [] m memory h = refl
tasks_loop-Filled (t ∷ tasks) m (memory, others) h = elim (Bool-cases (named_by_digit t.name)) [
  | inl taken ↦ rw taken (
      go_on-Filled (read_status t t.status m) (λ m'. tasks_loop tasks m')
        (read_status-Fits t t.status m memory h) (λ m' h'. tasks_loop-Filled tasks m' others h'))
  | inr skipped ↦ rw skipped (tasks_loop-Filled tasks m others h)
]

read_tasks-Filled :
    (tasks : List Task) (m : PidMap)
    → All (λ t. t.memory ≡ true) tasks
    → Filled (read_tasks tasks m)
unfolding read_tasks
read_tasks-Filled tasks m memory =
    tasks_loop-Filled tasks (record m { entries = [] }) memory (omega arith)

same_ℤ_eq : (a b : ℤ) → same_ℤ a b ≡ true → a ≡ b
same_ℤ_eq (pos a) (pos b) h = ground arith
same_ℤ_eq (pos a) (negsuc b) h = ground arith
same_ℤ_eq (negsuc a) (pos b) h = ground arith
same_ℤ_eq (negsuc a) (negsuc b) h = ground arith

same_ℤ_ne : (a b : ℤ) → same_ℤ a b ≡ false → a ≢ b
same_ℤ_ne (pos a) (pos b) h e = ground (arith, ap pos_part e)
same_ℤ_ne (pos a) (negsuc b) h e = ground (arith, ap neg_part e)
same_ℤ_ne (negsuc a) (pos b) h e = ground (arith, ap neg_part e)
same_ℤ_ne (negsuc a) (negsuc b) h e = ground (arith, ap neg_part e)

-- `pid` is that of the first entry with the given `nspid`.
abbrev pub FirstOf : List PidPair → ℤ → ℤ → Type 0
FirstOf entries nspid pid =
    (before : List PidPair) × (p : PidPair) × (after : List PidPair) × (entries
      ≡ before ++ p ∷ after)
    × (p.nspid ≡ nspid)
    × (pid ≡ to_int p.pid)
    × All (λ q. q.nspid ≢ nspid) before

-- How a search ends: with the first entry, or with none of them.
abbrev Search : List PidPair → ℤ → Lookup → Type 0
Search entries nspid (found pid) = FirstOf entries nspid pid
Search entries nspid missing = All (λ q. q.nspid ≢ nspid) entries
Search entries nspid uninitialised = ⊥

Search-cons :
    (p : PidPair) (entries : List PidPair) (nspid : ℤ) (r : Lookup)
    → p.nspid ≢ nspid
    → Search entries nspid r
    → Search (p ∷ entries) nspid r
Search-cons p entries nspid (found pid) h (before, q, after, e, same, is, others) =
    (p ∷ before, q, after, ap (λ t. p ∷ t) e, same, is, (h, others))
Search-cons p entries nspid missing h others = (h, others)
Search-cons p entries nspid uninitialised h others = elim others [ ]

pid_loop-Search :
    (entries : List PidPair) (nspid : ℤ)
    → Search entries nspid (pid_loop (length entries) entries nspid)
unfolding pid_loop
pid_loop-Search [] nspid = tt
pid_loop-Search (p ∷ entries) nspid = elim (Bool-cases (same_ℤ p.nspid nspid)) [
  | inl same ↦ rw same ([], p, entries, refl, same_ℤ_eq p.nspid nspid same, refl, tt)
  | inr other ↦ rw other (
      Search-cons p entries nspid (pid_loop (length entries) entries nspid)
        (same_ℤ_ne p.nspid nspid other) (pid_loop-Search entries nspid))
]

-- What `proc_pid_map` gives: the pid of the first entry, or the number asked for if there is none.
abbrev pub Mapped : List PidPair → ℤ → Option (ℤ × Messages) → Type 0
Mapped entries nspid none = ⊥
Mapped entries nspid (some (pid, messages)) =
    FirstOf entries nspid pid ⊎ ((pid ≡ nspid) × All (λ q. q.nspid ≢ nspid) entries)

Mapped-Search :
    (m : PidMap) (nspid : ℤ) (r : Lookup)
    → pid_loop m.count m.entries nspid ≡ r
    → Search m.entries nspid r
    → Mapped m.entries nspid (proc_pid_map m nspid)
unfolding proc_pid_map
Mapped-Search m nspid (found pid) e h = rw (e, proc_pid_map) (inl h)
Mapped-Search m nspid missing e h = rw (e, proc_pid_map) (inr (refl, h))
Mapped-Search m nspid uninitialised e h = elim h [ ]

-- Once the directory has been read, asking for any number reads entries that were written only, and
-- gives the pid of the first task that has it in its namespace, or the number itself if none has.
pub proc_pid_map-Mapped :
    (tasks : List Task) (m m' : PidMap) (messages : Messages) (nspid : ℤ)
    → All (λ t. t.memory ≡ true) tasks
    → read_tasks tasks m ≡ read m' messages
    → Mapped m'.entries nspid (proc_pid_map m' nspid)
proc_pid_map-Mapped tasks m m' messages nspid memory reads =
    let filled : length m'.entries ≡ m'.count =
      subst (λ r. Filled r) reads (read_tasks-Filled tasks m memory) in
    Mapped-Search m' nspid (pid_loop (length m'.entries) m'.entries nspid)
      (ap (λ n. pid_loop n m'.entries nspid) (sym filled)) (pid_loop-Search m'.entries nspid)
