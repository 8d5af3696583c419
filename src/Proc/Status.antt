-- ===== src/Proc/Status.antt =====
-- The file `status` of a task as Linux writes it, and the entry that it gives in the map of process ids.
use crashinfo.Base.{
  ℕ, zero, suc, ◌^◌, ◌≤◌, ◌<◌, Bool, true, false, ◌==◌, ltb, if◌then◌else◌, List, [], ◌∷◌, ◌++◌,
  ◌≡◌, refl, sym, ◌∙◌, ap, arith, Bytes, codes, none, some, pos, length, show, All-append,
  length-append, Bool-cases, inl, inr, All, append_assoc, append-nil,
}
use crashinfo.Conf.Text.{strtol, starts_digit, is_digit, digit_value}
use crashinfo.Conf.Text.Tokens.{Lacks}
use crashinfo.Conf.File.Lines.{text_of, fgets-append, c_string_text}
use crashinfo.Conf.Value.Numbers.{strtol-show_end}
use crashinfo.Conf.Value.Printed.{show-Lacks}
use crashinfo.Proc.{
  proc_max, starts_with, after_last, PidPair, PidMap, read, room, larger, store, nspid_text,
  nspid_line, status_loop, Task, read_status,
}

-- A thread: its number, and that in the innermost namespace. Its file has lines before and text behind
-- the one of its numbers, in which `levels` are those of the namespaces between. `memory`
-- says whether `realloc` gives the map more memory, if it is called then.
pub record LinuxThread : Type 0 where
  pub tid : ℕ
  pub nspid : ℕ
  pub before : List Bytes
  pub levels : Bytes
  pub after : Bytes
  pub memory : Bool

abbrev nspid_of : LinuxThread → Bytes
nspid_of t = codes "NSpid:" ++ (t.levels ++ b'\t' ∷ show 10 t.nspid)

abbrev pub status_of : LinuxThread → Bytes
status_of t = text_of t.before ++ (nspid_of t ++ b'\n' ∷ t.after)

abbrev pub task_of : LinuxThread → Task
task_of t = record { name = show 10 t.tid; status = inr (status_of t); memory = t.memory }

abbrev pub tasks_of : List LinuxThread → List Task
tasks_of [] = []
tasks_of (t ∷ ts) = task_of t ∷ tasks_of ts

-- A line that the buffer holds with its newline.
pub record FitsBuffer (line : Bytes) : Type 0 where
  pub one_line : Lacks b'\n' line
  pub text : Lacks 0 line
  pub short : length line < proc_max

-- One of the other lines.
abbrev pub OtherLine : Bytes → Type 0
OtherLine line = FitsBuffer line × (starts_with (codes "NSpid:") (line ++ codes "\n") ≡ false)

-- The file of a thread is as Linux writes it, its numbers are within C's types, and memory does not run
-- out while it is read.
pub record IsThread (t : LinuxThread) : Type 0 where
  pub small : t.tid < 2 ^ 31
  pub small_nspid : t.nspid < 2 ^ 31
  pub others : All OtherLine t.before
  pub line : FitsBuffer (nspid_of t)
  pub tabs : Lacks b' ' t.levels
  pub memory : t.memory ≡ true

after_last-none : (c : ℕ) (s : Bytes) → Lacks c s → after_last c s ≡ none
unfolding after_last
after_last-none c [] h = refl
after_last-none c (d ∷ s) (hd, hs) = rw (after_last-none c s hs, after_last) (ground arith)

after_last-append : (c : ℕ) (p s : Bytes) → Lacks c s → after_last c (p ++ c ∷ s) ≡ some s
unfolding after_last
after_last-append c [] s h = rw (after_last-none c s h, after_last) (ground arith)
after_last-append c (d ∷ p) s h = rw (after_last-append c p s h, after_last) refl

Lacks-append : (c : ℕ) (xs ys : Bytes) → Lacks c xs → Lacks c ys → Lacks c (xs ++ ys)
Lacks-append c = All-append (λ d. (d == c) ≡ false)

-- What `strtol` leaves is a newline, or nothing.
newline_stops : starts_digit 10 (codes "\n") ≡ false
unfolding is_digit digit_value
newline_stops = refl

strtol-name : (n : ℕ) → n < 2 ^ 63 → strtol 10 (show 10 n) ≡ (pos n, [])
strtol-name n h = ap (strtol 10) (sym (append-nil (show 10 n))) ∙ strtol-show_end n [] h refl

-- A map with room for what it has, and for one entry more.
room-Fits :
    (m : PidMap)
    → length m.entries ≤ m.count
    → (count : ℕ) × (room true m ≡ some (record m { count = count })) × (length m.entries < count)
unfolding room
room-Fits m h = elim (Bool-cases (length m.entries == m.count)) [
  | inl full ↦ (larger m.count, rw full refl, larger_lt m.count (length m.entries) (ground arith))
  | inr space ↦ (m.count, rw space refl, ground arith)
]
  where
    larger_lt : (count n : ℕ) → n ≡ count → n < larger count
    larger_lt zero n e = omega arith
    larger_lt (suc count) n e = omega arith

-- A round of the loop over the lines of a file.
status_loop_round :
    (name : Bytes) (fuel : ℕ) (line rest : Bytes) (m : PidMap)
    → FitsBuffer line
    → status_loop true name (suc fuel) (line ++ b'\n' ∷ rest) m ≡ (
        if starts_with (codes "NSpid:") (line ++ codes "\n")
        then nspid_line true name m (line ++ codes "\n")
        else status_loop true name fuel rest m)
unfolding status_loop
status_loop_round name fuel [] rest m fits =
    rw (fgets-append proc_max [] rest tt (omega arith), c_string_text [] tt) refl
status_loop_round name fuel (c ∷ line) rest m fits =
    rw
      (
        fgets-append proc_max (c ∷ line) rest fits.one_line fits.short,
        c_string_text (c ∷ line) fits.text,
      )
      refl

abbrev pub pair_of : LinuxThread → PidPair
pair_of t = record { pid = pos t.tid; nspid = pos t.nspid }

module _ (t : LinuxThread) (is : IsThread t) where
  -- The number behind the last tab, since the line has no space.
  nspid_text-line : nspid_text (nspid_of t ++ codes "\n") ≡ some (show 10 t.nspid ++ codes "\n")
  unfolding nspid_text
  nspid_text-line =
      rw (after_last-none b' ' (nspid_of t ++ codes "\n") spaceless, nspid_text)
        (ap (after_last b'\t') whole
          ∙ after_last-append b'\t' (codes "NSpid:" ++ t.levels) (show 10 t.nspid ++ codes "\n") (
              Lacks-append b'\t' (show 10 t.nspid) (codes "\n")
                (show-Lacks b'\t' t.nspid (omega arith)) (refl, tt)))
    where
      spaceless : Lacks b' ' (nspid_of t ++ codes "\n")
      spaceless =
          Lacks-append b' ' (nspid_of t) (codes "\n")
            (
              refl,
              (
                refl,
                (
                  refl,
                  (
                    refl,
                    (
                      refl,
                      (
                        refl,
                        Lacks-append b' ' t.levels _ is.tabs
                            (refl, show-Lacks b' ' t.nspid (omega arith)),
                      ),
                    ),
                  ),
                ),
              ),
            )
            (refl, tt)

      whole :
          nspid_of t ++ codes "\n"
          ≡ (codes "NSpid:" ++ t.levels) ++ b'\t' ∷ (show 10 t.nspid ++ codes "\n")
      whole =
          ap (λ r. codes "NSpid:" ++ r)
            (append_assoc t.levels (b'\t' ∷ show 10 t.nspid) (codes "\n"))

  -- The line of the numbers gives the entry of the thread.
  nspid_line-pair :
      (m : PidMap)
      → length m.entries ≤ m.count
      → (count : ℕ) × (nspid_line true (show 10 t.tid) m (nspid_of t ++ codes "\n")
          ≡ read (record { entries = m.entries ++ pair_of t ∷ []; count = count }) [])
        × (length m.entries < count)
  unfolding nspid_line store
  nspid_line-pair m h =
      let (count, e, lt) = room-Fits m h in
      let small = is.small in
      let small' = is.small_nspid in
      let space : ltb (length m.entries) count ≡ true = ground arith in
      (
        count,
        rw
            (
              nspid_text-line,
              nspid_line,
              e,
              store,
              space,
              strtol-show_end t.nspid (codes "\n") (omega arith) newline_stops,
              strtol-name t.tid (omega arith),
            )
            refl,
        lt,
      )

  status_loop-line :
      (name : Bytes) (before : List Bytes) (fuel : ℕ) (m : PidMap)
      → All OtherLine before
      → length (text_of before) < fuel
      → status_loop true name fuel (text_of before ++ (nspid_of t ++ b'\n' ∷ t.after)) m
        ≡ nspid_line true name m (nspid_of t ++ codes "\n")
  status_loop-line name before zero m others enough = absurd (omega arith)
  status_loop-line name [] (suc fuel) m others enough =
      status_loop_round name fuel (nspid_of t) t.after m is.line
  status_loop-line name (l ∷ ls) (suc fuel) m (other, others) enough =
      let tail = nspid_of t ++ b'\n' ∷ t.after in
      ap (λ file. status_loop true name (suc fuel) file m)
        (append_assoc l (b'\n' ∷ text_of ls) tail)
      ∙ status_loop_round name fuel l (text_of ls ++ tail) m other.0
      ∙ rw other.1 (
          status_loop-line name ls fuel m others
            (omega (arith, length-append l (b'\n' ∷ text_of ls), enough)))

  pub read_status-pair :
      (m : PidMap)
      → length m.entries ≤ m.count
      → (count : ℕ) × (read_status (task_of t) (inr (status_of t)) m
          ≡ read (record { entries = m.entries ++ pair_of t ∷ []; count = count }) [])
        × (length m.entries < count)
  unfolding read_status
  read_status-pair m h =
      let (count, e, lt) = nspid_line-pair m h in
      (
        count,
        rw is.memory (
            status_loop-line (show 10 t.tid) t.before (suc (length (status_of t))) m is.others
              (omega (arith, length-append (text_of t.before) (nspid_of t ++ b'\n' ∷ t.after)))
            ∙ e),
        lt,
      )
