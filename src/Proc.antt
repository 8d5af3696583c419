-- ===== src/Proc.antt =====
-- proc.c: what is read from the directory of the process. What opening a file gives is an argument.
pub mod Maps
pub mod Pids
pub mod Open
pub mod Status
pub mod Tasks
pub mod Whole
use crashinfo.Base.{
  ℕ, zero, suc, ◌+◌, ◌*◌, Bool, true, false, ◌&&◌, ◌==◌, ltb, leb, if◌then◌else◌, List, [], ◌∷◌,
  ◌++◌, Bytes, codes, Option, none, some, ◌⊎◌, inl, inr, ℤ, pos, negsuc, leb_ℤ, to_int, show_int,
  show_hex, length, drop, take,
}
use crashinfo.Log.{Priority}
use crashinfo.Conf.Text.{is_digit, cut_at, strtol}
use crashinfo.Conf.Value.{State, M, ◌>>=◌, ◌>>◌, return, undefined, say}
use crashinfo.Conf.Line.{parse_line}
use crashinfo.Conf.File.{fgets, c_string}
use crashinfo.Filters.{Messages}

-- `sizeof buf - 1`
abbrev pub proc_max : ℕ
proc_max = 4351

-- What `sscanf` stores for a line of `maps`, where it gives 3.
pub record Scanned : Type 0 where
  pub addr : ℕ
  pub exec : ℕ
  pub tmp : ℕ
  pub file : ℕ

abbrev pub mapping_prefix : Scanned → Bytes
mapping_prefix s = codes "proc_maps=" ++ (show_hex s.addr ++ codes ":")

-- The end of a round over `maps`, after `parse_line`, which has cut the line at its `=`.
abbrev pub after_mapping : M ℤ → ℤ → M ℤ
after_mapping next (pos zero) = next
after_mapping next _ = do
  say Priority.error (codes "Failed to parse 'proc_maps'")
  return (negsuc 0)

-- A mapping that can be executed, of a file.
abbrev pub is_mapped : Scanned → Bool
is_mapped s = s.exec == b'x' && s.tmp == b'/'

-- A line that `sscanf` takes apart. `undefined` is the assertion.
unfoldable pub take_mapping : Scanned → Bytes → M ℤ → M ℤ
take_mapping s line next =
    let text = mapping_prefix s ++ drop s.file line in
    if is_mapped s
    then (if ltb (length (mapping_prefix s)) s.file
        then (parse_line text >>= after_mapping next)
        else undefined)
    else next

unfoldable pub maps_line : Option Scanned → Bytes → M ℤ → M ℤ
maps_line none line next = next
maps_line (some s) line next = take_mapping s line next

-- The loop over `maps`, on fuel above its length.
unfoldable pub maps_loop : (Bytes → Option Scanned) → ℕ → Bytes → M ℤ
maps_loop sscanf zero file = undefined
maps_loop sscanf (suc fuel) [] = return (pos 0)
maps_loop sscanf (suc fuel) (c ∷ file) =
    let (line, rest) = fgets proc_max (c ∷ file) in
    maps_line (sscanf (c_string line)) (c_string line) (maps_loop sscanf fuel rest)

-- An entry of `pidmap`.
pub record PidPair : Type 0 where
  pub pid : ℤ
  pub nspid : ℤ

-- `pidmap`, with the entries written and `pidmap_count`.
pub record PidMap : Type 0 where
  pub entries : List PidPair
  pub count : ℕ

-- How the reading of a file or of the directory ends. `undefined` is a write through a null pointer or
-- past the memory of `pidmap`.
pub data Reading : Type 0 where
  read malformed : PidMap → Messages → Reading
  crashed : Reading

abbrev pub starts_with : Bytes → Bytes → Bool
starts_with [] s = true
starts_with (p ∷ prefix) [] = false
starts_with (p ∷ prefix) (c ∷ s) = p == c && starts_with prefix s

-- What stands behind the last `c`: `strrchr(s, c) + 1`.
unfoldable pub after_last : ℕ → Bytes → Option Bytes
after_last c [] = none
after_last c (d ∷ s) =
    let here : Option Bytes = if c == d then some s else none in
    elim (after_last c s) [ none ↦ here | some t ↦ some t ]

unfoldable pub nspid_text : Bytes → Option Bytes
nspid_text line = elim (after_last b' ' line) [ none ↦ after_last b'\t' line | some t ↦ some t ]

-- `pidmap_count * 2 ?: 32`
abbrev pub larger : ℕ → ℕ
larger zero = 32
larger (suc n) = suc n * 2

-- The memory of the map where the next entry is to be written; `none` where `realloc` fails.
unfoldable pub room : Bool → PidMap → Option PidMap
room memory m =
    let grown : Option PidMap =
      if memory then some (record m { count = larger m.count }) else none in
    if length m.entries == m.count then grown else some m

abbrev pub at_newline : Bytes → Bool
at_newline [] = false
at_newline (c ∷ s) = c == b'\n'

abbrev pub at_end : Bytes → Bool
at_end [] = true
at_end (c ∷ s) = false

abbrev pub bad_line : Bytes → PidMap → Reading
bad_line line m =
    malformed m ((Priority.notice, codes "Malformed line '" ++ (line ++ codes "'")) ∷ [])

-- The entry for a task, where there is room.
unfoldable pub store : Bytes → Bytes → Bytes → Option PidMap → Reading
store name line text none = crashed
store name line text (some m) =
    let (nspid, end) = strtol 10 text in
    let (pid, end') = strtol 10 name in
    let written = record m { entries = m.entries ++ record { pid = pid; nspid = nspid } ∷ [] } in
    if ltb (length m.entries) m.count
    then (if at_newline end
        then (if at_end end' then read written [] else bad_line line m)
        else bad_line line m)
    else crashed

unfoldable pub nspid_line : Bool → Bytes → PidMap → Bytes → Reading
nspid_line memory name m line = elim (nspid_text line) [
  | none ↦ bad_line line m
  | some text ↦ store name line text (room memory m)
]

-- The loop over the lines of `status`, on fuel above its length.
unfoldable pub status_loop : Bool → Bytes → ℕ → Bytes → PidMap → Reading
status_loop memory name zero file m = crashed
status_loop memory name (suc fuel) [] m = read m []
status_loop memory name (suc fuel) (c ∷ file) m =
    let (line, rest) = fgets proc_max (c ∷ file) in
    let later = status_loop memory name fuel rest m in
    if starts_with (codes "NSpid:") (c_string line)
    then nspid_line memory name m (c_string line)
    else later

-- An entry of the directory `task`: its name, what opening its `status` gives, and whether there is
-- memory.
pub record Task : Type 0 where
  pub name : Bytes
  pub status : Bytes ⊎ Bytes
  pub memory : Bool

abbrev pub named_by_digit : Bytes → Bool
named_by_digit [] = false
named_by_digit (c ∷ s) = is_digit 10 c

unfoldable pub read_status : Task → Bytes ⊎ Bytes → PidMap → Reading
read_status t (inl error) m =
    malformed m (
      (Priority.error, codes "Can't open 'task/" ++ (t.name ++ (codes "/status': " ++ error))) ∷ [])
read_status t (inr file) m = status_loop t.memory t.name (suc (length file)) file m

-- The round behind a task.
abbrev pub go_on : Reading → (PidMap → Reading) → Reading
go_on (read m messages) next = next m
go_on (malformed m messages) next = malformed m messages
go_on crashed next = crashed

-- The loop over the directory, and `pidmap_count = c` behind it.
unfoldable pub tasks_loop : List Task → PidMap → Reading
tasks_loop [] m = read (record m { count = length m.entries }) []
tasks_loop (t ∷ tasks) m =
    let skip = tasks_loop tasks m in
    let take = go_on (read_status t t.status m) (λ m'. tasks_loop tasks m') in
    if named_by_digit t.name then take else skip

-- Reading the directory starts at the first entry, `c = 0`, with the memory that the map has.
unfoldable pub read_tasks : List Task → PidMap → Reading
read_tasks tasks m = tasks_loop tasks (record m { entries = [] })

-- What the loop of `proc_pid_map` gives. `uninitialised` is a read of an entry that was not written.
pub data Lookup : Type 0 where
  found : ℤ → Lookup
  missing uninitialised : Lookup

abbrev pub same_ℤ : ℤ → ℤ → Bool
same_ℤ a b = leb_ℤ a b && leb_ℤ b a

unfoldable pub pid_loop : ℕ → List PidPair → ℤ → Lookup
pid_loop zero entries nspid = missing
pid_loop (suc n) [] nspid = uninitialised
pid_loop (suc n) (p ∷ entries) nspid =
    let later = pid_loop n entries nspid in
    if same_ℤ p.nspid nspid then found (to_int p.pid) else later

unfoldable pub proc_pid_map : PidMap → ℤ → Option (ℤ × Messages)
proc_pid_map m nspid = elim (pid_loop m.count m.entries nspid) [
  | found pid ↦ some (pid, [])
  | missing ↦ some (nspid, (Priority.warning, codes "Failed to map NS pid " ++ show_int nspid) ∷ [])
  | uninitialised ↦ none
]
