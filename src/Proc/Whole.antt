-- ===== src/Proc/Whole.antt =====
-- `read_proc_info` of proc.c, from the parts that Proc has.
use crashinfo.Base.{
  zero, suc, List, [], ◌++◌, ◌≡◌, refl, ◌∙◌, arith, Bytes, codes, Option, none, some, ◌⊎◌, inl, inr,
  ℤ, pos, negsuc, length, All,
}
use crashinfo.Log.{Priority, log_all}
use crashinfo.Filters.{Messages}
use crashinfo.Conf.{Conf, get_maps}
use crashinfo.Conf.Value.{State, M, ◌>>=◌, ◌>>◌, return, say, modify}
use crashinfo.Conf.Value.Stores.{Plenty, Returns, Stored}
use crashinfo.Conf.File.Lines.{text_of}
use crashinfo.Proc.{Scanned, maps_loop, PidMap, Reading, read, malformed, crashed, Task, read_tasks}
use crashinfo.Proc.Maps.{MapsLine, mappings_of, add_maps, maps_loop-Stored}

-- What the directory of the process gives: the link `exe`, the file `maps`, and the directory `task`;
-- each of them may be the text of an error.
pub record ProcDir : Type 0 where
  pub exe : Bytes ⊎ Bytes
  pub maps : Bytes ⊎ Bytes
  pub tasks : Bytes ⊎ List Task

abbrev pub set_exe : Bytes → Conf → Conf
set_exe exe c = record c { proc = record (c.proc) { exe = some exe } }

unfoldable pub store_exe : Bytes ⊎ Bytes → M ℤ
store_exe (inl error) = do
  say Priority.crit (codes "Can't get executable path: " ++ error)
  return (negsuc 0)
store_exe (inr exe) = do modify (set_exe exe); return (pos 0)

unfoldable pub read_exe : Bytes ⊎ Bytes → Option Bytes → M ℤ
read_exe link none = store_exe link
read_exe link (some exe) = return (pos 0)

unfoldable pub read_maps : (Bytes → Option Scanned) → Bytes ⊎ Bytes → M ℤ
read_maps sscanf (inl error) = do
  say Priority.crit (codes "Can't open mappings: " ++ error)
  return (negsuc 0)
read_maps sscanf (inr file) = maps_loop sscanf (suc (length file)) file

-- The mappings are read where the configuration has none.
unfoldable pub maps_if_none : M ℤ → M ℤ
maps_if_none reading s = elim (get_maps s.conf) [ [] ↦ reading s | _ ↦ return (pos 0) s ]

-- The map that is left, with the result.
abbrev pub logged : Reading → M (ℤ × PidMap)
logged (read m messages) s = some ((pos 0, m), s)
logged (malformed m messages) s =
    some ((negsuc 0, m), record s { log = log_all s.conf.log messages s.log })
logged crashed s = none

unfoldable pub read_pids : Bytes → Bytes ⊎ List Task → PidMap → M (ℤ × PidMap)
read_pids path (inl error) m = do
  say Priority.error (codes "Can't open '" ++ (path ++ (codes "/task': " ++ error)))
  return (negsuc 0, m)
read_pids path (inr tasks) m = logged (read_tasks tasks m)

-- `if (...) return -1`
abbrev pub unless_failed : PidMap → M (ℤ × PidMap) → ℤ → M (ℤ × PidMap)
unless_failed m next (pos zero) = next
unless_failed m next _ = return (negsuc 0, m)

unfoldable pub read_proc_info : (Bytes → Option Scanned) → Bytes → ProcDir → PidMap → M (ℤ × PidMap)
read_proc_info sscanf path d m s =
    (read_exe d.exe s.conf.proc.exe
        >>= unless_failed m
            (maps_if_none (read_maps sscanf d.maps) >>= unless_failed m (read_pids path d.tasks m)))
      s

unless_failed-Stored :
    (m : PidMap) (next : M (ℤ × PidMap)) (s : State) (c : Conf) (P : ℤ × PidMap → State → Type 0)
    (o : Option (ℤ × State))
    → Returns o (Stored s c)
    → ((u : State) → u.conf ≡ c → Returns (next u) P)
    → Returns (((λ (_ : State). o) >>= unless_failed m next) s) P
unless_failed-Stored m next s c P none h rest = absurd h
unless_failed-Stored m next s c P (some (pos zero, u)) (z, is, q) rest = rest u is
unless_failed-Stored m next s c P (some (pos (suc n), u)) (z, is, q) rest = cc
unless_failed-Stored m next s c P (some (negsuc n, u)) (z, is, q) rest = cc

-- What reading the directory leaves: success, with the given map and configuration.
abbrev pub Read : PidMap → Conf → ℤ × PidMap → State → Type 0
Read m c r s = (r ≡ (pos 0, m)) × (s.conf ≡ c)

read_pids-Read :
    (path : Bytes) (tasks : List Task) (m m' : PidMap) (messages : Messages) (c : Conf) (u : State)
    → read_tasks tasks m ≡ read m' messages
    → u.conf ≡ c
    → Returns (read_pids path (inr tasks) m u) (Read m' c)
unfolding read_pids
read_pids-Read path tasks m m' messages c u reads is = rw (reads, read_pids) (refl, is)

maps_if_none-Stored :
    (reading : M ℤ) (s : State) (c : Conf)
    → get_maps s.conf ≡ []
    → Returns (reading s) (Stored s c)
    → Returns (maps_if_none reading s) (Stored s c)
unfolding maps_if_none
maps_if_none-Stored reading s c e h = rw (e, maps_if_none) h

get_maps-set_exe : (exe : Bytes) (c : Conf) → get_maps (set_exe exe c) ≡ get_maps c
unfolding get_maps
get_maps-set_exe exe c = refl

-- Where the executable and the mappings are not configured, and the files of the process can be read,
-- `read_proc_info` succeeds, if the allocations to come do: the configuration has the executable and
-- the mappings whose code can be executed, in order, and the map is that of the tasks.
pub read_proc_info-Read :
    (sscanf : Bytes → Option Scanned) (path exe : Bytes) (lines : List Bytes) (tasks : List Task)
    (m m' : PidMap) (messages : Messages) (s : State)
    → s.conf.proc.exe ≡ none
    → get_maps s.conf ≡ []
    → All (MapsLine sscanf) lines
    → read_tasks tasks m ≡ read m' messages
    → Plenty s
    → Returns
        (read_proc_info sscanf path
          (record { exe = inr exe; maps = inr (text_of lines); tasks = inr tasks })
          m
          s)
        (Read m' (add_maps (set_exe exe s.conf) (mappings_of sscanf lines)))
unfolding read_proc_info read_exe store_exe read_maps
read_proc_info-Read sscanf path exe lines tasks m m' messages s unset empty described reads p =
    let u : State = record s { conf = set_exe exe s.conf } in
    let c = add_maps (set_exe exe s.conf) (mappings_of sscanf lines) in
    rw (unset, read_exe)
      (unless_failed-Stored m (read_pids path (inr tasks) m) u c (Read m' c) _
        (maps_if_none-Stored (read_maps sscanf (inr (text_of lines))) u c
          (get_maps-set_exe exe s.conf ∙ empty)
          (maps_loop-Stored sscanf (suc (length (text_of lines))) lines u described (omega arith)
            p))
        (λ v is. read_pids-Read path tasks m m' messages c v reads is))
