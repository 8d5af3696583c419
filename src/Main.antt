-- ===== src/Main.antt =====
-- `main` of main.c before it opens the outputs: the core that it reads, and the directory of the
-- process. What the calls of the system give is an argument.
pub mod Setup
pub mod Path
pub mod Outputs
pub mod Reading
use crashinfo.Base.{
  ℕ, zero, suc, Bool, if◌then◌else◌, List, [], ◌∷◌, ◌++◌, Bytes, codes, ℤ, pos, negsuc, show_int,
  Option, none, some, take, ◌⊎◌, inl, inr,
}
use crashinfo.Log.{Priority}
use crashinfo.Filters.{Messages}
use crashinfo.Conf.{StrSlot, set_str}
use crashinfo.Conf.Value.{M, ◌>>=◌, ◌>>◌, return, say, modify}
use crashinfo.Conf.Dump.{log_conf}
use crashinfo.Proc.{Scanned, PidMap}
use crashinfo.Proc.Whole.{ProcDir, read_proc_info}

-- The lines that are built without NDEBUG only: `log_dbg` and `log_conf`.
abbrev pub shown_conf : Bool → Bytes → M (Unit {0})
shown_conf ndebug text =
    let shown : M (Unit {0}) = (do say Priority.debug text; log_conf) in
    if ndebug then return tt else shown

-- What `open` returns for the core, with the text of `errno`. Descriptor 0 has been closed before.
unfoldable pub open_core : (Bytes → ℤ × Bytes) → Option Bytes → M (Unit {0})
open_core opening none = return tt
open_core opening (some path) = elim ((opening path).0) [
  | pos zero ↦ return tt
  | _ ↦
      say Priority.crit
        (codes "Failed to open core '" ++ (path ++ (codes "': " ++ (opening path).1)))
]

-- `snprintf` into `proc_path`, which has room for 16 bytes with the terminator.
unfoldable pub pid_path : ℤ → Bytes
pid_path pid = take 15 (codes "/proc/" ++ (show_int pid ++ codes "/"))

-- `conf.proc.path` behind the test of `run.pid`.
unfoldable pub choose_path : Option Bytes → ℤ → Option Bytes
choose_path (some path) pid = some path
choose_path none (pos (suc n)) = some (pid_path (pos (suc n)))
choose_path none _ = none

-- What follows `read_proc_info`; the map of the process ids is the result.
unfoldable pub after_reading : Bool → Bytes → ℤ × PidMap → M PidMap
after_reading ndebug path (pos zero, m) = do
  shown_conf ndebug (codes "Configuration after reading " ++ (path ++ codes ":"))
  return m
after_reading ndebug path (_, m) = do
  say Priority.error (codes "Failed to read /proc info")
  return m

-- `if (!conf.proc.ignore)`
abbrev pub if_wanted : ℤ → M PidMap → PidMap → M PidMap
if_wanted (pos zero) reading m = reading
if_wanted _ reading m = return m

module _ (dirs : Bytes → Bytes ⊎ ProcDir) (sscanf : Bytes → Option Scanned) (ndebug : Bool) where
  -- With a path, at which there is an error or a directory.
  unfoldable pub read_path : Option Bytes → PidMap → M PidMap
  read_path none m = do say Priority.error (codes "Can't determine /proc path"); return m
  read_path (some path) m = elim (dirs path) [
    | inl error ↦ (do
      say Priority.error (codes "Can't open proc directory '" ++ (path ++ (codes "': " ++ error)))
      return m)
    | inr dir ↦ (do result ← read_proc_info sscanf path dir m; after_reading ndebug path result)
  ]

  abbrev set_path : Option Bytes → M (Unit {0})
  set_path path = modify (set_str StrSlot.proc_path path)

  -- The information from /proc, with `run.pid`.
  unfoldable pub read_proc : ℤ → PidMap → M PidMap
  read_proc pid m s =
      let path = choose_path s.conf.proc.path pid in
      if_wanted s.conf.proc.ignore (do set_path path; read_path path m) m s
