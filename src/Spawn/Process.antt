-- ===== src/Spawn/Process.antt =====
-- `spawn_proc` of main.c, in the parent and in the child. What `fork` and `execvp` do is an argument;
-- `strdup` succeeds.
use crashinfo.Base.{
  ℕ, Bool, if◌then◌else◌, List, [], ◌∷◌, ◌++◌, ◌-◌, ◌≤◌, ◌≡◌, refl, Bytes, codes, ℤ, pos, negsuc,
  Option, none, some, take, length,
}
use crashinfo.Log.{Priority}
use crashinfo.Filters.{Messages}
use crashinfo.Conf.Text.{skip_delim}
use crashinfo.Spawn.{argv, next_token, seen}
use crashinfo.Spawn.Arguments.{words, argv-words, argv_null}

-- What `fork` gives: an error with its text, the child, or the parent with the child's pid.
pub data Forked : Type 0 where
  failed : Bytes → Forked
  child : Forked
  parent : ℕ → Forked

-- How it ends: `spawn_proc` returns; the process is another program, with its standard input, its
-- standard output and its arguments; it exits; or it reads a null pointer.
pub data Spawned : Type 0 where
  returns : ℤ → Messages → Spawned
  executes : ℕ → ℕ → List (Option Bytes) → Messages → Spawned
  exits : ℕ → Messages → Spawned
  crashes : Messages → Spawned

abbrev quoted : Bytes → Bytes
quoted t = codes "'" ++ (t ++ codes "'")

-- `exe` as a string, once `strtok` has put a terminator behind its first word.
unfoldable pub cut_exe : Bytes → Bytes
cut_exe cmd = elim ((next_token cmd).0) [
  | none ↦ cmd
  | some token ↦ take (length cmd - length (skip_delim cmd)) cmd ++ token
]

-- `log_dbg`, which is built without NDEBUG only.
abbrev pub starting : Bool → Bytes → Messages
starting ndebug cmd =
    if ndebug then [] else (Priority.debug, codes "Starting program " ++ quoted cmd) ∷ []

module _ (ndebug : Bool) (execvp : List (Option Bytes) → Option Bytes) (cmd : Bytes)
    (infd outfd : ℕ) where
  -- The child, with what it makes of the command; `execvp` returns with an error only.
  abbrev run_child : Option (List (Option Bytes)) → Spawned
  run_child none = crashes (starting ndebug cmd)
  run_child (some args) = elim (execvp args) [
    | none ↦ executes infd outfd args (starting ndebug cmd)
    | some error ↦ exits 1 (
        starting ndebug cmd
        ++ (
          Priority.crit,
          codes "Starting executable " ++ (quoted (cut_exe cmd) ++ (codes " failed: " ++ error)),
        )
          ∷ [])
  ]

  unfoldable pub spawn_proc : Forked → Option Bytes → Option Bytes → Spawned
  spawn_proc (failed error) arg1 arg2 = returns (negsuc 0) (
      (Priority.crit, codes "Forking process " ++ (quoted cmd ++ (codes " failed: " ++ error)))
      ∷ [])
  spawn_proc child arg1 arg2 = run_child (argv cmd arg1 arg2)
  spawn_proc (parent pid) arg1 arg2 = returns (pos pid) []

  -- The child of a filter becomes the program of the command, if that can be executed, with the pipes
  -- as its standard input and output and the words of the command, 31 at most, as its arguments.
  pub spawn_proc-words :
      ((args : List (Option Bytes)) → execvp args ≡ none)
      → (args : List (Option Bytes)) × (spawn_proc child none none
          ≡ executes infd outfd args (starting ndebug cmd))
        × (seen args ≡ take 31 (words cmd))
  unfolding spawn_proc
  spawn_proc-words accepts =
      let (args, is, sees) = argv-words cmd in (args, rw (is, accepts args, run_child) refl, sees)

  -- The child of a notification never becomes that program: it reads a null pointer before, unless
  -- the command has more than 30 words.
  pub spawn_proc-crashes :
      (arg1 : Bytes) (arg2 : Option Bytes)
      → length (words cmd) ≤ 30
      → spawn_proc child (some arg1) arg2 ≡ crashes (starting ndebug cmd)
  unfolding spawn_proc
  spawn_proc-crashes arg1 arg2 few = rw (argv_null arg1 arg2 cmd few) refl
