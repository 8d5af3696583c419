-- ===== src/Options.antt =====
-- The loop over the command line in `main` of main.c. The options that `getopt` finds, and what `fopen`
-- finds at a path, are arguments; what -h and an unknown option print is left out.
pub mod Ends
use crashinfo.Base.{
  ℕ, zero, Bool, true, false, not, ◌||◌, List, [], ◌∷◌, ◌++◌, Bytes, codes, ℤ, pos, negsuc, leb_ℤ,
  to_int, if◌then◌else◌, ◌⊎◌,
}
use crashinfo.Log.{Priority}
use crashinfo.Conf.Text.{strtol}
use crashinfo.Conf.Value.{M, ◌>>=◌, ◌>>◌, return, say}
use crashinfo.Conf.Line.{parse_line}
use crashinfo.Conf.File.{parse_file}

-- An option with its `optarg`; `unknown` is '?'.
pub data CommandOption : Type 0 where
  config_file directive_text process : Bytes → CommandOption
  help unknown : CommandOption

-- How an option or the loop ends: it goes on with `run.pid`, or `main` returns. `exit_logged` is
-- `return exitcode`.
pub data Next : Type 0 where
  goes_on : ℤ → Next
  exit_logged : Next
  exit_with : ℕ → Next

-- `if (parse_…(optarg)) return exitcode;`
abbrev pub unless_refused : ℤ → ℤ → Next
unless_refused pid (pos zero) = goes_on pid
unless_refused pid _ = exit_logged

abbrev is_unset : ℤ → Bool
is_unset (negsuc zero) = true
is_unset _ = false

abbrev no_end : Bytes → Bool
no_end [] = true
no_end _ = false

-- `case 'P'`
unfoldable pub set_pid : Bytes → ℤ → M Next
set_pid text pid =
    let (n, end) = strtol 10 text in
    let new_pid = to_int n in
    let refuse : M Next = (do
      say Priority.crit (codes "Invalid PID specified on the command line: " ++ text)
      return exit_logged) in
    let again : M (Unit {0}) = say Priority.info (codes "PID specified multiple times") in
    do
      if is_unset pid then return tt else again
      if not (no_end end) || leb_ℤ new_pid (pos 0) then refuse else return (goes_on new_pid)

module _ (files : Bytes → Bytes ⊎ Bytes) where
  unfoldable pub run_option : CommandOption → ℤ → M Next
  run_option (config_file path) pid = do
    failed ← parse_file path (files path)
    return (unless_refused pid failed)
  run_option (directive_text line) pid = do
    failed ← parse_line line
    return (unless_refused pid failed)
  run_option (process text) pid = set_pid text pid
  run_option help pid = return (exit_with 0)
  run_option unknown pid = return (exit_with 0x1f)

  abbrev after_option : (ℤ → M Next) → Next → M Next
  after_option rest (goes_on pid) = rest pid
  after_option rest exit = return exit

  unfoldable pub run_options : List CommandOption → ℤ → M Next
  run_options [] pid = return (goes_on pid)
  run_options (o ∷ os) pid = do next ← run_option o pid; after_option (run_options os) next
