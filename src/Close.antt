-- ===== src/Close.antt =====
-- `close_output` of main.c. How each filter ends and where `fork` fails is an argument; the calls of the
-- system are recorded.
pub mod Endings
use crashinfo.Base.{
  ℕ, zero, suc, Bool, true, false, ◌==◌, if◌then◌else◌, List, [], ◌∷◌, ◌++◌, Bytes, codes, Option,
  none, some, show,
}
use crashinfo.Log.{Priority}
use crashinfo.Filters.{Filter, Messages}

-- What `waitpid` says of a filter: an exit code, a signal, an error with its text, or another change of
-- state.
pub data Fate : Type 0 where
  exited killed_by : ℕ → Fate
  lost : Bytes → Fate
  other_status : Fate

-- The calls, in order. `open_null` is that of /dev/null for a notification, and `start` is `spawn_proc`
-- with the file name as its first argument.
pub data Call : Type 0 where
  flush_stream close_stream open_null : Call
  sync close wait : ℕ → Call
  start : Bytes → Bytes → Call

-- `struct run_output_s`, with whether there is a stream, and no descriptor for a negative one.
pub record RunOutput : Type 0 where
  pub output : Bool
  pub output_fd : Option ℕ
  pub output_filename : Option Bytes
  pub filter : List Filter

-- SIGPIPE
abbrev pub sigpipe : ℕ
sigpipe = 13

abbrev quoted : Bytes → Bytes
quoted t = codes "'" ++ (t ++ codes "'")

-- A command to notify, with the error of `fork` if that fails for it.
abbrev pub Notice : Type 0
Notice = Bytes × Option Bytes

-- Whether the program is built with NDEBUG, and how each process ends that is waited for.
pub record Processes : Type 0 where
  pub ndebug : Bool
  pub fate : ℕ → Fate

-- What is logged for a filter. `none` is the assertion on a status that is neither an exit nor a
-- signal; NDEBUG leaves it out, and the debug message.
unfoldable pub fate_message : Bool → Bytes → Fate → Option Messages
fate_message ndebug filter (lost text) = some (
    (Priority.crit, codes "Waiting for filter " ++ (quoted filter ++ (codes " failed: " ++ text)))
    ∷ [])
fate_message ndebug filter (exited n) =
    if n == 0
    then some (
        if ndebug
        then []
        else (Priority.debug, codes "Filter " ++ (quoted filter ++ codes " ended successfully"))
          ∷ [])
    else some (
        (
          Priority.error,
          codes "Filter " ++ (quoted filter ++ (codes " failed with return code " ++ show 10 n)),
        )
        ∷ [])
fate_message ndebug filter (killed_by n) =
    if n == sigpipe
    then some (
        (
          Priority.warning,
          codes "Filter "
              ++ (quoted filter ++ codes " was terminated by SIGPIPE. Stream may be truncated."),
        )
        ∷ [])
    else some (
        (
          Priority.error,
          codes "Filter " ++ (quoted filter ++ (codes " was terminated by signal " ++ show 10 n)),
        )
        ∷ [])
fate_message ndebug filter other_status = if ndebug then some [] else none

-- A round of the loop over the filters, before the others.
abbrev pub waited : ℕ → Messages → Option (List Call × Messages) → Option (List Call × Messages)
waited pid said none = none
waited pid said (some (calls, messages)) = some (wait pid ∷ calls, said ++ messages)

-- The loop over the filters: the calls and the messages.
unfoldable pub wait_filters : Processes → List Filter → Option (List Call × Messages)
wait_filters p [] = some ([], [])
wait_filters p (f ∷ fs) = elim (fate_message p.ndebug f.filter (p.fate f.pid)) [
  | none ↦ none
  | some said ↦ waited f.pid said (wait_filters p fs)
]

-- The loop over `c->notify`.
unfoldable pub notify_all : List Notice → Bytes → List Call
notify_all [] name = []
notify_all ((command, error) ∷ notices) name =
    open_null ∷ start command name ∷ notify_all notices name

unfoldable pub notify : List Notice → Option Bytes → List Call
notify notices none = []
notify notices (some name) = notify_all notices name

-- What `spawn_proc` logs where `fork` fails.
abbrev pub fork_failed : Bytes → Bytes → Priority × Bytes
fork_failed command error =
    (Priority.crit, codes "Forking process " ++ (quoted command ++ (codes " failed: " ++ error)))

unfoldable pub fork_messages : List Notice → Messages
fork_messages [] = []
fork_messages ((command, none) ∷ notices) = fork_messages notices
fork_messages ((command, some error) ∷ notices) = fork_failed command error ∷ fork_messages notices

unfoldable pub notify_messages : List Notice → Option Bytes → Messages
notify_messages notices none = []
notify_messages notices (some name) = fork_messages notices

abbrev pub closing : Bool → ℕ → List Call
closing true fd = flush_stream ∷ sync fd ∷ close_stream ∷ []
closing false fd = sync fd ∷ close fd ∷ []

-- What is closed, waited for and started, with the messages.
abbrev pub finished :
    RunOutput
    → List Notice
    → List Call
    → Option (List Call × Messages)
    → Option (RunOutput × List Call × Messages)
finished r notices calls none = none
finished r notices calls (some (waits, messages)) = some (
  record r { output = false; output_fd = none },
  calls ++ (waits ++ notify notices r.output_filename),
  messages ++ notify_messages notices r.output_filename,
)

unfoldable pub close_output :
    Processes → List Notice → RunOutput → Option (RunOutput × List Call × Messages)
close_output p notices r = elim (r.output_fd) [
  | none ↦ some (r, [], [])
  | some fd ↦ finished r notices (closing r.output fd) (wait_filters p r.filter)
]
