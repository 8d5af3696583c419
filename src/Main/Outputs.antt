-- ===== src/Main/Outputs.antt =====
-- `main` of main.c from the opening of the outputs on, and what `open_output` leaves in `struct
-- run_output_s`, with the label `err0`. What the calls of the system give is an argument.
pub mod Calls
pub mod Closing
use crashinfo.Base.{
  ℕ, Bool, true, false, List, [], ◌∷◌, ◌++◌, Bytes, codes, Option, none, some, ◌⊎◌,
}
use crashinfo.Log.{Priority}
use crashinfo.Filters.{
  Messages, Answers, Trace, no_trace, Chain, running, broken, not_begun, open_filters,
}
use crashinfo.Output.{Ending, opened, failed, spent}
use crashinfo.Close.{Notice, Processes, fork_messages, Call, RunOutput, close_output}

-- What an output asks of the system behind its file: the first pipe, those of the rounds, and what
-- `open_devnull` gives at `err0`.
pub record Supply : Type 0 where
  pub first : Bytes ⊎ (ℕ × ℕ)
  pub rounds : ℕ → Answers
  pub null : Option ℕ

abbrev pub unused : Option ℕ → Option Bytes → RunOutput
unused fd name = record { output = false; output_fd = fd; output_filename = name; filter = [] }

-- The output behind its filters, and the trace of these.
abbrev pub end_chain : Option ℕ → Option Bytes → Chain → RunOutput × Trace
end_chain null name (running fd filters t) =
    (record (unused (some fd) name) { filter = filters }, t)
end_chain null name (broken t) = (unused null name, t)
end_chain null name (not_begun fd t) = (unused (some fd) name, t)

-- `open_output` behind its first half; no result is the end of the fuel.
unfoldable pub end_output :
    {S : Type 0} → Supply → List Bytes → Ending S → Option ((RunOutput × Trace) × Messages)
end_output a filters (opened fd name s ms) =
    some (end_chain a.null name (open_filters a.first a.rounds filters fd), ms)
end_output a filters (failed s ms) = some ((unused a.null none, no_trace), ms)
end_output a filters spent = none

-- What `main` does: the calls for its two outputs, the copying of the core up to the end of the
-- thread, and `spawn_proc` with both names, between `open_devnull` and the `close` of what it gives.
pub data MainCall : Type 0 where
  info_call core_call : Call → MainCall
  copy null_opened null_closed : MainCall
  start_both : Bytes → Bytes → Bytes → MainCall

abbrev pub each : (Call → MainCall) → List Call → List MainCall
each f [] = []
each f (c ∷ cs) = f c ∷ each f cs

-- The loop over `conf.info_core_notify`.
unfoldable pub both_all : List Notice → Bytes → Bytes → List MainCall
both_all [] info core = []
both_all ((command, error) ∷ notices) info core =
    null_opened ∷ start_both command info core ∷ null_closed ∷ both_all notices info core

unfoldable pub notify_both : List Notice → Option Bytes → Option Bytes → List MainCall
notify_both notices (some info) (some core) = both_all notices info core
notify_both notices _ _ = []

unfoldable pub both_messages : List Notice → Option Bytes → Option Bytes → Messages
both_messages notices (some info) (some core) = fork_messages notices
both_messages notices _ _ = []

abbrev pub Closed : Type 0
Closed = Option (RunOutput × List Call × Messages)

-- `err1`
abbrev pub at_err1 : Messages → Closed → Option (List MainCall × Messages)
at_err1 ms none = none
at_err1 ms (some (r, calls, messages)) = some (each info_call calls, ms ++ messages)

-- The end of `main`, behind the two calls of `close_output`.
abbrev pub at_end : List Notice → Closed → Closed → Option (List MainCall × Messages)
at_end notices (some (core, calls, messages)) (some (info, calls', messages')) = some (
  copy
      ∷ (each core_call calls
          ++ (each info_call calls'
              ++ notify_both notices info.output_filename core.output_filename)),
  messages ++ (messages' ++ both_messages notices info.output_filename core.output_filename),
)
at_end notices _ _ = none

-- The commands to notify, of the document, of the core, and of both.
pub record Notified : Type 0 where
  pub info : List Notice
  pub core : List Notice
  pub both : List Notice

module _ (p : Processes) (n : Notified) where
  -- With the two outputs as `open_output` leaves them, and the error of `fdopen` if it fails.
  unfoldable pub outputs : RunOutput → Option Bytes → RunOutput → Option (List MainCall × Messages)
  outputs info stream core = elim (info.output_fd) [
    | none ↦ some ([], [])
    | some fd ↦ elim stream [
      | some error ↦
          at_err1 ((Priority.crit, codes "Failed to open output: " ++ error) ∷ [])
            (close_output p n.info info)
      | none ↦
          let info' : RunOutput = record info { output = true } in
          elim (core.output_fd) [
            | none ↦ at_err1 [] (close_output p n.info info')
            | some fd' ↦ at_end n.both (close_output p n.core core) (close_output p n.info info')
          ]
    ]
  ]

  -- The same on what the two calls of `open_output` come to; the second one is made only where the
  -- stream of the document is open.
  abbrev pub open_and_close :
      Option ((RunOutput × Trace) × Messages)
      → Option Bytes
      → Option ((RunOutput × Trace) × Messages)
      → Option (List MainCall × Messages)
  open_and_close (some ((info, t), ms)) stream (some ((core, t'), ms')) = outputs info stream core
  open_and_close _ _ _ = none
