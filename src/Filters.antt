-- ===== src/Filters.antt =====
-- The filters of an output in main.c: the end of `open_output`, from its label `opened` on, and
-- `close_output`. What the system answers is an argument; the calls made are recorded.
pub mod Descriptors
use crashinfo.Base.{
  ℕ, zero, suc, Bool, true, false, ◌==◌, if◌then◌else◌, List, [], ◌∷◌, ◌++◌, Bytes, codes, Option,
  none, some, show, ◌⊎◌, inl, inr,
}
use crashinfo.Log.{Priority}

abbrev pub Messages : Type 0
Messages = List (Priority × Bytes)

-- `struct run_multi_filter_s`
pub record Filter : Type 0 where
  pub filter : Bytes
  pub pid : ℕ

-- What the system answers in a round of the loop: the two ends of a pipe, and the process that `fork`
-- starts; each may be an error with its text, as may `malloc` be.
pub record Answers : Type 0 where
  pub pipe : Bytes ⊎ (ℕ × ℕ)
  pub memory : Option Bytes
  pub child : Bytes ⊎ ℕ

-- The descriptors that were opened and closed, the processes that were killed, and what was logged.
pub record Trace : Type 0 where
  pub opened : List ℕ
  pub closed : List ℕ
  pub killed : List ℕ
  pub messages : Messages

abbrev pub no_trace : Trace
no_trace = record { opened = []; closed = []; killed = []; messages = [] }

-- How the chain ends: running, with the descriptor to write to; broken down, behind `err1`; or not
-- begun, where `open_output` returns -1 and leaves the closed descriptor in `output_fd`.
pub data Chain : Type 0 where
  running : ℕ → List Filter → Trace → Chain
  broken : Trace → Chain
  not_begun : ℕ → Trace → Chain

unfoldable pub opens : ℕ → ℕ → Trace → Trace
opens r w t = record t { opened = t.opened ++ r ∷ w ∷ [] }

unfoldable pub closes : List ℕ → Trace → Trace
closes fds t = record t { closed = t.closed ++ fds }

unfoldable pub logs : Priority → Bytes → Trace → Trace
logs p text t = record t { messages = t.messages ++ (p, text) ∷ [] }

-- The loop of `err1`, which takes the filters from the front.
unfoldable pub kill_all : List Filter → Trace → Trace
kill_all [] t = t
kill_all (f ∷ fs) t = kill_all fs (record t {
  killed = t.killed ++ f.pid ∷ [];
  messages =
      t.messages
      ++ (
        Priority.debug,
        codes "Killing " ++ (show 10 f.pid ++ (codes ": '" ++ (f.filter ++ codes "'"))),
      )
        ∷ [];
})

-- `err1`, with the descriptors that it closes.
unfoldable pub break_down : ℕ → ℕ → ℕ → List Filter → Trace → Chain
break_down output_fd next_infd next_outfd filters t =
    broken (closes (output_fd ∷ next_infd ∷ next_outfd ∷ []) (kill_all filters t))

abbrev pub is_last : List Bytes → Bool
is_last [] = true
is_last _ = false

-- The end of a round, behind the choice of `infd` and `outfd`; `next` is the round behind it.
unfoldable pub start_filter :
    Answers
    → Bytes
    → ℕ
    → ℕ
    → ℕ
    → ℕ
    → ℕ
    → List Filter
    → Trace
    → (List Filter → Trace → Chain)
    → Chain
start_filter a command infd outfd output_fd next_infd next_outfd filters t next = elim a.memory [
  | some error ↦
      break_down output_fd next_infd next_outfd filters
        (logs Priority.error (codes "Can't allocate memory for the filter: " ++ error) t)
  | none ↦ elim a.child [
    | inl error ↦ break_down output_fd next_infd next_outfd filters (
        logs Priority.crit (codes "Forking process '" ++ (command ++ (codes "' failed: " ++ error)))
          t)
    | inr pid ↦
        next (filters ++ record { filter = command; pid = pid } ∷ []) (closes (infd ∷ outfd ∷ []) t)
  ]
]

-- The loop over `c->filter`, with the number of the round.
unfoldable pub chain_loop : (ℕ → Answers) → ℕ → List Bytes → ℕ → ℕ → ℕ → List Filter → Trace → Chain
chain_loop answers n [] output_fd next_infd next_outfd filters t = running output_fd filters t
chain_loop answers n (command ∷ commands) output_fd next_infd next_outfd filters t =
    let rest = chain_loop answers (suc n) commands output_fd in
    elim (is_last commands) [
      | true ↦
          start_filter (answers n) command next_infd next_outfd output_fd next_infd next_outfd
            filters t (rest next_infd next_outfd)
      | false ↦ elim ((answers n).pipe) [
        | inl error ↦
            break_down output_fd next_infd next_outfd filters
              (logs Priority.error (codes "Can't create filter pipe: " ++ error) t)
        | inr (r, w) ↦
            start_filter (answers n) command next_infd w output_fd r next_outfd filters
              (opens r w t) (rest r next_outfd)
      ]
    ]

-- `open_output` from `opened` on, with the descriptor `fd` of the file and the first pipe.
unfoldable pub open_filters : Bytes ⊎ (ℕ × ℕ) → (ℕ → Answers) → List Bytes → ℕ → Chain
open_filters first answers [] fd = running fd [] no_trace
open_filters (inl error) answers (command ∷ commands) fd =
    not_begun fd (
      closes (fd ∷ []) (logs Priority.error (codes "Can't create filter pipe: " ++ error) no_trace))
open_filters (inr (r, w)) answers (command ∷ commands) fd =
    chain_loop answers 0 (command ∷ commands) w r fd [] (opens r w no_trace)
