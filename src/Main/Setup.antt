-- ===== src/Main/Setup.antt =====
-- `disable_core_generation` of main.c. What the calls of the system give is an argument.
use crashinfo.Base.{
  if◌then◌else◌, ℕ, Bool, true, false, ◌||◌, List, [], ◌∷◌, ◌++◌, ◌≡◌, refl, ◌∙◌, ap, Bytes, codes,
  show, Option, none, some, Option-cases, inl, inr,
}
use crashinfo.Log.{Priority, LogConf, LogState, log_all}
use crashinfo.Log.Status.{Met, status, met_in, exitcode-log_all}
use crashinfo.Filters.{Messages}

-- SIGQUIT, SIGILL, SIGABRT, SIGFPE, SIGSEGV, SIGBUS, SIGSYS, SIGTRAP, SIGXCPU and SIGXFSZ of Linux.
abbrev pub core_signals : List ℕ
core_signals = 3 ∷ 4 ∷ 6 ∷ 8 ∷ 11 ∷ 7 ∷ 31 ∷ 5 ∷ 24 ∷ 25 ∷ []

-- What has become of the signals: those that `handler` catches, whether on the alternative stack, and
-- what was logged.
pub record Caught : Type 0 where
  pub signals : List ℕ
  pub on_stack : Bool
  pub messages : Messages

abbrev pub warned : Bytes → Caught → Caught
warned text c = record c { messages = (Priority.warning, text) ∷ c.messages }

-- The loop over the signals, with the error of `sigaction` for each, if it fails.
unfoldable pub catch_signals : (ℕ → Option Bytes) → Bool → List ℕ → Caught
catch_signals sigaction on_stack [] = record { signals = []; on_stack = on_stack; messages = [] }
catch_signals sigaction on_stack (s ∷ signals) =
    let later = catch_signals sigaction on_stack signals in
    elim (sigaction s) [
      | none ↦ record later { signals = s ∷ later.signals }
      | some error ↦
          warned
            (codes "Can't change action of the signal " ++ (show 10 s ++ (codes ": " ++ error)))
            later
    ]

-- With the error of `sigaltstack`, if it fails.
unfoldable pub disable_core_generation : Option Bytes → (ℕ → Option Bytes) → Caught
disable_core_generation none sigaction = catch_signals sigaction true core_signals
disable_core_generation (some error) sigaction =
    warned (codes "Can't configure alternative stack: " ++ error)
      (catch_signals sigaction false core_signals)

abbrev is_some : Option Bytes → Bool
is_some none = false
is_some (some t) = true

abbrev some_refused : (ℕ → Option Bytes) → List ℕ → Bool
some_refused sigaction [] = false
some_refused sigaction (s ∷ signals) = is_some (sigaction s) || some_refused sigaction signals

abbrev accepted : (ℕ → Option Bytes) → List ℕ → List ℕ
accepted sigaction [] = []
accepted sigaction (s ∷ signals) =
    let later = accepted sigaction signals in if is_some (sigaction s) then later else s ∷ later

abbrev only_warning : Bool → Met
only_warning b = record { emerg = false; alert = false; crit = false; error = false; warning = b }

catch_signals-met :
    (sigaction : ℕ → Option Bytes) (on_stack : Bool) (signals : List ℕ)
    → (met_in (catch_signals sigaction on_stack signals).messages
        ≡ only_warning (some_refused sigaction signals))
      × ((catch_signals sigaction on_stack signals).signals ≡ accepted sigaction signals)
unfolding catch_signals
catch_signals-met sigaction on_stack [] = (refl, refl)
catch_signals-met sigaction on_stack (s ∷ signals) =
    let (met, same) = catch_signals-met sigaction on_stack signals in
    elim (Option-cases (sigaction s)) [
      | inl done ↦ rw (done, catch_signals) (met, ap (λ t. s ∷ t) same)
      | inr (error, refused) ↦
          rw (refused, catch_signals) (ap (λ (m : Met). record m { warning = true }) met, same)
    ]

-- The handler takes each signal that makes a core and whose action can be changed, and no other; from
-- an exit code of 0, the exit code has the bit of a warning if and only if the alternative stack or one
-- of the signals was refused, and no other bit.
pub disable_core_generation-status :
    (alternative : Option Bytes) (sigaction : ℕ → Option Bytes) (c : LogConf) (s : LogState)
    → s.exitcode ≡ 0
    → ((disable_core_generation alternative sigaction).signals ≡ accepted sigaction core_signals)
      × ((log_all c (disable_core_generation alternative sigaction).messages s).exitcode
          ≡ status (only_warning (is_some alternative || some_refused sigaction core_signals)))
unfolding disable_core_generation
disable_core_generation-status none sigaction c s fresh =
    let (met, same) = catch_signals-met sigaction true core_signals in
    (
      same,
      exitcode-log_all c (disable_core_generation none sigaction).messages s fresh ∙ ap status met,
    )
disable_core_generation-status (some error) sigaction c s fresh =
    let (met, same) = catch_signals-met sigaction false core_signals in
    (
      same,
      exitcode-log_all c (disable_core_generation (some error) sigaction).messages s fresh
          ∙ ap (λ (m : Met). status (record m { warning = true })) met,
    )
