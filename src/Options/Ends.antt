-- ===== src/Options/Ends.antt =====
-- How the loop over the command line ends.
use crashinfo.Base.{
  ℕ, zero, suc, Bool, true, false, not, ◌||◌, List, [], ◌∷◌, ◌++◌, ◌≡◌, ◌≢◌, ◌⊎◌, inl, inr, refl,
  ap, arith, Bytes, codes, ℤ, pos, negsuc, pos_part, neg_part, leb_ℤ, Option, none, some,
  Bool-cases, if◌then◌else◌, to_int,
}
use crashinfo.Log.{Priority}
use crashinfo.Conf.Text.{strtol}
use crashinfo.Conf.Value.{State, M, ◌>>=◌, ◌>>◌, return, say}
use crashinfo.Conf.Value.Exit.{IsStatus, Honest, Act-crit, Quiet-say}
use crashinfo.Conf.Line.{parse_line}
use crashinfo.Conf.Line.Defined.{parse_line-Defined}
use crashinfo.Conf.Line.Exit.{parse_line-Honest}
use crashinfo.Conf.File.{parse_file}
use crashinfo.Conf.File.Exit.{parse_file-Act}
use crashinfo.Conf.File.Total.{parse_file-Total}
use crashinfo.Options.{
  CommandOption, config_file, directive_text, process, help, unknown, Next, goes_on, exit_logged,
  exit_with, unless_refused, is_unset, no_end, set_pid, run_option, after_option, run_options,
}

-- How an option or the loop ends: there is a result, with an exit code of documented bits, which is
-- not 0 where `main` returns it. Where the loop goes on, `A` holds, and where `main` returns another
-- number, `B` does.
abbrev pub Concludes : (ℤ → State → Type 0) → (ℕ → Type 0) → Option (Next × State) → Type 0
Concludes A B none = ⊥
Concludes A B (some (goes_on pid, s)) = IsStatus s.log.exitcode × A pid s
Concludes A B (some (exit_logged, s)) = IsStatus s.log.exitcode × (s.log.exitcode ≢ 0)
Concludes A B (some (exit_with n, s)) = IsStatus s.log.exitcode × B n

-- A positive number, with nothing behind it.
abbrev pub IsPid : Bytes → ℤ → Type 0
IsPid text n =
    (n ≡ to_int (strtol 10 text).0) × (no_end (strtol 10 text).1 ≡ true) × (leb_ℤ n (pos 0) ≡ false)

refused-Settled :
    (A : ℤ → State → Type 0) (B : ℕ → Type 0) (r pid : ℤ) (s : State)
    → Honest (some (r, s))
    → (r ≡ pos 0 → A pid s)
    → Concludes A B (some (unless_refused pid r, s))
refused-Settled A B (pos zero) pid s (sound, h) a = (sound, a refl)
refused-Settled A B (pos (suc n)) pid s (sound, inl e) a = absurd (omega (arith, ap pos_part e))
refused-Settled A B (pos (suc n)) pid s (sound, inr h) a = (sound, h)
refused-Settled A B (negsuc n) pid s (sound, inl e) a = absurd (omega (arith, ap neg_part e))
refused-Settled A B (negsuc n) pid s (sound, inr h) a = (sound, h)

parsed-Settled :
    (A : ℤ → State → Type 0) (B : ℕ → Type 0) (m : M ℤ) (pid : ℤ) (s : State)
    → m s ≢ none
    → Honest (m s)
    → ((t : State) → m s ≡ some (pos 0, t) → A pid t)
    → Concludes A B ((m >>= λ failed. return (unless_refused pid failed)) s)
parsed-Settled A B m pid s total honest accepted = of_result (m s) total honest accepted
  where
    of_result :
        (o : Option (ℤ × State))
        → o ≢ none
        → Honest o
        → ((t : State) → o ≡ some (pos 0, t) → A pid t)
        → Concludes A B (((λ (_ : State). o) >>= λ failed. return (unless_refused pid failed)) s)
    of_result none total honest accepted = absurd (total refl)
    of_result (some (r, s')) total honest accepted =
        refused-Settled A B r pid s' honest (λ e. accepted s' (ap (λ x. some (x, s')) e))

refuse-Settled :
    (A : ℤ → State → Type 0) (B : ℕ → Type 0) (text : Bytes) (s : State)
    → IsStatus s.log.exitcode
    → Concludes A B ((say Priority.crit text >> return exit_logged) s)
refuse-Settled A B text s h =
    let (sound, left) = Act-crit text (pos 1) s h in
    elim left [ inl e ↦ absurd (omega (arith, ap pos_part e)) | inr ne ↦ (sound, ne) ]

chosen-Settled :
    (A : ℤ → State → Type 0) (B : ℕ → Type 0) (refused : Bool) (text : Bytes) (pid : ℤ) (s : State)
    → IsStatus s.log.exitcode
    → (refused ≡ false → A pid s)
    → Concludes A B (
        (if refused
            then (say Priority.crit (codes "Invalid PID specified on the command line: " ++ text)
                >> return exit_logged)
            else return (goes_on pid))
          s)
chosen-Settled A B true text pid s h a = refuse-Settled A B _ s h
chosen-Settled A B false text pid s h a = (h, a refl)

-- `A` holds of the pid, and the configuration is what it was.
abbrev Numbered : Bytes → State → ℤ → State → Type 0
Numbered text s n t = IsPid text n × (t.conf ≡ s.conf)

set_pid-Settled :
    (text : Bytes) (pid : ℤ) (s : State)
    → IsStatus s.log.exitcode
    → Concludes (Numbered text s) (λ n. ⊥) (set_pid text pid s)
unfolding set_pid
set_pid-Settled text pid s h =
    let new_pid = to_int (strtol 10 text).0 in
    let refused = not (no_end (strtol 10 text).1) || leb_ℤ new_pid (pos 0) in
    let valid : refused ≡ false → IsPid text new_pid = λ e. (refl, ground arith, ground arith) in
    elim (Bool-cases (is_unset pid)) [
      | inl fresh ↦
          rw (fresh, set_pid)
            (chosen-Settled (Numbered text s) (λ n. ⊥) refused text new_pid s h
              (λ e. (valid e, refl)))
      | inr set ↦
          rw (set, set_pid)
            (chosen-Settled (Numbered text s) (λ n. ⊥) refused text new_pid _
              (Quiet-say Priority.info (codes "PID specified multiple times") s h)
              (λ e. (valid e, refl)))
    ]

-- The number that `main` returns at the option: 0 for -h, and 0x1f for an unknown option.
abbrev pub Exits : CommandOption → ℕ → Type 0
Exits help n = n ≡ 0
Exits unknown n = n ≡ 0x1f
Exits _ n = ⊥

abbrev pub SomeExits : List CommandOption → ℕ → Type 0
SomeExits [] n = ⊥
SomeExits (o ∷ os) n = Exits o n ⊎ SomeExits os n

module _ (files : Bytes → Bytes ⊎ Bytes) where
  -- The option is accepted, where the loop comes to it with a pid and a state, and leaves it with others.
  abbrev pub Accepted : CommandOption → ℤ → State → ℤ → State → Type 0
  Accepted (config_file path) pid s n t =
      (n ≡ pid) × (parse_file path (files path) s ≡ some (pos 0, t))
  Accepted (directive_text line) pid s n t = (n ≡ pid) × (parse_line line s ≡ some (pos 0, t))
  Accepted (process text) pid s n t = Numbered text s n t
  Accepted help pid s n t = ⊥
  Accepted unknown pid s n t = ⊥

  -- So are they all, one after the other.
  abbrev pub AllAccepted : List CommandOption → ℤ → State → ℤ → State → Type 0
  AllAccepted [] pid s n t = (n ≡ pid) × (t ≡ s)
  AllAccepted (o ∷ os) pid s n t =
      (mid : ℤ) × (u : State) × Accepted o pid s mid u × AllAccepted os mid u n t

  -- How the loop over options ends that starts with a pid and a state.
  abbrev pub Settled : List CommandOption → ℤ → State → Option (Next × State) → Type 0
  Settled os pid s o = Concludes (AllAccepted os pid s) (SomeExits os) o

  run_option-Settled :
      (o : CommandOption) (pid : ℤ) (s : State)
      → IsStatus s.log.exitcode
      → Concludes (Accepted o pid s) (Exits o) (run_option files o pid s)
  unfolding run_option
  run_option-Settled (config_file path) pid s h =
      parsed-Settled (Accepted (config_file path) pid s) (Exits (config_file path))
        (parse_file path (files path)) pid s (parse_file-Total path (files path) s)
        (parse_file-Act path (files path) s h) (λ t e. (refl, e))
  run_option-Settled (directive_text line) pid s h =
      parsed-Settled (Accepted (directive_text line) pid s) (Exits (directive_text line))
        (parse_line line) pid s (parse_line-Defined line s) (parse_line-Honest line s h)
        (λ t e. (refl, e))
  run_option-Settled (process text) pid s h = set_pid-Settled text pid s h
  run_option-Settled help pid s h = (h, refl)
  run_option-Settled unknown pid s h = (h, refl)

  Settled-cons :
      (o : CommandOption) (os : List CommandOption) (pid mid : ℤ) (s u : State)
      → Accepted o pid s mid u
      → (r : Option (Next × State)) → Settled os mid u r
      → Settled (o ∷ os) pid s r
  Settled-cons o os pid mid s u a none h = h
  Settled-cons o os pid mid s u a (some (goes_on n, t)) (h, all) = (h, (mid, u, a, all))
  Settled-cons o os pid mid s u a (some (exit_logged, t)) h = h
  Settled-cons o os pid mid s u a (some (exit_with n, t)) (h, exits) = (h, inr exits)

  after_option-Settled :
      (c : CommandOption) (os : List CommandOption) (pid : ℤ) (s : State)
      (o : Option (Next × State))
      → Concludes (Accepted c pid s) (Exits c) o
      → ((n : ℤ) (t : State) → IsStatus t.log.exitcode → Settled os n t (run_options files os n t))
      → Settled
          (c ∷ os)
          pid
          s
          (((λ (_ : State). o) >>= after_option files (run_options files os)) s)
  after_option-Settled c os pid s none h next = h
  after_option-Settled c os pid s (some (goes_on n, t)) (h, a) next =
      Settled-cons c os pid n s t a (run_options files os n t) (next n t h)
  after_option-Settled c os pid s (some (exit_logged, t)) h next = h
  after_option-Settled c os pid s (some (exit_with n, t)) (h, exits) next = (h, inl exits)

  -- For any options on the command line and any files, the loop has a result, with an exit code of
  -- the bits that crashinfo.1 lists if it begins with one. Where it goes past all the options, every
  -- file and every directive has been accepted, in their order and each from the state that those
  -- before it left, and every -P has given a positive number with nothing behind it and is the pid
  -- from there on. Otherwise `main` returns: 0 if there is a -h, or 0x1f if there is an unknown option,
  -- or its exit code, which is not 0.
  pub run_options-Settled :
      (os : List CommandOption) (pid : ℤ) (s : State)
      → IsStatus s.log.exitcode
      → Settled os pid s (run_options files os pid s)
  unfolding run_options
  run_options-Settled [] pid s h = (h, (refl, refl))
  run_options-Settled (o ∷ os) pid s h =
      after_option-Settled o os pid s (run_option files o pid s) (run_option-Settled o pid s h)
        (λ n t h'. run_options-Settled os n t h')
