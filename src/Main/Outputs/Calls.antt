-- ===== src/Main/Outputs/Calls.antt =====
-- The calls that end an output, and what calls close and wait for.
use crashinfo.Base.{
  ℕ, Bool, true, false, List, [], ◌∷◌, ◌++◌, ◌≡◌, refl, sym, ◌∙◌, ap, Bytes, Option, none, some,
  append-nil, append_assoc,
}
use crashinfo.Filters.{Messages, Filter}
use crashinfo.Filters.Descriptors.{pids_of}
use crashinfo.Close.{
  Notice, Processes, notify_messages, open_null, Call, close_stream, close, wait, start, RunOutput,
  notify, notify_all, closing, finished, close_output,
}
use crashinfo.Close.Endings.{some_fate, is_strange, waits_for, Waited, wait_filters-Waited}
use crashinfo.Main.Outputs.{MainCall, info_call, core_call, each, both_all, notify_both}

-- The calls that close an output that is open at `fd`.
abbrev pub ending : List Notice → RunOutput → ℕ → List Call
ending commands r fd =
    closing r.output fd ++ (waits_for r.filter ++ notify commands r.output_filename)

module _ (p : Processes) (commands : List Notice) where
  wait_filters-some :
      (fs : List Filter) (o : Option (List Call × Messages))
      → Waited p fs o
      → some_fate is_strange p.fate fs ≡ false
      → (ms : Messages) × (o ≡ some (waits_for fs, ms))
  wait_filters-some fs none (debug, w) h = cc
  wait_filters-some fs (some (calls, ms)) (e, met) h = (ms, ap (λ cs. some (cs, ms)) e)

  pub close_output-ending :
      (r : RunOutput) (fd : ℕ)
      → r.output_fd ≡ some fd
      → some_fate is_strange p.fate r.filter ≡ false
      → (ms : Messages) × (close_output p commands r
          ≡ some (record r { output = false; output_fd = none }, ending commands r fd, ms))
  unfolding close_output
  close_output-ending r fd is_open plain =
      let (ms, e) = wait_filters-some r.filter _ (wait_filters-Waited p r.filter) plain in
      (
        ms ++ notify_messages commands r.output_filename,
        rw is_open (ap (finished r commands (closing r.output fd)) e),
      )

-- The descriptors that calls for an output close; its stream is on `fd`.
abbrev pub closes_of : ℕ → Call → List ℕ
closes_of fd close_stream = fd ∷ []
closes_of fd (close n) = n ∷ []
closes_of fd _ = []

abbrev pub waits_of : Call → List ℕ
waits_of (wait pid) = pid ∷ []
waits_of _ = []

abbrev pub gather : (Call → List ℕ) → List Call → List ℕ
gather f [] = []
gather f (c ∷ cs) = f c ++ gather f cs

-- The same over the calls of `main`.
abbrev pub gather_all : (Call → List ℕ) → (Call → List ℕ) → List MainCall → List ℕ
gather_all f g [] = []
gather_all f g (info_call c ∷ cs) = f c ++ gather_all f g cs
gather_all f g (core_call c ∷ cs) = g c ++ gather_all f g cs
gather_all f g (_ ∷ cs) = gather_all f g cs

module _ (f g : Call → List ℕ) where
  gather-append : (xs ys : List Call) → gather f (xs ++ ys) ≡ gather f xs ++ gather f ys
  gather-append [] ys = refl
  gather-append (x ∷ xs) ys =
      ap (λ t. f x ++ t) (gather-append xs ys)
      ∙ sym (append_assoc (f x) (gather f xs) (gather f ys))

  pub gather_all-info :
      (cs : List Call) (rest : List MainCall)
      → gather_all f g (each info_call cs ++ rest) ≡ gather f cs ++ gather_all f g rest
  gather_all-info [] rest = refl
  gather_all-info (c ∷ cs) rest =
      ap (λ t. f c ++ t) (gather_all-info cs rest) ∙ sym (append_assoc (f c) (gather f cs) _)

  pub gather_all-core :
      (cs : List Call) (rest : List MainCall)
      → gather_all f g (each core_call cs ++ rest) ≡ gather g cs ++ gather_all f g rest
  gather_all-core [] rest = refl
  gather_all-core (c ∷ cs) rest =
      ap (λ t. g c ++ t) (gather_all-core cs rest) ∙ sym (append_assoc (g c) (gather g cs) _)

  gather_all-both_all :
      (commands : List Notice) (info core : Bytes)
      → gather_all f g (both_all commands info core) ≡ []
  unfolding both_all
  gather_all-both_all [] info core = refl
  gather_all-both_all ((c, error) ∷ cs) info core = gather_all-both_all cs info core

  pub gather_all-both :
      (commands : List Notice) (info core : Option Bytes)
      → gather_all f g (notify_both commands info core) ≡ []
  unfolding notify_both
  gather_all-both commands none core = refl
  gather_all-both commands (some i) none = refl
  gather_all-both commands (some i) (some c) = gather_all-both_all commands i c

  pub gather_all-each : (cs : List Call) → gather_all f g (each info_call cs) ≡ gather f cs
  gather_all-each [] = refl
  gather_all-each (c ∷ cs) = ap (λ t. f c ++ t) (gather_all-each cs)

  -- Calls that `f` sees nothing in.
  gather-notify_all :
      (commands : List Notice) (name : Bytes)
      → f open_null ≡ []
      → ((command : Bytes) → f (start command name) ≡ [])
      → gather f (notify_all commands name) ≡ []
  unfolding notify_all
  gather-notify_all [] name null h = refl
  gather-notify_all ((c, error) ∷ cs) name null h =
      rw (null, h c) (gather-notify_all cs name null h)

  gather-notify :
      (commands : List Notice) (name : Option Bytes)
      → f open_null ≡ []
      → ((command t : Bytes) → f (start command t) ≡ [])
      → gather f (notify commands name) ≡ []
  unfolding notify
  gather-notify commands none null h = refl
  gather-notify commands (some t) null h = gather-notify_all commands t null (λ c. h c t)

closes-waits_for : (fd : ℕ) (fs : List Filter) → gather (closes_of fd) (waits_for fs) ≡ []
closes-waits_for fd [] = refl
closes-waits_for fd (f ∷ fs) = closes-waits_for fd fs

waits-waits_for : (fs : List Filter) → gather waits_of (waits_for fs) ≡ pids_of fs
waits-waits_for [] = refl
waits-waits_for (f ∷ fs) = ap (λ t. f.pid ∷ t) (waits-waits_for fs)

-- The end of an output closes its descriptor once, and waits for each of its filters once.
pub closes-ending :
    (commands : List Notice) (r : RunOutput) (fd : ℕ)
    → gather (closes_of fd) (ending commands r fd) ≡ fd ∷ []
closes-ending commands r fd =
    gather-append (closes_of fd) waits_of (closing r.output fd) _
    ∙ ap (λ t. gather (closes_of fd) (closing r.output fd) ++ t)
        (gather-append (closes_of fd) waits_of (waits_for r.filter) _
          ∙ rw (closes-waits_for fd r.filter)
              (gather-notify (closes_of fd) waits_of commands r.output_filename refl (λ c t. refl)))
    ∙ append-nil _
    ∙ closes-closing r.output
  where
    closes-closing : (b : Bool) → gather (closes_of fd) (closing b fd) ≡ fd ∷ []
    closes-closing true = refl
    closes-closing false = refl

pub waits-ending :
    (commands : List Notice) (r : RunOutput) (fd : ℕ)
    → gather waits_of (ending commands r fd) ≡ pids_of r.filter
waits-ending commands r fd =
    gather-append waits_of waits_of (closing r.output fd) _
    ∙ ap (λ t. gather waits_of (closing r.output fd) ++ t)
        (gather-append waits_of waits_of (waits_for r.filter) _
          ∙ ap (λ t. gather waits_of (waits_for r.filter) ++ t)
              (gather-notify waits_of waits_of commands r.output_filename refl (λ c t. refl))
          ∙ append-nil _
          ∙ waits-waits_for r.filter)
    ∙ waits-closing r.output
  where
    waits-closing :
        (b : Bool) → gather waits_of (closing b fd) ++ pids_of r.filter ≡ pids_of r.filter
    waits-closing true = refl
    waits-closing false = refl
