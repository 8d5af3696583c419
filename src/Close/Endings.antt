-- ===== src/Close/Endings.antt =====
-- What the end of the filters leaves in the exit code.
use crashinfo.Base.{
  ℕ, Bool, true, false, not, ◌||◌, ◌==◌, List, [], ◌∷◌, ◌++◌, ◌≡◌, refl, sym, ◌∙◌, ap, arith, Bytes,
  Option, none, some, Option-cases, inl, inr,
}
use crashinfo.Log.{LogConf, LogState, log_all}
use crashinfo.Log.Status.{Met, nothing_met, union, met_in-append, status, met_in}
use crashinfo.Filters.{Filter, Messages}
use crashinfo.Close.{
  Notice, Processes, Fate, exited, killed_by, lost, other_status, Call, wait, RunOutput, sigpipe,
  fate_message, waited, wait_filters, notify, closing,
}

-- How a filter fares: an exit code other than 0 or a signal other than SIGPIPE, SIGPIPE, or a filter
-- that cannot be waited for.
abbrev pub has_failed : Fate → Bool
has_failed (exited n) = not (n == 0)
has_failed (killed_by n) = not (n == sigpipe)
has_failed _ = false

abbrev pub is_cut_off : Fate → Bool
is_cut_off (killed_by n) = n == sigpipe
is_cut_off _ = false

abbrev pub is_lost : Fate → Bool
is_lost (lost text) = true
is_lost _ = false

abbrev pub is_strange : Fate → Bool
is_strange other_status = true
is_strange _ = false

abbrev pub some_fate : (Fate → Bool) → (ℕ → Fate) → List Filter → Bool
some_fate is fates [] = false
some_fate is fates (f ∷ fs) = is (fates f.pid) || some_fate is fates fs

abbrev fate_met : Fate → Met
fate_met fate = record {
  emerg = false;
  alert = false;
  crit = is_lost fate;
  error = has_failed fate;
  warning = is_cut_off fate;
}

abbrev pub fates_met : (ℕ → Fate) → List Filter → Met
fates_met fates fs = record {
  emerg = false;
  alert = false;
  crit = some_fate is_lost fates fs;
  error = some_fate has_failed fates fs;
  warning = some_fate is_cut_off fates fs;
}

-- `fork` fails for one of the commands.
abbrev pub some_unforked : List Notice → Bool
some_unforked [] = false
some_unforked ((command, none) ∷ notices) = some_unforked notices
some_unforked ((command, some error) ∷ notices) = true

abbrev pub forks_met : List Notice → Option Bytes → Met
forks_met notices none = nothing_met
forks_met notices (some name) = record nothing_met { crit = some_unforked notices }

-- The filters' processes, in order.
abbrev pub waits_for : List Filter → List Call
waits_for [] = []
waits_for (f ∷ fs) = wait f.pid ∷ waits_for fs

no_message :
    (ndebug : Bool) (filter : Bytes) (fate : Fate)
    → fate_message ndebug filter fate ≡ none
    → (ndebug ≡ false) × (is_strange fate ≡ true)
unfolding fate_message
no_message ndebug filter (exited n) h = ground arith
no_message ndebug filter (killed_by n) h = ground arith
no_message ndebug filter (lost text) h = ground arith
no_message ndebug filter other_status h = ground arith

abbrev met_of : Option Messages → Met
met_of none = nothing_met
met_of (some messages) = met_in messages

met_of-fate_message :
    (ndebug : Bool) (filter : Bytes) (fate : Fate)
    → met_of (fate_message ndebug filter fate) ≡ fate_met fate
unfolding fate_message
met_of-fate_message true filter (exited n) = ground arith
met_of-fate_message false filter (exited n) = ground arith
met_of-fate_message ndebug filter (killed_by n) = ground arith
met_of-fate_message ndebug filter (lost text) = refl
met_of-fate_message true filter other_status = refl
met_of-fate_message false filter other_status = refl

-- What waiting for filters gives: each is waited for, and the levels of the messages are those of
-- their ends; or an assertion fails, since one has neither exited nor been killed.
abbrev pub Waited : Processes → List Filter → Option (List Call × Messages) → Type 0
Waited p fs none = (p.ndebug ≡ false) × (some_fate is_strange p.fate fs ≡ true)
Waited p fs (some (calls, messages)) =
    (calls ≡ waits_for fs) × (met_in messages ≡ fates_met p.fate fs)

or_true : (a b : Bool) → b ≡ true → a || b ≡ true
or_true a b h = ground arith

waited-Waited :
    (p : Processes) (f : Filter) (fs : List Filter) (said : Messages)
    (rest : Option (List Call × Messages))
    → fate_message p.ndebug f.filter (p.fate f.pid) ≡ some said
    → Waited p fs rest
    → Waited p (f ∷ fs) (waited f.pid said rest)
waited-Waited p f fs said none e (debug, strange) =
    (debug, or_true (is_strange (p.fate f.pid)) _ strange)
waited-Waited p f fs said (some (calls, messages)) e (waits, met) = (
  ap (λ cs. wait f.pid ∷ cs) waits,
  met_in-append said messages
      ∙ ap (λ m. union m (met_in messages))
          (ap met_of (sym e) ∙ met_of-fate_message p.ndebug f.filter (p.fate f.pid))
      ∙ ap (union (fate_met (p.fate f.pid))) met,
)

pub wait_filters-Waited : (p : Processes) (fs : List Filter) → Waited p fs (wait_filters p fs)
unfolding wait_filters
wait_filters-Waited p [] = (refl, refl)
wait_filters-Waited p (f ∷ fs) =
    elim (Option-cases (fate_message p.ndebug f.filter (p.fate f.pid))) [
      | inl stuck ↦
          let (debug, strange) = no_message p.ndebug f.filter (p.fate f.pid) stuck in
          rw (stuck, wait_filters) (debug, rw strange refl)
      | inr (said, e) ↦
          rw (e, wait_filters) (waited-Waited p f fs said _ e (wait_filters-Waited p fs))
    ]

-- How closing an output that is open at `fd` ends.
abbrev pub Closed :
    Processes
    → List Notice
    → RunOutput
    → ℕ
    → LogConf
    → LogState
    → Option (RunOutput × List Call × Messages)
    → Type 0
Closed p notices r fd c s none = (p.ndebug ≡ false) × (some_fate is_strange p.fate r.filter ≡ true)
Closed p notices r fd c s (some (r', calls, messages)) =
    (r'.output_fd ≡ none)
    × (calls ≡ closing r.output fd ++ (waits_for r.filter ++ notify notices r.output_filename))
    × ((log_all c messages s).exitcode
        ≡ status (union (fates_met p.fate r.filter) (forks_met notices r.output_filename)))
