-- ===== src/Log/Status.antt =====
-- The exit code against the table of RETURN VALUE in crashinfo.1.
use crashinfo.Base.{
  ℕ, ◌+◌, Bool, true, false, ◌||◌, List, [], ◌∷◌, ◌++◌, ◌≡◌, refl, arith, Bytes, bit_or,
  if◌then◌else◌, ◌∙◌, ap, sym,
}
use crashinfo.Log.{
  Priority, emerg, alert, crit, error, warning, LogConf, LogState, mark, logmsg, log_all, handler,
}

-- The levels for which crashinfo.1 names a bit, and whether each was met.
pub record Met : Type 0 where
  pub emerg : Bool
  pub alert : Bool
  pub crit : Bool
  pub error : Bool
  pub warning : Bool

abbrev pub nothing_met : Met
nothing_met = record { emerg = false; alert = false; crit = false; error = false; warning = false }

abbrev pub bit : Bool → ℕ → ℕ
bit b n = if b then n else 0

-- The documented status.
abbrev pub status : Met → ℕ
status m = bit m.emerg 0x10 + bit m.alert 0x8 + bit m.crit 0x4 + bit m.error 0x2 + bit m.warning 0x1

abbrev pub is_emerg : Priority → Bool
is_emerg emerg = true
is_emerg _ = false

abbrev pub is_alert : Priority → Bool
is_alert alert = true
is_alert _ = false

abbrev pub is_crit : Priority → Bool
is_crit crit = true
is_crit _ = false

abbrev pub is_error : Priority → Bool
is_error error = true
is_error _ = false

abbrev pub is_warning : Priority → Bool
is_warning warning = true
is_warning _ = false

-- Whether one of the messages has a priority that `is` accepts.
abbrev pub some_message : (Priority → Bool) → List (Priority × Bytes) → Bool
some_message is [] = false
some_message is ((p, _) ∷ rest) = is p || some_message is rest

abbrev pub met_in : List (Priority × Bytes) → Met
met_in ms = record {
  emerg = some_message is_emerg ms;
  alert = some_message is_alert ms;
  crit = some_message is_crit ms;
  error = some_message is_error ms;
  warning = some_message is_warning ms;
}

abbrev pub union : Met → Met → Met
union a b = record {
  emerg = a.emerg || b.emerg;
  alert = a.alert || b.alert;
  crit = a.crit || b.crit;
  error = a.error || b.error;
  warning = a.warning || b.warning;
}

abbrev pub met_by : Priority → Met
met_by p = record {
  emerg = is_emerg p;
  alert = is_alert p;
  crit = is_crit p;
  error = is_error p;
  warning = is_warning p;
}

pub mark-status : (p : Priority) (m : Met) → mark p (status m) ≡ status (union m (met_by p))
unfolding mark
mark-status p m = table p m.emerg m.alert m.crit m.error m.warning
  where
    table :
        (p : Priority) (a b c d e : Bool)
        → let m : Met = record { emerg = a; alert = b; crit = c; error = d; warning = e } in
          mark p (status m) ≡ status (union m (met_by p))
    table emerg a b c d e = ground arith
    table _ a b c d e = ground arith

met_in-step :
    (ms : List (Priority × Bytes)) (p : Priority) (text : Bytes) (m : Met)
    → union m (met_in ((p, text) ∷ ms)) ≡ union (union m (met_by p)) (met_in ms)
met_in-step ms p text m = ground arith

some_message-append :
    (is : Priority → Bool) (xs ys : List (Priority × Bytes))
    → some_message is (xs ++ ys) ≡ some_message is xs || some_message is ys
some_message-append is [] ys = refl
some_message-append is ((p, text) ∷ xs) ys = or_assoc (is p) _ _ _ (some_message-append is xs ys)
  where
    or_assoc : (a b c d : Bool) → b ≡ c || d → a || b ≡ (a || c) || d
    or_assoc a b c d h = ground arith

pub met_in-append :
    (xs ys : List (Priority × Bytes)) → met_in (xs ++ ys) ≡ union (met_in xs) (met_in ys)
met_in-append xs ys =
    rw
      (
        some_message-append is_emerg xs ys,
        some_message-append is_alert xs ys,
        some_message-append is_crit xs ys,
        some_message-append is_error xs ys,
        some_message-append is_warning xs ys,
      )
      refl

status-log_all :
    (c : LogConf) (ms : List (Priority × Bytes)) (s : LogState) (m : Met)
    → s.exitcode ≡ status m
    → (log_all c ms s).exitcode ≡ status (union m (met_in ms))
unfolding logmsg
status-log_all c [] s m h = ground arith
status-log_all c ((p, text) ∷ ms) s m h =
    status-log_all c ms (logmsg c p text s) (union m (met_by p)) (ap (mark p) h ∙ mark-status p m)
    ∙ ap status (sym (met_in-step ms p text m))

-- The exit code of a run that starts at 0 has exactly the bits that crashinfo.1 gives to the
-- levels of the messages logged, however often, in whatever order and under whatever thresholds.
pub exitcode-log_all :
    (c : LogConf) (ms : List (Priority × Bytes)) (s : LogState)
    → s.exitcode ≡ 0
    → (log_all c ms s).exitcode ≡ status (met_in ms)
exitcode-log_all c ms s h = status-log_all c ms s nothing_met h

handler-status : (m : Met) (s : LogState) → s.exitcode ≡ status m → handler s ≡ 0x20 + status m
unfolding handler
handler-status m s h = rw h (table m.emerg m.alert m.crit m.error m.warning)
  where
    table :
        (a b c d e : Bool)
        → let m : Met = record { emerg = a; alert = b; crit = c; error = d; warning = e } in
          bit_or 0x20 (status m) ≡ 0x20 + status m
    table a b c d e = ground arith

-- A caught signal ends the program with bit 0x20 added to the bits of the messages logged so far.
pub handler-log_all :
    (c : LogConf) (ms : List (Priority × Bytes)) (s : LogState)
    → s.exitcode ≡ 0
    → handler (log_all c ms s) ≡ 0x20 + status (met_in ms)
handler-log_all c ms s h = handler-status (met_in ms) (log_all c ms s) (exitcode-log_all c ms s h)
