-- ===== src/Tests/TextTests.antt =====
-- The theorems on messages and on printed text, at concrete inputs.
use crashinfo.Base.{
  true, List, [], ◌∷◌, ◌++◌, ◌≡◌, refl, Bytes, codes, pos, none, some, inr, arith, All,
}
use crashinfo.Log.{Priority, LogConf, log_start, log_all}
use crashinfo.Log.Status.{status, met_in, exitcode-log_all}
use crashinfo.Util.{is_space, EndsDark, Blank}
use crashinfo.Yaml.{fputy}
use crashinfo.Yaml.Scalar.{Fits, unquote, unquote-fputy}
use crashinfo.Yaml.Overflow.{fputy_overflow}

abbrev thresholds : LogConf
thresholds = record { info = pos 5; stderr = pos 3; syslog = pos 4 }

abbrev messages : List (Priority × Bytes)
messages =
    (Priority.warning, codes "w") ∷ (Priority.crit, codes "c") ∷ (Priority.warning, codes "v") ∷ []

exitcode-log_all_example :
    (log_all thresholds messages log_start).exitcode ≡ status (met_in messages)
exitcode-log_all_example = exitcode-log_all thresholds messages log_start refl

a_b-EndsDark : EndsDark (codes "a b")
a_b-EndsDark = unfold is_space in refl

tail-Blank : Blank (codes " \n")
tail-Blank = unfold is_space in (refl, (refl, tt))

quote-Fits : All (Fits true) (b'"' ∷ 7 ∷ [])
quote-Fits = ((omega arith, inr (omega arith)), ((omega arith, inr (omega arith)), tt))

unquote-fputy_example :
    (text : Bytes) × (fputy true (b'"' ∷ 7 ∷ []) ≡ some text)
    × (unquote (text ++ codes ", ") ≡ some (b'"' ∷ 7 ∷ [], codes ", "))
unquote-fputy_example = unquote-fputy true (b'"' ∷ 7 ∷ []) (codes ", ") quote-Fits

fputy_overflow_example : fputy true (codes "caf" ++ 0xc3 ∷ 0xa9 ∷ []) ≡ none
fputy_overflow_example = fputy_overflow (codes "caf") (0xa9 ∷ []) 0xc3 (omega arith) (omega arith)
