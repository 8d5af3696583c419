-- ===== src/Tests/FilterTests.antt =====
-- The theorems on filters and notifications at concrete inputs, and runs of the definitions.
use crashinfo.Base.{
  ℕ, ◌+◌, ◌==◌, true, false, if◌then◌else◌, List, [], ◌∷◌, ◌≡◌, refl, Bytes, codes, pos, Option,
  some, none, inr, arith, take, replicate,
}
use crashinfo.Log.{LogConf}
use crashinfo.Conf.Text.{strtok, skip_delim, span_token, is_delim}
use crashinfo.Spawn.{argv, fill, choose, next_token, seen}
use crashinfo.Spawn.Arguments.{words, words_from}
use crashinfo.Spawn.Process.{
  child, executes, crashes, starting, spawn_proc, spawn_proc-words, spawn_proc-crashes,
}
use crashinfo.Filters.{Answers, open_filters}
use crashinfo.Filters.Descriptors.{Balanced, open_filters-Balanced}
use crashinfo.Close.{Notice, Processes, Fate, exited, killed_by, RunOutput}

abbrev answers : ℕ → Answers
answers n = record { pipe = inr (10 + n, 20 + n); memory = none; child = inr (100 + n) }

open_filters-Balanced_example :
    Balanced 3
      (codes "gzip" ∷ codes "cat" ∷ [])
      (open_filters (inr (4, 5)) answers (codes "gzip" ∷ codes "cat" ∷ []) 3)
open_filters-Balanced_example =
    open_filters-Balanced (inr (4, 5)) answers (codes "gzip" ∷ codes "cat" ∷ []) 3

abbrev fates : ℕ → Fate
fates pid = if pid == 7 then exited 2 else killed_by 13

abbrev opened : RunOutput
opened = record {
  output = false;
  output_fd = some 5;
  output_filename = some (codes "/tmp/core");
  filter =
      record { filter = codes "gzip"; pid = 7 } ∷ record { filter = codes "head"; pid = 8 } ∷ [];
}

abbrev thresholds : LogConf
thresholds = record { info = pos 5; stderr = pos 3; syslog = pos 4 }

abbrev processes : Processes
processes = record { ndebug = true; fate = fates }

-- `fork` fails for the second command.
abbrev notices : List Notice
notices = (codes "notify", none) ∷ (codes "mail", some (codes "Cannot allocate memory")) ∷ []

argv_test :
    argv (codes "a b") none none ≡ some (some (codes "a") ∷ some (codes "b") ∷ replicate 29 none)
unfolding argv fill choose next_token strtok skip_delim span_token is_delim
argv_test = refl

spawn_proc-words_example :
    (args : List (Option Bytes)) × (spawn_proc true
        (λ args. none)
        (codes "gzip  -9 -c")
        4
        5
        child
        none
        none
      ≡ executes 4 5 args (starting true (codes "gzip  -9 -c")))
    × (seen args ≡ take 31 (words (codes "gzip  -9 -c")))
spawn_proc-words_example =
    spawn_proc-words true (λ args. none) (codes "gzip  -9 -c") 4 5 (λ args. refl)

spawn_proc-crashes_example :
    spawn_proc true (λ args. none) (codes "notify @1") 4 5 child (some (codes "/tmp/info")) none
    ≡ crashes (starting true (codes "notify @1"))
unfolding words words_from is_delim
spawn_proc-crashes_example =
    spawn_proc-crashes true (λ args. none) (codes "notify @1") 4 5 (codes "/tmp/info") none
      (omega arith)
