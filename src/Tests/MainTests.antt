-- ===== src/Tests/MainTests.antt =====
-- The theorems on `main` at concrete inputs.
use crashinfo.Base.{
  ℕ, ◌+◌, false, ◌++◌, List, [], ◌∷◌, ◌≡◌, refl, Bytes, codes, Option, some, none, inl, inr,
}
use crashinfo.Filters.{
  Filter, Messages, Trace, running, open_filters, chain_loop, start_filter, closes, opens,
}
use crashinfo.Filters.Descriptors.{count}
use crashinfo.Output.{opened}
use crashinfo.Close.{Processes, exited}
use crashinfo.Main.Outputs.{Supply, MainCall, Notified, open_and_close, end_output}
use crashinfo.Main.Outputs.Closing.{closed_by, waited_by, outputs-Balanced}

abbrev processes : Processes
processes = record { ndebug = false; fate = λ pid. exited 0 }

-- An output at `fd`, with a filter behind the pipe of `fd + 1` and `fd + 2`.
abbrev supply : ℕ → Supply
supply fd = record {
  first = inr (fd + 1, fd + 2);
  rounds = λ n. record {
    pipe = inl (codes "Too many open files");
    memory = none;
    child = inr (fd + 100);
  };
  null = none;
}

abbrev gzip : List Bytes
gzip = codes "gzip" ∷ []

abbrev notified : Notified
notified = record { info = []; core = (codes "rm", none) ∷ []; both = (codes "mail", none) ∷ [] }

abbrev filter_of : ℕ → List Filter
filter_of fd = record { filter = codes "gzip"; pid = fd + 100 } ∷ []

abbrev trace : ℕ → Trace
trace fd = record {
  opened = (fd + 1) ∷ (fd + 2) ∷ [];
  closed = (fd + 1) ∷ fd ∷ [];
  killed = [];
  messages = [];
}

gzip_runs :
    (fd : ℕ)
    → open_filters (supply fd).first (supply fd).rounds gzip fd
      ≡ running (fd + 2) (filter_of fd) (trace fd)
unfolding open_filters chain_loop start_filter closes opens
gzip_runs fd = refl

abbrev name : Option Bytes
name = some (codes "/tmp/x")

outputs-Balanced_example :
    (calls : List MainCall) × (logged : Messages) × (open_and_close processes notified
        (end_output {S = ℕ} (supply 3) gzip (opened 3 name 0 []))
        none
        (end_output {S = ℕ} (supply 6) gzip (opened 6 name 0 []))
      ≡ some (calls, logged))
    × ((x : ℕ)
        → count x (closed_by 5 8 calls ++ (6 + 1) ∷ 6 ∷ (3 + 1) ∷ 3 ∷ [])
          ≡ count x (6 ∷ (6 + 1) ∷ (6 + 2) ∷ 3 ∷ (3 + 1) ∷ (3 + 2) ∷ []))
    × (waited_by calls ≡ 106 ∷ 103 ∷ [])
outputs-Balanced_example =
    outputs-Balanced processes notified (supply 3) (supply 6) gzip gzip 3 6 name name 0 0 [] [] 5 8
      (filter_of 3) (filter_of 6) (trace 3) (trace 6) none (gzip_runs 3) (gzip_runs 6) refl refl
