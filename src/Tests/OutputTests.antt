-- ===== src/Tests/OutputTests.antt =====
-- The theorems on outputs and on reading and writing, at concrete inputs.
use crashinfo.Base.{
  ℕ, zero, suc, ◌<◌, Bool, true, false, inl, if◌then◌else◌, List, [], ◌∷◌, ◌++◌, ◌≡◌, refl, Bytes,
  codes, pos, some, str_eq, show, arith, All, ◌==◌, ◌+◌, length, inr,
}
use crashinfo.Log.{log_all}
use crashinfo.Util.{is_space}
use crashinfo.Conf.{info_filter, get_multi, set_multi}
use crashinfo.Conf.Text.{is_delim}
use crashinfo.Conf.Value.{State}
use crashinfo.Conf.Value.Stores.{Returns, Stored}
use crashinfo.Conf.Line.{initial_state}
use crashinfo.Conf.File.Lines.{Fits, text_of}
use crashinfo.Conf.File.{parse_file}
use crashinfo.Conf.Dump.{log_string_multi}
use crashinfo.Conf.Dump.Restore.{
  value_lines, at_debug, IsText, printed, log_string_multi-parse_file,
}
use crashinfo.Conf.Line.Spacing.{AreBlank}
use crashinfo.Conf.Line.Meaning.{Names}
use crashinfo.Tests.LineTests.{none_of, none_of-All, filter_row, filter-IsName, filter-Names}
use crashinfo.Transfer.{Answer, moved, interrupted, safe_write}
use crashinfo.Transfer.Moves.{Steady, safe_write_whole}
use crashinfo.Output
use crashinfo.Output.{System, Expanded, Ending, open_output, goes_on, crit}
use crashinfo.Output.Sequence.{IsTaken, IsFree, open_output-limit}
use crashinfo.Output.Keep.{Kept, EndsIn, open_output-Kept}

-- The names of the files that exist.
abbrev pub Disk : Type 0
Disk = List Bytes

abbrev pub has : Disk → Bytes → Bool
has [] name = false
has (n ∷ d) name = if str_eq n name then true else has d name

abbrev pub create : Bytes → Output.Flags → Disk → Output.Opened × Disk
create name Output.excl_flag d =
    if has d name then (Output.exist, d) else (Output.descriptor 3, name ∷ d)
create name _ d = (Output.descriptor 3, if has d name then d else name ∷ d)

abbrev pub disk : System Disk
disk = record {
  open_file = create;
  make_dir = λ name d. (Output.made, d);
  open_null = λ d. (Output.descriptor 9, d);
}

abbrev numbered : ℕ → Expanded
numbered k = record { name = some (codes "/c" ++ show 10 k); shown = codes "/c@Q"; messages = [] }

abbrev one_file : Disk
one_file = codes "/c0" ∷ []

zero-IsTaken : (j : ℕ) → j < 1 → IsTaken disk numbered one_file j
zero-IsTaken zero h = taken
  where
    taken : IsTaken disk numbered one_file 0
    taken = record {
      name = codes "/c0";
      expands = unfold show in refl;
      exists = unfold str_eq in refl;
    }
zero-IsTaken (suc j) h = absurd (omega arith)

one-IsFree : IsFree disk numbered one_file 1 (codes "/c1") 3 (codes "/c1" ∷ one_file)
one-IsFree = record { expands = unfold show in refl; creates = unfold str_eq in refl }

open_output-limit_example :
    (ms : Output.Messages) × (open_output disk 1 numbered
        (some (codes "/c@Q"))
        Output.sequence
        (pos 1)
        false
        one_file
      ≡ Output.failed one_file (crit ms (codes "Filename sequence limit reached")))
open_output-limit_example =
    open_output-limit disk numbered one_file 1 0 (codes "/c@Q") false refl (omega arith)
      (λ j h. zero-IsTaken j (omega arith))

-- The file is still there.
abbrev HasFile : Disk → Type 0
HasFile d = has d (codes "/c0") ≡ true

disk-Kept : Kept disk HasFile
disk-Kept = record {
  by_open = λ name d h. ground arith;
  by_dir = λ name d h. h;
  by_null = λ d h. h;
}

one_file-HasFile : HasFile one_file
one_file-HasFile = unfold str_eq in refl

open_output-Kept_example :
    EndsIn HasFile
      (open_output disk 2 numbered (some (codes "/c@Q")) Output.keep (pos 0) true one_file)
open_output-Kept_example =
    open_output-Kept disk HasFile disk-Kept 2 numbered (some (codes "/c@Q")) Output.keep (pos 0)
      true one_file (inl refl) one_file-HasFile

abbrev answers : List Answer
answers = moved 2 ∷ interrupted ∷ moved 9 ∷ moved 1 ∷ []

answers-Steady : All Steady answers
answers-Steady = (omega arith, (tt, (omega arith, (omega arith, tt))))

safe_write_whole_example : safe_write answers (codes "abc") ≡ some (pos 3, codes "abc")
safe_write_whole_example = safe_write_whole answers b'a' (codes "bc") answers-Steady (omega arith)

abbrev two_filters : List Bytes
two_filters = codes "xz" ∷ codes "gzip -9" ∷ []

two_filters-IsText : All IsText two_filters
unfolding is_delim is_space str_eq
two_filters-IsText = (
  record { value_ok = record { starts = refl; ends = refl }; not_tilde = refl },
  (record { value_ok = record { starts = refl; ends = refl }; not_tilde = refl }, tt),
)

printed-AreBlank : AreBlank printed
unfolding is_space
printed-AreBlank = record {
  first = tt;
  second = (refl, tt);
  third = (refl, tt);
  fourth = (refl, tt);
}

printed-Names : Names printed (codes "info_filter") 2 filter_row
printed-Names = record {
  blank = printed-AreBlank;
  name_ok = filter-IsName;
  found = filter-Names.found;
}

abbrev fresh : State
fresh = initial_state true

abbrev filtering : State
filtering = record fresh { conf = set_multi info_filter two_filters fresh.conf }

filters-there : get_multi info_filter filtering.conf ≡ two_filters
filters-there = unfold get_multi set_multi in refl

line-Fits :
    (line : Bytes)
    → none_of (λ c. c == b'\n') line ≡ true
    → none_of (λ c. c == 0) line ≡ true
    → length line + 1 < 4095
    → Fits line
line-Fits line newline nul short = record {
  one_line = none_of-All (λ c. c == b'\n') line newline;
  text = none_of-All (λ c. c == 0) line nul;
  short = short;
}

filter_lines-Fits : All Fits (value_lines (codes "info_filter") two_filters)
filter_lines-Fits = (
  line-Fits (codes "info_filter = xz") refl refl (omega arith),
  (line-Fits (codes "info_filter = gzip -9") refl refl (omega arith), tt),
)

log_string_multi-parse_file_example :
    (log_string_multi (codes "info_filter") info_filter filtering
      ≡ some (
        tt,
        record filtering {
          log =
              log_all filtering.conf.log
                (at_debug (value_lines (codes "info_filter") two_filters))
                filtering.log;
        },
      ))
    × Returns
        (parse_file
          (codes "f")
          (inr (text_of (value_lines (codes "info_filter") two_filters)))
          fresh)
        (Stored fresh
          (set_multi info_filter (get_multi info_filter fresh.conf ++ two_filters) fresh.conf))
log_string_multi-parse_file_example =
    log_string_multi-parse_file (codes "f") 2 filter_row info_filter printed-Names refl (codes "xz")
      (codes "gzip -9" ∷ []) filtering fresh filters-there two_filters-IsText filter_lines-Fits refl
