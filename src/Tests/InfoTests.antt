-- ===== src/Tests/InfoTests.antt =====
-- The theorems on the document, on /proc and on the unwinder at concrete inputs, and runs.
use crashinfo.Base.{
  ◌-◌, true, List, [], ◌∷◌, ◌++◌, ◌≡◌, refl, Bytes, codes, pos, some, inr, arith, All, leb_ℤ,
}
use crashinfo.Conf.Text.{
  strtol, signed_part, skip_space, unsigned_part, scan_digits, clamp, is_digit, digit_value,
}
use crashinfo.Conf.File.{fgets, c_string}
use crashinfo.Util.{is_space}
use crashinfo.Yaml.{yaml_esc}
use crashinfo.Info.{
  ◌>>◌, fputs, cmdline, cmdline_text, cmdline_loop, escaped, spaces, dump_opened, Timespec, elapsed,
}
use crashinfo.Info.Arguments.{nul_terminated}
use crashinfo.Yaml.Scalar.{Fits}
use crashinfo.Info.Sequence.{read_sequence, read_sequence-cmdline}
use crashinfo.Base.{◌≢◌}
use crashinfo.Conf.{Mapping}
use crashinfo.Info.{mappings}
use crashinfo.Info.Mappings.{FitsFile, read_mappings, read_mappings-mappings}
use crashinfo.Info.Block.{Copied, block, dump_opened-IsBlock}
use crashinfo.Info.Duration.{Measures, nanoseconds, elapsed-Measures}
use crashinfo.Proc.{
  PidMap, read, Task, tasks_loop, read_tasks, read_status, status_loop, nspid_line, nspid_text,
  after_last, room, store, proc_pid_map,
}
use crashinfo.Base.{◌==◌, digits_onto, digit_char, show}
use crashinfo.Tests.LineTests.{none_of-All}
use crashinfo.Proc.Status.{LinuxThread, IsThread, task_of}
use crashinfo.Proc.Tasks.{proc_pid_map-read_tasks}
use crashinfo.Proc.Pids.{Mapped, proc_pid_map-Mapped}
use crashinfo.Unwind.{unw_prepare, prepare_loop, prepare_step}
use crashinfo.Unwind.Choice.{Chosen, unw_prepare-Chosen}

abbrev arguments : List Bytes
arguments = codes "vi" ∷ [] ∷ codes "x" ∷ []

arguments-ne : All (λ a. All (λ c. c ≢ 0) a) arguments
arguments-ne = (
  ((λ e. absurd (omega (arith, e))), ((λ e. absurd (omega (arith, e))), tt)),
  (tt, (((λ e. absurd (omega (arith, e))), tt), tt)),
)

cmdline_test :
    cmdline true (some (nul_terminated arguments))
    ≡ fputs (codes "cmdline: [ \"vi\", \"\", \"x\" ]\n")
unfolding cmdline cmdline_text cmdline_loop ◌>>◌ escaped yaml_esc
cmdline_test = refl

dump_opened-IsBlock_example :
    (bodies : List Bytes) × (dump_opened 0 (codes "status") (inr (codes "a \nb"))
      ≡ fputs (codes ": |\n" ++ block (spaces 4) bodies))
    × Copied 4095 (codes "a \nb") bodies
dump_opened-IsBlock_example = dump_opened-IsBlock 0 (codes "status") (codes "a \nb")

abbrev start : Timespec
start = record { tv_sec = 10; tv_nsec = 900000000 }

abbrev end : Timespec
end = record { tv_sec = 12; tv_nsec = 100001500 }

elapsed-Measures_example : Measures (nanoseconds end - nanoseconds start) (elapsed start end)
elapsed-Measures_example =
    elapsed-Measures start end (omega arith) (omega arith) (omega arith) (omega arith)

abbrev pub task : Task
task = record { name = codes "17"; status = inr (codes "Name:\tx\nNSpid:\t17\t3\n"); memory = true }

abbrev pub no_pids : PidMap
no_pids = record { entries = []; count = 0 }

abbrev pub one_pid : PidMap
one_pid = record { entries = record { pid = pos 17; nspid = pos 3 } ∷ []; count = 1 }

pub read_test : read_tasks (task ∷ []) no_pids ≡ read one_pid []
unfolding tasks_loop read_tasks read_status status_loop nspid_line nspid_text after_last room store
    fgets c_string strtol signed_part skip_space unsigned_part scan_digits clamp is_digit
    digit_value is_space
read_test = refl

proc_pid_map-Mapped_example : Mapped one_pid.entries (pos 3) (proc_pid_map one_pid (pos 3))
proc_pid_map-Mapped_example =
    proc_pid_map-Mapped (task ∷ []) no_pids one_pid [] (pos 3) (refl, tt) read_test

unw_prepare-Chosen_example :
    Chosen
      (leb_ℤ (pos 20))
      (pos 17 ∷ pos 30 ∷ pos 25 ∷ [])
      (unw_prepare (leb_ℤ (pos 20)) (pos 17 ∷ pos 30 ∷ pos 25 ∷ []))
unw_prepare-Chosen_example =
    unw_prepare-Chosen (leb_ℤ (pos 20)) (pos 17) (pos 30 ∷ pos 25 ∷ []) (refl, (refl, (refl, tt)))

unw_prepare_test : unw_prepare (leb_ℤ (pos 20)) (pos 17 ∷ pos 30 ∷ pos 25 ∷ []) ≡ pos 25
unfolding unw_prepare prepare_loop prepare_step
unw_prepare_test = refl

abbrev status_thread : LinuxThread
status_thread = record {
  tid = 17;
  nspid = 3;
  before = codes "Name:\tx" ∷ [];
  levels = codes "\t17";
  after = codes "Threads:\t1\n";
  memory = true;
}

status_thread-IsThread : IsThread status_thread
unfolding show digits_onto digit_char
status_thread-IsThread = record {
  small = omega arith;
  small_nspid = omega arith;
  others = (
    (
      record {
        one_line = none_of-All (λ c. c == b'\n') (codes "Name:\tx") refl;
        text = none_of-All (λ c. c == 0) (codes "Name:\tx") refl;
        short = omega arith;
      },
      refl,
    ),
    tt,
  );
  line = record {
    one_line = none_of-All (λ c. c == b'\n') (codes "NSpid:\t17\t3") refl;
    text = none_of-All (λ c. c == 0) (codes "NSpid:\t17\t3") refl;
    short = omega arith;
  };
  tabs = (refl, (refl, (refl, tt)));
  memory = refl;
}

proc_pid_map-read_tasks_example :
    (m : PidMap) × (read_tasks (task_of status_thread ∷ []) (record { entries = []; count = 0 })
      ≡ read m [])
    × (proc_pid_map m (pos 3) ≡ some (pos 17, []))
proc_pid_map-read_tasks_example =
    proc_pid_map-read_tasks (status_thread ∷ []) 3 (status_thread-IsThread, tt)

arguments-Fits : All (λ a. All (Fits true) a) arguments
arguments-Fits = (
  ((omega arith, inr (omega arith)), ((omega arith, inr (omega arith)), tt)),
  (tt, (((omega arith, inr (omega arith)), tt), tt)),
)

read_sequence-cmdline_example :
    (text : Bytes) × (cmdline true (some (nul_terminated arguments))
      ≡ some (codes "cmdline: [ " ++ text, []))
    × (read_sequence text ≡ some (arguments, codes "\n"))
read_sequence-cmdline_example = read_sequence-cmdline true arguments arguments-ne arguments-Fits

abbrev two_maps : List Mapping
two_maps = record { addr = 0x400000; file = codes "/x" } ∷ record { addr = 0; file = [] } ∷ []

two_maps-FitsFile : All (λ m. FitsFile true m) two_maps
two_maps-FitsFile =
    (((omega arith, inr (omega arith)), ((omega arith, inr (omega arith)), tt)), (tt, tt))

read_mappings-mappings_example :
    (text : Bytes) × (mappings true two_maps ≡ some (text, []))
    × (read_mappings (text ++ codes "proc_dump: ~\n") ≡ some (two_maps, codes "proc_dump: ~\n"))
read_mappings-mappings_example =
    read_mappings-mappings true two_maps (codes "proc_dump: ~\n") two_maps-FitsFile refl
