-- ===== src/Tests/MapTests.antt =====
-- The theorem on the directory of a process at a concrete input.
use crashinfo.Base.{
  inr, ◌==◌, true, false, pos, ◌≡◌, if◌then◌else◌, List, [], ◌∷◌, refl, Bytes, codes, arith, Option,
  some, none, length, show,
}
use crashinfo.Util.{is_space}
use crashinfo.Conf.Value.{State}
use crashinfo.Conf.Line.{initial_state}
use crashinfo.Conf.Value.Stores.{Returns}
use crashinfo.Conf.File.Lines.{text_of}
use crashinfo.Proc.{Scanned}
use crashinfo.Proc.Maps.{MapsLine, add_maps, mappings_of}
use crashinfo.Main.{read_proc}
use crashinfo.Main.Reading.{located, read_proc-Read}
use crashinfo.Proc.Whole.{ProcDir, set_exe, read_proc_info, Read, read_proc_info-Read}
use crashinfo.Conf.{get_maps}
use crashinfo.Tests.InfoTests.{task, no_pids, one_pid, read_test}
use crashinfo.Tests.LineTests.{none_of-All}

abbrev mapped_line : Bytes
mapped_line = codes "00400000-00401000 r-xp 00000000 08:01 1 /b/x"

abbrev lines : List Bytes
lines = mapped_line ∷ codes "x" ∷ []

abbrev scanned : Scanned
scanned = record { addr = 0x400000; exec = b'x'; tmp = b'/'; file = 40 }

abbrev scan : Bytes → Option Scanned
scan t = if length t == 45 then some scanned else none

abbrev start_state : State
start_state = initial_state true

mapped_line-MapsLine : MapsLine scan mapped_line
unfolding is_space
mapped_line-MapsLine = record {
  one_line = none_of-All (λ c. c == b'\n') mapped_line refl;
  text = none_of-All (λ c. c == 0) mapped_line refl;
  short = omega arith;
  described = λ h. record {
    address = omega arith;
    within = omega arith;
    dark = refl;
    room = unfold show in omega arith;
  };
}

x-MapsLine : MapsLine scan (codes "x")
x-MapsLine = record {
  one_line = (refl, tt);
  text = (refl, tt);
  short = omega arith;
  described = tt;
}

read_proc_info-Read_example :
    Returns
      (read_proc_info scan
        (codes "/proc/17/")
        (record { exe = inr (codes "/b/x"); maps = inr (text_of lines); tasks = inr (task ∷ []) })
        no_pids
        start_state)
      (Read one_pid (add_maps (set_exe (codes "/b/x") start_state.conf) (mappings_of scan lines)))
read_proc_info-Read_example =
    read_proc_info-Read scan (codes "/proc/17/") (codes "/b/x") lines (task ∷ []) no_pids one_pid []
      start_state refl (unfold get_maps in refl) (mapped_line-MapsLine, (x-MapsLine, tt)) read_test
      refl

abbrev given_exe : ProcDir
given_exe = record { exe = inr (codes "/b/x"); maps = inr (text_of lines); tasks = inr (task ∷ []) }

read_proc-Read_example :
    Returns (read_proc (λ path. inr given_exe) scan false (pos 17) no_pids start_state) (λ r t.
      (r ≡ one_pid)
      × (t.conf
          ≡ add_maps
              (set_exe (codes "/b/x") (located 17 start_state.conf))
              (mappings_of scan lines)))
read_proc-Read_example =
    read_proc-Read (λ path. inr given_exe) scan false (codes "/b/x") lines (task ∷ []) no_pids
      one_pid [] 17 start_state (omega arith) (omega arith) refl refl refl (unfold get_maps in refl)
      (mapped_line-MapsLine, (x-MapsLine, tt)) read_test refl
