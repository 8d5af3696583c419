-- ===== src/Info.antt =====
-- The document of info.c: `info_dump` and what it calls. What the system answers is an argument. What
-- is written and what is logged are the result; a write past the buffer of `yaml_esc` is `none`.
pub mod Arguments
pub mod Block
pub mod Duration
pub mod Sequence
pub mod Mappings
use crashinfo.Base.{
  ℕ, zero, suc, ◌+◌, ◌-◌, ◌*◌, ◌/◌, Bool, true, false, ◌==◌, ltb, leb, if◌then◌else◌, List, [], ◌∷◌,
  ◌++◌, Bytes, codes, Option, none, some, ◌⊎◌, inl, inr, ℤ, pos, negsuc, to_int, show, show_int,
  length, replicate, take,
}
use crashinfo.Log.{Priority}
use crashinfo.Util.{strlen_chomp}
use crashinfo.Yaml.{yaml_esc, fputy}
use crashinfo.Conf.{Mapping}
use crashinfo.Conf.File.{fgets, c_string}
use crashinfo.Filters.{Messages}

-- What is written and logged.
abbrev pub Out : Type 0
Out = Option (Bytes × Messages)

infixl 5 ◌>>◌
unfoldable pub ◌>>◌ : Out → Out → Out
none >> later = none
some (text, messages) >> none = none
some (text, messages) >> some (text', messages') = some (text ++ text', messages ++ messages')

abbrev pub fputs : Bytes → Out
fputs text = some (text, [])

abbrev pub say : Priority → Bytes → Out
say p text = some ([], (p, text) ∷ [])

-- A text that may not fit the buffer of `yaml_esc`.
unfoldable pub escaped : Option Bytes → Out
escaped none = none
escaped (some text) = fputs text

-- `spaces` of info.h, with `sizeof SP`.
unfoldable pub spaces : ℕ → Bytes
spaces n = replicate (if leb 24 n then 23 else n) b' '

-- `n` printed with `base` in `width` digits at least.
unfoldable pub show_zeros : ℕ → ℕ → ℕ → Bytes
show_zeros base width n = replicate (width - length (show base n)) b'0' ++ show base n

-- The loop over the bytes of `cmdline`.
unfoldable pub cmdline_loop : Bool → Bytes → Out
cmdline_loop char_signed [] = fputs []
cmdline_loop char_signed (c ∷ []) = if c == 0 then fputs [] else escaped (yaml_esc char_signed c)
cmdline_loop char_signed (c ∷ d ∷ file) =
    let later = cmdline_loop char_signed (d ∷ file) in
    if c == 0 then fputs (codes "\", \"") >> later else escaped (yaml_esc char_signed c) >> later

-- What stands between the brackets.
unfoldable pub cmdline_text : Bool → Bytes → Out
cmdline_text char_signed [] = fputs []
cmdline_text char_signed (c ∷ file) =
    fputs (codes "\"") >> cmdline_loop char_signed (c ∷ file) >> fputs (codes "\"")

unfoldable pub cmdline : Bool → Option Bytes → Out
cmdline char_signed none = fputs (codes "cmdline: [ ") >> fputs (codes " ]\n")
cmdline char_signed (some file) =
    fputs (codes "cmdline: [ ") >> cmdline_text char_signed file >> fputs (codes " ]\n")

unfoldable pub mapping : Bool → Mapping → Out
mapping char_signed m =
    fputs (codes "  0x" ++ (show_zeros 16 16 m.addr ++ codes ": "))
    >> escaped (fputy char_signed m.file)
    >> fputs (codes "\n")

unfoldable pub mappings_loop : Bool → List Mapping → Out
mappings_loop char_signed [] = fputs []
mappings_loop char_signed (m ∷ maps) = mapping char_signed m >> mappings_loop char_signed maps

unfoldable pub mappings : Bool → List Mapping → Out
mappings char_signed [] = fputs (codes "executable_mappings: ~\n")
mappings char_signed (m ∷ maps) =
    fputs (codes "executable_mappings:\n") >> mappings_loop char_signed (m ∷ maps)

-- `sizeof buf - 1`
abbrev pub dump_max : ℕ
dump_max = 4095

-- A line in the buffer, without the white space at its end.
abbrev pub dump_body : Bytes → Bytes
dump_body line = take (strlen_chomp (c_string line)) (c_string line)

-- The loop over the lines of a file, on fuel above its length.
unfoldable pub dump_lines : ℕ → ℕ → Bytes → Out
dump_lines zero indent file = none
dump_lines (suc fuel) indent [] = fputs []
dump_lines (suc fuel) indent (c ∷ file) =
    let (line, rest) = fgets dump_max (c ∷ file) in
    fputs (spaces (indent + 4) ++ (dump_body line ++ codes "\n")) >> dump_lines fuel indent rest

-- What opening a file of a directory gives: its bytes, or the text of an error.
abbrev pub Directory : Type 0
Directory = Bytes → Bytes ⊎ Bytes

unfoldable pub dump_opened : ℕ → Bytes → Bytes ⊎ Bytes → Out
dump_opened indent file (inl error) =
    say Priority.error (codes "Can't open proc file '" ++ (file ++ (codes "': " ++ error)))
    >> fputs (codes ": ~ # Can't open: " ++ (error ++ codes "\n"))
dump_opened indent file (inr content) =
    fputs (codes ": |\n") >> dump_lines (suc (length content)) indent content

unfoldable pub dump_files : Bool → Directory → ℕ → List Bytes → Out
dump_files char_signed dir indent [] = fputs []
dump_files char_signed dir indent (file ∷ files) =
    fputs (spaces (indent + 2))
    >> escaped (fputy char_signed file)
    >> dump_opened indent file (dir file)
    >> dump_files char_signed dir indent files

unfoldable pub proc_dump : Bool → Bool → Directory → List Bytes → ℕ → Out
proc_dump char_signed ignore dir [] indent = fputs (spaces indent) >> fputs (codes "proc_dump: ~\n")
proc_dump char_signed true dir (file ∷ files) indent =
    fputs (spaces indent) >> fputs (codes "proc_dump: ~ # proc_ignore = 1\n")
proc_dump char_signed false dir (file ∷ files) indent =
    fputs (spaces indent)
    >> fputs (codes "proc_dump:\n")
    >> dump_files char_signed dir indent (file ∷ files)

-- The configuration that the document reads, and the directory of a task.
pub record Setup : Type 0 where
  pub char_signed : Bool
  pub ignore : Bool
  pub proc_path : Bytes
  pub exe : Bytes
  pub maps : List Mapping
  pub root_files : List Bytes
  pub task_files : List Bytes
  pub proc_fd : Directory
  pub open_task : Bytes → Bytes ⊎ Directory

unfoldable pub dump_task : Setup → Bytes → Bytes ⊎ Directory → Out
dump_task s path (inl error) =
    say Priority.error
      (codes "Can't open '" ++ (s.proc_path ++ (codes "/" ++ (path ++ (codes "': " ++ error)))))
dump_task s path (inr taskfd) = proc_dump s.char_signed s.ignore taskfd s.task_files 4

unfoldable pub task_dumper : Setup → ℤ → Out
task_dumper s tid =
    fputs (
      codes "  - tid: "
      ++ (show_int tid ++ codes " # --------------------------------------------------\n"))
    >> dump_task s (codes "task/" ++ show_int tid) (s.open_task (codes "task/" ++ show_int tid))

-- `struct timespec`
pub record Timespec : Type 0 where
  pub tv_sec : ℕ
  pub tv_nsec : ℕ

abbrev pub sub_ℤ : ℕ → ℕ → ℤ
sub_ℤ a b = if leb b a then pos (a - b) else negsuc (b - a - 1)

-- The seconds and microseconds that are printed as the processing time.
unfoldable pub elapsed : Timespec → Timespec → ℤ × ℕ
elapsed start end =
    if ltb end.tv_nsec start.tv_nsec
    then (
      to_int (sub_ℤ end.tv_sec (start.tv_sec + 1)),
      (end.tv_nsec + 1000000000 - start.tv_nsec) / 1000,
    )
    else (to_int (sub_ℤ end.tv_sec start.tv_sec), (end.tv_nsec - start.tv_nsec) / 1000)

unfoldable pub processing_time : Timespec → Timespec → Out
processing_time start end =
    let (sec, usec) = elapsed start end in
    fputs (
      codes "processing_time: "
      ++ (show_int sec ++ (codes "." ++ (show_zeros 10 6 usec ++ codes "\n"))))

-- How flushing and synchronising fail: whether the error is one that is passed over, and its text.
unfoldable pub flushed : Option (Bool × Bytes) → Out
flushed none = fputs []
flushed (some (true, text)) = say Priority.warning (codes "Info stream truncated")
flushed (some (false, text)) =
    say Priority.error (codes "Failed flushing the info stream: " ++ text)

unfoldable pub synchronised : Option (Bool × Bytes) → Out
synchronised none = fputs []
synchronised (some (true, text)) = fputs []
synchronised (some (false, text)) =
    say Priority.error (codes "Failed synchronizing the info stream: " ++ text)

-- The whole document; `datetime` is the text of `strftime`, and `threads` what `unw_dump` does.
unfoldable pub info_dump :
    Setup
    → Bytes
    → Option Bytes
    → Out
    → Timespec
    → Timespec
    → Option (Bool × Bytes)
    → Option (Bool × Bytes)
    → Out
info_dump s datetime file threads start end flushing syncing =
    fputs (codes "---\ndatetime: ")
    >> fputs datetime
    >> fputs (codes "exe: ")
    >> escaped (fputy s.char_signed s.exe)
    >> fputs (codes "\n")
    >> cmdline s.char_signed file
    >> mappings s.char_signed s.maps
    >> proc_dump s.char_signed s.ignore s.proc_fd s.root_files 0
    >> threads
    >> processing_time start end
    >> flushed flushing
    >> synchronised syncing
