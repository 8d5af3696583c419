-- ===== src/Unwind.antt =====
-- unw.c. What libunwind and the directory of the tasks give is an argument.
pub mod Choice
pub mod Core
use crashinfo.Base.{
  ℕ, zero, suc, ◌+◌, ◌-◌, ◌*◌, ◌%◌, ◌^◌, Bool, true, false, ◌==◌, leb, ltb, if◌then◌else◌, List, [],
  ◌∷◌, ◌++◌, Bytes, codes, Option, none, some, ◌⊎◌, inl, inr, ℤ, pos, negsuc, ltb_ℤ, to_int, show,
  show_int, show_hex, length, replicate,
}
use crashinfo.Log.{Priority}
use crashinfo.Yaml.{fputy}
use crashinfo.Conf.Text.{is_digit, strtol}
use crashinfo.Info.{Out, ◌>>◌, fputs, say, escaped, spaces, show_zeros, Setup, task_dumper}
use crashinfo.Proc.{named_by_digit}

abbrev pub int_max : ℤ
int_max = pos (2 ^ 31 - 1)

-- `minpid` and `minpid_fs`
pub record Least : Type 0 where
  pub minpid : ℤ
  pub minpid_fs : ℤ

-- A round of the loop over the threads; `exists` is `access` of the directory of a pid.
unfoldable pub prepare_step : (ℤ → Bool) → ℤ → Least → Least
prepare_step exists pid l = record {
  minpid = if ltb_ℤ pid l.minpid then pid else l.minpid;
  minpid_fs =
      if ltb_ℤ pid l.minpid_fs then (if exists pid then pid else l.minpid_fs) else l.minpid_fs;
}

unfoldable pub prepare_loop : (ℤ → Bool) → List ℤ → Least → Least
prepare_loop exists [] l = l
prepare_loop exists (pid ∷ pids) l = prepare_loop exists pids (prepare_step exists pid l)

-- `unw_prepare` on the pids of the threads of a core that libunwind has opened.
unfoldable pub unw_prepare : (ℤ → Bool) → List ℤ → ℤ
unw_prepare exists pids =
    let l = prepare_loop exists pids (record { minpid = int_max; minpid_fs = int_max }) in
    if ltb_ℤ l.minpid_fs int_max then l.minpid_fs else l.minpid

-- The registers from `i` on, up to `n` of them.
unfoldable pub registers : (ℕ → Option ℕ) → ℕ → ℕ → Bytes
registers get_reg zero i = []
registers get_reg (suc n) i = elim (get_reg i) [
  | none ↦ []
  | some reg ↦
      let comma : Bytes = if i == 0 then [] else codes "," in
      let line : Bytes = if i % 4 == 0 then codes "\n     " else [] in
      comma ++ (line ++ ((codes " 0x" ++ show_zeros 16 16 reg) ++ registers get_reg n (suc i)))
]

-- What libunwind says of a frame: `%rip`, the bounds of the procedure and whether it has a handler,
-- `unw_is_signal_frame`, the name and the offset, the backing file, and whether there is a next frame.
pub record Frame : Type 0 where
  pub ip : Option ℕ
  pub info : Option (ℕ × ℕ × Bool)
  pub signal_frame : ℤ
  pub name : Option (Bytes × ℕ)
  pub file : Option Bytes
  pub step : Bool

-- `%#5lx`
abbrev pub hex_wide : ℕ → Bytes
hex_wide n = replicate (5 - length (show_hex n)) b' ' ++ show_hex n

abbrev pub ip_text : Option ℕ → Bytes
ip_text none = codes "UNKNOWN"
ip_text (some ip) = show_zeros 16 16 ip

abbrev pub proc_length : Option (ℕ × ℕ × Bool) → ℕ
proc_length none = 0
proc_length (some (start_ip, end_ip, handler)) = (end_ip + 2 ^ 64 - start_ip) % 2 ^ 64

abbrev pub exception : Option (ℕ × ℕ × Bool) → ℤ
exception none = negsuc 0
exception (some (start_ip, end_ip, handler)) = if handler then pos 1 else pos 0

abbrev pub signal : ℤ → ℤ
signal (pos zero) = pos 0
signal (pos (suc n)) = pos 1
signal (negsuc n) = negsuc 0

-- The name, the spaces behind it (`20 - strlen(fname)` is a `size_t`), the offset and the length.
unfoldable pub name_text : Option (Bytes × ℕ) → ℕ → Bytes
name_text none len = []
name_text (some (fname, off)) len =
    codes ", s: "
    ++ (fname
        ++ (codes ","
            ++ (spaces ((20 + 2 ^ 64 - length fname) % 2 ^ 64)
                ++ (codes " o: " ++ (hex_wide off ++ (codes ", l: " ++ hex_wide len))))))

unfoldable pub file_text : Bool → Option Bytes → Out
file_text char_signed none = fputs []
file_text char_signed (some file) = fputs (codes ", f: ") >> escaped (fputy char_signed file)

unfoldable pub frame_text : Bool → Frame → Out
frame_text char_signed f =
    fputs (
      codes "\n      { a: "
      ++ (ip_text f.ip
          ++ (name_text f.name (proc_length f.info)
              ++ (codes ", e: "
                  ++ (show_int (exception f.info)
                      ++ (codes ", S: " ++ show_int (signal f.signal_frame)))))))
    >> file_text char_signed f.file
    >> fputs (codes " }")

-- The frames from `depth` on, up to `n` of them.
unfoldable pub backtrace : Bool → (ℕ → Frame) → ℕ → ℕ → Out
backtrace char_signed frames zero depth = fputs []
backtrace char_signed frames (suc n) depth =
    let later = backtrace char_signed frames n (suc depth) in
    let comma : Bytes = if depth == 0 then [] else codes "," in
    fputs comma
    >> frame_text char_signed (frames depth)
    >> (if (frames depth).step then later else fputs [])

-- A thread of the core: the error of its cursor, or what libunwind says of it. The times are in
-- seconds and microseconds.
pub record Thread : Type 0 where
  pub pid : ℤ
  pub error : Option Bytes
  pub utime : ℕ × ℕ
  pub stime : ℕ × ℕ
  pub get_reg : ℕ → Option ℕ
  pub frames : ℕ → Frame

abbrev pub time_text : ℕ × ℕ → Bytes
time_text (sec, usec) = show 10 sec ++ (codes "." ++ (show_zeros 10 6 usec ++ codes "\n"))

-- A round of the loop over the threads; `dump` is `task_dumper` of the pid that `proc_pid_map` gives.
unfoldable pub thread_dump : Bool → ℕ → (ℤ → Out) → Thread → Out
thread_dump char_signed max_depth dump t = elim (t.error) [
  | some text ↦ say Priority.error (codes "Failed to initialize the unwind cursor: " ++ text)
  | none ↦
      dump t.pid
      >> fputs (codes "    user_time: " ++ time_text t.utime)
      >> fputs (codes "    system_time: " ++ time_text t.stime)
      >> fputs (codes "    registers: [" ++ (registers t.get_reg 256 0 ++ codes " ]\n"))
      >> fputs (codes "    backtrace: [")
      >> backtrace char_signed t.frames max_depth 0
      >> fputs (codes " ]\n")
]

unfoldable pub threads_dump : Bool → ℕ → (ℤ → Out) → List Thread → Out
threads_dump char_signed max_depth dump [] = fputs []
threads_dump char_signed max_depth dump (t ∷ threads) =
    thread_dump char_signed max_depth dump t >> threads_dump char_signed max_depth dump threads

-- Without libunwind: the entries of the directory of the tasks.
unfoldable pub entries_dump : Setup → List Bytes → Out
entries_dump s [] = fputs []
entries_dump s (name ∷ names) =
    let later = entries_dump s names in
    if named_by_digit name then task_dumper s (to_int (strtol 10 name).0) >> later else later

unfoldable pub tasks_dump : Setup → Bytes ⊎ List Bytes → Out
tasks_dump s (inl error) =
    say Priority.error (codes "Can't open '" ++ (s.proc_path ++ (codes "/task': " ++ error)))
tasks_dump s (inr names) = fputs (codes "threads:\n") >> entries_dump s names

-- `unw_dump` without libunwind.
unfoldable pub unw_dump : Setup → Bytes ⊎ List Bytes → Out
unw_dump s directory =
    if s.ignore
    then fputs (codes "threads: ~ # Unwinder is disabled and proc_ignore = 1\n")
    else tasks_dump s directory
