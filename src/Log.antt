-- ===== src/Log.antt =====
-- log.c: `logmsg`, the exit code that it keeps, and `handler` of main.c, which ends the program
-- with it. The three sinks are the bytes or records written to them so far.
pub mod Status
pub mod Sinks
use crashinfo.Base.{
  ℕ, ◌+◌, Bool, true, false, ◌&&◌, List, [], ◌∷◌, ◌++◌, Bytes, codes, bit_or, ℤ, pos, leb_ℤ,
  if◌then◌else◌,
}

-- The priorities of <syslog.h>.
pub data Priority : Type 0 where
  emerg alert crit error warning notice info debug : Priority

unfoldable pub level : Priority → ℕ
level emerg = 0
level alert = 1
level crit = 2
level error = 3
level warning = 4
level notice = 5
level info = 6
level debug = 7

-- The `log` part of `struct conf_s`: a threshold for each sink, -1 for none.
pub record LogConf : Type 0 where
  pub info : ℤ
  pub stderr : ℤ
  pub syslog : ℤ

-- `exitcode`, whether `run.info.output` is open, and what the sinks have got.
pub record LogState : Type 0 where
  pub exitcode : ℕ
  pub info_open : Bool
  pub stderr : Bytes
  pub syslog : List (Priority × Bytes)
  pub info : Bytes

abbrev pub log_start : LogState
log_start = record { exitcode = 0; info_open = false; stderr = []; syslog = []; info = [] }

unfoldable pub prefix : Priority → Bytes
prefix emerg = codes "EMRG: "
prefix alert = codes "ALRT: "
prefix crit = codes "CRIT: "
prefix error = codes "ERR:  "
prefix warning = codes "WARN: "
prefix notice = codes "NOTI: "
prefix info = codes "INFO: "
prefix debug = codes "DBG:  "

-- What the `switch` does to `exitcode`.
unfoldable pub mark : Priority → ℕ → ℕ
mark emerg e = bit_or e 0x10
mark alert e = bit_or e 0x8
mark crit e = bit_or e 0x4
mark error e = bit_or e 0x2
mark warning e = bit_or e 0x1
mark _ e = e

-- `text` is the message as `vfprintf` formats it. The sinks are written one after another.
unfoldable pub logmsg : LogConf → Priority → Bytes → LogState → LogState
unfolding level prefix mark
logmsg c p text s =
    let line = prefix p ++ text ++ codes "\n" in
    let passes = λ (threshold : ℤ). leb_ℤ (pos (level p)) threshold in
    record s {
      exitcode = mark p s.exitcode;
      stderr = if passes c.stderr then s.stderr ++ line else s.stderr;
      syslog = if passes c.syslog then s.syslog ++ (p, text) ∷ [] else s.syslog;
      info = if passes c.info && s.info_open then s.info ++ (codes "# " ++ line) else s.info;
    }

-- The messages of a run, in order.
abbrev pub log_all : LogConf → List (Priority × Bytes) → LogState → LogState
log_all c [] s = s
log_all c ((p, text) ∷ rest) s = log_all c rest (logmsg c p text s)

-- `handler`: the status with which a caught signal ends the program.
pub handler : LogState → ℕ
handler s = bit_or 0x20 s.exitcode
