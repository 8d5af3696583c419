-- ===== src/Conf.antt =====
-- conf.h and the data of conf.c: the configuration, its defaults, and the storage that the keyword
-- table points to. A C `int` is an integer, a `char *` an `Option`, a linked list a list.
pub mod Text
pub mod Slots
pub mod Table
pub mod Value
pub mod Line
pub mod File
pub mod Dump
use crashinfo.Base.{ℕ, ◌*◌, Bool, List, [], Bytes, ℤ, pos, negsuc, Option, none, if◌then◌else◌}
use crashinfo.Log.{LogConf}

pub record Mapping : Type 0 where
  pub addr : ℕ
  pub file : Bytes

pub record OutputConf : Type 0 where
  pub output : Option Bytes
  pub exists : ℤ
  pub exists_seq : ℤ
  pub mkdir : ℤ
  pub filter : List Bytes
  pub notify : List Bytes

pub record ProcConf : Type 0 where
  pub ignore : ℤ
  pub path : Option Bytes
  pub exe : Option Bytes
  pub maps : List Mapping

pub record ProcDumpConf : Type 0 where
  pub root : List Bytes
  pub task : List Bytes

pub record Conf : Type 0 where
  pub info : OutputConf
  pub core : OutputConf
  pub core_buffer_size : ℤ
  pub core_path : Option Bytes
  pub info_core_notify : List Bytes
  pub backtrace_max_depth : ℤ
  pub log : LogConf
  pub proc : ProcConf
  pub proc_dump : ProcDumpConf

-- `enum conf_exists_e`
abbrev pub exists_default : ℤ
exists_default = pos 0

abbrev pub exists_append : ℤ
exists_append = pos 1

abbrev pub exists_overwrite : ℤ
exists_overwrite = pos 2

abbrev pub exists_keep : ℤ
exists_keep = pos 3

abbrev pub exists_sequence : ℤ
exists_sequence = pos 4

abbrev output_with : ℤ → OutputConf
output_with mode = record {
  output = none;
  exists = mode;
  exists_seq = pos 0;
  mkdir = pos 0;
  filter = [];
  notify = [];
}

-- The initial `conf`; the flag is whether `NDEBUG` is defined.
abbrev pub default_conf : Bool → Conf
default_conf ndebug = record {
  info = output_with exists_append;
  core = output_with exists_keep;
  core_buffer_size = pos (4 * 1024 * 1024);
  core_path = none;
  info_core_notify = [];
  backtrace_max_depth = pos 50;
  log = record { info = pos 5; stderr = if ndebug then pos 3 else pos 7; syslog = negsuc 0 };
  proc = record { ignore = pos 0; path = none; exe = none; maps = [] };
  proc_dump = record { root = []; task = [] };
}

-- The `int`s that a keyword stores to.
pub data IntSlot : Type 0 where
  info_exists info_exists_seq info_mkdir backtrace_max_depth : IntSlot
  core_exists core_exists_seq core_mkdir core_buffer_size : IntSlot
  log_info log_syslog log_stderr proc_ignore : IntSlot

-- The strings that a keyword stores to.
pub data StrSlot : Type 0 where
  info_output core_output core proc_path proc_exe : StrSlot

-- The lists of strings that a keyword appends to.
pub data MultiSlot : Type 0 where
  info_filter info_notify core_filter core_notify info_core_notify : MultiSlot
  proc_dump_root proc_dump_task : MultiSlot

unfoldable pub get_int : IntSlot → Conf → ℤ
get_int info_exists c = c.info.exists
get_int info_exists_seq c = c.info.exists_seq
get_int info_mkdir c = c.info.mkdir
get_int backtrace_max_depth c = c.backtrace_max_depth
get_int core_exists c = c.core.exists
get_int core_exists_seq c = c.core.exists_seq
get_int core_mkdir c = c.core.mkdir
get_int core_buffer_size c = c.core_buffer_size
get_int log_info c = c.log.info
get_int log_syslog c = c.log.syslog
get_int log_stderr c = c.log.stderr
get_int proc_ignore c = c.proc.ignore

unfoldable pub set_int : IntSlot → ℤ → Conf → Conf
set_int info_exists v c = record c { info = record (c.info) { exists = v } }
set_int info_exists_seq v c = record c { info = record (c.info) { exists_seq = v } }
set_int info_mkdir v c = record c { info = record (c.info) { mkdir = v } }
set_int backtrace_max_depth v c = record c { backtrace_max_depth = v }
set_int core_exists v c = record c { core = record (c.core) { exists = v } }
set_int core_exists_seq v c = record c { core = record (c.core) { exists_seq = v } }
set_int core_mkdir v c = record c { core = record (c.core) { mkdir = v } }
set_int core_buffer_size v c = record c { core_buffer_size = v }
set_int log_info v c = record c { log = record (c.log) { info = v } }
set_int log_syslog v c = record c { log = record (c.log) { syslog = v } }
set_int log_stderr v c = record c { log = record (c.log) { stderr = v } }
set_int proc_ignore v c = record c { proc = record (c.proc) { ignore = v } }

unfoldable pub get_str : StrSlot → Conf → Option Bytes
get_str info_output c = c.info.output
get_str core_output c = c.core.output
get_str core c = c.core_path
get_str proc_path c = c.proc.path
get_str proc_exe c = c.proc.exe

unfoldable pub set_str : StrSlot → Option Bytes → Conf → Conf
set_str info_output v c = record c { info = record (c.info) { output = v } }
set_str core_output v c = record c { core = record (c.core) { output = v } }
set_str core v c = record c { core_path = v }
set_str proc_path v c = record c { proc = record (c.proc) { path = v } }
set_str proc_exe v c = record c { proc = record (c.proc) { exe = v } }

unfoldable pub get_multi : MultiSlot → Conf → List Bytes
get_multi info_filter c = c.info.filter
get_multi info_notify c = c.info.notify
get_multi core_filter c = c.core.filter
get_multi core_notify c = c.core.notify
get_multi info_core_notify c = c.info_core_notify
get_multi proc_dump_root c = c.proc_dump.root
get_multi proc_dump_task c = c.proc_dump.task

unfoldable pub set_multi : MultiSlot → List Bytes → Conf → Conf
set_multi info_filter v c = record c { info = record (c.info) { filter = v } }
set_multi info_notify v c = record c { info = record (c.info) { notify = v } }
set_multi core_filter v c = record c { core = record (c.core) { filter = v } }
set_multi core_notify v c = record c { core = record (c.core) { notify = v } }
set_multi info_core_notify v c = record c { info_core_notify = v }
set_multi proc_dump_root v c = record c { proc_dump = record (c.proc_dump) { root = v } }
set_multi proc_dump_task v c = record c { proc_dump = record (c.proc_dump) { task = v } }

-- `conf.proc.maps`
unfoldable pub get_maps : Conf → List Mapping
get_maps c = c.proc.maps

unfoldable pub set_maps : List Mapping → Conf → Conf
set_maps v c = record c { proc = record (c.proc) { maps = v } }
