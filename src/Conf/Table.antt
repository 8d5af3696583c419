-- ===== src/Conf/Table.antt =====
-- The keyword table of conf.c and the tables of symbolic values. A row's `storage`, `parser` and
-- `parser_arg` are one target, so that a parser meets only storage of its own type.
use crashinfo.Base.{Bool, true, false, List, [], ◌∷◌, Bytes, codes, ℤ, pos, negsuc}
use crashinfo.Conf

pub record EnumValue : Type 0 where
  pub name : Bytes
  pub value : ℤ

abbrev enum_value : Bytes → ℤ → EnumValue
enum_value name value = record { name = name; value = value }

-- `parse_enum_bool`
abbrev pub enum_bool : List EnumValue
enum_bool = enum_value (codes "0") (pos 0) ∷ enum_value (codes "1") (pos 1) ∷ []

-- `parse_enum_exists`
abbrev pub enum_exists : List EnumValue
enum_exists =
    enum_value (codes "append") Conf.exists_append
    ∷ enum_value (codes "overwrite") Conf.exists_overwrite
    ∷ enum_value (codes "keep") Conf.exists_keep
    ∷ enum_value (codes "sequence") Conf.exists_sequence
    ∷ []

-- `parse_enum_loglevel`
abbrev pub enum_loglevel : List EnumValue
enum_loglevel =
    enum_value (codes "none") (negsuc 0)
    ∷ enum_value (codes "emerg") (pos 0)
    ∷ enum_value (codes "alert") (pos 1)
    ∷ enum_value (codes "crit") (pos 2)
    ∷ enum_value (codes "err") (pos 3)
    ∷ enum_value (codes "warning") (pos 4)
    ∷ enum_value (codes "notice") (pos 5)
    ∷ enum_value (codes "info") (pos 6)
    ∷ enum_value (codes "debug") (pos 7)
    ∷ []

-- The table that stands behind `parser_arg`.
pub data EnumTable : Type 0 where
  bool_values exists_values loglevel_values : EnumTable

abbrev pub values_of : EnumTable → List EnumValue
values_of bool_values = enum_bool
values_of exists_values = enum_exists
values_of loglevel_values = enum_loglevel

-- The parser of a row, with the storage that it writes.
pub data Target : Type 0 where
  enum_of : EnumTable → Conf.IntSlot → Target
  int : Conf.IntSlot → Target
  string : Conf.StrSlot → Target
  string_multi : Conf.MultiSlot → Target
  mapping_multi : Target

pub record Keyword : Type 0 where
  pub keyword : Bytes
  pub target : Target
  pub multi : Bool

abbrev row : Bytes → Target → Keyword
row k t = record { keyword = k; target = t; multi = false }

abbrev multi_row : Bytes → Target → Keyword
multi_row k t = record { keyword = k; target = t; multi = true }

abbrev pub keywords : List Keyword
keywords =
    row (codes "info_exists") (enum_of exists_values Conf.info_exists)
    ∷ row (codes "info_exists_seq") (int Conf.info_exists_seq)
    ∷ multi_row (codes "info_filter") (string_multi Conf.info_filter)
    ∷ row (codes "info_mkdir") (enum_of bool_values Conf.info_mkdir)
    ∷ multi_row (codes "info_notify") (string_multi Conf.info_notify)
    ∷ row (codes "info_output") (string Conf.info_output)
    ∷ row (codes "backtrace_max_depth") (int Conf.backtrace_max_depth)
    ∷ row (codes "core_exists") (enum_of exists_values Conf.core_exists)
    ∷ row (codes "core_exists_seq") (int Conf.core_exists_seq)
    ∷ multi_row (codes "core_filter") (string_multi Conf.core_filter)
    ∷ row (codes "core_mkdir") (enum_of bool_values Conf.core_mkdir)
    ∷ multi_row (codes "core_notify") (string_multi Conf.core_notify)
    ∷ row (codes "core_output") (string Conf.core_output)
    ∷ row (codes "core_buffer_size") (int Conf.core_buffer_size)
    ∷ multi_row (codes "info_core_notify") (string_multi Conf.info_core_notify)
    ∷ row (codes "core") (string Conf.core)
    ∷ row (codes "log_info") (enum_of loglevel_values Conf.log_info)
    ∷ row (codes "log_syslog") (enum_of loglevel_values Conf.log_syslog)
    ∷ row (codes "log_stderr") (enum_of loglevel_values Conf.log_stderr)
    ∷ row (codes "proc_ignore") (enum_of bool_values Conf.proc_ignore)
    ∷ row (codes "proc_path") (string Conf.proc_path)
    ∷ row (codes "proc_exe") (string Conf.proc_exe)
    ∷ multi_row (codes "proc_maps") mapping_multi
    ∷ multi_row (codes "proc_dump_root") (string_multi Conf.proc_dump_root)
    ∷ multi_row (codes "proc_dump_task") (string_multi Conf.proc_dump_task)
    ∷ []
