-- ===== src/Conf/Dump.antt =====
-- `log_conf` of conf.c, which a build without `NDEBUG` calls to log the configuration, and the
-- printer of each kind of option.
pub mod Restore
use crashinfo.Base.{
  ℕ, ◌&&◌, Bool, true, false, List, [], ◌∷◌, ◌++◌, Bytes, codes, ℤ, pos, negsuc, leb_ℤ,
  if◌then◌else◌, Option, none, some, show_int, show_hex,
}
use crashinfo.Log.{Priority}
use crashinfo.Conf.{Mapping, IntSlot, StrSlot, MultiSlot, get_int, get_str, get_multi, get_maps}
use crashinfo.Conf.Table.{
  EnumValue, EnumTable, values_of, Target, enum_of, int, string, string_multi, mapping_multi,
  Keyword, keywords,
}
use crashinfo.Conf.Value.{State, M, ◌>>=◌, ◌>>◌, return, say}

abbrev same : ℤ → ℤ → Bool
same a b = leb_ℤ a b && leb_ℤ b a

-- `log_dbg("%s = %s", …)`
unfoldable pub log_value : Bytes → Bytes → M (Unit {0})
log_value keyword text = say Priority.debug (keyword ++ (codes " = " ++ text))

-- The loop of `log_enum`, and its text for a value that is not in the table.
unfoldable pub value_name : List EnumValue → ℤ → Bytes
value_name [] n = codes "UNKNOWN_VALUE_" ++ show_int n
value_name (e ∷ es) n = if same e.value n then e.name else value_name es n

unfoldable pub log_enum : Bytes → EnumTable → IntSlot → M (Unit {0})
log_enum keyword table slot s =
    log_value keyword (value_name (values_of table) (get_int slot s.conf)) s

abbrev or_tilde : Option Bytes → Bytes
or_tilde none = codes "~"
or_tilde (some t) = t

unfoldable pub log_string : Bytes → StrSlot → M (Unit {0})
log_string keyword slot s = log_value keyword (or_tilde (get_str slot s.conf)) s

-- The loop over a list that is not empty.
unfoldable pub log_values : Bytes → List Bytes → M (Unit {0})
log_values keyword [] = return tt
log_values keyword (v ∷ vs) = log_value keyword v >> log_values keyword vs

unfoldable pub log_list : Bytes → List Bytes → M (Unit {0})
log_list keyword [] = log_value keyword (codes "~")
log_list keyword (v ∷ vs) = log_values keyword (v ∷ vs)

unfoldable pub log_string_multi : Bytes → MultiSlot → M (Unit {0})
log_string_multi keyword slot s = log_list keyword (get_multi slot s.conf) s

unfoldable pub log_int : Bytes → IntSlot → M (Unit {0})
log_int keyword slot s = log_value keyword (show_int (get_int slot s.conf)) s

abbrev pub mapping_texts : List Mapping → List Bytes
mapping_texts [] = []
mapping_texts (m ∷ ms) = (show_hex m.addr ++ b':' ∷ m.file) ∷ mapping_texts ms

unfoldable pub log_mapping_multi : Bytes → M (Unit {0})
log_mapping_multi keyword s = log_list keyword (mapping_texts (get_maps s.conf)) s

-- The table of printers, by the parser that a row has.
unfoldable pub dumper_of : Bytes → Target → M (Unit {0})
dumper_of keyword (enum_of table slot) = log_enum keyword table slot
dumper_of keyword (int slot) = log_int keyword slot
dumper_of keyword (string slot) = log_string keyword slot
dumper_of keyword (string_multi slot) = log_string_multi keyword slot
dumper_of keyword mapping_multi = log_mapping_multi keyword

unfoldable pub log_keywords : List Keyword → M (Unit {0})
log_keywords [] = return tt
log_keywords (k ∷ ks) = dumper_of k.keyword k.target >> log_keywords ks

unfoldable pub log_conf : M (Unit {0})
log_conf = log_keywords keywords
