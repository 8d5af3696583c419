-- ===== src/Conf/Value.antt =====
-- The parsers of conf.c for one value, and the state that they work on. A result of `none` is
-- undefined behaviour of C: a null pointer read, or a write past a buffer.
pub mod Frame
pub mod Stores
pub mod Numbers
pub mod Printed
pub mod Exit
use crashinfo.Base.{
  ℕ, zero, suc, ◌+◌, Bool, true, false, ◌&&◌, List, [], ◌∷◌, ◌++◌, Bytes, codes, str_eq, ℤ, pos,
  negsuc, to_int, to_uint64, ◌==◌, leb, if◌then◌else◌, Option, none, some, length, take, drop,
  get_or, set,
}
use crashinfo.Log.{Priority, LogState, logmsg}
use crashinfo.Util.{strlen_chomp}
use crashinfo.Conf.{
  Conf, Mapping, IntSlot, StrSlot, MultiSlot, set_int, set_str, get_multi, set_multi, get_maps,
  set_maps,
}
use crashinfo.Conf.Text.{strtok, strtol}
use crashinfo.Conf.Table.{
  EnumValue, EnumTable, values_of, Target, enum_of, int, string, string_multi, mapping_multi,
  Keyword,
}

-- The globals of conf.c and log.c. `keyword_seen` has a counter for each row of the table, and
-- `memory` says of each coming allocation whether it succeeds, all of them behind its end.
pub record State : Type 0 where
  pub conf : Conf
  pub keyword_seen : List ℕ
  pub memory : List Bool
  pub log : LogState

abbrev pub M : Type 0 → Type 0
M A = State → Option (A × State)

infixl 5 ◌>>=◌ ◌>>◌
abbrev pub ◌>>=◌ : {A B : Type 0} → M A → (A → M B) → M B
◌>>=◌ m f s = elim (m s) [ none ↦ none | some (a, s') ↦ f a s' ]

abbrev pub ◌>>◌ : {A B : Type 0} → M A → M B → M B
m >> k = m >>= λ _. k

abbrev pub return : {A : Type 0} → A → M A
return a s = some (a, s)

abbrev pub undefined : {A : Type 0} → M A
undefined s = none

abbrev pub modify : (Conf → Conf) → M (Unit {0})
modify f s = some (tt, record s { conf = f s.conf })

-- `log_crit` and its like.
abbrev pub say : Priority → Bytes → M (Unit {0})
say p text s = some (tt, record s { log = logmsg s.conf.log p text s.log })

-- Whether the next `malloc` succeeds.
abbrev pub first_outcome : List Bool → Bool
first_outcome [] = true
first_outcome (b ∷ _) = b

abbrev pub later_outcomes : List Bool → List Bool
later_outcomes [] = []
later_outcomes (_ ∷ r) = r

unfoldable pub malloc : M Bool
malloc s = some (first_outcome s.memory, record s { memory = later_outcomes s.memory })

abbrev quoted : Bytes → Bytes
quoted t = codes "'" ++ (t ++ codes "'")

-- `parse_endline`, on what `strtok` has kept.
unfoldable pub parse_endline : Bytes → M ℤ
parse_endline kept = elim (strtok kept) [
  | none ↦ return (pos 0)
  | some (token, _) ↦ (do
    say Priority.crit (codes "Garbage at the end of the line: " ++ (token ++ codes "..."))
    return (negsuc 0))
]

unfoldable pub find_value : List EnumValue → Bytes → Option ℤ
find_value [] token = none
find_value (e ∷ es) token = if str_eq e.name token then some e.value else find_value es token

abbrev joined : Bytes → List EnumValue → Bytes
joined out [] = out
joined out (e ∷ es) = joined (out ++ (codes ", " ++ e.name)) es

-- What the message shows in its buffer of 256 bytes: the names, cut at 252 and then marked. `none`
-- is a text that `strncat` writes past the buffer, or a name that `strncpy` leaves unterminated.
unfoldable pub shown_values : List EnumValue → Option Bytes
shown_values [] = none
shown_values (e ∷ es) =
    let all = joined e.name es in
    if leb 252 (length e.name)
    then none
    else if leb 256 (length all)
    then none
    else some (if leb 252 (length all) then take 252 all ++ codes "..." else all)

unfoldable pub parse_enum : Bytes → EnumTable → IntSlot → Bytes → M ℤ
parse_enum keyword table slot value = elim (strtok value) [
  | none ↦ undefined
  | some (token, kept) ↦ elim (find_value (values_of table) token) [
    | some v ↦ (do modify (set_int slot v); parse_endline kept)
    | none ↦ elim (shown_values (values_of table)) [
      | none ↦ undefined
      | some values ↦ (do
        say Priority.crit (
            codes "Invalid value "
            ++ (quoted token
                ++ (codes " for "
                    ++ (quoted keyword ++ (codes ", expected one of [" ++ (values ++ codes "]"))))))
        return (negsuc 0))
    ]
  ]
]

unfoldable pub allocation_failed : Bytes → M ℤ
allocation_failed keyword = do
  say Priority.crit (codes "Allocation failed while processing " ++ quoted keyword)
  return (negsuc 0)

unfoldable pub parse_string_multi : Bytes → MultiSlot → Bytes → M ℤ
parse_string_multi keyword slot value =
    let len = strlen_chomp value in
    let clear : M ℤ = (do modify (set_multi slot []); return (pos 0)) in
    let append : M ℤ = (do
      modify λ c. set_multi slot (get_multi slot c ++ take len value ∷ []) c
      return (pos 0)) in
    let add : M ℤ = (do ok ← malloc; if ok then append else allocation_failed keyword) in
    if str_eq (codes "~") value then clear else add

unfoldable pub parse_string : Bytes → StrSlot → Bytes → M ℤ
parse_string keyword slot value =
    let clear : M ℤ = (do modify (set_str slot none); return (pos 0)) in
    let store : M ℤ = (do
      modify (set_str slot (some (take (strlen_chomp value) value)))
      return (pos 0)) in
    let copy : M ℤ = (do
      modify (set_str slot none)
      ok ← malloc
      if ok then store else allocation_failed keyword) in
    if str_eq (codes "~") value then clear else copy

-- `parse_int` behind `strtol`, by what `*end` is.
unfoldable pub store_int : Bytes → IntSlot → Bytes → Bytes → ℤ × Bytes → M ℤ
store_int keyword slot token kept (n, []) = do modify (set_int slot (to_int n)); parse_endline kept
store_int keyword slot token kept (n, _ ∷ _) = do
  say Priority.crit (
      codes "Keyword "
      ++ (quoted keyword ++ (codes " requires integer value. Got " ++ quoted token)))
  return (negsuc 0)

unfoldable pub parse_int : Bytes → IntSlot → Bytes → M ℤ
parse_int keyword slot value = elim (strtok value) [
  | none ↦ undefined
  | some (token, kept) ↦ store_int keyword slot token kept (strtol 0 token)
]

-- `parse_mapping_multi` behind `strtoll`, by what `*end` is.
unfoldable pub add_mapping : Bytes → Bytes → ℤ × Bytes → M ℤ
add_mapping keyword value (n, end) =
    let file = drop 1 end in
    let mapping : Mapping = record { addr = to_uint64 n; file = take (strlen_chomp file) file } in
    let append : M ℤ = (do modify λ c. set_maps (get_maps c ++ mapping ∷ []) c; return (pos 0)) in
    let add : M ℤ = (do ok ← malloc; if ok then append else allocation_failed keyword) in
    let refuse : M ℤ = (do
      say Priority.crit (
          codes "Keyword "
          ++ (quoted keyword
              ++ (codes " requires the argument in the form <addr>:<path>. Got " ++ quoted value)))
      return (negsuc 0)) in
    if get_or end 0 0 == b':' then add else refuse

unfoldable pub parse_mapping_multi : Bytes → Bytes → M ℤ
parse_mapping_multi keyword value = add_mapping keyword value (strtol 0 value)

unfoldable pub parser_of : Bytes → Target → Bytes → M ℤ
parser_of keyword (enum_of table slot) = parse_enum keyword table slot
parser_of keyword (int slot) = parse_int keyword slot
parser_of keyword (string slot) = parse_string keyword slot
parser_of keyword (string_multi slot) = parse_string_multi keyword slot
parser_of keyword mapping_multi = parse_mapping_multi keyword

-- `keywords[i].parser(&keywords[i], value)`
unfoldable pub run_parser : Keyword → Bytes → M ℤ
run_parser k = parser_of k.keyword k.target
