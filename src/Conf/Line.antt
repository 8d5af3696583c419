-- ===== src/Conf/Line.antt =====
-- `parse_line` of conf.c.
pub mod Defined
pub mod Spacing
pub mod Effect
pub mod Meaning
pub mod Exit
use crashinfo.Base.{
  ℕ, zero, suc, ◌+◌, ◌%◌, ◌^◌, Bool, true, false, not, ◌&&◌, List, [], ◌∷◌, ◌++◌, Bytes, codes,
  str_eq, ℤ, pos, negsuc, ◌==◌, if◌then◌else◌, Option, none, some, length, take, get_or, set,
  replicate,
}
use crashinfo.Log.{Priority, log_start}
use crashinfo.Util.{strlen_chomp}
use crashinfo.Conf.{Conf, default_conf}
use crashinfo.Conf.Text.{cut_at, skip_delim, strtok}
use crashinfo.Conf.Table.{Keyword, keywords}
use crashinfo.Conf.Value.{State, M, ◌>>=◌, ◌>>◌, return, say, run_parser}

-- The row of the first keyword spelled `name`, behind `i` rows, with its number.
unfoldable pub find_keyword : ℕ → List Keyword → Bytes → Option (ℕ × Keyword)
find_keyword i [] name = none
find_keyword i (k ∷ ks) name =
    let later = find_keyword (suc i) ks name in if str_eq k.keyword name then some (i, k) else later

-- `keyword_seen[i]++` as an `unsigned`: the value before, and the effect.
unfoldable pub count_keyword : ℕ → M ℕ
count_keyword i s =
    let n = get_or s.keyword_seen i 0 in
    some (n, record s { keyword_seen = set s.keyword_seen i ((n + 1) % 2 ^ 32) })

unfoldable pub run_keyword : ℕ → Keyword → Bytes → M ℤ
run_keyword i k value =
    let twice : M (Unit {0}) = say Priority.info (
      codes "'"
      ++ (k.keyword
          ++ codes "' specified multiple times although it's not a multi value option")) in
    do
      n ← count_keyword i
      if not (n == 0) && not k.multi then twice else return tt
      run_parser k value

-- The loop over the table, and what is said of a keyword that is not there.
unfoldable pub directive : Bytes → Bytes → M ℤ
directive name value = elim (find_keyword 0 keywords name) [
  | none ↦ (do
    say Priority.warning (codes "Unknown keyword '" ++ (name ++ codes "'"))
    return (pos 1))
  | some (i, k) ↦ run_keyword i k value
]

-- The test on a value that is missing, or has nothing behind its leading white space, and
-- `value[strlen_chomp(value)] = 0`.
unfoldable pub with_value : Bytes → Option Bytes → M ℤ
with_value name (some (c ∷ value)) = directive name (take (strlen_chomp (c ∷ value)) (c ∷ value))
with_value name _ = do
  say Priority.crit (codes "Missing value for '" ++ (name ++ codes "'"))
  return (pos 1)

-- `parse_line` behind the search for '=': the text before it, and the value if there is one.
unfoldable pub parse_parts : Bytes → Option Bytes → M ℤ
parse_parts line value = elim (strtok line) [
  | none ↦ return (pos 0)
  | some (name, _) ↦
      (let work = with_value name value in if get_or name 0 0 == b'#' then return (pos 0) else work)
]

unfoldable pub parse_line : Bytes → M ℤ
parse_line line = elim (cut_at b'=' line) [
  | none ↦ parse_parts line none
  | some (before, behind) ↦ parse_parts before (some (skip_delim behind))
]

-- The state before the first option is read, in a build with or without `NDEBUG`.
abbrev pub initial_state : Bool → State
initial_state ndebug = record {
  conf = default_conf ndebug;
  keyword_seen = replicate (length keywords) 0;
  memory = [];
  log = log_start;
}
