-- ===== src/Conf/File.antt =====
-- `parse_file` of conf.c. What `fopen` finds is an argument: the bytes of the file, or the text that
-- `%m` gives for the error.
pub mod Lines
pub mod Exit
pub mod Total
use crashinfo.Base.{
  ℕ, zero, suc, ◌+◌, ◌%◌, ◌^◌, Bool, true, false, not, ◌&&◌, List, [], ◌∷◌, ◌++◌, Bytes, codes, ℤ,
  pos, negsuc, ◌==◌, if◌then◌else◌, ◌⊎◌, inl, inr, Option, none, some, length, show,
}
use crashinfo.Log.{Priority}
use crashinfo.Conf.Value.{State, M, ◌>>=◌, ◌>>◌, return, undefined, say}
use crashinfo.Conf.Line.{parse_line}

-- `fgets(line, n + 1, f)`: the bytes read, and those left in the file.
unfoldable pub fgets : ℕ → Bytes → Bytes × Bytes
fgets zero file = ([], file)
fgets (suc n) [] = ([], [])
fgets (suc n) (c ∷ file) =
    let (line, rest) = fgets n file in if c == b'\n' then (c ∷ [], file) else (c ∷ line, rest)

-- A buffer as a C string: its bytes up to the first 0.
unfoldable pub c_string : Bytes → Bytes
c_string [] = []
c_string (c ∷ s) = if c == 0 then [] else c ∷ c_string s

-- `sizeof line - 1`
abbrev pub line_max : ℕ
line_max = 4095

unfoldable pub fail_at : Bytes → ℕ → M ℤ
fail_at path linenum = do
  say Priority.crit (codes "Fatal error while parsing " ++ (path ++ (codes ":" ++ show 10 linenum)))
  return (negsuc 0)

-- The end of the loop's body: the next round, or `err1`.
unfoldable pub after_line : Bytes → ℕ → M ℤ → ℤ → M ℤ
after_line path linenum next (pos zero) = next
after_line path linenum next _ = fail_at path linenum

-- The body of the loop, on the line just read; `next` is the round behind it.
unfoldable pub file_line : Bytes → ℕ → Bytes → M ℤ → M ℤ
file_line path linenum line next =
    let too_long : M ℤ = (do
      say Priority.crit (codes "Line too long: " ++ (line ++ codes "..."))
      fail_at path linenum) in
    let parse : M ℤ = (do failed ← parse_line line; after_line path linenum next failed) in
    if length line == line_max then too_long else parse

-- The loop of `parse_file`. Each round reads a byte at least, so fuel above the length of the file
-- is enough; the end of the fuel counts as undefined.
unfoldable pub file_loop : ℕ → Bytes → ℕ → Bytes → M ℤ
file_loop zero path linenum file = undefined
file_loop (suc fuel) path linenum [] = return (pos 0)
file_loop (suc fuel) path linenum (c ∷ file) =
    let (line, rest) = fgets line_max (c ∷ file) in
    file_line path linenum (c_string line) (file_loop fuel path (linenum + 1) rest)

unfoldable pub parse_file : Bytes → Bytes ⊎ Bytes → M ℤ
parse_file path (inl error) = do
  say Priority.crit (codes "Can't open configuration file '" ++ (path ++ (codes "': " ++ error)))
  return (negsuc 0)
parse_file path (inr file) = file_loop (suc (length file)) path 1 file
