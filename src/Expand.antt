-- ===== src/Expand.antt =====
-- The first half of `open_output` in main.c: the wild cards of the output file name, expanded from
-- right to left and in place in the buffer `path`, with its helpers `is_escape` and `intlen`.
pub mod Buffer
pub mod Scan
pub mod Exe
pub mod Wildcard
pub mod Correct
pub mod Name
pub mod Counter
use crashinfo.Base.{
  show_int, ℕ, zero, suc, ◌+◌, ◌-◌, ◌/◌, ◌%◌, Bool, true, false, not, ◌&&◌, ◌==◌, ltb, leb,
  if◌then◌else◌, List, [], ◌∷◌, ◌++◌, Bytes, codes, ℤ, pos, negsuc, Option, none, some, length,
  get_or, take, replicate, show, reverse,
}
use crashinfo.Log.{Priority}

-- A `char` array, by its cells.
abbrev pub Cells : Type 0
Cells = ℕ → ℕ

abbrev pub update : Cells → ℕ → ℕ → Cells
update path j v k = if k == j then v else path k

-- `memcpy(&path[j], text, …)`
unfoldable pub copy : Cells → ℕ → Bytes → Cells
copy path j [] = path
copy path j (b ∷ text) = copy (update path j b) (suc j) text

-- `sizeof path - 1`
abbrev pub path_last : ℕ
path_last = 4095

abbrev pub esc : ℕ
esc = b'@'

-- The length of the run of ESC that ends before `n`.
unfoldable pub escape_run : Cells → ℕ → ℕ
escape_run str zero = 0
escape_run str (suc i) = if str i == esc then suc (escape_run str i) else 0

-- `is_escape(str, idx)`
unfoldable pub is_escape : Cells → ℕ → Bool
is_escape str idx = escape_run str (suc idx) % 2 == 1

-- `intlen`, with fuel above its argument.
unfoldable pub intlen_loop : ℕ → ℕ → ℕ
intlen_loop zero i = 1
intlen_loop (suc fuel) i = let more = 1 + intlen_loop fuel (i / 10) in if ltb i 10 then 1 else more

unfoldable pub intlen : ℕ → ℕ
intlen i = intlen_loop (suc i) i

-- `%0*d`, of a number that is not negative.
unfoldable pub show_padded : ℕ → ℕ → Bytes
show_padded width n = replicate (width - length (show 10 n)) b'0' ++ show 10 n

-- What the expansion reads: `c->output`, `c->exists`, `c->exists_seq` (positive, or 0 for all other
-- values), `run.pid`, `conf.proc.exe` and `counter`.
pub record Env : Type 0 where
  pub output : Bytes
  pub sequence : Bool
  pub exists_seq : ℕ
  pub pid : ℤ
  pub exe : Option Bytes
  pub counter : ℕ

-- `seq_len`
unfoldable pub seq_len : Env → ℕ
seq_len e = if ltb 0 e.exists_seq then intlen (e.exists_seq - 1) else intlen e.counter

abbrev pub Messages : Type 0
Messages = List (Priority × Bytes)

-- How the expansion goes on or ends. `undefined` is a null pointer read.
pub data Outcome : Type 0 where
  next : Cells → ℕ → ℕ → Messages → Outcome
  done : Cells → ℕ → Messages → Outcome
  too_long undefined : Outcome

-- `case 'p'` and `case 'Q'`: `text` goes where it ends at `j`; the test on `j` comes before the
-- subtraction, which must not stop at 0. A wild card stands behind the '/' of the name, so that `i` is 2
-- at least, and by the test `start` is above 0 where the text is stored.
unfoldable pub put_text : Cells → ℕ → ℕ → Bytes → Messages → Outcome
put_text path i j text messages =
    let start = j + 1 - length text in
    if ltb (j + 1) (i - 1 + length text)
    then too_long
    else next (copy path start text) (i - 2) (start - 1) messages

-- The loop of `case 'e'` and `case 'E'` over the bytes of `exe` from the last, with `path[i]` to
-- tell the cases apart; `none` is `goto too_long`.
unfoldable pub put_exe : ℕ → Bytes → Cells → ℕ → Option (Cells × ℕ)
put_exe i [] path j = some (path, j)
put_exe i (p ∷ before) path j =
    let c = if p == b'/' then b'!' else p in
    let rest = put_exe i before (update path j c) (j - 1) in
    if leb j i then none else if p == b'/' && path i == b'e' then some (path, j) else rest

abbrev pub after_exe : ℕ → Messages → Option (Cells × ℕ) → Outcome
after_exe i messages none = too_long
after_exe i messages (some (path, j)) = next path (i - 2) j messages

unfoldable pub expand_exe : Option Bytes → Cells → ℕ → ℕ → Messages → Outcome
expand_exe none path i j messages = undefined
expand_exe (some exe) path i j messages = after_exe i messages (put_exe i (reverse exe) path j)

abbrev notice : Messages → Bytes → Messages
notice messages text = messages ++ (Priority.notice, text) ∷ []

-- The `default` case: the ESC and the byte behind it are kept.
unfoldable pub keep_both : Cells → ℕ → ℕ → Messages → Outcome
keep_both path i j messages =
    let first = update path j (path i) in
    next (update first (j - 1) (first (i - 1))) (i - 2) (j - 2) messages

-- The `switch`, at an escaped byte.
unfoldable pub expand_wildcard : Env → Cells → ℕ → ℕ → Messages → Outcome
expand_wildcard e path i j messages =
    let c = path i in
    let unknown =
      notice messages
        (codes "Unknown wild card '@" ++ (c ∷ (codes "' in '" ++ (e.output ++ codes "'")))) in
    let misplaced =
      notice messages (
        codes "Sequence wild card in '"
        ++ (e.output ++ codes "', but sequence mode is not used")) in
    if c == esc
    then next (update path j c) (i - 2) (j - 1) messages
    else if c == b'p'
    then put_text path i j (show_int e.pid) messages
    else if c == b'Q'
    then put_text path i j (take (seq_len e) (show_padded (seq_len e) e.counter))
        (if e.sequence then messages else misplaced)
    else if c == b'e'
    then expand_exe e.exe path i j messages
    else if c == b'E'
    then expand_exe e.exe path i j messages
    else keep_both path i j unknown

-- The body of the loop, with its `i--, j--`.
unfoldable pub expand_step : Env → Cells → ℕ → ℕ → Messages → Outcome
expand_step e path i j messages =
    if is_escape path (i - 1)
    then expand_wildcard e path i j messages
    else next (update path j (path i)) (i - 1) (j - 1) messages

-- The loop, and the '/' that is stored behind it. `i` falls in each round, so fuel above `i` is
-- enough; the end of the fuel counts as undefined.
unfoldable pub expand_loop : Env → ℕ → Outcome → Outcome
expand_loop e zero s = undefined
expand_loop e (suc fuel) (next path zero j messages) = done (update path j b'/') j messages
expand_loop e (suc fuel) (next path (suc i) j messages) =
    expand_loop e fuel (expand_step e path (suc i) j messages)
expand_loop e (suc fuel) s = s

-- The buffer behind `strftime`, which has stored `name` and its terminator.
abbrev pub stamped : Bytes → Cells
stamped name k = get_or name k 0

-- From `restart` to the name's first byte, which is at `j` of `done _ j _`.
unfoldable pub expand : Env → Bytes → Outcome
expand e name =
    expand_loop e (suc (suc (length name))) (next (stamped name) (length name) path_last [])
