-- ===== src/Transfer.antt =====
-- `safe_read` and `safe_write` of main.c, which repeat `read` and `write` until all is moved. The
-- answers of the system are an argument, one for each call.
pub mod Moves
use crashinfo.Base.{
  ℕ, zero, suc, ◌+◌, ◌-◌, min, Bool, true, false, List, [], ◌∷◌, ◌++◌, Bytes, ℤ, pos, negsuc, ◌==◌,
  ltb, if◌then◌else◌, Option, none, some, length, take, drop,
}

-- What a call does: it moves as many bytes as it can, up to some number, or is interrupted by a
-- signal (`EINTR`), or fails with another error.
pub data Answer : Type 0 where
  moved : ℕ → Answer
  interrupted failed : Answer

-- The result behind a call that failed with `size` bytes moved before it.
abbrev pub after_failure : ℕ → ℤ
after_failure size = if size == 0 then negsuc 0 else pos size

-- The loop of `safe_write`, with the bytes left of `buf`, `size`, and what the descriptor has got.
-- `none` is a call that has not returned yet.
unfoldable pub write_loop : List Answer → ℕ → Bytes → ℕ → Bytes → Option (ℤ × Bytes)
write_loop [] count rest size out = none
write_loop (interrupted ∷ answers) count rest size out = write_loop answers count rest size out
write_loop (failed ∷ answers) count rest size out = some (after_failure size, out)
write_loop (moved n ∷ answers) count rest size out =
    let rtn = min n (count - size) in
    let out' = out ++ take rtn rest in
    let repeat = write_loop answers count (drop rtn rest) (size + rtn) out' in
    if rtn == 0
    then some (pos size, out)
    else if ltb (size + rtn) count
    then repeat
    else some (pos (size + rtn), out')

-- `safe_write(fd, buf, count)` of all of `buf`, with what it writes.
unfoldable pub safe_write : List Answer → Bytes → Option (ℤ × Bytes)
safe_write answers buf = write_loop answers (length buf) buf 0 []

-- The loop of `safe_read`, with the bytes that the descriptor has still to give, and `buf` so far. The
-- result has what is left to read.
unfoldable pub read_loop : List Answer → ℕ → Bytes → ℕ → Bytes → Option (ℤ × Bytes × Bytes)
read_loop [] count source size buf = none
read_loop (interrupted ∷ answers) count source size buf = read_loop answers count source size buf
read_loop (failed ∷ answers) count source size buf = some (after_failure size, buf, source)
read_loop (moved n ∷ answers) count source size buf =
    let rtn = min (min n (length source)) (count - size) in
    let buf' = buf ++ take rtn source in
    let source' = drop rtn source in
    let repeat = read_loop answers count source' (size + rtn) buf' in
    if rtn == 0
    then some (pos size, buf, source)
    else if ltb (size + rtn) count
    then repeat
    else some (pos (size + rtn), buf', source')

-- `safe_read(fd, buf, count)`
unfoldable pub safe_read : List Answer → ℕ → Bytes → Option (ℤ × Bytes × Bytes)
safe_read answers count source = read_loop answers count source 0 []
