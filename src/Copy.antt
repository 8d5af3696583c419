-- ===== src/Copy.antt =====
-- `main` of main.c from the creation of the thread on: feeding the unwinder until it gives the pid, and
-- copying the core. What the calls of the system do is an argument.
pub mod Ends
pub mod Progress
pub mod Whole
use crashinfo.Base.{
  ℕ, zero, suc, ◌+◌, ◌*◌, Bool, true, false, ltb, if◌then◌else◌, List, [], ◌∷◌, ◌++◌, Bytes, Option,
  none, some, ℤ, pos, negsuc, drop,
}
use crashinfo.Transfer.{Answer, safe_write, safe_read}

-- `sizeof buf`
abbrev pub buf_size : ℕ
buf_size = 32 * 1024

-- A round of the loop that feeds: how the calls of `write` go, whether `run.pid` is set then, and
-- whether the error is EAGAIN.
pub record Round : Type 0 where
  pub answers : List Answer
  pub known : Bool
  pub again : Bool

-- The loop is left with some bytes of the buffer not written, or a call or a round is still to come.
-- The bytes that the pipe has got stand last.
pub data Feed : Type 0 where
  ended waiting : Bytes → Bytes → Feed

abbrev pub retry : Bool → ℕ → Bytes → Bytes → Feed → Feed
retry again tries left out next =
    if again then (if ltb (suc tries) 50 then next else ended left out) else ended left out

-- The end of a round in which `safe_write` has returned.
abbrev pub end_round : Round → ℤ → ℕ → Bytes → Bytes → Feed → Feed → Feed
end_round r (pos n) tries left out next later = if r.known then ended left out else next
end_round r (negsuc n) tries left out next later =
    if r.known then ended left out else retry r.again tries left out later

-- `tries` behind a call.
abbrev pub tries_after : ℤ → ℕ → ℕ
tries_after (pos (suc n)) tries = 0
tries_after _ tries = tries

-- `buf_write += rtn`
abbrev pub left_after : ℤ → Bytes → Bytes
left_after (pos n) left = drop n left
left_after (negsuc n) left = left

-- The loop, with `tries`, the bytes of the buffer behind `buf_write`, and what the pipe has got.
unfoldable pub feed : List Round → ℕ → Bytes → Bytes → Feed
feed [] tries left out = waiting left out
feed (r ∷ rounds) tries left out = elim (safe_write r.answers left) [
  | none ↦ waiting left out
  | some (rtn, text) ↦
      let tries' = tries_after rtn tries in
      let left' = left_after rtn left in
      let out' = out ++ text in
      end_round r rtn tries' left' out' (feed rounds tries' left' out')
        (feed rounds (suc tries') left' out')
]

-- What a round of the loop that copies makes of what `safe_read` returns, before the others.
abbrev pub copied : ℤ → Bytes → Bytes → Option (Bytes × Bytes) → Option (Bytes × Bytes)
copied (pos (suc n)) block input' none = none
copied (pos (suc n)) block input' (some (blocks, rest)) = some (block ++ blocks, rest)
copied _ block input' later = some ([], input')

-- The loop that copies: what it has read when a read gives nothing or fails, and what is not read.
unfoldable pub copy_loop : List (List Answer) → Bytes → Option (Bytes × Bytes)
copy_loop [] input = none
copy_loop (a ∷ answers) input = elim (safe_read a buf_size input) [
  | none ↦ none
  | some (rtn, block, input') ↦ copied rtn block input' (copy_loop answers input')
]

-- What is passed to `safe_write` for the core, and for the pipe while it is open, and what is not read
-- from standard input.
pub record Copied : Type 0 where
  pub core : Bytes
  pub pipe : Bytes
  pub rest : Bytes

-- The copies of the first block and of what follows it, in a program that is built with libunwind or
-- without.
abbrev pub copies : Bool → Bytes → Bytes → Bytes → Bytes × Bytes → Copied
copies true first left out (blocks, rest) = record {
  core = first ++ blocks;
  pipe = out ++ (left ++ blocks);
  rest = rest;
}
copies false first left out (blocks, rest) = record { core = blocks; pipe = out; rest = rest }

abbrev pub copy_rest : Bool → Bytes → Feed → Option (Bytes × Bytes) → Option Copied
copy_rest libunwind first (waiting left out) later = none
copy_rest libunwind first (ended left out) none = none
copy_rest libunwind first (ended left out) (some blocks) =
    some (copies libunwind first left out blocks)

-- The tests of the first read. Where it has failed, a program with libunwind calls `safe_write` with a
-- size of -1.
abbrev pub begin : Bool → ℤ → Bytes → Feed → Option (Bytes × Bytes) → Option Copied
begin libunwind (pos (suc n)) first fed later = copy_rest libunwind first fed later
begin libunwind (pos zero) first fed later = copy_rest libunwind [] (ended [] []) later
begin true (negsuc n) first fed later = none
begin false (negsuc n) first fed later = copy_rest false [] (ended [] []) later

-- With a pipe and a thread: the first block is read and fed, and the rest follows when the outputs are
-- open.
unfoldable pub dump_core :
    Bool → List Answer → List Round → List (List Answer) → Bytes → Option Copied
dump_core libunwind reading rounds answers input = elim (safe_read reading buf_size input) [
  | none ↦ none
  | some (rtn, first, input') ↦
      begin libunwind rtn first (feed rounds 0 first []) (copy_loop answers input')
]
