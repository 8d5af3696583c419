-- ===== src/Tests/CopyTests.antt =====
-- The theorems on the copies of a core at concrete inputs.
use crashinfo.Base.{
  ℕ, zero, suc, ◌-◌, min, length, All, replicate, length-replicate, ltb, true, false, List, [], ◌∷◌,
  ◌≡◌, ◌≢◌, refl, Bytes, codes, pos, some, none, arith,
}
use crashinfo.Transfer.{Answer, moved, failed, safe_read, safe_write, read_loop, write_loop}
use crashinfo.Copy.{buf_size, Round, feed, Copied, dump_core}
use crashinfo.Copy.Whole.{Copies}
use crashinfo.Copy.Progress.{IsActive, IsOver, feed-IsOver}
use crashinfo.Copy.Ends.{Returns, Idle, dump_core_ends}

abbrev one_call : List Answer
one_call = moved 32768 ∷ failed ∷ []

one_call_returns : Returns one_call
unfolding safe_read read_loop
one_call_returns source = ground arith

abbrev core : Bytes
core = codes "core"

abbrev round : Round
round = record { answers = moved 2 ∷ failed ∷ []; known = true; again = false }

read_core : safe_read one_call buf_size core ≡ some (pos 4, core, [])
unfolding safe_read read_loop
read_core = refl

write_core : safe_write round.answers core ≢ none
unfolding safe_write write_loop
write_core = cc

dump_core_ends_example :
    (c : Copied) × (dump_core false one_call (round ∷ []) (one_call ∷ []) core ≡ some c)
    × Copies false core core (some c)
dump_core_ends_example =
    dump_core_ends false one_call round [] (one_call ∷ []) 3 core [] core read_core refl write_core
      (one_call_returns, tt) (omega arith)

abbrev idle : Round
idle = record { answers = moved 0 ∷ []; known = false; again = true }

idle-Idle : Idle idle
unfolding safe_write write_loop
idle-Idle = (refl, refl)

abbrev slow : Round
slow = record { answers = moved 1 ∷ failed ∷ []; known = false; again = true }

slow-IsActive : IsActive slow
unfolding safe_write write_loop
slow-IsActive c [] = tt
slow-IsActive c (d ∷ left) =
    let one : min 1 (length (c ∷ d ∷ left) - 0) ≡ 1 = omega arith in
    let more : ltb 1 (length (c ∷ d ∷ left)) ≡ true = ground arith in rw (one, more) tt

many-IsActive : (n : ℕ) → All IsActive (replicate n slow)
many-IsActive zero = tt
many-IsActive (suc n) = (slow-IsActive, many-IsActive n)

feed-IsOver_example : IsOver (feed (replicate 200 slow) 0 core [])
feed-IsOver_example =
    feed-IsOver (replicate 200 slow) 0 core [] (many-IsActive 200) (omega arith)
      (omega (arith, length-replicate 200 slow))
