-- ===== src/Info/Duration.antt =====
-- The processing time.
use crashinfo.Base.{
  ℕ, ◌+◌, ◌-◌, ◌*◌, ◌/◌, ◌^◌, ◌≤◌, ◌<◌, ◌≡◌, arith, Bool-cases, inl, inr, ltb, ℤ, pos, to_int,
}
use crashinfo.Info.{Timespec, sub_ℤ, elapsed}

abbrev pub nanoseconds : Timespec → ℕ
nanoseconds t = t.tv_sec * 1000000000 + t.tv_nsec

to_int_small : (n : ℕ) → n < 2 ^ 31 → to_int (pos n) ≡ pos n
unfolding to_int
to_int_small n h = ground arith

to_int_difference : (a b : ℕ) → b ≤ a → a - b < 2 ^ 31 → to_int (sub_ℤ a b) ≡ pos (a - b)
to_int_difference a b h small = ground (arith, to_int_small (a - b) small)

-- The seconds and microseconds of `n` nanoseconds, the microseconds below a second.
abbrev pub Measures : ℕ → ℤ × ℕ → Type 0
Measures n (sec, usec) =
    (s : ℕ) × (sec ≡ pos s) × (usec < 1000000) × (s * 1000000 + usec ≡ n / 1000)

-- Where the clock has not gone back and fewer than 2^31 seconds have passed, the processing time is
-- the difference of the two times, cut to microseconds, and its fraction fits the six digits printed.
pub elapsed-Measures :
    (start end : Timespec)
    → start.tv_nsec < 1000000000
    → end.tv_nsec < 1000000000
    → nanoseconds start ≤ nanoseconds end
    → end.tv_sec - start.tv_sec < 2 ^ 31
    → Measures (nanoseconds end - nanoseconds start) (elapsed start end)
unfolding elapsed
elapsed-Measures start end hs he later small = elim (Bool-cases (ltb end.tv_nsec start.tv_nsec)) [
  | inl borrow ↦
      let less : end.tv_nsec < start.tv_nsec = ground arith in
      rw borrow (
        end.tv_sec - (start.tv_sec + 1),
        to_int_difference end.tv_sec (start.tv_sec + 1) (omega (arith, later, less))
            (omega (arith, small)),
        omega (arith, less, hs),
        omega (arith, less, later),
      )
  | inr keep ↦
      let more : start.tv_nsec ≤ end.tv_nsec = ground arith in
      rw keep (
        end.tv_sec - start.tv_sec,
        to_int_difference end.tv_sec start.tv_sec (omega (arith, later, hs, he)) small,
        omega (arith, more, he),
        omega (arith, more, later, hs, he),
      )
]
