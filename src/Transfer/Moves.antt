-- ===== src/Transfer/Moves.antt =====
-- What `safe_read` and `safe_write` move.
use crashinfo.Base.{
  ℕ, zero, suc, ◌+◌, ◌-◌, ◌≤◌, ◌<◌, min, List, [], ◌∷◌, ◌++◌, ◌≡◌, ◌≢◌, ◌⊎◌, inl, inr, refl, ◌∙◌,
  ap, arith, Bytes, ℤ, pos, negsuc, ◌==◌, ltb, subst, Option, none, some, length, length-append,
  take, drop, take-append-drop, append_assoc, All, Bool-cases,
}
use crashinfo.Transfer.{
  Answer, moved, interrupted, failed, after_failure, write_loop, safe_write, read_loop, safe_read,
}

-- The result counts the bytes moved, or is -1 when none were.
abbrev pub Counts : ℤ → ℕ → Type 0
Counts r n = (r ≡ pos n) ⊎ ((r ≡ negsuc 0) × (n ≡ 0))

-- How a loop ends: `out` and what is left are the whole, and the result counts `out`.
abbrev pub Moved : Bytes → Option (ℤ × Bytes) → Type 0
Moved whole none = Unit
Moved whole (some (r, out)) = (rest : Bytes) × (out ++ rest ≡ whole) × Counts r (length out)

Counts-failure : (n : ℕ) → Counts (after_failure n) n
Counts-failure n = ground arith

length-take : (n : ℕ) (s : Bytes) → length (take n s) ≡ min n (length s)
length-take zero s = omega arith
length-take (suc n) [] = omega arith
length-take (suc n) (c ∷ s) = ground (arith, length-take n s)

length-drop : (n : ℕ) (s : Bytes) → length (drop n s) ≡ length s - n
length-drop zero s = omega arith
length-drop (suc n) [] = omega arith
length-drop (suc n) (c ∷ s) = ground (arith, length-drop n s)

shift : (out s : Bytes) (n : ℕ) → (out ++ take n s) ++ drop n s ≡ out ++ s
shift out s n = append_assoc out (take n s) (drop n s) ∙ ap (λ t. out ++ t) (take-append-drop n s)

length-moved : (out s : Bytes) (n : ℕ) → length (out ++ take n s) ≡ length out + min n (length s)
length-moved out s n = length-append out (take n s) ∙ ap (λ k. length out + k) (length-take n s)

take_all : (n : ℕ) (s : Bytes) → length s ≤ n → take n s ≡ s
take_all zero [] h = refl
take_all zero (c ∷ s) h = absurd (omega arith)
take_all (suc n) [] h = refl
take_all (suc n) (c ∷ s) h = ap (λ t. c ∷ t) (take_all n s (omega arith))

write_loop-Moved :
    (answers : List Answer) (count : ℕ) (rest : Bytes) (size : ℕ) (out : Bytes)
    → size ≡ length out
    → count ≡ size + length rest
    → Moved (out ++ rest) (write_loop answers count rest size out)
unfolding write_loop
write_loop-Moved [] count rest size out e f = tt
write_loop-Moved (interrupted ∷ answers) count rest size out e f =
    write_loop-Moved answers count rest size out e f
write_loop-Moved (failed ∷ answers) count rest size out e f =
    (rest, refl, rw e (Counts-failure (length out)))
write_loop-Moved (moved n ∷ answers) count rest size out e f =
    let rtn = min n (count - size) in
    let more = length-moved out rest rtn in
    elim (Bool-cases (min n (count - size) == 0)) [
      | inl nothing ↦ rw (nothing, write_loop) (rest, refl, inl (ap pos e))
      | inr some_bytes ↦ elim (Bool-cases (ltb (size + min n (count - size)) count)) [
        | inl again ↦
            rw (some_bytes, again, write_loop)
              (subst
                (λ whole.
                  Moved whole
                    (write_loop answers count (drop rtn rest) (size + rtn) (out ++ take rtn rest)))
                (shift out rest rtn)
                (write_loop-Moved answers count (drop rtn rest) (size + rtn) (out ++ take rtn rest)
                  (omega (arith, more)) (omega (arith, length-drop rtn rest))))
        | inr last ↦
            rw (some_bytes, last, write_loop)
              (drop rtn rest, shift out rest rtn, inl (ap pos (omega (arith, more))))
      ]
    ]

-- The bytes that `safe_write` has written when it returns are the first ones of the buffer, and it
-- returns their number, or -1 where there are none and `write` has failed.
pub safe_write-Moved : (answers : List Answer) (buf : Bytes) → Moved buf (safe_write answers buf)
unfolding safe_write
safe_write-Moved answers buf = write_loop-Moved answers (length buf) buf 0 [] refl (omega arith)

-- An answer that moves something, or asks to try again.
abbrev pub Steady : Answer → Type 0
Steady (moved n) = n ≢ 0
Steady interrupted = Unit
Steady failed = ⊥

-- How many of the calls move something.
abbrev pub moves : List Answer → ℕ
moves [] = 0
moves (moved n ∷ answers) = suc (moves answers)
moves (_ ∷ answers) = moves answers

write_loop_whole :
    (answers : List Answer) (count : ℕ) (rest : Bytes) (size : ℕ) (out : Bytes)
    → All Steady answers
    → count ≡ size + length rest
    → 0 < length rest
    → length rest ≤ moves answers
    → write_loop answers count rest size out ≡ some (pos count, out ++ rest)
unfolding write_loop
write_loop_whole [] count rest size out st f some_left enough = absurd (omega arith)
write_loop_whole (interrupted ∷ answers) count rest size out (_, st) f some_left enough =
    write_loop_whole answers count rest size out st f some_left enough
write_loop_whole (failed ∷ answers) count rest size out (st, _) f some_left enough = absurd st
write_loop_whole (moved n ∷ answers) count rest size out (ne, st) f some_left enough =
    let rtn = min n (count - size) in
    let left = length-drop rtn rest in
    elim (Bool-cases (min n (count - size) == 0)) [
      | inl nothing ↦ absurd (ground arith)
      | inr some_bytes ↦ elim (Bool-cases (ltb (size + min n (count - size)) count)) [
        | inl again ↦
            rw (some_bytes, again, write_loop)
              (write_loop_whole answers count (drop rtn rest) (size + rtn) (out ++ take rtn rest) st
                  (omega (arith, left)) (ground (arith, left)) (ground (arith, left))
                ∙ ap (λ t. some (pos count, t)) (shift out rest rtn))
        | inr last ↦
            let end : size + rtn ≡ count = ground arith in
            rw (some_bytes, last, write_loop)
              (λ i. some (pos (end i), out ++ take_all rtn rest (omega arith) i))
      ]
    ]

-- If no call fails or moves nothing, and there are as many that move something as there are bytes,
-- then `safe_write` of a buffer that is not empty returns, having written all of it.
pub safe_write_whole :
    (answers : List Answer) (c : ℕ) (buf : Bytes)
    → All Steady answers
    → length (c ∷ buf) ≤ moves answers
    → safe_write answers (c ∷ buf) ≡ some (pos (length (c ∷ buf)), c ∷ buf)
unfolding safe_write
safe_write_whole answers c buf st enough =
    write_loop_whole answers (length (c ∷ buf)) (c ∷ buf) 0 [] st (omega arith) (omega arith) enough

-- How the loop of `safe_read` ends: what is read and what is left are the whole, no more than `count`
-- bytes are read, and the result counts them.
abbrev pub ReadOf : ℕ → Bytes → Option (ℤ × Bytes × Bytes) → Type 0
ReadOf count whole none = Unit
ReadOf count whole (some (r, buf, source)) =
    (buf ++ source ≡ whole) × (length buf ≤ count) × Counts r (length buf)

read_loop-ReadOf :
    (answers : List Answer) (count : ℕ) (source : Bytes) (size : ℕ) (buf : Bytes)
    → size ≡ length buf
    → size ≤ count
    → ReadOf count (buf ++ source) (read_loop answers count source size buf)
unfolding read_loop
read_loop-ReadOf [] count source size buf e f = tt
read_loop-ReadOf (interrupted ∷ answers) count source size buf e f =
    read_loop-ReadOf answers count source size buf e f
read_loop-ReadOf (failed ∷ answers) count source size buf e f =
    (refl, omega arith, rw e (Counts-failure (length buf)))
read_loop-ReadOf (moved n ∷ answers) count source size buf e f =
    let rtn = min (min n (length source)) (count - size) in
    let more = length-moved buf source rtn in
    elim (Bool-cases (min (min n (length source)) (count - size) == 0)) [
      | inl nothing ↦ rw (nothing, read_loop) (refl, omega arith, inl (ap pos e))
      | inr some_bytes ↦
          elim (Bool-cases (ltb (size + min (min n (length source)) (count - size)) count)) [
            | inl again ↦
                rw (some_bytes, again, read_loop)
                  (subst
                    (λ whole. ReadOf count whole (
                      read_loop answers count (drop rtn source) (size + rtn)
                        (buf ++ take rtn source)))
                    (shift buf source rtn)
                    (read_loop-ReadOf answers count (drop rtn source) (size + rtn)
                      (buf ++ take rtn source) (omega (arith, more)) (omega arith)))
            | inr last ↦
                rw (some_bytes, last, read_loop)
                  (shift buf source rtn, omega (arith, more), inl (ap pos (omega (arith, more))))
          ]
    ]

-- What `safe_read` returns with is the first bytes of the input, no more than asked for; the rest is
-- left to read; and the result is their number, or -1 where there are none and `read` has failed.
pub safe_read-ReadOf :
    (answers : List Answer) (count : ℕ) (source : Bytes)
    → ReadOf count source (safe_read answers count source)
unfolding safe_read
safe_read-ReadOf answers count source =
    read_loop-ReadOf answers count source 0 [] refl (omega arith)
