-- ===== src/Conf/File/Total.antt =====
-- Whether `parse_file` has a result.
use crashinfo.Base.{
  ℕ, zero, suc, ◌+◌, ◌≤◌, ◌<◌, ◌==◌, [], ◌∷◌, ◌≢◌, ◌⊎◌, inl, inr, refl, arith, Bytes, ℤ, pos,
  negsuc, Option, none, some, length, Bool-cases,
}
use crashinfo.Conf.Value.{State, M, ◌>>=◌}
use crashinfo.Conf.Line.{parse_line}
use crashinfo.Conf.Line.Defined.{parse_line-Defined}
use crashinfo.Conf.File.{fgets, line_max, fail_at, after_line, file_line, file_loop, parse_file}

abbrev Total : M ℤ → Type 0
Total m = (s : State) → m s ≢ none

pub length-fgets : (m : ℕ) (file : Bytes) → length (fgets m file).1 ≤ length file
unfolding fgets
length-fgets zero file = omega arith
length-fgets (suc m) [] = omega arith
length-fgets (suc m) (c ∷ file) = ground (arith, length-fgets m file)

-- A call that is not at the end of the file reads a byte at least.
pub fgets_progress :
    (m c : ℕ) (file : Bytes) → length (fgets (suc m) (c ∷ file)).1 < length (c ∷ file)
unfolding fgets
fgets_progress m c file = ground (arith, length-fgets m file)

bind-Total : (m : M ℤ) (f : ℤ → M ℤ) → Total m → ((r : ℤ) → Total (f r)) → Total (m >>= f)
bind-Total m f hm hf s = go (m s) (hm s)
  where
    go : (o : Option (ℤ × State)) → o ≢ none → ((λ (_ : State). o) >>= f) s ≢ none
    go none h = absurd (h refl)
    go (some (r, s')) h = hf r s'

fail_at-Total : (path : Bytes) (n : ℕ) → Total (fail_at path n)
unfolding fail_at
fail_at-Total path n s = cc

after_line-Total :
    (path : Bytes) (n : ℕ) (next : M ℤ) (r : ℤ) → Total next → Total (after_line path n next r)
unfolding after_line
after_line-Total path n next (pos zero) h = h
after_line-Total path n next (pos (suc m)) h = fail_at-Total path n
after_line-Total path n next (negsuc m) h = fail_at-Total path n

file_line-Total :
    (path : Bytes) (n : ℕ) (line : Bytes) (next : M ℤ)
    → Total next
    → Total (file_line path n line next)
unfolding file_line
file_line-Total path n line next h s = elim (Bool-cases (length line == line_max)) [
  | inl long ↦ rw (long, file_line) (fail_at-Total path n _)
  | inr short ↦
      rw (short, file_line)
        (bind-Total (parse_line line) (after_line path n next) (parse_line-Defined line)
          (λ r. after_line-Total path n next r h) s)
]

file_loop-Total :
    (fuel : ℕ) (path : Bytes) (n : ℕ) (file : Bytes)
    → length file < fuel
    → Total (file_loop fuel path n file)
unfolding file_loop
file_loop-Total zero path n file h s = absurd (omega arith)
file_loop-Total (suc fuel) path n [] h s = cc
file_loop-Total (suc fuel) path n (c ∷ file) h s =
    file_line-Total path n _ _
      (file_loop-Total fuel path (n + 1) _ (omega (arith, fgets_progress 4094 c file))) s

-- `parse_file` has a result for every path, whether the file cannot be opened or has any bytes, and
-- in every state: its loop ends, and no line runs into undefined behaviour.
pub parse_file-Total :
    (path : Bytes) (file : Bytes ⊎ Bytes) (s : State) → parse_file path file s ≢ none
unfolding parse_file
parse_file-Total path (inl error) s = cc
parse_file-Total path (inr file) s = file_loop-Total (suc (length file)) path 1 file (omega arith) s
