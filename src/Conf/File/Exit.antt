-- ===== src/Conf/File/Exit.antt =====
-- The exit code behind a configuration file that is refused.
use crashinfo.Base.{
  ℕ, zero, suc, ◌+◌, ◌==◌, [], ◌∷◌, ◌++◌, codes, inl, inr, ◌⊎◌, Bytes, ℤ, pos, negsuc, Option, none,
  some, length, Bool-cases,
}
use crashinfo.Log.{Priority}
use crashinfo.Conf.Value.{State, M, say}
use crashinfo.Conf.Value.Exit.{
  Honest, Act, Sound, Quiet, Act-bind, Act-success, Act-crit, Quiet-say,
}
use crashinfo.Conf.Line.{parse_line}
use crashinfo.Conf.Line.Exit.{parse_line-Honest}
use crashinfo.Conf.File.{
  fgets, c_string, line_max, fail_at, after_line, file_line, file_loop, parse_file,
}

Act-Quiet : (m : M ℤ) → Act m → Quiet m
Act-Quiet m act s h = of_result (m s) (act s h)
  where
    of_result : (o : Option (ℤ × State)) → Honest o → Sound o
    of_result none h = tt
    of_result (some (r, s')) (sound, _) = sound

fail_at-Act : (path : Bytes) (n : ℕ) → Act (fail_at path n)
unfolding fail_at
fail_at-Act path n = Act-crit _ (negsuc 0)

after_line-Act :
    (path : Bytes) (n : ℕ) (next : M ℤ) (r : ℤ) → Act next → Act (after_line path n next r)
unfolding after_line
after_line-Act path n next (pos zero) h = h
after_line-Act path n next (pos (suc k)) h = fail_at-Act path n
after_line-Act path n next (negsuc k) h = fail_at-Act path n

file_line-Act :
    (path : Bytes) (n : ℕ) (line : Bytes) (next : M ℤ) → Act next → Act (file_line path n line next)
unfolding file_line
file_line-Act path n line next h s status = elim (Bool-cases (length line == line_max)) [
  | inl long ↦
      let text = codes "Line too long: " ++ (line ++ codes "...") in
      rw (long, file_line)
        (Act-bind (say Priority.crit text) (λ _. fail_at path n) (Quiet-say Priority.crit text)
          (λ _. fail_at-Act path n) s status)
  | inr short ↦
      rw (short, file_line)
        (Act-bind (parse_line line) (after_line path n next)
          (Act-Quiet (parse_line line) (parse_line-Honest line))
          (λ r. after_line-Act path n next r h) s status)
]

file_loop-Act : (fuel : ℕ) (path : Bytes) (n : ℕ) (file : Bytes) → Act (file_loop fuel path n file)
unfolding file_loop
file_loop-Act zero path n file s h = tt
file_loop-Act (suc fuel) path n [] s h = Act-success s h
file_loop-Act (suc fuel) path n (c ∷ file) s h =
    file_line-Act path n (c_string (fgets line_max (c ∷ file)).0) _
      (file_loop-Act fuel path (n + 1) (fgets line_max (c ∷ file)).1) s h

pub parse_file-Act : (path : Bytes) (file : Bytes ⊎ Bytes) → Act (parse_file path file)
unfolding parse_file
parse_file-Act path (inl error) = Act-crit _ (negsuc 0)
parse_file-Act path (inr file) = file_loop-Act (suc (length file)) path 1 file
