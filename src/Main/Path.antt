-- ===== src/Main/Path.antt =====
-- The directory of the process in /proc.
use crashinfo.Base.{
  ℕ, zero, suc, ◌^◌, ◌≤◌, ◌<◌, [], ◌∷◌, ◌++◌, ◌≡◌, refl, ap, arith, Bytes, codes, pos, show,
  show_int, Option, none, some, take, length, length-append, length-show-le,
}
use crashinfo.Main.{pid_path, choose_path}

take-short : (k : ℕ) (xs : Bytes) → length xs ≤ k → take k xs ≡ xs
take-short zero [] h = refl
take-short zero (x ∷ xs) h = absurd (omega arith)
take-short (suc k) [] h = refl
take-short (suc k) (x ∷ xs) h = ap (λ t. x ∷ t) (take-short k xs (omega arith))

-- The directory of the process with this number.
abbrev pub proc_dir : ℕ → Bytes
proc_dir n = codes "/proc/" ++ (show 10 n ++ codes "/")

pid_path-fits : (n : ℕ) → n < 10 ^ 8 → pid_path (pos n) ≡ proc_dir n
unfolding pid_path show_int
pid_path-fits n h =
    take-short 15 (proc_dir n)
      (omega (arith, length-append (show 10 n) (codes "/"), length-show-le 7 n h))

-- A path that is configured stays.
abbrev pub path_of : Option Bytes → ℕ → Bytes
path_of none n = proc_dir n
path_of (some path) n = path

-- For a process whose number has at most eight digits, as all numbers of Linux do, the path is cut
-- nowhere: it is the directory of the process, unless the configuration gives another.
pub choose_path-fits :
    (path : Option Bytes) (n : ℕ)
    → 0 < n
    → n < 10 ^ 8
    → choose_path path (pos n) ≡ some (path_of path n)
unfolding choose_path
choose_path-fits (some path) n p h = refl
choose_path-fits none zero p h = absurd (omega arith)
choose_path-fits none (suc n) p h = ap some (pid_path-fits (suc n) h)
