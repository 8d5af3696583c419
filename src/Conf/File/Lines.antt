-- ===== src/Conf/File/Lines.antt =====
-- `parse_file` on a file of lines, and its description line by line.
use crashinfo.Base.{
  ℕ, zero, suc, ◌+◌, ◌<◌, false, ◌==◌, List, [], ◌∷◌, ◌++◌, ◌≡◌, ◌≢◌, refl, ◌∙◌, ap, arith, Bytes,
  ℤ, pos, inr, codes, length, length-append, All,
}
use crashinfo.Conf.Text.Tokens.{Lacks}
use crashinfo.Conf.Value.{M, ◌>>=◌, return}
use crashinfo.Conf.Line.{parse_line}
use crashinfo.Conf.File.{fgets, c_string, line_max, after_line, file_line, file_loop, parse_file}

-- A line that the buffer holds with its newline, without the bytes that end it early.
pub record Fits (line : Bytes) : Type 0 where
  pub one_line : Lacks b'\n' line
  pub text : Lacks 0 line
  pub short : length line + 1 < line_max

-- The bytes of a file with the given lines.
abbrev pub text_of : List Bytes → Bytes
text_of [] = []
text_of (l ∷ ls) = l ++ b'\n' ∷ text_of ls

-- The lines one after another, numbered from `n`, up to the first that fails.
unfoldable pub parse_lines : Bytes → ℕ → List Bytes → M ℤ
parse_lines path n [] = return (pos 0)
parse_lines path n (l ∷ ls) =
    parse_line (l ++ codes "\n") >>= after_line path n (parse_lines path (n + 1) ls)

pub fgets-append :
    (m : ℕ) (l rest : Bytes)
    → Lacks b'\n' l
    → length l < m
    → fgets m (l ++ b'\n' ∷ rest) ≡ (l ++ codes "\n", rest)
unfolding fgets
fgets-append zero l rest h lt = absurd (omega arith)
fgets-append (suc m) [] rest h lt = refl
fgets-append (suc m) (c ∷ l) rest (hc, hl) lt =
    rw (fgets-append m l rest hl (omega arith), fgets, hc)

pub c_string_text : (l : Bytes) → Lacks 0 l → c_string (l ++ codes "\n") ≡ l ++ codes "\n"
unfolding c_string
c_string_text [] _ = refl
c_string_text (c ∷ l) (hc, hl) = rw (hc, c_string_text l hl)

-- One round of the loop on a line that fits.
file_line_lem :
    (path : Bytes) (n : ℕ) (l : Bytes) (next : M ℤ)
    → Fits l
    → file_line path n (c_string (l ++ codes "\n")) next
      ≡ (parse_line (l ++ codes "\n") >>= after_line path n next)
unfolding file_line
file_line_lem path n l next f = rw (c_string_text l f.text, short)
  where
    short : (length (l ++ codes "\n") == line_max) ≡ false
    short = let h = f.short in ground (arith, length-append l (codes "\n"))

-- A round on a file that is not at its end.
file_loop_round :
    (fuel : ℕ) (path : Bytes) (n : ℕ) (file : Bytes)
    → file ≢ []
    → file_loop (suc fuel) path n file
      ≡ file_line path n
          (c_string (fgets line_max file).0)
          (file_loop fuel path (n + 1) (fgets line_max file).1)
unfolding file_loop
file_loop_round fuel path n [] ne = absurd (ne refl)
file_loop_round fuel path n (c ∷ file) ne = refl

pub text-ne-nil : (l rest : Bytes) → l ++ b'\n' ∷ rest ≢ []
text-ne-nil [] rest = cc
text-ne-nil (c ∷ l) rest = cc

file_loop_step :
    (fuel : ℕ) (path : Bytes) (n : ℕ) (l rest : Bytes)
    → Fits l
    → file_loop (suc fuel) path n (l ++ b'\n' ∷ rest)
      ≡ (parse_line (l ++ codes "\n") >>= after_line path n (file_loop fuel path (n + 1) rest))
file_loop_step fuel path n l rest f =
    let h = f.short in
    file_loop_round fuel path n (l ++ b'\n' ∷ rest) (text-ne-nil l rest)
    ∙ ap (λ (p : Bytes × Bytes). file_line path n (c_string p.0) (file_loop fuel path (n + 1) p.1))
        (fgets-append line_max l rest f.one_line (omega arith))
    ∙ file_line_lem path n l _ f

file_loop-parse_lines :
    (fuel : ℕ) (path : Bytes) (n : ℕ) (ls : List Bytes)
    → All Fits ls
    → length (text_of ls) < fuel
    → file_loop fuel path n (text_of ls) ≡ parse_lines path n ls
unfolding parse_lines
file_loop-parse_lines zero path n ls f h = absurd (omega arith)
file_loop-parse_lines (suc fuel) path n [] f h = unfold file_loop in refl
file_loop-parse_lines (suc fuel) path n (l ∷ ls) (f, fs) h =
    file_loop_step fuel path n l (text_of ls) f
    ∙ ap (λ next. parse_line (l ++ codes "\n") >>= after_line path n next)
        (file_loop-parse_lines fuel path (n + 1) ls fs
          (omega (arith, length-append {0} l (b'\n' ∷ text_of ls))))

pub parse_file-parse_lines :
    (path : Bytes) (ls : List Bytes)
    → All Fits ls
    → parse_file path (inr (text_of ls)) ≡ parse_lines path 1 ls
unfolding parse_file
parse_file-parse_lines path ls f =
    file_loop-parse_lines (suc (length (text_of ls))) path 1 ls f (omega arith)
