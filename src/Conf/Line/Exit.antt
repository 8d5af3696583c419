-- ===== src/Conf/Line/Exit.antt =====
-- The exit code behind a line that is refused.
use crashinfo.Base.{
  ℕ, Bool, true, false, not, ◌&&◌, ◌==◌, if◌then◌else◌, [], ◌∷◌, inl, inr, Bytes, pos, Option, none,
  some, get_or, Option-cases,
}
use crashinfo.Log.{Priority}
use crashinfo.Conf.Text.{cut_at, skip_delim, strtok}
use crashinfo.Conf.Table.{Keyword, keywords}
use crashinfo.Conf.Value.{State, M, return, run_parser}
use crashinfo.Conf.Value.Exit.{
  IsStatus, Honest, Act, Quiet, Act-bind, Act-if, Act-success, Act-crit, Act-warning, Quiet-say,
  parser_of-Act,
}
use crashinfo.Conf.Line.{
  find_keyword, count_keyword, run_keyword, directive, with_value, parse_parts, parse_line,
}

count_keyword-Quiet : (i : ℕ) → Quiet (count_keyword i)
unfolding count_keyword
count_keyword-Quiet i s h = h

Quiet-if : (b : Bool) (m n : M (Unit {0})) → Quiet m → Quiet n → Quiet (if b then m else n)
Quiet-if true m n hm hn = hm
Quiet-if false m n hm hn = hn

run_keyword-Act : (i : ℕ) (k : Keyword) (value : Bytes) → Act (run_keyword i k value)
unfolding run_keyword run_parser
run_keyword-Act i k value = Act-bind (count_keyword i) _ (count_keyword-Quiet i) λ n.
    Act-bind _ _ (Quiet-if (not (n == 0) && not k.multi) _ _ (Quiet-say Priority.info _) (λ s h. h))
      (λ _. parser_of-Act k.keyword k.target value)

directive-Act : (name value : Bytes) → Act (directive name value)
unfolding directive
directive-Act name value s h = elim (Option-cases (find_keyword 0 keywords name)) [
  | inl e ↦ rw (e, directive) (Act-warning _ (pos 1) s h)
  | inr ((i, k), e) ↦ rw (e, directive) (run_keyword-Act i k value s h)
]

with_value-Act : (name : Bytes) (value : Option Bytes) → Act (with_value name value)
unfolding with_value
with_value-Act name none = Act-crit _ (pos 1)
with_value-Act name (some []) = Act-crit _ (pos 1)
with_value-Act name (some (c ∷ value)) = directive-Act name _

parse_parts-Act : (line : Bytes) (value : Option Bytes) → Act (parse_parts line value)
unfolding parse_parts
parse_parts-Act line value s h = elim (Option-cases (strtok line)) [
  | inl e ↦ rw (e, parse_parts) (Act-success s h)
  | inr ((name, kept), e) ↦
      rw (e, parse_parts)
        (Act-if (get_or name 0 0 == b'#') (return (pos 0)) (with_value name value) Act-success
          (with_value-Act name value) s h)
]

-- From an exit code that is a sum of documented bits, `parse_line` ends with one, and one that is
-- not 0 if its result is not 0: a directive that is refused shows in the exit code of the program.
pub parse_line-Honest :
    (line : Bytes) (s : State) → IsStatus s.log.exitcode → Honest (parse_line line s)
unfolding parse_line
parse_line-Honest line s h = elim (Option-cases (cut_at b'=' line)) [
  | inl e ↦ rw (e, parse_line) (parse_parts-Act line none s h)
  | inr ((before, behind), e) ↦
      rw (e, parse_line) (parse_parts-Act before (some (skip_delim behind)) s h)
]
