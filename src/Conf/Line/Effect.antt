-- ===== src/Conf/Line/Effect.antt =====
-- What a directive does to the configuration.
use crashinfo.Base.{ℕ, not, ◌&&◌, ◌==◌, ◌≡◌, sym, subst, Bytes, some}
use crashinfo.Conf.Table.{Keyword, keywords}
use crashinfo.Conf.Value.{State, run_parser}
use crashinfo.Conf.Value.Frame.{Agree-refl, Ends, Keeps, Keeps-bind, Keeps-if, parser_of-Keeps}
use crashinfo.Conf.Line.{find_keyword, count_keyword, run_keyword, directive, parse_line}
use crashinfo.Conf.Line.Spacing.{Spaces, AreBlank, IsName, IsValue, line_of, parse_line-directive}

run_keyword-Keeps : (i : ℕ) (k : Keyword) (value : Bytes) → Keeps k.target (run_keyword i k value)
unfolding run_keyword run_parser
run_keyword-Keeps i k value = Keeps-bind k.target (count_keyword i) _ counts λ n.
    Keeps-bind k.target _ _
      (Keeps-if k.target (not (n == 0) && not k.multi) _ _ (λ s. Agree-refl _ s.conf)
        (λ s. Agree-refl _ s.conf))
      (λ _. parser_of-Keeps k.keyword k.target value)
  where
    counts : Keeps k.target (count_keyword i)
    counts = unfold count_keyword in λ s. Agree-refl _ s.conf

-- A line with a known keyword and a value with no white space at either end, with white space
-- around both, changes the configuration at most in the storage of that keyword, whether the value
-- is accepted or refused; the other options keep their values.
pub parse_line-Agree :
    (sp : Spaces) (name value : Bytes) (s : State) (i : ℕ) (k : Keyword)
    → AreBlank sp
    → IsName name
    → IsValue value
    → find_keyword 0 keywords name ≡ some (i, k)
    → Ends k.target s.conf (parse_line (line_of sp name value) s)
parse_line-Agree sp name value s i k b n v found =
    subst (Ends k.target s.conf) (sym (parse_line-directive sp name value s b n v))
      (unfold directive in rw (found, directive) (run_keyword-Keeps i k value s))
