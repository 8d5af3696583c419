-- ===== src/Conf/Line/Spacing.antt =====
-- White space, comments and empty lines, as crashinfo.1 describes a configuration directive.
use crashinfo.Base.{
  true, false, [], ◌∷◌, ◌++◌, ◌≡◌, ◌≢◌, refl, ◌∙◌, Bytes, ◌==◌, Option, none, some, get_or,
  All-append, pos, Option-cases, inl, inr,
}
use crashinfo.Util.{Blank, EndsDark}
use crashinfo.Util.Chomp.{chomp-append}
use crashinfo.Conf.Text.{is_delim, cut_at, skip_delim, span_token}
use crashinfo.Conf.Text.Tokens.{
  Dark, Lacks, Blank-Lacks, cut_at-append, skip_delim-append, skip_delim_dark, strtok_word,
  strtok-Blank, strtok_dark, strtok-append, cut_at-none, cut_at-some, Lacks-cut_at,
}
use crashinfo.Conf.Value.{State}
use crashinfo.Conf.Line.{directive, with_value, parse_parts, parse_line}

-- A word that can stand before the '=': no white space, no '=', and no '#' in front.
pub record IsName (name : Bytes) : Type 0 where
  pub dark : Dark name
  pub plain : Lacks b'=' name
  pub ne_nil : name ≢ []
  pub no_comment : (get_or name 0 0 == b'#') ≡ false

-- A text with no white space at either end.
pub record IsValue (value : Bytes) : Type 0 where
  pub starts : is_delim (get_or value 0 b' ') ≡ false
  pub ends : EndsDark value

-- What stands around the name and the value of a directive.
pub record Spaces : Type 0 where
  pub before_name : Bytes
  pub behind_name : Bytes
  pub before_value : Bytes
  pub behind_value : Bytes

pub record AreBlank (sp : Spaces) : Type 0 where
  pub first : Blank sp.before_name
  pub second : Blank sp.behind_name
  pub third : Blank sp.before_value
  pub fourth : Blank sp.behind_value

abbrev pub line_of : Spaces → Bytes → Bytes → Bytes
line_of sp name value =
    (sp.before_name ++ (name ++ sp.behind_name))
    ++ b'=' ∷ (sp.before_value ++ (value ++ sp.behind_value))

IsValue-ne_nil : ¬ (IsValue [])
unfolding is_delim
IsValue-ne_nil v = let h = v.starts in cc

with_value-directive :
    (name value w : Bytes) (s : State)
    → IsValue value
    → Blank w
    → with_value name (some (value ++ w)) s ≡ directive name value s
unfolding with_value
with_value-directive name [] w s v hw = absurd (IsValue-ne_nil v)
with_value-directive name (c ∷ value) w s v hw =
    λ i. directive name (chomp-append (c ∷ value) w v.ends hw i) s

-- A line with a value behind its '=', by the parts around that.
parse_line-parts :
    (before behind : Bytes) (s : State)
    → Lacks b'=' before
    → parse_line (before ++ b'=' ∷ behind) s ≡ parse_parts before (some (skip_delim behind)) s
parse_line-parts before behind s h =
    unfold parse_line in rw (cut_at-append b'=' before behind h, parse_line)

parse_parts-word :
    (v name w : Bytes) (value : Option Bytes) (s : State)
    → Blank v
    → Blank w
    → IsName name
    → parse_parts (v ++ (name ++ w)) value s ≡ with_value name value s
parse_parts-word v [] w value s hv hw n = absurd (n.ne_nil refl)
parse_parts-word v (c ∷ t) w value s hv hw n =
    let (kept, e) = strtok_word v c t w hv n.dark hw in
    unfold parse_parts in rw (e, parse_parts, n.no_comment)

skip_delim-value :
    (w value rest : Bytes)
    → Blank w
    → IsValue value
    → skip_delim (w ++ (value ++ rest)) ≡ value ++ rest
skip_delim-value w [] rest hw v = absurd (IsValue-ne_nil v)
skip_delim-value w (c ∷ value) rest hw v =
    skip_delim-append w _ hw ∙ skip_delim_dark c (value ++ rest) v.starts

-- White space around the name and the value of a directive is ignored: the line does what the
-- name's row does with the value, however it is spaced.
pub parse_line-directive :
    (sp : Spaces) (name value : Bytes) (s : State)
    → AreBlank sp
    → IsName name
    → IsValue value
    → parse_line (line_of sp name value) s ≡ directive name value s
parse_line-directive sp name value s b n v =
    parse_line-parts _ _ s (
      All-append _ sp.before_name _ (Blank-Lacks sp.before_name b.first)
        (All-append _ name _ n.plain (Blank-Lacks sp.behind_name b.second)))
    ∙ (λ i.
        parse_parts (sp.before_name ++ (name ++ sp.behind_name))
          (some (skip_delim-value sp.before_value value sp.behind_value b.third v i)) s)
    ∙ parse_parts-word sp.before_name name sp.behind_name _ s b.first b.second n
    ∙ with_value-directive name value sp.behind_value s v b.fourth

comment_token :
    (v rest : Bytes) (value : Option Bytes) (s : State)
    → Blank v
    → parse_parts (v ++ b'#' ∷ rest) value s ≡ some (pos 0, s)
comment_token v rest value s hv =
    unfold parse_parts in
    rw (strtok-append v (b'#' ∷ rest) hv, strtok_dark b'#' rest hash_dark, parse_parts, hash_first)
  where
    hash_dark : is_delim b'#' ≡ false
    hash_dark = unfold is_delim in refl

    hash_first : (get_or (span_token (b'#' ∷ rest)).0 0 0 == b'#') ≡ true
    hash_first = unfold span_token is_delim in refl

-- Lines of white space, and lines whose first byte that is not white space is '#', change nothing
-- and are no error, whatever stands behind the '#'.
pub parse_line-comment :
    (v rest : Bytes) (s : State)
    → Blank v
    → (parse_line v s ≡ some (pos 0, s)) × (parse_line (v ++ b'#' ∷ rest) s ≡ some (pos 0, s))
unfolding parse_line
parse_line-comment v rest s hv = (blank, comment)
  where
    blank : parse_line v s ≡ some (pos 0, s)
    blank =
        unfold parse_parts in
        rw (Lacks-cut_at b'=' v (Blank-Lacks v hv), parse_line, parse_parts, strtok-Blank v hv)

    vl : Lacks b'=' v
    vl = Blank-Lacks v hv

    hash : Lacks b'=' (b'#' ∷ [])
    hash = (refl, tt)

    comment : parse_line (v ++ b'#' ∷ rest) s ≡ some (pos 0, s)
    comment = elim (Option-cases (cut_at b'=' rest)) [
      | inl e ↦
          rw
            (
              cut_at-none b'=' v (b'#' ∷ rest) vl (cut_at-none b'=' (b'#' ∷ []) rest hash e),
              parse_line,
            )
            (comment_token v rest none s hv)
      | inr ((x, y), e) ↦
          rw
            (
              cut_at-some b'=' v (b'#' ∷ rest) (b'#' ∷ x) y vl
                  (cut_at-some b'=' (b'#' ∷ []) rest x y hash e),
              parse_line,
            )
            (comment_token v x _ s hv)
    ]
