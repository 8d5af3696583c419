-- ===== src/Tests/LineTests.antt =====
-- The theorems on lines and files of the configuration, at concrete inputs.
use crashinfo.Base.{
  show_hex, ℕ, Bool, true, false, List, [], ◌∷◌, ◌++◌, ◌≡◌, ◌≢◌, refl, Bytes, codes, pos, none, inr,
  str_eq, str_eq_iff, show, arith, All, not, ◌&&◌, ◌==◌,
}
use crashinfo.Util.{is_space, EndsDark}
use crashinfo.Conf.{
  info_exists, info_filter, info_output, core_exists_seq, set_int, set_str, set_multi, get_multi,
  get_maps, set_maps, exists_keep, exists_append, exists_overwrite, exists_sequence,
}
use crashinfo.Conf.Text.{is_delim}
use crashinfo.Conf.Text.Tokens.{Dark}
use crashinfo.Conf.Table.{
  EnumValue, Keyword, enum_of, int, string, string_multi, mapping_multi, exists_values,
}
use crashinfo.Conf.Value.{State}
use crashinfo.Conf.Value.Frame.{Ends}
use crashinfo.Conf.Value.Stores.{Returns, Stored, add_value, string_value}
use crashinfo.Conf.Line.{find_keyword, parse_line, initial_state}
use crashinfo.Conf.Line.Defined.{parse_line-Defined}
use crashinfo.Conf.Line.Spacing.{Spaces, AreBlank, IsName, IsValue, line_of}
use crashinfo.Log.Status.{nothing_met}
use crashinfo.Conf.Value.Exit.{Honest}
use crashinfo.Conf.Line.Exit.{parse_line-Honest}
use crashinfo.Conf.Line.Effect.{parse_line-Agree}
use crashinfo.Conf.Line.Meaning.{
  Names, parse_line-int, parse_line-enum, parse_line-string, parse_line-string_multi,
  parse_line-mapping,
}
use crashinfo.Conf.File.Total.{parse_file-Total}
use crashinfo.Conf.File.{parse_file}

-- Whether no byte passes the test.
abbrev pub none_of : (ℕ → Bool) → Bytes → Bool
none_of f [] = true
none_of f (c ∷ s) = not (f c) && none_of f s

pub none_of-All : (f : ℕ → Bool) (s : Bytes) → none_of f s ≡ true → All (λ c. f c ≡ false) s
none_of-All f [] h = tt
none_of-All f (c ∷ s) h = (ground arith, none_of-All f s (ground arith))

abbrev start : State
start = initial_state true

abbrev around : Spaces
around = record {
  before_name = codes " ";
  behind_name = codes "\t";
  before_value = codes " ";
  behind_value = codes "\n";
}

around-AreBlank : AreBlank around
unfolding is_space
around-AreBlank = record {
  first = (refl, tt);
  second = (refl, tt);
  third = (refl, tt);
  fourth = (refl, tt);
}

abbrev pub filter_row : Keyword
filter_row = record {
  keyword = codes "info_filter";
  target = string_multi info_filter;
  multi = true;
}

pub filter-IsName : IsName (codes "info_filter")
unfolding is_delim
filter-IsName = record {
  dark = none_of-All is_delim (codes "info_filter") refl;
  plain = none_of-All (λ c. c == b'=') (codes "info_filter") refl;
  ne_nil = cc;
  no_comment = refl;
}

pub filter-Names : Names around (codes "info_filter") 2 filter_row
unfolding find_keyword str_eq
filter-Names = record { blank = around-AreBlank; name_ok = filter-IsName; found = refl }

abbrev exists_row : Keyword
exists_row = record {
  keyword = codes "info_exists";
  target = enum_of exists_values info_exists;
  multi = false;
}

exists-IsName : IsName (codes "info_exists")
unfolding is_delim
exists-IsName = record {
  dark = none_of-All is_delim (codes "info_exists") refl;
  plain = none_of-All (λ c. c == b'=') (codes "info_exists") refl;
  ne_nil = cc;
  no_comment = refl;
}

exists-Names : Names around (codes "info_exists") 0 exists_row
unfolding find_keyword str_eq
exists-Names = record { blank = around-AreBlank; name_ok = exists-IsName; found = refl }

abbrev seq_row : Keyword
seq_row = record { keyword = codes "core_exists_seq"; target = int core_exists_seq; multi = false }

seq-IsName : IsName (codes "core_exists_seq")
unfolding is_delim
seq-IsName = record {
  dark = none_of-All is_delim (codes "core_exists_seq") refl;
  plain = none_of-All (λ c. c == b'=') (codes "core_exists_seq") refl;
  ne_nil = cc;
  no_comment = refl;
}

seq-Names : Names around (codes "core_exists_seq") 8 seq_row
unfolding find_keyword str_eq
seq-Names = record { blank = around-AreBlank; name_ok = seq-IsName; found = refl }

abbrev output_row : Keyword
output_row = record { keyword = codes "info_output"; target = string info_output; multi = false }

output-IsName : IsName (codes "info_output")
unfolding is_delim
output-IsName = record {
  dark = none_of-All is_delim (codes "info_output") refl;
  plain = none_of-All (λ c. c == b'=') (codes "info_output") refl;
  ne_nil = cc;
  no_comment = refl;
}

output-Names : Names around (codes "info_output") 5 output_row
unfolding find_keyword str_eq
output-Names = record { blank = around-AreBlank; name_ok = output-IsName; found = refl }

abbrev maps_row : Keyword
maps_row = record { keyword = codes "proc_maps"; target = mapping_multi; multi = true }

maps-IsName : IsName (codes "proc_maps")
unfolding is_delim
maps-IsName = record {
  dark = none_of-All is_delim (codes "proc_maps") refl;
  plain = none_of-All (λ c. c == b'=') (codes "proc_maps") refl;
  ne_nil = cc;
  no_comment = refl;
}

maps-Names : Names around (codes "proc_maps") 22 maps_row
unfolding find_keyword str_eq
maps-Names = record { blank = around-AreBlank; name_ok = maps-IsName; found = refl }

gzip-IsValue : IsValue (codes "gzip -9")
unfolding is_delim is_space
gzip-IsValue = record { starts = refl; ends = refl }

parse_line-Defined_example : parse_line (codes "core_exists = =") start ≢ none
parse_line-Defined_example = parse_line-Defined (codes "core_exists = =") start

parse_line-Agree_example :
    Ends
      (string_multi info_filter)
      start.conf
      (parse_line (line_of around (codes "info_filter") (codes "gzip -9")) start)
parse_line-Agree_example =
    parse_line-Agree around (codes "info_filter") (codes "gzip -9") start 2 filter_row
      around-AreBlank filter-IsName gzip-IsValue filter-Names.found

parse_line-int_example :
    Returns
      (parse_line (line_of around (codes "core_exists_seq") (show 10 12)) start)
      (Stored start (set_int core_exists_seq (pos 12) start.conf))
parse_line-int_example =
    parse_line-int around (codes "core_exists_seq") 8 seq_row seq-Names core_exists_seq 12 start
      refl (omega arith)

keep-Dark : Dark (codes "keep")
unfolding is_delim
keep-Dark = none_of-All is_delim (codes "keep") refl

abbrev before_keep : List EnumValue
before_keep =
    record { name = codes "append"; value = exists_append }
    ∷ record { name = codes "overwrite"; value = exists_overwrite }
    ∷ []

abbrev keep : EnumValue
keep = record { name = codes "keep"; value = exists_keep }

abbrev after_keep : List EnumValue
after_keep = record { name = codes "sequence"; value = exists_sequence } ∷ []

before_keep-others : All (λ d. d.name ≢ codes "keep") before_keep
unfolding str_eq
before_keep-others = (
  (λ e. absurd (ground (arith, (str_eq_iff (codes "append") (codes "keep")).1 e))),
  ((λ e. absurd (ground (arith, (str_eq_iff (codes "overwrite") (codes "keep")).1 e))), tt),
)

parse_line-enum_example :
    Returns
      (parse_line (line_of around (codes "info_exists") (codes "keep")) start)
      (Stored start (set_int info_exists exists_keep start.conf))
parse_line-enum_example =
    parse_line-enum around (codes "info_exists") 0 exists_row exists-Names exists_values info_exists
      b'k' (codes "eep") before_keep keep after_keep start refl refl refl before_keep-others
      keep-Dark

parse_line-string_example :
    Returns
      (parse_line (line_of around (codes "info_output") (codes "gzip -9")) start)
      (Stored start (set_str info_output (string_value (codes "gzip -9")) start.conf))
parse_line-string_example =
    parse_line-string around (codes "info_output") 5 output_row output-Names info_output
      (codes "gzip -9") start refl gzip-IsValue refl

parse_line-string_multi_example :
    Returns (parse_line (line_of around (codes "info_filter") (codes "gzip -9")) start) (
      Stored start (
        set_multi info_filter
          (add_value (get_multi info_filter start.conf) (codes "gzip -9"))
          start.conf))
parse_line-string_multi_example =
    parse_line-string_multi around (codes "info_filter") 2 filter_row filter-Names info_filter
      (codes "gzip -9") start refl gzip-IsValue refl

parse_line-mapping_example :
    Returns
      (parse_line (line_of around (codes "proc_maps") (show_hex 4096 ++ b':' ∷ codes "/b/x")) start)
      (Stored start (
        set_maps
          (get_maps start.conf ++ record { addr = 4096; file = codes "/b/x" } ∷ [])
          start.conf))
parse_line-mapping_example =
    parse_line-mapping around (codes "proc_maps") 22 maps_row maps-Names 4096 (codes "/b/x") start
      refl (omega arith) x-EndsDark refl
  where
    x-EndsDark : EndsDark (codes "/b/x")
    x-EndsDark = unfold is_space in refl

abbrev two_lines : List Bytes
two_lines = codes "# none" ∷ codes "core = 1 2" ∷ []

parse_file-Total_example :
    parse_file (codes "f") (inr (codes "core = 1\n" ++ 0 ∷ 10 ∷ [])) start ≢ none
parse_file-Total_example =
    parse_file-Total (codes "f") (inr (codes "core = 1\n" ++ 0 ∷ 10 ∷ [])) start

parse_line-Honest_example : Honest (parse_line (codes "core_exists = never") start)
parse_line-Honest_example =
    parse_line-Honest (codes "core_exists = never") start (nothing_met, refl)
