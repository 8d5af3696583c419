-- ===== src/Tests/ConfTests.antt =====
-- The configuration parser.
use crashinfo.Base.{
  ℕ, true, List, [], ◌∷◌, Bytes, codes, ◌≡◌, refl, Option, none, some, ℤ, pos, negsuc, inr, str_eq,
  to_int, to_uint64, show,
}
use crashinfo.Log.{logmsg, level, mark, prefix}
use crashinfo.Util.{strlen_chomp, is_space}
use crashinfo.Conf.{
  info_exists, core_exists_seq, info_filter, get_int, get_multi, get_maps, set_int, set_maps,
  set_multi, set_str,
}
use crashinfo.Conf.Text.{
  cut_at, strtok, skip_delim, is_delim, span_token, clamp, digit_value, is_digit, radix,
  scan_digits, signed_part, skip_space, strtol, unsigned_part,
}
use crashinfo.Conf.Value.{
  State, run_parser, parser_of, parse_enum, find_value, add_mapping, allocation_failed, malloc,
  parse_endline, parse_int, parse_mapping_multi, parse_string, parse_string_multi, shown_values,
  store_int,
}
use crashinfo.Conf.Line.{
  parse_parts, with_value, directive, find_keyword, run_keyword, count_keyword, parse_line,
  initial_state,
}
use crashinfo.Conf.File.{parse_file, fgets, c_string, fail_at, after_line, file_line, file_loop}

abbrev start : State
start = initial_state true

-- `view` of the state behind a line, with the result.
line_result : {A : Type 0} → (State → A) → Bytes → Option (ℤ × A)
unfolding parse_line cut_at parse_parts strtok skip_delim is_delim span_token with_value directive
    find_keyword str_eq run_keyword count_keyword run_parser parser_of parse_enum strlen_chomp
    find_value to_int to_uint64 clamp digit_value is_digit radix scan_digits signed_part skip_space
    strtol unsigned_part add_mapping allocation_failed malloc parse_endline parse_int
    parse_mapping_multi parse_string parse_string_multi shown_values store_int get_maps get_multi
    set_int set_maps set_multi set_str level logmsg mark prefix is_space
line_result view line = elim (parse_line line start) [
  | none ↦ none
  | some (r, s) ↦ some (r, view s)
]

-- The same for a file.
file_result : {A : Type 0} → (State → A) → Bytes → Option (ℤ × A)
unfolding parse_file fgets c_string fail_at after_line file_line file_loop parse_line cut_at
    parse_parts strtok skip_delim is_delim span_token with_value directive find_keyword str_eq
    run_keyword count_keyword run_parser parser_of parse_enum strlen_chomp find_value to_int
    to_uint64 clamp digit_value is_digit radix scan_digits signed_part skip_space strtol
    unsigned_part add_mapping allocation_failed malloc parse_endline parse_int parse_mapping_multi
    parse_string parse_string_multi shown_values store_int get_maps get_multi set_int set_maps
    set_multi set_str level logmsg mark prefix is_space
file_result view file = elim (parse_file (codes "f") (inr file) start) [
  | none ↦ none
  | some (r, s) ↦ some (r, view s)
]

line_test :
    line_result (λ s. get_int info_exists s.conf) (codes " info_exists \t= sequence \n")
    ≡ some (pos 0, pos 4)
unfolding line_result get_int
line_test = refl

int_test :
    line_result (λ s. get_int core_exists_seq s.conf) (codes "core_exists_seq = -0x10")
    ≡ some (pos 0, negsuc 15)
unfolding line_result get_int
int_test = refl

file_test :
    file_result {A = List Bytes × ℕ × Bytes}
      (λ s. (get_multi info_filter s.conf, s.log.exitcode, s.log.stderr))
      (codes "# c\n\ninfo_filter = xz\ninfo_filter=gzip -9 \ncore = 1 2\nfoo = 3\n")
    ≡ some (
      negsuc 0,
      (codes "xz" ∷ codes "gzip -9" ∷ [], 5, codes "CRIT: Fatal error while parsing f:6\n"),
    )
unfolding file_result get_multi show
file_test = refl
