-- ===== src/Conf/Line/Defined.antt =====
-- `parse_line` meets no undefined behaviour.
use crashinfo.Base.{
  ℕ, false, not, ◌&&◌, [], ◌∷◌, ◌≡◌, ◌≢◌, refl, arith, Bytes, ◌==◌, Option, none, some, get_or,
  Bool-cases, Option-cases, inl, inr, ℤ,
}
use crashinfo.Conf.{IntSlot, StrSlot, MultiSlot}
use crashinfo.Conf.Text.{is_delim, cut_at, skip_delim, span_token, strtok}
use crashinfo.Conf.Text.Tokens.{skip_delim-dark, chomp_dark, strtok_dark}
use crashinfo.Conf.Table.{
  Target, enum_of, int, string, string_multi, mapping_multi, EnumTable, bool_values, exists_values,
  loglevel_values, values_of, Keyword, keywords,
}
use crashinfo.Conf.Value.{
  State, M, malloc, allocation_failed, parse_endline, find_value, shown_values, parse_enum,
  store_int, parse_int, parse_string, parse_string_multi, add_mapping, parse_mapping_multi,
  parser_of, run_parser,
}
use crashinfo.Conf.Line.{
  find_keyword, count_keyword, run_keyword, directive, with_value, parse_parts, parse_line,
}

-- The action has a result in every state.
abbrev pub Defined : {A : Type 0} → M A → Type 0
Defined m = (s : State) → m s ≢ none

parse_endline-Defined : (kept : Bytes) → Defined (parse_endline kept)
unfolding parse_endline
parse_endline-Defined kept s = ground arith

shown_values-ne-none : (table : EnumTable) → shown_values (values_of table) ≢ none
unfolding shown_values
shown_values-ne-none bool_values = cc
shown_values-ne-none exists_values = cc
shown_values-ne-none loglevel_values = cc

store_int-Defined :
    (k : Bytes) (slot : IntSlot) (token kept : Bytes) (n : ℤ) (end : Bytes)
    → Defined (store_int k slot token kept (n, end))
unfolding store_int
store_int-Defined k slot token kept n [] s = parse_endline-Defined kept _
store_int-Defined k slot token kept n (_ ∷ _) s = cc

module _ (k : Bytes) (c : ℕ) (t : Bytes) (dark : is_delim c ≡ false) where
  parse_enum-Defined :
      (table : EnumTable) (slot : IntSlot) → Defined (parse_enum k table slot (c ∷ t))
  unfolding parse_enum
  parse_enum-Defined table slot s =
      rw (strtok_dark c t dark, parse_enum)
        (elim (Option-cases (find_value (values_of table) (span_token (c ∷ t)).0)) [
          | inl e ↦ ground (arith, shown_values-ne-none table)
          | inr (v, e) ↦ rw e (parse_endline-Defined _ _)
        ])

  parse_int-Defined : (slot : IntSlot) → Defined (parse_int k slot (c ∷ t))
  unfolding parse_int
  parse_int-Defined slot s =
      rw (strtok_dark c t dark, parse_int) (store_int-Defined k slot _ _ _ _ s)

  parse_string-Defined : (slot : StrSlot) → Defined (parse_string k slot (c ∷ t))
  unfolding parse_string malloc allocation_failed
  parse_string-Defined slot s = ground arith

  parse_string_multi-Defined : (slot : MultiSlot) → Defined (parse_string_multi k slot (c ∷ t))
  unfolding parse_string_multi malloc allocation_failed
  parse_string_multi-Defined slot s = ground arith

  parse_mapping_multi-Defined : Defined (parse_mapping_multi k (c ∷ t))
  unfolding parse_mapping_multi add_mapping malloc allocation_failed
  parse_mapping_multi-Defined s = ground arith

  parser_of-Defined : (target : Target) → Defined (parser_of k target (c ∷ t))
  unfolding parser_of
  parser_of-Defined (enum_of table slot) = parse_enum-Defined table slot
  parser_of-Defined (int slot) = parse_int-Defined slot
  parser_of-Defined (string slot) = parse_string-Defined slot
  parser_of-Defined (string_multi slot) = parse_string_multi-Defined slot
  parser_of-Defined mapping_multi = parse_mapping_multi-Defined

run_keyword-Defined :
    (i : ℕ) (k : Keyword) (c : ℕ) (t : Bytes)
    → is_delim c ≡ false
    → Defined (run_keyword i k (c ∷ t))
unfolding run_keyword count_keyword run_parser
run_keyword-Defined i k c t dark s =
    let n = get_or s.keyword_seen i 0 in
    elim (Bool-cases (not (n == 0) && not k.multi)) [
      | inl e ↦ rw e (parser_of-Defined k.keyword c t dark k.target _)
      | inr e ↦ rw e (parser_of-Defined k.keyword c t dark k.target _)
    ]

directive-Defined :
    (name : Bytes) (c : ℕ) (t : Bytes) → is_delim c ≡ false → Defined (directive name (c ∷ t))
unfolding directive
directive-Defined name c t dark s = elim (Option-cases (find_keyword 0 keywords name)) [
  | inl f ↦ rw (f, directive) (cc)
  | inr ((i, k), f) ↦ rw (f, directive) (run_keyword-Defined i k c t dark s)
]

-- A value that is there has no white space in front.
abbrev Trimmed : Option Bytes → Type 0
Trimmed (some (c ∷ _)) = is_delim c ≡ false
Trimmed _ = Unit

with_value-Defined :
    (name : Bytes) (value : Option Bytes) → Trimmed value → Defined (with_value name value)
unfolding with_value
with_value-Defined name none h s = cc
with_value-Defined name (some []) h s = cc
with_value-Defined name (some (c ∷ t)) h s =
    let (rest, e) = chomp_dark c t h in rw e (directive-Defined name c rest h s)

parse_parts-Defined :
    (line : Bytes) (value : Option Bytes) → Trimmed value → Defined (parse_parts line value)
unfolding parse_parts
parse_parts-Defined line value h s = elim (Option-cases (strtok line)) [
  | inl e ↦ rw (e, parse_parts) (cc)
  | inr ((name, kept), e) ↦ rw (e, parse_parts) (ground (arith, with_value-Defined name value h s))
]

skip_delim-Trimmed : (s : Bytes) → Trimmed (some (skip_delim s))
skip_delim-Trimmed s = go (skip_delim s) refl
  where
    go : (r : Bytes) → skip_delim s ≡ r → Trimmed (some r)
    go [] e = tt
    go (c ∷ t) e = skip_delim-dark s e

-- `parse_line` has a result for every line and in every state: the assertion of `parse_enum` and
-- the pointers that `parse_enum` and `parse_int` take from `strtok` hold, since the value that
-- reaches a parser begins with a byte that is not white space, and no message buffer overflows.
pub parse_line-Defined : (line : Bytes) (s : State) → parse_line line s ≢ none
unfolding parse_line
parse_line-Defined line s = elim (Option-cases (cut_at b'=' line)) [
  | inl e ↦ rw (e, parse_line) (parse_parts-Defined line none tt s)
  | inr ((before, behind), e) ↦
      rw (e, parse_line) (parse_parts-Defined before _ (skip_delim-Trimmed behind) s)
]
