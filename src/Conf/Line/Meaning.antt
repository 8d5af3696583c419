-- ===== src/Conf/Line/Meaning.antt =====
-- What an accepted directive stores, for each kind of option.
use crashinfo.Base.{
  show_hex, ℕ, zero, suc, ◌^◌, ◌<◌, false, not, ◌&&◌, ◌==◌, [], ◌∷◌, ◌++◌, ◌≡◌, refl, sym, ◌∙◌,
  subst, Bytes, ℤ, pos, some, get_or, Bool-cases, List, All, ap, ◌≢◌, inl, inr, show,
}
use crashinfo.Util.{EndsDark, is_space}
use crashinfo.Conf.{
  Conf, IntSlot, StrSlot, MultiSlot, set_int, set_str, get_multi, set_multi, get_maps, set_maps,
}
use crashinfo.Conf.Text.{is_delim}
use crashinfo.Conf.Text.Tokens.{Dark, Dark-EndsDark, EndsDark-append}
use crashinfo.Conf.Table.{
  enum_of, int, string, string_multi, mapping_multi, EnumValue, EnumTable, values_of, Keyword,
  keywords,
}
use crashinfo.Conf.Value.{State, find_value, parser_of, run_parser}
use crashinfo.Conf.Value.Numbers.{show-cons}
use crashinfo.Conf.Value.Printed.{show-Dark}
use crashinfo.Conf.Value.Stores.{
  Plenty, Returns, Stored, Stored-elsewhere, add_value, string_value, parse_int-Stored,
  find_value-first, parse_enum-Stored, parse_string-Stored, parse_string_multi-Stored,
  parse_mapping_multi-Stored,
}
use crashinfo.Conf.Line.{find_keyword, count_keyword, run_keyword, directive, parse_line}
use crashinfo.Conf.Line.Spacing.{Spaces, AreBlank, IsName, IsValue, line_of, parse_line-directive}

-- Counting the keyword, and the message on a second use, leave the configuration and the
-- allocations alone.
run_keyword-Returns :
    (i : ℕ) (k : Keyword) (value : Bytes) (s : State) (P : ℤ → State → Type 0)
    → ((u : State)
        → u.conf ≡ s.conf
        → u.memory ≡ s.memory
        → Returns (parser_of k.keyword k.target value u) P)
    → Returns (run_keyword i k value s) P
unfolding run_keyword count_keyword run_parser
run_keyword-Returns i k value s P h =
    elim (Bool-cases (not (get_or s.keyword_seen i 0 == 0) && not k.multi)) [
      | inl twice ↦ rw twice (h _ refl refl)
      | inr once ↦ rw once (h _ refl refl)
    ]

-- A directive whose keyword is the `i`th row, `k`.
pub record Names (sp : Spaces) (name : Bytes) (i : ℕ) (k : Keyword) : Type 0 where
  pub blank : AreBlank sp
  pub name_ok : IsName name
  pub found : find_keyword 0 keywords name ≡ some (i, k)

Dark-IsValue : (v : Bytes) (c : ℕ) (t : Bytes) → v ≡ c ∷ t → Dark v → IsValue v
Dark-IsValue v c t e h = record { starts = rw e (rw e at h).0; ends = Dark-EndsDark v h }

show-IsValue : (n : ℕ) → IsValue (show 10 n)
show-IsValue n = let (c, t, e) = show-cons n in Dark-IsValue (show 10 n) c t e (show-Dark n)

mapping-IsValue : (a : ℕ) (file : Bytes) → EndsDark file → IsValue (show_hex a ++ b':' ∷ file)
mapping-IsValue a file h = record {
  starts = first a;
  ends = EndsDark-append (show_hex a) b':' file (last file h);
}
  where
    first : (a : ℕ) → is_delim (get_or (show_hex a ++ b':' ∷ file) 0 b' ') ≡ false
    first zero = unfold is_delim in refl
    first (suc a) = unfold is_delim in refl

    last : (file : Bytes) → EndsDark file → EndsDark (b':' ∷ file)
    last [] h = unfold is_space in refl
    last (c ∷ file) h = h

module _ (sp : Spaces) (name : Bytes) (i : ℕ) (k : Keyword) (named : Names sp name i k) where
  -- What the row's parser stores is what the line stores.
  parse_line-Stored :
      (value : Bytes) (f : Conf → Conf) (s : State)
      → IsValue value
      → ((u : State)
          → u.memory ≡ s.memory
          → Returns (parser_of k.keyword k.target value u) (Stored u (f u.conf)))
      → Returns (parse_line (line_of sp name value) s) (Stored s (f s.conf))
  unfolding directive
  parse_line-Stored value f s v h =
      subst (λ r. Returns r (Stored s (f s.conf)))
        (sym (parse_line-directive sp name value s named.blank named.name_ok v))
        (rw (named.found, directive)
          (run_keyword-Returns i k value s (Stored s (f s.conf))
            (λ u c m. Stored-elsewhere f s u _ c m (h u m))))

  -- A line that gives an integer option a number below 2 ^ 31 in decimal, with white space around
  -- the name and the number, succeeds and stores that number.
  pub parse_line-int :
      (slot : IntSlot) (n : ℕ) (s : State)
      → k.target ≡ int slot
      → n < 2 ^ 31
      → Returns
          (parse_line (line_of sp name (show 10 n)) s)
          (Stored s (set_int slot (pos n) s.conf))
  unfolding parser_of
  parse_line-int slot n s t h =
      parse_line-Stored (show 10 n) (set_int slot (pos n)) s (show-IsValue n)
        (λ u m. rw t (parse_int-Stored k.keyword slot n u h))

  -- A line that gives an option with symbolic values a word of its table, with white space around
  -- the name and the word, succeeds and stores the number that stands beside the word, in the first
  -- row of the table that has it.
  pub parse_line-enum :
      (table : EnumTable) (slot : IntSlot) (c : ℕ) (t : Bytes) (before : List EnumValue)
      (e : EnumValue) (after : List EnumValue) (s : State)
      → k.target ≡ enum_of table slot
      → values_of table ≡ before ++ e ∷ after
      → e.name ≡ c ∷ t
      → All (λ d. d.name ≢ c ∷ t) before
      → Dark (c ∷ t)
      → Returns (parse_line (line_of sp name (c ∷ t)) s) (Stored s (set_int slot e.value s.conf))
  unfolding parser_of
  parse_line-enum table slot c t before e after s enum row named others h =
      parse_line-Stored (c ∷ t) (set_int slot e.value) s (Dark-IsValue (c ∷ t) c t refl h) (λ u m.
        rw enum (
          parse_enum-Stored k.keyword table slot c t e.value u h (
            ap (λ es. find_value es (c ∷ t)) row
            ∙ find_value-first (c ∷ t) before e after named others)))

  -- A line that gives a string option a value with no white space at either end succeeds, if the
  -- allocations to come do, and stores the value in place of the one before; '~' unsets the option.
  pub parse_line-string :
      (slot : StrSlot) (value : Bytes) (s : State)
      → k.target ≡ string slot
      → IsValue value
      → Plenty s
      → Returns
          (parse_line (line_of sp name value) s)
          (Stored s (set_str slot (string_value value) s.conf))
  unfolding parser_of
  parse_line-string slot value s t v p =
      parse_line-Stored value (set_str slot (string_value value)) s v
        (λ u m. rw t (parse_string-Stored k.keyword slot value u v.ends (m ∙ p)))

  -- A line that gives a multi-value string option a value with no white space at either end
  -- succeeds, if the allocations to come do, and adds the value behind those the option has; '~'
  -- drops them all.
  pub parse_line-string_multi :
      (slot : MultiSlot) (value : Bytes) (s : State)
      → k.target ≡ string_multi slot
      → IsValue value
      → Plenty s
      → Returns
          (parse_line (line_of sp name value) s)
          (Stored s (set_multi slot (add_value (get_multi slot s.conf) value) s.conf))
  unfolding parser_of
  parse_line-string_multi slot value s t v p =
      parse_line-Stored value (λ c. set_multi slot (add_value (get_multi slot c) value) c) s v
        (λ u m. rw t (parse_string_multi-Stored k.keyword slot value u v.ends (m ∙ p)))

  -- A line that gives the mapping option an address below 2 ^ 63 as `%#x` prints it, a colon and a
  -- path that does not end in white space succeeds, if the allocations to come do, and adds the
  -- mapping behind those the option has.
  pub parse_line-mapping :
      (a : ℕ) (file : Bytes) (s : State)
      → k.target ≡ mapping_multi
      → a < 2 ^ 63
      → EndsDark file
      → Plenty s
      → Returns
          (parse_line (line_of sp name (show_hex a ++ b':' ∷ file)) s)
          (Stored s (set_maps (get_maps s.conf ++ record { addr = a; file = file } ∷ []) s.conf))
  unfolding parser_of
  parse_line-mapping a file s t small h p =
      parse_line-Stored (show_hex a ++ b':' ∷ file)
        (λ c. set_maps (get_maps c ++ record { addr = a; file = file } ∷ []) c) s
        (mapping-IsValue a file h)
        (λ u m. rw t (parse_mapping_multi-Stored k.keyword a file u small h (m ∙ p)))
