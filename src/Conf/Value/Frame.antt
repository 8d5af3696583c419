-- ===== src/Conf/Value/Frame.antt =====
-- What a parser writes of the configuration.
use crashinfo.Base.{
  Bool, true, false, ◌==◌, if◌then◌else◌, List, [], ◌∷◌, ◌≡◌, inl, inr, refl, sym, ◌∙◌, subst,
  arith, Bytes, ℤ, pos, Option, none, some, str_eq, get_or, Option-cases, codes, to_int, take,
}
use crashinfo.Util.{strlen_chomp}
use crashinfo.Conf.{
  Conf, Mapping, IntSlot, StrSlot, MultiSlot, get_int, set_int, get_str, set_str, get_multi,
  set_multi, get_maps, set_maps,
}
use crashinfo.Conf.Slots.{
  set_int-ints, set_int-strs, set_int-multis, set_int-maps, set_str-ints, set_str-strs,
  set_str-multis, set_str-maps, set_multi-ints, set_multi-strs, set_multi-multis, set_multi-maps,
}
use crashinfo.Conf.Text.{strtok, strtol}
use crashinfo.Conf.Table.{
  Target, enum_of, int, string, string_multi, mapping_multi, EnumTable, values_of,
}
use crashinfo.Conf.Value.{
  State, M, ◌>>=◌, ◌>>◌, return, modify, malloc, allocation_failed, parse_endline, find_value,
  shown_values, parse_enum, store_int, parse_int, parse_string, parse_string_multi, add_mapping,
  parse_mapping_multi, parser_of,
}

abbrev StoresInt : Target → IntSlot → Type 0
StoresInt (enum_of _ i) j = j ≡ i
StoresInt (int i) j = j ≡ i
StoresInt _ j = ⊥

abbrev StoresStr : Target → StrSlot → Type 0
StoresStr (string i) j = j ≡ i
StoresStr _ j = ⊥

abbrev StoresMulti : Target → MultiSlot → Type 0
StoresMulti (string_multi i) j = j ≡ i
StoresMulti _ j = ⊥

abbrev StoresMaps : Target → Type 0
StoresMaps mapping_multi = Unit
StoresMaps _ = ⊥

-- Two configurations agree wherever `t` does not store.
pub record Agree (t : Target) (c d : Conf) : Type 0 where
  pub ints : (j : IntSlot) → ¬ StoresInt t j → get_int j d ≡ get_int j c
  pub strs : (j : StrSlot) → ¬ StoresStr t j → get_str j d ≡ get_str j c
  pub multis : (j : MultiSlot) → ¬ StoresMulti t j → get_multi j d ≡ get_multi j c
  pub maps : ¬ StoresMaps t → get_maps d ≡ get_maps c

pub Agree-refl : (t : Target) (c : Conf) → Agree t c c
Agree-refl t c = record {
  ints = λ j h. refl;
  strs = λ j h. refl;
  multis = λ j h. refl;
  maps = λ h. refl;
}

Agree-trans : (t : Target) {b c d : Conf} → Agree t b c → Agree t c d → Agree t b d
Agree-trans t p q = record {
  ints = λ j h. q.ints j h ∙ p.ints j h;
  strs = λ j h. q.strs j h ∙ p.strs j h;
  multis = λ j h. q.multis j h ∙ p.multis j h;
  maps = λ h. q.maps h ∙ p.maps h;
}

-- Where an action ends: at a configuration that agrees with `c`, if it has a result.
abbrev pub Ends : Target → Conf → {A : Type 0} → Option (A × State) → Type 0
Ends t c none = Unit
Ends t c (some (a, s)) = Agree t c s.conf

module _ (t : Target) where
  -- The action changes the configuration at most where `t` stores.
  abbrev pub Keeps : {A : Type 0} → M A → Type 0
  Keeps m = (s : State) → Ends t s.conf (m s)

  Ends-trans :
      {A : Type 0} {c d : Conf} (r : Option (A × State)) → Agree t c d → Ends t d r → Ends t c r
  Ends-trans none p h = tt
  Ends-trans (some (a, s)) p h = Agree-trans t p h

  Ends-bind :
      {A B : Type 0} (c : Conf) (f : A → M B) (r : Option (A × State))
      → Ends t c r
      → ((a : A) → Keeps (f a))
      → Ends t c (elim r as (λ _. Option (B × State)) [ none ↦ none | some (a, s') ↦ f a s' ])
  Ends-bind c f none h k = tt
  Ends-bind c f (some (a, s)) h k = Ends-trans (f a s) h (k a s)

  pub Keeps-bind :
      {A B : Type 0} (m : M A) (f : A → M B) → Keeps m → ((a : A) → Keeps (f a)) → Keeps (m >>= f)
  Keeps-bind m f hm hf s = Ends-bind s.conf f (m s) (hm s) hf

  pub Keeps-modify : (f : Conf → Conf) → ((c : Conf) → Agree t c (f c)) → Keeps (modify f)
  Keeps-modify f h s = h s.conf

  pub Keeps-if :
      {A : Type 0} (b : Bool) (m n : M A) → Keeps m → Keeps n → Keeps (if b then m else n)
  Keeps-if true m n hm hn = hm
  Keeps-if false m n hm hn = hn

  Keeps-malloc : Keeps malloc
  unfolding malloc
  Keeps-malloc s = Agree-refl t s.conf

  Keeps-allocation_failed : (k : Bytes) → Keeps (allocation_failed k)
  unfolding allocation_failed
  Keeps-allocation_failed k s = Agree-refl t s.conf

  Keeps-parse_endline : (kept : Bytes) → Keeps (parse_endline kept)
  unfolding parse_endline
  Keeps-parse_endline kept s = elim (Option-cases (strtok kept)) [
    | inl e ↦ rw (e, parse_endline) (Agree-refl t s.conf)
    | inr ((token, rest), e) ↦ rw (e, parse_endline) (Agree-refl t s.conf)
  ]

Agree-set_int :
    (t : Target) (i : IntSlot) (v : ℤ) → StoresInt t i → ((c : Conf) → Agree t c (set_int i v c))
Agree-set_int t i v h c = record {
  ints = λ j other. set_int-ints i j v c (λ e. other (subst (StoresInt t) (sym e) h));
  strs = λ j _. set_int-strs i v c j;
  multis = λ j _. set_int-multis i v c j;
  maps = λ _. set_int-maps i v c;
}

Agree-set_str :
    (t : Target) (i : StrSlot) (v : Option Bytes)
    → StoresStr t i
    → ((c : Conf) → Agree t c (set_str i v c))
Agree-set_str t i v h c = record {
  ints = λ j _. set_str-ints i v c j;
  strs = λ j other. set_str-strs i j v c (λ e. other (subst (StoresStr t) (sym e) h));
  multis = λ j _. set_str-multis i v c j;
  maps = λ _. set_str-maps i v c;
}

Agree-set_multi :
    (t : Target) (i : MultiSlot) (v : List Bytes)
    → StoresMulti t i
    → ((c : Conf) → Agree t c (set_multi i v c))
Agree-set_multi t i v h c = record {
  ints = λ j _. set_multi-ints i v c j;
  strs = λ j _. set_multi-strs i v c j;
  multis = λ j other. set_multi-multis i j v c (λ e. other (subst (StoresMulti t) (sym e) h));
  maps = λ _. set_multi-maps i v c;
}

Agree-set_maps : (v : List Mapping) (c : Conf) → Agree mapping_multi c (set_maps v c)
unfolding set_maps get_int get_str get_multi
Agree-set_maps v c = record {
  ints = λ j _. ground arith;
  strs = λ j _. ground arith;
  multis = λ j _. ground arith;
  maps = λ no. absurd (no tt);
}

module _ (k : Bytes) where
  store_int-Keeps :
      (t : Target) (slot : IntSlot) (token kept : Bytes) (n : ℤ) (end : Bytes)
      → StoresInt t slot
      → Keeps t (store_int k slot token kept (n, end))
  unfolding store_int
  store_int-Keeps t slot token kept n [] h =
      Keeps-bind t (modify (set_int slot (to_int n))) (λ _. parse_endline kept)
        (Keeps-modify t _ (Agree-set_int t slot (to_int n) h)) (λ _. Keeps-parse_endline t kept)
  store_int-Keeps t slot token kept n (_ ∷ _) h = λ s. Agree-refl t s.conf

  parse_int-Keeps : (slot : IntSlot) (value : Bytes) → Keeps (int slot) (parse_int k slot value)
  unfolding parse_int
  parse_int-Keeps slot value s = elim (Option-cases (strtok value)) [
    | inl e ↦ rw (e, parse_int) tt
    | inr ((token, kept), e) ↦
        rw (e, parse_int) (store_int-Keeps (int slot) slot token kept _ _ refl s)
  ]

  parse_enum-Keeps :
      (table : EnumTable) (slot : IntSlot) (value : Bytes)
      → Keeps (enum_of table slot) (parse_enum k table slot value)
  unfolding parse_enum
  parse_enum-Keeps table slot value s = elim (Option-cases (strtok value)) [
    | inl e ↦ rw (e, parse_enum) tt
    | inr ((token, kept), e) ↦ elim (Option-cases (find_value (values_of table) token)) [
      | inl none_found ↦ elim (Option-cases (shown_values (values_of table))) [
        | inl overflow ↦ rw (e, parse_enum, none_found, overflow) tt
        | inr (values, shown) ↦ rw (e, parse_enum, none_found, shown) (Agree-refl _ s.conf)
      ]
      | inr (v, found) ↦
          rw (e, parse_enum, found)
            (Keeps-bind _ (modify (set_int slot v)) (λ _. parse_endline kept)
              (Keeps-modify _ _ (Agree-set_int _ slot v refl)) (λ _. Keeps-parse_endline _ kept) s)
    ]
  ]

  -- An allocation that fails ends the parser; one that succeeds goes on with `m`.
  Keeps-allocate :
      (t : Target) (m : M ℤ)
      → Keeps t m
      → Keeps t (malloc >>= λ ok. if ok then m else allocation_failed k)
  Keeps-allocate t m h =
      Keeps-bind t malloc (λ ok. if ok then m else allocation_failed k) (Keeps-malloc t)
        (λ ok. Keeps-if t ok m (allocation_failed k) h (Keeps-allocation_failed t k))

  parse_string-Keeps :
      (slot : StrSlot) (value : Bytes) → Keeps (string slot) (parse_string k slot value)
  unfolding parse_string
  parse_string-Keeps slot value =
      Keeps-if (string slot) (str_eq (codes "~") value) _ _ (store none) (
        Keeps-bind (string slot) (modify (set_str slot none)) _
          (λ s. Agree-set_str (string slot) slot none refl s.conf)
          (λ _.
            Keeps-allocate (string slot)
              (modify (set_str slot (some (take (strlen_chomp value) value))) >> return (pos 0))
              (store (some (take (strlen_chomp value) value)))))
    where
      store : (v : Option Bytes) → Keeps (string slot) (modify (set_str slot v) >> return (pos 0))
      store v s = Agree-set_str (string slot) slot v refl s.conf

  parse_string_multi-Keeps :
      (slot : MultiSlot) (value : Bytes)
      → Keeps (string_multi slot) (parse_string_multi k slot value)
  unfolding parse_string_multi
  parse_string_multi-Keeps slot value =
      Keeps-if (string_multi slot) (str_eq (codes "~") value) _ _
        (λ s. Agree-set_multi (string_multi slot) slot [] refl s.conf)
        (Keeps-allocate (string_multi slot) _
          (λ s. Agree-set_multi (string_multi slot) slot _ refl s.conf))

  parse_mapping_multi-Keeps : (value : Bytes) → Keeps mapping_multi (parse_mapping_multi k value)
  unfolding parse_mapping_multi add_mapping
  parse_mapping_multi-Keeps value =
      Keeps-if mapping_multi (get_or (strtol 0 value).1 0 0 == b':') _ _
        (Keeps-allocate mapping_multi _ (λ s. Agree-set_maps _ s.conf))
        (λ s. Agree-refl mapping_multi s.conf)

  pub parser_of-Keeps : (t : Target) (value : Bytes) → Keeps t (parser_of k t value)
  unfolding parser_of
  parser_of-Keeps (enum_of table slot) = parse_enum-Keeps table slot
  parser_of-Keeps (int slot) = parse_int-Keeps slot
  parser_of-Keeps (string slot) = parse_string-Keeps slot
  parser_of-Keeps (string_multi slot) = parse_string_multi-Keeps slot
  parser_of-Keeps mapping_multi = parse_mapping_multi-Keeps
