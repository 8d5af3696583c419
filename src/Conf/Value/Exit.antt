-- ===== src/Conf/Value/Exit.antt =====
-- The exit code behind a parser that refuses its value.
use crashinfo.Base.{
  ℕ, Bool, true, false, ◌==◌, if◌then◌else◌, [], ◌∷◌, ◌≡◌, ◌≢◌, ◌⊎◌, inl, inr, refl, sym, ◌∙◌, ap,
  arith, Bytes, codes, ℤ, pos, negsuc, Option, none, some, str_eq, get_or, Option-cases, to_int,
  take,
}
use crashinfo.Log.{Priority, mark, logmsg}
use crashinfo.Log.Status.{Met, status, union, met_by, mark-status}
use crashinfo.Util.{strlen_chomp}
use crashinfo.Conf.{IntSlot, StrSlot, MultiSlot, set_int, set_str}
use crashinfo.Conf.Text.{strtok, strtol}
use crashinfo.Conf.Table.{
  Target, enum_of, int, string, string_multi, mapping_multi, EnumTable, values_of,
}
use crashinfo.Conf.Value.{
  State, M, ◌>>=◌, ◌>>◌, return, say, modify, malloc, allocation_failed, parse_endline, find_value,
  shown_values, parse_enum, store_int, parse_int, parse_string, parse_string_multi, add_mapping,
  parse_mapping_multi, parser_of,
}

-- The exit code is a sum of documented bits.
abbrev pub IsStatus : ℕ → Type 0
IsStatus e = (m : Met) × (e ≡ status m)

mark-IsStatus : (p : Priority) (e : ℕ) → IsStatus e → IsStatus (mark p e)
mark-IsStatus p e (m, is) = (union m (met_by p), ap (mark p) is ∙ mark-status p m)

status_crit : (m : Met) → status (union m (met_by Priority.crit)) ≢ 0
status_crit m = go m.emerg m.alert m.error m.warning
  where
    go :
        (a b d e : Bool)
        → status (
            union
              (record { emerg = a; alert = b; crit = m.crit; error = d; warning = e })
              (met_by Priority.crit))
          ≢ 0
    go a b d e = ground arith

status_warning : (m : Met) → status (union m (met_by Priority.warning)) ≢ 0
status_warning m = ground arith

-- Where an action ends: with success, or with an exit code that is not 0.
abbrev pub Honest : Option (ℤ × State) → Type 0
Honest none = Unit
Honest (some (r, s)) = IsStatus s.log.exitcode × ((r ≡ pos 0) ⊎ (s.log.exitcode ≢ 0))

abbrev pub Act : M ℤ → Type 0
Act m = (s : State) → IsStatus s.log.exitcode → Honest (m s)

-- An action that keeps the exit code a sum of documented bits.
abbrev pub Sound : {A : Type 0} → Option (A × State) → Type 0
Sound none = Unit
Sound (some (a, s)) = IsStatus s.log.exitcode

abbrev pub Quiet : {A : Type 0} → M A → Type 0
Quiet m = (s : State) → IsStatus s.log.exitcode → Sound (m s)

pub Act-bind :
    {A : Type 0} (m : M A) (f : A → M ℤ) → Quiet m → ((a : A) → Act (f a)) → Act (m >>= f)
Act-bind {A} m f hm hf s h = go (m s) (hm s h)
  where
    go : (o : Option (A × State)) → Sound o → Honest (((λ (_ : State). o) >>= f) s)
    go none h = tt
    go (some (a, s')) h = hf a s' h

pub Act-if : (b : Bool) (m n : M ℤ) → Act m → Act n → Act (if b then m else n)
Act-if true m n hm hn = hm
Act-if false m n hm hn = hn

pub Act-success : Act (return (pos 0))
Act-success s h = (h, inl refl)

pub Quiet-say : (p : Priority) (t : Bytes) → Quiet (say p t)
unfolding logmsg
Quiet-say p t s h = mark-IsStatus p s.log.exitcode h

Quiet-malloc : Quiet malloc
unfolding malloc
Quiet-malloc s h = h

pub Act-crit : (t : Bytes) (r : ℤ) → Act (say Priority.crit t >> return r)
unfolding logmsg
Act-crit t r s (m, is) =
    let e = ap (mark Priority.crit) is ∙ mark-status Priority.crit m in
    ((union m (met_by Priority.crit), e), inr (λ z. status_crit m (sym e ∙ z)))

pub Act-warning : (t : Bytes) (r : ℤ) → Act (say Priority.warning t >> return r)
unfolding logmsg
Act-warning t r s (m, is) =
    let e = ap (mark Priority.warning) is ∙ mark-status Priority.warning m in
    ((union m (met_by Priority.warning), e), inr (λ z. status_warning m (sym e ∙ z)))

parse_endline-Act : (kept : Bytes) → Act (parse_endline kept)
unfolding parse_endline
parse_endline-Act kept s h = elim (Option-cases (strtok kept)) [
  | inl e ↦ rw (e, parse_endline) (Act-success s h)
  | inr ((token, rest), e) ↦ rw (e, parse_endline) (Act-crit _ (negsuc 0) s h)
]

module _ (k : Bytes) where
  allocation_failed-Act : Act (allocation_failed k)
  unfolding allocation_failed
  allocation_failed-Act = Act-crit _ (negsuc 0)

  allocate-Act : (m : M ℤ) → Act m → Act (malloc >>= λ ok. if ok then m else allocation_failed k)
  allocate-Act m h =
      Act-bind malloc (λ ok. if ok then m else allocation_failed k) Quiet-malloc
        (λ ok. Act-if ok m (allocation_failed k) h allocation_failed-Act)

  store_int-Act :
      (slot : IntSlot) (token kept : Bytes) (n : ℤ) (end : Bytes)
      → Act (store_int k slot token kept (n, end))
  unfolding store_int
  store_int-Act slot token kept n [] =
      Act-bind (modify (set_int slot (to_int n))) (λ _. parse_endline kept) (λ s h. h)
        (λ _. parse_endline-Act kept)
  store_int-Act slot token kept n (_ ∷ _) = Act-crit _ (negsuc 0)

  parse_int-Act : (slot : IntSlot) (value : Bytes) → Act (parse_int k slot value)
  unfolding parse_int
  parse_int-Act slot value s h = elim (Option-cases (strtok value)) [
    | inl e ↦ rw (e, parse_int) tt
    | inr ((token, kept), e) ↦ rw (e, parse_int) (store_int-Act slot token kept _ _ s h)
  ]

  parse_enum-Act :
      (table : EnumTable) (slot : IntSlot) (value : Bytes) → Act (parse_enum k table slot value)
  unfolding parse_enum
  parse_enum-Act table slot value s h = elim (Option-cases (strtok value)) [
    | inl e ↦ rw (e, parse_enum) tt
    | inr ((token, kept), e) ↦ elim (Option-cases (find_value (values_of table) token)) [
      | inl none_found ↦ elim (Option-cases (shown_values (values_of table))) [
        | inl overflow ↦ rw (e, parse_enum, none_found, overflow) tt
        | inr (values, shown) ↦ rw (e, parse_enum, none_found, shown) (Act-crit _ (negsuc 0) s h)
      ]
      | inr (v, found) ↦
          rw (e, parse_enum, found)
            (Act-bind (modify (set_int slot v)) (λ _. parse_endline kept) (λ s h. h)
              (λ _. parse_endline-Act kept) s h)
    ]
  ]

  parse_string-Act : (slot : StrSlot) (value : Bytes) → Act (parse_string k slot value)
  unfolding parse_string
  parse_string-Act slot value =
      Act-if (str_eq (codes "~") value) _ _ (λ s h. (h, inl refl))
        (Act-bind (modify (set_str slot none)) _ (λ s h. h)
          (λ _.
            allocate-Act
              (modify (set_str slot (some (take (strlen_chomp value) value))) >> return (pos 0))
              (λ s h. (h, inl refl))))

  parse_string_multi-Act :
      (slot : MultiSlot) (value : Bytes) → Act (parse_string_multi k slot value)
  unfolding parse_string_multi
  parse_string_multi-Act slot value =
      Act-if (str_eq (codes "~") value) _ _ (λ s h. (h, inl refl))
        (allocate-Act _ (λ s h. (h, inl refl)))

  parse_mapping_multi-Act : (value : Bytes) → Act (parse_mapping_multi k value)
  unfolding parse_mapping_multi add_mapping
  parse_mapping_multi-Act value =
      Act-if (get_or (strtol 0 value).1 0 0 == b':') _ _ (allocate-Act _ (λ s h. (h, inl refl)))
        (Act-crit _ (negsuc 0))

  pub parser_of-Act : (t : Target) (value : Bytes) → Act (parser_of k t value)
  unfolding parser_of
  parser_of-Act (enum_of table slot) = parse_enum-Act table slot
  parser_of-Act (int slot) = parse_int-Act slot
  parser_of-Act (string slot) = parse_string-Act slot
  parser_of-Act (string_multi slot) = parse_string_multi-Act slot
  parser_of-Act mapping_multi = parse_mapping_multi-Act
