-- ===== src/Conf/Value/Stores.antt =====
-- What the parsers store, on the values that they accept.
use crashinfo.Base.{
  show_hex, ℕ, ◌^◌, ◌<◌, if◌then◌else◌, List, [], ◌∷◌, ◌++◌, ◌≡◌, refl, sym, ◌∙◌, ap, subst, arith,
  Bytes, ℤ, pos, Option, none, some, Bool-cases, inl, inr, codes, str_eq, show, to_int, to_uint64,
  append-nil, str_eq_iff, All, ◌≢◌,
}
use crashinfo.Util.{EndsDark, chomp}
use crashinfo.Util.Chomp.{chomp-append}
use crashinfo.Conf.{
  Conf, IntSlot, StrSlot, MultiSlot, set_int, set_str, get_multi, set_multi, get_maps, set_maps,
}
use crashinfo.Conf.Slots.{set_str-set_str}
use crashinfo.Conf.Text.{strtok, skip_delim}
use crashinfo.Conf.Text.Tokens.{Dark, strtok_all}
use crashinfo.Conf.Table.{EnumValue, EnumTable, values_of}
use crashinfo.Conf.Value.Numbers.{strtol-show, strtol-show_hex, show-cons}
use crashinfo.Conf.Value.Printed.{show-Dark}
use crashinfo.Conf.Value.{
  State, malloc, parse_endline, find_value, store_int, parse_int, parse_enum, parse_string,
  parse_string_multi, add_mapping, parse_mapping_multi,
}

-- The state with another configuration.
abbrev pub with_conf : Conf → State → State
with_conf c s = record s { conf = c }

-- All allocations to come succeed.
abbrev pub Plenty : State → Type 0
Plenty s = s.memory ≡ []

chomp_self : (v : Bytes) → EndsDark v → chomp v ≡ v
chomp_self v h = rw (append-nil v) at (chomp-append v [] h tt)

-- One value of a multi-value option: '~' drops all values, and any other is added behind them.
abbrev pub add_value : List Bytes → Bytes → List Bytes
add_value vs v = if str_eq (codes "~") v then [] else vs ++ v ∷ []

-- The action has a result, and it is right.
abbrev pub Returns : {A : Type 0} → Option (A × State) → (A → State → Type 0) → Type 0
Returns none P = ⊥
Returns (some (a, s)) P = P a s

-- Success, with the configuration `c`; the later allocations are left as they are.
abbrev pub Stored : State → Conf → ℤ → State → Type 0
Stored s c r s' = (r ≡ pos 0) × (s'.conf ≡ c) × (Plenty s → Plenty s')

pub Stored-since :
    (s u : State) (d : Conf) (r : Option (ℤ × State))
    → Returns r (Stored u d)
    → Plenty u
    → Returns r (Stored s d)
Stored-since s u d none h p = h
Stored-since s u d (some (a, v)) (z, e, q) p = (z, e, λ _. q p)

pub parse_string_multi-Stored :
    (k : Bytes) (slot : MultiSlot) (v : Bytes) (s : State)
    → EndsDark v
    → Plenty s
    → Returns
        (parse_string_multi k slot v s)
        (Stored s (set_multi slot (add_value (get_multi slot s.conf) v) s.conf))
unfolding parse_string_multi malloc
parse_string_multi-Stored k slot v s h m = elim (Bool-cases (str_eq (codes "~") v)) [
  | inl tilde ↦ rw (tilde, parse_string_multi) (refl, refl, λ p. p)
  | inr other ↦ rw (other, parse_string_multi, m, chomp_self v h) (refl, refl, λ _. refl)
]

-- '~' unsets a single-value option, and any other value replaces the one it had.
abbrev pub string_value : Bytes → Option Bytes
string_value v = if str_eq (codes "~") v then none else some v

pub parse_string-Stored :
    (k : Bytes) (slot : StrSlot) (v : Bytes) (s : State)
    → EndsDark v
    → Plenty s
    → Returns (parse_string k slot v s) (Stored s (set_str slot (string_value v) s.conf))
unfolding parse_string malloc
parse_string-Stored k slot v s h m = elim (Bool-cases (str_eq (codes "~") v)) [
  | inl tilde ↦ rw (tilde, parse_string) (refl, refl, λ p. p)
  | inr other ↦
      rw (other, parse_string, m, chomp_self v h)
        (refl, set_str-set_str slot none (some v) s.conf, λ _. refl)
]

-- A state that differs from `s` in neither the configuration nor the allocations will do for `s`.
pub Stored-elsewhere :
    (f : Conf → Conf) (s u : State) (m : Option (ℤ × State))
    → u.conf ≡ s.conf
    → u.memory ≡ s.memory
    → Returns m (Stored u (f u.conf))
    → Returns m (Stored s (f s.conf))
Stored-elsewhere f s u none c e h = h
Stored-elsewhere f s u (some (r, t)) c e (ok, stored, plenty) =
    (ok, stored ∙ ap f c, λ p. plenty (e ∙ p))

pub to_int_small : (n : ℕ) → n < 2 ^ 31 → to_int (pos n) ≡ pos n
unfolding to_int
to_int_small n h = ground arith

parse_endline-nil : (s : State) → parse_endline [] s ≡ some (pos 0, s)
unfolding parse_endline strtok skip_delim
parse_endline-nil s = refl

store_int-Stored :
    (k : Bytes) (slot : IntSlot) (n : ℕ) (token : Bytes) (s : State)
    → n < 2 ^ 31
    → Returns (store_int k slot token [] (pos n, []) s) (Stored s (set_int slot (pos n) s.conf))
unfolding store_int
store_int-Stored k slot n token s h = rw (to_int_small n h, parse_endline-nil) (refl, refl, λ p. p)

token_show : (n : ℕ) → strtok (show 10 n) ≡ some (show 10 n, [])
token_show n = let (c, t, e) = show-cons n in rw e (strtok_all c t (rw e at (show-Dark n)))

pub parse_int-Stored :
    (k : Bytes) (slot : IntSlot) (n : ℕ) (s : State)
    → n < 2 ^ 31
    → Returns (parse_int k slot (show 10 n) s) (Stored s (set_int slot (pos n) s.conf))
unfolding parse_int
parse_int-Stored k slot n s h =
    rw (token_show n, parse_int)
      (subst
        (λ r.
          Returns (store_int k slot (show 10 n) [] r s) (Stored s (set_int slot (pos n) s.conf)))
        (sym (strtol-show n (omega arith))) (store_int-Stored k slot n (show 10 n) s h))

-- The first row with the word gives the value.
pub find_value-first :
    (w : Bytes) (before : List EnumValue) (e : EnumValue) (after : List EnumValue)
    → e.name ≡ w
    → All (λ d. d.name ≢ w) before
    → find_value (before ++ e ∷ after) w ≡ some e.value
unfolding find_value
find_value-first w [] e after named h = rw ((str_eq_iff e.name w).1 named, find_value) refl
find_value-first w (d ∷ before) e after named (other, h) = elim (Bool-cases (str_eq d.name w)) [
  | inl same ↦ absurd (other ((str_eq_iff d.name w).0 same))
  | inr ne ↦ rw (ne, find_value) (find_value-first w before e after named h)
]

pub parse_enum-Stored :
    (k : Bytes) (table : EnumTable) (slot : IntSlot) (c : ℕ) (t : Bytes) (v : ℤ) (s : State)
    → Dark (c ∷ t)
    → find_value (values_of table) (c ∷ t) ≡ some v
    → Returns (parse_enum k table slot (c ∷ t) s) (Stored s (set_int slot v s.conf))
unfolding parse_enum
parse_enum-Stored k table slot c t v s h found =
    rw (strtok_all c t h, parse_enum, found, parse_endline-nil) (refl, refl, λ p. p)

pub parse_mapping_multi-Stored :
    (k : Bytes) (a : ℕ) (file : Bytes) (s : State)
    → a < 2 ^ 63
    → EndsDark file
    → Plenty s
    → Returns
        (parse_mapping_multi k (show_hex a ++ b':' ∷ file) s)
        (Stored s (set_maps (get_maps s.conf ++ record { addr = a; file = file } ∷ []) s.conf))
unfolding parse_mapping_multi add_mapping malloc
parse_mapping_multi-Stored k a file s small h m =
    rw
      (
        strtol-show_hex a file small,
        parse_mapping_multi,
        add_mapping,
        m,
        chomp_self file h,
        address,
      )
      (refl, refl, λ _. refl)
  where
    address : to_uint64 (pos a) ≡ a
    address = unfold to_uint64 in ground arith
