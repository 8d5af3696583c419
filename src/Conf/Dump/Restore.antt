-- ===== src/Conf/Dump/Restore.antt =====
-- What `log_string_multi` prints, parsed again.
use crashinfo.Base.{
  ℕ, zero, suc, negsuc, ◌+◌, false, List, [], ◌∷◌, ◌++◌, ◌≡◌, refl, sym, ◌∙◌, ap, subst, Bytes,
  codes, str_eq, ℤ, pos, Option, none, some, All, append_assoc, append-nil, inr,
}
use crashinfo.Log.{Priority, log_all}
use crashinfo.Conf.{Conf, MultiSlot, get_multi, set_multi}
use crashinfo.Conf.Slots.{get_multi-set_multi, set_multi-set_multi, set_multi-get_multi}
use crashinfo.Conf.Table.{Keyword, string_multi}
use crashinfo.Conf.Value.{State, M, ◌>>=◌}
use crashinfo.Conf.Value.Stores.{Returns, Stored, Stored-since, Plenty, add_value}
use crashinfo.Conf.Line.{parse_line}
use crashinfo.Conf.Line.Spacing.{Spaces, IsValue, line_of}
use crashinfo.Conf.Line.Meaning.{Names, parse_line-string_multi}
use crashinfo.Conf.File.{after_line, parse_file}
use crashinfo.Conf.File.Lines.{Fits, text_of, parse_lines, parse_file-parse_lines}
use crashinfo.Conf.Dump.{log_value, log_values, log_list, log_string_multi}

-- The lines for the values of an option.
abbrev pub value_lines : Bytes → List Bytes → List Bytes
value_lines keyword [] = []
value_lines keyword (v ∷ vs) = (keyword ++ (codes " = " ++ v)) ∷ value_lines keyword vs

abbrev pub at_debug : List Bytes → List (Priority × Bytes)
at_debug [] = []
at_debug (l ∷ ls) = (Priority.debug, l) ∷ at_debug ls

log_values-at_debug :
    (keyword : Bytes) (vs : List Bytes) (s : State)
    → log_values keyword vs s
      ≡ some (tt, record s { log = log_all s.conf.log (at_debug (value_lines keyword vs)) s.log })
unfolding log_values log_value
log_values-at_debug keyword [] s = refl
log_values-at_debug keyword (v ∷ vs) s = log_values-at_debug keyword vs _

-- A value that is a directive of its own: trimmed, and not '~'.
pub record IsText (v : Bytes) : Type 0 where
  pub value_ok : IsValue v
  pub not_tilde : str_eq (codes "~") v ≡ false

-- The white space in the lines of a file of printed values.
abbrev pub printed : Spaces
printed = record {
  before_name = [];
  behind_name = codes " ";
  before_value = codes " ";
  behind_value = codes "\n";
}

printed-line_of :
    (keyword v : Bytes) → (keyword ++ (codes " = " ++ v)) ++ codes "\n" ≡ line_of printed keyword v
printed-line_of keyword v =
    append_assoc keyword (codes " = " ++ v) (codes "\n")
    ∙ sym (append_assoc keyword (codes " ") (b'=' ∷ (codes " " ++ (v ++ codes "\n"))))

-- A line that is stored, and then what follows it.
after_line-Stored :
    (path : Bytes) (n : ℕ) (next : M ℤ) (s : State) (c d : Conf) (r : Option (ℤ × State))
    → Plenty s
    → Returns r (Stored s c)
    → ((u : State) → u.conf ≡ c → Plenty u → Returns (next u) (Stored u d))
    → Returns (((λ _. r) >>= after_line path n next) s) (Stored s d)
unfolding after_line
after_line-Stored path n next s c d none p h rest = absurd h
after_line-Stored path n next s c d (some (pos zero, u)) p (z, conf_u, plenty_u) rest =
    Stored-since s u d (next u) (rest u conf_u (plenty_u p)) (plenty_u p)
after_line-Stored path n next s c d (some (pos (suc m), u)) p (z, conf_u, plenty_u) rest = cc
after_line-Stored path n next s c d (some (negsuc m, u)) p (z, conf_u, plenty_u) rest = cc

add_text : (vs : List Bytes) (v : Bytes) → IsText v → add_value vs v ≡ vs ++ v ∷ []
add_text vs v t = rw t.not_tilde refl

grow :
    (slot : MultiSlot) (v : Bytes) (vs : List Bytes) (c d : Conf)
    → d ≡ set_multi slot (get_multi slot c ++ v ∷ []) c
    → set_multi slot (get_multi slot d ++ vs) d ≡ set_multi slot (get_multi slot c ++ v ∷ vs) c
grow slot v vs c d e =
    let w = get_multi slot c ++ v ∷ [] in
    rw
      (
        e,
        get_multi-set_multi slot w c,
        set_multi-set_multi slot w (w ++ vs) c,
        append_assoc (get_multi slot c) (v ∷ []) vs,
      )
      refl

module _ (path : Bytes) (i : ℕ) (k : Keyword) (slot : MultiSlot)
    (named : Names printed k.keyword i k) (target_is : k.target ≡ string_multi slot) where
  parse_value :
      (v : Bytes) (s : State)
      → IsText v
      → Plenty s
      → Returns
          (parse_line ((k.keyword ++ (codes " = " ++ v)) ++ codes "\n") s)
          (Stored s (set_multi slot (get_multi slot s.conf ++ v ∷ []) s.conf))
  parse_value v s t p =
      rw (printed-line_of k.keyword v, sym (add_text (get_multi slot s.conf) v t))
        (parse_line-string_multi printed k.keyword i k named slot v s target_is t.value_ok p)

  parse_values :
      (n : ℕ) (vs : List Bytes) (s : State)
      → All IsText vs
      → Plenty s
      → Returns
          (parse_lines path n (value_lines k.keyword vs) s)
          (Stored s (set_multi slot (get_multi slot s.conf ++ vs) s.conf))
  unfolding parse_lines after_line
  parse_values n [] s _ p = (
    refl,
    sym (
        ap (λ vs. set_multi slot vs s.conf) (append-nil (get_multi slot s.conf))
        ∙ set_multi-get_multi slot s.conf),
    λ q. q,
  )
  parse_values n (v ∷ vs) s (t, ts) p =
      after_line-Stored path n (parse_lines path (n + 1) (value_lines k.keyword vs)) s _
        (set_multi slot (get_multi slot s.conf ++ v ∷ vs) s.conf) _ p (parse_value v s t p)
        (λ u conf_u plenty_u.
          subst (λ d. Returns (parse_lines path (n + 1) (value_lines k.keyword vs) u) (Stored u d))
            (grow slot v vs s.conf u.conf conf_u) (parse_values (n + 1) vs u ts plenty_u))

  -- The values of a multi-value string option, none of them '~' and none with white space at an
  -- end, are logged in order, each with the keyword and at debug level. And a file of these lines is
  -- accepted, and adds the values, in order, behind those that the option has, if the allocations
  -- succeed, and no line has a newline or a NUL within or fills the buffer of `parse_file`.
  pub log_string_multi-parse_file :
      (v : Bytes) (vs : List Bytes) (s u : State)
      → get_multi slot s.conf ≡ v ∷ vs
      → All IsText (v ∷ vs)
      → All Fits (value_lines k.keyword (v ∷ vs))
      → Plenty u
      → (log_string_multi k.keyword slot s
          ≡ some (
            tt,
            record s { log = log_all s.conf.log (at_debug (value_lines k.keyword (v ∷ vs))) s.log },
          ))
        × Returns
            (parse_file path (inr (text_of (value_lines k.keyword (v ∷ vs)))) u)
            (Stored u (set_multi slot (get_multi slot u.conf ++ v ∷ vs) u.conf))
  unfolding log_string_multi log_list
  log_string_multi-parse_file v vs s u e t f p = (
    rw (e, log_list) (log_values-at_debug k.keyword (v ∷ vs) s),
    subst
        (λ (m : M ℤ).
          Returns (m u) (Stored u (set_multi slot (get_multi slot u.conf ++ v ∷ vs) u.conf)))
        (sym (parse_file-parse_lines path (value_lines k.keyword (v ∷ vs)) f))
        (parse_values 1 (v ∷ vs) u t p),
  )
