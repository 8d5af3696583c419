-- ===== src/Proc/Maps.antt =====
-- The mappings that a file of maps leaves in the configuration.
use crashinfo.Base.{
  ℕ, zero, suc, ◌==◌, ◌&&◌, Bool, ◌^◌, ◌≤◌, ◌<◌, true, ltb, if◌then◌else◌, List, [], ◌∷◌, ◌++◌, ◌≡◌,
  ◌≢◌, refl, sym, ◌∙◌, ap, subst, arith, Bytes, codes, str_eq, ℤ, pos, negsuc, show_hex, length,
  length-append, drop, All, Option, none, some, Bool-cases, inl, inr, append_assoc, append-nil,
}
use crashinfo.Util.{EndsDark, is_space}
use crashinfo.Conf.{Conf, Mapping, get_maps, set_maps}
use crashinfo.Conf.Text.{is_delim}
use crashinfo.Conf.Text.Tokens.{Lacks}
use crashinfo.Conf.Table.{Keyword, mapping_multi}
use crashinfo.Conf.Value.{State, M, ◌>>=◌}
use crashinfo.Conf.Value.Stores.{Plenty, Returns, Stored, Stored-since}
use crashinfo.Conf.Line.{find_keyword}
use crashinfo.Conf.Line.Spacing.{Spaces, AreBlank, IsName, line_of}
use crashinfo.Conf.Line.Meaning.{Names, parse_line-mapping}
use crashinfo.Conf.File.{fgets, c_string}
use crashinfo.Conf.File.Lines.{text_of, text-ne-nil, fgets-append, c_string_text}
use crashinfo.Proc.{
  Scanned, mapping_prefix, after_mapping, take_mapping, maps_line, maps_loop, proc_max,
}

abbrev written : Spaces
written = record {
  before_name = [];
  behind_name = [];
  before_value = [];
  behind_value = codes "\n";
}

abbrev maps_row : Keyword
maps_row = record { keyword = codes "proc_maps"; target = mapping_multi; multi = true }

maps-IsName : IsName (codes "proc_maps")
unfolding is_delim
maps-IsName = record {
  dark = (refl, (refl, (refl, (refl, (refl, (refl, (refl, (refl, (refl, tt)))))))));
  plain = (refl, (refl, (refl, (refl, (refl, (refl, (refl, (refl, (refl, tt)))))))));
  ne_nil = cc;
  no_comment = refl;
}

written-AreBlank : AreBlank written
unfolding is_space
written-AreBlank = record { first = tt; second = tt; third = tt; fourth = (refl, tt) }

maps-Names : Names written (codes "proc_maps") 22 maps_row
unfolding find_keyword str_eq
maps-Names = record { blank = written-AreBlank; name_ok = maps-IsName; found = refl }

written-line_of :
    (s : Scanned) (file : Bytes)
    → mapping_prefix s ++ (file ++ codes "\n")
      ≡ line_of written (codes "proc_maps") (show_hex s.addr ++ b':' ∷ file)
written-line_of s file =
    ap (λ t. codes "proc_maps=" ++ t)
      (append_assoc (show_hex s.addr) (codes ":") (file ++ codes "\n")
        ∙ sym (append_assoc (show_hex s.addr) (b':' ∷ file) (codes "\n")))

drop-append : (n : ℕ) (s t : Bytes) → n ≤ length s → drop n (s ++ t) ≡ drop n s ++ t
drop-append zero s t h = refl
drop-append (suc n) [] t h = absurd (omega arith)
drop-append (suc n) (c ∷ s) t h = drop-append n s t (omega arith)

-- A mapping of a file, whose code can be executed.
abbrev pub is_file_code : Scanned → Bool
is_file_code s = s.exec == b'x' && s.tmp == b'/'

-- What `sscanf` says of a line of a mapping that is taken: the address fits, and the path, behind
-- more text than the directive has in front of it, does not end in white space.
pub record Takes (line : Bytes) (s : Scanned) : Type 0 where
  pub address : s.addr < 2 ^ 63
  pub within : s.file ≤ length line
  pub dark : EndsDark (drop s.file line)
  pub room : length (mapping_prefix s) < s.file

abbrev pub Described : Bytes → Option Scanned → Type 0
Described line none = Unit
Described line (some s) = is_file_code s ≡ true → Takes line s

-- A line of `maps` that the buffer holds with its newline.
pub record MapsLine (sscanf : Bytes → Option Scanned) (line : Bytes) : Type 0 where
  pub one_line : Lacks b'\n' line
  pub text : Lacks 0 line
  pub short : length line < proc_max
  pub described : Described line (sscanf (line ++ codes "\n"))

-- The mapping of a line.
abbrev pub mapping_of : Bytes → Option Scanned → List Mapping
mapping_of line none = []
mapping_of line (some s) =
    if is_file_code s then record { addr = s.addr; file = drop s.file line } ∷ [] else []

abbrev pub mappings_of : (Bytes → Option Scanned) → List Bytes → List Mapping
mappings_of sscanf [] = []
mappings_of sscanf (line ∷ lines) =
    mapping_of line (sscanf (line ++ codes "\n")) ++ mappings_of sscanf lines

-- The configuration with mappings behind those that it has.
abbrev pub add_maps : Conf → List Mapping → Conf
add_maps c maps = set_maps (get_maps c ++ maps) c

add_maps-nil : (c : Conf) → add_maps c [] ≡ c
unfolding get_maps set_maps
add_maps-nil c = ap (λ m. set_maps m c) (append-nil c.proc.maps)

add_maps-append : (c : Conf) (a b : List Mapping) → add_maps (add_maps c a) b ≡ add_maps c (a ++ b)
unfolding get_maps set_maps
add_maps-append c a b = ap (λ m. set_maps m c) (append_assoc c.proc.maps a b)

after_mapping-Stored :
    (next : M ℤ) (s : State) (c d : Conf) (r : Option (ℤ × State))
    → Plenty s
    → Returns r (Stored s c)
    → ((u : State) → u.conf ≡ c → Plenty u → Returns (next u) (Stored u d))
    → Returns (((λ (_ : State). r) >>= after_mapping next) s) (Stored s d)
after_mapping-Stored next s c d none p h rest = absurd h
after_mapping-Stored next s c d (some (pos zero, u)) p (z, conf_u, plenty_u) rest =
    Stored-since s u d (next u) (rest u conf_u (plenty_u p)) (plenty_u p)
after_mapping-Stored next s c d (some (pos (suc m), u)) p (z, conf_u, plenty_u) rest = cc
after_mapping-Stored next s c d (some (negsuc m, u)) p (z, conf_u, plenty_u) rest = cc

-- One round of the loop: the mapping of the line is stored, and then what follows.
taken-Stored :
    (line : Bytes) (sc : Scanned) (next : M ℤ) (s : State) (d : Conf)
    → Takes line sc
    → is_file_code sc ≡ true
    → Plenty s
    → ((u : State)
        → u.conf ≡ add_maps s.conf (mapping_of line (some sc))
        → Plenty u
        → Returns (next u) (Stored u d))
    → Returns (take_mapping sc (line ++ codes "\n") next s) (Stored s d)
unfolding take_mapping
taken-Stored line sc next s d t is p rest =
    let room : ltb (length (mapping_prefix sc)) sc.file ≡ true = let r = t.room in ground arith in
    let text : mapping_prefix sc ++ drop sc.file (line ++ codes "\n")
        ≡ line_of written (codes "proc_maps") (show_hex sc.addr ++ b':' ∷ drop sc.file line) =
      ap (λ f. mapping_prefix sc ++ f) (drop-append sc.file line (codes "\n") t.within)
      ∙ written-line_of sc (drop sc.file line) in
    rw (is, take_mapping, room, text)
      (after_mapping-Stored next s _ d _ p
        (parse_line-mapping written (codes "proc_maps") 22 maps_row maps-Names sc.addr
          (drop sc.file line) s refl t.address t.dark p)
        (λ u e. rest u (
          e
          ∙ ap
              (λ b.
                add_maps s.conf
                  (if b then record { addr = sc.addr; file = drop sc.file line } ∷ [] else []))
              (sym is))))

maps_line-Stored :
    (line : Bytes) (o : Option Scanned) (next : M ℤ) (s : State) (d : Conf)
    → Described line o
    → Plenty s
    → ((u : State)
        → u.conf ≡ add_maps s.conf (mapping_of line o)
        → Plenty u
        → Returns (next u) (Stored u d))
    → Returns (maps_line o (line ++ codes "\n") next s) (Stored s d)
unfolding maps_line take_mapping
maps_line-Stored line none next s d h p rest = rest s (sym (add_maps-nil s.conf)) p
maps_line-Stored line (some sc) next s d h p rest = elim (Bool-cases (is_file_code sc)) [
  | inl is ↦ taken-Stored line sc next s d (h is) is p rest
  | inr other ↦
      rw (other, maps_line, take_mapping)
        (rest s
          (sym (add_maps-nil s.conf)
            ∙ ap
                (λ b.
                  add_maps s.conf
                    (if b then record { addr = sc.addr; file = drop sc.file line } ∷ [] else []))
                (sym other))
          p)
]

maps_loop_round :
    (sscanf : Bytes → Option Scanned) (fuel : ℕ) (line rest : Bytes)
    → MapsLine sscanf line
    → maps_loop sscanf (suc fuel) (line ++ b'\n' ∷ rest)
      ≡ maps_line (sscanf (line ++ codes "\n")) (line ++ codes "\n") (maps_loop sscanf fuel rest)
maps_loop_round sscanf fuel line rest h =
    at_line (line ++ b'\n' ∷ rest) (text-ne-nil line rest)
    ∙ ap
        (λ (p : Bytes × Bytes).
          maps_line (sscanf (c_string p.0)) (c_string p.0) (maps_loop sscanf fuel p.1))
        (fgets-append proc_max line rest h.one_line h.short)
    ∙ ap (λ t. maps_line (sscanf t) t (maps_loop sscanf fuel rest)) (c_string_text line h.text)
  where
    at_line :
        (file : Bytes)
        → file ≢ []
        → maps_loop sscanf (suc fuel) file
          ≡ maps_line
              (sscanf (c_string (fgets proc_max file).0))
              (c_string (fgets proc_max file).0)
              (maps_loop sscanf fuel (fgets proc_max file).1)
    at_line [] ne = absurd (ne refl)
    at_line (c ∷ file) ne = unfold maps_loop in refl

-- A file of maps whose lines the buffer holds adds the mappings that can be executed and are those of
-- a file to the configuration, in their order, if the allocations to come succeed.
pub maps_loop-Stored :
    (sscanf : Bytes → Option Scanned) (fuel : ℕ) (lines : List Bytes) (s : State)
    → All (MapsLine sscanf) lines
    → length (text_of lines) < fuel
    → Plenty s
    → Returns
        (maps_loop sscanf fuel (text_of lines) s)
        (Stored s (add_maps s.conf (mappings_of sscanf lines)))
maps_loop-Stored sscanf zero lines s h enough p = absurd (omega arith)
maps_loop-Stored sscanf (suc fuel) [] s h enough p =
    unfold maps_loop in (refl, sym (add_maps-nil s.conf), λ q. q)
maps_loop-Stored sscanf (suc fuel) (line ∷ lines) s (h, hs) enough p =
    let o = sscanf (line ++ codes "\n") in
    rw (maps_loop_round sscanf fuel line (text_of lines) h) (
      maps_line-Stored line o (maps_loop sscanf fuel (text_of lines)) s _ h.described p (λ u e q.
        subst (λ c. Returns (maps_loop sscanf fuel (text_of lines) u) (Stored u c))
          (ap (λ c. add_maps c (mappings_of sscanf lines)) e
            ∙ add_maps-append s.conf (mapping_of line o) (mappings_of sscanf lines))
          (maps_loop-Stored sscanf fuel lines u hs
            (omega (arith, enough, length-append {0} line (b'\n' ∷ text_of lines))) q)))
