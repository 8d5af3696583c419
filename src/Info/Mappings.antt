-- ===== src/Info/Mappings.antt =====
-- The mappings of the document, read back: a reader of YAML mappings from hexadecimal numbers to
-- double-quoted scalars, one to a line.
use crashinfo.Base.{
  ℕ, zero, suc, ◌-◌, ◌<◌, ◌≤◌, Bool, List, [], ◌∷◌, ◌++◌, ◌≡◌, refl, ◌∙◌, ap, arith, Bytes, codes,
  Option, none, some, append_assoc, All, length, length-append, replicate, show,
}
use crashinfo.Conf.{Mapping}
use crashinfo.Conf.Text.{scan_digits, is_digit, digit_value}
use crashinfo.Conf.Value.Numbers.{show-append, scan_digits-digits_onto, scan_digits_stop}
use crashinfo.Yaml.Scalar.{Fits, unquote, unquote-fputy}
use crashinfo.Info.{◌>>◌, escaped, show_zeros, mapping, mappings_loop, mappings}
use crashinfo.Info.Sequence.{strip, unquote-text}

abbrev Entry : Type 0
Entry = Option (Mapping × Bytes)

-- What stands behind the scalar of an entry is the end of its line.
abbrev end_line : ℕ → Option (Bytes × Bytes) → Entry
end_line addr none = none
end_line addr (some (file, s)) = elim (strip (codes "\n") s) [
  | none ↦ none
  | some rest ↦ some (record { addr = addr; file = file }, rest)
]

abbrev key : ℕ × Bytes → Entry
key (addr, s) = elim (strip (codes ": ") s) [ none ↦ none | some t ↦ end_line addr (unquote t) ]

-- An entry of the mapping, and what follows its line.
unfoldable pub read_entry : Bytes → Entry
read_entry s = elim (strip (codes "  0x") s) [ none ↦ none | some t ↦ key (scan_digits 16 0 t) ]

abbrev before : Mapping → List Mapping × Bytes → List Mapping × Bytes
before m (maps, rest) = (m ∷ maps, rest)

-- The entries up to a line that is none, on fuel above their number.
unfoldable pub read_entries : ℕ → Bytes → List Mapping × Bytes
read_entries zero s = ([], s)
read_entries (suc fuel) s = elim (read_entry s) [
  | none ↦ ([], s)
  | some (m, rest) ↦ before m (read_entries fuel rest)
]

-- The section of the mappings, and what follows it.
unfoldable pub read_mappings : Bytes → Option (List Mapping × Bytes)
read_mappings s = elim (strip (codes "executable_mappings: ~\n") s) [
  | some rest ↦ some ([], rest)
  | none ↦ elim (strip (codes "executable_mappings:\n") s) [
    | none ↦ none
    | some t ↦ some (read_entries (suc (length t)) t)
  ]
]

scan_zeros : (k : ℕ) (s : Bytes) → scan_digits 16 0 (replicate k b'0' ++ s) ≡ scan_digits 16 0 s
unfolding scan_digits is_digit digit_value
scan_zeros zero s = refl
scan_zeros (suc k) s = scan_zeros k s

-- An address reads back, up to the colon.
scan_digits-show_zeros :
    (n : ℕ) (rest : Bytes) → scan_digits 16 0 (show_zeros 16 16 n ++ b':' ∷ rest) ≡ (n, b':' ∷ rest)
unfolding show_zeros
scan_digits-show_zeros n rest =
    ap (scan_digits 16 0)
      (append_assoc (replicate (16 - length (show 16 n)) b'0') (show 16 n) (b':' ∷ rest))
    ∙ scan_zeros (16 - length (show 16 n)) (show 16 n ++ b':' ∷ rest)
    ∙ ap (scan_digits 16 0) (show-append 16 n (b':' ∷ rest))
    ∙ scan_digits-digits_onto 16 (suc n) n (b':' ∷ rest) (omega arith) (omega arith) (omega arith)
    ∙ scan_digits_stop 16 n (b':' ∷ rest) (unfold is_digit digit_value in refl)

regroup : (z c q n r : Bytes) → (((z ++ c) ++ q) ++ n) ++ r ≡ z ++ (c ++ (q ++ (n ++ r)))
regroup z c q n r = simp append_assoc

module _ (char_signed : Bool) where
  -- The file of a mapping has bytes with escapes of two digits.
  abbrev pub FitsFile : Mapping → Type 0
  FitsFile m = All (Fits char_signed) m.file

  -- `text` is what a mapping prints as, and reads back as it.
  record IsEntry (m : Mapping) (text : Bytes) : Type 0 where
    prints : mapping char_signed m ≡ some (text, [])
    reads : (rest : Bytes) → read_entry (text ++ rest) ≡ some (m, rest)
    enough : 1 ≤ length text

  mapping-IsEntry : (m : Mapping) → FitsFile m → (text : Bytes) × IsEntry m text
  unfolding mapping escaped ◌>>◌ read_entry
  mapping-IsEntry m h =
      let (quote, e, _) = unquote-fputy char_signed m.file [] h in
      let zeros = show_zeros 16 16 m.addr in
      let text = ((codes "  0x" ++ (zeros ++ codes ": ")) ++ quote) ++ codes "\n" in
      (
        text,
        record {
          prints = rw e refl;
          reads = λ rest.
              ap (λ t. key (scan_digits 16 0 t))
                (regroup zeros (codes ": ") quote (codes "\n") rest)
              ∙ ap key (scan_digits-show_zeros m.addr (b' ' ∷ (quote ++ b'\n' ∷ rest)))
              ∙ ap (end_line m.addr) (unquote-text char_signed m.file quote (b'\n' ∷ rest) h e);
          enough = omega arith;
        },
      )

  -- The same for a list of mappings, in front of a line that is no entry.
  record AreEntries (maps : List Mapping) (text : Bytes) : Type 0 where
    prints : mappings_loop char_signed maps ≡ some (text, [])
    reads :
        (fuel : ℕ) (rest : Bytes)
        → length maps < fuel
        → strip (codes "  0x") rest ≡ none
        → read_entries fuel (text ++ rest) ≡ (maps, rest)
    enough : length maps ≤ length text

  read_entries-nil :
      (fuel : ℕ) (rest : Bytes)
      → 0 < fuel
      → strip (codes "  0x") rest ≡ none
      → read_entries fuel rest ≡ ([], rest)
  unfolding read_entries read_entry
  read_entries-nil zero rest lt over = absurd (omega arith)
  read_entries-nil (suc fuel) rest lt over = rw over refl

  read_entries-cons :
      (m : Mapping) (maps : List Mapping) (text later : Bytes) (fuel : ℕ) (rest : Bytes)
      → IsEntry m text
      → AreEntries maps later
      → suc (length maps) < fuel
      → strip (codes "  0x") rest ≡ none
      → read_entries fuel ((text ++ later) ++ rest) ≡ (m ∷ maps, rest)
  unfolding read_entries
  read_entries-cons m maps text later zero rest p ps lt over = absurd (omega arith)
  read_entries-cons m maps text later (suc fuel) rest p ps lt over =
      ap (read_entries (suc fuel)) (append_assoc text later rest)
      ∙ rw (p.reads (later ++ rest), read_entries)
          (ap (before m) (ps.reads fuel rest (omega arith) over))

  mappings_loop-AreEntries :
      (maps : List Mapping) → All FitsFile maps → (text : Bytes) × AreEntries maps text
  unfolding mappings_loop ◌>>◌
  mappings_loop-AreEntries [] h = (
    [],
    record {
      prints = refl;
      reads = λ fuel rest lt over. read_entries-nil fuel rest lt over;
      enough = omega arith;
    },
  )
  mappings_loop-AreEntries (m ∷ maps) (h, hs) =
      let (text, p) = mapping-IsEntry m h in
      let (later, ps) = mappings_loop-AreEntries maps hs in
      (
        text ++ later,
        record {
          prints = rw (p.prints, ps.prints) refl;
          reads = λ fuel rest lt over. read_entries-cons m maps text later fuel rest p ps lt over;
          enough =
              let q = p.enough in let qs = ps.enough in omega (arith, length-append text later);
        },
      )

  -- The mappings of the process stand in the document so that a reader of YAML gets them back from it,
  -- addresses and files, in order, up to the next section: their files have bytes with escapes of two
  -- digits, and what follows is no entry.
  pub read_mappings-mappings :
      (maps : List Mapping) (rest : Bytes)
      → All FitsFile maps
      → strip (codes "  0x") rest ≡ none
      → (text : Bytes) × (mappings char_signed maps ≡ some (text, []))
        × (read_mappings (text ++ rest) ≡ some (maps, rest))
  unfolding read_mappings mappings ◌>>◌
  read_mappings-mappings [] rest h over = (codes "executable_mappings: ~\n", refl, refl)
  read_mappings-mappings (m ∷ maps) rest h over =
      let (text, p) = mappings_loop-AreEntries (m ∷ maps) h in
      (
        codes "executable_mappings:\n" ++ text,
        rw p.prints refl,
        ap some (
            p.reads (suc (length (text ++ rest))) rest
              (let q = p.enough in omega (arith, length-append text rest)) over),
      )
