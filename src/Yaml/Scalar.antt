-- ===== src/Yaml/Scalar.antt =====
-- A reader of double-quoted scalars, written from the escapes of YAML that `yaml_esc` uses, and the
-- round trip.
use crashinfo.Base.{
  ℕ, ◌+◌, ◌-◌, ◌*◌, ◌/◌, ◌%◌, ◌<◌, Bool, false, ◌&&◌, ◌⊎◌, inl, inr, [], ◌∷◌, ◌++◌, ◌≡◌, ◌≢◌,
  Option-cases, refl, arith, Bytes, codes, leb, ◌==◌, if◌then◌else◌, digit_char, Option, none, some,
  All, append_assoc, append-nil, ◌∙◌,
}
use crashinfo.Yaml.{yaml_esc, fputy_loop, fputy}

pub data Mode : Type 0 where
  plain escaped hex_first : Mode
  hex_second : ℕ → Mode

hex_value : ℕ → Option ℕ
hex_value c =
    if leb b'0' c && leb c b'9'
    then some (c - b'0')
    else if leb b'a' c && leb c b'f'
    then some (c - b'a' + 10)
    else none

-- The byte that a backslash and `c` stand for.
reveal : ℕ → Option ℕ
reveal c =
    if c == b'n'
    then some b'\n'
    else if c == b't'
    then some b'\t'
    else if c == b'r'
    then some b'\r'
    else if c == b'\\'
    then some b'\\'
    else if c == b'"'
    then some b'"'
    else none

-- The bytes up to the closing quote, and what follows it.
read : Mode → Bytes → Bytes → Option (Bytes × Bytes)
unfolding hex_value reveal
read mode [] out = none
read plain (c ∷ s) out =
    let close : Option (Bytes × Bytes) = some (out, s) in
    let escape = read escaped s out in
    let literal = read plain s (out ++ c ∷ []) in
    if c == b'"' then close else if c == b'\\' then escape else literal
read escaped (c ∷ s) out =
    let hex = read hex_first s out in
    let known : Option (Bytes × Bytes) = elim (reveal c) [
      | none ↦ none
      | some d ↦ read plain s (out ++ d ∷ [])
    ] in
    if c == b'x' then hex else known
read hex_first (c ∷ s) out = elim (hex_value c) [ none ↦ none | some d ↦ read (hex_second d) s out ]
read (hex_second h) (c ∷ s) out = elim (hex_value c) [
  | none ↦ none
  | some d ↦ read plain s (out ++ (h * 16 + d) ∷ [])
]

unfoldable pub unquote : Bytes → Option (Bytes × Bytes)
unfolding read
unquote [] = none
unquote (c ∷ s) = if c == b'"' then read plain s [] else none

-- A byte for which `%02x` prints two digits.
abbrev pub Fits : Bool → ℕ → Type 0
Fits char_signed c = (c < 256) × ((char_signed ≡ false) ⊎ (c < 128))

digit_value : (d : ℕ) → d < 16 → hex_value (digit_char d) ≡ some d
unfolding hex_value digit_char
digit_value d h = ground arith

yaml_esc-ne-none : (char_signed : Bool) (c : ℕ) → Fits char_signed c → yaml_esc char_signed c ≢ none
unfolding yaml_esc
yaml_esc-ne-none char_signed c (small, inl u) = ground arith
yaml_esc-ne-none char_signed c (small, inr u) = ground arith

read-hex :
    (c : ℕ) (rest out : Bytes)
    → c < 256
    → read plain (codes "\\x" ++ ((digit_char (c / 16) ∷ digit_char (c % 16) ∷ []) ++ rest)) out
      ≡ read plain rest (out ++ c ∷ [])
read-hex c rest out h = unfold read in ground (arith, digit_value (c / 16), digit_value (c % 16))

read-yaml_esc :
    (char_signed : Bool) (c : ℕ) (text rest out : Bytes)
    → Fits char_signed c
    → yaml_esc char_signed c ≡ some text
    → read plain (text ++ rest) out ≡ read plain rest (out ++ c ∷ [])
unfolding yaml_esc read
read-yaml_esc char_signed c text rest out (small, fits) e =
    ground (arith, read-hex c rest out small)

-- `text` is what `fputy` writes behind its opening quote for `s`, and reads back as `s`.
record IsPrint (char_signed : Bool) (s text : Bytes) : Type 0 where
  prints : (front : Bytes) → fputy_loop char_signed s front ≡ some (front ++ text)
  reads : (rest out : Bytes) → read plain (text ++ rest) out ≡ some (out ++ s, rest)

IsPrint-cons :
    (char_signed : Bool) (c : ℕ) (s here text : Bytes)
    → Fits char_signed c
    → yaml_esc char_signed c ≡ some here
    → IsPrint char_signed s text
    → IsPrint char_signed (c ∷ s) (here ++ text)
unfolding fputy_loop
IsPrint-cons char_signed c s here text h e p = record {
  prints = λ front. rw (e, fputy_loop) (p.prints (front ++ here) ∙ rw append_assoc);
  reads = λ rest out. rw append_assoc (
      read-yaml_esc char_signed c here (text ++ rest) out h e
      ∙ p.reads rest (out ++ c ∷ [])
      ∙ rw append_assoc);
}

fputy_loop-IsPrint :
    (char_signed : Bool) (s : Bytes)
    → All (Fits char_signed) s
    → (text : Bytes) × IsPrint char_signed s text
unfolding fputy_loop read
fputy_loop-IsPrint char_signed [] _ =
    (codes "\"", record { prints = λ front. refl; reads = λ rest out. rw append-nil })
fputy_loop-IsPrint char_signed (c ∷ s) (hc, hs) =
    let (text, p) = fputy_loop-IsPrint char_signed s hs in
    elim (Option-cases (yaml_esc char_signed c)) [
      | inl e ↦ absurd (yaml_esc-ne-none char_signed c hc e)
      | inr (here, e) ↦ (here ++ text, IsPrint-cons char_signed c s here text hc e p)
    ]

-- A string whose bytes have two-digit escapes (all bytes where `char` is unsigned, those below 128
-- where it is signed) is printed within the escape buffer, and a reader of YAML scalars gets it
-- back from the output, whatever stands behind it.
pub unquote-fputy :
    (char_signed : Bool) (s rest : Bytes)
    → All (Fits char_signed) s
    → (text : Bytes) × (fputy char_signed s ≡ some text) × (unquote (text ++ rest) ≡ some (s, rest))
unfolding fputy unquote
unquote-fputy char_signed s rest h =
    let (text, p) = fputy_loop-IsPrint char_signed s h in
    (codes "\"" ++ text, p.prints (codes "\""), p.reads rest [])
