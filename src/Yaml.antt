-- ===== src/Yaml.antt =====
-- info.c: `yaml_esc` and `fputy`, which print a string as a double-quoted YAML scalar.
pub mod Scalar
pub mod Overflow
use crashinfo.Base.{
  ℕ, ◌+◌, ◌-◌, ◌/◌, ◌%◌, ◌^◌, ◌*◌, Bool, true, false, ◌&&◌, List, [], ◌∷◌, ◌++◌, Bytes, codes, ltb,
  leb, ◌==◌, length, if◌then◌else◌, digit_char, show, Option, none, some,
}

-- `sizeof(yaml_esc_buf_t)`
abbrev pub esc_size : ℕ
esc_size = 6

-- `isprint` in the C locale.
abbrev pub is_print : ℕ → Bool
is_print c = leb b' ' c && leb c b'~'

-- `%02x` of the `int` to which a `char` is promoted: as it is where `char` is unsigned or `c` is
-- below 128, and else with the sign extended to 32 bits.
unfoldable pub hex_of_char : Bool → ℕ → Bytes
unfolding show
hex_of_char char_signed c =
    if char_signed && leb 128 c
    then show 16 (2 ^ 32 - 256 + c)
    else digit_char (c / 16) ∷ digit_char (c % 16) ∷ []

-- The text for one byte. `none` is a write past the end of the six bytes of `buf`, which have room
-- for five and the terminator.
unfoldable pub yaml_esc : Bool → ℕ → Option Bytes
unfolding hex_of_char
yaml_esc char_signed c =
    if c == b'\n'
    then some (codes "\\n")
    else if c == b'\t'
    then some (codes "\\t")
    else if c == b'\r'
    then some (codes "\\r")
    else if c == b'\\'
    then some (codes "\\\\")
    else if c == b'"'
    then some (codes "\\\"")
    else if is_print c
    then some (c ∷ [])
    else (let text = codes "\\x" ++ hex_of_char char_signed c in
        if ltb (length text) esc_size then some text else none)

-- The loop of `fputy`, with what is written so far.
unfoldable pub fputy_loop : Bool → Bytes → Bytes → Option Bytes
fputy_loop char_signed [] out = some (out ++ codes "\"")
fputy_loop char_signed (c ∷ s) out = elim (yaml_esc char_signed c) [
  | none ↦ none
  | some text ↦ fputy_loop char_signed s (out ++ text)
]

-- What `fputy` writes to a stream that takes it all.
unfoldable pub fputy : Bool → Bytes → Option Bytes
unfolding fputy_loop yaml_esc
fputy char_signed s = fputy_loop char_signed s (codes "\"")
