-- ===== src/Conf/Text.antt =====
-- The functions of the C library by which conf.c takes text apart: `strchr`, `strtok`, `strtol` and
-- `strtoll`, on strings with no terminator.
pub mod Tokens
use crashinfo.Base.{
  ℕ, ◌+◌, ◌-◌, ◌*◌, ◌^◌, min, Bool, true, false, not, ◌&&◌, ◌||◌, List, [], ◌∷◌, Bytes, ℤ, pos,
  negsuc, ◌==◌, leb, ltb, if◌then◌else◌, Option, none, some,
}
use crashinfo.Util.{is_space}

-- conf.c's `delim`: " \n\r\t\f\v"
abbrev pub delim : Bytes
delim = b' ' ∷ b'\n' ∷ b'\r' ∷ b'\t' ∷ 12 ∷ 11 ∷ []

-- Whether `strchr(s, c)` finds `c`.
abbrev pub contains : Bytes → ℕ → Bool
contains [] c = false
contains (d ∷ s) c = c == d || contains s c

unfoldable pub is_delim : ℕ → Bool
is_delim c = contains delim c

-- `strchr(s, c)`: what stands before the first `c`, and what stands behind it.
unfoldable pub cut_at : ℕ → Bytes → Option (Bytes × Bytes)
cut_at c [] = none
cut_at c (d ∷ s) =
    let here : Option (Bytes × Bytes) = some ([], s) in
    let later : Option (Bytes × Bytes) = elim (cut_at c s) [
      | none ↦ none
      | some (a, b) ↦ some (d ∷ a, b)
    ] in
    if d == c then here else later

unfoldable pub skip_delim : Bytes → Bytes
skip_delim [] = []
skip_delim (c ∷ s) = if is_delim c then skip_delim s else c ∷ s

-- The bytes up to the first delimiter, and what `strtok` keeps for its next call.
unfoldable pub span_token : Bytes → Bytes × Bytes
span_token [] = ([], [])
span_token (c ∷ s) = let (t, r) = span_token s in if is_delim c then ([], s) else (c ∷ t, r)

abbrev token_of : Bytes → Option (Bytes × Bytes)
token_of [] = none
token_of (c ∷ s) = some (span_token (c ∷ s))

-- `strtok(s, delim)`, or `strtok(NULL, delim)` where `s` is what is kept.
unfoldable pub strtok : Bytes → Option (Bytes × Bytes)
strtok s = token_of (skip_delim s)

-- The value of a digit in any base up to 36, and 36 for another byte.
unfoldable pub digit_value : ℕ → ℕ
digit_value c =
    if leb b'0' c && leb c b'9'
    then c - b'0'
    else if leb b'a' c && leb c b'z'
    then c - b'a' + 10
    else if leb b'A' c && leb c b'Z'
    then c - b'A' + 10
    else 36

unfoldable pub is_digit : ℕ → ℕ → Bool
is_digit base c = ltb (digit_value c) base

-- The digits at the front of `s`, read behind `n`, and what follows them.
unfoldable pub scan_digits : ℕ → ℕ → Bytes → ℕ × Bytes
scan_digits base n [] = (n, [])
scan_digits base n (c ∷ s) =
    let stop : ℕ × Bytes = (n, c ∷ s) in
    let more = scan_digits base (n * base + digit_value c) s in
    if is_digit base c then more else stop

abbrev pub starts_digit : ℕ → Bytes → Bool
starts_digit base [] = false
starts_digit base (c ∷ s) = is_digit base c

-- The base and the digits of a number whose base was given as 0.
unfoldable pub radix : Bytes → ℕ × Bytes
radix [] = (10, [])
radix (c ∷ []) = (10, c ∷ [])
radix (c ∷ x ∷ s) =
    if c == b'0' && (x == b'x' || x == b'X') && starts_digit 16 s
    then (16, s)
    else if c == b'0'
    then (8, c ∷ x ∷ s)
    else (10, c ∷ x ∷ s)

-- A magnitude and its sign, held in the range of a 64-bit `long`.
unfoldable pub clamp : Bool → ℕ → ℤ
clamp true m = if m == 0 then pos 0 else negsuc (min m (2 ^ 63) - 1)
clamp false m = pos (min m (2 ^ 63 - 1))

-- The number behind the sign. With no digit the result is 0, and `*end` is the whole text.
unfoldable pub unsigned_part : Bool → ℕ → Bytes → Bytes → ℤ × Bytes
unsigned_part minus base s whole =
    let (m, rest) = scan_digits base 0 s in
    if starts_digit base s then (clamp minus m, rest) else (pos 0, whole)

unfoldable pub skip_space : Bytes → Bytes
skip_space [] = []
skip_space (c ∷ s) = if is_space c then skip_space s else c ∷ s

-- The sign, and the base if it was given as 0.
unfoldable pub signed_part : ℕ → Bytes → Bytes → ℤ × Bytes
signed_part base [] whole = (pos 0, whole)
signed_part base (c ∷ s) whole =
    let minus = c == b'-' in
    let digits : Bytes = if minus || c == b'+' then s else c ∷ s in
    let (b, t) = radix digits in
    if base == 0 then unsigned_part minus b t whole else unsigned_part minus base digits whole

-- `strtol(s, &end, base)` for base 0 or 10, and `strtoll`, which is the same where `long` has 64
-- bits: the number and `*end`.
unfoldable pub strtol : ℕ → Bytes → ℤ × Bytes
strtol base s = signed_part base (skip_space s) s
