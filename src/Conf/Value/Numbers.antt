-- ===== src/Conf/Value/Numbers.antt =====
-- `strtol` reads back what `%d` and `%#x` print.
use crashinfo.Base.{
  show_hex, ℕ, zero, suc, ◌+◌, ◌*◌, ◌/◌, ◌%◌, ◌^◌, ◌≤◌, ◌<◌, true, false, ◌==◌, ltb, if◌then◌else◌,
  [], ◌∷◌, ◌++◌, ◌≡◌, refl, sym, ◌∙◌, ap, arith, Bytes, pos, Bool-cases, inl, inr, show, digit_char,
  digits_onto, digits_onto-append,
}
use native.Mathlib.Nat.{mod-lt, mod-eq_of_lt, div-add-mod', div-lt_self, le-div_iff_mul-le}
use crashinfo.Util.{is_space}
use crashinfo.Conf.Text.{
  digit_value, is_digit, scan_digits, starts_digit, radix, clamp, unsigned_part, skip_space,
  signed_part, strtol,
}

-- The digit `d`, in a base that has it.
digit_value-digit_char : (d : ℕ) → d < 16 → digit_value (digit_char d) ≡ d
unfolding digit_value digit_char
digit_value-digit_char d h = ground arith

scan_digits_step :
    (base n d : ℕ) (s : Bytes)
    → base ≤ 16
    → d < base
    → scan_digits base n (digit_char d ∷ s) ≡ scan_digits base (n * base + d) s
unfolding scan_digits is_digit
scan_digits_step base n d s hb hd = ground (arith, digit_value-digit_char d)

-- Scanning the digits printed for `n` in front of `out` is scanning `out` behind `n`.
pub scan_digits-digits_onto :
    (base fuel n : ℕ) (out : Bytes)
    → 2 ≤ base
    → base ≤ 16
    → n < fuel
    → scan_digits base 0 (digits_onto base fuel n out) ≡ scan_digits base n out
unfolding digits_onto
scan_digits-digits_onto base zero n out lo hi h = absurd (omega arith)
scan_digits-digits_onto base (suc fuel) n out lo hi h =
    let d = n % base in
    let d_lt : d < base = mod-lt n (omega arith) in
    let joins : n / base * base + d ≡ n = div-add-mod' n base in
    elim (Bool-cases (ltb n base)) [
      | inl small ↦
          rw (small, scan_digits_step base 0 d out hi d_lt)
            (ap (λ m. scan_digits base m out) (ground (arith, mod-eq_of_lt {n = n} {m = base})))
      | inr large ↦
          rw
            (
              large,
              scan_digits-digits_onto base fuel (n / base) (digit_char d ∷ out) lo hi
                  (ground (arith, div-lt_self {n = n} {k = base})),
              scan_digits_step base (n / base) d out hi d_lt,
              joins,
            )
            refl
    ]

-- A printed number begins with a digit, which is 0 for 0 only.
record StartsDigit (base n : ℕ) (text : Bytes) : Type 0 where
  digit : ℕ
  rest : Bytes
  text_is : text ≡ digit_char digit ∷ rest
  digit_lt : digit < base
  digit_pos : 0 < n → 0 < digit

digits_onto-StartsDigit :
    (base fuel n : ℕ) (out : Bytes)
    → 2 ≤ base
    → n < fuel
    → StartsDigit base n (digits_onto base fuel n out)
unfolding digits_onto
digits_onto-StartsDigit base zero n out lo h = absurd (omega arith)
digits_onto-StartsDigit base (suc fuel) n out lo h = elim (Bool-cases (ltb n base)) [
  | inl small ↦ rw small (record {
    digit = n % base;
    rest = out;
    text_is = refl;
    digit_lt = mod-lt n (omega arith);
    digit_pos = λ p. ground (arith, mod-eq_of_lt {n = n} {m = base});
  })
  | inr large ↦
      let ih =
        digits_onto-StartsDigit base fuel (n / base) (digit_char (n % base) ∷ out) lo
          (ground (arith, div-lt_self {n = n} {k = base})) in
      rw large (record {
        digit = ih.digit;
        rest = ih.rest;
        text_is = ih.text_is;
        digit_lt = ih.digit_lt;
        digit_pos = λ _.
            ih.digit_pos
              ((le-div_iff_mul-le {k = base} {x = 1} {y = n} (omega arith)).1 (ground arith));
      })
]

-- The digits of `n` with something behind them that is no digit.
abbrev printed : ℕ → ℕ → Bytes → Bytes
printed base n r = digits_onto base (suc n) n r

pub show-append : (base n : ℕ) (r : Bytes) → show base n ++ r ≡ printed base n r
unfolding show
show-append base n r = sym (digits_onto-append base (suc n) n [] r)

pub scan_digits_stop :
    (base n : ℕ) (r : Bytes) → starts_digit base r ≡ false → scan_digits base n r ≡ (n, r)
unfolding scan_digits
scan_digits_stop base n [] h = refl
scan_digits_stop base n (c ∷ r) h = rw h

starts_digit-printed :
    (base n : ℕ) (r : Bytes) → 2 ≤ base → base ≤ 16 → starts_digit base (printed base n r) ≡ true
starts_digit-printed base n r lo hi =
    let f = digits_onto-StartsDigit base (suc n) n r lo (omega arith) in
    ap (starts_digit base) f.text_is ∙ first f.digit f.digit_lt
  where
    first : (d : ℕ) → d < base → is_digit base (digit_char d) ≡ true
    first d h = unfold is_digit in ground (arith, digit_value-digit_char d)

unsigned_part-printed :
    (base n : ℕ) (r whole : Bytes)
    → 2 ≤ base
    → base ≤ 16
    → n < 2 ^ 63
    → starts_digit base r ≡ false
    → unsigned_part false base (printed base n r) whole ≡ (pos n, r)
unsigned_part-printed base n r whole lo hi small stop =
    unfold unsigned_part clamp in
    rw
      (
        unsigned_part,
        starts_digit-printed base n r lo hi,
        scan_digits-digits_onto base (suc n) n r lo hi (omega arith),
        scan_digits_stop base n r stop,
      )
      (ground arith)

-- A printed number begins with neither white space nor a sign.
first_byte :
    (d : ℕ)
    → d < 16
    → (is_space (digit_char d) ≡ false)
      × ((digit_char d == b'-') ≡ false)
      × ((digit_char d == b'+') ≡ false)
unfolding is_space digit_char
first_byte d h = ground arith

strtol_digits :
    (base d : ℕ) (s : Bytes)
    → d < 16
    → strtol base (digit_char d ∷ s) ≡ (
        let (b, t) = radix (digit_char d ∷ s) in
        if base == 0
        then unsigned_part false b t (digit_char d ∷ s)
        else unsigned_part false base (digit_char d ∷ s) (digit_char d ∷ s))
strtol_digits base d s h =
    let f = first_byte d h in
    unfold strtol skip_space signed_part in rw (strtol, skip_space, f.0, signed_part, f.1, f.2)

radix_decimal :
    (d : ℕ) (s : Bytes) → 0 < d → d < 10 → radix (digit_char d ∷ s) ≡ (10, digit_char d ∷ s)
unfolding radix digit_char
radix_decimal d [] lo hi = refl
radix_decimal d (x ∷ s) lo hi = ground arith

strtol_decimal :
    (d : ℕ) (s : Bytes)
    → 0 < d
    → d < 10
    → strtol 0 (digit_char d ∷ s) ≡ unsigned_part false 10 (digit_char d ∷ s) (digit_char d ∷ s)
strtol_decimal d s lo hi = strtol_digits 0 d s (omega arith) ∙ rw (radix_decimal d s lo hi)

-- `strtol` in base 0 reads `%d` back, for any `long` that is not negative.
pub strtol-show : (n : ℕ) → n < 2 ^ 63 → strtol 0 (show 10 n) ≡ (pos n, [])
unfolding show
strtol-show zero h =
    unfold strtol signed_part skip_space is_space unsigned_part radix is_digit digit_value clamp
      scan_digits in
    refl
strtol-show (suc n) h =
    let m = suc n in
    let f = digits_onto-StartsDigit 10 (suc m) m [] (omega arith) (omega arith) in
    ap (strtol 0) f.text_is
    ∙ strtol_decimal f.digit f.rest (f.digit_pos (omega arith)) f.digit_lt
    ∙ ap (λ t. unsigned_part false 10 t t) (sym f.text_is)
    ∙ unsigned_part-printed 10 m [] _ (omega arith) (omega arith) h refl

radix_hex : (s : Bytes) → starts_digit 16 s ≡ true → radix (b'0' ∷ b'x' ∷ s) ≡ (16, s)
unfolding radix
radix_hex s h = rw h

strtol_hex :
    (s : Bytes)
    → starts_digit 16 s ≡ true
    → strtol 0 (b'0' ∷ b'x' ∷ s) ≡ unsigned_part false 16 s (b'0' ∷ b'x' ∷ s)
unfolding digit_char
strtol_hex s h = strtol_digits 0 0 (b'x' ∷ s) (omega arith) ∙ rw (radix_hex s h)

-- `strtol` in base 0 reads `%#x` back, up to a colon.
pub strtol-show_hex :
    (n : ℕ) (r : Bytes) → n < 2 ^ 63 → strtol 0 (show_hex n ++ b':' ∷ r) ≡ (pos n, b':' ∷ r)
strtol-show_hex zero r h =
    unfold strtol signed_part skip_space is_space unsigned_part radix is_digit digit_value clamp
      scan_digits in
    refl
strtol-show_hex (suc n) r h =
    let m = suc n in
    let stop : starts_digit 16 (b':' ∷ r) ≡ false = unfold is_digit digit_value in refl in
    ap (λ t. strtol 0 (b'0' ∷ b'x' ∷ t)) (show-append 16 m (b':' ∷ r))
    ∙ strtol_hex _ (starts_digit-printed 16 m (b':' ∷ r) (omega arith) (omega arith))
    ∙ unsigned_part-printed 16 m (b':' ∷ r) _ (omega arith) (omega arith) h stop

-- A printed number as a first byte and what follows.
pub show-cons : (n : ℕ) → (c : ℕ) × (t : Bytes) × (show 10 n ≡ c ∷ t)
unfolding show
show-cons n =
    let f = digits_onto-StartsDigit 10 (suc n) n [] (omega arith) (omega arith) in
    (digit_char f.digit, f.rest, f.text_is)

-- `strtol` in base 10 reads `%d` back, up to what is no digit.
pub strtol-show_end :
    (n : ℕ) (r : Bytes)
    → n < 2 ^ 63
    → starts_digit 10 r ≡ false
    → strtol 10 (show 10 n ++ r) ≡ (pos n, r)
strtol-show_end n r h stop =
    let f = digits_onto-StartsDigit 10 (suc n) n r (omega arith) (omega arith) in
    ap (strtol 10) (show-append 10 n r ∙ f.text_is)
    ∙ strtol_digits 10 f.digit f.rest (let lt = f.digit_lt in omega arith)
    ∙ ap (λ t. unsigned_part false 10 t t) (sym f.text_is)
    ∙ unsigned_part-printed 10 n r _ (omega arith) (omega arith) h stop

pub show_digit : (n : ℕ) → starts_digit 10 (show 10 n) ≡ true
unfolding show
show_digit n = starts_digit-printed 10 n [] (omega arith) (omega arith)
