-- ===== src/Yaml/Overflow.antt =====
-- The bytes whose escape does not fit the buffer of `yaml_esc`.
use native.Mathlib.Nat.{pow-suc, one-le-pow}
use crashinfo.Base.{
  ℕ, zero, suc, Option-cases, inl, inr, ◌^◌, ◌-◌, ◌/◌, ◌%◌, ◌+◌, ◌≤◌, ◌<◌, true, [], ◌∷◌, ◌++◌, ◌≡◌,
  arith, Bytes, digit_char, show, none, length, digits_onto,
}
use crashinfo.Yaml.{yaml_esc, fputy_loop, fputy}

length_grows : (fuel n : ℕ) (out : Bytes) → length out ≤ length (digits_onto 16 fuel n out)
unfolding digits_onto
length_grows zero n out = omega arith
length_grows (suc fuel) n out =
    ground (arith, length_grows fuel (n / 16) (digit_char (n % 16) ∷ out))

length-digits_onto :
    (k fuel n : ℕ) (out : Bytes)
    → 16 ^ k ≤ n
    → n < fuel
    → length out + suc k ≤ length (digits_onto 16 fuel n out)
unfolding digits_onto
length-digits_onto k zero n out p q = absurd (omega arith)
length-digits_onto zero (suc fuel) n out p q =
    ground (arith, length_grows fuel (n / 16) (digit_char (n % 16) ∷ out))
length-digits_onto (suc k) (suc fuel) n out p q = ground (
  arith,
  pow-suc 16 k,
  one-le-pow k 16,
  length-digits_onto k fuel (n / 16) (digit_char (n % 16) ∷ out),
)

-- Where `char` is signed, a byte from 128 on is printed as eight digits, and does not fit.
yaml_esc_overflow : (c : ℕ) → 128 ≤ c → c < 256 → yaml_esc true c ≡ none
yaml_esc_overflow c lo hi = unfold yaml_esc in ground (arith, long)
  where
    long : 6 ≤ length (show 16 (2 ^ 32 - 256 + c))
    long =
        unfold show in
        length-digits_onto 5 (suc (2 ^ 32 - 256 + c)) (2 ^ 32 - 256 + c) [] (omega arith)
          (omega arith)

fputy_loop_overflow :
    (a b : Bytes) (c : ℕ) (out : Bytes)
    → 128 ≤ c
    → c < 256
    → fputy_loop true (a ++ c ∷ b) out ≡ none
unfolding fputy_loop
fputy_loop_overflow [] b c out lo hi = rw (yaml_esc_overflow c lo hi, fputy_loop)
fputy_loop_overflow (d ∷ a) b c out lo hi = elim (Option-cases (yaml_esc true d)) [
  | inl e ↦ rw (e, fputy_loop)
  | inr (text, e) ↦ rw (e, fputy_loop) (fputy_loop_overflow a b c (out ++ text) lo hi)
]

-- Where `char` is signed, printing a string with a byte from 128 on, such as any letter that is
-- not ASCII in UTF-8, writes past the end of the escape buffer.
pub fputy_overflow : (a b : Bytes) (c : ℕ) → 128 ≤ c → c < 256 → fputy true (a ++ c ∷ b) ≡ none
unfolding fputy
fputy_overflow a b c lo hi = fputy_loop_overflow a b c _ lo hi
