-- ===== src/Conf/Value/Printed.antt =====
-- Which bytes `%d` prints.
use crashinfo.Base.{
  ℕ, zero, suc, ◌/◌, ◌%◌, ◌<◌, false, ◌==◌, ltb, [], ◌∷◌, ◌≡◌, arith, Bytes, Bool-cases, inl, inr,
  show, digit_char, digits_onto,
}
use native.Mathlib.Nat.{mod-lt}
use crashinfo.Conf.Text.Tokens.{Dark, Lacks}
use crashinfo.Conf.Text.{is_delim}

digits_onto-Dark : (fuel n : ℕ) (out : Bytes) → Dark out → Dark (digits_onto 10 fuel n out)
unfolding digits_onto
digits_onto-Dark zero n out h = h
digits_onto-Dark (suc fuel) n out h = elim (Bool-cases (ltb n 10)) [
  | inl small ↦ rw small (digit_dark (n % 10) (mod-lt n (omega arith)), h)
  | inr large ↦ rw large (
      digits_onto-Dark fuel (n / 10) (digit_char (n % 10) ∷ out)
        (digit_dark (n % 10) (mod-lt n (omega arith)), h))
]
  where
    digit_dark : (d : ℕ) → d < 10 → is_delim (digit_char d) ≡ false
    digit_dark d h = unfold is_delim digit_char in ground arith

pub show-Dark : (n : ℕ) → Dark (show 10 n)
unfolding show
show-Dark n = digits_onto-Dark (suc n) n [] tt

digits_onto-Lacks :
    (x fuel n : ℕ) (out : Bytes) → x < b'0' → Lacks x out → Lacks x (digits_onto 10 fuel n out)
unfolding digits_onto
digits_onto-Lacks x zero n out lt h = h
digits_onto-Lacks x (suc fuel) n out lt h = elim (Bool-cases (ltb n 10)) [
  | inl small ↦ rw small (digit_other (n % 10) (mod-lt n (omega arith)), h)
  | inr large ↦ rw large (
      digits_onto-Lacks x fuel (n / 10) (digit_char (n % 10) ∷ out) lt
        (digit_other (n % 10) (mod-lt n (omega arith)), h))
]
  where
    digit_other : (d : ℕ) → d < 10 → (digit_char d == x) ≡ false
    digit_other d h = unfold digit_char in ground arith

-- A printed number has no byte below the digits.
pub show-Lacks : (x n : ℕ) → x < b'0' → Lacks x (show 10 n)
unfolding show
show-Lacks x n lt = digits_onto-Lacks x (suc n) n [] lt tt
