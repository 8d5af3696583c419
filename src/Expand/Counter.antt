-- ===== src/Expand/Counter.antt =====
-- The digits of a counter: `intlen` and `%0*d`.
use crashinfo.Base.{
  ℕ, zero, suc, ◌+◌, ◌-◌, ◌/◌, ◌^◌, ◌≤◌, ◌<◌, ltb, [], ◌++◌, ◌≡◌, refl, sym, ◌∙◌, ap, subst, arith,
  Bytes, length, length-append, replicate, length-replicate, show, length-show-le, Bool-cases, inl,
  inr,
}
use crashinfo.Conf.Text.{scan_digits, is_digit, digit_value}
use crashinfo.Conf.Value.Numbers.{scan_digits-digits_onto}
use crashinfo.Expand.{intlen, intlen_loop, show_padded}

below_power : (k i : ℕ) → i / 10 < 10 ^ k → i < 10 ^ (1 + k)
below_power k i h =
    let more : i < 10 ^ suc k = ground arith in subst (λ e. i < 10 ^ e) (omega arith) more

-- `intlen` counts enough digits.
intlen_loop_lt : (fuel i : ℕ) → i < fuel → i < 10 ^ intlen_loop fuel i
unfolding intlen_loop
intlen_loop_lt zero i h = absurd (omega arith)
intlen_loop_lt (suc fuel) i h = elim (Bool-cases (ltb i 10)) [
  | inl small ↦ rw small (ground arith)
  | inr large ↦
      rw large
        (below_power (intlen_loop fuel (i / 10)) i (intlen_loop_lt fuel (i / 10) (ground arith)))
]

intlen_pos : (fuel i : ℕ) → 0 < intlen_loop fuel i
unfolding intlen_loop
intlen_pos zero i = omega arith
intlen_pos (suc fuel) i = ground arith

show-within : (k n m : ℕ) → n ≤ m → m < 10 ^ k → 0 < k → length (show 10 n) ≤ k
show-within zero n m h lt p = absurd (omega arith)
show-within (suc k) n m h lt p = length-show-le k n (omega arith)

pub length-show-intlen : (n m : ℕ) → n ≤ m → length (show 10 n) ≤ intlen m
unfolding intlen
length-show-intlen n m h =
    show-within (intlen m) n m h (intlen_loop_lt (suc m) m (omega arith)) (intlen_pos (suc m) m)

-- The digits of a number, padded to the digits of one that is not less, are as many as those.
pub length-show_padded : (w n : ℕ) → length (show 10 n) ≤ w → length (show_padded w n) ≡ w
unfolding show_padded
length-show_padded w n h = omega (
  arith,
  h,
  length-append (replicate (w - length (show 10 n)) b'0') (show 10 n),
  length-replicate {A = ℕ} (w - length (show 10 n)) b'0',
)

-- Reading the digits of a padded number gives the number.
scan_digits-zeros :
    (k : ℕ) (s : Bytes) → scan_digits 10 0 (replicate k b'0' ++ s) ≡ scan_digits 10 0 s
unfolding scan_digits is_digit digit_value
scan_digits-zeros zero s = refl
scan_digits-zeros (suc k) s = scan_digits-zeros k s

scan_digits-show_padded : (w n : ℕ) → scan_digits 10 0 (show_padded w n) ≡ (n, [])
unfolding show_padded show
scan_digits-show_padded w n =
    scan_digits-zeros (w - length (show 10 n)) (show 10 n)
    ∙ scan_digits-digits_onto 10 (suc n) n [] (omega arith) (omega arith) (omega arith)
    ∙ unfold scan_digits in refl

pub show_padded-injective : (w n m : ℕ) → show_padded w n ≡ show_padded w m → n ≡ m
show_padded-injective w n m e =
    ap (λ (r : ℕ × Bytes). r.0)
      (sym (scan_digits-show_padded w n) ∙ ap (scan_digits 10 0) e ∙ scan_digits-show_padded w m)
