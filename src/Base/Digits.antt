-- ===== src/Base/Digits.antt =====
-- Unsigned numbers as `printf` writes them, in any base up to 16.
use Prim.Native.Nat.{ℕ, zero, suc, ◌+◌, ◌-◌, ◌/◌, ◌%◌, ◌^◌, ◌≤◌, ◌<◌}
use crashinfo.Base.Lists.{length}
use mathlib.Core.Path.{◌≡◌, refl}
use mathlib.Core.List.{[], ◌∷◌, ◌++◌}
use native.Mathlib.Omega.{arith}
use crashinfo.Base.Tests.{Bytes, ltb, if◌then◌else◌}

unfoldable pub digit_char : ℕ → ℕ
digit_char d = if ltb d 10 then b'0' + d else b'a' + (d - 10)

-- The digits of `n` in front of `out`. Each round divides by the base, so fuel above `n` is enough.
unfoldable pub digits_onto : ℕ → ℕ → ℕ → Bytes → Bytes
unfolding digit_char
digits_onto base zero n out = out
digits_onto base (suc fuel) n out =
    let d = digit_char (n % base) in
    let rest = digits_onto base fuel (n / base) (d ∷ out) in if ltb n base then d ∷ out else rest

-- `%d` in base 10 and `%x` in base 16, of a value that is not negative.
unfoldable pub show : ℕ → ℕ → Bytes
unfolding digits_onto
show base n = digits_onto base (suc n) n []

pub digits_onto-append :
    (base fuel n : ℕ) (out rest : Bytes)
    → digits_onto base fuel n (out ++ rest) ≡ digits_onto base fuel n out ++ rest
unfolding digits_onto
digits_onto-append base zero n out rest = refl
digits_onto-append base (suc fuel) n out rest =
    ground (arith, digits_onto-append base fuel (n / base) (digit_char (n % base) ∷ out) rest)

-- A number below a power of the base has as many digits at most.
length-digits_onto-le :
    (k fuel n : ℕ) (out : Bytes)
    → n < 10 ^ (suc k)
    → length (digits_onto 10 fuel n out) ≤ suc k + length out
unfolding digits_onto
length-digits_onto-le k zero n out p = omega arith
length-digits_onto-le zero (suc fuel) n out p = ground arith
length-digits_onto-le (suc k) (suc fuel) n out p =
    ground (arith, length-digits_onto-le k fuel (n / 10) (digit_char (n % 10) ∷ out))

pub length-show-le : (k n : ℕ) → n < 10 ^ (suc k) → length (show 10 n) ≤ suc k
unfolding show
length-show-le k n p = omega (arith, length-digits_onto-le k (suc n) n [] p)
