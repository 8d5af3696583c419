-- ===== src/Base/Printing.antt =====
-- Numbers as `printf` prints them with `%d` and `%#x`.
use Prim.Native.Nat.{ℕ, zero, suc}
use mathlib.Core.List.{◌∷◌, ◌++◌}
use crashinfo.Base.Tests.{Bytes, codes}
use crashinfo.Base.Int.{ℤ, pos, negsuc}
use crashinfo.Base.Digits.{show}

unfoldable pub show_int : ℤ → Bytes
show_int (pos n) = show 10 n
show_int (negsuc n) = b'-' ∷ show 10 (suc n)

abbrev pub show_hex : ℕ → Bytes
show_hex zero = codes "0"
show_hex (suc n) = codes "0x" ++ show 16 (suc n)
