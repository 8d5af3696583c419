-- ===== src/Util.antt =====
-- util.c: `strlen_chomp`, `open_devnull`, and `isspace` in the C locale, in which the program runs.
pub mod Chomp
use crashinfo.Base.{
  ℕ, zero, suc, ◌+◌, ◌≤◌, ◌<◌, Bool, true, false, ◌||◌, ◌&&◌, List, [], ◌∷◌, ◌≡◌, refl, arith,
  Bytes, codes, ◌==◌, leb, if◌then◌else◌, length, get_or, take, drop, All, Bool-cases, inl, inr,
  Option, none, some,
}

unfoldable pub is_space : ℕ → Bool
is_space c = c == b' ' || c == b'\n' || c == b'\r' || c == b'\t' || c == 12 || c == 11

-- The loop of `strlen_chomp`, at `i`.
chomp_loop : Bytes → ℕ → ℕ
chomp_loop value zero = zero
chomp_loop value (suc i) =
    let rest = chomp_loop value i in if is_space (get_or value i 0) then rest else suc i

unfoldable pub strlen_chomp : Bytes → ℕ
unfolding chomp_loop is_space
strlen_chomp value = chomp_loop value (length value)

-- The bytes from position `i` on are white space.
abbrev pub Blank : Bytes → Type 0
Blank = All (λ c. is_space c ≡ true)

-- The last byte is not white space.
abbrev pub EndsDark : Bytes → Type 0
EndsDark [] = Unit
EndsDark (c ∷ []) = is_space c ≡ false
EndsDark (c ∷ d ∷ r) = EndsDark (d ∷ r)

abbrev pub chomp : Bytes → Bytes
chomp value = take (strlen_chomp value) value

-- `open_devnull`: its static descriptor, what `open` of /dev/null gives and what `dup` does, with
-- `none` for -1. The result is the static descriptor behind the call, and what it returns.
unfoldable pub open_devnull : Option ℕ → Option ℕ → (Option ℕ → Option ℕ) → Option ℕ × Option ℕ
open_devnull none null dup = (null, dup null)
open_devnull (some fd) null dup = (some fd, dup (some fd))
