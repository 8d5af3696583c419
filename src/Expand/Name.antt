-- ===== src/Expand/Name.antt =====
-- A whole file name.
use mathlib.Core.List.{foldl-append}
use crashinfo.Base.{
  ℕ, zero, suc, ◌+◌, ◌≤◌, true, false, [], ◌∷◌, ◌++◌, ◌≡◌, refl, sym, ◌∙◌, ap, subst, arith, Bytes,
  length, length-append, append_assoc, append-nil, foldl, get_or, some,
}
use crashinfo.Expand.{
  Cells, Env, Outcome, next, done, too_long, undefined, path_last, esc, escape_run, is_escape,
  stamped, expand,
}
use crashinfo.Expand.Buffer.{slice}
use crashinfo.Expand.Scan.{Scan, wildcard, scan_byte, finish, expansion, scan_to, scan_to-is_escape}
use crashinfo.Expand.Correct.{Spells, loop-Spells}

pub slice_snoc :
    (path : Cells) (j n : ℕ) → slice path j (suc n) ≡ slice path j n ++ path (j + n) ∷ []
slice_snoc path j zero = ap (λ k. path k ∷ []) (omega arith)
slice_snoc path j (suc n) =
    ap (λ t. path j ∷ t)
      (slice_snoc path (suc j) n ∙ ap (λ k. slice path (suc j) n ++ path k ∷ []) (omega arith))

slice_shift :
    (c : ℕ) (s : Bytes) (j n : ℕ) → slice (stamped (c ∷ s)) (suc j) n ≡ slice (stamped s) j n
slice_shift c s j zero = refl
slice_shift c s j (suc n) = ap (λ t. get_or s j 0 ∷ t) (slice_shift c s (suc j) n)

slice-stamped : (s : Bytes) → slice (stamped s) 0 (length s) ≡ s
slice-stamped [] = refl
slice-stamped (c ∷ s) = ap (λ t. c ∷ t) (slice_shift c s 0 (length s) ∙ slice-stamped s)

behind_end : (s : Bytes) → stamped s (length s) ≡ 0
behind_end [] = refl
behind_end (c ∷ s) = behind_end s

module _ (e : Env) (exe : Bytes) where
  scan_to-foldl :
      (raw : Cells) (k : ℕ)
      → scan_to e exe raw k ≡ foldl (scan_byte e exe) (false, []) (slice raw 1 k)
  unfolding scan_to
  scan_to-foldl raw zero = refl
  scan_to-foldl raw (suc k) =
      ap (λ s. scan_byte e exe s (raw (suc k))) (scan_to-foldl raw k)
      ∙ sym (
          ap (λ t. foldl (scan_byte e exe) (false, []) t) (slice_snoc raw 1 k)
          ∙ foldl-append (scan_byte e exe) (false, []) (slice raw 1 k) (raw (1 + k) ∷ [])
          ∙ ap (λ n. scan_byte e exe (foldl (scan_byte e exe) (false, []) (slice raw 1 k)) (raw n))
              (omega arith))

  -- At the terminator an ESC that waits is kept.
  scan_byte_end : (s : Scan) → (scan_byte e exe s 0).1 ≡ finish s ++ 0 ∷ []
  unfolding scan_byte wildcard
  scan_byte_end (true, out) = sym (append_assoc out (esc ∷ []) (0 ∷ []))
  scan_byte_end (false, out) = refl

  scan_to-expansion :
      (c : ℕ) (t : Bytes)
      → (scan_to e exe (stamped (c ∷ t)) (suc (length t))).1 ≡ expansion e exe t ++ 0 ∷ []
  unfolding expansion scan_to
  scan_to-expansion c t =
      let text =
        ap (λ v. foldl (scan_byte e exe) (false, []) v)
          (slice_shift c t 0 (length t) ∙ slice-stamped t) in
      let whole = scan_to-foldl (stamped (c ∷ t)) (length t) ∙ text in
      ap (λ b. (scan_byte e exe (scan_to e exe (stamped (c ∷ t)) (length t)) b).1) (behind_end t)
      ∙ ap (λ s. (scan_byte e exe s 0).1) whole
      ∙ scan_byte_end (foldl (scan_byte e exe) (false, []) t)

-- How the expansion of a name of `n` bytes ends: with `text` and its terminator at the end of the
-- buffer; or without room, if the two do not fit the buffer together.
abbrev pub IsExpansion : ℕ → Bytes → Outcome → Type 0
IsExpansion n text (done path j ms) =
    (j + length text ≡ path_last) × (slice path j (suc (length text)) ≡ text ++ 0 ∷ [])
IsExpansion n text too_long = path_last ≤ n + length text
IsExpansion n text _ = ⊥

spelled :
    (e : Env) (exe t : Bytes)
    → (scan_to e exe (stamped (b'/' ∷ t)) (suc (length t))).1 ++ [] ≡ expansion e exe t ++ 0 ∷ []
spelled e exe t =
    append-nil (scan_to e exe (stamped (b'/' ∷ t)) (suc (length t))).1
    ∙ scan_to-expansion e exe b'/' t

length_snoc : (s : Bytes) (c : ℕ) → length (s ++ c ∷ []) ≡ suc (length s)
length_snoc s c = omega (arith, length-append {0} s (c ∷ []))

Spells-IsExpansion :
    (e : Env) (exe t : Bytes) (o : Outcome)
    → Spells e exe (stamped (b'/' ∷ t)) (suc (length t)) [] o
    → IsExpansion (suc (length t)) (b'/' ∷ expansion e exe t) o
Spells-IsExpansion e exe t (done path j ms) h =
    let (room, holds) =
      subst (λ (v : Bytes). (j + length v ≡ path_last) × (slice path j (suc (length v)) ≡ b'/' ∷ v))
        (spelled e exe t) h in
    let size = length_snoc (expansion e exe t) 0 in
    (omega (arith, room, size), ap (λ n. slice path j (suc n)) (sym size) ∙ holds)
Spells-IsExpansion e exe t too_long h =
    omega
      (arith, h, ap (λ (v : Bytes). length v) (spelled e exe t), length_snoc (expansion e exe t) 0)
Spells-IsExpansion e exe t (next path i j ms) h = h
Spells-IsExpansion e exe t undefined h = h

-- A file name of a '/' and `t` that the buffer holds, in a process whose executable is known, is
-- replaced by the '/' and what `t` stands for read from left to right: the pid for `@p`, the
-- counter for `@Q`, in as many digits as the limit less 1 has, or the counter itself where there is
-- no limit, the file name of the executable for `@e`, its path with '!' for '/' for `@E`, `@` for
-- `@@`, and anything else as it is; also `@P`, which by crashinfo.1 is the pid. It is refused only if
-- the name and its expansion do not fit the buffer together.
pub expand-IsExpansion :
    (e : Env) (exe t : Bytes)
    → e.exe ≡ some exe
    → suc (length t) ≤ path_last
    → IsExpansion (suc (length t)) (b'/' ∷ expansion e exe t) (expand e (b'/' ∷ t))
unfolding expand
expand-IsExpansion e exe t known fits = Spells-IsExpansion e exe t _ (
    loop-Spells e exe (stamped (b'/' ∷ t)) known refl (suc (suc (suc (length t)))) (suc (length t))
      path_last (stamped (b'/' ∷ t)) [] [] (omega arith)
      (record {
        agree = λ k h. refl;
        below = fits;
        tail = record { room = omega arith; holds = refl };
        ready = scan_to-is_escape e exe (stamped (b'/' ∷ t)) (suc (length t)) refl ∙ end_plain;
      }))
  where
    end_plain : is_escape (stamped (b'/' ∷ t)) (suc (length t)) ≡ false
    end_plain = unfold is_escape escape_run in rw (behind_end t) refl
