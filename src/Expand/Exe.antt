-- ===== src/Expand/Exe.antt =====
-- `case 'e'` and `case 'E'` store the executable's name or path.
use mathlib.Core.List.{reverse-cons, reverse-reverse, foldl-append}
use crashinfo.Base.{
  ℕ, suc, ◌+◌, ◌-◌, ◌≤◌, ◌<◌, Bool, true, false, ◌&&◌, ◌==◌, leb, if◌then◌else◌, [], ◌∷◌, ◌++◌, ◌≡◌,
  refl, subst, ◌∙◌, ap, arith, Bytes, length, length-append, append_assoc, reverse, Option, none,
  some, Bool-cases, inl, inr,
}
use crashinfo.Expand.{
  Cells, update, put_exe, Outcome, next, too_long, Messages, after_exe, expand_exe,
}
use crashinfo.Expand.Buffer.{SameBelow, update-SameBelow, Tail, Tail-update}
use crashinfo.Expand.Scan.{base_name, banged}

-- The text stored for the bytes of `exe` from the last, up to a '/' if only the name is wanted.
abbrev pub exe_text : Bool → Bytes → Bytes
exe_text name [] = []
exe_text name (p ∷ before) =
    if p == b'/' && name then [] else exe_text name before ++ (if p == b'/' then b'!' else p) ∷ []

exe_text-base_name : (ps : Bytes) → exe_text true ps ≡ base_name (reverse ps)
unfolding base_name
exe_text-base_name [] = refl
exe_text-base_name (p ∷ ps) =
    rw (reverse-cons p ps, foldl-append) (ground (arith, exe_text-base_name ps))

exe_text-banged : (ps : Bytes) → exe_text false ps ≡ banged (reverse ps)
unfolding banged
exe_text-banged [] = refl
exe_text-banged (p ∷ ps) = rw (reverse-cons p ps, foldl-append) (ground (arith, exe_text-banged ps))

pub base_name_lem : (exe : Bytes) → exe_text true (reverse exe) ≡ base_name exe
base_name_lem exe = exe_text-base_name (reverse exe) ∙ ap base_name (reverse-reverse exe)

pub banged_lem : (exe : Bytes) → exe_text false (reverse exe) ≡ banged exe
banged_lem exe = exe_text-banged (reverse exe) ∙ ap banged (reverse-reverse exe)

-- How the loop ends: with `text` in front of what the buffer held, or without room for it.
abbrev pub Stores : ℕ → Cells → ℕ → Bytes → Bytes → Option (Cells × ℕ) → Type 0
Stores i path j held text none = j ≤ i + length text
Stores i path j held text (some (path', j')) =
    SameBelow (suc i) path path' × (i ≤ j') × Tail path' j' (text ++ held)

Stores-more :
    (i : ℕ) (path : Cells) (j c : ℕ) (held text : Bytes) (r : Option (Cells × ℕ))
    → i < j
    → Stores i (update path j c) (j - 1) (c ∷ held) text r
    → Stores i path j held (text ++ c ∷ []) r
Stores-more i path j c held text none lt h = omega (arith, length-append {0} text (c ∷ []))
Stores-more i path j c held text (some (path', j')) lt (same, below, tail) = (
  λ k q. same k q ∙ update-SameBelow path j c k (omega arith),
  below,
  rw (append_assoc text (c ∷ []) held) tail,
)

pub put_exe-Stores :
    (i : ℕ) (name : Bool) (ps : Bytes) (path : Cells) (j : ℕ) (held : Bytes)
    → i ≤ j
    → Tail path j held
    → (path i == b'e') ≡ name
    → Stores i path j held (exe_text name ps) (put_exe i ps path j)
unfolding put_exe
put_exe-Stores i name [] path j held below tail which = (λ k h. refl, below, tail)
put_exe-Stores i name (p ∷ ps) path j held below tail which = elim (Bool-cases (leb j i)) [
  | inl full ↦ rw (full, put_exe) (omega (arith, full_le full))
  | inr room ↦ elim (Bool-cases (p == b'/' && name)) [
    | inl stop ↦ rw (room, put_exe, which, stop, exe_text) (λ k h. refl, below, tail)
    | inr more ↦
        rw (room, put_exe, which, more, exe_text)
          (Stores-more i path j c held (exe_text name ps) _ (room_lt room) (
            put_exe-Stores i name ps (update path j c) (j - 1) (c ∷ held)
              (omega (arith, room_lt room))
              (Tail-update path j c held (omega (arith, room_lt room)) tail)
              (ap (λ v. v == b'e') (update-SameBelow path j c i (room_lt room)) ∙ which)))
  ]
]
  where
    c : ℕ
    c = if p == b'/' then b'!' else p

    full_le : leb j i ≡ true → j ≤ i
    full_le h = ground arith

    room_lt : leb j i ≡ false → i < j
    room_lt h = ground arith

-- How an executable wild card ends: with `text` stored in front of what the buffer held, the cells
-- up to `i` untouched and `i` past the wild card, or without room for it.
abbrev pub Expands : ℕ → Cells → ℕ → Bytes → Bytes → Messages → Outcome → Type 0
Expands i path j held text ms (next path' i' j' ms') =
    (i' ≡ i - 2)
    × (ms' ≡ ms)
    × SameBelow (suc i) path path'
    × (i ≤ j')
    × Tail path' j' (text ++ held)
Expands i path j held text ms too_long = j ≤ i + length text
Expands i path j held text ms _ = ⊥

after_exe-Expands :
    (i : ℕ) (path : Cells) (j : ℕ) (held text : Bytes) (ms : Messages) (r : Option (Cells × ℕ))
    → Stores i path j held text r
    → Expands i path j held text ms (after_exe i ms r)
after_exe-Expands i path j held text ms none h = h
after_exe-Expands i path j held text ms (some (path', j')) (same, below, tail) =
    (refl, refl, same, below, tail)

-- At `@e` the file name of the executable, and at `@E` its path with '!' for '/', is stored in
-- front of what the end of the buffer holds, and nothing at or before the wild card is overwritten;
-- `too_long` is the result only if the text would reach back to the wild card.
pub expand_exe-Expands :
    (exe : Bytes) (path : Cells) (i j : ℕ) (held : Bytes) (ms : Messages)
    → i ≤ j
    → Tail path j held
    → Expands i path j held
        (if path i == b'e' then base_name exe else banged exe)
        ms
        (expand_exe (some exe) path i j ms)
unfolding expand_exe
expand_exe-Expands exe path i j held ms below tail =
    subst (λ text. Expands i path j held text ms (expand_exe (some exe) path i j ms))
      (text_is (path i == b'e'))
      (after_exe-Expands i path j held _ ms _
        (put_exe-Stores i (path i == b'e') (reverse exe) path j held below tail refl))
  where
    text_is :
        (name : Bool) → exe_text name (reverse exe) ≡ (if name then base_name exe else banged exe)
    text_is true = base_name_lem exe
    text_is false = banged_lem exe
