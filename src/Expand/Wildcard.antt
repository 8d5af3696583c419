-- ===== src/Expand/Wildcard.antt =====
-- The `switch` of `open_output`, against the meaning of each wild card.
use crashinfo.Base.{
  ℕ, ◌+◌, ◌-◌, ◌≤◌, true, ◌==◌, ltb, if◌then◌else◌, [], ◌∷◌, ◌++◌, ◌≡◌, refl, sym, ◌∙◌, subst,
  arith, Bytes, length, some, Bool-cases, inl, inr,
}
use crashinfo.Expand.{
  Cells, Env, Outcome, next, done, too_long, undefined, Messages, update, esc, put_text, expand_exe,
  keep_both, expand_wildcard,
}
use crashinfo.Expand.Buffer.{
  SameBelow, copy-SameBelow, update-SameBelow, Tail, Tail-update, Tail-copy,
}
use crashinfo.Expand.Scan.{base_name, banged, wildcard}
use crashinfo.Expand.Exe.{Expands, expand_exe-Expands}

-- How the `switch` ends at `i`: with `text` in front of what the buffer held, the bytes that are
-- still to be read untouched, and `i` past the wild card; or without room.
abbrev pub Wild : ℕ → Cells → ℕ → Bytes → Bytes → Outcome → Type 0
Wild i path j held text (next path' i' j' ms) =
    (i' ≡ i - 2) × SameBelow (i - 1) path path' × (i - 2 ≤ j') × Tail path' j' (text ++ held)
Wild i path j held text too_long = j ≤ i + length text
Wild i path j held text _ = ⊥

module _ (path : Cells) (i j : ℕ) (held : Bytes) (two : 2 ≤ i) (below : i ≤ j)
    (tail : Tail path j held) where
  put_text-Wild :
      (text : Bytes) (ms : Messages) → Wild i path j held text (put_text path i j text ms)
  unfolding put_text
  put_text-Wild text ms = elim (Bool-cases (ltb (j + 1) (i - 1 + length text))) [
    | inl over ↦ rw (over, put_text) (ground arith)
    | inr room ↦
        let fits : i - 1 + length text ≤ j + 1 = ground arith in
        rw (room, put_text)
          (
            refl,
            λ k h. copy-SameBelow path (j + 1 - length text) text k (omega arith),
            omega arith,
            Tail-copy path j text held (omega arith) tail,
          )
  ]

  escaped_esc-Wild :
      (ms : Messages) → Wild i path j held (esc ∷ []) (next (update path j esc) (i - 2) (j - 1) ms)
  escaped_esc-Wild ms = (
    refl,
    λ k h. update-SameBelow path j esc k (omega arith),
    omega arith,
    Tail-update path j esc held (omega arith) tail,
  )

  keep_both-Wild :
      (ms : Messages)
      → path (i - 1) ≡ esc
      → Wild i path j held (esc ∷ path i ∷ []) (keep_both path i j ms)
  unfolding keep_both
  keep_both-Wild ms is_esc =
      let first = update path j (path i) in
      let front : first (i - 1) ≡ esc =
        update-SameBelow path j (path i) (i - 1) (omega arith) ∙ is_esc in
      (
        refl,
        λ k h.
            update-SameBelow first (j - 1) (first (i - 1)) k (omega arith)
            ∙ update-SameBelow path j (path i) k (omega arith),
        omega arith,
        subst (λ v. Tail (update first (j - 1) (first (i - 1))) (j - 2) (v ∷ path i ∷ held)) front
            (subst
              (λ k. Tail (update first (j - 1) (first (i - 1))) k (first (i - 1) ∷ path i ∷ held))
              (omega arith)
              (Tail-update first (j - 1) (first (i - 1)) (path i ∷ held) (omega arith)
                (Tail-update path j (path i) held (omega arith) tail))),
      )

  Expands-Wild :
      (text : Bytes) (ms : Messages) (o : Outcome)
      → Expands i path j held text ms o
      → Wild i path j held text o
  Expands-Wild text ms (next path' i' j' ms') (i_is, ms_is, same, room, t) =
      (i_is, λ k h. same k (omega arith), omega arith, t)
  Expands-Wild text ms (done path' j' ms') h = h
  Expands-Wild text ms too_long h = h
  Expands-Wild text ms undefined h = h

  exe-Wild :
      (exe : Bytes) (ms : Messages)
      → Wild i path j held
          (if path i == b'e' then base_name exe else banged exe)
          (expand_exe (some exe) path i j ms)
  exe-Wild exe ms = Expands-Wild _ ms _ (expand_exe-Expands exe path i j held ms below tail)

  pub expand_wildcard-Wild :
      (e : Env) (exe : Bytes) (ms : Messages)
      → e.exe ≡ some exe
      → path (i - 1) ≡ esc
      → Wild i path j held (wildcard e exe (path i)) (expand_wildcard e path i j ms)
  unfolding expand_wildcard wildcard
  expand_wildcard-Wild e exe ms known is_esc = elim (Bool-cases (path i == esc)) [
    | inl c0 ↦
        rw (c0, expand_wildcard, wildcard)
          (subst (λ v. Wild i path j held (esc ∷ []) (next (update path j v) (i - 2) (j - 1) ms))
            (sym (eq_of_test c0)) (escaped_esc-Wild ms))
    | inr n0 ↦ elim (Bool-cases (path i == b'p')) [
      | inl c1 ↦ rw (n0, c1, expand_wildcard, wildcard) (put_text-Wild _ _)
      | inr n1 ↦ elim (Bool-cases (path i == b'Q')) [
        | inl c2 ↦ rw (n0, n1, c2, expand_wildcard, wildcard) (put_text-Wild _ _)
        | inr n2 ↦ elim (Bool-cases (path i == b'e')) [
          | inl c3 ↦
              rw (n0, n1, n2, c3, expand_wildcard, wildcard, known) (rw c3 at (exe-Wild exe ms))
          | inr n3 ↦ elim (Bool-cases (path i == b'E')) [
            | inl c4 ↦
                rw (n0, n1, n2, n3, c4, expand_wildcard, wildcard, known)
                  (rw n3 at (exe-Wild exe ms))
            | inr n4 ↦ rw (n0, n1, n2, n3, n4, expand_wildcard, wildcard) (keep_both-Wild _ is_esc)
          ]
        ]
      ]
    ]
  ]
    where
      eq_of_test : (path i == esc) ≡ true → path i ≡ esc
      eq_of_test h = ground arith
