-- ===== src/Info/Arguments.antt =====
-- The command line in the document.
use crashinfo.Base.{
  ℕ, Bool, List, [], ◌∷◌, ◌++◌, ◌≡◌, ◌≢◌, refl, sym, ◌∙◌, ap, arith, Bytes, codes, none, some,
  Option-cases, append_assoc, append-nil, All, inl, inr,
}
use crashinfo.Yaml.{yaml_esc, fputy_loop, fputy}
use crashinfo.Info.{Out, ◌>>◌, fputs, escaped, cmdline_loop, cmdline_text, cmdline}

then_assoc : (a b c : Out) → (a >> b) >> c ≡ a >> (b >> c)
unfolding ◌>>◌
then_assoc none b c = refl
then_assoc (some a) none c = refl
then_assoc (some a) (some b) none = refl
then_assoc (some a) (some b) (some c) = rw (append_assoc a.0 b.0 c.0, append_assoc a.1 b.1 c.1) refl

then-nil : (a : Out) → a >> fputs [] ≡ a
unfolding ◌>>◌
then-nil none = refl
then-nil (some a) = rw (append-nil a.0, append-nil a.1) refl

nil-then : (a : Out) → fputs [] >> a ≡ a
unfolding ◌>>◌
nil-then none = refl
nil-then (some a) = refl

-- The bytes of a string, escaped.
letters : Bool → Bytes → Out
letters char_signed [] = fputs []
letters char_signed (c ∷ s) = escaped (yaml_esc char_signed c) >> letters char_signed s

module _ (char_signed : Bool) where
  fputy_loop-letters :
      (s out : Bytes)
      → escaped (fputy_loop char_signed s out)
        ≡ fputs out >> (letters char_signed s >> fputs (codes "\""))
  unfolding fputy_loop letters escaped ◌>>◌
  fputy_loop-letters [] out = refl
  fputy_loop-letters (c ∷ s) out = elim (Option-cases (yaml_esc char_signed c)) [
    | inl e ↦ rw (e, fputy_loop) refl
    | inr (text, e) ↦
        rw (e, fputy_loop)
          (fputy_loop-letters s (out ++ text)
            ∙ then_assoc (fputs out) (fputs text) (letters char_signed s >> fputs (codes "\""))
            ∙ ap (λ o. fputs out >> o)
                (sym (then_assoc (fputs text) (letters char_signed s) (fputs (codes "\"")))))
  ]

  cmdline_loop_cons :
      (c : ℕ) (s : Bytes)
      → c ≢ 0
      → cmdline_loop char_signed (c ∷ s)
        ≡ escaped (yaml_esc char_signed c) >> cmdline_loop char_signed s
  unfolding cmdline_loop
  cmdline_loop_cons c [] h = ground (arith, then-nil (escaped (yaml_esc char_signed c)))
  cmdline_loop_cons c (d ∷ s) h = ground arith

  -- What is written from a terminator on.
  after_nul : Bytes → Out
  after_nul [] = fputs []
  after_nul (d ∷ r) = fputs (codes "\", \"") >> cmdline_loop char_signed (d ∷ r)

  cmdline_loop-letters :
      (a r : Bytes)
      → All (λ c. c ≢ 0) a
      → cmdline_loop char_signed (a ++ 0 ∷ r) ≡ letters char_signed a >> after_nul r
  unfolding cmdline_loop letters after_nul
  cmdline_loop-letters [] [] h = sym (nil-then (fputs []))
  cmdline_loop-letters [] (d ∷ r) h = sym (nil-then (after_nul (d ∷ r)))
  cmdline_loop-letters (c ∷ a) r (h, hs) =
      cmdline_loop_cons c (a ++ 0 ∷ r) h
      ∙ ap (λ o. escaped (yaml_esc char_signed c) >> o) (cmdline_loop-letters a r hs)
      ∙ sym (then_assoc (escaped (yaml_esc char_signed c)) (letters char_signed a) (after_nul r))

  abbrev next_word : Bytes
  next_word = codes "\", \""

  -- The closing quote of one argument, the comma, and the opening quote of the next.
  split_next :
      (o : Out)
      → fputs next_word >> o
        ≡ fputs (codes "\"") >> (fputs (codes ", ") >> (fputs (codes "\"") >> o))
  unfolding ◌>>◌
  split_next none = refl
  split_next (some o) = refl

  after_nul_word :
      (a r : Bytes)
      → after_nul (a ++ 0 ∷ r) ≡ fputs next_word >> cmdline_loop char_signed (a ++ 0 ∷ r)
  unfolding after_nul
  after_nul_word [] r = refl
  after_nul_word (c ∷ a) r = refl

  cmdline_text_word :
      (a r : Bytes)
      → cmdline_text char_signed (a ++ 0 ∷ r)
        ≡ fputs (codes "\"") >> cmdline_loop char_signed (a ++ 0 ∷ r) >> fputs (codes "\"")
  unfolding cmdline_text
  cmdline_text_word [] r = refl
  cmdline_text_word (c ∷ a) r = refl

  fputy-letters :
      (s : Bytes)
      → escaped (fputy char_signed s)
        ≡ fputs (codes "\"") >> (letters char_signed s >> fputs (codes "\""))
  unfolding fputy
  fputy-letters s = fputy_loop-letters s (codes "\"")

-- The file `cmdline` of a process: each argument with its terminator.
abbrev pub nul_terminated : List Bytes → Bytes
nul_terminated [] = []
nul_terminated (a ∷ args) = a ++ 0 ∷ nul_terminated args

-- A YAML sequence of scalars, without its brackets.
unfoldable pub sequence : Bool → List Bytes → Out
sequence char_signed [] = fputs []
sequence char_signed (a ∷ []) = escaped (fputy char_signed a)
sequence char_signed (a ∷ b ∷ args) =
    escaped (fputy char_signed a) >> (fputs (codes ", ") >> sequence char_signed (b ∷ args))

regroup :
    (q l k w : Out)
    → q >> ((l >> (q >> (k >> (q >> w)))) >> q) ≡ (q >> (l >> q)) >> (k >> (q >> (w >> q)))
regroup q l k w = simp (then_assoc)

module _ (char_signed : Bool) where
  quoted_loop :
      (a : Bytes) (args : List Bytes)
      → All (λ c. c ≢ 0) a
      → All (λ a. All (λ c. c ≢ 0) a) args
      → fputs (codes "\"")
          >> (cmdline_loop char_signed (nul_terminated (a ∷ args)) >> fputs (codes "\""))
        ≡ sequence char_signed (a ∷ args)
  unfolding sequence after_nul
  quoted_loop a [] h hs =
      ap (λ o. fputs (codes "\"") >> (o >> fputs (codes "\"")))
        (cmdline_loop-letters char_signed a [] h ∙ then-nil (letters char_signed a))
      ∙ sym (fputy-letters char_signed a)
  quoted_loop a (b ∷ args) h (hb, hs) =
      ap (λ o. fputs (codes "\"") >> (o >> fputs (codes "\"")))
        (cmdline_loop-letters char_signed a (nul_terminated (b ∷ args)) h
          ∙ ap (λ o. letters char_signed a >> o)
              (after_nul_word char_signed b (nul_terminated args)
                ∙ split_next char_signed (cmdline_loop char_signed (nul_terminated (b ∷ args)))))
      ∙ regroup (fputs (codes "\"")) (letters char_signed a) (fputs (codes ", "))
          (cmdline_loop char_signed (nul_terminated (b ∷ args)))
      ∙ ap
          (λ o.
            (fputs (codes "\"") >> (letters char_signed a >> fputs (codes "\"")))
            >> (fputs (codes ", ") >> o))
          (quoted_loop b args hb hs)
      ∙ ap (λ o. o >> (fputs (codes ", ") >> sequence char_signed (b ∷ args)))
          (sym (fputy-letters char_signed a))

-- The arguments of a process stand in the document as a sequence of scalars, the empty ones too.
pub cmdline-sequence :
    (char_signed : Bool) (args : List Bytes)
    → All (λ a. All (λ c. c ≢ 0) a) args
    → cmdline char_signed (some (nul_terminated args))
      ≡ fputs (codes "cmdline: [ ") >> sequence char_signed args >> fputs (codes " ]\n")
unfolding cmdline
cmdline-sequence char_signed [] h = unfold cmdline_text sequence in refl
cmdline-sequence char_signed (a ∷ args) (h, hs) =
    ap (λ o. fputs (codes "cmdline: [ ") >> o >> fputs (codes " ]\n"))
      (cmdline_text_word char_signed a (nul_terminated args)
        ∙ then_assoc _ _ _
        ∙ quoted_loop char_signed a args h hs)
