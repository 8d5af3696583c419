-- ===== src/Conf/Text/Tokens.antt =====
-- What `skip_delim`, `strtok`, `strchr` and `strlen_chomp` make of white space around a word.
use crashinfo.Base.{
  ℕ, zero, suc, false, [], ◌∷◌, ◌++◌, ◌≡◌, refl, sym, ◌∙◌, ap, arith, Bytes, ◌==◌, none, some, take,
  drop, All, Bool-cases, inl, inr, append-nil,
}
use crashinfo.Util.{is_space, strlen_chomp, chomp, Blank, EndsDark}
use crashinfo.Util.Chomp.{strlen_chomp_lem}
use crashinfo.Conf.Text.{is_delim, cut_at, skip_delim, span_token, strtok}

-- `delim` holds the white space of the C locale.
pub is_delim-is_space : (c : ℕ) → is_delim c ≡ is_space c
unfolding is_delim is_space
is_delim-is_space c = ground arith

pub skip_delim-dark : (s : Bytes) {c : ℕ} {t : Bytes} → skip_delim s ≡ c ∷ t → is_delim c ≡ false
unfolding skip_delim
skip_delim-dark [] h = cc
skip_delim-dark (d ∷ s) {c} {t} h = elim (Bool-cases (is_delim d)) [
  | inl white ↦ skip_delim-dark s {c = c} {t = t} (ground arith)
  | inr dark ↦ ground arith
]

-- Cutting trailing white space keeps a first byte that is not white space.
pub chomp_dark : (c : ℕ) (s : Bytes) → is_delim c ≡ false → (t : Bytes) × (chomp (c ∷ s) ≡ c ∷ t)
chomp_dark c s dark = kept (strlen_chomp (c ∷ s)) (strlen_chomp_lem (c ∷ s)).2
  where
    kept : (n : ℕ) → Blank (drop n (c ∷ s)) → (t : Bytes) × (take n (c ∷ s) ≡ c ∷ t)
    kept zero h = absurd (ground (arith, is_delim-is_space c))
    kept (suc n) h = (take n s, refl)

pub strtok_dark :
    (c : ℕ) (s : Bytes) → is_delim c ≡ false → strtok (c ∷ s) ≡ some (span_token (c ∷ s))
unfolding strtok skip_delim
strtok_dark c s dark = ground arith

-- The bytes are no white space.
abbrev pub Dark : Bytes → Type 0
Dark = All (λ c. is_delim c ≡ false)

abbrev pub Lacks : ℕ → Bytes → Type 0
Lacks b = All (λ c. (c == b) ≡ false)

pub Blank-Lacks : (s : Bytes) → Blank s → Lacks b'=' s
unfolding is_space
Blank-Lacks [] _ = tt
Blank-Lacks (c ∷ s) (hc, hs) = (ground arith, Blank-Lacks s hs)

pub cut_at-append : (c : ℕ) (a b : Bytes) → Lacks c a → cut_at c (a ++ c ∷ b) ≡ some (a, b)
unfolding cut_at
cut_at-append c [] b _ = ground arith
cut_at-append c (d ∷ a) b (hd, ha) = ground (arith, cut_at-append c a b ha)

pub skip_delim-append : (w s : Bytes) → Blank w → skip_delim (w ++ s) ≡ skip_delim s
unfolding skip_delim
skip_delim-append [] s _ = refl
skip_delim-append (c ∷ w) s (hc, hw) = ground (arith, is_delim-is_space c, skip_delim-append w s hw)

pub skip_delim_dark : (c : ℕ) (s : Bytes) → is_delim c ≡ false → skip_delim (c ∷ s) ≡ c ∷ s
unfolding skip_delim
skip_delim_dark c s h = rw h

span_token_word : (t w : Bytes) → Dark t → Blank w → (span_token (t ++ w)).0 ≡ t
unfolding span_token
span_token_word [] [] _ _ = refl
span_token_word [] (c ∷ w) _ (hc, _) = ground (arith, is_delim-is_space c)
span_token_word (c ∷ t) w (hc, ht) hw = ground (arith, span_token_word t w ht hw)

pub strtok-append : (v s : Bytes) → Blank v → strtok (v ++ s) ≡ strtok s
unfolding strtok
strtok-append v s hv = rw (skip_delim-append v s hv)

-- The token of a line that holds one word and white space.
pub strtok_word :
    (v : Bytes) (c : ℕ) (t w : Bytes)
    → Blank v
    → Dark (c ∷ t)
    → Blank w
    → (kept : Bytes) × (strtok (v ++ ((c ∷ t) ++ w)) ≡ some (c ∷ t, kept))
strtok_word v c t w hv h hw =
    let kept = (span_token ((c ∷ t) ++ w)).1 in
    (
      kept,
      strtok-append v ((c ∷ t) ++ w) hv
          ∙ strtok_dark c (t ++ w) h.0
          ∙ (λ i. some (span_token_word (c ∷ t) w h hw i, kept)),
    )

-- A blank line has no token.
pub strtok-Blank : (w : Bytes) → Blank w → strtok w ≡ none
unfolding strtok skip_delim
strtok-Blank [] _ = refl
strtok-Blank (c ∷ w) (hc, hw) = ground (arith, is_delim-is_space c, strtok-Blank w hw)

-- The search for `c` goes on behind bytes other than `c`.
pub cut_at-none : (c : ℕ) (a r : Bytes) → Lacks c a → cut_at c r ≡ none → cut_at c (a ++ r) ≡ none
unfolding cut_at
cut_at-none c [] r _ e = e
cut_at-none c (d ∷ a) r (hd, ha) e = ground (arith, cut_at-none c a r ha e)

pub cut_at-some :
    (c : ℕ) (a r x y : Bytes)
    → Lacks c a
    → cut_at c r ≡ some (x, y)
    → cut_at c (a ++ r) ≡ some (a ++ x, y)
unfolding cut_at
cut_at-some c [] r x y _ e = e
cut_at-some c (d ∷ a) r x y (hd, ha) e = ground (arith, cut_at-some c a r x y ha e)

pub Lacks-cut_at : (c : ℕ) (a : Bytes) → Lacks c a → cut_at c a ≡ none
Lacks-cut_at c a h = rw (append-nil a) at (cut_at-none c a [] h (unfold cut_at in refl))

-- A text that is one word.
span_token_all : (u : Bytes) → Dark u → span_token u ≡ (u, [])
unfolding span_token
span_token_all [] _ = refl
span_token_all (d ∷ u) (hd, hu) = rw (span_token_all u hu, span_token, hd)

pub strtok_all : (c : ℕ) (t : Bytes) → Dark (c ∷ t) → strtok (c ∷ t) ≡ some (c ∷ t, [])
strtok_all c t h = strtok_dark c t h.0 ∙ ap some (span_token_all (c ∷ t) h)

pub Dark-EndsDark : (v : Bytes) → Dark v → EndsDark v
Dark-EndsDark [] _ = tt
Dark-EndsDark (c ∷ []) (h, _) = sym (is_delim-is_space c) ∙ h
Dark-EndsDark (c ∷ d ∷ v) (_, h) = Dark-EndsDark (d ∷ v) h

pub EndsDark-append : (a : Bytes) (c : ℕ) (b : Bytes) → EndsDark (c ∷ b) → EndsDark (a ++ c ∷ b)
EndsDark-append [] c b h = h
EndsDark-append (d ∷ []) c b h = h
EndsDark-append (d ∷ e ∷ a) c b h = EndsDark-append (e ∷ a) c b h
