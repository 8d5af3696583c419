-- ===== src/Util/Chomp.antt =====
-- Where `strlen_chomp` cuts a string.
use crashinfo.Base.{
  ℕ, zero, suc, ◌≤◌, ◌<◌, true, false, [], ◌∷◌, ◌++◌, ◌≡◌, refl, arith, ap, ◌-◌, length-append,
  Bytes, length, get_or, take, drop, Bool-cases, inl, inr,
}
use crashinfo.Util.{is_space, chomp_loop, strlen_chomp, Blank, EndsDark, chomp}

-- What the loop returns from `i`: no more than `i`, with white space from there up to `i`, and a
-- dark byte before it unless it is 0.
record IsCut (value : Bytes) (i n : ℕ) : Type 0 where
  within : n ≤ i
  blank : (k : ℕ) → n ≤ k → k < i → is_space (get_or value k 0) ≡ true
  dark : (k : ℕ) → n ≡ suc k → is_space (get_or value k 0) ≡ false

chomp_loop-IsCut : (value : Bytes) (i : ℕ) → IsCut value i (chomp_loop value i)
unfolding chomp_loop
chomp_loop-IsCut value zero = record {
  within = omega arith;
  blank = λ k p q. absurd (omega arith);
  dark = λ k e. absurd (omega arith);
}
chomp_loop-IsCut value (suc i) = elim (Bool-cases (is_space (get_or value i 0))) [
  | inl white ↦ rw white (
      let ih = chomp_loop-IsCut value i in
      record {
        within = omega (arith, ih.within);
        blank = λ k p q. ground (arith, ih.blank k);
        dark = ih.dark;
      })
  | inr dark ↦ rw dark (record {
    within = omega arith;
    blank = λ k p q. absurd (omega arith);
    dark = λ k e. ground arith;
  })
]

Blank-drop :
    (value : Bytes) (n : ℕ)
    → ((k : ℕ) → n ≤ k → k < length value → is_space (get_or value k 0) ≡ true)
    → Blank (drop n value)
Blank-drop [] zero h = tt
Blank-drop [] (suc n) h = tt
Blank-drop (c ∷ value) zero h = (
  h 0 (omega arith) (omega arith),
  Blank-drop value zero (λ k p q. h (suc k) (omega arith) (omega arith)),
)
Blank-drop (c ∷ value) (suc n) h =
    Blank-drop value n (λ k p q. h (suc k) (omega arith) (omega arith))

EndsDark-take :
    (value : Bytes) (n : ℕ)
    → n ≤ length value
    → ((k : ℕ) → n ≡ suc k → is_space (get_or value k 0) ≡ false)
    → EndsDark (take n value)
EndsDark-take value zero w h = tt
EndsDark-take [] (suc n) w h = tt
EndsDark-take (c ∷ value) (suc zero) w h = h 0 refl
EndsDark-take (c ∷ []) (suc (suc n)) w h = absurd (omega arith)
EndsDark-take (c ∷ d ∷ value) (suc (suc n)) w h =
    EndsDark-take (d ∷ value) (suc n) (omega arith) (λ k e. h (suc k) (omega arith))

-- A string is its `strlen_chomp` first bytes, which end in no white space, and then white space
-- only.
pub strlen_chomp_lem :
    (value : Bytes)
    → (strlen_chomp value ≤ length value)
      × EndsDark (chomp value)
      × Blank (drop (strlen_chomp value) value)
unfolding strlen_chomp
strlen_chomp_lem value =
    let c = chomp_loop-IsCut value (length value) in
    (c.within, EndsDark-take value _ c.within c.dark, Blank-drop value _ c.blank)

EndsDark-last :
    (a b : Bytes) (k : ℕ) → EndsDark a → length a ≡ suc k → is_space (get_or (a ++ b) k 0) ≡ false
EndsDark-last [] b k h e = absurd (omega arith)
EndsDark-last (c ∷ []) b zero h e = h
EndsDark-last (c ∷ []) b (suc k) h e = absurd (omega arith)
EndsDark-last (c ∷ d ∷ a) b zero h e = absurd (omega arith)
EndsDark-last (c ∷ d ∷ a) b (suc k) h e = EndsDark-last (d ∷ a) b k h (omega arith)

Blank-at :
    (a b : Bytes) (k : ℕ)
    → Blank b
    → length a ≤ k
    → k < length (a ++ b)
    → is_space (get_or (a ++ b) k 0) ≡ true
Blank-at [] [] k h p q = absurd (omega arith)
Blank-at [] (c ∷ b) zero h p q = h.0
Blank-at [] (c ∷ b) (suc k) h p q = Blank-at [] b k h.1 (omega arith) (omega arith)
Blank-at (c ∷ a) b zero h p q = absurd (omega arith)
Blank-at (c ∷ a) b (suc k) h p q = Blank-at a b k h (omega arith) (omega arith)

pub take-append : (a b : Bytes) → take (length a) (a ++ b) ≡ a
take-append [] b = refl
take-append (c ∷ a) b = ap (λ t. c ∷ t) (take-append a b)

IsCut-unique :
    (a b : Bytes) (n : ℕ) → EndsDark a → Blank b → IsCut (a ++ b) (length (a ++ b)) n → n ≡ length a
IsCut-unique a b n da bb c = omega (arith, not_short, not_long)
  where
    not_short : ¬ (n < length a)
    not_short h =
        let k = length a - 1 in
        ground (
          arith,
          EndsDark-last a b k da (omega arith),
          c.blank k (omega arith) (omega (arith, length-append {0} a b)),
        )

    not_long : ¬ (length a < n)
    not_long h =
        let k = n - 1 in
        let w = c.within in
        ground (arith, Blank-at a b k bb (omega arith) (omega arith), c.dark k (omega arith))

-- A text that does not end in white space, followed by white space only, is cut to that text.
pub chomp-append : (a b : Bytes) → EndsDark a → Blank b → chomp (a ++ b) ≡ a
unfolding strlen_chomp
chomp-append a b da bb =
    rw (IsCut-unique a b _ da bb (chomp_loop-IsCut (a ++ b) (length (a ++ b)))) (take-append a b)
