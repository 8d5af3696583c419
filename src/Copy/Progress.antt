-- ===== src/Copy/Progress.antt =====
-- How many rounds feeding takes.
use crashinfo.Base.{
  ℕ, zero, suc, ◌+◌, ◌*◌, ◌≤◌, ◌<◌, ltb, List, [], ◌∷◌, ◌++◌, ◌≡◌, refl, ◌∙◌, ap, arith, Bytes,
  Option, none, some, ℤ, pos, negsuc, pos_part, neg_part, drop, length, Option-cases, Bool-cases,
  inl, inr, subst, All,
}
use crashinfo.Transfer.{safe_write}
use crashinfo.Copy.{Round, Feed, ended, waiting, end_round, tries_after, left_after, feed}

-- A call of `safe_write` returns, and has written something or failed.
abbrev pub Acts : Option (ℤ × Bytes) → Type 0
Acts none = ⊥
Acts (some (pos zero, text)) = ⊥
Acts (some (pos (suc n), text)) = Unit
Acts (some (negsuc n, text)) = Unit

-- A round in which a write of some bytes acts.
abbrev pub IsActive : Round → Type 0
IsActive r = (c : ℕ) (left : Bytes) → Acts (safe_write r.answers (c ∷ left))

-- Feeding has ended, or all is written.
abbrev pub IsOver : Feed → Type 0
IsOver (ended left out) = Unit
IsOver (waiting left out) = left ≡ []

end_round-IsOver :
    (r : Round) (rtn : ℤ) (tries : ℕ) (left out : Bytes) (next later : Feed)
    → ((n : ℕ) → rtn ≡ pos n → IsOver next)
    → ((n : ℕ) → rtn ≡ negsuc n → suc tries < 50 → IsOver later)
    → IsOver (end_round r rtn tries left out next later)
end_round-IsOver r (pos n) tries left out next later h g = elim (Bool-cases (r.known)) [
  | inl known ↦ rw known tt
  | inr unknown ↦ rw unknown (h n refl)
]
end_round-IsOver r (negsuc n) tries left out next later h g = elim (Bool-cases (r.known)) [
  | inl known ↦ rw known tt
  | inr unknown ↦ rw unknown (elim (Bool-cases (r.again)) [
    | inl again ↦ elim (Bool-cases (ltb (suc tries) 50)) [
      | inl more ↦ rw (again, more) (g n refl (ground arith))
      | inr enough ↦ rw (again, enough) tt
    ]
    | inr error ↦ rw error tt
  ])
]

drop-nil : (n : ℕ) → drop {A = ℕ} n [] ≡ []
drop-nil zero = refl
drop-nil (suc n) = refl

left_after-nil : (rtn : ℤ) → left_after rtn [] ≡ []
left_after-nil (pos n) = drop-nil n
left_after-nil (negsuc n) = refl

feed_nil-IsOver :
    (rounds : List Round) (tries : ℕ) (left out : Bytes)
    → left ≡ []
    → IsOver (feed rounds tries left out)
unfolding feed
feed_nil-IsOver [] tries left out e = e
feed_nil-IsOver (r ∷ rounds) tries left out e = elim (Option-cases (safe_write r.answers left)) [
  | inl stuck ↦ rw (stuck, feed) e
  | inr ((rtn, text), wrote) ↦
      let still : left_after rtn left ≡ [] = ap (left_after rtn) e ∙ left_after-nil rtn in
      rw (wrote, feed)
        (end_round-IsOver r rtn (tries_after rtn tries) (left_after rtn left) (out ++ text) _ _
          (λ n is.
            feed_nil-IsOver rounds (tries_after rtn tries) (left_after rtn left) (out ++ text)
              still)
          (λ n is more.
            feed_nil-IsOver rounds (suc (tries_after rtn tries)) (left_after rtn left) (out ++ text)
              still))
]

nil_of_length : (s : Bytes) → length s ≡ 0 → s ≡ []
nil_of_length [] h = refl
nil_of_length (c ∷ s) h = absurd (omega arith)

length-drop_less : (n : ℕ) (c : ℕ) (s : Bytes) → length (drop (suc n) (c ∷ s)) < length (c ∷ s)
length-drop_less zero c s = omega arith
length-drop_less (suc n) c [] = omega arith
length-drop_less (suc n) c (d ∷ s) = omega (arith, length-drop_less n d s)

-- Where each write of some bytes gives something or fails, and fewer than 50 attempts have failed,
-- feeding ends or writes the whole block within 50 rounds for each byte, less the failed attempts.
pub feed-IsOver :
    (rounds : List Round) (tries : ℕ) (left out : Bytes)
    → All IsActive rounds
    → tries < 50
    → 50 * length left ≤ length rounds + tries
    → IsOver (feed rounds tries left out)
unfolding feed
feed-IsOver rounds tries [] out h few enough = feed_nil-IsOver rounds tries [] out refl
feed-IsOver [] tries (c ∷ left) out h few enough = absurd (omega arith)
feed-IsOver (r ∷ rounds) tries (c ∷ left) out (active, hs) few enough =
    elim (Option-cases (safe_write r.answers (c ∷ left))) [
      | inl stuck ↦ absurd (subst (λ o. Acts o) stuck (active c left))
      | inr ((pos zero, text), wrote) ↦ absurd (subst (λ o. Acts o) wrote (active c left))
      | inr ((pos (suc n), text), wrote) ↦
          rw (wrote, feed)
            (end_round-IsOver r (pos (suc n)) 0 (drop n left) (out ++ text)
              (feed rounds 0 (drop n left) (out ++ text))
              (feed rounds 1 (drop n left) (out ++ text))
              (λ m is.
                feed-IsOver rounds 0 (drop n left) (out ++ text) hs (omega arith)
                  (omega (arith, enough, few, length-drop_less n c left)))
              (λ m is more. absurd (omega (arith, ap pos_part is))))
      | inr ((negsuc n, text), wrote) ↦
          rw (wrote, feed)
            (end_round-IsOver r (negsuc n) tries (c ∷ left) (out ++ text)
              (feed rounds tries (c ∷ left) (out ++ text))
              (feed rounds (suc tries) (c ∷ left) (out ++ text))
              (λ m is. absurd (omega (arith, ap neg_part is)))
              (λ m is more.
                feed-IsOver rounds (suc tries) (c ∷ left) (out ++ text) hs more
                  (omega (arith, enough))))
    ]
