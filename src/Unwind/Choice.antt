-- ===== src/Unwind/Choice.antt =====
-- The pid that the unwinder gives.
use crashinfo.Base.{
  Bool, true, false, if◌then◌else◌, List, [], ◌∷◌, ◌≡◌, refl, sym, arith, ℤ, ltb_ℤ, leb_ℤ,
  Bool-cases, inl, inr, ◌⊎◌, All, subst,
}
use crashinfo.Unwind.{int_max, Least, prepare_step, prepare_loop, unw_prepare}

-- The least of `best` and those that are accepted.
least : (ℤ → Bool) → List ℤ → ℤ → ℤ
least ok [] best = best
least ok (pid ∷ pids) best =
    least ok pids (if ltb_ℤ pid best then (if ok pid then pid else best) else best)

module _ (exists : ℤ → Bool) where
  minpid_lem :
      (pids : List ℤ) (l : Least)
      → (prepare_loop exists pids l).minpid ≡ least (λ p. true) pids l.minpid
  unfolding prepare_loop prepare_step least
  minpid_lem [] l = refl
  minpid_lem (pid ∷ pids) l = minpid_lem pids (prepare_step exists pid l)

  minpid_fs_lem :
      (pids : List ℤ) (l : Least)
      → (prepare_loop exists pids l).minpid_fs ≡ least exists pids l.minpid_fs
  unfolding prepare_loop prepare_step least
  minpid_fs_lem [] l = refl
  minpid_fs_lem (pid ∷ pids) l = minpid_fs_lem pids (prepare_step exists pid l)

abbrev pub Among : ℤ → List ℤ → Type 0
Among p [] = ⊥
Among p (q ∷ qs) = (p ≡ q) ⊎ Among p qs

-- `r` is accepted, one of `pids`, and no greater than any of them that is accepted.
pub record IsLeast (ok : ℤ → Bool) (pids : List ℤ) (r : ℤ) : Type 0 where
  pub accepted : ok r ≡ true
  pub among : Among r pids
  pub lower : All (λ p. ok p ≡ true → leb_ℤ r p ≡ true) pids

-- The least is `best`, or is below it.
abbrev Found : (ℤ → Bool) → List ℤ → ℤ → ℤ → Type 0
Found ok pids best r =
    ((r ≡ best) × All (λ p. ok p ≡ true → leb_ℤ best p ≡ true) pids)
    ⊎ ((ltb_ℤ r best ≡ true) × IsLeast ok pids r)

lt_le : (a b c : ℤ) → ltb_ℤ a b ≡ true → ltb_ℤ b c ≡ true → ltb_ℤ a c ≡ true
lt_le a b c h k = ground arith

least-Found : (ok : ℤ → Bool) (pids : List ℤ) (best : ℤ) → Found ok pids best (least ok pids best)
unfolding least
least-Found ok [] best = inl (refl, tt)
least-Found ok (pid ∷ pids) best = elim (Bool-cases (ltb_ℤ pid best)) [
  | inr high ↦ rw high (elim (least-Found ok pids best) [
    | inl (e, others) ↦ inl (e, ((λ h. ground arith), others))
    | inr (less, l) ↦ inr (
      less,
      record { accepted = l.accepted; among = inr l.among; lower = ((λ h. ground arith), l.lower) },
    )
  ])
  | inl low ↦ elim (Bool-cases (ok pid)) [
    | inr refused ↦
        rw (low, refused)
          (elim (least-Found ok pids best) [
            | inl (e, others) ↦ inl (e, ((λ h. ground arith), others))
            | inr (less, l) ↦ inr (
              less,
              record {
                accepted = l.accepted;
                among = inr l.among;
                lower = ((λ h. ground arith), l.lower);
              },
            )
          ])
    | inl taken ↦
        rw (low, taken)
          (elim (least-Found ok pids pid) [
            | inl (e, others) ↦ inr (
                subst (λ r. (ltb_ℤ r best ≡ true) × IsLeast ok (pid ∷ pids) r) (sym e)
                  (
                    low,
                    record {
                      accepted = taken;
                      among = inl refl;
                      lower = ((λ h. ground arith), others);
                    },
                  ))
            | inr (less, l) ↦ inr (
              lt_le (least ok pids pid) pid best less low,
              record {
                accepted = l.accepted;
                among = inr l.among;
                lower = ((λ h. ground arith), l.lower);
              },
            )
          ])
  ]
]

-- The pid given for threads with `pids`: the least of those that /proc has, if it has any, and else
-- the least of all.
abbrev pub Chosen : (ℤ → Bool) → List ℤ → ℤ → Type 0
Chosen exists pids r =
    IsLeast exists pids r ⊎ (All (λ p. exists p ≡ false) pids × IsLeast (λ p. true) pids r)

not_below : (a b : ℤ) → ltb_ℤ a b ≡ true → leb_ℤ b a ≡ true → ⊥
not_below a b h k = ground arith

none_exist :
    (exists : ℤ → Bool) (pids : List ℤ)
    → All (λ p. ltb_ℤ p int_max ≡ true) pids
    → All (λ p. exists p ≡ true → leb_ℤ int_max p ≡ true) pids
    → All (λ p. exists p ≡ false) pids
none_exist exists [] small high = tt
none_exist exists (pid ∷ pids) (s, small) (h, high) = (
  elim (Bool-cases (exists pid)) [
    | inl known ↦ absurd (not_below pid int_max s (h known))
    | inr unknown ↦ unknown
  ],
  none_exist exists pids small high,
)

-- For the threads of a core, of which there is one at least, with pids below `INT_MAX`, the unwinder
-- gives the least pid that has a directory in /proc; where none has, it gives the least pid.
pub unw_prepare-Chosen :
    (exists : ℤ → Bool) (pid : ℤ) (pids : List ℤ)
    → All (λ p. ltb_ℤ p int_max ≡ true) (pid ∷ pids)
    → Chosen exists (pid ∷ pids) (unw_prepare exists (pid ∷ pids))
unfolding unw_prepare
unw_prepare-Chosen exists pid pids (small, others) =
    let start : Least = record { minpid = int_max; minpid_fs = int_max } in
    let known = minpid_fs_lem exists (pid ∷ pids) start in
    let whole = minpid_lem exists (pid ∷ pids) start in
    rw (known, whole)
      (elim (least-Found exists (pid ∷ pids) int_max) [
        | inl (e, high) ↦ elim (least-Found (λ p. true) (pid ∷ pids) int_max) [
          | inl (e', high') ↦ absurd (not_below pid int_max small (high'.0 refl))
          | inr (less, l) ↦ rw e (inr (none_exist exists (pid ∷ pids) (small, others) high, l))
        ]
        | inr (less, l) ↦ rw less (inl l)
      ])
