-- ===== src/Output/Keep.antt =====
-- What becomes of the file system in the modes that keep files.
use crashinfo.Base.{
  ℕ, zero, suc, Bool, false, ◌≡◌, sym, subst, arith, Bytes, Option-cases, ◌⊎◌, inl, inr, [], ◌∷◌,
  ◌++◌, ℤ, Option, none, some,
}
use crashinfo.Output.{
  System, excl_flag, flags_of, Expanded, Messages, Ending, opened, failed, spent, Mode, keep,
  sequence, ignoring, path_loop, make_path, open_ignored, try_open, open_loop, open_output,
}

-- The state in which `open_output` ends is related to the one in which it starts.
abbrev pub EndsIn : {S : Type 0} → (S → Type 0) → Ending S → Type 0
EndsIn R (opened fd name s ms) = R s
EndsIn R (failed s ms) = R s
EndsIn R spent = Unit

-- What the calls of the system keep, but for `open` with O_APPEND or O_TRUNC.
pub record Kept {S : Type 0} (sys : System S) (R : S → Type 0) : Type 0 where
  pub by_open : (name : Bytes) (s : S) → R s → R (sys.open_file name excl_flag s).1
  pub by_dir : (name : Bytes) (s : S) → R s → R (sys.make_dir name s).1
  pub by_null : (s : S) → R s → R (sys.open_null s).1

module _ {S : Type 0} (sys : System S) (R : S → Type 0) (kept : Kept sys R) where
  path_loop-Kept :
      (before rest : Bytes) (s : S) (ms : Messages) → R s → R (path_loop sys before rest s ms).1
  unfolding path_loop
  path_loop-Kept before [] s ms h = h
  path_loop-Kept before (c ∷ rest) s ms h =
      let on = path_loop-Kept (before ++ c ∷ []) rest in
      let dir = kept.by_dir before s h in
      ground (arith, on s ms h, on (sys.make_dir before s).1 ms dir, dir)

  make_path-Kept : (path : Bytes) (s : S) (ms : Messages) → R s → R (make_path sys path s ms).1
  unfolding make_path
  make_path-Kept path s ms h = path_loop-Kept [] path s ms h

  open_ignored-Kept :
      (name : Bytes) (s : S) (ms : Messages) → R s → EndsIn R (open_ignored sys name s ms)
  unfolding open_ignored
  open_ignored-Kept name s ms h = ground (arith, kept.by_null s h)

  try_open-Kept :
      (mode : Mode) (limit : ℤ) (name shown : Bytes) (counter : ℕ) (mkdir : Bool) (s : S)
      (ms : Messages) (next again : S → Messages → Ending S)
      → flags_of mode ≡ excl_flag
      → ((s' : S) (ms' : Messages) → R s' → EndsIn R (next s' ms'))
      → ((s' : S) (ms' : Messages) → R s' → EndsIn R (again s' ms'))
      → R s
      → EndsIn R (try_open sys mode limit name shown counter mkdir s ms next again)
  unfolding try_open
  try_open-Kept mode limit name shown counter mkdir s ms next again excl on_next on_again h =
      let u = (sys.open_file name (flags_of mode) s).1 in
      let ok : R u = subst (λ f. R (sys.open_file name f s).1) (sym excl) (kept.by_open name s h) in
      let parents = make_path sys name u ms in
      let parents_ok : R parents.1 = make_path-Kept name u ms ok in
      ground (
        arith,
        ok,
        on_next u ms ok,
        open_ignored-Kept name u (ignoring sys ms) ok,
        parents_ok,
        on_again parents.1 parents.2 parents_ok,
      )

  open_loop-Kept :
      (fuel : ℕ) (names : ℕ → Expanded) (template : Bytes) (mode : Mode) (limit : ℤ) (e : Expanded)
      (counter : ℕ) (mkdir : Bool) (s : S) (ms : Messages)
      → flags_of mode ≡ excl_flag
      → R s
      → EndsIn R (open_loop sys fuel names template mode limit e counter mkdir s ms)
  unfolding open_loop
  open_loop-Kept zero names template mode limit e counter mkdir s ms excl h = tt
  open_loop-Kept (suc fuel) names template mode limit e counter mkdir s ms excl h =
      elim (Option-cases (e.name)) [
        | inl too_long ↦ rw (too_long, open_loop) h
        | inr (name, is) ↦
            rw (is, open_loop)
              (try_open-Kept mode limit name e.shown (suc counter) mkdir s ms _ _ excl
                (λ s' ms' h'.
                  open_loop-Kept fuel names template mode limit (names (suc counter)) (suc counter)
                    mkdir s' (ms' ++ (names (suc counter)).messages) excl h')
                (λ s' ms' h'.
                  open_loop-Kept fuel names template mode limit e counter false s' ms' excl h')
                h)
      ]

  -- In the modes keep and sequence, whatever `open` with O_EXCL, `mkdir` and the opening of
  -- /dev/null keep true of the file system, such as the contents of the files that exist, is true
  -- when `open_output` ends, be it with a descriptor or with an error.
  pub open_output-Kept :
      (fuel : ℕ) (names : ℕ → Expanded) (output : Option Bytes) (mode : Mode) (limit : ℤ)
      (mkdir : Bool) (s : S)
      → (mode ≡ keep) ⊎ (mode ≡ sequence)
      → R s
      → EndsIn R (open_output sys fuel names output mode limit mkdir s)
  unfolding open_output
  open_output-Kept fuel names none mode limit mkdir s which h = ground (arith, kept.by_null s h)
  open_output-Kept fuel names (some template) mode limit mkdir s which h = ground (
    arith,
    open_loop-Kept fuel names template mode limit (names 0) 0 mkdir s (names 0).messages
        (excl mode which) h,
  )
    where
      excl : (mode : Mode) → (mode ≡ keep) ⊎ (mode ≡ sequence) → flags_of mode ≡ excl_flag
      excl mode which = unfold flags_of in ground arith
