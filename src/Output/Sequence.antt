-- ===== src/Output/Sequence.antt =====
-- Which name sequence mode takes.
use crashinfo.Base.{
  ℕ, zero, suc, ◌+◌, ◌≤◌, ◌<◌, Bool, true, false, if◌then◌else◌, ◌≡◌, refl, ap, subst, arith,
  get_or, Bytes, codes, ◌++◌, ℤ, pos, negsuc, some,
}
use crashinfo.Output.{
  System, excl_flag, flags_of, Opened, descriptor, exist, Expanded, Messages, Ending, opened,
  failed, Mode, sequence, crit, goes_on, try_open, open_loop, open_output, open_output,
}

module _ {S : Type 0} (sys : System S) (names : ℕ → Expanded) (s : S) where
  -- The name for a counter exists already.
  pub record IsTaken (counter : ℕ) : Type 0 where
    pub name : Bytes
    pub expands : (names counter).name ≡ some name
    pub exists : sys.open_file name excl_flag s ≡ (exist, s)

  -- The name for a counter can be created.
  pub record IsFree (counter : ℕ) (name : Bytes) (fd : ℕ) (s' : S) : Type 0 where
    pub expands : (names counter).name ≡ some name
    pub creates : sys.open_file name excl_flag s ≡ (descriptor fd, s')

  goes_on-less :
      (m d : ℕ) (limit : ℤ) → goes_on sys (m + d) limit ≡ true → goes_on sys m limit ≡ true
  goes_on-less m d (pos l) h = ground arith
  goes_on-less m d (negsuc l) h = ground arith

  module _ (template : Bytes) (limit : ℤ) (mkdir : Bool) where
    abbrev from : ℕ → ℕ → Messages → Ending S
    from fuel m ms = open_loop sys fuel names template sequence limit (names m) m mkdir s ms

    -- A round on a name that is taken.
    from_taken :
        (fuel m : ℕ) (ms : Messages)
        → IsTaken m
        → from (suc fuel) m ms ≡ (
            if goes_on sys (suc m) limit
            then from fuel (suc m) (ms ++ (names (suc m)).messages)
            else failed s (crit ms (codes "Filename sequence limit reached")))
    unfolding open_loop try_open flags_of
    from_taken fuel m ms t =
        rw (t.expands, open_loop, try_open, t.exists)
          (ap
            (λ (p : Opened × S).
              if goes_on sys (suc m) limit
              then open_loop sys fuel names template sequence limit (names (suc m)) (suc m) mkdir
                  p.1 (ms ++ (names (suc m)).messages)
              else failed p.1 (crit ms (codes "Filename sequence limit reached")))
            t.exists)

    from_free :
        (fuel m : ℕ) (ms : Messages) (name : Bytes) (fd : ℕ) (s' : S)
        → IsFree m name fd s'
        → from (suc fuel) m ms ≡ opened fd (some name) s' ms
    unfolding open_loop try_open flags_of
    from_free fuel m ms name fd s' t =
        rw (t.expands, open_loop, try_open, t.creates)
          (ap (λ (p : Opened × S). opened fd (some name) p.1 ms) t.creates)

    walk :
        (d fuel m : ℕ) (ms : Messages) (name : Bytes) (fd : ℕ) (s' : S)
        → d < fuel
        → ((j : ℕ) → m ≤ j → j < m + d → IsTaken j)
        → goes_on sys (m + d) limit ≡ true
        → IsFree (m + d) name fd s'
        → (ms' : Messages) × (from fuel m ms ≡ opened fd (some name) s' ms')
    walk d zero m ms name fd s' h taken g free = absurd (omega arith)
    walk zero (suc fuel) m ms name fd s' h taken g free =
        (ms, from_free fuel m ms name fd s' (subst (λ j. IsFree j name fd s') (omega arith) free))
    walk (suc d) (suc fuel) m ms name fd s' h taken g free =
        let same : m + suc d ≡ suc m + d = omega arith in
        let onward =
          goes_on-less (suc m) d limit (subst (λ j. goes_on sys j limit ≡ true) same g) in
        rw (from_taken fuel m ms (taken m (omega arith) (omega arith)), onward)
          (walk d fuel (suc m) _ name fd s' (omega arith)
            (λ j a b. taken j (omega arith) (omega arith))
            (subst (λ j. goes_on sys j limit ≡ true) same g)
            (subst (λ j. IsFree j name fd s') same free))

    run_out :
        (d fuel m : ℕ) (ms : Messages)
        → d < fuel
        → limit ≡ pos (suc (m + d))
        → ((j : ℕ) → m ≤ j → j ≤ m + d → IsTaken j)
        → (ms' : Messages) × (from fuel m ms
            ≡ failed s (crit ms' (codes "Filename sequence limit reached")))
    run_out d zero m ms h e taken = absurd (omega arith)
    run_out zero (suc fuel) m ms h e taken =
        let stops : goes_on sys (suc m) limit ≡ false = ground arith in
        rw (from_taken fuel m ms (taken m (omega arith) (omega arith)), stops) (ms, refl)
    run_out (suc d) (suc fuel) m ms h e taken =
        let onward : goes_on sys (suc m) limit ≡ true = ground arith in
        rw (from_taken fuel m ms (taken m (omega arith) (omega arith)), onward)
          (run_out d fuel (suc m) _ (omega arith) (ground arith)
            (λ j a b. taken j (omega arith) (omega arith)))

  from_slash :
      (fuel : ℕ) (template : Bytes) (mode : Mode) (limit : ℤ) (mkdir : Bool)
      → get_or template 0 0 ≡ b'/'
      → open_output sys fuel names (some template) mode limit mkdir s
        ≡ open_loop sys fuel names template mode limit (names 0) 0 mkdir s (names 0).messages
  unfolding open_output
  from_slash fuel template mode limit mkdir h = ground arith

  -- In sequence mode `open_output` creates the file for the first counter whose name does not exist
  -- yet, if that counter is below the limit or there is no limit. Here the template is an absolute
  -- path, `open` of a name that exists fails and changes nothing, and the fuel exceeds the counter.
  pub open_output-first_free :
      (fuel k : ℕ) (template : Bytes) (limit : ℤ) (mkdir : Bool) (name : Bytes) (fd : ℕ) (s' : S)
      → get_or template 0 0 ≡ b'/'
      → k < fuel
      → ((j : ℕ) → j < k → IsTaken j)
      → goes_on sys k limit ≡ true
      → IsFree k name fd s'
      → (ms : Messages) × (open_output sys fuel names (some template) sequence limit mkdir s
          ≡ opened fd (some name) s' ms)
  open_output-first_free fuel k template limit mkdir name fd s' h below taken g free =
      rw (from_slash fuel template sequence limit mkdir h) (
        walk template limit mkdir k fuel 0 (names 0).messages name fd s' below
          (λ j a b. taken j (omega arith)) (subst (λ j. goes_on sys j limit ≡ true) (omega arith) g)
          (subst (λ j. IsFree j name fd s') (omega arith) free))

  -- In sequence mode with the limit l + 1, `open_output` fails if the names for the counters from 0
  -- to l exist, with a message that says so, and leaves the file system as it is. So the
  -- limit itself is no counter, where crashinfo.1 has the sequence go up to and with it. Here too the
  -- template is an absolute path, `open` of a name that exists changes nothing, and the fuel
  -- exceeds l.
  pub open_output-limit :
      (fuel l : ℕ) (template : Bytes) (mkdir : Bool)
      → get_or template 0 0 ≡ b'/'
      → l < fuel
      → ((j : ℕ) → j ≤ l → IsTaken j)
      → (ms : Messages) × (open_output sys fuel names (some template) sequence (pos (suc l)) mkdir s
          ≡ failed s (crit ms (codes "Filename sequence limit reached")))
  open_output-limit fuel l template mkdir h below taken =
      rw (from_slash fuel template sequence (pos (suc l)) mkdir h) (
        run_out template (pos (suc l)) mkdir l fuel 0 (names 0).messages below
          (ap (λ j. pos (suc j)) (omega arith)) (λ j a b. taken j (omega arith)))
