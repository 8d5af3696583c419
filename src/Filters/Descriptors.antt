-- ===== src/Filters/Descriptors.antt =====
-- The descriptors of a chain of filters.
use crashinfo.Base.{
  ℕ, suc, ◌+◌, ◌≤◌, ◌==◌, if◌then◌else◌, List, [], ◌∷◌, ◌++◌, ◌≡◌, refl, ◌∙◌, ap, arith, Bytes,
  Option-cases, inl, inr, ◌⊎◌, append_assoc,
}
use crashinfo.Filters.{
  Filter, Answers, Trace, Chain, running, broken, not_begun, opens, closes, logs, kill_all,
  break_down, start_filter, chain_loop, open_filters,
}

sum_cases : {A B : Type 0} (s : A ⊎ B) → ((a : A) × (s ≡ inl a)) ⊎ ((b : B) × (s ≡ inr b))
sum_cases (inl a) = inl (a, refl)
sum_cases (inr b) = inr (b, refl)

abbrev pub count : ℕ → List ℕ → ℕ
count x [] = 0
count x (y ∷ ys) = let rest = count x ys in if x == y then suc rest else rest

pub count-append : (x : ℕ) (xs ys : List ℕ) → count x (xs ++ ys) ≡ count x xs + count x ys
count-append x [] ys = omega arith
count-append x (y ∷ xs) ys = ground (arith, count-append x xs ys)

-- The commands of filters, in order.
abbrev pub commands_of : List Filter → List Bytes
commands_of [] = []
commands_of (f ∷ fs) = f.filter ∷ commands_of fs

abbrev pub pids_of : List Filter → List ℕ
pids_of [] = []
pids_of (f ∷ fs) = f.pid ∷ pids_of fs

-- What becomes of the descriptors, of which `fd` was open before. A chain that runs has the commands
-- as its filters, and all descriptors but the one to write to are closed, each of them once. A chain
-- that was broken down has closed no descriptor more often than it was opened.
abbrev pub Balanced : ℕ → List Bytes → Chain → Type 0
Balanced fd commands (running out filters t) =
    ((x : ℕ) → count x (out ∷ t.closed) ≡ count x (fd ∷ t.opened))
    × (commands_of filters ≡ commands)
Balanced fd commands (broken t) = (x : ℕ) → count x t.closed ≤ count x (fd ∷ t.opened)
Balanced fd commands (not_begun out t) =
    ((x : ℕ) → count x t.closed ≡ count x (fd ∷ t.opened)) × (out ≡ fd)

closed-kill_all : (fs : List Filter) (t : Trace) → (kill_all fs t).closed ≡ t.closed
unfolding kill_all
closed-kill_all [] t = refl
closed-kill_all (f ∷ fs) t = closed-kill_all fs _

opened-kill_all : (fs : List Filter) (t : Trace) → (kill_all fs t).opened ≡ t.opened
unfolding kill_all
opened-kill_all [] t = refl
opened-kill_all (f ∷ fs) t = opened-kill_all fs _

commands_of-append :
    (fs gs : List Filter) → commands_of (fs ++ gs) ≡ commands_of fs ++ commands_of gs
commands_of-append [] gs = refl
commands_of-append (f ∷ fs) gs = ap (λ cs. f.filter ∷ cs) (commands_of-append fs gs)

module _ (fd output_fd : ℕ) where
  -- Between two rounds, the open descriptors are the one to write to, the next one to read from, and
  -- that of the file.
  abbrev Held : ℕ → Trace → Type 0
  Held infd t = (x : ℕ) → count x (output_fd ∷ infd ∷ fd ∷ t.closed) ≡ count x (fd ∷ t.opened)

  break_down-Balanced :
      (infd : ℕ) (filters : List Filter) (commands : List Bytes) (t : Trace)
      → ((x : ℕ) → count x (output_fd ∷ infd ∷ fd ∷ t.closed) ≤ count x (fd ∷ t.opened))
      → Balanced fd commands (break_down output_fd infd fd filters t)
  unfolding break_down closes
  break_down-Balanced infd filters commands t h x =
      rw (closed-kill_all filters t, opened-kill_all filters t)
        (ground (arith, h x, count-append x t.closed (output_fd ∷ infd ∷ fd ∷ [])))

  start_filter-Balanced :
      (a : Answers) (command : Bytes) (infd outfd next_infd : ℕ) (filters : List Filter)
      (commands : List Bytes) (t : Trace) (next : List Filter → Trace → Chain)
      → ((x : ℕ) → count x (output_fd ∷ next_infd ∷ fd ∷ t.closed) ≤ count x (fd ∷ t.opened))
      → ((pid : ℕ)
          → Balanced fd commands (
              next
                (filters ++ record { filter = command; pid = pid } ∷ [])
                (closes (infd ∷ outfd ∷ []) t)))
      → Balanced fd commands
          (start_filter a command infd outfd output_fd next_infd fd filters t next)
  unfolding start_filter logs
  start_filter-Balanced a command infd outfd next_infd filters commands t next low h =
      elim (Option-cases (a.memory)) [
        | inl memory ↦ elim (sum_cases (a.child)) [
          | inl (error, dead) ↦
              rw (memory, start_filter, dead) (break_down-Balanced next_infd filters commands _ low)
          | inr (pid, child) ↦ rw (memory, start_filter, child) (h pid)
        ]
        | inr (error, full) ↦
            rw (full, start_filter) (break_down-Balanced next_infd filters commands _ low)
      ]

  chain_loop-Balanced :
      (answers : ℕ → Answers) (n : ℕ) (command : Bytes) (rest all : List Bytes) (infd : ℕ)
      (filters : List Filter) (t : Trace)
      → commands_of filters ++ command ∷ rest ≡ all
      → Held infd t
      → Balanced fd all (chain_loop answers n (command ∷ rest) output_fd infd fd filters t)
  unfolding chain_loop closes opens logs
  chain_loop-Balanced answers n command [] all infd filters t names held =
      start_filter-Balanced (answers n) command infd fd infd filters all t _
        (λ x. omega (arith, held x))
        (λ pid. (
          λ x. ground (arith, held x, count-append x t.closed (infd ∷ fd ∷ [])),
          commands_of-append filters (record { filter = command; pid = pid } ∷ []) ∙ names,
        ))
  chain_loop-Balanced answers n command (command' ∷ rest) all infd filters t names held =
      elim (sum_cases ((answers n).pipe)) [
        | inl (error, failed) ↦
            rw (failed, chain_loop)
              (break_down-Balanced infd filters all _ (λ x. omega (arith, held x)))
        | inr ((r, w), piped) ↦
            rw (piped, chain_loop)
              (start_filter-Balanced (answers n) command infd w r filters all (opens r w t) _
                (λ x. ground (arith, held x, count-append x t.opened (r ∷ w ∷ [])))
                (λ pid.
                  chain_loop-Balanced answers (suc n) command' rest all r
                    (filters ++ record { filter = command; pid = pid } ∷ []) _
                    (ap (λ cs. cs ++ command' ∷ rest)
                        (commands_of-append filters (record { filter = command; pid = pid } ∷ []))
                      ∙ append_assoc (commands_of filters) (command ∷ []) (command' ∷ rest)
                      ∙ names)
                    (λ x. ground (
                      arith,
                      held x,
                      count-append x t.opened (r ∷ w ∷ []),
                      count-append x t.closed (infd ∷ w ∷ []),
                    ))))
      ]

-- The descriptors of an output, of which that of its file is open before: where the filters run, they
-- are those of the commands, in order, and every descriptor but the one to write to is closed exactly
-- as often as it was opened; where a pipe, a process or memory cannot be had, no descriptor is closed
-- more often than it was opened; and where the first pipe cannot, that of the file is closed and
-- stays in `output_fd`.
pub open_filters-Balanced :
    (first : Bytes ⊎ (ℕ × ℕ)) (answers : ℕ → Answers) (commands : List Bytes) (fd : ℕ)
    → Balanced fd commands (open_filters first answers commands fd)
unfolding open_filters closes opens logs
open_filters-Balanced first answers [] fd = (λ x. refl, refl)
open_filters-Balanced (inl error) answers (command ∷ commands) fd = (λ x. refl, refl)
open_filters-Balanced (inr (r, w)) answers (command ∷ commands) fd =
    chain_loop-Balanced fd w answers 0 command commands (command ∷ commands) r [] _ refl
      (λ x. ground arith)
