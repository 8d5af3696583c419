-- ===== src/Copy/Whole.antt =====
-- What the copies of a core hold.
use crashinfo.Base.{
  ℕ, zero, suc, Bool, true, false, ltb, List, [], ◌∷◌, ◌++◌, ◌≡◌, refl, sym, ◌∙◌, ap, arith, Bytes,
  Option, none, some, ℤ, pos, negsuc, pos_part, drop, length, Option-cases, Bool-cases, inl, inr,
  append_assoc, subst,
}
use crashinfo.Transfer.{Answer, safe_write, safe_read}
use crashinfo.Transfer.Moves.{Counts, Moved, safe_write-Moved, ReadOf, safe_read-ReadOf}
use crashinfo.Copy.{
  buf_size, Round, Feed, ended, waiting, end_round, tries_after, left_after, feed, copied,
  copy_loop, Copied, begin, copy_rest, dump_core,
}

-- What the pipe has got and what is left are the block.
abbrev Fed : Bytes → Feed → Type 0
Fed first (ended left out) = out ++ left ≡ first
Fed first (waiting left out) = out ++ left ≡ first

drop-append : (s t : Bytes) → drop (length s) (s ++ t) ≡ t
drop-append [] t = refl
drop-append (c ∷ s) t = drop-append s t

nothing_written :
    (text left rest : Bytes) → text ++ rest ≡ left → length text ≡ 0 → text ++ left ≡ left
nothing_written [] left rest e n = refl
nothing_written (c ∷ text) left rest e n = absurd (omega arith)

left_after-Moved :
    (left text : Bytes) (rtn : ℤ)
    → Moved left (some (rtn, text))
    → text ++ left_after rtn left ≡ left
left_after-Moved left text rtn (rest, e, inl n) =
    ap (λ r. text ++ left_after r left) n
    ∙ ap (λ l. text ++ drop (length text) l) (sym e)
    ∙ ap (λ l. text ++ l) (drop-append text rest)
    ∙ e
left_after-Moved left text rtn (rest, e, inr (n, none_moved)) =
    ap (λ r. text ++ left_after r left) n ∙ nothing_written text left rest e none_moved

end_round-Fed :
    (first : Bytes) (r : Round) (rtn : ℤ) (tries : ℕ) (left out : Bytes) (next later : Feed)
    → out ++ left ≡ first
    → Fed first next
    → Fed first later
    → Fed first (end_round r rtn tries left out next later)
end_round-Fed first r (pos n) tries left out next later e h g = elim (Bool-cases (r.known)) [
  | inl known ↦ rw known e
  | inr unknown ↦ rw unknown h
]
end_round-Fed first r (negsuc n) tries left out next later e h g = elim (Bool-cases (r.known)) [
  | inl known ↦ rw known e
  | inr unknown ↦ rw unknown (elim (Bool-cases (r.again)) [
    | inl again ↦ elim (Bool-cases (ltb (suc tries) 50)) [
      | inl more ↦ rw (again, more) g
      | inr enough ↦ rw (again, enough) e
    ]
    | inr error ↦ rw error e
  ])
]

feed-Fed :
    (first : Bytes) (rounds : List Round) (tries : ℕ) (left out : Bytes)
    → out ++ left ≡ first
    → Fed first (feed rounds tries left out)
unfolding feed
feed-Fed first [] tries left out e = e
feed-Fed first (r ∷ rounds) tries left out e = elim (Option-cases (safe_write r.answers left)) [
  | inl stuck ↦ rw (stuck, feed) e
  | inr ((rtn, text), wrote) ↦
      let moves = subst (λ o. Moved left o) wrote (safe_write-Moved r.answers left) in
      let whole : (out ++ text) ++ left_after rtn left ≡ first =
        append_assoc out text (left_after rtn left)
        ∙ ap (λ l. out ++ l) (left_after-Moved left text rtn moves)
        ∙ e in
      rw (wrote, feed)
        (end_round-Fed first r rtn (tries_after rtn tries) (left_after rtn left) (out ++ text) _ _
          whole
          (feed-Fed first rounds (tries_after rtn tries) (left_after rtn left) (out ++ text) whole)
          (feed-Fed first rounds (suc (tries_after rtn tries)) (left_after rtn left) (out ++ text)
            whole))
]

-- What the loop has read and what it has not are all there was.
abbrev Read : Bytes → Option (Bytes × Bytes) → Type 0
Read input none = Unit
Read input (some (blocks, rest)) = blocks ++ rest ≡ input

no_bytes :
    (block input' input : Bytes) → block ++ input' ≡ input → length block ≡ 0 → input' ≡ input
no_bytes [] input' input e n = e
no_bytes (c ∷ block) input' input e n = absurd (omega arith)

copied-Read :
    (rtn : ℤ) (block input' input : Bytes) (later : Option (Bytes × Bytes))
    → block ++ input' ≡ input
    → Counts rtn (length block)
    → Read input' later
    → Read input (copied rtn block input' later)
copied-Read (pos zero) block input' input later e (inl n) h =
    no_bytes block input' input e (sym (ap pos_part n))
copied-Read (pos zero) block input' input later e (inr (n, empty)) h =
    no_bytes block input' input e empty
copied-Read (pos (suc k)) block input' input none e n h = tt
copied-Read (pos (suc k)) block input' input (some (blocks, rest)) e n h =
    append_assoc block blocks rest ∙ ap (λ t. block ++ t) h ∙ e
copied-Read (negsuc k) block input' input later e (inl n) h =
    no_bytes block input' input e (sym (ap pos_part n))
copied-Read (negsuc k) block input' input later e (inr (n, empty)) h =
    no_bytes block input' input e empty

copy_loop-Read :
    (answers : List (List Answer)) (input : Bytes) → Read input (copy_loop answers input)
unfolding copy_loop
copy_loop-Read [] input = tt
copy_loop-Read (a ∷ answers) input = elim (Option-cases (safe_read a buf_size input)) [
  | inl stuck ↦ rw (stuck, copy_loop) tt
  | inr ((rtn, block, input'), got) ↦
      let (e, small, n) =
        subst (λ o. ReadOf buf_size input o) got (safe_read-ReadOf a buf_size input) in
      rw (got, copy_loop) (copied-Read rtn block input' input _ e n (copy_loop-Read answers input'))
]

-- How the copies compare with what there was to read, of which `first` was read first: with libunwind,
-- the core and the unwinder get all of it; without, the core lacks `first`.
abbrev pub Copies : Bool → Bytes → Bytes → Option Copied → Type 0
Copies libunwind first input none = Unit
Copies true first input (some c) = (c.core ++ c.rest ≡ input) × (c.pipe ++ c.rest ≡ input)
Copies false first input (some c) = first ++ (c.core ++ c.rest) ≡ input

copy_rest-Copies :
    (libunwind : Bool) (first input' input : Bytes) (f : Feed) (later : Option (Bytes × Bytes))
    → first ++ input' ≡ input
    → Fed first f
    → Read input' later
    → Copies libunwind first input (copy_rest libunwind first f later)
copy_rest-Copies libunwind first input' input (waiting left out) later e fed h = tt
copy_rest-Copies libunwind first input' input (ended left out) none e fed h = tt
copy_rest-Copies true first input' input (ended left out) (some (blocks, rest)) e fed h = (
  append_assoc first blocks rest ∙ ap (λ t. first ++ t) h ∙ e,
  append_assoc out (left ++ blocks) rest
      ∙ ap (λ t. out ++ t) (append_assoc left blocks rest ∙ ap (λ t. left ++ t) h)
      ∙ sym (append_assoc out left input')
      ∙ ap (λ t. t ++ input') fed
      ∙ e,
)
copy_rest-Copies false first input' input (ended left out) (some (blocks, rest)) e fed h =
    ap (λ t. first ++ t) h ∙ e

-- A read that gives nothing leaves the buffer empty.
begin-Copies :
    (libunwind : Bool) (rtn : ℤ) (first input' input : Bytes) (f : Feed)
    (later : Option (Bytes × Bytes))
    → first ++ input' ≡ input
    → Counts rtn (length first)
    → Fed first f
    → Read input' later
    → Copies libunwind first input (begin libunwind rtn first f later)
begin-Copies libunwind (pos (suc k)) first input' input f later e n fed h =
    copy_rest-Copies libunwind first input' input f later e fed h
begin-Copies libunwind (pos zero) [] input' input f later e n fed h =
    copy_rest-Copies libunwind [] input' input (ended [] []) later e refl h
begin-Copies libunwind (pos zero) (c ∷ first) input' input f later e (inl n) fed h =
    absurd (omega (arith, ap pos_part n))
begin-Copies libunwind (pos zero) (c ∷ first) input' input f later e (inr (n, empty)) fed h =
    absurd (omega (arith, empty))
begin-Copies true (negsuc k) first input' input f later e n fed h = tt
begin-Copies false (negsuc k) [] input' input f later e n fed h =
    copy_rest-Copies false [] input' input (ended [] []) later e refl h
begin-Copies false (negsuc k) (c ∷ first) input' input f later e (inl n) fed h =
    absurd (omega (arith, ap pos_part n))
begin-Copies false (negsuc k) (c ∷ first) input' input f later e (inr (n, empty)) fed h =
    absurd (omega (arith, empty))

-- A core that has been copied: what there is to read is what the first read gives and the rest. With
-- libunwind, the core output and the unwinder are given all of it, each once and in order, however the
-- feeding of the first block was cut short. Without, the core output is not given the first block.
pub dump_core-Copies :
    (libunwind : Bool) (reading : List Answer) (rounds : List Round) (answers : List (List Answer))
    (rtn : ℤ) (first input' input : Bytes)
    → safe_read reading buf_size input ≡ some (rtn, first, input')
    → Copies libunwind first input (dump_core libunwind reading rounds answers input)
unfolding dump_core
dump_core-Copies libunwind reading rounds answers rtn first input' input got =
    let (e, small, n) =
      subst (λ o. ReadOf buf_size input o) got (safe_read-ReadOf reading buf_size input) in
    rw (dump_core, got)
      (begin-Copies libunwind rtn first input' input _ _ e n (feed-Fed first rounds 0 first [] refl)
        (copy_loop-Read answers input'))
