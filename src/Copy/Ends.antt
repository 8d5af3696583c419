-- ===== src/Copy/Ends.antt =====
-- When feeding and copying end.
use crashinfo.Base.{
  ℕ, zero, suc, ◌<◌, Bool, true, false, List, [], ◌∷◌, ◌++◌, ◌≡◌, ◌≢◌, refl, ◌∙◌, ap, arith, Bytes,
  Option, none, some, ℤ, pos, negsuc, pos_part, length, length-append, Option-cases, inl, inr,
  append-nil, subst, All,
}
use crashinfo.Transfer.{Answer, safe_write, safe_read}
use crashinfo.Transfer.Moves.{Counts, ReadOf, safe_read-ReadOf}
use crashinfo.Copy.{
  buf_size, Round, ended, waiting, left_after, feed, copied, copy_loop, Copied, copies, dump_core,
}
use crashinfo.Copy.Whole.{Copies, dump_core-Copies}

-- The calls of a read let it return, whatever there is to read.
abbrev pub Returns : List Answer → Type 0
Returns a = (source : Bytes) → safe_read a buf_size source ≢ none

copied_ends :
    (rtn : ℤ) (block input' input : Bytes) (later : Option (Bytes × Bytes))
    → block ++ input' ≡ input
    → Counts rtn (length block)
    → (length input' < length input → later ≢ none)
    → copied rtn block input' later ≢ none
copied_ends (pos zero) block input' input later e n h = cc
copied_ends (negsuc k) block input' input later e n h = cc
copied_ends (pos (suc k)) block input' input (some (blocks, rest)) e n h = cc
copied_ends (pos (suc k)) block input' input none e (inl n) h = absurd (
    h (omega (arith, ap pos_part n, ap (λ (t : Bytes). length t) e, length-append block input'))
      refl)
copied_ends (pos (suc k)) block input' input none e (inr (n, empty)) h =
    absurd (omega (arith, ap pos_part n))

copy_loop_ends :
    (answers : List (List Answer)) (input : Bytes)
    → All Returns answers
    → length input < length answers
    → copy_loop answers input ≢ none
unfolding copy_loop
copy_loop_ends [] input h few = absurd (omega arith)
copy_loop_ends (a ∷ answers) input (h, hs) few = elim (Option-cases (safe_read a buf_size input)) [
  | inl stuck ↦ absurd (h input stuck)
  | inr ((rtn, block, input'), got) ↦
      let (e, small, n) =
        subst (λ o. ReadOf buf_size input o) got (safe_read-ReadOf a buf_size input) in
      rw (got, copy_loop)
        (copied_ends rtn block input' input _ e n
          (λ less. copy_loop_ends answers input' hs (omega (arith, less, few))))
]

-- Where the first round of feeding sees the pid, feeding ends.
feed_known :
    (r : Round) (rounds : List Round) (first : Bytes)
    → r.known ≡ true
    → safe_write r.answers first ≢ none
    → (left : Bytes) × (out : Bytes) × (feed (r ∷ rounds) 0 first [] ≡ ended left out)
unfolding feed
feed_known r rounds first known h = elim (Option-cases (safe_write r.answers first)) [
  | inl stuck ↦ absurd (h stuck)
  | inr ((pos n, text), wrote) ↦ (left_after (pos n) first, text, rw (wrote, feed, known) refl)
  | inr ((negsuc n, text), wrote) ↦ (first, text, rw (wrote, feed, known) refl)
]

-- Where the pid is known and no call blocks for ever, a core that has a byte to read is copied: the
-- program gets to the end of the copies, which hold what they should.
pub dump_core_ends :
    (libunwind : Bool) (reading : List Answer) (r : Round) (rounds : List Round)
    (answers : List (List Answer)) (n : ℕ) (first input' input : Bytes)
    → safe_read reading buf_size input ≡ some (pos (suc n), first, input')
    → r.known ≡ true
    → safe_write r.answers first ≢ none
    → All Returns answers
    → length input' < length answers
    → (c : Copied) × (dump_core libunwind reading (r ∷ rounds) answers input ≡ some c)
      × Copies libunwind first input (some c)
unfolding dump_core
dump_core_ends libunwind reading r rounds answers n first input' input got known wrote h enough =
    let (left, out, fed) = feed_known r rounds first known wrote in
    elim (Option-cases (copy_loop answers input')) [
      | inl stuck ↦ absurd (copy_loop_ends answers input' h enough stuck)
      | inr (blocks, copies_all) ↦
          let c = copies libunwind first left out blocks in
          let result : dump_core libunwind reading (r ∷ rounds) answers input ≡ some c =
            rw (dump_core, got, fed, copies_all) refl in
          (
            c,
            result,
            subst (λ o. Copies libunwind first input o) result
                (dump_core-Copies libunwind reading (r ∷ rounds) answers (pos (suc n)) first input'
                  input got),
          )
    ]

-- A round in which the pid is not known, and `write` of no bytes gives 0.
abbrev pub Idle : Round → Type 0
Idle r = (r.known ≡ false) × (safe_write r.answers [] ≡ some (pos 0, []))

-- Where the block is written and the pid is not known, feeding goes on however many rounds there are:
-- the bound on the attempts counts the calls that fail only.
pub feed-Idle :
    (rounds : List Round) (tries : ℕ) (out : Bytes)
    → All Idle rounds
    → feed rounds tries [] out ≡ waiting [] out
unfolding feed
feed-Idle [] tries out h = refl
feed-Idle (r ∷ rounds) tries out ((unknown, none_left), hs) =
    rw (none_left, feed, unknown)
      (ap (λ o. feed rounds tries [] o) (append-nil out) ∙ feed-Idle rounds tries out hs)
