-- ===== src/Spawn/Arguments.antt =====
-- The arguments of a program that is started.
use crashinfo.Base.{
  ℕ, zero, suc, ◌≤◌, ◌<◌, false, if◌then◌else◌, List, [], ◌∷◌, ◌++◌, ◌≡◌, refl, ◌∙◌, ap, arith,
  Bytes, ◌⊎◌, length, take, append_assoc, append-nil, Option, none, some, inl, inr,
}
use crashinfo.Conf.Text.Tokens.{skip_delim-dark}
use crashinfo.Conf.Text.{is_delim, skip_delim, span_token, strtok}
use crashinfo.Spawn.{next_token, choose, put, fill, rounds, argv, seen}

-- The words of a text, with `word` read so far, from left to right: an independent description.
abbrev push : Bytes → List Bytes → List Bytes
push [] words = words
push (c ∷ w) words = (c ∷ w) ∷ words

unfoldable pub words_from : Bytes → Bytes → List Bytes
words_from word [] = push word []
words_from word (c ∷ s) =
    let here = push word (words_from [] s) in
    let longer = words_from (word ++ c ∷ []) s in if is_delim c then here else longer

unfoldable pub words : Bytes → List Bytes
words s = words_from [] s

words_from-span :
    (s word : Bytes)
    → words_from word s ≡ push (word ++ (span_token s).0) (words_from [] (span_token s).1)
unfolding words_from span_token
words_from-span [] word = rw (append-nil word) refl
words_from-span (c ∷ s) word = ground (
  arith,
  words_from-span s (word ++ c ∷ []),
  append_assoc word (c ∷ []) (span_token s).0,
  append-nil word,
)

words-skip_delim : (s : Bytes) → words_from [] s ≡ words_from [] (skip_delim s)
unfolding words_from skip_delim
words-skip_delim [] = refl
words-skip_delim (c ∷ s) = ground (arith, words-skip_delim s)

push_token :
    (c : ℕ) (t : Bytes) (others : List Bytes)
    → is_delim c ≡ false
    → push (span_token (c ∷ t)).0 others ≡ (span_token (c ∷ t)).0 ∷ others
unfolding span_token
push_token c t others dark = rw dark refl

-- A token is the first word, and what is kept has the others.
abbrev TokenOf : Bytes → Type 0
TokenOf kept =
    ((next_token kept ≡ (none, [])) × (words kept ≡ []))
    ⊎ ((token : Bytes) × (rest : Bytes) × (next_token kept ≡ (some token, rest))
        × (words kept ≡ token ∷ words rest))

abbrev as_token : Option (Bytes × Bytes) → Option Bytes × Bytes
as_token none = (none, [])
as_token (some p) = (some p.0, p.1)

next_token-some :
    (kept : Bytes) (p : Bytes × Bytes) → strtok kept ≡ some p → next_token kept ≡ (some p.0, p.1)
unfolding next_token
next_token-some kept p e = ap as_token e

next_token-none : (kept : Bytes) → strtok kept ≡ none → next_token kept ≡ (none, [])
unfolding next_token
next_token-none kept e = ap as_token e

token_words : (kept : Bytes) → TokenOf kept
unfolding words strtok
token_words kept = of_skipped (skip_delim kept) (words-skip_delim kept) refl
  where
    of_skipped :
        (s : Bytes) → words_from [] kept ≡ words_from [] s → skip_delim kept ≡ s → TokenOf kept
    of_skipped [] same is =
        inl (next_token-none kept (rw (is, strtok) refl), same ∙ (unfold words_from in refl))
    of_skipped (c ∷ t) same is =
        let dark = skip_delim-dark kept {c = c} {t = t} is in
        inr (
          (span_token (c ∷ t)).0,
          (span_token (c ∷ t)).1,
          next_token-some kept (span_token (c ∷ t)) (rw (is, strtok) refl),
          same ∙ words_from-span (c ∷ t) [] ∙ push_token c t _ dark,
        )

module _ (arg1 arg2 : Option Bytes) where
  fill_step :
      (n : ℕ) (kept : Bytes) (p : Option Bytes × Bytes)
      → next_token kept ≡ p
      → fill arg1 arg2 (suc n) kept ≡ put (choose arg1 arg2 p.0) (fill arg1 arg2 n p.1)
  unfolding fill
  fill_step n kept p e =
      ap (λ (p : Option Bytes × Bytes). put (choose arg1 arg2 p.0) (fill arg1 arg2 n p.1)) e

  argv_step :
      (cmd : Bytes) (p : Option Bytes × Bytes)
      → next_token cmd ≡ p
      → argv cmd arg1 arg2 ≡ put (some p.0) (fill arg1 arg2 rounds p.1)
  unfolding argv
  argv_step cmd p e =
      ap (λ (p : Option Bytes × Bytes). put (some p.0) (fill arg1 arg2 rounds p.1)) e

-- What the loop leaves where no argument is to be put in.
fill-words :
    (n : ℕ) (kept : Bytes)
    → (args : List (Option Bytes)) × (fill none none n kept ≡ some args)
      × (seen args ≡ take n (words kept))
unfolding choose
fill-words zero kept = ([], unfold fill in refl, refl)
fill-words (suc n) kept = elim (token_words kept) [
  | inl (e, w) ↦
      let (args, is, sees) = fill-words n [] in
      (none ∷ args, fill_step none none n kept _ e ∙ ap (put (some none)) is, rw w refl)
  | inr (token, rest, e, w) ↦
      let (args, is, sees) = fill-words n rest in
      (
        some token ∷ args,
        fill_step none none n kept _ e ∙ ap (put (some (some token))) is,
        rw (w, sees) refl,
      )
]

-- A filter is started with the words of its command, the first 31 of them.
pub argv-words :
    (cmd : Bytes)
    → (args : List (Option Bytes)) × (argv cmd none none ≡ some args)
      × (seen args ≡ take 31 (words cmd))
argv-words cmd = elim (token_words cmd) [
  | inl (e, w) ↦
      let (args, is, sees) = fill-words rounds [] in
      (none ∷ args, argv_step none none cmd _ e ∙ ap (put (some none)) is, rw w refl)
  | inr (token, rest, e, w) ↦
      let (args, is, sees) = fill-words rounds rest in
      (
        some token ∷ args,
        argv_step none none cmd _ e ∙ ap (put (some (some token))) is,
        rw (w, sees) refl,
      )
]

put-none : (o : Option (Option Bytes)) → put o none ≡ none
put-none none = refl
put-none (some arg) = refl

module _ (arg1 : Bytes) (arg2 : Option Bytes) where
  fill_null : (n : ℕ) (kept : Bytes) → length (words kept) < n → fill (some arg1) arg2 n kept ≡ none
  unfolding choose
  fill_null zero kept few = absurd (omega arith)
  fill_null (suc n) kept few = elim (token_words kept) [
    | inl (e, w) ↦ fill_step (some arg1) arg2 n kept _ e
    | inr (token, rest, e, w) ↦
        let later = fill_null n rest (omega (arith, ap (λ (l : List Bytes). length l) w)) in
        fill_step (some arg1) arg2 n kept _ e
        ∙ ap (put (choose (some arg1) arg2 (some token))) later
        ∙ put-none _
  ]

  -- A program that is to be started with the name of an output is not: if its command has at most 30
  -- words, the search for `@1` goes on behind the last word and compares a null pointer.
  pub argv_null : (cmd : Bytes) → length (words cmd) ≤ 30 → argv cmd (some arg1) arg2 ≡ none
  unfolding words words_from
  argv_null cmd few = elim (token_words cmd) [
    | inl (e, w) ↦
        argv_step (some arg1) arg2 cmd _ e
        ∙ ap (put (some none)) (fill_null rounds [] (omega arith))
    | inr (token, rest, e, w) ↦
        argv_step (some arg1) arg2 cmd _ e
        ∙ ap (put (some (some token)))
            (fill_null rounds rest (omega (arith, ap (λ (l : List Bytes). length l) w)))
  ]
