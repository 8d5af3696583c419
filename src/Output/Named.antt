-- ===== src/Output/Named.antt =====
-- `open_output` with the names that its own expansion gives.
use crashinfo.Base.{
  ℕ, zero, suc, ◌+◌, ◌-◌, ◌<◌, [], ◌∷◌, ◌++◌, ◌≡◌, refl, sym, ◌∙◌, ap, arith, Bytes, none, some,
  length, take,
}
use crashinfo.Util.Chomp.{take-append}
use crashinfo.Expand.{Cells, Env, Outcome, next, done, too_long, undefined, path_last, expand}
use crashinfo.Expand.Buffer.{slice}
use crashinfo.Expand.Scan.{expansion}
use crashinfo.Expand.Name.{IsExpansion, expand-IsExpansion, slice_snoc}
use crashinfo.Output.{Expanded}

-- The environment of the expansion for a counter.
abbrev pub at_counter : Env → ℕ → Env
at_counter e counter = record e { counter = counter }

-- What `open_output` sees of an expansion: the text from `path[j]` to the terminator at the end. The
-- messages of one that ends at `too_long` are left out.
abbrev pub expanded_of : Outcome → Expanded
expanded_of (done path j ms) = record {
  name = some (slice path j (path_last - j));
  shown = slice path 0 path_last;
  messages = ms;
}
expanded_of _ = record { name = none; shown = []; messages = [] }

-- The names for the counters, where `strftime` stores `name`.
unfoldable pub expansions : Env → Bytes → ℕ → Expanded
expansions e name counter = expanded_of (expand (at_counter e counter) name)

length-slice : (path : Cells) (j n : ℕ) → length (slice path j n) ≡ n
length-slice path j zero = refl
length-slice path j (suc n) = ap suc (length-slice path (suc j) n)

without_last :
    (path : Cells) (j : ℕ) (text : Bytes) (c : ℕ)
    → slice path j (suc (length text)) ≡ text ++ c ∷ []
    → slice path j (length text) ≡ text
without_last path j text c e =
    let front = slice path j (length text) in
    sym (take-append front (path (j + length text) ∷ []))
    ∙ ap (λ n. take n (front ++ path (j + length text) ∷ [])) (length-slice path j (length text))
    ∙ ap (λ t. take (length text) t) (sym (slice_snoc path j (length text)) ∙ e)
    ∙ take-append text (c ∷ [])

-- A name that has room is what its expansion gives.
name-IsExpansion :
    (n : ℕ) (text : Bytes) (o : Outcome)
    → IsExpansion n text o
    → n + length text < path_last
    → (expanded_of o).name ≡ some text
name-IsExpansion n text (done path j ms) (room, holds) fits =
    ap some (ap (λ m. slice path j m) (omega (arith, room)) ∙ without_last path j text 0 holds)
name-IsExpansion n text too_long h fits = absurd (omega (arith, h))
name-IsExpansion n text (next path i j ms) h fits = elim h [ ]
name-IsExpansion n text undefined h fits = elim h [ ]

module _ (e : Env) (exe t : Bytes) where
  -- The name for a counter.
  abbrev pub name_at : ℕ → Bytes
  name_at counter = b'/' ∷ expansion (at_counter e counter) exe t

  -- The name and its expansion fit the buffer together.
  abbrev pub HasRoom : ℕ → Type 0
  HasRoom counter = suc (length t) + length (name_at counter) < path_last

  pub expansions-name :
      (k : ℕ) → e.exe ≡ some exe → HasRoom k → (expansions e (b'/' ∷ t) k).name ≡ some (name_at k)
  unfolding expansions
  expansions-name k known room =
      name-IsExpansion (suc (length t)) (name_at k) (expand (at_counter e k) (b'/' ∷ t))
        (expand-IsExpansion (at_counter e k) exe t known (omega (arith, room))) room
