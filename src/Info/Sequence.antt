-- ===== src/Info/Sequence.antt =====
-- The command line of the document, read back: a reader of YAML flow sequences of double-quoted scalars.
use crashinfo.Base.{
  ℕ, zero, suc, ◌<◌, ◌≤◌, Bool, ◌==◌, if◌then◌else◌, List, [], ◌∷◌, ◌++◌, ◌≡◌, ◌≢◌, refl, sym, ◌∙◌,
  ap, arith, Bytes, codes, Option, none, some, append_assoc, All, length, length-append,
}
use crashinfo.Yaml.{fputy}
use crashinfo.Yaml.Scalar.{Fits, unquote, unquote-fputy}
use crashinfo.Info.{◌>>◌, escaped, cmdline_text, cmdline}
use crashinfo.Info.Arguments.{nul_terminated, sequence, cmdline-sequence}

-- What stands behind a prefix.
abbrev pub strip : Bytes → Bytes → Option Bytes
strip [] s = some s
strip (p ∷ prefix) [] = none
strip (p ∷ prefix) (c ∷ s) = if p == c then strip prefix s else none

abbrev Items : Type 0
Items = Option (List Bytes × Bytes)

abbrev no_more : Option Bytes → Items
no_more none = none
no_more (some rest) = some ([], rest)

abbrev one_more : Bytes → Items → Items
one_more a none = none
one_more a (some (args, rest)) = some (a ∷ args, rest)

-- The scalars up to the closing bracket, with commas between them, and what follows it.
unfoldable pub items : ℕ → Bytes → Items
items zero s = none
items (suc fuel) s = elim (unquote s) [
  | none ↦ no_more (strip (codes " ]") s)
  | some (a, rest) ↦ elim (strip (codes ", ") rest) [
    | none ↦ one_more a (no_more (strip (codes " ]") rest))
    | some rest' ↦ one_more a (items fuel rest')
  ]
]

-- A sequence behind its opening bracket and a space.
unfoldable pub read_sequence : Bytes → Items
read_sequence s = items (suc (length s)) s

module _ (char_signed : Bool) where
  pub unquote-text :
      (s text rest : Bytes)
      → All (Fits char_signed) s
      → fputy char_signed s ≡ some text
      → unquote (text ++ rest) ≡ some (s, rest)
  unquote-text s text rest h e =
      let (text', e', u) = unquote-fputy char_signed s rest h in
      let same : text' ≡ text = cc in ap (λ t. unquote (t ++ rest)) (sym same) ∙ u

  -- `text` is what the arguments print as, and reads back as them, in front of a closing bracket.
  record IsItems (args : List Bytes) (text : Bytes) : Type 0 where
    prints : sequence char_signed args ≡ some (text, [])
    enough : length args ≤ suc (length text)
    reads :
        (fuel : ℕ) (rest : Bytes)
        → length args < suc fuel
        → items fuel (text ++ (codes " ]" ++ rest)) ≡ some (args, rest)

  single :
      (a : Bytes) (fuel : ℕ) (text rest : Bytes)
      → All (Fits char_signed) a
      → fputy char_signed a ≡ some text
      → 1 < suc fuel
      → items fuel (text ++ (codes " ]" ++ rest)) ≡ some (a ∷ [], rest)
  unfolding items
  single a zero text rest h e lt = absurd (omega arith)
  single a (suc fuel) text rest h e lt =
      rw (unquote-text a text (codes " ]" ++ rest) h e, items) refl

  several :
      (a : Bytes) (args : List Bytes) (fuel : ℕ) (text later rest : Bytes)
      → All (Fits char_signed) a
      → fputy char_signed a ≡ some text
      → IsItems args later
      → suc (length args) < suc fuel
      → items fuel ((text ++ (codes ", " ++ later)) ++ (codes " ]" ++ rest)) ≡ some (a ∷ args, rest)
  unfolding items
  several a args zero text later rest h e p lt = absurd (omega arith)
  several a args (suc fuel) text later rest h e p lt =
      ap (items (suc fuel)) (append_assoc text (codes ", " ++ later) (codes " ]" ++ rest))
      ∙ rw (unquote-text a text (codes ", " ++ (later ++ (codes " ]" ++ rest))) h e, items)
          (ap (one_more a) (p.reads fuel rest (omega arith)))

  sequence-IsItems :
      (a : Bytes) (args : List Bytes)
      → All (Fits char_signed) a
      → All (λ b. All (Fits char_signed) b) args
      → (text : Bytes) × IsItems (a ∷ args) text
  unfolding sequence escaped ◌>>◌
  sequence-IsItems a [] h _ =
      let (text, e, _) = unquote-fputy char_signed a [] h in
      (
        text,
        record {
          prints = rw e refl;
          enough = omega arith;
          reads = λ fuel rest lt. single a fuel text rest h e lt;
        },
      )
  sequence-IsItems a (b ∷ args) h (hb, hs) =
      let (text, e, _) = unquote-fputy char_signed a [] h in
      let (later, p) = sequence-IsItems b args hb hs in
      (
        text ++ (codes ", " ++ later),
        record {
          prints = rw (e, p.prints) refl;
          enough = let q = p.enough in omega (arith, length-append text (codes ", " ++ later));
          reads = λ fuel rest lt. several a (b ∷ args) fuel text later rest h e p lt;
        },
      )

-- The command line of a process whose bytes have two-digit escapes stands in the document so that a
-- reader of YAML gets the arguments back from it, in order, the empty ones too.
pub read_sequence-cmdline :
    (char_signed : Bool) (args : List Bytes)
    → All (λ a. All (λ c. c ≢ 0) a) args
    → All (λ a. All (Fits char_signed) a) args
    → (text : Bytes) × (cmdline char_signed (some (nul_terminated args))
        ≡ some (codes "cmdline: [ " ++ text, []))
      × (read_sequence text ≡ some (args, codes "\n"))
unfolding read_sequence
read_sequence-cmdline char_signed [] h fits =
    (codes " ]\n", unfold cmdline cmdline_text ◌>>◌ in refl, unfold items unquote in refl)
read_sequence-cmdline char_signed (a ∷ args) h (fa, fs) =
    let (text, p) = sequence-IsItems char_signed a args fa fs in
    (
      text ++ codes " ]\n",
      cmdline-sequence char_signed (a ∷ args) h ∙ unfold ◌>>◌ in rw p.prints refl,
      p.reads (suc (length (text ++ codes " ]\n"))) (codes "\n")
          (let q = p.enough in omega (arith, length-append text (codes " ]\n"))),
    )
