-- ===== src/Info/Block.antt =====
-- The files that `proc_dump` copies into the document.
use crashinfo.Base.{
  ℕ, zero, suc, ◌+◌, ◌<◌, ◌==◌, List, [], ◌∷◌, ◌++◌, ◌≡◌, ◌≢◌, refl, ap, arith, Bytes, codes,
  length, take, All, Bool-cases, inl, inr, ◌⊎◌, ◌≤◌, sym, drop, take-append-drop,
}
use crashinfo.Util.{is_space, strlen_chomp, EndsDark, Blank}
use crashinfo.Util.Chomp.{strlen_chomp_lem}
use crashinfo.Conf.File.Total.{fgets_progress}
use crashinfo.Conf.File.{fgets, c_string}
use crashinfo.Info.{Out, ◌>>◌, fputs, spaces, dump_body, dump_max, dump_lines, dump_opened}

-- A newline stands at the end only.
abbrev NewlineLast : Bytes → Type 0
NewlineLast [] = Unit
NewlineLast (c ∷ []) = Unit
NewlineLast (c ∷ d ∷ r) = (c ≢ b'\n') × NewlineLast (d ∷ r)

-- The last byte is a newline.
abbrev EndsLine : Bytes → Type 0
EndsLine [] = ⊥
EndsLine (c ∷ []) = c ≡ b'\n'
EndsLine (c ∷ d ∷ r) = EndsLine (d ∷ r)

EndsLine-cons : (c : ℕ) (s : Bytes) → EndsLine s → EndsLine (c ∷ s)
EndsLine-cons c [] h = elim h [ ]
EndsLine-cons c (d ∷ s) h = h

NewlineLast-cons : (c : ℕ) (s : Bytes) → c ≢ b'\n' → NewlineLast s → NewlineLast (c ∷ s)
NewlineLast-cons c [] h hs = tt
NewlineLast-cons c (d ∷ s) h hs = (h, hs)

NewlineLast-tail : (c : ℕ) (s : Bytes) → NewlineLast (c ∷ s) → NewlineLast s
NewlineLast-tail c [] h = tt
NewlineLast-tail c (d ∷ s) (h, hs) = hs

fgets-NewlineLast : (n : ℕ) (file : Bytes) → NewlineLast (fgets n file).0
unfolding fgets
fgets-NewlineLast zero file = tt
fgets-NewlineLast (suc n) [] = tt
fgets-NewlineLast (suc n) (c ∷ file) = elim (Bool-cases (c == b'\n')) [
  | inl e ↦ rw e tt
  | inr e ↦ rw e (NewlineLast-cons c (fgets n file).0 (ground arith) (fgets-NewlineLast n file))
]

c_string-NewlineLast : (s : Bytes) → NewlineLast s → NewlineLast (c_string s)
unfolding c_string
c_string-NewlineLast [] h = tt
c_string-NewlineLast (c ∷ []) h = elim (Bool-cases (c == 0)) [
  | inl e ↦ rw (e, c_string) tt
  | inr e ↦ rw (e, c_string) tt
]
c_string-NewlineLast (c ∷ d ∷ s) (h, hs) = elim (Bool-cases (c == 0)) [
  | inl e ↦ rw (e, c_string) tt
  | inr e ↦
      rw (e, c_string) (NewlineLast-cons c (c_string (d ∷ s)) h (c_string-NewlineLast (d ∷ s) hs))
]

take-NewlineLast : (n : ℕ) (s : Bytes) → NewlineLast s → NewlineLast (take n s)
take-NewlineLast zero s h = tt
take-NewlineLast (suc n) [] h = tt
take-NewlineLast (suc zero) (c ∷ s) h = tt
take-NewlineLast (suc (suc n)) (c ∷ []) h = tt
take-NewlineLast (suc (suc n)) (c ∷ d ∷ s) (h, hs) = (h, take-NewlineLast (suc n) (d ∷ s) hs)

-- No newline is left where the last byte is not white space.
no_newline : (s : Bytes) → NewlineLast s → EndsDark s → All (λ c. c ≢ b'\n') s
unfolding is_space
no_newline [] h dark = tt
no_newline (c ∷ []) h dark = (ground arith, tt)
no_newline (c ∷ d ∷ s) (h, hs) dark = (h, no_newline (d ∷ s) hs dark)

-- A line of a literal block: no newline, and no white space at its end.
abbrev pub Line : Bytes → Type 0
Line body = All (λ c. c ≢ b'\n') body × EndsDark body

-- The body for a piece of the file: its bytes up to the first 0, without the white space at their end.
abbrev pub IsBody : Bytes → Bytes → Type 0
IsBody piece body = (space : Bytes) × (c_string piece ≡ body ++ space) × Blank space × Line body

dump_body-IsBody : (piece : Bytes) → NewlineLast piece → IsBody piece (dump_body piece)
dump_body-IsBody piece h =
    let (within, dark, blank) = strlen_chomp_lem (c_string piece) in
    (
      drop (strlen_chomp (c_string piece)) (c_string piece),
      sym (take-append-drop (strlen_chomp (c_string piece)) (c_string piece)),
      blank,
      (
        no_newline (dump_body piece)
            (take-NewlineLast (strlen_chomp (c_string piece)) (c_string piece)
              (c_string-NewlineLast piece h))
            dark,
        dark,
      ),
    )

-- A piece that is cut off a file before the rest: it goes up to a newline, has the `n` bytes that there
-- is room for, or goes up to the end.
abbrev pub IsPiece : ℕ → Bytes → Bytes → Type 0
IsPiece n piece rest =
    (piece ≢ [])
    × NewlineLast piece
    × (length piece ≤ n)
    × (EndsLine piece ⊎ ((length piece ≡ n) ⊎ (rest ≡ [])))

-- The bodies for all the pieces of a file, in order, and no others.
abbrev pub Copied : ℕ → Bytes → List Bytes → Type 0
Copied n file [] = file ≡ []
Copied n file (body ∷ bodies) =
    (piece : Bytes) × (rest : Bytes) × (file ≡ piece ++ rest)
    × IsPiece n piece rest
    × IsBody piece body
    × Copied n rest bodies

fgets-append_all : (n : ℕ) (file : Bytes) → file ≡ (fgets n file).0 ++ (fgets n file).1
unfolding fgets
fgets-append_all zero file = refl
fgets-append_all (suc n) [] = refl
fgets-append_all (suc n) (c ∷ file) = elim (Bool-cases (c == b'\n')) [
  | inl e ↦ rw e refl
  | inr e ↦ rw e (ap (λ s. c ∷ s) (fgets-append_all n file))
]

length-fgets : (n : ℕ) (file : Bytes) → length (fgets n file).0 ≤ n
unfolding fgets
length-fgets zero file = omega arith
length-fgets (suc n) [] = omega arith
length-fgets (suc n) (c ∷ file) = elim (Bool-cases (c == b'\n')) [
  | inl e ↦ rw e (omega arith)
  | inr e ↦ rw e (omega (arith, length-fgets n file))
]

fgets-stops :
    (n : ℕ) (file : Bytes)
    → EndsLine (fgets n file).0 ⊎ ((length (fgets n file).0 ≡ n) ⊎ ((fgets n file).1 ≡ []))
unfolding fgets
fgets-stops zero file = inr (inl refl)
fgets-stops (suc n) [] = inr (inr refl)
fgets-stops (suc n) (c ∷ file) = elim (Bool-cases (c == b'\n')) [
  | inl e ↦ rw e (inl (ground arith))
  | inr e ↦ elim (fgets-stops n file) [
    | inl line ↦ rw e (inl (EndsLine-cons c (fgets n file).0 line))
    | inr (inl full) ↦ rw e (inr (inl (ap suc full)))
    | inr (inr over) ↦ rw e (inr (inr over))
  ]
]

fgets-ne-nil : (n c : ℕ) (file : Bytes) → (fgets (suc n) (c ∷ file)).0 ≢ []
unfolding fgets
fgets-ne-nil n c file = elim (Bool-cases (c == b'\n')) [ inl e ↦ rw e cc | inr e ↦ rw e cc ]

fgets-IsPiece :
    (n c : ℕ) (file : Bytes)
    → IsPiece (suc n) (fgets (suc n) (c ∷ file)).0 (fgets (suc n) (c ∷ file)).1
fgets-IsPiece n c file = (
  fgets-ne-nil n c file,
  fgets-NewlineLast (suc n) (c ∷ file),
  length-fgets (suc n) (c ∷ file),
  fgets-stops (suc n) (c ∷ file),
)

-- The lines, each behind `front`.
abbrev pub block : Bytes → List Bytes → Bytes
block front [] = []
block front (body ∷ bodies) = (front ++ (body ++ codes "\n")) ++ block front bodies

abbrev IsBlock : Bytes → Bytes → Out → Type 0
IsBlock front file o =
    (bodies : List Bytes) × (o ≡ fputs (block front bodies)) × Copied dump_max file bodies

dump_lines-IsBlock :
    (fuel indent : ℕ) (file : Bytes)
    → length file < fuel
    → IsBlock (spaces (indent + 4)) file (dump_lines fuel indent file)
unfolding dump_lines ◌>>◌
dump_lines-IsBlock zero indent file h = absurd (omega arith)
dump_lines-IsBlock (suc fuel) indent [] h = ([], refl, refl)
dump_lines-IsBlock (suc fuel) indent (c ∷ file) h =
    let piece = (fgets dump_max (c ∷ file)).0 in
    let rest = (fgets dump_max (c ∷ file)).1 in
    let (bodies, same, copied) =
      dump_lines-IsBlock fuel indent rest (omega (arith, h, fgets_progress 4094 c file)) in
    (
      dump_body piece ∷ bodies,
      ap (λ o. fputs (spaces (indent + 4) ++ (dump_body piece ++ codes "\n")) >> o) same,
      (
        piece,
        rest,
        fgets-append_all dump_max (c ∷ file),
        fgets-IsPiece 4094 c file,
        dump_body-IsBody piece (fgets-NewlineLast dump_max (c ∷ file)),
        copied,
      ),
    )

-- A file that can be opened is copied to its end, however long it is, as a literal block. The file is
-- cut into pieces behind each newline, and where 4095 bytes have none; and for each piece, in order,
-- the block has one line, behind the same indentation: the bytes of the piece up to the first 0,
-- without the white space at their end, among them no newline.
pub dump_opened-IsBlock :
    (indent : ℕ) (file content : Bytes)
    → (bodies : List Bytes) × (dump_opened indent file (inr content)
        ≡ fputs (codes ": |\n" ++ block (spaces (indent + 4)) bodies))
      × Copied 4095 content bodies
unfolding dump_opened ◌>>◌
dump_opened-IsBlock indent file content =
    let (bodies, same, copied) =
      dump_lines-IsBlock (suc (length content)) indent content (omega arith) in
    (bodies, ap (λ o. fputs (codes ": |\n") >> o) same, copied)
