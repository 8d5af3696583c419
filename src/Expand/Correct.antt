-- ===== src/Expand/Correct.antt =====
-- The loop of `open_output` against the reading of the file name from left to right.
use crashinfo.Base.{
  ℕ, zero, suc, ◌+◌, ◌-◌, ◌%◌, ◌≤◌, ◌<◌, true, false, ◌==◌, [], ◌∷◌, ◌++◌, ◌≡◌, refl, sym, ◌∙◌, ap,
  subst, arith, Bytes, length, length-append, append_assoc, some, Bool-cases, inl, inr,
}
use crashinfo.Expand.{
  Cells, Env, Outcome, next, done, too_long, undefined, Messages, update, path_last, esc,
  escape_run, is_escape, expand_wildcard, expand_step, expand_loop,
}
use crashinfo.Expand.Buffer.{
  slice, slice-update_front, SameBelow, update-SameBelow, Tail, Tail-update,
}
use crashinfo.Expand.Scan.{wildcard, scan_to, scan_to-is_escape, scan_to_plain, scan_to_escaped}
use crashinfo.Expand.Wildcard.{Wild, expand_wildcard-Wild}

-- Two buffers agree up to `i`.
abbrev pub Agree : ℕ → Cells → Cells → Type 0
Agree i path raw = (k : ℕ) → k ≤ i → path k ≡ raw k

escape_run-Agree :
    (i : ℕ) (path raw : Cells) → SameBelow i raw path → escape_run path i ≡ escape_run raw i
unfolding escape_run
escape_run-Agree zero path raw h = refl
escape_run-Agree (suc i) path raw h =
    rw (h i (omega arith), escape_run-Agree i path raw (λ k l. h k (omega arith))) refl

is_escape-Agree : (i : ℕ) (path raw : Cells) → Agree i path raw → is_escape path i ≡ is_escape raw i
unfolding is_escape
is_escape-Agree i path raw h =
    ap (λ n. n % 2 == 1) (escape_run-Agree (suc i) path raw (λ k l. h k (omega arith)))

step_waits :
    (e : Env) (path : Cells) (i j : ℕ) (ms : Messages)
    → is_escape path (i - 1) ≡ true
    → expand_step e path i j ms ≡ expand_wildcard e path i j ms
unfolding expand_step
step_waits e path i j ms h = rw h refl

step_plain :
    (e : Env) (path : Cells) (i j : ℕ) (ms : Messages)
    → is_escape path (i - 1) ≡ false
    → expand_step e path i j ms ≡ next (update path j (path i)) (i - 1) (j - 1) ms
unfolding expand_step
step_plain e path i j ms h = rw h refl

module _ (e : Env) (exe : Bytes) (raw : Cells) where
  -- Where the loop stands: the bytes up to `i` are still those of the name, those behind `j` are
  -- `held`, and no ESC waits at `i`.
  pub record Inv (path : Cells) (i j : ℕ) (held : Bytes) : Type 0 where
    pub agree : Agree i path raw
    pub below : i ≤ j
    pub tail : Tail path j held
    pub ready : (scan_to e exe raw i).0 ≡ false

  -- How the loop ends: with '/', the expansion of the bytes up to `i`, and `held`, up to the end of the
  -- buffer; or without room for them.
  abbrev pub Spells : ℕ → Bytes → Outcome → Type 0
  Spells i held (done path' j' ms) =
      let text = (scan_to e exe raw i).1 ++ held in
      (j' + length text ≡ path_last) × (slice path' j' (suc (length text)) ≡ b'/' ∷ text)
  Spells i held too_long = path_last ≤ i + length ((scan_to e exe raw i).1 ++ held)
  Spells i held _ = ⊥

  Spells-earlier :
      (i i' : ℕ) (held held' : Bytes) (o : Outcome)
      → i' ≤ i
      → (scan_to e exe raw i').1 ++ held' ≡ (scan_to e exe raw i).1 ++ held
      → Spells i' held' o
      → Spells i held o
  Spells-earlier i i' held held' (done path' j' ms) le same h =
      subst
        (λ text.
          (j' + length text ≡ path_last) × (slice path' j' (suc (length text)) ≡ b'/' ∷ text))
        same h
  Spells-earlier i i' held held' too_long le same h =
      omega (arith, ap (λ (t : Bytes). length t) same)
  Spells-earlier i i' held held' (next path' i'' j' ms) le same h = h
  Spells-earlier i i' held held' undefined le same h = h

  module _ (known : e.exe ≡ some exe) (no_esc : (raw 0 == esc) ≡ false) where
    scan_of_escaped :
        (k : ℕ)
        → is_escape raw (suc k) ≡ true
        → (raw (suc k) ≡ esc)
          × ((scan_to e exe raw k).0 ≡ false)
          × ((scan_to e exe raw (suc (suc k))).1
              ≡ (scan_to e exe raw k).1 ++ wildcard e exe (raw (suc (suc k))))
    scan_of_escaped k waits =
        scan_to_escaped e exe raw k (scan_to-is_escape e exe raw (suc k) no_esc ∙ waits)

    escaped_byte :
        (fuel k : ℕ) (held : Bytes) (path : Cells) (j : ℕ) (ms : Messages)
        → ((i' j' : ℕ) (path' : Cells) (held' : Bytes) (ms' : Messages)
            → i' < suc fuel
            → Inv path' i' j' held'
            → Spells i' held' (expand_loop e (suc fuel) (next path' i' j' ms')))
        → k < suc fuel
        → is_escape raw (suc k) ≡ true
        → Inv path (suc (suc k)) j held
        → (o : Outcome) → Wild (suc (suc k)) path j held (wildcard e exe (path (suc (suc k)))) o
        → Spells (suc (suc k)) held (expand_loop e (suc fuel) o)
    unfolding expand_loop
    escaped_byte fuel k held path j ms ih less waits inv (next path' i' j' ms')
          (i_is, same, room, t) =
        let i_eq : i' ≡ k = omega arith in
        let (_, quiet, grown) = scan_of_escaped k waits in
        let byte = inv.agree (suc (suc k)) (omega arith) in
        let text = wildcard e exe (path (suc (suc k))) in
        let whole : (scan_to e exe raw i').1 ++ (text ++ held)
            ≡ (scan_to e exe raw (suc (suc k))).1 ++ held =
          sym (append_assoc (scan_to e exe raw i').1 text held)
          ∙ ap (λ t. t ++ held)
              (ap (λ n. (scan_to e exe raw n).1 ++ text) i_eq
                ∙ ap (λ c. (scan_to e exe raw k).1 ++ wildcard e exe c) byte
                ∙ sym grown) in
        Spells-earlier (suc (suc k)) i' held (text ++ held)
          (expand_loop e (suc fuel) (next path' i' j' ms')) (omega arith) whole
          (ih i' j' path' (text ++ held) ms' (omega arith) (record {
            agree = λ n l. same n (omega arith) ∙ inv.agree n (omega arith);
            below = omega arith;
            tail = t;
            ready = ap (λ n. (scan_to e exe raw n).0) i_eq ∙ quiet;
          }))
    escaped_byte fuel k held path j ms ih less waits inv too_long w =
        let (_, quiet, grown) = scan_of_escaped k waits in
        let byte = inv.agree (suc (suc k)) (omega arith) in
        let text = wildcard e exe (path (suc (suc k))) in
        let whole : (scan_to e exe raw (suc (suc k))).1 ≡ (scan_to e exe raw k).1 ++ text =
          grown ∙ ap (λ c. (scan_to e exe raw k).1 ++ wildcard e exe c) (sym byte) in
        let room = inv.tail.room in
        omega (
          arith,
          length-append {0} (scan_to e exe raw (suc (suc k))).1 held,
          ap (λ (t : Bytes). length t) whole,
          length-append {0} (scan_to e exe raw k).1 text,
        )
    escaped_byte fuel k held path j ms ih less waits inv (done path' j' ms') w = absurd w
    escaped_byte fuel k held path j ms ih less waits inv undefined w = absurd w

    wildcard_round :
        (fuel i : ℕ) (held : Bytes) (path : Cells) (j : ℕ) (ms : Messages)
        → ((i' j' : ℕ) (path' : Cells) (held' : Bytes) (ms' : Messages)
            → i' < suc fuel
            → Inv path' i' j' held'
            → Spells i' held' (expand_loop e (suc fuel) (next path' i' j' ms')))
        → i < suc fuel
        → is_escape raw i ≡ true
        → Inv path (suc i) j held
        → Spells (suc i) held (expand_loop e (suc fuel) (expand_wildcard e path (suc i) j ms))
    wildcard_round fuel zero held path j ms ih less waits inv =
        cc (scan_to-is_escape e exe raw 0 no_esc ∙ waits, start_quiet)
      where
        start_quiet : (scan_to e exe raw 0).0 ≡ false
        start_quiet = unfold scan_to in refl
    wildcard_round fuel (suc k) held path j ms ih less waits inv =
        let below = inv.below in
        let front : path (suc (suc k) - 1) ≡ esc =
          ap path (omega arith) ∙ inv.agree (suc k) (omega arith) ∙ (scan_of_escaped k waits).0 in
        escaped_byte fuel k held path j ms ih (omega arith) waits inv
          (expand_wildcard e path (suc (suc k)) j ms)
          (expand_wildcard-Wild path (suc (suc k)) j held (omega arith) below inv.tail e exe ms
            known front)

    -- A byte that stands for itself.
    plain_byte :
        (i j : ℕ) (held : Bytes) (path : Cells)
        → is_escape raw i ≡ false
        → Inv path (suc i) j held
        → Inv (update path j (path (suc i))) i (j - 1) (path (suc i) ∷ held)
          × ((scan_to e exe raw i).1 ++ path (suc i) ∷ held ≡ (scan_to e exe raw (suc i)).1 ++ held)
    plain_byte i j held path plain inv =
        let quiet = scan_to-is_escape e exe raw i no_esc ∙ plain in
        let byte = inv.agree (suc i) (omega arith) in
        let below = inv.below in
        (
          record {
            agree = λ n l.
                update-SameBelow path j (path (suc i)) n (omega arith) ∙ inv.agree n (omega arith);
            below = omega arith;
            tail = Tail-update path j (path (suc i)) held (omega arith) inv.tail;
            ready = quiet;
          },
          ap (λ c. (scan_to e exe raw i).1 ++ c ∷ held) byte
              ∙ sym (
                  ap (λ t. t ++ held) (scan_to_plain e exe raw i quiet inv.ready)
                  ∙ append_assoc (scan_to e exe raw i).1 (raw (suc i) ∷ []) held),
        )

    pub loop-Spells :
        (fuel i j : ℕ) (path : Cells) (held : Bytes) (ms : Messages)
        → i < fuel
        → Inv path i j held
        → Spells i held (expand_loop e fuel (next path i j ms))
    unfolding expand_loop
    loop-Spells zero i j path held ms less inv = absurd (omega arith)
    loop-Spells (suc fuel) zero j path held ms less inv =
        unfold scan_to in
        (
          inv.tail.room,
          slice-update_front path j b'/' (length held) ∙ ap (λ t. b'/' ∷ t) inv.tail.holds,
        )
    loop-Spells (suc zero) (suc i) j path held ms less inv = absurd (omega arith)
    loop-Spells (suc (suc fuel)) (suc i) j path held ms less inv =
        let before : suc i - 1 ≡ i = omega arith in
        let same =
          ap (is_escape path) before
          ∙ is_escape-Agree i path raw (λ k l. inv.agree k (omega arith)) in
        elim (Bool-cases (is_escape path (suc i - 1))) [
          | inl waits ↦
              subst (λ o. Spells (suc i) held (expand_loop e (suc fuel) o))
                (sym (step_waits e path (suc i) j ms waits))
                (wildcard_round fuel i held path j ms (loop-Spells (suc fuel)) (omega arith)
                  (sym same ∙ waits) inv)
          | inr plain ↦
              let (inv', whole) = plain_byte i j held path (sym same ∙ plain) inv in
              subst (λ o. Spells (suc i) held (expand_loop e (suc fuel) o))
                (sym (step_plain e path (suc i) j ms plain))
                (subst
                  (λ n.
                    Spells (suc i) held
                      (expand_loop e (suc fuel) (next (update path j (path (suc i))) n (j - 1) ms)))
                  (sym before)
                  (Spells-earlier (suc i) i held (path (suc i) ∷ held) _ (omega arith) whole (
                    loop-Spells (suc fuel) i (j - 1) (update path j (path (suc i)))
                      (path (suc i) ∷ held) ms (omega arith) inv')))
        ]
