-- ===== src/Output/Distinct.antt =====
-- The names of sequence mode differ from each other.
use mathlib.Core.List.{foldl-append}
use crashinfo.Base.{
  some, ℕ, ◌-◌, not, ◌&&◌, drop, ◌<◌, Bool, true, false, ◌==◌, if◌then◌else◌, [], ◌∷◌, ◌++◌, ◌≡◌,
  ◌≢◌, refl, sym, ◌∙◌, ap, arith, Bytes, take, foldl, length, length-append, append-nil, Bool-cases,
  inl, inr,
}
use crashinfo.Util.Chomp.{take-append}
use crashinfo.Expand.{Env, esc, intlen, show_padded, seq_len}
use crashinfo.Expand.Scan.{Scan, wildcard, scan_byte, scan_byte_waits, finish, expansion}
use crashinfo.Expand.Counter.{length-show-intlen, length-show_padded, show_padded-injective}
use crashinfo.Output.Named.{at_counter, expansions, HasRoom, expansions-name}

append-prefix : (xs ys a b : Bytes) → length xs ≡ length ys → xs ++ a ≡ ys ++ b → xs ≡ ys
append-prefix xs ys a b same e =
    sym (take-append xs a)
    ∙ ap (λ n. take n (xs ++ a)) same
    ∙ ap (take (length ys)) e
    ∙ take-append ys b

append-cancel : (xs a b : Bytes) → xs ++ a ≡ xs ++ b → a ≡ b
append-cancel [] a b e = e
append-cancel (x ∷ xs) a b e = append-cancel xs a b (ap (drop 1) e)

-- Whether an ESC waits behind a text.
abbrev pub waiting : Bool → Bytes → Bool
waiting b [] = b
waiting b (c ∷ t) = waiting (not b && c == esc) t

-- The wild card of the counter stands somewhere in the text.
abbrev pub HasCounter : Bytes → Type 0
HasCounter t = (u : Bytes) × (v : Bytes) × (t ≡ u ++ esc ∷ b'Q' ∷ v) × (waiting false u ≡ false)

scan-waiting :
    (e : Env) (exe t : Bytes) (s : Scan) → (foldl (scan_byte e exe) s t).0 ≡ waiting s.0 t
scan-waiting e exe [] s = refl
scan-waiting e exe (c ∷ t) s =
    scan-waiting e exe t (scan_byte e exe s c) ∙ ap (λ b. waiting b t) (scan_byte_waits e exe s c)

module _ (e : Env) (exe : Bytes) (i j : ℕ) where
  abbrev at_i : Env
  at_i = at_counter e i

  abbrev at_j : Env
  at_j = at_counter e j

  -- Two scans that have written as much.
  record AreAlike (s s' : Scan) : Type 0 where
    waits : s.0 ≡ s'.0
    same : length s.1 ≡ length s'.1

  abbrev width : ℕ
  width = intlen (e.exists_seq - 1)

  counter_text :
      (n : ℕ)
      → n < e.exists_seq
      → take (seq_len (at_counter e n)) (show_padded (seq_len (at_counter e n)) n)
        ≡ show_padded width n
  counter_text n h = rw fixed (
      ap (λ k. take k (show_padded width n)) (sym full)
      ∙ ap (take (length (show_padded width n))) (sym (append-nil (show_padded width n)))
      ∙ take-append (show_padded width n) [])
    where
      fixed : seq_len (at_counter e n) ≡ width
      fixed = unfold seq_len in ground arith

      full : length (show_padded width n) ≡ width
      full = length-show_padded width n (length-show-intlen n (e.exists_seq - 1) (omega arith))

  module _ (i_less : i < e.exists_seq) (j_less : j < e.exists_seq) where
    length-counter_text : length (show_padded width i) ≡ length (show_padded width j)
    length-counter_text =
        length-show_padded width i (length-show-intlen i (e.exists_seq - 1) (omega arith))
        ∙ sym (length-show_padded width j (length-show-intlen j (e.exists_seq - 1) (omega arith)))

    length-wildcard : (c : ℕ) → length (wildcard at_i exe c) ≡ length (wildcard at_j exe c)
    unfolding wildcard
    length-wildcard c =
        rw (counter_text i i_less, counter_text j j_less) (ground (arith, length-counter_text))

    scan_byte-AreAlike :
        (c : ℕ) (s s' : Scan)
        → AreAlike s s'
        → AreAlike (scan_byte at_i exe s c) (scan_byte at_j exe s' c)
    unfolding scan_byte
    scan_byte-AreAlike c (true, out) (true, out') h = record {
      waits = refl;
      same =
          let q = h.same in
          omega (
            arith,
            length-append out (wildcard at_i exe c),
            length-append out' (wildcard at_j exe c),
            length-wildcard c,
          );
    }
    scan_byte-AreAlike c (false, out) (false, out') h = elim (Bool-cases (c == esc)) [
      | inl here ↦ rw here (record { waits = refl; same = h.same })
      | inr other ↦ rw other (record {
        waits = refl;
        same =
            let q = h.same in
            omega (arith, length-append out (c ∷ []), length-append out' (c ∷ []));
      })
    ]
    scan_byte-AreAlike c (true, out) (false, out') h = let q = h.waits in cc
    scan_byte-AreAlike c (false, out) (true, out') h = let q = h.waits in cc

    foldl-AreAlike :
        (t : Bytes) (s s' : Scan)
        → AreAlike s s'
        → AreAlike (foldl (scan_byte at_i exe) s t) (foldl (scan_byte at_j exe) s' t)
    foldl-AreAlike [] s s' h = h
    foldl-AreAlike (c ∷ t) s s' h =
        foldl-AreAlike t (scan_byte at_i exe s c) (scan_byte at_j exe s' c)
          (scan_byte-AreAlike c s s' h)

    -- What has come apart stays apart.
    scan_byte-apart :
        (c : ℕ) (s s' : Scan)
        → AreAlike s s'
        → (scan_byte at_i exe s c).1 ≡ (scan_byte at_j exe s' c).1
        → s.1 ≡ s'.1
    unfolding scan_byte
    scan_byte-apart c (true, out) (true, out') h e = append-prefix out out' _ _ h.same e
    scan_byte-apart c (false, out) (false, out') h e = plain (c == esc) e
      where
        plain :
            (b : Bool)
            → (let s : Scan = if b then (true, out) else (false, out ++ c ∷ []) in s).1
              ≡ (let s : Scan = if b then (true, out') else (false, out' ++ c ∷ []) in s).1
            → out ≡ out'
        plain true e = e
        plain false e = append-prefix out out' _ _ h.same e
    scan_byte-apart c (true, out) (false, out') h e = let q = h.waits in cc
    scan_byte-apart c (false, out) (true, out') h e = let q = h.waits in cc

    foldl-apart :
        (t : Bytes) (s s' : Scan)
        → AreAlike s s'
        → (foldl (scan_byte at_i exe) s t).1 ≡ (foldl (scan_byte at_j exe) s' t).1
        → s.1 ≡ s'.1
    foldl-apart [] s s' h e = e
    foldl-apart (c ∷ t) s s' h e = scan_byte-apart c s s' h (
        foldl-apart t (scan_byte at_i exe s c) (scan_byte at_j exe s' c)
          (scan_byte-AreAlike c s s' h) e)

    finish-apart : (s s' : Scan) → AreAlike s s' → finish s ≡ finish s' → s.1 ≡ s'.1
    finish-apart (true, out) (true, out') h e = append-prefix out out' _ _ h.same e
    finish-apart (false, out) (false, out') h e = e
    finish-apart (true, out) (false, out') h e = let q = h.waits in cc
    finish-apart (false, out) (true, out') h e = let q = h.waits in cc

    -- Behind the wild card, the scans agree only if the counters do.
    counter-apart :
        (s s' : Scan)
        → s.0 ≡ false
        → AreAlike s s'
        → (foldl (scan_byte at_i exe) s (esc ∷ b'Q' ∷ [])).1
          ≡ (foldl (scan_byte at_j exe) s' (esc ∷ b'Q' ∷ [])).1
        → i ≡ j
    unfolding scan_byte wildcard
    counter-apart (false, out) (false, out') plain h e =
        let same = append-prefix out out' _ _ h.same e in
        show_padded-injective width i j (
          sym (counter_text i i_less)
          ∙ append-cancel out' _ _
              (ap (λ o. o ++ take (seq_len at_i) (show_padded (seq_len at_i) i)) (sym same) ∙ e)
          ∙ counter_text j j_less)
    counter-apart (true, out) s' plain h e = cc
    counter-apart (false, out) (true, out') plain h e = let q = h.waits in cc

    expansion-distinct :
        (t : Bytes) → HasCounter t → i ≢ j → expansion at_i exe t ≢ expansion at_j exe t
    unfolding expansion
    expansion-distinct t (u, v, parts, plain) ne same =
        let card : Bytes = esc ∷ b'Q' ∷ [] in
        let start : Scan = (false, []) in
        let before : Scan = foldl (scan_byte at_i exe) start u in
        let before' : Scan = foldl (scan_byte at_j exe) start u in
        let behind : Scan = foldl (scan_byte at_i exe) before card in
        let behind' : Scan = foldl (scan_byte at_j exe) before' card in
        let alike = foldl-AreAlike u start start (record { waits = refl; same = refl }) in
        let alike' = foldl-AreAlike card before before' alike in
        let whole =
          ap (foldl (scan_byte at_i exe) start) parts
          ∙ foldl-append (scan_byte at_i exe) start u (esc ∷ b'Q' ∷ v) in
        let whole' =
          ap (foldl (scan_byte at_j exe) start) parts
          ∙ foldl-append (scan_byte at_j exe) start u (esc ∷ b'Q' ∷ v) in
        ne (
          counter-apart before before' (scan-waiting at_i exe u start ∙ plain) alike (
            foldl-apart v behind behind' alike' (
              finish-apart (foldl (scan_byte at_i exe) behind v)
                (foldl (scan_byte at_j exe) behind' v) (foldl-AreAlike v behind behind' alike')
                (sym (ap finish whole) ∙ same ∙ ap finish whole'))))

    -- With a limit of the sequence, a template that has the wild card of the counter gives different
    -- names for different counters below the limit, where the executable is known and the names have
    -- room: sequence mode tries no name twice.
    pub expansions-distinct :
        (t : Bytes)
        → HasCounter t
        → e.exe ≡ some exe
        → HasRoom e exe t i
        → HasRoom e exe t j
        → i ≢ j
        → (expansions e (b'/' ∷ t) i).name ≢ (expansions e (b'/' ∷ t) j).name
    expansions-distinct t has known room room' ne same =
        expansion-distinct t has ne
          (cc (expansions-name e exe t i known room, expansions-name e exe t j known room'))
