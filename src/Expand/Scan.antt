-- ===== src/Expand/Scan.antt =====
-- What a file name expands to, read from left to right. crashinfo.1 gives `@P` for the process, which
-- the code keeps as it is, and takes `@p` for.
use crashinfo.Base.{
  show_int, ℕ, zero, suc, ◌%◌, Bool, true, false, not, ◌&&◌, ◌==◌, if◌then◌else◌, [], ◌∷◌, ◌++◌,
  ◌≡◌, refl, sym, ◌∙◌, ap, arith, Bytes, take, foldl,
}
use crashinfo.Expand.{Cells, Env, esc, show_padded, seq_len, escape_run, is_escape}

-- The executable's file name: what follows the last '/'.
unfoldable pub base_name : Bytes → Bytes
base_name = foldl (λ out c. if c == b'/' then [] else out ++ c ∷ []) []

-- The executable's path, with '!' for '/'.
unfoldable pub banged : Bytes → Bytes
banged = foldl (λ out c. out ++ (if c == b'/' then b'!' else c) ∷ []) []

-- What an ESC and the byte `c` stand for, with the executable `exe`: any other byte keeps both.
unfoldable pub wildcard : Env → Bytes → ℕ → Bytes
wildcard e exe c =
    if c == esc
    then esc ∷ []
    else if c == b'p'
    then show_int e.pid
    else if c == b'Q'
    then take (seq_len e) (show_padded (seq_len e) e.counter)
    else if c == b'e'
    then base_name exe
    else if c == b'E'
    then banged exe
    else esc ∷ c ∷ []

-- Whether an ESC waits for its second byte, and the expansion so far.
abbrev pub Scan : Type 0
Scan = Bool × Bytes

unfoldable pub scan_byte : Env → Bytes → Scan → ℕ → Scan
scan_byte e exe (true, out) c = (false, out ++ wildcard e exe c)
scan_byte e exe (false, out) c = if c == esc then (true, out) else (false, out ++ c ∷ [])

-- An ESC that stands last is kept.
abbrev pub finish : Scan → Bytes
finish (waits, out) = if waits then out ++ esc ∷ [] else out

unfoldable pub expansion : Env → Bytes → Bytes → Bytes
expansion e exe text = finish (foldl (scan_byte e exe) (false, []) text)

pub scan_byte_waits :
    (e : Env) (exe : Bytes) (s : Scan) (c : ℕ) → (scan_byte e exe s c).0 ≡ not s.0 && c == esc
unfolding scan_byte
scan_byte_waits e exe (true, out) c = refl
scan_byte_waits e exe (false, out) c = ground arith

odd_step : (b : Bool) (r : ℕ) → ((if b then suc r else 0) % 2 == 1) ≡ not (r % 2 == 1) && b
odd_step b r = ground arith

-- An ESC behind a run of ESC is itself an escape if the run is even.
is_escape-suc :
    (raw : Cells) (k : ℕ) → is_escape raw (suc k) ≡ not (is_escape raw k) && raw (suc k) == esc
unfolding is_escape escape_run
is_escape-suc raw k = odd_step (raw (suc k) == esc) (escape_run raw (suc k))

module _ (e : Env) (exe : Bytes) (raw : Cells) where
  -- The scan of the bytes 1 to k of the buffer.
  unfoldable pub scan_to : ℕ → Scan
  scan_to zero = (false, [])
  scan_to (suc k) = scan_byte e exe (scan_to k) (raw (suc k))

  -- Where the first byte is no ESC, `is_escape`, which counts ESC backwards from a position, holds
  -- there exactly if a reader from left to right has an ESC that waits for its second byte.
  pub scan_to-is_escape : (k : ℕ) → (raw 0 == esc) ≡ false → (scan_to k).0 ≡ is_escape raw k
  unfolding scan_to
  scan_to-is_escape zero h = unfold is_escape escape_run in ground arith
  scan_to-is_escape (suc k) h =
      scan_byte_waits e exe (scan_to k) (raw (suc k))
      ∙ ap (λ b. not b && raw (suc k) == esc) (scan_to-is_escape k h)
      ∙ sym (is_escape-suc raw k)

  -- A byte that is not escaped and leaves no ESC waiting stands for itself.
  pub scan_to_plain :
      (k : ℕ)
      → (scan_to k).0 ≡ false
      → (scan_to (suc k)).0 ≡ false
      → (scan_to (suc k)).1 ≡ (scan_to k).1 ++ raw (suc k) ∷ []
  unfolding scan_to scan_byte
  scan_to_plain k a b = plain (scan_to k) a b
    where
      plain :
          (s : Scan)
          → s.0 ≡ false
          → (scan_byte e exe s (raw (suc k))).0 ≡ false
          → (scan_byte e exe s (raw (suc k))).1 ≡ s.1 ++ raw (suc k) ∷ []
      plain (true, out) a b = cc
      plain (false, out) a b = ground arith

  -- An escaped byte stands behind an ESC, and the two for their expansion.
  pub scan_to_escaped :
      (k : ℕ)
      → (scan_to (suc k)).0 ≡ true
      → (raw (suc k) ≡ esc)
        × ((scan_to k).0 ≡ false)
        × ((scan_to (suc (suc k))).1 ≡ (scan_to k).1 ++ wildcard e exe (raw (suc (suc k))))
  unfolding scan_to scan_byte
  scan_to_escaped k h = escaped (scan_to k) h
    where
      escaped :
          (s : Scan)
          → (scan_byte e exe s (raw (suc k))).0 ≡ true
          → (raw (suc k) ≡ esc)
            × (s.0 ≡ false)
            × ((scan_byte e exe (scan_byte e exe s (raw (suc k))) (raw (suc (suc k)))).1
                ≡ s.1 ++ wildcard e exe (raw (suc (suc k))))
      escaped (true, out) h = cc
      escaped (false, out) h = ground arith
