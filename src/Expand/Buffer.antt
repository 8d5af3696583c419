-- ===== src/Expand/Buffer.antt =====
-- Reading the buffer, and what the stores change of it.
use crashinfo.Base.{
  ℕ, zero, suc, ◌+◌, ◌-◌, ◌<◌, [], ◌∷◌, ◌++◌, ◌≡◌, refl, sym, ◌∙◌, ap, subst, arith, Bytes, length,
  length-append,
}
use crashinfo.Expand.{Cells, update, copy, path_last}

-- The `n` bytes from `j` on.
abbrev pub slice : Cells → ℕ → ℕ → Bytes
slice path j zero = []
slice path j (suc n) = path j ∷ slice path (suc j) n

-- Cells up to `i` are left as they are.
abbrev pub SameBelow : ℕ → Cells → Cells → Type 0
SameBelow i path path' = (k : ℕ) → k < i → path' k ≡ path k

pub slice-update :
    (path : Cells) (k v j n : ℕ) → k < j → slice (update path k v) j n ≡ slice path j n
slice-update path k v j zero h = refl
slice-update path k v j (suc n) h = ground (arith, slice-update path k v (suc j) n)

pub update_self : (path : Cells) (j v : ℕ) → update path j v j ≡ v
update_self path j v = ground arith

pub update-SameBelow : (path : Cells) (j v : ℕ) → SameBelow j path (update path j v)
update-SameBelow path j v k h = ground arith

pub copy-SameBelow : (path : Cells) (j : ℕ) (text : Bytes) → SameBelow j path (copy path j text)
unfolding copy
copy-SameBelow path j [] k h = refl
copy-SameBelow path j (b ∷ text) k h =
    copy-SameBelow (update path j b) (suc j) text k (omega arith) ∙ update-SameBelow path j b k h

-- A store in front of a piece that is read.
pub slice-update_front :
    (path : Cells) (j v n : ℕ) → slice (update path j v) j (suc n) ≡ v ∷ slice path (suc j) n
slice-update_front path j v n =
    λ i. update_self path j v i ∷ slice-update path j v (suc j) n (omega arith) i

-- A text copied in front of a piece that is read.
pub slice-copy :
    (path : Cells) (j n k m : ℕ) (text : Bytes)
    → j + length text ≡ k
    → length text + n ≡ m
    → slice (copy path j text) j m ≡ text ++ slice path k n
unfolding copy
slice-copy path j n k m [] e f =
    let e' : j ≡ k = omega arith in let f' : m ≡ n = omega arith in λ i. slice path (e' i) (f' i)
slice-copy path j n k zero (b ∷ text) e f = absurd (omega arith)
slice-copy path j n k (suc m) (b ∷ text) e f =
    let first =
      copy-SameBelow (update path j b) (suc j) text j (omega arith) ∙ update_self path j b in
    let others =
      slice-copy (update path j b) (suc j) n k m text (omega arith) (omega arith)
      ∙ ap (λ t. text ++ t) (slice-update path j b k n (omega arith)) in
    λ i. first i ∷ others i

-- `text` fills the buffer behind `j`.
pub record Tail (path : Cells) (j : ℕ) (text : Bytes) : Type 0 where
  pub room : j + length text ≡ path_last
  pub holds : slice path (suc j) (length text) ≡ text

suc_pred : (k : ℕ) → 0 < k → k ≡ suc (k - 1)
suc_pred k h = omega arith

pub Tail-update :
    (path : Cells) (j v : ℕ) (text : Bytes)
    → 0 < j
    → Tail path j text
    → Tail (update path j v) (j - 1) (v ∷ text)
Tail-update path zero v text h t = absurd (omega arith)
Tail-update path (suc j) v text h t = record {
  room = let r = t.room in omega arith;
  holds =
      subst (λ k. slice (update path (suc j) v) k (suc (length text)) ≡ v ∷ text)
        (suc_pred (suc j) h)
        (slice-update_front path (suc j) v (length text) ∙ ap (λ r. v ∷ r) t.holds);
}

pub Tail-copy :
    (path : Cells) (j : ℕ) (front text : Bytes)
    → length front < j + 1
    → Tail path j text
    → Tail (copy path (j + 1 - length front) front) (j + 1 - length front - 1) (front ++ text)
Tail-copy path j front text h t = record {
  room = let r = t.room in omega (arith, length-append {0} front text);
  holds =
      let start = j + 1 - length front in
      subst (λ k. slice (copy path start front) k (length (front ++ text)) ≡ front ++ text)
        (suc_pred start (omega arith))
        (slice-copy path start (length text) (suc j) (length (front ++ text)) front (omega arith)
            (sym (length-append front text))
          ∙ ap (λ r. front ++ r) t.holds);
}
