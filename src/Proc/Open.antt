-- ===== src/Proc/Open.antt =====
-- `open_proc` of proc.c. What `openat` and `fdopen` give is an argument: a descriptor or the text of
-- `errno`, and the text of `errno` where there is no stream.
use crashinfo.Base.{ℕ, List, [], ◌∷◌, ◌++◌, ◌≡◌, refl, Bytes, Option, none, some, ◌⊎◌, inl, inr}

-- The stream, by its descriptor, or `errno` behind the call; and the descriptors that are closed.
unfoldable pub open_proc : Bytes ⊎ ℕ → Option Bytes → (Bytes ⊎ ℕ) × List ℕ
open_proc (inl error) stream = (inl error, [])
open_proc (inr fd) none = (inr fd, [])
open_proc (inr fd) (some error) = (inl error, fd ∷ [])

abbrev taken : Bytes ⊎ ℕ → List ℕ
taken (inl error) = []
taken (inr fd) = fd ∷ []

-- The descriptor is that of the stream, or it is closed: none is lost where there is no stream.
open_proc-taken :
    (fd : Bytes ⊎ ℕ) (stream : Option Bytes)
    → taken (open_proc fd stream).0 ++ (open_proc fd stream).1 ≡ taken fd
unfolding open_proc
open_proc-taken (inl error) stream = refl
open_proc-taken (inr fd) none = refl
open_proc-taken (inr fd) (some error) = refl
