-- ===== src/Conf/Slots.antt =====
-- What a store to a slot of the configuration changes.
use crashinfo.Base.{◌≡◌, ◌≢◌, refl, arith, ℤ, List, Bytes, Option}
use crashinfo.Conf.{
  Conf, IntSlot, StrSlot, MultiSlot, get_int, set_int, get_str, set_str, get_multi, set_multi,
  get_maps, info_exists, info_output, info_filter,
}

pub get_int-set_int : (i : IntSlot) (v : ℤ) (c : Conf) → get_int i (set_int i v c) ≡ v
unfolding get_int set_int
get_int-set_int info_exists v c = refl
get_int-set_int _ v c = refl

pub get_str-set_str : (i : StrSlot) (v : Option Bytes) (c : Conf) → get_str i (set_str i v c) ≡ v
unfolding get_str set_str
get_str-set_str info_output v c = refl
get_str-set_str _ v c = refl

pub get_multi-set_multi :
    (i : MultiSlot) (v : List Bytes) (c : Conf) → get_multi i (set_multi i v c) ≡ v
unfolding get_multi set_multi
get_multi-set_multi info_filter v c = refl
get_multi-set_multi _ v c = refl

-- What two configurations agree on, kind by kind.
abbrev pub SameInts : Conf → Conf → Type 0
SameInts c d = (j : IntSlot) → get_int j c ≡ get_int j d

abbrev pub SameStrs : Conf → Conf → Type 0
SameStrs c d = (j : StrSlot) → get_str j c ≡ get_str j d

abbrev pub SameMultis : Conf → Conf → Type 0
SameMultis c d = (j : MultiSlot) → get_multi j c ≡ get_multi j d

abbrev pub SameMaps : Conf → Conf → Type 0
SameMaps c d = get_maps c ≡ get_maps d

pub set_int-ints :
    (i j : IntSlot) (v : ℤ) (c : Conf) → j ≢ i → get_int j (set_int i v c) ≡ get_int j c
unfolding get_int set_int
set_int-ints i j v c ne = ground arith

pub set_int-strs : (i : IntSlot) (v : ℤ) (c : Conf) → SameStrs (set_int i v c) c
unfolding set_int get_str
set_int-strs i v c j = ground arith

pub set_int-multis : (i : IntSlot) (v : ℤ) (c : Conf) → SameMultis (set_int i v c) c
unfolding set_int get_multi
set_int-multis i v c j = ground arith

pub set_int-maps : (i : IntSlot) (v : ℤ) (c : Conf) → SameMaps (set_int i v c) c
unfolding set_int get_maps
set_int-maps i v c = ground arith

pub set_str-ints : (i : StrSlot) (v : Option Bytes) (c : Conf) → SameInts (set_str i v c) c
unfolding set_str get_int
set_str-ints i v c j = ground arith

pub set_str-strs :
    (i j : StrSlot) (v : Option Bytes) (c : Conf) → j ≢ i → get_str j (set_str i v c) ≡ get_str j c
unfolding set_str get_str
set_str-strs i j v c ne = ground arith

pub set_str-multis : (i : StrSlot) (v : Option Bytes) (c : Conf) → SameMultis (set_str i v c) c
unfolding set_str get_multi
set_str-multis i v c j = ground arith

pub set_str-maps : (i : StrSlot) (v : Option Bytes) (c : Conf) → SameMaps (set_str i v c) c
unfolding set_str get_maps
set_str-maps i v c = ground arith

pub set_multi-ints : (i : MultiSlot) (v : List Bytes) (c : Conf) → SameInts (set_multi i v c) c
unfolding set_multi get_int
set_multi-ints i v c j = ground arith

pub set_multi-strs : (i : MultiSlot) (v : List Bytes) (c : Conf) → SameStrs (set_multi i v c) c
unfolding set_multi get_str
set_multi-strs i v c j = ground arith

pub set_multi-multis :
    (i j : MultiSlot) (v : List Bytes) (c : Conf)
    → j ≢ i
    → get_multi j (set_multi i v c) ≡ get_multi j c
unfolding set_multi get_multi
set_multi-multis i j v c ne = ground arith

pub set_multi-maps : (i : MultiSlot) (v : List Bytes) (c : Conf) → SameMaps (set_multi i v c) c
unfolding set_multi get_maps
set_multi-maps i v c = ground arith

-- A second store to a string is the one that counts.
pub set_str-set_str :
    (i : StrSlot) (v w : Option Bytes) (c : Conf) → set_str i w (set_str i v c) ≡ set_str i w c
unfolding set_str
set_str-set_str i v w c = ground arith

-- A second store to a list is the one that counts, and storing what is there changes nothing.
pub set_multi-set_multi :
    (i : MultiSlot) (v w : List Bytes) (c : Conf)
    → set_multi i w (set_multi i v c) ≡ set_multi i w c
unfolding set_multi
set_multi-set_multi i v w c = ground arith

pub set_multi-get_multi : (i : MultiSlot) (c : Conf) → set_multi i (get_multi i c) c ≡ c
unfolding set_multi get_multi
set_multi-get_multi info_filter c = refl
set_multi-get_multi _ c = refl
