-- ===== src/Spawn.antt =====
-- `spawn_proc` of main.c, in the child: how a command line is taken apart for `execvp`.
pub mod Arguments
pub mod Process
use crashinfo.Base.{
  ℕ, zero, suc, Bool, true, false, not, if◌then◌else◌, List, [], ◌∷◌, Bytes, codes, str_eq, Option,
  none, some,
}
use crashinfo.Conf.Text.{strtok}

-- `strtok`, first on the command and then on what it keeps: the token, and what is kept.
unfoldable pub next_token : Bytes → Option Bytes × Bytes
next_token kept = elim (strtok kept) [ none ↦ (none, []) | some (token, rest) ↦ (some token, rest) ]

-- `arg2 && strcmp(argv[i], "@2")`, on a token that is there.
abbrev choose_second : Option Bytes → Bytes → Bytes
choose_second none token = token
choose_second (some arg2) token = if not (str_eq token (codes "@2")) then arg2 else token

-- The tests on `argv[i]`, with the value that they leave in it. `none` is `strcmp` of a null pointer.
unfoldable pub choose : Option Bytes → Option Bytes → Option Bytes → Option (Option Bytes)
choose none none token = some token
choose (some arg1) arg2 none = none
choose none (some arg2) none = none
choose none arg2 (some token) = some (some (choose_second arg2 token))
choose (some arg1) arg2 (some token) =
    if not (str_eq token (codes "@1"))
    then some (some arg1)
    else some (some (choose_second arg2 token))

-- An entry in front of others, unless one of them is not reached.
abbrev pub put : Option (Option Bytes) → Option (List (Option Bytes)) → Option (List (Option Bytes))
put none args = none
put (some arg) none = none
put (some arg) (some args) = some (arg ∷ args)

-- The loop over `argv[i]`, with the number of rounds left.
unfoldable pub fill : Option Bytes → Option Bytes → ℕ → Bytes → Option (List (Option Bytes))
fill arg1 arg2 zero kept = some []
fill arg1 arg2 (suc n) kept =
    let (token, rest) = next_token kept in put (choose arg1 arg2 token) (fill arg1 arg2 n rest)

-- `ARRAY_SIZE(argv) - 2`, the rounds from 1 on.
abbrev pub rounds : ℕ
rounds = 30

-- `argv` without its last entry, which is always null.
unfoldable pub argv : Bytes → Option Bytes → Option Bytes → Option (List (Option Bytes))
argv cmd arg1 arg2 = let (exe, kept) = next_token cmd in put (some exe) (fill arg1 arg2 rounds kept)

-- What the program that is executed sees of an argument vector: the strings before the first null.
abbrev pub seen : List (Option Bytes) → List Bytes
seen [] = []
seen (none ∷ args) = []
seen (some arg ∷ args) = arg ∷ seen args
