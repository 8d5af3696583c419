-- ===== src/Output.antt =====
-- `open_output` of main.c up to its label `opened`, with `make_path`: which file it opens, by the mode
-- for a file that exists already. The calls of the system are a parameter, and so is the expansion of
-- the file name for a counter.
pub mod Sequence
pub mod Keep
pub mod Named
pub mod Distinct
use crashinfo.Base.{
  ℕ, zero, suc, ◌+◌, Bool, true, false, not, ◌&&◌, ◌||◌, List, [], ◌∷◌, ◌++◌, Bytes, codes, ℤ, pos,
  negsuc, leb_ℤ, ltb_ℤ, ◌==◌, if◌then◌else◌, Option, none, some, get_or,
}
use crashinfo.Log.{Priority}

abbrev pub Messages : Type 0
Messages = List (Priority × Bytes)

-- What follows O_WRONLY, O_CREAT and O_CLOEXEC in the flags of `open`.
pub data Flags : Type 0 where
  append_flag trunc_flag excl_flag : Flags

-- What `open` does: a descriptor, EEXIST, ENOENT, or an error with its text.
pub data Opened : Type 0 where
  descriptor : ℕ → Opened
  exist no_entry : Opened
  refused : Bytes → Opened

-- `strerror(errno)`
unfoldable pub error_text : Opened → Bytes
error_text (descriptor fd) = []
error_text exist = codes "File exists"
error_text no_entry = codes "No such file or directory"
error_text (refused text) = text

-- What `mkdir` does: 0, EEXIST, or an error with its text.
pub data Made : Type 0 where
  made present : Made
  rejected : Bytes → Made

-- The calls, on the state of the file system. `open_null` is `open` of /dev/null for writing, and the
-- first call of `open_devnull`.
pub record System (S : Type 0) : Type 0 where
  pub open_file : Bytes → Flags → S → Opened × S
  pub make_dir : Bytes → S → Made × S
  pub open_null : S → Opened × S

-- `c->exists`, but for CONF_EXISTS_DEFAULT, at which the code stops with an assertion.
pub data Mode : Type 0 where
  append overwrite keep sequence : Mode

unfoldable pub flags_of : Mode → Flags
flags_of append = append_flag
flags_of overwrite = trunc_flag
flags_of keep = excl_flag
flags_of sequence = excl_flag

-- The name that the wild cards expand to, unless it is too long, the buffer as it reads from its
-- start, which is what an error message shows, and what is logged for it.
pub record Expanded : Type 0 where
  pub name : Option Bytes
  pub shown : Bytes
  pub messages : Messages

-- How `open_output` ends: with the descriptor and `output_filename`, or at `err0`. `spent` is the end
-- of the fuel.
pub data Ending (S : Type 0) : Type 0 where
  opened : ℕ → Option Bytes → S → Messages → Ending S
  failed : S → Messages → Ending S
  spent : Ending S

abbrev pub crit : Messages → Bytes → Messages
crit ms text = ms ++ (Priority.crit, text) ∷ []

abbrev quoted : Bytes → Bytes
quoted t = codes "'" ++ (t ++ codes "'")

module _ {S : Type 0} (sys : System S) where
  -- The loop of `make_path`, with the bytes before `p` and those from `p` on; whether it succeeds.
  unfoldable pub path_loop : Bytes → Bytes → S → Messages → Bool × S × Messages
  path_loop before [] s ms = (true, s, ms)
  path_loop before (c ∷ rest) s ms =
      let on = path_loop (before ++ c ∷ []) rest in
      elim (c == b'/' && not (get_or before 0 0 == 0)) [
        | false ↦ on s ms
        | true ↦
            let (done, s') = sys.make_dir before s in
            elim done [
              | rejected text ↦ (
                false,
                s',
                crit ms
                    (codes "Can't create directory " ++ (quoted before ++ (codes ": " ++ text))),
              )
              | _ ↦ on s' ms
            ]
      ]

  unfoldable pub make_path : Bytes → S → Messages → Bool × S × Messages
  make_path path = path_loop [] path

  -- `open` of /dev/null in keep mode; the file's name is kept.
  unfoldable pub open_ignored : Bytes → S → Messages → Ending S
  open_ignored name s ms =
      let (result, s') = sys.open_null s in
      elim result [
        | descriptor fd ↦ opened fd (some name) s' ms
        | error ↦ failed s' (crit ms (codes "Can't open /dev/null: " ++ error_text error))
      ]

  -- Whether the sequence goes on at `counter`: `counter < c->exists_seq || c->exists_seq <= 0`
  abbrev pub goes_on : ℕ → ℤ → Bool
  goes_on counter limit = ltb_ℤ (pos counter) limit || leb_ℤ limit (pos 0)

  -- `log_crit("Can't open '%s': %s", path, strerror(errno))` and `goto err0`
  abbrev pub cannot_open : Bytes → Opened → S → Messages → Ending S
  cannot_open shown error s ms =
      failed s (crit ms (codes "Can't open " ++ (quoted shown ++ (codes ": " ++ error_text error))))

  -- The message of keep mode. Its `%s` has no argument; nothing stands for it here.
  abbrev pub ignoring : Messages → Messages
  ignoring ms = ms ++ (Priority.notice, codes "File '' already exists, ignoring the output") ∷ []

  -- `open` and what follows it, with the name, the flag `mkdir` and the next counter; `next` is from
  -- `restart`, and `again` from `reopen` with the flag cleared.
  unfoldable pub try_open :
      Mode
      → ℤ
      → Bytes
      → Bytes
      → ℕ
      → Bool
      → S
      → Messages
      → (S → Messages → Ending S)
      → (S → Messages → Ending S)
      → Ending S
  try_open mode limit name shown counter mkdir s ms next again =
      let (result, s') = sys.open_file name (flags_of mode) s in
      elim result [
        | descriptor fd ↦ opened fd (some name) s' ms
        | exist ↦ elim mode [
          | keep ↦ open_ignored name s' (ignoring ms)
          | sequence ↦
              (if goes_on counter limit
                then next s' ms
                else failed s' (crit ms (codes "Filename sequence limit reached")))
          | _ ↦ cannot_open shown exist s' ms
        ]
        | no_entry ↦ elim mkdir [
          | false ↦ cannot_open shown no_entry s' ms
          | true ↦
              let (ok, s'', ms') = make_path name s' ms in
              if ok then again s'' ms' else failed s'' ms'
        ]
        | refused text ↦ cannot_open shown (refused text) s' ms
      ]

  -- From `reopen`, where the expansion for `counter` is done. Fuel counts the calls of `open`.
  unfoldable pub open_loop :
      ℕ → (ℕ → Expanded) → Bytes → Mode → ℤ → Expanded → ℕ → Bool → S → Messages → Ending S
  open_loop zero names template mode limit e counter mkdir s ms = spent
  open_loop (suc fuel) names template mode limit e counter mkdir s ms =
      let following = names (suc counter) in
      elim (e.name) [
        | none ↦ failed s (
            crit ms
              (codes "Expanded output filename " ++ (quoted template ++ codes " is too long")))
        | some name ↦
            try_open mode limit name e.shown (suc counter) mkdir s ms
              (λ s' ms'.
                open_loop fuel names template mode limit following (suc counter) mkdir s'
                  (ms' ++ following.messages))
              (λ s' ms'. open_loop fuel names template mode limit e counter false s' ms')
      ]

  -- `open_output` up to `opened`.
  unfoldable pub open_output : ℕ → (ℕ → Expanded) → Option Bytes → Mode → ℤ → Bool → S → Ending S
  open_output fuel names none mode limit mkdir s =
      let (result, s') = sys.open_null s in
      elim result [
        | descriptor fd ↦ opened fd none s' []
        | _ ↦ failed s' (crit [] (codes "Can't open /dev/null"))
      ]
  open_output fuel names (some template) mode limit mkdir s =
      let first = names 0 in
      let start = open_loop fuel names template mode limit first 0 mkdir s first.messages in
      if get_or template 0 0 == b'/'
      then start
      else failed s
          (crit [] (codes "Output filename " ++ (quoted template ++ codes " is not a full path")))
