-- ===== src/Main/Reading.antt =====
-- What reading the directory of the process leaves in the configuration.
use crashinfo.Base.{
  ℕ, zero, suc, ◌^◌, ◌<◌, Bool, true, false, List, [], ◌∷◌, ◌++◌, ◌≡◌, refl, ◌∙◌, Bytes, codes, ℤ,
  pos, negsuc, Option, none, some, All, ◌⊎◌, inr,
}
use crashinfo.Log.{Priority}
use crashinfo.Filters.{Messages}
use crashinfo.Conf.{Conf, StrSlot, get_maps, set_str}
use crashinfo.Conf.Table.{
  keywords, Keyword, Target, enum_of, int, string, string_multi, mapping_multi,
}
use crashinfo.Conf.Value.{State, M, ◌>>=◌, ◌>>◌, return, say}
use crashinfo.Conf.Value.Stores.{Plenty, Returns}
use crashinfo.Conf.Dump.{
  log_value, log_values, log_list, log_enum, log_string, log_string_multi, log_int,
  log_mapping_multi, dumper_of, log_keywords, log_conf,
}
use crashinfo.Proc.{Scanned, PidMap, Task, read, read_tasks}
use crashinfo.Proc.Maps.{MapsLine, add_maps, mappings_of}
use crashinfo.Conf.File.Lines.{text_of}
use crashinfo.Main.Path.{path_of, choose_path-fits}
use crashinfo.Proc.Whole.{ProcDir, Read, set_exe, read_proc_info, read_proc_info-Read}
use crashinfo.Main.{shown_conf, after_reading, read_path, read_proc, choose_path, if_wanted}

-- An action that ends, and leaves the configuration and the allocations to come as they are.
abbrev Silent : M (Unit {0}) → Type 0
Silent m = (s : State) → Returns (m s) (λ r t. (t.conf ≡ s.conf) × (t.memory ≡ s.memory))

-- What an action leaves is what the next one begins with.
pub Returns-bind :
    {A B : Type 0} (o : Option (A × State)) (f : A → M B) (P : A → State → Type 0)
    (Q : B → State → Type 0) (s : State)
    → Returns o P
    → ((a : A) (u : State) → P a u → Returns (f a u) Q)
    → Returns (((λ (_ : State). o) >>= f) s) Q
Returns-bind none f P Q s h next = absurd h
Returns-bind (some (a, u)) f P Q s h next = next a u h

Silent-then : (m k : M (Unit {0})) → Silent m → Silent k → Silent (m >> k)
Silent-then m k f g s = Returns-bind (m s) (λ _. k) _ _ s (f s) (λ _ u e. later u (k u) e (g u))
  where
    later :
        (u : State) (o : Option (Unit {0} × State))
        → (u.conf ≡ s.conf) × (u.memory ≡ s.memory)
        → Returns o (λ r t. (t.conf ≡ u.conf) × (t.memory ≡ u.memory))
        → Returns o (λ r t. (t.conf ≡ s.conf) × (t.memory ≡ s.memory))
    later u none e h = h
    later u (some (r, t)) (c, m) (c', m') = (c' ∙ c, m' ∙ m)

log_value-Silent : (keyword text : Bytes) → Silent (log_value keyword text)
unfolding log_value
log_value-Silent keyword text s = (refl, refl)

log_values-Silent : (keyword : Bytes) (vs : List Bytes) → Silent (log_values keyword vs)
unfolding log_values
log_values-Silent keyword [] = λ s. (refl, refl)
log_values-Silent keyword (v ∷ vs) =
    Silent-then (log_value keyword v) (log_values keyword vs) (log_value-Silent keyword v)
      (log_values-Silent keyword vs)

log_list-Silent : (keyword : Bytes) (vs : List Bytes) → Silent (log_list keyword vs)
unfolding log_list
log_list-Silent keyword [] = log_value-Silent keyword (codes "~")
log_list-Silent keyword (v ∷ vs) = log_values-Silent keyword (v ∷ vs)

dumper_of-Silent : (keyword : Bytes) (target : Target) → Silent (dumper_of keyword target)
unfolding dumper_of log_enum log_int log_string log_string_multi log_mapping_multi
dumper_of-Silent keyword (enum_of table slot) s = log_value-Silent keyword _ s
dumper_of-Silent keyword (int slot) s = log_value-Silent keyword _ s
dumper_of-Silent keyword (string slot) s = log_value-Silent keyword _ s
dumper_of-Silent keyword (string_multi slot) s = log_list-Silent keyword _ s
dumper_of-Silent keyword mapping_multi s = log_list-Silent keyword _ s

log_keywords-Silent : (ks : List Keyword) → Silent (log_keywords ks)
unfolding log_keywords
log_keywords-Silent [] = λ s. (refl, refl)
log_keywords-Silent (k ∷ ks) =
    Silent-then (dumper_of k.keyword k.target) (log_keywords ks)
      (dumper_of-Silent k.keyword k.target) (log_keywords-Silent ks)

log_conf-Silent : Silent log_conf
unfolding log_conf
log_conf-Silent = log_keywords-Silent keywords

shown_conf-Silent : (ndebug : Bool) (text : Bytes) → Silent (shown_conf ndebug text)
shown_conf-Silent true text = λ s. (refl, refl)
shown_conf-Silent false text =
    Silent-then (say Priority.debug text) log_conf (λ s. (refl, refl)) log_conf-Silent

-- Reading a directory with success: what `read_proc_info` gives, with what is logged behind it.
after_reading-Read :
    (ndebug : Bool) (path : Bytes) (m : PidMap) (c : Conf) (r : ℤ × PidMap) (u : State)
    → Read m c r u
    → Returns (after_reading ndebug path r u) (λ m' t. (m' ≡ m) × (t.conf ≡ c))
unfolding after_reading
after_reading-Read ndebug path m c (pos zero, m') u (e, is) =
    Returns-bind (shown_conf ndebug (codes "Configuration after reading " ++ (path ++ codes ":")) u)
      (λ _. return m') _ _ u (shown_conf-Silent ndebug _ u) (λ _ t h. (cc, h.0 ∙ is))
after_reading-Read ndebug path m c (pos (suc n), m') u (e, is) = cc
after_reading-Read ndebug path m c (negsuc n, m') u (e, is) = cc

if_wanted-zero :
    (ignore : ℤ) (reading : M PidMap) (m : PidMap) (s : State)
    → ignore ≡ pos 0
    → if_wanted ignore reading m s ≡ reading s
if_wanted-zero (pos zero) reading m s h = refl
if_wanted-zero (pos (suc n)) reading m s h = cc
if_wanted-zero (negsuc n) reading m s h = cc

abbrev pub located : ℕ → Conf → Conf
located n c = set_str StrSlot.proc_path (some (path_of c.proc.path n)) c

module _ (dirs : Bytes → Bytes ⊎ ProcDir) (sscanf : Bytes → Option Scanned) (ndebug : Bool)
    (exe : Bytes) (lines : List Bytes) (tasks : List Task) (m m' : PidMap)
    (messages : Messages) where
  abbrev given : ProcDir
  given = record { exe = inr exe; maps = inr (text_of lines); tasks = inr tasks }

  read_path-Read :
      (path : Bytes) (s : State)
      → dirs path ≡ inr given
      → s.conf.proc.exe ≡ none
      → get_maps s.conf ≡ []
      → All (MapsLine sscanf) lines
      → read_tasks tasks m ≡ read m' messages
      → Plenty s
      → Returns
          (read_path dirs sscanf ndebug (some path) m s)
          (λ r t. (r ≡ m') × (t.conf ≡ add_maps (set_exe exe s.conf) (mappings_of sscanf lines)))
  unfolding read_path
  read_path-Read path s found unset empty described reads p =
      rw (found, read_path)
        (Returns-bind (read_proc_info sscanf path given m s) (after_reading ndebug path) _ _ s
          (read_proc_info-Read sscanf path exe lines tasks m m' messages s unset empty described
            reads p)
          (λ r u h. after_reading-Read ndebug path m' _ r u h))

  read_proc-path :
      (n : ℕ) (path : Bytes) (s : State)
      → s.conf.proc.ignore ≡ pos 0
      → choose_path s.conf.proc.path (pos n) ≡ some path
      → read_proc dirs sscanf ndebug (pos n) m s
        ≡ read_path dirs sscanf ndebug
            (some path)
            m
            (record s { conf = set_str StrSlot.proc_path (some path) s.conf })
  unfolding read_proc
  read_proc-path n path s wanted chosen =
      if_wanted-zero s.conf.proc.ignore _ m s wanted ∙ rw chosen refl

  get_maps-set_str :
      (path : Option Bytes) (c : Conf) → get_maps (set_str StrSlot.proc_path path c) ≡ get_maps c
  unfolding get_maps set_str
  get_maps-set_str path c = refl

  exe-set_str :
      (path : Option Bytes) (c : Conf) → (set_str StrSlot.proc_path path c).proc.exe ≡ c.proc.exe
  unfolding set_str
  exe-set_str path c = refl

  -- With the process known by a number of at most eight digits, its directory readable, the reading of
  -- it not disabled, and neither the executable nor mappings configured, `main` stores the path of the
  -- directory unless one is configured, and the executable and the mappings as `read_proc_info` does;
  -- its map of the process ids is the one that remains. The allocations succeed, the tasks can be read,
  -- and each line of `maps` fits the buffer and, where it is a mapping that is taken, has an address
  -- below 2 ^ 63, a path with no white space at its end, and room for the directive in front of it.
  -- What is logged in a build without NDEBUG changes none of this.
  pub read_proc-Read :
      (n : ℕ) (s : State)
      → 0 < n
      → n < 10 ^ 8
      → s.conf.proc.ignore ≡ pos 0
      → dirs (path_of s.conf.proc.path n) ≡ inr given
      → s.conf.proc.exe ≡ none
      → get_maps s.conf ≡ []
      → All (MapsLine sscanf) lines
      → read_tasks tasks m ≡ read m' messages
      → Plenty s
      → Returns (read_proc dirs sscanf ndebug (pos n) m s) (λ r t.
        (r ≡ m') × (t.conf ≡ add_maps (set_exe exe (located n s.conf)) (mappings_of sscanf lines)))
  read_proc-Read n s positive short wanted found unset empty described reads p =
      let path = path_of s.conf.proc.path n in
      let chosen = choose_path-fits s.conf.proc.path n positive short in
      rw (read_proc-path n path s wanted chosen) (
        read_path-Read path _ found (exe-set_str (some path) s.conf ∙ unset)
          (get_maps-set_str (some path) s.conf ∙ empty) described reads p)
