-- ===== src/Unwind/Core.antt =====
-- unw.c with libunwind: `unw_prepare` and `unw_dump` with the objects that they make and destroy. What
-- libunwind gives is an argument.
use crashinfo.Base.{
  Bool, true, false, if◌then◌else◌, ℕ, List, [], ◌∷◌, ◌++◌, ◌≡◌, refl, Bytes, codes, ℤ, pos, negsuc,
  show_int, Option, none, some,
}
use crashinfo.Log.{Priority}
use crashinfo.Conf.{Mapping}
use crashinfo.Filters.{Messages}
use crashinfo.Info.{Out, ◌>>◌, fputs, say}
use crashinfo.Unwind.{Thread, unw_prepare, threads_dump}

-- The calls of libunwind that make or change an object. A call that makes one stands here if it succeeds.
pub data CoreCall : Type 0 where
  create_addr_space create_fd destroy destroy_addr_space : CoreCall
  add_backing_file : ℕ → Bytes → CoreCall

-- What `unw_prepare` leaves: its result, `core.ok`, the calls, and what is logged.
pub record Prepared : Type 0 where
  pub pid : ℤ
  pub ok : Bool
  pub calls : List CoreCall
  pub messages : Messages

-- Whether the address space and the core can be had, and the pids of the threads.
unfoldable pub prepare_core : Bool → Bool → Bool → (ℤ → Bool) → List ℤ → Prepared
prepare_core ndebug false ui exists pids = record {
  pid = negsuc 0;
  ok = false;
  calls = [];
  messages = (Priority.error, codes "Failed to create address space") ∷ [];
}
prepare_core ndebug true false exists pids = record {
  pid = negsuc 0;
  ok = false;
  calls = create_addr_space ∷ destroy_addr_space ∷ [];
  messages = (Priority.error, codes "Failed to create UCD_info") ∷ [];
}
prepare_core ndebug true true exists pids =
    let pid = unw_prepare exists pids in
    record {
      pid = pid;
      ok = true;
      calls = create_addr_space ∷ create_fd ∷ [];
      messages =
          if ndebug
          then []
          else (Priority.debug, codes "Unwinder returned PID: " ++ show_int pid) ∷ [];
    }

-- The loop over `conf.proc.maps`.
unfoldable pub backing_files : List Mapping → List CoreCall
backing_files [] = []
backing_files (m ∷ maps) = add_backing_file m.addr m.file ∷ backing_files maps

-- The calls of `unw_dump` on the objects, and its result; the cursor may be an error.
unfoldable pub core_end : Bool → List Mapping → Option Bytes → ℤ × List CoreCall
core_end false maps cursor = (negsuc 0, [])
core_end true maps none = (pos 0, backing_files maps ++ destroy ∷ destroy_addr_space ∷ [])
core_end true maps (some error) =
    (negsuc 0, backing_files maps ++ destroy ∷ destroy_addr_space ∷ [])

abbrev pub missing_maps : List Mapping → Out
missing_maps [] = say Priority.warning (codes "Mapping information are not available\n")
missing_maps (m ∷ maps) = fputs []

-- What `unw_dump` writes and logs.
unfoldable pub core_dump :
    Bool → Bool → ℕ → (ℤ → Out) → List Mapping → Option Bytes → List Thread → Out
core_dump false char_signed max_depth dump maps cursor threads = fputs []
core_dump true char_signed max_depth dump maps (some error) threads =
    missing_maps maps
    >> say Priority.error (codes "Failed to initialize the unwind cursor: " ++ error)
core_dump true char_signed max_depth dump maps none threads =
    missing_maps maps
    >> fputs (codes "threads:\n")
    >> threads_dump char_signed max_depth dump threads

-- The objects there are, the newest first, behind calls; `none` is a call on an object that is not the
-- newest, or a core that is used before it is made.
pub data Object : Type 0 where
  addr_space core_info : Object

abbrev pub objects : List CoreCall → List Object → Option (List Object)
objects [] os = some os
objects (create_addr_space ∷ calls) os = objects calls (addr_space ∷ os)
objects (create_fd ∷ calls) os = objects calls (core_info ∷ os)
objects (destroy ∷ calls) (core_info ∷ os) = objects calls os
objects (destroy_addr_space ∷ calls) (addr_space ∷ os) = objects calls os
objects (add_backing_file addr file ∷ calls) (core_info ∷ os) = objects calls (core_info ∷ os)
objects _ _ = none

objects-backing_files :
    (maps : List Mapping) (calls : List CoreCall) (os : List Object)
    → objects (backing_files maps ++ calls) (core_info ∷ os) ≡ objects calls (core_info ∷ os)
unfolding backing_files
objects-backing_files [] calls os = refl
objects-backing_files (m ∷ maps) calls os = objects-backing_files maps calls os

-- `unw_prepare` and then `unw_dump` destroy each object that was made once, the core before its address
-- space, and use the core only while it is there, whichever of the calls of libunwind fails.
pub objects-core_end :
    (ndebug space ui : Bool) (exists : ℤ → Bool) (pids : List ℤ) (maps : List Mapping)
    (cursor : Option Bytes)
    → objects
        ((prepare_core ndebug space ui exists pids).calls
          ++ (core_end (prepare_core ndebug space ui exists pids).ok maps cursor).1)
        []
      ≡ some []
unfolding prepare_core core_end
objects-core_end ndebug false ui exists pids maps cursor = refl
objects-core_end ndebug true false exists pids maps cursor = refl
objects-core_end ndebug true true exists pids maps none =
    objects-backing_files maps (destroy ∷ destroy_addr_space ∷ []) (addr_space ∷ [])
objects-core_end ndebug true true exists pids maps (some error) =
    objects-backing_files maps (destroy ∷ destroy_addr_space ∷ []) (addr_space ∷ [])
