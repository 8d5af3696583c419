-- ===== src/Tests/ExpandTests.antt =====
-- The theorems on the expansion of file names, and runs of it.
use crashinfo.Base.{
  ◌+◌, ◌-◌, true, [], ◌∷◌, ◌++◌, ◌≡◌, refl, Bytes, codes, pos, some, get_or, arith, show, show_int,
}
use crashinfo.Expand.{
  Cells, Env, Outcome, done, is_escape, expand, expand_exe, path_last, escape_run, expand_loop,
  expand_step, expand_wildcard, put_text, put_exe, keep_both, copy, seq_len, intlen, intlen_loop,
  show_padded,
}
use crashinfo.Expand.Buffer.{slice}
use crashinfo.Expand.Scan.{expansion}
use crashinfo.Expand.Name.{IsExpansion, expand-IsExpansion}

abbrev env : Env
env = record {
  output = codes "/@e";
  sequence = true;
  exists_seq = 100;
  pid = pos 42;
  exe = some (codes "/bin/sh");
  counter = 7;
}

abbrev cells : Bytes → Cells
cells s k = get_or s k 0

-- What is in the buffer from the '/' on.
abbrev expanded : Outcome → Bytes
expanded (done path j ms) = slice path j (path_last + 1 - j)
expanded _ = []

expand_test :
    expanded (expand env (codes "/c.@e.@@.@Q@p@E.@x")) ≡ codes "/c.sh.@.0742!bin!sh.@x" ++ 0 ∷ []
unfolding expand expand_loop expand_step expand_wildcard is_escape escape_run put_text put_exe
    expand_exe keep_both copy seq_len intlen intlen_loop show_padded show_int show
expand_test = refl

expand-IsExpansion_example :
    IsExpansion 11
      (b'/' ∷ expansion env (codes "/bin/sh") (codes "c.@e.@p@@e"))
      (expand env (codes "/c.@e.@p@@e"))
expand-IsExpansion_example =
    expand-IsExpansion env (codes "/bin/sh") (codes "c.@e.@p@@e") refl (omega arith)
