-- ===== src/Tests/NamedTests.antt =====
-- The theorem on the names that an output takes at a concrete input.
use crashinfo.Base.{
  ℕ, zero, suc, ◌≤◌, true, [], ◌∷◌, ◌≡◌, ◌≢◌, refl, Bytes, codes, pos, some, arith, show, ap,
  length,
}
use crashinfo.Output
use crashinfo.Expand.{Env, seq_len, intlen, intlen_loop, show_padded}
use crashinfo.Expand.Scan.{expansion, scan_byte, wildcard}
use crashinfo.Output.Named.{HasRoom, name_at, expansions}
use crashinfo.Output.Distinct.{expansions-distinct}
use crashinfo.Tests.OutputTests.{Disk}

abbrev env : Env
env = record {
  output = codes "/c@Q";
  sequence = true;
  exists_seq = 3;
  pid = pos 42;
  exe = some (codes "/bin/sh");
  counter = 0;
}

abbrev one_file : Disk
one_file = codes "/c0" ∷ []

names_of_both :
    (name_at env (codes "/bin/sh") (codes "c@Q") 0 ≡ codes "/c0")
    × (name_at env (codes "/bin/sh") (codes "c@Q") 1 ≡ codes "/c1")
unfolding expansion scan_byte wildcard seq_len intlen intlen_loop show_padded show
names_of_both = (refl, refl)

zero_or_one-HasRoom : (j : ℕ) → j ≤ 1 → HasRoom env (codes "/bin/sh") (codes "c@Q") j
zero_or_one-HasRoom zero h = omega (arith, ap (λ (t : Bytes). length t) names_of_both.0)
zero_or_one-HasRoom (suc zero) h = omega (arith, ap (λ (t : Bytes). length t) names_of_both.1)
zero_or_one-HasRoom (suc (suc j)) h = absurd (omega arith)

expansions-distinct_example :
    (expansions env (codes "/c@Q") 0).name ≢ (expansions env (codes "/c@Q") 1).name
expansions-distinct_example =
    expansions-distinct env (codes "/bin/sh") 0 1 (omega arith) (omega arith) (codes "c@Q")
      (codes "c", [], refl, refl) refl (zero_or_one-HasRoom 0 (omega arith))
      (zero_or_one-HasRoom 1 (omega arith)) (λ e. absurd (omega (arith, e)))
