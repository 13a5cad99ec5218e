-- ===== src/Examples/Mine.antt =====
-- The search for a nonce, at a header of which every nonce from 3 on passes.
use bitcoin_dip.Base.{◌≡◌, refl, leb, arith, returns}
use bitcoin_dip.Bitcoin.{BlockHeader}
use bitcoin_dip.TestBuilder.{Mining, solve, solve_loop}
use bitcoin_dip.TestBuilder.Solve.{Searched, solve_lem}

instance abbrev mining : Mining
mining = record {
  merkle_root = λ txids. 0;
  compact_target = λ target. 0;
  target = λ h. 3;
  validate_pow = λ h target. leb target h.nonce;
  default_hash = 0;
}

abbrev unsolved : BlockHeader
unsolved = record {
  version = 1;
  prev_blockhash = 0;
  merkle_root = 0;
  time = 0;
  bits = 0;
  nonce = 1;
}

abbrev solved : BlockHeader
solved = record unsolved { nonce = 3 }

solve-unsolved : solve unsolved ≡ returns solved
unfolding solve solve_loop
solve-unsolved = refl

solve_lem_example : Searched unsolved 3 (solve unsolved)
solve_lem_example = solve_lem unsolved (omega arith)
