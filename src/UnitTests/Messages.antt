-- ===== src/UnitTests/Messages.antt =====
-- The unit test of canister/src/block.rs.
use bitcoin_dip.Base.{ℕ, zero, suc, List, [], ◌∷◌, Outcome, returns, ◌>>=◌}
use bitcoin_dip.Bitcoin.{Bitcoin, Address, Block}
use bitcoin_dip.Proto.Blocks.{to_proto, from_proto}
use bitcoin_dip.TestBuilder.{Mining, build_transaction, coinbase}
use bitcoin_dip.UnitTests.{Assertion, assert_eq, genesis_with, block_with}

module _ ⦃lib : Bitcoin⦄ ⦃mining : Mining⦄ (random : ℕ → Address) where
  -- The loop of the test: the rounds that are left, and the number of the random address.
  unfoldable pub read_back : ℕ → ℕ → Block → Outcome (List Assertion)
  read_back zero i genesis = returns []
  read_back (suc left) i genesis = do
    block ← block_with genesis (build_transaction coinbase (random i)) (random i)
    block' ← from_proto (to_proto block)
    assertions ← read_back left (suc i) genesis
    returns (assert_eq block block' ∷ assertions)

  abbrev pub to_from_proto : Outcome (List Assertion)
  to_from_proto = do
    genesis ← genesis_with (build_transaction coinbase (random 0)) (random 0)
    genesis' ← from_proto (to_proto genesis)
    assertions ← read_back 100 1 genesis
    returns (assert_eq genesis genesis' ∷ assertions)
