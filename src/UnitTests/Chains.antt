-- ===== src/UnitTests/Chains.antt =====
-- The unit tests of canister/src/blockforest.rs on `get_current_chain`.
use bitcoin_dip.Base.{ℕ, List, [], ◌∷◌, Outcome, returns, ◌>>=◌}
use bitcoin_dip.Bitcoin.{Bitcoin, Address, Block, block_hash}
use bitcoin_dip.BlockForest.{BlockForest, get_current_chain}
use bitcoin_dip.BlockForest
use bitcoin_dip.TestBuilder.{Mining}
use bitcoin_dip.UnitTests.{Assertion, assert_eq, first_block, next_block}
use bitcoin_dip.UnitTests.Trees.{push_all}

module _ ⦃lib : Bitcoin⦄ ⦃mining : Mining⦄ (random : ℕ → Address) where
  -- The assertion that the current chain after `block_0` is the given one.
  abbrev assert_chain : BlockForest → Block → List Block → Outcome Assertion
  assert_chain forest block_0 blocks = do
    chain ← get_current_chain forest (block_hash block_0)
    returns (assert_eq chain blocks)

  abbrev pub get_current_chain_single_blockchain : Outcome (List Assertion)
  get_current_chain_single_blockchain = do
    block_0 ← first_block random 0
    block_1 ← next_block random block_0 1
    block_2 ← next_block random block_1 2
    forest ← push_all (BlockForest.new 1) (block_1 ∷ block_2 ∷ [])
    assertion ← assert_chain forest block_0 (block_1 ∷ block_2 ∷ [])
    returns (assertion ∷ [])

  abbrev pub get_current_chain_two_contesting_trees : Outcome (List Assertion)
  get_current_chain_two_contesting_trees = do
    block_0 ← first_block random 0
    block_1 ← next_block random block_0 1
    block_2 ← next_block random block_0 2
    forest ← push_all (BlockForest.new 1) (block_1 ∷ block_2 ∷ [])
    assertion ← assert_chain forest block_0 []
    returns (assertion ∷ [])

  abbrev pub get_current_chain_longer_fork : Outcome (List Assertion)
  get_current_chain_longer_fork = do
    block_0 ← first_block random 0
    block_1 ← next_block random block_0 1
    block_2 ← next_block random block_0 2
    block_3 ← next_block random block_2 3
    forest ← push_all (BlockForest.new 1) (block_1 ∷ block_2 ∷ block_3 ∷ [])
    assertion ← assert_chain forest block_0 (block_2 ∷ block_3 ∷ [])
    returns (assertion ∷ [])

  abbrev pub get_current_chain_fork_at_first_block : Outcome (List Assertion)
  get_current_chain_fork_at_first_block = do
    block_0 ← first_block random 0
    block_1 ← next_block random block_0 1
    block_2 ← next_block random block_1 2
    block_3 ← next_block random block_2 3
    block_a ← next_block random block_1 4
    block_b ← next_block random block_a 5
    forest ← push_all (BlockForest.new 1) (block_1 ∷ block_2 ∷ block_3 ∷ block_a ∷ block_b ∷ [])
    assertion ← assert_chain forest block_0 (block_1 ∷ [])
    returns (assertion ∷ [])

  abbrev pub get_current_chain_multiple_forks : Outcome (List Assertion)
  get_current_chain_multiple_forks = do
    block_0 ← first_block random 0
    block_1 ← next_block random block_0 1
    block_2 ← next_block random block_1 2
    block_3 ← next_block random block_2 3
    block_a ← next_block random block_1 4
    block_b ← next_block random block_a 5
    block_x ← next_block random block_0 6
    block_y ← next_block random block_x 7
    block_z ← next_block random block_y 8
    forest ←
        push_all (BlockForest.new 1)
          (block_x ∷ block_y ∷ block_z ∷ block_1 ∷ block_2 ∷ block_3 ∷ block_a ∷ block_b ∷ [])
    contested ← assert_chain forest block_0 []
    block_c ← next_block random block_b 9
    forest ← push_all forest (block_c ∷ [])
    longest ← assert_chain forest block_0 (block_1 ∷ block_a ∷ block_b ∷ block_c ∷ [])
    returns (contested ∷ longest ∷ [])

  abbrev pub get_current_chain_multiple_forks_2 : Outcome (List Assertion)
  get_current_chain_multiple_forks_2 = do
    block_0 ← first_block random 0
    block_1 ← next_block random block_0 1
    block_2 ← next_block random block_1 2
    block_3 ← next_block random block_2 3
    block_a ← next_block random block_1 4
    block_b ← next_block random block_a 5
    block_x ← next_block random block_0 6
    block_y ← next_block random block_x 7
    block_z ← next_block random block_y 8
    forest ←
        push_all (BlockForest.new 1)
          (block_1 ∷ block_2 ∷ block_3 ∷ block_a ∷ block_b ∷ block_x ∷ block_y ∷ block_z ∷ [])
    assertion ← assert_chain forest block_0 []
    returns (assertion ∷ [])

  abbrev pub get_current_chain_empty : Outcome (List Assertion)
  get_current_chain_empty = do
    block_0 ← first_block random 0
    assertion ← assert_chain (BlockForest.new 1) block_0 []
    returns (assertion ∷ [])
