-- ===== src/UnitTests/Trees.antt =====
-- The unit tests of canister/src/blockforest.rs on `push` and `pop`.
use bitcoin_dip.Base.{
  ℕ, zero, suc, none, some, List, [], ◌∷◌, ◌++◌, length, Outcome, returns, panics, trapped, ◌>>=◌,
}
use bitcoin_dip.Bitcoin.{Bitcoin, Address, Block, BlockHeader, block_hash}
use bitcoin_dip.BlockTree.{
  BlockTree, ExtendResult, extended, not_part_of_tree, extend, blockchains, depth, root,
}
use bitcoin_dip.BlockTree
use bitcoin_dip.BlockForest.{BlockForest, push, pop}
use bitcoin_dip.BlockForest
use bitcoin_dip.TestBuilder.{Mining, build, with_prev_header}
use bitcoin_dip.UnitTests.{Assertion, assert_eq, first_block, next_block}

-- `unwrap` on the result of `extend`.
abbrev unwrap_extended : ExtendResult → Outcome BlockTree
unwrap_extended (extended t) = returns t
unwrap_extended (not_part_of_tree block) = panics trapped

module _ ⦃lib : Bitcoin⦄ where
  -- Calls of `push` in a row.
  unfoldable pub push_all : BlockForest → List Block → Outcome BlockForest
  push_all forest [] = returns forest
  push_all forest (b ∷ bs) = do forest' ← push forest b; push_all forest' bs

  module _ ⦃mining : Mining⦄ (random : ℕ → Address) where
    abbrev pub empty : Outcome (List Assertion)
    empty = do
      block_0 ← first_block random 0
      (popped, _) ← pop (BlockForest.new 1) (block_hash block_0)
      returns (assert_eq popped none ∷ [])

    abbrev pub single_chain : Outcome (List Assertion)
    single_chain = do
      block_0 ← first_block random 0
      block_1 ← next_block random block_0 1
      block_2 ← next_block random block_1 2
      forest ← push (BlockForest.new 1) block_1
      (popped, forest) ← pop forest (block_hash block_0)
      forest ← push forest block_2
      (popped', forest) ← pop forest (block_hash block_0)
      returns (assert_eq popped none ∷ assert_eq popped' (some block_1) ∷ [])

    abbrev pub forks : Outcome (List Assertion)
    forks = do
      genesis_block ← first_block random 0
      fork_1 ← next_block random genesis_block 1
      fork_2 ← next_block random genesis_block 2
      forest ← push_all (BlockForest.new 1) (fork_1 ∷ fork_2 ∷ [])
      (popped, forest) ← pop forest (block_hash genesis_block)
      extension ← next_block random fork_2 3
      forest ← push forest extension
      (popped', forest) ← pop forest (block_hash genesis_block)
      (popped'', forest) ← pop forest (block_hash fork_2)
      returns
          (assert_eq popped none ∷ assert_eq popped' (some fork_2) ∷ assert_eq popped'' none ∷ [])

    abbrev pub detached_blocks : Outcome (List Assertion)
    detached_blocks = do
      block_0 ← first_block random 0
      block_1 ← next_block random block_0 1
      block_2 ← next_block random block_1 2
      block_3 ← next_block random block_2 3
      forest ← push_all (BlockForest.new 1) (block_3 ∷ block_1 ∷ [])
      (popped, apart) ← pop forest (block_hash block_0)
      merged ← push apart block_2
      (first, forest) ← pop merged (block_hash block_0)
      (second, forest) ← pop forest (block_hash block_1)
      (third, forest) ← pop forest (block_hash block_2)
      returns (
          assert_eq popped none
          ∷ assert_eq (length apart.trees) 2
          ∷ assert_eq (length merged.trees) 1
          ∷ assert_eq first (some block_1)
          ∷ assert_eq second (some block_2)
          ∷ assert_eq third none
          ∷ [])

    abbrev pub detached_blocks_2 : Outcome (List Assertion)
    detached_blocks_2 = do
      block_0 ← first_block random 0
      block_1 ← next_block random block_0 1
      block_2 ← next_block random block_1 2
      block_3 ← next_block random block_2 3
      forest ← push_all (BlockForest.new 1) (block_3 ∷ block_0 ∷ block_1 ∷ block_2 ∷ [])
      returns (assert_eq (length forest.trees) 1 ∷ [])

    abbrev pub insert_predecessor : Outcome (List Assertion)
    insert_predecessor = do
      block_0 ← first_block random 0
      block_1 ← next_block random block_0 1
      forest ← push_all (BlockForest.new 1) (block_1 ∷ block_0 ∷ [])
      returns (assert_eq (length forest.trees) 1 ∷ [])

    -- The assertions at the end of the next two tests.
    abbrev both_popped : BlockForest → Block → Block → Block → Outcome (List Assertion)
    both_popped forest block_0 block_1 block_2 = do
      (first, left) ← pop forest (block_hash block_0)
      (second, left) ← pop left (block_hash block_1)
      (third, left) ← pop left (block_hash block_2)
      returns (
          assert_eq (length forest.trees) 1
          ∷ assert_eq first (some block_1)
          ∷ assert_eq second (some block_2)
          ∷ assert_eq third none
          ∷ [])

    abbrev pub insert_in_order : Outcome (List Assertion)
    insert_in_order = do
      block_0 ← first_block random 0
      block_1 ← next_block random block_0 1
      block_2 ← next_block random block_1 2
      forest ← push_all (BlockForest.new 0) (block_1 ∷ block_2 ∷ [])
      both_popped forest block_0 block_1 block_2

    abbrev pub insert_in_reverse_order : Outcome (List Assertion)
    insert_in_reverse_order = do
      block_0 ← first_block random 0
      block_1 ← next_block random block_0 1
      block_2 ← next_block random block_1 2
      forest ← push_all (BlockForest.new 0) (block_2 ∷ block_1 ∷ [])
      both_popped forest block_0 block_1 block_2

    abbrev pub tree_single_block : Outcome (List Assertion)
    tree_single_block = do
      block ← first_block random 0
      let block_tree = BlockTree.new block
      returns (
          assert_eq (depth block_tree) 0
          ∷ assert_eq (blockchains block_tree) ((root block_tree ∷ []) ∷ [])
          ∷ [])

    -- The loop of the next test: its rounds that are left, and the value of `i`.
    unfoldable pub extend_genesis :
        ℕ → ℕ → BlockHeader → BlockTree → Outcome (BlockTree × List Assertion)
    extend_genesis zero i header block_tree = returns (block_tree, [])
    extend_genesis (suc left) i header block_tree = do
      block ← build (with_prev_header header) (random i)
      result ← extend block_tree block
      grown ← unwrap_extended result
      (block_tree', assertions) ← extend_genesis left (suc i) header grown
      returns (block_tree', assert_eq (length (blockchains grown)) i ∷ assertions)

    abbrev pub tree_multiple_forks : Outcome (List Assertion)
    tree_multiple_forks = do
      genesis_block ← first_block random 0
      (block_tree, assertions) ←
          extend_genesis 4 1 genesis_block.header (BlockTree.new genesis_block)
      returns (assertions ++ assert_eq (depth block_tree) 1 ∷ [])
