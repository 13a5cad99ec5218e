-- ===== src/Examples/Store.antt =====
-- The theorems on the state at concrete inputs, and tests of canister/src/store.rs.
use bitcoin_dip.Base.{◌≡◌, ◌+◌, ◌⊎◌, refl, [], ◌∷◌, true, returns, Option}
use bitcoin_dip.Base.HashMap
use bitcoin_dip.Bitcoin.{Block, regtest, outpoint_beq}
use bitcoin_dip.BlockForest.{BlockForest}
use bitcoin_dip.BlockForest
use bitcoin_dip.BlockTree.{depth}
use bitcoin_dip.UtxoSet.{
  insert_tx, remove_spent_txs, remove_inputs, remove_outpoint, unindex, remove_first,
  insert_outputs, insert_outpoint, index_outpoint, is_duplicate,
}
use bitcoin_dip.UtxoSet.Preserve.{IsBelow}
use bitcoin_dip.Store.{State, insert_block, insert_txs, stabilize, new}
use bitcoin_dip.Store.Insert.{IsPlain, IsConsistent, settle, insert_block_lem}
use bitcoin_dip.Store.Invariant.{insert_block-IsConsistent, insert_block_heights, new-IsConsistent}
use bitcoin_dip.Examples.{toy, block, outpoint, pay, coinbase, transfer}

abbrev pub genesis : Block
genesis = block 1 0 (coinbase 11 ∷ [])

abbrev pub second : Block
second = block 2 1 (transfer ∷ [])

-- The state with the genesis block, at which one successor makes a block stable.
abbrev pub started : State
started = record {
  height = 1;
  latest_stable_block_hash = 1;
  utxos = record {
    utxos = (outpoint 11 0, (pay 50 1, 1)) ∷ [];
    network = regtest;
    address_to_outpoints = ("alice", outpoint 11 0 ∷ []) ∷ [];
    strict = true;
  };
  unstable_blocks = record { delta = 0; trees = [] };
}

abbrev pub advanced : State
advanced = record {
  height = 2;
  latest_stable_block_hash = 2;
  utxos = record {
    utxos = (outpoint 12 0, (pay 20 2, 1)) ∷ (outpoint 12 1, (pay 30 1, 1)) ∷ [];
    network = regtest;
    address_to_outpoints = ("bob", outpoint 12 0 ∷ []) ∷ ("alice", outpoint 12 1 ∷ []) ∷ [];
    strict = true;
  };
  unstable_blocks = record { delta = 0; trees = [] };
}

pub new-started : new 0 regtest genesis ≡ returns started
unfolding new insert_txs insert_tx remove_spent_txs insert_outputs insert_outpoint index_outpoint
    is_duplicate outpoint_beq HashMap.get HashMap.insert HashMap.contains_key
new-started = refl

pub insert-second : insert_block started second ≡ returns advanced
unfolding insert_block stabilize insert_txs insert_tx remove_spent_txs remove_inputs remove_outpoint
    unindex remove_first insert_outputs insert_outpoint index_outpoint is_duplicate outpoint_beq
    HashMap.get HashMap.insert HashMap.remove HashMap.contains_key BlockForest.push BlockForest.pop
    depth
insert-second = refl

pub genesis-IsPlain : IsPlain genesis
unfolding is_duplicate
genesis-IsPlain = (refl, tt)

pub second-IsPlain : IsPlain second
unfolding is_duplicate
second-IsPlain = (refl, tt)

pub started-IsConsistent : IsConsistent started
started-IsConsistent = new-IsConsistent 0 regtest genesis started genesis-IsPlain new-started

insert_block-IsConsistent_example : IsConsistent advanced
insert_block-IsConsistent_example =
    insert_block-IsConsistent started advanced second started-IsConsistent second-IsPlain
      insert-second

insert_block_heights_example :
    ((advanced.height ≡ started.height) × (advanced.utxos ≡ started.utxos))
    ⊎ ((advanced.height ≡ started.height + 1) × IsBelow started.height advanced.utxos)
insert_block_heights_example =
    insert_block_heights started advanced second started-IsConsistent second-IsPlain insert-second

insert_block_lem_example :
    (f g : BlockForest) × (r : Option Block) × (BlockForest.push started.unstable_blocks second
      ≡ returns f)
    × (BlockForest.pop f started.latest_stable_block_hash ≡ returns (r, g))
    × (insert_block started second ≡ settle started r g)
insert_block_lem_example = insert_block_lem started second
