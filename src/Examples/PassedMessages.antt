-- ===== src/Examples/PassedMessages.antt =====
-- The unit tests of canister/src/block.rs and store.rs on their messages pass.
use bitcoin_dip.Base.{refl, arith}
use bitcoin_dip.Base.HashMap
use bitcoin_dip.Bitcoin.{outpoint_beq}
use bitcoin_dip.BlockForest.{push, pop}
use bitcoin_dip.BlockTree.{depth, find_mut, extend, contains}
use bitcoin_dip.TestBuilder.{build, build_transaction}
use bitcoin_dip.UtxoSet.{
  insert_tx, insert_outpoint, insert_outputs, index_outpoint, is_duplicate, remove_spent_txs,
  remove_inputs, remove_outpoint, unindex, remove_first,
}
use bitcoin_dip.Store.{new, insert_block, stabilize, insert_txs}
use bitcoin_dip.UnitTests.{Passes}
use bitcoin_dip.UnitTests.States
use bitcoin_dip.UnitTests.States.{extend_chain}
use bitcoin_dip.UnitTests.Messages
use bitcoin_dip.UnitTests.Messages.{read_back}
use bitcoin_dip.Proto.Blocks
use bitcoin_dip.Proto.Trees
use bitcoin_dip.Proto.Utxos
use bitcoin_dip.Proto.States as ProtoStates
use bitcoin_dip.Examples.Crate.{crate, mining, random}

messages-Passes : Passes (Messages.to_from_proto random)
unfolding build build_transaction Blocks.to_proto Blocks.from_proto read_back
messages-Passes = grind arith

states-Passes : Passes (States.to_from_proto random)
unfolding extend_chain build build_transaction new insert_block insert_txs stabilize Blocks.to_proto
    Blocks.from_proto Trees.to_proto Trees.from_proto Utxos.to_proto Utxos.from_proto
    Utxos.insert_messages ProtoStates.to_proto ProtoStates.from_proto push pop depth find_mut extend
    contains insert_tx insert_outpoint insert_outputs index_outpoint is_duplicate remove_spent_txs
    remove_inputs outpoint_beq remove_outpoint unindex remove_first HashMap.get HashMap.insert
    HashMap.remove HashMap.contains_key
states-Passes = (refl, tt)
