-- ===== src/Examples/Supply.antt =====
-- The theorem on the total supply, at two blocks that each mint 50.
use bitcoin_dip.Base.{◌≡◌, refl, true, some, [], ◌∷◌, returns, arith}
use bitcoin_dip.Base.HashMap
use bitcoin_dip.Bitcoin.{Block, regtest, outpoint_beq}
use bitcoin_dip.BlockForest.{BlockForest}
use bitcoin_dip.BlockForest
use bitcoin_dip.BlockTree.{tree, nil, depth}
use bitcoin_dip.UtxoSet.{
  insert_tx, remove_spent_txs, remove_inputs, remove_outpoint, unindex, remove_first,
  insert_outputs, insert_outpoint, index_outpoint, is_duplicate,
}
use bitcoin_dip.UtxoSet.Supply.{total_supply}
use bitcoin_dip.Store.{State, insert_block, insert_txs, stabilize}
use bitcoin_dip.Store.Insert.{IsPlain}
use bitcoin_dip.Store.History.{finished, stabilizes}
use bitcoin_dip.Store.Ledger.{AllNewBlocks, after_txs}
use bitcoin_dip.Store.Supply.{Mint, total_supply-height}
use bitcoin_dip.Store.Whole.{no_utxos}
use bitcoin_dip.Examples.{toy, block, outpoint, pay, coinbase, transfer}
use bitcoin_dip.Examples.Store.{genesis, genesis-IsPlain}
use bitcoin_dip.Examples.Ledger.{opened, new-opened}

-- A coinbase transaction, and one that spends the 50 of the genesis block.
abbrev minting : Block
minting = block 2 1 (coinbase 14 ∷ transfer ∷ [])

minting-IsPlain : IsPlain minting
unfolding is_duplicate
minting-IsPlain = (refl, (refl, tt))

abbrev forest : BlockForest
forest = record { delta = 0; trees = tree minting nil ∷ [] }

abbrev minted : State
minted = record {
  height = 2;
  latest_stable_block_hash = 2;
  utxos = record {
    utxos =
        (outpoint 14 0, (pay 50 1, 1))
        ∷ (outpoint 12 0, (pay 20 2, 1))
        ∷ (outpoint 12 1, (pay 30 1, 1))
        ∷ [];
    network = regtest;
    address_to_outpoints =
        ("alice", outpoint 14 0 ∷ outpoint 12 1 ∷ []) ∷ ("bob", outpoint 12 0 ∷ []) ∷ [];
    strict = true;
  };
  unstable_blocks = record { delta = 0; trees = [] };
}

insert-minted : insert_block (opened 0 regtest) minting ≡ returns minted
unfolding insert_block stabilize insert_txs insert_tx remove_spent_txs remove_inputs remove_outpoint
    unindex remove_first insert_outputs insert_outpoint index_outpoint is_duplicate outpoint_beq
    HashMap.get HashMap.insert HashMap.remove HashMap.contains_key BlockForest.push BlockForest.pop
    depth
insert-minted = refl

push-minting : BlockForest.push (opened 0 regtest).unstable_blocks minting ≡ returns forest
unfolding BlockForest.push
push-minting = refl

pop-minting : BlockForest.pop forest 1 ≡ returns (some minting, minted.unstable_blocks)
unfolding BlockForest.pop depth
pop-minting = refl

minting-new : AllNewBlocks (minting ∷ []) 1 (after_txs genesis.txdata 1 no_utxos)
unfolding outpoint_beq
minting-new = ((omega arith, (λ k. refl), (omega arith, (λ k. refl), tt)), tt)

minting-Mint : Mint 50 (minting ∷ []) 1 (after_txs genesis.txdata 1 no_utxos)
unfolding outpoint_beq
minting-Mint = (refl, tt)

total_supply-height_example : total_supply minted.utxos ≡ returns 100
total_supply-height_example =
    total_supply-height 0 regtest genesis (minting ∷ []) (minting ∷ []) 50 (opened 0 regtest) minted
      (genesis-IsPlain, (minting-IsPlain, tt)) (omega arith, (λ k. refl), tt) minting-new (refl, tt)
      minting-Mint (new-opened 0 regtest)
      (stabilizes forest minted.unstable_blocks push-minting pop-minting insert-minted finished)
