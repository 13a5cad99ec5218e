-- ===== src/Examples/Funds.antt =====
-- The theorem on the example canister on top of the Bitcoin canister, after a genesis block.
use bitcoin_dip.Base.{◌≡◌, refl, true, [], ◌∷◌, returns, arith}
use bitcoin_dip.Base.HashMap
use bitcoin_dip.Bitcoin.{Block, Transaction, regtest, outpoint_beq, outpoint_eq}
use bitcoin_dip.BlockForest
use bitcoin_dip.UtxoSet.{
  insert_tx, remove_spent_txs, insert_outputs, insert_outpoint, index_outpoint, is_duplicate,
}
use bitcoin_dip.UtxoSet
use bitcoin_dip.Types.{GetUtxosResponse}
use bitcoin_dip.Store.{State, current_chain, insert_txs, new}
use bitcoin_dip.Store
use bitcoin_dip.Store.Insert.{IsPlain, IsConsistent}
use bitcoin_dip.Store.Invariant.{new-IsConsistent}
use bitcoin_dip.Canister.{Canister, ok, answer_utxos, write_utxos}
use bitcoin_dip.Canister
use bitcoin_dip.BuildTransaction.{select_utxos, to_inputs, to_outputs, finish, build_transaction}
use bitcoin_dip.SignTransaction.{sign_inputs, sign_transaction}
use bitcoin_dip.Wallet.{Wallet, get_utxos_request, spend, prepare, bytes_beq}
use bitcoin_dip.Wallet.Funded.{Owns, prepare-Owns}
use bitcoin_dip.Examples.{toy, block, outpoint, pay}
use bitcoin_dip.Examples.Wire.{toy-HashBytesAgree}
use bitcoin_dip.Examples.Sign.{key, toy_keys}

-- 50000 to alice.
abbrev reward : Transaction
reward = record { version = 11; lock_time = 0; input = []; output = pay 50000 1 ∷ [] }

abbrev rich_genesis : Block
rich_genesis = block 1 0 (reward ∷ [])

abbrev rich : State
rich = record {
  height = 1;
  latest_stable_block_hash = 1;
  utxos = record {
    utxos = (outpoint 11 0, (pay 50000 1, 1)) ∷ [];
    network = regtest;
    address_to_outpoints = ("alice", outpoint 11 0 ∷ []) ∷ [];
    strict = true;
  };
  unstable_blocks = record { delta = 0; trees = [] };
}

new-rich : new 0 regtest rich_genesis ≡ returns rich
unfolding new insert_txs insert_tx remove_spent_txs insert_outputs insert_outpoint index_outpoint
    is_duplicate outpoint_beq HashMap.get HashMap.insert HashMap.contains_key
new-rich = refl

rich_genesis-IsPlain : IsPlain rich_genesis
unfolding is_duplicate
rich_genesis-IsPlain = (refl, tt)

rich-IsConsistent : IsConsistent rich
rich-IsConsistent = new-IsConsistent 0 regtest rich_genesis rich rich_genesis-IsPlain new-rich

abbrev canister : Canister
canister = record { state = rich; outgoing_transactions = [] }

rich-chain : current_chain rich ≡ returns []
unfolding BlockForest.get_current_chain
rich-chain = refl

abbrev response : GetUtxosResponse
response = record {
  utxos =
      record {
        outpoint = record { txid = 11 ∷ []; vout = 0 };
        value = 50000;
        height = 1;
        confirmations = 1;
      }
      ∷ [];
  total_count = 1;
}

answered : Canister.get_utxos canister (get_utxos_request key) ≡ returns (ok response)
unfolding Canister.get_utxos answer_utxos Store.main_chain_height BlockForest.get_current_chain
    Store.get_utxos UtxoSet.get_utxos UtxoSet.copy_outpoints HashMap.get outpoint_beq
    UtxoSet.insert_outpoint HashMap.contains_key Store.apply_unstable HashMap.insert
    Store.filter_confirmed write_utxos
answered = refl

abbrev fresh_wallet : Wallet
fresh_wallet = record { spent_txos = [] }

abbrev used_wallet : Wallet
used_wallet = record { spent_txos = record { txid = 11 ∷ []; vout = 0 } ∷ [] }

-- 20000 for bob, 10000 of fees and the change.
abbrev gift : Transaction
gift = record {
  version = 2;
  lock_time = 0;
  input =
      record {
        previous_output = outpoint 11 0;
        script_sig = 3 ∷ 0 ∷ 2 ∷ 20000 ∷ 20000 ∷ 1 ∷ 4 ∷ [];
        sequence = 0xffffffff;
        witness = [];
      }
      ∷ [];
  output = pay 20000 1 ∷ pay 20000 1 ∷ [];
}

prepare-gift : prepare fresh_wallet key 20000 "bob" (ok (ok response)) ≡ returns (gift, used_wallet)
unfolding prepare spend build_transaction select_utxos finish to_inputs to_outputs bytes_beq
    sign_transaction sign_inputs
prepare-gift = refl

prepare-Owns_example :
    Owns "alice" regtest (HashMap.get rich.utxos.utxos) (outpoint 11 0) × Unit {0}
prepare-Owns_example =
    prepare-Owns toy-HashBytesAgree canister key "alice" [] (ok response) fresh_wallet used_wallet
      20000 "bob" gift refl rich-IsConsistent rich-chain (omega arith) tt answered prepare-gift
