-- ===== src/Examples/PassedStates.antt =====
-- The unit tests of canister/src/utxoset.rs, store.rs and main.rs pass.
use bitcoin_dip.Base.{refl, arith}
use bitcoin_dip.Base.HashMap
use bitcoin_dip.Bitcoin.{outpoint_beq}
use bitcoin_dip.BlockForest.{push, pop, get_current_chain}
use bitcoin_dip.BlockTree.{depth, blockchains, find_mut, extend, contains}
use bitcoin_dip.TestBuilder.{build, build_transaction}
use bitcoin_dip.UtxoSet.{
  insert_tx, copy_outpoints, insert_outpoint, insert_outputs, index_outpoint, is_duplicate,
  remove_spent_txs, remove_inputs, remove_outpoint, unindex, remove_first,
}
use bitcoin_dip.UtxoSet
use bitcoin_dip.Store.{
  new, insert_block, stabilize, insert_txs, get_utxos, get_balance, sum_values, apply_unstable,
  filter_confirmed, main_chain_height,
}
use bitcoin_dip.Canister
use bitcoin_dip.Canister.{answer_utxos, write_utxos, send_transaction}
use bitcoin_dip.UnitTests.{Passes, for_each}
use bitcoin_dip.UnitTests.Utxos
use bitcoin_dip.UnitTests.States
use bitcoin_dip.UnitTests.Endpoints
use bitcoin_dip.Examples.Crate.{crate, mining, random}
use bitcoin_dip.Examples.Loop.{canister}

coinbase_tx-Passes : Passes (Utxos.coinbase_tx random)
unfolding for_each build_transaction insert_tx UtxoSet.get_utxos copy_outpoints insert_outpoint
    insert_outputs index_outpoint is_duplicate remove_spent_txs remove_inputs outpoint_beq
    remove_outpoint unindex remove_first HashMap.get HashMap.insert HashMap.remove
    HashMap.contains_key
coinbase_tx-Passes = grind arith

spending-Passes : Passes (Utxos.spending random)
unfolding for_each build_transaction insert_tx UtxoSet.get_utxos copy_outpoints insert_outpoint
    insert_outputs index_outpoint is_duplicate remove_spent_txs remove_inputs outpoint_beq
    remove_outpoint unindex remove_first HashMap.get HashMap.insert HashMap.remove
    HashMap.contains_key
spending-Passes = grind arith

utxos_forks-Passes : Passes (States.utxos_forks random)
unfolding for_each build build_transaction new insert_block insert_txs get_utxos apply_unstable
    filter_confirmed main_chain_height stabilize push pop get_current_chain depth blockchains
    find_mut extend contains insert_tx UtxoSet.get_utxos copy_outpoints insert_outpoint
    insert_outputs index_outpoint is_duplicate remove_spent_txs remove_inputs outpoint_beq
    remove_outpoint unindex remove_first HashMap.get HashMap.insert HashMap.remove
    HashMap.contains_key
utxos_forks-Passes = grind arith

get_utxos_min_confirmations_greater_than_chain_height-Passes :
    Passes (States.get_utxos_min_confirmations_greater_than_chain_height random)
unfolding for_each build build_transaction new insert_block insert_txs get_utxos apply_unstable
    filter_confirmed main_chain_height stabilize push pop get_current_chain depth blockchains
    find_mut extend contains insert_tx UtxoSet.get_utxos copy_outpoints insert_outpoint
    insert_outputs index_outpoint is_duplicate remove_spent_txs remove_inputs outpoint_beq
    remove_outpoint unindex remove_first HashMap.get HashMap.insert HashMap.remove
    HashMap.contains_key
get_utxos_min_confirmations_greater_than_chain_height-Passes = grind arith

get_utxos_does_not_include_other_addresses-Passes :
    Passes (States.get_utxos_does_not_include_other_addresses random)
unfolding for_each build build_transaction new insert_block insert_txs get_utxos apply_unstable
    filter_confirmed main_chain_height stabilize push pop get_current_chain depth blockchains
    find_mut extend contains insert_tx UtxoSet.get_utxos copy_outpoints insert_outpoint
    insert_outputs index_outpoint is_duplicate remove_spent_txs remove_inputs outpoint_beq
    remove_outpoint unindex remove_first HashMap.get HashMap.insert HashMap.remove
    HashMap.contains_key
get_utxos_does_not_include_other_addresses-Passes = grind arith

get_utxos_from_existing_utxo_set-Passes : Passes (Endpoints.get_utxos_from_existing_utxo_set random)
unfolding for_each build build_transaction new insert_block insert_txs get_utxos apply_unstable
    filter_confirmed main_chain_height stabilize push pop get_current_chain depth blockchains
    find_mut extend contains insert_tx UtxoSet.get_utxos copy_outpoints insert_outpoint
    insert_outputs index_outpoint is_duplicate remove_spent_txs remove_inputs outpoint_beq
    remove_outpoint unindex remove_first HashMap.get HashMap.insert HashMap.remove
    HashMap.contains_key get_balance sum_values Canister.get_balance Canister.get_utxos answer_utxos
    write_utxos
get_utxos_from_existing_utxo_set-Passes = grind arith

get_balance_test-Passes : Passes (Endpoints.get_balance_test random)
unfolding for_each build build_transaction new insert_block insert_txs get_utxos apply_unstable
    filter_confirmed main_chain_height stabilize push pop get_current_chain depth blockchains
    find_mut extend contains insert_tx UtxoSet.get_utxos copy_outpoints insert_outpoint
    insert_outputs index_outpoint is_duplicate remove_spent_txs remove_inputs outpoint_beq
    remove_outpoint unindex remove_first HashMap.get HashMap.insert HashMap.remove
    HashMap.contains_key get_balance sum_values Canister.get_balance Canister.get_utxos answer_utxos
    write_utxos
get_balance_test-Passes = grind arith

get_utxos_min_confirmations-Passes : Passes (Endpoints.get_utxos_min_confirmations random)
unfolding for_each build build_transaction new insert_block insert_txs get_utxos apply_unstable
    filter_confirmed main_chain_height stabilize push pop get_current_chain depth blockchains
    find_mut extend contains insert_tx UtxoSet.get_utxos copy_outpoints insert_outpoint
    insert_outputs index_outpoint is_duplicate remove_spent_txs remove_inputs outpoint_beq
    remove_outpoint unindex remove_first HashMap.get HashMap.insert HashMap.remove
    HashMap.contains_key get_balance sum_values Canister.get_balance Canister.get_utxos answer_utxos
    write_utxos
get_utxos_min_confirmations-Passes = grind arith

get_balance_malformed_address-Passes : Passes (Endpoints.get_balance_malformed_address canister)
unfolding Canister.get_balance Canister.get_utxos send_transaction
get_balance_malformed_address-Passes = (refl, tt)

get_utxos_malformed_address-Passes : Passes (Endpoints.get_utxos_malformed_address canister)
unfolding Canister.get_balance Canister.get_utxos send_transaction
get_utxos_malformed_address-Passes = (refl, tt)

malformed_transaction-Passes : Passes (Endpoints.malformed_transaction canister)
unfolding Canister.get_balance Canister.get_utxos send_transaction
malformed_transaction-Passes = (refl, tt)
