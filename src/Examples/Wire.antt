-- ===== src/Examples/Wire.antt =====
-- The theorems on messages and on the endpoints at concrete inputs.
use bitcoin_dip.Base.{◌≡◌, refl, sym, subst, ◌∙◌, none, List, [], ◌∷◌, ◌++◌, returns, arith}
use bitcoin_dip.Base.HashMap
use bitcoin_dip.Bitcoin.{Bytes, OutPoint, HashBytesAgree, outpoint_beq, outpoint_eq}
use bitcoin_dip.BlockForest
use bitcoin_dip.UtxoSet.{UtxoSet}
use bitcoin_dip.UtxoSet
use bitcoin_dip.UtxoSet.Index.{IsIndexed}
use bitcoin_dip.Types.{GetUtxosResponse}
use bitcoin_dip.Store.{State, insert_block, main_chain_height, stabilize, insert_txs}
use bitcoin_dip.Store
use bitcoin_dip.Store.Insert.{IsConsistent, IsPlain}
use bitcoin_dip.Proto.Blocks
use bitcoin_dip.Proto.Utxos
use bitcoin_dip.Proto.States
use bitcoin_dip.Proto.RoundTrip.{from_proto-to_proto}
use bitcoin_dip.Proto.Reload.{utxos-from_proto-to_proto}
use bitcoin_dip.Proto.Restore.{state-from_proto-to_proto}
use bitcoin_dip.Canister.{
  Canister, ok, get_balance, get_utxos, get_successors_response, insert_messages, answer_utxos,
  write_utxos, send_transaction, get_outgoing_transaction,
}
use bitcoin_dip.Canister.Queue.{
  Call, send, get, after_calls, handed_out, accepted, handed_out-accepted,
}
use bitcoin_dip.Canister.Wallet.{utxos_request, balance_request, balance_of, get_balance-get_utxos}
use bitcoin_dip.Canister.Sync.{IsPlainMessage, get_successors_response_lem}
use bitcoin_dip.Examples.{toy}
use bitcoin_dip.Examples.Store.{
  second, started, advanced, insert-second, second-IsPlain, started-IsConsistent,
}

pub toy-HashBytesAgree : HashBytesAgree toy
toy-HashBytesAgree h = refl

abbrev canister : Canister
canister = record { state = started; outgoing_transactions = (7 ∷ []) ∷ [] }

abbrev sent : Bytes → Call
sent bytes = send (record { transaction = bytes })

-- The second one cannot be read.
abbrev calls : List Call
calls = sent (8 ∷ []) ∷ sent [] ∷ get ∷ sent (9 ∷ []) ∷ get ∷ []

utxos-from_proto-to_proto_example :
    (g : UtxoSet) × (Utxos.from_proto (Utxos.to_proto advanced.utxos) ≡ returns g)
    × IsIndexed g
    × ((o : OutPoint) → HashMap.get g.utxos o ≡ HashMap.get advanced.utxos.utxos o)
    × (g.network ≡ advanced.utxos.network)
    × (g.strict ≡ advanced.utxos.strict)
unfolding HashMap.contains_key outpoint_beq
utxos-from_proto-to_proto_example =
    utxos-from_proto-to_proto toy-HashBytesAgree advanced.utxos (refl, (refl, tt))

state-from_proto-to_proto_example :
    (s' : State) × (States.from_proto (States.to_proto advanced) ≡ returns s')
    × (s'.height ≡ advanced.height)
    × (s'.latest_stable_block_hash ≡ advanced.latest_stable_block_hash)
    × (s'.unstable_blocks ≡ advanced.unstable_blocks)
    × IsIndexed s'.utxos
    × ((o : OutPoint) → HashMap.get s'.utxos.utxos o ≡ HashMap.get advanced.utxos.utxos o)
    × (s'.utxos.network ≡ advanced.utxos.network)
    × (s'.utxos.strict ≡ advanced.utxos.strict)
unfolding HashMap.contains_key outpoint_beq
state-from_proto-to_proto_example =
    state-from_proto-to_proto toy-HashBytesAgree advanced (refl, (refl, tt))

handed_out-accepted_example :
    handed_out canister calls ++ (after_calls canister calls).outgoing_transactions
    ≡ canister.outgoing_transactions ++ accepted calls
handed_out-accepted_example = handed_out-accepted canister calls

calls_run : handed_out canister calls ≡ (7 ∷ []) ∷ (8 ∷ []) ∷ []
unfolding send_transaction get_outgoing_transaction
calls_run = refl

abbrev funds : GetUtxosResponse
funds = record {
  utxos =
      record {
        outpoint = record { txid = 11 ∷ []; vout = 0 };
        value = 50;
        height = 1;
        confirmations = 1;
      }
      ∷ [];
  total_count = 1;
}

get_utxos-alice : get_utxos canister (utxos_request "alice" none) ≡ returns (ok funds)
unfolding get_utxos answer_utxos main_chain_height BlockForest.get_current_chain Store.get_utxos
    UtxoSet.get_utxos UtxoSet.copy_outpoints HashMap.get outpoint_beq UtxoSet.insert_outpoint
    HashMap.contains_key Store.apply_unstable HashMap.insert Store.filter_confirmed write_utxos
get_utxos-alice = refl

get_balance-get_utxos_example :
    get_balance canister (balance_request "alice" none) ≡ returns (balance_of (ok funds))
get_balance-get_utxos_example =
    get_balance-get_utxos canister "alice" none (ok funds) get_utxos-alice (omega arith)

-- The canister after the second block.
abbrev synced : Canister
synced = record { state = advanced; outgoing_transactions = (7 ∷ []) ∷ [] }

pub second-IsPlainMessage : IsPlainMessage (Blocks.to_proto second)
second-IsPlainMessage b read =
    let same : returns second ≡ returns b =
      sym (from_proto-to_proto toy-HashBytesAgree second) ∙ read in
    let is_second : second ≡ b = cc in subst IsPlain is_second second-IsPlain

respond-second :
    get_successors_response canister (Blocks.to_proto second ∷ []) ≡ returns (2, synced)
unfolding get_successors_response insert_messages main_chain_height BlockForest.get_current_chain
respond-second = rw (from_proto-to_proto toy-HashBytesAgree second, insert-second) refl

get_successors_response_lem_example :
    IsConsistent advanced
    × (main_chain_height advanced ≡ returns 2)
    × (synced.outgoing_transactions ≡ canister.outgoing_transactions)
get_successors_response_lem_example =
    get_successors_response_lem canister synced (Blocks.to_proto second ∷ []) 2 started-IsConsistent
      (second-IsPlainMessage, tt) respond-second
