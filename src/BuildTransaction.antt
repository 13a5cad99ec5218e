-- ===== src/BuildTransaction.antt =====
-- `build_transaction` of examples/common/src/lib.rs.
pub mod Balance
pub mod Payment
use bitcoin_dip.Base.{
  List, [], ◌∷◌, ◌++◌, true, false, leb, ltb, if◌then◌else◌, Outcome, returns, unwrap,
  checked_add64, checked_sub, ◌>>=◌,
}
use bitcoin_dip.Bitcoin.{
  Bitcoin, TxIn, TxOut, Transaction, Address, Satoshi, script_of, hash_of_bytes,
}
use bitcoin_dip.Types.{Utxo}

abbrev pub dust_threshold : Satoshi
dust_threshold = 10000

-- `Result<Transaction, String>`
pub data BuildResult : Type 0 where
  built : Transaction → BuildResult
  insufficient_balance : BuildResult

-- The loop that selects the UTXOs to spend: the total, and the UTXOs.
unfoldable pub select_utxos :
    List Utxo → Satoshi → Satoshi → Satoshi → List Utxo → Outcome (Satoshi × List Utxo)
select_utxos [] amount fees total spent = returns (total, spent)
select_utxos (u ∷ us) amount fees total spent = do
  total' ← checked_add64 total u.value
  needed ← checked_add64 amount fees
  elim (leb needed total') [
    | true ↦ returns (total', spent ++ u ∷ [])
    | false ↦ select_utxos us amount fees total' (spent ++ u ∷ [])
  ]

module _ ⦃lib : Bitcoin⦄ where
  unfoldable pub to_inputs : List Utxo → Outcome (List TxIn)
  to_inputs [] = returns []
  to_inputs (u ∷ us) = do
    txid ← unwrap (hash_of_bytes u.outpoint.txid)
    rest ← to_inputs us
    returns (
        record {
          previous_output = record { txid = txid; vout = u.outpoint.vout };
          script_sig = [];
          sequence = 0xffffffff;
          witness = [];
        }
        ∷ rest)

  -- The destination's output, and the change unless it is dust.
  unfoldable pub to_outputs : Address → Address → Satoshi → Satoshi → List TxOut
  to_outputs source destination amount remaining =
      let payment : TxOut = record { value = amount; script_pubkey = script_of destination } in
      let change : TxOut = record { value = remaining; script_pubkey = script_of source } in
      if leb dust_threshold remaining then payment ∷ change ∷ [] else payment ∷ []

  -- The rest of the function, once the UTXOs are selected.
  unfoldable pub finish :
      Address → Address → Satoshi → Satoshi → Satoshi → List Utxo → Outcome BuildResult
  finish source destination amount fees total spent = do
    inputs ← to_inputs spent
    above ← checked_sub total amount
    remaining ← checked_sub above fees
    returns (
        built (record {
          version = 2;
          lock_time = 0;
          input = inputs;
          output = to_outputs source destination amount remaining;
        }))

  unfoldable pub build_transaction :
      List Utxo → Address → Address → Satoshi → Satoshi → Outcome BuildResult
  build_transaction utxos source destination amount fees = do
    (total, spent) ← select_utxos utxos amount fees 0 []
    if ltb total amount
        then returns insufficient_balance
        else finish source destination amount fees total spent
