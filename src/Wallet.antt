-- ===== src/Wallet.antt =====
-- The example canister of examples/rust/src/main.rs: `send`, and its cell `SPENT_TXOS`, a
-- `HashSet` as a list. The answer of the Bitcoin canister and the private key are arguments. The
-- cell is not read before the answer is there.
pub mod Spent
pub mod Sends
pub mod Funded
pub mod Calls
use bitcoin_dip.Base.{
  ℕ, String, Bool, true, false, not, ◌&&◌, Option, none, some, List, [], ◌∷◌, ◌++◌, map, filter,
  any, ◌==◌, nat_eq, leb, if◌then◌else◌, Outcome, returns, panics, trapped, ◌>>=◌,
}
use bitcoin_dip.Bitcoin.{
  Bitcoin, Bytes, Address, Satoshi, TxIn, Transaction, regtest, bytes_of_hash,
}
use bitcoin_dip.Types.{
  OutPoint, Utxo, GetUtxosRequest, GetBalanceRequest, SendTransactionRequest, GetUtxosResponse,
  GetUtxosError, GetBalanceError,
}
use bitcoin_dip.Canister.{Result, ok, err}
use bitcoin_dip.SignTransaction.{Keys, get_p2pkh_address, sign_transaction}
use bitcoin_dip.BuildTransaction.{BuildResult, built, insufficient_balance, build_transaction}

-- `(RejectionCode, String)`
pub data Rejection : Type 0 where
  rejected : ℕ → String → Rejection

pub record Wallet : Type 0 where
  pub spent_txos : List OutPoint

abbrev pub fees : Satoshi
fees = 10000

unfoldable pub bytes_beq : Bytes → Bytes → Bool
bytes_beq [] [] = true
bytes_beq [] (c ∷ cs) = false
bytes_beq (b ∷ bs) [] = false
bytes_beq (b ∷ bs) (c ∷ cs) = (b == c) && bytes_beq bs cs

abbrev pub same_outpoint : OutPoint → OutPoint → Bool
same_outpoint a b = bytes_beq a.txid b.txid && (a.vout == b.vout)

-- `spent_txos.contains(outpoint)`
abbrev pub is_spent : Wallet → OutPoint → Bool
is_spent w o = any (λ p. same_outpoint p o) w.spent_txos

-- `get_utxos`, once the call is answered.
abbrev pub read_utxos :
    Result (Result GetUtxosResponse GetUtxosError) Rejection → Outcome (List Utxo)
read_utxos (ok (ok data')) = returns data'.utxos
read_utxos (ok (err e)) = panics trapped
read_utxos (err rejection) = panics trapped

-- `balance`, once the call is answered.
abbrev pub read_balance : Result (Result Satoshi GetBalanceError) Rejection → Outcome Satoshi
read_balance (ok (ok balance)) = returns balance
read_balance (ok (err e)) = panics trapped
read_balance (err rejection) = panics trapped

abbrev pub unwrap_built : BuildResult → Outcome Transaction
unwrap_built (built tx) = returns tx
unwrap_built insufficient_balance = panics trapped

module _ ⦃lib : Bitcoin⦄ where
  abbrev pub input_outpoint : TxIn → OutPoint
  input_outpoint i = record {
    txid = bytes_of_hash i.previous_output.txid;
    vout = i.previous_output.vout;
  }

  -- Filters the UTXOs, builds the transaction and caches the outpoints that it spends.
  unfoldable pub spend :
      Wallet → List Utxo → Address → Address → Satoshi → Outcome (Transaction × Wallet)
  spend w utxos btc_address destination amount = do
    result ←
        build_transaction (filter (λ u. not (is_spent w u.outpoint)) utxos) btc_address destination
          amount fees
    tx ← unwrap_built result
    returns (tx, record { spent_txos = w.spent_txos ++ map input_outpoint tx.input })

  module _ {PrivateKey : Type 0} ⦃keys : Keys PrivateKey⦄ where
    -- `btc_address`
    abbrev pub btc_address : PrivateKey → Address
    btc_address private_key = get_p2pkh_address private_key regtest

    -- The requests that `get_utxos` and `balance` make; an address is written as its text.
    abbrev pub get_utxos_request : PrivateKey → GetUtxosRequest
    get_utxos_request private_key = record {
      address = btc_address private_key;
      min_confirmations = some 0;
    }

    abbrev pub get_balance_request : PrivateKey → GetBalanceRequest
    get_balance_request private_key = record {
      address = btc_address private_key;
      min_confirmations = some 0;
    }

    -- `send` up to the signed transaction.
    unfoldable pub prepare :
        Wallet
        → PrivateKey
        → Satoshi
        → String
        → Result (Result GetUtxosResponse GetUtxosError) Rejection
        → Outcome (Transaction × Wallet)
    prepare w private_key amount destination answer =
        if leb amount fees then panics trapped else elim (lib.address_from_str destination) [
          | none ↦ panics trapped
          | some to ↦ do
            utxos ← read_utxos answer
            (spending, w') ← spend w utxos (btc_address private_key) to amount
            signed ← sign_transaction spending private_key (btc_address private_key)
            returns (signed, w')
        ]

    -- The request that is sent to the Bitcoin canister, whose answer is dropped.
    unfoldable pub send :
        Wallet
        → PrivateKey
        → Satoshi
        → String
        → Result (Result GetUtxosResponse GetUtxosError) Rejection
        → Outcome (SendTransactionRequest × Wallet)
    send w private_key amount destination answer = do
      (signed, w') ← prepare w private_key amount destination answer
      returns (record { transaction = keys.serialize signed }, w')
