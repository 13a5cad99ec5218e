-- ===== src/Types.antt =====
-- types/src/lib.rs: the types of the candid interface.
use bitcoin_dip.Base.{ℕ, String, Option, List}
use bitcoin_dip.Bitcoin.{Bytes, Satoshi}

pub record OutPoint : Type 0 where
  pub txid : Bytes
  pub vout : ℕ

pub record Utxo : Type 0 where
  pub outpoint : OutPoint
  pub value : Satoshi
  pub height : ℕ
  pub confirmations : ℕ

pub record GetUtxosRequest : Type 0 where
  pub address : String
  pub min_confirmations : Option ℕ

pub record GetUtxosResponse : Type 0 where
  pub utxos : List Utxo
  pub total_count : ℕ

pub data GetUtxosError : Type 0 where
  malformed_address : GetUtxosError

pub record GetBalanceRequest : Type 0 where
  pub address : String
  pub min_confirmations : Option ℕ

pub data GetBalanceError : Type 0 where
  malformed_address : GetBalanceError

pub record SendTransactionRequest : Type 0 where
  pub transaction : Bytes

pub data SendTransactionError : Type 0 where
  malformed_transaction : SendTransactionError

-- `impl From<GetUtxosError> for GetBalanceError`
unfoldable pub from_get_utxos_error : GetUtxosError → GetBalanceError
from_get_utxos_error GetUtxosError.malformed_address = GetBalanceError.malformed_address
