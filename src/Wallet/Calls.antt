-- ===== src/Wallet/Calls.antt =====
-- The cell `BTC_CANISTER_ID` of examples/rust/src/main.rs, and the calls that are sent to the
-- canister of that identifier. What an identifier is, is a parameter.
use bitcoin_dip.Base.{String, Outcome, returns, ◌>>=◌}
use bitcoin_dip.Bitcoin.{Bitcoin, Satoshi}
use bitcoin_dip.Types.{
  GetUtxosRequest, GetBalanceRequest, SendTransactionRequest, GetUtxosResponse, GetUtxosError,
}
use bitcoin_dip.Canister.{Result}
use bitcoin_dip.SignTransaction.{Keys}
use bitcoin_dip.Wallet.{
  Wallet, Rejection, btc_address, get_utxos_request, get_balance_request, send,
}

pub record InitPayload (Principal : Type 0) : Type 0 where
  pub bitcoin_canister_id : Principal

-- A call of another canister's method.
pub record Call (Principal Argument : Type 0) : Type 0 where
  pub canister : Principal
  pub method : String
  pub argument : Argument

module _ ⦃lib : Bitcoin⦄ {PrivateKey : Type 0} ⦃keys : Keys PrivateKey⦄ where
  -- The text of an address is the address.
  abbrev pub btc_address_str : PrivateKey → String
  btc_address_str private_key = btc_address private_key

module _ {Principal : Type 0} where
  -- The identifier that the cell holds after `init`.
  abbrev pub init : Principal → InitPayload Principal → Principal
  init btc_canister_id payload = payload.bitcoin_canister_id

  module _ ⦃lib : Bitcoin⦄ {PrivateKey : Type 0} ⦃keys : Keys PrivateKey⦄ where
    abbrev pub get_utxos_call : Principal → PrivateKey → Call Principal GetUtxosRequest
    get_utxos_call btc_canister_id private_key = record {
      canister = btc_canister_id;
      method = "get_utxos";
      argument = get_utxos_request private_key;
    }

    abbrev pub get_balance_call : Principal → PrivateKey → Call Principal GetBalanceRequest
    get_balance_call btc_canister_id private_key = record {
      canister = btc_canister_id;
      method = "get_balance";
      argument = get_balance_request private_key;
    }

    -- The whole of `send`, with the call that it ends with.
    abbrev pub send_call :
        Principal
        → Wallet
        → PrivateKey
        → Satoshi
        → String
        → Result (Result GetUtxosResponse GetUtxosError) Rejection
        → Outcome (Call Principal SendTransactionRequest × Wallet)
    send_call btc_canister_id w private_key amount destination answer = do
      (request, w') ← send w private_key amount destination answer
      returns (
        record { canister = btc_canister_id; method = "send_transaction"; argument = request },
        w',
      )
