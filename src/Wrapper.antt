-- ===== src/Wrapper.antt =====
-- The endpoints of examples/common/src/main.rs, and the types of examples/common/src/types.rs. The
-- bytes of a transaction are a parameter.
pub mod Indices
use bitcoin_dip.Base.{
  ℕ, suc, String, true, ◌≡◌, ◌↔◌, none, some, List, [], ◌∷◌, Eq, arith, Outcome, returns, unwrap,
  ◌>>=◌, nat_eq,
}
use bitcoin_dip.Base.HashMap
use bitcoin_dip.Bitcoin.{Bitcoin, Bytes, Address, Network, Satoshi, TxIn, Transaction}
use bitcoin_dip.Types.{OutPoint, Utxo}
use bitcoin_dip.Canister.{Result, ok, err}
use bitcoin_dip.BuildTransaction.{BuildResult, built}
use bitcoin_dip.BuildTransaction
use bitcoin_dip.SignTransaction.{Keys}
use bitcoin_dip.SignTransaction
use bitcoin_dip.Wallet.{bytes_beq, same_outpoint, input_outpoint}

pub data BuildTransactionError : Type 0 where
  insufficient_balance malformed_destination_address malformed_source_address :
      BuildTransactionError

pub data SignTransactionError : Type 0 where
  invalid_private_key_wif malformed_source_address malformed_transaction : SignTransactionError

pub data NetworkCandid : Type 0 where
  bitcoin regtest testnet signet : NetworkCandid

-- The `match` of `get_p2pkh_address`.
abbrev pub network_from : NetworkCandid → Network
network_from NetworkCandid.bitcoin = Network.bitcoin
network_from NetworkCandid.testnet = Network.testnet
network_from NetworkCandid.regtest = Network.regtest
network_from NetworkCandid.signet = Network.signet

bytes_beq_iff : (bs cs : Bytes) → (bytes_beq bs cs ≡ true) ↔ (bs ≡ cs)
unfolding bytes_beq
bytes_beq_iff [] [] = ground arith
bytes_beq_iff [] (c ∷ cs) = ground arith
bytes_beq_iff (b ∷ bs) [] = ground arith
bytes_beq_iff (b ∷ bs) (c ∷ cs) = ground (arith, bytes_beq_iff bs cs)

pub same_outpoint_iff : (a b : OutPoint) → (same_outpoint a b ≡ true) ↔ (a ≡ b)
same_outpoint_iff a b = ground (arith, bytes_beq_iff a.txid b.txid)

instance abbrev pub types_outpoint_eq : Eq OutPoint
types_outpoint_eq = record { beq = same_outpoint; beq_iff = same_outpoint_iff }

-- `enumerate`, and the collection into a `HashMap`: a later index replaces an earlier one.
unfoldable pub outpoint_to_index : List Utxo → ℕ → List (OutPoint × ℕ) → List (OutPoint × ℕ)
outpoint_to_index [] idx index = index
outpoint_to_index (u ∷ us) idx index =
    outpoint_to_index us (suc idx) (HashMap.insert index u.outpoint idx)

module _ ⦃lib : Bitcoin⦄ where
  -- The `filter_map` over the inputs.
  unfoldable pub used_utxo_indices : List (OutPoint × ℕ) → List TxIn → List ℕ
  used_utxo_indices index [] = []
  used_utxo_indices index (i ∷ is) =
      let rest = used_utxo_indices index is in
      elim (HashMap.get index (input_outpoint i)) [ none ↦ rest | some idx ↦ idx ∷ rest ]

  -- The answer, once the transaction is built.
  unfoldable pub answer :
      (Transaction → Bytes)
      → List (OutPoint × ℕ)
      → BuildResult
      → Result (Bytes × List ℕ) BuildTransactionError
  answer serialize index BuildResult.insufficient_balance =
      err BuildTransactionError.insufficient_balance
  answer serialize index (built tx) = ok (serialize tx, used_utxo_indices index tx.input)

  unfoldable pub build_transaction :
      (Transaction → Bytes)
      → List Utxo
      → String
      → String
      → Satoshi
      → Satoshi
      → Outcome (Result (Bytes × List ℕ) BuildTransactionError)
  build_transaction serialize utxos source_address destination_address amount fees =
      elim (lib.address_from_str source_address) [
        | none ↦ returns (err BuildTransactionError.malformed_source_address)
        | some source ↦ elim (lib.address_from_str destination_address) [
          | none ↦ returns (err malformed_destination_address)
          | some destination ↦ do
            result ← BuildTransaction.build_transaction utxos source destination amount fees
            returns (answer serialize (outpoint_to_index utxos 0 []) result)
        ]
      ]

  module _ {PrivateKey : Type 0} (keys : Keys PrivateKey) where
    abbrev pub get_p2pkh_address : String → NetworkCandid → Outcome Address
    get_p2pkh_address private_key_wif network = do
      private_key ← unwrap (keys.from_wif private_key_wif)
      returns (SignTransaction.get_p2pkh_address ⦃keys = keys⦄ private_key (network_from network))

    unfoldable pub sign_transaction :
        String → Bytes → String → Outcome (Result Bytes SignTransactionError)
    sign_transaction private_key_wif serialized_transaction source_address =
        elim (keys.from_wif private_key_wif) [
          | none ↦ returns (err invalid_private_key_wif)
          | some private_key ↦ elim (lib.address_from_str source_address) [
            | none ↦ returns (err SignTransactionError.malformed_source_address)
            | some source ↦ elim (lib.transaction_from_bytes serialized_transaction) [
              | none ↦ returns (err malformed_transaction)
              | some tx ↦ do
                signed ← SignTransaction.sign_transaction ⦃keys = keys⦄ tx private_key source
                returns (ok (keys.serialize signed))
            ]
          ]
        ]
