-- ===== src/Examples/Sign.antt =====
-- The theorems on signed transactions and on the wrapper at concrete inputs, with a toy key whose
-- signature of a hash is the hash behind the key.
use bitcoin_dip.Base.{ℕ, ◌+◌, ◌≡◌, refl, ap, true, some, [], ◌∷◌, ◌++◌, map, flat_map, returns}
use bitcoin_dip.Base.HashMap
use bitcoin_dip.Bitcoin.{Bytes, Address, Transaction}
use bitcoin_dip.Types.{GetUtxosResponse}
use bitcoin_dip.Canister.{ok}
use bitcoin_dip.BuildTransaction.{
  select_utxos, to_inputs, to_outputs, finish, build_transaction, built,
}
use bitcoin_dip.SignTransaction.{Keys, sign_inputs, sign_transaction}
use bitcoin_dip.SignTransaction.Valid.{
  unsigned, IsBlind, Signs, AreSigned, sign_transaction-AreSigned,
}
use bitcoin_dip.Wallet.{Wallet, input_outpoint, spend, prepare, bytes_beq}
use bitcoin_dip.Wallet.Sends.{none_left, sent, AreFresh, Sends-AreFresh}
use bitcoin_dip.Wrapper.{answer, outpoint_to_index, used_utxo_indices}
use bitcoin_dip.Wrapper
use bitcoin_dip.Wrapper.Indices.{outpoint_at, build_transaction-names}
use bitcoin_dip.Examples.Send.{
  narrow, narrow-HashBytesExact, wallet, coin, payment, after_payment, coins,
}

abbrev hash : Transaction → ℕ → Bytes
hash tx index = index ∷ tx.version ∷ map (λ o. o.value) tx.output

abbrev pub key : ℕ
key = 3

instance abbrev pub toy_keys : Keys ℕ
toy_keys = record {
  from_wif = λ text. some key;
  public_key = λ k. (k + 1) ∷ [];
  p2pkh = λ k network. "alice";
  is_p2pkh = λ address. true;
  sighash_all = 1;
  signature_hash = λ tx index script kind. hash tx index;
  sign = λ k message. some (k ∷ message);
  push_slices = λ slices. flat_map (λ slice. slice) slices;
  serialize = λ tx. hash tx 0;
}

toy_keys-IsBlind : IsBlind toy_keys
toy_keys-IsBlind tx tx' index script kind e = ap (λ t. hash t index) e

toy_keys-Signs : (k : ℕ) → Signs k
toy_keys-Signs k tx index script kind = (k ∷ hash tx index, refl)

sign_transaction-AreSigned_example :
    (tx' : Transaction) × (sign_transaction ⦃lib = narrow⦄ payment key "alice" ≡ returns tx')
    × (unsigned tx' ≡ unsigned payment)
    × AreSigned tx' key (1 ∷ []) 0 tx'.input
sign_transaction-AreSigned_example =
    sign_transaction-AreSigned ⦃lib = narrow⦄ payment key "alice" toy_keys-IsBlind
      (toy_keys-Signs key) refl

abbrev funds : GetUtxosResponse
funds = record { utxos = coins; total_count = 2 }

abbrev more_funds : GetUtxosResponse
more_funds = record { utxos = coins ++ coin 6 ∷ []; total_count = 3 }

abbrev signed : ℕ → Transaction
signed txid = record payment {
  input =
      record {
        previous_output = record { txid = txid; vout = 0 };
        script_sig = 3 ∷ 0 ∷ 2 ∷ 20000 ∷ 1 ∷ 4 ∷ [];
        sequence = 0xffffffff;
        witness = [];
      }
      ∷ [];
}

abbrev at_last : Wallet
at_last = record {
  spent_txos = after_payment.spent_txos ++ record { txid = 6 ∷ []; vout = 0 } ∷ [];
}

prepare-first :
    prepare ⦃lib = narrow⦄ wallet key 20000 "bob" (ok (ok funds))
    ≡ returns (signed 5, after_payment)
unfolding prepare spend build_transaction select_utxos finish to_inputs to_outputs bytes_beq
    sign_transaction sign_inputs
prepare-first = refl

-- The same UTXOs and a new one.
prepare-second :
    prepare ⦃lib = narrow⦄ after_payment key 20000 "bob" (ok (ok more_funds))
    ≡ returns (signed 6, at_last)
unfolding prepare spend build_transaction select_utxos finish to_inputs to_outputs bytes_beq
    sign_transaction sign_inputs
prepare-second = refl

Sends-AreFresh_example : AreFresh ⦃lib = narrow⦄ wallet.spent_txos (signed 5 ∷ signed 6 ∷ [])
Sends-AreFresh_example =
    Sends-AreFresh ⦃lib = narrow⦄ narrow-HashBytesExact key wallet at_last
      (signed 5 ∷ signed 6 ∷ [])
      (sent 20000 "bob" (ok (ok funds)) prepare-first
        (sent 20000 "bob" (ok (ok more_funds)) prepare-second none_left))

-- The first UTXO does not suffice.
build_both :
    Wrapper.build_transaction ⦃lib = narrow⦄ (λ tx. hash tx 0) coins "alice" "bob" 40000 1000
    ≡ returns (ok (0 ∷ 2 ∷ 40000 ∷ 20000 ∷ [], 0 ∷ 1 ∷ []))
unfolding Wrapper.build_transaction build_transaction select_utxos finish to_inputs to_outputs
    answer outpoint_to_index used_utxo_indices bytes_beq HashMap.get HashMap.insert
build_both = refl

build_transaction-names_example :
    (source : Address) × (destination : Address) × (tx : Transaction) × (build_transaction
        ⦃lib = narrow⦄ coins source destination 40000 1000
      ≡ returns (built tx))
    × (hash tx 0 ≡ 0 ∷ 2 ∷ 40000 ∷ 20000 ∷ [])
    × (map (outpoint_at coins) (0 ∷ 1 ∷ [])
        ≡ map (λ i. some (input_outpoint ⦃lib = narrow⦄ i)) tx.input)
build_transaction-names_example =
    build_transaction-names ⦃lib = narrow⦄ narrow-HashBytesExact (λ tx. hash tx 0) coins "alice"
      "bob" 40000 1000 (0 ∷ 2 ∷ 40000 ∷ 20000 ∷ []) (0 ∷ 1 ∷ []) build_both
