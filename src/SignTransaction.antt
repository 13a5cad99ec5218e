-- ===== src/SignTransaction.antt =====
-- `get_p2pkh_address` and `sign_transaction` of examples/common/src/lib.rs. What they call of the
-- `bitcoin` and `secp256k1` crates is the parameter `Keys`.
pub mod Valid
use bitcoin_dip.Base.{
  ℕ, suc, ◌%◌, ◌^◌, String, Bool, Option, List, [], ◌∷◌, ◌++◌, if◌then◌else◌, Outcome, returns,
  panics, unwrap, unsupported_address, ◌>>=◌,
}
use bitcoin_dip.Bitcoin.{Bitcoin, Bytes, Script, Address, Network, TxIn, Transaction, script_of}

-- What the program calls of the crates for keys and signatures.
pub record Keys (PrivateKey : Type 0) : Type 0 where
  -- `PrivateKey::from_wif`
  pub from_wif : String → Option PrivateKey
  -- The bytes of `PrivateKey::public_key`.
  pub public_key : PrivateKey → Bytes
  -- `Address::p2pkh` of the public key.
  pub p2pkh : PrivateKey → Network → Address
  -- Is the `address_type` of the address `P2pkh`?
  pub is_p2pkh : Address → Bool
  -- `SigHashType::All.as_u32()`
  pub sighash_all : ℕ
  -- `Transaction::signature_hash`
  pub signature_hash : Transaction → ℕ → Script → ℕ → Bytes
  -- `Message::from_slice`, and the signature as `sign` and `serialize_der` give it.
  pub sign : PrivateKey → Bytes → Option Bytes
  -- A script that a `Builder` makes with `push_slice` in turn.
  pub push_slices : List Bytes → Script
  -- `Transaction::serialize`
  pub serialize : Transaction → Bytes

module _ {PrivateKey : Type 0} ⦃keys : Keys PrivateKey⦄ where
  abbrev pub get_p2pkh_address : PrivateKey → Network → Address
  get_p2pkh_address private_key network = keys.p2pkh private_key network

  -- The signature and the public key, as the input carries them.
  abbrev pub script_sig_of : PrivateKey → Bytes → Script
  script_sig_of private_key signature =
      keys.push_slices
        ((signature ++ keys.sighash_all % 2 ^ 8 ∷ []) ∷ keys.public_key private_key ∷ [])

  -- The loop over the inputs; `txclone` is the transaction before it.
  unfoldable pub sign_inputs :
      Transaction → PrivateKey → Script → ℕ → List TxIn → Outcome (List TxIn)
  sign_inputs txclone private_key script index [] = returns []
  sign_inputs txclone private_key script index (input ∷ inputs) = do
    signature ←
        unwrap (keys.sign private_key (keys.signature_hash txclone index script keys.sighash_all))
    rest ← sign_inputs txclone private_key script (suc index) inputs
    returns (record input { script_sig = script_sig_of private_key signature; witness = [] } ∷ rest)

  unfoldable pub sign_transaction :
      ⦃lib : Bitcoin⦄ → Transaction → PrivateKey → Address → Outcome Transaction
  sign_transaction transaction private_key src_address =
      if keys.is_p2pkh src_address
      then (do
        inputs ← sign_inputs transaction private_key (script_of src_address) 0 transaction.input
        returns (record transaction { input = inputs }))
      else panics unsupported_address
