-- ===== src/Bitcoin.antt =====
-- The types of the `bitcoin` crate as the program builds them: the struct literals of
-- canister/src/block.rs name every field. A 256-bit hash (`BlockHash`, `Txid`, `TxMerkleNode`) is
-- the number that its hexadecimal text writes, a script is its bytes, and an `i32` its bit pattern. The
-- functions of the crate are the fields of `Bitcoin`, a parameter of the development.
use bitcoin_dip.Base.{
  ℕ, String, Bool, true, Option, some, List, ◌≡◌, ◌↔◌, ◌&&◌, arith, Eq, ◌==◌, nat_eq,
}

abbrev pub Bytes : Type 0
Bytes = List ℕ

abbrev pub BlockHash : Type 0
BlockHash = ℕ

abbrev pub Txid : Type 0
Txid = ℕ

abbrev pub Script : Type 0
Script = Bytes

abbrev pub Address : Type 0
Address = String

-- `u32` block heights and `u64` amounts.
abbrev pub Height : Type 0
Height = ℕ

abbrev pub Satoshi : Type 0
Satoshi = ℕ

pub data Network : Type 0 where
  bitcoin testnet signet regtest : Network

pub record OutPoint : Type 0 where
  pub txid : Txid
  pub vout : ℕ

pub record TxIn : Type 0 where
  pub previous_output : OutPoint
  pub script_sig : Script
  pub sequence : ℕ
  pub witness : List Bytes

pub record TxOut : Type 0 where
  pub value : Satoshi
  pub script_pubkey : Script

pub record Transaction : Type 0 where
  pub version : ℕ
  pub lock_time : ℕ
  pub input : List TxIn
  pub output : List TxOut

pub record BlockHeader : Type 0 where
  pub version : ℕ
  pub prev_blockhash : BlockHash
  pub merkle_root : ℕ
  pub time : ℕ
  pub bits : ℕ
  pub nonce : ℕ

pub record Block : Type 0 where
  pub header : BlockHeader
  pub txdata : List Transaction

-- What the program calls of the crate.
pub record Bitcoin : Type 0 where
  -- `BlockHeader::block_hash`; `Block::block_hash` is the hash of the block's header.
  pub header_hash : BlockHeader → BlockHash
  -- `Transaction::txid`
  pub tx_hash : Transaction → Txid
  -- `Transaction::is_coin_base`
  pub is_coinbase : Transaction → Bool
  -- `Address::from_script`, followed by `to_string`.
  pub address_from_script : Script → Network → Option String
  -- `Address::from_str`; an address is read as its text.
  pub address_from_str : String → Option Address
  -- `Address::script_pubkey`
  pub address_script : Address → Script
  -- `Hash::from_slice` and `to_vec` of the 256-bit hashes.
  pub hash_from_slice : Bytes → Option ℕ
  pub hash_to_vec : ℕ → Bytes
  -- `Transaction::deserialize`
  pub transaction_from_bytes : Bytes → Option Transaction

-- What the round trips rely on: the 32 bytes of a hash read back as the hash.
abbrev pub HashBytesAgree : Bitcoin → Type 0
HashBytesAgree lib = (h : ℕ) → lib.hash_from_slice (lib.hash_to_vec h) ≡ some h

module _ ⦃lib : Bitcoin⦄ where
  abbrev pub block_hash : Block → BlockHash
  block_hash b = lib.header_hash b.header

  abbrev pub txid_of : Transaction → Txid
  txid_of tx = lib.tx_hash tx

  abbrev pub is_coin_base : Transaction → Bool
  is_coin_base tx = lib.is_coinbase tx

  abbrev pub address_of : Script → Network → Option String
  address_of script network = lib.address_from_script script network

  abbrev pub script_of : Address → Script
  script_of address = lib.address_script address

  abbrev pub hash_of_bytes : Bytes → Option ℕ
  hash_of_bytes bytes = lib.hash_from_slice bytes

  abbrev pub bytes_of_hash : ℕ → Bytes
  bytes_of_hash hash = lib.hash_to_vec hash

-- `b.header.prev_blockhash`
abbrev pub prev_hash : Block → BlockHash
prev_hash b = b.header.prev_blockhash

unfoldable pub outpoint_beq : OutPoint → OutPoint → Bool
outpoint_beq a b = (a.txid == b.txid) && (a.vout == b.vout)

pub outpoint_beq_iff : (a b : OutPoint) → (outpoint_beq a b ≡ true) ↔ (a ≡ b)
unfolding outpoint_beq
outpoint_beq_iff a b = ground arith

instance abbrev pub outpoint_eq : Eq OutPoint
outpoint_eq = record { beq = outpoint_beq; beq_iff = outpoint_beq_iff }
