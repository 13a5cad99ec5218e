-- ===== src/Examples/Crate.antt =====
-- A toy crate for the unit tests, in which what they build has distinct hashes: an address is a
-- row of one character, a script is the address's length, a transaction's hash is made of those that
-- it spends and of its script, and a block's is the hash of its first transaction.
use bitcoin_dip.Base.{
  ℕ, zero, suc, ◌+◌, ◌*◌, String, false, true, Option, none, some, List, [], ◌∷◌, ◌==◌, string_eq,
  if◌then◌else◌,
}
use mathlib.Core.Option
use Prim.Native.String.{count, ◌++◌ as append}
use bitcoin_dip.Bitcoin.{Bitcoin, Bytes, Address, TxIn, TxOut, Txid}
use bitcoin_dip.Examples.{first_byte}
use bitcoin_dip.TestBuilder.{Mining}

abbrev pub random : ℕ → Address
random zero = ""
random (suc i) = append "x" (random i)

abbrev named : Bytes → Option Address
named [] = none
named (b ∷ bytes) = some (random b)

abbrev read_address : String → Option Address
read_address text = if text == random (count text) then some text else none

abbrev spent_sum : List TxIn → ℕ
spent_sum [] = 0
spent_sum (i ∷ is) = 200 * i.previous_output.txid + spent_sum is

abbrev script_sum : List TxOut → ℕ
script_sum [] = 0
script_sum (o ∷ os) = Option.get_or (first_byte o.script_pubkey) 0

abbrev first_txid : List Txid → Txid
first_txid [] = 0
first_txid (txid ∷ txids) = txid

instance abbrev pub crate : Bitcoin
crate = record {
  header_hash = λ h. h.merkle_root;
  tx_hash = λ tx. 1 + spent_sum tx.input + script_sum tx.output;
  is_coinbase = λ tx. false;
  address_from_script = λ script network. named script;
  address_from_str = read_address;
  address_script = λ address. count address ∷ [];
  hash_from_slice = first_byte;
  hash_to_vec = λ h. h ∷ [];
  transaction_from_bytes = λ bytes. none;
}

instance abbrev pub mining : Mining
mining = record {
  merkle_root = first_txid;
  compact_target = λ target. 0;
  target = λ h. 0;
  validate_pow = λ h target. true;
  default_hash = 0;
}
