-- ===== src/Examples.antt =====
-- A toy `Bitcoin` crate, and blocks, forests and UTXOs for the tests and the examples: a block's hash
-- is its nonce, a transaction's is its version, and the first byte of a script is its address.
pub mod Forest
pub mod Utxos
pub mod Store
pub mod Wire
pub mod Send
pub mod Sign
pub mod Ledger
pub mod Loop
pub mod Mine
pub mod Crate
pub mod Passed
pub mod PassedStates
pub mod PassedMessages
pub mod History
pub mod Supply
pub mod Funds
use bitcoin_dip.Base.{ℕ, zero, suc, Bool, true, false, Option, none, some, List, [], ◌∷◌, String}
use bitcoin_dip.Bitcoin.{
  Bitcoin, Bytes, Block, BlockHash, Network, regtest, OutPoint, TxIn, TxOut, Transaction, Txid,
  Address,
}
use bitcoin_dip.BlockTree.{BlockTree, tree, nil, cons}
use bitcoin_dip.BlockForest.{BlockForest}
use bitcoin_dip.UtxoSet.{UtxoSet}
use bitcoin_dip.UtxoSet

abbrev pub owner : Bytes → Option String
owner [] = none
owner (zero ∷ bytes) = none
owner (suc zero ∷ bytes) = some "alice"
owner (suc (suc n) ∷ bytes) = some "bob"

abbrev pub first_byte : Bytes → Option ℕ
first_byte [] = none
first_byte (b ∷ bytes) = some b

abbrev pub no_inputs : List TxIn → Bool
no_inputs [] = true
no_inputs (i ∷ is) = false

abbrev pub bare : ℕ → Transaction
bare n = record { version = n; lock_time = 0; input = []; output = [] }

abbrev pub read_transaction : Bytes → Option Transaction
read_transaction [] = none
read_transaction (b ∷ bytes) = some (bare b)

instance abbrev pub toy : Bitcoin
toy = record {
  header_hash = λ h. h.nonce;
  tx_hash = λ tx. tx.version;
  is_coinbase = λ tx. no_inputs tx.input;
  address_from_script = λ script network. owner script;
  address_from_str = λ text. some text;
  address_script = λ address. 1 ∷ [];
  hash_from_slice = first_byte;
  hash_to_vec = λ h. h ∷ [];
  transaction_from_bytes = read_transaction;
}

abbrev pub block : BlockHash → BlockHash → List Transaction → Block
block hash parent txs = record {
  header = record {
    version = 1;
    prev_blockhash = parent;
    merkle_root = 0;
    time = 0;
    bits = 0;
    nonce = hash;
  };
  txdata = txs;
}

abbrev pub outpoint : Txid → ℕ → OutPoint
outpoint txid vout = record { txid = txid; vout = vout }

abbrev pub pay : ℕ → ℕ → TxOut
pay value script_byte = record { value = value; script_pubkey = script_byte ∷ [] }

abbrev pub spend : OutPoint → TxIn
spend o = record { previous_output = o; script_sig = []; sequence = 0; witness = [] }

-- 50 to alice.
abbrev pub coinbase : Txid → Transaction
coinbase txid = record { version = txid; lock_time = 0; input = []; output = pay 50 1 ∷ [] }

-- Alice's 50 become 20 for bob and 30 for alice.
abbrev pub transfer : Transaction
transfer = record {
  version = 12;
  lock_time = 0;
  input = spend (outpoint 11 0) ∷ [];
  output = pay 20 2 ∷ pay 30 1 ∷ [];
}

-- Block 10 and its successors 11 and 12, of which 12 has the successor 13.
abbrev pub fork : BlockTree
fork = tree (block 10 9 []) (
    cons (tree (block 11 10 []) nil)
      (cons (tree (block 12 10 []) (cons (tree (block 13 12 []) nil) nil)) nil))

-- A tree whose root's parent is not known.
abbrev pub orphan : BlockTree
orphan = tree (block 15 14 []) nil

abbrev pub forest : ℕ → BlockForest
forest delta = record { delta = delta; trees = orphan ∷ fork ∷ [] }

abbrev pub empty_set : UtxoSet
empty_set = UtxoSet.new true regtest
