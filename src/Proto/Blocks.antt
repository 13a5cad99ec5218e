-- ===== src/Proto/Blocks.antt =====
-- canister/src/block.rs: a block as a message and back. A missing field or a hash of the wrong
-- length panics.
use bitcoin_dip.Base.{some, map, Outcome, returns, ◌>>=◌, unwrap}
use bitcoin_dip.Bitcoin.{
  Bitcoin, BlockHeader, Block, OutPoint, TxIn, TxOut, Transaction, hash_of_bytes, bytes_of_hash,
}
use bitcoin_dip.Proto
use bitcoin_dip.Proto.{collect}

-- The value of a field that must be there, read further.
abbrev pub outpoint_of : ⦃lib : Bitcoin⦄ → Proto.OutPoint → Outcome OutPoint
outpoint_of o = do
  txid ← unwrap (hash_of_bytes o.txid)
  returns (record { txid = txid; vout = o.vout })

abbrev pub txout_of : Proto.TxOut → TxOut
txout_of o = record { value = o.value; script_pubkey = o.script_pubkey }

abbrev pub txout_message : TxOut → Proto.TxOut
txout_message o = record { value = o.value; script_pubkey = o.script_pubkey }

module _ ⦃lib : Bitcoin⦄ where
  abbrev pub outpoint_message : OutPoint → Proto.OutPoint
  outpoint_message o = record { txid = bytes_of_hash o.txid; vout = o.vout }

  abbrev pub header_message : BlockHeader → Proto.BlockHeader
  header_message h = record {
    version = h.version;
    prev_blockhash = bytes_of_hash h.prev_blockhash;
    merkle_root = bytes_of_hash h.merkle_root;
    time = h.time;
    bits = h.bits;
    nonce = h.nonce;
  }

  abbrev pub txin_message : TxIn → Proto.TxIn
  txin_message i = record {
    previous_output = some (outpoint_message i.previous_output);
    script_sig = i.script_sig;
    sequence = i.sequence;
    witness = i.witness;
  }

  abbrev pub transaction_message : Transaction → Proto.Transaction
  transaction_message t = record {
    version = t.version;
    lock_time = t.lock_time;
    input = map txin_message t.input;
    output = map txout_message t.output;
  }

  unfoldable pub to_proto : Block → Proto.Block
  to_proto b = record {
    header = some (header_message b.header);
    txdata = map transaction_message b.txdata;
  }

  abbrev pub header_of : Proto.BlockHeader → Outcome BlockHeader
  header_of h = do
    prev_blockhash ← unwrap (hash_of_bytes h.prev_blockhash)
    merkle_root ← unwrap (hash_of_bytes h.merkle_root)
    returns (record {
      version = h.version;
      prev_blockhash = prev_blockhash;
      merkle_root = merkle_root;
      time = h.time;
      bits = h.bits;
      nonce = h.nonce;
    })

  abbrev pub txin_of : Proto.TxIn → Outcome TxIn
  txin_of i = do
    prev_output ← unwrap i.previous_output
    previous_output ← outpoint_of prev_output
    returns (record {
      previous_output = previous_output;
      script_sig = i.script_sig;
      sequence = i.sequence;
      witness = i.witness;
    })

  abbrev pub transaction_of : Proto.Transaction → Outcome Transaction
  transaction_of t = do
    input ← collect txin_of t.input
    returns (record {
      version = t.version;
      lock_time = t.lock_time;
      input = input;
      output = map txout_of t.output;
    })

  unfoldable pub from_proto : Proto.Block → Outcome Block
  from_proto b = do
    header_field ← unwrap b.header
    header ← header_of header_field
    txdata ← collect transaction_of b.txdata
    returns (record { header = header; txdata = txdata })
