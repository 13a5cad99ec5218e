-- ===== src/Proto/States.antt =====
-- `to_proto` and `from_proto` of canister/src/store.rs.
use bitcoin_dip.Base.{some, Outcome, returns, ◌>>=◌, unwrap}
use bitcoin_dip.Bitcoin.{Bitcoin, hash_of_bytes, bytes_of_hash}
use bitcoin_dip.Store.{State}
use bitcoin_dip.Proto
use bitcoin_dip.Proto.Trees
use bitcoin_dip.Proto.Utxos

module _ ⦃lib : Bitcoin⦄ where
  unfoldable pub to_proto : State → Proto.State
  to_proto s = record {
    height = s.height;
    latest_stable_block_hash = bytes_of_hash s.latest_stable_block_hash;
    utxos = some (Utxos.to_proto s.utxos);
    unstable_blocks = some (Trees.to_proto s.unstable_blocks);
  }

  unfoldable pub from_proto : Proto.State → Outcome State
  from_proto m = do
    hash ← unwrap (hash_of_bytes m.latest_stable_block_hash)
    utxos_field ← unwrap m.utxos
    utxos ← Utxos.from_proto utxos_field
    blocks_field ← unwrap m.unstable_blocks
    unstable_blocks ← Trees.from_proto blocks_field
    returns (record {
      height = m.height;
      latest_stable_block_hash = hash;
      utxos = utxos;
      unstable_blocks = unstable_blocks;
    })
