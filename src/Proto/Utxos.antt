-- ===== src/Proto/Utxos.antt =====
-- `to_proto` and `from_proto` of canister/src/utxoset.rs.
use bitcoin_dip.Base.{
  ℕ, zero, suc, some, List, [], ◌∷◌, map, Outcome, returns, panics, ◌>>=◌, unwrap,
  invalid_network_id,
}
use bitcoin_dip.Bitcoin.{
  Bitcoin, Network, bitcoin, testnet, signet, regtest, OutPoint, TxOut, Height,
}
use bitcoin_dip.UtxoSet.{UtxoSet, insert_outpoint}
use bitcoin_dip.Proto
use bitcoin_dip.Proto.Blocks.{outpoint_message, outpoint_of, txout_message, txout_of}

abbrev pub network_id : Network → ℕ
network_id bitcoin = 0
network_id testnet = 1
network_id signet = 2
network_id regtest = 3

abbrev pub network_of : ℕ → Outcome Network
network_of zero = returns bitcoin
network_of (suc zero) = returns testnet
network_of (suc (suc zero)) = returns signet
network_of (suc (suc (suc zero))) = returns regtest
network_of (suc (suc (suc (suc n)))) = panics invalid_network_id

module _ ⦃lib : Bitcoin⦄ where
  abbrev pub utxo_message : OutPoint × (TxOut × Height) → Proto.Utxo
  utxo_message (o, (txout, height)) = record {
    outpoint = some (outpoint_message o);
    txout = some (txout_message txout);
    height = height;
  }

  unfoldable pub to_proto : UtxoSet → Proto.UtxoSet
  to_proto s = record {
    utxos = map utxo_message s.utxos;
    strict = s.strict;
    network = network_id s.network;
  }

  -- The loop of `from_proto`.
  unfoldable pub insert_messages : UtxoSet → List Proto.Utxo → Outcome UtxoSet
  insert_messages s [] = returns s
  insert_messages s (u ∷ us) = do
    outpoint_field ← unwrap u.outpoint
    o ← outpoint_of outpoint_field
    tx_out ← unwrap u.txout
    s' ← insert_outpoint s o (txout_of tx_out) u.height
    insert_messages s' us

  unfoldable pub from_proto : Proto.UtxoSet → Outcome UtxoSet
  from_proto m = do
    network ← network_of m.network
    insert_messages
        (record { utxos = []; network = network; address_to_outpoints = []; strict = m.strict })
        m.utxos
