-- ===== src/Proto/Restore.antt =====
-- A state that is written as a message and read back, as sync_demo.rs does with its file.
use bitcoin_dip.Base.{◌≡◌, refl, returns}
use bitcoin_dip.Base.HashMap
use bitcoin_dip.Base.HashMap.{IsMap}
use bitcoin_dip.Bitcoin.{Bitcoin, HashBytesAgree, OutPoint, outpoint_eq}
use bitcoin_dip.UtxoSet.Index.{IsIndexed}
use bitcoin_dip.Store.{State}
use bitcoin_dip.Proto.States
use bitcoin_dip.Proto.RoundTrip.{forest-from_proto-to_proto}
use bitcoin_dip.Proto.Reload.{utxos-from_proto-to_proto}

module _ ⦃lib : Bitcoin⦄ (agree : HashBytesAgree lib) where
  -- If the bytes of a hash read back as the hash and no outpoint stands twice in the set, a state's
  -- message reads back without a panic as a state with the same height, latest stable block,
  -- unstable blocks, UTXOs and settings, whose index agrees with its UTXOs.
  pub state-from_proto-to_proto :
      (s : State)
      → IsMap s.utxos.utxos
      → (s' : State) × (States.from_proto (States.to_proto s) ≡ returns s')
        × (s'.height ≡ s.height)
        × (s'.latest_stable_block_hash ≡ s.latest_stable_block_hash)
        × (s'.unstable_blocks ≡ s.unstable_blocks)
        × IsIndexed s'.utxos
        × ((o : OutPoint) → HashMap.get s'.utxos.utxos o ≡ HashMap.get s.utxos.utxos o)
        × (s'.utxos.network ≡ s.utxos.network)
        × (s'.utxos.strict ≡ s.utxos.strict)
  unfolding States.from_proto States.to_proto
  state-from_proto-to_proto s m =
      let (g, done, indexed, reads, network, strict) = utxos-from_proto-to_proto agree s.utxos m in
      (
        record s { utxos = g },
        rw
            (
              agree s.latest_stable_block_hash,
              done,
              forest-from_proto-to_proto agree s.unstable_blocks,
            )
            refl,
        refl,
        refl,
        refl,
        indexed,
        reads,
        network,
        strict,
      )
