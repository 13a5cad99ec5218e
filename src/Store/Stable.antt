-- ===== src/Store/Stable.antt =====
-- A block that becomes stable is applied to the ledger.
use bitcoin_dip.Base.{
  ◌+◌, ◌^◌, ◌<◌, ◌≡◌, refl, sym, ap, subst, ◌∙◌, some, List, [], ◌∷◌, returns, checked_add32, arith,
}
use bitcoin_dip.Base.HashMap
use bitcoin_dip.Bitcoin.{Transaction, Block, Height, Bitcoin, block_hash, outpoint_eq}
use bitcoin_dip.BlockForest.{BlockForest}
use bitcoin_dip.BlockForest
use bitcoin_dip.UtxoSet.{UtxoSet}
use bitcoin_dip.UtxoSet.Index.{IsIndexed}
use bitcoin_dip.UtxoSet.Transact.{Utxos, after_tx}
use bitcoin_dip.UtxoSet.Accept.{IsAcceptable, insert_tx-accepts}
use bitcoin_dip.Store.{State, insert_txs, insert_block}
use bitcoin_dip.Store.Insert.{IsConsistent, settle, insert_block_steps}
use bitcoin_dip.Store.Ledger.{after_txs}

module _ ⦃lib : Bitcoin⦄ where
  -- Each transaction is acceptable after those before it.
  abbrev pub AreAcceptable : List Transaction → Height → Utxos → Type 0
  AreAcceptable [] height m = Unit {0}
  AreAcceptable (tx ∷ txs) height m =
      IsAcceptable tx m × AreAcceptable txs height (after_tx tx height m)

  pub insert_txs-accepts :
      (txs : List Transaction) (s : UtxoSet) (height : Height)
      → IsIndexed s
      → AreAcceptable txs height (HashMap.get s.utxos)
      → (s' : UtxoSet) × (insert_txs s txs height ≡ returns s')
        × (HashMap.get s'.utxos ≡ after_txs txs height (HashMap.get s.utxos))
  unfolding insert_txs
  insert_txs-accepts [] s height v a = (s, refl, refl)
  insert_txs-accepts (tx ∷ txs) s height v a =
      let (s1, first, v1, reads) = insert_tx-accepts s tx height v a.0 in
      let (s2, later, more) =
        insert_txs-accepts txs s1 height v1 (subst (AreAcceptable txs height) (sym reads) a.1) in
      (s2, rw first later, more ∙ ap (after_txs txs height) reads)

  -- If a pushed block makes a block stable in a consistent state, the transactions of that one are
  -- acceptable in turn, and the height does not overflow, then `insert_block` returns. The new
  -- state is one higher, its latest stable block is that block, and its UTXOs are those that the
  -- block's transactions leave of the ones before.
  pub insert_block-applies :
      (s : State) (block b : Block) (f g : BlockForest)
      → IsConsistent s
      → BlockForest.push s.unstable_blocks block ≡ returns f
      → BlockForest.pop f s.latest_stable_block_hash ≡ returns (some b, g)
      → AreAcceptable b.txdata s.height (HashMap.get s.utxos.utxos)
      → s.height + 1 < 2 ^ 32
      → (s' : State) × (insert_block s block ≡ returns s')
        × (s'.height ≡ s.height + 1)
        × (s'.latest_stable_block_hash ≡ block_hash b)
        × (s'.unstable_blocks ≡ g)
        × (HashMap.get s'.utxos.utxos ≡ after_txs b.txdata s.height (HashMap.get s.utxos.utxos))
  insert_block-applies s block b f g c pushed popped a fits =
      let (u, inserted, reads) = insert_txs-accepts b.txdata s.utxos s.height c.indexed a in
      let grown : checked_add32 s.height 1 ≡ returns (s.height + 1) = ground arith in
      let s' : State = record {
        height = s.height + 1;
        latest_stable_block_hash = block_hash b;
        utxos = u;
        unstable_blocks = g;
      } in
      let settled : settle s (some b) g ≡ returns s' = rw (inserted, grown) refl in
      (s', insert_block_steps s block f g (some b) pushed popped ∙ settled, refl, refl, refl, reads)
