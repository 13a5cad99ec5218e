-- ===== src/Store/Ledger.antt =====
-- The abstract view of the chain: a map from outpoints to outputs, and what blocks do to it.
use bitcoin_dip.Base.{
  ℕ, suc, ◌≤◌, ◌≡◌, ◌^◌, ◌-◌, ◌+◌, String, Option, none, List, [], ◌∷◌, length, map, leb, ltb,
  if◌then◌else◌,
}
use bitcoin_dip.Bitcoin.{Network, OutPoint, TxOut, Transaction, Block, Height, Bitcoin, txid_of}
use bitcoin_dip.Base.Entries.{when}
use bitcoin_dip.UtxoSet.Index.{is_address, pays}
use bitcoin_dip.UtxoSet.Transact.{Utxos, after_tx}
use bitcoin_dip.Store.{UtxoEntry}

-- The blocks of a chain with at least so many confirmations: the tip has one.
abbrev pub confirmed_blocks : ℕ → List Block → List Block
confirmed_blocks min [] = []
confirmed_blocks min (b ∷ bs) =
    let rest = confirmed_blocks min bs in if ltb (length (b ∷ bs)) min then [] else b ∷ rest

-- The entries of an answer as a map.
abbrev pub keyed : List UtxoEntry → List (OutPoint × (TxOut × Height))
keyed entries = map (λ e. (e.0, (e.1, e.2))) entries

module _ ⦃lib : Bitcoin⦄ where
  abbrev pub after_txs : List Transaction → Height → Utxos → Utxos
  after_txs [] height m = m
  after_txs (tx ∷ txs) height m = after_txs txs height (after_tx tx height m)

  -- A block for each height from `height` on.
  abbrev pub after_blocks : List Block → Height → Utxos → Utxos
  after_blocks [] height m = m
  after_blocks (b ∷ bs) height m = after_blocks bs (suc height) (after_txs b.txdata height m)

  -- No transaction has more outputs than `u32` counts, or one that is unspent already.
  abbrev pub AllNew : List Transaction → Height → Utxos → Type 0
  AllNew [] height m = Unit {0}
  AllNew (tx ∷ txs) height m =
      (length tx.output ≤ 2 ^ 32)
      × ((k : ℕ) → m (record { txid = txid_of tx; vout = k }) ≡ none)
      × AllNew txs height (after_tx tx height m)

  abbrev pub AllNewBlocks : List Block → Height → Utxos → Type 0
  AllNewBlocks [] height m = Unit {0}
  AllNewBlocks (b ∷ bs) height m =
      AllNew b.txdata height m × AllNewBlocks bs (suc height) (after_txs b.txdata height m)

  -- What an answer for the address shows of an outpoint, where the main chain has the height `top`.
  abbrev pub visible :
      String → Network → Height → ℕ → Option (TxOut × Height) → Option (TxOut × Height)
  visible address network top min r =
      if is_address address (pays network r) then when (λ v. leb min (top - v.1 + 1)) r else none
