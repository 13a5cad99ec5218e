-- ===== src/UtxoSet/Accept.antt =====
-- When `insert_tx` returns: a transaction with new outputs that spends what the set holds.
use mathlib.Core.Path.{fun_ext}
use bitcoin_dip.Base.{
  ℕ, suc, ◌+◌, ◌%◌, ◌^◌, ◌≤◌, ◌<◌, ◌≡◌, refl, sym, ap, subst, ◌∙◌, Bool, true, false, Option, none,
  some, List, [], ◌∷◌, length, ◌==◌, if◌then◌else◌, returns, arith,
}
use bitcoin_dip.Base.HashMap
use bitcoin_dip.Bitcoin.{
  OutPoint, TxIn, TxOut, Transaction, Txid, Height, Bitcoin, txid_of, is_coin_base, outpoint_eq,
}
use bitcoin_dip.UtxoSet.{UtxoSet, remove_inputs, remove_spent_txs, insert_outputs, insert_tx}
use bitcoin_dip.UtxoSet.Index.{IsIndexed, added, insert_outpoint_fresh}
use bitcoin_dip.UtxoSet.Spend.{remove_outpoint_held}
use bitcoin_dip.UtxoSet.Transact.{
  Utxos, after_tx, Spends, remove_spent_txs_lem, insert_tx_lem, insert_ne,
}

-- Each input names an output that the map has, and that no input before it named.
abbrev pub AreHeld : List TxIn → Utxos → Type 0
AreHeld [] m = Unit {0}
AreHeld (i ∷ is) m =
    ((v : TxOut × Height) × (m i.previous_output ≡ some v))
    × AreHeld is (λ o. if i.previous_output == o then none else m o)

module _ ⦃lib : Bitcoin⦄ where
  -- A transaction that the ledger can take.
  abbrev pub IsAcceptable : Transaction → Utxos → Type 0
  IsAcceptable tx m =
      (length tx.output ≤ 2 ^ 32)
      × ((k : ℕ) → m (record { txid = txid_of tx; vout = k }) ≡ none)
      × (is_coin_base tx ≡ false → AreHeld tx.input m)

  remove_inputs-returns :
      (is : List TxIn) (s : UtxoSet)
      → IsIndexed s
      → AreHeld is (HashMap.get s.utxos)
      → (s' : UtxoSet) × (remove_inputs s is ≡ returns s')
  unfolding remove_inputs
  remove_inputs-returns [] s v h = (s, refl)
  remove_inputs-returns (i ∷ is) s v h =
      let (s1, first, r) = remove_outpoint_held s i.previous_output h.0.0 v h.0.1 in
      let reads : HashMap.get s1.utxos
          ≡ (λ o. if i.previous_output == o then none else HashMap.get s.utxos o) =
        fun_ext (λ o.
          ap (λ m. HashMap.get m o) r.utxos ∙ HashMap.get-remove s.utxos i.previous_output o) in
      let (s2, later) =
        remove_inputs-returns is s1 r.indexed (subst (AreHeld is) (sym reads) h.1) in
      (s2, rw first later)

  remove_spent_txs-returns :
      (s : UtxoSet) (tx : Transaction)
      → IsIndexed s
      → (is_coin_base tx ≡ false → AreHeld tx.input (HashMap.get s.utxos))
      → (s' : UtxoSet) × (remove_spent_txs s tx ≡ returns s')
  unfolding remove_spent_txs
  remove_spent_txs-returns s tx v h = by_kind (is_coin_base tx) h
    where
      by_kind :
          (b : Bool)
          → (b ≡ false → AreHeld tx.input (HashMap.get s.utxos))
          → (s' : UtxoSet) × ((if b then returns s else remove_inputs s tx.input) ≡ returns s')
      by_kind true h = (s, refl)
      by_kind false h = remove_inputs-returns tx.input s v (h refl)

  -- One turn of the loop at a new outpoint.
  insert_outputs-fresh :
      (s : UtxoSet) (txid : Txid) (vout : ℕ) (out : TxOut) (outs : List TxOut) (height : Height)
      → vout < 2 ^ 32
      → HashMap.get s.utxos (record { txid = txid; vout = vout }) ≡ none
      → insert_outputs s txid vout (out ∷ outs) height
        ≡ insert_outputs
            (added s (record { txid = txid; vout = vout }) out height)
            txid
            (suc vout)
            outs
            height
  unfolding insert_outputs
  insert_outputs-fresh s txid vout out outs height fits fresh =
      let place : vout % 2 ^ 32 ≡ vout = omega arith in
      rw (place, insert_outpoint_fresh s (record { txid = txid; vout = vout }) out height fresh)
        refl

  insert_outputs-returns :
      (outs : List TxOut) (txid : Txid) (vout : ℕ) (s : UtxoSet) (height : Height)
      → vout + length outs ≤ 2 ^ 32
      → ((k : ℕ) → vout ≤ k → HashMap.get s.utxos (record { txid = txid; vout = k }) ≡ none)
      → (s' : UtxoSet) × (insert_outputs s txid vout outs height ≡ returns s')
  unfolding insert_outputs
  insert_outputs-returns [] txid vout s height fits fresh = (s, refl)
  insert_outputs-returns (out ∷ outs) txid vout s height fits fresh =
      let o : OutPoint = record { txid = txid; vout = vout } in
      let (s', later) =
        insert_outputs-returns outs txid (suc vout) (added s o out height) height (omega arith)
          (λ k h.
            insert_ne s o (record { txid = txid; vout = k }) (out, height)
              (λ e. omega (arith, ap (λ x. x.vout) e))
            ∙ fresh k (omega arith)) in
      (
        s',
        insert_outputs-fresh s txid vout out outs height (omega arith) (fresh vout (omega arith))
            ∙ later,
      )

  -- A set that agrees with its index takes an acceptable transaction, and reads as the ledger then.
  pub insert_tx-accepts :
      (s : UtxoSet) (tx : Transaction) (height : Height)
      → IsIndexed s
      → IsAcceptable tx (HashMap.get s.utxos)
      → (s' : UtxoSet) × (insert_tx s tx height ≡ returns s')
        × IsIndexed s'
        × (HashMap.get s'.utxos ≡ after_tx tx height (HashMap.get s.utxos))
  unfolding insert_tx
  insert_tx-accepts s tx height v a =
      let (s1, spent) = remove_spent_txs-returns s tx v a.2 in
      let r1 = subst (Spends s _) spent (remove_spent_txs_lem s tx v) in
      let (s2, made) =
        insert_outputs-returns tx.output (txid_of tx) 0 s1 height (omega (arith, a.0)) (λ k h.
          r1.reads (record { txid = txid_of tx; vout = k })
          ∙ unspent (is_coin_base tx) _ _ (a.1 k)) in
      let done : insert_tx s tx height ≡ returns s2 = rw spent made in
      let r = subst (Spends s _) done (insert_tx_lem s tx height v a.0 a.1) in
      (s2, done, r.indexed, fun_ext r.reads)
    where
      unspent :
          (coinbase spent : Bool) (r : Option (TxOut × Height))
          → r ≡ none
          → (if coinbase then r else (if spent then none else r)) ≡ none
      unspent true spent r e = e
      unspent false true r e = refl
      unspent false false r e = e
