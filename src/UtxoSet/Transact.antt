-- ===== src/UtxoSet/Transact.antt =====
-- `insert_tx` against the map from outpoints to outputs that a transaction should leave.
use bitcoin_dip.Base.{
  ℕ, suc, ◌+◌, ◌%◌, ◌^◌, ◌≤◌, ◌<◌, ◌≡◌, ◌≢◌, refl, ap, ◌∙◌, inl, inr, none, List, [], ◌∷◌, length,
  ◌==◌, if◌then◌else◌, Bool-cases, arith,
}
use bitcoin_dip.Base.HashMap
use bitcoin_dip.Bitcoin.{
  OutPoint, TxOut, Transaction, Txid, Height, Bitcoin, txid_of, is_coin_base, outpoint_eq,
  outpoint_beq_iff,
}
use bitcoin_dip.UtxoSet.{UtxoSet, remove_spent_txs, insert_outputs, insert_tx}
use bitcoin_dip.UtxoSet.Index.{IsIndexed, added, insert_outpoint_fresh, added-IsIndexed}
pub use bitcoin_dip.UtxoSet.Removal.{
  Utxos, spent_by, created, or_else, after_tx, Reads, Spends, Spends-bind, Spends-imp,
  remove_spent_txs_lem,
}

module _ ⦃lib : Bitcoin⦄ where
  pub insert_ne :
      (s : UtxoSet) (o o' : OutPoint) (v : TxOut × Height)
      → o ≢ o'
      → HashMap.get (HashMap.insert s.utxos o v) o' ≡ HashMap.get s.utxos o'
  insert_ne s o o' v ne = elim (Bool-cases (o == o')) [
    | inl same ↦ absurd (ne ((outpoint_beq_iff o o').0 same))
    | inr differs ↦ rw (HashMap.get-insert s.utxos o o' v, differs)
  ]

  -- The later outputs leave the earlier positions alone.
  created_before :
      (txid : Txid) (outs : List TxOut) (vout : ℕ) (height : Height) (o : OutPoint)
      → o.vout < vout
      → created txid vout outs height o ≡ none
  created_before txid [] vout height o h = refl
  created_before txid (out ∷ outs) vout height o h =
      let here : OutPoint = record { txid = txid; vout = vout } in
      elim (Bool-cases (here == o)) [
        | inl same ↦ absurd (omega (arith, ap (λ x. x.vout) ((outpoint_beq_iff here o).0 same)))
        | inr differs ↦ rw differs (created_before txid outs (suc vout) height o (omega arith))
      ]

  created_first :
      (txid : Txid) (outs : List TxOut) (vout : ℕ) (height : Height) (s : UtxoSet) (out : TxOut)
      (o' : OutPoint)
      → or_else (created txid (suc vout) outs height o') (
          HashMap.get
            (HashMap.insert s.utxos (record { txid = txid; vout = vout }) (out, height))
            o')
        ≡ or_else (created txid vout (out ∷ outs) height o') (HashMap.get s.utxos o')
  created_first txid outs vout height s out o' =
      let here : OutPoint = record { txid = txid; vout = vout } in
      elim (Bool-cases (here == o')) [
        | inl same ↦
            let before = ap (λ x. x.vout) ((outpoint_beq_iff here o').0 same) in
            rw (
              HashMap.get-insert s.utxos here o' (out, height),
              same,
              created_before txid outs (suc vout) height o' (omega arith),
            )
        | inr differs ↦ rw (HashMap.get-insert s.utxos here o' (out, height), differs)
      ]

  insert_outputs_lem :
      (txid : Txid) (outs : List TxOut) (vout : ℕ) (s : UtxoSet) (height : Height)
      → IsIndexed s
      → vout + length outs ≤ 2 ^ 32
      → ((k : ℕ) → vout ≤ k → HashMap.get s.utxos (record { txid = txid; vout = k }) ≡ none)
      → Spends s
          (λ o. or_else (created txid vout outs height o) (HashMap.get s.utxos o))
          (insert_outputs s txid vout outs height)
  unfolding insert_outputs
  insert_outputs_lem txid [] vout s height v fits fresh = record {
    indexed = v;
    reads = λ o. refl;
    network = refl;
    strict = refl;
  }
  insert_outputs_lem txid (out ∷ outs) vout s height v fits fresh =
      let o : OutPoint = record { txid = txid; vout = vout } in
      let place : vout % 2 ^ 32 ≡ vout = omega arith in
      let rest =
        insert_outputs_lem txid outs (suc vout) (added s o out height) height
          (added-IsIndexed s o out height (fresh vout (omega arith)) v) (omega arith)
          (λ k h.
            insert_ne s o (record { txid = txid; vout = k }) (out, height)
              (λ e. omega (arith, ap (λ x. x.vout) e))
            ∙ fresh k (omega arith)) in
      rw (place, insert_outpoint_fresh s o out height (fresh vout (omega arith)))
        (Spends-imp s (added s o out height) _ _ _ refl refl
          (created_first txid outs vout height s out) rest)

  -- No output of the transaction is in the set yet.
  abbrev pub IsNew : UtxoSet → Transaction → Type 0
  IsNew s tx = (k : ℕ) → HashMap.get s.utxos (record { txid = txid_of tx; vout = k }) ≡ none

  -- Inserting a transaction with at most 2^32 outputs, none of them in the set yet, into a set
  -- that agrees with its index, either returns or panics as a strict set that misses an outpoint.
  -- If it returns, the set agrees with its index, what the transaction spends is gone, what it
  -- creates is there, and all else is kept.
  pub insert_tx_lem :
      (s : UtxoSet) (tx : Transaction) (height : Height)
      → IsIndexed s
      → length tx.output ≤ 2 ^ 32
      → IsNew s tx
      → Spends s (after_tx tx height (HashMap.get s.utxos)) (insert_tx s tx height)
  unfolding insert_tx
  insert_tx_lem s tx height v fits fresh =
      Spends-bind s _ _ (remove_spent_txs s tx)
        (λ s1. insert_outputs s1 (txid_of tx) 0 tx.output height) (remove_spent_txs_lem s tx v)
        (λ s1 r.
          Spends-imp s1 s1 _ _ (insert_outputs s1 (txid_of tx) 0 tx.output height) refl refl
            (λ o. ap (or_else (created (txid_of tx) 0 tx.output height o)) (r.reads o))
            (insert_outputs_lem (txid_of tx) tx.output 0 s1 height r.indexed (omega arith)
              (λ k h. r.reads (record { txid = txid_of tx; vout = k }) ∙ still_none k)))
    where
      still_none :
          (k : ℕ)
          → (if is_coin_base tx
              then HashMap.get s.utxos (record { txid = txid_of tx; vout = k })
              else (if spent_by tx.input (record { txid = txid_of tx; vout = k })
                  then none
                  else HashMap.get s.utxos (record { txid = txid_of tx; vout = k })))
            ≡ none
      still_none k = ground (arith, fresh k)
