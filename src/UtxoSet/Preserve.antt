-- ===== src/UtxoSet/Preserve.antt =====
-- Every transaction that `insert_tx` accepts keeps the set valid.
use bitcoin_dip.Base.{
  ℕ, suc, ◌%◌, ◌^◌, ◌≤◌, ◌≡◌, sym, ◌∙◌, subst, inl, inr, Bool, true, false, Option, none, some,
  List, [], ◌∷◌, ◌==◌, if◌then◌else◌, Bool-cases, Option-cases, returns, panics,
  outpoint_already_inserted, >>=-eq-returns, arith,
}
use bitcoin_dip.Base.HashMap
use bitcoin_dip.Bitcoin.{
  OutPoint, TxOut, Transaction, Txid, Height, Bitcoin, txid_of, is_coin_base, outpoint_eq,
}
use bitcoin_dip.UtxoSet.{
  UtxoSet, is_duplicate, remove_spent_txs, insert_outputs, insert_outpoint, insert_tx,
}
use bitcoin_dip.UtxoSet.Index.{
  IsIndexed, added, insert_outpoint_lem, insert_outpoint_fresh, added-IsIndexed,
}
use bitcoin_dip.UtxoSet.Transact.{Spends, spent_by, remove_spent_txs_lem}

-- No output was created above the height.
abbrev pub IsBelow : Height → UtxoSet → Type 0
IsBelow n s = (o : OutPoint) (v : TxOut × Height) → HashMap.get s.utxos o ≡ some v → v.1 ≤ n

module _ ⦃lib : Bitcoin⦄ where
  -- The index is exact, no output lies above the height, and the settings are those of `s`.
  pub record IsValid (n : Height) (s s' : UtxoSet) : Type 0 where
    pub indexed : IsIndexed s'
    pub below : IsBelow n s'
    pub network : s'.network ≡ s.network
    pub strict : s'.strict ≡ s.strict

  -- Outside the two duplicate transactions only a new outpoint is accepted.
  insert_outpoint_accepted :
      (s s' : UtxoSet) (o : OutPoint) (out : TxOut) (height : Height)
      → is_duplicate o.txid ≡ false
      → insert_outpoint s o out height ≡ returns s'
      → (HashMap.get s.utxos o ≡ none) × (added s o out height ≡ s')
  insert_outpoint_accepted s s' o out height plain e = elim (Option-cases (HashMap.get s.utxos o)) [
    | inl fresh ↦ (fresh, cc (insert_outpoint_fresh s o out height fresh))
    | inr (v, held) ↦
        let known : HashMap.contains_key s.utxos o ≡ true =
          HashMap.contains_key_lem s.utxos o ∙ rw held in
        let refused : insert_outpoint s o out height ≡ panics outpoint_already_inserted =
          insert_outpoint_lem s o out height ∙ rw (known, plain) in
        absurd (cc refused)
  ]

  added-IsBelow :
      (n : Height) (s : UtxoSet) (o : OutPoint) (out : TxOut) (height : Height)
      → height ≤ n
      → IsBelow n s
      → IsBelow n (added s o out height)
  added-IsBelow n s o out height h b o' v e = elim (Bool-cases (o == o')) [
    | inl same ↦
        let new : some (out, height) ≡ some v =
          sym (HashMap.get-insert s.utxos o o' (out, height) ∙ rw same) ∙ e in
        ground arith
    | inr differs ↦ b o' v (sym (HashMap.get-insert s.utxos o o' (out, height) ∙ rw differs) ∙ e)
  ]

  insert_outputs-IsValid :
      (n : Height) (txid : Txid) (outs : List TxOut) (vout : ℕ) (s0 s s' : UtxoSet)
      (height : Height)
      → is_duplicate txid ≡ false
      → height ≤ n
      → IsValid n s0 s
      → insert_outputs s txid vout outs height ≡ returns s'
      → IsValid n s0 s'
  unfolding insert_outputs
  insert_outputs-IsValid n txid [] vout s0 s s' height plain h v e =
      let same : s ≡ s' = cc in subst (IsValid n s0) same v
  insert_outputs-IsValid n txid (out ∷ outs) vout s0 s s' height plain h v e =
      let o : OutPoint = record { txid = txid; vout = vout % 2 ^ 32 } in
      let (s1, first, rest) = >>=-eq-returns (insert_outpoint s o out height) _ e in
      let (fresh, same) = insert_outpoint_accepted s s1 o out height plain first in
      insert_outputs-IsValid n txid outs (suc vout) s0 s1 s' height plain h
        (subst (IsValid n s0) same (record {
          indexed = added-IsIndexed s o out height fresh v.indexed;
          below = added-IsBelow n s o out height h v.below;
          network = v.network;
          strict = v.strict;
        }))
        rest

  -- An output that is left after spending was there before.
  kept :
      (coinbase spent : Bool) (r : Option (TxOut × Height)) (v : TxOut × Height)
      → (if coinbase then r else (if spent then none else r)) ≡ some v
      → r ≡ some v
  kept true spent r v e = e
  kept false true r v e = cc
  kept false false r v e = e

  remove_spent_txs-IsValid :
      (n : Height) (s s' : UtxoSet) (tx : Transaction)
      → IsIndexed s
      → IsBelow n s
      → remove_spent_txs s tx ≡ returns s'
      → IsValid n s s'
  remove_spent_txs-IsValid n s s' tx v b e =
      let r = subst (Spends s _) e (remove_spent_txs_lem s tx v) in
      record {
        indexed = r.indexed;
        below =
            λ o w h. b o w (kept (is_coin_base tx) (spent_by tx.input o) _ w (sym (r.reads o) ∙ h));
        network = r.network;
        strict = r.strict;
      }

  -- If the set agrees with its index, none of its outputs lies above `n`, and a transaction at a
  -- height up to `n` that is not one of the two duplicate ones is accepted, the set after it
  -- agrees with its index too, none of its outputs lies above `n`, and its settings are the same.
  pub insert_tx-IsValid :
      (n : Height) (s s' : UtxoSet) (tx : Transaction) (height : Height)
      → is_duplicate (txid_of tx) ≡ false
      → height ≤ n
      → IsIndexed s
      → IsBelow n s
      → insert_tx s tx height ≡ returns s'
      → IsValid n s s'
  unfolding insert_tx
  insert_tx-IsValid n s s' tx height plain h v b e =
      let (s1, spend, create) = >>=-eq-returns (remove_spent_txs s tx) _ e in
      insert_outputs-IsValid n (txid_of tx) tx.output 0 s s1 s' height plain h
        (remove_spent_txs-IsValid n s s1 tx v b spend) create
