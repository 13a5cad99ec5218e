-- ===== src/Store/Partial.antt =====
-- The UTXOs of one address, brought forward: a set that is not strict follows the ledger.
use bitcoin_dip.Base.{
  ℕ, suc, ◌^◌, ◌≤◌, ◌≡◌, refl, sym, subst, ◌∙◌, inl, inr, ◌⊎◌, String, Bool, true, false, Option,
  none, some, List, [], ◌∷◌, length, if◌then◌else◌, Outcome, returns, panics, arith,
}
use bitcoin_dip.Base.HashMap
use bitcoin_dip.Bitcoin.{
  Network, OutPoint, TxOut, Transaction, Height, Bitcoin, txid_of, is_coin_base, outpoint_eq,
}
use bitcoin_dip.UtxoSet.{UtxoSet, insert_tx}
use bitcoin_dip.UtxoSet.Index.{IsIndexed, is_address, pays}
use bitcoin_dip.UtxoSet.Transact.{
  Utxos, after_tx, created, or_else, spent_by, Reads, Spends, insert_tx_lem,
}
use bitcoin_dip.UtxoSet.Keys.{HasMap, Keeps, insert_tx-HasMap}
use bitcoin_dip.Store.{insert_txs}
use bitcoin_dip.Store.Ledger.{after_txs, AllNew}

abbrev pub IsLow : Height → Utxos → Type 0
IsLow n m = (o : OutPoint) (v : TxOut × Height) → m o ≡ some v → v.1 ≤ n

-- What a spending transaction leaves, for one outpoint.
abbrev left :
    Option (TxOut × Height) → Bool → Bool → Option (TxOut × Height) → Option (TxOut × Height)
left c coinbase spent r = or_else c (if coinbase then r else (if spent then none else r))

inside_step :
    (c : Option (TxOut × Height)) (coinbase spent : Bool) (x y : Option (TxOut × Height))
    → (x ≡ none) ⊎ (x ≡ y)
    → (left c coinbase spent x ≡ none) ⊎ (left c coinbase spent x ≡ left c coinbase spent y)
inside_step (some c) coinbase spent x y h = inr refl
inside_step none true spent x y h = h
inside_step none false true x y h = inl refl
inside_step none false false x y h = h

module _ ⦃lib : Bitcoin⦄ where
  whole_step :
      (a : String) (network : Network) (c : Option (TxOut × Height)) (coinbase spent : Bool)
      (x y : Option (TxOut × Height))
      → (is_address a (pays network y) ≡ true → x ≡ y)
      → is_address a (pays network (left c coinbase spent y)) ≡ true
      → left c coinbase spent x ≡ left c coinbase spent y
  whole_step a network (some c) coinbase spent x y h k = refl
  whole_step a network none true spent x y h k = h k
  whole_step a network none false true x y h k = refl
  whole_step a network none false false x y h k = h k

  created_low :
      (outs : List TxOut) (txid : ℕ) (vout : ℕ) (height : Height) (o : OutPoint)
      (v : TxOut × Height)
      → created txid vout outs height o ≡ some v
      → v.1 ≡ height
  created_low [] txid vout height o v e = absurd (cc e)
  created_low (out ∷ outs) txid vout height o v e =
      ground (arith, created_low outs txid (suc vout) height o v)

  left_low :
      (n : Height) (c : Option (TxOut × Height)) (coinbase spent : Bool)
      (r : Option (TxOut × Height))
      → ((v : TxOut × Height) → c ≡ some v → v.1 ≤ n)
      → ((v : TxOut × Height) → r ≡ some v → v.1 ≤ n)
      → (v : TxOut × Height) → left c coinbase spent r ≡ some v
      → v.1 ≤ n
  left_low n (some c) coinbase spent r h k v e = h v e
  left_low n none true spent r h k v e = k v e
  left_low n none false true r h k v e = absurd (cc e)
  left_low n none false false r h k v e = k v e

  pub after_tx-IsLow :
      (n : Height) (tx : Transaction) (height : Height) (m : Utxos)
      → height ≤ n
      → IsLow n m
      → IsLow n (after_tx tx height m)
  after_tx-IsLow n tx height m h low o v e =
      left_low n (created (txid_of tx) 0 tx.output height o) (is_coin_base tx) (spent_by tx.input o)
        (m o)
        (λ w c. let same = created_low tx.output (txid_of tx) 0 height o w c in omega (arith, same))
        (low o) v e

  pub after_txs-IsLow :
      (n : Height) (txs : List Transaction) (height : Height) (m : Utxos)
      → height ≤ n
      → IsLow n m
      → IsLow n (after_txs txs height m)
  after_txs-IsLow n [] height m h low = low
  after_txs-IsLow n (tx ∷ txs) height m h low =
      after_txs-IsLow n txs height (after_tx tx height m) h (after_tx-IsLow n tx height m h low)

  -- The set holds a part of the ledger, and all of it that pays the address.
  pub record Partial (a : String) (network : Network) (s : UtxoSet) (m : Utxos) : Type 0 where
    pub indexed : IsIndexed s
    pub keys : HasMap s
    pub strict : s.strict ≡ false
    pub same_network : s.network ≡ network
    pub inside : (o : OutPoint) → (HashMap.get s.utxos o ≡ none) ⊎ (HashMap.get s.utxos o ≡ m o)
    pub whole :
        (o : OutPoint) → is_address a (pays network (m o)) ≡ true → HashMap.get s.utxos o ≡ m o

  Spends-returns :
      (s : UtxoSet) (m : Utxos) (r : Outcome UtxoSet)
      → s.strict ≡ false
      → Spends s m r
      → (s' : UtxoSet) × (r ≡ returns s') × Reads s s' m
  Spends-returns s m (returns s') e h = (s', refl, h)
  Spends-returns s m (panics p) e h = absurd (cc (e, h.0))

  still_new : (x y : Option (TxOut × Height)) → (x ≡ none) ⊎ (x ≡ y) → y ≡ none → x ≡ none
  still_new x y (inl e) h = e
  still_new x y (inr e) h = e ∙ h

  insert_tx-Partial :
      (a : String) (network : Network) (s : UtxoSet) (m : Utxos) (tx : Transaction)
      (height : Height)
      → Partial a network s m
      → length tx.output ≤ 2 ^ 32
      → ((k : ℕ) → m (record { txid = txid_of tx; vout = k }) ≡ none)
      → (s' : UtxoSet) × (insert_tx s tx height ≡ returns s')
        × Partial a network s' (after_tx tx height m)
  insert_tx-Partial a network s m tx height p fits fresh =
      let (s', done, r) = Spends-returns s _ (insert_tx s tx height) p.strict (
        insert_tx_lem s tx height p.indexed fits
          (λ k. still_new _ _ (p.inside (record { txid = txid_of tx; vout = k })) (fresh k))) in
      (
        s',
        done,
        record {
          indexed = r.indexed;
          keys = subst (Keeps HasMap) done (insert_tx-HasMap s tx height p.keys);
          strict = r.strict ∙ p.strict;
          same_network = r.network ∙ p.same_network;
          inside = λ o.
              subst (λ x. (x ≡ none) ⊎ (x ≡ after_tx tx height m o)) (sym (r.reads o))
                (inside_step (created (txid_of tx) 0 tx.output height o) (is_coin_base tx)
                  (spent_by tx.input o) _ (m o) (p.inside o));
          whole = λ o h.
              r.reads o
              ∙ whole_step a network (created (txid_of tx) 0 tx.output height o) (is_coin_base tx)
                  (spent_by tx.input o) _ (m o) (p.whole o) h;
        },
      )

  -- New transactions are inserted without a panic, and the set follows the ledger.
  pub insert_txs-Partial :
      (a : String) (network : Network) (txs : List Transaction) (s : UtxoSet) (m : Utxos)
      (height : Height)
      → Partial a network s m
      → AllNew txs height m
      → (s' : UtxoSet) × (insert_txs s txs height ≡ returns s')
        × Partial a network s' (after_txs txs height m)
  unfolding insert_txs
  insert_txs-Partial a network [] s m height p new = (s, refl, p)
  insert_txs-Partial a network (tx ∷ txs) s m height p new =
      let (s1, first, p1) = insert_tx-Partial a network s m tx height p new.0 new.1 in
      let (s2, later, p2) =
        insert_txs-Partial a network txs s1 (after_tx tx height m) height p1 new.2 in
      (s2, rw first later, p2)
