-- ===== src/UtxoSet/Keys.antt =====
-- No outpoint ever stands twice in the map of UTXOs: the association list stays a map.
use bitcoin_dip.Base.{
  ℕ, suc, String, Bool, true, false, not, ◌&&◌, Option, none, some, List, [], ◌∷◌, Outcome, returns,
  panics, ◌>>=◌, if◌then◌else◌, outpoint_already_inserted, outpoint_must_exist, arith,
}
use bitcoin_dip.Base.HashMap
use bitcoin_dip.Base.HashMap.{IsMap, insert-IsMap, remove-IsMap}
use bitcoin_dip.Bitcoin.{
  OutPoint, TxIn, TxOut, Transaction, Txid, Height, Bitcoin, txid_of, is_coin_base, outpoint_eq,
}
use bitcoin_dip.UtxoSet.{
  UtxoSet, is_duplicate, unindex, insert_outpoint, insert_outputs, remove_outpoint, remove_inputs,
  remove_spent_txs, insert_tx, copy_outpoints, get_utxos, outpoints_of, new,
}
use bitcoin_dip.UtxoSet.Index.{added, insert_outpoint_lem}

-- What a call returns keeps the property.
abbrev pub Keeps : (UtxoSet → Type 0) → Outcome UtxoSet → Type 0
Keeps P (returns s) = P s
Keeps P (panics p) = Unit {0}

abbrev pub HasMap : UtxoSet → Type 0
HasMap s = IsMap s.utxos

pub Keeps-bind :
    (P : UtxoSet → Type 0) (m : Outcome UtxoSet) (f : UtxoSet → Outcome UtxoSet)
    → Keeps P m
    → ((s : UtxoSet) → P s → Keeps P (f s))
    → Keeps P (m >>= f)
Keeps-bind P (returns s) f h k = k s h
Keeps-bind P (panics p) f h k = tt

pub Keeps-after {ℓ} :
    {A : Type ℓ} (P : UtxoSet → Type 0) (m : Outcome A) (f : A → Outcome UtxoSet)
    → ((a : A) → Keeps P (f a))
    → Keeps P (m >>= f)
Keeps-after P (returns a) f h = h a
Keeps-after P (panics p) f h = tt

module _ ⦃lib : Bitcoin⦄ where
  pub insert_outpoint-HasMap :
      (s : UtxoSet) (o : OutPoint) (out : TxOut) (height : Height)
      → HasMap s
      → Keeps HasMap (insert_outpoint s o out height)
  insert_outpoint-HasMap s o out height h =
      rw (insert_outpoint_lem s o out height)
        (by_test (HashMap.contains_key s.utxos o && not (is_duplicate o.txid)))
    where
      by_test :
          (b : Bool)
          → Keeps HasMap
              (if b then panics outpoint_already_inserted else returns (added s o out height))
      by_test true = tt
      by_test false = insert-IsMap s.utxos o (out, height) h

  insert_outputs-HasMap :
      (outs : List TxOut) (s : UtxoSet) (txid : Txid) (vout : ℕ) (height : Height)
      → HasMap s
      → Keeps HasMap (insert_outputs s txid vout outs height)
  unfolding insert_outputs
  insert_outputs-HasMap [] s txid vout height h = h
  insert_outputs-HasMap (out ∷ outs) s txid vout height h =
      Keeps-bind HasMap (insert_outpoint s _ out height) _ (insert_outpoint-HasMap s _ out height h)
        (λ s1. insert_outputs-HasMap outs s1 txid (suc vout) height)

  unindex-HasMap :
      (s : UtxoSet) (a : String) (o : OutPoint) → HasMap s → Keeps HasMap (unindex s a o)
  unfolding unindex
  unindex-HasMap s a o h = ground arith

  pub remove_outpoint-HasMap :
      (s : UtxoSet) (o : OutPoint) → HasMap s → Keeps HasMap (remove_outpoint s o)
  unfolding remove_outpoint
  remove_outpoint-HasMap s o h = ground (
    arith,
    remove-IsMap s.utxos o,
    unindex-HasMap (record s { utxos = HashMap.remove s.utxos o }),
  )

  remove_inputs-HasMap :
      (is : List TxIn) (s : UtxoSet) → HasMap s → Keeps HasMap (remove_inputs s is)
  unfolding remove_inputs
  remove_inputs-HasMap [] s h = h
  remove_inputs-HasMap (i ∷ is) s h =
      Keeps-bind HasMap (remove_outpoint s i.previous_output) _
        (remove_outpoint-HasMap s i.previous_output h) (remove_inputs-HasMap is)

  remove_spent_txs-HasMap :
      (s : UtxoSet) (tx : Transaction) → HasMap s → Keeps HasMap (remove_spent_txs s tx)
  unfolding remove_spent_txs
  remove_spent_txs-HasMap s tx h = by_kind (is_coin_base tx)
    where
      by_kind : (b : Bool) → Keeps HasMap (if b then returns s else remove_inputs s tx.input)
      by_kind true = h
      by_kind false = remove_inputs-HasMap tx.input s h

  -- The map of UTXOs holds each outpoint once after a transaction, if it did before.
  pub insert_tx-HasMap :
      (s : UtxoSet) (tx : Transaction) (height : Height)
      → HasMap s
      → Keeps HasMap (insert_tx s tx height)
  unfolding insert_tx
  insert_tx-HasMap s tx height h =
      Keeps-bind HasMap (remove_spent_txs s tx) _ (remove_spent_txs-HasMap s tx h)
        (λ s1. insert_outputs-HasMap tx.output s1 (txid_of tx) 0 height)

  copy_outpoints-HasMap :
      (os : List OutPoint) (s out : UtxoSet) → HasMap out → Keeps HasMap (copy_outpoints s os out)
  unfolding copy_outpoints
  copy_outpoints-HasMap [] s out h = h
  copy_outpoints-HasMap (o ∷ os) s out h =
      by_entry (HashMap.get s.utxos o) (copy_outpoints-HasMap os s)
    where
      by_entry :
          (r : Option (TxOut × Height))
          → ((out' : UtxoSet) → HasMap out' → Keeps HasMap (copy_outpoints s os out'))
          → Keeps HasMap (elim r [
            | none ↦ panics outpoint_must_exist
            | some (tx_out, height) ↦
                insert_outpoint out o tx_out height >>= λ out'. copy_outpoints s os out'
          ])
      by_entry none next = tt
      by_entry (some v) next =
          Keeps-bind HasMap (insert_outpoint out o v.0 v.1) _
            (insert_outpoint-HasMap out o v.0 v.1 h) next

  pub get_utxos-HasMap : (s : UtxoSet) (a : String) → Keeps HasMap (get_utxos s a)
  unfolding get_utxos
  get_utxos-HasMap s a = copy_outpoints-HasMap (outpoints_of s a) s (new false s.network) tt
