-- ===== src/UtxoSet/Removal.antt =====
-- The map that a transaction should leave, and the part of `insert_tx` that spends: `remove_spent_txs`.
use bitcoin_dip.Base.{
  ℕ, suc, ◌≡◌, refl, sym, ap, ◌∙◌, inl, inr, Bool, true, false, Option, none, some, List, [], ◌∷◌,
  any, ◌==◌, if◌then◌else◌, Option-cases, Outcome, returns, panics, outpoint_not_found, ◌>>=◌,
}
use bitcoin_dip.Base.HashMap
use bitcoin_dip.Bitcoin.{
  OutPoint, TxIn, TxOut, Transaction, Txid, Height, Bitcoin, txid_of, is_coin_base, outpoint_eq,
  outpoint_beq_iff,
}
use bitcoin_dip.UtxoSet.{UtxoSet, remove_outpoint, remove_inputs, remove_spent_txs}
use bitcoin_dip.UtxoSet.Index.{IsIndexed}
use bitcoin_dip.UtxoSet.Spend.{remove_outpoint_held, remove_outpoint_absent}

-- The abstract view of the UTXOs.
abbrev pub Utxos : Type 0
Utxos = OutPoint → Option (TxOut × Height)

abbrev pub spent_by : List TxIn → OutPoint → Bool
spent_by is o = any (λ i. i.previous_output == o) is

-- The output that a transaction creates at an outpoint, from position `vout` on.
abbrev pub created : Txid → ℕ → List TxOut → Height → Utxos
created txid vout [] height o = none
created txid vout (out ∷ outs) height o =
    let later = created txid (suc vout) outs height o in
    if record { txid = txid; vout = vout } == o then some (out, height) else later

abbrev pub or_else : Option (TxOut × Height) → Option (TxOut × Height) → Option (TxOut × Height)
or_else none b = b
or_else (some a) b = some a

module _ ⦃lib : Bitcoin⦄ where
  -- Outputs that the transaction spends are gone, and those that it creates are there.
  abbrev pub after_tx : Transaction → Height → Utxos → Utxos
  after_tx tx height m o =
      or_else (created (txid_of tx) 0 tx.output height o)
        (if is_coin_base tx then m o else (if spent_by tx.input o then none else m o))

  -- The set agrees with its index and reads as the map; its settings are those of `s`.
  pub record Reads (s s' : UtxoSet) (m : Utxos) : Type 0 where
    pub indexed : IsIndexed s'
    pub reads : (o : OutPoint) → HashMap.get s'.utxos o ≡ m o
    pub network : s'.network ≡ s.network
    pub strict : s'.strict ≡ s.strict

  -- The only panic is that of a strict set for an outpoint that it does not hold.
  abbrev pub Spends : UtxoSet → Utxos → Outcome UtxoSet → Type 0
  Spends s m (returns s') = Reads s s' m
  Spends s m (panics p) = (s.strict ≡ true) × (p ≡ outpoint_not_found)

  spend_one :
      (s : UtxoSet) (o : OutPoint)
      → IsIndexed s
      → Spends s (λ o'. if o == o' then none else HashMap.get s.utxos o') (remove_outpoint s o)
  spend_one s o v = elim (Option-cases (HashMap.get s.utxos o)) [
    | inl absent ↦ rw (remove_outpoint_absent s o absent) (by_strict s.strict refl absent)
    | inr (held, e) ↦
        let (s', done, r) = remove_outpoint_held s o held v e in
        rw done (record {
          indexed = r.indexed;
          reads = λ o'. ap (λ m. HashMap.get m o') r.utxos ∙ HashMap.get-remove s.utxos o o';
          network = r.network;
          strict = r.strict;
        })
  ]
    where
      nothing :
          (o' : OutPoint) (b : Bool)
          → (b ≡ true → HashMap.get s.utxos o' ≡ none)
          → HashMap.get s.utxos o' ≡ (if b then none else HashMap.get s.utxos o')
      nothing o' true h = h refl
      nothing o' false h = refl

      by_strict :
          (b : Bool)
          → s.strict ≡ b
          → HashMap.get s.utxos o ≡ none
          → Spends s
              (λ o'. if o == o' then none else HashMap.get s.utxos o')
              (if b then panics outpoint_not_found else returns s)
      by_strict true e absent = (e, refl)
      by_strict false e absent = record {
        indexed = v;
        reads = λ o'.
            nothing o' (o == o')
              (λ h. ap (HashMap.get s.utxos) (sym ((outpoint_beq_iff o o').0 h)) ∙ absent);
        network = refl;
        strict = refl;
      }

  pub Spends-imp :
      (s s1 : UtxoSet) (m m1 : Utxos) (r : Outcome UtxoSet)
      → s1.network ≡ s.network
      → s1.strict ≡ s.strict
      → ((o : OutPoint) → m1 o ≡ m o)
      → Spends s1 m1 r
      → Spends s m r
  Spends-imp s s1 m m1 (panics p) n t e h = (sym t ∙ h.0, h.1)
  Spends-imp s s1 m m1 (returns s') n t e h = record {
    indexed = h.indexed;
    reads = λ o. h.reads o ∙ e o;
    network = h.network ∙ n;
    strict = h.strict ∙ t;
  }

  -- Steps in a row: the second reads what the first left.
  pub Spends-bind :
      (s : UtxoSet) (m1 m : Utxos) (r : Outcome UtxoSet) (k : UtxoSet → Outcome UtxoSet)
      → Spends s m1 r
      → ((s1 : UtxoSet) → Reads s s1 m1 → Spends s1 m (k s1))
      → Spends s m (r >>= k)
  Spends-bind s m1 m (panics p) k h f = h
  Spends-bind s m1 m (returns s1) k h f =
      Spends-imp s s1 m m (k s1) h.network h.strict (λ o. refl) (f s1 h)

  remove_inputs_lem :
      (is : List TxIn) (s : UtxoSet)
      → IsIndexed s
      → Spends s (λ o. if spent_by is o then none else HashMap.get s.utxos o) (remove_inputs s is)
  unfolding remove_inputs
  remove_inputs_lem [] s v = record {
    indexed = v;
    reads = λ o. refl;
    network = refl;
    strict = refl;
  }
  remove_inputs_lem (i ∷ is) s v =
      Spends-bind s _ _ (remove_outpoint s i.previous_output) (λ s1. remove_inputs s1 is)
        (spend_one s i.previous_output v)
        (λ s1 r.
          Spends-imp s1 s1 _ _ (remove_inputs s1 is) refl refl
            (λ o. either_spent (i.previous_output == o) (spent_by is o) _ (r.reads o))
            (remove_inputs_lem is s1 r.indexed))
    where
      either_spent :
          (first later : Bool) {a : Option (TxOut × Height)} (b : Option (TxOut × Height))
          → a ≡ (if first then none else b)
          → (if later then none else a) ≡ (if (if first then true else later) then none else b)
      either_spent true true b e = refl
      either_spent true false b e = e
      either_spent false true b e = refl
      either_spent false false b e = e

  pub remove_spent_txs_lem :
      (s : UtxoSet) (tx : Transaction)
      → IsIndexed s
      → Spends s
          (λ o.
            if is_coin_base tx
            then HashMap.get s.utxos o
            else (if spent_by tx.input o then none else HashMap.get s.utxos o))
          (remove_spent_txs s tx)
  unfolding remove_spent_txs
  remove_spent_txs_lem s tx v = by_kind (is_coin_base tx)
    where
      by_kind :
          (coinbase : Bool)
          → Spends s
              (λ o.
                if coinbase
                then HashMap.get s.utxos o
                else (if spent_by tx.input o then none else HashMap.get s.utxos o))
              (if coinbase then returns s else remove_inputs s tx.input)
      by_kind true = record { indexed = v; reads = λ o. refl; network = refl; strict = refl }
      by_kind false = remove_inputs_lem tx.input s v
