-- ===== src/UtxoSet/Supply.antt =====
-- The total value of the outputs in the set, which `process_100k_blocks` of canister/src/store.rs
-- adds up, before and after a transaction.
use mathlib.Core.Path.{fun_ext}
use bitcoin_dip.Base.{
  ℕ, suc, String, ◌+◌, ◌≡◌, refl, sym, ap, subst, ◌∙◌, inl, inr, true, false, Option, none, some,
  List, [], ◌∷◌, map, ◌==◌, if◌then◌else◌, Bool-cases, Option-cases, returns, >>=-eq-returns, arith,
  Outcome, panics, arithmetic_overflow, checked_add64, ltb, ◌^◌, ◌>>=◌,
}
use bitcoin_dip.Base.HashMap
use bitcoin_dip.Base.HashMap.{IsMap}
use bitcoin_dip.Bitcoin.{
  OutPoint, TxIn, TxOut, Transaction, Txid, Height, Satoshi, Bitcoin, txid_of, is_coin_base,
  outpoint_eq,
}
use bitcoin_dip.UtxoSet.{
  UtxoSet, is_duplicate, into_set, unindex, insert_outpoint, insert_outputs, remove_outpoint,
  remove_inputs, remove_spent_txs, insert_tx,
}
use bitcoin_dip.UtxoSet.Index.{added, insert_outpoint_lem}
use bitcoin_dip.UtxoSet.Keys.{HasMap, Keeps, remove_outpoint-HasMap}
use bitcoin_dip.UtxoSet.Transact.{Utxos}

-- The loop over `into_set`, whose additions are in `u64`.
unfoldable pub sum_of : List (OutPoint × TxOut × Height) → Satoshi → Outcome Satoshi
sum_of [] total = returns total
sum_of (u ∷ us) total = do total' ← checked_add64 total u.1.value; sum_of us total'

abbrev pub total_supply : UtxoSet → Outcome Satoshi
total_supply s = sum_of (into_set s) 0

abbrev pub output_value : List TxOut → Satoshi
output_value [] = 0
output_value (out ∷ outs) = out.value + output_value outs

abbrev value_of : Option (TxOut × Height) → Satoshi
value_of none = 0
value_of (some v) = v.0.value

-- The values of the outputs that are spent; one that is not there, or spent before, counts 0.
abbrev pub spent_value : List TxIn → Utxos → Satoshi
spent_value [] m = 0
spent_value (i ∷ is) m =
    value_of (m i.previous_output)
    + spent_value is (λ o. if i.previous_output == o then none else m o)

abbrev entries_value : List (OutPoint × (TxOut × Height)) → Satoshi
entries_value [] = 0
entries_value (e ∷ es) = e.1.0.value + entries_value es

-- The value of all outputs of the set, with no bound.
abbrev pub worth : UtxoSet → Satoshi
worth s = entries_value s.utxos

-- What an addition in `u64` returns for a sum `n`.
abbrev pub in_u64 : ℕ → Outcome ℕ
in_u64 n = if ltb n (2 ^ 64) then returns n else panics arithmetic_overflow

sum_of-in_u64 :
    (es : List (OutPoint × (TxOut × Height))) (total : Satoshi)
    → ltb total (2 ^ 64) ≡ true
    → sum_of (map (λ e. (e.0, e.1.0, e.1.1)) es) total ≡ in_u64 (total + entries_value es)
unfolding sum_of
sum_of-in_u64 [] total small = ground (arith, small)
sum_of-in_u64 (e ∷ es) total small = elim (Bool-cases (ltb (total + e.1.0.value) (2 ^ 64))) [
  | inl fits ↦ rw fits (sum_of-in_u64 es (total + e.1.0.value) fits ∙ ap in_u64 (omega arith))
  | inr over ↦ rw over (ground (arith, over))
]

-- The loop returns the value of all outputs, or an addition overflows.
pub total_supply_lem : (s : UtxoSet) → total_supply s ≡ in_u64 (worth s)
total_supply_lem s = sum_of-in_u64 s.utxos 0 refl ∙ ap in_u64 (omega arith)

entries_value-insert :
    (m : List (OutPoint × (TxOut × Height))) (o : OutPoint) (v : TxOut × Height)
    → HashMap.contains_key m o ≡ false
    → entries_value (HashMap.insert m o v) ≡ v.0.value + entries_value m
unfolding HashMap.insert HashMap.contains_key
entries_value-insert [] o v e = refl
entries_value-insert ((j, w) ∷ m) o v e = elim (Bool-cases (j == o)) [
  | inl same ↦ absurd (cc (rw same at e))
  | inr differs ↦ rw differs (omega (arith, entries_value-insert m o v (rw differs at e)))
]

remove-absent :
    (m : List (OutPoint × (TxOut × Height))) (o : OutPoint)
    → HashMap.contains_key m o ≡ false
    → HashMap.remove m o ≡ m
unfolding HashMap.remove HashMap.contains_key
remove-absent [] o e = refl
remove-absent ((j, w) ∷ m) o e = elim (Bool-cases (j == o)) [
  | inl same ↦ absurd (cc (rw same at e))
  | inr differs ↦ rw differs (ap (λ l. (j, w) ∷ l) (remove-absent m o (rw differs at e)))
]

entries_value-remove :
    (m : List (OutPoint × (TxOut × Height))) (o : OutPoint)
    → IsMap m
    → entries_value (HashMap.remove m o) + value_of (HashMap.get m o) ≡ entries_value m
unfolding HashMap.remove HashMap.get
entries_value-remove [] o h = refl
entries_value-remove ((j, w) ∷ m) o h = elim (Bool-cases (j == o)) [
  | inl same ↦
      let e : j ≡ o = (outpoint_eq.beq_iff j o).0 same in
      let absent = remove-absent m o (subst (λ k. HashMap.contains_key m k ≡ false) e h.0) in
      rw (same, absent) (omega arith)
  | inr differs ↦ rw differs (omega (arith, entries_value-remove m o h.1))
]

module _ ⦃lib : Bitcoin⦄ where
  unindex-utxos :
      (s : UtxoSet) (a : String) (o : OutPoint) → Keeps (λ s1. s1.utxos ≡ s.utxos) (unindex s a o)
  unfolding unindex
  unindex-utxos s a o = ground arith

  -- Whatever is returned, the outpoint is removed from the map if it is there.
  remove_outpoint-utxos :
      (s : UtxoSet) (o : OutPoint)
      → Keeps (λ s1. s1.utxos ≡ HashMap.remove s.utxos o) (remove_outpoint s o)
  unfolding remove_outpoint
  remove_outpoint-utxos s o = elim (Option-cases (HashMap.get s.utxos o)) [
    | inl e ↦
        let absent : HashMap.contains_key s.utxos o ≡ false =
          HashMap.contains_key_lem s.utxos o ∙ rw e refl in
        ground (arith, e, sym (remove-absent s.utxos o absent))
    | inr (v, e) ↦ ground (arith, e, unindex-utxos (record s { utxos = HashMap.remove s.utxos o }))
  ]

  remove_inputs-supply :
      (is : List TxIn) (s s' : UtxoSet)
      → HasMap s
      → remove_inputs s is ≡ returns s'
      → entries_value s'.utxos + spent_value is (HashMap.get s.utxos) ≡ entries_value s.utxos
  unfolding remove_inputs
  remove_inputs-supply [] s s' h e =
      let same : s ≡ s' = cc in ap (λ x. entries_value x.utxos + 0) (sym same) ∙ omega arith
  remove_inputs-supply (i ∷ is) s s' h e =
      let o = i.previous_output in
      let (s1, first, rest) = >>=-eq-returns (remove_outpoint s o) _ e in
      let removed =
        subst (Keeps (λ x. x.utxos ≡ HashMap.remove s.utxos o)) first (remove_outpoint-utxos s o) in
      let later =
        remove_inputs-supply is s1 s' (subst (Keeps HasMap) first (remove_outpoint-HasMap s o h))
          rest in
      let reads : HashMap.get s1.utxos ≡ (λ k. if o == k then none else HashMap.get s.utxos k) =
        fun_ext (λ k. ap (λ m. HashMap.get m k) removed ∙ HashMap.get-remove s.utxos o k) in
      let one = entries_value-remove s.utxos o h in
      let now = ap entries_value removed in
      let same = ap (spent_value is) reads in omega (arith, later, one, now, same)

  -- An output of a transaction that is no duplicate is inserted if it returns, and was not there.
  insert_outpoint-supply :
      (s s' : UtxoSet) (o : OutPoint) (out : TxOut) (height : Height)
      → is_duplicate o.txid ≡ false
      → insert_outpoint s o out height ≡ returns s'
      → entries_value s'.utxos ≡ out.value + entries_value s.utxos
  insert_outpoint-supply s s' o out height plain e =
      elim (Bool-cases (HashMap.contains_key s.utxos o)) [
        | inl there ↦ absurd (cc (rw (insert_outpoint_lem s o out height, there, plain) at e))
        | inr absent ↦
            let same : added s o out height ≡ s' =
              cc (rw (insert_outpoint_lem s o out height, absent) at e) in
            ap (λ x. entries_value x.utxos) (sym same)
            ∙ entries_value-insert s.utxos o (out, height) absent
      ]

  insert_outputs-supply :
      (outs : List TxOut) (s s' : UtxoSet) (txid : Txid) (vout : ℕ) (height : Height)
      → is_duplicate txid ≡ false
      → insert_outputs s txid vout outs height ≡ returns s'
      → entries_value s'.utxos ≡ output_value outs + entries_value s.utxos
  unfolding insert_outputs
  insert_outputs-supply [] s s' txid vout height plain e =
      let same : s ≡ s' = cc in
      let kept = ap (λ x. entries_value x.utxos) (sym same) in omega (arith, kept)
  insert_outputs-supply (out ∷ outs) s s' txid vout height plain e =
      let (s1, first, rest) = >>=-eq-returns (insert_outpoint s _ out height) _ e in
      let one = insert_outpoint-supply s s1 _ out height plain first in
      let later = insert_outputs-supply outs s1 s' txid (suc vout) height plain rest in
      omega (arith, one, later)

  -- The values that the inputs of a transaction take out of the set.
  abbrev pub spent_by_tx : Transaction → Utxos → Satoshi
  spent_by_tx tx m = if is_coin_base tx then 0 else spent_value tx.input m

  remove_spent_txs-supply :
      (s s' : UtxoSet) (tx : Transaction)
      → HasMap s
      → remove_spent_txs s tx ≡ returns s'
      → entries_value s'.utxos + spent_by_tx tx (HashMap.get s.utxos) ≡ entries_value s.utxos
  unfolding remove_spent_txs
  remove_spent_txs-supply s s' tx h e = elim (Bool-cases (is_coin_base tx)) [
    | inl base ↦
        let same : s ≡ s' = cc (rw base at e) in
        rw base (ap (λ x. entries_value x.utxos + 0) (sym same) ∙ omega arith)
    | inr spends ↦ rw spends (remove_inputs-supply tx.input s s' h (rw spends at e))
  ]

  -- If no outpoint stands twice in the set, a transaction other than the two duplicate ones that is
  -- inserted takes the value of what it spends out of the set, and adds its outputs.
  pub insert_tx-supply :
      (s s' : UtxoSet) (tx : Transaction) (height : Height)
      → HasMap s
      → is_duplicate (txid_of tx) ≡ false
      → insert_tx s tx height ≡ returns s'
      → worth s' + spent_by_tx tx (HashMap.get s.utxos) ≡ worth s + output_value tx.output
  unfolding insert_tx
  insert_tx-supply s s' tx height h plain e =
      let (s1, first, rest) = >>=-eq-returns (remove_spent_txs s tx) _ e in
      let spent = remove_spent_txs-supply s s1 tx h first in
      let created = insert_outputs-supply tx.output s1 s' (txid_of tx) 0 height plain rest in
      omega (arith, spent, created)
