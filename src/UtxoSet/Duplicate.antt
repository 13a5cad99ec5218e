-- ===== src/UtxoSet/Duplicate.antt =====
-- The two duplicate transactions: an output of one that overwrites an unspent one.
use bitcoin_dip.Base.{
  ◌+◌, ◌≤◌, ◌<◌, ◌≡◌, refl, sym, ap, ◌∙◌, inl, inr, String, Bool, true, false, not, ◌&&◌, none,
  some, List, [], ◌∷◌, ◌++◌, ◌==◌, string_eq, if◌then◌else◌, Option-cases, returns, panics,
  count-append, outpoint_must_exist, outpoint_already_inserted, arith,
}
use bitcoin_dip.Base.HashMap
use bitcoin_dip.Bitcoin.{
  OutPoint, TxOut, Height, Bitcoin, address_of, outpoint_eq, outpoint_beq_iff,
}
use bitcoin_dip.UtxoSet.{
  UtxoSet, new, is_duplicate, outpoints_of, index_outpoint, insert_outpoint, remove_outpoint,
  remove_first, store_outpoints, copy_outpoints, get_utxos,
}
use bitcoin_dip.UtxoSet.Index.{
  IsIndexed, occurrences, is_held, added, insert_outpoint_lem, insert_outpoint_fresh,
}
use bitcoin_dip.UtxoSet.Spend.{remove_first_lem, outpoints_of-store, unindex_found}

module _ ⦃lib : Bitcoin⦄ where
  -- The outpoints that are left: none stands twice, and the copy holds none of them.
  record IsNext (out : UtxoSet) (os : List OutPoint) : Type 0 where
    once : (o : OutPoint) → occurrences o os ≤ 1
    not_yet : (o : OutPoint) → 0 < occurrences o os → HashMap.get out.utxos o ≡ none

  IsNext-added :
      (out : UtxoSet) (x : OutPoint) (os : List OutPoint) (v : TxOut × Height)
      → IsNext out (x ∷ os)
      → IsNext (added out x v.0 v.1) os
  unfolding occurrences
  IsNext-added out x os v n = record {
    once = λ o. ground (arith, n.once o);
    not_yet = λ o h. HashMap.get-insert out.utxos x o v ∙ ground (arith, n.once o, n.not_yet o);
  }

  occurrences_head : (x : OutPoint) (os : List OutPoint) → 0 < occurrences x (x ∷ os)
  unfolding occurrences
  occurrences_head x os = rw ((outpoint_beq_iff x x).1 refl) (ground arith)

  occurrences_tail :
      (x o : OutPoint) (os : List OutPoint)
      → (x == o) ≡ false
      → 0 < occurrences o (x ∷ os)
      → 0 < occurrences o os
  unfolding occurrences
  occurrences_tail x o os ne h = ground arith

  -- The loop of `get_utxos` panics if it comes to an outpoint that the set does not hold.
  copy_outpoints-missing :
      (s : UtxoSet) (o : OutPoint) (os : List OutPoint) (out : UtxoSet)
      → IsNext out os
      → 0 < occurrences o os
      → HashMap.get s.utxos o ≡ none
      → copy_outpoints s os out ≡ panics outpoint_must_exist
  unfolding copy_outpoints occurrences
  copy_outpoints-missing s o [] out n h absent = absurd (omega (arith, h))
  copy_outpoints-missing s o (x ∷ os) out n h absent = elim (Option-cases (HashMap.get s.utxos x)) [
    | inl gone ↦ rw (copy_outpoints, gone) refl
    | inr (held, e) ↦
        let ne : (x == o) ≡ false = ground (arith, outpoint_beq_iff x o, e, absent) in
        let fresh =
          insert_outpoint_fresh out x held.0 held.1 (n.not_yet x (occurrences_head x os)) in
        rw (e, copy_outpoints)
          (rw fresh (
            copy_outpoints-missing s o os (added out x held.0 held.1) (IsNext-added out x os held n)
              (occurrences_tail x o os ne h) absent))
  ]

  insert_duplicate :
      (s : UtxoSet) (o : OutPoint) (out : TxOut) (height : Height)
      → is_duplicate o.txid ≡ true
      → insert_outpoint s o out height ≡ returns (added s o out height)
  insert_duplicate s o out height dup =
      insert_outpoint_lem s o out height ∙ by_key (HashMap.contains_key s.utxos o)
    where
      by_key :
          (b : Bool)
          → (if b && not (is_duplicate o.txid)
              then panics outpoint_already_inserted
              else returns (added s o out height))
            ≡ returns (added s o out height)
      by_key true = rw dup refl
      by_key false = refl

  -- The index lists the outpoint behind those that it listed.
  listed_again :
      (s : UtxoSet) (o : OutPoint) (a : String)
      → HashMap.get (index_outpoint s (some a) o) a ≡ some (outpoints_of s a ++ o ∷ [])
  unfolding index_outpoint
  listed_again s o a =
      HashMap.get-insert s.address_to_outpoints a a (outpoints_of s a ++ o ∷ [])
      ∙ rw ((string_eq.beq_iff a a).1 refl) refl

  abbrev overwritten : UtxoSet → OutPoint → TxOut → Height → String → UtxoSet
  overwritten s o out height a = record s {
    utxos = HashMap.insert s.utxos o (out, height);
    address_to_outpoints = index_outpoint s (some a) o;
  }

  -- Spending the output takes one of the two out of the index.
  abbrev spent_once : UtxoSet → OutPoint → TxOut → Height → String → List OutPoint → UtxoSet
  spent_once s o out height a rest = record (overwritten s o out height a) {
    utxos = HashMap.remove (overwritten s o out height a).utxos o;
    address_to_outpoints =
        store_outpoints (overwritten s o out height a).address_to_outpoints a rest;
  }

  insert_overwrites :
      (s : UtxoSet) (o : OutPoint) (out : TxOut) (height : Height) (a : String)
      → is_duplicate o.txid ≡ true
      → address_of out.script_pubkey s.network ≡ some a
      → insert_outpoint s o out height ≡ returns (overwritten s o out height a)
  insert_overwrites s o out height a dup pays_it =
      insert_duplicate s o out height dup
      ∙ ap
          (λ r. returns (record s {
            utxos = HashMap.insert s.utxos o (out, height);
            address_to_outpoints = index_outpoint s r o;
          }))
          pays_it

  remove_duplicate :
      (s : UtxoSet) (o : OutPoint) (out : TxOut) (height : Height) (a : String)
      (rest : List OutPoint)
      → address_of out.script_pubkey s.network ≡ some a
      → remove_first (outpoints_of s a ++ o ∷ []) o ≡ some rest
      → remove_outpoint (overwritten s o out height a) o
        ≡ returns (spent_once s o out height a rest)
  unfolding remove_outpoint
  remove_duplicate s o out height a rest pays_it found =
      let s1 = overwritten s o out height a in
      let got : HashMap.get s1.utxos o ≡ some (out, height) =
        HashMap.get-insert s.utxos o o (out, height) ∙ rw ((outpoint_beq_iff o o).1 refl) refl in
      rw (remove_outpoint, got, pays_it)
        (unindex_found (record s1 { utxos = HashMap.remove s1.utxos o }) o a
          (outpoints_of s a ++ o ∷ []) rest (listed_again s o a) found)

  -- The search drops the outpoint that was listed again.
  rest_counts :
      (s : UtxoSet) (o o' : OutPoint) (a : String) (rest : List OutPoint)
      → IsIndexed s
      → occurrences o' rest + (if o == o' then 1 else 0)
        ≡ occurrences o' (outpoints_of s a ++ o ∷ [])
      → occurrences o' rest ≡ (if is_held s a o' then 1 else 0)
  unfolding occurrences
  rest_counts s o o' a rest v counts =
      ground (arith, v a o', counts, count-append (λ x. x == o') (outpoints_of s a) (o ∷ []))

  -- If a set agrees with its index, holds an output that pays an address, and the same outpoint is
  -- inserted again with an output that pays the address, as only the two duplicate transactions
  -- allow, and is then spent, the index of the address still lists it, and `get_utxos` of the
  -- address panics.
  pub get_utxos-duplicate :
      (s s1 s2 : UtxoSet) (o : OutPoint) (out : TxOut) (height : Height) (a : String)
      → IsIndexed s
      → is_duplicate o.txid ≡ true
      → is_held s a o ≡ true
      → address_of out.script_pubkey s.network ≡ some a
      → insert_outpoint s o out height ≡ returns s1
      → remove_outpoint s1 o ≡ returns s2
      → get_utxos s2 a ≡ panics outpoint_must_exist
  unfolding get_utxos occurrences HashMap.get
  get_utxos-duplicate s s1 s2 o out height a v dup held pays_it inserted removed =
      let l = outpoints_of s a ++ o ∷ [] in
      let twice : occurrences o l ≡ 2 =
        count-append (λ x. x == o) (outpoints_of s a) (o ∷ [])
        ∙ ground (arith, v a o, (outpoint_beq_iff o o).1 refl) in
      let (rest, found, counts) = remove_first_lem l o (omega (arith, twice)) in
      let s1_is : overwritten s o out height a ≡ s1 =
        cc (sym (insert_overwrites s o out height a dup pays_it) ∙ inserted) in
      let s2_is : spent_once s o out height a rest ≡ s2 = cc (
        sym (remove_duplicate s o out height a rest pays_it found)
        ∙ (ap (λ x. remove_outpoint x o) s1_is ∙ removed)) in
      let left : outpoints_of (spent_once s o out height a rest) a ≡ rest =
        outpoints_of-store (index_outpoint s (some a) o) a a rest
        ∙ rw ((string_eq.beq_iff a a).1 refl) refl in
      let gone : HashMap.get (spent_once s o out height a rest).utxos o ≡ none =
        HashMap.get-remove (overwritten s o out height a).utxos o o
        ∙ rw ((outpoint_beq_iff o o).1 refl) refl in
      let here = rest_counts s o o a rest v (counts o) in
      ap (λ x. get_utxos x a) (sym s2_is)
      ∙ (ap (λ os. copy_outpoints (spent_once s o out height a rest) os (new false s.network)) left
          ∙ copy_outpoints-missing (spent_once s o out height a rest) o rest (new false s.network)
              (record {
                once = λ o'. ground (arith, rest_counts s o o' a rest v (counts o'));
                not_yet = λ o' h. refl;
              })
              (ground (arith, here, held)) gone)
