-- ===== src/UtxoSet/Index.antt =====
-- The index from addresses to outpoints agrees with the UTXOs.
use mathlib.Core.Option
use bitcoin_dip.Base.{
  ℕ, ◌+◌, ◌≡◌, refl, sym, ap, ◌∙◌, inl, inr, String, Bool, false, not, ◌&&◌, Option, none, some,
  List, [], ◌∷◌, ◌++◌, append-nil, count, count-append, ◌==◌, string_eq, if◌then◌else◌, Bool-cases,
  returns, panics, outpoint_already_inserted, arith,
}
use bitcoin_dip.Base.HashMap
use bitcoin_dip.Bitcoin.{
  Network, OutPoint, TxOut, Height, Bitcoin, address_of, outpoint_eq, outpoint_beq_iff,
}
use bitcoin_dip.UtxoSet.{UtxoSet, outpoints_of, index_outpoint, insert_outpoint, is_duplicate}

unfoldable pub occurrences : OutPoint → List OutPoint → ℕ
occurrences o = count (λ x. x == o)

module _ ⦃lib : Bitcoin⦄ where
  -- The address that a stored output pays, if it pays one.
  abbrev pub pays : Network → Option (TxOut × Height) → Option String
  pays network none = none
  pays network (some v) = address_of v.0.script_pubkey network

  abbrev pub is_address : String → Option String → Bool
  is_address a none = false
  is_address a (some b) = b == a

  -- Does the set hold the outpoint for the address?
  abbrev pub is_held : UtxoSet → String → OutPoint → Bool
  is_held s a o = is_address a (pays s.network (HashMap.get s.utxos o))

  -- Each address lists every outpoint that it holds once, and no other.
  abbrev pub IsIndexed : UtxoSet → Type 0
  IsIndexed s =
      (a : String) (o : OutPoint)
      → occurrences o (outpoints_of s a) ≡ (if is_held s a o then 1 else 0)

  pub outpoints_of-index :
      (s : UtxoSet) (addr : Option String) (o : OutPoint) (a : String)
      → Option.get_or (HashMap.get (index_outpoint s addr o) a) []
        ≡ outpoints_of s a ++ (if is_address a addr then o ∷ [] else [])
  unfolding index_outpoint
  outpoints_of-index s none o a = sym (append-nil (outpoints_of s a))
  outpoints_of-index s (some b) o a = elim (Bool-cases (b == a)) [
    | inl same ↦
        let e : b ≡ a = (string_eq.beq_iff b a).0 same in
        rw (HashMap.get-insert s.address_to_outpoints b a (outpoints_of s b ++ o ∷ []), same, e)
    | inr differs ↦
        rw (HashMap.get-insert s.address_to_outpoints b a (outpoints_of s b ++ o ∷ []), differs)
          (sym (append-nil (outpoints_of s a)))
  ]

  -- The set with one more outpoint, indexed under the address that it pays.
  abbrev pub added : UtxoSet → OutPoint → TxOut → Height → UtxoSet
  added s o output height = record s {
    utxos = HashMap.insert s.utxos o (output, height);
    address_to_outpoints = index_outpoint s (address_of output.script_pubkey s.network) o;
  }

  -- An outpoint that is new, or of one of the two duplicate transactions, is added.
  pub insert_outpoint_lem :
      (s : UtxoSet) (o : OutPoint) (output : TxOut) (height : Height)
      → insert_outpoint s o output height ≡ (
          if HashMap.contains_key s.utxos o && not (is_duplicate o.txid)
          then panics outpoint_already_inserted
          else returns (added s o output height))
  unfolding insert_outpoint
  insert_outpoint_lem s o output height = refl

  pub insert_outpoint_fresh :
      (s : UtxoSet) (o : OutPoint) (output : TxOut) (height : Height)
      → HashMap.get s.utxos o ≡ none
      → insert_outpoint s o output height ≡ returns (added s o output height)
  unfolding insert_outpoint
  insert_outpoint_fresh s o output height e = rw (HashMap.contains_key_lem s.utxos o, e)

  occurrences_added :
      (a : String) (addr : Option String) (o o' : OutPoint) (n : ℕ) (held : Bool)
      → n ≡ (if held then 1 else 0)
      → (o ≡ o' → held ≡ false)
      → n + occurrences o' (if is_address a addr then o ∷ [] else [])
        ≡ (if (if o == o' then is_address a addr else held) then 1 else 0)
  unfolding occurrences
  occurrences_added a addr o o' n held e fresh = elim (Bool-cases (o == o')) [
    | inl same ↦ let f = fresh ((outpoint_beq_iff o o').0 same) in ground arith
    | inr differs ↦ ground arith
  ]

  is_held-added :
      (s : UtxoSet) (o : OutPoint) (output : TxOut) (height : Height) (a : String) (o' : OutPoint)
      → is_held (added s o output height) a o' ≡ (
          if o == o'
          then is_address a (address_of output.script_pubkey s.network)
          else is_held s a o')
  is_held-added s o output height a o' = elim (Bool-cases (o == o')) [
    | inl same ↦ rw (HashMap.get-insert s.utxos o o' (output, height), same)
    | inr differs ↦ rw (HashMap.get-insert s.utxos o o' (output, height), differs)
  ]

  -- If a set agrees with its index and does not hold an outpoint, it still agrees with its index
  -- after the outpoint is added.
  pub added-IsIndexed :
      (s : UtxoSet) (o : OutPoint) (output : TxOut) (height : Height)
      → HashMap.get s.utxos o ≡ none
      → IsIndexed s
      → IsIndexed (added s o output height)
  unfolding occurrences
  added-IsIndexed s o output height fresh v a o' =
      let addr = address_of output.script_pubkey s.network in
      let mine : List OutPoint = if is_address a addr then o ∷ [] else [] in
      ap (occurrences o') (outpoints_of-index s addr o a)
      ∙ (count-append (λ x. x == o') (outpoints_of s a) mine
          ∙ (occurrences_added a addr o o' _ (is_held s a o') (v a o') (λ e.
                ap (λ r. is_address a (pays s.network r))
                  (ap (HashMap.get s.utxos) (sym e) ∙ fresh))
              ∙ ap (λ t. if t then 1 else 0) (sym (is_held-added s o output height a o'))))
