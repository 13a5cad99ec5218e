-- ===== src/UtxoSet/Lookup.antt =====
-- `UtxoSet::get_utxos`: the UTXOs of one address.
use bitcoin_dip.Base.{
  ◌≤◌, ◌≡◌, refl, sym, ap, ◌∙◌, inl, inr, String, Bool, true, false, Option, none, some, List, [],
  ◌∷◌, leb, ◌==◌, if◌then◌else◌, Bool-cases, returns, arith,
}
use bitcoin_dip.Base.HashMap
use bitcoin_dip.Bitcoin.{Network, OutPoint, TxOut, Height, Bitcoin, outpoint_eq, outpoint_beq_iff}
use bitcoin_dip.UtxoSet.{UtxoSet, new, outpoints_of, copy_outpoints, get_utxos}
use bitcoin_dip.UtxoSet.Index.{
  IsIndexed, occurrences, is_held, is_address, pays, added, insert_outpoint_fresh, added-IsIndexed,
}
use bitcoin_dip.UtxoSet.Transact.{Reads}

abbrev lists : List OutPoint → OutPoint → Bool
lists os o = leb 1 (occurrences o os)

-- What the loop needs of the outpoints that are left: none stands twice, the source holds them
-- all, and the copy holds none of them.
record CanCopy (s out : UtxoSet) (os : List OutPoint) : Type 0 where
  once : (o : OutPoint) → occurrences o os ≤ 1
  there :
      (o : OutPoint) → lists os o ≡ true → (v : TxOut × Height) × (HashMap.get s.utxos o ≡ some v)
  not_yet : (o : OutPoint) → lists os o ≡ true → HashMap.get out.utxos o ≡ none

module _ ⦃lib : Bitcoin⦄ where
  listed_head : (o : OutPoint) (os : List OutPoint) → lists (o ∷ os) o ≡ true
  unfolding occurrences
  listed_head o os = rw ((outpoint_beq_iff o o).1 refl) (ground arith)

  listed_tail :
      (o o' : OutPoint) (os : List OutPoint) → lists os o' ≡ true → lists (o ∷ os) o' ≡ true
  unfolding occurrences
  listed_tail o o' os h = ground arith

  -- An outpoint that is left after `o` is another one.
  other_left :
      (o o' : OutPoint) (os : List OutPoint)
      → occurrences o' (o ∷ os) ≤ 1
      → lists os o' ≡ true
      → (o == o') ≡ false
  unfolding occurrences
  other_left o o' os h l = ground arith

  CanCopy-next :
      (s out : UtxoSet) (o : OutPoint) (os : List OutPoint) (v : TxOut × Height)
      → CanCopy s out (o ∷ os)
      → CanCopy s (added out o v.0 v.1) os
  unfolding occurrences
  CanCopy-next s out o os v c = record {
    once = λ o'. ground (arith, c.once o');
    there = λ o' h. c.there o' (listed_tail o o' os h);
    not_yet = λ o' h.
        HashMap.get-insert out.utxos o o' v
        ∙ rw (other_left o o' os (c.once o') h) (c.not_yet o' (listed_tail o o' os h));
  }

  copied_reads :
      (s out : UtxoSet) (o : OutPoint) (os : List OutPoint) (v : TxOut × Height) (o' : OutPoint)
      → HashMap.get s.utxos o ≡ some v
      → (if lists os o' then HashMap.get s.utxos o' else HashMap.get (added out o v.0 v.1).utxos o')
        ≡ (if lists (o ∷ os) o' then HashMap.get s.utxos o' else HashMap.get out.utxos o')
  unfolding occurrences
  copied_reads s out o os v o' e = elim (Bool-cases (o == o')) [
    | inl same ↦
        let here = ap (HashMap.get s.utxos) (sym ((outpoint_beq_iff o o').0 same)) ∙ e in
        ground (arith, HashMap.get-insert out.utxos o o' v, here)
    | inr differs ↦ ground (arith, HashMap.get-insert out.utxos o o' v)
  ]

  copy_outpoints_lem :
      (s : UtxoSet) (os : List OutPoint) (out : UtxoSet)
      → IsIndexed out
      → CanCopy s out os
      → (g : UtxoSet) × (copy_outpoints s os out ≡ returns g)
        × Reads out g (λ o. if lists os o then HashMap.get s.utxos o else HashMap.get out.utxos o)
  unfolding copy_outpoints occurrences
  copy_outpoints_lem s [] out v c =
      (out, refl, record { indexed = v; reads = λ o. refl; network = refl; strict = refl })
  copy_outpoints_lem s (o ∷ os) out v c =
      let (held, e) = c.there o (listed_head o os) in
      let fresh = insert_outpoint_fresh out o held.0 held.1 (c.not_yet o (listed_head o os)) in
      let (g, done, r) =
        copy_outpoints_lem s os (added out o held.0 held.1)
          (added-IsIndexed out o held.0 held.1 (c.not_yet o (listed_head o os)) v)
          (CanCopy-next s out o os held c) in
      (
        g,
        rw (e, copy_outpoints) (rw fresh done),
        record {
          indexed = r.indexed;
          reads = λ o'. r.reads o' ∙ copied_reads s out o os held o' e;
          network = r.network;
          strict = r.strict;
        },
      )

  -- What the index lists for the address is what the set holds for it.
  lists_held :
      (s : UtxoSet) (a : String) (o : OutPoint)
      → IsIndexed s
      → lists (outpoints_of s a) o ≡ is_held s a o
  lists_held s a o v = ground (arith, v a o)

  held_there :
      (a : String) (network : Network) (r : Option (TxOut × Height))
      → is_address a (pays network r) ≡ true
      → (v : TxOut × Height) × (r ≡ some v)
  held_there a network none h = cc
  held_there a network (some v) h = (v, refl)

  -- In a set that agrees with its index the lookup never panics. It returns a set that agrees with
  -- its own index and holds the UTXOs that pay the address, as they are, and no other.
  pub get_utxos_lem :
      (s : UtxoSet) (a : String)
      → IsIndexed s
      → (g : UtxoSet) × (get_utxos s a ≡ returns g)
        × IsIndexed g
        × ((o : OutPoint)
            → HashMap.get g.utxos o ≡ (if is_held s a o then HashMap.get s.utxos o else none))
        × (g.network ≡ s.network)
        × (g.strict ≡ false)
  unfolding get_utxos HashMap.get occurrences
  get_utxos_lem s a v =
      let os : List OutPoint = outpoints_of s a in
      let (g, done, r) =
        copy_outpoints_lem s os (new false s.network) (λ a' o'. refl)
          (record {
            once = λ o. ground (arith, v a o);
            there = λ o h. held_there a s.network _ (sym (lists_held s a o v) ∙ h);
            not_yet = λ o h. refl;
          }) in
      (
        g,
        done,
        r.indexed,
        λ o. r.reads o ∙ ap (λ t. if t then HashMap.get s.utxos o else none) (lists_held s a o v),
        r.network,
        r.strict,
      )
