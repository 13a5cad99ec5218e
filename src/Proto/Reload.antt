-- ===== src/Proto/Reload.antt =====
-- A set of UTXOs that is written as a message and read back: the index is built anew.
use bitcoin_dip.Base.{
  ◌≡◌, refl, sym, ap, ◌∙◌, true, false, Bool-cases, false≢true, Option, none, some, inl, inr, List,
  [], ◌∷◌, map, returns, if◌then◌else◌, ◌==◌, arith,
}
use bitcoin_dip.Base.HashMap
use bitcoin_dip.Base.HashMap.{IsMap}
use bitcoin_dip.Bitcoin.{
  Bitcoin, HashBytesAgree, Network, bitcoin, testnet, signet, regtest, OutPoint, TxOut, Height,
  outpoint_eq, outpoint_beq_iff,
}
use bitcoin_dip.UtxoSet.{UtxoSet}
use bitcoin_dip.UtxoSet.Keys.{HasMap, Keeps, Keeps-bind, Keeps-after, insert_outpoint-HasMap}
use bitcoin_dip.UtxoSet.{insert_outpoint}
use bitcoin_dip.Proto
use bitcoin_dip.Proto.Blocks.{outpoint_of, txout_of}
use bitcoin_dip.Base.{unwrap}
use bitcoin_dip.UtxoSet.Index.{
  IsIndexed, added, insert_outpoint_fresh, added-IsIndexed, occurrences,
}
use bitcoin_dip.Proto.Utxos
use bitcoin_dip.Proto.Utxos.{network_of, network_id, utxo_message, insert_messages}

abbrev pub Entries : Type 0
Entries = List (OutPoint × (TxOut × Height))

network_back : (n : Network) → network_of (network_id n) ≡ returns n
network_back bitcoin = refl
network_back testnet = refl
network_back signet = refl
network_back regtest = refl

-- None of the keys is in the set.
IsApart : Entries → UtxoSet → Type 0
IsApart es s = (o : OutPoint) → HashMap.contains_key es o ≡ true → HashMap.get s.utxos o ≡ none

-- The entries that are not in the set yet go in front of the others.
abbrev looked_up : Entries → UtxoSet → OutPoint → Option (TxOut × Height)
looked_up [] s o = HashMap.get s.utxos o
looked_up ((o', v) ∷ es) s o = let rest = looked_up es s o in if o' == o then some v else rest

module _ ⦃lib : Bitcoin⦄ (agree : HashBytesAgree lib) where
  -- What the loop makes of the entries.
  record Loaded (es : Entries) (s g : UtxoSet) : Type 0 where
    indexed : IsIndexed g
    reads : (o : OutPoint) → HashMap.get g.utxos o ≡ looked_up es s o
    network : g.network ≡ s.network
    strict : g.strict ≡ s.strict

  insert_messages-step :
      (s : UtxoSet) (o : OutPoint) (v : TxOut × Height) (es : Entries)
      → HashMap.get s.utxos o ≡ none
      → insert_messages s (map utxo_message ((o, v) ∷ es))
        ≡ insert_messages (added s o v.0 v.1) (map utxo_message es)
  unfolding insert_messages
  insert_messages-step s o v es fresh =
      rw (agree o.txid, insert_outpoint_fresh s o v.0 v.1 fresh) refl

  looked_up-added :
      (es : Entries) (s : UtxoSet) (o o' : OutPoint) (v : TxOut × Height)
      → HashMap.contains_key es o ≡ false
      → looked_up es (added s o v.0 v.1) o' ≡ (if o == o' then some v else looked_up es s o')
  unfolding HashMap.contains_key
  looked_up-added [] s o o' v h = HashMap.get-insert s.utxos o o' v
  looked_up-added ((k, w) ∷ es) s o o' v h = ground (
    arith,
    looked_up-added es s o o' v,
    outpoint_beq_iff k o,
    outpoint_beq_iff k o',
    outpoint_beq_iff o o',
  )

  IsApart-added :
      (es : Entries) (s : UtxoSet) (o : OutPoint) (v : TxOut × Height)
      → HashMap.contains_key es o ≡ false
      → IsApart ((o, v) ∷ es) s
      → IsApart es (added s o v.0 v.1)
  unfolding IsApart HashMap.contains_key
  IsApart-added es s o v h apart o' listed =
      HashMap.get-insert s.utxos o o' v ∙ (elim (Bool-cases (o == o')) [
        | inl same ↦ absurd (
            false≢true (
              sym h
              ∙ (ap (λ k. HashMap.contains_key es k) ((outpoint_beq_iff o o').0 same) ∙ listed)))
        | inr differs ↦ rw differs (apart o' (rw differs listed))
      ])

  insert_messages_lem :
      (es : Entries) (s : UtxoSet)
      → IsMap es
      → IsApart es s
      → IsIndexed s
      → (g : UtxoSet) × (insert_messages s (map utxo_message es) ≡ returns g) × Loaded es s g
  unfolding insert_messages IsApart HashMap.contains_key
  insert_messages_lem [] s m apart v =
      (s, refl, record { indexed = v; reads = λ o. refl; network = refl; strict = refl })
  insert_messages_lem ((o, v) ∷ es) s m apart valid =
      let fresh : HashMap.get s.utxos o ≡ none =
        apart o (rw ((outpoint_beq_iff o o).1 refl) refl) in
      let s1 : UtxoSet = added s o v.0 v.1 in
      let (g, done, r) =
        insert_messages_lem es s1 m.1 (IsApart-added es s o v m.0 apart)
          (added-IsIndexed s o v.0 v.1 fresh valid) in
      (
        g,
        insert_messages-step s o v es fresh ∙ done,
        record {
          indexed = r.indexed;
          reads = λ o'. r.reads o' ∙ looked_up-added es s o o' v m.0;
          network = r.network;
          strict = r.strict;
        },
      )

  looked_up-new :
      (es : Entries) (s : UtxoSet) (o : OutPoint)
      → s.utxos ≡ []
      → looked_up es s o ≡ HashMap.get es o
  unfolding HashMap.get
  looked_up-new [] s o e = rw e refl
  looked_up-new ((k, w) ∷ es) s o e = rw (looked_up-new es s o e) refl

  -- If the bytes of a hash read back as the hash and no outpoint stands twice in the set, the
  -- message of the set reads back without a panic as a set with the same UTXOs and settings, and
  -- the index that is built on the way agrees with them.
  pub utxos-from_proto-to_proto :
      (s : UtxoSet)
      → IsMap s.utxos
      → (g : UtxoSet) × (Utxos.from_proto (Utxos.to_proto s) ≡ returns g)
        × IsIndexed g
        × ((o : OutPoint) → HashMap.get g.utxos o ≡ HashMap.get s.utxos o)
        × (g.network ≡ s.network)
        × (g.strict ≡ s.strict)
  unfolding Utxos.from_proto Utxos.to_proto IsApart HashMap.get occurrences
  utxos-from_proto-to_proto s m =
      let start : UtxoSet = record {
        utxos = [];
        network = s.network;
        address_to_outpoints = [];
        strict = s.strict;
      } in
      let (g, done, r) = insert_messages_lem s.utxos start m (λ o h. refl) (λ a o. refl) in
      (
        g,
        rw (network_back s.network) done,
        r.indexed,
        λ o. r.reads o ∙ looked_up-new s.utxos start o refl,
        r.network,
        r.strict,
      )

module _ ⦃lib : Bitcoin⦄ where
  insert_messages-HasMap :
      (us : List Proto.Utxo) (s : UtxoSet) → HasMap s → Keeps HasMap (insert_messages s us)
  unfolding insert_messages
  insert_messages-HasMap [] s h = h
  insert_messages-HasMap (u ∷ us) s h = Keeps-after HasMap (unwrap u.outpoint) _ (λ outpoint_field.
      Keeps-after HasMap (outpoint_of outpoint_field) _ (λ o.
        Keeps-after HasMap (unwrap u.txout) _ (λ tx_out.
          Keeps-bind HasMap (insert_outpoint s o (txout_of tx_out) u.height) _
            (insert_outpoint-HasMap s o (txout_of tx_out) u.height h) (insert_messages-HasMap us))))

  pub from_proto-HasMap : (m : Proto.UtxoSet) → Keeps HasMap (Utxos.from_proto m)
  unfolding Utxos.from_proto
  from_proto-HasMap m =
      Keeps-after HasMap (network_of m.network) _ (λ network. insert_messages-HasMap m.utxos _ tt)
