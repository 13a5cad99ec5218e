-- ===== src/UtxoSet/Spend.antt =====
-- Spending an output: `remove_spent_txs` takes it out of the UTXOs and out of the index.
use mathlib.Core.Option
use bitcoin_dip.Base.{
  ◌+◌, ◌<◌, ◌≡◌, refl, sym, ap, ◌∙◌, inl, inr, String, Bool, true, false, none, some, List, [], ◌∷◌,
  ◌==◌, string_eq, if◌then◌else◌, Bool-cases, Option-cases, returns, panics, outpoint_not_found,
  arith,
}
use bitcoin_dip.Base.HashMap
use bitcoin_dip.Bitcoin.{
  OutPoint, TxOut, Height, Bitcoin, address_of, outpoint_eq, outpoint_beq_iff,
}
use bitcoin_dip.UtxoSet.{
  UtxoSet, outpoints_of, remove_first, store_outpoints, unindex, remove_outpoint,
}
use bitcoin_dip.UtxoSet.Index.{occurrences, pays, is_address, is_held, IsIndexed}

-- The search finds an outpoint that is listed, and drops one occurrence of it alone.
pub remove_first_lem :
    (xs : List OutPoint) (o : OutPoint)
    → 0 < occurrences o xs
    → (rest : List OutPoint) × (remove_first xs o ≡ some rest)
      × ((o' : OutPoint) → occurrences o' rest + (if o == o' then 1 else 0) ≡ occurrences o' xs)
unfolding remove_first occurrences
remove_first_lem [] o h = absurd (omega arith)
remove_first_lem (x ∷ xs) o h = elim (Bool-cases (x == o)) [
  | inl same ↦
      (xs, rw same, λ o'. let e : x ≡ o = (outpoint_beq_iff x o).0 same in rw e (ground arith))
  | inr differs ↦
      let (rest, found, counts) = remove_first_lem xs o (rw differs at h) in
      (x ∷ rest, rw (differs, found), λ o'. ground (arith, counts o'))
]

pub outpoints_of-store :
    (index : List (String × List OutPoint)) (b a : String) (rest : List OutPoint)
    → Option.get_or (HashMap.get (store_outpoints index b rest) a) []
      ≡ (if b == a then rest else Option.get_or (HashMap.get index a) [])
outpoints_of-store index b a [] = elim (Bool-cases (b == a)) [
  | inl same ↦ rw (HashMap.get-remove index b a, same)
  | inr differs ↦ rw (HashMap.get-remove index b a, differs)
]
outpoints_of-store index b a (x ∷ xs) = elim (Bool-cases (b == a)) [
  | inl same ↦ rw (HashMap.get-insert index b a (x ∷ xs), same)
  | inr differs ↦ rw (HashMap.get-insert index b a (x ∷ xs), differs)
]

absent_already :
    (same held : Bool) → (same ≡ true → held ≡ false) → held ≡ (if same then false else held)
absent_already true held h = h refl
absent_already false held h = refl

pub unindex_found :
    (s : UtxoSet) (o : OutPoint) (b : String) (l rest : List OutPoint)
    → HashMap.get s.address_to_outpoints b ≡ some l
    → remove_first l o ≡ some rest
    → unindex s b o
      ≡ returns (record s { address_to_outpoints = store_outpoints s.address_to_outpoints b rest })
unfolding unindex
unindex_found s o b l rest e f = ground arith

module _ ⦃lib : Bitcoin⦄ where
  -- The outpoint is gone, all else is as it was, and the index still agrees with the UTXOs.
  pub record Removes (s : UtxoSet) (o : OutPoint) (s' : UtxoSet) : Type 0 where
    pub utxos : s'.utxos ≡ HashMap.remove s.utxos o
    pub network : s'.network ≡ s.network
    pub strict : s'.strict ≡ s.strict
    pub indexed : IsIndexed s'

  is_held-removed :
      (s : UtxoSet) (o : OutPoint) (a : String) (o' : OutPoint)
      → is_address a (pays s.network (HashMap.get (HashMap.remove s.utxos o) o'))
        ≡ (if o == o' then false else is_held s a o')
  is_held-removed s o a o' = elim (Bool-cases (o == o')) [
    | inl same ↦ rw (HashMap.get-remove s.utxos o o', same)
    | inr differs ↦ rw (HashMap.get-remove s.utxos o o', differs)
  ]

  -- An output that pays no address is in no list.
  no_address-Removes :
      (s : UtxoSet) (o : OutPoint)
      → pays s.network (HashMap.get s.utxos o) ≡ none
      → IsIndexed s
      → Removes s o (record s { utxos = HashMap.remove s.utxos o })
  no_address-Removes s o e v = record {
    utxos = refl;
    network = refl;
    strict = refl;
    indexed = λ a o'.
        v a o'
        ∙ ap (λ t. if t then 1 else 0)
            (absent_already (o == o') (is_held s a o') (λ d.
                ap (λ x. is_address a (pays s.network (HashMap.get s.utxos x)))
                  (sym ((outpoint_beq_iff o o').0 d))
                ∙ ap (is_address a) e)
              ∙ sym (is_held-removed s o a o'));
  }

  -- Taking the outpoint out of the list of the address that it pays.
  IsIndexed-without :
      (s : UtxoSet) (o : OutPoint) (b : String) (rest : List OutPoint)
      → pays s.network (HashMap.get s.utxos o) ≡ some b
      → IsIndexed s
      → ((o' : OutPoint)
          → occurrences o' rest + (if o == o' then 1 else 0) ≡ occurrences o' (outpoints_of s b))
      → IsIndexed (record s {
        utxos = HashMap.remove s.utxos o;
        address_to_outpoints = store_outpoints s.address_to_outpoints b rest;
      })
  IsIndexed-without s o b rest e v counts a o' =
      ap (occurrences o') (outpoints_of-store s.address_to_outpoints b a rest)
      ∙ (one_less (b == a) (o == o') (is_held s a o')
            (λ h.
              counts o' ∙ ap (λ x. occurrences o' (outpoints_of s x)) ((string_eq.beq_iff b a).0 h))
            (v a o')
            (λ d.
              ap (λ x. is_address a (pays s.network (HashMap.get s.utxos x)))
                (sym ((outpoint_beq_iff o o').0 d))
              ∙ ap (is_address a) e)
          ∙ ap (λ t. if t then 1 else 0) (sym (is_held-removed s o a o')))
    where
      one_less :
          (mine same held : Bool)
          → (mine ≡ true
              → occurrences o' rest + (if same then 1 else 0) ≡ occurrences o' (outpoints_of s a))
          → occurrences o' (outpoints_of s a) ≡ (if held then 1 else 0)
          → (same ≡ true → held ≡ mine)
          → occurrences o' (if mine then rest else outpoints_of s a)
            ≡ (if (if same then false else held) then 1 else 0)
      one_less true true held c w h = ground (arith, c refl, h refl)
      one_less true false held c w h = ground (arith, c refl)
      one_less false true held c w h = ground (arith, h refl)
      one_less false false held c w h = w

  -- The list of an address that holds an outpoint is there, and has it.
  listed :
      (s : UtxoSet) (o : OutPoint) (b : String)
      → pays s.network (HashMap.get s.utxos o) ≡ some b
      → IsIndexed s
      → 0 < occurrences o (outpoints_of s b)
  listed s o b e v =
      let held : is_held s b o ≡ true = ap (is_address b) e ∙ (string_eq.beq_iff b b).1 refl in
      ground (arith, v b o)

  present_list :
      (index : List (String × List OutPoint)) (b : String) (o : OutPoint)
      → 0 < occurrences o (Option.get_or (HashMap.get index b) [])
      → HashMap.get index b ≡ some (Option.get_or (HashMap.get index b) [])
  unfolding occurrences
  present_list index b o h = elim (Option-cases (HashMap.get index b)) [
    | inl e ↦ absurd (no_place (rw e at h))
    | inr (l, e) ↦ rw e
  ]
    where
      no_place : 0 < 0 → ⊥
      no_place h = omega arith

  unindex_lem :
      (s : UtxoSet) (o : OutPoint) (b : String)
      → pays s.network (HashMap.get s.utxos o) ≡ some b
      → IsIndexed s
      → (s' : UtxoSet) × (unindex (record s { utxos = HashMap.remove s.utxos o }) b o ≡ returns s')
        × Removes s o s'
  unindex_lem s o b e v =
      let (rest, found, counts) = remove_first_lem (outpoints_of s b) o (listed s o b e v) in
      (
        record s {
          utxos = HashMap.remove s.utxos o;
          address_to_outpoints = store_outpoints s.address_to_outpoints b rest;
        },
        unindex_found (record s { utxos = HashMap.remove s.utxos o }) o b (outpoints_of s b) rest
            (present_list s.address_to_outpoints b o (listed s o b e v)) found,
        record {
          utxos = refl;
          network = refl;
          strict = refl;
          indexed = IsIndexed-without s o b rest e v counts;
        },
      )

  -- In a set that agrees with its index, spending an output that the set holds returns, takes it
  -- out and keeps the index exact: the `unwrap` on the index and its panic for a missing outpoint
  -- cannot be reached.
  pub remove_outpoint_held :
      (s : UtxoSet) (o : OutPoint) (v : TxOut × Height)
      → IsIndexed s
      → HashMap.get s.utxos o ≡ some v
      → (s' : UtxoSet) × (remove_outpoint s o ≡ returns s') × Removes s o s'
  unfolding remove_outpoint
  remove_outpoint_held s o v valid e =
      elim (Option-cases (address_of v.0.script_pubkey s.network)) [
        | inl none_paid ↦ (
          record s { utxos = HashMap.remove s.utxos o },
          ground arith,
          no_address-Removes s o (ap (pays s.network) e ∙ none_paid) valid,
        )
        | inr (b, paid) ↦
            let (s', done, removes) = unindex_lem s o b (ap (pays s.network) e ∙ paid) valid in
            (s', rw (e, remove_outpoint) (rw paid done), removes)
      ]

  -- Spending an output that the set does not hold panics in strict mode and does nothing otherwise.
  pub remove_outpoint_absent :
      (s : UtxoSet) (o : OutPoint)
      → HashMap.get s.utxos o ≡ none
      → remove_outpoint s o ≡ (if s.strict then panics outpoint_not_found else returns s)
  unfolding remove_outpoint
  remove_outpoint_absent s o e = rw (e, remove_outpoint)
