-- ===== src/Store/Answer.antt =====
-- `State::get_utxos` against the ledger.
use bitcoin_dip.Base.{
  ℕ, suc, ◌+◌, ◌-◌, ◌^◌, ◌≤◌, ◌<◌, ◌≡◌, refl, sym, ap, subst, ◌∙◌, inl, inr, ◌⊎◌, String, Bool,
  Bool-cases, true, false, Option, none, some, List, [], ◌∷◌, map, filter, length, leb,
  if◌then◌else◌, returns, All, All-map, arith,
}
use bitcoin_dip.Base.Entries.{when, filter-IsMap, entries-All, get-filter}
use bitcoin_dip.Base.HashMap
use bitcoin_dip.Base.HashMap.{IsMap}
use bitcoin_dip.Bitcoin.{Network, OutPoint, TxOut, Block, Height, Bitcoin, outpoint_eq}
use bitcoin_dip.UtxoSet.{UtxoSet, into_set}
use bitcoin_dip.UtxoSet
use bitcoin_dip.UtxoSet.Index.{IsIndexed, is_address, is_held, pays}
use bitcoin_dip.UtxoSet.Lookup.{get_utxos_lem}
use bitcoin_dip.UtxoSet.Keys.{HasMap, Keeps, get_utxos-HasMap}
use bitcoin_dip.UtxoSet.Transact.{Utxos}
use bitcoin_dip.Store.{
  State, UtxoEntry, get_utxos, current_chain, main_chain_height, filter_confirmed,
}
use bitcoin_dip.Store.Insert.{IsConsistent}
use bitcoin_dip.Store.Ledger.{confirmed_blocks, keyed, after_blocks, AllNewBlocks, visible}
use bitcoin_dip.Store.Partial.{Partial, IsLow, after_txs-IsLow}
use bitcoin_dip.Store.Unstable.{main_chain_height_lem, confirmations_lem, apply_unstable_lem}

keyed-filter :
    (p : TxOut × Height → Bool) (m : List (OutPoint × (TxOut × Height)))
    → keyed (filter (λ u. p (u.1, u.2)) (map (λ e. (e.0, e.1.0, e.1.1)) m)) ≡ filter (λ x. p x.1) m
keyed-filter p [] = refl
keyed-filter p ((o, v) ∷ m) = elim (Bool-cases (p v)) [
  | inl keeps ↦ rw keeps (ap (λ l. (o, v) ∷ l) (keyed-filter p m))
  | inr drops ↦ rw drops (keyed-filter p m)
]

module _ ⦃lib : Bitcoin⦄ where
  pub after_blocks-IsLow :
      (n : Height) (bs : List Block) (height : Height) (m : Utxos)
      → height + length bs ≤ n + 1
      → IsLow n m
      → IsLow n (after_blocks bs height m)
  after_blocks-IsLow n [] height m h low = low
  after_blocks-IsLow n (b ∷ bs) height m h low =
      after_blocks-IsLow n bs (suc height) _ (omega arith)
        (after_txs-IsLow n b.txdata height m (omega arith) low)

  pub confirmed_blocks-length :
      (min : ℕ) (bs : List Block) → length (confirmed_blocks min bs) ≤ length bs
  confirmed_blocks-length min [] = omega arith
  confirmed_blocks-length min (b ∷ bs) = ground (arith, confirmed_blocks-length min bs)

  -- No confirmation count underflows, and the entries with enough of them are kept.
  filter_confirmed_lem :
      (s : State) (min : ℕ) (top : Height) (us : List UtxoEntry)
      → main_chain_height s ≡ returns top
      → top + 1 < 2 ^ 32
      → All (λ u. u.2 ≤ top) us
      → filter_confirmed s min us ≡ returns (filter (λ u. leb min (top - u.2 + 1)) us)
  unfolding filter_confirmed
  filter_confirmed_lem s min top [] main fits a = refl
  filter_confirmed_lem s min top (u ∷ us) main fits a =
      rw
        (confirmations_lem s top u.2 main a.0 fits, filter_confirmed_lem s min top us main fits a.1)
        refl

  -- What the address's set finds is what the ledger has for the address.
  seen :
      (a : String) (network : Network) (x y : Option (TxOut × Height))
      → (x ≡ none) ⊎ (x ≡ y)
      → (is_address a (pays network y) ≡ true → x ≡ y)
      → (if is_address a (pays network x) then x else none)
        ≡ (if is_address a (pays network y) then y else none)
  seen a network x y (inr e) h = ap (λ r. if is_address a (pays network r) then r else none) e
  seen a network x y (inl e) h =
      ap (λ r. if is_address a (pays network r) then r else none) e ∙ by_address
    where
      by_address : none ≡ (if is_address a (pays network y) then y else none)
      by_address = elim (Bool-cases (is_address a (pays network y))) [
        | inl paid ↦ rw paid (sym e ∙ h paid)
        | inr unpaid ↦ rw unpaid refl
      ]

  start-Partial :
      (s : UtxoSet) (a : String) (g : UtxoSet)
      → UtxoSet.get_utxos s a ≡ returns g
      → IsIndexed g
      → ((o : OutPoint)
          → HashMap.get g.utxos o ≡ (if is_held s a o then HashMap.get s.utxos o else none))
      → g.network ≡ s.network
      → g.strict ≡ false
      → Partial a s.network g (HashMap.get s.utxos)
  start-Partial s a g done indexed reads network strict = record {
    indexed = indexed;
    keys = subst (Keeps HasMap) done (get_utxos-HasMap s a);
    strict = strict;
    same_network = network;
    inside = λ o. held_or_not (is_held s a o) _ (reads o);
    whole = λ o paid. reads o ∙ rw paid refl;
  }
    where
      held_or_not :
          (b : Bool) {x : Option (TxOut × Height)} (y : Option (TxOut × Height))
          → x ≡ (if b then y else none)
          → (x ≡ none) ⊎ (x ≡ y)
      held_or_not true y e = inr e
      held_or_not false y e = inl e

  low_seen :
      (n : Height) (b : Bool) (r : Option (TxOut × Height)) (v : TxOut × Height)
      → ((w : TxOut × Height) → r ≡ some w → w.1 ≤ n)
      → (if b then r else none) ≡ some v
      → v.1 ≤ n
  low_seen n true r v h e = h v e
  low_seen n false r v h e = absurd (cc e)

  when_if :
      (p : TxOut × Height → Bool) (b : Bool) (r : Option (TxOut × Height))
      → when p (if b then r else none) ≡ (if b then when p r else none)
  when_if p true r = refl
  when_if p false r = refl

  -- In a consistent state whose main chain stays below the height 2^32 - 1, and whose unstable
  -- blocks with enough confirmations create only new outputs, `get_utxos` answers without a panic.
  -- The answer names no outpoint twice. It has an output exactly if the ledger, that is the stable
  -- UTXOs after those blocks, has it for the address and with enough confirmations.
  pub get_utxos-ledger :
      (s : State) (a : String) (min : ℕ) (chain : List Block)
      → IsConsistent s
      → current_chain s ≡ returns chain
      → s.height + length chain + 1 < 2 ^ 32
      → AllNewBlocks (confirmed_blocks min chain) (s.height + 1) (HashMap.get s.utxos.utxos)
      → (l : List UtxoEntry) × (get_utxos s a min ≡ returns l)
        × IsMap (keyed l)
        × ((o : OutPoint)
            → HashMap.get (keyed l) o
              ≡ visible a s.utxos.network (s.height + length chain) min (
                  after_blocks
                    (confirmed_blocks min chain)
                    (s.height + 1)
                    (HashMap.get s.utxos.utxos)
                    o))
  unfolding get_utxos
  get_utxos-ledger s a min chain c current fits new =
      let top : Height = s.height + length chain in
      let main = main_chain_height_lem s chain current (omega arith) in
      let (g0, e0, v0, r0, n0, t0) = get_utxos_lem s.utxos a c.indexed in
      let p0 = start-Partial s.utxos a g0 e0 v0 r0 n0 t0 in
      let (u, e1, p) =
        apply_unstable_lem a s.utxos.network s min chain 0 g0 (HashMap.get s.utxos.utxos)
          (s.height + 1) top (omega arith) (omega arith) main fits p0 new in
      let (g, e2, v, r, n, t) = get_utxos_lem u a p.indexed in
      let m : Utxos =
        after_blocks (confirmed_blocks min chain) (s.height + 1) (HashMap.get s.utxos.utxos) in
      let keys : HasMap g = subst (Keeps HasMap) e2 (get_utxos-HasMap u a) in
      let reads : (o : OutPoint)
          → HashMap.get g.utxos o
            ≡ (if is_address a (pays s.utxos.network (m o)) then m o else none) =
        λ o.
          r o
          ∙ ap
              (λ x.
                if is_address a (pays x (HashMap.get u.utxos o))
                then HashMap.get u.utxos o
                else none)
              p.same_network
          ∙ seen a s.utxos.network _ (m o) (p.inside o) (p.whole o) in
      let low : IsLow top m =
        after_blocks-IsLow top (confirmed_blocks min chain) (s.height + 1) _
          (omega (arith, confirmed_blocks-length min chain))
          (λ o w found. omega (arith, c.below o w found)) in
      let all_low =
        entries-All (λ x. x.1 ≤ top) g.utxos keys
          (λ o w found. low_seen top _ (m o) w (low o) (sym (reads o) ∙ found)) in
      let enough : TxOut × Height → Bool = λ w. leb min (top - w.1 + 1) in
      let e3 =
        filter_confirmed_lem s min top (into_set g) main fits
          (All-map (λ w. w.2 ≤ top) _ g.utxos all_low) in
      let e4 = keyed-filter enough g.utxos in
      (
        _,
        rw (e0, current, e1, e2) e3,
        subst IsMap (sym e4) (filter-IsMap enough g.utxos keys),
        λ o.
            ap (λ l. HashMap.get l o) e4
            ∙ (get-filter enough g.utxos o keys
                ∙ (ap (when enough) (reads o) ∙ when_if enough _ (m o))),
      )
