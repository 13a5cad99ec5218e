-- ===== src/Canister/Answer.antt =====
-- What the endpoint `get_utxos` answers.
use mathlib.Core.Option
use bitcoin_dip.Base.{
  ℕ, suc, ap, ◌+◌, ◌-◌, ◌%◌, ◌^◌, ◌≤◌, ◌<◌, ◌≡◌, refl, sym, ◌∙◌, Bool, true, false, Option, none,
  some, List, [], ◌∷◌, map, length, if◌then◌else◌, All, returns, checked_sub, checked_add32, arith,
}
use bitcoin_dip.Base.Entries.{when, entries-All}
use bitcoin_dip.Base.HashMap
use bitcoin_dip.Base.HashMap.{IsMap}
use bitcoin_dip.Bitcoin.{
  Bitcoin, Address, OutPoint, TxOut, Block, Height, bytes_of_hash, outpoint_eq,
}
use bitcoin_dip.Types.{Utxo, GetUtxosRequest}
use bitcoin_dip.Store.{UtxoEntry, main_chain_height, current_chain}
use bitcoin_dip.Store
use bitcoin_dip.Store.Insert.{IsConsistent}
use bitcoin_dip.Store.Ledger.{confirmed_blocks, keyed, after_blocks, AllNewBlocks, visible}
use bitcoin_dip.Store.Answer.{get_utxos-ledger, after_blocks-IsLow, confirmed_blocks-length}
use bitcoin_dip.Store.Unstable.{main_chain_height_lem}
use bitcoin_dip.Canister.{Canister, ok, write_utxos, answer_utxos, get_utxos}

-- What is found through tests was there.
through :
    {A : Type 0} (P : A → Type 0) (p : A → Bool) (b : Bool) (r : Option A) (v : A)
    → ((w : A) → r ≡ some w → P w)
    → (if b then when p r else none) ≡ some v
    → P v
through P p false r v h e = absurd (cc e)
through P p true none v h e = absurd (cc e)
through P p true (some w) v h e = kept (p w) e
  where
    kept : (b : Bool) → (if b then some w else none) ≡ some v → P v
    kept true e = h v e
    kept false e = absurd (cc e)

length-map : {A B : Type 0} (f : A → B) (l : List A) → length (map f l) ≡ length l
length-map f [] = refl
length-map f (x ∷ l) = ap suc (length-map f l)

keyed-All :
    (P : TxOut × Height → Type 0) (l : List UtxoEntry)
    → All (λ x. P x.1) (keyed l)
    → All (λ e. P (e.1, e.2)) l
keyed-All P [] a = tt
keyed-All P (e ∷ l) a = (a.0, keyed-All P l a.1)

module _ ⦃lib : Bitcoin⦄ where
  -- An output as the answer shows it, where the main chain has the height `top`.
  abbrev pub shown : Height → UtxoEntry → Utxo
  shown top e = record {
    outpoint = record { txid = bytes_of_hash e.0.txid; vout = e.0.vout };
    value = e.1.value;
    height = e.2;
    confirmations = top - e.2 + 1;
  }

  write_utxos_lem :
      (top : Height) (l : List UtxoEntry)
      → top + 1 < 2 ^ 32
      → All (λ e. e.2 ≤ top) l
      → write_utxos top l ≡ returns (map (shown top) l)
  unfolding write_utxos
  write_utxos_lem top [] fits a = refl
  write_utxos_lem top (e ∷ l) fits a =
      let e1 : checked_sub top e.2 ≡ returns (top - e.2) = ground (arith, a.0) in
      let e2 : checked_add32 (top - e.2) 1 ≡ returns (top - e.2 + 1) = ground arith in
      rw (e1, e2, write_utxos_lem top l fits a.1) refl

  get_utxos_steps :
      (c : Canister) (request : GetUtxosRequest) (address : Address) (top : Height)
      (l : List UtxoEntry) (us : List Utxo)
      → lib.address_from_str request.address ≡ some address
      → main_chain_height c.state ≡ returns top
      → Store.get_utxos c.state request.address (Option.get_or request.min_confirmations 0)
        ≡ returns l
      → write_utxos top l ≡ returns us
      → get_utxos c request ≡ returns (ok (record { utxos = us; total_count = length us % 2 ^ 32 }))
  unfolding get_utxos answer_utxos
  get_utxos_steps c request address top l us read main answer written =
      rw (get_utxos, read, answer_utxos, main, answer, written) refl

  -- For an address that can be read, and under the conditions of `get_utxos-ledger`, the endpoint
  -- answers without a trap. Its answer is a list of entries that names no outpoint twice and has
  -- what the ledger has for the address with enough confirmations. No entry lies above the main
  -- chain, and each is written with the bytes of its transaction id and the confirmations that it
  -- has below the main chain's tip.
  pub get_utxos-answers :
      (c : Canister) (request : GetUtxosRequest) (address : Address) (chain : List Block)
      → lib.address_from_str request.address ≡ some address
      → IsConsistent c.state
      → current_chain c.state ≡ returns chain
      → c.state.height + length chain + 1 < 2 ^ 32
      → AllNewBlocks
          (confirmed_blocks (Option.get_or request.min_confirmations 0) chain)
          (c.state.height + 1)
          (HashMap.get c.state.utxos.utxos)
      → (l : List UtxoEntry) × (get_utxos c request
          ≡ returns (
              ok (record {
                utxos = map (shown (c.state.height + length chain)) l;
                total_count = length l % 2 ^ 32;
              })))
        × All (λ e. e.2 ≤ c.state.height + length chain) l
        × IsMap (keyed l)
        × ((o : OutPoint)
            → HashMap.get (keyed l) o
              ≡ visible request.address c.state.utxos.network
                  (c.state.height + length chain)
                  (Option.get_or request.min_confirmations 0)
                  (after_blocks
                    (confirmed_blocks (Option.get_or request.min_confirmations 0) chain)
                    (c.state.height + 1)
                    (HashMap.get c.state.utxos.utxos)
                    o))
  get_utxos-answers c request address chain read v current fits new =
      let min : ℕ = Option.get_or request.min_confirmations 0 in
      let top : Height = c.state.height + length chain in
      let (l, answer, is_map, looks) =
        get_utxos-ledger c.state request.address min chain v current fits new in
      let main = main_chain_height_lem c.state chain current (omega arith) in
      let low =
        after_blocks-IsLow top (confirmed_blocks min chain) (c.state.height + 1)
          (HashMap.get c.state.utxos.utxos) (omega (arith, confirmed_blocks-length min chain))
          (λ o w found. omega (arith, v.below o w found)) in
      let all_low =
        keyed-All (λ w. w.1 ≤ top) l
          (entries-All (λ w. w.1 ≤ top) (keyed l) is_map
            (λ o w found. through (λ x. x.1 ≤ top) _ _ _ w (low o) (sym (looks o) ∙ found))) in
      let count : length (map (shown top) l) ≡ length l = length-map (shown top) l in
      (
        l,
        rw (← count) (
            get_utxos_steps c request address top l (map (shown top) l) read main answer
              (write_utxos_lem top l fits all_low)),
        all_low,
        is_map,
        looks,
      )
