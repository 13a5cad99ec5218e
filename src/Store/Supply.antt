-- ===== src/Store/Supply.antt =====
-- The total supply of a state, as `process_100k_blocks` of canister/src/store.rs computes it.
use bitcoin_dip.Base.{
  ℕ, suc, ◌+◌, ◌*◌, ◌≡◌, sym, ap, subst, ◌∙◌, none, some, List, [], ◌∷◌, length, All, returns,
  >>=-eq-returns, arith, true, false, panics, arithmetic_overflow, ltb, if◌then◌else◌, ◌^◌,
}
use mathlib.Core.Path.{fun_ext}
use bitcoin_dip.Base.HashMap
use bitcoin_dip.Bitcoin.{
  Network, Transaction, Block, Height, Satoshi, Bitcoin, block_hash, txid_of, outpoint_eq,
}
use bitcoin_dip.BlockForest.{BlockForest}
use bitcoin_dip.BlockForest
use bitcoin_dip.BlockForest.Kept.{push-Throughout}
use bitcoin_dip.UtxoSet.{UtxoSet, insert_tx, is_duplicate}
use bitcoin_dip.UtxoSet
use bitcoin_dip.UtxoSet.Index.{IsIndexed}
use bitcoin_dip.UtxoSet.Keys.{HasMap, Keeps, insert_tx-HasMap}
use bitcoin_dip.UtxoSet.Transact.{Utxos, Spends, after_tx, insert_tx_lem}
use bitcoin_dip.UtxoSet.Supply.{
  total_supply, total_supply_lem, worth, in_u64, output_value, spent_by_tx, insert_tx-supply,
}
use bitcoin_dip.Store.{State, insert_txs, new}
use bitcoin_dip.Store.Insert.{IsPlain, IsPlain-prop, IsConsistent, insert_block_steps}
use bitcoin_dip.Store.Invariant.{
  settle-some, settle-none, insert_block-IsConsistent, popped-IsPlain, OfStable, new-IsConsistent,
}
use bitcoin_dip.Store.Ledger.{after_txs, AllNew, AllNewBlocks}
use bitcoin_dip.Store.Whole.{no_utxos, empty-IsIndexed, empty-none, new-Opened}
use bitcoin_dip.Store.History.{Inserts, finished, keeps, stabilizes, insert_txs_lem}

suc_times : (n k : ℕ) → suc n * k ≡ k + n * k
suc_times n k = grind arith

module _ ⦃lib : Bitcoin⦄ where
  -- What the transactions of a block create, and what they spend of the ledger.
  abbrev pub created_by_txs : List Transaction → Satoshi
  created_by_txs [] = 0
  created_by_txs (tx ∷ txs) = output_value tx.output + created_by_txs txs

  abbrev pub spent_by_txs : List Transaction → Height → Utxos → Satoshi
  spent_by_txs [] height m = 0
  spent_by_txs (tx ∷ txs) height m =
      spent_by_tx tx m + spent_by_txs txs height (after_tx tx height m)

  insert_txs-supply :
      (txs : List Transaction) (s s' : UtxoSet) (height : Height)
      → IsIndexed s
      → HasMap s
      → All (λ tx. is_duplicate (txid_of tx) ≡ false) txs
      → AllNew txs height (HashMap.get s.utxos)
      → insert_txs s txs height ≡ returns s'
      → worth s' + spent_by_txs txs height (HashMap.get s.utxos) ≡ worth s + created_by_txs txs
  unfolding insert_txs
  insert_txs-supply [] s s' height v h plain fresh e =
      let same : s ≡ s' = cc in let kept = ap worth same in omega (arith, kept)
  insert_txs-supply (tx ∷ txs) s s' height v h plain fresh e =
      let (s1, first, rest) = >>=-eq-returns (insert_tx s tx height) _ e in
      let r = subst (Spends s _) first (insert_tx_lem s tx height v fresh.0 fresh.1) in
      let reads = fun_ext r.reads in
      let one = insert_tx-supply s s1 tx height h plain.0 first in
      let later =
        insert_txs-supply txs s1 s' height r.indexed
          (subst (Keeps HasMap) first (insert_tx-HasMap s tx height h)) plain.1
          (subst (AllNew txs height) (sym reads) fresh.2) rest in
      let same = ap (spent_by_txs txs height) reads in omega (arith, one, later, same)

  -- Each block creates what it spends and the subsidy.
  abbrev pub Mint : Satoshi → List Block → Height → Utxos → Type 0
  Mint subsidy [] height m = Unit {0}
  Mint subsidy (b ∷ bs) height m =
      (created_by_txs b.txdata ≡ spent_by_txs b.txdata height m + subsidy)
      × Mint subsidy bs (suc height) (after_txs b.txdata height m)

  -- A block that becomes stable is plain.
  stable-IsPlain :
      (s : State) (b x : Block) (f g : BlockForest)
      → IsConsistent s
      → IsPlain b
      → BlockForest.push s.unstable_blocks b ≡ returns f
      → BlockForest.pop f s.latest_stable_block_hash ≡ returns (some x, g)
      → IsPlain x
  unfolding OfStable
  stable-IsPlain s b x f g c plain pushed popped =
      let all_plain =
        push-Throughout IsPlain IsPlain-prop s.unstable_blocks f b plain c.plain pushed in
      (popped-IsPlain f g s.latest_stable_block_hash (some x) all_plain popped).0

  Inserts-supply :
      (subsidy : Satoshi) {s s' : State} {bs stable : List Block}
      → Inserts s bs stable s'
      → IsConsistent s
      → All IsPlain bs
      → AllNewBlocks stable s.height (HashMap.get s.utxos.utxos)
      → Mint subsidy stable s.height (HashMap.get s.utxos.utxos)
      → (s'.height ≡ s.height + length stable)
        × (worth s'.utxos ≡ worth s.utxos + length stable * subsidy)
  Inserts-supply subsidy finished c plain fresh mint = (omega arith, omega arith)
  Inserts-supply subsidy {s} {s'}
        (keeps {s1 = s1} {b = b} {stable = stable} f g pushed popped e rest) c plain fresh mint =
      let made = settle-none s s1 g (sym (insert_block_steps s b f g none pushed popped) ∙ e) in
      let c1 = insert_block-IsConsistent s s1 b c plain.0 e in
      let back = sym made in
      let (height, supply) =
        Inserts-supply subsidy rest c1 plain.1
          (subst (λ x. AllNewBlocks stable x.height (HashMap.get x.utxos.utxos)) back fresh)
          (subst (λ x. Mint subsidy stable x.height (HashMap.get x.utxos.utxos)) back mint) in
      let same_height = ap (λ x. x.height) made in
      let same_supply = ap (λ x. worth x.utxos) made in
      (
        omega (arith, height, same_height),
        supply ∙ ap (λ n. n + length stable * subsidy) same_supply,
      )
  Inserts-supply subsidy {s} {s'}
        (stabilizes {s1 = s1} {b = b} {x = x} {stable = stable} f g pushed popped e rest) c plain
        fresh mint =
      let (u, inserted, made) =
        settle-some s s1 x g (sym (insert_block_steps s b f g (some x) pushed popped) ∙ e) in
      let (reads, network) =
        insert_txs_lem x.txdata s.utxos u s.height c.indexed fresh.0 inserted in
      let c1 = insert_block-IsConsistent s s1 b c plain.0 e in
      let x_plain = stable-IsPlain s b x f g c plain.0 pushed popped in
      let one =
        insert_txs-supply x.txdata s.utxos u s.height c.indexed c.keys x_plain fresh.0 inserted in
      let next : s1.height ≡ suc s.height = ap (λ y. y.height) made ∙ omega arith in
      let map_of = ap (λ y. HashMap.get y.utxos.utxos) made ∙ reads in
      let (height, supply) =
        Inserts-supply subsidy rest c1 plain.1 (rw (next, map_of) fresh.1)
          (rw (next, map_of) mint.1) in
      let same_supply = ap (λ y. worth y.utxos) made in
      let grown : worth s1.utxos ≡ worth s.utxos + subsidy =
        omega (arith, one, mint.0, same_supply) in
      (omega (arith, height, next), omega (arith, supply, grown, suc_times (length stable) subsidy))

  new-supply :
      (delta : ℕ) (network : Network) (genesis : Block) (s : State)
      → IsPlain genesis
      → AllNew genesis.txdata 1 no_utxos
      → new delta network genesis ≡ returns s
      → worth s.utxos + spent_by_txs genesis.txdata 1 no_utxos ≡ created_by_txs genesis.txdata
  unfolding new
  new-supply delta network genesis s plain fresh e =
      let empty = UtxoSet.new true network in
      let (u, inserted, made) = >>=-eq-returns (insert_txs empty genesis.txdata 1) _ e in
      let none_there = empty-none network in
      let one =
        insert_txs-supply genesis.txdata empty u 1 (empty-IsIndexed network) tt plain
          (subst (AllNew genesis.txdata 1) (sym none_there) fresh) inserted in
      let built : State = record {
        height = 1;
        latest_stable_block_hash = block_hash genesis;
        utxos = u;
        unstable_blocks = BlockForest.new delta;
      } in
      let done : built ≡ s = cc in
      let utxos : s.utxos ≡ u = ap (λ x. x.utxos) (sym done) in
      let same = ap (spent_by_txs genesis.txdata 1) none_there in
      let total = ap worth utxos in omega (arith, one, same, total)

  -- For a state that `new` builds from a genesis block and that blocks were inserted into, in any
  -- order and of any forks, let `stable` be the blocks that became stable meanwhile. If no block
  -- holds one of the two duplicate transactions, and the genesis block and the stable ones create
  -- only new outputs and in each of them the outputs are worth what it spends and the subsidy, then
  -- the total supply of the state, added up in `u64`, is the subsidy times its height if that fits
  -- into `u64`; otherwise an addition overflows.
  pub total_supply-height :
      (delta : ℕ) (network : Network) (genesis : Block) (blocks stable : List Block)
      (subsidy : Satoshi) (s0 s : State)
      → All IsPlain (genesis ∷ blocks)
      → AllNew genesis.txdata 1 no_utxos
      → AllNewBlocks stable 1 (after_txs genesis.txdata 1 no_utxos)
      → Mint subsidy (genesis ∷ []) 1 no_utxos
      → Mint subsidy stable 1 (after_txs genesis.txdata 1 no_utxos)
      → new delta network genesis ≡ returns s0
      → Inserts s0 blocks stable s
      → total_supply s.utxos ≡ (
          if ltb (s.height * subsidy) (2 ^ 64)
          then returns (s.height * subsidy)
          else panics arithmetic_overflow)
  total_supply-height delta network genesis blocks stable subsidy s0 s plain first fresh first_mint
        mint made inserts =
      let o0 = new-Opened delta network genesis s0 first made in
      let one = new-supply delta network genesis s0 plain.0 first made in
      let (height, supply) =
        Inserts-supply subsidy inserts (new-IsConsistent delta network genesis s0 plain.0 made)
          plain.1 (rw (o0.height, o0.utxos) fresh) (rw (o0.height, o0.utxos) mint) in
      let blocks_count : s.height ≡ suc (length stable) = omega (arith, height, o0.height) in
      let total : worth s.utxos ≡ s.height * subsidy =
        rw (blocks_count, suc_times (length stable) subsidy)
          (omega (arith, supply, one, first_mint.0)) in
      total_supply_lem s.utxos ∙ ap in_u64 total
