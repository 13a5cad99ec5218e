-- ===== src/Store/Whole.antt =====
-- From the genesis block on: what a state that was built by `new` and `insert_block` answers.
use mathlib.Core.Path.{fun_ext}
use bitcoin_dip.Base.{
  ℕ, ◌+◌, ◌^◌, ◌<◌, ◌≡◌, refl, sym, ap, subst, ◌∙◌, String, true, none, List, ◌++◌, length, All,
  returns, >>=-eq-returns, arith,
}
use bitcoin_dip.Base.HashMap
use bitcoin_dip.Base.HashMap.{IsMap}
use bitcoin_dip.Bitcoin.{Network, OutPoint, Block, Bitcoin, block_hash, outpoint_eq}
use bitcoin_dip.BlockForest
use bitcoin_dip.BlockForest.Ancestry.{get_current_chain-IsChain}
use bitcoin_dip.BlockTree.Linked.{IsChain}
use bitcoin_dip.UtxoSet
use bitcoin_dip.UtxoSet.Index.{IsIndexed, occurrences}
use bitcoin_dip.UtxoSet.Transact.{Utxos}
use bitcoin_dip.Store.{State, UtxoEntry, insert_txs, get_utxos, current_chain, new}
use bitcoin_dip.Store.Insert.{IsPlain}
use bitcoin_dip.Store.Invariant.{new-IsConsistent}
use bitcoin_dip.Store.Ledger.{
  keyed, confirmed_blocks, after_txs, after_blocks, AllNew, AllNewBlocks, visible,
}
use bitcoin_dip.Store.Answer.{get_utxos-ledger}
use bitcoin_dip.Store.History.{insert_txs_lem, Inserts, Inserts-Advanced}

abbrev pub no_utxos : Utxos
no_utxos o = none

module _ ⦃lib : Bitcoin⦄ where
  -- A state with the genesis block only.
  pub record Opened (network : Network) (genesis : Block) (s : State) : Type 0 where
    pub height : s.height ≡ 1
    pub tip : s.latest_stable_block_hash ≡ block_hash genesis
    pub same_network : s.utxos.network ≡ network
    pub utxos : HashMap.get s.utxos.utxos ≡ after_txs genesis.txdata 1 no_utxos

  pub empty-IsIndexed : (network : Network) → IsIndexed (UtxoSet.new true network)
  unfolding HashMap.get occurrences
  empty-IsIndexed network a o = refl

  pub empty-none : (network : Network) → HashMap.get (UtxoSet.new true network).utxos ≡ no_utxos
  unfolding HashMap.get
  empty-none network = fun_ext (λ o. refl)

  pub new-Opened :
      (delta : ℕ) (network : Network) (genesis : Block) (s : State)
      → AllNew genesis.txdata 1 no_utxos
      → new delta network genesis ≡ returns s
      → Opened network genesis s
  unfolding new
  new-Opened delta network genesis s fresh e =
      let empty = UtxoSet.new true network in
      let (u, inserted, made) = >>=-eq-returns (insert_txs empty genesis.txdata 1) _ e in
      let same : record {
        height = 1;
        latest_stable_block_hash = block_hash genesis;
        utxos = u;
        unstable_blocks = BlockForest.new delta;
      }
          ≡ s =
        cc in
      let (reads, kept) =
        insert_txs_lem genesis.txdata empty u 1 (empty-IsIndexed network)
          (subst (AllNew genesis.txdata 1) (sym (empty-none network)) fresh) inserted in
      subst (Opened network genesis) same (record {
        height = refl;
        tip = refl;
        same_network = kept;
        utxos = reads ∙ ap (after_txs genesis.txdata 1) (empty-none network);
      })

  module _ (delta : ℕ) (network : Network) (genesis : Block) (blocks stable : List Block) where
    -- What the stable blocks leave of the ledger.
    abbrev pub settled_utxos : Utxos
    settled_utxos = after_blocks stable 1 (after_txs genesis.txdata 1 no_utxos)

    -- For a state that `new` builds from a genesis block and that blocks were inserted into, in any
    -- order and of any forks, let `stable` be the blocks that became stable meanwhile. If no block
    -- holds one of the two duplicate transactions, the genesis block, the stable ones and those of
    -- the current chain with enough confirmations create only new outputs, and the heights fit, then
    -- the stable blocks and the current chain after them form a chain from the genesis block on, and
    -- `get_utxos` answers without a panic: with no outpoint twice, and with an output exactly if the
    -- ledger after those blocks has it for the address and with enough confirmations. In that
    -- ledger the genesis block and the first stable block both have the height 1.
    pub get_utxos-whole :
        (s0 s : State) (a : String) (min : ℕ) (chain : List Block)
        → IsPlain genesis
        → AllNew genesis.txdata 1 no_utxos
        → new delta network genesis ≡ returns s0
        → All IsPlain blocks
        → AllNewBlocks stable 1 (after_txs genesis.txdata 1 no_utxos)
        → Inserts s0 blocks stable s
        → current_chain s ≡ returns chain
        → length stable + length chain + 2 < 2 ^ 32
        → AllNewBlocks (confirmed_blocks min chain) (length stable + 2) settled_utxos
        → IsChain (block_hash genesis) (stable ++ chain)
          × (l : List UtxoEntry) × (get_utxos s a min ≡ returns l)
          × IsMap (keyed l)
          × ((o : OutPoint)
              → HashMap.get (keyed l) o
                ≡ visible a network
                    (1 + length stable + length chain)
                    min
                    (after_blocks (confirmed_blocks min chain) (length stable + 2) settled_utxos o))
    get_utxos-whole s0 s a min chain plain fresh made all_plain new inserts current fits later =
        let o0 = new-Opened delta network genesis s0 fresh made in
        let start : AllNewBlocks stable s0.height (HashMap.get s0.utxos.utxos) =
          rw (o0.height, o0.utxos) new in
        let adv =
          Inserts-Advanced inserts (new-IsConsistent delta network genesis s0 plain made) all_plain
            start in
        let utxos : HashMap.get s.utxos.utxos ≡ settled_utxos =
          adv.utxos ∙ (rw (o0.height, o0.utxos) refl) in
        let height : s.height ≡ 1 + length stable = omega (arith, adv.height, o0.height) in
        let next : s.height + 1 ≡ length stable + 2 = omega (arith, height) in
        let (l, answer, is_map, looks) =
          get_utxos-ledger s a min chain adv.consistent current (omega (arith, fits, height))
            (rw (next, utxos) later) in
        let same_network : s.utxos.network ≡ network = adv.network ∙ o0.same_network in
        (
          subst (λ hash. IsChain hash (stable ++ chain)) o0.tip
              (adv.chain chain (
                get_current_chain-IsChain s.unstable_blocks s.latest_stable_block_hash chain
                  adv.consistent.linked current)),
          l,
          answer,
          is_map,
          λ o. looks o ∙ rw (next, utxos, same_network, height) refl,
        )
