-- ===== src/Store/Insert.antt =====
-- `State::insert_block`: its assertion, and the invariant of the state.
use bitcoin_dip.Base.{
  ℕ, ◌≤◌, ◌≡◌, refl, subst, ◌∙◌, true, false, Option, none, some, List, [], ◌∷◌, All, All-prop,
  Bool-set, nat_eq, nat_beq_iff, Outcome, returns, panics, checked_add32, ◌>>=◌, >>=-eq-returns,
  arith,
}
use bitcoin_dip.Bitcoin.{Transaction, Block, Height, Bitcoin, txid_of, block_hash, prev_hash}
use bitcoin_dip.BlockTree.Linked.{IsLinked}
use bitcoin_dip.BlockForest.{BlockForest}
use bitcoin_dip.BlockForest
use bitcoin_dip.BlockForest.Pop.{Pops, pop_lem}
use bitcoin_dip.BlockForest.Contents.{all_blocks, push-blocks}
use bitcoin_dip.BlockForest.Ancestry.{pop_parent}
use bitcoin_dip.UtxoSet.{UtxoSet, is_duplicate, insert_tx}
use bitcoin_dip.UtxoSet.Index.{IsIndexed}
use bitcoin_dip.UtxoSet.Keys.{HasMap, Keeps, Keeps-bind, insert_tx-HasMap}
use bitcoin_dip.UtxoSet.Preserve.{IsBelow, IsValid, insert_tx-IsValid}
use bitcoin_dip.Store.{State, insert_txs, stabilize, insert_block}

module _ ⦃lib : Bitcoin⦄ where
  -- None of the block's transactions is one of the two that stand twice in the chain.
  abbrev pub IsPlain : Block → Type 0
  IsPlain b = All (λ tx. is_duplicate (txid_of tx) ≡ false) b.txdata

  pub IsPlain-prop : (b : Block) → IsProp (IsPlain b)
  IsPlain-prop b = All-prop _ (λ tx. Bool-set _ _) b.txdata

  -- The UTXOs agree with their index, none stands twice or lies above the height of the state, and
  -- their set is strict; the unstable trees are linked, and none of their blocks holds one of the
  -- two duplicate transactions.
  pub record IsConsistent (s : State) : Type 0 where
    pub indexed : IsIndexed s.utxos
    pub keys : HasMap s.utxos
    pub below : IsBelow s.height s.utxos
    pub strict : s.utxos.strict ≡ true
    pub linked : All IsLinked s.unstable_blocks.trees
    pub plain : All IsPlain (all_blocks s.unstable_blocks.trees)

  pub insert_txs-IsValid :
      (n : Height) (txs : List Transaction) (s0 s s' : UtxoSet) (height : Height)
      → All (λ tx. is_duplicate (txid_of tx) ≡ false) txs
      → height ≤ n
      → IsValid n s0 s
      → insert_txs s txs height ≡ returns s'
      → IsValid n s0 s'
  unfolding insert_txs
  insert_txs-IsValid n [] s0 s s' height plain h v e =
      let same : s ≡ s' = cc in subst (IsValid n s0) same v
  insert_txs-IsValid n (tx ∷ txs) s0 s s' height plain h v e =
      let (s1, first, rest) = >>=-eq-returns (insert_tx s tx height) _ e in
      let w = insert_tx-IsValid n s s1 tx height plain.0 h v.indexed v.below first in
      insert_txs-IsValid n txs s0 s1 s' height plain.1 h
        (record {
          indexed = w.indexed;
          below = w.below;
          network = w.network ∙ v.network;
          strict = w.strict ∙ v.strict;
        })
        rest

  pub insert_txs-HasMap :
      (txs : List Transaction) (s : UtxoSet) (height : Height)
      → HasMap s
      → Keeps HasMap (insert_txs s txs height)
  unfolding insert_txs
  insert_txs-HasMap [] s height h = h
  insert_txs-HasMap (tx ∷ txs) s height h =
      Keeps-bind HasMap (insert_tx s tx height) _ (insert_tx-HasMap s tx height h)
        (λ s1. insert_txs-HasMap txs s1 height)

  -- What is left of `insert_block` once the forest gave a stable block, or none.
  abbrev pub settle : State → Option Block → BlockForest → Outcome State
  settle s none unstable = returns (record s { unstable_blocks = unstable })
  settle s (some b) unstable = insert_txs s.utxos b.txdata s.height >>= λ utxos.
      checked_add32 s.height 1 >>= λ height. returns (record {
        height = height;
        latest_stable_block_hash = block_hash b;
        utxos = utxos;
        unstable_blocks = unstable;
      })

  stabilize_lem :
      (s : State) (unstable : BlockForest) (b : Block)
      → prev_hash b ≡ s.latest_stable_block_hash
      → stabilize s unstable b ≡ settle s (some b) unstable
  unfolding stabilize
  stabilize_lem s unstable b e = rw ((nat_beq_iff _ _).1 e)

  pub insert_block_steps :
      (s : State) (b : Block) (f g : BlockForest) (r : Option Block)
      → BlockForest.push s.unstable_blocks b ≡ returns f
      → BlockForest.pop f s.latest_stable_block_hash ≡ returns (r, g)
      → insert_block s b ≡ settle s r g
  unfolding insert_block
  insert_block_steps s b f g none p q = ground arith
  insert_block_steps s b f g (some x) p q =
      rw (p, insert_block) (rw q (stabilize_lem s g x (pop_parent f g _ x q)))

  pop_returns :
      (f : BlockForest) (anchor : ℕ)
      → (r : Option Block) × (g : BlockForest) × (BlockForest.pop f anchor ≡ returns (r, g))
  pop_returns f anchor = by_case (BlockForest.pop f anchor) refl (pop_lem f anchor)
    where
      by_case :
          (o : Outcome (Option Block × BlockForest))
          → BlockForest.pop f anchor ≡ o
          → Pops f anchor o
          → (r : Option Block) × (g : BlockForest) × (BlockForest.pop f anchor ≡ returns (r, g))
      by_case (returns (r, g)) e h = (r, g, e)
      by_case (panics p) e h = absurd h

  -- The forest takes the block and gives a stable one or none, without a panic, and the assertion
  -- that a stable block extends the latest one never fails: `insert_block` settles what it gave.
  pub insert_block_lem :
      (s : State) (b : Block)
      → (f g : BlockForest) × (r : Option Block) × (BlockForest.push s.unstable_blocks b
          ≡ returns f)
        × (BlockForest.pop f s.latest_stable_block_hash ≡ returns (r, g))
        × (insert_block s b ≡ settle s r g)
  insert_block_lem s b =
      let (f, p, _, _) = push-blocks s.unstable_blocks b in
      let (r, g, q) = pop_returns f s.latest_stable_block_hash in
      (f, g, r, p, q, insert_block_steps s b f g r p q)
