-- ===== src/Store/History.antt =====
-- Any number of calls of `insert_block`: the stable blocks form a chain, and the UTXOs are those
-- that it leaves.
use mathlib.Core.Path.{fun_ext}
use bitcoin_dip.Base.{
  suc, ◌+◌, ◌≡◌, refl, sym, ap, subst, ◌∙◌, none, some, List, [], ◌∷◌, ◌++◌, length, All, returns,
  >>=-eq-returns, arith,
}
use bitcoin_dip.Base.HashMap
use bitcoin_dip.Bitcoin.{Transaction, Block, Height, Bitcoin, block_hash, prev_hash, outpoint_eq}
use bitcoin_dip.BlockForest.{BlockForest}
use bitcoin_dip.BlockForest
use bitcoin_dip.BlockForest.Ancestry.{pop_parent}
use bitcoin_dip.BlockTree.Linked.{IsChain}
use bitcoin_dip.UtxoSet.{UtxoSet, insert_tx}
use bitcoin_dip.UtxoSet.Index.{IsIndexed}
use bitcoin_dip.UtxoSet.Transact.{Utxos, Spends, insert_tx_lem}
use bitcoin_dip.Store.{State, insert_txs, insert_block, new}
use bitcoin_dip.Store.Insert.{IsPlain, IsConsistent, insert_block_steps}
use bitcoin_dip.Store.Invariant.{settle-some, settle-none, insert_block-IsConsistent}
use bitcoin_dip.Store.Ledger.{after_txs, after_blocks, AllNew, AllNewBlocks}

module _ ⦃lib : Bitcoin⦄ where
  -- New transactions that are inserted leave what they leave of the ledger.
  pub insert_txs_lem :
      (txs : List Transaction) (s s' : UtxoSet) (height : Height)
      → IsIndexed s
      → AllNew txs height (HashMap.get s.utxos)
      → insert_txs s txs height ≡ returns s'
      → (HashMap.get s'.utxos ≡ after_txs txs height (HashMap.get s.utxos))
        × (s'.network ≡ s.network)
  unfolding insert_txs
  insert_txs_lem [] s s' height v new e =
      let same : s ≡ s' = cc in
      (ap (λ x. HashMap.get x.utxos) (sym same), ap (λ x. x.network) (sym same))
  insert_txs_lem (tx ∷ txs) s s' height v new e =
      let (s1, first, rest) = >>=-eq-returns (insert_tx s tx height) _ e in
      let r = subst (Spends s _) first (insert_tx_lem s tx height v new.0 new.1) in
      let reads = fun_ext r.reads in
      let (later, network) =
        insert_txs_lem txs s1 s' height r.indexed (subst (AllNew txs height) (sym reads) new.2)
          rest in
      (later ∙ ap (after_txs txs height) reads, network ∙ r.network)

  -- The calls of `insert_block` for a list of blocks, with the blocks that became stable.
  pub data Inserts : State → List Block → List Block → State → Type 0 where
    finished : {s : State} → Inserts s [] [] s
    keeps :
        {s s1 s' : State} {b : Block} {bs stable : List Block} (f g : BlockForest)
        → BlockForest.push s.unstable_blocks b ≡ returns f
        → BlockForest.pop f s.latest_stable_block_hash ≡ returns (none, g)
        → insert_block s b ≡ returns s1
        → Inserts s1 bs stable s'
        → Inserts s (b ∷ bs) stable s'
    stabilizes :
        {s s1 s' : State} {b x : Block} {bs stable : List Block} (f g : BlockForest)
        → BlockForest.push s.unstable_blocks b ≡ returns f
        → BlockForest.pop f s.latest_stable_block_hash ≡ returns (some x, g)
        → insert_block s b ≡ returns s1
        → Inserts s1 bs stable s'
        → Inserts s (b ∷ bs) (x ∷ stable) s'

  -- What the stable blocks that came between two states did.
  pub record Advanced (s : State) (stable : List Block) (s' : State) : Type 0 where
    pub consistent : IsConsistent s'
    pub height : s'.height ≡ s.height + length stable
    pub network : s'.utxos.network ≡ s.utxos.network
    pub chain :
        (bs : List Block)
        → IsChain s'.latest_stable_block_hash bs
        → IsChain s.latest_stable_block_hash (stable ++ bs)
    pub utxos :
        HashMap.get s'.utxos.utxos ≡ after_blocks stable s.height (HashMap.get s.utxos.utxos)

  kept-Advanced :
      (s s1 s' : State) (stable : List Block)
      → s1.height ≡ s.height
      → s1.utxos ≡ s.utxos
      → s1.latest_stable_block_hash ≡ s.latest_stable_block_hash
      → Advanced s1 stable s'
      → Advanced s stable s'
  kept-Advanced s s1 s' stable h u l a = record {
    consistent = a.consistent;
    height = a.height ∙ ap (λ n. n + length stable) h;
    network = a.network ∙ ap (λ x. x.network) u;
    chain = λ bs c. subst (λ hash. IsChain hash (stable ++ bs)) l (a.chain bs c);
    utxos =
        a.utxos
        ∙ (ap (λ x. after_blocks stable s1.height (HashMap.get x.utxos)) u
            ∙ ap (λ n. after_blocks stable n (HashMap.get s.utxos.utxos)) h);
  }

  -- A block became stable, and then the others.
  stable-Advanced :
      (s s1 s' : State) (x : Block) (stable : List Block)
      → s1.height ≡ s.height + 1
      → HashMap.get s1.utxos.utxos ≡ after_txs x.txdata s.height (HashMap.get s.utxos.utxos)
      → s1.utxos.network ≡ s.utxos.network
      → s1.latest_stable_block_hash ≡ block_hash x
      → prev_hash x ≡ s.latest_stable_block_hash
      → Advanced s1 stable s'
      → Advanced s (x ∷ stable) s'
  stable-Advanced s s1 s' x stable h u n l parent a = record {
    consistent = a.consistent;
    height = omega (arith, a.height, h);
    network = a.network ∙ n;
    chain = λ bs c. (parent, subst (λ hash. IsChain hash (stable ++ bs)) l (a.chain bs c));
    utxos =
        a.utxos
        ∙ (ap (after_blocks stable s1.height) u
            ∙ ap
                (λ k.
                  after_blocks stable k (after_txs x.txdata s.height (HashMap.get s.utxos.utxos)))
                (omega (arith, h)));
  }

  new_after :
      (stable : List Block) (height next : Height) (m m1 : Utxos)
      → next ≡ height + 1
      → m1 ≡ m
      → AllNewBlocks stable (suc height) m
      → AllNewBlocks stable next m1
  new_after stable height next m m1 h e new =
      subst (AllNewBlocks stable next) (sym e)
        (subst (λ k. AllNewBlocks stable k m) (omega (arith, h)) new)

  -- From a consistent state on, if no block that is inserted holds one of the two duplicate
  -- transactions and the stable ones create only new outputs, the state stays consistent, its height
  -- counts the stable blocks, these form a chain from the latest stable block on, and the UTXOs are
  -- those that they leave.
  pub Inserts-Advanced :
      {s s' : State} {bs stable : List Block}
      → Inserts s bs stable s'
      → IsConsistent s
      → All IsPlain bs
      → AllNewBlocks stable s.height (HashMap.get s.utxos.utxos)
      → Advanced s stable s'
  Inserts-Advanced finished c plain new = record {
    consistent = c;
    height = omega arith;
    network = refl;
    chain = λ bs h. h;
    utxos = refl;
  }
  Inserts-Advanced {s} {s'} (keeps {s1 = s1} {b = b} {stable = stable} f g pushed popped e rest) c
        plain new =
      let made = settle-none s s1 g (sym (insert_block_steps s b f g none pushed popped) ∙ e) in
      let c1 = insert_block-IsConsistent s s1 b c plain.0 e in
      let new1 =
        subst (λ x. AllNewBlocks stable x.height (HashMap.get x.utxos.utxos)) (sym made) new in
      kept-Advanced s s1 s' stable (ap (λ x. x.height) made) (ap (λ x. x.utxos) made)
        (ap (λ x. x.latest_stable_block_hash) made) (Inserts-Advanced rest c1 plain.1 new1)
  Inserts-Advanced {s} {s'}
        (stabilizes {s1 = s1} {b = b} {x = x} {stable = stable} f g pushed popped e rest) c plain
        new =
      let (u, inserted, made) =
        settle-some s s1 x g (sym (insert_block_steps s b f g (some x) pushed popped) ∙ e) in
      let (reads, network) = insert_txs_lem x.txdata s.utxos u s.height c.indexed new.0 inserted in
      let c1 = insert_block-IsConsistent s s1 b c plain.0 e in
      stable-Advanced s s1 s' x stable (ap (λ y. y.height) made)
        (ap (λ y. HashMap.get y.utxos.utxos) made ∙ reads)
        (ap (λ y. y.utxos.network) made ∙ network) (ap (λ y. y.latest_stable_block_hash) made)
        (pop_parent f g s.latest_stable_block_hash x popped)
        (Inserts-Advanced rest c1 plain.1 (
          new_after stable s.height s1.height _ _ (ap (λ y. y.height) made)
            (ap (λ y. HashMap.get y.utxos.utxos) made ∙ reads) new.1))
