-- ===== src/Store/Progress.antt =====
-- A state that is given the blocks of a chain in order: it stays `delta` blocks behind the tip.
use bitcoin_dip.Base.{
  ℕ, zero, suc, ◌+◌, ◌%◌, ◌-◌, ◌<◌, ◌^◌, ◌≡◌, refl, ap, ◌∙◌, true, [], ◌∷◌, List, All, length, take,
  drop, length-drop, checked_add32, returns, ltb, arith,
}
use bitcoin_dip.Base.HashMap
use bitcoin_dip.Bitcoin.{Network, Block, BlockHash, Bitcoin, block_hash, outpoint_eq}
use bitcoin_dip.BlockForest
use bitcoin_dip.BlockForest.Line.{AreDistinct, get_current_chain-lined}
use bitcoin_dip.BlockTree.Linked.{IsChain}
use bitcoin_dip.UtxoSet
use bitcoin_dip.Store.{State, new, insert_blocks, current_chain, main_chain_height}
use bitcoin_dip.Store.Insert.{IsPlain}
use bitcoin_dip.Store.Invariant.{new-IsConsistent}
use bitcoin_dip.Store.Ledger.{after_txs, after_blocks}
use bitcoin_dip.Store.Stable.{AreAcceptable, insert_txs-accepts}
use bitcoin_dip.Store.Whole.{no_utxos, empty-IsIndexed, empty-none}
use bitcoin_dip.Store.Ready.{
  stable_part, unstable_part, AreAcceptableBlocks, tip, IsReady, insert_blocks_lem,
}

-- A sum of a cast and a number that fits.
checked_add32-cast : (a b n : ℕ) → a + b ≡ n → n < 2 ^ 32 → checked_add32 (a % 2 ^ 32) b ≡ returns n
checked_add32-cast a b n e fits =
    let small : a % 2 ^ 32 ≡ a = omega arith in
    let sum : ltb (a + b) (2 ^ 32) ≡ true = ground arith in rw (small, sum, e)

module _ ⦃lib : Bitcoin⦄ where
  -- What is left of a chain starts after the tip of what is taken.
  IsChain-drop :
      (n : ℕ) (hash : BlockHash) (bs : List Block)
      → IsChain hash bs
      → IsChain (tip hash (take n bs)) (drop n bs)
  IsChain-drop zero hash bs c = c
  IsChain-drop (suc n) hash [] c = tt
  IsChain-drop (suc n) hash (b ∷ bs) c = IsChain-drop n (block_hash b) bs c.1

  -- `new` returns if the transactions of the genesis block are acceptable.
  new-returns :
      (delta : ℕ) (network : Network) (genesis : Block)
      → AreAcceptable genesis.txdata 1 no_utxos
      → (s : State) × (new delta network genesis ≡ returns s)
        × (s.height ≡ 1)
        × (s.latest_stable_block_hash ≡ block_hash genesis)
        × (s.unstable_blocks ≡ BlockForest.new delta)
        × (HashMap.get s.utxos.utxos ≡ after_txs genesis.txdata 1 no_utxos)
  unfolding new
  new-returns delta network genesis a =
      let (u, inserted, reads) =
        insert_txs-accepts genesis.txdata (UtxoSet.new true network) 1 (empty-IsIndexed network)
          (rw (empty-none network) a) in
      (
        record {
          height = 1;
          latest_stable_block_hash = block_hash genesis;
          utxos = u;
          unstable_blocks = BlockForest.new delta;
        },
        rw inserted refl,
        refl,
        refl,
        refl,
        reads ∙ ap (after_txs genesis.txdata 1) (empty-none network),
      )

  -- If the blocks are a chain from the genesis block on, no two blocks of it have one hash, none holds
  -- one of the two duplicate transactions, the number of blocks and one fits into `u32`, and the
  -- transactions of the genesis block and then of all
  -- but the last `delta` blocks are acceptable in turn, then `new` and the calls of `insert_block`
  -- for the blocks in order return. The state counts the genesis block and all but the last `delta`
  -- blocks, its UTXOs are those that they leave, the current chain is the last `delta` blocks, and
  -- the height of the main chain counts every block.
  pub insert_blocks-follows :
      (delta : ℕ) (network : Network) (genesis : Block) (blocks : List Block)
      → IsPlain genesis
      → All IsPlain blocks
      → IsChain (block_hash genesis) blocks
      → AreDistinct (block_hash genesis) blocks
      → AreAcceptable genesis.txdata 1 no_utxos
      → AreAcceptableBlocks (stable_part delta blocks) 1 (after_txs genesis.txdata 1 no_utxos)
      → length blocks + 1 < 2 ^ 32
      → (s0 s : State) × (new delta network genesis ≡ returns s0)
        × (insert_blocks s0 blocks ≡ returns s)
        × (s.height ≡ 1 + (length blocks - delta))
        × (HashMap.get s.utxos.utxos
            ≡ after_blocks (stable_part delta blocks) 1 (after_txs genesis.txdata 1 no_utxos))
        × (current_chain s ≡ returns (unstable_part delta blocks))
        × (main_chain_height s ≡ returns (1 + length blocks))
  unfolding main_chain_height
  insert_blocks-follows delta network genesis blocks plain all_plain linked distinct first later
        fits =
      let (s0, made, height, latest, unstable, utxos) = new-returns delta network genesis first in
      let ready : IsReady delta s0 [] blocks = record {
        consistent = new-IsConsistent delta network genesis s0 plain made;
        plain = all_plain;
        window = unstable;
        linked = rw latest linked;
        distinct = rw latest distinct;
        acceptable = rw (height, utxos) later;
        fits = omega (arith, height, fits);
      } in
      let (s, done, f) = insert_blocks_lem delta blocks [] s0 ready (omega arith) in
      let chain : current_chain s ≡ returns (unstable_part delta blocks) =
        rw (f.unstable, f.latest, latest)
          (get_current_chain-lined delta _ (unstable_part delta blocks)
            (IsChain-drop (length blocks - delta) (block_hash genesis) blocks linked)) in
      let main : main_chain_height s ≡ returns (1 + length blocks) =
        let total : length (unstable_part delta blocks) + s.height ≡ 1 + length blocks =
          omega (arith, length-drop (length blocks - delta) blocks, f.height, height) in
        rw chain (checked_add32-cast _ s.height (1 + length blocks) total (omega arith)) in
      (
        s0,
        s,
        made,
        done,
        omega (arith, f.height, height),
        rw (height, utxos) at f.utxos,
        chain,
        main,
      )
