-- ===== src/SyncDemo/Resume.antt =====
-- A state that is saved and loaded answers as before.
use mathlib.Core.Path.{fun_ext}
use bitcoin_dip.Base.{
  ℕ, ◌+◌, ◌^◌, ◌<◌, ◌≡◌, sym, subst, ◌∙◌, String, some, List, length, returns, unwrap,
  >>=-eq-returns, arith, All, ◌≤◌,
}
use bitcoin_dip.Base.HashMap
use bitcoin_dip.Base.HashMap.{IsMap}
use bitcoin_dip.Bitcoin.{
  Bitcoin, HashBytesAgree, Block, OutPoint, TxOut, Height, bitcoin, outpoint_eq, hash_of_bytes,
  bytes_of_hash,
}
use bitcoin_dip.Store.{State, UtxoEntry, get_utxos, current_chain}
use bitcoin_dip.Store
use bitcoin_dip.Store.Insert.{IsConsistent}
use bitcoin_dip.Store.Ledger.{keyed, confirmed_blocks, AllNewBlocks}
use bitcoin_dip.Store.Answer.{get_utxos-ledger}
use bitcoin_dip.Store.Insert.{IsPlain}
use bitcoin_dip.UtxoSet.Index.{IsIndexed}
use bitcoin_dip.UtxoSet.Keys.{HasMap, Keeps}
use bitcoin_dip.BlockTree.Linked.{IsLinked}
use bitcoin_dip.BlockForest.Contents.{all_blocks}
use bitcoin_dip.Proto.Trees
use bitcoin_dip.Proto.Utxos
use bitcoin_dip.Proto.Reload.{from_proto-HasMap}
use bitcoin_dip.Proto.States
use bitcoin_dip.Proto.Restore.{state-from_proto-to_proto}
use bitcoin_dip.SyncDemo.{delta, load}

module _ ⦃lib : Bitcoin⦄ (agree : HashBytesAgree lib) where
  saved-IsConsistent :
      (s s' : State)
      → IsConsistent s
      → States.from_proto (States.to_proto s) ≡ returns s'
      → s'.height ≡ s.height
      → s'.unstable_blocks ≡ s.unstable_blocks
      → IsIndexed s'.utxos
      → HashMap.get s'.utxos.utxos ≡ HashMap.get s.utxos.utxos
      → s'.utxos.strict ≡ s.utxos.strict
      → IsConsistent s'
  unfolding States.from_proto States.to_proto
  saved-IsConsistent s s' c done height blocks indexed reads strict =
      let (hash, _, e1) =
        >>=-eq-returns (unwrap (hash_of_bytes (bytes_of_hash s.latest_stable_block_hash))) _ done in
      let (u, loaded, e2) = >>=-eq-returns (Utxos.from_proto (Utxos.to_proto s.utxos)) _ e1 in
      let (forest, _, e3) =
        >>=-eq-returns (Trees.from_proto (Trees.to_proto s.unstable_blocks)) _ e2 in
      let same : record {
        height = s.height;
        latest_stable_block_hash = hash;
        utxos = u;
        unstable_blocks = forest;
      }
          ≡ s' =
        cc in
      record {
        indexed = indexed;
        keys =
            subst (λ x. HasMap x.utxos) same
              (subst (Keeps HasMap) loaded (from_proto-HasMap (Utxos.to_proto s.utxos)));
        below =
            subst (λ h. (o : OutPoint) (v : TxOut × Height) → h o ≡ some v → v.1 ≤ s'.height)
              (sym reads) (λ o v found. subst (λ n. v.1 ≤ n) (sym height) (c.below o v found));
        strict = strict ∙ c.strict;
        linked = subst (λ f. All IsLinked f.trees) (sym blocks) c.linked;
        plain = subst (λ f. All IsPlain (all_blocks f.trees)) (sym blocks) c.plain;
      }

  -- If the bytes of a hash read back as the hash, the state for the genesis block can be made, the
  -- state is consistent, its current chain is `chain`, its height and the length of the chain and
  -- one fit into `u32`, and the blocks of the chain with `min` confirmations or more create only new
  -- outputs: then the state that was saved is loaded without a panic, as a consistent state, and the
  -- two give the same answer for the address and `min` confirmations: each outpoint is in both
  -- answers, with the same output and height, or in none.
  pub load_saved :
      (genesis_block : Block) (s0 s : State) (a : String) (min : ℕ) (chain : List Block)
      → Store.new delta bitcoin genesis_block ≡ returns s0
      → IsConsistent s
      → current_chain s ≡ returns chain
      → s.height + length chain + 1 < 2 ^ 32
      → AllNewBlocks (confirmed_blocks min chain) (s.height + 1) (HashMap.get s.utxos.utxos)
      → (s' : State) × (l : List UtxoEntry) × (l' : List UtxoEntry) × (load genesis_block
            (some (States.to_proto s))
          ≡ returns s')
        × IsConsistent s'
        × (get_utxos s a min ≡ returns l)
        × (get_utxos s' a min ≡ returns l')
        × ((o : OutPoint) → HashMap.get (keyed l') o ≡ HashMap.get (keyed l) o)
  unfolding load
  load_saved genesis_block s0 s a min chain made c current fits new =
      let (s', done, height, hash, blocks, indexed, reads, network, strict) =
        state-from_proto-to_proto agree s c.keys in
      let same_utxos : HashMap.get s'.utxos.utxos ≡ HashMap.get s.utxos.utxos = fun_ext reads in
      let c' = saved-IsConsistent s s' c done height blocks indexed same_utxos strict in
      let current' : current_chain s' ≡ returns chain = rw (blocks, hash) current in
      let (l, answer, _, looks) = get_utxos-ledger s a min chain c current fits new in
      let (l', answer', _, looks') =
        get_utxos-ledger s' a min chain c' current' (omega (arith, height, fits))
          (rw (height, same_utxos) new) in
      (
        s',
        l,
        l',
        rw made done,
        c',
        answer,
        answer',
        λ o. looks' o ∙ (rw (height, network, same_utxos) (sym (looks o))),
      )
