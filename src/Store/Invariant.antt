-- ===== src/Store/Invariant.antt =====
-- `State::new` and `State::insert_block` keep the state consistent.
use bitcoin_dip.Base.{
  ℕ, ◌+◌, ◌≡◌, refl, sym, ap, subst, ◌∙◌, inl, inr, ◌⊎◌, true, Option, none, some, All, returns,
  checked_add32, >>=-eq-returns, arith,
}
use bitcoin_dip.Base.HashMap
use bitcoin_dip.Bitcoin.{Network, Block, Height, Bitcoin, block_hash, outpoint_eq}
use bitcoin_dip.BlockTree.Linked.{IsLinked}
use bitcoin_dip.BlockForest.{BlockForest}
use bitcoin_dip.BlockForest
use bitcoin_dip.BlockForest.Contents.{all_blocks}
use bitcoin_dip.BlockForest.Links.{push-IsLinked}
use bitcoin_dip.BlockForest.Ancestry.{pop-IsLinked}
use bitcoin_dip.BlockForest.Kept.{push-Throughout, pop-Throughout}
use bitcoin_dip.UtxoSet.{UtxoSet}
use bitcoin_dip.UtxoSet
use bitcoin_dip.UtxoSet.Index.{occurrences}
use bitcoin_dip.UtxoSet.Keys.{HasMap, Keeps}
use bitcoin_dip.UtxoSet.Preserve.{IsBelow, IsValid}
use bitcoin_dip.Store.{State, insert_txs, insert_block, new}
use bitcoin_dip.Store.Insert.{
  IsPlain, IsPlain-prop, IsConsistent, insert_txs-IsValid, insert_txs-HasMap, settle,
  insert_block_lem,
}

checked_add32_lem : (a b n : ℕ) → checked_add32 a b ≡ returns n → n ≡ a + b
checked_add32_lem a b n e = ground arith

module _ ⦃lib : Bitcoin⦄ where
  unfoldable pub OfStable : Option Block → Type 0
  OfStable none = Unit {0}
  OfStable (some b) = IsPlain b

  -- A state after a stable block: its parts, and that the height grew by one.
  pub settle-some :
      (s s' : State) (b : Block) (g : BlockForest)
      → settle s (some b) g ≡ returns s'
      → (u : UtxoSet) × (insert_txs s.utxos b.txdata s.height ≡ returns u)
        × (s' ≡ record {
          height = s.height + 1;
          latest_stable_block_hash = block_hash b;
          utxos = u;
          unstable_blocks = g;
        })
  settle-some s s' b g e =
      let (u, inserted, more) = >>=-eq-returns (insert_txs s.utxos b.txdata s.height) _ e in
      let (h, grown, made) = >>=-eq-returns (checked_add32 s.height 1) _ more in
      (u, inserted, cc (checked_add32_lem s.height 1 h grown))

  pub settle-none :
      (s s' : State) (g : BlockForest)
      → settle s none g ≡ returns s'
      → s' ≡ record s { unstable_blocks = g }
  settle-none s s' g e = cc

  IsBelow-suc : (n : Height) (u : UtxoSet) → IsBelow n u → IsBelow (n + 1) u
  IsBelow-suc n u b o v e = omega (arith, b o v e)

  inserted-IsValid :
      (s : State) (b : Block) (u : UtxoSet)
      → IsConsistent s
      → IsPlain b
      → insert_txs s.utxos b.txdata s.height ≡ returns u
      → IsValid s.height s.utxos u
  inserted-IsValid s b u c plain e =
      insert_txs-IsValid s.height b.txdata s.utxos s.utxos u s.height plain (omega arith)
        (record { indexed = c.indexed; below = c.below; network = refl; strict = refl }) e

  settle-IsConsistent :
      (s s' : State) (r : Option Block) (g : BlockForest)
      → IsConsistent s
      → OfStable r
      → All IsLinked g.trees
      → All IsPlain (all_blocks g.trees)
      → settle s r g ≡ returns s'
      → IsConsistent s'
  unfolding OfStable
  settle-IsConsistent s s' none g c p l a e =
      subst IsConsistent (sym (settle-none s s' g e)) (record {
        indexed = c.indexed;
        keys = c.keys;
        below = c.below;
        strict = c.strict;
        linked = l;
        plain = a;
      })
  settle-IsConsistent s s' (some b) g c p l a e =
      let (u, inserted, made) = settle-some s s' b g e in
      let v = inserted-IsValid s b u c p inserted in
      subst IsConsistent (sym made) (record {
        indexed = v.indexed;
        keys = subst (Keeps HasMap) inserted (insert_txs-HasMap b.txdata s.utxos s.height c.keys);
        below = IsBelow-suc s.height u v.below;
        strict = v.strict ∙ c.strict;
        linked = l;
        plain = a;
      })

  pub popped-IsPlain :
      (f g : BlockForest) (anchor : ℕ) (r : Option Block)
      → All IsPlain (all_blocks f.trees)
      → BlockForest.pop f anchor ≡ returns (r, g)
      → OfStable r × All IsPlain (all_blocks g.trees)
  unfolding OfStable
  popped-IsPlain f g anchor none a e = pop-Throughout IsPlain IsPlain-prop f g anchor none a e
  popped-IsPlain f g anchor (some b) a e =
      pop-Throughout IsPlain IsPlain-prop f g anchor (some b) a e

  -- If a consistent state accepts a block that holds neither of the two duplicate transactions,
  -- the state after it is consistent.
  pub insert_block-IsConsistent :
      (s s' : State) (b : Block)
      → IsConsistent s
      → IsPlain b
      → insert_block s b ≡ returns s'
      → IsConsistent s'
  insert_block-IsConsistent s s' b c plain e =
      let (f, g, r, pushed, popped, steps) = insert_block_lem s b in
      let all_plain =
        push-Throughout IsPlain IsPlain-prop s.unstable_blocks f b plain c.plain pushed in
      let (stable, rest) = popped-IsPlain f g _ r all_plain popped in
      settle-IsConsistent s s' r g c stable
        (pop-IsLinked f g _ r (push-IsLinked s.unstable_blocks f b c.linked pushed) popped) rest
        (sym steps ∙ e)

  IsBelow-after :
      (s s' : State) (r : Option Block) (g : BlockForest)
      → IsConsistent s
      → OfStable r
      → settle s r g ≡ returns s'
      → ((s'.height ≡ s.height) × (s'.utxos ≡ s.utxos))
        ⊎ ((s'.height ≡ s.height + 1) × IsBelow s.height s'.utxos)
  unfolding OfStable
  IsBelow-after s s' none g c p e =
      let made = settle-none s s' g e in inl (ap (λ x. x.height) made, ap (λ x. x.utxos) made)
  IsBelow-after s s' (some b) g c p e =
      let (u, inserted, made) = settle-some s s' b g e in
      inr (
        ap (λ x. x.height) made,
        subst (λ x. IsBelow s.height x.utxos) (sym made)
            (inserted-IsValid s b u c p inserted).below,
      )

  -- If a consistent state accepts a block that holds neither of the two duplicate transactions,
  -- either the height and the UTXOs stay as they are, or a block became stable: then the height
  -- is one more, yet every output in the set, those of that block included, is recorded at the
  -- height before or below.
  pub insert_block_heights :
      (s s' : State) (b : Block)
      → IsConsistent s
      → IsPlain b
      → insert_block s b ≡ returns s'
      → ((s'.height ≡ s.height) × (s'.utxos ≡ s.utxos))
        ⊎ ((s'.height ≡ s.height + 1) × IsBelow s.height s'.utxos)
  insert_block_heights s s' b c plain e =
      let (f, g, r, pushed, popped, steps) = insert_block_lem s b in
      let all_plain =
        push-Throughout IsPlain IsPlain-prop s.unstable_blocks f b plain c.plain pushed in
      IsBelow-after s s' r g c (popped-IsPlain f g _ r all_plain popped).0 (sym steps ∙ e)

  -- If the genesis block holds neither of the two duplicate transactions and `new` returns, the
  -- state that it builds is consistent.
  pub new-IsConsistent :
      (delta : ℕ) (network : Network) (genesis : Block) (s : State)
      → IsPlain genesis
      → new delta network genesis ≡ returns s
      → IsConsistent s
  unfolding new HashMap.get occurrences
  new-IsConsistent delta network genesis s plain e =
      let (u, inserted, made) = >>=-eq-returns (insert_txs _ genesis.txdata 1) _ e in
      let start : UtxoSet = UtxoSet.new true network in
      let v =
        insert_txs-IsValid 1 genesis.txdata start start u 1 plain (omega arith)
          (record {
            indexed = λ a o. refl;
            below = λ o w h. absurd (cc h);
            network = refl;
            strict = refl;
          })
          inserted in
      let same : record {
        height = 1;
        latest_stable_block_hash = block_hash genesis;
        utxos = u;
        unstable_blocks = BlockForest.new delta;
      }
          ≡ s =
        cc in
      subst IsConsistent same (record {
        indexed = v.indexed;
        keys = subst (Keeps HasMap) inserted (insert_txs-HasMap genesis.txdata start 1 tt);
        below = v.below;
        strict = v.strict;
        linked = tt;
        plain = tt;
      })
