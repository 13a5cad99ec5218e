-- ===== src/BlockForest/Contents.antt =====
-- The blocks of a forest, and that its trees stay linked.
use mathlib.Core.Option
use mathlib.Core.List.{perm_append_comm, perm_middle}
use mathlib.Core.List.Perm
use bitcoin_dip.Base.{
  ◌≡◌, refl, inl, inr, ◌⊎◌, true, Option, none, some, List, [], ◌∷◌, ◌++◌, Perm, append_assoc,
  append-nil, flat_map, flat_map-append, any-append, any-perm, perm_rotate, ◌==◌, nat_eq,
  Bool-cases, returns, arith, ◌∙◌, ap, sym, sym,
}
use bitcoin_dip.Bitcoin.{Block, BlockHash, Bitcoin, block_hash, prev_hash}
use bitcoin_dip.BlockTree.{BlockTree, root}
use bitcoin_dip.BlockTree
use bitcoin_dip.BlockTree.Attach.{blocks, blocks_below-push, has, holds, attach, blocks-attach}
use bitcoin_dip.BlockForest.{BlockForest, take_tree, new_tree, push}
use bitcoin_dip.BlockForest.Push.{adopted, has-attach, place, placed_trees, push-placed_trees}

-- Every block of the trees.
abbrev pub all_blocks : List BlockTree → List Block
all_blocks = flat_map blocks

abbrev pub successor_blocks : Option BlockTree → List Block
successor_blocks none = []
successor_blocks (some t) = blocks t

module _ ⦃lib : Bitcoin⦄ where
  pub take_tree-blocks :
      (ts : List BlockTree) (hash : BlockHash)
      → Perm
          (successor_blocks (take_tree ts hash).0 ++ all_blocks (take_tree ts hash).1)
          (all_blocks ts)
  unfolding take_tree
  take_tree-blocks [] hash = Perm.nil
  take_tree-blocks (t ∷ ts) hash = elim (Bool-cases (prev_hash (root t) == hash)) [
    | inl e ↦ rw e Perm.rfl
    | inr e ↦ rw e (
        Perm.trans
          (perm_rotate (successor_blocks (take_tree ts hash).0) (blocks t)
            (all_blocks (take_tree ts hash).1))
          (Perm.append_left (blocks t) (take_tree-blocks ts hash)))
  ]

  adopted-blocks :
      (t : BlockTree) (hash : BlockHash) (successor : Option BlockTree)
      → has t hash ≡ true
      → Perm (blocks (adopted t hash successor)) (successor_blocks successor ++ blocks t)
  adopted-blocks t hash none h = Perm.rfl
  adopted-blocks t hash (some s) h = blocks-attach t hash s h

  -- The blocks after a push: `b` is new, or one with its hash was there.
  abbrev pub Added : Block → List Block → List Block → Type 0
  Added b before after =
      Perm after (b ∷ before) ⊎ ((holds (block_hash b) before ≡ true) × Perm after before)

  abbrev Placed : Block → List Block → Option (List BlockTree) → Type 0
  Placed b before none = Unit {0}
  Placed b before (some ts) = Added b before (all_blocks ts)

  -- A tree that did not take the block stays in front.
  past_tree :
      (b : Block) (t : BlockTree) (extra old : List Block) (r : Option (List BlockTree))
      → Placed b (extra ++ old) r
      → Placed b (extra ++ (blocks t ++ old)) (Option.map (λ l. t ∷ l) r)
  past_tree b t extra old none p = tt
  past_tree b t extra old (some ts) (inl p) = inl (
      Perm.trans (Perm.append_left (blocks t) p) (
        Perm.trans (perm_middle (blocks t) (extra ++ old))
          (Perm.cons b (perm_rotate (blocks t) extra old))))
  past_tree b t extra old (some ts) (inr (h, p)) = inr (
    any-perm (λ x. block_hash x == block_hash b) _ _ (perm_rotate extra (blocks t) old)
        ∙ rw (any-append (λ x. block_hash x == block_hash b) (blocks t) (extra ++ old), h)
            (ground arith),
    Perm.trans (Perm.append_left (blocks t) p) (perm_rotate (blocks t) extra old),
  )

  -- The block is new, and stands with its successors in the tree that had its parent.
  grown-blocks :
      (t : BlockTree) (b : Block) (successor : Option BlockTree)
      → has t (prev_hash b) ≡ true
      → let grown = attach t (prev_hash b) (BlockTree.new b) in
        Perm
          (blocks (adopted grown (block_hash b) successor))
          (b ∷ (successor_blocks successor ++ blocks t))
  unfolding blocks
  grown-blocks t b successor h =
      let grown = attach t (prev_hash b) (BlockTree.new b) in
      Perm.trans (adopted-blocks grown (block_hash b) successor (has-attach t b h)) (
        Perm.trans
          (Perm.append_left (successor_blocks successor)
            (blocks-attach t (prev_hash b) (BlockTree.new b) h))
          (perm_middle (successor_blocks successor) (blocks t)))

  place-blocks :
      (ts : List BlockTree) (b : Block) (successor : Option BlockTree)
      → Placed b (successor_blocks successor ++ all_blocks ts) (place ts b successor)
  unfolding place
  place-blocks [] b successor = tt
  place-blocks (t ∷ ts) b successor =
      let extra = successor_blocks successor in
      let same_hash = λ (x : Block). block_hash x == block_hash b in
      elim (Bool-cases (has t (block_hash b))) [
        | inl old ↦ rw old (
            inr (
              rw
                  (
                    any-append same_hash extra (blocks t ++ all_blocks ts),
                    any-append same_hash (blocks t) (all_blocks ts),
                    old,
                  )
                  (ground arith),
              rw (← append_assoc extra (blocks t) (all_blocks ts)) (
                  Perm.append_right (all_blocks ts)
                    (adopted-blocks t (block_hash b) successor old)),
            ))
        | inr fresh ↦ elim (Bool-cases (has t (prev_hash b))) [
          | inl under ↦
              rw (fresh, under)
                (inl (
                  rw (← append_assoc extra (blocks t) (all_blocks ts))
                    (Perm.append_right (all_blocks ts) (grown-blocks t b successor under))))
          | inr apart ↦
              rw (fresh, apart)
                (past_tree b t extra (all_blocks ts) (place ts b successor)
                  (place-blocks ts b successor))
        ]
      ]

  new_tree-blocks :
      (b : Block) (successor : Option BlockTree)
      → blocks (new_tree b successor) ≡ b ∷ successor_blocks successor
  unfolding blocks
  new_tree-blocks b none = refl
  new_tree-blocks b (some s) = ap (◌∷◌ b) (blocks_below-push BlockTree.Children.nil s)

  fallback-blocks :
      (ts : List BlockTree) (b : Block) (successor : Option BlockTree)
      → Perm
          (all_blocks (ts ++ new_tree b successor ∷ []))
          (b ∷ (successor_blocks successor ++ all_blocks ts))
  fallback-blocks ts b successor =
      rw
        (
          flat_map-append blocks ts (new_tree b successor ∷ []),
          new_tree-blocks b successor,
          append-nil (successor_blocks successor),
        )
        (perm_append_comm (all_blocks ts) (b ∷ successor_blocks successor))

  Added-perm :
      (b : Block) (before before' after : List Block)
      → Perm before before'
      → Added b before after
      → Added b before' after
  Added-perm b before before' after p (inl q) = inl (Perm.trans q (Perm.cons b p))
  Added-perm b before before' after p (inr (h, q)) =
      inr (sym (any-perm (λ x. block_hash x == block_hash b) _ _ p) ∙ h, Perm.trans q p)

  Placed-or_new :
      (ts : List BlockTree) (b : Block) (successor : Option BlockTree) (r : Option (List BlockTree))
      → Placed b (successor_blocks successor ++ all_blocks ts) r
      → Added b
          (successor_blocks successor ++ all_blocks ts)
          (all_blocks (Option.get_or r (ts ++ new_tree b successor ∷ [])))
  Placed-or_new ts b successor none p = inl (fallback-blocks ts b successor)
  Placed-or_new ts b successor (some ts') p = p

  -- A push returns, adds its block and loses none: the blocks after it are those before it and
  -- the new one, in some order, unless a block with the same hash was there already, and then they
  -- may be just those before it.
  pub push-blocks :
      (f : BlockForest) (b : Block)
      → (g : BlockForest) × (push f b ≡ returns g)
        × (g.delta ≡ f.delta)
        × Added b (all_blocks f.trees) (all_blocks g.trees)
  push-blocks f b =
      let r = take_tree f.trees (block_hash b) in
      (
        record f { trees = placed_trees f.trees b },
        push-placed_trees f b,
        refl,
        Added-perm b _ _ _ (take_tree-blocks f.trees (block_hash b))
            (Placed-or_new r.1 b r.0 (place r.1 b r.0) (place-blocks r.1 b r.0)),
      )
