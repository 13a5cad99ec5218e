-- ===== src/BlockForest/Push.antt =====
-- `BlockForest::push` against a description with no cursors and no panics.
use mathlib.Core.Option
use bitcoin_dip.Base.{
  ◌≡◌, refl, ap, inl, inr, true, Option, none, some, List, [], ◌∷◌, ◌++◌, any-perm, ◌==◌, nat_eq,
  nat_beq_iff, if◌then◌else◌, Bool-cases, Option-cases, returns, ◌∙◌,
}
use bitcoin_dip.Bitcoin.{Block, BlockHash, Bitcoin, block_hash, prev_hash}
use bitcoin_dip.BlockTree.{
  BlockTree, tree, nil, cons, ExtendResult, extended, not_part_of_tree, extend, find_mut, Cursor,
  root,
}
use bitcoin_dip.BlockTree
use bitcoin_dip.BlockTree.Attach.{blocks, has, attach, blocks-attach}
use bitcoin_dip.BlockTree.Find.{Finds, find_mut_lem, extend_lem}
use bitcoin_dip.BlockForest.{BlockForest, take_tree, adopt, extend_first, new_tree, push}

module _ ⦃lib : Bitcoin⦄ where
  abbrev pub adopted : BlockTree → BlockHash → Option BlockTree → BlockTree
  adopted t hash none = t
  adopted t hash (some successor) = attach t hash successor

  adopt_cursor :
      (t : BlockTree) (hash : BlockHash) (successor : BlockTree) (r : Option Cursor)
      → find_mut t hash ≡ r
      → Finds t hash r
      → has t hash ≡ true
      → adopt t hash (some successor) ≡ returns (attach t hash successor)
  unfolding adopt
  adopt_cursor t hash successor none e f h = cc
  adopt_cursor t hash successor (some r) e f h = rw (e, f.attaches successor)

  -- The `unwrap` after a block was added never fails.
  adopt_lem :
      (t : BlockTree) (hash : BlockHash) (successor : Option BlockTree)
      → has t hash ≡ true
      → adopt t hash successor ≡ returns (adopted t hash successor)
  unfolding adopt
  adopt_lem t hash none h = refl
  adopt_lem t hash (some s) h = adopt_cursor t hash s (find_mut t hash) refl (find_mut_lem t hash) h

  -- A block hung under its parent is found there.
  pub has-attach :
      (t : BlockTree) (b : Block)
      → has t (prev_hash b) ≡ true
      → has (attach t (prev_hash b) (BlockTree.new b)) (block_hash b) ≡ true
  unfolding blocks
  has-attach t b h =
      any-perm (λ x. block_hash x == block_hash b) _ _
        (blocks-attach t (prev_hash b) (BlockTree.new b) h)
      ∙ rw ((nat_beq_iff (block_hash b) (block_hash b)).1 refl)

  -- The first tree that holds the block or its parent takes the block and its successors.
  unfoldable pub place : List BlockTree → Block → Option BlockTree → Option (List BlockTree)
  place [] b successor = none
  place (t ∷ ts) b successor =
      let rest = Option.map (λ l. t ∷ l) (place ts b successor) in
      let grown = attach t (prev_hash b) (tree b nil) in
      if has t (block_hash b)
      then some (adopted t (block_hash b) successor ∷ ts)
      else (if has t (prev_hash b)
          then some (adopted grown (block_hash b) successor ∷ ts)
          else rest)

  extend_first_lem :
      (ts : List BlockTree) (b : Block) (successor : Option BlockTree)
      → extend_first ts b successor ≡ returns (place ts b successor)
  unfolding extend_first place
  extend_first_lem [] b successor = refl
  extend_first_lem (t ∷ ts) b successor = elim (Bool-cases (has t (block_hash b))) [
    | inl old ↦ rw (extend_lem t b, old, adopt_lem t (block_hash b) successor old)
    | inr fresh ↦ elim (Bool-cases (has t (prev_hash b))) [
      | inl under ↦ rw (
        extend_lem t b,
        fresh,
        under,
        adopt_lem (attach t (prev_hash b) (BlockTree.new b)) (block_hash b) successor
            (has-attach t b under),
      )
      | inr apart ↦ rw (extend_lem t b, fresh, apart, extend_first_lem ts b successor)
    ]
  ]

  -- The trees after a push of `b`, by the program's own search of the waiting tree.
  abbrev pub placed_trees : List BlockTree → Block → List BlockTree
  placed_trees ts b =
      let r = take_tree ts (block_hash b) in
      Option.get_or (place r.1 b r.0) (r.1 ++ new_tree b r.0 ∷ [])

  pub push-placed_trees :
      (f : BlockForest) (b : Block)
      → push f b ≡ returns (record f { trees = placed_trees f.trees b })
  unfolding push
  push-placed_trees f b =
      let r = take_tree f.trees (block_hash b) in
      elim (Option-cases (place r.1 b r.0)) [
        | inl e ↦ rw (extend_first_lem r.1 b r.0, e)
        | inr (ts, e) ↦ rw (extend_first_lem r.1 b r.0, e)
      ]

  -- The first tree whose root names the block with this hash as its parent.
  abbrev pub first_waiting : List BlockTree → BlockHash → Option BlockTree
  first_waiting [] hash = none
  first_waiting (tree top below ∷ ts) hash =
      if prev_hash top == hash then some (tree top below) else first_waiting ts hash

  -- All the trees but that one, in order.
  abbrev pub without_first : List BlockTree → BlockHash → List BlockTree
  without_first [] hash = []
  without_first (tree top below ∷ ts) hash =
      if prev_hash top == hash then ts else tree top below ∷ without_first ts hash

  -- A tree of the block and what waited for it.
  abbrev pub as_root : Block → Option BlockTree → BlockTree
  as_root b none = tree b nil
  as_root b (some waiting) = tree b (cons waiting nil)

  -- The trees after a push of `b`: the first that waited for it hangs under it, in the first tree
  -- that holds the block or its parent, or in a new tree.
  abbrev pub trees_after : List BlockTree → Block → List BlockTree
  trees_after ts b =
      let waiting = first_waiting ts (block_hash b) in
      let others = without_first ts (block_hash b) in
      Option.get_or (place others b waiting) (others ++ as_root b waiting ∷ [])

  take_tree_lem :
      (ts : List BlockTree) (hash : BlockHash)
      → take_tree ts hash ≡ (first_waiting ts hash, without_first ts hash)
  unfolding take_tree
  take_tree_lem [] hash = refl
  take_tree_lem (tree top below ∷ ts) hash = elim (Bool-cases (prev_hash top == hash)) [
    | inl waits ↦ rw waits refl
    | inr other ↦ rw (other, take_tree_lem ts hash) refl
  ]

  new_tree_lem : (b : Block) (s : Option BlockTree) → new_tree b s ≡ as_root b s
  new_tree_lem b none = refl
  new_tree_lem b (some s) = refl

  placed_trees_lem : (ts : List BlockTree) (b : Block) → placed_trees ts b ≡ trees_after ts b
  placed_trees_lem ts b =
      ap
        (λ (r : Option BlockTree × List BlockTree).
          Option.get_or (place r.1 b r.0) (r.1 ++ new_tree b r.0 ∷ []))
        (take_tree_lem ts (block_hash b))
      ∙ ap
          (λ t.
            Option.get_or
              (place (without_first ts (block_hash b)) b (first_waiting ts (block_hash b)))
              (without_first ts (block_hash b) ++ t ∷ []))
          (new_tree_lem b (first_waiting ts (block_hash b)))

  -- `push` returns on every forest and block: its `unwrap` and the assertion of `extend` never
  -- fail. The first tree whose root names the block as its parent is taken out, the others keep
  -- their order. The first of them that holds the block or its parent takes the block, if it does
  -- not hold it yet, or else a new tree at the end does. The tree that was taken out is hung under
  -- the block.
  pub push_lem :
      (f : BlockForest) (b : Block)
      → push f b ≡ returns (record f { trees = trees_after f.trees b })
  push_lem f b =
      push-placed_trees f b
      ∙ ap (λ ts. returns (record f { trees = ts })) (placed_trees_lem f.trees b)
