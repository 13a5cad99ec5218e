-- ===== src/BlockForest/Kept.antt =====
-- What holds of every block of a forest holds after a push and after a pop.
use mathlib.Core.List.Perm
use bitcoin_dip.Base.{
  ◌≡◌, sym, subst, inl, inr, not, Option, none, some, List, [], ◌∷◌, ◌++◌, flat_map, All,
  All-append, All-append_split, All-flat_map, All-perm, All-prop, returns,
}
use bitcoin_dip.Bitcoin.{Block, BlockHash, Bitcoin}
use bitcoin_dip.BlockTree.{BlockTree, Children, tree, nil, cons, to_list, children, root}
use bitcoin_dip.BlockTree.Attach.{blocks, blocks_below}
use bitcoin_dip.BlockForest.{BlockForest, is_attached, detached, push, pop}
use bitcoin_dip.BlockForest.Pop.{Pops, pop_lem}
use bitcoin_dip.BlockForest.Contents.{all_blocks, Added, push-blocks}
use bitcoin_dip.BlockForest.Ancestry.{filter-All_of}

module _ {ℓ κ μ} {A : Type ℓ} {B : Type κ} (P : B → Type μ) where
  All-flat_map_inv :
      (f : A → List B) (xs : List A) → All P (flat_map f xs) → All (λ x. All P (f x)) xs
  All-flat_map_inv f [] a = tt
  All-flat_map_inv f (x ∷ xs) a =
      let (here, rest) = All-append_split P (f x) (flat_map f xs) a in
      (here, All-flat_map_inv f xs rest)

module _ (P : Block → Type 0) where
  -- Every block of the tree has the property.
  abbrev pub Throughout : BlockTree → Type 0
  Throughout t = All P (blocks t)

  children-Throughout :
      (t : BlockTree) → Throughout t → P (root t) × All Throughout (to_list (children t))
  unfolding blocks
  children-Throughout (tree b cs) a = (a.0, below cs a.1)
    where
      below : (cs : Children) → All P (blocks_below cs) → All Throughout (to_list cs)
      below nil a = tt
      below (cons c cs) a =
          let (here, rest) = All-append_split P (blocks c) (blocks_below cs) a in
          (here, below cs rest)

module _ ⦃lib : Bitcoin⦄ (P : Block → Type 0) (prop : (b : Block) → IsProp (P b)) where
  -- A property of the pushed block and of every block of the forest still holds of every block.
  pub push-Throughout :
      (f g : BlockForest) (b : Block)
      → P b
      → All P (all_blocks f.trees)
      → push f b ≡ returns g
      → All P (all_blocks g.trees)
  push-Throughout f g b p a e =
      let (h, pushed, _, more) = push-blocks f b in
      let same : h ≡ g = cc in subst (λ k. All P (all_blocks k.trees)) same (by_case h more)
    where
      by_case :
          (h : BlockForest)
          → Added b (all_blocks f.trees) (all_blocks h.trees)
          → All P (all_blocks h.trees)
      by_case h (inl new) =
          All-perm P prop (b ∷ all_blocks f.trees) (all_blocks h.trees) (Perm.symm new) (p, a)
      by_case h (inr (_, old)) =
          All-perm P prop (all_blocks f.trees) (all_blocks h.trees) (Perm.symm old) a

  abbrev OfPopped : Option Block → Type 0
  OfPopped none = Unit {0}
  OfPopped (some b) = P b

  -- It holds of the block that a pop returns, and of those that it keeps.
  pub pop-Throughout :
      (f g : BlockForest) (anchor : BlockHash) (r : Option Block)
      → All P (all_blocks f.trees)
      → pop f anchor ≡ returns (r, g)
      → OfPopped r × All P (all_blocks g.trees)
  pop-Throughout f g anchor none a e =
      let (_, same, _) = subst (Pops f anchor) e (pop_lem f anchor) in
      (
        tt,
        All-flat_map P blocks g.trees (
            All-perm (Throughout P) (λ t. All-prop P prop (blocks t)) f.trees g.trees
              (Perm.symm same) (All-flat_map_inv P blocks f.trees a)),
      )
  pop-Throughout f g anchor (some b) a e =
      let (t, others, stable, is_root, after) = subst (Pops f anchor) e (pop_lem f anchor) in
      let each = All-flat_map_inv P blocks f.trees a in
      let near = filter-All_of (Throughout P) (is_attached anchor) f.trees each in
      let far = filter-All_of (Throughout P) (λ u. not (is_attached anchor u)) f.trees each in
      let top = All-perm (Throughout P) (λ u. All-prop P prop (blocks u)) _ _ stable.split near in
      let (here, below) = children-Throughout P t top.0 in
      (
        subst P (sym is_root) here,
        subst (λ h. All P (all_blocks h.trees)) (sym after)
            (All-flat_map P blocks (detached f anchor ++ to_list (children t))
              (All-append (Throughout P) (detached f anchor) (to_list (children t)) far below)),
      )
