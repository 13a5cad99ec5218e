-- ===== src/BlockForest/Waiting.antt =====
-- The trees that wait for a block: `push` hangs one of them under it.
use mathlib.Core.Option
use bitcoin_dip.Base.{
  ℕ, ◌-◌, ◌≡◌, refl, sym, ap, ◌∙◌, inl, inr, Bool, false, Option, none, some, List, [], ◌∷◌, ◌++◌,
  count, count-append, ◌==◌, nat_eq, Bool-cases, returns, arith,
}
use bitcoin_dip.Bitcoin.{Block, BlockHash, Bitcoin, block_hash, prev_hash}
use bitcoin_dip.BlockTree.{BlockTree, root, with_child, tree}
use bitcoin_dip.BlockTree
use bitcoin_dip.BlockTree.Attach.{has, attach}
use bitcoin_dip.BlockTree.Linked.{root-attach}
use bitcoin_dip.BlockForest.{BlockForest, take_tree, new_tree, push}
use bitcoin_dip.BlockForest.Push.{adopted, place, placed_trees, push-placed_trees}

module _ ⦃lib : Bitcoin⦄ where
  abbrev pub is_under : BlockHash → BlockTree → Bool
  is_under hash t = prev_hash (root t) == hash

  -- How many trees have a root whose parent has the hash.
  abbrev pub waiting : BlockHash → List BlockTree → ℕ
  waiting hash ts = count (is_under hash) ts

  pub take_tree-waiting :
      (ts : List BlockTree) (hash : BlockHash)
      → waiting hash (take_tree ts hash).1 ≡ waiting hash ts - 1
  unfolding take_tree
  take_tree-waiting [] hash = omega arith
  take_tree-waiting (t ∷ ts) hash = elim (Bool-cases (is_under hash t)) [
    | inl same ↦ rw same (omega arith)
    | inr differs ↦ rw (differs, differs) (take_tree-waiting ts hash)
  ]

  adopted-root :
      (t : BlockTree) (hash : BlockHash) (successor : Option BlockTree)
      → root (adopted t hash successor) ≡ root t
  adopted-root t hash none = refl
  adopted-root t hash (some s) = root-attach t hash s

  unfoldable pub IsAsMany : BlockHash → List BlockTree → Option (List BlockTree) → Type 0
  IsAsMany hash ts none = Unit {0}
  IsAsMany hash ts (some us) = waiting hash us ≡ waiting hash ts

  same_root :
      (hash : BlockHash) (t u : BlockTree) (ts : List BlockTree)
      → root u ≡ root t
      → waiting hash (u ∷ ts) ≡ waiting hash (t ∷ ts)
  same_root hash t u ts e = rw e refl

  one_more :
      (hash : BlockHash) (t : BlockTree) (ts : List BlockTree) (r : Option (List BlockTree))
      → IsAsMany hash ts r
      → IsAsMany hash (t ∷ ts) (Option.map (λ l. t ∷ l) r)
  unfolding IsAsMany
  one_more hash t ts none h = tt
  one_more hash t ts (some us) h = ground (arith, h)

  -- The tree that takes the block keeps its root.
  pub place-IsAsMany :
      (hash : BlockHash) (ts : List BlockTree) (b : Block) (successor : Option BlockTree)
      → IsAsMany hash ts (place ts b successor)
  unfolding place IsAsMany
  place-IsAsMany hash [] b successor = tt
  place-IsAsMany hash (t ∷ ts) b successor = elim (Bool-cases (has t (block_hash b))) [
    | inl old ↦ rw old (
        same_root hash t (adopted t (block_hash b) successor) ts
          (adopted-root t (block_hash b) successor))
    | inr fresh ↦ elim (Bool-cases (has t (prev_hash b))) [
      | inl under ↦
          let grown = attach t (prev_hash b) (BlockTree.new b) in
          rw (fresh, under)
            (same_root hash t (adopted grown (block_hash b) successor) ts (
              adopted-root grown (block_hash b) successor
              ∙ root-attach t (prev_hash b) (BlockTree.new b)))
      | inr apart ↦
          rw (fresh, apart)
            (one_more hash t ts (place ts b successor) (place-IsAsMany hash ts b successor))
    ]
  ]

  new_tree-root : (b : Block) (successor : Option BlockTree) → root (new_tree b successor) ≡ b
  new_tree-root b none = refl
  new_tree-root b (some s) = refl

  pub placed :
      (hash : BlockHash) (ts : List BlockTree) (b : Block) (successor : Option BlockTree)
      (r : Option (List BlockTree))
      → (prev_hash b == hash) ≡ false
      → IsAsMany hash ts r
      → waiting hash (Option.get_or r (ts ++ new_tree b successor ∷ [])) ≡ waiting hash ts
  unfolding IsAsMany
  placed hash ts b successor none apart h =
      count-append (is_under hash) ts (new_tree b successor ∷ [])
      ∙ rw (new_tree-root b successor, apart) (omega arith)
  placed hash ts b successor (some us) apart h = h

  -- If a block is not its own parent, then of the trees whose root names the block as its parent a
  -- push of the block hangs one under it, if there is one, and leaves all the others where they
  -- are, although their parent is known then.
  pub push-waiting :
      (f g : BlockForest) (b : Block)
      → (prev_hash b == block_hash b) ≡ false
      → push f b ≡ returns g
      → waiting (block_hash b) g.trees ≡ waiting (block_hash b) f.trees - 1
  push-waiting f g b apart e =
      let same : record f { trees = placed_trees f.trees b } ≡ g = cc (push-placed_trees f b) in
      let r = take_tree f.trees (block_hash b) in
      ap (λ h. waiting (block_hash b) h.trees) (sym same)
      ∙ (placed (block_hash b) r.1 b r.0 (place r.1 b r.0) apart
            (place-IsAsMany (block_hash b) r.1 b r.0)
          ∙ take_tree-waiting f.trees (block_hash b))
