-- ===== src/BlockForest/Arrivals.antt =====
-- Any number of blocks that are pushed, each with a hash of its own and at most one successor.
use mathlib.Core.List.{perm_middle}
use mathlib.Core.List.Perm
use native.Mathlib.Nat.{ℕ_set}
use bitcoin_dip.Base.{
  ℕ, ◌≤◌, ◌≡◌, refl, inl, inr, Bool, false, List, [], ◌∷◌, ◌++◌, append-nil, All, All-perm,
  All-append_split, any, count, count-append, count-perm, Perm, ◌==◌, nat_eq, Bool-cases, returns,
  arith,
}
use bitcoin_dip.Bitcoin.{Block, BlockHash, Bitcoin, block_hash}
use bitcoin_dip.BlockTree.{BlockTree, tree}
use bitcoin_dip.BlockTree.Attach.{blocks, blocks_below}
use bitcoin_dip.BlockTree.Linked.{IsLinked}
use bitcoin_dip.BlockForest.{BlockForest, push}
use bitcoin_dip.BlockForest.Push.{placed_trees, push-placed_trees}
use bitcoin_dip.BlockForest.Contents.{all_blocks}
use bitcoin_dip.BlockForest.Links.{push-IsLinked}
use bitcoin_dip.BlockForest.Waiting.{waiting}
use bitcoin_dip.BlockForest.Merged.{is_child_of, IsMerged, IsGraded, Takes, push-new, push-IsMerged}
use bitcoin_dip.UnitTests.Trees.{push_all}

any-none : {A : Type 0} (p : A → Bool) (xs : List A) → count p xs ≡ 0 → any p xs ≡ false
any-none p [] e = refl
any-none p (x ∷ xs) e = elim (Bool-cases (p x)) [
  | inl h ↦ absurd (ground (arith, rw h at e))
  | inr h ↦ rw h (any-none p xs (rw h at e))
]

module _ ⦃lib : Bitcoin⦄ where
  -- No two blocks have one hash, or one parent, and each is one above its parent.
  pub record IsForkless (pos : BlockHash → ℕ) (bs : List Block) : Type 0 where
    pub hashes : (hash : BlockHash) → count (λ b. block_hash b == hash) bs ≤ 1
    pub parents : (hash : BlockHash) → count (is_child_of hash) bs ≤ 1
    pub graded : All (IsGraded pos) bs

  pub IsForkless-perm :
      (pos : BlockHash → ℕ) (xs ys : List Block)
      → Perm xs ys
      → IsForkless pos xs
      → IsForkless pos ys
  IsForkless-perm pos xs ys p u = record {
    hashes = λ hash. omega (arith, u.hashes hash, count-perm (λ b. block_hash b == hash) xs ys p);
    parents = λ hash. omega (arith, u.parents hash, count-perm (is_child_of hash) xs ys p);
    graded = All-perm (IsGraded pos) (λ x. ℕ_set _ _) xs ys p u.graded;
  }

  pub waiting-children :
      (ts : List BlockTree) (hash : BlockHash)
      → waiting hash ts ≤ count (is_child_of hash) (all_blocks ts)
  unfolding blocks
  waiting-children [] hash = omega arith
  waiting-children (tree b cs ∷ ts) hash = ground (
    arith,
    waiting-children ts hash,
    count-append (is_child_of hash) (blocks_below cs) (all_blocks ts),
  )

  module _ (pos : BlockHash → ℕ) where
    Takes-next :
        (f : BlockForest) (b : Block) (rest : List Block)
        → All IsLinked f.trees
        → IsForkless pos (all_blocks f.trees ++ b ∷ rest)
        → Takes pos f b
    Takes-next f b rest linked u =
        let old = all_blocks f.trees in
        let same_hash = λ (x : Block). block_hash x == block_hash b in
        let hashes = count-append same_hash old (b ∷ rest) in
        let parents = count-append (is_child_of (block_hash b)) old (b ∷ rest) in
        let few = waiting-children f.trees (block_hash b) in
        let (seen, coming) = All-append_split (IsGraded pos) old (b ∷ rest) u.graded in
        record {
          new = any-none same_hash old (ground (arith, hashes, u.hashes (block_hash b)));
          single = omega (arith, few, parents, u.parents (block_hash b));
          graded = (coming.0, seen);
          linked = linked;
        }

    -- Blocks that are pushed one after the other: every push returns, no block is lost, the trees
    -- are linked, and no tree waits for a block that is there.
    pub push_all-IsMerged :
        (rest : List Block) (f : BlockForest)
        → All IsLinked f.trees
        → IsMerged f.trees
        → IsForkless pos (all_blocks f.trees ++ rest)
        → (g : BlockForest) × (push_all f rest ≡ returns g)
          × (g.delta ≡ f.delta)
          × All IsLinked g.trees
          × IsMerged g.trees
          × Perm (all_blocks g.trees) (all_blocks f.trees ++ rest)
    unfolding push_all
    push_all-IsMerged [] f linked merged u =
        (f, refl, refl, linked, merged, rw (append-nil (all_blocks f.trees)) Perm.rfl)
    push_all-IsMerged (b ∷ rest) f linked merged u =
        let next : BlockForest = record f { trees = placed_trees f.trees b } in
        let pushed : push f b ≡ returns next = push-placed_trees f b in
        let t = Takes-next f b rest linked u in
        let new = push-new pos f b t next pushed in
        let moved =
          Perm.trans (Perm.append_right rest new)
            (Perm.symm (perm_middle (all_blocks f.trees) rest)) in
        let (g, done, same, l, m, p) =
          push_all-IsMerged rest next (push-IsLinked f next b linked pushed)
            (push-IsMerged pos f b t next pushed merged)
            (IsForkless-perm pos _ _ (Perm.symm moved) u) in
        (g, rw pushed done, same, l, m, Perm.trans p moved)
