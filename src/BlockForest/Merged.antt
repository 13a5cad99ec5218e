-- ===== src/BlockForest/Merged.antt =====
-- Blocks that arrive in any order: the trees of a forest in which no tree waits for a block that is
-- there, and that a push of another block keeps it so.
use mathlib.Core.Option
use mathlib.Core.List.Perm
use native.Mathlib.Nat.{ℕ_set}
use bitcoin_dip.Base.{
  ℕ, suc, ◌≤◌, ◌<◌, ◌≡◌, refl, sym, ap, subst, ◌∙◌, inl, inr, Bool, true, false, false≢true, Option,
  none, some, List, [], ◌∷◌, All, All-perm, All-append, All-append_split, any-append, any-perm,
  Perm, ◌==◌, nat_eq, nat_beq_iff, Bool-cases, Option-cases, returns, arith,
}
use bitcoin_dip.Bitcoin.{Block, BlockHash, Bitcoin, block_hash, prev_hash}
use bitcoin_dip.BlockTree.{BlockTree, Children, tree, nil, cons, root}
use bitcoin_dip.BlockTree.Attach.{blocks, blocks_below, holds, has}
use bitcoin_dip.BlockTree.Linked.{IsLinked, AllLinked}
use bitcoin_dip.BlockForest.{BlockForest, take_tree, push}
use bitcoin_dip.BlockForest.Push.{place, placed_trees, push-placed_trees}
use bitcoin_dip.BlockForest.Contents.{
  all_blocks, successor_blocks, Added, take_tree-blocks, push-blocks,
}
use bitcoin_dip.BlockForest.Waiting.{
  waiting, is_under, IsAsMany, place-IsAsMany, placed, push-waiting,
}
use bitcoin_dip.BlockForest.Links.{FitsUnder, take_tree-FitsUnder}

module _ ⦃lib : Bitcoin⦄ where
  abbrev pub is_child_of : BlockHash → Block → Bool
  is_child_of hash b = prev_hash b == hash

  -- No tree waits for a block that is there.
  abbrev pub IsMerged : List BlockTree → Type 0
  IsMerged ts = (hash : BlockHash) → holds hash (all_blocks ts) ≡ true → waiting hash ts ≡ 0

  -- A position counts one more for each block than for its parent.
  abbrev pub IsGraded : (BlockHash → ℕ) → Block → Type 0
  IsGraded pos b = pos (block_hash b) ≡ suc (pos (prev_hash b))

  module _ (pos : BlockHash → ℕ) where
    mutual
      unfolding blocks

      above_parent :
          (t : BlockTree) (low : ℕ)
          → IsLinked t
          → All (IsGraded pos) (blocks t)
          → low ≤ pos (prev_hash (root t))
          → All (λ x. low < pos (block_hash x)) (blocks t)
      above_parent (tree b cs) low l g h =
          (omega (arith, g.0, h), above_parent_below cs b low l g.1 (omega (arith, g.0, h)))

      above_parent_below :
          (cs : Children) (b : Block) (low : ℕ)
          → AllLinked (block_hash b) cs
          → All (IsGraded pos) (blocks_below cs)
          → low ≤ pos (block_hash b)
          → All (λ x. low < pos (block_hash x)) (blocks_below cs)
      above_parent_below nil b low l g h = tt
      above_parent_below (cons c cs) b low l g h =
          let (here, rest) = All-append_split (IsGraded pos) (blocks c) (blocks_below cs) g in
          All-append (λ x. low < pos (block_hash x)) (blocks c) (blocks_below cs)
            (above_parent c low l.1 here (rw l.0 h)) (above_parent_below cs b low l.2 rest h)

    above_apart :
        (hash : BlockHash) (bs : List Block)
        → All (λ x. pos hash < pos (block_hash x)) bs
        → holds hash bs ≡ false
    above_apart hash [] a = refl
    above_apart hash (b ∷ bs) a = elim (Bool-cases (block_hash b == hash)) [
      | inl same ↦
          let e : block_hash b ≡ hash = (nat_beq_iff _ _).0 same in
          let below = subst (λ k. pos hash < pos k) e a.0 in absurd (omega (arith, below))
      | inr differs ↦ rw differs (above_apart hash bs a.1)
    ]

    -- A hash that is no higher than the parent of the root is not in the tree.
    tree_apart :
        (t : BlockTree) (hash : BlockHash)
        → IsLinked t
        → All (IsGraded pos) (blocks t)
        → pos hash ≤ pos (prev_hash (root t))
        → has t hash ≡ false
    tree_apart t hash l g h = above_apart hash (blocks t) (above_parent t (pos hash) l g h)

  take_tree-fewer :
      (ts : List BlockTree) (h k : BlockHash) → waiting h (take_tree ts k).1 ≤ waiting h ts
  unfolding take_tree
  take_tree-fewer [] h k = omega arith
  take_tree-fewer (t ∷ ts) h k = elim (Bool-cases (is_under k t)) [
    | inl same ↦ rw same (ground arith)
    | inr differs ↦ rw differs (ground (arith, take_tree-fewer ts h k))
  ]

  map-none : {A B : Type 0} (f : A → B) (r : Option A) → Option.map f r ≡ none → r ≡ none
  map-none f none e = refl
  map-none f (some a) e = absurd cc

  -- A block that no tree takes has its parent in none.
  place-none :
      (ts : List BlockTree) (b : Block) (successor : Option BlockTree)
      → place ts b successor ≡ none
      → holds (prev_hash b) (all_blocks ts) ≡ false
  unfolding place
  place-none [] b successor e = refl
  place-none (t ∷ ts) b successor e = elim (Bool-cases (has t (block_hash b))) [
    | inl old ↦ absurd (cc (rw old at e))
    | inr fresh ↦ elim (Bool-cases (has t (prev_hash b))) [
      | inl under ↦ absurd (cc (rw (fresh, under) at e))
      | inr apart ↦
          let rest = map-none (λ l. t ∷ l) (place ts b successor) (rw (fresh, apart) at e) in
          rw (any-append (λ x. block_hash x == prev_hash b) (blocks t) (all_blocks ts), apart)
            (place-none ts b successor rest)
    ]
  ]

  module _ (ts : List BlockTree) (b : Block) (h : BlockHash) where
    -- A push adds no tree that waits for `h`, if the block's parent is there should it be `h`.
    after-waiting :
        waiting h ts ≡ 0
        → ((prev_hash b == h) ≡ true
            → holds (prev_hash b) (all_blocks (take_tree ts (block_hash b)).1) ≡ true)
        → waiting h (placed_trees ts b) ≡ 0
    unfolding IsAsMany
    after-waiting none_before there =
        let r = take_tree ts (block_hash b) in
        let fewer = take_tree-fewer ts h (block_hash b) in
        let as_many = place-IsAsMany h r.1 b r.0 in
        elim (Option-cases (place r.1 b r.0)) [
          | inl e ↦ elim (Bool-cases (prev_hash b == h)) [
            | inl same ↦ absurd (false≢true (sym (place-none r.1 b r.0 e) ∙ there same))
            | inr apart ↦ omega (arith, fewer, placed h r.1 b r.0 (place r.1 b r.0) apart as_many)
          ]
          | inr (us, e) ↦ rw e (omega (arith, fewer, subst (IsAsMany h r.1) e as_many))
        ]

  -- Before a push: the block is new, no two trees wait for it, and the blocks are graded.
  pub record Takes (pos : BlockHash → ℕ) (f : BlockForest) (b : Block) : Type 0 where
    pub new : holds (block_hash b) (all_blocks f.trees) ≡ false
    pub single : waiting (block_hash b) f.trees ≤ 1
    pub graded : IsGraded pos b × All (IsGraded pos) (all_blocks f.trees)
    pub linked : All IsLinked f.trees

  module _ (pos : BlockHash → ℕ) (f : BlockForest) (b : Block) (t : Takes pos f b) where
    -- The parent of the block is not among those that follow it.
    successor_apart :
        holds (prev_hash b) (successor_blocks (take_tree f.trees (block_hash b)).0) ≡ false
    successor_apart =
        let r = take_tree f.trees (block_hash b) in
        let each =
          All-perm (IsGraded pos) (λ x. ℕ_set _ _) _ _
            (Perm.symm (take_tree-blocks f.trees (block_hash b))) t.graded.1 in
        let (above, _) =
          All-append_split (IsGraded pos) (successor_blocks r.0) (all_blocks r.1) each in
        by_case r.0 (take_tree-FitsUnder f.trees (block_hash b) t.linked).0 above
      where
        by_case :
            (s : Option BlockTree)
            → FitsUnder (block_hash b) s
            → All (IsGraded pos) (successor_blocks s)
            → holds (prev_hash b) (successor_blocks s) ≡ false
        by_case none fits g = refl
        by_case (some s) fits g =
            tree_apart pos s (prev_hash b) fits.1 g (rw fits.0 (omega (arith, t.graded.0)))

    parent_left :
        holds (prev_hash b) (all_blocks f.trees) ≡ true
        → holds (prev_hash b) (all_blocks (take_tree f.trees (block_hash b)).1) ≡ true
    parent_left there =
        let r = take_tree f.trees (block_hash b) in
        let test = λ (x : Block). block_hash x == prev_hash b in
        let same = any-perm test _ _ (take_tree-blocks f.trees (block_hash b)) in
        let split = any-append test (successor_blocks r.0) (all_blocks r.1) in
        let apart = successor_apart in ground (arith, there, same, split, apart)

    not_own_parent : (prev_hash b == block_hash b) ≡ false
    not_own_parent = elim (Bool-cases (prev_hash b == block_hash b)) [
      | inl same ↦
          let e : prev_hash b ≡ block_hash b = (nat_beq_iff _ _).0 same in
          let g : pos (block_hash b) ≡ suc (pos (block_hash b)) =
            t.graded.0 ∙ ap (λ h. suc (pos h)) e in
          absurd (omega (arith, g))
      | inr apart ↦ apart
    ]

    module _ (g : BlockForest) (pushed : push f b ≡ returns g) where
      -- The block is added, since it is new.
      pub push-new : Perm (all_blocks g.trees) (b ∷ all_blocks f.trees)
      push-new =
          let (h, done, _, added) = push-blocks f b in
          let same : h ≡ g = cc in
          subst (λ k. Perm (all_blocks k.trees) (b ∷ all_blocks f.trees)) same (by_case added)
        where
          by_case :
              {after : List Block}
              → Added b (all_blocks f.trees) after
              → Perm after (b ∷ all_blocks f.trees)
          by_case (inl p) = p
          by_case (inr (old, p)) = absurd (false≢true (sym t.new ∙ old))

      -- The push of a new block, for which at most one tree waits, keeps the forest merged.
      pub push-IsMerged : IsMerged f.trees → IsMerged g.trees
      push-IsMerged merged h there = elim (Bool-cases (block_hash b == h)) [
        | inl same ↦
            let e : block_hash b ≡ h = (nat_beq_iff _ _).0 same in
            subst (λ k. waiting k g.trees ≡ 0) e
              (omega (arith, t.single, push-waiting f g b not_own_parent pushed))
        | inr apart ↦
            let seen : holds h (all_blocks f.trees) ≡ true =
              rw apart at (sym (any-perm (λ x. block_hash x == h) _ _ push-new) ∙ there) in
            let after = after-waiting f.trees b h (merged h seen) (λ e. parent_left (
              subst (λ k. holds k (all_blocks f.trees) ≡ true) (sym ((nat_beq_iff _ _).0 e))
                seen)) in
            let same : record f { trees = placed_trees f.trees b } ≡ g =
              cc (push-placed_trees f b) in
            subst (λ k. waiting h k.trees ≡ 0) same after
      ]
