-- ===== src/BlockForest/AnyOrder.antt =====
-- The blocks of a chain may be pushed in any order.
use mathlib.Core.List.Perm
use native.Mathlib.Decide.{ℕ_discrete}
use bitcoin_dip.Base.{
  ℕ, suc, ◌≤◌, ◌≡◌, refl, sym, ap, ap₂, subst, ◌∙◌, inl, inr, Bool, true, false, ◌||◌, List, [],
  ◌∷◌, ◌++◌, All, All-perm, append-nil, All-append_split, any, any-perm, Bool-set, count,
  count-append, count-perm, Perm, length, ◌==◌, nat_eq, nat_beq_iff, Bool-cases, returns, arith,
}
use bitcoin_dip.Bitcoin.{Block, BlockHash, Bitcoin, block_hash, prev_hash}
use bitcoin_dip.BlockTree.{BlockTree, tree, nil, cons, root, blockchains}
use bitcoin_dip.BlockTree.Attach.{blocks, blocks_below, holds}
use bitcoin_dip.BlockTree.Linked.{IsLinked, IsChain, blockchains-IsChain}
use bitcoin_dip.BlockForest.{new}
use bitcoin_dip.BlockForest.Line.{line, lined, in_line, AreDistinct, blocks-line, blockchains-line}
use bitcoin_dip.BlockForest.Contents.{all_blocks}
use bitcoin_dip.BlockForest.Waiting.{waiting}
use bitcoin_dip.BlockForest.Merged.{is_child_of}
use bitcoin_dip.BlockForest.Arrivals.{IsForkless-perm, waiting-children, push_all-IsMerged}
use bitcoin_dip.BlockForest.Ranked.{rank, chain-IsForkless}
use bitcoin_dip.UnitTests.Trees.{push_all}

Block-discrete : Discrete Block
Block-discrete = hlevel ℕ_discrete

module _ ⦃lib : Bitcoin⦄ where
  -- Each block has the anchor or a block of the list as its parent.
  abbrev is_rooted : BlockHash → List Block → Block → Bool
  is_rooted anchor bs x = (prev_hash x == anchor) || holds (prev_hash x) bs

  rooted_more :
      (anchor : BlockHash) (b : Block) (bs xs : List Block)
      → All (λ x. is_rooted (block_hash b) bs x ≡ true) xs
      → All (λ x. is_rooted anchor (b ∷ bs) x ≡ true) xs
  rooted_more anchor b bs [] a = tt
  rooted_more anchor b bs (x ∷ xs) a = (ground (arith, a.0), rooted_more anchor b bs xs a.1)

  chain_rooted :
      (anchor : BlockHash) (bs : List Block)
      → IsChain anchor bs
      → All (λ x. is_rooted anchor bs x ≡ true) bs
  chain_rooted anchor [] c = tt
  chain_rooted anchor (b ∷ bs) c =
      let first : (prev_hash b == anchor) ≡ true = (nat_beq_iff _ _).1 c.0 in
      (rw first, rooted_more anchor b bs bs (chain_rooted (block_hash b) bs c.1))

  roots-All :
      (P : Block → Type 0) (ts : List BlockTree) → All P (all_blocks ts) → All (λ t. P (root t)) ts
  unfolding blocks
  roots-All P [] a = tt
  roots-All P (tree b cs ∷ ts) a =
      let (below, rest) = All-append_split P (blocks_below cs) (all_blocks ts) a.1 in
      (a.0, roots-All P ts rest)

  -- If no tree of `ts` waits for a block that is there, and every root has the anchor or a block
  -- that is there as its parent, then all of them wait for the anchor.
  All-wait :
      (anchor : BlockHash) (bs : List Block) (ts : List BlockTree)
      → ((hash : BlockHash) → holds hash bs ≡ true → waiting hash ts ≡ 0)
      → All (λ t. is_rooted anchor bs (root t) ≡ true) ts
      → waiting anchor ts ≡ length ts
  All-wait anchor bs [] none a = refl
  All-wait anchor bs (t ∷ ts) none a =
      let later = All-wait anchor bs ts (λ h e. ground (arith, none h e)) a.1 in
      elim (Bool-cases (prev_hash (root t) == anchor)) [
        | inl same ↦ rw same (ap suc later)
        | inr differs ↦
            let there : holds (prev_hash (root t)) bs ≡ true = rw differs at a.0 in
            let self : (prev_hash (root t) == prev_hash (root t)) ≡ true =
              (nat_beq_iff _ _).1 refl in
            absurd (omega (arith, rw self at (none (prev_hash (root t)) there)))
      ]

  -- A linked tree in which no two blocks have one parent is a line.
  tree_line :
      (t : BlockTree)
      → IsLinked t
      → ((hash : BlockHash) → count (is_child_of hash) (blocks t) ≤ 1)
      → (rs : List Block) × (t ≡ line (root t) rs)
  unfolding blocks
  tree_line (tree b nil) l few = ([], refl)
  tree_line (tree b (cons c nil)) l few =
      let (rs, e) =
        tree_line c l.1
          (λ hash. ground (arith, few hash, count-append (is_child_of hash) (blocks c) [])) in
      (root c ∷ rs, ap (λ u. tree b (cons u nil)) e)
  tree_line (tree b (cons (tree c cs) (cons (tree d ds) es))) l few =
      let hash = block_hash b in
      let first : (prev_hash c == hash) ≡ true = (nat_beq_iff _ _).1 l.0 in
      let second : (prev_hash d == hash) ≡ true = (nat_beq_iff _ _).1 l.2.0 in
      let rest = d ∷ (blocks_below ds ++ blocks_below es) in
      let more = count-append (is_child_of hash) (blocks_below cs) rest in
      absurd (ground (arith, few hash, first, second, more))

  -- Is it that block?
  is_block : Block → Block → Bool
  is_block b x = elim (Block-discrete b x) [ yes e ↦ true | no n ↦ false ]

  is_block_self : (b : Block) → is_block b b ≡ true
  unfolding is_block
  is_block_self b =
      elim (Block-discrete b b) as (λ d. (elim d [ yes e ↦ true | no n ↦ false ]) ≡ true) [
        | yes e ↦ refl
        | no n ↦ absurd (n refl)
      ]

  is_block-eq : (b x : Block) → is_block b x ≡ true → b ≡ x
  unfolding is_block
  is_block-eq b x =
      elim (Block-discrete b x) as (λ d. (elim d [ yes e ↦ true | no n ↦ false ]) ≡ true → b ≡ x) [
        | yes e ↦ λ h. e
        | no n ↦ λ h. absurd cc
      ]

  children_counted :
      (b : Block) (bs : List Block)
      → any (is_block b) bs ≡ true
      → 1 ≤ count (is_child_of (prev_hash b)) bs
  children_counted b [] e = absurd cc
  children_counted b (x ∷ xs) e = elim (Bool-cases (is_block b x)) [
    | inl same ↦
        let parent : (prev_hash x == prev_hash b) ≡ true =
          (nat_beq_iff _ _).1 (ap prev_hash (sym (is_block-eq b x same))) in
        rw parent (omega arith)
    | inr differs ↦ ground (arith, children_counted b xs (rw differs at e))
  ]

  -- A chain in which no two blocks have one parent is the only order of its blocks.
  chain_unique :
      (anchor : BlockHash) (xs ys : List Block)
      → IsChain anchor xs
      → IsChain anchor ys
      → Perm xs ys
      → ((hash : BlockHash) → count (is_child_of hash) ys ≤ 1)
      → xs ≡ ys
  chain_unique anchor [] [] cx cy p few = refl
  chain_unique anchor [] (y ∷ ys) cx cy p few =
      let n = count-perm (λ _. true) [] (y ∷ ys) p in absurd (omega (arith, n))
  chain_unique anchor (x ∷ xs) [] cx cy p few =
      let n = count-perm (λ _. true) (x ∷ xs) [] p in absurd (omega (arith, n))
  chain_unique anchor (x ∷ xs) (y ∷ ys) cx cy p few =
      let there = any-perm (is_block x) (x ∷ xs) (y ∷ ys) p in
      let found : any (is_block x) (y ∷ ys) ≡ true = sym there ∙ rw (is_block_self x) in
      elim (Bool-cases (is_block x y)) [
        | inl same ↦
            let e = is_block-eq x y same in
            let rest = Perm.cons_inv (subst (λ b. Perm (b ∷ xs) (y ∷ ys)) e p) in
            ap₂ ◌∷◌ e (
              chain_unique (block_hash y) xs ys (subst (λ b. IsChain (block_hash b) xs) e cx.1) cy.1
                rest (λ hash. ground (arith, few hash)))
        | inr differs ↦
            let later = children_counted x ys (rw differs at found) in
            let here : (prev_hash y == prev_hash x) ≡ true =
              (nat_beq_iff _ _).1 (cy.0 ∙ sym cx.0) in
            absurd (ground (arith, few (prev_hash x), later, here))
      ]

  -- A linked tree that holds the blocks of a chain.
  tree_of_chain :
      (anchor : BlockHash) (bs : List Block) (t : BlockTree)
      → IsLinked t
      → IsChain anchor bs
      → prev_hash (root t) ≡ anchor
      → Perm (blocks t) bs
      → ((hash : BlockHash) → count (is_child_of hash) bs ≤ 1)
      → t ∷ [] ≡ lined bs
  tree_of_chain anchor bs t l c parent p few =
      let (rs, e) =
        tree_line t l (λ hash. omega (arith, few hash, count-perm (is_child_of hash) _ _ p)) in
      let each = ap blocks e ∙ blocks-line (root t) rs in
      let chains = ap blockchains e ∙ blockchains-line (root t) rs in
      let linked = subst (All (IsChain (prev_hash (root t)))) chains (blockchains-IsChain t l) in
      let same =
        chain_unique anchor (root t ∷ rs) bs (parent, linked.0.1) c
          (subst (λ xs. Perm xs bs) each p) few in
      ap (λ u. u ∷ []) e ∙ ap lined same

  trees_of_chain :
      (anchor : BlockHash) (bs : List Block) (ts : List BlockTree)
      → All IsLinked ts
      → IsChain anchor bs
      → waiting anchor ts ≡ length ts
      → Perm (all_blocks ts) bs
      → ((hash : BlockHash) → count (is_child_of hash) bs ≤ 1)
      → ts ≡ lined bs
  trees_of_chain anchor [] [] l c w p few = refl
  trees_of_chain anchor (b ∷ bs) [] l c w p few =
      let n = count-perm (λ _. true) [] (b ∷ bs) p in absurd (omega (arith, n))
  trees_of_chain anchor bs (t ∷ []) l c w p few =
      let first : (prev_hash (root t) == anchor) ≡ true = ground (arith, w) in
      tree_of_chain anchor bs t l.0 c ((nat_beq_iff _ _).0 first)
        (subst (λ xs. Perm xs bs) (append-nil (blocks t)) p) few
  trees_of_chain anchor bs (t ∷ u ∷ us) l c w p few =
      let trees = waiting-children (t ∷ u ∷ us) anchor in
      let n = count-perm (is_child_of anchor) _ _ p in
      absurd (omega (arith, trees, n, w, few anchor))

  -- If the blocks of a chain from the anchor on have distinct hashes, none that of the anchor,
  -- then they may be pushed onto an empty forest in any order: each push returns, and afterwards
  -- the forest is the one tree in which each block is the only child of the one before it.
  pub push_all-any_order :
      (delta : ℕ) (anchor : BlockHash) (bs pushed : List Block)
      → IsChain anchor bs
      → AreDistinct anchor bs
      → Perm pushed bs
      → push_all (new delta) pushed ≡ returns (in_line delta bs)
  push_all-any_order delta anchor bs pushed c d order =
      let u = chain-IsForkless anchor bs c d in
      let (g, done, same, linked, merged, p) =
        push_all-IsMerged (rank anchor bs) pushed (new delta) tt (λ hash e. refl)
          (IsForkless-perm (rank anchor bs) bs pushed (Perm.symm order) u) in
      let q = Perm.trans p order in
      let rooted =
        All-perm (λ x. is_rooted anchor bs x ≡ true) (λ x. Bool-set _ _) _ _ (Perm.symm q)
          (chain_rooted anchor bs c) in
      let wait =
        All-wait anchor bs g.trees
          (λ hash e. merged hash (any-perm (λ x. block_hash x == hash) _ _ q ∙ e))
          (roots-All (λ x. is_rooted anchor bs x ≡ true) g.trees rooted) in
      let trees = trees_of_chain anchor bs g.trees linked c wait q u.parents in
      let forest : g ≡ in_line delta bs = cc in done ∙ ap returns forest
