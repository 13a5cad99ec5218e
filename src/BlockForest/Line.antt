-- ===== src/BlockForest/Line.antt =====
-- A forest whose blocks stand in one line: what a push, a pop and `get_current_chain` make of it.
use bitcoin_dip.Base.{
  ℕ, ◌≤◌, ◌<◌, ◌≡◌, refl, sym, ap, ap₂, subst, ◌∙◌, inl, inr, true, false, false≢true, none, some,
  List, [], ◌∷◌, ◌++◌, append-nil, any-append, length, flat_map, maximum, ◌==◌, nat_eq, nat_beq_iff,
  Bool-cases, ltb, returns, arith,
}
use bitcoin_dip.Bitcoin.{Block, BlockHash, Bitcoin, block_hash, prev_hash}
use bitcoin_dip.BlockTree.{BlockTree, tree, nil, cons, depth, blockchains, root}
use bitcoin_dip.BlockTree
use bitcoin_dip.BlockTree.Attach.{blocks, holds, attach}
use bitcoin_dip.BlockTree.Linked.{IsChain}
use bitcoin_dip.BlockForest.{
  BlockForest, take_tree, push, attached, detached, pop, pop_sorted, pop_deepest, is_contested,
  sort_by_depth, insert_by_depth, get_current_chain, agreed_chain, attached_chains,
}
use bitcoin_dip.BlockForest.Current.{agreed}
use bitcoin_dip.BlockForest.Best.{agreed_chain_lem}
use bitcoin_dip.BlockForest.Push.{place, placed_trees, push-placed_trees}

-- The tree of a block and those after it, each the only child of the one before.
abbrev pub line : Block → List Block → BlockTree
line b [] = tree b nil
line b (c ∷ cs) = tree b (cons (line c cs) nil)

abbrev pub lined : List Block → List BlockTree
lined [] = []
lined (b ∷ bs) = line b bs ∷ []

abbrev pub in_line : ℕ → List Block → BlockForest
in_line delta bs = record { delta = delta; trees = lined bs }

pub blocks-line : (b : Block) (bs : List Block) → blocks (line b bs) ≡ b ∷ bs
unfolding blocks
blocks-line b [] = refl
blocks-line b (c ∷ cs) = rw (blocks-line c cs, append-nil (c ∷ cs))

depth-line : (b : Block) (bs : List Block) → depth (line b bs) ≡ length bs
unfolding depth
depth-line b [] = refl
depth-line b (c ∷ cs) = omega (arith, depth-line c cs)

pub blockchains-line : (b : Block) (bs : List Block) → blockchains (line b bs) ≡ (b ∷ bs) ∷ []
unfolding blockchains
blockchains-line b [] = refl
blockchains-line b (c ∷ cs) = rw (blockchains-line c cs)

module _ ⦃lib : Bitcoin⦄ where
  -- No two blocks of the list, and none with the block before it, have one hash.
  abbrev pub AreDistinct : BlockHash → List Block → Type 0
  AreDistinct hash [] = Unit {0}
  AreDistinct hash (b ∷ bs) = (holds hash (b ∷ bs) ≡ false) × AreDistinct (block_hash b) bs

  holds-snoc :
      (hash : BlockHash) (bs : List Block) (b : Block)
      → holds hash (bs ++ b ∷ []) ≡ false
      → (holds hash bs ≡ false) × ((block_hash b == hash) ≡ false)
  holds-snoc hash bs b h = ground (arith, any-append (λ x. block_hash x == hash) bs (b ∷ []))

  holds_apart :
      (h k : BlockHash) (bs : List Block)
      → holds h bs ≡ false
      → holds k bs ≡ true
      → (h == k) ≡ false
  holds_apart h k bs absent there = elim (Bool-cases (h == k)) [
    | inl same ↦
        let e : h ≡ k = (nat_beq_iff h k).0 same in
        absurd (false≢true (sym absent ∙ subst (λ x. holds x bs ≡ true) (sym e) there))
    | inr apart ↦ apart
  ]

  -- A block that extends the last one of a line: its parent is there, it is not, and it is hung
  -- under that one.
  attach-line :
      (r : Block) (rs : List Block) (b : Block)
      → IsChain (block_hash r) (rs ++ b ∷ [])
      → AreDistinct (block_hash r) (rs ++ b ∷ [])
      → (holds (prev_hash b) (r ∷ rs) ≡ true)
        × (holds (block_hash b) (r ∷ rs) ≡ false)
        × (attach (line r rs) (prev_hash b) (BlockTree.new b) ≡ line r (rs ++ b ∷ []))
  unfolding attach
  attach-line r [] b chain distinct =
      let hit : (block_hash r == prev_hash b) ≡ true = (nat_beq_iff _ _).1 (sym chain.0) in
      let miss : (block_hash r == block_hash b) ≡ false = ground (arith, distinct.0) in
      (rw hit, rw miss, rw hit)
  attach-line r (c ∷ cs) b chain distinct =
      let (there, absent, hung) = attach-line c cs b chain.1 distinct.1 in
      let (apart, other) = holds-snoc (block_hash r) (c ∷ cs) b distinct.0 in
      let miss = holds_apart (block_hash r) (prev_hash b) (c ∷ cs) apart there in
      let new : (block_hash r == block_hash b) ≡ false = ground (arith, other) in
      (rw miss there, rw new absent, rw (miss, blocks-line c cs, there, hung))

  pub root-line : (r : Block) (rs : List Block) → root (line r rs) ≡ r
  root-line r [] = refl
  root-line r (c ∷ cs) = refl

  placed_trees-lined :
      (anchor : BlockHash) (bs : List Block) (b : Block)
      → IsChain anchor (bs ++ b ∷ [])
      → AreDistinct anchor (bs ++ b ∷ [])
      → placed_trees (lined bs) b ≡ lined (bs ++ b ∷ [])
  unfolding take_tree place
  placed_trees-lined anchor [] b chain distinct = refl
  placed_trees-lined anchor (r ∷ rs) b chain distinct =
      let (there, absent, hung) = attach-line r rs b chain.1 distinct.1 in
      let (_, other) = holds-snoc anchor (r ∷ rs) b distinct.0 in
      let apart : (prev_hash r == block_hash b) ≡ false = rw chain.0 (ground (arith, other)) in
      rw (root-line r rs, apart, blocks-line r rs, absent, there, hung)

  -- A block that extends a line in a forest is pushed to its end.
  pub push-lined :
      (delta : ℕ) (anchor : BlockHash) (bs : List Block) (b : Block)
      → IsChain anchor (bs ++ b ∷ [])
      → AreDistinct anchor (bs ++ b ∷ [])
      → push (in_line delta bs) b ≡ returns (in_line delta (bs ++ b ∷ []))
  push-lined delta anchor bs b chain distinct =
      push-placed_trees (in_line delta bs) b
      ∙ ap (λ ts. returns (record { delta = delta; trees = ts }))
          (placed_trees-lined anchor bs b chain distinct)

  attached-line :
      (delta : ℕ) (anchor : BlockHash) (b : Block) (bs : List Block)
      → prev_hash b ≡ anchor
      → let f = in_line delta (b ∷ bs) in
        (attached f anchor ≡ lined (b ∷ bs)) × (detached f anchor ≡ [])
  attached-line delta anchor b bs e =
      let hit : (prev_hash (root (line b bs)) == anchor) ≡ true =
        rw (root-line b bs) ((nat_beq_iff _ _).1 e) in
      (rw hit, rw hit)

  pop-alone :
      (delta : ℕ) (anchor : BlockHash) (b : Block) (bs : List Block)
      → prev_hash b ≡ anchor
      → let f = in_line delta (b ∷ bs) in pop f anchor ≡ pop_sorted f (line b bs ∷ []) []
  unfolding pop sort_by_depth insert_by_depth
  pop-alone delta anchor b bs e =
      let (near, far) = attached-line delta anchor b bs e in
      ap₂ (λ ts ds. pop_sorted (in_line delta (b ∷ bs)) (sort_by_depth ts) ds) near far

  -- A line of at most `delta` blocks keeps its first one.
  pub pop-line_kept :
      (delta : ℕ) (anchor : BlockHash) (b : Block) (bs : List Block)
      → prev_hash b ≡ anchor
      → length bs < delta
      → pop (in_line delta (b ∷ bs)) anchor
        ≡ returns (none, record { delta = delta; trees = lined (b ∷ bs) })
  unfolding pop_sorted
  pop-line_kept delta anchor b bs e short =
      let shallow : ltb (depth (line b bs)) delta ≡ true = ground (arith, depth-line b bs) in
      pop-alone delta anchor b bs e ∙ rw shallow refl

  pop_deepest-line :
      (f : BlockForest) (b : Block) (bs : List Block)
      → pop_deepest f (line b bs ∷ []) [] ≡ returns (some b, record f { trees = lined bs })
  unfolding pop_deepest
  pop_deepest-line f b [] = refl
  pop_deepest-line f b (c ∷ cs) = refl

  -- The first block of a longer line is popped.
  pub pop-line_stable :
      (delta : ℕ) (anchor : BlockHash) (b : Block) (bs : List Block)
      → prev_hash b ≡ anchor
      → delta ≤ length bs
      → pop (in_line delta (b ∷ bs)) anchor
        ≡ returns (some b, record { delta = delta; trees = lined bs })
  unfolding pop_sorted is_contested
  pop-line_stable delta anchor b bs e long =
      let deep : ltb (depth (line b bs)) delta ≡ false = ground (arith, depth-line b bs) in
      pop-alone delta anchor b bs e ∙ rw deep (pop_deepest-line (in_line delta (b ∷ bs)) b bs)

  agreed-alone : (bs : List Block) → agreed bs [] ≡ bs
  unfolding agreed
  agreed-alone [] = refl
  agreed-alone (b ∷ bs) = ap (◌∷◌ b) (agreed-alone bs)

  agreed_same :
      (first : List Block) (others : List (List Block)) (bs : List Block)
      → first ∷ others ≡ bs ∷ []
      → agreed first others ≡ bs
  agreed_same first others bs e =
      let is_first : first ≡ bs = cc in
      let no_others : others ≡ [] = cc in ap₂ agreed is_first no_others ∙ agreed-alone bs

  -- The current chain of a line is the line.
  pub get_current_chain-lined :
      (delta : ℕ) (anchor : BlockHash) (bs : List Block)
      → IsChain anchor bs
      → get_current_chain (in_line delta bs) anchor ≡ returns bs
  unfolding get_current_chain agreed_chain
  get_current_chain-lined delta anchor [] chain = refl
  get_current_chain-lined delta anchor (b ∷ bs) chain =
      let (near, _) = attached-line delta anchor b bs chain.0 in
      let (first, others, e, d) = agreed_chain_lem (b ∷ bs) [] in
      let len : (length (b ∷ bs) == maximum length ((b ∷ bs) ∷ [])) ≡ true =
        (nat_beq_iff _ _).1 (omega arith) in
      let same : first ∷ others ≡ (b ∷ bs) ∷ [] = sym e ∙ rw len refl in
      let chains : attached_chains (in_line delta (b ∷ bs)) anchor ≡ (b ∷ bs) ∷ [] =
        ap (flat_map blockchains) near ∙ ap (λ l. l ++ []) (blockchains-line b bs) in
      ap agreed_chain chains ∙ (d ∙ ap returns (agreed_same first others (b ∷ bs) same))
