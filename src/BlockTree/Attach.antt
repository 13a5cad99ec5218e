-- ===== src/BlockTree/Attach.antt =====
-- What `find_mut` followed by a push does to the tree, as one walk: `attach`.
use mathlib.Core.List.{perm_append_comm, perm_middle}
use mathlib.Core.List.Perm
use bitcoin_dip.Base.{
  ◌≡◌, refl, inl, inr, Bool, true, List, [], ◌∷◌, ◌++◌, Perm, append-nil, append_assoc, any,
  any-append, perm_rotate, arith, ◌==◌, nat_eq, if◌then◌else◌, Bool-cases,
}
use bitcoin_dip.Bitcoin.{Block, BlockHash, Bitcoin, block_hash}
use bitcoin_dip.BlockTree.{
  BlockTree, Children, tree, nil, cons, push_child, contains, children_contain,
}

-- The blocks of a tree, root first.
unfoldable mutual
  pub blocks : BlockTree → List Block
  blocks (tree b cs) = b ∷ blocks_below cs

  pub blocks_below : Children → List Block
  blocks_below nil = []
  blocks_below (cons c cs) = blocks c ++ blocks_below cs

pub blocks_below-push :
    (cs : Children) (t : BlockTree) → blocks_below (push_child cs t) ≡ blocks_below cs ++ blocks t
unfolding blocks
blocks_below-push nil t = append-nil (blocks t)
blocks_below-push (cons c cs) t = simp (blocks_below-push cs t, append_assoc)

module _ ⦃lib : Bitcoin⦄ where
  abbrev pub holds : BlockHash → List Block → Bool
  holds hash bs = any (λ x. block_hash x == hash) bs

  -- Does a block with the hash stand in the tree?
  abbrev pub has : BlockTree → BlockHash → Bool
  has t hash = holds hash (blocks t)

  mutual
    unfolding contains blocks

    contains-has : (t : BlockTree) (b : Block) → contains t b ≡ has t (block_hash b)
    contains-has (tree r cs) b = rw (children_contain_has cs b)

    children_contain_has :
        (cs : Children) (b : Block) → children_contain cs b ≡ holds (block_hash b) (blocks_below cs)
    children_contain_has nil b = refl
    children_contain_has (cons c cs) b =
        rw
          (
            any-append (λ x. block_hash x == block_hash b) (blocks c) (blocks_below cs),
            children_contain_has cs b,
            contains-has c b,
          )
          (ground arith)

  -- `contains` finds exactly the hashes of the tree's blocks.
  pub contains_lem : (t : BlockTree) (b : Block) → contains t b ≡ has t (block_hash b)
  contains_lem t b = contains-has t b

  -- Hangs `n` under the first block with the hash.
  unfoldable mutual
    pub attach : BlockTree → BlockHash → BlockTree → BlockTree
    attach (tree b cs) hash n =
        let inside = tree b (attach_below cs hash n) in
        if block_hash b == hash then tree b (push_child cs n) else inside

    pub attach_below : Children → BlockHash → BlockTree → Children
    attach_below nil hash n = nil
    attach_below (cons c cs) hash n =
        let here = cons (attach c hash n) cs in
        let later = cons c (attach_below cs hash n) in if holds hash (blocks c) then here else later

  mutual
    unfolding blocks attach

    blocks_attach :
        (t : BlockTree) (hash : BlockHash) (n : BlockTree)
        → has t hash ≡ true
        → Perm (blocks (attach t hash n)) (blocks n ++ blocks t)
    blocks_attach (tree b cs) hash n h = elim (Bool-cases (block_hash b == hash)) [
      | inl hit ↦
          rw (hit, blocks_below-push cs n) (perm_append_comm (b ∷ blocks_below cs) (blocks n))
      | inr miss ↦ rw miss (
          Perm.trans (Perm.cons b (blocks_attach_below cs hash n (rw miss at h)))
            (Perm.symm (perm_middle (blocks n) (blocks_below cs))))
    ]

    blocks_attach_below :
        (cs : Children) (hash : BlockHash) (n : BlockTree)
        → holds hash (blocks_below cs) ≡ true
        → Perm (blocks_below (attach_below cs hash n)) (blocks n ++ blocks_below cs)
    blocks_attach_below nil hash n h = cc
    blocks_attach_below (cons c cs) hash n h = elim (Bool-cases (has c hash)) [
      | inl here ↦
          rw (here, ← append_assoc (blocks n) (blocks c) (blocks_below cs))
            (Perm.append_right (blocks_below cs) (blocks_attach c hash n here))
      | inr later ↦ rw later (
          Perm.trans
            (Perm.append_left (blocks c) (
              blocks_attach_below cs hash n (
                rw (any-append (λ x. block_hash x == hash) (blocks c) (blocks_below cs), later) at
                  h)))
            (perm_rotate (blocks c) (blocks n) (blocks_below cs)))
    ]

  -- Attaching adds the blocks of the new tree and loses none.
  pub blocks-attach :
      (t : BlockTree) (hash : BlockHash) (n : BlockTree)
      → has t hash ≡ true
      → Perm (blocks (attach t hash n)) (blocks n ++ blocks t)
  blocks-attach t hash n h = blocks_attach t hash n h
