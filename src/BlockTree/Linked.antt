-- ===== src/BlockTree/Linked.antt =====
-- A tree is linked if each child names its parent's hash as its `prev_blockhash`.
use mathlib.Core.HLevel.{×₃_prop}
use native.Mathlib.Nat.{ℕ_set}
use bitcoin_dip.Base.{
  ◌≡◌, refl, sym, ap, ◌∙◌, inl, inr, List, [], ◌∷◌, map, All, All-append, All-imp, subst, All-map,
  arith, ◌==◌, nat_eq, nat_beq_iff, Bool-cases,
}
use bitcoin_dip.Bitcoin.{Block, BlockHash, Bitcoin, block_hash, prev_hash}
use bitcoin_dip.BlockTree.{
  BlockTree, Children, children, to_list, tree, nil, cons, push_child, root, blockchains, tips,
}
use bitcoin_dip.BlockTree.Attach.{has, attach, attach_below}

module _ ⦃lib : Bitcoin⦄ where
  abbrev mutual
    pub IsLinked : BlockTree → Type 0
    IsLinked (tree b cs) = AllLinked (block_hash b) cs

    -- Every child is linked and names `hash`.
    pub AllLinked : BlockHash → Children → Type 0
    AllLinked hash nil = Unit {0}
    AllLinked hash (cons c cs) = (prev_hash (root c) ≡ hash) × IsLinked c × AllLinked hash cs

  push_child-AllLinked :
      (hash : BlockHash) (cs : Children) (t : BlockTree)
      → prev_hash (root t) ≡ hash
      → IsLinked t
      → AllLinked hash cs
      → AllLinked hash (push_child cs t)
  push_child-AllLinked hash nil t e l a = (e, l, tt)
  push_child-AllLinked hash (cons c cs) t e l a = (a.0, a.1, push_child-AllLinked hash cs t e l a.2)

  pub root-attach :
      (t : BlockTree) (hash : BlockHash) (n : BlockTree) → root (attach t hash n) ≡ root t
  unfolding attach
  root-attach (tree b cs) hash n = ground arith

  mutual
    unfolding attach

    attach-IsLinked' :
        (t : BlockTree) (hash : BlockHash) (n : BlockTree)
        → prev_hash (root n) ≡ hash
        → IsLinked n
        → IsLinked t
        → IsLinked (attach t hash n)
    attach-IsLinked' (tree b cs) hash n e ln lt = elim (Bool-cases (block_hash b == hash)) [
      | inl hit ↦
          rw hit
            (push_child-AllLinked (block_hash b) cs n (e ∙ sym ((nat_beq_iff _ _).0 hit)) ln lt)
      | inr miss ↦ rw miss (attach_below_linked (block_hash b) cs hash n e ln lt)
    ]

    attach_below_linked :
        (up : BlockHash) (cs : Children) (hash : BlockHash) (n : BlockTree)
        → prev_hash (root n) ≡ hash
        → IsLinked n
        → AllLinked up cs
        → AllLinked up (attach_below cs hash n)
    attach_below_linked up nil hash n e ln a = tt
    attach_below_linked up (cons c cs) hash n e ln a = elim (Bool-cases (has c hash)) [
      | inl here ↦
          rw here
            (ap prev_hash (root-attach c hash n) ∙ a.0, attach-IsLinked' c hash n e ln a.1, a.2)
      | inr later ↦ rw later (a.0, a.1, attach_below_linked up cs hash n e ln a.2)
    ]

  -- Attaching a linked tree under its parent's hash keeps the tree linked.
  pub attach-IsLinked :
      (t : BlockTree) (hash : BlockHash) (n : BlockTree)
      → prev_hash (root n) ≡ hash
      → IsLinked n
      → IsLinked t
      → IsLinked (attach t hash n)
  attach-IsLinked t hash n e ln lt = attach-IsLinked' t hash n e ln lt

  -- Each block names the hash of the one before it, and the first names `hash`.
  abbrev pub IsChain : BlockHash → List Block → Type 0
  IsChain hash [] = Unit {0}
  IsChain hash (b ∷ bs) = (prev_hash b ≡ hash) × IsChain (block_hash b) bs

  mutual
    unfolding blockchains

    blockchains_linked :
        (t : BlockTree) → IsLinked t → All (IsChain (prev_hash (root t))) (blockchains t)
    blockchains_linked (tree b nil) l = ((refl, tt), tt)
    blockchains_linked (tree b (cons c cs)) l = tips_linked b (cons c cs) l

    tips_linked :
        (b : Block) (cs : Children)
        → AllLinked (block_hash b) cs
        → All (IsChain (prev_hash b)) (tips cs b)
    tips_linked b nil l = tt
    tips_linked b (cons c cs) l =
        All-append (IsChain (prev_hash b)) (map (λ bc. b ∷ bc) (blockchains c)) (tips cs b)
          (All-map (IsChain (prev_hash b)) (λ bc. b ∷ bc) (blockchains c)
            (subst (λ h. All (λ bc. (prev_hash b ≡ prev_hash b) × IsChain h bc) (blockchains c)) l.0
              (All-imp (IsChain (prev_hash (root c))) _ (λ bc h. (refl, h)) (blockchains c)
                (blockchains_linked c l.1))))
          (tips_linked b cs l.2)

  -- Every chain that `blockchains` lists for a linked tree is linked, from the root's parent on.
  pub blockchains-IsChain :
      (t : BlockTree) → IsLinked t → All (IsChain (prev_hash (root t))) (blockchains t)
  blockchains-IsChain t l = blockchains_linked t l

  mutual
    IsLinked-prop' : (t : BlockTree) → IsProp (IsLinked t)
    IsLinked-prop' (tree b cs) = AllLinked-prop (block_hash b) cs

    AllLinked-prop : (hash : BlockHash) (cs : Children) → IsProp (AllLinked hash cs)
    AllLinked-prop hash nil = hlevel
    AllLinked-prop hash (cons c cs) =
        ×₃_prop (ℕ_set _ _) (IsLinked-prop' c) (AllLinked-prop hash cs)

  pub IsLinked-prop : (t : BlockTree) → IsProp (IsLinked t)
  IsLinked-prop t = IsLinked-prop' t

  -- The children of a linked tree are linked.
  pub children-IsLinked : (t : BlockTree) → IsLinked t → All IsLinked (to_list (children t))
  children-IsLinked (tree b cs) l = below (block_hash b) cs l
    where
      below : (hash : BlockHash) (cs : Children) → AllLinked hash cs → All IsLinked (to_list cs)
      below hash nil a = tt
      below hash (cons c cs) a = (a.1, below hash cs a.2)
