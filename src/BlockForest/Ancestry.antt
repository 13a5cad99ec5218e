-- ===== src/BlockForest/Ancestry.antt =====
-- The anchor is the parent of what `pop` returns and of the current chain.
use mathlib.Core.List.Perm
use bitcoin_dip.Base.{
  ◌≡◌, refl, sym, ap, subst, ◌∙◌, inl, inr, Bool, true, false, not, Option, none, some, List, [],
  ◌∷◌, map, drop, maximum, any, any-perm, All, All-imp, All-perm, All-append, All-flat_map, length,
  filter, ◌==◌, nat_eq, nat_beq_iff, if◌then◌else◌, Bool-cases, returns, arith,
}
use bitcoin_dip.Bitcoin.{Block, BlockHash, Bitcoin, block_hash, prev_hash}
use bitcoin_dip.BlockTree.{BlockTree, root, children, to_list, blockchains}
use bitcoin_dip.BlockTree.Linked.{
  IsLinked, IsLinked-prop, children-IsLinked, IsChain, blockchains-IsChain,
}
use bitcoin_dip.BlockForest.{
  BlockForest, is_attached, attached, detached, attached_chains, get_current_chain, pop,
  agreed_chain,
}
use bitcoin_dip.BlockForest.Pop.{IsStable, Pops, pop_lem}
use bitcoin_dip.BlockForest.Current.{agreed, filter-All}
use bitcoin_dip.BlockForest.Best.{agreed_chain_lem}

module _ {ℓ} {A : Type ℓ} where
  -- A filter keeps what held of all, and adds its test.
  filter-All_both {κ} :
      (P : A → Type κ) (p : A → Bool) (xs : List A)
      → All P xs
      → All (λ x. P x × (p x ≡ true)) (filter p xs)
  filter-All_both P p [] a = tt
  filter-All_both P p (x ∷ xs) a = elim (Bool-cases (p x)) [
    | inl e ↦ rw e ((a.0, e), filter-All_both P p xs a.1)
    | inr e ↦ rw e (filter-All_both P p xs a.1)
  ]

  pub filter-All_of {κ} :
      (P : A → Type κ) (p : A → Bool) (xs : List A) → All P xs → All P (filter p xs)
  filter-All_of P p xs a =
      All-imp (λ x. P x × (p x ≡ true)) P (λ x h. h.0) (filter p xs) (filter-All_both P p xs a)

  any-of_All :
      (p : A → Bool) (xs : List A) → All (λ x. p x ≡ true) xs → any (λ x. not (p x)) xs ≡ false
  any-of_All p [] a = refl
  any-of_All p (x ∷ xs) a = ground (arith, any-of_All p xs a.1)

module _ ⦃lib : Bitcoin⦄ where
  -- A stable tree is one of the attached ones.
  pub IsStable-attached :
      (f : BlockForest) (anchor : BlockHash) (t : BlockTree) (others : List BlockTree)
      → IsStable f.delta (attached f anchor) t others
      → prev_hash (root t) ≡ anchor
  IsStable-attached f anchor t others s =
      let away = λ (u : BlockTree). not (is_attached anchor u) in
      let none_away =
        any-of_All (is_attached anchor) (attached f anchor)
          (filter-All (is_attached anchor) f.trees) in
      let same = any-perm away _ _ s.split in
      (nat_beq_iff (prev_hash (root t)) anchor).0 (ground arith)

  -- A block that `pop` returns names the anchor as its parent.
  pub pop_parent :
      (f g : BlockForest) (anchor : BlockHash) (b : Block)
      → pop f anchor ≡ returns (some b, g)
      → prev_hash b ≡ anchor
  pop_parent f g anchor b e =
      let (t, others, stable, is_root, _) = subst (Pops f anchor) e (pop_lem f anchor) in
      ap prev_hash is_root ∙ IsStable-attached f anchor t others stable

  agreed-IsChain :
      (hash : BlockHash) (first : List Block) (others : List (List Block))
      → IsChain hash first
      → IsChain hash (agreed first others)
  unfolding agreed
  agreed-IsChain hash [] others c = tt
  agreed-IsChain hash (b ∷ bs) others c =
      if_chain _ _ (agreed-IsChain (block_hash b) bs (map (drop 1) others) c.1)
    where
      if_chain :
          (t : Bool) (rest : List Block)
          → IsChain (block_hash b) rest
          → IsChain hash (if t then b ∷ rest else [])
      if_chain true rest r = (c.0, r)
      if_chain false rest r = tt

  attached_chains-IsChain :
      (f : BlockForest) (anchor : BlockHash)
      → All IsLinked f.trees
      → All (IsChain anchor) (attached_chains f anchor)
  attached_chains-IsChain f anchor a =
      All-flat_map (IsChain anchor) blockchains (attached f anchor) (
        All-imp _ _
          (λ t h.
            subst (λ x. All (IsChain x) (blockchains t)) ((nat_beq_iff _ _).0 h.1)
              (blockchains-IsChain t h.0))
          (attached f anchor) (filter-All_both IsLinked (is_attached anchor) f.trees a))

  chains-IsChain :
      (anchor : BlockHash) (chains : List (List Block)) (c : List Block)
      → All (IsChain anchor) chains
      → agreed_chain chains ≡ returns c
      → IsChain anchor c
  unfolding agreed_chain
  chains-IsChain anchor [] c a e = let d : [] ≡ c = cc in subst (IsChain anchor) d tt
  chains-IsChain anchor (x ∷ xs) c a e =
      let (first, others, fst, is_agreed) = agreed_chain_lem x xs in
      let is_longest = λ (l : List Block). length l == maximum length (x ∷ xs) in
      let top =
        subst (All (λ l. IsChain anchor l × (is_longest l ≡ true))) fst
          (filter-All_both (IsChain anchor) is_longest (x ∷ xs) a) in
      let d : agreed first others ≡ c = cc in
      subst (IsChain anchor) d (agreed-IsChain anchor first others top.0.0)

  -- In a forest of linked trees the current chain starts at the anchor, and each of its blocks
  -- names the one before it as its parent.
  pub get_current_chain-IsChain :
      (f : BlockForest) (anchor : BlockHash) (c : List Block)
      → All IsLinked f.trees
      → get_current_chain f anchor ≡ returns c
      → IsChain anchor c
  unfolding get_current_chain
  get_current_chain-IsChain f anchor c a e =
      chains-IsChain anchor (attached_chains f anchor) c (attached_chains-IsChain f anchor a) e

  -- In a forest of linked trees every tree is still linked after a pop.
  pub pop-IsLinked :
      (f g : BlockForest) (anchor : BlockHash) (r : Option Block)
      → All IsLinked f.trees
      → pop f anchor ≡ returns (r, g)
      → All IsLinked g.trees
  pop-IsLinked f g anchor none a e =
      let (_, same, _) = subst (Pops f anchor) e (pop_lem f anchor) in
      All-perm IsLinked IsLinked-prop f.trees g.trees (Perm.symm same) a
  pop-IsLinked f g anchor (some b) a e =
      let (t, others, stable, _, after) = subst (Pops f anchor) e (pop_lem f anchor) in
      let near = filter-All_of IsLinked (is_attached anchor) f.trees a in
      let far = filter-All_of IsLinked (λ u. not (is_attached anchor u)) f.trees a in
      let top = All-perm IsLinked IsLinked-prop _ _ stable.split near in
      subst (λ h. All IsLinked h.trees) (sym after)
        (All-append IsLinked (detached f anchor) (to_list (children t)) far
          (children-IsLinked t top.0))
