-- ===== src/BlockForest/Links.antt =====
-- A push keeps every tree of the forest linked.
use mathlib.Core.Option
use bitcoin_dip.Base.{
  ◌≡◌, refl, inl, inr, Option, none, some, List, [], ◌∷◌, ◌++◌, All, All-append, ◌==◌, nat_eq,
  nat_beq_iff, Bool-cases, returns, subst,
}
use bitcoin_dip.Bitcoin.{Block, BlockHash, Bitcoin, block_hash, prev_hash}
use bitcoin_dip.BlockTree.{BlockTree, root}
use bitcoin_dip.BlockTree
use bitcoin_dip.BlockTree.Attach.{has}
use bitcoin_dip.BlockTree.Linked.{IsLinked, attach-IsLinked}
use bitcoin_dip.BlockForest.{BlockForest, take_tree, new_tree, push}
use bitcoin_dip.BlockForest.Push.{adopted, place, placed_trees, push-placed_trees}

module _ ⦃lib : Bitcoin⦄ where
  -- A successor of the block with the hash.
  abbrev pub FitsUnder : BlockHash → Option BlockTree → Type 0
  FitsUnder hash none = Unit {0}
  FitsUnder hash (some t) = (prev_hash (root t) ≡ hash) × IsLinked t

  pub take_tree-FitsUnder :
      (ts : List BlockTree) (hash : BlockHash)
      → All IsLinked ts
      → FitsUnder hash (take_tree ts hash).0 × All IsLinked (take_tree ts hash).1
  unfolding take_tree
  take_tree-FitsUnder [] hash a = (tt, tt)
  take_tree-FitsUnder (t ∷ ts) hash a = elim (Bool-cases (prev_hash (root t) == hash)) [
    | inl e ↦ rw e (((nat_beq_iff _ _).0 e, a.0), a.1)
    | inr e ↦ let (fits, rest) = take_tree-FitsUnder ts hash a.1 in rw e (fits, (a.0, rest))
  ]

  adopted-IsLinked :
      (t : BlockTree) (hash : BlockHash) (successor : Option BlockTree)
      → FitsUnder hash successor
      → IsLinked t
      → IsLinked (adopted t hash successor)
  adopted-IsLinked t hash none fits l = l
  adopted-IsLinked t hash (some s) fits l = attach-IsLinked t hash s fits.0 fits.1 l

  abbrev AllLinkedIn : Option (List BlockTree) → Type 0
  AllLinkedIn none = Unit {0}
  AllLinkedIn (some ts) = All IsLinked ts

  past_linked :
      (t : BlockTree) (r : Option (List BlockTree))
      → IsLinked t
      → AllLinkedIn r
      → AllLinkedIn (Option.map (λ l. t ∷ l) r)
  past_linked t none l a = tt
  past_linked t (some ts) l a = (l, a)

  place-linked :
      (ts : List BlockTree) (b : Block) (successor : Option BlockTree)
      → FitsUnder (block_hash b) successor
      → All IsLinked ts
      → AllLinkedIn (place ts b successor)
  unfolding place
  place-linked [] b successor fits a = tt
  place-linked (t ∷ ts) b successor fits a = elim (Bool-cases (has t (block_hash b))) [
    | inl old ↦ rw old (adopted-IsLinked t (block_hash b) successor fits a.0, a.1)
    | inr fresh ↦ elim (Bool-cases (has t (prev_hash b))) [
      | inl under ↦
          rw (fresh, under)
            (
              adopted-IsLinked _ (block_hash b) successor fits
                  (attach-IsLinked t (prev_hash b) (BlockTree.new b) refl tt a.0),
              a.1,
            )
      | inr apart ↦ rw (fresh, apart) (past_linked t _ a.0 (place-linked ts b successor fits a.1))
    ]
  ]

  new_tree-IsLinked :
      (b : Block) (successor : Option BlockTree)
      → FitsUnder (block_hash b) successor
      → IsLinked (new_tree b successor)
  new_tree-IsLinked b none fits = tt
  new_tree-IsLinked b (some s) fits = (fits.0, fits.1, tt)

  placed_or_new-IsLinked :
      (ts : List BlockTree) (b : Block) (successor : Option BlockTree) (r : Option (List BlockTree))
      → FitsUnder (block_hash b) successor
      → All IsLinked ts
      → AllLinkedIn r
      → All IsLinked (Option.get_or r (ts ++ new_tree b successor ∷ []))
  placed_or_new-IsLinked ts b successor none fits a p =
      All-append IsLinked ts (new_tree b successor ∷ []) a (new_tree-IsLinked b successor fits, tt)
  placed_or_new-IsLinked ts b successor (some ts') fits a p = p

  placed_trees-IsLinked :
      (ts : List BlockTree) (b : Block) → All IsLinked ts → All IsLinked (placed_trees ts b)
  placed_trees-IsLinked ts b a =
      let r = take_tree ts (block_hash b) in
      let (fits, rest) = take_tree-FitsUnder ts (block_hash b) a in
      placed_or_new-IsLinked r.1 b r.0 (place r.1 b r.0) fits rest
        (place-linked r.1 b r.0 fits rest)

  -- In every tree of the forest each block still names its parent's hash after a push.
  pub push-IsLinked :
      (f g : BlockForest) (b : Block)
      → All IsLinked f.trees
      → push f b ≡ returns g
      → All IsLinked g.trees
  push-IsLinked f g b a e =
      let same : record f { trees = placed_trees f.trees b } ≡ g = cc (push-placed_trees f b) in
      subst (λ h. All IsLinked h.trees) same (placed_trees-IsLinked f.trees b a)
