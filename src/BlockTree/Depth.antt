-- ===== src/BlockTree/Depth.antt =====
-- `BlockTree::depth` against the lengths of `BlockTree::blockchains`.
use bitcoin_dip.Base.{
  ℕ, suc, ◌+◌, ◌<◌, max, ◌≡◌, refl, List, [], ◌∷◌, map, length, maximum, maximum-append, arith,
}
use bitcoin_dip.Bitcoin.{Block}
use bitcoin_dip.BlockTree.{
  BlockTree, Children, tree, nil, cons, to_list, depth, max_child_depth, blockchains, tips,
}

maximum-suc {ℓ} :
    {A : Type ℓ} (f : A → ℕ) (x : A) (xs : List A)
    → maximum (λ y. suc (f y)) (x ∷ xs) ≡ suc (maximum f (x ∷ xs))
maximum-suc f x [] = omega arith
maximum-suc f x (y ∷ ys) = omega (arith, maximum-suc f y ys)

-- The accumulator loop of `depth` is a maximum.
max_child_depth_lem :
    (cs : Children) (acc : ℕ)
    → max_child_depth cs acc ≡ max acc (maximum (λ c. suc (depth c)) (to_list cs))
unfolding depth
max_child_depth_lem nil acc = omega arith
max_child_depth_lem (cons c cs) acc = omega (arith, max_child_depth_lem cs (max (1 + depth c) acc))

-- The depth of a tree is one more than that of its deepest child, if it has one.
pub depth_lem :
    (b : Block) (cs : Children) → depth (tree b cs) ≡ maximum (λ c. suc (depth c)) (to_list cs)
unfolding depth
depth_lem b nil = refl
depth_lem b (cons c cs) = omega (arith, max_child_depth_lem (cons c cs) 0)

maximum-length-cons :
    (b : Block) (xs : List (List Block))
    → 0 < maximum length xs
    → maximum length (map (λ bc. b ∷ bc) xs) ≡ suc (maximum length xs)
maximum-length-cons b [] h = absurd (omega arith)
maximum-length-cons b (x ∷ xs) h = at_head x xs
  where
    at_head :
        (y : List Block) (ys : List (List Block))
        → maximum length (map (λ bc. b ∷ bc) (y ∷ ys)) ≡ suc (maximum length (y ∷ ys))
    at_head y [] = omega arith
    at_head y (z ∷ zs) = omega (arith, at_head z zs)

mutual
  unfolding blockchains

  longest : (t : BlockTree) → maximum length (blockchains t) ≡ suc (depth t)
  longest (tree b nil) = omega (arith, depth_lem b nil)
  longest (tree b (cons c cs)) = omega (
    arith,
    longest_tip b (cons c cs),
    maximum-suc (λ u. suc (depth u)) c (to_list cs),
    depth_lem b (cons c cs),
  )

  longest_tip :
      (b : Block) (cs : Children)
      → maximum length (tips cs b) ≡ maximum (λ c. suc (suc (depth c))) (to_list cs)
  longest_tip b nil = refl
  longest_tip b (cons c cs) = omega (
    arith,
    longest c,
    longest_tip b cs,
    maximum-length-cons b (blockchains c),
    maximum-append length (map (λ bc. b ∷ bc) (blockchains c)) (tips cs b),
  )

-- The longest chain of a tree has one block more than the tree's depth.
pub maximum-length-blockchains : (t : BlockTree) → maximum length (blockchains t) ≡ suc (depth t)
maximum-length-blockchains t = longest t
