-- ===== src/Examples/Forest.antt =====
-- The theorems on trees and forests at concrete inputs, and tests of canister/src/blockforest.rs.
use mathlib.Core.List.{perm_append_singleton}
use mathlib.Core.List.Perm
use bitcoin_dip.UnitTests.Trees.{push_all}
use bitcoin_dip.BlockForest.Line.{in_line}
use bitcoin_dip.BlockForest.AnyOrder.{push_all-any_order}
use bitcoin_dip.BlockForest.{new}
use bitcoin_dip.Base.{◌≡◌, refl, List, [], ◌∷◌, All, suc, length, maximum, returns, none, some}
use bitcoin_dip.Bitcoin.{Block}
use bitcoin_dip.BlockTree.{tree, nil, cons, depth, blockchains, extend, contains, find_mut}
use bitcoin_dip.BlockTree.Depth.{maximum-length-blockchains}
use bitcoin_dip.BlockTree.Find.{extend_spec, extend_lem}
use bitcoin_dip.BlockTree.Linked.{IsLinked, IsChain}
use bitcoin_dip.BlockForest.{BlockForest, push, pop, get_current_chain, attached_chains}
use bitcoin_dip.BlockForest.Pop.{Pops, pop_lem}
use bitcoin_dip.BlockForest.Push.{trees_after, push_lem}
use bitcoin_dip.BlockForest.Contents.{all_blocks, Added, push-blocks}
use bitcoin_dip.BlockForest.Links.{push-IsLinked}
use bitcoin_dip.BlockForest.Best.{IsCurrent, get_current_chain_lem}
use bitcoin_dip.BlockForest.Ancestry.{get_current_chain-IsChain}
use bitcoin_dip.Examples.{toy, block, fork, orphan, forest}

-- The block that joins the two trees.
abbrev joining : Block
joining = block 14 13 []

abbrev joined : BlockForest
joined = record { delta = 2; trees = trees_after (forest 2).trees joining }

abbrev popped : BlockForest
popped = record {
  delta = 2;
  trees =
      orphan
      ∷ tree (block 11 10 []) nil
      ∷ tree (block 12 10 []) (cons (tree (block 13 12 []) nil) nil)
      ∷ [];
}

forest-IsLinked : All IsLinked (forest 2).trees
forest-IsLinked = (tt, ((refl, tt, (refl, (refl, tt, tt), tt)), tt))

pop-forest : pop (forest 2) 9 ≡ returns (some (block 10 9 []), popped)
unfolding pop depth
pop-forest = refl

pop_too_shallow :
    pop (forest 3) 9 ≡ returns (none, record { delta = 3; trees = fork ∷ orphan ∷ [] })
unfolding pop depth
pop_too_shallow = refl

current_forest :
    get_current_chain (forest 2) 9 ≡ returns (block 10 9 [] ∷ block 12 10 [] ∷ block 13 12 [] ∷ [])
unfolding get_current_chain blockchains
current_forest = refl

pop_lem_example : Pops (forest 2) 9 (pop (forest 2) 9)
pop_lem_example = pop_lem (forest 2) 9

get_current_chain_lem_example :
    (c : List Block) × (get_current_chain (forest 2) 9 ≡ returns c)
    × IsCurrent (attached_chains (forest 2) 9) c
get_current_chain_lem_example = get_current_chain_lem (forest 2) 9

push-blocks_example :
    (g : BlockForest) × (push (forest 2) joining ≡ returns g)
    × (g.delta ≡ 2)
    × Added joining (all_blocks (forest 2).trees) (all_blocks g.trees)
push-blocks_example = push-blocks (forest 2) joining

push_lem_example : push (forest 2) joining ≡ returns joined
push_lem_example = push_lem (forest 2) joining

extend_lem_example : extend fork joining ≡ returns (extend_spec fork joining)
extend_lem_example = extend_lem fork joining

get_current_chain-IsChain_example : IsChain 9 (block 10 9 [] ∷ block 12 10 [] ∷ block 13 12 [] ∷ [])
get_current_chain-IsChain_example =
    get_current_chain-IsChain (forest 2) 9 (block 10 9 [] ∷ block 12 10 [] ∷ block 13 12 [] ∷ [])
      forest-IsLinked current_forest

push-IsLinked_example : All IsLinked joined.trees
push-IsLinked_example =
    push-IsLinked (forest 2) joined joining forest-IsLinked (push_lem (forest 2) joining)

maximum-length-blockchains_example : maximum length (blockchains fork) ≡ suc (depth fork)
maximum-length-blockchains_example = maximum-length-blockchains fork

-- Two trees that wait for the block 14: the first is hung under it, the other stays.
abbrev siblings : BlockForest
siblings = record { delta = 2; trees = orphan ∷ tree (block 16 14 []) nil ∷ fork ∷ [] }

push-siblings :
    push siblings joining
    ≡ returns (record {
      delta = 2;
      trees =
          tree (block 16 14 []) nil
          ∷ tree (block 10 9 []) (
              cons (tree (block 11 10 []) nil) (
                cons
                  (tree
                    (block 12 10 [])
                    (cons (tree (block 13 12 []) (cons (tree joining (cons orphan nil)) nil)) nil))
                  nil))
          ∷ [];
    })
unfolding push extend contains find_mut
push-siblings = refl

-- The blocks 12 and 13 end the longest chains; 21 stands at the height of the answer's tip.
abbrev contested : BlockForest
contested = record {
  delta = 2;
  trees =
      tree (block 10 9 []) (
        cons
          (tree (block 11 10 [])
            (cons (tree (block 12 11 []) nil) (cons (tree (block 13 11 []) nil) nil)))
          nil)
      ∷ tree (block 20 9 []) (cons (tree (block 21 20 []) nil) nil)
      ∷ [];
}

current_contested : get_current_chain contested 9 ≡ returns (block 10 9 [] ∷ block 11 10 [] ∷ [])
unfolding get_current_chain blockchains
current_contested = refl

-- Three blocks, of which the last arrives first.
push_all-any_order_example :
    push_all (new 1) (block 12 11 [] ∷ block 10 9 [] ∷ block 11 10 [] ∷ [])
    ≡ returns (in_line 1 (block 10 9 [] ∷ block 11 10 [] ∷ block 12 11 [] ∷ []))
push_all-any_order_example =
    push_all-any_order 1 9 (block 10 9 [] ∷ block 11 10 [] ∷ block 12 11 [] ∷ [])
      (block 12 11 [] ∷ block 10 9 [] ∷ block 11 10 [] ∷ []) (refl, (refl, (refl, tt)))
      (refl, (refl, (refl, tt)))
      (Perm.symm (perm_append_singleton (block 12 11 []) (block 10 9 [] ∷ block 11 10 [] ∷ [])))
