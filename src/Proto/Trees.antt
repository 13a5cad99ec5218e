-- ===== src/Proto/Trees.antt =====
-- `to_proto` and `from_proto` of `BlockTree` and `BlockForest` of canister/src/blockforest.rs.
use bitcoin_dip.Base.{some, map, Outcome, returns, ◌>>=◌, unwrap}
use bitcoin_dip.Bitcoin.{Bitcoin}
use bitcoin_dip.BlockTree.{BlockTree, Children, tree, nil, cons}
use bitcoin_dip.BlockForest.{BlockForest}
use bitcoin_dip.Proto
use bitcoin_dip.Proto.{Messages, message, no_more, then_more, collect}
use bitcoin_dip.Proto.Blocks

module _ ⦃lib : Bitcoin⦄ where
  abbrev mutual
    pub tree_message : BlockTree → Proto.BlockTree
    tree_message (tree b cs) = message (some (Blocks.to_proto b)) (child_messages cs)

    pub child_messages : Children → Messages
    child_messages nil = no_more
    child_messages (cons c cs) = then_more (tree_message c) (child_messages cs)

  abbrev mutual
    pub tree_of : Proto.BlockTree → Outcome BlockTree
    tree_of (message block ms) = unwrap block >>= λ b.
        Blocks.from_proto b >>= λ root. children_of ms >>= λ children. returns (tree root children)

    pub children_of : Messages → Outcome Children
    children_of no_more = returns nil
    children_of (then_more m ms) = tree_of m >>= λ c. children_of ms >>= λ cs. returns (cons c cs)

  unfoldable pub to_proto : BlockForest → Proto.BlockForest
  to_proto f = record { delta = f.delta; trees = map tree_message f.trees }

  unfoldable pub from_proto : Proto.BlockForest → Outcome BlockForest
  from_proto f = do
    trees ← collect tree_of f.trees
    returns (record { delta = f.delta; trees = trees })
