-- ===== src/Proto/RoundTrip.antt =====
-- A block or a forest that is written as a message reads back as itself.
use bitcoin_dip.Base.{◌≡◌, refl, ap, returns, map, List, [], ◌∷◌}
use bitcoin_dip.Bitcoin.{Bitcoin, HashBytesAgree, Block, TxIn, Transaction, TxOut}
use bitcoin_dip.BlockTree.{BlockTree, Children, tree, nil, cons}
use bitcoin_dip.BlockForest.{BlockForest}
use bitcoin_dip.Proto.{collect-map}
use bitcoin_dip.Proto.Blocks
use bitcoin_dip.Proto.Blocks.{
  txin_of, txin_message, transaction_of, transaction_message, txout_of, txout_message,
}
use bitcoin_dip.Proto.Trees
use bitcoin_dip.Proto.Trees.{tree_of, tree_message, children_of, child_messages}

map_back : (os : List TxOut) → map txout_of (map txout_message os) ≡ os
map_back [] = refl
map_back (o ∷ os) = ap (◌∷◌ o) (map_back os)

module _ ⦃lib : Bitcoin⦄ (agree : HashBytesAgree lib) where
  txin_back : (i : TxIn) → txin_of (txin_message i) ≡ returns i
  txin_back i = rw (agree i.previous_output.txid) refl

  transaction_back : (t : Transaction) → transaction_of (transaction_message t) ≡ returns t
  transaction_back t =
      rw (collect-map txin_of txin_message txin_back t.input, map_back t.output) refl

  -- If the bytes of a hash read back as the hash, a block reads back from its message.
  pub from_proto-to_proto : (b : Block) → Blocks.from_proto (Blocks.to_proto b) ≡ returns b
  unfolding Blocks.from_proto Blocks.to_proto
  from_proto-to_proto b =
      rw
        (
          agree b.header.prev_blockhash,
          agree b.header.merkle_root,
          collect-map transaction_of transaction_message transaction_back b.txdata,
        )
        refl

  mutual
    tree_back : (t : BlockTree) → tree_of (tree_message t) ≡ returns t
    tree_back (tree b cs) = rw (from_proto-to_proto b, children_back cs) refl

    children_back : (cs : Children) → children_of (child_messages cs) ≡ returns cs
    children_back nil = refl
    children_back (cons c cs) = rw (tree_back c, children_back cs) refl

  -- If the bytes of a hash read back as the hash, a forest reads back from its message: the trees
  -- and all their blocks, in order.
  pub forest-from_proto-to_proto :
      (f : BlockForest) → Trees.from_proto (Trees.to_proto f) ≡ returns f
  unfolding Trees.from_proto Trees.to_proto
  forest-from_proto-to_proto f = rw (collect-map tree_of tree_message tree_back f.trees) refl
