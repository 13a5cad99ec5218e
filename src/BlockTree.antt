-- ===== src/BlockTree.antt =====
-- `struct BlockTree` of canister/src/blockforest.rs. A `Vec<BlockTree>` inside a tree is
-- `Children`. The mutable reference that `find_mut` returns is a `Cursor`: the subtree, and the
-- function that puts a changed subtree back in its place.
pub mod Depth
pub mod Attach
pub mod Find
pub mod Linked
use bitcoin_dip.Base.{
  ℕ, ◌+◌, max, Bool, true, false, Option, none, some, List, [], ◌∷◌, ◌++◌, map, ◌==◌, if◌then◌else◌,
  Outcome, returns, panics, parent_hash_mismatch, nat_eq,
}
use mathlib.Core.Option
use bitcoin_dip.Bitcoin.{Block, BlockHash, Bitcoin, block_hash, prev_hash}

mutual
  pub data BlockTree : Type 0 where
    tree : Block → Children → BlockTree

  pub data Children : Type 0 where
    nil : Children
    cons : BlockTree → Children → Children

abbrev pub to_list : Children → List BlockTree
to_list nil = []
to_list (cons t ts) = t ∷ to_list ts

-- `Vec::push`
abbrev pub push_child : Children → BlockTree → Children
push_child nil t = cons t nil
push_child (cons c cs) t = cons c (push_child cs t)

-- `BlockTree::new`
abbrev pub new : Block → BlockTree
new root = tree root nil

abbrev pub root : BlockTree → Block
root (tree b cs) = b

abbrev pub children : BlockTree → Children
children (tree b cs) = cs

-- `BlockTree::pop`
abbrev pub pop : BlockTree → Block × List BlockTree
pop (tree b cs) = (b, to_list cs)

-- `block_tree.children.push(t)`
abbrev pub with_child : BlockTree → BlockTree → BlockTree
with_child (tree b cs) t = tree b (push_child cs t)

abbrev pub Cursor : Type 0
Cursor = BlockTree × (BlockTree → BlockTree)

abbrev pub ChildCursor : Type 0
ChildCursor = BlockTree × (BlockTree → Children)

pub data ExtendResult : Type 0 where
  extended : BlockTree → ExtendResult
  not_part_of_tree : Block → ExtendResult

unfoldable mutual
  pub depth : BlockTree → ℕ
  depth (tree b nil) = 0
  depth (tree b (cons c cs)) = max_child_depth (cons c cs) 0

  -- The loop of `depth`, with its accumulator.
  pub max_child_depth : Children → ℕ → ℕ
  max_child_depth nil acc = acc
  max_child_depth (cons c cs) acc = max_child_depth cs (max (1 + depth c) acc)

unfoldable mutual
  pub blockchains : BlockTree → List (List Block)
  blockchains (tree b nil) = (b ∷ []) ∷ []
  blockchains (tree b (cons c cs)) = tips (cons c cs) b

  -- The loop of `blockchains`: the chains of the children in turn, with the root put in front.
  pub tips : Children → Block → List (List Block)
  tips nil b = []
  tips (cons c cs) b = map (λ bc. b ∷ bc) (blockchains c) ++ tips cs b

module _ ⦃lib : Bitcoin⦄ where
  unfoldable mutual
    pub contains : BlockTree → Block → Bool
    contains (tree b cs) block =
        let inside = children_contain cs block in
        if block_hash b == block_hash block then true else inside

    pub children_contain : Children → Block → Bool
    children_contain nil block = false
    children_contain (cons c cs) block =
        let rest = children_contain cs block in if contains c block then true else rest

  unfoldable mutual
    pub find_mut : BlockTree → BlockHash → Option Cursor
    find_mut (tree b cs) hash =
        let inside = Option.map (λ r. (r.0, λ t. tree b (r.1 t))) (find_in_children cs hash) in
        if block_hash b == hash then some (tree b cs, λ t. t) else inside

    pub find_in_children : Children → BlockHash → Option ChildCursor
    find_in_children nil hash = none
    find_in_children (cons c cs) hash =
        let later = Option.map (λ r. (r.0, λ t. cons c (r.1 t))) (find_in_children cs hash) in
        elim (find_mut c hash) [ some (sub, put) ↦ some (sub, λ t. cons (put t) cs) | none ↦ later ]

  -- `block` becomes a child of the subtree that `find_mut` reached.
  add_successor : Block → Option Cursor → Outcome ExtendResult
  add_successor block none = returns (not_part_of_tree block)
  add_successor block (some (sub, put)) =
      if block_hash (root sub) == prev_hash block
      then returns (extended (put (with_child sub (new block))))
      else panics parent_hash_mismatch

  unfoldable pub extend : BlockTree → Block → Outcome ExtendResult
  unfolding add_successor
  extend t block =
      if contains t block
      then returns (extended t)
      else add_successor block (find_mut t (prev_hash block))
