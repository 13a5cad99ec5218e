-- ===== src/BlockForest.antt =====
-- `struct BlockForest` of canister/src/blockforest.rs. The trees of a forest are attached to an
-- anchor if their root names it as its `prev_blockhash`, and detached otherwise.
pub mod Sort
pub mod Pop
pub mod Push
pub mod Contents
pub mod Links
pub mod Current
pub mod Best
pub mod Ancestry
pub mod Kept
pub mod Waiting
pub mod Line
pub mod Merged
pub mod Arrivals
pub mod Ranked
pub mod AnyOrder
use mathlib.Core.Option
use bitcoin_dip.Base.{
  ℕ, zero, suc, ◌-◌, max, Bool, true, false, not, Option, none, some, List, [], ◌∷◌, ◌++◌, length,
  get_elem?, last?, drop, filter, flat_map, ◌==◌, nat_eq, ltb, leb, if◌then◌else◌, Outcome, returns,
  unwrap, index, checked_sub, ◌>>=◌,
}
use bitcoin_dip.Bitcoin.{Block, BlockHash, Bitcoin, block_hash, prev_hash}
use bitcoin_dip.BlockTree.{
  BlockTree, Children, ExtendResult, extended, not_part_of_tree, depth, blockchains, find_mut,
  extend, root, with_child,
}
use bitcoin_dip.BlockTree

pub record BlockForest : Type 0 where
  pub delta : ℕ
  pub trees : List BlockTree

-- `BlockForest::new`
abbrev pub new : ℕ → BlockForest
new delta = record { delta = delta; trees = [] }

-- `slice::sort_by` on the depth: a stable sort.
pub insert_by_depth : BlockTree → List BlockTree → List BlockTree
insert_by_depth t [] = t ∷ []
insert_by_depth t (u ∷ us) =
    let later = u ∷ insert_by_depth t us in if leb (depth t) (depth u) then t ∷ u ∷ us else later

pub sort_by_depth : List BlockTree → List BlockTree
unfolding insert_by_depth
sort_by_depth [] = []
sort_by_depth (t ∷ ts) = insert_by_depth t (sort_by_depth ts)

-- `Vec::pop`
abbrev pub pop_last {ℓ} : {A : Type ℓ} → List A → Option (A × List A)
pop_last [] = none
pop_last (x ∷ []) = some (x, [])
pop_last (x ∷ y ∷ ys) = Option.map (λ r. (r.0, x ∷ r.1)) (pop_last (y ∷ ys))

-- Is the second deepest tree less than `delta` behind the deepest one?
pub is_contested : List BlockTree → BlockTree → ℕ → Outcome Bool
is_contested sorted deepest delta =
    if leb 2 (length sorted)
    then elim (get_elem? sorted (length sorted - 2)) [
      | none ↦ returns false
      | some second ↦ do
        ahead ← checked_sub (depth deepest) (depth second)
        returns (ltb ahead delta)
    ]
    else returns false

-- The root of the deepest tree is taken off; the other attached trees are dropped.
pub pop_deepest :
    BlockForest → List BlockTree → List BlockTree → Outcome (Option Block × BlockForest)
pop_deepest f sorted detached = do
  (deepest, others) ← unwrap (pop_last sorted)
  let (stable_block, subtrees) = BlockTree.pop deepest
  returns (some stable_block, record f { trees = detached ++ subtrees })

-- The body of `pop`, after the sort.
pub pop_sorted :
    BlockForest → List BlockTree → List BlockTree → Outcome (Option Block × BlockForest)
unfolding is_contested pop_deepest
pop_sorted f sorted detached =
    let kept = returns (none, record f { trees = sorted ++ detached }) in
    elim (last? sorted) [
      | none ↦ kept
      | some deepest ↦ if ltb (depth deepest) f.delta then kept else do
        contested ← is_contested sorted deepest f.delta
        if contested then kept else pop_deepest f sorted detached
    ]

-- The loop that finds the length of the longest blockchain.
unfoldable pub longest_len : List (List Block) → ℕ → ℕ
longest_len [] len = len
longest_len (c ∷ cs) len = longest_len cs (max len (length c))

abbrev pub longest_chains : List (List Block) → List (List Block)
longest_chains chains = let len = longest_len chains 0 in filter (λ c. length c == len) chains

module _ ⦃lib : Bitcoin⦄ where
  abbrev pub is_attached : BlockHash → BlockTree → Bool
  is_attached anchor t = prev_hash (root t) == anchor

  abbrev pub attached : BlockForest → BlockHash → List BlockTree
  attached f anchor = filter (is_attached anchor) f.trees

  abbrev pub detached : BlockForest → BlockHash → List BlockTree
  detached f anchor = filter (λ t. not (is_attached anchor t)) f.trees

  -- `partition`, then the sort.
  unfoldable pub pop : BlockForest → BlockHash → Outcome (Option Block × BlockForest)
  unfolding sort_by_depth pop_sorted
  pop f anchor = pop_sorted f (sort_by_depth (attached f anchor)) (detached f anchor)

  unfoldable pub take_tree : List BlockTree → BlockHash → Option BlockTree × List BlockTree
  take_tree [] hash = (none, [])
  take_tree (t ∷ ts) hash =
      let rest = take_tree ts hash in
      if prev_hash (root t) == hash then (some t, ts) else (rest.0, t ∷ rest.1)

  -- Hangs the successor tree under the block that was just added.
  pub adopt : BlockTree → BlockHash → Option BlockTree → Outcome BlockTree
  adopt t hash none = returns t
  adopt t hash (some successor) = do
    (sub, put) ← unwrap (find_mut t hash)
    returns (put (with_child sub successor))

  -- The loop of `push`; `none` if no tree took the block.
  pub extend_first : List BlockTree → Block → Option BlockTree → Outcome (Option (List BlockTree))
  extend_first [] block successor = returns none
  extend_first (t ∷ ts) block successor = do
    result ← extend t block
    elim result [
      | extended t' ↦ adopt t' (block_hash block) successor >>= λ t''. returns (some (t'' ∷ ts))
      | not_part_of_tree block' ↦
          extend_first ts block' successor >>= λ r. returns (Option.map (λ l. t ∷ l) r)
    ]

  -- A tree for a block that no tree took.
  abbrev pub new_tree : Block → Option BlockTree → BlockTree
  new_tree block none = BlockTree.new block
  new_tree block (some successor) = with_child (BlockTree.new block) successor

  unfoldable pub push : BlockForest → Block → Outcome BlockForest
  unfolding take_tree extend_first adopt
  push f block = do
    let (successor, trees) = take_tree f.trees (block_hash block)
    r ← extend_first trees block successor
    elim r [
      | some trees' ↦ returns (record f { trees = trees' })
      | none ↦ returns (record f { trees = trees ++ new_tree block successor ∷ [] })
    ]

  -- All the blockchains that extend the anchor.
  abbrev pub attached_chains : BlockForest → BlockHash → List (List Block)
  attached_chains f anchor = flat_map blockchains (attached f anchor)

  -- The inner loop: does every chain have a block with this hash at the index?
  unfoldable pub all_agree : List (List Block) → ℕ → BlockHash → Outcome Bool
  all_agree [] height_idx hash = returns true
  all_agree (c ∷ cs) height_idx hash = do
    b ← index c height_idx
    elim (block_hash b == hash) [ true ↦ all_agree cs height_idx hash | false ↦ returns false ]

  -- The outer loop, by the rounds left.
  unfoldable pub agree_loop : ℕ → ℕ → List (List Block) → List Block → Outcome (List Block)
  unfolding all_agree
  agree_loop zero height_idx chains current = returns current
  agree_loop (suc rounds) height_idx chains current = do
    first ← index chains 0
    block ← index first height_idx
    same ← all_agree (drop 1 chains) height_idx (block_hash block)
    elim same [
      | true ↦ agree_loop rounds (suc height_idx) chains (current ++ block ∷ [])
      | false ↦ returns current
    ]

  -- The body of `get_current_chain`, after the chains are collected.
  unfoldable pub agreed_chain : List (List Block) → Outcome (List Block)
  unfolding longest_len agree_loop
  agreed_chain [] = returns []
  agreed_chain (c ∷ cs) = agree_loop (longest_len (c ∷ cs) 0) 0 (longest_chains (c ∷ cs)) []

  unfoldable pub get_current_chain : BlockForest → BlockHash → Outcome (List Block)
  unfolding agreed_chain
  get_current_chain f anchor = agreed_chain (attached_chains f anchor)

  -- `get_blocks`: a block stands once for each chain that goes through it.
  abbrev pub get_blocks : BlockForest → List Block
  get_blocks f = flat_map (λ chain. chain) (flat_map blockchains f.trees)
