-- ===== src/BlockTree/Find.antt =====
-- `BlockTree::find_mut` and `BlockTree::extend` against `attach`.
use mathlib.Core.Option
use bitcoin_dip.Base.{
  ◌≡◌, refl, ap, inl, inr, true, false, some, none, Option, any-append, ◌==◌, nat_eq, nat_beq_iff,
  if◌then◌else◌, Bool-cases, returns,
}
use bitcoin_dip.Bitcoin.{Block, BlockHash, Bitcoin, block_hash, prev_hash}
use bitcoin_dip.BlockTree.{
  BlockTree, Children, Cursor, ChildCursor, ExtendResult, extended, not_part_of_tree, tree, nil,
  cons, new, with_child, root, find_mut, find_in_children, extend, add_successor,
}
use bitcoin_dip.BlockTree.Attach.{
  blocks, blocks_below, holds, has, contains_lem, attach, attach_below,
}

module _ ⦃lib : Bitcoin⦄ where
  -- A cursor to a block with the hash: a push through it is `attach`.
  pub record Reaches (t : BlockTree) (hash : BlockHash) (c : Cursor) : Type 0 where
    pub present : has t hash ≡ true
    pub found : block_hash (root c.0) ≡ hash
    pub attaches : (n : BlockTree) → c.1 (with_child c.0 n) ≡ attach t hash n
    pub unmoved : c.1 c.0 ≡ t

  record ReachesBelow (cs : Children) (hash : BlockHash) (c : ChildCursor) : Type 0 where
    present : holds hash (blocks_below cs) ≡ true
    found : block_hash (root c.0) ≡ hash
    attaches : (n : BlockTree) → c.1 (with_child c.0 n) ≡ attach_below cs hash n
    unmoved : c.1 c.0 ≡ cs

  abbrev pub Finds : BlockTree → BlockHash → Option Cursor → Type 0
  Finds t hash none = has t hash ≡ false
  Finds t hash (some c) = Reaches t hash c

  abbrev FindsBelow : Children → BlockHash → Option ChildCursor → Type 0
  FindsBelow cs hash none = holds hash (blocks_below cs) ≡ false
  FindsBelow cs hash (some c) = ReachesBelow cs hash c

  under_root :
      (b : Block) (cs : Children) (hash : BlockHash) (r : Option ChildCursor)
      → (block_hash b == hash) ≡ false
      → FindsBelow cs hash r
      → Finds (tree b cs) hash (Option.map (λ r. (r.0, λ t. tree b (r.1 t))) r)
  unfolding blocks attach
  under_root b cs hash none miss f = rw miss f
  under_root b cs hash (some c) miss f = record {
    present = rw miss f.present;
    found = f.found;
    attaches = λ n. rw miss (ap (tree b) (f.attaches n));
    unmoved = ap (tree b) f.unmoved;
  }

  past_child :
      (c : BlockTree) (cs : Children) (hash : BlockHash) (r : Option ChildCursor)
      → has c hash ≡ false
      → FindsBelow cs hash r
      → FindsBelow (cons c cs) hash (Option.map (λ r. (r.0, λ t. cons c (r.1 t))) r)
  unfolding blocks attach
  past_child c cs hash none miss f =
      rw (any-append (λ x. block_hash x == hash) (blocks c) (blocks_below cs), miss) f
  past_child c cs hash (some r) miss f = record {
    present =
        rw (any-append (λ x. block_hash x == hash) (blocks c) (blocks_below cs), miss) f.present;
    found = f.found;
    attaches = λ n. rw miss (ap (cons c) (f.attaches n));
    unmoved = ap (cons c) f.unmoved;
  }

  in_child :
      (c : BlockTree) (cs : Children) (hash : BlockHash) (r : Cursor)
      → Reaches c hash r
      → ReachesBelow (cons c cs) hash (r.0, λ t. cons (r.1 t) cs)
  unfolding blocks attach
  in_child c cs hash r f = record {
    present =
        rw (any-append (λ x. block_hash x == hash) (blocks c) (blocks_below cs), f.present) refl;
    found = f.found;
    attaches = λ n. rw f.present (ap (λ t. cons t cs) (f.attaches n));
    unmoved = ap (λ t. cons t cs) f.unmoved;
  }

  abbrev after_child : BlockTree → Children → BlockHash → Option Cursor → Option ChildCursor
  after_child c cs hash r =
      let later = Option.map (λ r. (r.0, λ t. cons c (r.1 t))) (find_in_children cs hash) in
      elim r [ some (sub, put) ↦ some (sub, λ t. cons (put t) cs) | none ↦ later ]

  by_child :
      (c : BlockTree) (cs : Children) (hash : BlockHash) (r : Option Cursor)
      → Finds c hash r
      → FindsBelow cs hash (find_in_children cs hash)
      → FindsBelow (cons c cs) hash (after_child c cs hash r)
  by_child c cs hash none f below = past_child c cs hash (find_in_children cs hash) f below
  by_child c cs hash (some r) f below = in_child c cs hash r f

  mutual
    unfolding find_mut blocks attach

    find_mut-Finds : (t : BlockTree) (hash : BlockHash) → Finds t hash (find_mut t hash)
    find_mut-Finds (tree b cs) hash =
        let below = find_in_children_finds cs hash in
        elim (Bool-cases (block_hash b == hash)) [
          | inl hit ↦ rw hit (record {
            present = rw hit;
            found = (nat_beq_iff (block_hash b) hash).0 hit;
            attaches = λ n. rw hit;
            unmoved = refl;
          })
          | inr miss ↦ rw miss (under_root b cs hash (find_in_children cs hash) miss below)
        ]

    find_in_children_finds :
        (cs : Children) (hash : BlockHash) → FindsBelow cs hash (find_in_children cs hash)
    find_in_children_finds nil hash = refl
    find_in_children_finds (cons c cs) hash =
        by_child c cs hash (find_mut c hash) (find_mut-Finds c hash)
          (find_in_children_finds cs hash)

  -- `find_mut` reaches a block with the hash exactly when the tree has one.
  pub find_mut_lem : (t : BlockTree) (hash : BlockHash) → Finds t hash (find_mut t hash)
  find_mut_lem t hash = find_mut-Finds t hash

  -- What `extend` should do, with no cursor and no assertion.
  abbrev pub extend_spec : BlockTree → Block → ExtendResult
  extend_spec t b =
      if has t (block_hash b)
      then extended t
      else (if has t (prev_hash b)
          then extended (attach t (prev_hash b) (new b))
          else not_part_of_tree b)

  add_successor_lem :
      (t : BlockTree) (b : Block) (r : Option Cursor)
      → Finds t (prev_hash b) r
      → add_successor b r
        ≡ returns (
            if has t (prev_hash b)
            then extended (attach t (prev_hash b) (new b))
            else not_part_of_tree b)
  unfolding add_successor
  add_successor_lem t b none f = rw f
  add_successor_lem t b (some r) f = rw (f.present, (nat_beq_iff _ _).1 f.found, f.attaches (new b))

  -- `extend` returns on every tree and block, so its assertion never fails. A block whose hash is
  -- in the tree changes nothing; else it is hung under the block that its `prev_blockhash` names,
  -- and handed back if the tree has no such block.
  pub extend_lem : (t : BlockTree) (b : Block) → extend t b ≡ returns (extend_spec t b)
  unfolding extend
  extend_lem t b = elim (Bool-cases (has t (block_hash b))) [
    | inl old ↦ rw (contains_lem t b, old)
    | inr fresh ↦
        rw (contains_lem t b, fresh) (add_successor_lem t b _ (find_mut_lem t (prev_hash b)))
  ]
