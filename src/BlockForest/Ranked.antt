-- ===== src/BlockForest/Ranked.antt =====
-- The blocks of a chain with distinct hashes: each has a place, and a parent that no other has.
use bitcoin_dip.Base.{
  ℕ, suc, ◌≤◌, ◌≡◌, refl, sym, ap, subst, ◌∙◌, inl, inr, Bool, true, false, List, [], ◌∷◌, All,
  count, ◌==◌, nat_eq, nat_beq_iff, if◌then◌else◌, Bool-cases, arith,
}
use bitcoin_dip.Bitcoin.{Block, BlockHash, Bitcoin, block_hash, prev_hash}
use bitcoin_dip.BlockTree.Attach.{holds}
use bitcoin_dip.BlockTree.Linked.{IsChain}
use bitcoin_dip.BlockForest.Line.{AreDistinct}
use bitcoin_dip.BlockForest.Merged.{is_child_of, IsGraded}
use bitcoin_dip.BlockForest.Arrivals.{IsForkless}

module _ ⦃lib : Bitcoin⦄ where
  -- The place of a hash in a chain: that of the block before it is 0.
  abbrev pub rank : BlockHash → List Block → BlockHash → ℕ
  rank anchor [] hash = 0
  rank anchor (b ∷ bs) hash =
      let later = suc (rank (block_hash b) bs hash) in if anchor == hash then 0 else later

  apart_sym : (h k : BlockHash) → (h == k) ≡ false → (k == h) ≡ false
  apart_sym h k e = ground arith

  -- The hash of no block is that of no parent but the first.
  parents_apart :
      (h hash : BlockHash) (bs : List Block)
      → IsChain hash bs
      → (hash == h) ≡ false
      → holds h bs ≡ false
      → All (λ x. (prev_hash x == h) ≡ false) bs
  parents_apart h hash [] c e a = tt
  parents_apart h hash (b ∷ bs) c e a = elim (Bool-cases (block_hash b == h)) [
    | inl same ↦ absurd (cc (rw same at a))
    | inr differs ↦ (rw c.0 e, parents_apart h (block_hash b) bs c.1 differs (rw differs at a))
  ]

  hashes_apart :
      (h : BlockHash) (bs : List Block)
      → holds h bs ≡ false
      → All (λ x. (block_hash x == h) ≡ false) bs
  hashes_apart h [] a = tt
  hashes_apart h (b ∷ bs) a = elim (Bool-cases (block_hash b == h)) [
    | inl same ↦ absurd (cc (rw same at a))
    | inr differs ↦ (differs, hashes_apart h bs (rw differs at a))
  ]

  -- A later place is one more.
  IsGraded-later :
      (anchor : BlockHash) (b : Block) (bs xs : List Block)
      → All (λ x. (block_hash x == anchor) ≡ false) xs
      → All (λ x. (prev_hash x == anchor) ≡ false) xs
      → All (IsGraded (rank (block_hash b) bs)) xs
      → All (IsGraded (rank anchor (b ∷ bs))) xs
  IsGraded-later anchor b bs [] h p g = tt
  IsGraded-later anchor b bs (x ∷ xs) h p g = (
    rw (apart_sym _ _ h.0, apart_sym _ _ p.0) (ap suc g.0),
    IsGraded-later anchor b bs xs h.1 p.1 g.1,
  )

  rank-first : (hash : BlockHash) (bs : List Block) → rank hash bs hash ≡ 0
  rank-first hash [] = refl
  rank-first hash (b ∷ bs) = let same : (hash == hash) ≡ true = (nat_beq_iff _ _).1 refl in rw same

  rank-IsGraded :
      (anchor : BlockHash) (bs : List Block)
      → IsChain anchor bs
      → AreDistinct anchor bs
      → All (IsGraded (rank anchor bs)) bs
  rank-IsGraded anchor [] c d = tt
  rank-IsGraded anchor (b ∷ bs) c d =
      let hashes = hashes_apart anchor (b ∷ bs) d.0 in
      let first = apart_sym _ _ hashes.0 in
      let parents = parents_apart anchor (block_hash b) bs c.1 hashes.0 (rw hashes.0 at d.0) in
      let parent : (anchor == prev_hash b) ≡ true = (nat_beq_iff _ _).1 (sym c.0) in
      (
        rw (first, parent) (ap suc (rank-first (block_hash b) bs)),
        IsGraded-later anchor b bs bs hashes.1 parents (rank-IsGraded (block_hash b) bs c.1 d.1),
      )

  none_counted :
      {A : Type 0} (p : A → Bool) (xs : List A) → All (λ x. p x ≡ false) xs → count p xs ≡ 0
  none_counted p [] a = refl
  none_counted p (x ∷ xs) a = rw a.0 (none_counted p xs a.1)

  distinct_next :
      (b : Block) (bs : List Block)
      → AreDistinct (block_hash b) bs
      → holds (block_hash b) bs ≡ false
  distinct_next b [] d = refl
  distinct_next b (c ∷ cs) d = d.0

  hashes_once :
      (anchor hash : BlockHash) (bs : List Block)
      → AreDistinct anchor bs
      → count (λ b. block_hash b == hash) bs ≤ 1
  hashes_once anchor hash [] d = omega arith
  hashes_once anchor hash (b ∷ bs) d = elim (Bool-cases (block_hash b == hash)) [
    | inl same ↦
        let e : block_hash b ≡ hash = (nat_beq_iff _ _).0 same in
        let rest =
          none_counted (λ x. block_hash x == hash) bs
            (subst (λ h. All (λ x. (block_hash x == h) ≡ false) bs) e
              (hashes_apart (block_hash b) bs (distinct_next b bs d.1))) in
        rw (same, rest) (omega arith)
    | inr differs ↦ rw differs (hashes_once (block_hash b) hash bs d.1)
  ]

  parents_once :
      (anchor hash : BlockHash) (bs : List Block)
      → IsChain anchor bs
      → AreDistinct anchor bs
      → count (is_child_of hash) bs ≤ 1
  parents_once anchor hash [] c d = omega arith
  parents_once anchor hash (b ∷ bs) c d = elim (Bool-cases (prev_hash b == hash)) [
    | inl same ↦
        let e : anchor ≡ hash = sym c.0 ∙ (nat_beq_iff _ _).0 same in
        let hashes = hashes_apart anchor (b ∷ bs) d.0 in
        let rest = none_counted (is_child_of hash) bs (
          subst (λ h. All (λ x. (prev_hash x == h) ≡ false) bs) e
            (parents_apart anchor (block_hash b) bs c.1 hashes.0 (rw hashes.0 at d.0))) in
        rw (same, rest) (omega arith)
    | inr differs ↦ rw differs (parents_once (block_hash b) hash bs c.1 d.1)
  ]

  -- The blocks of a chain with distinct hashes.
  pub chain-IsForkless :
      (anchor : BlockHash) (bs : List Block)
      → IsChain anchor bs
      → AreDistinct anchor bs
      → IsForkless (rank anchor bs) bs
  chain-IsForkless anchor bs c d = record {
    hashes = λ hash. hashes_once anchor hash bs d;
    parents = λ hash. parents_once anchor hash bs c d;
    graded = rank-IsGraded anchor bs c d;
  }
