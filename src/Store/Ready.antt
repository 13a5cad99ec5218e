-- ===== src/Store/Ready.antt =====
-- A state whose unstable blocks are in a line, and the blocks of a chain after them, in order.
use bitcoin_dip.Base.{
  ℕ, suc, ◌+◌, ◌-◌, ◌≤◌, ◌<◌, ◌^◌, ◌≡◌, refl, sym, ap, subst, ◌∙◌, inl, inr, none, List, [], ◌∷◌,
  ◌++◌, append-nil, append_assoc, length, length-append, take, drop, All, any-append, ◌==◌, nat_eq,
  false, Bool-cases, ltb, returns, arith,
}
use bitcoin_dip.Base.HashMap
use bitcoin_dip.Bitcoin.{Block, BlockHash, Height, Bitcoin, block_hash, prev_hash, outpoint_eq}
use bitcoin_dip.BlockTree.Linked.{IsChain}
use bitcoin_dip.BlockTree.Attach.{holds}
use bitcoin_dip.BlockForest
use bitcoin_dip.BlockForest.Line.{in_line, AreDistinct, push-lined, pop-line_kept, pop-line_stable}
use bitcoin_dip.UtxoSet.Transact.{Utxos}
use bitcoin_dip.Store.{State, insert_block, insert_blocks}
use bitcoin_dip.Store.Insert.{IsPlain, IsConsistent, insert_block_steps}
use bitcoin_dip.Store.Invariant.{insert_block-IsConsistent}
use bitcoin_dip.Store.Ledger.{after_txs, after_blocks}
use bitcoin_dip.Store.Stable.{AreAcceptable, insert_block-applies}

-- All but the last `delta` blocks of a chain, and the last ones.
abbrev pub stable_part : ℕ → List Block → List Block
stable_part delta bs = take (length bs - delta) bs

abbrev pub unstable_part : ℕ → List Block → List Block
unstable_part delta bs = drop (length bs - delta) bs

module _ ⦃lib : Bitcoin⦄ where
  -- The transactions of each block are acceptable after those of the blocks before it.
  abbrev pub AreAcceptableBlocks : List Block → Height → Utxos → Type 0
  AreAcceptableBlocks [] height m = Unit {0}
  AreAcceptableBlocks (b ∷ bs) height m =
      AreAcceptable b.txdata height m
      × AreAcceptableBlocks bs (suc height) (after_txs b.txdata height m)

  -- The hash of the last block, or the one before the first.
  abbrev pub tip : BlockHash → List Block → BlockHash
  tip hash [] = hash
  tip hash (b ∷ bs) = tip (block_hash b) bs

  -- The state is `delta` blocks behind the chain.
  pub record Follows (delta : ℕ) (low : Height) (m : Utxos) (anchor : BlockHash)
      (chain : List Block) (s : State) : Type 0 where
    pub height : s.height ≡ low + (length chain - delta)
    pub latest : s.latest_stable_block_hash ≡ tip anchor (stable_part delta chain)
    pub unstable : s.unstable_blocks ≡ in_line delta (unstable_part delta chain)
    pub utxos : HashMap.get s.utxos.utxos ≡ after_blocks (stable_part delta chain) low m

  -- The state holds the UTXOs of the chain's first block, too.
  Follows-suc :
      (delta : ℕ) (low : Height) (m : Utxos) (anchor : BlockHash) (b : Block) (bs : List Block)
      (s : State)
      → delta ≤ length bs
      → Follows delta (suc low) (after_txs b.txdata low m) (block_hash b) bs s
      → Follows delta low m anchor (b ∷ bs) s
  Follows-suc delta low m anchor b bs s long f =
      let count : suc (length bs) - delta ≡ suc (length bs - delta) = omega arith in
      record {
        height = omega (arith, f.height);
        latest = rw count f.latest;
        unstable = rw count f.unstable;
        utxos = rw count f.utxos;
      }

  Follows-start :
      (delta : ℕ) (bs : List Block) (s : State)
      → s.unstable_blocks ≡ in_line delta bs
      → length bs ≤ delta
      → Follows delta s.height (HashMap.get s.utxos.utxos) s.latest_stable_block_hash bs s
  Follows-start delta bs s e short =
      let count : length bs - delta ≡ 0 = omega arith in
      record {
        height = omega (arith, count);
        latest = rw count refl;
        unstable = rw count e;
        utxos = rw count refl;
      }

  IsChain-prefix :
      (hash : BlockHash) (xs ys : List Block) → IsChain hash (xs ++ ys) → IsChain hash xs
  IsChain-prefix hash [] ys c = tt
  IsChain-prefix hash (x ∷ xs) ys c = (c.0, IsChain-prefix (block_hash x) xs ys c.1)

  holds-prefix :
      (hash : BlockHash) (xs ys : List Block)
      → holds hash (xs ++ ys) ≡ false
      → holds hash xs ≡ false
  holds-prefix hash xs ys h = ground (arith, any-append (λ x. block_hash x == hash) xs ys)

  AreDistinct-prefix :
      (hash : BlockHash) (xs ys : List Block) → AreDistinct hash (xs ++ ys) → AreDistinct hash xs
  AreDistinct-prefix hash [] ys d = tt
  AreDistinct-prefix hash (x ∷ xs) ys d =
      (holds-prefix hash (x ∷ xs) ys d.0, AreDistinct-prefix (block_hash x) xs ys d.1)

  abbrev with_line : State → ℕ → List Block → State
  with_line s delta bs = record s { unstable_blocks = in_line delta bs }

  -- A state whose unstable blocks are in a line, of which the blocks that come are the rest.
  pub record IsReady (delta : ℕ) (s : State) (line rest : List Block) : Type 0 where
    pub consistent : IsConsistent s
    pub plain : All IsPlain rest
    pub window : s.unstable_blocks ≡ in_line delta line
    pub linked : IsChain s.latest_stable_block_hash (line ++ rest)
    pub distinct : AreDistinct s.latest_stable_block_hash (line ++ rest)
    pub acceptable :
        AreAcceptableBlocks (stable_part delta (line ++ rest)) s.height (HashMap.get s.utxos.utxos)
    pub fits : s.height + (length (line ++ rest) - delta) < 2 ^ 32

  module _ (delta : ℕ) (s : State) where
    -- The block that comes is pushed to the end of the line, whose first block is `x`.
    push-IsReady :
        (line : List Block) (b x : Block) (xs rest : List Block)
        → line ++ b ∷ [] ≡ x ∷ xs
        → IsReady delta s line (b ∷ rest)
        → BlockForest.push s.unstable_blocks b ≡ returns (in_line delta (x ∷ xs))
    push-IsReady line b x xs rest e r =
        let all = append_assoc line (b ∷ []) rest in
        let linked = IsChain-prefix _ (line ++ b ∷ []) rest (rw all r.linked) in
        let distinct = AreDistinct-prefix _ (line ++ b ∷ []) rest (rw all r.distinct) in
        rw r.window (
          push-lined delta s.latest_stable_block_hash line b linked distinct
          ∙ ap (λ l. returns (in_line delta l)) e)

    abbrev pub Reaches : List Block → List Block → Type 0
    Reaches line rest =
        (s' : State) × (insert_blocks s rest ≡ returns s')
        × Follows delta s.height (HashMap.get s.utxos.utxos) s.latest_stable_block_hash
            (line ++ rest) s'

    module _ (line : List Block) (b x : Block) (xs rest : List Block)
        (split : line ++ b ∷ [] ≡ x ∷ xs) (r : IsReady delta s line (b ∷ rest)) where
      all_blocks : line ++ b ∷ rest ≡ x ∷ (xs ++ rest)
      all_blocks = sym (append_assoc line (b ∷ []) rest) ∙ ap (λ l. l ++ rest) split

      parent : prev_hash x ≡ s.latest_stable_block_hash
      parent = (subst (IsChain s.latest_stable_block_hash) all_blocks r.linked).0

      -- The line has room for the block.
      insert_block-room :
          length xs < delta
          → (insert_block s b ≡ returns (with_line s delta (x ∷ xs)))
            × IsReady delta (with_line s delta (x ∷ xs)) (x ∷ xs) rest
      insert_block-room room =
          let pushed = push-IsReady line b x xs rest split r in
          let popped = pop-line_kept delta s.latest_stable_block_hash x xs parent room in
          let done = insert_block_steps s b _ _ none pushed popped in
          (
            done,
            record {
              consistent =
                  insert_block-IsConsistent s (with_line s delta (x ∷ xs)) b r.consistent r.plain.0
                    done;
              plain = r.plain.1;
              window = refl;
              linked = subst (IsChain s.latest_stable_block_hash) all_blocks r.linked;
              distinct = subst (AreDistinct s.latest_stable_block_hash) all_blocks r.distinct;
              acceptable =
                  subst
                    (λ l.
                      AreAcceptableBlocks (stable_part delta l) s.height
                        (HashMap.get s.utxos.utxos))
                    all_blocks r.acceptable;
              fits = subst (λ l. s.height + (length l - delta) < 2 ^ 32) all_blocks r.fits;
            },
          )

      -- The line is full: its first block becomes stable.
      insert_block-full :
          delta ≤ length xs
          → (s1 : State) × (insert_block s b ≡ returns s1)
            × (s1.height ≡ suc s.height)
            × (s1.latest_stable_block_hash ≡ block_hash x)
            × (HashMap.get s1.utxos.utxos ≡ after_txs x.txdata s.height (HashMap.get s.utxos.utxos))
            × IsReady delta s1 xs rest
      insert_block-full full =
          let pushed = push-IsReady line b x xs rest split r in
          let popped = pop-line_stable delta s.latest_stable_block_hash x xs parent full in
          let count : suc (length (xs ++ rest)) - delta ≡ suc (length (xs ++ rest) - delta) =
            omega (arith, length-append xs rest) in
          let linked = subst (IsChain s.latest_stable_block_hash) all_blocks r.linked in
          let distinct = subst (AreDistinct s.latest_stable_block_hash) all_blocks r.distinct in
          let acceptable = rw count at (
            subst
              (λ l. AreAcceptableBlocks (stable_part delta l) s.height (HashMap.get s.utxos.utxos))
              all_blocks r.acceptable) in
          let fits = subst (λ l. s.height + (length l - delta) < 2 ^ 32) all_blocks r.fits in
          let (s1, done, height, latest, unstable, reads) =
            insert_block-applies s b x _ _ r.consistent pushed popped acceptable.0
              (omega (arith, fits, count)) in
          let next : s1.height ≡ suc s.height = omega (arith, height) in
          (
            s1,
            done,
            next,
            latest,
            reads,
            record {
              consistent = insert_block-IsConsistent s s1 b r.consistent r.plain.0 done;
              plain = r.plain.1;
              window = unstable;
              linked = rw latest linked.1;
              distinct = rw latest distinct.1;
              acceptable = rw (next, reads) acceptable.1;
              fits = omega (arith, next, fits, count);
            },
          )

  snoc_cons :
      (bs : List Block) (b : Block)
      → (x : Block) × (xs : List Block) × (bs ++ b ∷ [] ≡ x ∷ xs) × (length xs ≡ length bs)
  snoc_cons [] b = (b, [], refl, refl)
  snoc_cons (c ∷ cs) b = (c, cs ++ b ∷ [], refl, omega (arith, length-append cs (b ∷ [])))

  pub insert_blocks_lem :
      (delta : ℕ) (rest line : List Block) (s : State)
      → IsReady delta s line rest
      → length line ≤ delta
      → Reaches delta s line rest
  unfolding insert_blocks
  insert_blocks_lem delta [] line s r short =
      (s, refl, rw (append-nil line) (Follows-start delta line s r.window short))
  insert_blocks_lem delta (b ∷ rest) line s r short =
      let (x, xs, split, size) = snoc_cons line b in
      let all = all_blocks delta s line b x xs rest split r in
      elim (Bool-cases (ltb (length xs) delta)) [
        | inl room ↦
            let (done, next) = insert_block-room delta s line b x xs rest split r (ground arith) in
            let (s', later, f) =
              insert_blocks_lem delta rest (x ∷ xs) (with_line s delta (x ∷ xs)) next
                (ground arith) in
            (s', rw done later, rw all f)
        | inr full ↦
            let long : delta ≤ length xs = ground arith in
            let (s1, done, height, latest, reads, next) =
              insert_block-full delta s line b x xs rest split r long in
            let (s', later, f) = insert_blocks_lem delta rest xs s1 next (omega (arith, size)) in
            (
              s',
              rw done later,
              rw all (
                  Follows-suc delta s.height _ _ x (xs ++ rest) s'
                    (omega (arith, long, length-append xs rest)) (rw (height, latest, reads) at f)),
            )
      ]
