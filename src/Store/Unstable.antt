-- ===== src/Store/Unstable.antt =====
-- The loop of `State::get_utxos` over the current chain.
use bitcoin_dip.Base.{
  ℕ, suc, ◌+◌, ◌-◌, ◌%◌, ◌^◌, ◌≤◌, ◌<◌, ◌≡◌, refl, ap, ◌∙◌, String, Bool, true, false, List, [],
  ◌∷◌, length, ltb, if◌then◌else◌, Outcome, returns, ◌>>=◌, checked_sub, checked_add32, arith,
}
use bitcoin_dip.Bitcoin.{Network, Block, Height, Bitcoin}
use bitcoin_dip.UtxoSet.{UtxoSet}
use bitcoin_dip.UtxoSet.Transact.{Utxos}
use bitcoin_dip.Store.{
  State, insert_txs, main_chain_height, confirmations, apply_unstable, current_chain,
}
use bitcoin_dip.Store.Ledger.{confirmed_blocks, after_txs, after_blocks, AllNewBlocks}
use bitcoin_dip.Store.Partial.{Partial, insert_txs-Partial}

module _ ⦃lib : Bitcoin⦄ where
  pub main_chain_height_lem :
      (s : State) (chain : List Block)
      → current_chain s ≡ returns chain
      → s.height + length chain < 2 ^ 32
      → main_chain_height s ≡ returns (s.height + length chain)
  unfolding main_chain_height
  main_chain_height_lem s chain e h =
      let small : length chain % 2 ^ 32 ≡ length chain = omega arith in
      let sum : checked_add32 (length chain) s.height ≡ returns (s.height + length chain) =
        ground arith in
      rw (e, small, sum) refl

  pub confirmations_lem :
      (s : State) (top height : Height)
      → main_chain_height s ≡ returns top
      → height ≤ top
      → top + 1 < 2 ^ 32
      → confirmations s height ≡ returns (top - height + 1)
  confirmations_lem s top height e h k =
      let e1 : checked_sub top height ≡ returns (top - height) = ground arith in
      let e2 : checked_add32 (top - height) 1 ≡ returns (top - height + 1) = ground arith in
      rw (e, e1, e2) refl

  apply_unstable-step :
      (s : State) (min : ℕ) (b : Block) (bs : List Block) (i : ℕ) (u : UtxoSet) (height n : ℕ)
      → s.height + i + 1 ≡ height
      → height < 2 ^ 32
      → confirmations s height ≡ returns n
      → apply_unstable s min (b ∷ bs) i u ≡ elim (ltb n min) [
        | true ↦ returns u
        | false ↦ insert_txs u b.txdata height >>= λ u'. apply_unstable s min bs (suc i) u'
      ]
  unfolding apply_unstable
  apply_unstable-step s min b bs i u height n e h c =
      let e0 : i % 2 ^ 32 ≡ i = omega arith in
      let e1 : checked_add32 s.height i ≡ returns (s.height + i) = ground arith in
      let e2 : checked_add32 (s.height + i) 1 ≡ returns height = ground arith in
      rw (e0, e1, e2, c) refl

  apply_unstable-nil :
      (s : State) (min i : ℕ) (u : UtxoSet) → apply_unstable s min [] i u ≡ returns u
  unfolding apply_unstable
  apply_unstable-nil s min i u = refl

  -- One round, by the test for enough confirmations.
  round :
      (a : String) (network : Network) (stop : Bool) (b : Block) (bs : List Block) (u : UtxoSet)
      (m : Utxos) (height : Height) (k : UtxoSet → Outcome UtxoSet)
      → Partial a network u m
      → AllNewBlocks (if stop then [] else b ∷ bs) height m
      → ((u1 : UtxoSet) (m1 : Utxos)
          → Partial a network u1 m1
          → AllNewBlocks bs (suc height) m1
          → (u' : UtxoSet) × (k u1 ≡ returns u')
            × Partial a network u' (after_blocks bs (suc height) m1))
      → (u' : UtxoSet) × ((elim stop [
        | true ↦ returns u
        | false ↦ insert_txs u b.txdata height >>= k
      ])
          ≡ returns u')
        × Partial a network u' (after_blocks (if stop then [] else b ∷ bs) height m)
  round a network true b bs u m height k p new later = (u, refl, p)
  round a network false b bs u m height k p new later =
      let (u1, first, p1) = insert_txs-Partial a network b.txdata u m height p new.0 in
      let (u2, rest, p2) = later u1 (after_txs b.txdata height m) p1 new.1 in
      (u2, rw first rest, p2)

  -- The loop returns and follows the ledger through the blocks with enough confirmations.
  pub apply_unstable_lem :
      (a : String) (network : Network) (s : State) (min : ℕ) (bs : List Block) (i : ℕ) (u : UtxoSet)
      (m : Utxos) (height top : Height)
      → s.height + i + 1 ≡ height
      → s.height + i + length bs ≡ top
      → main_chain_height s ≡ returns top
      → top + 1 < 2 ^ 32
      → Partial a network u m
      → AllNewBlocks (confirmed_blocks min bs) height m
      → (u' : UtxoSet) × (apply_unstable s min bs i u ≡ returns u')
        × Partial a network u' (after_blocks (confirmed_blocks min bs) height m)
  apply_unstable_lem a network s min [] i u m height top e k main fits p new =
      (u, apply_unstable-nil s min i u, p)
  apply_unstable_lem a network s min (b ∷ bs) i u m height top e k main fits p new =
      let depth : top - height + 1 ≡ length (b ∷ bs) = omega arith in
      let step =
        apply_unstable-step s min b bs i u height (length (b ∷ bs)) e (omega arith)
          (confirmations_lem s top height main (omega arith) fits ∙ ap returns depth) in
      let (u', done, p') =
        round a network (ltb (length (b ∷ bs)) min) b (confirmed_blocks min bs) u m height
          (apply_unstable s min bs (suc i)) p new
          (λ u1 m1 p1 new1.
            apply_unstable_lem a network s min bs (suc i) u1 m1 (suc height) top (omega arith)
              (omega arith) main fits p1 new1) in
      (u', step ∙ done, p')
