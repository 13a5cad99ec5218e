-- ===== src/Canister/Sync.antt =====
-- What `get_successors_response` does to the canister.
use bitcoin_dip.Base.{
  ◌≡◌, sym, ap, ◌∙◌, subst, All, List, [], ◌∷◌, Outcome, returns, panics, >>=-eq-returns,
}
use bitcoin_dip.Bitcoin.{Bitcoin, Block, Height}
use bitcoin_dip.Store.{State, insert_block, main_chain_height}
use bitcoin_dip.Store.Insert.{IsPlain, IsConsistent}
use bitcoin_dip.Store.Invariant.{insert_block-IsConsistent}
use bitcoin_dip.Proto
use bitcoin_dip.Proto.Blocks
use bitcoin_dip.Canister.{Canister, insert_messages, get_successors_response}

module _ ⦃lib : Bitcoin⦄ where
  -- A message that reads as a block reads as one without duplicate transactions.
  abbrev pub IsPlainMessage : Proto.Block → Type 0
  IsPlainMessage m = (b : Block) → Blocks.from_proto m ≡ returns b → IsPlain b

  insert_messages-IsConsistent :
      (ms : List Proto.Block) (s s' : State)
      → IsConsistent s
      → All IsPlainMessage ms
      → insert_messages s ms ≡ returns s'
      → IsConsistent s'
  unfolding insert_messages
  insert_messages-IsConsistent [] s s' c plain e = subst (λ o. Settled o) e c
    where
      Settled : Outcome State → Type 0
      Settled (returns s) = IsConsistent s
      Settled (panics p) = Unit {0}
  insert_messages-IsConsistent (m ∷ ms) s s' c plain e =
      let (b, read, e1) = >>=-eq-returns (Blocks.from_proto m) _ e in
      let (s1, inserted, e2) = >>=-eq-returns (insert_block s b) _ e1 in
      insert_messages-IsConsistent ms s1 s'
        (insert_block-IsConsistent s s1 b c (plain.0 b read) inserted) plain.1 e2

  -- A response of blocks without duplicate transactions that is processed without a panic keeps the
  -- state consistent and the queue of transactions as it was, and the height that is returned is
  -- that of the main chain after it.
  pub get_successors_response_lem :
      (c c' : Canister) (ms : List Proto.Block) (h : Height)
      → IsConsistent c.state
      → All IsPlainMessage ms
      → get_successors_response c ms ≡ returns (h, c')
      → IsConsistent c'.state
        × (main_chain_height c'.state ≡ returns h)
        × (c'.outgoing_transactions ≡ c.outgoing_transactions)
  unfolding get_successors_response
  get_successors_response_lem c c' ms h v plain e =
      let (s, inserted, e1) = >>=-eq-returns (insert_messages c.state ms) _ e in
      let (n, height, e2) = >>=-eq-returns (main_chain_height s) _ e1 in
      let same : record c { state = s } ≡ c' = cc in
      let is_h : n ≡ h = cc in
      (
        subst (λ x. IsConsistent x.state) same
            (insert_messages-IsConsistent ms c.state s v plain inserted),
        subst (λ x. main_chain_height x.state ≡ returns h) same (height ∙ ap returns is_h),
        ap (λ x. x.outgoing_transactions) (sym same),
      )
