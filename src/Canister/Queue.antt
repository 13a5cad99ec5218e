-- ===== src/Canister/Queue.antt =====
-- The queue of outgoing transactions, over sequences of calls.
use bitcoin_dip.Base.{
  ◌≡◌, refl, sym, ap, ◌∙◌, Option, none, some, List, [], ◌∷◌, ◌++◌, append-nil, append_assoc,
  Option-cases, inl, inr,
}
use bitcoin_dip.Bitcoin.{Bitcoin, Bytes, Transaction}
use bitcoin_dip.Types.{SendTransactionRequest}
use bitcoin_dip.Canister.{Canister, send_transaction, get_outgoing_transaction}

-- A call of `send_transaction` or of `get_outgoing_transaction`.
pub data Call : Type 0 where
  send : SendTransactionRequest → Call
  get : Call

abbrev pub taken : Option Bytes → List Bytes
taken none = []
taken (some tx) = tx ∷ []

abbrev pub readable : Option Transaction → Bytes → List Bytes
readable none bytes = []
readable (some tx) bytes = bytes ∷ []

pub get_outgoing_transaction_lem :
    (c : Canister)
    → taken (get_outgoing_transaction c).0 ++ (get_outgoing_transaction c).1.outgoing_transactions
      ≡ c.outgoing_transactions
unfolding get_outgoing_transaction
get_outgoing_transaction_lem c = by_queue c c.outgoing_transactions refl
  where
    by_queue :
        (c : Canister) (q : List Bytes)
        → c.outgoing_transactions ≡ q
        → taken (get_outgoing_transaction c).0
            ++ (get_outgoing_transaction c).1.outgoing_transactions
          ≡ c.outgoing_transactions
    by_queue c [] e = rw e refl
    by_queue c (tx ∷ txs) e = rw e refl

module _ ⦃lib : Bitcoin⦄ where
  abbrev pub after_calls : Canister → List Call → Canister
  after_calls c [] = c
  after_calls c (send request ∷ calls) = after_calls (send_transaction c request).1 calls
  after_calls c (get ∷ calls) = after_calls (get_outgoing_transaction c).1 calls

  -- What the calls of `get_outgoing_transaction` return, in order.
  abbrev pub handed_out : Canister → List Call → List Bytes
  handed_out c [] = []
  handed_out c (send request ∷ calls) = handed_out (send_transaction c request).1 calls
  handed_out c (get ∷ calls) =
      taken (get_outgoing_transaction c).0 ++ handed_out (get_outgoing_transaction c).1 calls

  -- The transactions that are sent and can be read, in order.
  abbrev pub accepted : List Call → List Bytes
  accepted [] = []
  accepted (send request ∷ calls) =
      readable (lib.transaction_from_bytes request.transaction) request.transaction
      ++ accepted calls
  accepted (get ∷ calls) = accepted calls

  pub send_transaction_lem :
      (c : Canister) (request : SendTransactionRequest)
      → (send_transaction c request).1.outgoing_transactions
        ≡ c.outgoing_transactions
          ++ readable (lib.transaction_from_bytes request.transaction) request.transaction
  unfolding send_transaction
  send_transaction_lem c request =
      elim (Option-cases (lib.transaction_from_bytes request.transaction)) [
        | inl e ↦ rw e (rw (send_transaction, e) (sym (append-nil c.outgoing_transactions)))
        | inr (tx, e) ↦ rw e (rw (send_transaction, e) refl)
      ]

  -- Over any sequence of calls, what was handed out and then what is still queued are the queue
  -- before and then the readable transactions that were sent: none is lost, repeated or overtaken.
  pub handed_out-accepted :
      (c : Canister) (calls : List Call)
      → handed_out c calls ++ (after_calls c calls).outgoing_transactions
        ≡ c.outgoing_transactions ++ accepted calls
  handed_out-accepted c [] = sym (append-nil c.outgoing_transactions)
  handed_out-accepted c (send request ∷ calls) =
      handed_out-accepted (send_transaction c request).1 calls
      ∙ (ap (λ q. q ++ accepted calls) (send_transaction_lem c request)
          ∙ append_assoc c.outgoing_transactions _ (accepted calls))
  handed_out-accepted c (get ∷ calls) =
      append_assoc (taken (get_outgoing_transaction c).0) _ _
      ∙ (ap (λ q. taken (get_outgoing_transaction c).0 ++ q)
            (handed_out-accepted (get_outgoing_transaction c).1 calls)
          ∙ (sym (append_assoc (taken (get_outgoing_transaction c).0) _ (accepted calls))
              ∙ ap (λ q. q ++ accepted calls) (get_outgoing_transaction_lem c)))
