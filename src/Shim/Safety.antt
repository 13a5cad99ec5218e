-- ===== src/Shim/Safety.antt =====
-- What holds of the canister and the loop in every reachable state.
use mathlib.Core.List.{map-append}
use bitcoin_dip.Base.{
  ◌≡◌, refl, sym, ap, subst, ◌∙◌, inl, inr, Bool, true, false, Bool-cases, Option, none, some, [],
  ◌∷◌, map, ◌++◌, append_assoc, ◌==◌, nat_eq, nat_beq_iff, returns, >>=-eq-returns, arith,
}
use bitcoin_dip.Bitcoin.{Bitcoin, Bytes, Block, Height, regtest, block_hash}
use bitcoin_dip.BlockForest
use bitcoin_dip.Types.{SendTransactionRequest}
use bitcoin_dip.Store.{State, main_chain_height}
use bitcoin_dip.Store
use bitcoin_dip.Store.Insert.{IsPlain, IsConsistent}
use bitcoin_dip.Store.Invariant.{new-IsConsistent}
use bitcoin_dip.Canister.{
  Canister, Result, ok, err, init, send_transaction, get_outgoing_transaction,
  get_successors_response, insert_messages,
}
use bitcoin_dip.Canister.Queue.{taken, readable, get_outgoing_transaction_lem, send_transaction_lem}
use bitcoin_dip.Canister.Sync.{get_successors_response_lem}
use bitcoin_dip.Shim.{
  Shim, World, Answer, Handed, delivered, dropped, to_user, sent, heard, start_shim, learn, forward,
  receive, poll, IsPlainAnswer, Step, sends, takes, responds, polls, forwards, restarts, Reach,
  starts, later,
}

abbrev pub bytes_of : Handed → Bytes
bytes_of (delivered raw_tx) = raw_tx
bytes_of (dropped raw_tx) = raw_tx
bytes_of (to_user raw_tx) = raw_tx

pub bytes_of-sent :
    (response : Result (Unit {0}) (Unit {0})) (raw_tx : Bytes)
    → bytes_of (sent response raw_tx) ≡ raw_tx
bytes_of-sent (ok _) raw_tx = refl
bytes_of-sent (err failure) raw_tx = refl

bytes_of-taken :
    (how : Bytes → Handed)
    → ((raw_tx : Bytes) → bytes_of (how raw_tx) ≡ raw_tx)
    → (r : Option Bytes) → map bytes_of (map how (taken r)) ≡ taken r
bytes_of-taken how same none = refl
bytes_of-taken how same (some raw_tx) = ap (λ x. x ∷ []) (same raw_tx)

module _ ⦃lib : Bitcoin⦄ where
  -- The loop knows the height of the canister's main chain, if it is informed.
  abbrev InStep : Bool → Canister → Shim → Type 0
  InStep true c s = main_chain_height c.state ≡ returns s.current_height
  InStep false c s = Unit {0}

  -- The canister is consistent, the loop knows the height of its main chain while it is informed,
  -- and the transactions that were accepted are those taken out of the queue and then those queued.
  pub record IsSound (w : World) : Type 0 where
    pub consistent : IsConsistent w.canister.state
    pub in_step : InStep w.informed w.canister w.shim
    pub in_order : map bytes_of w.handed ++ w.canister.outgoing_transactions ≡ w.accepted

  -- The query makes no difference.
  pub forward_lem : (c : Canister) → forward c ≡ get_outgoing_transaction c
  unfolding forward get_outgoing_transaction
  forward_lem c = ground arith

  get-state : (c : Canister) → (get_outgoing_transaction c).1.state ≡ c.state
  unfolding get_outgoing_transaction
  get-state c = ground arith

  send_transaction-state :
      (c : Canister) (request : SendTransactionRequest)
      → (send_transaction c request).1.state ≡ c.state
  unfolding send_transaction
  send_transaction-state c request = ground arith

  learn-height : (s : Shim) (n : Height) → (learn s n).current_height ≡ n
  unfolding learn
  learn-height s n = elim (Bool-cases (s.current_height == n)) [
    | inl same ↦ rw same ((nat_beq_iff s.current_height n).0 same)
    | inr differs ↦ rw differs refl
  ]

  -- A poll leaves the queue alone.
  pub receive-queue :
      (s s' : Shim) (c c' : Canister) (answer : Answer)
      → receive s c answer ≡ returns (s', c')
      → c'.outgoing_transactions ≡ c.outgoing_transactions
  unfolding receive get_successors_response
  receive-queue s s' c c' (err failure) e =
      let same : c ≡ c' = cc in ap (λ x. x.outgoing_transactions) (sym same)
  receive-queue s s' c c' (ok blocks) e =
      let (r, answered, e1) = >>=-eq-returns (get_successors_response c blocks) _ e in
      let (state, _, e2) = >>=-eq-returns (insert_messages c.state blocks) _ answered in
      let (height, _, e3) = >>=-eq-returns (main_chain_height state) _ e2 in
      let first : record c { state = state } ≡ r.1 = cc in
      let second : r.1 ≡ c' = cc in ap (λ x. x.outgoing_transactions) (sym (first ∙ second))

  -- A poll ends with the height that the canister returned, if it was answered.
  receive_lem :
      (informed : Bool) (s s' : Shim) (c c' : Canister) (answer : Answer)
      → IsPlainAnswer answer
      → IsConsistent c.state
      → InStep informed c s
      → receive s c answer ≡ returns (s', c')
      → IsConsistent c'.state × InStep (heard informed answer) c' s'
  unfolding receive
  receive_lem informed s s' c c' (err failure) plain v main e =
      let same_shim : s ≡ s' = cc in
      let same : c ≡ c' = cc in
      (
        subst (λ x. IsConsistent x.state) same v,
        subst (λ x. InStep informed c' x) same_shim (subst (λ x. InStep informed x s) same main),
      )
  receive_lem informed s s' c c' (ok blocks) plain v main e =
      let (r, answered, e1) = >>=-eq-returns (get_successors_response c blocks) _ e in
      let (v1, main1, _) = get_successors_response_lem c r.1 blocks r.0 v plain answered in
      let learnt : learn s r.0 ≡ s' = cc in
      let same : r.1 ≡ c' = cc in
      (
        subst (λ x. IsConsistent x.state) same v1,
        subst (λ x. main_chain_height x.state ≡ returns s'.current_height) same
            (main1 ∙ ap returns (sym (learn-height s r.0) ∙ ap (λ x. x.current_height) learnt)),
      )

  InStep-state :
      (informed : Bool) (c c' : Canister) (s : Shim)
      → c'.state ≡ c.state
      → InStep informed c s
      → InStep informed c' s
  InStep-state true c c' s e h = rw e h
  InStep-state false c c' s e h = tt

  -- A transaction that is taken out of the queue, if there is one.
  handed_one :
      (w : World) (how : Bytes → Handed) (r : Option Bytes × Canister)
      → r ≡ get_outgoing_transaction w.canister
      → ((raw_tx : Bytes) → bytes_of (how raw_tx) ≡ raw_tx)
      → IsSound w
      → IsSound (record w { canister = r.1; handed = w.handed ++ map how (taken r.0) })
  handed_one w how r e same h =
      let c = w.canister in
      let state : r.1.state ≡ c.state = ap (λ x. x.1.state) e ∙ get-state c in
      let queue : taken r.0 ++ r.1.outgoing_transactions ≡ c.outgoing_transactions =
        ap (λ x. taken x.0 ++ x.1.outgoing_transactions) e ∙ get_outgoing_transaction_lem c in
      record {
        consistent = rw state h.consistent;
        in_step = InStep-state w.informed c r.1 w.shim state h.in_step;
        in_order =
            ap (λ l. l ++ r.1.outgoing_transactions)
              (map-append bytes_of w.handed (map how (taken r.0))
                ∙ ap (λ l. map bytes_of w.handed ++ l) (bytes_of-taken how same r.0))
            ∙ (append_assoc (map bytes_of w.handed) (taken r.0) r.1.outgoing_transactions
                ∙ (ap (λ q. map bytes_of w.handed ++ q) queue ∙ h.in_order));
      }

  Step-IsSound : {w v : World} → Step w v → IsSound w → IsSound v
  unfolding poll
  Step-IsSound {w} (sends request) h =
      let bytes = request.transaction in
      let state = send_transaction-state w.canister request in
      record {
        consistent = rw state h.consistent;
        in_step = InStep-state w.informed w.canister _ w.shim state h.in_step;
        in_order =
            ap (λ q. map bytes_of w.handed ++ q) (send_transaction_lem w.canister request)
            ∙ (sym (append_assoc (map bytes_of w.handed) w.canister.outgoing_transactions _)
                ∙ ap (λ q. q ++ readable (lib.transaction_from_bytes bytes) bytes) h.in_order);
      }
  Step-IsSound {w} takes h =
      handed_one w to_user (get_outgoing_transaction w.canister) refl (λ raw_tx. refl) h
  Step-IsSound {w} (responds blocks height c plain e) h =
      let (v, _, same) =
        get_successors_response_lem w.canister c blocks height h.consistent plain e in
      record {
        consistent = v;
        in_step = tt;
        in_order = ap (λ q. map bytes_of w.handed ++ q) same ∙ h.in_order;
      }
  Step-IsSound {w} (polls adapter s c plain e) h =
      let (v, main) =
        receive_lem w.informed w.shim s w.canister c _ plain h.consistent h.in_step e in
      let same = receive-queue w.shim s w.canister c _ e in
      record {
        consistent = v;
        in_step = main;
        in_order = ap (λ q. map bytes_of w.handed ++ q) same ∙ h.in_order;
      }
  Step-IsSound {w} (forwards response) h =
      handed_one w (sent response) (forward w.canister) (forward_lem w.canister)
        (bytes_of-sent response) h
  Step-IsSound {w} restarts h = record {
    consistent = h.consistent;
    in_step = tt;
    in_order = h.in_order;
  }

  -- With no unstable block the main chain ends at the genesis block.
  new_height :
      (genesis : Block) (s : State)
      → Store.new 1 regtest genesis ≡ returns s
      → main_chain_height s ≡ returns 1
  unfolding Store.new main_chain_height BlockForest.get_current_chain
  new_height genesis s e =
      let (u, inserted, made) = >>=-eq-returns (Store.insert_txs _ genesis.txdata 1) _ e in
      let same : record {
        height = 1;
        latest_stable_block_hash = block_hash genesis;
        utxos = u;
        unstable_blocks = BlockForest.new 1;
      }
          ≡ s =
        cc in
      subst (λ x. main_chain_height x ≡ returns 1) same refl

  init-IsSound :
      (genesis : Block) (c : Canister)
      → IsPlain genesis
      → init genesis ≡ returns c
      → IsSound
          (record { canister = c; shim = start_shim; accepted = []; handed = []; informed = true })
  unfolding init
  init-IsSound genesis c plain e =
      let (s, made, e1) = >>=-eq-returns (Store.new 1 regtest genesis) _ e in
      let same : record { state = s; outgoing_transactions = [] } ≡ c = cc in
      record {
        consistent =
            subst (λ x. IsConsistent x.state) same
              (new-IsConsistent 1 regtest genesis s plain made);
        in_step =
            subst (λ x. main_chain_height x.state ≡ returns 1) same (new_height genesis s made);
        in_order = ap (λ x. x.outgoing_transactions) (sym same);
      }

  -- From the installation of the canister on, with a genesis block that holds no duplicate
  -- transaction, whatever transactions users send and take out of the queue, whatever blocks the
  -- adapter or users give that hold no duplicate transaction, whichever calls of the adapter fail
  -- and whenever the loop is started again: the canister is consistent; the loop knows the height of
  -- the canister's main chain, unless it started after the canister, or a user gave blocks, and it
  -- got no answer since; and the transactions accepted from users are those taken out of the queue,
  -- delivered or not, and then those still queued, in order.
  pub Reach-IsSound : {w : World} → Reach w → IsSound w
  Reach-IsSound (starts genesis c plain e) = init-IsSound genesis c plain e
  Reach-IsSound (later r step) = Step-IsSound step (Reach-IsSound r)
