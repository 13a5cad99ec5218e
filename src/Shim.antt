-- ===== src/Shim.antt =====
-- The loop of canister/src/adapter-shim.rs, which carries messages between the canister and the
-- adapter: a round polls for blocks (`poll`), then hands at most one transaction on (`forward`).
-- The adapter is a function from the block hashes of a request to its answer, and may be another
-- one in each round; a failed call of the canister ends the program, which may be started again.
-- The query `has_outgoing_transaction` and the call after it are one step: the call takes nothing if
-- the queue is empty by then, as if the query had said so.
pub mod Safety
pub mod Delivery
use bitcoin_dip.Base.{
  ℕ, zero, suc, ◌+◌, length, Bool, true, false, Option, none, some, List, [], ◌∷◌, ◌++◌, map, ◌≡◌,
  All, ◌==◌, nat_eq, if◌then◌else◌, Outcome, returns, ◌>>=◌,
}
use bitcoin_dip.Bitcoin.{Bitcoin, Bytes, Block, Height}
use bitcoin_dip.Types.{SendTransactionRequest}
use bitcoin_dip.Store.Insert.{IsPlain}
use bitcoin_dip.Proto
use bitcoin_dip.Canister.{
  Canister, Result, ok, err, init, send_transaction, has_outgoing_transaction,
  get_outgoing_transaction, get_successors_request, get_successors_response,
}
use bitcoin_dip.Canister.Queue.{readable, taken}
use bitcoin_dip.Canister.Sync.{IsPlainMessage}

-- The blocks of a response, or an error, of which nothing is kept: the loop only prints it.
abbrev pub Answer : Type 0
Answer = Result (List Proto.Block) (Unit {0})

-- The call `get_successors` of the adapter.
abbrev pub Adapter : Type 0
Adapter = List Bytes → Answer

-- The variables of the loop.
pub record Shim : Type 0 where
  pub current_height : Height
  pub first : Bool

abbrev pub start_shim : Shim
start_shim = record { current_height = 1; first = true }

-- The loop compares the height that the canister returned with the one it knows.
unfoldable pub learn : Shim → Height → Shim
learn s new_height =
    if s.current_height == new_height
    then record s { first = false }
    else record { current_height = new_height; first = true }

-- The second half of a round: the transaction for the adapter, if one is queued.
unfoldable pub forward : Canister → Option Bytes × Canister
forward c = if has_outgoing_transaction c then get_outgoing_transaction c else (none, c)

-- A transaction that was taken out of the queue: the adapter has it, or the call of the adapter
-- failed and the loop dropped it, or a user took it.
pub data Handed : Type 0 where
  delivered dropped to_user : Bytes → Handed

-- The adapter's answer to `send_transaction`, or an error, which the loop only prints.
abbrev pub sent : Result (Unit {0}) (Unit {0}) → Bytes → Handed
sent (ok _) raw_tx = delivered raw_tx
sent (err failure) raw_tx = dropped raw_tx

-- The canister and the loop, with the transactions accepted from users and those taken out of the
-- queue. `informed` says that the canister was given no blocks but by the loop, since the loop
-- started with it or last heard of its height.
pub record World : Type 0 where
  pub canister : Canister
  pub shim : Shim
  pub accepted : List Bytes
  pub handed : List Handed
  pub informed : Bool

abbrev pub after_forward : World → Result (Unit {0}) (Unit {0}) → World
after_forward w response = record w {
  canister = (forward w.canister).1;
  handed = w.handed ++ map (sent response) (taken (forward w.canister).0);
}

-- A user calls `get_outgoing_transaction`.
abbrev pub after_take : World → World
after_take w = record w {
  canister = (get_outgoing_transaction w.canister).1;
  handed = w.handed ++ map to_user (taken (get_outgoing_transaction w.canister).0);
}

-- The loop knows the height after an answer; after a failed call it knows what it knew.
abbrev pub heard : Bool → Answer → Bool
heard informed (ok blocks) = true
heard informed (err failure) = informed

module _ ⦃lib : Bitcoin⦄ where
  -- What the loop does with the adapter's answer.
  unfoldable pub receive : Shim → Canister → Answer → Outcome (Shim × Canister)
  receive s c (err failure) = returns (s, c)
  receive s c (ok blocks) = do
    (new_height, c') ← get_successors_response c blocks
    returns (learn s new_height, c')

  -- The first half of a round, with the canister's request.
  unfoldable pub poll : Shim → Canister → Adapter → Outcome (Shim × Canister)
  poll s c adapter = receive s c (adapter (get_successors_request c))

  abbrev pub after_send : World → SendTransactionRequest → World
  after_send w request = record w {
    canister = (send_transaction w.canister request).1;
    accepted =
        w.accepted ++ readable (lib.transaction_from_bytes request.transaction) request.transaction;
  }

  -- What the adapter sent holds no duplicate transaction.
  abbrev pub IsPlainAnswer : Answer → Type 0
  IsPlainAnswer (ok blocks) = All IsPlainMessage blocks
  IsPlainAnswer (err failure) = Unit {0}

  -- A call of a user that changes the canister, a half of a round, or a new start of the loop.
  pub data Step (w : World) : World → Type 0 where
    sends : (request : SendTransactionRequest) → Step w (after_send w request)
    takes : Step w (after_take w)
    responds :
        (blocks : List Proto.Block) (height : Height) (c : Canister)
        → All IsPlainMessage blocks
        → get_successors_response w.canister blocks ≡ returns (height, c)
        → Step w (record w { canister = c; informed = false })
    polls :
        (adapter : Adapter) (s : Shim) (c : Canister)
        → IsPlainAnswer (adapter (get_successors_request w.canister))
        → poll w.shim w.canister adapter ≡ returns (s, c)
        → Step w (record w {
          shim = s;
          canister = c;
          informed = heard w.informed (adapter (get_successors_request w.canister));
        })
    forwards : (response : Result (Unit {0}) (Unit {0})) → Step w (after_forward w response)
    restarts : Step w (record w { shim = start_shim; informed = false })

  -- The worlds after the canister was installed.
  pub data Reach : World → Type 0 where
    starts :
        (genesis : Block) (c : Canister)
        → IsPlain genesis
        → init genesis ≡ returns c
        → Reach (record {
          canister = c;
          shim = start_shim;
          accepted = [];
          handed = [];
          informed = true;
        })
    later : {w v : World} → Reach w → Step w v → Reach v

  pub data Run (u : World) : World → Type 0 where
    done : Run u u
    follows : {w v : World} → Step w v → Run u v → Run u w

  -- How many steps of a run are second halves of a round.
  abbrev pub rounds : {u w : World} → Run u w → ℕ
  rounds done = 0
  rounds (follows (forwards response) run) = suc (rounds run)
  rounds (follows (sends request) run) = rounds run
  rounds (follows takes run) = rounds run
  rounds (follows (responds blocks height c plain e) run) = rounds run
  rounds (follows (polls adapter s c plain e) run) = rounds run
  rounds (follows restarts run) = rounds run

  -- How many transactions are taken out of the queue in a run by a second half of a round whose
  -- call of the adapter fails, or by a user.
  abbrev pub losses : {u w : World} → Run u w → ℕ
  losses done = 0
  losses (follows (forwards (ok _)) run) = losses run
  losses {u} {w} (follows (forwards (err failure)) run) =
      length (taken (forward w.canister).0) + losses run
  losses {u} {w} (follows takes run) =
      length (taken (get_outgoing_transaction w.canister).0) + losses run
  losses (follows (sends request) run) = losses run
  losses (follows (responds blocks height c plain e) run) = losses run
  losses (follows (polls adapter s c plain e) run) = losses run
  losses (follows restarts run) = losses run
