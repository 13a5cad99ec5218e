-- ===== src/Examples/Loop.antt =====
-- The theorems on the loop of the adapter's shim, at a run of it.
use bitcoin_dip.Base.{true, ◌≡◌, refl, [], ◌∷◌, returns}
use bitcoin_dip.Bitcoin.{Bytes, regtest}
use bitcoin_dip.BlockForest
use bitcoin_dip.BlockTree.{tree, nil, depth, blockchains}
use bitcoin_dip.Store.{State, insert_block, main_chain_height}
use bitcoin_dip.Proto.RoundTrip.{from_proto-to_proto}
use bitcoin_dip.Proto.Blocks
use bitcoin_dip.Types.{SendTransactionRequest}
use bitcoin_dip.Canister.{
  Canister, ok, err, init, send_transaction, get_successors_response, insert_messages,
}
use bitcoin_dip.Shim.{
  World, Adapter, start_shim, after_send, after_forward, poll, receive, learn, sends, polls,
  forwards, Reach, starts, later, Run, done, follows,
}
use bitcoin_dip.Shim.Safety.{IsSound, Reach-IsSound}
use bitcoin_dip.Examples.{toy}
use bitcoin_dip.Examples.Store.{genesis, second, genesis-IsPlain}
use bitcoin_dip.Examples.Wire.{toy-HashBytesAgree, second-IsPlainMessage}
use bitcoin_dip.Examples.Ledger.{opened, new-opened}

abbrev pub canister : Canister
canister = record { state = opened 1 regtest; outgoing_transactions = [] }

abbrev opening : World
opening = record {
  canister = canister;
  shim = start_shim;
  accepted = [];
  handed = [];
  informed = true;
}

abbrev request : Bytes → SendTransactionRequest
request bytes = record { transaction = bytes }

-- Two users send a transaction each.
abbrev queued : World
queued = after_send (after_send opening (request (8 ∷ []))) (request (9 ∷ []))

-- An adapter that has the second block.
abbrev adapter : Adapter
adapter hashes = ok (Blocks.to_proto second ∷ [])

init-canister : init genesis ≡ returns canister
unfolding init
init-canister = rw (new-opened 1 regtest) refl

queued-Reach : Reach queued
queued-Reach =
    later (later (starts genesis canister genesis-IsPlain init-canister) (sends (request (8 ∷ []))))
      (sends (request (9 ∷ [])))

-- The state with the second block, which waits for a successor.
abbrev moved : State
moved = record (opened 1 regtest) {
  unstable_blocks = record { delta = 1; trees = tree second nil ∷ [] };
}

insert-moved : insert_block (opened 1 regtest) second ≡ returns moved
unfolding insert_block BlockForest.push BlockForest.pop depth
insert-moved = refl

abbrev polled : World
polled = record queued {
  canister = record queued.canister { state = moved };
  shim = record { current_height = 2; first = true };
}

poll-moved : poll queued.shim queued.canister adapter ≡ returns (polled.shim, polled.canister)
unfolding poll receive learn send_transaction get_successors_response insert_messages
    main_chain_height BlockForest.get_current_chain blockchains
poll-moved = rw (from_proto-to_proto toy-HashBytesAgree second, insert-moved) refl

polled-Reach : Reach polled
polled-Reach =
    later queued-Reach
      (polls adapter polled.shim polled.canister (second-IsPlainMessage, tt) poll-moved)

Reach-IsSound_example : IsSound (after_forward polled (err tt))
Reach-IsSound_example = Reach-IsSound (later polled-Reach (forwards (err tt)))

-- Two rounds, the first of which fails to reach the adapter, with a new transaction of a user and
-- an answer of the adapter in between.
abbrev asked : World
asked = after_send (after_forward polled (err tt)) (request (7 ∷ []))

abbrev two_rounds : Run (after_forward asked (ok tt)) polled
two_rounds =
    follows (forwards (err tt))
      (follows (sends (request (7 ∷ []))) (follows (forwards (ok tt)) done))
