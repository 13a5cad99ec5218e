-- ===== src/Examples/Ledger.antt =====
-- The theorems on the answers of the state and on saving it, at a state with an unstable block.
use bitcoin_dip.Base.{
  map, length, ◌%◌, ◌^◌, ◌≤◌, All, ℕ, true, ◌≡◌, ◌+◌, refl, some, none, List, [], ◌∷◌, returns,
  arith,
}
use bitcoin_dip.Base.HashMap
use bitcoin_dip.Base.HashMap.{IsMap}
use bitcoin_dip.Bitcoin.{OutPoint, Network, regtest, bitcoin, outpoint_beq, outpoint_eq, block_hash}
use bitcoin_dip.BlockForest.{BlockForest}
use bitcoin_dip.BlockForest
use bitcoin_dip.BlockTree.{tree, nil, depth, blockchains}
use bitcoin_dip.UtxoSet.{
  insert_tx, remove_spent_txs, insert_outputs, insert_outpoint, index_outpoint, is_duplicate,
}
use bitcoin_dip.Store.{State, UtxoEntry, get_utxos, current_chain, insert_block, insert_txs, new}
use bitcoin_dip.Store.Insert.{IsConsistent}
use bitcoin_dip.Store.Invariant.{insert_block-IsConsistent, new-IsConsistent}
use bitcoin_dip.Store.Ledger.{keyed, visible, after_txs, after_blocks}
use bitcoin_dip.Store.Answer.{get_utxos-ledger}
use bitcoin_dip.Store.Stable.{insert_block-applies}
use bitcoin_dip.Types.{GetUtxosRequest}
use bitcoin_dip.Canister.{Canister, ok}
use bitcoin_dip.Canister
use bitcoin_dip.Canister.Answer.{shown, get_utxos-answers}
use bitcoin_dip.Proto.States
use bitcoin_dip.SyncDemo.{load}
use bitcoin_dip.SyncDemo.Resume.{load_saved}
use bitcoin_dip.Examples.{toy, outpoint, pay}
use bitcoin_dip.Examples.Store.{
  genesis, second, started, genesis-IsPlain, second-IsPlain, started-IsConsistent,
}
use bitcoin_dip.Examples.Wire.{toy-HashBytesAgree}

-- The state with the genesis block only.
abbrev pub opened : ℕ → Network → State
opened delta network = record {
  height = 1;
  latest_stable_block_hash = 1;
  utxos = record {
    utxos = (outpoint 11 0, (pay 50 1, 1)) ∷ [];
    network = network;
    address_to_outpoints = ("alice", outpoint 11 0 ∷ []) ∷ [];
    strict = true;
  };
  unstable_blocks = record { delta = delta; trees = [] };
}

-- The second block waits for a successor.
abbrev waiting : State
waiting = record (opened 2 regtest) {
  unstable_blocks = record { delta = 2; trees = tree second nil ∷ [] };
}

pub new-opened :
    (delta : ℕ) (network : Network) → new delta network genesis ≡ returns (opened delta network)
unfolding new insert_txs insert_tx remove_spent_txs insert_outputs insert_outpoint index_outpoint
    is_duplicate outpoint_beq HashMap.get HashMap.insert HashMap.contains_key
new-opened delta network = refl

insert-waiting : insert_block (opened 2 regtest) second ≡ returns waiting
unfolding insert_block BlockForest.push BlockForest.pop depth
insert-waiting = refl

waiting-IsConsistent : IsConsistent waiting
waiting-IsConsistent =
    insert_block-IsConsistent (opened 2 regtest) waiting second
      (new-IsConsistent 2 regtest genesis (opened 2 regtest) genesis-IsPlain (new-opened 2 regtest))
      second-IsPlain insert-waiting

waiting-chain : current_chain waiting ≡ returns (second ∷ [])
unfolding BlockForest.get_current_chain blockchains
waiting-chain = refl

waiting-new : (k : ℕ) → HashMap.get waiting.utxos.utxos (outpoint 12 k) ≡ none
unfolding HashMap.get outpoint_beq
waiting-new k = refl

get_utxos-ledger_example :
    (l : List UtxoEntry) × (get_utxos waiting "alice" 1 ≡ returns l)
    × IsMap (keyed l)
    × ((o : OutPoint)
        → HashMap.get (keyed l) o
          ≡ visible "alice" regtest 2 1
              (after_blocks (second ∷ []) 2 (HashMap.get waiting.utxos.utxos) o))
get_utxos-ledger_example =
    get_utxos-ledger waiting "alice" 1 (second ∷ []) waiting-IsConsistent waiting-chain
      (omega arith) ((omega arith, waiting-new, tt), tt)

first-held : (v : _) × (HashMap.get started.utxos.utxos (outpoint 11 0) ≡ some v)
unfolding HashMap.get outpoint_beq
first-held = ((pay 50 1, 1), refl)

started-new : (k : ℕ) → HashMap.get started.utxos.utxos (outpoint 12 k) ≡ none
unfolding HashMap.get outpoint_beq
started-new k = refl

abbrev pushed : BlockForest
pushed = record { delta = 0; trees = tree second nil ∷ [] }

push-second : BlockForest.push started.unstable_blocks second ≡ returns pushed
unfolding BlockForest.push
push-second = refl

pop-second :
    BlockForest.pop pushed started.latest_stable_block_hash
    ≡ returns (some second, started.unstable_blocks)
unfolding BlockForest.pop depth
pop-second = refl

insert_block-applies_example :
    (s' : State) × (insert_block started second ≡ returns s')
    × (s'.height ≡ started.height + 1)
    × (s'.latest_stable_block_hash ≡ block_hash second)
    × (s'.unstable_blocks ≡ started.unstable_blocks)
    × (HashMap.get s'.utxos.utxos
        ≡ after_txs second.txdata started.height (HashMap.get started.utxos.utxos))
insert_block-applies_example =
    insert_block-applies started second second pushed started.unstable_blocks started-IsConsistent
      push-second pop-second ((omega arith, started-new, λ h. (first-held, tt)), tt) (omega arith)

load_saved_example :
    (s' : State) × (l : List UtxoEntry) × (l' : List UtxoEntry) × (load genesis
        (some (States.to_proto waiting))
      ≡ returns s')
    × IsConsistent s'
    × (get_utxos waiting "alice" 1 ≡ returns l)
    × (get_utxos s' "alice" 1 ≡ returns l')
    × ((o : OutPoint) → HashMap.get (keyed l') o ≡ HashMap.get (keyed l) o)
load_saved_example =
    load_saved toy-HashBytesAgree genesis (opened 6 bitcoin) waiting "alice" 1 (second ∷ [])
      (new-opened 6 bitcoin) waiting-IsConsistent waiting-chain (omega arith)
      ((omega arith, waiting-new, tt), tt)

abbrev canister : Canister
canister = record { state = waiting; outgoing_transactions = [] }

abbrev request : GetUtxosRequest
request = record { address = "alice"; min_confirmations = some 1 }

get_utxos-answers_example :
    (l : List UtxoEntry) × (Canister.get_utxos canister request
      ≡ returns (ok (record { utxos = map (shown 2) l; total_count = length l % 2 ^ 32 })))
    × All (λ e. e.2 ≤ 2) l
    × IsMap (keyed l)
    × ((o : OutPoint)
        → HashMap.get (keyed l) o
          ≡ visible "alice" regtest 2 1
              (after_blocks (second ∷ []) 2 (HashMap.get waiting.utxos.utxos) o))
get_utxos-answers_example =
    get_utxos-answers canister request "alice" (second ∷ []) refl waiting-IsConsistent waiting-chain
      (omega arith) ((omega arith, waiting-new, tt), tt)
