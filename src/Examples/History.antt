-- ===== src/Examples/History.antt =====
-- The theorem on the whole history of a state, at three blocks, of which the second became stable.
use bitcoin_dip.Base.{ℕ, ◌≡◌, refl, none, some, List, [], ◌∷◌, returns, arith}
use bitcoin_dip.Base.HashMap
use bitcoin_dip.Base.HashMap.{IsMap}
use bitcoin_dip.Bitcoin.{Block, OutPoint, regtest, outpoint_beq, outpoint_eq, block_hash}
use bitcoin_dip.BlockForest.{BlockForest}
use bitcoin_dip.BlockForest
use bitcoin_dip.BlockTree.{
  BlockTree, tree, nil, cons, depth, blockchains, extend, contains, find_mut,
}
use bitcoin_dip.BlockTree.Linked.{IsChain}
use bitcoin_dip.UtxoSet.{
  insert_tx, remove_spent_txs, remove_inputs, remove_outpoint, unindex, remove_first,
  insert_outputs, insert_outpoint, index_outpoint, is_duplicate,
}
use bitcoin_dip.Store.{
  State, UtxoEntry, get_utxos, current_chain, insert_block, insert_txs, stabilize, new,
  insert_blocks, main_chain_height,
}
use bitcoin_dip.Store.Insert.{IsPlain}
use bitcoin_dip.Store.Ledger.{keyed, visible, after_txs, after_blocks}
use bitcoin_dip.Store.History.{Inserts, finished, keeps, stabilizes}
use bitcoin_dip.Store.Whole.{no_utxos, get_utxos-whole}
use bitcoin_dip.Store.Progress.{insert_blocks-follows}
use bitcoin_dip.Examples.{toy, block, outpoint, pay, coinbase}
use bitcoin_dip.Examples.Store.{genesis, second, advanced, genesis-IsPlain, second-IsPlain}
use bitcoin_dip.Examples.Ledger.{opened, new-opened}

abbrev third : Block
third = block 3 2 (coinbase 13 ∷ [])

third-IsPlain : IsPlain third
unfolding is_duplicate
third-IsPlain = (refl, tt)

abbrev forest : List BlockTree → BlockForest
forest trees = record { delta = 1; trees = trees }

-- The second block, and the third one on top of it.
abbrev one : BlockForest
one = forest (tree second nil ∷ [])

abbrev two : BlockForest
two = forest (tree second (cons (tree third nil) nil) ∷ [])

abbrev left : BlockForest
left = forest (tree third nil ∷ [])

abbrev early : State
early = record (opened 1 regtest) { unstable_blocks = one }

abbrev late : State
late = record advanced { unstable_blocks = left }

push-second : BlockForest.push (forest []) second ≡ returns one
unfolding BlockForest.push
push-second = refl

pop-one : BlockForest.pop one 1 ≡ returns (none, one)
unfolding BlockForest.pop depth
pop-one = refl

push-third : BlockForest.push one third ≡ returns two
unfolding BlockForest.push extend contains find_mut
push-third = refl

pop-two : BlockForest.pop two 1 ≡ returns (some second, left)
unfolding BlockForest.pop depth
pop-two = refl

insert-early : insert_block (opened 1 regtest) second ≡ returns early
unfolding insert_block BlockForest.push BlockForest.pop depth
insert-early = refl

insert-late : insert_block early third ≡ returns late
unfolding insert_block stabilize insert_txs insert_tx remove_spent_txs remove_inputs remove_outpoint
    unindex remove_first insert_outputs insert_outpoint index_outpoint is_duplicate outpoint_beq
    HashMap.get HashMap.insert HashMap.remove HashMap.contains_key BlockForest.push BlockForest.pop
    depth extend contains find_mut
insert-late = refl

history : Inserts (opened 1 regtest) (second ∷ third ∷ []) (second ∷ []) late
history =
    keeps one one push-second pop-one insert-early
      (stabilizes two left push-third pop-two insert-late finished)

late-chain : current_chain late ≡ returns (third ∷ [])
unfolding BlockForest.get_current_chain blockchains
late-chain = refl

second-new : (k : ℕ) → after_txs genesis.txdata 1 no_utxos (outpoint 12 k) ≡ none
unfolding outpoint_beq
second-new k = refl

third-new :
    (k : ℕ)
    → after_blocks (second ∷ []) 1 (after_txs genesis.txdata 1 no_utxos) (outpoint 13 k) ≡ none
unfolding outpoint_beq
third-new k = refl

get_utxos-whole_example :
    IsChain (block_hash genesis) (second ∷ third ∷ [])
    × (l : List UtxoEntry) × (get_utxos late "alice" 1 ≡ returns l)
    × IsMap (keyed l)
    × ((o : OutPoint)
        → HashMap.get (keyed l) o
          ≡ visible "alice" regtest 3 1 (
              after_blocks
                (third ∷ [])
                3
                (after_blocks (second ∷ []) 1 (after_txs genesis.txdata 1 no_utxos))
                o))
get_utxos-whole_example =
    get_utxos-whole 1 regtest genesis (second ∷ third ∷ []) (second ∷ []) (opened 1 regtest) late
      "alice" 1 (third ∷ []) genesis-IsPlain (omega arith, (λ k. refl), tt) (new-opened 1 regtest)
      (second-IsPlain, (third-IsPlain, tt)) ((omega arith, second-new, tt), tt) history late-chain
      (omega arith) ((omega arith, third-new, tt), tt)

second-held : (v : _) × (after_txs genesis.txdata 1 no_utxos (outpoint 11 0) ≡ some v)
unfolding outpoint_beq
second-held = ((pay 50 1, 1), refl)

insert_blocks-follows_example :
    (s0 s : State) × (new 1 regtest genesis ≡ returns s0)
    × (insert_blocks s0 (second ∷ third ∷ []) ≡ returns s)
    × (s.height ≡ 2)
    × (HashMap.get s.utxos.utxos
        ≡ after_blocks (second ∷ []) 1 (after_txs genesis.txdata 1 no_utxos))
    × (current_chain s ≡ returns (third ∷ []))
    × (main_chain_height s ≡ returns 3)
insert_blocks-follows_example =
    insert_blocks-follows 1 regtest genesis (second ∷ third ∷ []) genesis-IsPlain
      (second-IsPlain, (third-IsPlain, tt)) (refl, (refl, tt)) (refl, (refl, tt))
      ((omega arith, (λ k. refl), λ h. absurd cc), tt)
      (((omega arith, second-new, λ h. (second-held, tt)), tt), tt) (omega arith)
