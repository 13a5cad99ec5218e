-- ===== src/Store.antt =====
-- `struct State` of canister/src/store.rs.
pub mod Insert
pub mod Invariant
pub mod Ledger
pub mod Partial
pub mod Unstable
pub mod Answer
pub mod Stable
pub mod History
pub mod Whole
pub mod Ready
pub mod Progress
pub mod Supply
use bitcoin_dip.Base.{
  ℕ, suc, ◌+◌, ◌%◌, ◌^◌, String, true, false, Option, none, some, List, [], ◌∷◌, length, leb, ltb,
  ◌==◌, nat_eq, if◌then◌else◌, Outcome, returns, panics, invalid_block_hash, checked_sub,
  checked_add32, checked_add64, ◌>>=◌,
}
use bitcoin_dip.Bitcoin.{
  Network, OutPoint, TxOut, Transaction, Block, BlockHash, Height, Satoshi, Bitcoin, block_hash,
  prev_hash,
}
use bitcoin_dip.BlockForest.{BlockForest}
use bitcoin_dip.BlockForest
use bitcoin_dip.UtxoSet.{UtxoSet, insert_tx, into_set}
use bitcoin_dip.UtxoSet

pub record State : Type 0 where
  pub height : Height
  pub latest_stable_block_hash : BlockHash
  pub utxos : UtxoSet
  pub unstable_blocks : BlockForest

-- An element of the `HashSet` that `get_utxos` returns.
abbrev pub UtxoEntry : Type 0
UtxoEntry = OutPoint × TxOut × Height

module _ ⦃lib : Bitcoin⦄ where
  -- The loops that insert each transaction of a block.
  unfoldable pub insert_txs : UtxoSet → List Transaction → Height → Outcome UtxoSet
  insert_txs utxos [] height = returns utxos
  insert_txs utxos (tx ∷ txs) height = do
    utxos' ← insert_tx utxos tx height
    insert_txs utxos' txs height

  -- `State::new`
  unfoldable pub new : ℕ → Network → Block → Outcome State
  new delta network genesis_block = do
    utxos ← insert_txs (UtxoSet.new true network) genesis_block.txdata 1
    returns (record {
      height = 1;
      latest_stable_block_hash = block_hash genesis_block;
      utxos = utxos;
      unstable_blocks = BlockForest.new delta;
    })

  abbrev pub current_chain : State → Outcome (List Block)
  current_chain s = BlockForest.get_current_chain s.unstable_blocks s.latest_stable_block_hash

  unfoldable pub main_chain_height : State → Outcome Height
  main_chain_height s = do chain ← current_chain s; checked_add32 (length chain % 2 ^ 32) s.height

  -- `main_chain_height() - height + 1`
  abbrev pub confirmations : State → Height → Outcome ℕ
  confirmations s height = do
    main ← main_chain_height s
    above ← checked_sub main height
    checked_add32 above 1

  -- The loop of `get_utxos` over the current chain; `i` is the counter of `enumerate`.
  unfoldable pub apply_unstable : State → ℕ → List Block → ℕ → UtxoSet → Outcome UtxoSet
  apply_unstable s min_confirmations [] i utxos = returns utxos
  apply_unstable s min_confirmations (b ∷ bs) i utxos = do
    above ← checked_add32 s.height (i % 2 ^ 32)
    block_height ← checked_add32 above 1
    n ← confirmations s block_height
    elim (ltb n min_confirmations) [
      | true ↦ returns utxos
      | false ↦ do
        utxos' ← insert_txs utxos b.txdata block_height
        apply_unstable s min_confirmations bs (suc i) utxos'
    ]

  -- The filter at the end of `get_utxos`.
  unfoldable pub filter_confirmed : State → ℕ → List UtxoEntry → Outcome (List UtxoEntry)
  filter_confirmed s min_confirmations [] = returns []
  filter_confirmed s min_confirmations (u ∷ us) = do
    n ← confirmations s u.2
    rest ← filter_confirmed s min_confirmations us
    returns (if leb min_confirmations n then u ∷ rest else rest)

  unfoldable pub get_utxos : State → String → ℕ → Outcome (List UtxoEntry)
  get_utxos s address min_confirmations = do
    address_utxos ← UtxoSet.get_utxos s.utxos address
    chain ← current_chain s
    all_utxos ← apply_unstable s min_confirmations chain 0 address_utxos
    utxos ← UtxoSet.get_utxos all_utxos address
    filter_confirmed s min_confirmations (into_set utxos)

  -- The loop of `get_balance`.
  unfoldable pub sum_values : List UtxoEntry → Satoshi → Outcome Satoshi
  sum_values [] balance = returns balance
  sum_values (u ∷ us) balance = do
    balance' ← checked_add64 balance u.1.value
    sum_values us balance'

  unfoldable pub get_balance : State → String → ℕ → Outcome Satoshi
  get_balance s address min_confirmations = do
    utxos ← get_utxos s address min_confirmations
    sum_values utxos 0

  -- A block that became stable is moved into the UTXOs.
  unfoldable pub stabilize : State → BlockForest → Block → Outcome State
  stabilize s unstable b =
      if prev_hash b == s.latest_stable_block_hash
      then (do
        utxos ← insert_txs s.utxos b.txdata s.height
        height ← checked_add32 s.height 1
        returns (record {
          height = height;
          latest_stable_block_hash = block_hash b;
          utxos = utxos;
          unstable_blocks = unstable;
        }))
      else panics invalid_block_hash

  unfoldable pub insert_block : State → Block → Outcome State
  unfolding stabilize
  insert_block s block = do
    pushed ← BlockForest.push s.unstable_blocks block
    (new_stable_block, unstable) ← BlockForest.pop pushed s.latest_stable_block_hash
    elim new_stable_block [
      | none ↦ returns (record s { unstable_blocks = unstable })
      | some b ↦ stabilize s unstable b
    ]

  -- The loop of `process_chain`.
  unfoldable pub insert_blocks : State → List Block → Outcome State
  insert_blocks s [] = returns s
  insert_blocks s (b ∷ bs) = do s' ← insert_block s b; insert_blocks s' bs

  abbrev pub get_unstable_blocks : State → List Block
  get_unstable_blocks s = BlockForest.get_blocks s.unstable_blocks

  abbrev pub anchor_hash : State → BlockHash
  anchor_hash s = s.latest_stable_block_hash
