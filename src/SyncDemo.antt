-- ===== src/SyncDemo.antt =====
-- canister/src/sync_demo.rs: a state that is synced with the adapter, queried from a console and
-- saved to a file. A file is the message that its bytes encode, and a command is given parsed.
pub mod Resume
use bitcoin_dip.Base.{
  ℕ, ◌/◌, ◌%◌, String, Option, none, some, List, [], ◌∷◌, ◌++◌, map, Outcome, returns, ◌>>=◌,
}
use bitcoin_dip.Bitcoin.{Bitcoin, Bytes, Block, Satoshi, bitcoin, block_hash, bytes_of_hash}
use bitcoin_dip.Store.{
  State, UtxoEntry, insert_block, main_chain_height, get_unstable_blocks, anchor_hash,
}
use bitcoin_dip.Store
use bitcoin_dip.Proto
use bitcoin_dip.Proto.Blocks
use bitcoin_dip.Proto.States
use bitcoin_dip.Canister.{Result, ok, err}
use bitcoin_dip.Shim.{Answer}

-- `DELTA`
abbrev pub delta : ℕ
delta = 6

-- A line of the console.
pub data Command : Type 0 where
  utxos balance save : String → Command
  other : Command

-- What the console prints, or the file that it writes.
pub data Reply : Type 0 where
  utxo_list : List UtxoEntry → Reply
  bitcoins : ℕ → ℕ → Reply
  file : String → Proto.State → Reply
  nothing : Reply

module _ ⦃lib : Bitcoin⦄ where
  -- The state at the start: a new one, which the state of the file replaces, if one is given.
  unfoldable pub load : Block → Option Proto.State → Outcome State
  load genesis_block state_file = do
    state ← Store.new delta bitcoin genesis_block
    elim state_file [ none ↦ returns state | some decoded_state ↦ States.from_proto decoded_state ]

  -- The hashes that a round asks the adapter with.
  abbrev pub block_hashes : State → List Bytes
  block_hashes s =
      map (λ b. bytes_of_hash (block_hash b)) (get_unstable_blocks s)
      ++ bytes_of_hash (anchor_hash s) ∷ []

  -- The loop over the blocks of a response; the height is computed to be printed.
  unfoldable pub process_blocks : State → List Proto.Block → Outcome State
  process_blocks s [] = returns s
  process_blocks s (m ∷ ms) = do
    block ← Blocks.from_proto m
    s' ← insert_block s block
    height ← main_chain_height s'
    process_blocks s' ms

  -- A round of the first loop.
  unfoldable pub sync : State → Answer → Outcome State
  sync s (err failure) = returns s
  sync s (ok blocks) = process_blocks s blocks

  -- A round of the second loop.
  unfoldable pub reply : State → Command → Outcome Reply
  reply s (utxos address) = do entries ← Store.get_utxos s address 0; returns (utxo_list entries)
  reply s (balance address) = do
    satoshis ← Store.get_balance s address 0
    returns (bitcoins (satoshis / 100_000_000) (satoshis % 100_000_000))
  reply s (save file_name) = returns (file file_name (States.to_proto s))
  reply s other = returns nothing
