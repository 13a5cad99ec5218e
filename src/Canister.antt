-- ===== src/Canister.antt =====
-- The endpoints of canister/src/main.rs over the canister's two cells, `STATE` and
-- `OUTGOING_TRANSACTIONS`. A message that `prost` encodes or decodes is taken in its decoded form.
pub mod Queue
pub mod Wallet
pub mod Sync
pub mod Answer
use bitcoin_dip.Base.{
  ℕ, ◌%◌, ◌^◌, Bool, true, false, Option, none, some, List, [], ◌∷◌, ◌++◌, map, length, Outcome,
  returns, ◌>>=◌, checked_sub, checked_add32,
}
use mathlib.Core.Option
use bitcoin_dip.Bitcoin.{Bitcoin, Bytes, Block, Height, Satoshi, regtest, block_hash, bytes_of_hash}
use bitcoin_dip.Types.{
  Utxo, GetUtxosRequest, GetUtxosResponse, GetUtxosError, GetBalanceRequest, GetBalanceError,
  SendTransactionRequest, SendTransactionError,
}
use bitcoin_dip.Store.{
  State, UtxoEntry, main_chain_height, insert_block, get_unstable_blocks, anchor_hash,
}
use bitcoin_dip.Store
use bitcoin_dip.Proto
use bitcoin_dip.Proto.Blocks

pub data Result {ℓ κ} (A : Type ℓ) (E : Type κ) : Type (ℓ ⊔ κ) where
  ok : A → Result A E
  err : E → Result A E

pub record Canister : Type 0 where
  pub state : State
  pub outgoing_transactions : List Bytes

abbrev pub has_outgoing_transaction : Canister → Bool
has_outgoing_transaction c = elim c.outgoing_transactions [ [] ↦ false | tx ∷ txs ↦ true ]

-- `pop_front`
unfoldable pub get_outgoing_transaction : Canister → Option Bytes × Canister
get_outgoing_transaction c = elim c.outgoing_transactions [
  | [] ↦ (none, c)
  | tx ∷ txs ↦ (some tx, record c { outgoing_transactions = txs })
]

module _ ⦃lib : Bitcoin⦄ where
  -- The initial cells, for the genesis block of the regtest network.
  unfoldable pub init : Block → Outcome Canister
  init genesis_block = do
    state ← Store.new 1 regtest genesis_block
    returns (record { state = state; outgoing_transactions = [] })

  unfoldable pub get_balance :
      Canister → GetBalanceRequest → Outcome (Result Satoshi GetBalanceError)
  get_balance c request = elim (lib.address_from_str request.address) [
    | none ↦ returns (err GetBalanceError.malformed_address)
    | some _ ↦ do
      balance ←
          Store.get_balance c.state request.address (Option.get_or request.min_confirmations 0)
      returns (ok balance)
  ]

  -- The loop of `get_utxos` that writes the answer.
  unfoldable pub write_utxos : Height → List UtxoEntry → Outcome (List Utxo)
  write_utxos main_height [] = returns []
  write_utxos main_height ((outpoint, txout, height) ∷ us) = do
    above ← checked_sub main_height height
    confirmations ← checked_add32 above 1
    rest ← write_utxos main_height us
    returns (
        record {
          outpoint = record { txid = bytes_of_hash outpoint.txid; vout = outpoint.vout };
          value = txout.value;
          height = height;
          confirmations = confirmations;
        }
        ∷ rest)

  -- The rest of `get_utxos`, for an address that can be read.
  unfoldable pub answer_utxos : Canister → GetUtxosRequest → Outcome GetUtxosResponse
  answer_utxos c request = do
    main_height ← main_chain_height c.state
    entries ← Store.get_utxos c.state request.address (Option.get_or request.min_confirmations 0)
    utxos ← write_utxos main_height entries
    returns (record { utxos = utxos; total_count = length utxos % 2 ^ 32 })

  unfoldable pub get_utxos :
      Canister → GetUtxosRequest → Outcome (Result GetUtxosResponse GetUtxosError)
  get_utxos c request = elim (lib.address_from_str request.address) [
    | none ↦ returns (err GetUtxosError.malformed_address)
    | some _ ↦ answer_utxos c request >>= λ response. returns (ok response)
  ]

  unfoldable pub send_transaction :
      Canister → SendTransactionRequest → Result (Unit {0}) SendTransactionError × Canister
  send_transaction c request = elim (lib.transaction_from_bytes request.transaction) [
    | none ↦ (err SendTransactionError.malformed_transaction, c)
    | some _ ↦ (
      ok tt,
      record c { outgoing_transactions = c.outgoing_transactions ++ request.transaction ∷ [] },
    )
  ]

  -- The `block_hashes` of the request.
  abbrev pub get_successors_request : Canister → List Bytes
  get_successors_request c =
      map (λ b. bytes_of_hash (block_hash b)) (get_unstable_blocks c.state)
      ++ bytes_of_hash (anchor_hash c.state) ∷ []

  -- The loop over the blocks of a response.
  unfoldable pub insert_messages : State → List Proto.Block → Outcome State
  insert_messages s [] = returns s
  insert_messages s (m ∷ ms) = do
    block ← Blocks.from_proto m
    s' ← insert_block s block
    insert_messages s' ms

  unfoldable pub get_successors_response : Canister → List Proto.Block → Outcome (Height × Canister)
  get_successors_response c blocks = do
    state ← insert_messages c.state blocks
    height ← main_chain_height state
    returns (height, record c { state = state })
