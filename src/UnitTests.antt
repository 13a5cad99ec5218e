-- ===== src/UnitTests.antt =====
-- The unit tests of the canister, as computations that return their assertions. The random addresses
-- of a test are numbered in the order of their generation.
pub mod Trees
pub mod Chains
pub mod Utxos
pub mod States
pub mod Endpoints
pub mod Messages
use bitcoin_dip.Base.{ℕ, suc, ◌≡◌, List, [], ◌∷◌, ◌++◌, All, Outcome, returns, panics, ◌>>=◌}
use bitcoin_dip.Bitcoin.{Bitcoin, Address, Block, Height, OutPoint, Transaction, txid_of, script_of}
use bitcoin_dip.Store.{UtxoEntry}
use bitcoin_dip.TestBuilder.{
  Mining, build, genesis, with_prev_header, with_transaction, coinbase, with_input, with_output,
  build_transaction,
}

-- `assert_eq!`
pub data Assertion : Type 1 where
  assert_eq : {A : Type 0} → A → A → Assertion

abbrev pub Holds : Assertion → Type 0
Holds (assert_eq left right) = left ≡ right

-- The test ends, and its assertions hold.
abbrev pub Passes : Outcome (List Assertion) → Type 0
Passes (returns assertions) = All Holds assertions
Passes (panics p) = ⊥

-- The loop of a test over its cases, with the assertions of each; the rounds are numbered.
unfoldable pub for_each :
    {A : Type 0} → (A → ℕ → Outcome (List Assertion)) → List A → ℕ → Outcome (List Assertion)
for_each body [] round = returns []
for_each body (x ∷ xs) round = do
  assertions ← body x round
  more ← for_each body xs (suc round)
  returns (assertions ++ more)

module _ ⦃lib : Bitcoin⦄ where
  -- `TransactionBuilder::coinbase().with_output(address, 1000).build()`; no random address is taken.
  abbrev pub coinbase_to : Address → Transaction
  coinbase_to address = build_transaction (with_output coinbase address 1000) address

  -- `TransactionBuilder::with_input(OutPoint::new(tx.txid(), 0)).with_output(address, 1000).build()`
  abbrev pub spend_to : Transaction → Address → Transaction
  spend_to tx address =
      build_transaction
        (with_output (with_input (record { txid = txid_of tx; vout = 0 })) address 1000) address

  -- The expected entry for the output of such a transaction.
  abbrev pub entry : Transaction → Address → Height → UtxoEntry
  entry tx address height = (
    record { txid = txid_of tx; vout = 0 },
    record { value = 1000; script_pubkey = script_of address },
    height,
  )

module _ ⦃lib : Bitcoin⦄ ⦃mining : Mining⦄ where
  -- `BlockBuilder::genesis().with_transaction(tx).build()`; no random address is taken.
  abbrev pub genesis_with : Transaction → Address → Outcome Block
  genesis_with tx address = build (with_transaction genesis tx) address

  -- `BlockBuilder::with_prev_header(block.header).with_transaction(tx).build()`
  abbrev pub block_with : Block → Transaction → Address → Outcome Block
  block_with block tx address = build (with_transaction (with_prev_header block.header) tx) address

module _ ⦃lib : Bitcoin⦄ ⦃mining : Mining⦄ (random : ℕ → Address) where
  -- `BlockBuilder::genesis().build()`
  abbrev pub first_block : ℕ → Outcome Block
  first_block i = build genesis (random i)

  -- `BlockBuilder::with_prev_header(block.header).build()`
  abbrev pub next_block : Block → ℕ → Outcome Block
  next_block block i = build (with_prev_header block.header) (random i)
