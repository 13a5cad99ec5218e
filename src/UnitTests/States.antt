-- ===== src/UnitTests/States.antt =====
-- The unit tests of canister/src/store.rs, but for the one that reads a file of blocks.
use bitcoin_dip.Base.{ℕ, zero, suc, ◌+◌, ◌*◌, List, [], ◌∷◌, Outcome, returns, ◌>>=◌}
use bitcoin_dip.Bitcoin.{Bitcoin, Address, Block, Network, bitcoin, regtest, testnet, signet}
use bitcoin_dip.Store.{State, new, insert_block, get_utxos, main_chain_height}
use bitcoin_dip.Proto.States.{to_proto, from_proto}
use bitcoin_dip.TestBuilder.{Mining, build_transaction, coinbase}
use bitcoin_dip.UnitTests.{
  Assertion, assert_eq, for_each, coinbase_to, spend_to, entry, genesis_with, block_with,
}

abbrev pub networks : List Network
networks = bitcoin ∷ regtest ∷ testnet ∷ signet ∷ []

module _ ⦃lib : Bitcoin⦄ ⦃mining : Mining⦄ (random : ℕ → Address) where
  -- The loop of the next test: the rounds that are left, and the number of the random address.
  unfoldable pub extend_chain : ℕ → ℕ → Block → State → Outcome State
  extend_chain zero i block state = returns state
  extend_chain (suc left) i block state = do
    block' ← block_with block (build_transaction coinbase (random i)) (random i)
    state' ← insert_block state block'
    extend_chain left (suc i) block' state'

  abbrev pub to_from_proto : Outcome (List Assertion)
  to_from_proto = do
    block ← genesis_with (build_transaction coinbase (random 0)) (random 0)
    opened ← new 2 bitcoin block
    state ← extend_chain 100 1 block opened
    new_state ← from_proto (to_proto state)
    returns (assert_eq new_state state ∷ [])

  abbrev pub utxos_forks : Outcome (List Assertion)
  utxos_forks = do
    let address_1 = random 0
    let address_2 = random 1
    let address_3 = random 2
    let address_4 = random 3
    let coinbase_tx = coinbase_to address_1
    block_0 ← genesis_with coinbase_tx address_1
    state ← new 2 bitcoin block_0
    let block_0_utxos = entry coinbase_tx address_1 1 ∷ []
    at_start ← get_utxos state address_1 0
    let tx = spend_to coinbase_tx address_2
    block_1 ← block_with block_0 tx address_2
    state ← insert_block state block_1
    received ← get_utxos state address_2 0
    spent ← get_utxos state address_1 0
    let tx' = spend_to coinbase_tx address_3
    block_1_prime ← block_with block_0 tx' address_3
    state ← insert_block state block_1_prime
    contested_2 ← get_utxos state address_2 0
    contested_3 ← get_utxos state address_3 0
    contested_1 ← get_utxos state address_1 0
    let tx'' = spend_to tx' address_4
    block_2_prime ← block_with block_1_prime tx'' address_4
    state ← insert_block state block_2_prime
    final_1 ← get_utxos state address_1 0
    final_2 ← get_utxos state address_2 0
    final_3 ← get_utxos state address_3 0
    final_4 ← get_utxos state address_4 0
    returns (
        assert_eq at_start block_0_utxos
        ∷ assert_eq received (entry tx address_2 2 ∷ [])
        ∷ assert_eq spent []
        ∷ assert_eq contested_2 []
        ∷ assert_eq contested_3 []
        ∷ assert_eq contested_1 block_0_utxos
        ∷ assert_eq final_1 []
        ∷ assert_eq final_2 []
        ∷ assert_eq final_3 []
        ∷ assert_eq final_4 (entry tx'' address_4 3 ∷ [])
        ∷ [])

  abbrev greater_than_chain_height_on : Network → ℕ → Outcome (List Assertion)
  greater_than_chain_height_on network round = do
    let address_1 = random round
    block_0 ← genesis_with (coinbase_to address_1) address_1
    state ← new 1 network block_0
    height ← main_chain_height state
    utxos ← get_utxos state address_1 2
    returns (assert_eq height 1 ∷ assert_eq utxos [] ∷ [])

  abbrev pub get_utxos_min_confirmations_greater_than_chain_height : Outcome (List Assertion)
  get_utxos_min_confirmations_greater_than_chain_height =
      for_each greater_than_chain_height_on networks 0

  abbrev other_addresses_on : Network → ℕ → Outcome (List Assertion)
  other_addresses_on network round = do
    let address_1 = random (2 * round)
    let address_2 = random (2 * round + 1)
    let coinbase_tx = coinbase_to address_1
    block_0 ← genesis_with coinbase_tx address_1
    let tx = spend_to coinbase_tx address_2
    block_1 ← block_with block_0 tx address_2
    state ← new 2 network block_0
    state ← insert_block state block_1
    utxos ← get_utxos state address_1 0
    returns (assert_eq utxos [] ∷ [])

  abbrev pub get_utxos_does_not_include_other_addresses : Outcome (List Assertion)
  get_utxos_does_not_include_other_addresses = for_each other_addresses_on networks 0
