-- ===== src/UnitTests/Endpoints.antt =====
-- The unit tests of canister/src/main.rs, but for the one of the candid interface.
use bitcoin_dip.Base.{ℕ, ◌+◌, ◌*◌, Option, none, some, List, [], ◌∷◌, ◌++◌, Outcome, returns, ◌>>=◌}
use bitcoin_dip.Bitcoin.{Bitcoin, Address, Network, Height, Transaction, txid_of, bytes_of_hash}
use bitcoin_dip.Types.{Utxo, GetUtxosResponse, GetUtxosError, GetBalanceError, SendTransactionError}
use bitcoin_dip.Store.{State, insert_block}
use bitcoin_dip.Store
use bitcoin_dip.Canister.{Canister, ok, err, get_balance, get_utxos, send_transaction}
use bitcoin_dip.TestBuilder.{Mining}
use bitcoin_dip.UnitTests.{
  Assertion, assert_eq, for_each, coinbase_to, spend_to, genesis_with, block_with,
}
use bitcoin_dip.UnitTests.States.{networks}

-- `STATE.with(|s| s.replace(state))`
abbrev with_state : State → Canister
with_state state = record { state = state; outgoing_transactions = [] }

-- The counts of confirmations of the loop `for i in 3..10`.
abbrev many : List ℕ
many = 3 ∷ 4 ∷ 5 ∷ 6 ∷ 7 ∷ 8 ∷ 9 ∷ []

abbrev few : List (Option ℕ)
few = none ∷ some 0 ∷ some 1 ∷ []

abbrev response : List Utxo → ℕ → GetUtxosResponse
response utxos total_count = record { utxos = utxos; total_count = total_count }

module _ ⦃lib : Bitcoin⦄ where
  abbrev utxo_of : Transaction → Height → ℕ → Utxo
  utxo_of tx height confirmations = record {
    outpoint = record { txid = bytes_of_hash (txid_of tx); vout = 0 };
    value = 1000;
    height = height;
    confirmations = confirmations;
  }

  -- The assertions on what the endpoints answer for an address.
  abbrev assert_balance : Canister → Address → Option ℕ → ℕ → Outcome Assertion
  assert_balance c address min_confirmations balance = do
    answer ← get_balance c (record { address = address; min_confirmations = min_confirmations })
    returns (assert_eq answer (ok balance))

  abbrev assert_utxos : Canister → Address → Option ℕ → GetUtxosResponse → Outcome Assertion
  assert_utxos c address min_confirmations utxos = do
    answer ← get_utxos c (record { address = address; min_confirmations = min_confirmations })
    returns (assert_eq answer (ok utxos))

  abbrev pub get_balance_malformed_address : Canister → Outcome (List Assertion)
  get_balance_malformed_address c = do
    answer ← get_balance c (record { address = "not an address"; min_confirmations = none })
    returns (assert_eq answer (err GetBalanceError.malformed_address) ∷ [])

  abbrev pub get_utxos_malformed_address : Canister → Outcome (List Assertion)
  get_utxos_malformed_address c = do
    answer ← get_utxos c (record { address = "not an address"; min_confirmations = none })
    returns (assert_eq answer (err GetUtxosError.malformed_address) ∷ [])

  abbrev pub malformed_transaction : Canister → Outcome (List Assertion)
  malformed_transaction c = returns (
      assert_eq (send_transaction c (record { transaction = 1 ∷ 2 ∷ 3 ∷ [] })).0
        (err SendTransactionError.malformed_transaction)
      ∷ [])

  module _ ⦃mining : Mining⦄ (random : ℕ → Address) where
    abbrev from_existing_utxo_set_on : Network → ℕ → Outcome (List Assertion)
    from_existing_utxo_set_on network round = do
      let address = random round
      let coinbase_tx = coinbase_to address
      genesis_block ← genesis_with coinbase_tx address
      state ← Store.new 0 network genesis_block
      assertion ←
          assert_utxos (with_state state) address none (response (utxo_of coinbase_tx 1 1 ∷ []) 1)
      returns (assertion ∷ [])

    abbrev pub get_utxos_from_existing_utxo_set : Outcome (List Assertion)
    get_utxos_from_existing_utxo_set = for_each from_existing_utxo_set_on networks 0

    -- The state of the next two tests: the second transaction passes the output on.
    abbrev passed_on : Network → Address → Address → Outcome (Canister × Transaction × Transaction)
    passed_on network address_1 address_2 = do
      let coinbase_tx = coinbase_to address_1
      block_0 ← genesis_with coinbase_tx address_1
      let tx = spend_to coinbase_tx address_2
      block_1 ← block_with block_0 tx address_2
      state ← Store.new 2 network block_0
      state ← insert_block state block_1
      returns (with_state state, coinbase_tx, tx)

    abbrev get_balance_on : Network → ℕ → Outcome (List Assertion)
    get_balance_on network round = do
      let address_1 = random (2 * round)
      let address_2 = random (2 * round + 1)
      (c, coinbase_tx, tx) ← passed_on network address_1 address_2
      one ←
          for_each
            (λ min_confirmations i. do
              assertion_2 ← assert_balance c address_2 min_confirmations 1000
              assertion_1 ← assert_balance c address_1 min_confirmations 0
              returns (assertion_2 ∷ assertion_1 ∷ []))
            few 0
      two_2 ← assert_balance c address_2 (some 2) 0
      two_1 ← assert_balance c address_1 (some 2) 1000
      more ←
          for_each
            (λ i round. do
              assertion_2 ← assert_balance c address_2 (some i) 0
              assertion_1 ← assert_balance c address_1 (some i) 0
              returns (assertion_2 ∷ assertion_1 ∷ []))
            many 0
      returns (one ++ two_2 ∷ two_1 ∷ more)

    abbrev pub get_balance_test : Outcome (List Assertion)
    get_balance_test = for_each get_balance_on networks 0

    abbrev min_confirmations_on : Network → ℕ → Outcome (List Assertion)
    min_confirmations_on network round = do
      let address_1 = random (2 * round)
      let address_2 = random (2 * round + 1)
      (c, coinbase_tx, tx) ← passed_on network address_1 address_2
      one ←
          for_each
            (λ min_confirmations i. do
              assertion_2 ←
                  assert_utxos c address_2 min_confirmations (response (utxo_of tx 2 1 ∷ []) 1)
              assertion_1 ← assert_utxos c address_1 min_confirmations (response [] 0)
              returns (assertion_2 ∷ assertion_1 ∷ []))
            few 0
      two_2 ← assert_utxos c address_2 (some 2) (response [] 0)
      two_1 ← assert_utxos c address_1 (some 2) (response (utxo_of coinbase_tx 1 2 ∷ []) 1)
      more ←
          for_each
            (λ i round. do
              assertion_2 ← assert_utxos c address_2 (some i) (response [] 0)
              assertion_1 ← assert_utxos c address_1 (some i) (response [] 0)
              returns (assertion_2 ∷ assertion_1 ∷ []))
            many 0
      returns (one ++ two_2 ∷ two_1 ∷ more)

    abbrev pub get_utxos_min_confirmations : Outcome (List Assertion)
    get_utxos_min_confirmations = for_each min_confirmations_on networks 0
