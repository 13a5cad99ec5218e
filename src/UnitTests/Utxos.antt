-- ===== src/UnitTests/Utxos.antt =====
-- The unit tests of canister/src/utxoset.rs.
use bitcoin_dip.Base.{ℕ, ◌+◌, ◌*◌, true, List, [], ◌∷◌, Outcome, returns, ◌>>=◌}
use bitcoin_dip.Bitcoin.{Bitcoin, Address, Network, bitcoin, regtest, testnet, txid_of}
use bitcoin_dip.UtxoSet.{new, insert_tx, get_utxos, into_set}
use bitcoin_dip.UnitTests.{Assertion, assert_eq, for_each, coinbase_to, spend_to, entry}

abbrev networks : List Network
networks = bitcoin ∷ regtest ∷ testnet ∷ []

module _ ⦃lib : Bitcoin⦄ (random : ℕ → Address) where
  abbrev coinbase_tx_on : Network → ℕ → Outcome (List Assertion)
  coinbase_tx_on network round = do
    let address = random round
    let coinbase_tx = coinbase_to address
    utxo ← insert_tx (new true network) coinbase_tx 0
    let expected = entry coinbase_tx address 0 ∷ []
    utxos ← get_utxos utxo address
    returns (assert_eq (into_set utxo) expected ∷ assert_eq (into_set utxos) expected ∷ [])

  abbrev pub coinbase_tx : Outcome (List Assertion)
  coinbase_tx = for_each coinbase_tx_on networks 0

  abbrev spending_on : Network → ℕ → Outcome (List Assertion)
  spending_on network round = do
    let address_1 = random (2 * round)
    let address_2 = random (2 * round + 1)
    let coinbase_tx = coinbase_to address_1
    utxo ← insert_tx (new true network) coinbase_tx 0
    utxos_1 ← get_utxos utxo address_1
    let tx = spend_to coinbase_tx address_2
    utxo' ← insert_tx utxo tx 1
    utxos_1' ← get_utxos utxo' address_1
    utxos_2' ← get_utxos utxo' address_2
    returns (
        assert_eq (into_set utxos_1) (entry coinbase_tx address_1 0 ∷ [])
        ∷ assert_eq utxo.address_to_outpoints
            ((address_1, record { txid = txid_of coinbase_tx; vout = 0 } ∷ []) ∷ [])
        ∷ assert_eq (into_set utxos_1') []
        ∷ assert_eq (into_set utxos_2') (entry tx address_2 1 ∷ [])
        ∷ assert_eq utxo'.address_to_outpoints
            ((address_2, record { txid = txid_of tx; vout = 0 } ∷ []) ∷ [])
        ∷ [])

  abbrev pub spending : Outcome (List Assertion)
  spending = for_each spending_on networks 0
