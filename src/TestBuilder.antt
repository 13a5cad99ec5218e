-- ===== src/TestBuilder.antt =====
-- canister/src/test_builder.rs: the builders of blocks and transactions for the unit tests. What they
-- call of the `bitcoin` crate is the parameter `Mining`, and a random address is an argument.
pub mod Solve
use bitcoin_dip.Base.{
  ℕ, zero, suc, ◌+◌, ◌-◌, ◌^◌, Bool, true, false, Option, none, some, List, [], ◌∷◌, ◌++◌, map,
  Outcome, returns, panics, out_of_fuel, checked_add32, ◌>>=◌,
}
use mathlib.Core.Option
use bitcoin_dip.Bitcoin.{
  Bitcoin, Address, Satoshi, OutPoint, TxIn, TxOut, Transaction, Txid, Block, BlockHash,
  BlockHeader, txid_of, script_of,
}

-- What the builders call of the crate for blocks.
pub record Mining : Type 0 where
  -- `bitcoin_merkle_root`
  pub merkle_root : List Txid → ℕ
  -- `BlockHeader::compact_target_from_u256`
  pub compact_target : ℕ → ℕ
  -- `BlockHeader::target`
  pub target : BlockHeader → ℕ
  -- Is `BlockHeader::validate_pow` without an error?
  pub validate_pow : BlockHeader → ℕ → Bool
  -- `BlockHash::default()`
  pub default_hash : BlockHash

pub record BlockBuilder : Type 0 where
  pub prev_header : Option BlockHeader
  pub transactions : List Transaction

pub record TransactionBuilder : Type 0 where
  pub input : Option OutPoint
  pub output_value : Option Satoshi
  pub output_address : Option Address

abbrev pub coinbase : TransactionBuilder
coinbase = record { input = none; output_value = none; output_address = none }

abbrev pub with_input : OutPoint → TransactionBuilder
with_input input = record { input = some input; output_value = none; output_address = none }

abbrev pub with_output : TransactionBuilder → Address → Satoshi → TransactionBuilder
with_output b address value = record b { output_address = some address; output_value = some value }

-- The inputs of the transaction that is built.
abbrev pub inputs_of : Option OutPoint → List TxIn
inputs_of none = []
inputs_of (some input) =
    record { previous_output = input; script_sig = []; sequence = 0xffffffff; witness = [] } ∷ []

abbrev pub genesis : BlockBuilder
genesis = record { prev_header = none; transactions = [] }

abbrev pub with_prev_header : BlockHeader → BlockBuilder
with_prev_header prev_header = record { prev_header = some prev_header; transactions = [] }

abbrev pub with_transaction : BlockBuilder → Transaction → BlockBuilder
with_transaction b transaction = record b { transactions = b.transactions ++ transaction ∷ [] }

module _ ⦃mining : Mining⦄ where
  -- The loop of `solve`, by the nonces that are left.
  unfoldable pub solve_loop : ℕ → BlockHeader → ℕ → Outcome BlockHeader
  solve_loop zero header target = panics out_of_fuel
  solve_loop (suc left) header target = elim (mining.validate_pow header target) [
    | true ↦ returns header
    | false ↦ do
      nonce ← checked_add32 header.nonce 1
      solve_loop left (record header { nonce = nonce }) target
  ]

  unfoldable pub solve : BlockHeader → Outcome BlockHeader
  unfolding solve_loop
  solve header = solve_loop (2 ^ 32 - header.nonce) header (mining.target header)

  -- The header of a first block.
  unfoldable pub genesis_header : ℕ → Outcome BlockHeader
  unfolding solve
  genesis_header merkle_root = solve (record {
    version = 1;
    time = 0;
    nonce = 0;
    bits = mining.compact_target 0x7fffffffffffffffffffffffffffffffffffffffffffffffffffffffffffffff;
    merkle_root = merkle_root;
    prev_blockhash = mining.default_hash;
  })

module _ ⦃lib : Bitcoin⦄ where
  -- `TransactionBuilder::build`, with the address that is taken if none was given.
  unfoldable pub build_transaction : TransactionBuilder → Address → Transaction
  build_transaction b random_address = record {
    version = 1;
    lock_time = 0;
    input = inputs_of b.input;
    output =
        record {
          value = Option.get_or b.output_value 50_0000_0000;
          script_pubkey = script_of (Option.get_or b.output_address random_address);
        }
        ∷ [];
  }

  -- The `txdata` of the block that is built.
  abbrev pub transactions_or_coinbase : List Transaction → Address → List Transaction
  transactions_or_coinbase [] random_address = build_transaction coinbase random_address ∷ []
  transactions_or_coinbase (tx ∷ txs) random_address = tx ∷ txs

  module _ ⦃mining : Mining⦄ where
    -- The header of a block on top of another.
    unfoldable pub header : BlockHeader → ℕ → Outcome BlockHeader
    unfolding solve
    header prev_header merkle_root = do
      time ← checked_add32 prev_header.time 600
      solve (record {
        version = 1;
        time = time;
        nonce = 0;
        bits = mining.compact_target (mining.target prev_header);
        merkle_root = merkle_root;
        prev_blockhash = lib.header_hash prev_header;
      })

    abbrev pub header_for : Option BlockHeader → ℕ → Outcome BlockHeader
    header_for none merkle_root = genesis_header merkle_root
    header_for (some prev_header) merkle_root = header prev_header merkle_root

    -- `BlockBuilder::build`
    unfoldable pub build : BlockBuilder → Address → Outcome Block
    unfolding genesis_header header build_transaction
    build b random_address = do
      let txdata = transactions_or_coinbase b.transactions random_address
      block_header ← header_for b.prev_header (mining.merkle_root (map txid_of txdata))
      returns (record { header = block_header; txdata = txdata })
