-- ===== src/Lib.antt =====
-- A model of the Bitcoin canister: it follows the Bitcoin block chain, holds the UTXOs of the stable
-- blocks and a forest of the unstable ones, and answers the questions for an address's UTXOs and
-- balance. The canister's adapter sends blocks; each one goes through `State::insert_block`.
--
-- The parts, and the code that each file models:
--   Bitcoin       the types of the `bitcoin` crate (canister/src/block.rs lists their fields), and
--                 the crate's functions as the record `Bitcoin`, a parameter of everything else
--   BlockTree     `BlockTree` of canister/src/blockforest.rs: a block and the trees of its successors
--   BlockForest   `BlockForest` of canister/src/blockforest.rs: `push`, `pop`, `get_current_chain`;
--                 BlockForest/AnyOrder is about blocks that arrive in any order
--   UtxoSet       canister/src/utxoset.rs: the UTXOs and their index by address
--   Store         `State` of canister/src/store.rs: `insert_block` pushes onto the forest, pops a
--                 stable block and puts its transactions into the UTXOs; `get_utxos` applies the
--                 current chain of the forest to the UTXOs of an address. Store/Ledger says what the
--                 answers should be: a map from outpoints to outputs, and what blocks do to it;
--                 Store/History and Store/Whole follow it through any number of blocks,
--                 Store/Progress through a chain without forks; Store/Supply adds up the values
--   Types         types/src/lib.rs
--   Proto         the messages of canister/src/proto.proto, and `to_proto` and `from_proto` of
--                 canister/src/block.rs, blockforest.rs, utxoset.rs and store.rs
--   Canister      the endpoints of canister/src/main.rs over its two cells
--   Shim          the loop of canister/src/adapter-shim.rs: the canister, the loop's variables and the
--                 users' calls as a step relation; the adapter is a function that may change in each
--                 round, its calls may fail, and the loop may be started again
--   SyncDemo      canister/src/sync_demo.rs: the state at the start, a round of the sync, the commands
--   BuildTransaction  `build_transaction` of examples/common/src/lib.rs
--   SignTransaction  `sign_transaction` and `get_p2pkh_address` of the same file; what they call of the
--                 crates is the parameter `Keys`
--   Wallet        `send` of examples/rust/src/main.rs and the outpoints that it remembers as spent
--   Wrapper       the endpoints of examples/common/src/main.rs
--   TestBuilder   canister/src/test_builder.rs; what it calls of the crate is the parameter `Mining`
--   UnitTests     the tests of canister/src/blockforest.rs, utxoset.rs, store.rs, block.rs and main.rs as
--                 computations that return their assertions
--   Examples      the unit tests at a toy crate, the theorems at concrete inputs, and tests
-- Definitions bear the names of the functions; a loop of a function is a definition of its own.
-- The children of a module hold its theorems.
--
-- How the code is read:
--   * A panic is the outcome `panics`; a trap of the canister rolls its state back. Additions and
--     subtractions of `u32` and `u64` values are those of a build with overflow checks, as under
--     `cargo test`: an overflow is a panic. (A release build wraps there.) Casts wrap. Lengths of
--     lists in memory and depths of trees do not overflow.
--   * A 256-bit hash is a number and a block's hash is a function of its header. Nothing is assumed
--     of that function: two blocks may have one hash.
--   * A `HashMap` or `BTreeMap` is an association list, and the `HashSet` of the results is a list.
--   * A `&mut BlockTree` that `find_mut` returns is the subtree and the function that puts a changed
--     one back.
--   * The bytes that `prost` encodes and decodes do not appear: a message is its decoded form.
--   * Every loop is structural recursion on what it iterates over, but for the search for a nonce in
--     test_builder.rs: its fuel is the number of nonces that are left, so it is never used up.
-- Not modelled: the test of the candid interface and the one that reads blocks from a file, the
-- connections, the printing, the pauses and the files of adapter-shim.rs and sync_demo.rs, the
-- calls between canisters (their answers are arguments), keys and signatures (the parameter
-- `Keys`), and the generated code.
pub mod Base
pub mod Bitcoin
pub mod BlockTree
pub mod BlockForest
pub mod UtxoSet
pub mod Store
pub mod Types
pub mod BuildTransaction
pub mod Canister
pub mod Proto
pub mod Shim
pub mod SignTransaction
pub mod SyncDemo
pub mod TestBuilder
pub mod UnitTests
pub mod Wallet
pub mod Wrapper
pub mod Examples
