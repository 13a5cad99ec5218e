-- ===== src/Examples/Send.antt =====
-- The theorem on the example canister at a concrete input. Here a hash is written as all the bytes
-- that it was read from.
use bitcoin_dip.Base.{
  ◌<◌, ltb, if◌then◌else◌, panics, arithmetic_overflow, arith, ℕ, ◌+◌, ◌≡◌, refl, none, some, List,
  [], ◌∷◌, Option, All, returns,
}
use bitcoin_dip.Bitcoin.{Bitcoin, Bytes, Transaction}
use bitcoin_dip.Types.{Utxo}
use bitcoin_dip.BuildTransaction.{
  select_utxos, to_inputs, finish, build_transaction, built, insufficient_balance, dust_threshold,
}
use bitcoin_dip.BuildTransaction.Balance.{values, paid, prefix_for}
use bitcoin_dip.BuildTransaction.Payment.{
  IsReadable, build_transaction-short, build_transaction-enough,
}
use bitcoin_dip.Wallet.{Wallet}
use bitcoin_dip.Wallet.Spent.{HashBytesExact}
use bitcoin_dip.Examples.{toy}

-- A hash of one byte; other bytes are not read.
abbrev one_byte : Bytes → Option ℕ
one_byte [] = none
one_byte (b ∷ []) = some b
one_byte (b ∷ c ∷ bytes) = none

abbrev pub narrow : Bitcoin
narrow = record toy { hash_from_slice = one_byte }

pub narrow-HashBytesExact : HashBytesExact narrow
narrow-HashBytesExact [] h e = absurd (cc e)
narrow-HashBytesExact (b ∷ []) h e = cc
narrow-HashBytesExact (b ∷ c ∷ bytes) h e = absurd (cc e)

-- A wallet that remembers one outpoint, and two UTXOs, of which the first is that one.
abbrev pub wallet : Wallet
wallet = record { spent_txos = record { txid = 4 ∷ []; vout = 0 } ∷ [] }

abbrev pub coin : ℕ → Utxo
coin txid = record {
  outpoint = record { txid = txid ∷ []; vout = 0 };
  value = 30500;
  height = 1;
  confirmations = 1;
}

abbrev pub payment : Transaction
payment = record {
  version = 2;
  lock_time = 0;
  input =
      record {
        previous_output = record { txid = 5; vout = 0 };
        script_sig = [];
        sequence = 0xffffffff;
        witness = [];
      }
      ∷ [];
  output = record { value = 20000; script_pubkey = 1 ∷ [] } ∷ [];
}

abbrev pub after_payment : Wallet
after_payment = record {
  spent_txos = record { txid = 4 ∷ []; vout = 0 } ∷ record { txid = 5 ∷ []; vout = 0 } ∷ [];
}

abbrev pub coins : List Utxo
coins = coin 4 ∷ coin 5 ∷ []

coins-IsReadable : All (IsReadable ⦃lib = narrow⦄) coins
coins-IsReadable = ((4, refl), ((5, refl), tt))

-- 61000 cover 55000, and not the fees too.
build_transaction-short_example :
    build_transaction ⦃lib = narrow⦄ coins "alice" "bob" 55000 10000 ≡ (
      if ltb (values coins) 55000 then returns insufficient_balance else panics arithmetic_overflow)
build_transaction-short_example =
    build_transaction-short ⦃lib = narrow⦄ "alice" "bob" 55000 10000 coins coins-IsReadable
      (omega arith) (omega arith)

short_run :
    build_transaction ⦃lib = narrow⦄ coins "alice" "bob" 55000 10000 ≡ panics arithmetic_overflow
unfolding build_transaction select_utxos finish to_inputs
short_run = refl

build_transaction-enough_example :
    (tx : Transaction) × (d : ℕ) × (build_transaction ⦃lib = narrow⦄ coins "alice" "bob" 20000 10000
      ≡ returns (built tx))
    × (to_inputs ⦃lib = narrow⦄ (prefix_for 30000 0 coins) ≡ returns tx.input)
    × (paid tx.output + 10000 + d ≡ values (prefix_for 30000 0 coins))
    × (d < dust_threshold)
build_transaction-enough_example =
    build_transaction-enough ⦃lib = narrow⦄ "alice" "bob" 20000 10000 coins coins-IsReadable
      (omega arith) (omega arith)
