-- ===== src/Examples/Utxos.antt =====
-- The theorems on the set of UTXOs at concrete inputs, and tests of canister/src/utxoset.rs.
use bitcoin_dip.Base.{
  ◌≡◌, refl, [], ◌∷◌, returns, panics, outpoint_not_found, outpoint_must_exist, none, if◌then◌else◌,
  true, false, arith,
}
use bitcoin_dip.Base.HashMap
use bitcoin_dip.Bitcoin.{OutPoint, outpoint_eq, outpoint_beq, regtest}
use bitcoin_dip.UtxoSet.{
  UtxoSet, insert_tx, remove_outpoint, get_utxos, remove_spent_txs, remove_inputs, unindex,
  remove_first, insert_outputs, insert_outpoint, index_outpoint, is_duplicate,
}
use bitcoin_dip.UtxoSet.Index.{IsIndexed, is_held, added, added-IsIndexed, occurrences}
use bitcoin_dip.UtxoSet.Spend.{Removes, remove_outpoint_held}
use bitcoin_dip.UtxoSet.Transact.{Spends, after_tx, insert_tx_lem}
use bitcoin_dip.UtxoSet.Duplicate.{get_utxos-duplicate}
use bitcoin_dip.UtxoSet.Lookup.{get_utxos_lem}
use bitcoin_dip.UtxoSet.Preserve.{IsBelow, IsValid, insert_tx-IsValid}
use bitcoin_dip.Examples.{toy, outpoint, pay, transfer, empty_set}

empty-IsIndexed : IsIndexed empty_set
unfolding occurrences HashMap.get
empty-IsIndexed a o = refl

-- The set in which alice has 50.
abbrev funded : UtxoSet
funded = added empty_set (outpoint 11 0) (pay 50 1) 1

funded-IsIndexed : IsIndexed funded
unfolding HashMap.get
funded-IsIndexed = added-IsIndexed empty_set (outpoint 11 0) (pay 50 1) 1 refl empty-IsIndexed

funded-IsBelow : IsBelow 1 funded
unfolding HashMap.get HashMap.insert
funded-IsBelow o v h = ground arith

-- Bob has 20 and alice 30.
abbrev transferred : UtxoSet
transferred = record {
  utxos = (outpoint 12 0, (pay 20 2, 2)) ∷ (outpoint 12 1, (pay 30 1, 2)) ∷ [];
  network = regtest;
  address_to_outpoints = ("bob", outpoint 12 0 ∷ []) ∷ ("alice", outpoint 12 1 ∷ []) ∷ [];
  strict = true;
}

transfer-funded : insert_tx funded transfer 2 ≡ returns transferred
unfolding insert_tx remove_spent_txs remove_inputs remove_outpoint unindex remove_first
    insert_outputs insert_outpoint index_outpoint is_duplicate outpoint_beq HashMap.get
    HashMap.insert HashMap.remove HashMap.contains_key
transfer-funded = refl

-- A strict set panics on an input that it does not hold.
transfer_unfunded : insert_tx empty_set transfer 2 ≡ panics outpoint_not_found
unfolding insert_tx remove_spent_txs remove_inputs remove_outpoint HashMap.get
transfer_unfunded = refl

insert_tx-IsValid_example : IsValid 2 funded transferred
unfolding is_duplicate
insert_tx-IsValid_example =
    insert_tx-IsValid 2 funded transferred transfer 2 refl (omega arith) funded-IsIndexed
      (λ o v h. omega (arith, funded-IsBelow o v h)) transfer-funded

remove_outpoint_held_example :
    (s' : UtxoSet) × (remove_outpoint funded (outpoint 11 0) ≡ returns s')
    × Removes funded (outpoint 11 0) s'
unfolding HashMap.get HashMap.insert outpoint_beq
remove_outpoint_held_example =
    remove_outpoint_held funded (outpoint 11 0) (pay 50 1, 1) funded-IsIndexed refl

insert_tx_lem_example :
    Spends funded (after_tx transfer 2 (HashMap.get funded.utxos)) (insert_tx funded transfer 2)
unfolding HashMap.get HashMap.insert outpoint_beq
insert_tx_lem_example = insert_tx_lem funded transfer 2 funded-IsIndexed (omega arith) (λ k. refl)

get_utxos_lem_example :
    (g : UtxoSet) × (get_utxos funded "alice" ≡ returns g)
    × IsIndexed g
    × ((o : OutPoint)
        → HashMap.get g.utxos o
          ≡ (if is_held funded "alice" o then HashMap.get funded.utxos o else none))
    × (g.network ≡ funded.network)
    × (g.strict ≡ false)
get_utxos_lem_example = get_utxos_lem funded "alice" funded-IsIndexed

-- The first output of a transaction that stands twice in the chain.
abbrev repeated : OutPoint
repeated = outpoint 0xd5d27987d2a3dfc724e359870c6644b40e497bdc0589a033220fe15429d88599 0

abbrev first_time : UtxoSet
first_time = added empty_set repeated (pay 50 1) 1

abbrev second_time : UtxoSet
second_time = record empty_set {
  utxos = (repeated, (pay 50 1, 2)) ∷ [];
  address_to_outpoints = ("alice", repeated ∷ repeated ∷ []) ∷ [];
}

abbrev spent_again : UtxoSet
spent_again = record empty_set { address_to_outpoints = ("alice", repeated ∷ []) ∷ [] }

first_time-IsIndexed : IsIndexed first_time
unfolding HashMap.get
first_time-IsIndexed = added-IsIndexed empty_set repeated (pay 50 1) 1 refl empty-IsIndexed

repeated-is_duplicate : is_duplicate repeated.txid ≡ true
unfolding is_duplicate
repeated-is_duplicate = refl

repeated-is_held : is_held first_time "alice" repeated ≡ true
unfolding HashMap.get HashMap.insert outpoint_beq
repeated-is_held = refl

insert-repeated : insert_outpoint first_time repeated (pay 50 1) 2 ≡ returns second_time
unfolding insert_outpoint index_outpoint is_duplicate outpoint_beq HashMap.get HashMap.insert
    HashMap.contains_key
insert-repeated = refl

remove-repeated : remove_outpoint second_time repeated ≡ returns spent_again
unfolding remove_outpoint unindex remove_first outpoint_beq HashMap.get HashMap.insert
    HashMap.remove
remove-repeated = refl

get_utxos-duplicate_example : get_utxos spent_again "alice" ≡ panics outpoint_must_exist
get_utxos-duplicate_example =
    get_utxos-duplicate first_time second_time spent_again repeated (pay 50 1) 2 "alice"
      first_time-IsIndexed repeated-is_duplicate repeated-is_held refl insert-repeated
      remove-repeated
