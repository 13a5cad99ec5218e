-- ===== src/UtxoSet.antt =====
-- `struct UtxoSet` of canister/src/utxoset.rs. The two maps are association lists; the index keeps
-- the outpoints of an address in the order of their insertion.
pub mod Index
pub mod Spend
pub mod Removal
pub mod Transact
pub mod Lookup
pub mod Preserve
pub mod Keys
pub mod Accept
pub mod Duplicate
pub mod Supply
use mathlib.Core.Option
use bitcoin_dip.Base.{
  ℕ, suc, ◌%◌, ◌^◌, String, Bool, false, not, ◌&&◌, Option, none, some, List, [], ◌∷◌, ◌++◌, map,
  any, ◌==◌, nat_eq, string_eq, if◌then◌else◌, Outcome, returns, panics, unwrap, ◌>>=◌,
  outpoint_must_exist, outpoint_not_found, outpoint_not_in_index, outpoint_already_inserted,
}
use bitcoin_dip.Base.HashMap
use bitcoin_dip.Bitcoin.{
  Network, OutPoint, TxIn, TxOut, Transaction, Txid, Height, Bitcoin, txid_of, is_coin_base,
  address_of, outpoint_eq,
}

abbrev pub duplicate_tx_ids : List Txid
duplicate_tx_ids =
    0xd5d27987d2a3dfc724e359870c6644b40e497bdc0589a033220fe15429d88599
    ∷ 0xe3bf3d07d4b0375638d5f1db5255fe07ba2c4cb067cd81b84ee974b6585fb468 ∷ []

-- `DUPLICATE_TX_IDS.contains(txid)`
unfoldable pub is_duplicate : Txid → Bool
is_duplicate txid = any (λ d. d == txid) duplicate_tx_ids

pub record UtxoSet : Type 0 where
  pub utxos : List (OutPoint × (TxOut × Height))
  pub network : Network
  pub address_to_outpoints : List (String × List OutPoint)
  pub strict : Bool

-- `UtxoSet::new`
abbrev pub new : Bool → Network → UtxoSet
new strict network = record {
  utxos = [];
  network = network;
  address_to_outpoints = [];
  strict = strict;
}

-- `address_to_outpoints.get(address).unwrap_or(&vec![])`
abbrev pub outpoints_of : UtxoSet → String → List OutPoint
outpoints_of s address = Option.get_or (HashMap.get s.address_to_outpoints address) []

-- `into_set`: a `HashSet` of triples.
abbrev pub into_set : UtxoSet → List (OutPoint × TxOut × Height)
into_set s = map (λ e. (e.0, e.1.0, e.1.1)) s.utxos

-- The search for an outpoint in the index of an address: the rest, if it was found.
unfoldable pub remove_first : List OutPoint → OutPoint → Option (List OutPoint)
remove_first [] o = none
remove_first (x ∷ xs) o =
    let rest = Option.map (λ l. x ∷ l) (remove_first xs o) in if x == o then some xs else rest

-- The index after an address's outpoints changed; an empty list is removed.
abbrev pub store_outpoints :
    List (String × List OutPoint) → String → List OutPoint → List (String × List OutPoint)
store_outpoints index address [] = HashMap.remove index address
store_outpoints index address (x ∷ xs) = HashMap.insert index address (x ∷ xs)

-- Takes a spent outpoint out of the index of its address.
unfoldable pub unindex : UtxoSet → String → OutPoint → Outcome UtxoSet
unfolding remove_first
unindex s address o = do
  outpoints ← unwrap (HashMap.get s.address_to_outpoints address)
  elim (remove_first outpoints o) [
    | some rest ↦
        returns
          (record s { address_to_outpoints = store_outpoints s.address_to_outpoints address rest })
    | none ↦
        if s.strict
        then panics outpoint_not_in_index
        else returns (record s {
          address_to_outpoints = store_outpoints s.address_to_outpoints address outpoints;
        })
  ]

-- The index after an outpoint of an address is added: `entry(address).or_insert_with(Vec::new)`.
unfoldable pub index_outpoint : UtxoSet → Option String → OutPoint → List (String × List OutPoint)
index_outpoint s none o = s.address_to_outpoints
index_outpoint s (some address) o =
    HashMap.insert s.address_to_outpoints address (outpoints_of s address ++ o ∷ [])

module _ ⦃lib : Bitcoin⦄ where
  unfoldable pub insert_outpoint : UtxoSet → OutPoint → TxOut → Height → Outcome UtxoSet
  unfolding index_outpoint
  insert_outpoint s o output height =
      if HashMap.contains_key s.utxos o && not (is_duplicate o.txid)
      then panics outpoint_already_inserted
      else returns (record s {
        utxos = HashMap.insert s.utxos o (output, height);
        address_to_outpoints = index_outpoint s (address_of output.script_pubkey s.network) o;
      })

  -- The loop of `insert_unspent_txs`; `vout as u32` wraps.
  unfoldable pub insert_outputs : UtxoSet → Txid → ℕ → List TxOut → Height → Outcome UtxoSet
  insert_outputs s txid vout [] height = returns s
  insert_outputs s txid vout (output ∷ outputs) height = do
    s' ← insert_outpoint s (record { txid = txid; vout = vout % 2 ^ 32 }) output height
    insert_outputs s' txid (suc vout) outputs height

  abbrev pub insert_unspent_txs : UtxoSet → Transaction → Height → Outcome UtxoSet
  insert_unspent_txs s tx height = insert_outputs s (txid_of tx) 0 tx.output height

  -- Removes one spent output.
  unfoldable pub remove_outpoint : UtxoSet → OutPoint → Outcome UtxoSet
  unfolding unindex
  remove_outpoint s o = elim (HashMap.get s.utxos o) [
    | some (txout, _) ↦
        let s' = record s { utxos = HashMap.remove s.utxos o } in
        elim (address_of txout.script_pubkey s.network) [
          | some address ↦ unindex s' address o
          | none ↦ returns s'
        ]
    | none ↦ if s.strict then panics outpoint_not_found else returns s
  ]

  -- The loop of `remove_spent_txs`.
  unfoldable pub remove_inputs : UtxoSet → List TxIn → Outcome UtxoSet
  remove_inputs s [] = returns s
  remove_inputs s (i ∷ is) = do s' ← remove_outpoint s i.previous_output; remove_inputs s' is

  unfoldable pub remove_spent_txs : UtxoSet → Transaction → Outcome UtxoSet
  remove_spent_txs s tx = if is_coin_base tx then returns s else remove_inputs s tx.input

  unfoldable pub insert_tx : UtxoSet → Transaction → Height → Outcome UtxoSet
  insert_tx s tx height = do s' ← remove_spent_txs s tx; insert_unspent_txs s' tx height

  -- The loop of `get_utxos` over the outpoints of the address.
  unfoldable pub copy_outpoints : UtxoSet → List OutPoint → UtxoSet → Outcome UtxoSet
  copy_outpoints s [] out = returns out
  copy_outpoints s (o ∷ os) out = elim (HashMap.get s.utxos o) [
    | none ↦ panics outpoint_must_exist
    | some (tx_out, height) ↦
        insert_outpoint out o tx_out height >>= λ out'. copy_outpoints s os out'
  ]

  unfoldable pub get_utxos : UtxoSet → String → Outcome UtxoSet
  get_utxos s address = copy_outpoints s (outpoints_of s address) (new false s.network)
