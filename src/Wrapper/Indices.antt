-- ===== src/Wrapper/Indices.antt =====
-- The indices that the endpoint `build_transaction` answers with.
use mathlib.Core.Option
use bitcoin_dip.Base.{
  ℕ, suc, ◌+◌, ◌≡◌, refl, sym, ap, ap₂, subst, ◌∙◌, inl, inr, Bool-cases, String, Option, none,
  some, List, [], ◌∷◌, map, get_elem?, ◌==◌, true, false, All, All-map, Outcome, returns,
  >>=-eq-returns, arith,
}
use bitcoin_dip.Base.HashMap
use bitcoin_dip.Bitcoin.{Bitcoin, Bytes, Address, Satoshi, TxIn, Transaction}
use bitcoin_dip.Types.{OutPoint, Utxo}
use bitcoin_dip.Canister.{Result, ok, err}
use bitcoin_dip.BuildTransaction.{BuildResult, built}
use bitcoin_dip.BuildTransaction
use bitcoin_dip.Wallet.{input_outpoint}
use bitcoin_dip.Wallet.Spent.{
  HashBytesExact, select_utxos-All, build_transaction-inputs, to_inputs_lem,
}
use bitcoin_dip.Wrapper.{
  BuildTransactionError, types_outpoint_eq, outpoint_to_index, used_utxo_indices, answer,
  build_transaction,
}

-- The outpoint of the UTXO at an index.
abbrev pub outpoint_at : List Utxo → ℕ → Option OutPoint
outpoint_at us i = Option.map (λ u. u.outpoint) (get_elem? us i)

abbrev Has : List (OutPoint × ℕ) → OutPoint → Type 0
Has index o = (i : ℕ) × (HashMap.get index o ≡ some i)

-- An index names a UTXO with the outpoint.
abbrev Names : List Utxo → List (OutPoint × ℕ) → Type 0
Names us index = (o : OutPoint) (i : ℕ) → HashMap.get index o ≡ some i → outpoint_at us i ≡ some o

get-insert_same :
    (index : List (OutPoint × ℕ)) (p o : OutPoint) (i : ℕ)
    → (p == o) ≡ true
    → HashMap.get (HashMap.insert index p i) o ≡ some i
get-insert_same index p o i same = HashMap.get-insert index p o i ∙ rw same refl

get-insert_ne :
    (index : List (OutPoint × ℕ)) (p o : OutPoint) (i : ℕ)
    → (p == o) ≡ false
    → HashMap.get (HashMap.insert index p i) o ≡ HashMap.get index o
get-insert_ne index p o i differs = HashMap.get-insert index p o i ∙ rw differs refl

Has-insert :
    (index : List (OutPoint × ℕ)) (p o : OutPoint) (i : ℕ)
    → Has index o
    → Has (HashMap.insert index p i) o
Has-insert index p o i h = elim (Bool-cases (p == o)) [
  | inl same ↦ (i, get-insert_same index p o i same)
  | inr differs ↦ (h.0, get-insert_ne index p o i differs ∙ h.1)
]

outpoint_to_index-Has :
    (us : List Utxo) (idx : ℕ) (index : List (OutPoint × ℕ)) (o : OutPoint)
    → Has index o
    → Has (outpoint_to_index us idx index) o
unfolding outpoint_to_index
outpoint_to_index-Has [] idx index o h = h
outpoint_to_index-Has (u ∷ us) idx index o h =
    outpoint_to_index-Has us (suc idx) _ o (Has-insert index u.outpoint o idx h)

outpoint_to_index-All :
    (us : List Utxo) (idx : ℕ) (index : List (OutPoint × ℕ))
    → All (λ u. Has (outpoint_to_index us idx index) u.outpoint) us
unfolding outpoint_to_index
outpoint_to_index-All [] idx index = tt
outpoint_to_index-All (u ∷ us) idx index = (
  outpoint_to_index-Has us (suc idx) _ u.outpoint (
    idx,
    get-insert_same index u.outpoint u.outpoint idx
        ((types_outpoint_eq.beq_iff u.outpoint u.outpoint).1 refl),
  ),
  outpoint_to_index-All us (suc idx) _,
)

-- The loop, at a position of a list of which it has the rest.
outpoint_to_index-Names :
    (all us : List Utxo) (idx : ℕ) (index : List (OutPoint × ℕ))
    → ((k : ℕ) → get_elem? all (idx + k) ≡ get_elem? us k)
    → Names all index
    → Names all (outpoint_to_index us idx index)
unfolding outpoint_to_index
outpoint_to_index-Names all [] idx index rest h = h
outpoint_to_index-Names all (u ∷ us) idx index rest h =
    outpoint_to_index-Names all us (suc idx) (HashMap.insert index u.outpoint idx)
      (λ k. ap (get_elem? all) (omega arith) ∙ rest (suc k)) named
  where
    here : get_elem? all idx ≡ some u
    here = ap (get_elem? all) (omega arith) ∙ rest 0

    named : Names all (HashMap.insert index u.outpoint idx)
    named o i found = elim (Bool-cases (u.outpoint == o)) [
      | inl same ↦
          let at : idx ≡ i = cc (sym (get-insert_same index u.outpoint o idx same) ∙ found) in
          subst (λ x. outpoint_at all x ≡ some o) at
            (ap (Option.map (λ v. v.outpoint)) here
              ∙ ap some ((types_outpoint_eq.beq_iff u.outpoint o).0 same))
      | inr differs ↦ h o i (sym (get-insert_ne index u.outpoint o idx differs) ∙ found)
    ]

nothing : (us : List Utxo) → Names us []
unfolding HashMap.get
nothing us o i found = absurd (cc found)

module _ ⦃lib : Bitcoin⦄ where
  used_utxo_indices_lem :
      (us : List Utxo) (index : List (OutPoint × ℕ)) (is : List TxIn)
      → Names us index
      → All (Has index) (map input_outpoint is)
      → map (outpoint_at us) (used_utxo_indices index is) ≡ map (λ i. some (input_outpoint i)) is
  unfolding used_utxo_indices
  used_utxo_indices_lem us index [] names a = refl
  used_utxo_indices_lem us index (i ∷ is) names a =
      let (idx, found) = a.0 in
      rw (used_utxo_indices, found)
        (ap₂ (λ (o : Option OutPoint) (os : List (Option OutPoint)). o ∷ os)
          (names (input_outpoint i) idx found) (used_utxo_indices_lem us index is names a.1))

  address_then :
      {A : Type 0} (r : Option Address) (e : BuildTransactionError)
      (k : Address → Outcome (Result A BuildTransactionError)) (v : A)
      → elim r [ none ↦ returns (err e) | some a ↦ k a ] ≡ returns (ok v)
      → (a : Address) × (k a ≡ returns (ok v))
  address_then none e k v h = absurd (cc h)
  address_then (some a) e k v h = (a, h)

  answer_built :
      (serialize : Transaction → Bytes) (index : List (OutPoint × ℕ)) (r : BuildResult)
      (bytes : Bytes) (indices : List ℕ)
      → answer serialize index r ≡ ok (bytes, indices)
      → (tx : Transaction) × (r ≡ built tx)
        × (serialize tx ≡ bytes)
        × (used_utxo_indices index tx.input ≡ indices)
  unfolding answer
  answer_built serialize index BuildResult.insufficient_balance bytes indices h = absurd (cc h)
  answer_built serialize index (built tx) bytes indices h = (tx, refl, cc, cc)

module _ ⦃lib : Bitcoin⦄ (exact : HashBytesExact lib) (serialize : Transaction → Bytes) where
  -- If only the bytes that a hash writes are read as that hash and the endpoint answers with the
  -- bytes of a transaction and indices, the bytes are those of a transaction that
  -- `build_transaction` of the library builds from the same UTXOs, and the indices are those of the
  -- UTXOs that it spends: the one for each input names a UTXO with the input's outpoint.
  pub build_transaction-names :
      (utxos : List Utxo) (source_address destination_address : String) (amount fees : Satoshi)
      (bytes : Bytes) (indices : List ℕ)
      → build_transaction serialize utxos source_address destination_address amount fees
        ≡ returns (ok (bytes, indices))
      → (source : Address) × (destination : Address) × (tx : Transaction)
        × (BuildTransaction.build_transaction utxos source destination amount fees
            ≡ returns (built tx))
        × (serialize tx ≡ bytes)
        × (map (outpoint_at utxos) indices ≡ map (λ i. some (input_outpoint i)) tx.input)
  unfolding build_transaction
  build_transaction-names utxos source_address destination_address amount fees bytes indices e =
      let (source, e1) = address_then (lib.address_from_str source_address) _ _ _ e in
      let (destination, e2) = address_then (lib.address_from_str destination_address) _ _ _ e1 in
      let index = outpoint_to_index utxos 0 [] in
      let (r, made, e3) =
        >>=-eq-returns (BuildTransaction.build_transaction utxos source destination amount fees) _
          e2 in
      let (tx, is_built, written, used) = answer_built serialize index r bytes indices (cc e3) in
      let built_tx = made ∙ ap returns is_built in
      let (s, selected, read) =
        build_transaction-inputs utxos source destination amount fees tx built_tx in
      let all_have =
        All-map (Has index) (λ u. u.outpoint) s.1
          (select_utxos-All (λ u. Has index u.outpoint) utxos amount fees s
            (outpoint_to_index-All utxos 0 []) selected) in
      let have : All (Has index) (map input_outpoint tx.input) =
        subst (All (Has index)) (sym (to_inputs_lem exact s.1 tx.input read)) all_have in
      let names =
        outpoint_to_index-Names utxos utxos 0 [] (λ k. ap (get_elem? utxos) (omega arith))
          (nothing utxos) in
      (
        source,
        destination,
        tx,
        built_tx,
        written,
        ap (map (outpoint_at utxos)) (sym used)
            ∙ used_utxo_indices_lem utxos index tx.input names have,
      )
