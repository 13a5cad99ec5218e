-- ===== src/BuildTransaction/Payment.antt =====
-- What `build_transaction` pays and what it refuses.
use bitcoin_dip.Base.{
  ℕ, ◌+◌, ◌-◌, ◌^◌, ◌≤◌, ◌<◌, ◌≡◌, refl, sym, subst, inl, inr, List, [], ◌∷◌, All, All-append_split,
  false, leb, ltb, if◌then◌else◌, Bool-cases, Outcome, returns, panics, arithmetic_overflow, some,
  arith, checked_sub,
}
use bitcoin_dip.Bitcoin.{Bitcoin, TxIn, Transaction, Address, Satoshi, hash_of_bytes}
use bitcoin_dip.Types.{Utxo}
use bitcoin_dip.BuildTransaction.{
  BuildResult, built, insufficient_balance, dust_threshold, to_inputs, to_outputs, finish,
  build_transaction,
}
use bitcoin_dip.BuildTransaction.Balance.{
  values, paid, prefix_for, chosen_lem, prefix_for-prefix, prefix_for-covers, prefix_for-all,
}

module _ ⦃lib : Bitcoin⦄ where
  -- The transaction id of the UTXO is the bytes of a hash.
  abbrev pub IsReadable : Utxo → Type 0
  IsReadable u = (h : ℕ) × (hash_of_bytes u.outpoint.txid ≡ some h)

  to_inputs-returns :
      (us : List Utxo) → All IsReadable us → (inputs : List TxIn) × (to_inputs us ≡ returns inputs)
  unfolding to_inputs
  to_inputs-returns [] a = ([], refl)
  to_inputs-returns (u ∷ us) a =
      let (rest, e) = to_inputs-returns us a.1 in
      let first : TxIn = record {
        previous_output = record { txid = a.0.0; vout = u.outpoint.vout };
        script_sig = [];
        sequence = 0xffffffff;
        witness = [];
      } in
      (first ∷ rest, rw (a.0.1, e) refl)

  module _ (source destination : Address) (amount fees : Satoshi) where
    abbrev settled : Satoshi → List Utxo → Outcome BuildResult
    settled total us =
        if ltb total amount
        then returns insufficient_balance
        else finish source destination amount fees total us

    abbrev transaction : List TxIn → Satoshi → Transaction
    transaction inputs total = record {
      version = 2;
      lock_time = 0;
      input = inputs;
      output = to_outputs source destination amount (total - amount - fees);
    }

    settled-short :
        (total : Satoshi) (us : List Utxo) (inputs : List TxIn)
        → to_inputs us ≡ returns inputs
        → total < amount + fees
        → settled total us
          ≡ (if ltb total amount then returns insufficient_balance else panics arithmetic_overflow)
    unfolding finish
    settled-short total us inputs e h = elim (Bool-cases (ltb total amount)) [
      | inl less ↦ rw less refl
      | inr not_less ↦
          let e1 : checked_sub total amount ≡ returns (total - amount) = ground arith in
          let e2 : checked_sub (total - amount) fees ≡ panics arithmetic_overflow = ground arith in
          rw not_less (rw (e, e1, e2) refl)
    ]

    settled-enough :
        (total : Satoshi) (us : List Utxo) (inputs : List TxIn)
        → to_inputs us ≡ returns inputs
        → amount + fees ≤ total
        → settled total us ≡ returns (built (transaction inputs total))
    unfolding finish
    settled-enough total us inputs e h =
        let e0 : ltb total amount ≡ false = ground arith in
        let e1 : checked_sub total amount ≡ returns (total - amount) = ground arith in
        let e2 : checked_sub (total - amount) fees ≡ returns (total - amount - fees) =
          ground arith in
        rw e0 (rw (e, e1, e2) refl)

    -- What the outputs do not pay of the change is dust.
    paid-to_outputs :
        (change : Satoshi)
        → (d : Satoshi) × (paid (to_outputs source destination amount change) + d ≡ amount + change)
          × (d < dust_threshold)
    unfolding to_outputs
    paid-to_outputs change = elim (Bool-cases (leb dust_threshold change)) [
      | inl keeps ↦ (0, rw keeps (omega arith), omega arith)
      | inr dust ↦ (change, rw dust (omega arith), ground arith)
    ]

    -- If the values sum below the amount and the fees, those two do not overflow and the
    -- transaction ids can be read, no transaction is built: with less than the amount the balance is
    -- insufficient, and otherwise, where only the fees are not covered, a subtraction overflows.
    pub build_transaction-short :
        (us : List Utxo)
        → All IsReadable us
        → values us < amount + fees
        → amount + fees < 2 ^ 64
        → build_transaction us source destination amount fees ≡ (
            if ltb (values us) amount
            then returns insufficient_balance
            else panics arithmetic_overflow)
    unfolding build_transaction
    build_transaction-short us a h k =
        let (inputs, read) = to_inputs-returns us a in
        let all = prefix_for-all (amount + fees) 0 us (omega arith) in
        rw (chosen_lem us amount fees (omega arith) k) (
          subst
            (λ p. settled (values p) p ≡ (
              if ltb (values us) amount
              then returns insufficient_balance
              else panics arithmetic_overflow))
            (sym all) (settled-short (values us) us inputs read h))

    -- If the values sum to the amount and the fees at least, no sum overflows and the transaction
    -- ids can be read, a transaction is built. It spends the shortest prefix of the UTXOs that
    -- covers both, but at least one UTXO if there is any, and its outputs and the fees leave less of their value than the dust threshold.
    pub build_transaction-enough :
        (us : List Utxo)
        → All IsReadable us
        → amount + fees ≤ values us
        → values us < 2 ^ 64
        → (tx : Transaction) × (d : Satoshi) × (build_transaction us source destination amount fees
            ≡ returns (built tx))
          × (to_inputs (prefix_for (amount + fees) 0 us) ≡ returns tx.input)
          × (paid tx.output + fees + d ≡ values (prefix_for (amount + fees) 0 us))
          × (d < dust_threshold)
    unfolding build_transaction
    build_transaction-enough us a h k =
        let p = prefix_for (amount + fees) 0 us in
        let (rest, e) = prefix_for-prefix (amount + fees) 0 us in
        let readable = All-append_split IsReadable p rest (subst (All IsReadable) e a) in
        let (inputs, read) = to_inputs-returns p readable.0 in
        let covers : amount + fees ≤ values p = prefix_for-covers (amount + fees) us h in
        let (d, sum, small) = paid-to_outputs (values p - amount - fees) in
        (
          transaction inputs (values p),
          d,
          rw (chosen_lem us amount fees k (omega arith))
              (settled-enough (values p) p inputs read covers),
          read,
          omega (arith, sum, covers),
          small,
        )
