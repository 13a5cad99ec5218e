-- ===== src/Wallet/Spent.antt =====
-- No outpoint is spent by two transactions of the example canister.
use bitcoin_dip.Base.{
  ℕ, ◌≡◌, refl, sym, ap, ap₂, subst, ◌∙◌, Bool, true, false, not, Option, none, some, List, [], ◌∷◌,
  ◌++◌, map, filter, leb, if◌then◌else◌, All, All-append, All-map, All-imp, ltb, Outcome, returns,
  panics, unwrap, ◌>>=◌, >>=-eq-returns, checked_add64, checked_sub,
}
use bitcoin_dip.Bitcoin.{Bitcoin, Bytes, Address, Satoshi, TxIn, Transaction, hash_of_bytes}
use bitcoin_dip.Types.{OutPoint, Utxo}
use bitcoin_dip.BuildTransaction.{
  BuildResult, built, insufficient_balance, select_utxos, to_inputs, finish, build_transaction,
}
use bitcoin_dip.BlockForest.Current.{filter-All}
use bitcoin_dip.Wallet.{Wallet, is_spent, input_outpoint, spend, unwrap_built, fees}

-- Only the bytes that a hash writes are read as that hash.
abbrev pub HashBytesExact : Bitcoin → Type 0
HashBytesExact lib =
    (bytes : Bytes) (h : ℕ) → lib.hash_from_slice bytes ≡ some h → lib.hash_to_vec h ≡ bytes

-- Every UTXO selected so far, and every one to come, passes.
Selected : (Utxo → Type 0) → Outcome (Satoshi × List Utxo) → Type 0
Selected P (returns (total, us)) = All P us
Selected P (panics p) = Unit {0}

Selected-bind :
    {A : Type 0} (P : Utxo → Type 0) (m : Outcome A) (f : A → Outcome (Satoshi × List Utxo))
    → ((a : A) → Selected P (f a))
    → Selected P (m >>= f)
unfolding Selected
Selected-bind P (returns a) f h = h a
Selected-bind P (panics p) f h = tt

Selected-branch :
    (P : Utxo → Type 0) (b : Bool) (x y : Outcome (Satoshi × List Utxo))
    → Selected P x
    → Selected P y
    → Selected P (elim b [ true ↦ x | false ↦ y ])
Selected-branch P true x y h k = h
Selected-branch P false x y h k = k

select_utxos-Selected :
    (P : Utxo → Type 0) (us : List Utxo) (amount fee total : Satoshi) (spent : List Utxo)
    → All P us
    → All P spent
    → Selected P (select_utxos us amount fee total spent)
unfolding select_utxos Selected
select_utxos-Selected P [] amount fee total spent a b = b
select_utxos-Selected P (u ∷ us) amount fee total spent a b =
    let more = All-append P spent (u ∷ []) b (a.0, tt) in
    Selected-bind P (checked_add64 total u.value) _ (λ total'.
      Selected-bind P (checked_add64 amount fee) _ (λ needed.
        Selected-branch P (leb needed total') _ _ more
          (select_utxos-Selected P us amount fee total' (spent ++ u ∷ []) a.1 more)))

-- What holds of all the UTXOs holds of those selected.
pub select_utxos-All :
    (P : Utxo → Type 0) (us : List Utxo) (amount fee : Satoshi) (r : Satoshi × List Utxo)
    → All P us
    → select_utxos us amount fee 0 [] ≡ returns r
    → All P r.1
unfolding Selected
select_utxos-All P us amount fee r a e =
    subst (Selected P) e (select_utxos-Selected P us amount fee 0 [] a tt)

module _ ⦃lib : Bitcoin⦄ where
  abbrev named : Outcome (List TxIn) → List OutPoint
  named (returns inputs) = map input_outpoint inputs
  named (panics p) = []

unwrap_built-returns :
    (r : BuildResult) (tx : Transaction) → unwrap_built r ≡ returns tx → r ≡ built tx
unwrap_built-returns (built x) tx e = cc
unwrap_built-returns insufficient_balance tx e = absurd (cc e)

enough_branch :
    (b : Bool) (m : Outcome BuildResult) (tx : Transaction)
    → (if b then returns insufficient_balance else m) ≡ returns (built tx)
    → m ≡ returns (built tx)
enough_branch true m tx e = absurd (cc e)
enough_branch false m tx e = e

not-true : (b : Bool) → not b ≡ true → b ≡ false
not-true true e = absurd (cc e)
not-true false e = refl

sent_tx : Transaction → Outcome (Transaction × Wallet) → Transaction
sent_tx tx (returns r) = r.0
sent_tx tx (panics p) = tx

kept : Wallet → Outcome (Transaction × Wallet) → List OutPoint
kept w (returns r) = r.1.spent_txos
kept w (panics p) = w.spent_txos

inputs_of : Outcome BuildResult → List TxIn
inputs_of (returns (built tx)) = tx.input
inputs_of (returns insufficient_balance) = []
inputs_of (panics p) = []

module _ ⦃lib : Bitcoin⦄ where
  -- The inputs of a transaction that is built are those of the UTXOs selected.
  pub build_transaction-inputs :
      (us : List Utxo) (source destination : Address) (amount fee : Satoshi) (tx : Transaction)
      → build_transaction us source destination amount fee ≡ returns (built tx)
      → (r : Satoshi × List Utxo) × (select_utxos us amount fee 0 [] ≡ returns r)
        × (to_inputs r.1 ≡ returns tx.input)
  unfolding build_transaction finish inputs_of
  build_transaction-inputs us source destination amount fee tx e =
      let (r, selected, e1) = >>=-eq-returns (select_utxos us amount fee 0 []) _ e in
      let e2 = enough_branch (ltb r.0 amount) _ tx e1 in
      let (inputs, read, e3) = >>=-eq-returns (to_inputs r.1) _ e2 in
      let (above, _, e4) = >>=-eq-returns (checked_sub r.0 amount) _ e3 in
      let (remaining, _, e5) = >>=-eq-returns (checked_sub above fee) _ e4 in
      (r, selected, read ∙ ap returns (ap inputs_of e5))

  -- What `spend` builds and remembers.
  pub spend_steps :
      (w w' : Wallet) (utxos : List Utxo) (btc_address to : Address) (amount : Satoshi)
      (tx : Transaction)
      → spend w utxos btc_address to amount ≡ returns (tx, w')
      → (build_transaction
            (filter (λ u. not (is_spent w u.outpoint)) utxos)
            btc_address
            to
            amount
            fees
          ≡ returns (built tx))
        × (w'.spent_txos ≡ w.spent_txos ++ map input_outpoint tx.input)
  unfolding spend sent_tx kept
  spend_steps w w' utxos btc_address to amount tx e =
      let fresh = λ (u : Utxo). not (is_spent w u.outpoint) in
      let (result, done, e1) =
        >>=-eq-returns (build_transaction (filter fresh utxos) btc_address to amount fees) _ e in
      let (tx1, is_built, e2) = >>=-eq-returns (unwrap_built result) _ e1 in
      let same : tx1 ≡ tx = ap (λ o. sent_tx tx o) e2 in
      (
        done ∙ ap returns (unwrap_built-returns result tx1 is_built ∙ ap built same),
        sym (ap (λ o. kept w o) e2) ∙ ap (λ t. w.spent_txos ++ map input_outpoint t.input) same,
      )

module _ ⦃lib : Bitcoin⦄ (exact : HashBytesExact lib) where
  unwrap-some : (o : Option ℕ) (h : ℕ) → unwrap o ≡ returns h → o ≡ some h
  unwrap-some none h e = absurd (cc e)
  unwrap-some (some x) h e = cc

  -- The inputs name the outpoints of the UTXOs, byte by byte.
  pub to_inputs_lem :
      (us : List Utxo) (inputs : List TxIn)
      → to_inputs us ≡ returns inputs
      → map input_outpoint inputs ≡ map (λ u. u.outpoint) us
  unfolding to_inputs
  to_inputs_lem [] inputs e = ap (λ o. named o) (sym e)
  to_inputs_lem (u ∷ us) inputs e =
      let (txid, read, e1) = >>=-eq-returns (unwrap (hash_of_bytes u.outpoint.txid)) _ e in
      let (rest, later, e2) = >>=-eq-returns (to_inputs us) _ e1 in
      let bytes = exact u.outpoint.txid txid (unwrap-some _ txid read) in
      ap named (sym e2)
      ∙ ap₂ (λ (o : OutPoint) (os : List OutPoint). o ∷ os)
          (ap (λ b. record { txid = b; vout = u.outpoint.vout }) bytes)
          (to_inputs_lem us rest later)

  -- If only the bytes that a hash writes are read as that hash, a transaction that `spend` returns
  -- spends no outpoint that the wallet remembers, and the wallet then remembers what it did before
  -- and every outpoint that the transaction spends.
  pub spend_lem :
      (w w' : Wallet) (utxos : List Utxo) (btc_address to : Address) (amount : Satoshi)
      (tx : Transaction)
      → spend w utxos btc_address to amount ≡ returns (tx, w')
      → All (λ o. is_spent w o ≡ false) (map input_outpoint tx.input)
        × (w'.spent_txos ≡ w.spent_txos ++ map input_outpoint tx.input)
  spend_lem w w' utxos btc_address to amount tx e =
      let fresh = λ (u : Utxo). not (is_spent w u.outpoint) in
      let (made, remembers) = spend_steps w w' utxos btc_address to amount tx e in
      let (r, selected, read) =
        build_transaction-inputs (filter fresh utxos) btc_address to amount fees tx made in
      let passed =
        select_utxos-All (λ u. fresh u ≡ true) (filter fresh utxos) amount fees r
          (filter-All fresh utxos) selected in
      (
        subst (All (λ o. is_spent w o ≡ false)) (sym (to_inputs_lem r.1 tx.input read)) (
            All-map (λ o. is_spent w o ≡ false) (λ u. u.outpoint) r.1
              (All-imp (λ u. fresh u ≡ true) _ (λ u h. not-true (is_spent w u.outpoint) h) r.1
                passed)),
        remembers,
      )
