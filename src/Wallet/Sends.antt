-- ===== src/Wallet/Sends.antt =====
-- Any number of calls of `send`.
use bitcoin_dip.Base.{
  ◌≡◌, refl, sym, ap, ap₂, subst, ◌∙◌, String, Bool, true, false, Option, none, some, List, [], ◌∷◌,
  ◌++◌, map, leb, if◌then◌else◌, trapped, All, Outcome, returns, panics, >>=-eq-returns,
}
use bitcoin_dip.Bitcoin.{Bitcoin, Address, Satoshi, TxIn, Transaction}
use bitcoin_dip.Types.{OutPoint, Utxo, GetUtxosResponse, GetUtxosError}
use bitcoin_dip.Canister.{Result}
use bitcoin_dip.SignTransaction.{Keys, sign_transaction}
use bitcoin_dip.SignTransaction.Valid.{blank, unsigned, sign_transaction-unsigned}
use bitcoin_dip.Wallet.{
  Wallet, Rejection, fees, is_spent, input_outpoint, read_utxos, spend, btc_address, prepare,
}
use bitcoin_dip.Wallet.Spent.{HashBytesExact, spend_lem}

-- A function that reads no signature.
pub map-blank :
    {B : Type 0} (f : TxIn → B)
    → ((i : TxIn) → f (blank i) ≡ f i)
    → (is : List TxIn) → map f (map blank is) ≡ map f is
map-blank f h [] = refl
map-blank f h (i ∷ is) = ap₂ (λ x l. x ∷ l) (h i) (map-blank f h is)

-- `f` reads the same of the inputs of two transactions that differ in signatures only.
pub unsigned-inputs :
    {B : Type 0} (f : TxIn → B)
    → ((i : TxIn) → f (blank i) ≡ f i)
    → (tx tx' : Transaction) → unsigned tx ≡ unsigned tx'
    → map f tx.input ≡ map f tx'.input
unsigned-inputs f h tx tx' e =
    sym (map-blank f h tx.input) ∙ (ap (λ t. map f t.input) e ∙ map-blank f h tx'.input)

module _ ⦃lib : Bitcoin⦄ where
  -- No transaction spends an outpoint that the wallet remembers or that one before it spent.
  abbrev pub AreFresh : List OutPoint → List Transaction → Type 0
  AreFresh spent [] = Unit {0}
  AreFresh spent (tx ∷ txs) =
      All (λ o. is_spent (record { spent_txos = spent }) o ≡ false) (map input_outpoint tx.input)
      × AreFresh (spent ++ map input_outpoint tx.input) txs

  address_read :
      {A : Type 0} (b : Bool) (r : Option Address) (k : Address → Outcome A) (v : A)
      → (if b then panics trapped else elim r [ none ↦ panics trapped | some to ↦ k to ])
        ≡ returns v
      → (to : Address) × (k to ≡ returns v)
  address_read true r k v e = absurd (cc e)
  address_read false none k v e = absurd (cc e)
  address_read false (some to) k v e = (to, e)

module _ ⦃lib : Bitcoin⦄ {PrivateKey : Type 0} ⦃keys : Keys PrivateKey⦄ where
  -- The transactions of the calls that return, in order; a call that traps changes nothing.
  pub data Sends (private_key : PrivateKey) : Wallet → List Transaction → Wallet → Type 0 where
    none_left : {w : Wallet} → Sends private_key w [] w
    sent :
        {w w1 w2 : Wallet} {tx : Transaction} {txs : List Transaction} (amount : Satoshi)
        (destination : String) (answer : Result (Result GetUtxosResponse GetUtxosError) Rejection)
        → prepare w private_key amount destination answer ≡ returns (tx, w1)
        → Sends private_key w1 txs w2
        → Sends private_key w (tx ∷ txs) w2

  -- The UTXOs that `prepare` reads, and the transaction that it builds and signs.
  pub prepare_steps :
      (w w' : Wallet) (private_key : PrivateKey) (amount : Satoshi) (destination : String)
      (answer : Result (Result GetUtxosResponse GetUtxosError) Rejection) (tx : Transaction)
      → prepare w private_key amount destination answer ≡ returns (tx, w')
      → (to : Address) × (utxos : List Utxo) × (spending : Transaction) × (read_utxos answer
          ≡ returns utxos)
        × (spend w utxos (btc_address private_key) to amount ≡ returns (spending, w'))
        × (unsigned tx ≡ unsigned spending)
  unfolding prepare
  prepare_steps w w' private_key amount destination answer tx e =
      let (to, e0) =
        address_read (leb amount fees) (lib.address_from_str destination) _ (tx, w') e in
      let (utxos, read, e1) = >>=-eq-returns (read_utxos answer) _ e0 in
      let (r, spent, e2) =
        >>=-eq-returns (spend w utxos (btc_address private_key) to amount) _ e1 in
      let (signed, is_signed, e3) =
        >>=-eq-returns (sign_transaction r.0 private_key (btc_address private_key)) _ e2 in
      let same_tx : signed ≡ tx = cc in
      let same_wallet : r.1 ≡ w' = cc in
      (
        to,
        utxos,
        r.0,
        read,
        spent ∙ ap (λ v. returns (r.0, v)) same_wallet,
        ap unsigned (sym same_tx)
            ∙ sign_transaction-unsigned r.0 signed private_key (btc_address private_key) is_signed,
      )

module _ ⦃lib : Bitcoin⦄ {PrivateKey : Type 0} ⦃keys : Keys PrivateKey⦄
    (exact : HashBytesExact lib) where
  -- `spend_lem`, for the signed transaction.
  prepare_lem :
      (w w' : Wallet) (private_key : PrivateKey) (amount : Satoshi) (destination : String)
      (answer : Result (Result GetUtxosResponse GetUtxosError) Rejection) (tx : Transaction)
      → prepare w private_key amount destination answer ≡ returns (tx, w')
      → All (λ o. is_spent w o ≡ false) (map input_outpoint tx.input)
        × (w'.spent_txos ≡ w.spent_txos ++ map input_outpoint tx.input)
  prepare_lem w w' private_key amount destination answer tx e =
      let (to, utxos, spending, _, spent, same) =
        prepare_steps w w' private_key amount destination answer tx e in
      let outpoints = unsigned-inputs input_outpoint (λ i. refl) spending tx (sym same) in
      let (fresh, kept) =
        spend_lem exact w w' utxos (btc_address private_key) to amount spending spent in
      (
        subst (All (λ o. is_spent w o ≡ false)) outpoints fresh,
        kept ∙ ap (λ l. w.spent_txos ++ l) outpoints,
      )

  -- If only the bytes that a hash writes are read as that hash, then whatever the Bitcoin canister
  -- answers to the calls of `send`, no transaction that is signed spends an outpoint that the wallet
  -- remembered at first or that a transaction signed before it spends.
  pub Sends-AreFresh :
      (private_key : PrivateKey) (w w' : Wallet) (txs : List Transaction)
      → Sends private_key w txs w'
      → AreFresh w.spent_txos txs
  Sends-AreFresh private_key w w' [] none_left = tt
  Sends-AreFresh private_key w w' (tx ∷ txs) (sent {w1 = w1} amount destination answer e sends) =
      let (fresh, kept) = prepare_lem w w1 private_key amount destination answer tx e in
      (fresh, subst (λ l. AreFresh l txs) kept (Sends-AreFresh private_key w1 w' txs sends))
