-- ===== src/SignTransaction/Valid.antt =====
-- What `sign_transaction` returns: the same transaction, with a valid signature in each input.
use bitcoin_dip.Base.{
  ℕ, suc, ◌≡◌, refl, sym, ap, ◌∙◌, some, List, [], ◌∷◌, map, Outcome, Bool, true, false, returns,
  panics, unsupported_address, unwrap, >>=-eq-returns, ◌>>=◌, if◌then◌else◌,
}
use bitcoin_dip.Bitcoin.{Bitcoin, Bytes, Script, Address, TxIn, Transaction, script_of}
use bitcoin_dip.SignTransaction.{Keys, script_sig_of, sign_inputs, sign_transaction}

-- An input without the fields that a signature fills.
abbrev pub blank : TxIn → TxIn
blank i = record i { script_sig = []; witness = [] }

abbrev pub unsigned : Transaction → Transaction
unsigned tx = record tx { input = map blank tx.input }

inputs_of : Outcome (List TxIn) → List TxIn
inputs_of (returns is) = is
inputs_of (panics p) = []

-- The signature hash does not read what a signature fills.
abbrev pub IsBlind : {PrivateKey : Type 0} → Keys PrivateKey → Type 0
IsBlind keys =
    (tx tx' : Transaction) (index : ℕ) (script : Script) (kind : ℕ)
    → unsigned tx ≡ unsigned tx'
    → keys.signature_hash tx index script kind ≡ keys.signature_hash tx' index script kind

module _ {PrivateKey : Type 0} ⦃keys : Keys PrivateKey⦄ where
  -- The key can sign a signature hash.
  abbrev pub Signs : PrivateKey → Type 0
  Signs private_key =
      (tx : Transaction) (index : ℕ) (script : Script) (kind : ℕ)
      → (signature : Bytes) × (keys.sign private_key (keys.signature_hash tx index script kind)
          ≡ some signature)

  -- The inputs, from position `index` on, carry signatures of the transaction `tx`.
  abbrev pub AreSigned : Transaction → PrivateKey → Script → ℕ → List TxIn → Type 0
  AreSigned tx private_key script index [] = Unit {0}
  AreSigned tx private_key script index (i ∷ is) =
      ((signature : Bytes) × (keys.sign private_key
            (keys.signature_hash tx index script keys.sighash_all)
          ≡ some signature)
        × (i.script_sig ≡ script_sig_of private_key signature))
      × (i.witness ≡ [])
      × AreSigned tx private_key script (suc index) is

  sign_inputs_lem :
      (tx : Transaction) (private_key : PrivateKey) (script : Script) (index : ℕ) (is : List TxIn)
      → Signs private_key
      → (is' : List TxIn) × (sign_inputs tx private_key script index is ≡ returns is')
        × (map blank is' ≡ map blank is)
        × AreSigned tx private_key script index is'
  unfolding sign_inputs
  sign_inputs_lem tx private_key script index [] signs = ([], refl, refl, tt)
  sign_inputs_lem tx private_key script index (i ∷ is) signs =
      let (signature, signed) = signs tx index script keys.sighash_all in
      let (rest, done, same, all) = sign_inputs_lem tx private_key script (suc index) is signs in
      (
        record i { script_sig = script_sig_of private_key signature; witness = [] } ∷ rest,
        rw (signed, done) refl,
        ap (λ l. blank i ∷ l) same,
        ((signature, signed, refl), refl, all),
      )

  -- The inputs that are signed name the outpoints that they named.
  sign_inputs-blank :
      (tx : Transaction) (private_key : PrivateKey) (script : Script) (index : ℕ)
      (is is' : List TxIn)
      → sign_inputs tx private_key script index is ≡ returns is'
      → map blank is' ≡ map blank is
  unfolding sign_inputs inputs_of
  sign_inputs-blank tx private_key script index [] is' e = ap (λ r. map blank (inputs_of r)) (sym e)
  sign_inputs-blank tx private_key script index (i ∷ is) is' e =
      let hash = keys.signature_hash tx index script keys.sighash_all in
      let (signature, _, e1) = >>=-eq-returns (unwrap (keys.sign private_key hash)) _ e in
      let (rest, done, e2) =
        >>=-eq-returns (sign_inputs tx private_key script (suc index) is) _ e1 in
      ap (λ r. map blank (inputs_of r)) (sym e2)
      ∙ ap (λ l. blank i ∷ l) (sign_inputs-blank tx private_key script (suc index) is rest done)

  -- A transaction that is signed is the one to sign but for the signatures.
  pub sign_transaction-unsigned :
      ⦃lib : Bitcoin⦄
      → (tx tx' : Transaction) (private_key : PrivateKey) (src_address : Address)
      → sign_transaction tx private_key src_address ≡ returns tx'
      → unsigned tx' ≡ unsigned tx
  unfolding sign_transaction
  sign_transaction-unsigned tx tx' private_key src_address e = by_type (keys.is_p2pkh src_address) e
    where
      by_type :
          (b : Bool)
          → (if b
              then (do
                inputs ← sign_inputs tx private_key (script_of src_address) 0 tx.input
                returns (record tx { input = inputs }))
              else panics unsupported_address)
            ≡ returns tx'
          → unsigned tx' ≡ unsigned tx
      by_type false e = absurd (cc e)
      by_type true e =
          let (is, done, e1) =
            >>=-eq-returns (sign_inputs tx private_key (script_of src_address) 0 tx.input) _ e in
          let made : record tx { input = is } ≡ tx' = cc in
          ap unsigned (sym made)
          ∙ ap (λ l. record tx { input = l })
              (sign_inputs-blank tx private_key (script_of src_address) 0 tx.input is done)

  -- Signatures of one transaction are signatures of another that differs in them only.
  AreSigned-unsigned :
      (tx tx' : Transaction) (private_key : PrivateKey) (script : Script) (index : ℕ)
      (is : List TxIn)
      → IsBlind keys
      → unsigned tx ≡ unsigned tx'
      → AreSigned tx private_key script index is
      → AreSigned tx' private_key script index is
  AreSigned-unsigned tx tx' private_key script index [] blind e a = tt
  AreSigned-unsigned tx tx' private_key script index (i ∷ is) blind e a =
      let (signature, signed, filled) = a.0 in
      (
        (
          signature,
          ap (keys.sign private_key) (sym (blind tx tx' index script keys.sighash_all e)) ∙ signed,
          filled,
        ),
        a.1,
        AreSigned-unsigned tx tx' private_key script (suc index) is blind e a.2,
      )

  -- If the signature hash does not read signatures and the key can sign one, a transaction that
  -- spends from a P2PKH address is signed without a panic. Only the signatures and the witnesses of
  -- its inputs change: the witnesses are empty then, and each signature is that of the signature
  -- hash of the transaction that is returned, as who verifies it computes it.
  pub sign_transaction-AreSigned :
      ⦃lib : Bitcoin⦄
      → (tx : Transaction) (private_key : PrivateKey) (src_address : Address) → IsBlind keys
      → Signs private_key
      → keys.is_p2pkh src_address ≡ true
      → (tx' : Transaction) × (sign_transaction tx private_key src_address ≡ returns tx')
        × (unsigned tx' ≡ unsigned tx)
        × AreSigned tx' private_key (script_of src_address) 0 tx'.input
  unfolding sign_transaction
  sign_transaction-AreSigned tx private_key src_address blind signs p2pkh =
      let (is, done, same, all) =
        sign_inputs_lem tx private_key (script_of src_address) 0 tx.input signs in
      let tx' : Transaction = record tx { input = is } in
      let unchanged : unsigned tx' ≡ unsigned tx = ap (λ l. record tx { input = l }) same in
      (
        tx',
        rw (p2pkh, done) refl,
        unchanged,
        AreSigned-unsigned tx tx' private_key (script_of src_address) 0 is blind (sym unchanged)
            all,
      )
