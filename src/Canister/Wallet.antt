-- ===== src/Canister/Wallet.antt =====
-- The answers for one address: the balance is the sum of the UTXOs that `get_utxos` lists.
use bitcoin_dip.Base.{
  ℕ, ◌+◌, ◌^◌, ◌<◌, ◌≡◌, refl, sym, ap, subst, ◌∙◌, String, Option, none, some, Option-cases, inl,
  inr, List, [], ◌∷◌, Outcome, returns, panics, arith, >>=-eq-returns, ◌>>=◌, checked_sub,
  checked_add32, checked_add64,
}
use bitcoin_dip.Bitcoin.{Bitcoin, Height, Satoshi, Address}
use bitcoin_dip.Types.{
  Utxo, GetUtxosRequest, GetUtxosResponse, GetUtxosError, GetBalanceRequest, GetBalanceError,
  from_get_utxos_error,
}
use bitcoin_dip.Store.{UtxoEntry, sum_values, main_chain_height}
use bitcoin_dip.Store
use mathlib.Core.Option
use bitcoin_dip.Canister.{
  Canister, Result, ok, err, answer_utxos, write_utxos, get_utxos, get_balance,
}

abbrev pub total : List Utxo → Satoshi
total [] = 0
total (u ∷ us) = u.value + total us

answered : Outcome GetUtxosResponse → Satoshi
answered (returns response) = total response.utxos
answered (panics p) = 0

listed : Outcome (List Utxo) → Satoshi
listed (returns us) = total us
listed (panics p) = 0

module _ ⦃lib : Bitcoin⦄ where
  write_utxos-sum_values :
      (h : Height) (es : List UtxoEntry) (us : List Utxo) (balance : Satoshi)
      → write_utxos h es ≡ returns us
      → balance + total us < 2 ^ 64
      → sum_values es balance ≡ returns (balance + total us)
  unfolding write_utxos sum_values listed
  write_utxos-sum_values h [] us balance e k = ap returns (omega (arith, ap listed e))
  write_utxos-sum_values h (entry ∷ es) us balance e k =
      let (above, _, e1) = >>=-eq-returns (checked_sub h entry.2) _ e in
      let (n, _, e2) = >>=-eq-returns (checked_add32 above 1) _ e1 in
      let (rest, written, e3) = >>=-eq-returns (write_utxos h es) _ e2 in
      let sum : entry.1.value + total rest ≡ total us = ap listed e3 in
      let added : checked_add64 balance entry.1.value ≡ returns (balance + entry.1.value) =
        ground arith in
      rw added (
        write_utxos-sum_values h es rest (balance + entry.1.value) written (omega arith)
        ∙ ap returns (omega arith))

  abbrev pub utxos_request : String → Option ℕ → GetUtxosRequest
  utxos_request address min = record { address = address; min_confirmations = min }

  abbrev pub balance_request : String → Option ℕ → GetBalanceRequest
  balance_request address min = record { address = address; min_confirmations = min }

  -- What `get_balance` answers where `get_utxos` gives an answer.
  abbrev pub balance_of : Result GetUtxosResponse GetUtxosError → Result Satoshi GetBalanceError
  balance_of (ok response) = ok (total response.utxos)
  balance_of (err e) = err (from_get_utxos_error e)

  abbrev pub Fits : Result GetUtxosResponse GetUtxosError → Type 0
  Fits (ok response) = total response.utxos < 2 ^ 64
  Fits (err e) = Unit {0}

  get_utxos-malformed :
      (c : Canister) (request : GetUtxosRequest)
      → lib.address_from_str request.address ≡ none
      → get_utxos c request ≡ returns (err GetUtxosError.malformed_address)
  unfolding get_utxos
  get_utxos-malformed c request d = rw (get_utxos, d) refl

  get_balance-malformed :
      (c : Canister) (request : GetBalanceRequest)
      → lib.address_from_str request.address ≡ none
      → get_balance c request ≡ returns (err GetBalanceError.malformed_address)
  unfolding get_balance
  get_balance-malformed c request d = rw (get_balance, d) refl

  get_utxos-found :
      (c : Canister) (request : GetUtxosRequest) (a : Address)
      → lib.address_from_str request.address ≡ some a
      → get_utxos c request ≡ (answer_utxos c request >>= λ response. returns (ok response))
  unfolding get_utxos
  get_utxos-found c request a d = rw (get_utxos, d) refl

  get_balance-found :
      (c : Canister) (request : GetBalanceRequest) (a : Address)
      → lib.address_from_str request.address ≡ some a
      → get_balance c request ≡ (
          Store.get_balance c.state request.address (Option.get_or request.min_confirmations 0)
          >>= λ balance. returns (ok balance))
  unfolding get_balance
  get_balance-found c request a d = rw (get_balance, d) refl

  answer_utxos-get_balance :
      (c : Canister) (request : GetUtxosRequest) (response : GetUtxosResponse)
      → answer_utxos c request ≡ returns response
      → total response.utxos < 2 ^ 64
      → Store.get_balance c.state request.address (Option.get_or request.min_confirmations 0)
        ≡ returns (total response.utxos)
  unfolding answer_utxos Store.get_balance answered
  answer_utxos-get_balance c request response e k =
      let min = Option.get_or request.min_confirmations 0 in
      let (h, _, e1) = >>=-eq-returns (main_chain_height c.state) _ e in
      let (entries, looked, e2) =
        >>=-eq-returns (Store.get_utxos c.state request.address min) _ e1 in
      let (us, written, e3) = >>=-eq-returns (write_utxos h entries) _ e2 in
      let same : total us ≡ total response.utxos = ap answered e3 in
      rw looked (
        write_utxos-sum_values h entries us 0 written (omega arith)
        ∙ ap returns (omega (arith, same)))

  -- If `get_utxos` answers for an address and the values it lists sum below 2^64, `get_balance`
  -- answers for the same address with that sum, or with the same error.
  pub get_balance-get_utxos :
      (c : Canister) (address : String) (min : Option ℕ) (r : Result GetUtxosResponse GetUtxosError)
      → get_utxos c (utxos_request address min) ≡ returns r
      → Fits r
      → get_balance c (balance_request address min) ≡ returns (balance_of r)
  unfolding from_get_utxos_error
  get_balance-get_utxos c address min r e k = elim (Option-cases (lib.address_from_str address)) [
    | inl d ↦
        let same : err GetUtxosError.malformed_address ≡ r =
          cc (get_utxos-malformed c (utxos_request address min) d, e) in
        get_balance-malformed c (balance_request address min) d
        ∙ ap (λ x. returns (balance_of x)) same
    | inr (a, d) ↦
        let (response, answer, e1) =
          >>=-eq-returns (answer_utxos c (utxos_request address min)) _
            (sym (get_utxos-found c (utxos_request address min) a d) ∙ e) in
        let same : ok response ≡ r = cc in
        let small : total response.utxos < 2 ^ 64 = subst Fits (sym same) k in
        let sum = answer_utxos-get_balance c (utxos_request address min) response answer small in
        get_balance-found c (balance_request address min) a d
        ∙ (ap (λ o. o >>= λ balance. returns (ok balance)) sum
            ∙ ap (λ x. returns (balance_of x)) same)
  ]
