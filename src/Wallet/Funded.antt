-- ===== src/Wallet/Funded.antt =====
-- The example canister on top of the Bitcoin canister: what a signed transaction spends is there.
use bitcoin_dip.Base.{
  ℕ, ◌+◌, ◌^◌, ◌%◌, ◌<◌, ◌≡◌, refl, sym, ap, subst, ◌∙◌, String, Bool, true, false, not, Option,
  none, some, List, [], ◌∷◌, map, filter, length, if◌then◌else◌, All, All-map, All-imp, Outcome,
  returns, panics, unwrap, >>=-eq-returns,
}
use bitcoin_dip.Base.Entries.{entries-All_found}
use bitcoin_dip.Base.HashMap
use bitcoin_dip.Bitcoin.{
  Bitcoin, HashBytesAgree, Address, Satoshi, Network, OutPoint, TxIn, TxOut, Transaction, Block,
  Height, hash_of_bytes, bytes_of_hash, outpoint_eq,
}
use bitcoin_dip.Types.{Utxo, GetUtxosResponse, GetUtxosError}
use bitcoin_dip.Store.{UtxoEntry, current_chain}
use bitcoin_dip.Store.Insert.{IsConsistent}
use bitcoin_dip.Store.Ledger.{confirmed_blocks, keyed, after_blocks, AllNewBlocks, visible}
use bitcoin_dip.UtxoSet.Index.{is_address, pays}
use bitcoin_dip.UtxoSet.Transact.{Utxos}
use bitcoin_dip.BlockForest.Ancestry.{filter-All_of}
use bitcoin_dip.BuildTransaction.{to_inputs}
use bitcoin_dip.Canister.{Canister, Result, ok}
use bitcoin_dip.Canister
use bitcoin_dip.Canister.Answer.{shown, get_utxos-answers}
use bitcoin_dip.SignTransaction.{Keys}
use bitcoin_dip.Wallet.{
  Wallet, is_spent, fees, spend, btc_address, read_utxos, get_utxos_request, prepare,
}
use bitcoin_dip.Wallet.Spent.{select_utxos-All, build_transaction-inputs, spend_steps}
use bitcoin_dip.Wallet.Sends.{prepare_steps, unsigned-inputs}

read_ok : Outcome (List Utxo) → List Utxo
read_ok (returns us) = us
read_ok (panics p) = []

inputs_read : Outcome (List TxIn) → List TxIn
inputs_read (returns is) = is
inputs_read (panics p) = []

module _ ⦃lib : Bitcoin⦄ where
  -- The outpoint has an unspent output, which pays the address.
  abbrev pub Owns : String → Network → Utxos → OutPoint → Type 0
  Owns a network m o =
      (v : TxOut × Height) × (m o ≡ some v) × (is_address a (pays network (some v)) ≡ true)

  visible-Owns :
      (a : String) (network : Network) (top : Height) (min : ℕ) (m : Utxos) (o : OutPoint)
      (v : TxOut × Height)
      → visible a network top min (m o) ≡ some v
      → Owns a network m o
  visible-Owns a network top min m o v e = by_output (m o) refl e
    where
      by_address :
          (w : TxOut × Height) (b : Bool) (x : Option (TxOut × Height))
          → m o ≡ some w
          → is_address a (pays network (some w)) ≡ b
          → (if b then x else none) ≡ some v
          → Owns a network m o
      by_address w true x same pays_it e = (w, same, pays_it)
      by_address w false x same pays_it e = absurd (cc e)

      by_output :
          (r : Option (TxOut × Height))
          → m o ≡ r
          → visible a network top min r ≡ some v
          → Owns a network m o
      by_output none same e = absurd (cc e)
      by_output (some w) same e = by_address w (is_address a (pays network (some w))) _ same refl e

  -- The UTXO names such an outpoint.
  abbrev IsOwned : String → Network → Utxos → Utxo → Type 0
  IsOwned a network m u =
      (o : OutPoint) × (u.outpoint ≡ record { txid = bytes_of_hash o.txid; vout = o.vout })
      × Owns a network m o

  keyed-found :
      (P : OutPoint → Type 0) (l : List UtxoEntry) → All (λ x. P x.0) (keyed l) → All (λ e. P e.0) l
  keyed-found P [] a = tt
  keyed-found P (e ∷ l) a = (a.0, keyed-found P l a.1)

  module _ (agree : HashBytesAgree lib) where
    to_inputs-Owns :
        (a : String) (network : Network) (m : Utxos) (us : List Utxo) (is : List TxIn)
        → All (IsOwned a network m) us
        → to_inputs us ≡ returns is
        → All (λ i. Owns a network m i.previous_output) is
    unfolding to_inputs inputs_read
    to_inputs-Owns a network m [] is all e =
        subst (λ r. All (λ i. Owns a network m i.previous_output) (inputs_read r)) e tt
    to_inputs-Owns a network m (u ∷ us) is all e =
        let (o, named, owns) = all.0 in
        let (txid, read, e1) = >>=-eq-returns (unwrap (hash_of_bytes u.outpoint.txid)) _ e in
        let (rest, later, e2) = >>=-eq-returns (to_inputs us) _ e1 in
        let same : o.txid ≡ txid =
          cc (ap (λ p. unwrap (hash_of_bytes p.txid)) (sym named) ∙ read, agree o.txid) in
        let here : o ≡ record { txid = txid; vout = u.outpoint.vout } =
          cc (same, ap (λ p. p.vout) named) in
        subst (λ r. All (λ i. Owns a network m i.previous_output) (inputs_read r)) e2
          (subst (Owns a network m) here owns, to_inputs-Owns a network m us rest all.1 later)

    spending-Owns :
        (a : String) (network : Network) (m : Utxos) (w w' : Wallet) (utxos : List Utxo)
        (from to : Address) (amount : Satoshi) (tx : Transaction)
        → All (IsOwned a network m) utxos
        → spend w utxos from to amount ≡ returns (tx, w')
        → All (λ i. Owns a network m i.previous_output) tx.input
    spending-Owns a network m w w' utxos from to amount tx all e =
        let fresh = λ (u : Utxo). not (is_spent w u.outpoint) in
        let (made, _) = spend_steps w w' utxos from to amount tx e in
        let (r, selected, read) =
          build_transaction-inputs (filter fresh utxos) from to amount fees tx made in
        to_inputs-Owns a network m r.1 tx.input
          (select_utxos-All (IsOwned a network m) (filter fresh utxos) amount fees r
            (filter-All_of (IsOwned a network m) fresh utxos all) selected)
          read

    -- If the bytes of a hash read back as the hash, `get_utxos-answers` applies to the Bitcoin
    -- canister for the wallet's address, and its answer to the wallet's request is what `send` reads,
    -- then each input of the transaction that is signed spends an output that the ledger has unspent
    -- and that pays the wallet's address.
    pub prepare-Owns :
        {PrivateKey : Type 0} ⦃keys : Keys PrivateKey⦄ (c : Canister) (private_key : PrivateKey)
        (address : Address) (chain : List Block) (response : Result GetUtxosResponse GetUtxosError)
        (w w' : Wallet) (amount : Satoshi) (destination : String) (tx : Transaction)
        → lib.address_from_str (btc_address private_key) ≡ some address
        → IsConsistent c.state
        → current_chain c.state ≡ returns chain
        → c.state.height + length chain + 1 < 2 ^ 32
        → AllNewBlocks
            (confirmed_blocks 0 chain)
            (c.state.height + 1)
            (HashMap.get c.state.utxos.utxos)
        → Canister.get_utxos c (get_utxos_request private_key) ≡ returns response
        → prepare w private_key amount destination (ok response) ≡ returns (tx, w')
        → All
            (Owns (btc_address private_key) c.state.utxos.network (
              after_blocks
                (confirmed_blocks 0 chain)
                (c.state.height + 1)
                (HashMap.get c.state.utxos.utxos)))
            (map (λ i. i.previous_output) tx.input)
    unfolding read_ok
    prepare-Owns c private_key address chain response w w' amount destination tx known v current
          fits new answered prepared =
        let a = btc_address private_key in
        let network = c.state.utxos.network in
        let top : Height = c.state.height + length chain in
        let m : Utxos =
          after_blocks (confirmed_blocks 0 chain) (c.state.height + 1)
            (HashMap.get c.state.utxos.utxos) in
        let (l, done, _, is_map, looks) =
          get_utxos-answers c (get_utxos_request private_key) address chain known v current fits
            new in
        let (to, utxos, spending, read, spent, same) =
          prepare_steps w w' private_key amount destination (ok response) tx prepared in
        let listed : ok (record { utxos = map (shown top) l; total_count = length l % 2 ^ 32 })
            ≡ response =
          cc (sym done ∙ answered) in
        let same_utxos : map (shown top) l ≡ utxos =
          ap (λ r. read_ok (read_utxos (ok r))) listed ∙ ap read_ok read in
        let owned : All (λ e. Owns a network m e.0) l = keyed-found (Owns a network m) l (
          entries-All_found (λ o x. Owns a network m o) (keyed l) is_map
            (λ o x found. visible-Owns a network top 0 m o x (sym (looks o) ∙ found))) in
        let all_owned : All (IsOwned a network m) utxos =
          subst (All (IsOwned a network m)) same_utxos (
            All-map (IsOwned a network m) (shown top) l
              (All-imp (λ e. Owns a network m e.0) _ (λ e h. (e.0, refl, h)) l owned)) in
        subst (All (Owns a network m))
          (unsigned-inputs (λ i. i.previous_output) (λ i. refl) spending tx (sym same))
          (All-map (Owns a network m) (λ i. i.previous_output) spending.input
            (spending-Owns a network m w w' utxos a to amount spending all_owned spent))
