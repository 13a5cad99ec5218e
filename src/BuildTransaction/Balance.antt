-- ===== src/BuildTransaction/Balance.antt =====
-- What `build_transaction` selects, pays and refuses.
use bitcoin_dip.Base.{
  ◌+◌, ◌^◌, ◌≤◌, ◌<◌, ◌≡◌, refl, sym, ap, ap₂, ◌∙◌, inl, inr, List, [], ◌∷◌, ◌++◌, append-nil,
  append_assoc, Bool, true, false, leb, ltb, if◌then◌else◌, Bool-cases, Outcome, returns, arith,
  checked_add64,
}
use bitcoin_dip.Bitcoin.{TxOut, Satoshi}
use bitcoin_dip.Types.{Utxo}
use bitcoin_dip.BuildTransaction.{select_utxos}

abbrev pub values : List Utxo → Satoshi
values [] = 0
values (u ∷ us) = u.value + values us

abbrev pub paid : List TxOut → Satoshi
paid [] = 0
paid (o ∷ os) = o.value + paid os

-- The shortest prefix that brings the total to `needed`, or the whole list.
abbrev pub prefix_for : Satoshi → Satoshi → List Utxo → List Utxo
prefix_for needed total [] = []
prefix_for needed total (u ∷ us) =
    let more = u ∷ prefix_for needed (total + u.value) us in
    if leb needed (total + u.value) then u ∷ [] else more

abbrev selection : Satoshi → List Utxo → Outcome (Satoshi × List Utxo)
selection total us = returns (total, us)

-- The totals and the lists agree.
both : {t t' : Satoshi} {us us' : List Utxo} → t ≡ t' → us ≡ us' → selection t us ≡ selection t' us'
both h k = ap₂ selection h k

-- One round of the loop, by its test.
round :
    (b : Bool) (u : Utxo) (total : Satoshi) (spent p : List Utxo)
    (more : Outcome (Satoshi × List Utxo))
    → more ≡ returns (total + u.value + values p, spent ++ u ∷ [] ++ p)
    → elim b [ true ↦ returns (total + u.value, spent ++ u ∷ []) | false ↦ more ]
      ≡ returns
          (total + values (if b then u ∷ [] else u ∷ p), spent ++ (if b then u ∷ [] else u ∷ p))
round true u total spent p more h = both (omega arith) refl
round false u total spent p more h = h ∙ both (omega arith) (append_assoc spent (u ∷ []) p)

-- The loop adds up the shortest prefix that is enough.
select_utxos_lem :
    (us : List Utxo) (amount fees total : Satoshi) (spent : List Utxo)
    → total + values us < 2 ^ 64
    → amount + fees < 2 ^ 64
    → select_utxos us amount fees total spent
      ≡ returns (
        total + values (prefix_for (amount + fees) total us),
        spent ++ prefix_for (amount + fees) total us,
      )
unfolding select_utxos
select_utxos_lem [] amount fees total spent h k = both (omega arith) (sym (append-nil spent))
select_utxos_lem (u ∷ us) amount fees total spent h k =
    let e1 : checked_add64 total u.value ≡ returns (total + u.value) = ground arith in
    let e2 : checked_add64 amount fees ≡ returns (amount + fees) = ground arith in
    rw (e1, e2)
      (round (leb (amount + fees) (total + u.value)) u total spent _ _
        (select_utxos_lem us amount fees (total + u.value) (spent ++ u ∷ []) (omega arith) k))

-- What is selected is a prefix.
pub prefix_for-prefix :
    (needed total : Satoshi) (us : List Utxo)
    → (rest : List Utxo) × (us ≡ prefix_for needed total us ++ rest)
prefix_for-prefix needed total [] = ([], refl)
prefix_for-prefix needed total (u ∷ us) = elim (Bool-cases (leb needed (total + u.value))) [
  | inl enough ↦ (us, rw enough)
  | inr short ↦
      let (rest, e) = prefix_for-prefix needed (total + u.value) us in
      (rest, rw short (ap (◌∷◌ u) e))
]

-- It reaches the amount needed, if the whole list does.
pub prefix_for-enough :
    (needed total : Satoshi) (us : List Utxo)
    → total < needed
    → needed ≤ total + values us
    → needed ≤ total + values (prefix_for needed total us)
prefix_for-enough needed total [] h k = omega arith
prefix_for-enough needed total (u ∷ us) h k =
    ground (arith, prefix_for-enough needed (total + u.value) us)

-- It is the whole list, if that does not reach it.
pub prefix_for-all :
    (needed total : Satoshi) (us : List Utxo)
    → total + values us < needed
    → prefix_for needed total us ≡ us
prefix_for-all needed total [] h = refl
prefix_for-all needed total (u ∷ us) h = ground (arith, prefix_for-all needed (total + u.value) us)

pub prefix_for-covers :
    (needed : Satoshi) (us : List Utxo)
    → needed ≤ values us
    → needed ≤ values (prefix_for needed 0 us)
prefix_for-covers needed us h = elim (Bool-cases (ltb 0 needed)) [
  | inl positive ↦
      let e = prefix_for-enough needed 0 us (ground arith) (omega arith) in omega (arith, e)
  | inr none_needed ↦ ground arith
]

-- The selection from the start.
pub chosen_lem :
    (us : List Utxo) (amount fees : Satoshi)
    → values us < 2 ^ 64
    → amount + fees < 2 ^ 64
    → select_utxos us amount fees 0 []
      ≡ returns (values (prefix_for (amount + fees) 0 us), prefix_for (amount + fees) 0 us)
chosen_lem us amount fees h k =
    select_utxos_lem us amount fees 0 [] (omega arith) k ∙ both (omega arith) refl
