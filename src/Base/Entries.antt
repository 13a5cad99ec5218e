-- ===== src/Base/Entries.antt =====
-- What filters and predicates on an association list say of the map that it is.
use bitcoin_dip.Base.{
  ◌≡◌, sym, ap, ◌∙◌, inl, inr, Bool, Bool-cases, false, Option, none, some, List, [], ◌∷◌, filter,
  Eq, ◌==◌, if◌then◌else◌, All, arith, refl,
}
use bitcoin_dip.Base.HashMap
use bitcoin_dip.Base.HashMap.{IsMap}

-- The output is kept if its value passes.
abbrev pub when {ℓ} : {A : Type ℓ} → (A → Bool) → Option A → Option A
when p none = none
when p (some a) = if p a then some a else none

module _ {ℓ κ} {K : Type ℓ} {V : Type κ} ⦃e : Eq K⦄ where
  get_absent :
      (m : List (K × V)) (k : K) → HashMap.contains_key m k ≡ false → HashMap.get m k ≡ none
  unfolding HashMap.contains_key HashMap.get
  get_absent [] k h = refl
  get_absent ((j, w) ∷ m) k h = ground (arith, get_absent m k)

  elsewhere :
      (j k : K) (m : List (K × V)) (v : V)
      → HashMap.contains_key m j ≡ false
      → HashMap.get m k ≡ some v
      → (j == k) ≡ false
  elsewhere j k m v h found = elim (Bool-cases (j == k)) [
    | inl same ↦ absurd (
        cc (get_absent m k (ap (HashMap.contains_key m) (sym ((e.beq_iff j k).0 same)) ∙ h), found))
    | inr differs ↦ differs
  ]

  -- What holds of each key and value that a map finds holds of all its entries.
  pub entries-All_found {μ} :
      (P : K → V → Type μ) (m : List (K × V))
      → IsMap m
      → ((k : K) (v : V) → HashMap.get m k ≡ some v → P k v)
      → All (λ x. P x.0 x.1) m
  unfolding HashMap.get
  entries-All_found P [] h f = tt
  entries-All_found P ((j, w) ∷ m) h f = (
    f j w (rw ((e.beq_iff j j).1 refl) refl),
    entries-All_found P m h.1 (λ k v found. f k v (rw (elsewhere j k m v h.0 found) found)),
  )

  pub entries-All {μ} :
      (P : V → Type μ) (m : List (K × V))
      → IsMap m
      → ((k : K) (v : V) → HashMap.get m k ≡ some v → P v)
      → All (λ x. P x.1) m
  entries-All P m h f = entries-All_found (λ k v. P v) m h f

module _ {ℓ κ} {K : Type ℓ} {V : Type κ} ⦃e : Eq K⦄ (p : V → Bool) where
  contains_key-filter :
      (m : List (K × V)) (k : K)
      → HashMap.contains_key m k ≡ false
      → HashMap.contains_key (filter (λ x. p x.1) m) k ≡ false
  unfolding HashMap.contains_key
  contains_key-filter [] k h = refl
  contains_key-filter ((j, w) ∷ m) k h = ground (arith, contains_key-filter m k)

  pub filter-IsMap : (m : List (K × V)) → IsMap m → IsMap (filter (λ x. p x.1) m)
  filter-IsMap [] h = tt
  filter-IsMap ((j, w) ∷ m) h = ground (arith, contains_key-filter m j, filter-IsMap m)

  -- In a map a filter by value is a filter of what is found.
  pub get-filter :
      (m : List (K × V)) (k : K)
      → IsMap m
      → HashMap.get (filter (λ x. p x.1) m) k ≡ when p (HashMap.get m k)
  unfolding HashMap.get
  get-filter [] k h = refl
  get-filter ((j, w) ∷ m) k h = elim (Bool-cases (j == k)) [
    | inl same ↦
        let absent = get_absent _ k (
          contains_key-filter m k
            (ap (HashMap.contains_key m) (sym ((e.beq_iff j k).0 same)) ∙ h.0)) in
        ground (arith, absent)
    | inr differs ↦ ground (arith, get-filter m k)
  ]
