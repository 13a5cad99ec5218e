-- ===== src/Base/HashMap.antt =====
-- The parts of `HashMap` and `BTreeMap` that the program uses, as association lists.
use mathlib.Core.Path.{◌≡◌, refl}
use mathlib.Core.Bool.{Bool, true, false}
use mathlib.Core.List.{List, [], ◌∷◌}
use mathlib.Core.Option.{Option, none, some}
use native.Mathlib.Omega.{arith}
use bitcoin_dip.Base.Tests.{Eq, ◌==◌, if◌then◌else◌}

module _ {ℓ κ} {K : Type ℓ} {V : Type κ} ⦃e : Eq K⦄ where
  unfoldable pub get : List (K × V) → K → Option V
  get [] k = none
  get ((j, v) ∷ m) k = if j == k then some v else get m k

  -- Replaces the value of a key that is present.
  unfoldable pub insert : List (K × V) → K → V → List (K × V)
  insert [] k v = (k, v) ∷ []
  insert ((j, w) ∷ m) k v = if j == k then (j, v) ∷ m else (j, w) ∷ insert m k v

  unfoldable pub remove : List (K × V) → K → List (K × V)
  remove [] k = []
  remove ((j, w) ∷ m) k = let rest = remove m k in if j == k then rest else (j, w) ∷ rest

  unfoldable pub contains_key : List (K × V) → K → Bool
  contains_key [] k = false
  contains_key ((j, w) ∷ m) k = let rest = contains_key m k in if j == k then true else rest

  pub get-insert :
      (m : List (K × V)) (k j : K) (v : V)
      → get (insert m k v) j ≡ (if k == j then some v else get m j)
  unfolding get insert
  get-insert [] k j v = refl
  get-insert ((i, w) ∷ m) k j v =
      ground (arith, get-insert m k j v, e.beq_iff i k, e.beq_iff i j, e.beq_iff k j)

  pub get-remove :
      (m : List (K × V)) (k j : K) → get (remove m k) j ≡ (if k == j then none else get m j)
  unfolding get remove
  get-remove [] k j = ground arith
  get-remove ((i, w) ∷ m) k j =
      ground (arith, get-remove m k j, e.beq_iff i k, e.beq_iff i j, e.beq_iff k j)

  pub contains_key_lem :
      (m : List (K × V)) (k : K)
      → contains_key m k ≡ elim (get m k) [ none ↦ false | some _ ↦ true ]
  unfolding get contains_key
  contains_key_lem [] k = refl
  contains_key_lem ((j, w) ∷ m) k = ground (arith, contains_key_lem m k)

  -- No key stands twice.
  abbrev pub IsMap : List (K × V) → Type 0
  IsMap [] = Unit {0}
  IsMap ((k, v) ∷ m) = (contains_key m k ≡ false) × IsMap m

  contains_key-insert :
      (m : List (K × V)) (k j : K) (v : V)
      → contains_key (insert m k v) j ≡ (if k == j then true else contains_key m j)
  unfolding contains_key insert
  contains_key-insert [] k j v = refl
  contains_key-insert ((i, w) ∷ m) k j v =
      ground (arith, contains_key-insert m k j v, e.beq_iff i k, e.beq_iff i j, e.beq_iff k j)

  contains_key-remove :
      (m : List (K × V)) (k j : K) → contains_key m j ≡ false → contains_key (remove m k) j ≡ false
  unfolding contains_key remove
  contains_key-remove [] k j h = refl
  contains_key-remove ((i, w) ∷ m) k j h = ground (arith, contains_key-remove m k j)

  pub insert-IsMap : (m : List (K × V)) (k : K) (v : V) → IsMap m → IsMap (insert m k v)
  unfolding insert contains_key
  insert-IsMap [] k v h = (refl, tt)
  insert-IsMap ((i, w) ∷ m) k v h =
      ground (arith, contains_key-insert m k i v, insert-IsMap m k v, e.beq_iff i k, e.beq_iff k i)

  pub remove-IsMap : (m : List (K × V)) (k : K) → IsMap m → IsMap (remove m k)
  unfolding remove
  remove-IsMap [] k h = tt
  remove-IsMap ((i, w) ∷ m) k h = ground (arith, contains_key-remove m k i, remove-IsMap m k)
