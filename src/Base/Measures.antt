-- ===== src/Base/Measures.antt =====
-- Counts and maxima, which do not depend on the order of a list, and the two ends of a list.
use mathlib.Core.Logic.{∥∥₁_elim}
use mathlib.Core.List.{List, [], ◌∷◌, ◌++◌, Perm, Permᴰ, perm_middle}
use mathlib.Core.List.Perm
use mathlib.Core.Option.{some}
use mathlib.Core.Bool.{Bool, not}
use mathlib.Core.Path.{◌≡◌, refl, subst, ◌∙◌}
use mathlib.Core.Logic.{◌⊎◌, inl, inr}
use mathlib.Core.HLevel.{×_prop}
use native.Mathlib.Nat.{ℕ_set}
use native.Mathlib.Omega.{arith}
use Prim.Native.Nat.{ℕ, suc, ◌+◌, ◌≤◌}
use bitcoin_dip.Base.Tests.{if◌then◌else◌, Bool-cases}
use bitcoin_dip.Base.Lists.{length, maximum, filter, any, All, get_elem?, last?}

pub Bool-set : IsSet Bool
Bool-set = hlevel

module _ {ℓ} {A : Type ℓ} where
  abbrev pub count : (A → Bool) → List A → ℕ
  count p [] = 0
  count p (x ∷ xs) = let rest = count p xs in if p x then suc rest else rest

  pub count-append : (p : A → Bool) (xs ys : List A) → count p (xs ++ ys) ≡ count p xs + count p ys
  count-append p [] ys = omega arith
  count-append p (x ∷ xs) ys = ground (arith, count-append p xs ys)

  count-permᴰ : (p : A → Bool) {xs ys : List A} → Permᴰ xs ys → count p xs ≡ count p ys
  count-permᴰ p Permᴰ.nil = refl
  count-permᴰ p (Permᴰ.cons e r) = ground (arith, count-permᴰ p r)
  count-permᴰ p (Permᴰ.swap e f) = ground arith
  count-permᴰ p (Permᴰ.trans r s) = count-permᴰ p r ∙ count-permᴰ p s

  pub count-perm : (p : A → Bool) (xs ys : List A) → Perm xs ys → count p xs ≡ count p ys
  count-perm p xs ys h = ∥∥₁_elim h (ℕ_set _ _) (count-permᴰ p)

  maximum-permᴰ : (f : A → ℕ) {xs ys : List A} → Permᴰ xs ys → maximum f xs ≡ maximum f ys
  maximum-permᴰ f Permᴰ.nil = refl
  maximum-permᴰ f (Permᴰ.cons e r) = ground (arith, maximum-permᴰ f r)
  maximum-permᴰ f (Permᴰ.swap e g) = ground arith
  maximum-permᴰ f (Permᴰ.trans r s) = maximum-permᴰ f r ∙ maximum-permᴰ f s

  pub maximum-perm : (f : A → ℕ) (xs ys : List A) → Perm xs ys → maximum f xs ≡ maximum f ys
  maximum-perm f xs ys h = ∥∥₁_elim h (ℕ_set _ _) (maximum-permᴰ f)

  pub maximum-le : (f : A → ℕ) (n : ℕ) (xs : List A) → All (λ x. f x ≤ n) xs → maximum f xs ≤ n
  maximum-le f n [] a = omega arith
  maximum-le f n (x ∷ xs) a = omega (arith, maximum-le f n xs a.1)

  -- A list is empty or ends in an element.
  pub last_view : (xs : List A) → (xs ≡ []) ⊎ ((ys : List A) × (t : A) × (xs ≡ ys ++ t ∷ []))
  last_view [] = inl refl
  last_view (x ∷ xs) = elim (last_view xs) [
    | inl e ↦ inr ([], x, rw e)
    | inr (ys, t, e) ↦ inr (x ∷ ys, t, rw e)
  ]

  pub last?-snoc : (ys : List A) (t : A) → last? (ys ++ t ∷ []) ≡ some t
  last?-snoc [] t = refl
  last?-snoc (y ∷ []) t = refl
  last?-snoc (y ∷ z ∷ zs) t = last?-snoc (z ∷ zs) t

  pub get_elem?-middle :
      (ys : List A) (t : A) (zs : List A) → get_elem? (ys ++ t ∷ zs) (length ys) ≡ some t
  get_elem?-middle [] t zs = refl
  get_elem?-middle (y ∷ ys) t zs = get_elem?-middle ys t zs

  pub partition-perm :
      (p : A → Bool) (xs : List A) → Perm (filter p xs ++ filter (λ x. not (p x)) xs) xs
  partition-perm p [] = Perm.nil
  partition-perm p (x ∷ xs) = elim (Bool-cases (p x)) [
    | inl e ↦ rw e (Perm.cons x (partition-perm p xs))
    | inr e ↦ rw e (
        Perm.trans (perm_middle (filter p xs) (filter (λ y. not (p y)) xs))
          (Perm.cons x (partition-perm p xs)))
  ]

  any-permᴰ : (p : A → Bool) {xs ys : List A} → Permᴰ xs ys → any p xs ≡ any p ys
  any-permᴰ p Permᴰ.nil = refl
  any-permᴰ p (Permᴰ.cons e r) = ground (arith, any-permᴰ p r)
  any-permᴰ p (Permᴰ.swap e f) = ground arith
  any-permᴰ p (Permᴰ.trans r s) = any-permᴰ p r ∙ any-permᴰ p s

  pub any-perm : (p : A → Bool) (xs ys : List A) → Perm xs ys → any p xs ≡ any p ys
  any-perm p xs ys h = ∥∥₁_elim h (Bool-set _ _) (any-permᴰ p)

module _ {ℓ κ} {A : Type ℓ} (P : A → Type κ) (prop : (x : A) → IsProp (P x)) where
  pub All-prop : (xs : List A) → IsProp (All P xs)
  All-prop [] = hlevel
  All-prop (x ∷ xs) = ×_prop (prop x) (All-prop xs)

  All-permᴰ : {xs ys : List A} → Permᴰ xs ys → All P xs → All P ys
  All-permᴰ Permᴰ.nil a = tt
  All-permᴰ (Permᴰ.cons e r) a = (subst P e a.0, All-permᴰ r a.1)
  All-permᴰ (Permᴰ.swap e f) a = (subst P f a.1.0, (subst P e a.0, a.1.1))
  All-permᴰ (Permᴰ.trans r s) a = All-permᴰ s (All-permᴰ r a)

  -- What holds of all holds of all in another order.
  pub All-perm : (xs ys : List A) → Perm xs ys → All P xs → All P ys
  All-perm xs ys h a = ∥∥₁_elim h (All-prop ys) (λ r. All-permᴰ r a)
