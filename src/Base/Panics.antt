-- ===== src/Base/Panics.antt =====
-- Computations that return or panic. A Rust panic traps the canister call and rolls its state back.
use Prim.Native.Nat.{ℕ, zero, suc, ◌+◌, ◌-◌, ◌^◌}
use mathlib.Core.Path.{◌≡◌, refl}
use mathlib.Core.Option.{Option, none, some}
use mathlib.Core.List.{List, [], ◌∷◌}
use bitcoin_dip.Base.Tests.{leb, ltb, if◌then◌else◌}

-- The panics that the modelled code can raise, by site; `out_of_fuel` is raised by no code.
pub data Panic : Type 0 where
  index_out_of_bounds unwrap_none arithmetic_overflow : Panic
  parent_hash_mismatch invalid_block_hash outpoint_must_exist outpoint_not_found
        outpoint_not_in_index :
      Panic
  outpoint_already_inserted invalid_network_id trapped unsupported_address out_of_fuel : Panic

pub data Outcome {ℓ} (A : Type ℓ) : Type ℓ where
  returns : A → Outcome A
  panics : Panic → Outcome A

infixl 5 ◌>>=◌
abbrev pub ◌>>=◌ {ℓ κ} : {A : Type ℓ} {B : Type κ} → Outcome A → (A → Outcome B) → Outcome B
returns a >>= f = f a
panics p >>= f = panics p

-- Inversion of a bind that returns.
pub >>=-eq-returns {ℓ κ} :
    {A : Type ℓ} {B : Type κ} (m : Outcome A) (f : A → Outcome B) {b : B}
    → (m >>= f) ≡ returns b
    → (a : A) × (m ≡ returns a) × (f a ≡ returns b)
>>=-eq-returns (returns a) f h = (a, refl, h)
>>=-eq-returns (panics p) f h = cc

-- `Option::unwrap`
abbrev pub unwrap {ℓ} : {A : Type ℓ} → Option A → Outcome A
unwrap none = panics unwrap_none
unwrap (some a) = returns a

-- `xs[i]`
abbrev pub index {ℓ} : {A : Type ℓ} → List A → ℕ → Outcome A
index [] i = panics index_out_of_bounds
index (x ∷ xs) zero = returns x
index (x ∷ xs) (suc i) = index xs i

-- `a - b` on an unsigned type, with overflow checks.
abbrev pub checked_sub : ℕ → ℕ → Outcome ℕ
checked_sub a b = if leb b a then returns (a - b) else panics arithmetic_overflow

-- `a + b` on `u32` and `u64`, with overflow checks.
abbrev pub checked_add32 : ℕ → ℕ → Outcome ℕ
checked_add32 a b = if ltb (a + b) (2 ^ 32) then returns (a + b) else panics arithmetic_overflow

abbrev pub checked_add64 : ℕ → ℕ → Outcome ℕ
checked_add64 a b = if ltb (a + b) (2 ^ 64) then returns (a + b) else panics arithmetic_overflow
