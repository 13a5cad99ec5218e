-- ===== src/TestBuilder/Solve.antt =====
-- The search of `solve` for a nonce.
use bitcoin_dip.Base.{
  ℕ, zero, suc, ◌+◌, ◌-◌, ◌^◌, ◌≤◌, ◌<◌, ◌≡◌, refl, subst, inl, inr, true, false, Bool-cases, ltb,
  Outcome, returns, panics, arithmetic_overflow, checked_add32, arith,
}
use bitcoin_dip.Bitcoin.{BlockHeader}
use bitcoin_dip.TestBuilder.{Mining, solve_loop, solve}

abbrev pub at_nonce : BlockHeader → ℕ → BlockHeader
at_nonce h nonce = record h { nonce = nonce }

module _ ⦃mining : Mining⦄ where
  -- No nonce in the range passes.
  abbrev pub NonePasses : BlockHeader → ℕ → ℕ → ℕ → Type 0
  NonePasses h target from end =
      (k : ℕ) → from ≤ k → k < end → mining.validate_pow (at_nonce h k) target ≡ false

  -- The least nonce that passes, from the header's own on, or the overflow behind the last one.
  abbrev pub Searched : BlockHeader → ℕ → Outcome BlockHeader → Type 0
  Searched h target (returns found) =
      (n : ℕ) × (found ≡ at_nonce h n)
      × (h.nonce ≤ n)
      × (n < 2 ^ 32)
      × (mining.validate_pow found target ≡ true)
      × NonePasses h target h.nonce n
  Searched h target (panics p) = (p ≡ arithmetic_overflow) × NonePasses h target h.nonce (2 ^ 32)

  NonePasses-from :
      (h : BlockHeader) (target end : ℕ)
      → mining.validate_pow h target ≡ false
      → NonePasses h target (h.nonce + 1) end
      → NonePasses h target h.nonce end
  NonePasses-from h target end fails later k from_here before = elim (Bool-cases (ltb h.nonce k)) [
    | inl above ↦ later k (ground arith) before
    | inr not_above ↦
        let here : h.nonce ≡ k = ground arith in
        subst (λ n. mining.validate_pow (at_nonce h n) target ≡ false) here fails
  ]

  -- The nonce of the header does not pass, and then the search goes on.
  Searched-next :
      (h : BlockHeader) (target : ℕ) (r : Outcome BlockHeader)
      → mining.validate_pow h target ≡ false
      → Searched (at_nonce h (h.nonce + 1)) target r
      → Searched h target r
  Searched-next h target (returns found) fails s =
      let (n, is_it, from_here, small, passes, before) = s in
      (n, is_it, omega arith, small, passes, NonePasses-from h target n fails before)
  Searched-next h target (panics p) fails s = (s.0, NonePasses-from h target (2 ^ 32) fails s.1)

  solve_loop_lem :
      (left : ℕ) (h : BlockHeader) (target : ℕ)
      → h.nonce + left ≡ 2 ^ 32
      → h.nonce < 2 ^ 32
      → Searched h target (solve_loop left h target)
  unfolding solve_loop
  solve_loop_lem zero h target e fits = absurd (omega arith)
  solve_loop_lem (suc left) h target e fits = elim (Bool-cases (mining.validate_pow h target)) [
    | inl passes ↦
        rw (solve_loop, passes)
          (h.nonce, refl, omega arith, fits, passes, λ k from_here before. absurd (omega arith))
    | inr fails ↦ elim (Bool-cases (ltb (h.nonce + 1) (2 ^ 32))) [
      | inl more ↦
          let next : checked_add32 h.nonce 1 ≡ returns (h.nonce + 1) = ground arith in
          rw (solve_loop, fails, next)
            (Searched-next h target (solve_loop left (at_nonce h (h.nonce + 1)) target) fails
              (solve_loop_lem left (at_nonce h (h.nonce + 1)) target (omega arith) (ground arith)))
      | inr last ↦
          let stop : checked_add32 h.nonce 1 ≡ panics arithmetic_overflow = ground arith in
          rw (solve_loop, fails, stop)
            (
              refl,
              NonePasses-from h target (2 ^ 32) fails (λ k above before. absurd (ground arith)),
            )
    ]
  ]

  -- The search for a nonce ends. If it returns, the header is the given one but for its nonce, which
  -- is the least from the given one on that passes. Otherwise no nonce from there on passes, and
  -- the addition behind the last one overflows.
  pub solve_lem : (h : BlockHeader) → h.nonce < 2 ^ 32 → Searched h (mining.target h) (solve h)
  unfolding solve
  solve_lem h fits = solve_loop_lem (2 ^ 32 - h.nonce) h (mining.target h) (omega arith) fits
