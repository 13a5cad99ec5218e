-- ===== src/BlockForest/Best.antt =====
-- What `get_current_chain` returns, for the whole forest.
use bitcoin_dip.Base.{
  ℕ, ◌+◌, ◌≡◌, ◌≢◌, refl, sym, ap, ap₂, subst, ◌∙◌, inl, inr, ◌⊎◌, Bool, true, List, [], ◌∷◌, map,
  any, All, All-imp, length, drop, filter, maximum, ◌==◌, nat_eq, nat_beq_iff, Bool-cases, returns,
  arith,
}
use bitcoin_dip.Bitcoin.{Block, BlockHash, Bitcoin}
use bitcoin_dip.BlockForest.{
  BlockForest, attached_chains, longest_len, agree_loop, agreed_chain, get_current_chain,
}
use bitcoin_dip.BlockForest.Current.{
  longest, longest_len_lem, longest_chains_lem, agreed, agree_loop_lem, IsLongestShared, filter-All,
  agreed_shared, agreed_greatest,
}

module _ {ℓ} {A : Type ℓ} where
  maximum_attained :
      (f : A → ℕ) (m : ℕ) (x : A) (xs : List A)
      → maximum f (x ∷ xs) ≡ m
      → any (λ y. f y == m) (x ∷ xs) ≡ true
  maximum_attained f m x [] e = ground arith
  maximum_attained f m x (y ∷ ys) e = ground (arith, maximum_attained f m y ys)

  filter_some :
      (p : A → Bool) (xs : List A)
      → any p xs ≡ true
      → (y : A) × (ys : List A) × (filter p xs ≡ y ∷ ys)
  filter_some p [] e = absurd cc
  filter_some p (x ∷ xs) e = elim (Bool-cases (p x)) [
    | inl h ↦ (x, filter p xs, rw h)
    | inr h ↦ let (y, ys, d) = filter_some p xs (rw h at e) in (y, ys, rw h d)
  ]

  map-drop_zero : (cs : List (List A)) → map (drop 0) cs ≡ cs
  map-drop_zero [] = refl
  map-drop_zero (c ∷ cs) = ap (◌∷◌ c) (map-drop_zero cs)

module _ ⦃lib : Bitcoin⦄ where
  -- The chains are not empty: the loop ends with the run that the longest of them share.
  pub agreed_chain_lem :
      (c : List Block) (cs : List (List Block))
      → (first : List Block) × (others : List (List Block)) × (longest (c ∷ cs) ≡ first ∷ others)
        × (agreed_chain (c ∷ cs) ≡ returns (agreed first others))
  unfolding agreed_chain
  agreed_chain_lem c cs =
      let most : ℕ = maximum length (c ∷ cs) in
      let (first, others, e) =
        filter_some (λ l. length l == most) (c ∷ cs) (maximum_attained length most c cs refl) in
      let same =
        subst (All (λ l. (length l == most) ≡ true)) e
          (filter-All (λ l. length l == most) (c ∷ cs)) in
      let sizes =
        All-imp _ (λ (l : List Block). length l ≡ 0 + most)
          (λ l h. (nat_beq_iff (length l) most).0 h ∙ omega arith) (first ∷ others) same in
      let len : longest_len (c ∷ cs) 0 ≡ most = omega (arith, longest_len_lem (c ∷ cs) 0) in
      (
        first,
        others,
        e,
        ap₂ (λ n l. agree_loop n 0 l []) len (longest_chains_lem (c ∷ cs) ∙ e)
            ∙ (agree_loop_lem most 0 first others [] sizes.0 sizes.1
                ∙ ap (λ l. returns (agreed first l)) (map-drop_zero others)),
      )

  -- No chain is attached and the answer is empty, or it is what the longest chains share.
  abbrev pub IsCurrent : List (List Block) → List Block → Type 0
  IsCurrent chains c =
      ((chains ≡ []) × (c ≡ [])) ⊎ ((chains ≢ []) × IsLongestShared (longest chains) c)

  agreed_chain-IsCurrent :
      (chains : List (List Block))
      → (c : List Block) × (agreed_chain chains ≡ returns c) × IsCurrent chains c
  unfolding agreed_chain
  agreed_chain-IsCurrent [] = ([], refl, inl (refl, refl))
  agreed_chain-IsCurrent (c ∷ cs) =
      let (first, others, e, d) = agreed_chain_lem c cs in
      (
        agreed first others,
        d,
        inr (
          λ e. cc,
          subst (λ l. IsLongestShared l (agreed first others)) (sym e)
              (record {
                shared = agreed_shared first others;
                greatest = agreed_greatest first others;
              }),
        ),
      )

  -- The current chain is found without a panic. It is empty if no tree is attached to the anchor.
  -- Otherwise each of the longest attached chains starts with its hashes, and no longer run of
  -- hashes starts them all; chains that are not longest do not count, even if a block of theirs
  -- stands at the height of the last block of the answer.
  pub get_current_chain_lem :
      (f : BlockForest) (anchor : BlockHash)
      → (c : List Block) × (get_current_chain f anchor ≡ returns c)
        × IsCurrent (attached_chains f anchor) c
  unfolding get_current_chain
  get_current_chain_lem f anchor = agreed_chain-IsCurrent (attached_chains f anchor)
