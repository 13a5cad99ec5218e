-- ===== src/BlockForest/Current.antt =====
-- `BlockForest::get_current_chain` returns the longest run of hashes that all the longest attached
-- chains share.
use bitcoin_dip.Base.{
  ℕ, zero, suc, ◌+◌, ◌≤◌, ◌<◌, max, ◌≡◌, refl, sym, ap, ap₂, subst, ◌∙◌, inl, inr, Bool, true,
  false, false≢true, false≢true, List, [], ◌∷◌, ◌++◌, map, append-nil, append_assoc, All, All-imp,
  length, drop, take, filter, index, maximum, ◌==◌, nat_eq, nat_beq_iff, if◌then◌else◌, Bool-cases,
  Outcome, returns, arith,
}
use bitcoin_dip.Bitcoin.{Block, BlockHash, Bitcoin, block_hash}
use bitcoin_dip.BlockForest.{longest_len, all_agree, agree_loop, longest_chains}

pub longest_len_lem :
    (cs : List (List Block)) (n : ℕ) → longest_len cs n ≡ max n (maximum length cs)
unfolding longest_len
longest_len_lem [] n = omega arith
longest_len_lem (c ∷ cs) n = omega (arith, longest_len_lem cs (max n (length c)))

-- The chains of the greatest length.
abbrev pub longest : List (List Block) → List (List Block)
longest cs = filter (λ c. length c == maximum length cs) cs

pub longest_chains_lem : (cs : List (List Block)) → longest_chains cs ≡ longest cs
longest_chains_lem cs =
    let e : longest_len cs 0 ≡ maximum length cs = omega (arith, longest_len_lem cs 0) in
    ap (λ n. filter (λ c. length c == n) cs) e

module _ {ℓ} {A : Type ℓ} where
  pub filter-All : (p : A → Bool) (xs : List A) → All (λ x. p x ≡ true) (filter p xs)
  filter-All p [] = tt
  filter-All p (x ∷ xs) = elim (Bool-cases (p x)) [
    | inl e ↦ rw e (e, filter-All p xs)
    | inr e ↦ rw e (filter-All p xs)
  ]

  -- A position in range splits off the rest of the list.
  drop_in_range :
      (xs : List A) (i : ℕ)
      → i < length xs
      → (b : A) × (bs : List A) × (drop i xs ≡ b ∷ bs)
        × (index xs i ≡ returns b)
        × (drop (suc i) xs ≡ bs)
  drop_in_range [] i h = absurd (omega arith)
  drop_in_range (x ∷ xs) zero h = (x, xs, refl, refl, refl)
  drop_in_range (x ∷ xs) (suc i) h = drop_in_range xs i (omega arith)

  drop_all : (xs : List A) (i : ℕ) → length xs ≡ i → drop i xs ≡ []
  drop_all [] zero e = refl
  drop_all [] (suc i) e = refl
  drop_all (x ∷ xs) zero e = absurd (omega arith)
  drop_all (x ∷ xs) (suc i) e = drop_all xs i (omega arith)

  drop-suc : (xs : List A) (i : ℕ) → drop 1 (drop i xs) ≡ drop (suc i) xs
  drop-suc [] zero = refl
  drop-suc [] (suc i) = refl
  drop-suc (x ∷ xs) zero = refl
  drop-suc (x ∷ xs) (suc i) = drop-suc xs i

  map-drop-suc :
      (cs : List (List A)) (i : ℕ) → map (drop 1) (map (drop i) cs) ≡ map (drop (suc i)) cs
  map-drop-suc [] i = refl
  map-drop-suc (c ∷ cs) i = ap₂ ◌∷◌ (drop-suc c i) (map-drop-suc cs i)

module _ ⦃lib : Bitcoin⦄ where
  abbrev head_is : BlockHash → List Block → Bool
  head_is hash [] = false
  head_is hash (b ∷ bs) = block_hash b == hash

  abbrev all_heads : BlockHash → List (List Block) → Bool
  all_heads hash [] = true
  all_heads hash (c ∷ cs) = let rest = all_heads hash cs in if head_is hash c then rest else false

  -- The common run of hashes, by recursion on the first chain.
  unfoldable pub agreed : List Block → List (List Block) → List Block
  agreed [] others = []
  agreed (b ∷ bs) others =
      let rest = agreed bs (map (drop 1) others) in
      if all_heads (block_hash b) others then b ∷ rest else []

  one_agrees :
      (b : Block) (rest : Outcome Bool) (more : Bool) (hash : BlockHash)
      → rest ≡ returns more
      → elim (block_hash b == hash) [ true ↦ rest | false ↦ returns false ]
        ≡ returns (if block_hash b == hash then more else false)
  one_agrees b rest more hash e = elim (Bool-cases (block_hash b == hash)) [
    | inl same ↦ rw same e
    | inr differs ↦ rw differs
  ]

  all_agree_lem :
      (cs : List (List Block)) (i : ℕ) (hash : BlockHash)
      → All (λ c. i < length c) cs
      → all_agree cs i hash ≡ returns (all_heads hash (map (drop i) cs))
  unfolding all_agree
  all_agree_lem [] i hash a = refl
  all_agree_lem (c ∷ cs) i hash a =
      let (b, bs, e, at, _) = drop_in_range c i a.0 in
      rw (at, e) (one_agrees b (all_agree cs i hash) _ hash (all_agree_lem cs i hash a.1))

  agreed_more :
      (b : Block) (bs acc : List Block) (others : List (List Block)) (rest : Outcome (List Block))
      → rest ≡ returns ((acc ++ b ∷ []) ++ agreed bs (map (drop 1) others))
      → elim (all_heads (block_hash b) others) [ true ↦ rest | false ↦ returns acc ]
        ≡ returns (acc ++ agreed (b ∷ bs) others)
  unfolding agreed
  agreed_more b bs acc others rest e = elim (Bool-cases (all_heads (block_hash b) others)) [
    | inl same ↦
        rw same (e ∙ ap returns (append_assoc acc (b ∷ []) (agreed bs (map (drop 1) others))))
    | inr differs ↦ rw differs (ap returns (sym (append-nil acc)))
  ]

  pub agree_loop_lem :
      (n i : ℕ) (first : List Block) (others : List (List Block)) (acc : List Block)
      → length first ≡ i + n
      → All (λ c. length c ≡ i + n) others
      → agree_loop n i (first ∷ others) acc
        ≡ returns (acc ++ agreed (drop i first) (map (drop i) others))
  unfolding agree_loop agreed
  agree_loop_lem zero i first others acc e a = rw (drop_all first i (omega arith), append-nil acc)
  agree_loop_lem (suc n) i first others acc e a =
      let (b, bs, here, at, next) = drop_in_range first i (omega arith) in
      let step =
        agree_loop_lem n (suc i) first others (acc ++ b ∷ []) (omega arith)
          (All-imp _ _ (λ c le. omega arith) others a) in
      rw (at, here)
        (rw (all_agree_lem others i (block_hash b) (All-imp _ _ (λ c le. omega arith) others a))
          (agreed_more b bs acc (map (drop i) others) _ (step ∙ rw (next, map-drop-suc others i))))

  -- The chain starts with these hashes.
  abbrev pub Shares : List BlockHash → List Block → Type 0
  Shares hashes c = take (length hashes) (map block_hash c) ≡ hashes

  -- `c` is shared by all the chains, and no longer run of hashes is.
  pub record IsLongestShared (chains : List (List Block)) (c : List Block) : Type 0 where
    pub shared : All (Shares (map block_hash c)) chains
    pub greatest : (hashes : List BlockHash) → All (Shares hashes) chains → length hashes ≤ length c

  Shares-tail :
      (h : BlockHash) (hs : List BlockHash) (c : List Block)
      → Shares (h ∷ hs) c
      → (head_is h c ≡ true) × Shares hs (drop 1 c)
  Shares-tail h hs [] e = absurd cc
  Shares-tail h hs (b ∷ bs) e = ((nat_beq_iff (block_hash b) h).1 (ap head_hash e), ap drop_hash e)
    where
      head_hash : List BlockHash → BlockHash
      head_hash [] = 0
      head_hash (x ∷ xs) = x

      drop_hash : List BlockHash → List BlockHash
      drop_hash = drop 1

  Shares-cons :
      (h : BlockHash) (hs : List BlockHash) (c : List Block)
      → head_is h c ≡ true
      → Shares hs (drop 1 c)
      → Shares (h ∷ hs) c
  Shares-cons h hs [] e s = cc
  Shares-cons h hs (b ∷ bs) e s = ap₂ ◌∷◌ ((nat_beq_iff (block_hash b) h).0 e) s

  All-tails :
      (h : BlockHash) (hs : List BlockHash) (cs : List (List Block))
      → All (Shares (h ∷ hs)) cs
      → (all_heads h cs ≡ true) × All (Shares hs) (map (drop 1) cs)
  All-tails h hs [] a = (refl, tt)
  All-tails h hs (c ∷ cs) a =
      let (e, s) = Shares-tail h hs c a.0 in
      let (es, ss) = All-tails h hs cs a.1 in (rw e es, (s, ss))

  All-cons :
      (h : BlockHash) (hs : List BlockHash) (cs : List (List Block))
      → all_heads h cs ≡ true
      → All (Shares hs) (map (drop 1) cs)
      → All (Shares (h ∷ hs)) cs
  All-cons h hs [] e a = tt
  All-cons h hs (c ∷ cs) e a =
      (Shares-cons h hs c (ground arith) a.0, All-cons h hs cs (ground arith) a.1)

  nothing_shared : (cs : List (List Block)) → All (Shares []) cs
  nothing_shared [] = tt
  nothing_shared (c ∷ cs) = (refl, nothing_shared cs)

  -- A run that starts with another hash than the first chain, or than one of the others, is empty.
  differs_short :
      (b : Block) (bs : List Block) (others : List (List Block)) (hashes : List BlockHash)
      → all_heads (block_hash b) others ≡ false
      → All (Shares hashes) ((b ∷ bs) ∷ others)
      → length hashes ≤ 0
  differs_short b bs others [] differs a = omega arith
  differs_short b bs others (h ∷ hs) differs a =
      let (same, _) = Shares-tail h hs (b ∷ bs) a.0 in
      let (all_same, _) = All-tails h hs others a.1 in
      let here : block_hash b ≡ h = (nat_beq_iff (block_hash b) h).0 same in
      absurd (false≢true (sym differs ∙ rw here all_same))

  pub agreed_greatest :
      (first : List Block) (others : List (List Block)) (hashes : List BlockHash)
      → All (Shares hashes) (first ∷ others)
      → length hashes ≤ length (agreed first others)
  unfolding agreed
  agreed_greatest [] others [] a = omega arith
  agreed_greatest [] others (h ∷ hs) a = absurd (cc a.0)
  agreed_greatest (b ∷ bs) others hashes a = elim (Bool-cases (all_heads (block_hash b) others)) [
    | inl same ↦ rw same (one_longer b bs others hashes a (agreed_greatest bs _))
    | inr differs ↦ rw differs (differs_short b bs others hashes differs a)
  ]
    where
      one_longer :
          (b : Block) (bs : List Block) (others : List (List Block)) (hashes : List BlockHash)
          → All (Shares hashes) ((b ∷ bs) ∷ others)
          → ((hs : List BlockHash)
              → All (Shares hs) (bs ∷ map (drop 1) others)
              → length hs ≤ length (agreed bs (map (drop 1) others)))
          → length hashes ≤ suc (length (agreed bs (map (drop 1) others)))
      one_longer b bs others [] a ih = omega arith
      one_longer b bs others (h ∷ hs) a ih =
          omega (arith, ih hs ((Shares-tail h hs (b ∷ bs) a.0).1, (All-tails h hs others a.1).1))

  pub agreed_shared :
      (first : List Block) (others : List (List Block))
      → All (Shares (map block_hash (agreed first others))) (first ∷ others)
  unfolding agreed
  agreed_shared [] others = (refl, nothing_shared others)
  agreed_shared (b ∷ bs) others =
      let chains = (b ∷ bs) ∷ others in
      let Fits = λ (r : List Block). All (Shares (map block_hash r)) chains in
      let rest = agreed bs (map (drop 1) others) in
      let (here, there) = agreed_shared bs (map (drop 1) others) in
      elim (Bool-cases (all_heads (block_hash b) others)) [
        | inl same ↦
            subst Fits (sym (ap (λ t. if t then b ∷ rest else []) same))
              (ap (◌∷◌ (block_hash b)) here, All-cons (block_hash b) _ others same there)
        | inr differs ↦
            subst Fits (sym (ap (λ t. if t then b ∷ rest else []) differs))
              (refl, nothing_shared others)
      ]
