-- ===== src/BlockForest/Pop.antt =====
-- `BlockForest::pop` against the definition of a stable block at `struct BlockForest`.
use mathlib.Core.List.{perm_append_singleton}
use mathlib.Core.List.Perm
use bitcoin_dip.Base.{
  ℕ, ◌+◌, ◌-◌, ◌≤◌, ◌<◌, ◌≡◌, refl, sym, inl, inr, true, Option, none, some, List, [], ◌∷◌, ◌++◌,
  Perm, append_assoc, All, All-imp, All-append, All-append_split, subst, length, length-append,
  maximum, maximum-append, maximum-le, maximum-perm, count, count-append, count-perm,
  partition-perm, last?, get_elem?-middle, ltb, leb, Bool-cases, Outcome, returns, panics, arith,
}
use bitcoin_dip.Bitcoin.{Block, BlockHash, Bitcoin}
use bitcoin_dip.BlockTree.{BlockTree, depth, root, children, to_list, tree}
use bitcoin_dip.BlockForest.{
  BlockForest, pop_last, is_contested, pop_deepest, pop_sorted, sort_by_depth, is_attached,
  attached, detached, pop,
}
use bitcoin_dip.BlockForest.Sort.{
  IsAscending, IsAscending-snoc, sort_by_depth-perm, sort_by_depth-IsAscending,
}

pop_last-snoc {ℓ} : {A : Type ℓ} (ys : List A) (t : A) → pop_last (ys ++ t ∷ []) ≡ some (t, ys)
pop_last-snoc [] t = refl
pop_last-snoc (y ∷ []) t = refl
pop_last-snoc (y ∷ z ∷ zs) t = rw (pop_last-snoc (z ∷ zs) t)

-- The trees of the list split into `t` and `others`, `t` is at least `delta` deep, and at least
-- `delta` deeper than each of the others.
pub record IsStable (delta : ℕ) (ts : List BlockTree) (t : BlockTree) (others : List BlockTree)
    : Type 0 where
  pub split : Perm ts (t ∷ others)
  pub deep : delta ≤ depth t
  pub ahead : All (λ u. depth u + delta ≤ depth t) others

module _ (delta : ℕ) (sorted ts : List BlockTree) (same : Perm sorted ts) where
  empty_unstable :
      sorted ≡ [] → (t : BlockTree) (others : List BlockTree) → ¬ IsStable delta ts t others
  empty_unstable e t others s =
      let n = count-perm (λ _. true) _ _ (Perm.trans same s.split) in ground arith

  deepest_stable :
      (t : BlockTree) (others : List BlockTree)
      → IsStable delta ts t others
      → depth t ≡ maximum depth sorted
  deepest_stable t others s =
      let low =
        maximum-le depth (depth t) others
          (All-imp (λ u. depth u + delta ≤ depth t) _ (λ u h. omega arith) others s.ahead) in
      omega (arith, maximum-perm depth _ _ (Perm.trans same s.split))

  shallow_unstable :
      maximum depth sorted < delta
      → (t : BlockTree) (others : List BlockTree) → ¬ IsStable delta ts t others
  shallow_unstable h t others s = omega (arith, deepest_stable t others s, s.deep)

count-none :
    (d n : ℕ) (ts : List BlockTree)
    → All (λ u. depth u + d ≤ n) ts
    → count (λ u. ltb n (depth u + d)) ts ≡ 0
count-none d n [] a = refl
count-none d n (t ∷ ts) a = ground (arith, count-none d n ts a.1)

module _ (delta : ℕ) (sorted ts : List BlockTree) (same : Perm sorted ts) where
  -- Two trees less than `delta` below the maximum.
  contested_unstable :
      1 < count (λ u. ltb (maximum depth sorted) (depth u + delta)) sorted
      → (t : BlockTree) (others : List BlockTree) → ¬ IsStable delta ts t others
  contested_unstable h t others s =
      let top = deepest_stable delta sorted ts same t others s in
      let far = λ (u : BlockTree). ltb (maximum depth sorted) (depth u + delta) in
      let n = count-perm far _ _ (Perm.trans same s.split) in
      let left = rw top at (count-none delta (depth t) others s.ahead) in ground arith

-- In a sorted list of two or more, the tree before the last decides whether the last is contested.
is_contested-two :
    (zs : List BlockTree) (s t : BlockTree) (delta : ℕ)
    → depth s ≤ depth t
    → is_contested (zs ++ s ∷ t ∷ []) t delta ≡ returns (ltb (depth t - depth s) delta)
unfolding is_contested
is_contested-two zs s t delta h =
    let len = length-append zs (s ∷ t ∷ []) in
    let sorted : List BlockTree = zs ++ s ∷ t ∷ [] in
    let place : length sorted - 2 ≡ length zs = omega arith in
    let many : leb 2 (length sorted) ≡ true = ground arith in
    let fits : leb (depth s) (depth t) ≡ true = ground arith in
    rw (many, place, get_elem?-middle zs s (t ∷ []), fits)

last?-two : (zs : List BlockTree) (s t : BlockTree) → last? (zs ++ s ∷ t ∷ []) ≡ some t
last?-two [] s t = refl
last?-two (z ∷ []) s t = refl
last?-two (y ∷ z ∷ zs) s t = last?-two (z ∷ zs) s t

last_two :
    (t u : BlockTree) (us : List BlockTree)
    → (zs : List BlockTree) × (x : BlockTree) × (y : BlockTree) × (t ∷ u ∷ us ≡ zs ++ x ∷ y ∷ [])
last_two t u [] = ([], t, u, refl)
last_two t u (v ∷ vs) = let (zs, x, y, e) = last_two u v vs in (t ∷ zs, x, y, rw e)

-- The two deepest trees count as close to the deepest, if they are.
two_close :
    (zs : List BlockTree) (s t : BlockTree) (delta m : ℕ)
    → depth t ≡ m
    → depth s ≤ depth t
    → depth t - depth s < delta
    → 1 < count (λ u. ltb m (depth u + delta)) (zs ++ s ∷ t ∷ [])
two_close zs s t delta m e h close =
    ground (arith, count-append (λ u. ltb m (depth u + delta)) zs (s ∷ t ∷ []))

module _ ⦃lib : Bitcoin⦄ where
  -- What `pop` may return: the root of a stable tree, whose children then stand behind the
  -- detached trees; or nothing, if no attached tree is stable, and then it keeps every tree.
  abbrev pub Pops : BlockForest → BlockHash → Outcome (Option Block × BlockForest) → Type 0
  Pops f anchor (panics p) = ⊥
  Pops f anchor (returns (some b, g)) =
      (t : BlockTree) × (others : List BlockTree) × IsStable f.delta (attached f anchor) t others
      × (b ≡ root t)
      × (g ≡ record f { trees = detached f anchor ++ to_list (children t) })
  Pops f anchor (returns (none, g)) =
      ((t : BlockTree) (others : List BlockTree) → ¬ IsStable f.delta (attached f anchor) t others)
      × Perm g.trees f.trees
      × (g.delta ≡ f.delta)

  module _ (f : BlockForest) (anchor : BlockHash) where
    -- The sorted list still holds the attached trees.
    keeps_trees :
        (sorted : List BlockTree)
        → Perm sorted (attached f anchor)
        → Perm (sorted ++ detached f anchor) f.trees
    keeps_trees sorted same =
        Perm.trans (Perm.append_right (detached f anchor) same)
          (partition-perm (is_attached anchor) f.trees)

    takes_deepest :
        (ys : List BlockTree) (t : BlockTree)
        → Perm (ys ++ t ∷ []) (attached f anchor)
        → f.delta ≤ depth t
        → All (λ u. depth u + f.delta ≤ depth t) ys
        → Pops f anchor (pop_deepest f (ys ++ t ∷ []) (detached f anchor))
    unfolding pop_deepest
    takes_deepest ys (tree b cs) same deep ahead = rw (pop_last-snoc ys (tree b cs)) (
      tree b cs,
      ys,
      record {
        split = Perm.trans (Perm.symm same) (perm_append_singleton (tree b cs) ys);
        deep = deep;
        ahead = ahead;
      },
      refl,
      refl,
    )

    alone-Pops :
        (t : BlockTree)
        → Perm (t ∷ []) (attached f anchor)
        → Pops f anchor (pop_sorted f (t ∷ []) (detached f anchor))
    unfolding pop_sorted is_contested
    alone-Pops t same = elim (Bool-cases (ltb (depth t) f.delta)) [
      | inl shallow ↦ rw shallow (
        shallow_unstable f.delta (t ∷ []) (attached f anchor) same (ground arith),
        keeps_trees (t ∷ []) same,
        refl,
      )
      | inr deep ↦ rw deep (takes_deepest [] t same (ground arith) tt)
    ]

    two_pop :
        (zs : List BlockTree) (s t : BlockTree)
        → Perm (zs ++ s ∷ t ∷ []) (attached f anchor)
        → All (λ u. depth u ≤ depth s) zs
        → depth s ≤ depth t
        → Pops f anchor (pop_sorted f (zs ++ s ∷ t ∷ []) (detached f anchor))
    unfolding pop_sorted
    two_pop zs s t same low h =
        let sorted : List BlockTree = zs ++ s ∷ t ∷ [] in
        let below = maximum-le depth (depth s) zs low in
        let top : maximum depth sorted ≡ depth t =
          omega (arith, maximum-append depth zs (s ∷ t ∷ [])) in
        let crowded = contested_unstable f.delta sorted (attached f anchor) same in
        elim (Bool-cases (ltb (depth t) f.delta)) [
          | inl shallow ↦
              rw (last?-two zs s t, pop_sorted, shallow)
                (
                  shallow_unstable f.delta sorted (attached f anchor) same (ground arith),
                  keeps_trees sorted same,
                  refl,
                )
          | inr deep ↦ elim (Bool-cases (ltb (depth t - depth s) f.delta)) [
            | inl close ↦
                rw (last?-two zs s t, pop_sorted, deep, is_contested-two zs s t f.delta h, close)
                  (
                    crowded (two_close zs s t f.delta _ (sym top) h (ground arith)),
                    keeps_trees sorted same,
                    refl,
                  )
            | inr apart ↦
                rw (last?-two zs s t, pop_sorted, deep, is_contested-two zs s t f.delta h, apart)
                  (rw (sym (append_assoc zs (s ∷ []) (t ∷ []))) (
                    takes_deepest (zs ++ s ∷ []) t (rw (append_assoc zs (s ∷ []) (t ∷ [])) same)
                      (ground arith)
                      (All-append (λ u. depth u + f.delta ≤ depth t) zs (s ∷ [])
                        (All-imp (λ u. depth u ≤ depth s) _ (λ u le. ground arith) zs low)
                        (ground arith, tt))))
          ]
        ]

    sorted-Pops :
        (sorted : List BlockTree)
        → Perm sorted (attached f anchor)
        → IsAscending sorted
        → Pops f anchor (pop_sorted f sorted (detached f anchor))
    unfolding pop_sorted
    sorted-Pops [] same a =
        (empty_unstable f.delta [] (attached f anchor) same refl, keeps_trees [] same, refl)
    sorted-Pops (t ∷ []) same a = alone-Pops t same
    sorted-Pops (t ∷ u ∷ us) same a = by_ends (last_two t u us)
      where
        by_ends :
            ((zs : List BlockTree) × (x : BlockTree) × (y : BlockTree) × (t ∷ u ∷ us
                ≡ zs ++ x ∷ y ∷ []))
            → Pops f anchor (pop_sorted f (t ∷ u ∷ us) (detached f anchor))
        by_ends (zs, x, y, e) =
            let asc : IsAscending ((zs ++ x ∷ []) ++ y ∷ []) =
              rw append_assoc (subst IsAscending e a) in
            let (high, rest) = IsAscending-snoc (zs ++ x ∷ []) y asc in
            let (low, _) = IsAscending-snoc zs x rest in
            rw e (
              two_pop zs x y (subst (λ l. Perm l (attached f anchor)) e same) low
                (All-append_split (λ v. depth v ≤ depth y) zs (x ∷ []) high).1.0)

    -- `pop` never panics: it takes the root of a stable tree if there is one, and otherwise
    -- returns nothing and keeps every tree.
    pub pop_lem : Pops f anchor (pop f anchor)
    unfolding pop
    pop_lem =
        sorted-Pops (sort_by_depth (attached f anchor)) (sort_by_depth-perm (attached f anchor))
          (sort_by_depth-IsAscending (attached f anchor))
