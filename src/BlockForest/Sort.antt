-- ===== src/BlockForest/Sort.antt =====
-- `sort_by` on the depth permutes the trees and puts them in ascending order.
use mathlib.Core.List.Perm
use bitcoin_dip.Base.{
  ◌≤◌, inl, inr, List, [], ◌∷◌, ◌++◌, Perm, All, All-imp, All-append_split, leb, Bool-cases, arith,
}
use bitcoin_dip.BlockTree.{BlockTree, depth}
use bitcoin_dip.BlockForest.{insert_by_depth, sort_by_depth}

-- No tree is shallower than one before it.
abbrev pub IsAscending : List BlockTree → Type 0
IsAscending [] = Unit {0}
IsAscending (t ∷ ts) = All (λ u. depth t ≤ depth u) ts × IsAscending ts

insert_by_depth-perm : (t : BlockTree) (ts : List BlockTree) → Perm (insert_by_depth t ts) (t ∷ ts)
unfolding insert_by_depth
insert_by_depth-perm t [] = Perm.rfl
insert_by_depth-perm t (u ∷ us) = elim (Bool-cases (leb (depth t) (depth u))) [
  | inl e ↦ rw e Perm.rfl
  | inr e ↦ rw e (Perm.trans (Perm.cons u (insert_by_depth-perm t us)) (Perm.swap t u us))
]

pub sort_by_depth-perm : (ts : List BlockTree) → Perm (sort_by_depth ts) ts
unfolding sort_by_depth
sort_by_depth-perm [] = Perm.rfl
sort_by_depth-perm (t ∷ ts) =
    Perm.trans (insert_by_depth-perm t (sort_by_depth ts)) (Perm.cons t (sort_by_depth-perm ts))

insert_by_depth-All :
    (P : BlockTree → Type 0) (t : BlockTree) (ts : List BlockTree)
    → P t
    → All P ts
    → All P (insert_by_depth t ts)
unfolding insert_by_depth
insert_by_depth-All P t [] p a = (p, tt)
insert_by_depth-All P t (u ∷ us) p a = elim (Bool-cases (leb (depth t) (depth u))) [
  | inl e ↦ rw e (p, a)
  | inr e ↦ rw e (a.0, insert_by_depth-All P t us p a.1)
]

insert_by_depth-IsAscending :
    (t : BlockTree) (ts : List BlockTree) → IsAscending ts → IsAscending (insert_by_depth t ts)
unfolding insert_by_depth
insert_by_depth-IsAscending t [] a = (tt, tt)
insert_by_depth-IsAscending t (u ∷ us) a = elim (Bool-cases (leb (depth t) (depth u))) [
  | inl e ↦
      rw e ((ground arith, All-imp (λ v. depth u ≤ depth v) _ (λ v h. ground arith) us a.0), a)
  | inr e ↦ rw e (
    insert_by_depth-All (λ v. depth u ≤ depth v) t us (ground arith) a.0,
    insert_by_depth-IsAscending t us a.1,
  )
]

pub sort_by_depth-IsAscending : (ts : List BlockTree) → IsAscending (sort_by_depth ts)
unfolding sort_by_depth
sort_by_depth-IsAscending [] = tt
sort_by_depth-IsAscending (t ∷ ts) =
    insert_by_depth-IsAscending t (sort_by_depth ts) (sort_by_depth-IsAscending ts)

-- In an ascending list the last tree is the deepest.
pub IsAscending-snoc :
    (ts : List BlockTree) (t : BlockTree)
    → IsAscending (ts ++ t ∷ [])
    → All (λ u. depth u ≤ depth t) ts × IsAscending ts
IsAscending-snoc [] t a = (tt, tt)
IsAscending-snoc (u ∷ us) t a =
    let (low, up) = IsAscending-snoc us t a.1 in
    let (before, last) = All-append_split (λ v. depth u ≤ depth v) us (t ∷ []) a.0 in
    ((last.0, low), (before, up))
