-- ===== src/Text/Sorted.antt =====
-- `sort.Strings`: the order of strings, and the sorted list as the only ascending rearrangement.
use mathlib.Core.Bool.{Bool-set}
use mathlib.Core.List.{Mem, Perm, Pairwise, mem-cons_self, not-mem-nil, forall_mem-cons}
use mathlib.Core.List.Pairwise
use mathlib.Core.List.Perm
use open_flare.Prelude.{◌≡◌, refl, sym, inl, inr, true, false, List, [], ◌∷◌, arith, Bool-cases}
use open_flare.Text.{Bytes, str_leb, sort, insert_sorted}

infix 4 ◌≼◌
abbrev pub ◌≼◌ : Bytes → Bytes → Type 0
s ≼ t = str_leb s t ≡ true

pub ≼_refl : (s : Bytes) → s ≼ s
unfolding str_leb
≼_refl [] = refl
≼_refl (a ∷ s) = ground (arith, ≼_refl s)

pub ≼_trans : (s t u : Bytes) → s ≼ t → t ≼ u → s ≼ u
unfolding str_leb
≼_trans [] t u h k = refl
≼_trans (a ∷ s) [] u h k = cc
≼_trans (a ∷ s) (b ∷ t) [] h k = cc
≼_trans (a ∷ s) (b ∷ t) (c ∷ u) h k = ground (arith, ≼_trans s t u)

pub ≼_antisymm : (s t : Bytes) → s ≼ t → t ≼ s → s ≡ t
unfolding str_leb
≼_antisymm [] [] h k = refl
≼_antisymm [] (b ∷ t) h k = cc
≼_antisymm (a ∷ s) [] h k = cc
≼_antisymm (a ∷ s) (b ∷ t) h k = ground (arith, ≼_antisymm s t)

pub ≼_total : (s t : Bytes) → str_leb s t ≡ false → t ≼ s
unfolding str_leb
≼_total [] t h = cc
≼_total (a ∷ s) [] h = refl
≼_total (a ∷ s) (b ∷ t) h = ground (arith, ≼_total s t)

-- Every earlier string is at most every later one.
abbrev pub IsAscending : List Bytes → Type 0
IsAscending = Pairwise ◌≼◌

abbrev AreAbove : Bytes → List Bytes → Type 0
AreAbove s ss = (t : Bytes) → Mem t ss → s ≼ t

AreAbove-cons : (s t : Bytes) (ss : List Bytes) → s ≼ t → AreAbove s ss → AreAbove s (t ∷ ss)
AreAbove-cons s t ss p h = (forall_mem-cons (λ u. Bool-set (str_leb s u) true)).1 (p, h)

insert_sorted-perm : (s : Bytes) (ss : List Bytes) → Perm (insert_sorted s ss) (s ∷ ss)
unfolding insert_sorted
insert_sorted-perm s [] = Perm.rfl
insert_sorted-perm s (t ∷ ss) = elim (Bool-cases (str_leb s t)) [
  | inl h ↦ rw h Perm.rfl
  | inr h ↦ rw h (Perm.trans (Perm.cons t (insert_sorted-perm s ss)) (Perm.swap s t ss))
]

pub sort-perm : (ss : List Bytes) → Perm (sort ss) ss
unfolding sort
sort-perm [] = Perm.nil
sort-perm (s ∷ ss) = Perm.trans (insert_sorted-perm s (sort ss)) (Perm.cons s (sort-perm ss))

insert_sorted-IsAscending :
    (s : Bytes) (ss : List Bytes) → IsAscending ss → IsAscending (insert_sorted s ss)
unfolding insert_sorted
insert_sorted-IsAscending s [] h = Pairwise.cons (λ t m. absurd (not-mem-nil m)) Pairwise.nil
insert_sorted-IsAscending s (t ∷ ss) (Pairwise.cons above h) = elim (Bool-cases (str_leb s t)) [
  | inl p ↦ rw p (
      Pairwise.cons (AreAbove-cons s t ss p λ u m. ≼_trans s t u p (above u m))
        (Pairwise.cons above h))
  | inr p ↦
      let perm = insert_sorted-perm s ss in
      rw p (
        Pairwise.cons
          (λ u m. AreAbove-cons t s ss (≼_total s t p) above u ((Perm.mem_iff perm).0 m))
          (insert_sorted-IsAscending s ss h))
]

pub sort-IsAscending : (ss : List Bytes) → IsAscending (sort ss)
unfolding sort
sort-IsAscending [] = Pairwise.nil
sort-IsAscending (s ∷ ss) = insert_sorted-IsAscending s (sort ss) (sort-IsAscending ss)

-- The head of an ascending list is at most each element of a rearrangement.
head_least :
    (s t : Bytes) (ss ts : List Bytes) → IsAscending (s ∷ ss) → Perm (t ∷ ts) (s ∷ ss) → s ≼ t
head_least s t ss ts (Pairwise.cons above h) p =
    AreAbove-cons s s ss (≼_refl s) above t ((Perm.mem_iff p).0 mem-cons_self)

IsAscending-unique : (ss ts : List Bytes) → IsAscending ss → IsAscending ts → Perm ss ts → ss ≡ ts
IsAscending-unique [] ts h k p = Perm.nil-eq p
IsAscending-unique (s ∷ ss) [] h k p = Perm.eq-nil p
IsAscending-unique (s ∷ ss) (t ∷ ts) h k p =
    let e : s ≡ t =
      ≼_antisymm s t (head_least s t ss ts h (Perm.symm p)) (head_least t s ts ss k p) in
    let rest = Perm.cons_inv (Perm.trans p (Perm.cons' (sym e) Perm.rfl)) in
    cc (e, IsAscending-unique ss ts (Pairwise.of_cons h) (Pairwise.of_cons k) rest)

-- Rearranged lists are sorted alike.
pub sort-eq_of_perm : (ss ts : List Bytes) → Perm ss ts → sort ss ≡ sort ts
sort-eq_of_perm ss ts p =
    IsAscending-unique (sort ss) (sort ts) (sort-IsAscending ss) (sort-IsAscending ts)
      (Perm.trans (sort-perm ss) (Perm.trans p (Perm.symm (sort-perm ts))))
