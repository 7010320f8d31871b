-- ===== src/Cache/Backend/Elements.antt =====
-- The element list of the cache: search by key, sizes, and what the removal of an element does.
use open_flare.Prelude.{
  ℕ, zero, suc, ◌+◌, ◌≤◌, ◌≡◌, ◌≢◌, refl, sym, ap, List, [], ◌∷◌, Option, none, some, arith,
  if◌then◌else◌, length, All, take, filter, not, Bool-cases, inl, inr,
}
use mathlib.Core.Path.{subst}
use open_flare.Text.{Bytes, str_eq}
use open_flare.Text.Laws.{str_eq_iff, str_eq_refl}
use open_flare.Cache.Backend.{Element, map_get, map_delete, map_set, list_remove, back}

-- The element of a key in the list.
unfoldable pub find : Bytes → List Element → Option Element
find k [] = none
find k (e ∷ l) = if str_eq e.key k then some e else find k l

unfoldable pub total : List Element → ℕ
total [] = 0
total (e ∷ l) = e.entry.size + total l

-- No two elements share an address or a key.
abbrev pub AreDistinct : List Element → Type 0
AreDistinct [] = Unit
AreDistinct (e ∷ l) = All (λ f. (f.id ≢ e.id) × (f.key ≢ e.key)) l × AreDistinct l

pub map_get-map_delete :
    (j k : Bytes) (m : List (Bytes × Element))
    → map_get j (map_delete k m) ≡ (if str_eq k j then none else map_get j m)
unfolding map_get map_delete
map_get-map_delete j k [] = ground arith
map_get-map_delete j k ((i, e) ∷ m) =
    ground (arith, map_get-map_delete j k m, str_eq_iff i k, str_eq_iff k j, str_eq_iff i j)

pub map_get-map_set :
    (j k : Bytes) (e : Element) (m : List (Bytes × Element))
    → map_get j (map_set k e m) ≡ (if str_eq k j then some e else map_get j m)
unfolding map_get map_set
map_get-map_set j k e m = ground (arith, map_get-map_delete j k m)

-- What holds of all elements holds of the one that is found, which has the key.
pub find-All :
    (P : Element → Type 0) (k : Bytes) (l : List Element) (e : Element)
    → All P l
    → find k l ≡ some e
    → P e × (e.key ≡ k)
unfolding find
find-All P k [] e h p = absurd (ground arith)
find-All P k (x ∷ l) e (px, h) p = elim (Bool-cases (str_eq x.key k)) [
  | inl same ↦
      let x_is_e : x ≡ e = ground arith in
      (subst P x_is_e px, ground (arith, (str_eq_iff x.key k).0 same))
  | inr other ↦ find-All P k l e h (ground arith)
]

pub find_absent : (k : Bytes) (l : List Element) → All (λ f. f.key ≢ k) l → find k l ≡ none
unfolding find
find_absent k [] h = refl
find_absent k (x ∷ l) (p, h) = ground (arith, find_absent k l h, str_eq_iff x.key k)

-- The elements with another key.
unfoldable pub without : Bytes → List Element → List Element
unfolding filter
without k l = filter (λ f. not (str_eq f.key k)) l

pub without_absent : (k : Bytes) (l : List Element) → All (λ f. f.key ≢ k) l → without k l ≡ l
unfolding without
without_absent k [] h = refl
without_absent k (x ∷ l) (p, h) = ground (arith, without_absent k l h, str_eq_iff x.key k)

abbrev pub IsOther : Element → Element → Type 0
IsOther e f = (f.id ≢ e.id) × (f.key ≢ e.key)

others-keys : (e : Element) (l : List Element) → All (IsOther e) l → All (λ f. f.key ≢ e.key) l
others-keys e [] h = tt
others-keys e (x ∷ l) ((_, p), h) = (p, others-keys e l h)

-- To remove an element of the list by its address is to drop its key.
pub list_remove-without :
    (k : Bytes) (l : List Element) (e : Element)
    → AreDistinct l
    → find k l ≡ some e
    → list_remove e.id l ≡ without k l
unfolding find list_remove without
list_remove-without k [] e d p = absurd (ground arith)
list_remove-without k (x ∷ l) e (h, d) p = elim (Bool-cases (str_eq x.key k)) [
  | inl same ↦
      let at_key : x.key ≡ k = (str_eq_iff x.key k).0 same in
      let gone : without x.key l ≡ l = without_absent x.key l (others-keys x l h) in ground arith
  | inr other ↦
      let found : find k l ≡ some e = ground arith in
      let apart = (find-All (IsOther x) k l e h found).0 in
      ground (arith, list_remove-without k l e d found, apart.0)
]

pub find-without :
    (j k : Bytes) (l : List Element)
    → find j (without k l) ≡ (if str_eq k j then none else find j l)
unfolding find without
find-without j k [] = ground arith
find-without j k (x ∷ l) =
    ground (arith, find-without j k l, str_eq_iff x.key k, str_eq_iff k j, str_eq_iff x.key j)

pub total-without :
    (k : Bytes) (l : List Element) (e : Element)
    → AreDistinct l
    → find k l ≡ some e
    → total (without k l) + e.entry.size ≡ total l
unfolding find total without
total-without k [] e d p = absurd (ground arith)
total-without k (x ∷ l) e (h, d) p = elim (Bool-cases (str_eq x.key k)) [
  | inl same ↦
      let at_key : x.key ≡ k = (str_eq_iff x.key k).0 same in
      let gone : without x.key l ≡ l = without_absent x.key l (others-keys x l h) in ground arith
  | inr other ↦ ground (arith, total-without k l e d)
]

pub length-without :
    (k : Bytes) (l : List Element) (e : Element)
    → AreDistinct l
    → find k l ≡ some e
    → length (without k l) + 1 ≡ length l
unfolding find without
length-without k [] e d p = absurd (ground arith)
length-without k (x ∷ l) e (h, d) p = elim (Bool-cases (str_eq x.key k)) [
  | inl same ↦
      let at_key : x.key ≡ k = (str_eq_iff x.key k).0 same in
      let gone : without x.key l ≡ l = without_absent x.key l (others-keys x l h) in ground arith
  | inr other ↦ ground (arith, length-without k l e d)
]

pub without-All :
    (P : Element → Type 0) (k : Bytes) (l : List Element) → All P l → All P (without k l)
unfolding without
without-All P k [] h = tt
without-All P k (x ∷ l) (p, h) = elim (Bool-cases (str_eq x.key k)) [
  | inl same ↦ rw same (without-All P k l h)
  | inr other ↦ rw other (p, without-All P k l h)
]

pub without-AreDistinct : (k : Bytes) (l : List Element) → AreDistinct l → AreDistinct (without k l)
unfolding without
without-AreDistinct k [] d = tt
without-AreDistinct k (x ∷ l) (h, d) = elim (Bool-cases (str_eq x.key k)) [
  | inl same ↦ rw same (without-AreDistinct k l d)
  | inr other ↦ rw other (without-All (IsOther x) k l h, without-AreDistinct k l d)
]

-- A key that is dropped is on no element.
pub without-keys : (k : Bytes) (l : List Element) → All (λ f. f.key ≢ k) (without k l)
unfolding without
without-keys k [] = tt
without-keys k (x ∷ l) = elim (Bool-cases (str_eq x.key k)) [
  | inl same ↦ rw same (without-keys k l)
  | inr other ↦ rw other (λ e. ground (arith, str_eq_iff x.key k), without-keys k l)
]

-- The last element is the one that its key finds.
pub back-find :
    (l : List Element) (e : Element) → AreDistinct l → back l ≡ some e → find e.key l ≡ some e
unfolding back find
back-find [] e d p = absurd (ground arith)
back-find (x ∷ []) e d p = ground (arith, str_eq_refl e.key)
back-find (x ∷ y ∷ l) e (h, d) p =
    let found : find e.key (y ∷ l) ≡ some e = back-find (y ∷ l) e d p in
    let apart = (find-All (IsOther x) e.key (y ∷ l) e h found).0 in
    ground (arith, str_eq_iff x.key e.key, apart.1)

pub take-take : (n p : ℕ) (l : List Element) → n ≤ p → take n (take p l) ≡ take n l
take-take zero p l h = refl
take-take (suc n) zero l h = absurd (omega arith)
take-take (suc n) (suc p) [] h = refl
take-take (suc n) (suc p) (x ∷ l) h = ap (◌∷◌ x) (take-take n p l (omega arith))

-- To drop the key of the last element is to keep all elements but one.
pub without-back :
    (n : ℕ) (l : List Element) (e : Element)
    → AreDistinct l
    → length l ≡ suc n
    → back l ≡ some e
    → without e.key l ≡ take n l
unfolding without back
without-back n [] e d h p = absurd (omega arith)
without-back zero (x ∷ []) e d h p = ground (arith, str_eq_refl x.key)
without-back (suc n) (x ∷ []) e d h p = absurd (omega arith)
without-back zero (x ∷ y ∷ l) e d h p = absurd (omega arith)
without-back (suc n) (x ∷ y ∷ l) e (h, d) len p =
    let found : find e.key (y ∷ l) ≡ some e = back-find (y ∷ l) e d p in
    let apart = (find-All (IsOther x) e.key (y ∷ l) e h found).0 in
    let ih : without e.key (y ∷ l) ≡ take n (y ∷ l) = without-back n (y ∷ l) e d (omega arith) p in
    ground (arith, str_eq_iff x.key e.key, apart.1, ih)

pub back-none : (l : List Element) → back l ≡ none → l ≡ []
unfolding back
back-none [] p = refl
back-none (x ∷ []) p = cc
back-none (x ∷ y ∷ l) p = absurd (ground (arith, back-none (y ∷ l) p))

-- What is left without a key differs from the element that had it.
pub without-others :
    (k : Bytes) (l : List Element) (e : Element)
    → AreDistinct l
    → find k l ≡ some e
    → All (IsOther e) (without k l)
unfolding find without
without-others k [] e d p = tt
without-others k (x ∷ l) e (h, d) p = elim (Bool-cases (str_eq x.key k)) [
  | inl same ↦
      let x_is_e : x ≡ e = ground arith in
      rw same (subst (λ y. All (IsOther y) (without k l)) x_is_e (without-All (IsOther x) k l h))
  | inr other ↦
      let found : find k l ≡ some e = ground arith in
      let apart = (find-All (IsOther x) k l e h found).0 in
      rw other ((λ q. apart.0 (sym q), λ q. apart.1 (sym q)), without-others k l e d found)
]
