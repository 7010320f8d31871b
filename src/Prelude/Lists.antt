-- ===== src/Prelude/Lists.antt =====
-- Lists measured by native numbers, under the library's names, Boolean searches and the predicate
-- that holds of every element.
use Prim.Native.Nat.{ℕ, zero, suc, ◌+◌, ◌≤◌, min}
use mathlib.Core.Path.{◌≡◌, refl, ap, subst}
use mathlib.Core.List.{List, [], ◌∷◌, ◌++◌, Perm, Permᴰ, reverse, reverse-cons}
use mathlib.Core.Logic.{∥∥₁_elim}
use mathlib.Core.HLevel.{Unit-prop, ×_prop}
use mathlib.Core.Bool.{Bool, true, false, false, ◌||◌}
use mathlib.Core.Option.{Option, none, some}
use native.Mathlib.Omega.{arith}
use open_flare.Prelude.Tests.{if◌then◌else◌, Bool-cases}
use mathlib.Core.Logic.{inl, inr}

module _ {ℓ} {A : Type ℓ} where
  abbrev pub length : List A → ℕ
  length [] = 0
  length (x ∷ xs) = suc (length xs)

  abbrev pub take : ℕ → List A → List A
  take zero xs = []
  take (suc n) [] = []
  take (suc n) (x ∷ xs) = x ∷ take n xs

  abbrev pub drop : ℕ → List A → List A
  drop zero xs = xs
  drop (suc n) [] = []
  drop (suc n) (x ∷ xs) = drop n xs

  abbrev pub get_elem? : List A → ℕ → Option A
  get_elem? [] i = none
  get_elem? (x ∷ xs) zero = some x
  get_elem? (x ∷ xs) (suc i) = get_elem? xs i

  -- `len(xs) == 0`.
  abbrev pub is_nil : List A → Bool
  is_nil [] = true
  is_nil (x ∷ xs) = false

  unfoldable pub any : (A → Bool) → List A → Bool
  any p [] = false
  any p (x ∷ xs) = p x || any p xs

  -- The elements that pass a Boolean test.
  unfoldable pub filter : (A → Bool) → List A → List A
  filter p [] = []
  filter p (x ∷ xs) = if p x then x ∷ filter p xs else filter p xs

  pub length-append : (xs ys : List A) → length (xs ++ ys) ≡ length xs + length ys
  length-append [] ys = omega arith
  length-append (x ∷ xs) ys = omega (arith, length-append xs ys)

  pub take_of_length-le : (n : ℕ) (xs : List A) → length xs ≤ n → take n xs ≡ xs
  take_of_length-le zero [] _ = refl
  take_of_length-le (suc k) [] _ = refl
  take_of_length-le (suc k) (a ∷ s) h =
      let rest = take_of_length-le k s (omega arith) in ap (◌∷◌ a) rest
  take_of_length-le zero (a ∷ s) h = absurd (omega arith)

  pub length-take : (n : ℕ) (xs : List A) → length (take n xs) ≡ min n (length xs)
  length-take zero xs = omega arith
  length-take (suc n) [] = omega arith
  length-take (suc n) (x ∷ xs) = omega (arith, length-take n xs)

module _ {ℓ κ} {A : Type ℓ} (P : A → Type κ) where
  abbrev pub All : List A → Type κ
  All [] = Unit
  All (x ∷ xs) = P x × All xs

  pub All-append : (xs ys : List A) → All xs → All ys → All (xs ++ ys)
  All-append [] ys _ hy = hy
  All-append (x ∷ xs) ys (px, hx) hy = (px, All-append xs ys hx hy)

  pub All-take : (n : ℕ) (xs : List A) → All xs → All (take n xs)
  All-take zero xs h = tt
  All-take (suc n) [] h = tt
  All-take (suc n) (x ∷ xs) (p, h) = (p, All-take n xs h)

  pub All-drop : (n : ℕ) (xs : List A) → All xs → All (drop n xs)
  All-drop zero xs h = h
  All-drop (suc n) [] h = tt
  All-drop (suc n) (x ∷ xs) (p, h) = All-drop n xs h

  pub All-reverse : (xs : List A) → All xs → All (reverse xs)
  All-reverse [] h = tt
  All-reverse (x ∷ xs) (p, h) =
      rw reverse-cons (All-append (reverse xs) (x ∷ []) (All-reverse xs h) (p, tt))

  pub All-filter : (test : A → Bool) (xs : List A) → All xs → All (filter test xs)
  unfolding filter
  All-filter test [] h = tt
  All-filter test (x ∷ xs) (p, h) = elim (Bool-cases (test x)) [
    | inl e ↦ rw e (p, All-filter test xs h)
    | inr e ↦ rw e (All-filter test xs h)
  ]

module _ {ℓ κ} {A : Type ℓ} where
  pub All-map : {P R : A → Type κ} → ((x : A) → P x → R x) → (xs : List A) → All P xs → All R xs
  All-map f [] h = tt
  All-map f (x ∷ xs) (p, h) = (f x p, All-map f xs h)

  pub All-and :
      {P Q R : A → Type κ}
      → ((x : A) → P x → Q x → R x)
      → (xs : List A) → All P xs
      → All Q xs
      → All R xs
  All-and f [] h k = tt
  All-and f (x ∷ xs) (p, h) (q, k) = (f x p q, All-and f xs h k)

-- The predicate passes to a rearrangement.
module _ {ℓ κ} {A : Type ℓ} (P : A → Type κ) (P-prop : (x : A) → IsProp (P x)) where
  pub All_prop : (xs : List A) → IsProp (All P xs)
  All_prop [] = Unit-prop
  All_prop (x ∷ xs) = ×_prop (P-prop x) (All_prop xs)

  All_of_permᴰ : (xs ys : List A) → Permᴰ xs ys → All P xs → All P ys
  All_of_permᴰ _ _ Permᴰ.nil h = tt
  All_of_permᴰ _ _ (Permᴰ.cons {l₁ = xs} {l₂ = ys} e d) (p, h) =
      (subst P e p, All_of_permᴰ xs ys d h)
  All_of_permᴰ _ _ (Permᴰ.swap e f) (p, (q, h)) = (subst P f q, (subst P e p, h))
  All_of_permᴰ _ _ (Permᴰ.trans {l₁ = xs} {l₂ = ys} {l₃ = zs} d e) h =
      All_of_permᴰ ys zs e (All_of_permᴰ xs ys d h)

  pub All_of_perm : (xs ys : List A) → Perm xs ys → All P xs → All P ys
  All_of_perm xs ys p h = ∥∥₁_elim p (All_prop ys) (λ d. All_of_permᴰ xs ys d h)
