-- ===== src/Normalize/Encodings.antt =====
-- internal/normalize/normalize.go, AcceptEncoding: the normal form of the header against the
-- encodings it names.
use mathlib.Core.List.{Perm}
use mathlib.Core.List.Perm
use mathlib.Core.HLevel.{×_prop, ¬_prop}
use mathlib.Core.Bool.{Bool-set}
use open_flare.Prelude.{
  ◌≡◌, ◌≢◌, ◌↔◌, refl, sym, ap, ◌∙◌, true, false, not, List, [], ◌∷◌, map, filter, arith, All,
  All-and, All-map, All_prop, true-ne-false, All-filter, All_of_perm, if◌then◌else◌,
}
use open_flare.Text.{Bytes, codes, split, join, sort, is_empty, to_lower, trim_space}
use open_flare.Text.Parts.{Lacks, split-Lacks, split-All, split-join, trim_space-All}
use open_flare.Text.Sorted.{sort-perm, sort-eq_of_perm}
use open_flare.Normalize.{accept_encoding, first_part}

-- The encodings that a header names, without their parameters; no header is `identity`.
unfoldable pub encodings : Bytes → List Bytes
unfolding to_lower split trim_space filter
encodings ae =
    if is_empty ae
    then codes "identity" ∷ []
    else filter (λ e. not (is_empty e))
        (map (λ p. trim_space (first_part (split p b';'))) (split (to_lower ae) b','))

accept_encoding-encodings :
    (ae : Bytes) → accept_encoding ae ≡ join (sort (encodings ae)) (codes ",")
unfolding accept_encoding encodings sort
accept_encoding-encodings [] = refl
accept_encoding-encodings (c ∷ ae) = refl

-- A name of an encoding: it is not empty, and holds no comma.
abbrev IsName : Bytes → Type 0
IsName s = (is_empty s ≡ false) × Lacks b',' s

first_part-Lacks : (ps : List Bytes) → All (Lacks b',') ps → Lacks b',' (first_part ps)
first_part-Lacks [] h = tt
first_part-Lacks (p ∷ ps) (h, _) = h

named : Bytes → Bytes
unfolding trim_space split
named p = trim_space (first_part (split p b';'))

named-Lacks : (ps : List Bytes) → All (Lacks b',') ps → All (Lacks b',') (map named ps)
unfolding named
named-Lacks [] h = tt
named-Lacks (p ∷ ps) (l, h) =
    (trim_space-All _ _ (first_part-Lacks _ (split-All _ b';' p l)), named-Lacks ps h)

filter-nonempty :
    (xs : List Bytes) → All (λ e. is_empty e ≡ false) (filter (λ e. not (is_empty e)) xs)
unfolding filter
filter-nonempty [] = tt
filter-nonempty ([] ∷ xs) = filter-nonempty xs
filter-nonempty ((c ∷ x) ∷ xs) = (refl, filter-nonempty xs)

encodings-AreNames : (ae : Bytes) → All IsName (encodings ae)
unfolding encodings named
encodings-AreNames [] = ((refl, ground arith), tt)
encodings-AreNames (c ∷ ae) =
    let parts = map named (split (to_lower (c ∷ ae)) b',') in
    All-and (λ e a b. (a, b)) (filter (λ e. not (is_empty e)) parts) (filter-nonempty parts)
      (All-filter (Lacks b',') (λ e. not (is_empty e)) parts
        (named-Lacks _ (split-Lacks b',' (to_lower (c ∷ ae)))))

join-empty :
    (p : Bytes) (ps : List Bytes)
    → is_empty p ≡ false
    → is_empty (join (p ∷ ps) (codes ",")) ≡ false
unfolding join
join-empty [] ps h = cc h
join-empty (c ∷ p) [] h = refl
join-empty (c ∷ p) (q ∷ ps) h = refl

-- Names that are joined alike are the same.
join-injective :
    (xs ys : List Bytes)
    → All IsName xs
    → All IsName ys
    → join xs (codes ",") ≡ join ys (codes ",")
    → xs ≡ ys
unfolding join
join-injective [] [] h k e = refl
join-injective [] (y ∷ ys) h ((k, _), _) e =
    let nothing : is_empty [] ≡ true = refl in
    absurd (true-ne-false nothing (ap is_empty e ∙ join-empty y ys k))
join-injective (x ∷ xs) [] ((h, _), _) k e =
    let nothing : is_empty [] ≡ true = refl in
    absurd (true-ne-false nothing (ap is_empty (sym e) ∙ join-empty x xs h))
join-injective (x ∷ xs) (y ∷ ys) (h, hs) (k, ks) e =
    sym (split-join b',' x xs h.1 (All-map (λ s n. n.1) xs hs))
    ∙ ap (λ s. split s b',') e
    ∙ split-join b',' y ys k.1 (All-map (λ s n. n.1) ys ks)

IsName-prop : (s : Bytes) → IsProp (IsName s)
IsName-prop s = ×_prop (Bool-set (is_empty s) false) (All_prop (λ c. c ≢ b',') (λ c. ¬_prop) s)

sorted-AreNames : (ae : Bytes) → All IsName (sort (encodings ae))
sorted-AreNames ae =
    All_of_perm IsName IsName-prop (encodings ae) (sort (encodings ae))
      (Perm.symm (sort-perm (encodings ae))) (encodings-AreNames ae)

-- Two Accept-Encoding headers have one normal form exactly if the encodings that they name are
-- rearrangements of each other.
pub accept_encoding_iff :
    (a b : Bytes) → (accept_encoding a ≡ accept_encoding b) ↔ Perm (encodings a) (encodings b)
accept_encoding_iff a b = (
  λ e.
      let sorted : sort (encodings a) ≡ sort (encodings b) =
        join-injective _ _ (sorted-AreNames a) (sorted-AreNames b)
          (sym (accept_encoding-encodings a) ∙ e ∙ accept_encoding-encodings b) in
      Perm.trans (Perm.symm (sort-perm (encodings a))) (rw sorted (sort-perm (encodings b))),
  λ p.
      accept_encoding-encodings a
      ∙ ap (λ es. join es (codes ",")) (sort-eq_of_perm (encodings a) (encodings b) p)
      ∙ sym (accept_encoding-encodings b),
)
