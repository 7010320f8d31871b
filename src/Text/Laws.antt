-- ===== src/Text/Laws.antt =====
-- What the Boolean tests of `Text` decide.
use open_flare.Prelude.{◌≡◌, refl, ◌↔◌, true, [], ◌∷◌, ◌++◌, arith}
use open_flare.Text.{Bytes, codes, str_eq, has_prefix, contains, split, sort}

pub str_eq_refl : (s : Bytes) → str_eq s s ≡ true
unfolding str_eq
str_eq_refl [] = refl
str_eq_refl (a ∷ s) = ground (arith, str_eq_refl s)

eq_of_str_eq : (s t : Bytes) → str_eq s t ≡ true → s ≡ t
unfolding str_eq
eq_of_str_eq [] [] h = refl
eq_of_str_eq [] (b ∷ t) h = cc
eq_of_str_eq (a ∷ s) [] h = cc
eq_of_str_eq (a ∷ s) (b ∷ t) h = ground (arith, eq_of_str_eq s t)

pub str_eq_iff : (s t : Bytes) → (str_eq s t ≡ true) ↔ (s ≡ t)
str_eq_iff s t = (eq_of_str_eq s t, λ e. ground (arith, str_eq_refl s))

-- A prefix is what the text begins with.
prefix_split : (s p : Bytes) → has_prefix s p ≡ true → (r : Bytes) × (s ≡ p ++ r)
unfolding has_prefix
prefix_split s [] h = (s, refl)
prefix_split [] (p ∷ ps) h = cc
prefix_split (c ∷ s) (p ∷ ps) h = let (r, e) = prefix_split s ps (ground arith) in (r, ground arith)

pub has_prefix-append : (p r : Bytes) → has_prefix (p ++ r) p ≡ true
unfolding has_prefix
has_prefix-append [] r = refl
has_prefix-append (c ∷ p) r = ground (arith, has_prefix-append p r)

pub has_prefix_iff : (s p : Bytes) → (has_prefix s p ≡ true) ↔ ((r : Bytes) × (s ≡ p ++ r))
has_prefix_iff s p = (prefix_split s p, λ (r, e). ground (arith, has_prefix-append p r))

split_test : split (codes "a||b") b'|' ≡ codes "a" ∷ [] ∷ codes "b" ∷ []
unfolding split
split_test = refl

sort_test : sort (codes "gzip" ∷ codes "br" ∷ []) ≡ codes "br" ∷ codes "gzip" ∷ []
unfolding sort
sort_test = refl

contains_test : contains (codes "max-age=3, private") (codes "private") ≡ true
unfolding contains
contains_test = refl
