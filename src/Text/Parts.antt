-- ===== src/Text/Parts.antt =====
-- `strings.Split` and `strings.Join` with a separator of one byte: each undoes the other.
use mathlib.Core.List.{append_assoc, append-nil}
use open_flare.Prelude.{
  ℕ, suc, ◌+◌, Bool, ◌≡◌, ◌≢◌, refl, sym, ap, ◌∙◌, true, false, List, [], ◌∷◌, ◌++◌, some, arith,
  All, All-append, All-reverse, ==_iff, ◌==◌, take, drop, length, Bool-cases, inl, inr,
}
use open_flare.Text.{Bytes, split, split_from, join, index_where, trim_left, trim_space, is_space}

abbrev pub Lacks : ℕ → Bytes → Type 0
Lacks sep = All (λ c. c ≢ sep)

split_from-append :
    (sep : ℕ) (cur s rest : Bytes)
    → Lacks sep s
    → split_from sep cur (s ++ sep ∷ rest) ≡ (cur ++ s) ∷ split_from sep [] rest
unfolding split_from
split_from-append sep cur [] rest h = ground (arith, append-nil cur)
split_from-append sep cur (c ∷ s) rest (ne, h) =
    ground (arith, split_from-append sep (cur ++ c ∷ []) s rest h, append_assoc cur (c ∷ []) s)

split_from_last : (sep : ℕ) (cur s : Bytes) → Lacks sep s → split_from sep cur s ≡ (cur ++ s) ∷ []
unfolding split_from
split_from_last sep cur [] h = ap (λ p. p ∷ []) (sym (append-nil cur))
split_from_last sep cur (c ∷ s) (ne, h) =
    ground (arith, split_from_last sep (cur ++ c ∷ []) s h, append_assoc cur (c ∷ []) s)

-- The part before the first separator, and the parts behind it.
pub split-append :
    (sep : ℕ) (s rest : Bytes) → Lacks sep s → split (s ++ sep ∷ rest) sep ≡ s ∷ split rest sep
unfolding split
split-append sep s rest h = split_from-append sep [] s rest h

pub split_last : (sep : ℕ) (s : Bytes) → Lacks sep s → split s sep ≡ s ∷ []
unfolding split
split_last sep s h = split_from_last sep [] s h

join-cons :
    (sep : ℕ) (p q : Bytes) (ps : List Bytes)
    → join (p ∷ q ∷ ps) (sep ∷ []) ≡ p ++ sep ∷ join (q ∷ ps) (sep ∷ [])
unfolding join
join-cons sep p q ps = append_assoc p (sep ∷ []) (join (q ∷ ps) (sep ∷ []))

-- Splitting undoes joining where no part holds the separator, and there is a part.
pub split-join :
    (sep : ℕ) (p : Bytes) (ps : List Bytes)
    → Lacks sep p
    → All (Lacks sep) ps
    → split (join (p ∷ ps) (sep ∷ [])) sep ≡ p ∷ ps
unfolding join
split-join sep p [] h k = split_last sep p h
split-join sep p (q ∷ ps) h (hq, k) =
    ap (λ s. split s sep) (join-cons sep p q ps)
    ∙ split-append sep p (join (q ∷ ps) (sep ∷ [])) h
    ∙ ap (◌∷◌ p) (split-join sep q ps hq k)

-- What holds of every byte of a text holds of every byte of its parts.
split_from-All :
    (P : ℕ → Type 0) (sep : ℕ) (cur s : Bytes)
    → All P cur
    → All P s
    → All (All P) (split_from sep cur s)
unfolding split_from
split_from-All P sep cur [] h k = (h, tt)
split_from-All P sep cur (c ∷ s) h (p, k) = elim (Bool-cases (c == sep)) [
  | inl e ↦ rw (split_from, e) (h, split_from-All P sep [] s tt k)
  | inr e ↦
      rw (split_from, e)
        (split_from-All P sep (cur ++ c ∷ []) s (All-append P cur (c ∷ []) h (p, tt)) k)
]

pub split-All : (P : ℕ → Type 0) (sep : ℕ) (s : Bytes) → All P s → All (All P) (split s sep)
unfolding split
split-All P sep s h = split_from-All P sep [] s tt h

-- What holds of every byte of the parts and of the separator holds of every byte of the text.
pub join-All :
    (P : ℕ → Type 0) (sep : ℕ) (ps : List Bytes)
    → P sep
    → All (All P) ps
    → All P (join ps (sep ∷ []))
unfolding join
join-All P sep [] h k = tt
join-All P sep (p ∷ []) h (k, _) = k
join-All P sep (p ∷ q ∷ ps) h (k, ks) =
    rw (join-cons sep p q ps)
      (All-append P p (sep ∷ join (q ∷ ps) (sep ∷ [])) k (h, join-All P sep (q ∷ ps) h ks))

-- The parts do not hold the separator.
split_from-Lacks :
    (sep : ℕ) (cur s : Bytes) → Lacks sep cur → All (Lacks sep) (split_from sep cur s)
unfolding split_from
split_from-Lacks sep cur [] h = (h, tt)
split_from-Lacks sep cur (c ∷ s) h = ground (
  arith,
  split_from-Lacks sep [] s tt,
  λ (ne : c ≢ sep).
      split_from-Lacks sep (cur ++ c ∷ []) s (All-append (λ d. d ≢ sep) cur (c ∷ []) h (ne, tt)),
)

pub split-Lacks : (sep : ℕ) (s : Bytes) → All (Lacks sep) (split s sep)
unfolding split
split-Lacks sep s = split_from-Lacks sep [] s tt

-- There is at least one part.
split_from_cons :
    (sep : ℕ) (cur s : Bytes) → (p : Bytes) × (ps : List Bytes) × (split_from sep cur s ≡ p ∷ ps)
unfolding split_from
split_from_cons sep cur [] = (cur, [], refl)
split_from_cons sep cur (c ∷ s) = elim (Bool-cases (c == sep)) [
  | inl e ↦ (cur, split_from sep [] s, rw (split_from, e) refl)
  | inr e ↦ rw (split_from, e) (split_from_cons sep (cur ++ c ∷ []) s)
]

-- Joining undoes splitting.
join-split_from : (sep : ℕ) (cur s : Bytes) → join (split_from sep cur s) (sep ∷ []) ≡ cur ++ s
unfolding split_from join
join-split_from sep cur [] = sym (append-nil cur)
join-split_from sep cur (c ∷ s) = elim (Bool-cases (c == sep)) [
  | inl e ↦
      let (p, ps, f) = split_from_cons sep [] s in
      let rest : join (p ∷ ps) (sep ∷ []) ≡ s =
        ap (λ qs. join qs (sep ∷ [])) (sym f) ∙ join-split_from sep [] s in
      let same : sep ≡ c = sym ((==_iff c sep).0 e) in
      rw (split_from, e, f, join-cons sep cur p ps, rest, same) refl
  | inr e ↦ rw (split_from, e) (join-split_from sep (cur ++ c ∷ []) s ∙ append_assoc cur (c ∷ []) s)
]

pub join-split : (sep : ℕ) (s : Bytes) → join (split s sep) (sep ∷ []) ≡ s
unfolding split
join-split sep s = join-split_from sep [] s

trim_left-All : (P : ℕ → Type 0) (s : Bytes) → All P s → All P (trim_left s)
unfolding trim_left
trim_left-All P [] h = tt
trim_left-All P (c ∷ s) (p, h) = elim (Bool-cases (is_space c)) [
  | inl e ↦ rw (trim_left, e) (trim_left-All P s h)
  | inr e ↦ rw (trim_left, e) (p, h)
]

pub trim_space-All : (P : ℕ → Type 0) (s : Bytes) → All P s → All P (trim_space s)
unfolding trim_space
trim_space-All P s h = All-reverse P _ (trim_left-All P _ (All-reverse P _ (trim_left-All P s h)))

-- The first byte that passes a test stands behind those that do not.
pub index_where-append :
    (test : ℕ → Bool) (s : Bytes) (c : ℕ) (rest : Bytes)
    → All (λ d. test d ≡ false) s
    → test c ≡ true
    → index_where test (s ++ c ∷ rest) ≡ some (length s)
unfolding index_where
index_where-append test [] c rest h e = rw e
index_where-append test (d ∷ s) c rest (k, h) e = rw (k, index_where-append test s c rest h e)

pub take-length-append : (s rest : Bytes) → take (length s) (s ++ rest) ≡ s
take-length-append [] rest = refl
take-length-append (c ∷ s) rest = ap (◌∷◌ c) (take-length-append s rest)

pub drop-length-append :
    (s : Bytes) (c : ℕ) (rest : Bytes) → drop (length s + 1) (s ++ c ∷ rest) ≡ rest
drop-length-append s c rest = let e : length s + 1 ≡ suc (length s) = omega arith in rw e (behind s)
  where
    behind : (t : Bytes) → drop (suc (length t)) (t ++ c ∷ rest) ≡ rest
    behind [] = refl
    behind (d ∷ t) = behind t
