-- ===== src/Url/Escapes.antt =====
-- Escaping for a query and back, as `url.QueryEscape` and `url.QueryUnescape` do it.
use open_flare.Prelude.{
  ℕ, ◌/◌, ◌%◌, ◌<◌, ◌≡◌, ◌≢◌, refl, ap, ◌∙◌, subst, ◌*◌, ◌+◌, true, [], ◌∷◌, ◌++◌, Option, none,
  some, arith, All, All-append, Bool-cases, if-split, Bool, ◌&&◌, inl, inr, ◌==◌, if◌then◌else◌,
}
use open_flare.Text.{Bytes}
use open_flare.Url.{
  unescape, query_escape, unhex, byte_of, prepend, is_unreserved, hex_digit, escape_byte,
}

-- A string of bytes.
abbrev pub AreBytes : Bytes → Type 0
AreBytes = All (λ c. c < 256)

-- A byte with no meaning in a query or in a cache key.
abbrev pub IsInert : ℕ → Type 0
IsInert c = (c ≢ b'&') × (c ≢ b'=') × (c ≢ b';') × (c ≢ b'?') × (c ≢ b'|')

unhex-hex_digit : (n : ℕ) → n < 16 → unhex (hex_digit n) ≡ some n
unfolding unhex hex_digit
unhex-hex_digit n h = ground arith

hex_digit-IsInert : (n : ℕ) → n < 16 → IsInert (hex_digit n)
unfolding hex_digit
hex_digit-IsInert n h = ground arith

byte_of_digits :
    (c : ℕ) → c < 256 → byte_of (unhex (hex_digit (c / 16))) (unhex (hex_digit (c % 16))) ≡ some c
byte_of_digits c h =
    rw (unhex-hex_digit (c / 16) (omega arith), unhex-hex_digit (c % 16) (omega arith))
      (ap some (omega arith))

unescape-cons :
    (c : ℕ) (s : Bytes) → c ≢ b'%' → c ≢ b'+' → unescape true (c ∷ s) ≡ prepend c (unescape true s)
unfolding unescape
unescape-cons c [] h k = ground arith
unescape-cons c (d ∷ []) h k = ground arith
unescape-cons c (d ∷ e ∷ s) h k = ground arith

unescape-plus : (s : Bytes) → unescape true (b'+' ∷ s) ≡ prepend b' ' (unescape true s)
unfolding unescape
unescape-plus [] = refl
unescape-plus (d ∷ []) = refl
unescape-plus (d ∷ e ∷ s) = refl

unescape-percent :
    (a b c : ℕ) (s : Bytes)
    → byte_of (unhex a) (unhex b) ≡ some c
    → unescape true (b'%' ∷ a ∷ b ∷ s) ≡ prepend c (unescape true s)
unfolding unescape
unescape-percent a b c s e = rw e

is_unreserved-plain : (c : ℕ) → is_unreserved c ≡ true → (c ≢ b'%') × (c ≢ b'+') × IsInert c
unfolding is_unreserved
is_unreserved-plain c h = ground arith

unescape-escape_byte :
    (c : ℕ) (s : Bytes) → c < 256 → unescape true (escape_byte c ++ s) ≡ prepend c (unescape true s)
unfolding escape_byte
unescape-escape_byte c s h = elim (Bool-cases (is_unreserved c)) [
  | inl p ↦ let (ne, nf, _) = is_unreserved-plain c p in rw p (unescape-cons c s ne nf)
  | inr p ↦ elim (Bool-cases (c == b' ')) [
    | inl q ↦ let e : c ≡ b' ' = ground arith in rw (p, q) (rw e (unescape-plus s))
    | inr q ↦ rw (p, q) (unescape-percent _ _ c s (byte_of_digits c h))
  ]
]

-- Unescaping undoes escaping.
pub unescape-query_escape : (s : Bytes) → AreBytes s → unescape true (query_escape s) ≡ some s
unfolding query_escape unescape
unescape-query_escape [] h = refl
unescape-query_escape (c ∷ s) (p, h) =
    unescape-escape_byte c (query_escape s) p ∙ ap (prepend c) (unescape-query_escape s h)

escape_byte-IsInert : (c : ℕ) → c < 256 → All IsInert (escape_byte c)
unfolding escape_byte
escape_byte-IsInert c h = elim (Bool-cases (is_unreserved c)) [
  | inl p ↦ let (_, _, inert) = is_unreserved-plain c p in rw p (inert, tt)
  | inr p ↦ elim (Bool-cases (c == b' ')) [
    | inl q ↦ rw (p, q) (ground arith)
    | inr q ↦
        rw (p, q)
          (
            ground arith,
            (
              hex_digit-IsInert (c / 16) (omega arith),
              (hex_digit-IsInert (c % 16) (omega arith), tt),
            ),
          )
  ]
]

-- An escaped string has only inert bytes.
pub query_escape-IsInert : (s : Bytes) → AreBytes s → All IsInert (query_escape s)
unfolding query_escape
query_escape-IsInert [] h = tt
query_escape-IsInert (c ∷ s) (p, h) =
    All-append IsInert (escape_byte c) (query_escape s) (escape_byte-IsInert c p)
      (query_escape-IsInert s h)

-- The result, where there is one, is a string of bytes.
abbrev GivesBytes : Option Bytes → Type 0
GivesBytes none = Unit
GivesBytes (some s) = AreBytes s

prepend-GivesBytes : (c : ℕ) (o : Option Bytes) → c < 256 → GivesBytes o → GivesBytes (prepend c o)
prepend-GivesBytes c none h k = tt
prepend-GivesBytes c (some s) h k = (h, k)

unhex-lt : (c d : ℕ) → unhex c ≡ some d → d < 16
unfolding unhex
unhex-lt c d h = ground arith

byte_of-lt : (a b v : ℕ) → byte_of (unhex a) (unhex b) ≡ some v → v < 256
byte_of-lt a b v e = pair (unhex a) (unhex b) (unhex-lt a) (unhex-lt b) e
  where
    pair :
        (o r : Option ℕ)
        → ((d : ℕ) → o ≡ some d → d < 16)
        → ((d : ℕ) → r ≡ some d → d < 16)
        → byte_of o r ≡ some v
        → v < 256
    pair none r h k e = cc
    pair (some x) none h k e = cc
    pair (some x) (some y) h k e =
        let p : x < 16 = h x refl in
        let q : y < 16 = k y refl in let same : x * 16 + y ≡ v = cc in omega arith

unescape-byte-GivesBytes :
    (o : Option ℕ) (r : Option Bytes)
    → ((v : ℕ) → o ≡ some v → v < 256)
    → GivesBytes r
    → GivesBytes (elim o [ none ↦ none | some v ↦ prepend v r ])
unescape-byte-GivesBytes none r h k = tt
unescape-byte-GivesBytes (some v) r h k = prepend-GivesBytes v r (h v refl) k

-- Where the byte is no percent sign.
plain-GivesBytes :
    (plus : Bool) (c : ℕ) (o : Option Bytes)
    → c < 256
    → GivesBytes o
    → GivesBytes (if plus && c == b'+' then prepend b' ' o else prepend c o)
plain-GivesBytes plus c o h k =
    if-split GivesBytes (plus && c == b'+') (prepend b' ' o) (prepend c o)
      (λ _. prepend-GivesBytes b' ' o (omega arith) k) (λ _. prepend-GivesBytes c o h k)

unescape-GivesBytes : (plus : Bool) (s : Bytes) → AreBytes s → GivesBytes (unescape plus s)
unfolding unescape
unescape-GivesBytes plus [] h = tt
unescape-GivesBytes plus (c ∷ []) (p, h) =
    if-split GivesBytes (c == b'%') none
      (if plus && c == b'+' then some (b' ' ∷ []) else some (c ∷ [])) (λ _. tt)
      (λ _. plain-GivesBytes plus c (some []) p tt)
unescape-GivesBytes plus (c ∷ a ∷ []) (p, h) =
    let rest = unescape plus (a ∷ []) in
    if-split GivesBytes (c == b'%') none
      (if plus && c == b'+' then prepend b' ' rest else prepend c rest) (λ _. tt)
      (λ _. plain-GivesBytes plus c rest p (unescape-GivesBytes plus (a ∷ []) h))
unescape-GivesBytes plus (c ∷ a ∷ b ∷ s) (p, (q, (r, h))) =
    let rest = unescape plus (a ∷ b ∷ s) in
    let after = unescape plus s in
    if-split GivesBytes (c == b'%')
      (elim (byte_of (unhex a) (unhex b)) [ none ↦ none | some v ↦ prepend v after ])
      (if plus && c == b'+' then prepend b' ' rest else prepend c rest)
      (λ _.
        unescape-byte-GivesBytes (byte_of (unhex a) (unhex b)) after (byte_of-lt a b)
          (unescape-GivesBytes plus s h))
      (λ _. plain-GivesBytes plus c rest p (unescape-GivesBytes plus (a ∷ b ∷ s) (q, (r, h))))

-- A string of bytes is unescaped to one.
pub unescape-AreBytes :
    (plus : Bool) (s d : Bytes) → AreBytes s → unescape plus s ≡ some d → AreBytes d
unescape-AreBytes plus s d h e = subst GivesBytes e (unescape-GivesBytes plus s h)
