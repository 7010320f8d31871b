-- ===== src/Cache/Policy/Directive.antt =====
-- internal/cache/policy.go: how a directive of `Cache-Control` is read.
use open_flare.Prelude.{
  ℕ, ◌+◌, ◌-◌, ◌*◌, ◌^◌, ◌<◌, ◌≤◌, ◌≡◌, refl, ◌∙◌, ap, true, ◌&&◌, ◌||◌, [], ◌∷◌, ◌++◌, ◌⊎◌, inl,
  inr, none, some, arith, length, take, drop, All, leb, ◌==◌,
}
use open_flare.Prelude.Int.{pos, ◌+ℤ◌, ◌*ℤ◌, wrap64, wrap64-pos}
use open_flare.Text.{Bytes, to_lower, index, index_where}
use mathlib.Core.List.{append-nil}
use open_flare.Config.{duration, second}
use open_flare.Cache.Policy.{read_seconds, cut_value, parse_cc_directive}

abbrev pub IsDigit : ℕ → Type 0
IsDigit digit = (b'0' ≤ digit) × (digit ≤ b'9')

-- The number that some digits denote after those of `n`.
unfoldable pub value_from : ℕ → Bytes → ℕ
value_from n [] = n
value_from n (c ∷ s) = value_from (n * 10 + (c - b'0')) s

value_from-ge : (n : ℕ) (s : Bytes) → n ≤ value_from n s
unfolding value_from
value_from-ge n [] = omega arith
value_from-ge n (c ∷ s) = omega (arith, value_from-ge (n * 10 + (c - b'0')) s)

-- One digit more, as long as the number stays in range.
next_digit : (n d : ℕ) → n * 10 + d < 2 ^ 63 → wrap64 (pos n *ℤ pos 10 +ℤ pos d) ≡ pos (n * 10 + d)
unfolding ◌*ℤ◌ ◌+ℤ◌
next_digit n d h =
    let sum : pos n *ℤ pos 10 +ℤ pos d ≡ pos (n * 10 + d) = ground arith in
    ap wrap64 sum ∙ wrap64-pos (n * 10 + d) h

read_seconds-value :
    (n : ℕ) (ds : Bytes)
    → All IsDigit ds
    → value_from n ds < 2 ^ 63
    → read_seconds (pos n) ds ≡ pos (value_from n ds)
unfolding read_seconds value_from
read_seconds-value n [] d h = refl
read_seconds-value n (c ∷ ds) ((lo, hi), d) h =
    let m = n * 10 + (c - b'0') in
    let small : m < 2 ^ 63 = omega (arith, value_from-ge (n * 10 + (c - b'0')) ds) in
    let digit : (leb b'0' c && leb c b'9') ≡ true = ground arith in
    rw digit
      (ap (λ x. read_seconds x ds) (next_digit n (c - b'0') small) ∙ read_seconds-value m ds d h)

-- Where the value of a directive may end.
abbrev pub IsEnd : Bytes → Type 0
IsEnd [] = Unit
IsEnd (c ∷ s) = (c ≡ b',') ⊎ (c ≡ b' ')

index_where-digits :
    (ds tail : Bytes)
    → All IsDigit ds
    → IsEnd tail
    → (index_where (λ c. c == b',' || c == b' ') (ds ++ tail) ≡ some (length ds))
      ⊎ ((index_where (λ c. c == b',' || c == b' ') (ds ++ tail) ≡ none) × (tail ≡ []))
unfolding index_where
index_where-digits [] [] d e = inr (refl, refl)
index_where-digits [] (c ∷ tail) d e = inl (ground arith)
index_where-digits (c ∷ ds) tail ((lo, hi), d) e = ground (arith, index_where-digits ds tail d e)

take-append : (ds tail : Bytes) → take (length ds) (ds ++ tail) ≡ ds
take-append [] tail = refl
take-append (c ∷ ds) tail = ap (◌∷◌ c) (take-append ds tail)

cut_value-digits : (ds tail : Bytes) → All IsDigit ds → IsEnd tail → cut_value (ds ++ tail) ≡ ds
unfolding cut_value
cut_value-digits ds tail d e =
    ground (arith, index_where-digits ds tail d e, take-append ds tail, append-nil ds)

duration-pos : (n : ℕ) → n * 1000000000 < 2 ^ 63 → duration (pos n) second ≡ pos (n * 1000000000)
unfolding duration
duration-pos n h =
    let product : pos n *ℤ second ≡ pos (n * 1000000000) = ground arith in
    ap wrap64 product ∙ wrap64-pos (n * 1000000000) h

-- The seconds that are read at the place of the directive.
seconds_read :
    (cc directive : Bytes) (i : ℕ) (ds tail : Bytes)
    → drop (i + length directive) (to_lower cc) ≡ ds ++ tail
    → All IsDigit ds
    → IsEnd tail
    → value_from 0 ds < 2 ^ 63
    → read_seconds (pos 0) (cut_value (drop (i + length directive) (to_lower cc)))
      ≡ pos (value_from 0 ds)
seconds_read cc directive i ds tail rest d e h =
    ap (λ s. read_seconds (pos 0) (cut_value s)) rest
    ∙ ap (read_seconds (pos 0)) (cut_value-digits ds tail d e)
    ∙ read_seconds-value 0 ds d h

parse_positive :
    (cc directive : Bytes) (i n : ℕ)
    → index (to_lower cc) directive ≡ some i
    → read_seconds (pos 0) (cut_value (drop (i + length directive) (to_lower cc))) ≡ pos n
    → 0 < n
    → parse_cc_directive cc directive ≡ duration (pos n) second
unfolding parse_cc_directive
parse_positive cc directive i n found read above =
    rw (found, parse_cc_directive, read) (ground arith)

-- A directive that stands at the first place where its name is found, followed by digits and then by
-- a comma, a space or the end, gives the value of the digits in nanoseconds, if it is positive and
-- an int64 can hold it.
pub parse_cc_directive-value :
    (cc directive ds tail : Bytes) (i : ℕ)
    → index (to_lower cc) directive ≡ some i
    → drop (i + length directive) (to_lower cc) ≡ ds ++ tail
    → All IsDigit ds
    → IsEnd tail
    → 0 < value_from 0 ds
    → value_from 0 ds * 1000000000 < 2 ^ 63
    → parse_cc_directive cc directive ≡ pos (value_from 0 ds * 1000000000)
parse_cc_directive-value cc directive ds tail i found rest d e above below =
    parse_positive cc directive i (value_from 0 ds) found
      (seconds_read cc directive i ds tail rest d e (omega arith)) above
    ∙ duration-pos (value_from 0 ds) below
