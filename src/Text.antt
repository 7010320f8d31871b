-- ===== src/Text.antt =====
-- Go strings as lists of bytes, and what the proxy uses of the packages `strings` and `sort`. Case
-- is folded for ASCII letters only: the methods, hosts, header names and directives are ASCII.
pub mod Laws
pub mod Sorted
pub mod Parts
use Prim.Native.Char.{code}
use Prim.Native.String.{String}
use open_flare.Prelude.{
  ℕ, suc, ◌+◌, ◌-◌, Bool, true, false, ◌&&◌, ◌||◌, List, [], ◌∷◌, ◌++◌, Option, none, some, map,
  ltb, leb, ◌==◌, if◌then◌else◌,
}
use mathlib.Core.List.{reverse}

abbrev pub Bytes : Type 0
Bytes = List ℕ

-- The bytes of an ASCII literal.
abbrev pub codes : String → Bytes
codes String.[] = []
codes (String.◌∷◌ c s) = code c ∷ codes s

-- `a == b` on strings.
unfoldable pub str_eq : Bytes → Bytes → Bool
str_eq [] [] = true
str_eq [] (b ∷ t) = false
str_eq (a ∷ s) [] = false
str_eq (a ∷ s) (b ∷ t) = a == b && str_eq s t

-- `s == ""`.
abbrev pub is_empty : Bytes → Bool
is_empty [] = true
is_empty (c ∷ s) = false

unfoldable pub has_prefix : Bytes → Bytes → Bool
has_prefix s [] = true
has_prefix [] (p ∷ ps) = false
has_prefix (c ∷ s) (p ∷ ps) = c == p && has_prefix s ps

unfoldable pub has_suffix : Bytes → Bytes → Bool
unfolding has_prefix
has_suffix s p = has_prefix (reverse s) (reverse p)

-- `strings.Index`; `none` is -1.
unfoldable pub index : Bytes → Bytes → Option ℕ
unfolding has_prefix
index [] sub = if is_empty sub then some 0 else none
index (c ∷ s) sub =
    if has_prefix (c ∷ s) sub
    then some 0
    else elim (index s sub) [ none ↦ none | some i ↦ some (suc i) ]

unfoldable pub contains : Bytes → Bytes → Bool
unfolding index
contains s sub = elim (index s sub) [ none ↦ false | some _ ↦ true ]

-- `strings.IndexAny` with a set of single bytes, given as a test.
unfoldable pub index_where : (ℕ → Bool) → Bytes → Option ℕ
index_where p [] = none
index_where p (c ∷ s) =
    if p c then some 0 else elim (index_where p s) [ none ↦ none | some i ↦ some (suc i) ]

unfoldable pub lower : ℕ → ℕ
lower c = if leb b'A' c && leb c b'Z' then c + 32 else c

unfoldable pub upper : ℕ → ℕ
upper c = if leb b'a' c && leb c b'z' then c - 32 else c

unfoldable pub to_lower : Bytes → Bytes
unfolding lower
to_lower s = map lower s

unfoldable pub to_upper : Bytes → Bytes
unfolding upper
to_upper s = map upper s

unfoldable pub equal_fold : Bytes → Bytes → Bool
unfolding str_eq to_lower
equal_fold s t = str_eq (to_lower s) (to_lower t)

-- The loop of `strings.Split` for a separator of one byte; `cur` is the part that is being read.
unfoldable pub split_from : ℕ → Bytes → Bytes → List Bytes
split_from sep cur [] = cur ∷ []
split_from sep cur (c ∷ s) = elim (c == sep) [
  | true ↦ cur ∷ split_from sep [] s
  | false ↦ split_from sep (cur ++ c ∷ []) s
]

unfoldable pub split : Bytes → ℕ → List Bytes
unfolding split_from
split s sep = split_from sep [] s

unfoldable pub join : List Bytes → Bytes → Bytes
join [] sep = []
join (p ∷ []) sep = p
join (p ∷ q ∷ ps) sep = p ++ sep ++ join (q ∷ ps) sep

is_space : ℕ → Bool
is_space c = c == 32 || (leb 9 c && leb c 13)

trim_left : Bytes → Bytes
trim_left [] = []
trim_left (c ∷ s) = elim (is_space c) [ true ↦ trim_left s | false ↦ c ∷ s ]

unfoldable pub trim_space : Bytes → Bytes
unfolding trim_left is_space
trim_space s = reverse (trim_left (reverse (trim_left s)))

-- `a <= b` on strings.
unfoldable pub str_leb : Bytes → Bytes → Bool
str_leb [] t = true
str_leb (a ∷ s) [] = false
str_leb (a ∷ s) (b ∷ t) = ltb a b || (a == b && str_leb s t)

insert_sorted : Bytes → List Bytes → List Bytes
insert_sorted s [] = s ∷ []
insert_sorted s (t ∷ ts) = if str_leb s t then s ∷ t ∷ ts else t ∷ insert_sorted s ts

-- `sort.Strings`.
unfoldable pub sort : List Bytes → List Bytes
unfolding insert_sorted str_leb
sort [] = []
sort (s ∷ ss) = insert_sorted s (sort ss)
