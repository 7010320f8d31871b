-- ===== src/Url.antt =====
-- What the proxy uses of the packages `net/url` and `path`: unescaping, escaping, the parsing of a
-- query and `path.Clean`. `none` is an error.
pub mod Escapes
use mathlib.Core.List.{reverse}
use open_flare.Prelude.{
  ℕ, ◌+◌, ◌-◌, ◌*◌, ◌/◌, ◌%◌, Bool, true, false, not, ◌&&◌, ◌||◌, List, [], ◌∷◌, ◌++◌, Option, none,
  some, leb, ltb, ◌==◌, if◌then◌else◌, any, take, drop,
}
use open_flare.Text.{Bytes, codes, str_eq, is_empty, index_where, split, join}

-- The value of a hexadecimal digit.
unfoldable pub unhex : ℕ → Option ℕ
unhex c =
    if leb b'0' c && leb c b'9'
    then some (c - b'0')
    else if leb b'a' c && leb c b'f'
    then some (c - b'a' + 10)
    else if leb b'A' c && leb c b'F'
    then some (c - b'A' + 10)
    else none

abbrev byte_of : Option ℕ → Option ℕ → Option ℕ
byte_of none b = none
byte_of (some a) none = none
byte_of (some a) (some b) = some (a * 16 + b)

abbrev prepend : ℕ → Option Bytes → Option Bytes
prepend c none = none
prepend c (some s) = some (c ∷ s)

-- `url.QueryUnescape` if `plus` is set, where a plus is a space, and `url.PathUnescape` if not.
unfoldable pub unescape : Bool → Bytes → Option Bytes
unfolding unhex
unescape plus [] = some []
unescape plus (c ∷ []) =
    if c == b'%' then none else if plus && c == b'+' then some (b' ' ∷ []) else some (c ∷ [])
unescape plus (c ∷ d ∷ []) =
    let rest = unescape plus (d ∷ []) in
    if c == b'%' then none else if plus && c == b'+' then prepend b' ' rest else prepend c rest
unescape plus (c ∷ a ∷ b ∷ s) =
    let after = unescape plus s in
    let rest = unescape plus (a ∷ b ∷ s) in
    if c == b'%'
    then elim (byte_of (unhex a) (unhex b)) [ none ↦ none | some v ↦ prepend v after ]
    else if plus && c == b'+'
    then prepend b' ' rest
    else prepend c rest

abbrev pub path_unescape : Bytes → Option Bytes
path_unescape = unescape false

abbrev pub query_unescape : Bytes → Option Bytes
query_unescape = unescape true

is_unreserved : ℕ → Bool
is_unreserved c =
    (leb b'a' c && leb c b'z')
    || (leb b'A' c && leb c b'Z')
    || (leb b'0' c && leb c b'9')
    || c == b'-'
    || c == b'_'
    || c == b'.'
    || c == b'~'

hex_digit : ℕ → ℕ
hex_digit n = if ltb n 10 then b'0' + n else b'A' + (n - 10)

escape_byte : ℕ → Bytes
escape_byte c =
    if is_unreserved c
    then c ∷ []
    else if c == b' '
    then b'+' ∷ []
    else b'%' ∷ hex_digit (c / 16) ∷ hex_digit (c % 16) ∷ []

-- `url.QueryEscape`.
unfoldable pub query_escape : Bytes → Bytes
unfolding is_unreserved hex_digit escape_byte
query_escape [] = []
query_escape (c ∷ s) = escape_byte c ++ query_escape s

-- `url.Values`: each key once, with its values in order.
abbrev pub Values : Type 0
Values = List (Bytes × List Bytes)

unfoldable pub add_value : Bytes → Bytes → Values → Values
unfolding str_eq
add_value k v [] = (k, v ∷ []) ∷ []
add_value k v ((j, vs) ∷ m) =
    if str_eq j k then (j, vs ++ v ∷ []) ∷ m else (j, vs) ∷ add_value k v m

-- `strings.Cut` at the first equals sign.
unfoldable pub cut_pair : Bytes → Bytes × Bytes
unfolding index_where
cut_pair s = elim (index_where (λ c. c == b'=') s) [
  | none ↦ (s, [])
  | some i ↦ (take i s, drop (i + 1) s)
]

abbrev pub add_pair : Option Bytes → Option Bytes → Values → Option Values
add_pair none v m = none
add_pair (some k) none m = none
add_pair (some k) (some v) m = some (add_value k v m)

-- One setting of the query; the error of any of them makes the whole an error.
unfoldable pub parse_setting : Bytes → Values → Option Values
unfolding any cut_pair unescape add_value
parse_setting s m =
    if any (λ c. c == b';') s
    then none
    else if is_empty s
    then some m
    else add_pair (query_unescape (cut_pair s).0) (query_unescape (cut_pair s).1) m

unfoldable pub parse_settings : List Bytes → Values → Option Values
parse_settings [] m = some m
parse_settings (s ∷ ss) m = elim (parse_setting s m) [
  | none ↦ none
  | some m' ↦ parse_settings ss m'
]

-- `url.ParseQuery`.
unfoldable pub parse_query : Bytes → Option Values
unfolding parse_setting parse_settings split
parse_query q = parse_settings (split q b'&') []

-- What a parent element does to the stack.
unfoldable pub climb : Bool → List Bytes → List Bytes
unfolding str_eq
climb true [] = []
climb false [] = codes ".." ∷ []
climb rooted (top ∷ stack) =
    if str_eq top (codes "..") && not rooted then codes ".." ∷ top ∷ stack else stack

-- One element of a path in `path.Clean`: the stack has its top at the head. A parent element is kept
-- only at the start of a relative path.
unfoldable pub resolve : Bool → List Bytes → Bytes → List Bytes
unfolding str_eq climb
resolve rooted stack part =
    if is_empty part || str_eq part (codes ".")
    then stack
    else if str_eq part (codes "..")
    then climb rooted stack
    else part ∷ stack

unfoldable pub resolve_all : Bool → List Bytes → List Bytes → List Bytes
unfolding resolve
resolve_all rooted stack [] = stack
resolve_all rooted stack (part ∷ parts) = resolve_all rooted (resolve rooted stack part) parts

-- `path.Clean`.
unfoldable pub clean : Bytes → Bytes
unfolding resolve_all split join
clean [] = codes "."
clean (c ∷ s) =
    let rooted = c == b'/' in
    let out = join (reverse (resolve_all rooted [] (split (c ∷ s) b'/'))) (codes "/") in
    if rooted then b'/' ∷ out else if is_empty out then codes "." else out
