-- ===== src/Normalize.antt =====
-- internal/normalize/normalize.go: the normal form of a path, a query and an Accept-Encoding header,
-- and the cache key.
pub mod Key
pub mod Paths
pub mod Settings
pub mod Gather
pub mod Queries
pub mod RoundTrips
pub mod Settled
pub mod Encodings
pub mod Agreement
use open_flare.Prelude.{
  ◌≡◌, refl, ℕ, Bool, true, false, not, ◌&&◌, List, [], ◌∷◌, ◌++◌, Option, none, some, map, ◌==◌,
  if◌then◌else◌, filter,
}
use open_flare.Text.{
  Bytes, codes, str_eq, is_empty, has_prefix, has_suffix, to_lower, to_upper, split, join, sort,
  trim_space,
}
use open_flare.Url.{path_unescape, unescape, clean, parse_query, Values, query_escape}

-- The first of the parts that `strings.Split` gives.
abbrev first_part : List Bytes → Bytes
first_part [] = []
first_part (p ∷ ps) = p

-- The two corrections after the cleaning: a leading slash, and the trailing slash of the original.
unfoldable pub with_slashes : Bytes → Bytes → Bytes
with_slashes p cleaned =
    let rooted = if has_prefix cleaned (codes "/") then cleaned else b'/' ∷ cleaned in
    if has_suffix p (codes "/")
      && not (has_suffix rooted (codes "/"))
      && not (str_eq rooted (codes "/"))
    then rooted ++ codes "/"
    else rooted

-- `url.PathUnescape`, or the text itself where that is an error.
unfoldable pub decode_path : Bytes → Bytes
unfolding unescape
decode_path p = elim (path_unescape p) [ none ↦ p | some d ↦ d ]

-- The function `Path`.
unfoldable pub path : Bytes → Bytes
path p = if is_empty p then codes "/" else with_slashes p (clean (decode_path p))

-- `key=value` for each value of a key.
unfoldable pub pairs_of : Bytes → List Bytes → List Bytes
pairs_of k [] = []
pairs_of k (v ∷ vs) = (query_escape k ++ codes "=" ++ query_escape v) ∷ pairs_of k vs

-- The values of a key.
unfoldable pub values_of : Bytes → Values → List Bytes
values_of k [] = []
values_of k ((j, vs) ∷ m) = if str_eq j k then vs else values_of k m

-- The loop over the sorted keys.
unfoldable pub all_pairs : List Bytes → Values → List Bytes
all_pairs [] m = []
all_pairs (k ∷ ks) m = pairs_of k (sort (values_of k m)) ++ all_pairs ks m

unfoldable pub trim_question : Bytes → Bytes
trim_question [] = []
trim_question (c ∷ s) = if c == b'?' then s else c ∷ s

-- The function `Query`.
unfoldable pub query : Bytes → Bytes
unfolding parse_query sort join all_pairs pairs_of values_of query_escape trim_question str_eq
query q = if is_empty q then [] else elim (parse_query (trim_question q)) [
  | none ↦ trim_question q
  | some values ↦ join (all_pairs (sort (map (λ b. b.0) values)) values) (codes "&")
]

-- The function `AcceptEncoding`.
unfoldable pub accept_encoding : Bytes → Bytes
unfolding to_lower split trim_space sort join filter
accept_encoding ae =
    if is_empty ae
    then codes "identity"
    else join
        (sort (
          filter (λ e. not (is_empty e))
            (map (λ p. trim_space (first_part (split p b';'))) (split (to_lower ae) b','))))
        (codes ",")

-- The method in the key: a HEAD counts as a GET.
unfoldable pub key_method : Bytes → Bytes
unfolding to_upper str_eq
key_method method = if str_eq (to_upper method) (codes "HEAD") then codes "GET" else to_upper method

-- The function `CacheKey`.
unfoldable pub cache_key : Bytes → Bytes → Bytes → Bytes → Bytes → Bytes
cache_key method host req_path q ae =
    key_method method
    ++ b'|'
      ∷ (to_lower host ++ b'|' ∷ (path req_path ++ b'|' ∷ (query q ++ b'|' ∷ accept_encoding ae)))
