-- ===== src/Admin.antt =====
-- internal/admin/handler.go: the admin API. The JSON decoding of a request body is a parameter, and an
-- answer is a status with what it reports.
pub mod Laws
pub mod Purges
use open_flare.Prelude.{
  ℕ, Bool, true, false, not, ◌&&◌, List, [], ◌∷◌, Option, none, some, if◌then◌else◌, ltb,
}
use open_flare.Text.{Bytes, codes, str_eq, is_empty, equal_fold, has_prefix}
use open_flare.Http.{Request, header_get}
use open_flare.Cache.Backend.{
  MemoryBackend, Stats, stats, delete, delete_by_path, delete_by_prefix, purge,
}

-- What the decoder reads of a body: the fields `url` and `key`, or the field `prefix`; `none` is an
-- error.
pub record Decoder : Type 0 where
  pub decode_purge : Option Bytes → Option (Bytes × Bytes)
  pub decode_prefix : Option Bytes → Option Bytes

pub data Answer : Type 0 where
  unauthorized not_found invalid_request_body : Answer
  cache_stats : Stats → Answer
  deleted : Bool → Bytes → Answer
  deleted_count : ℕ → Bytes → Answer
  purged_count : ℕ → Answer

-- `strings.SplitN(s, " ", 2)`, if it has two parts.
unfoldable pub cut_space : Bytes → Option (Bytes × Bytes)
cut_space [] = none
cut_space (c ∷ s) =
    let rest = cut_space s in
    if str_eq (c ∷ []) (codes " ")
    then some ([], s)
    else elim rest [ none ↦ none | some (scheme, token) ↦ some (c ∷ scheme, token) ]

unfoldable pub authenticate : Bytes → Request → Bool
authenticate auth_token r =
    let auth = header_get r.headers (codes "Authorization") in
    if is_empty auth_token then true else if is_empty auth then false else elim (cut_space auth) [
      | none ↦ str_eq auth auth_token
      | some (scheme, token) ↦
          if equal_fold scheme (codes "Bearer")
          then str_eq token auth_token
          else str_eq auth auth_token
    ]

-- `handleCachePurge` behind the decoding: the exact key, and a path if that deletes nothing.
unfoldable pub purge_key : Bytes → MemoryBackend → Answer × MemoryBackend
purge_key key m =
    let (m₁, exact) = delete key m in
    let (m₂, count) = delete_by_path key m₁ in
    if not exact && has_prefix key (codes "/")
    then (deleted (ltb 0 count) key, m₂)
    else (deleted exact key, m₁)

unfoldable pub handle_cache_purge : Decoder → Request → MemoryBackend → Answer × MemoryBackend
handle_cache_purge json r m = elim (json.decode_purge r.body) [
  | none ↦ (invalid_request_body, m)
  | some (url, key) ↦ purge_key (if is_empty key then url else key) m
]

unfoldable pub handle_cache_purge_prefix :
    Decoder → Request → MemoryBackend → Answer × MemoryBackend
handle_cache_purge_prefix json r m = elim (json.decode_prefix r.body) [
  | none ↦ (invalid_request_body, m)
  | some prefix ↦ let (m', count) = delete_by_prefix prefix m in (deleted_count count prefix, m')
]

unfoldable pub handle_cache_purge_all : MemoryBackend → Answer × MemoryBackend
handle_cache_purge_all m = let (m', count) = purge m in (purged_count count, m')

-- The switch over path and method.
unfoldable pub route : Decoder → Request → MemoryBackend → Answer × MemoryBackend
route json r m =
    if str_eq r.path (codes "/admin/cache/stats") && str_eq r.method (codes "GET")
    then (cache_stats (stats m), m)
    else if str_eq r.path (codes "/admin/cache/purge") && str_eq r.method (codes "POST")
    then handle_cache_purge json r m
    else if str_eq r.path (codes "/admin/cache/purge-prefix") && str_eq r.method (codes "POST")
    then handle_cache_purge_prefix json r m
    else if str_eq r.path (codes "/admin/cache/purge-all") && str_eq r.method (codes "POST")
    then handle_cache_purge_all m
    else (not_found, m)

-- `ServeHTTP`, with the token of the configuration.
unfoldable pub serve_admin : Bytes → Decoder → Request → MemoryBackend → Answer × MemoryBackend
serve_admin auth_token json r m =
    if authenticate auth_token r then route json r m else (unauthorized, m)
