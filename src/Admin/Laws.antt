-- ===== src/Admin/Laws.antt =====
-- internal/admin/handler.go: who may use the admin API, and what it does to the cache.
use open_flare.Prelude.{
  ◌≡◌, ◌≢◌, ◌⊎◌, refl, Bool, true, false, not, ◌&&◌, ltb, [], ◌∷◌, ◌++◌, some, arith, if◌then◌else◌,
  inl, inr, Bool-cases, Option-cases,
}
use open_flare.Prelude.Int.{ℤ}
use open_flare.Text.{Bytes, codes, str_eq, is_empty, equal_fold, has_prefix}
use open_flare.Text.Laws.{str_eq_iff}
use open_flare.Http.{Request, header_get}
use open_flare.Cache.Backend.{MemoryBackend, new_memory_backend, stats, delete, delete_by_path}
use open_flare.Cache.Backend.Invariant.{IsValid}
use open_flare.Cache.Backend.Runs.{
  Reach, IsBounded, Reach-IsBounded, next, step_delete, step_delete_by_path, step_delete_by_prefix,
  step_purge,
}
use open_flare.Admin.{
  Decoder, Answer, authenticate, cut_space, purge_key, handle_cache_purge,
  handle_cache_purge_prefix, handle_cache_purge_all, route, serve_admin,
}

-- What a request must carry: the token alone, or behind the word Bearer.
abbrev pub HasToken : Bytes → Request → Type 0
HasToken auth_token r =
    (header_get r.headers (codes "Authorization") ≡ auth_token)
    ⊎ ((scheme : Bytes) × (equal_fold scheme (codes "Bearer") ≡ true)
        × (header_get r.headers (codes "Authorization") ≡ scheme ++ b' ' ∷ auth_token))

cut_space-append :
    (s scheme token : Bytes) → cut_space s ≡ some (scheme, token) → s ≡ scheme ++ b' ' ∷ token
unfolding cut_space
cut_space-append [] scheme token h = absurd (ground arith)
cut_space-append (c ∷ s) scheme token h = elim (Option-cases (cut_space s)) [
  | inl p ↦ ground (arith, str_eq_iff (c ∷ []) (codes " "))
  | inr ((start, rest), p) ↦
      ground (arith, cut_space-append s start rest p, str_eq_iff (c ∷ []) (codes " "))
]

authenticate-HasToken :
    (auth_token : Bytes) (r : Request)
    → auth_token ≢ []
    → authenticate auth_token r ≡ true
    → HasToken auth_token r
unfolding authenticate
authenticate-HasToken auth_token r given h =
    elim (Option-cases (cut_space (header_get r.headers (codes "Authorization")))) [
      | inl p ↦
          inl (ground (arith, str_eq_iff (header_get r.headers (codes "Authorization")) auth_token))
      | inr ((scheme, token), p) ↦ elim (Bool-cases (equal_fold scheme (codes "Bearer"))) [
        | inl bearer ↦ inr (
          scheme,
          bearer,
          ground (
            arith,
            str_eq_iff token auth_token,
            cut_space-append (header_get r.headers (codes "Authorization")) scheme token p,
          ),
        )
        | inr other ↦
            inl
              (ground (arith, str_eq_iff (header_get r.headers (codes "Authorization")) auth_token))
      ]
    ]

-- Where a token is configured, a request that does not carry it, alone or behind the word Bearer and a
-- space, is refused and changes nothing in the cache.
pub serve_admin-HasToken :
    (auth_token : Bytes) (json : Decoder) (r : Request) (m : MemoryBackend)
    → auth_token ≢ []
    → HasToken auth_token r ⊎ (serve_admin auth_token json r m ≡ (Answer.unauthorized, m))
unfolding serve_admin
serve_admin-HasToken auth_token json r m given = elim (Bool-cases (authenticate auth_token r)) [
  | inl p ↦ inl (authenticate-HasToken auth_token r given p)
  | inr p ↦ inr (rw p refl)
]

-- The cache behind an answer is in a state that calls reach.
record IsKept (start : MemoryBackend) (x : Answer × MemoryBackend) : Type 0 where
  reached : Reach start x.1

module _ (start m : MemoryBackend) (reach : Reach start m) where
  IsKept-if :
      (p : Bool) (x y : Answer × MemoryBackend)
      → IsKept start x
      → IsKept start y
      → IsKept start (if p then x else y)
  IsKept-if true x y hx hy = hx
  IsKept-if false x y hx hy = hy

  purge_key-IsKept : (key : Bytes) → IsKept start (purge_key key m)
  unfolding purge_key
  purge_key-IsKept key =
      IsKept-if (not (delete key m).1 && has_prefix key (codes "/"))
        (
          Answer.deleted (ltb 0 (delete_by_path key (delete key m).0).1) key,
          (delete_by_path key (delete key m).0).0,
        )
        (Answer.deleted (delete key m).1 key, (delete key m).0)
        (record { reached = next (next reach (step_delete key)) (step_delete_by_path key) })
        (record { reached = next reach (step_delete key) })

  handle_cache_purge-IsKept :
      (json : Decoder) (r : Request) → IsKept start (handle_cache_purge json r m)
  unfolding handle_cache_purge
  handle_cache_purge-IsKept json r = elim (Option-cases (json.decode_purge r.body)) [
    | inl p ↦ rw (p, handle_cache_purge) (record { reached = reach })
    | inr ((url, key), p) ↦
        rw (p, handle_cache_purge) (purge_key-IsKept (if is_empty key then url else key))
  ]

  handle_cache_purge_prefix-IsKept :
      (json : Decoder) (r : Request) → IsKept start (handle_cache_purge_prefix json r m)
  unfolding handle_cache_purge_prefix
  handle_cache_purge_prefix-IsKept json r = elim (Option-cases (json.decode_prefix r.body)) [
    | inl p ↦ rw (p, handle_cache_purge_prefix) (record { reached = reach })
    | inr (prefix, p) ↦
        rw (p, handle_cache_purge_prefix)
          (record { reached = next reach (step_delete_by_prefix prefix) })
  ]

  route-IsKept : (json : Decoder) (r : Request) → IsKept start (route json r m)
  unfolding route handle_cache_purge_all
  route-IsKept json r =
      let purges_all =
        IsKept-if (asks (codes "/admin/cache/purge-all") (codes "POST")) (handle_cache_purge_all m)
          (Answer.not_found, m) (record { reached = next reach step_purge })
          (record { reached = reach }) in
      let purges_prefix =
        IsKept-if (asks (codes "/admin/cache/purge-prefix") (codes "POST"))
          (handle_cache_purge_prefix json r m) _ (handle_cache_purge_prefix-IsKept json r)
          purges_all in
      let purges =
        IsKept-if (asks (codes "/admin/cache/purge") (codes "POST")) (handle_cache_purge json r m) _
          (handle_cache_purge-IsKept json r) purges_prefix in
      IsKept-if (asks (codes "/admin/cache/stats") (codes "GET")) (Answer.cache_stats (stats m), m)
        _ (record { reached = reach }) purges
    where
      asks : Bytes → Bytes → Bool
      asks path method = str_eq r.path path && str_eq r.method method

-- Whatever an admin request asks for, a cache in a state that calls reach from a new one is left in
-- such a state, which is valid and keeps the limits.
pub serve_admin-Reach :
    (a b : ℤ) (auth_token : Bytes) (json : Decoder) (r : Request) (m : MemoryBackend)
    → Reach (new_memory_backend a b) m
    → Reach (new_memory_backend a b) (serve_admin auth_token json r m).1
      × IsValid (serve_admin auth_token json r m).1
      × IsBounded a b (serve_admin auth_token json r m).1
unfolding serve_admin
serve_admin-Reach a b auth_token json r m reach =
    let after =
      IsKept-if (new_memory_backend a b) m reach (authenticate auth_token r) (route json r m)
        (Answer.unauthorized, m) (route-IsKept (new_memory_backend a b) m reach json r)
        (record { reached = reach }) in
    let (valid, bounded) = Reach-IsBounded a b after.reached in (after.reached, valid, bounded)
