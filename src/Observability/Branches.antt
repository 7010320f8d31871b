-- ===== src/Observability/Branches.antt =====
-- The metrics of internal/proxy/handler.go, branch by branch.
use open_flare.Prelude.{ℕ, ◌≡◌, true, false, [], ◌∷◌, ◌++◌, none, some}
use open_flare.Text.{Bytes, codes}
use open_flare.Http.{Request}
use open_flare.Config.{RootConfig}
use open_flare.Regexp.{RegexpEngine}
use open_flare.Net.{NetPackage}
use open_flare.RateLimit.{TokenBucket}
use open_flare.Cache.Backend.{Entry, MemoryBackend, get, set, stats}
use open_flare.Cache.Policy.{Policy, is_response_storable}
use open_flare.Proxy.Handler.{Handler, request_key, is_bypassed, shared_fetch}
use open_flare.Proxy.Branches.{filled}
use open_flare.Proxy.Replies.{Origin, fetch_from_origin}
use open_flare.Observability.{Metrics, inc, set_gauge}
use open_flare.Observability.Emit.{
  proxy_calls, fetch_calls, store_calls, shared_fetch_calls, answer_calls, handle_with_cache_calls,
}

module _ (ms : Metrics) (rx : RegexpEngine) (net : NetPackage) (tb : TokenBucket) where
  module _ (now : ℕ) (policy : Policy rx) (key : Bytes) (r : Request) (e : Entry)
      (m : MemoryBackend) where
    pub store_calls-refused :
        (is_response_storable policy.cfg e.status_code e.headers).0 ≡ false
        → store_calls ms rx net tb now policy key r e m ≡ []
    unfolding store_calls
    store_calls-refused p = rw (p, store_calls)

    pub store_calls-stored :
        (m' : MemoryBackend)
        → (is_response_storable policy.cfg e.status_code e.headers).0 ≡ true
        → set key (filled rx now policy key r e) m ≡ some m'
        → store_calls ms rx net tb now policy key r e m
          ≡ inc ms.cache_operations (codes "store" ∷ [])
            ∷ set_gauge ms.cache_size_bytes (stats m').size_bytes
            ∷ set_gauge ms.cache_entries (stats m').entries
            ∷ []
    unfolding store_calls
    store_calls-stored m' p q = rw (p, q, store_calls)

  module _ (origin : Origin) (now : ℕ) (cfg : RootConfig) (policy : Policy rx) (key : Bytes)
      (r : Request) (m : MemoryBackend) where
    pub shared_fetch_calls-found :
        (e : Entry)
        → (get now key m).1 ≡ some e
        → shared_fetch_calls ms rx net tb origin now cfg policy key r m ≡ []
    unfolding shared_fetch_calls
    shared_fetch_calls-found e p = rw (p, shared_fetch_calls)

    pub shared_fetch_calls-failed :
        (get now key m).1 ≡ none
        → fetch_from_origin origin cfg r ≡ none
        → shared_fetch_calls ms rx net tb origin now cfg policy key r m
          ≡ fetch_calls ms rx net tb origin cfg r ++ []
    unfolding shared_fetch_calls
    shared_fetch_calls-failed p q = rw (p, q, shared_fetch_calls)

    pub shared_fetch_calls-fetched :
        (e : Entry)
        → (get now key m).1 ≡ none
        → fetch_from_origin origin cfg r ≡ some e
        → shared_fetch_calls ms rx net tb origin now cfg policy key r m
          ≡ fetch_calls ms rx net tb origin cfg r
            ++ store_calls ms rx net tb now policy key r e (get now key m).0
    unfolding shared_fetch_calls
    shared_fetch_calls-fetched e p q = rw (p, q, shared_fetch_calls)

  module _ (origin : Origin) (now : ℕ) (r : Request) (h : Handler rx net tb) where
    pub handle_with_cache_calls-bypass :
        is_bypassed rx net tb h r ≡ true
        → handle_with_cache_calls ms rx net tb origin now r h
          ≡ inc ms.cache_operations (codes "bypass" ∷ []) ∷ proxy_calls ms rx net tb h.cfg
    unfolding handle_with_cache_calls
    handle_with_cache_calls-bypass p = rw (p, handle_with_cache_calls)

    pub handle_with_cache_calls-hit :
        (e : Entry)
        → is_bypassed rx net tb h r ≡ false
        → (get now (request_key r) h.cache_backend).1 ≡ some e
        → handle_with_cache_calls ms rx net tb origin now r h
          ≡ inc ms.cache_operations (codes "hit" ∷ []) ∷ []
    unfolding handle_with_cache_calls
    handle_with_cache_calls-hit e p q = rw (p, q, handle_with_cache_calls)

    pub handle_with_cache_calls-miss :
        is_bypassed rx net tb h r ≡ false
        → (get now (request_key r) h.cache_backend).1 ≡ none
        → handle_with_cache_calls ms rx net tb origin now r h
          ≡ inc ms.cache_operations (codes "miss" ∷ [])
            ∷ (shared_fetch_calls ms rx net tb origin now h.cfg h.cache_policy
                  (request_key r)
                  r
                  (get now (request_key r) h.cache_backend).0
                ++ answer_calls ms rx net tb h.cfg (
                    shared_fetch rx net tb origin now h.cfg h.cache_policy
                      (request_key r)
                      r
                      (get now (request_key r) h.cache_backend).0))
    unfolding handle_with_cache_calls
    handle_with_cache_calls-miss p q = rw (p, q, handle_with_cache_calls)
