-- ===== src/Proxy/Branches.antt =====
-- The branches of the handler, as equations.
use open_flare.Prelude.{ℕ, ◌≡◌, true, false, none, some}
use open_flare.Text.{Bytes, codes}
use open_flare.Http.{Request}
use open_flare.Config.{RootConfig}
use open_flare.Regexp.{RegexpEngine}
use open_flare.Net.{NetPackage}
use open_flare.RateLimit.{TokenBucket}
use open_flare.Cache.Backend.{Entry, MemoryBackend, get, set, increment_bypasses}
use open_flare.Cache.Policy.{Policy, is_response_storable, determine_ttl}
use open_flare.Proxy.Handler.{
  Handler, store_entry, shared_fetch, answer_miss, handle_with_cache, request_key, is_bypassed,
}
use open_flare.Proxy.Replies.{Origin, fetch_from_origin, debug_headers, write_entry}

-- A fetched entry as it is stored.
unfoldable pub filled : (rx : RegexpEngine) → ℕ → Policy rx → Bytes → Request → Entry → Entry
filled rx now policy key r e = record e {
  key = key;
  ttl = determine_ttl rx policy r.path e.headers;
  stored_at = now;
}

module _ (rx : RegexpEngine) (net : NetPackage) (tb : TokenBucket) where
  module _ (now : ℕ) (policy : Policy rx) (key : Bytes) (r : Request) (e : Entry)
      (m : MemoryBackend) where
    pub store_entry-refused :
        (is_response_storable policy.cfg e.status_code e.headers).0 ≡ false
        → store_entry rx net tb now policy key r e m ≡ some (some e, m)
    unfolding store_entry
    store_entry-refused p = rw (p, store_entry)

    pub store_entry-stored :
        (m' : MemoryBackend)
        → (is_response_storable policy.cfg e.status_code e.headers).0 ≡ true
        → set key (filled rx now policy key r e) m ≡ some m'
        → store_entry rx net tb now policy key r e m
          ≡ some (some (filled rx now policy key r e), m')
    unfolding store_entry filled
    store_entry-stored m' p q = rw (p, q, store_entry)

  module _ (origin : Origin) (now : ℕ) (cfg : RootConfig) (policy : Policy rx) (key : Bytes)
      (r : Request) (m : MemoryBackend) where
    pub shared_fetch-found :
        (e : Entry)
        → (get now key m).1 ≡ some e
        → shared_fetch rx net tb origin now cfg policy key r m ≡ some (some e, (get now key m).0)
    unfolding shared_fetch
    shared_fetch-found e p = rw (p, shared_fetch)

    pub shared_fetch-failed :
        (get now key m).1 ≡ none
        → fetch_from_origin origin cfg r ≡ none
        → shared_fetch rx net tb origin now cfg policy key r m ≡ some (none, (get now key m).0)
    unfolding shared_fetch
    shared_fetch-failed p q = rw (p, q, shared_fetch)

    pub shared_fetch-fetched :
        (e : Entry)
        → (get now key m).1 ≡ none
        → fetch_from_origin origin cfg r ≡ some e
        → shared_fetch rx net tb origin now cfg policy key r m
          ≡ store_entry rx net tb now policy key r e (get now key m).0
    unfolding shared_fetch
    shared_fetch-fetched e p q = rw (p, q, shared_fetch)

  module _ (origin : Origin) (now : ℕ) (request_id : Bytes) (r : Request)
      (h : Handler rx net tb) where
    pub handle_with_cache-bypass :
        is_bypassed rx net tb h r ≡ true
        → handle_with_cache rx net tb origin now request_id r h
          ≡ some (
            origin.reverse_proxy (debug_headers h.cfg (codes "BYPASS")) r,
            record h { cache_backend = increment_bypasses h.cache_backend },
          )
    unfolding handle_with_cache
    handle_with_cache-bypass p = rw (p, handle_with_cache)

    pub handle_with_cache-hit :
        (e : Entry)
        → is_bypassed rx net tb h r ≡ false
        → (get now (request_key r) h.cache_backend).1 ≡ some e
        → handle_with_cache rx net tb origin now request_id r h
          ≡ some (
            write_entry (debug_headers h.cfg (codes "HIT")) e,
            record h { cache_backend = (get now (request_key r) h.cache_backend).0 },
          )
    unfolding handle_with_cache
    handle_with_cache-hit e p q = rw (p, q, handle_with_cache)

    pub handle_with_cache-miss :
        is_bypassed rx net tb h r ≡ false
        → (get now (request_key r) h.cache_backend).1 ≡ none
        → handle_with_cache rx net tb origin now request_id r h
          ≡ answer_miss rx net tb request_id h (
              shared_fetch rx net tb origin now h.cfg h.cache_policy
                (request_key r)
                r
                (get now (request_key r) h.cache_backend).0)
    unfolding handle_with_cache
    handle_with_cache-miss p q = rw (p, q, handle_with_cache)
