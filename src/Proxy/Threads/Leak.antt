-- ===== src/Proxy/Threads/Leak.antt =====
-- internal/proxy/handler.go: the group hands on what must not be stored.
use open_flare.Prelude.{◌≡◌, false, [], some}
use open_flare.Http.{Request}
use open_flare.Regexp.{RegexpEngine}
use open_flare.Net.{NetPackage}
use open_flare.RateLimit.{TokenBucket}
use open_flare.Cache.Backend.{Entry, MemoryBackend}
use open_flare.Cache.Backend.Invariant.{IsValid}
use open_flare.Cache.Backend.Runs
use open_flare.Cache.Policy.{is_response_storable}
use open_flare.Proxy.Handler.{Handler, request_key, is_bypassed}
use open_flare.Proxy.Replies.{Origin, fetch_from_origin}

-- A valid cache without entries.
record IsBlank (m : MemoryBackend) : Type 0 where
  valid : IsValid m
  blank : m.evict_list ≡ []

module _ (rx : RegexpEngine) (net : NetPackage) (tb : TokenBucket) (h : Handler rx net tb)
    (origin : Origin) (r r' : Request) (e : Entry) where
  -- Two requests with one key go through the cache, and the origin's answer to the one must not be
  -- stored.
  pub record IsLeak : Type 0 where
    pub unbypassed : is_bypassed rx net tb h r ≡ false
    pub unbypassed' : is_bypassed rx net tb h r' ≡ false
    pub same_key : request_key r ≡ request_key r'
    pub answered : fetch_from_origin origin h.cfg r ≡ some e
    pub unstorable : (is_response_storable h.cache_policy.cfg e.status_code e.headers).0 ≡ false
