-- ===== src/Proxy/Handler.antt =====
-- internal/proxy/handler.go: the stages of the handler. One request is run to its end.
use open_flare.Prelude.{
  ℕ, Bool, not, ◌&&◌, ◌||◌, [], ◌∷◌, ◌++◌, Option, none, some, ◌⊎◌, inl, inr, if◌then◌else◌,
}
use open_flare.Prelude.Int.{ℤ, pos, pos_part, leb_ℤ}
use open_flare.Text.{Bytes, codes, str_eq, is_empty}
use open_flare.Http.{Request, header_get, header_set}
use open_flare.Config.{RootConfig, RateLimitRule}
use open_flare.Regexp.{RegexpEngine}
use open_flare.Net.{NetPackage}
use open_flare.Security.{set_forwarded_headers}
use open_flare.RateLimit.{TokenBucket, Limiter}
use open_flare.Cache.Backend.{Entry, MemoryBackend, get, set, increment_bypasses}
use open_flare.Cache.Policy.{Policy, is_request_cacheable, is_response_storable, determine_ttl}
use open_flare.Normalize.{cache_key}
use open_flare.Normalize
use open_flare.RateLimit
use open_flare.Waf.{Engine, evaluate, get_block_status_code, read_body_for_inspection}
use open_flare.Proxy.Replies.{
  Reply, Origin, fetch_from_origin, debug_headers, proxy_to_origin, write_entry, serve_cached,
  upstream_error, deny, is_built_in, built_in,
}

abbrev is_zero : ℤ → Bool
is_zero n = leb_ℤ n (pos 0) && leb_ℤ (pos 0) n

-- The key that `handleWithCache` builds.
unfoldable pub request_key : Request → Bytes
request_key r =
    cache_key r.method r.host r.path r.raw_query (header_get r.headers (codes "Accept-Encoding"))

-- The body that the firewall sees, and the request with what is left of its stream.
unfoldable pub inspect : RootConfig → Request → Bytes × Request
inspect cfg r =
    if is_zero r.content_length
    then ([], r)
    else read_body_for_inspection r (pos_part cfg.security.max_body_inspect_bytes)

unfoldable pub normalize_request : Request → Request
normalize_request r = record r {
  path = Normalize.path r.path;
  raw_query = if is_empty r.raw_query then r.raw_query else Normalize.query r.raw_query;
}

module _ (rx : RegexpEngine) (net : NetPackage) (tb : TokenBucket) where
  -- `Handler`; an engine or a limiter that is nil is `none`.
  pub record Handler : Type 0 where
    pub cfg : RootConfig
    pub cache_backend : MemoryBackend
    pub cache_policy : Policy rx
    pub waf_engine : Option (Engine rx net)
    pub rate_limiter : Option (Limiter tb)

  -- The request is served without the cache.
  unfoldable pub is_bypassed : Handler → Request → Bool
  is_bypassed h r =
      not (is_request_cacheable rx h.cache_policy r).0
      || str_eq (header_get r.headers (codes "X-OpenFlare-No-Cache")) (codes "1")

  -- The store decision for a fetched entry: the entry, which is filled in where it is stored, and the
  -- cache afterwards. `none` is a `Set` that never returns.
  unfoldable pub store_entry :
      ℕ
      → Policy rx
      → Bytes
      → Request
      → Entry
      → MemoryBackend
      → Option (Option Entry × MemoryBackend)
  store_entry now policy key r e m =
      let stored : Entry = record e {
        key = key;
        ttl = determine_ttl rx policy r.path e.headers;
        stored_at = now;
      } in
      if (is_response_storable policy.cfg e.status_code e.headers).0
      then elim (set key stored m) [ none ↦ none | some m' ↦ some (some stored, m') ]
      else some (some e, m)

  -- The call that the requests for a key share: a second lookup, the fetch and the store. The result
  -- has no entry where the exchange failed.
  unfoldable pub shared_fetch :
      Origin
      → ℕ
      → RootConfig
      → Policy rx
      → Bytes
      → Request
      → MemoryBackend
      → Option (Option Entry × MemoryBackend)
  shared_fetch origin now cfg policy key r m =
      let (m', found) = get now key m in
      elim found [
        | some e ↦ some (some e, m')
        | none ↦ elim (fetch_from_origin origin cfg r) [
          | none ↦ some (none, m')
          | some e ↦ store_entry now policy key r e m'
        ]
      ]

  -- The answer to a miss, by the result of the call.
  unfoldable pub answer_miss :
      Bytes → Handler → Option (Option Entry × MemoryBackend) → Option (Reply × Handler)
  answer_miss request_id h none = none
  answer_miss request_id h (some (none, m)) =
      some (upstream_error request_id, record h { cache_backend = m })
  answer_miss request_id h (some (some e, m)) =
      some (write_entry (debug_headers h.cfg (codes "MISS")) e, record h { cache_backend = m })

  -- `handleWithCache`.
  unfoldable pub handle_with_cache :
      Origin → ℕ → Bytes → Request → Handler → Option (Reply × Handler)
  handle_with_cache origin now request_id r h =
      let key = request_key r in
      let (m, found) = get now key h.cache_backend in
      if is_bypassed h r
      then some (
        proxy_to_origin origin (debug_headers h.cfg (codes "BYPASS")) r,
        record h { cache_backend = increment_bypasses h.cache_backend },
      )
      else elim found [
        | some e ↦ some (serve_cached h.cfg e, record h { cache_backend = m })
        | none ↦ answer_miss request_id h (shared_fetch origin now h.cfg h.cache_policy key r m)
      ]

  -- The firewall: the answer to a blocked request, or the request that goes on.
  unfoldable pub waf_check : Bytes → Option (Engine rx net) → Request → Bytes → Reply ⊎ Request
  waf_check request_id none r body = inr r
  waf_check request_id (some engine) r body =
      let d = evaluate rx net engine r body in
      if d.matched && str_eq d.action (codes "block")
      then inl (record {
        status = get_block_status_code rx net engine d.rule_id;
        headers =
            (codes "Content-Type", codes "application/json" ∷ [])
            ∷ (codes "X-Request-ID", request_id ∷ [])
            ∷ [];
        body = codes "{\"error\":\"blocked by WAF\",\"rule_id\":\"" ++ (d.rule_id ++ codes "\"}");
      })
      else if d.matched && str_eq d.action (codes "bypass_cache")
      then inr
          (record r { headers = header_set r.headers (codes "X-OpenFlare-No-Cache") (codes "1") })
      else inr r

  -- The rate limiter: the rule that denies the request, if one does.
  unfoldable pub limit_check :
      ℕ → Option (Limiter tb) → Request → Option RateLimitRule × Option (Limiter tb)
  limit_check now none r = (none, none)
  limit_check now (some l) r =
      let (denied, l') = RateLimit.allow tb net now r l in (denied, some l')

  -- The stages behind the firewall.
  unfoldable pub limit_and_serve :
      Origin → (Bytes → Bytes) → ℕ → Bytes → Request → Handler → Option (Reply × Handler)
  limit_and_serve origin quote_json now request_id r h =
      let (denied, limiter) = limit_check now h.rate_limiter r in
      let h' : Handler = record h { rate_limiter = limiter } in
      let forwarded = set_forwarded_headers net r h.cfg.security.trust_x_forwarded_for in
      elim denied [
        | some rule ↦ some (deny quote_json rule.id, h')
        | none ↦
            if h.cfg.cache.enabled
            then handle_with_cache origin now request_id forwarded h'
            else some (proxy_to_origin origin [] forwarded, h')
      ]

  -- `ServeHTTP`.
  unfoldable pub serve_http :
      Origin → (Bytes → Bytes) → ℕ → Bytes → Request → Handler → Option (Reply × Handler)
  serve_http origin quote_json now request_id r h =
      let (body, rest) = inspect h.cfg r in
      if is_built_in r.path
      then some (built_in r.path, h)
      else elim (waf_check request_id h.waf_engine (normalize_request rest) body) [
        | inl reply ↦ some (reply, h)
        | inr r' ↦ limit_and_serve origin quote_json now request_id r' h
      ]
