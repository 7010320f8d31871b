-- ===== src/Observability/Totals.antt =====
-- internal/proxy/handler.go: over a sequence of requests the metrics of the cache operations agree with
-- the counters of the cache.
use open_flare.Prelude.{
  ℕ, ◌*◌, ◌≡◌, refl, Bool, true, false, List, [], ◌∷◌, ◌++◌, Option, none, some, inl, inr, ◌⊎◌,
  arith, if◌then◌else◌, ap,
}
use open_flare.Prelude.Int.{ℤ, pos, ltb_ℤ}
use open_flare.Text.{Bytes, codes}
use open_flare.Http.{Request}
use open_flare.Config.{RateLimitRule}
use open_flare.Regexp.{RegexpEngine}
use open_flare.Net.{NetPackage}
use open_flare.Security.{set_forwarded_headers}
use open_flare.RateLimit.{TokenBucket}
use open_flare.Cache.Backend.{MemoryBackend, new_memory_backend}
use open_flare.Cache.Backend.Runs.{Reach, here}
use open_flare.Proxy.Handler.{
  Handler, handle_with_cache, limit_check, limit_and_serve, waf_check, inspect, normalize_request,
  serve_http,
}
use open_flare.Proxy.Replies.{Reply, is_built_in, built_in, deny, proxy_to_origin, Origin}
use open_flare.Observability.{Call, new_metrics}
use open_flare.Observability.Emit.{
  handle_with_cache_calls, limit_and_serve_calls, serve_http_calls, allow_calls, evaluate_calls,
  proxy_calls,
}
use open_flare.Observability.Counts.{
  counted, CountsNone, evaluate_calls-CountsNone, allow_calls-CountsNone,
}
use open_flare.Observability.Accounts.{
  IsAccounted, IsReached, IsAccounted-none, IsAccounted-trans, CountsNone-nil,
}
use open_flare.Observability.Served.{IsServed, handle_with_cache-IsServed}
use open_flare.App.Serving.{Arrival}

module _ (rx : RegexpEngine) (net : NetPackage) (tb : TokenBucket)
    (quote_json : Bytes → Bytes) where
  -- The calls that some requests make, one after the other, and the handler that they leave; `none` is
  -- a request that is never answered.
  unfoldable pub record_all :
      List Arrival → Handler rx net tb → Option (List Call × Handler rx net tb)
  record_all [] h = some ([], h)
  record_all (x ∷ xs) h =
      elim (serve_http rx net tb x.origin quote_json x.now x.request_id x.request h) [
        | none ↦ none
        | some (reply, h') ↦ elim (record_all xs h') [
          | none ↦ none
          | some (calls, h'') ↦ some (
            serve_http_calls new_metrics rx net tb x.origin x.now x.request_id x.request h ++ calls,
            h'',
          )
        ]
      ]

  module _ (a b : ℤ) (room : ltb_ℤ (pos 0) a ≡ true) where
    module _ (origin : Origin) (now : ℕ) (request_id : Bytes) where
      abbrev Served : Handler rx net tb → List Call → Option (Reply × Handler rx net tb) → Type 0
      Served = IsServed rx net tb a b room origin now

      quiet-Served :
          (h : Handler rx net tb) (reply : Reply) (cs : List Call)
          → IsReached rx net tb a b room h.cache_backend
          → CountsNone cs
          → Served h cs (some (reply, h))
      quiet-Served h reply cs reach quiet = (reply, h, refl, reach, IsAccounted-none _ cs quiet)

      -- Calls that count no operation may come first.
      behind-Served :
          (h : Handler rx net tb) (xs ys : List Call) (x : Option (Reply × Handler rx net tb))
          → CountsNone xs
          → Served h ys x
          → Served h (xs ++ ys) x
      behind-Served h xs ys x quiet (reply, h', e, reach, counts) =
          (reply, h', e, reach, IsAccounted-trans _ _ _ xs ys (IsAccounted-none _ xs quiet) counts)

      proxy-quiet : (h : Handler rx net tb) → CountsNone (proxy_calls new_metrics rx net tb h.cfg)
      unfolding counted
      proxy-quiet h op = refl

      limit_and_serve-Served :
          (r : Request) (h : Handler rx net tb)
          → Reach (new_memory_backend a b) h.cache_backend
          → Served h
              (limit_and_serve_calls new_metrics rx net tb origin now r h)
              (limit_and_serve rx net tb origin quote_json now request_id r h)
      unfolding limit_and_serve_calls limit_and_serve
      limit_and_serve-Served r h reach =
          behind-Served h (allow_calls new_metrics rx net tb now h.rate_limiter r) _ _
            (allow_calls-CountsNone rx net tb now h.rate_limiter r)
            (by_denial (limit_check rx net tb now h.rate_limiter r).0)
        where
          h' : Handler rx net tb
          h' = record h { rate_limiter = (limit_check rx net tb now h.rate_limiter r).1 }

          r' : Request
          r' = set_forwarded_headers net r h.cfg.security.trust_x_forwarded_for

          by_cache :
              (enabled : Bool)
              → Served h'
                  (if enabled
                    then handle_with_cache_calls new_metrics rx net tb origin now r' h'
                    else proxy_calls new_metrics rx net tb h.cfg)
                  (if enabled
                    then handle_with_cache rx net tb origin now request_id r' h'
                    else some (proxy_to_origin origin [] r', h'))
          by_cache true =
              handle_with_cache-IsServed rx net tb a b room origin now request_id r' h' reach
          by_cache false = quiet-Served h' _ _ reach (proxy-quiet h)

          by_denial :
              (denied : Option RateLimitRule)
              → Served h'
                  (elim denied [
                    | some rule ↦ []
                    | none ↦
                        if h.cfg.cache.enabled
                        then handle_with_cache_calls new_metrics rx net tb origin now r' h'
                        else proxy_calls new_metrics rx net tb h.cfg
                  ])
                  (elim denied [
                    | some rule ↦ some (deny quote_json rule.id, h')
                    | none ↦
                        if h.cfg.cache.enabled
                        then handle_with_cache rx net tb origin now request_id r' h'
                        else some (proxy_to_origin origin [] r', h')
                  ])
          by_denial (some rule) = quiet-Served h' _ [] reach CountsNone-nil
          by_denial none = by_cache h.cfg.cache.enabled

      serve_http-Served :
          (r : Request) (h : Handler rx net tb)
          → Reach (new_memory_backend a b) h.cache_backend
          → Served h
              (serve_http_calls new_metrics rx net tb origin now request_id r h)
              (serve_http rx net tb origin quote_json now request_id r h)
      unfolding serve_http_calls serve_http
      serve_http-Served r h reach = by_path (is_built_in r.path)
        where
          body : Bytes
          body = (inspect h.cfg r).0

          r' : Request
          r' = normalize_request (inspect h.cfg r).1

          calls : Reply ⊎ Request → List Call
          calls verdict =
              evaluate_calls new_metrics rx net tb h.waf_engine r' body ++ elim verdict [
                | inl reply ↦ []
                | inr passed ↦ limit_and_serve_calls new_metrics rx net tb origin now passed h
              ]

          answer : Reply ⊎ Request → Option (Reply × Handler rx net tb)
          answer verdict = elim verdict [
            | inl reply ↦ some (reply, h)
            | inr passed ↦ limit_and_serve rx net tb origin quote_json now request_id passed h
          ]

          by_verdict : (verdict : Reply ⊎ Request) → Served h (calls verdict) (answer verdict)
          by_verdict (inl reply) =
              behind-Served h _ [] _ (evaluate_calls-CountsNone rx net tb h.waf_engine r' body)
                (quiet-Served h reply [] reach CountsNone-nil)
          by_verdict (inr passed) =
              behind-Served h _ _ _ (evaluate_calls-CountsNone rx net tb h.waf_engine r' body)
                (limit_and_serve-Served passed h reach)

          by_path :
              (found : Bool)
              → Served h
                  (if found
                    then []
                    else calls (waf_check rx net tb request_id h.waf_engine r' body))
                  (if found
                    then some (built_in r.path, h)
                    else answer (waf_check rx net tb request_id h.waf_engine r' body))
          by_path true = quiet-Served h _ [] reach CountsNone-nil
          by_path false = by_verdict (waf_check rx net tb request_id h.waf_engine r' body)

    record_all-Served :
        (xs : List Arrival) (h : Handler rx net tb)
        → Reach (new_memory_backend a b) h.cache_backend
        → (calls : List Call) × (h' : Handler rx net tb) × (record_all xs h ≡ some (calls, h'))
          × IsAccounted h.cache_backend calls h'.cache_backend
    unfolding record_all
    record_all-Served [] h reach = ([], h, refl, IsAccounted-none _ [] CountsNone-nil)
    record_all-Served (x ∷ xs) h reach =
        let (reply, h', run, reach', counts) =
          serve_http-Served x.origin x.now x.request_id x.request h reach in
        let (calls, h'', rest, more) = record_all-Served xs h' reach' in
        (
          _,
          h'',
          rw (run, record_all) (rw (rest, record_all) refl),
          IsAccounted-trans _ _ _ _ calls counts more,
        )

    -- Any sequence of requests, one after the other, to a handler with a new cache and a positive limit
    -- of entries is answered, and then the counters of the cache agree with the metrics: the hits,
    -- bypasses and stores are those that the metrics count, the misses are twice those.
    pub record_all-IsAccounted :
        (xs : List Arrival) (h : Handler rx net tb)
        → h.cache_backend ≡ new_memory_backend a b
        → (calls : List Call) × (h' : Handler rx net tb) × (record_all xs h ≡ some (calls, h'))
          × (h'.cache_backend.hits ≡ counted (codes "hit") calls)
          × (h'.cache_backend.misses ≡ 2 * counted (codes "miss") calls)
          × (h'.cache_backend.bypasses ≡ counted (codes "bypass") calls)
          × (h'.cache_backend.stores ≡ counted (codes "store") calls)
    unfolding new_memory_backend
    record_all-IsAccounted xs h e =
        let (calls, h', run, counts) = record_all-Served xs h (rw e here) in
        (
          calls,
          h',
          run,
          omega (arith, counts.hits, ap (λ (m : MemoryBackend). m.hits) e),
          omega (arith, counts.misses, ap (λ (m : MemoryBackend). m.misses) e),
          omega (arith, counts.bypasses, ap (λ (m : MemoryBackend). m.bypasses) e),
          omega (arith, counts.stores, ap (λ (m : MemoryBackend). m.stores) e),
        )
